-- ===== src/Exec/Scheduler/Runs.antt =====
-- The invariant of the loop as a whole, by the phase that it is in.
use putup.Prelude.{
  ℕ, zero, suc, ◌+◌, ◌≤◌, ◌<◌, ◌≡◌, refl, sym, ◌∙◌, false, not, ◌&&◌, ◌||◌, List, [], ◌∷◌, none,
  some, count, length, ltb, leb, ◌==◌, if◌then◌else◌, if_both, if_cases, arith, is_nil, is_nil→eq,
  Bool-cases, ==_iff, ◌⊎◌, inl, inr,
}
use putup.Exec.Scheduler.{
  Options, Round, Run, Slots, reap_slots, kill_slots, Phase, going, stopped, aborted, Loop,
  launch_phase, reap_phase, turn, execute, initially_ready, empty_slots, begin,
}
use putup.Exec.Scheduler.Counts.{
  starts, ends, oks, pending, occurs, active, IsJustified, goods, bads,
}
use putup.Exec.Scheduler.Steps.{IsDependencyMap, Inv}
use putup.Exec.Scheduler.Safety.{launch_all-Holds, reap_all-Holds}

count-initially_ready :
    (in_degree : ℕ → ℕ) (i n k : ℕ)
    → count k (initially_ready in_degree i n)
      ≡ (if leb i k && ltb k (i + n) && (in_degree k == 0) then 1 else 0)
unfolding initially_ready
count-initially_ready in_degree i zero k = ground arith
count-initially_ready in_degree i (suc n) k = elim (Bool-cases (i == k)) [
  | inl here ↦
      let same : i ≡ k = (==_iff i k).0 here in
      rw same (ground (arith, count-initially_ready in_degree (k + 1) n k))
  | inr away ↦ ground (arith, count-initially_ready in_degree (i + 1) n k)
]

empty_slots-idle : (n k : ℕ) → (occurs k (empty_slots n) ≡ 0) × (active (empty_slots n) ≡ 0)
empty_slots-idle zero k = (refl, refl)
empty_slots-idle (suc n) k = empty_slots-idle n k

pending-empty : (ds : List ℕ) → pending ds [] ≡ length ds
pending-empty [] = refl
pending-empty (d ∷ ds) = omega (arith, pending-empty ds)

module _ (deps : ℕ → List ℕ) (total : ℕ) where
  -- What the callbacks and the counters satisfy, however the loop ends.
  pub record Sound (r : Run) : Type 0 where
    pub justified : IsJustified deps r.log
    pub once : (k : ℕ) → starts k r.log ≤ 1
    pub ended : (k : ℕ) → ends k r.log ≤ starts k r.log
    pub bounded : (k : ℕ) → 0 < starts k r.log → k < total
    pub clean : r.failed ≡ false → (k : ℕ) → oks k r.log ≡ ends k r.log
    pub good_count : r.completed_jobs ≡ goods r.log
    pub bad_count : r.failed_jobs ≡ bads r.log
    pub finish_count : r.finished_count ≡ goods r.log + bads r.log

  -- Nothing runs and nothing is ready, or all jobs are finished.
  abbrev pub IsIdle : Run → Type 0
  IsIdle r = ((r.running ≡ 0) × (r.ready_queue ≡ [])) ⊎ total ≤ r.finished_count

module _ (deps dependents : ℕ → List ℕ) (total : ℕ) where
  pub begin-Inv :
      (in_degree : ℕ → ℕ) (max_jobs : ℕ)
      → ((k : ℕ) → in_degree k ≡ length (deps k))
      → Inv deps dependents total
          (λ k. occurs k (empty_slots max_jobs))
          (active (empty_slots max_jobs))
          (begin in_degree total)
  unfolding begin
  begin-Inv in_degree max_jobs d = record {
    balance = λ k. omega (arith, (empty_slots-idle max_jobs k).0);
    once = λ k. ground (arith, count-initially_ready in_degree 0 total k);
    degree = λ k. d k ∙ sym (pending-empty (deps k));
    settled = λ k h.
        ground (arith, count-initially_ready in_degree 0 total k, d k, pending-empty (deps k));
    offered = λ k h p.
        ground (arith, count-initially_ready in_degree 0 total k, d k, pending-empty (deps k));
    bounded = λ k h. ground (arith, count-initially_ready in_degree 0 total k);
    justified = tt;
    live_count = sym (empty_slots-idle max_jobs 0).1;
    clean = λ h k. refl;
    good_count = refl;
    bad_count = refl;
    finish_count = refl;
  }

  pub Inv-Sound :
      {occ : ℕ → ℕ} {live : ℕ} {r : Run} → Inv deps dependents total occ live r → Sound deps total r
  Inv-Sound i = record {
    justified = i.justified;
    once = λ k. omega (arith, i.once k);
    ended = λ k. omega (arith, i.balance k);
    bounded = λ k h. i.bounded k (omega arith);
    clean = i.clean;
    good_count = i.good_count;
    bad_count = i.bad_count;
    finish_count = i.finish_count;
  }

  abbrev pub Stays : Slots → Run → Type 0
  Stays slots r = Inv deps dependents total (λ k. occurs k slots) (active slots) r

  -- What each phase keeps.
  abbrev pub Keeps : Phase → Slots → Run → Type 0
  Keeps going slots r = Stays slots r
  Keeps stopped slots r = Stays slots r × IsIdle deps total r
  Keeps aborted slots r = Sound deps total r × (r.running ≡ 0) × (active slots ≡ 0)

  kill_slots-Keeps :
      (options : Options) (round : Round) (slots : Slots) (r : Run)
      → Sound deps total r
      → r.running ≡ active slots
      → Keeps aborted
          (kill_slots dependents options round slots r).0
          (kill_slots dependents options round slots r).1
  unfolding kill_slots
  kill_slots-Keeps options round [] r s e = (s, e, refl)
  kill_slots-Keeps options round (none ∷ slots) r s e = kill_slots-Keeps options round slots r s e
  kill_slots-Keeps options round (some j ∷ slots) r s e =
      kill_slots-Keeps options round slots _
        (record {
          justified = s.justified;
          once = s.once;
          ended = s.ended;
          bounded = s.bounded;
          clean = s.clean;
          good_count = s.good_count;
          bad_count = s.bad_count;
          finish_count = s.finish_count;
        })
        (ground arith)

  abbrev pub Kept : Loop → Type 0
  Kept l = Keeps l.phase l.slots l.run

  module _ (m : IsDependencyMap deps dependents total) (options : Options) where
    pub launch_phase-Stays :
        (round : Round) (slots : Slots) (r : Run)
        → Stays slots r
        → Stays
            (launch_phase dependents options round slots r).0
            (launch_phase dependents options round slots r).1
    unfolding launch_phase
    launch_phase-Stays round slots r i =
        if_both {A = Slots × Run} (λ p. Stays p.0 p.1) (not r.failed || options.keep_going) _ _
          (launch_all-Holds deps dependents total m options round slots r i) i

    reap_phase-Kept :
        (round : Round) (slots : Slots) (r : Run)
        → Stays slots r
        → Kept (reap_phase dependents options round slots r)
    unfolding reap_phase
    reap_phase-Kept round slots r i =
        let p = reap_slots dependents options round 0 slots r in
        let q = kill_slots dependents options round p.0 p.1 in
        let after = reap_all-Holds deps dependents total m options round slots r i in
        if_both Kept (round.cancelled || (p.1.failed && not options.keep_going))
          (record { slots = q.0; run = q.1; phase = aborted })
          (record { slots = p.0; run = p.1; phase = going })
          (kill_slots-Keeps options round p.0 p.1 (Inv-Sound after) after.live_count) after

    pub turn-Kept :
        (round : Round) (slots : Slots) (r : Run)
        → Stays slots r
        → Kept (turn dependents options round slots r)
    unfolding turn
    turn-Kept round slots r i =
        let p = launch_phase dependents options round slots r in
        let launched = launch_phase-Stays round slots r i in
        if_cases Kept (p.1.running == 0 && is_nil p.1.ready_queue)
          (record { slots = p.0; run = p.1; phase = stopped })
          (reap_phase dependents options round p.0 p.1)
          (λ e. (launched, inl (ground arith, is_nil→eq p.1.ready_queue (ground arith))))
          (λ e. reap_phase-Kept round p.0 p.1 launched)

    pub execute-Kept :
        (rounds : List Round) (l : Loop) → Kept l → Kept (execute dependents options total rounds l)
    unfolding execute
    execute-Kept [] l k = k
    execute-Kept (round ∷ rounds) l k = from (execute-Kept rounds) l.phase l.slots l.run k
      where
        from :
            ((l : Loop) → Kept l → Kept (execute dependents options total rounds l))
            → (p : Phase) (slots : Slots) (r : Run) → Keeps p slots r
            → Kept (
                execute dependents options total
                  (round ∷ rounds)
                  (record { slots = slots; run = r; phase = p }))
        from next going slots r i =
            if_cases Kept (ltb r.finished_count total)
              (execute dependents options total rounds (turn dependents options round slots r))
              (record { slots = slots; run = r; phase = stopped })
              (λ e. next _ (turn-Kept round slots r i)) (λ e. (i, inr (ground arith)))
        from next stopped slots r i = i
        from next aborted slots r i = i
