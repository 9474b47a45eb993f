-- ===== src/Exec/Scheduler/Safety.antt =====
-- The invariant under the two passes over the slots.
use putup.Prelude.{
  ℕ, suc, ◌+◌, ◌≡◌, refl, ap, sym, ◌∙◌, List, [], ◌∷◌, Option, none, some, if_both, arith,
}
use putup.Exec.Scheduler.{
  Options, Round, JobExit, Run, Slots, decrement, succeeds, launch_next, launch_slots, reap_job,
  reap_next, reap_slots,
}
use putup.Exec.Scheduler.Counts.{occurs, active}
use putup.Exec.Scheduler.Steps.{
  IsDependencyMap, unit_at, Inv, start_job-Inv, fail_job-Inv, complete_job-Inv,
}

-- a field of `Inv` reads `occ` point by point
pub Inv-occ :
    (deps dependents : ℕ → List ℕ) (total : ℕ) {occ occ' : ℕ → ℕ} {live live' : ℕ} {r : Run}
    → Inv deps dependents total occ live r
    → ((k : ℕ) → occ' k ≡ occ k)
    → live' ≡ live
    → Inv deps dependents total occ' live' r
Inv-occ deps dependents total i e l = record {
  balance = λ k. rw (e k) (i.balance k);
  once = i.once;
  degree = i.degree;
  settled = i.settled;
  offered = i.offered;
  bounded = i.bounded;
  justified = i.justified;
  live_count = i.live_count ∙ sym l;
  clean = i.clean;
  good_count = i.good_count;
  bad_count = i.bad_count;
  finish_count = i.finish_count;
}

module _ (deps dependents : ℕ → List ℕ) (total : ℕ) (m : IsDependencyMap deps dependents total)
    (options : Options) (round : Round) where
  -- `before` and `n` stand for the slots that the loop has passed
  abbrev pub Holds : (ℕ → ℕ) → ℕ → Slots → Run → Type 0
  Holds before n slots r =
      Inv deps dependents total (λ k. before k + occurs k slots) (n + active slots) r

  live_more :
      {occ : ℕ → ℕ} {live : ℕ} {r : Run}
      → Inv deps dependents total occ live r
      → Inv deps dependents total occ (live + 1) (record r { running = r.running + 1 })
  live_more i = record {
    balance = i.balance;
    once = i.once;
    degree = i.degree;
    settled = i.settled;
    offered = i.offered;
    bounded = i.bounded;
    justified = i.justified;
    live_count = ap (λ x. x + 1) i.live_count;
    clean = i.clean;
    good_count = i.good_count;
    bad_count = i.bad_count;
    finish_count = i.finish_count;
  }

  live_less :
      {occ : ℕ → ℕ} {live : ℕ} {r : Run}
      → Inv deps dependents total occ (suc live) r
      → Inv deps dependents total occ live (record r { running = decrement r.running })
  live_less i = record {
    balance = i.balance;
    once = i.once;
    degree = i.degree;
    settled = i.settled;
    offered = i.offered;
    bounded = i.bounded;
    justified = i.justified;
    live_count = ground (arith, i.live_count);
    clean = i.clean;
    good_count = i.good_count;
    bad_count = i.bad_count;
    finish_count = i.finish_count;
  }

  -- the slot that the body leaves, and the variables
  launch_next-Holds :
      (before : ℕ → ℕ) (n : ℕ) (slots : Slots) (queue : List ℕ) (r : Run)
      → r.ready_queue ≡ queue
      → Holds before n slots r
      → Holds before n
          ((launch_next dependents options round queue r).0 ∷ slots)
          (launch_next dependents options round queue r).1
  unfolding launch_next
  launch_next-Holds before n slots [] r e i = i
  launch_next-Holds before n slots (j ∷ rest) r e i =
      let go = start_job-Inv deps dependents total _ _ j rest r i e in
      let left : Option ℕ × Run → Type 0 = λ p. Holds before n (p.0 ∷ slots) p.1 in
      if_both left options.dry_run _ _ (complete_job-Inv deps dependents total m _ _ j _ go) (
        if_both left (round.launches j) _ _
          (Inv-occ deps dependents total
            (start_job-Inv deps dependents total _ _ j rest _ (live_more i) e) (λ k. omega arith)
            (omega arith))
          (fail_job-Inv deps dependents total _ _ j _ go))

  -- what the rest of the slots does while one slot stays as it is
  beyond :
      (before : ℕ → ℕ) (n : ℕ) (slot : Option ℕ) (slots slots' : Slots) (r r' : Run)
      → Holds before n (slot ∷ slots) r
      → ((b : ℕ → ℕ) (k : ℕ) → Holds b k slots r → Holds b k slots' r')
      → Holds before n (slot ∷ slots') r'
  beyond before n none slots slots' r r' i step = step before n i
  beyond before n (some j) slots slots' r r' i step =
      Inv-occ deps dependents total
        (step (λ k. before k + unit_at j k) (suc n)
          (Inv-occ deps dependents total i (λ k. omega arith) (omega arith)))
        (λ k. omega arith) (omega arith)

  pub launch_slots-Holds :
      (before : ℕ → ℕ) (n : ℕ) (slots : Slots) (r : Run)
      → Holds before n slots r
      → Holds before n
          (launch_slots dependents options round slots r).0
          (launch_slots dependents options round slots r).1
  unfolding launch_slots
  launch_slots-Holds before n [] r i = i
  launch_slots-Holds before n (some j ∷ slots) r i =
      beyond before n (some j) slots (launch_slots dependents options round slots r).0 r _ i
        (λ b k. launch_slots-Holds b k slots r)
  launch_slots-Holds before n (none ∷ slots) r i =
      let next = launch_next dependents options round r.ready_queue r in
      beyond before n next.0 slots (launch_slots dependents options round slots next.1).0 next.1 _
        (launch_next-Holds before n slots r.ready_queue r refl i)
        (λ b k. launch_slots-Holds b k slots next.1)

  reap_job-Holds :
      (before : ℕ → ℕ) (n j : ℕ) (slots : Slots) (e : JobExit) (r : Run)
      → Holds before n (some j ∷ slots) r
      → Holds before n slots (reap_job dependents options round j e r)
  unfolding reap_job
  reap_job-Holds before n j slots e r i =
      let off = live_less (
        Inv-occ deps dependents total {occ' = λ k. unit_at j k + (before k + occurs k slots)}
          {live' = suc (n + active slots)} i (λ k. omega arith) (omega arith)) in
      if_both (Holds before n slots) (succeeds e) _ _
        (complete_job-Inv deps dependents total m _ _ j _ off)
        (fail_job-Inv deps dependents total _ _ j _ off)

  reap_next-Holds :
      (before : ℕ → ℕ) (n j : ℕ) (slots : Slots) (o : Option JobExit) (r : Run)
      → Holds before n (some j ∷ slots) r
      → Holds before n
          ((reap_next dependents options round j o r).0 ∷ slots)
          (reap_next dependents options round j o r).1
  unfolding reap_next
  reap_next-Holds before n j slots none r h = h
  reap_next-Holds before n j slots (some e) r h = reap_job-Holds before n j slots e r h

  pub reap_slots-Holds :
      (before : ℕ → ℕ) (n i : ℕ) (slots : Slots) (r : Run)
      → Holds before n slots r
      → Holds before n
          (reap_slots dependents options round i slots r).0
          (reap_slots dependents options round i slots r).1
  unfolding reap_slots
  reap_slots-Holds before n i [] r h = h
  reap_slots-Holds before n i (none ∷ slots) r h = reap_slots-Holds before n (i + 1) slots r h
  reap_slots-Holds before n i (some j ∷ slots) r h =
      let next = reap_next dependents options round j (round.exits i) r in
      beyond before n next.0 slots (reap_slots dependents options round (i + 1) slots next.1).0
        next.1 _ (reap_next-Holds before n j slots (round.exits i) r h)
        (λ b k. reap_slots-Holds b k (i + 1) slots next.1)

  -- the passes from the first slot on
  pub launch_all-Holds :
      (slots : Slots) (r : Run)
      → Inv deps dependents total (λ k. occurs k slots) (active slots) r
      → let p = launch_slots dependents options round slots r in
        Inv deps dependents total (λ k. occurs k p.0) (active p.0) p.1
  launch_all-Holds slots r i =
      Inv-occ deps dependents total
        (launch_slots-Holds (λ k. 0) 0 slots r
          (Inv-occ deps dependents total i (λ k. omega arith) (omega arith)))
        (λ k. omega arith) (omega arith)

  pub reap_all-Holds :
      (slots : Slots) (r : Run)
      → Inv deps dependents total (λ k. occurs k slots) (active slots) r
      → let p = reap_slots dependents options round 0 slots r in
        Inv deps dependents total (λ k. occurs k p.0) (active p.0) p.1
  reap_all-Holds slots r i =
      Inv-occ deps dependents total
        (reap_slots-Holds (λ k. 0) 0 0 slots r
          (Inv-occ deps dependents total i (λ k. omega arith) (omega arith)))
        (λ k. omega arith) (omega arith)
