-- ===== src/Exec/Scheduler/Width.antt =====
-- Lemmas on the number of slots.
use putup.Prelude.{
  ℕ, zero, suc, ◌+◌, ◌≤◌, ◌≡◌, refl, ap, ◌∙◌, not, ◌&&◌, ◌||◌, List, [], ◌∷◌, none, some, length,
  ltb, ◌==◌, if_both, arith, is_nil,
}
use putup.Exec.Scheduler.{
  Options, Round, Run, Slots, launch_slots, reap_slots, kill_slots, Phase, going, stopped, aborted,
  Loop, launch_phase, reap_phase, turn, execute, empty_slots,
}
use putup.Exec.Scheduler.Counts.{active}

pub active-le-length : (slots : Slots) → active slots ≤ length slots
active-le-length [] = omega arith
active-le-length (none ∷ slots) = omega (arith, active-le-length slots)
active-le-length (some j ∷ slots) = omega (arith, active-le-length slots)

pub length-empty_slots : (n : ℕ) → length (empty_slots n) ≡ n
length-empty_slots zero = refl
length-empty_slots (suc n) = omega (arith, length-empty_slots n)

module _ (dependents : ℕ → List ℕ) (options : Options) where
  launch_slots-width :
      (round : Round) (slots : Slots) (r : Run)
      → length (launch_slots dependents options round slots r).0 ≡ length slots
  unfolding launch_slots
  launch_slots-width round [] r = refl
  launch_slots-width round (some j ∷ slots) r = ap suc (launch_slots-width round slots r)
  launch_slots-width round (none ∷ slots) r = ap suc (launch_slots-width round slots _)

  reap_slots-width :
      (round : Round) (i : ℕ) (slots : Slots) (r : Run)
      → length (reap_slots dependents options round i slots r).0 ≡ length slots
  unfolding reap_slots
  reap_slots-width round i [] r = refl
  reap_slots-width round i (none ∷ slots) r = ap suc (reap_slots-width round (i + 1) slots r)
  reap_slots-width round i (some j ∷ slots) r = ap suc (reap_slots-width round (i + 1) slots _)

  kill_slots-width :
      (round : Round) (slots : Slots) (r : Run)
      → length (kill_slots dependents options round slots r).0 ≡ length slots
  unfolding kill_slots
  kill_slots-width round [] r = refl
  kill_slots-width round (none ∷ slots) r = ap suc (kill_slots-width round slots r)
  kill_slots-width round (some j ∷ slots) r = ap suc (kill_slots-width round slots _)

  pub turn-width :
      (round : Round) (slots : Slots) (r : Run)
      → length (turn dependents options round slots r).slots ≡ length slots
  unfolding turn launch_phase reap_phase
  turn-width round slots r =
      let p = launch_phase dependents options round slots r in
      let q = reap_slots dependents options round 0 p.0 p.1 in
      let k = kill_slots dependents options round q.0 q.1 in
      let wide : Loop → Type 0 = λ l. length l.slots ≡ length slots in
      let launched : length p.0 ≡ length slots =
        if_both {A = Slots × Run} (λ x. length x.0 ≡ length slots)
          (not r.failed || options.keep_going) (launch_slots dependents options round slots r)
          (slots, r) (launch_slots-width round slots r) refl in
      let reaped : length q.0 ≡ length slots = reap_slots-width round 0 p.0 p.1 ∙ launched in
      if_both wide (p.1.running == 0 && is_nil p.1.ready_queue)
        (record { slots = p.0; run = p.1; phase = stopped })
        (reap_phase dependents options round p.0 p.1) launched
        (if_both wide (round.cancelled || (q.1.failed && not options.keep_going))
          (record { slots = k.0; run = k.1; phase = aborted })
          (record { slots = q.0; run = q.1; phase = going })
          (kill_slots-width round q.0 q.1 ∙ reaped) reaped)

  pub execute-width :
      (total : ℕ) (rounds : List Round) (l : Loop)
      → length (execute dependents options total rounds l).slots ≡ length l.slots
  unfolding execute
  execute-width total [] l = refl
  execute-width total (round ∷ rounds) l = from (execute-width total rounds) l.phase l.slots l.run
    where
      from :
          ((l : Loop) → length (execute dependents options total rounds l).slots ≡ length l.slots)
          → (p : Phase) (slots : Slots) (r : Run)
          → length
              (execute dependents options total
                (round ∷ rounds)
                (record { slots = slots; run = r; phase = p })).slots
            ≡ length slots
      from next going slots r =
          if_both (λ l. length l.slots ≡ length slots) (ltb r.finished_count total)
            (execute dependents options total rounds (turn dependents options round slots r))
            (record { slots = slots; run = r; phase = stopped }) (next _ ∙ turn-width round slots r)
            refl
      from next stopped slots r = refl
      from next aborted slots r = refl
