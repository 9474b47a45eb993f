-- ===== src/Exec/Scheduler/Terminates.antt =====
-- Termination of the event loop in src/exec/scheduler.cpp.
use putup.Prelude.{
  ℕ, ◌+◌, ◌≤◌, ◌<◌, ◌≡◌, ◌≢◌, refl, true, false, not, ◌&&◌, ◌||◌, List, [], ◌∷◌, Option, length,
  ltb, ◌==◌, if◌then◌else◌, if_cases, arith, is_nil, eq→is_nil, ◌⊎◌, inl, inr, All, min,
}
use putup.Exec.Scheduler.{
  Options, Round, Run, Slots, launch_slots, reap_slots, kill_slots, Phase, going, stopped, aborted,
  Loop, launch_phase, reap_phase, turn, execute, begin, enter_loop, execute_parallel, empty_slots,
}
use putup.Exec.Scheduler.Counts.{active}
use putup.Exec.Scheduler.Steps.{IsDependencyMap}
use putup.Exec.Scheduler.Runs.{Stays, Keeps, turn-Kept, begin-Inv}
use putup.Exec.Scheduler.Outcome.{Inv-finished}
use putup.Exec.Scheduler.Safety.{launch_all-Holds}
use putup.Exec.Scheduler.Width.{turn-width, length-empty_slots}
use putup.Exec.Scheduler.Progress.{
  IsPrompt, launch_slots-Grows, launch_slots-offers, reap_slots-ends,
}

module _ (deps dependents : ℕ → List ℕ) (total : ℕ) (options : Options) where
  -- a turn that goes on has brought a job to its end
  abbrev Advances : Run → Loop → Type 0
  Advances r l = l.phase ≡ going → r.finished_count < l.run.finished_count

  reap_phase-Advances :
      (round : Round) (slots : Slots) (r r' : Run)
      → IsPrompt round
      → r.finished_count ≤ r'.finished_count
      → (r'.failed ≡ true × options.keep_going ≡ false)
        ⊎ ((r.finished_count < r'.finished_count) ⊎ 0 < active slots)
      → Advances r (reap_phase dependents options round slots r')
  unfolding reap_phase
  reap_phase-Advances round slots r r' prompt more h =
      let p = reap_slots dependents options round 0 slots r' in
      let k = kill_slots dependents options round p.0 p.1 in
      let ended = reap_slots-ends dependents options round 0 slots r' prompt in
      if_cases (Advances r) (round.cancelled || (p.1.failed && not options.keep_going))
        (record { slots = k.0; run = k.1; phase = aborted })
        (record { slots = p.0; run = p.1; phase = going }) (λ e wrong. cc)
        (λ e now. elim h [
          | inl (bad, stop) ↦ ground (arith, ended.1.failed bad)
          | inr (inl some_ended) ↦ omega (arith, ended.0)
          | inr (inr some_run) ↦ omega (arith, ended.0)
        ])

  some_active :
      (r : Run) (live : ℕ)
      → (r.running == 0 && is_nil r.ready_queue) ≡ false
      → r.ready_queue ≡ []
      → r.running ≡ live
      → 0 < live
  some_active r live busy empty e = ground (arith, eq→is_nil r.ready_queue empty)

  turn-Advances :
      (m : IsDependencyMap deps dependents total) (round : Round) (slot : Option ℕ) (slots : Slots)
      (r : Run)
      → IsPrompt round
      → Stays deps dependents total (slot ∷ slots) r
      → Advances r (turn dependents options round (slot ∷ slots) r)
  unfolding turn launch_phase
  turn-Advances m round slot slots r prompt stays =
      let launched = launch_slots dependents options round (slot ∷ slots) r in
      let grown = launch_slots-Grows dependents options round (slot ∷ slots) r in
      let kept = launch_all-Holds deps dependents total m options round (slot ∷ slots) r stays in
      let next : Slots × Run → Loop = λ p.
        if p.1.running == 0 && is_nil p.1.ready_queue
        then record { slots = p.0; run = p.1; phase = stopped }
        else reap_phase dependents options round p.0 p.1 in
      let stop : (p : Slots × Run) → Loop =
        λ p. record { slots = p.0; run = p.1; phase = stopped } in
      if_cases {A = Slots × Run} (λ p. Advances r (next p)) (not r.failed || options.keep_going)
        launched (slot ∷ slots, r)
        (λ e.
          if_cases (Advances r) (launched.1.running == 0 && is_nil launched.1.ready_queue)
            (stop launched) (reap_phase dependents options round launched.0 launched.1)
            (λ idle wrong. cc)
            (λ busy. reap_phase-Advances round launched.0 r launched.1 prompt grown.finished (
              inr (elim (launch_slots-offers dependents options round slot slots r) [
                | inl empty ↦
                    inr (some_active launched.1 (active launched.0) busy empty kept.live_count)
                | inr h ↦ h
              ]))))
        (λ e.
          if_cases (Advances r) (r.running == 0 && is_nil r.ready_queue) (stop (slot ∷ slots, r))
            (reap_phase dependents options round (slot ∷ slots) r) (λ idle wrong. cc)
            (λ busy.
              reap_phase-Advances round (slot ∷ slots) r r prompt (omega arith)
                (inl (ground arith, ground arith))))

  module _ (m : IsDependencyMap deps dependents total) where
    wide-Advances :
        (round : Round) (slots : Slots) (r : Run)
        → 0 < length slots
        → IsPrompt round
        → Stays deps dependents total slots r
        → Advances r (turn dependents options round slots r)
    wide-Advances round [] r wide prompt i = absurd (omega arith)
    wide-Advances round (slot ∷ slots) r wide prompt i = turn-Advances m round slot slots r prompt i

    execute-terminates :
        (rounds : List Round) (p : Phase) (slots : Slots) (r : Run)
        → 0 < length slots
        → All IsPrompt rounds
        → Keeps deps dependents total p slots r
        → (p ≡ going → total < length rounds + r.finished_count)
        → (execute dependents options total rounds
            (record { slots = slots; run = r; phase = p })).phase
          ≢ going
    unfolding execute
    execute-terminates [] going slots r wide prompt i room =
        λ e. absurd (omega (arith, room refl, Inv-finished deps dependents total _ _ r i))
    execute-terminates [] stopped slots r wide prompt i room = λ e. cc
    execute-terminates [] aborted slots r wide prompt i room = λ e. cc
    execute-terminates (round ∷ rounds) stopped slots r wide prompt i room = λ e. cc
    execute-terminates (round ∷ rounds) aborted slots r wide prompt i room = λ e. cc
    execute-terminates (round ∷ rounds) going slots r wide (now, later) i room =
        let next = turn dependents options round slots r in
        if_cases {A = Loop} (λ l. l.phase ≢ going) (ltb r.finished_count total)
          (execute dependents options total rounds next)
          (record { slots = slots; run = r; phase = stopped })
          (λ e.
            execute-terminates rounds next.phase next.slots next.run
              (omega (arith, wide, turn-width dependents options round slots r)) later
              (turn-Kept deps dependents total m options round slots r i)
              (λ on. omega (arith, room refl, wide-Advances round slots r wide now i on)))
          (λ e wrong. cc)

    -- On a map as `IsDependencyMap` describes, whose in-degrees count the dependencies, when at
    -- least one job may run at a time, there is a job, and in every round every child has left by
    -- the time its slot is looked at, the loop does not outlast one round more than there are
    -- jobs.
    pub execute_parallel_terminates :
        (in_degree : ℕ → ℕ)
        → ((k : ℕ) → in_degree k ≡ length (deps k))
        → (rounds : List Round) → All IsPrompt rounds
        → 0 < options.jobs
        → 0 < total
        → total < length rounds
        → (execute_parallel options total in_degree dependents rounds).phase ≢ going
    unfolding execute_parallel enter_loop
    execute_parallel_terminates in_degree counted rounds prompt jobs some_job many =
        let n = min options.jobs total in
        execute-terminates rounds going (empty_slots n) (begin in_degree total)
          (omega (arith, length-empty_slots n)) prompt
          (begin-Inv deps dependents total in_degree n counted) (λ e. omega arith)
