-- ===== src/Samples/SchedulerSamples.antt =====
-- Four jobs: 1 and 2 wait for 0, and 3 waits for both.
use putup.Prelude.{
  ℕ, ◌<◌, ◌≤◌, ◌≡◌, ◌≢◌, refl, true, false, List, [], ◌∷◌, none, some, count, length, ◌==◌,
  if◌then◌else◌, arith,
}
use putup.Exec.Scheduler.{
  started, completed, Options, Round, Loop, going, stopped, execute_parallel, execute, enter_loop,
  begin, initially_ready, turn, launch_phase, launch_slots, launch_next, start_job, reap_phase,
  reap_slots, reap_next, reap_job, succeeds, complete_job, fail_job, release, release_one,
  kill_slots,
}
use putup.Exec.Scheduler.Counts.{oks, ends, active}
use putup.Exec.Scheduler.Steps.{IsDependencyMap}
use putup.Exec.Scheduler.Terminates.{execute_parallel_terminates}
use putup.Exec.Scheduler.Progress.{IsPrompt}
use putup.Exec.Scheduler.Runs.{Sound}
use putup.Exec.Scheduler.Outcome.{
  execute_parallel-Sound, execute_parallel-running, execute_parallel-maximal,
  execute_parallel_complete, IsUnblocked,
}

abbrev deps : ℕ → List ℕ
deps k = if k == 1 then 0 ∷ [] else if k == 2 then 0 ∷ [] else if k == 3 then 1 ∷ 2 ∷ [] else []

abbrev dependents : ℕ → List ℕ
dependents k =
    if k == 0 then 1 ∷ 2 ∷ [] else if k == 1 then 3 ∷ [] else if k == 2 then 3 ∷ [] else []

abbrev in_degree : ℕ → ℕ
in_degree k = if k == 1 then 1 else if k == 2 then 1 else if k == 3 then 2 else 0

abbrev keep_going : Options
keep_going = record { jobs = 2; keep_going = true; dry_run = false }

-- every launch succeeds, and the children in all slots leave well
abbrev good : Round
good = record {
  launches = λ j. true;
  exits = λ i. some (record { exit_code = 0; scan_rejected = false; unwritten = [] });
  cancelled = false;
}

-- the child in the first slot leaves with an error, the others stay
abbrev bad : Round
bad = record {
  launches = λ j. true;
  exits = λ i.
      if i == 0
      then some (record { exit_code = 2; scan_rejected = false; unwritten = [] })
      else none;
  cancelled = false;
}

abbrev rounds : List Round
rounds = good ∷ good ∷ good ∷ good ∷ []

deps-IsDependencyMap : IsDependencyMap deps dependents 4
deps-IsDependencyMap = record {
  within = λ i j h. ground arith;
  mirrored = λ i j. ground arith;
  once = λ i j. ground arith;
}

in_degree-counted : (k : ℕ) → in_degree k ≡ length (deps k)
in_degree-counted k = ground arith

built :
    (execute_parallel keep_going 4 in_degree dependents rounds).run.log
    ≡ completed 3 true
      ∷ started 3
      ∷ completed 2 true
      ∷ completed 1 true
      ∷ started 2
      ∷ started 1
      ∷ completed 0 true
      ∷ started 0
      ∷ []
unfolding execute_parallel execute turn launch_phase launch_slots launch_next start_job reap_phase
    reap_slots reap_next reap_job succeeds complete_job fail_job release release_one kill_slots
    enter_loop begin initially_ready
built = refl

-- with an error the build is broken off
broken :
    (execute_parallel
      (record { jobs = 2; keep_going = false; dry_run = false })
      4
      in_degree
      dependents
      (good ∷ bad ∷ good ∷ [])).run.log
    ≡ completed 1 false ∷ started 2 ∷ started 1 ∷ completed 0 true ∷ started 0 ∷ []
unfolding execute_parallel execute turn launch_phase launch_slots launch_next start_job reap_phase
    reap_slots reap_next reap_job succeeds complete_job fail_job release release_one kill_slots
    enter_loop begin initially_ready
broken = refl

abbrev built_run : Loop
built_run = execute_parallel keep_going 4 in_degree dependents rounds

built-stops : built_run.phase ≡ stopped
unfolding execute_parallel execute turn launch_phase launch_slots launch_next start_job reap_phase
    reap_slots reap_next reap_job succeeds complete_job fail_job release release_one kill_slots
    enter_loop begin initially_ready
built-stops = refl

built-clean : built_run.run.failed ≡ false
unfolding execute_parallel execute turn launch_phase launch_slots launch_next start_job reap_phase
    reap_slots reap_next reap_job succeeds complete_job fail_job release release_one kill_slots
    enter_loop begin initially_ready
built-clean = refl

execute_parallel-Sound_example : Sound deps 4 built_run.run
execute_parallel-Sound_example =
    execute_parallel-Sound deps dependents 4 deps-IsDependencyMap keep_going in_degree
      in_degree-counted rounds

execute_parallel-running_example :
    (built_run.run.running ≡ active built_run.slots) × (built_run.run.running ≤ 2)
execute_parallel-running_example =
    execute_parallel-running deps dependents 4 deps-IsDependencyMap keep_going in_degree
      in_degree-counted rounds

first-IsUnblocked : IsUnblocked deps dependents 4 built_run.run.log 0
first-IsUnblocked d h = absurd (ground arith)

execute_parallel-maximal_example : ends 0 built_run.run.log ≡ 1
execute_parallel-maximal_example =
    execute_parallel-maximal deps dependents 4 deps-IsDependencyMap keep_going in_degree
      in_degree-counted rounds built-stops 0 (omega arith) first-IsUnblocked

deps-descend : (k d : ℕ) → 0 < count d (deps k) → d < k
deps-descend k d h = ground arith

execute_parallel_complete_example : oks 3 built_run.run.log ≡ 1
execute_parallel_complete_example =
    execute_parallel_complete deps dependents 4 deps-IsDependencyMap keep_going in_degree
      in_degree-counted rounds built-stops built-clean (λ k. k) deps-descend 3 (omega arith)

good-IsPrompt : IsPrompt good
good-IsPrompt i = (record { exit_code = 0; scan_rejected = false; unwritten = [] }, refl)

execute_parallel_terminates_example :
    (execute_parallel keep_going 4 in_degree dependents (good ∷ rounds)).phase ≢ going
execute_parallel_terminates_example =
    execute_parallel_terminates deps dependents 4 keep_going deps-IsDependencyMap in_degree
      in_degree-counted (good ∷ rounds)
      (good-IsPrompt, (good-IsPrompt, (good-IsPrompt, (good-IsPrompt, (good-IsPrompt, tt)))))
      (omega arith) (omega arith) (omega arith)
