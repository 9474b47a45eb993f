-- ===== src/Exec/Scheduler/Outcome.antt =====
-- The theorems on the result of the event loop in src/exec/scheduler.cpp.
use putup.Prelude.{
  ℕ, zero, suc, ◌+◌, ◌≤◌, ◌<◌, ◌≡◌, refl, sym, ◌∙◌, true, false, List, [], ◌∷◌, none, some, count,
  length, ◌==◌, arith, min, inl, inr, Bool-cases, ==_iff,
}
use putup.Exec.Scheduler.{
  Event, started, completed, Options, Round, Run, Slots, Phase, going, stopped, aborted, enter_loop,
  execute_parallel,
}
use putup.Exec.Scheduler.Counts.{ends, oks, pending-all, occurs, active, goods, bads}
use putup.Exec.Scheduler.Steps.{Inv, IsDependencyMap, unit_at}
use putup.Exec.Scheduler.Runs.{Sound, Inv-Sound, Keeps, Kept, begin-Inv, execute-Kept}
use putup.Exec.Scheduler.Width.{active-le-length, length-empty_slots, execute-width}

abbrev pub upto : ℕ → (ℕ → ℕ) → ℕ
upto zero f = 0
upto (suc n) f = f n + upto n f

upto-past : (n j : ℕ) (f : ℕ → ℕ) → n ≤ j → upto n (λ k. unit_at j k + f k) ≡ upto n f
upto-past zero j f h = refl
upto-past (suc n) j f h = ground (arith, upto-past n j f)

upto-one_more : (n j : ℕ) (f : ℕ → ℕ) → j < n → upto n (λ k. unit_at j k + f k) ≡ suc (upto n f)
upto-one_more zero j f h = absurd (omega arith)
upto-one_more (suc n) j f h = elim (Bool-cases (j == n)) [
  | inl here ↦ ground (arith, upto-past n j f)
  | inr away ↦ ground (arith, upto-one_more n j f)
]

upto-most : (n : ℕ) (f : ℕ → ℕ) → ((k : ℕ) → f k ≤ 1) → upto n f ≤ n
upto-most zero f h = omega arith
upto-most (suc n) f h = omega (arith, h n, upto-most n f h)

pub upto-full : (n : ℕ) (f : ℕ → ℕ) → ((k : ℕ) → f k ≤ 1) → n ≤ upto n f → (k : ℕ) → k < n → f k ≡ 1
upto-full zero f h e k b = absurd (omega arith)
upto-full (suc n) f h e k b = elim (Bool-cases (k == n)) [
  | inl here ↦
      let same : k ≡ n = (==_iff k n).0 here in rw same (omega (arith, h n, upto-most n f h))
  | inr away ↦ upto-full n f h (omega (arith, h n)) k (ground arith)
]

pub upto-ends :
    (n : ℕ) (log : List Event)
    → ((k : ℕ) → 0 < ends k log → k < n)
    → upto n (λ k. ends k log) ≡ goods log + bads log
upto-ends n [] h = none_ended n
  where
    none_ended : (n : ℕ) → upto n (λ k. 0) ≡ 0
    none_ended zero = refl
    none_ended (suc n) = omega (arith, none_ended n)
upto-ends n (started j ∷ log) h = upto-ends n log h
upto-ends n (completed j true ∷ log) h =
    upto-one_more n j (λ k. ends k log) (h j (ground arith))
    ∙ omega (arith, upto-ends n log (λ k b. h k (ground arith)))
upto-ends n (completed j false ∷ log) h =
    upto-one_more n j (λ k. ends k log) (h j (ground arith))
    ∙ omega (arith, upto-ends n log (λ k b. h k (ground arith)))

idle-free : (slots : Slots) (k : ℕ) → active slots ≡ 0 → occurs k slots ≡ 0
idle-free [] k h = refl
idle-free (none ∷ slots) k h = idle-free slots k h
idle-free (some j ∷ slots) k h = absurd (omega arith)

module _ (deps dependents : ℕ → List ℕ) (total : ℕ) where
  -- all that a job waits for has ended well
  abbrev pub IsUnblocked : List Event → ℕ → Type 0
  IsUnblocked log k = (d : ℕ) → 0 < count d (deps k) → 0 < oks d log

  pub Inv-finished :
      (occ : ℕ → ℕ) (live : ℕ) (r : Run)
      → Inv deps dependents total occ live r
      → r.finished_count ≤ total
  Inv-finished occ live r i = omega (
    arith,
    i.finish_count,
    upto-ends total r.log (λ x h. i.bounded x (omega (arith, i.balance x))),
    upto-most total (λ x. ends x r.log) (λ x. omega (arith, i.balance x, i.once x)),
  )

  stopped-maximal :
      (slots : Slots) (r : Run)
      → Keeps deps dependents total stopped slots r
      → (k : ℕ) → k < total
      → IsUnblocked r.log k
      → ends k r.log ≡ 1
  stopped-maximal slots r (i, inl (idle, empty)) k b u =
      let offer = i.offered k b (pending-all (deps k) r.log u) in
      let queued : count k r.ready_queue ≡ 0 = rw empty refl in
      omega (arith, i.balance k, i.once k, idle-free slots k (sym i.live_count ∙ idle))
  stopped-maximal slots r (i, inr done) k b u =
      upto-full total (λ x. ends x r.log) (λ x. omega (arith, i.balance x, i.once x))
        (omega (
          arith,
          i.finish_count,
          upto-ends total r.log (λ x h. i.bounded x (omega (arith, i.balance x))),
        ))
        k b

  pub stopped_complete :
      (slots : Slots) (r : Run)
      → Keeps deps dependents total stopped slots r
      → r.failed ≡ false
      → IsDependencyMap deps dependents total
      → (rank : ℕ → ℕ) → ((k d : ℕ) → 0 < count d (deps k) → rank d < rank k)
      → (fuel k : ℕ) → rank k < fuel
      → k < total
      → oks k r.log ≡ 1
  stopped_complete slots r keeps ok m rank descends zero k f b = absurd (omega arith)
  stopped_complete slots r keeps ok m rank descends (suc fuel) k f b =
      keeps.0.clean ok k
      ∙ stopped-maximal slots r keeps k b (λ d h.
        let done =
          stopped_complete slots r keeps ok m rank descends fuel d (omega (arith, descends k d h))
            (m.within d k h).0 in
        omega arith)

  module _ (m : IsDependencyMap deps dependents total) (options : Options) (in_degree : ℕ → ℕ)
      (counted : (k : ℕ) → in_degree k ≡ length (deps k)) (rounds : List Round) where
    end-Kept :
        Kept deps dependents total (execute_parallel options total in_degree dependents rounds)
    unfolding execute_parallel enter_loop
    end-Kept =
        execute-Kept deps dependents total m options rounds
          (enter_loop in_degree total (min options.jobs total))
          (begin-Inv deps dependents total in_degree (min options.jobs total) counted)

    -- On a map as `IsDependencyMap` describes, whose in-degrees count the dependencies, and for
    -- every behaviour of the system, no job is started before all the jobs that it depends on
    -- have ended well, no job is started twice or ends more often than it starts, only the jobs
    -- below `total` are started, the counters count the good ends, the bad ends and both, and
    -- while nothing has failed every end is good.
    pub execute_parallel-Sound :
        Sound deps total (execute_parallel options total in_degree dependents rounds).run
    execute_parallel-Sound =
        let end = execute_parallel options total in_degree dependents rounds in
        of end.phase end.slots end.run end-Kept
      where
        of :
            (p : Phase) (slots : Slots) (r : Run)
            → Keeps deps dependents total p slots r
            → Sound deps total r
        of going slots r i = Inv-Sound deps dependents total i
        of stopped slots r i = Inv-Sound deps dependents total i.0
        of aborted slots r i = i.0

    -- On a map as `IsDependencyMap` describes, whose in-degrees count the dependencies, and for
    -- every behaviour of the system, `running` is the number of the slots that have a child, and
    -- no more than `jobs` children run.
    pub execute_parallel-running :
        let end = execute_parallel options total in_degree dependents rounds in
        (end.run.running ≡ active end.slots) × (end.run.running ≤ options.jobs)
    unfolding execute_parallel enter_loop
    execute_parallel-running =
        let end = execute_parallel options total in_degree dependents rounds in
        let counts = of end.phase end.slots end.run end-Kept in
        let max_jobs = min options.jobs total in
        (
          counts,
          omega (
            arith,
            counts,
            active-le-length end.slots,
            length-empty_slots max_jobs,
            execute-width dependents options total rounds (enter_loop in_degree total max_jobs),
          ),
        )
      where
        of :
            (p : Phase) (slots : Slots) (r : Run)
            → Keeps deps dependents total p slots r
            → r.running ≡ active slots
        of going slots r i = i.live_count
        of stopped slots r i = i.0.live_count
        of aborted slots r i = i.1 ∙ sym i.2

    -- On a map as `IsDependencyMap` describes, whose in-degrees count the dependencies, when the
    -- loop has stopped by itself, every job whose dependencies have all ended well has ended,
    -- once.
    pub execute_parallel-maximal :
        let end = execute_parallel options total in_degree dependents rounds in
        end.phase ≡ stopped
        → (k : ℕ) → k < total
        → IsUnblocked end.run.log k
        → ends k end.run.log ≡ 1
    execute_parallel-maximal e =
        let end = execute_parallel options total in_degree dependents rounds in
        of end.phase end.slots end.run end-Kept e
      where
        of :
            (p : Phase) (slots : Slots) (r : Run)
            → Keeps deps dependents total p slots r
            → p ≡ stopped
            → (k : ℕ) → k < total
            → IsUnblocked r.log k
            → ends k r.log ≡ 1
        of going slots r i e = cc
        of stopped slots r i e = stopped-maximal slots r i
        of aborted slots r i e = cc

    -- On a map as `IsDependencyMap` describes, whose in-degrees count the dependencies, when the
    -- loop has stopped by itself, nothing has failed and the dependencies have no cycle, as a
    -- rank that falls along them shows, every job has ended well, once.
    pub execute_parallel_complete :
        let end = execute_parallel options total in_degree dependents rounds in
        end.phase ≡ stopped
        → end.run.failed ≡ false
        → (rank : ℕ → ℕ) → ((k d : ℕ) → 0 < count d (deps k) → rank d < rank k)
        → (k : ℕ) → k < total
        → oks k end.run.log ≡ 1
    execute_parallel_complete e ok rank descends k b =
        let end = execute_parallel options total in_degree dependents rounds in
        of end.phase end.slots end.run end-Kept e ok
      where
        of :
            (p : Phase) (slots : Slots) (r : Run)
            → Keeps deps dependents total p slots r
            → p ≡ stopped
            → r.failed ≡ false
            → oks k r.log ≡ 1
        of going slots r i e good = cc
        of stopped slots r i e good =
            stopped_complete slots r i good m rank descends (suc (rank k)) k (omega arith) b
        of aborted slots r i e good = cc
