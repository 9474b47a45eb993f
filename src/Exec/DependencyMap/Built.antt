-- ===== src/Exec/DependencyMap/Built.antt =====
-- The result of `build_dependency_map`, and the event loop on it.
use putup.Prelude.{
  ℕ, suc, some, get_elem?, ap, sym, subst, ◌++◌, ◌+◌, ◌<◌, ◌≡◌, refl, ◌∙◌, List, [], ◌∷◌, none,
  length, ◌==◌, if_cases, if_both, count, arith,
}
use putup.Graph.{Graph}
use putup.Exec.DependencyMap.{
  OrderingEdge, build_dependency_map, cmd_to_job, row, no_dependencies, injected_producers,
}
use putup.Exec.DependencyMap.Bounds.{
  Between, count-Between, index_jobs-Below, injected_producers-Between, dependencies-Between,
}
use putup.Exec.DependencyMap.Rows.{rows, rows-at, fill_rows-dependents, fill_rows-in_degree}
use putup.Exec.DependencyMap.Waits.{WaitsFor}
use putup.Exec.DependencyMap.Members.{dependencies-members}
use putup.Exec.Scheduler.Counts.{oks, IsJustified}
use putup.Exec.Scheduler.{Event, started, completed, Options, Round, execute_parallel}
use putup.Exec.Scheduler.Steps.{IsDependencyMap}
use putup.Exec.Scheduler.Runs.{Sound}
use putup.Exec.Scheduler.Outcome.{execute_parallel-Sound}

rows-Between :
    (high : ℕ) (row : ℕ → ℕ → List ℕ) (i : ℕ) (ids : List ℕ) (k : ℕ)
    → ((j id : ℕ) → Between 0 high (row j id))
    → Between 0 high (rows row i ids k)
rows-Between high row i [] k b = tt
rows-Between high row i (id ∷ ids) k b =
    if_both (Between 0 high) (k == i) (row i id) (rows row (i + 1) ids k) (b i id)
      (rows-Between high row (i + 1) ids k b)

rows-within :
    (row : ℕ → ℕ → List ℕ) (i : ℕ) (ids : List ℕ) (k d : ℕ)
    → 0 < count d (rows row i ids k)
    → k < i + length ids
rows-within row i [] k d h = absurd (omega arith)
rows-within row i (id ∷ ids) k d h =
    if_cases (λ l. 0 < count d l → k < i + suc (length ids)) (k == i) (row i id)
      (rows row (i + 1) ids k) (λ e _. ground arith)
      (λ e h. omega (arith, rows-within row (i + 1) ids k d h)) h

justified-at :
    (deps : ℕ → List ℕ) (later earlier : List Event) (k d : ℕ)
    → IsJustified deps (later ++ started k ∷ earlier)
    → 0 < count d (deps k)
    → 0 < oks d earlier
justified-at deps [] earlier k d h m = h.0 d m
justified-at deps (started j ∷ later) earlier k d h m = justified-at deps later earlier k d h.1 m
justified-at deps (completed j ok ∷ later) earlier k d h m = justified-at deps later earlier k d h m

module _ (jobs : List ℕ) (graph : Graph) (ordering : List OrderingEdge) where
  -- the jobs that each job waits for
  abbrev pub deps_of : ℕ → List ℕ
  deps_of = rows (row jobs graph ordering) 0 jobs

  deps_of-Between : (k : ℕ) → Between 0 (length jobs) (deps_of k)
  deps_of-Between k =
      let known = index_jobs-Below 0 jobs (λ id. none) (length jobs) (omega arith) (λ id. tt) in
      rows-Between (length jobs) (row jobs graph ordering) 0 jobs k (λ j id.
        dependencies-Between (length jobs) (cmd_to_job jobs) known graph
          (injected_producers (cmd_to_job jobs) ordering (λ i. [])) j id
          (injected_producers-Between (length jobs) (cmd_to_job jobs) known ordering (λ i. [])
            (λ j. tt)))

  -- For every list of jobs, graph and injected ordering, the lists of dependents of the map turn the
  -- lists of dependencies round, no list names a job twice, only jobs of the list are named, and
  -- each in-degree is the number of dependencies.
  pub build_dependency_map-IsDependencyMap :
      let m = (build_dependency_map jobs graph ordering).0 in
      IsDependencyMap deps_of m.dependents (length jobs)
      × ((k : ℕ) → m.in_degree k ≡ length (deps_of k))
  unfolding build_dependency_map
  build_dependency_map-IsDependencyMap = (
    record {
      within = λ i j h. (
        ((count-Between 0 (length jobs) (deps_of j) i (deps_of-Between j)).1 h).1,
        omega (arith, rows-within (row jobs graph ordering) 0 jobs j i h),
      );
      mirrored = λ i j.
          fill_rows-dependents (row jobs graph ordering) 0 jobs no_dependencies j i ∙ omega arith;
      once = λ i j. (count-Between 0 (length jobs) (deps_of j) i (deps_of-Between j)).0;
    },
    λ k.
        fill_rows-in_degree (row jobs graph ordering) 0 jobs no_dependencies k (λ b. refl)
        ∙ omega arith,
  )

  -- the job at one place of the list has to wait for another one
  abbrev pub JobWaits : ℕ → ℕ → Type 0
  JobWaits k d = (id : ℕ) × (get_elem? jobs k ≡ some id) × WaitsFor jobs k d graph ordering id

  deps_of-JobWaits : (k d : ℕ) → JobWaits k d → 0 < count d (deps_of k)
  deps_of-JobWaits k d (id, at, waits) =
      let place : 0 + k ≡ k = omega arith in
      let here =
        sym (ap deps_of place)
        ∙ rows-at (row jobs graph ordering) 0 jobs k id at
        ∙ ap (λ i. row jobs graph ordering i id) place in
      rw here ((dependencies-members jobs graph k ordering id d).1 waits)

  -- For every list of jobs, graph, injected ordering, options and behaviour of the system, when the
  -- event loop runs on the map that is built, each job that is started has seen all the jobs that it
  -- has to wait for, by the edges of the graph and the ordering, end well before; no job is started
  -- twice or ends more often than it starts, only jobs of the list are started, and the counters agree
  -- with the callbacks.
  pub build-Sound :
      (options : Options) (rounds : List Round)
      → let m = (build_dependency_map jobs graph ordering).0 in
        let run = (execute_parallel options (length jobs) m.in_degree m.dependents rounds).run in
        ((later earlier : List Event) (k d : ℕ)
          → run.log ≡ later ++ started k ∷ earlier
          → JobWaits k d
          → 0 < oks d earlier)
        × Sound deps_of (length jobs) run
  build-Sound options rounds =
      let m = (build_dependency_map jobs graph ordering).0 in
      let sound =
        execute_parallel-Sound deps_of m.dependents (length jobs)
          build_dependency_map-IsDependencyMap.0 options m.in_degree
          build_dependency_map-IsDependencyMap.1 rounds in
      (
        λ later earlier k d e waits.
            justified-at deps_of later earlier k d (subst (IsJustified deps_of) e sound.justified)
              (deps_of-JobWaits k d waits),
        sound,
      )
