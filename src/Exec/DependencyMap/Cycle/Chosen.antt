-- ===== src/Exec/DependencyMap/Cycle/Chosen.antt =====
-- The event loop on the dependency map that `execute_parallel` chooses.
use putup.Prelude.{
  ℕ, ◌<◌, ◌≡◌, Bool, false, not, ◌&&◌, List, [], ◌∷◌, length, is_nil, if_cases, if-true, if-false,
  true, arith,
}
use putup.Graph.{Graph}
use putup.Exec.Scheduler.{Options, Round, stopped, execute_parallel}
use putup.Exec.Scheduler.Counts.{oks}
use putup.Exec.Scheduler.Outcome.{execute_parallel_complete}
use putup.Exec.DependencyMap.{OrderingEdge, DependencyMap, build_dependency_map}
use putup.Exec.DependencyMap.Built.{deps_of, build_dependency_map-IsDependencyMap}
use putup.Exec.DependencyMap.Cycle.{has_cycle, choose_dependency_map}
use putup.Exec.DependencyMap.Cycle.Decides.{has_cycle_iff}

-- a build on the map that stops by itself without a failure has run all the jobs
abbrev pub RunsAll : ℕ → DependencyMap → Type 0
RunsAll total m =
    (options : Options) (rounds : List Round)
    → let end = execute_parallel options total m.in_degree m.dependents rounds in
      end.phase ≡ stopped → end.run.failed ≡ false → (k : ℕ) → k < total → oks k end.run.log ≡ 1

module _ (jobs : List ℕ) (graph : Graph) where
  abbrev pub has_cycle_with : List OrderingEdge → Bool
  has_cycle_with ordering =
      let m = (build_dependency_map jobs graph ordering).0 in
      has_cycle (length jobs) m.in_degree m.dependents

  built-RunsAll :
      (ordering : List OrderingEdge)
      → has_cycle_with ordering ≡ false
      → RunsAll (length jobs) (build_dependency_map jobs graph ordering).0
  built-RunsAll ordering h options rounds stops good =
      let m = (build_dependency_map jobs graph ordering).0 in
      let deps = deps_of jobs graph ordering in
      let (shape, counted) = build_dependency_map-IsDependencyMap jobs graph ordering in
      let ranked = (has_cycle_iff deps m.dependents (length jobs) shape m.in_degree counted).0 h in
      execute_parallel_complete deps m.dependents (length jobs) shape options m.in_degree counted
        rounds stops good ranked.rank ranked.falls

  -- When the graph alone gives the jobs no cycle, then for every injected ordering: the map is built
  -- with the ordering, and the flag is set, when that closes no cycle; otherwise it is the map of the
  -- graph alone, and the flag is not set. For all options and every behaviour of the system, an event
  -- loop on the map that has stopped by itself without a failure has ended every job well, once.
  pub choose_dependency_map-RunsAll :
      (ordering : List OrderingEdge)
      → has_cycle_with [] ≡ false
      → let chosen = choose_dependency_map jobs graph ordering in
        RunsAll (length jobs) chosen.0.0
        × (has_cycle_with ordering ≡ false
            → chosen ≡ (build_dependency_map jobs graph ordering, true))
        × (has_cycle_with ordering ≡ true → chosen ≡ (build_dependency_map jobs graph [], false))
  unfolding choose_dependency_map
  choose_dependency_map-RunsAll ordering h =
      let without : (DependencyMap × List OrderingEdge) × Bool =
        (build_dependency_map jobs graph [], false) in
      let with_it : (DependencyMap × List OrderingEdge) × Bool =
        (build_dependency_map jobs graph ordering, true) in
      (
        if_cases {A = (DependencyMap × List OrderingEdge) × Bool} (λ q. RunsAll (length jobs) q.0.0)
            (not (is_nil ordering) && has_cycle_with ordering) without with_it
            (λ e. built-RunsAll [] h) (λ e. built-RunsAll ordering (no_cycle ordering e)),
        λ e.
            if-false {b = not (is_nil ordering) && has_cycle_with ordering} without with_it
              (ground (arith, e)),
        λ e.
            if-true {b = not (is_nil ordering) && has_cycle_with ordering} without with_it
              (closes ordering e),
      )
    where
      no_cycle :
          (o : List OrderingEdge)
          → (not (is_nil o) && has_cycle_with o) ≡ false
          → has_cycle_with o ≡ false
      no_cycle [] e = h
      no_cycle (edge ∷ edges) e = e

      closes :
          (o : List OrderingEdge)
          → has_cycle_with o ≡ true
          → (not (is_nil o) && has_cycle_with o) ≡ true
      closes [] e = absurd (ground (arith, h, e))
      closes (edge ∷ edges) e = e
