-- ===== src/Samples/DependencyMapSamples.antt =====
-- The first command compiles a source file, the second links the object file.
use putup.Prelude.{
  ◌++◌, ℕ, some, ◌≡◌, ◌↔◌, ◌<◌, refl, true, false, List, [], ◌∷◌, length, count, ◌==◌,
  if◌then◌else◌,
}
use putup.Graph.{
  Graph, normal, empty_graph, edges_for_each, mask_of_roles, is_command, tag, find_file,
}
use putup.Exec.DependencyMap.{
  OrderingEdge, build_dependency_map, row, fill_rows, push_dependents, index_jobs, dependencies,
  each, add_input, add_job, add_producer_dependencies, add_order_only, is_group,
  sorted_insert_unique, injected_producers, inject, enforced_ordering,
}
use putup.Exec.DependencyMap.Cycle.{
  has_cycle, sweep, count_down_all, count_down, choose_dependency_map,
}
use putup.Exec.DependencyMap.Cycle.Decides.{IsRanked, has_cycle_iff}
use putup.Exec.DependencyMap.Cycle.Chosen.{RunsAll, has_cycle_with, choose_dependency_map-RunsAll}
use putup.Exec.DependencyMap.Built.{
  deps_of, JobWaits, build_dependency_map-IsDependencyMap, build-Sound,
}
use putup.Exec.DependencyMap.Waits.{WaitsFor}
use putup.Exec.DependencyMap.Members.{dependencies-members}
use putup.Exec.Scheduler.Counts.{oks}
use putup.Exec.Scheduler.{Event, started, initially_ready, Options, Round, execute_parallel}
use putup.Exec.Scheduler.Steps.{IsDependencyMap}
use putup.Exec.Scheduler.Runs.{Sound}

abbrev compile : ℕ
compile = 1_073_741_825

abbrev link : ℕ
link = 1_073_741_826

abbrev program : Graph
program = record (empty_graph (0 ∷ 1 ∷ 2 ∷ 3 ∷ 4 ∷ []) (0 ∷ compile ∷ link ∷ []) []) {
  edges =
      record { from = 2; to = compile; type = normal }
      ∷ record { from = compile; to = 3; type = normal }
      ∷ record { from = 3; to = link; type = normal }
      ∷ record { from = link; to = 4; type = normal }
      ∷ [];
  edges_from_index = λ u.
      if u == 2
      then 0 ∷ []
      else if u == compile
      then 1 ∷ []
      else if u == 3
      then 2 ∷ []
      else if u == link
      then 3 ∷ []
      else [];
  edges_to_index = λ u.
      if u == compile
      then 0 ∷ []
      else if u == 3
      then 1 ∷ []
      else if u == link
      then 2 ∷ []
      else if u == 4
      then 3 ∷ []
      else [];
}

abbrev jobs : List ℕ
jobs = compile ∷ link ∷ []

linked_after : deps_of jobs program [] 1 ≡ 0 ∷ []
unfolding dependencies each add_input add_job add_producer_dependencies add_order_only is_group
    sorted_insert_unique injected_producers inject index_jobs edges_for_each mask_of_roles
    is_command tag find_file
linked_after = refl

-- the ordering that a previous build left
abbrev earlier : List OrderingEdge
earlier = record { producer = link; consumer = compile } ∷ []

injected_too : (build_dependency_map jobs program earlier).0.in_degree 0 ≡ 1
unfolding build_dependency_map fill_rows push_dependents dependencies each add_input add_job
    add_producer_dependencies add_order_only is_group sorted_insert_unique injected_producers inject
    enforced_ordering index_jobs edges_for_each mask_of_roles is_command tag find_file
injected_too = refl

build_dependency_map-IsDependencyMap_example :
    let m = (build_dependency_map jobs program []).0 in
    IsDependencyMap (deps_of jobs program []) m.dependents 2
    × ((k : ℕ) → m.in_degree k ≡ length (deps_of jobs program [] k))
build_dependency_map-IsDependencyMap_example = build_dependency_map-IsDependencyMap jobs program []

abbrev two_at_once : Options
two_at_once = record { jobs = 2; keep_going = false; dry_run = false }

abbrev all_leave : Round
all_leave = record {
  launches = λ j. true;
  exits = λ i. some (record { exit_code = 0; scan_rejected = false; unwritten = [] });
  cancelled = false;
}

build-Sound_example :
    let m = (build_dependency_map jobs program []).0 in
    let run =
      (execute_parallel two_at_once 2 m.in_degree m.dependents (all_leave ∷ all_leave ∷ [])).run in
    ((later earlier : List Event) (k d : ℕ)
      → run.log ≡ later ++ started k ∷ earlier
      → JobWaits jobs program [] k d
      → 0 < oks d earlier)
    × Sound (deps_of jobs program []) 2 run
build-Sound_example = build-Sound jobs program [] two_at_once (all_leave ∷ all_leave ∷ [])

dependencies-members_example :
    (0 < count 1 (row jobs program earlier 0 compile)) ↔ WaitsFor jobs 0 1 program earlier compile
dependencies-members_example = dependencies-members jobs program 0 earlier compile 1

-- the earlier ordering turns the edge of the graph round
cycle_closed : has_cycle_with jobs program earlier ≡ true
unfolding has_cycle sweep count_down_all count_down initially_ready build_dependency_map fill_rows
    push_dependents dependencies each add_input add_job add_producer_dependencies add_order_only
    is_group sorted_insert_unique injected_producers inject enforced_ordering index_jobs
    edges_for_each mask_of_roles is_command tag find_file
cycle_closed = refl

no_cycle_alone : has_cycle_with jobs program [] ≡ false
unfolding has_cycle sweep count_down_all count_down initially_ready build_dependency_map fill_rows
    push_dependents dependencies each add_input add_job add_producer_dependencies add_order_only
    is_group sorted_insert_unique injected_producers inject enforced_ordering index_jobs
    edges_for_each mask_of_roles is_command tag find_file
no_cycle_alone = refl

has_cycle_iff_example :
    let m = (build_dependency_map jobs program []).0 in
    (has_cycle 2 m.in_degree m.dependents ≡ false) ↔ IsRanked (deps_of jobs program [])
has_cycle_iff_example =
    has_cycle_iff (deps_of jobs program []) (build_dependency_map jobs program []).0.dependents 2
      (build_dependency_map-IsDependencyMap jobs program []).0
      (build_dependency_map jobs program []).0.in_degree
      (build_dependency_map-IsDependencyMap jobs program []).1

choose_dependency_map-RunsAll_example :
    RunsAll 2 (choose_dependency_map jobs program earlier).0.0
    × (has_cycle_with jobs program earlier ≡ false
        → choose_dependency_map jobs program earlier
          ≡ (build_dependency_map jobs program earlier, true))
    × (has_cycle_with jobs program earlier ≡ true
        → choose_dependency_map jobs program earlier
          ≡ (build_dependency_map jobs program [], false))
choose_dependency_map-RunsAll_example =
    choose_dependency_map-RunsAll jobs program earlier no_cycle_alone
