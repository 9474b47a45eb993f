-- ===== src/Exec/DependencyMap/Cycle.antt =====
-- src/exec/scheduler.cpp: `has_cycle`, and the choice of the dependency map at the beginning of
-- `execute_parallel`.
mod Sweeps
mod Ranks
pub mod Decides
pub mod Chosen
use putup.Prelude.{
  ℕ, zero, suc, ◌+◌, Bool, true, false, not, ◌&&◌, List, [], ◌∷◌, ◌++◌, length, ltb, ◌==◌,
  if◌then◌else◌, update, is_nil,
}
use putup.Graph.{Graph}
use putup.Exec.Scheduler.{decrement, initially_ready}
use putup.Exec.DependencyMap.{OrderingEdge, DependencyMap, build_dependency_map}

-- the local variables of `has_cycle`
pub record Sweep : Type 0 where
  pub remaining : ℕ → ℕ
  pub ready : List ℕ
  pub reached : ℕ

-- `if (--remaining[dep_idx] == 0) ready.push(dep_idx);`
unfoldable pub count_down : ℕ → Sweep → Sweep
count_down dep_idx s =
    let d = decrement (s.remaining dep_idx) in
    record s {
      remaining = update s.remaining dep_idx d;
      ready = if d == 0 then s.ready ++ dep_idx ∷ [] else s.ready;
    }

unfoldable pub count_down_all : List ℕ → Sweep → Sweep
count_down_all [] s = s
count_down_all (dep_idx ∷ deps) s = count_down_all deps (count_down dep_idx s)

-- the loop: each turn pops a job
unfoldable pub sweep : (ℕ → List ℕ) → ℕ → Sweep → Sweep
sweep dependents zero s = s
sweep dependents (suc fuel) s = elim s.ready [
  | [] ↦ s
  | i ∷ rest ↦
      sweep dependents fuel
        (count_down_all (dependents i) (record s { ready = rest; reached = s.reached + 1 }))
]

-- No job is popped twice, so the number of jobs is fuel enough.
unfoldable pub has_cycle : ℕ → (ℕ → ℕ) → (ℕ → List ℕ) → Bool
has_cycle total in_degree dependents =
    ltb
      (sweep dependents total (record {
        remaining = in_degree;
        ready = initially_ready in_degree 0 total;
        reached = 0;
      })).reached
      total

-- The map that `execute_parallel` goes on with, and `injected_ordering_applied`, which is true before.
unfoldable pub choose_dependency_map :
    List ℕ → Graph → List OrderingEdge → (DependencyMap × List OrderingEdge) × Bool
choose_dependency_map jobs graph ordering =
    let built = build_dependency_map jobs graph ordering in
    if not (is_nil ordering) && has_cycle (length jobs) built.0.in_degree built.0.dependents
    then (build_dependency_map jobs graph [], false)
    else (built, true)
