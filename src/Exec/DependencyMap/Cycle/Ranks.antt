-- ===== src/Exec/DependencyMap/Cycle/Ranks.antt =====
-- The order in which a sweep pops the jobs.
use putup.Prelude.{
  ℕ, suc, ◌≤◌, ◌<◌, ◌≡◌, refl, subst, sym, List, [], ◌∷◌, count, length, ◌==◌, if◌then◌else◌, arith,
  Bool-cases, ==_iff, inl, inr,
}
use putup.Exec.Scheduler.{Event, started, completed}
use putup.Exec.Scheduler.Counts.{starts, oks, IsJustified}
use putup.Exec.DependencyMap.Cycle.Sweeps.{IsPaired, nothing, pair}

-- how early a job started: the number of the events up to its start
abbrev pub start_rank : ℕ → List Event → ℕ
start_rank k [] = 0
start_rank k (started j ∷ log) = if j == k then suc (length log) else start_rank k log
start_rank k (completed j ok ∷ log) = start_rank k log

start_rank-le : (k : ℕ) (log : List Event) → start_rank k log ≤ length log
start_rank-le k [] = omega arith
start_rank-le k (started j ∷ log) = ground (arith, start_rank-le k log)
start_rank-le k (completed j ok ∷ log) = omega (arith, start_rank-le k log)

IsPaired-starts : {log : List Event} → IsPaired log → (k : ℕ) → oks k log ≡ starts k log
IsPaired-starts nothing k = refl
IsPaired-starts (pair p) k = omega (arith, IsPaired-starts p k)

-- What a started job waits for was started before it.
pub IsPaired-start_rank :
    (deps : ℕ → List ℕ) {log : List Event}
    → IsPaired log
    → IsJustified deps log
    → ((k : ℕ) → starts k log ≤ 1)
    → (k d : ℕ) → 0 < starts k log
    → 0 < count d (deps k)
    → (0 < starts d log) × (start_rank d log < start_rank k log)
IsPaired-start_rank deps nothing h once k d s c = absurd (omega arith)
IsPaired-start_rank deps (pair {j} {log} p) (waits, h) once k d s c = elim (Bool-cases (j == k)) [
  | inl here ↦
      let same : j ≡ k = (==_iff j k).0 here in
      let before : 0 < oks d log = waits d (subst (λ x. 0 < count d (deps x)) (sym same) c) in
      ground (arith, IsPaired-starts p d, once d, once k, start_rank-le d log)
  | inr away ↦
      let (earlier, falls) =
        IsPaired-start_rank deps p h (λ x. omega (arith, once x)) k d (ground arith) c in
      ground (arith, once d)
]
