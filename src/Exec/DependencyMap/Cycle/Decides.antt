-- ===== src/Exec/DependencyMap/Cycle/Decides.antt =====
-- What `has_cycle` answers.
use putup.Prelude.{
  ℕ, zero, suc, ◌≤◌, ◌<◌, ◌≡◌, ◌↔◌, refl, ap, sym, ◌∙◌, false, List, [], count, length, arith, inl,
}
use putup.Exec.Scheduler.{Run, begin, initially_ready}
use putup.Exec.Scheduler.Counts.{ends}
use putup.Exec.Scheduler.Steps.{IsDependencyMap}
use putup.Exec.Scheduler.Runs.{begin-Inv}
use putup.Exec.Scheduler.Outcome.{upto, upto-full, upto-ends, stopped_complete}
use putup.Exec.DependencyMap.Cycle.{sweep, has_cycle}
use putup.Exec.DependencyMap.Cycle.Sweeps.{IsResting, nothing, Swept, sweep-Swept}
use putup.Exec.DependencyMap.Cycle.Ranks.{start_rank, IsPaired-start_rank}

-- no cycle: a rank falls from every job to the jobs it waits for
pub record IsRanked (deps : ℕ → List ℕ) : Type 0 where
  pub rank : ℕ → ℕ
  pub falls : (k d : ℕ) → 0 < count d (deps k) → rank d < rank k

upto-ones : (n : ℕ) (f : ℕ → ℕ) → ((k : ℕ) → k < n → f k ≡ 1) → upto n f ≡ n
upto-ones zero f h = refl
upto-ones (suc n) f h = omega (arith, h n (omega arith), upto-ones n f (λ k b. h k (omega arith)))

module _ (deps dependents : ℕ → List ℕ) (total : ℕ)
    (m : IsDependencyMap deps dependents total) where
  ended_count :
      (r : Run)
      → IsResting deps dependents total m r
      → upto total (λ k. ends k r.log) ≡ r.finished_count
  ended_count r (i, f, p) =
      upto-ends total r.log (λ k h. i.bounded k (omega (arith, i.balance k))) ∙ sym i.finish_count

  all_ended-IsRanked :
      (r : Run) → IsResting deps dependents total m r → total ≤ r.finished_count → IsRanked deps
  all_ended-IsRanked r (i, f, p) full = record {
    rank = λ k. start_rank k r.log;
    falls = λ k d c.
        let ended =
          upto-full total (λ x. ends x r.log) (λ x. omega (arith, i.balance x, i.once x))
            (omega (arith, ended_count r (i, f, p))) k (m.within d k c).1 in
        (IsPaired-start_rank deps p i.justified (λ x. omega (arith, i.once x)) k d
          (omega (arith, i.balance k)) c).1;
  }

  IsRanked-all_ended :
      (r : Run)
      → IsResting deps dependents total m r
      → r.ready_queue ≡ []
      → IsRanked deps
      → total ≤ r.finished_count
  IsRanked-all_ended r (i, f, p) e h =
      let each_ended : (k : ℕ) → k < total → ends k r.log ≡ 1 = λ k b.
        sym (i.clean f k)
        ∙ stopped_complete deps dependents total [] r (i, inl (i.live_count, e)) f m h.rank h.falls
            (suc (h.rank k)) k (omega arith) b in
      omega (arith, ended_count r (i, f, p), upto-ones total (λ k. ends k r.log) each_ended)

  module _ (in_degree : ℕ → ℕ) (counted : (k : ℕ) → in_degree k ≡ length (deps k)) where
    start-Swept : Swept deps dependents total m (
        sweep dependents total (record {
          remaining = in_degree;
          ready = initially_ready in_degree 0 total;
          reached = 0;
        }))
    unfolding begin
    start-Swept =
        sweep-Swept deps dependents total m total (begin in_degree total)
          (begin-Inv deps dependents total in_degree 0 counted, refl, nothing) (omega arith)

    -- On a map as `IsDependencyMap` describes, whose in-degrees count the dependencies, `has_cycle`
    -- answers false exactly when the dependencies have no cycle, as a rank that falls along them shows.
    pub has_cycle_iff : (has_cycle total in_degree dependents ≡ false) ↔ IsRanked deps
    unfolding has_cycle
    has_cycle_iff =
        let (r, same, rests, empty) = start-Swept in
        (
          λ e. all_ended-IsRanked r rests (let n = ap (λ s. s.reached) same in ground arith),
          λ h.
              let n = ap (λ s. s.reached) same in
              let all = IsRanked-all_ended r rests empty h in ground arith,
        )
