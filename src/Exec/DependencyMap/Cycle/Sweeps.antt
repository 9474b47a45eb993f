-- ===== src/Exec/DependencyMap/Cycle/Sweeps.antt =====
-- The sweep of `has_cycle` as an event loop that runs every job at once and lets it end well.
use putup.Prelude.{
  ℕ, zero, suc, ◌+◌, ◌≤◌, ◌≡◌, refl, sym, subst, ◌∙◌, true, false, List, [], ◌∷◌, arith,
}
use putup.Exec.Scheduler.{
  Event, started, completed, Run, release, release_one, start_job, complete_job,
}
use putup.Exec.Scheduler.Steps.{Inv, IsDependencyMap, start_job-Inv, complete_job-Inv}
use putup.Exec.Scheduler.Release.{release-SameCounters}
use putup.Exec.Scheduler.Outcome.{Inv-finished}
use putup.Exec.DependencyMap.Cycle.{Sweep, count_down, count_down_all, sweep}

-- what the sweep sees of a run
abbrev pub seen : Run → Sweep
seen r = record { remaining = r.in_degree; ready = r.ready_queue; reached = r.finished_count }

count_down_all-release : (js : List ℕ) (r : Run) → count_down_all js (seen r) ≡ seen (release js r)
unfolding count_down_all count_down release release_one
count_down_all-release [] r = refl
count_down_all-release (j ∷ js) r = count_down_all-release js (release_one j r)

-- every job that starts ends well at once
pub data IsPaired : List Event → Type 0 where
  nothing : IsPaired []
  pair : {j : ℕ} {log : List Event} → IsPaired log → IsPaired (completed j true ∷ started j ∷ log)

module _ (deps dependents : ℕ → List ℕ) (total : ℕ)
    (m : IsDependencyMap deps dependents total) where
  -- one job popped
  abbrev pass : ℕ → List ℕ → Run → Run
  pass j rest r = complete_job dependents j (start_job j rest r)

  pass-seen :
      (j : ℕ) (rest : List ℕ) (r : Run)
      → count_down_all
          (dependents j)
          (record (seen r) { ready = rest; reached = r.finished_count + 1 })
        ≡ seen (pass j rest r)
  unfolding complete_job start_job
  pass-seen j rest r = count_down_all-release (dependents j) _

  -- nothing is running between two pops
  abbrev pub IsResting : Run → Type 0
  IsResting r = Inv deps dependents total (λ k. 0) 0 r × (r.failed ≡ false) × IsPaired r.log

  pass-IsResting :
      (j : ℕ) (rest : List ℕ) (r : Run)
      → IsResting r
      → r.ready_queue ≡ j ∷ rest
      → IsResting (pass j rest r)
  unfolding complete_job start_job
  pass-IsResting j rest r (i, f, p) e = (
    complete_job-Inv deps dependents total m (λ k. 0) 0 j (start_job j rest r)
        (start_job-Inv deps dependents total (λ k. 0) 0 j rest r i e),
    (release-SameCounters (dependents j) _).failed ∙ f,
    subst IsPaired (sym (release-SameCounters (dependents j) _).log) (pair p),
  )

  passed : (j : ℕ) (rest : List ℕ) (r : Run) → (pass j rest r).finished_count ≡ suc r.finished_count
  unfolding complete_job start_job
  passed j rest r = (release-SameCounters (dependents j) _).finished ∙ omega arith

  -- A run that the sweep ends in, with nothing left to pop.
  abbrev pub Swept : Sweep → Type 0
  Swept s = (r : Run) × (s ≡ seen r) × IsResting r × (r.ready_queue ≡ [])

  pub sweep-Swept :
      (fuel : ℕ) (r : Run)
      → IsResting r
      → total ≤ fuel + r.finished_count
      → Swept (sweep dependents fuel (seen r))
  unfolding sweep
  sweep-Swept zero r h b = at r.ready_queue refl
    where
      at : (q : List ℕ) → r.ready_queue ≡ q → Swept (seen r)
      at [] e = (r, refl, h, e)
      at (j ∷ rest) e =
          let more = pass-IsResting j rest r h e in
          absurd
            (omega (arith, passed j rest r, Inv-finished deps dependents total (λ k. 0) 0 _ more.0))
  sweep-Swept (suc fuel) r h b = at (λ r' h' b'. sweep-Swept fuel r' h' b') r.ready_queue refl
    where
      at :
          ((r' : Run)
            → IsResting r'
            → total ≤ fuel + r'.finished_count
            → Swept (sweep dependents fuel (seen r')))
          → (q : List ℕ) → r.ready_queue ≡ q
          → Swept (elim q as (λ q. Sweep) [
            | [] ↦ seen r
            | i ∷ rest ↦ sweep dependents fuel (
                count_down_all
                  (dependents i)
                  (record (seen r) { ready = rest; reached = r.finished_count + 1 }))
          ])
      at again [] e = (r, refl, h, e)
      at again (j ∷ rest) e =
          subst (λ s. Swept (sweep dependents fuel s)) (sym (pass-seen j rest r))
            (again (pass j rest r) (pass-IsResting j rest r h e) (omega (arith, passed j rest r)))
