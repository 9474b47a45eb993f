-- ===== src/Exec/Scheduler/Progress.antt =====
-- What a turn brings to an end when every child has left by the time its slot is looked at.
use putup.Prelude.{
  ℕ, suc, ◌+◌, ◌≤◌, ◌<◌, ◌≡◌, refl, ap, ◌∙◌, true, List, [], ◌∷◌, Option, none, some, if_both,
  arith, ◌⊎◌, inl, inr,
}
use putup.Exec.Scheduler.{
  completed, Options, Round, JobExit, Run, Slots, decrement, succeeds, complete_job, fail_job,
  start_job, launch_next, launch_slots, reap_job, reap_next, reap_slots,
}
use putup.Exec.Scheduler.Counts.{active}
use putup.Exec.Scheduler.Release.{release-SameCounters}

-- every child has left
abbrev pub IsPrompt : Round → Type 0
IsPrompt round = (i : ℕ) → (e : JobExit) × (round.exits i ≡ some e)

-- what no step takes back
pub record Grows (r r' : Run) : Type 0 where
  pub finished : r.finished_count ≤ r'.finished_count
  pub failed : r.failed ≡ true → r'.failed ≡ true

Grows-refl : (r : Run) → Grows r r
Grows-refl r = record { finished = omega arith; failed = λ e. e }

Grows-trans : {r s t : Run} → Grows r s → Grows s t → Grows r t
Grows-trans a b = record {
  finished = omega (arith, a.finished, b.finished);
  failed = λ e. b.failed (a.failed e);
}

module _ (dependents : ℕ → List ℕ) where
  -- a job that ends counts
  abbrev Ends : Run → Run → Type 0
  Ends r r' = (r'.finished_count ≡ suc r.finished_count) × Grows r r'

  complete_job-Ends : (j : ℕ) (r : Run) → Ends r (complete_job dependents j r)
  unfolding complete_job
  complete_job-Ends j r =
      let same = release-SameCounters (dependents j) (record r {
        completed_jobs = r.completed_jobs + 1;
        finished_count = r.finished_count + 1;
        log = completed j true ∷ r.log;
      }) in
      (
        same.finished ∙ omega arith,
        record { finished = omega (arith, same.finished); failed = λ e. same.failed ∙ e },
      )

  fail_job-Ends : (j : ℕ) (r : Run) → Ends r (fail_job dependents j r)
  unfolding fail_job
  fail_job-Ends j r = (omega arith, record { finished = omega arith; failed = λ e. refl })

  module _ (options : Options) (round : Round) where
    -- the job ends, or it is active in the slot
    launch_next-Grows :
        (j : ℕ) (rest : List ℕ) (r : Run)
        → let p = launch_next dependents options round (j ∷ rest) r in
          Grows r p.1 × ((r.finished_count < p.1.finished_count) ⊎ (p.0 ≡ some j))
    unfolding launch_next start_job
    launch_next-Grows j rest r =
        let P : Option ℕ × Run → Type 0 =
          λ p. Grows r p.1 × ((r.finished_count < p.1.finished_count) ⊎ (p.0 ≡ some j)) in
        let begun = start_job j rest r in
        let well = complete_job-Ends j begun in
        let ill = fail_job-Ends j begun in
        if_both P options.dry_run (none, complete_job dependents j begun) _
          (
            record { finished = well.1.finished; failed = well.1.failed },
            inl (omega (arith, well.0)),
          )
          (if_both P (round.launches j)
            (some j, start_job j rest (record r { running = r.running + 1 }))
            (none, fail_job dependents j begun)
            (record { finished = omega arith; failed = λ e. e }, inr refl)
            (
              record { finished = ill.1.finished; failed = ill.1.failed },
              inl (omega (arith, ill.0)),
            ))

    launch_next-idle :
        (queue : List ℕ) (r : Run)
        → queue ≡ []
        → launch_next dependents options round queue r ≡ (none, r)
    unfolding launch_next
    launch_next-idle [] r e = refl
    launch_next-idle (j ∷ rest) r e = cc

    launch_slots-idle :
        (slots : Slots) (r : Run)
        → r.ready_queue ≡ []
        → launch_slots dependents options round slots r ≡ (slots, r)
    unfolding launch_slots
    launch_slots-idle [] r e = refl
    launch_slots-idle (some j ∷ slots) r e =
        ap (λ (p : Slots × Run). (some j ∷ p.0, p.1)) (launch_slots-idle slots r e)
    launch_slots-idle (none ∷ slots) r e =
        rw (launch_next-idle r.ready_queue r e)
          (ap (λ (p : Slots × Run). (none ∷ p.0, p.1)) (launch_slots-idle slots r e))

    pub launch_slots-Grows :
        (slots : Slots) (r : Run) → Grows r (launch_slots dependents options round slots r).1
    unfolding launch_slots
    launch_slots-Grows [] r = Grows-refl r
    launch_slots-Grows (some j ∷ slots) r = launch_slots-Grows slots r
    launch_slots-Grows (none ∷ slots) r = from r.ready_queue (launch_slots-Grows slots)
      where
        from :
            (queue : List ℕ)
            → ((r : Run) → Grows r (launch_slots dependents options round slots r).1)
            → Grows r
                (launch_slots dependents options round slots
                  (launch_next dependents options round queue r).1).1
        from [] rest = rw (launch_next-idle [] r refl) (rest r)
        from (j ∷ queue) rest = Grows-trans (launch_next-Grows j queue r).0 (rest _)

    reap_job-Ends :
        (j : ℕ) (e : JobExit) (r : Run) → Ends r (reap_job dependents options round j e r)
    unfolding reap_job
    reap_job-Ends j e r =
        let left = record r { running = decrement r.running } in
        let well = complete_job-Ends j left in
        let ill = fail_job-Ends j left in
        if_both (Ends r) (succeeds e) (complete_job dependents j left) (fail_job dependents j left)
          (well.0, record { finished = well.1.finished; failed = well.1.failed })
          (ill.0, record { finished = ill.1.finished; failed = ill.1.failed })

    pub reap_slots-ends :
        (i : ℕ) (slots : Slots) (r : Run)
        → IsPrompt round
        → let p = reap_slots dependents options round i slots r in
          (p.1.finished_count ≡ active slots + r.finished_count) × Grows r p.1
    unfolding reap_slots reap_next
    reap_slots-ends i [] r prompt = (omega arith, Grows-refl r)
    reap_slots-ends i (none ∷ slots) r prompt = reap_slots-ends (i + 1) slots r prompt
    reap_slots-ends i (some j ∷ slots) r prompt =
        let (e, at) = prompt i in
        let ended = reap_job-Ends j e r in
        let rest = reap_slots-ends (i + 1) slots (reap_job dependents options round j e r) prompt in
        rw (at, reap_next) ((rest.0 ∙ omega (arith, ended.0)), Grows-trans ended.1 rest.1)

    -- A pass over at least one slot leaves nothing ready, or a job ended, or a child runs.
    pub launch_slots-offers :
        (slot : Option ℕ) (slots : Slots) (r : Run)
        → let p = launch_slots dependents options round (slot ∷ slots) r in
          (p.1.ready_queue ≡ []) ⊎ ((r.finished_count < p.1.finished_count) ⊎ 0 < active p.0)
    unfolding launch_slots
    launch_slots-offers (some j) slots r = inr (inr (omega arith))
    launch_slots-offers none slots r = from r.ready_queue (λ e. e)
      where
        from :
            (queue : List ℕ)
            → (queue ≡ [] → r.ready_queue ≡ [])
            → let next = launch_next dependents options round queue r in
              let p = launch_slots dependents options round slots next.1 in
              (p.1.ready_queue ≡ [])
              ⊎ ((r.finished_count < p.1.finished_count) ⊎ 0 < active (next.0 ∷ p.0))
        from [] e =
            inl (rw (launch_next-idle [] r refl, launch_slots-idle slots r (e refl)) (e refl))
        from (j ∷ queue) e =
            let next = launch_next-Grows j queue r in
            let rest =
              launch_slots-Grows slots (launch_next dependents options round (j ∷ queue) r).1 in
            elim next.1 [
              | inl ended ↦ inr (inl (omega (arith, ended, rest.finished)))
              | inr runs ↦ inr (inr (rw runs (omega arith)))
            ]
