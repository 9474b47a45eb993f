-- ===== src/Exec/Scheduler/Steps.antt =====
-- The invariant of the event loop, with a lemma for each way a job starts or ends.
use putup.Prelude.{
  ℕ, ◌+◌, ◌≤◌, ◌<◌, ◌≡◌, refl, ap, sym, ◌∙◌, true, false, List, ◌∷◌, count, ◌==◌, if◌then◌else◌,
  arith,
}
use putup.Exec.Scheduler.{started, completed, Run, release, start_job, complete_job, fail_job}
use putup.Exec.Scheduler.Counts.{
  starts, ends, oks, oks-le-ends, pending, IsJustified, pending-zero, pending-completed,
  pending-same, goods, bads,
}
use putup.Exec.Scheduler.Release.{SameCounters, release-SameCounters, release-at}

-- `dependents` turns `deps` round, neither names a job twice, and only jobs below `total` are named.
pub record IsDependencyMap (deps dependents : ℕ → List ℕ) (total : ℕ) : Type 0 where
  pub within : (i j : ℕ) → 0 < count i (deps j) → (i < total) × (j < total)
  pub mirrored : (i j : ℕ) → count j (dependents i) ≡ count i (deps j)
  pub once : (i j : ℕ) → count i (deps j) ≤ 1

-- one, at the job itself
abbrev pub unit_at : ℕ → ℕ → ℕ
unit_at j k = if j == k then 1 else 0

module _ (deps dependents : ℕ → List ℕ) (total : ℕ) where
  -- `occ` says how often each job is active in a slot, and `live` how many slots are active.
  pub record Inv (occ : ℕ → ℕ) (live : ℕ) (r : Run) : Type 0 where
    pub balance : (k : ℕ) → occ k + ends k r.log ≡ starts k r.log
    pub once : (k : ℕ) → count k r.ready_queue + starts k r.log ≤ 1
    pub degree : (k : ℕ) → r.in_degree k ≡ pending (deps k) r.log
    pub settled : (k : ℕ) → 0 < count k r.ready_queue + starts k r.log → pending (deps k) r.log ≡ 0
    pub offered :
        (k : ℕ)
        → k < total
        → pending (deps k) r.log ≡ 0
        → 0 < count k r.ready_queue + starts k r.log
    pub bounded : (k : ℕ) → 0 < count k r.ready_queue + starts k r.log → k < total
    pub justified : IsJustified deps r.log
    pub live_count : r.running ≡ live
    pub clean : r.failed ≡ false → (k : ℕ) → oks k r.log ≡ ends k r.log
    pub good_count : r.completed_jobs ≡ goods r.log
    pub bad_count : r.failed_jobs ≡ bads r.log
    pub finish_count : r.finished_count ≡ goods r.log + bads r.log

  pub start_job-Inv :
      (occ : ℕ → ℕ) (live j : ℕ) (rest : List ℕ) (r : Run)
      → Inv occ live r
      → r.ready_queue ≡ j ∷ rest
      → Inv (λ k. unit_at j k + occ k) live (start_job j rest r)
  unfolding start_job
  start_job-Inv occ live j rest r i e = record {
    balance = λ k. omega (arith, i.balance k);
    once = λ k. omega (arith, at k, i.once k);
    degree = λ k. i.degree k ∙ sym (same k);
    settled = λ k h. same k ∙ i.settled k (omega (arith, at k));
    offered = λ k h p. omega (arith, at k, i.offered k h (sym (same k) ∙ p));
    bounded = λ k h. i.bounded k (omega (arith, at k));
    justified = (pending-zero (deps j) r.log (i.settled j (ground (arith, at j))), i.justified);
    live_count = i.live_count;
    clean = i.clean;
    good_count = i.good_count;
    bad_count = i.bad_count;
    finish_count = i.finish_count;
  }
    where
      at : (k : ℕ) → count k r.ready_queue ≡ unit_at j k + count k rest
      at k = ap (count k) e

      same : (k : ℕ) → pending (deps k) (started j ∷ r.log) ≡ pending (deps k) r.log
      same k = pending-same (deps k) r.log (started j ∷ r.log) (λ d. refl)

  pub fail_job-Inv :
      (occ : ℕ → ℕ) (live j : ℕ) (r : Run)
      → Inv (λ k. unit_at j k + occ k) live r
      → Inv occ live (fail_job dependents j r)
  unfolding fail_job
  fail_job-Inv occ live j r i = record {
    balance = λ k. omega (arith, i.balance k);
    once = i.once;
    degree = λ k. i.degree k ∙ sym (same k);
    settled = λ k h. same k ∙ i.settled k h;
    offered = λ k h p. i.offered k h (sym (same k) ∙ p);
    bounded = i.bounded;
    justified = i.justified;
    live_count = i.live_count;
    clean = λ h. cc;
    good_count = i.good_count;
    bad_count = omega (arith, i.bad_count);
    finish_count = omega (arith, i.finish_count);
  }
    where
      same : (k : ℕ) → pending (deps k) (completed j false ∷ r.log) ≡ pending (deps k) r.log
      same k = pending-same (deps k) r.log (completed j false ∷ r.log) (λ d. refl)

  module _ (m : IsDependencyMap deps dependents total) where
    pub complete_job-Inv :
        (occ : ℕ → ℕ) (live j : ℕ) (r : Run)
        → Inv (λ k. unit_at j k + occ k) live r
        → Inv occ live (complete_job dependents j r)
    unfolding complete_job
    complete_job-Inv occ live j r i = record {
      balance = λ k. rw same.log (omega (arith, i.balance k));
      once =
          λ k. rw same.log (ground (arith, after k, settles k, i.settled k, i.once k, m.once j k));
      degree = λ k. rw same.log (omega (arith, (after k).0, settles k, i.degree k));
      settled = λ k.
          rw same.log
            (λ h. ground (arith, after k, settles k, i.settled k, i.degree k, m.once j k));
      offered = λ k.
          rw same.log
            (λ h p. ground (arith, after k, settles k, i.offered k h, i.degree k, m.once j k));
      bounded = λ k. rw same.log (λ h. ground (arith, after k, i.bounded k, m.within j k));
      justified = rw same.log i.justified;
      live_count = same.running ∙ i.live_count;
      clean = rw (same.failed, same.log) (λ h k. omega (arith, i.clean h k));
      good_count = rw (same.completed, same.log) (omega (arith, i.good_count));
      bad_count = rw (same.failed_jobs, same.log) i.bad_count;
      finish_count = rw (same.finished, same.log) (omega (arith, i.finish_count));
    }
      where
        logged : Run
        logged = record r {
          completed_jobs = r.completed_jobs + 1;
          finished_count = r.finished_count + 1;
          log = completed j true ∷ r.log;
        }

        same : SameCounters logged (release (dependents j) logged)
        same = release-SameCounters (dependents j) logged

        not_yet : oks j r.log ≡ 0
        not_yet = ground (arith, i.balance j, i.once j, oks-le-ends j r.log)

        settles :
            (k : ℕ)
            → pending (deps k) (completed j true ∷ r.log) + count j (deps k)
              ≡ pending (deps k) r.log
        settles k = pending-completed (deps k) j r.log not_yet

        after :
            (k : ℕ)
            → ((release (dependents j) logged).in_degree k + count j (deps k) ≡ r.in_degree k)
              × (count k (release (dependents j) logged).ready_queue
                  ≡ count k r.ready_queue
                    + (if (release (dependents j) logged).in_degree k == 0
                        then count j (deps k)
                        else 0))
        after k = rw (m.mirrored j k) at (
            release-at (dependents j) logged k (omega (arith, m.mirrored j k, m.once j k))
              (omega (arith, m.mirrored j k, i.degree k, settles k)))
