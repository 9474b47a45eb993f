-- ===== src/Exec/Scheduler/Release.antt =====
-- The loop over the dependents of a job that ended well, seen from one job.
use putup.Prelude.{
  ℕ, ◌+◌, ◌≤◌, ◌<◌, ◌≡◌, refl, false, List, [], ◌∷◌, count, count-append, ◌==◌, if◌then◌else◌,
  arith, Bool-cases, ==_iff, inl, inr,
}
use putup.Exec.Scheduler.{Run, release, release_one}

-- what `release` leaves alone
pub record SameCounters (r r' : Run) : Type 0 where
  pub running : r'.running ≡ r.running
  pub finished : r'.finished_count ≡ r.finished_count
  pub failed : r'.failed ≡ r.failed
  pub completed : r'.completed_jobs ≡ r.completed_jobs
  pub failed_jobs : r'.failed_jobs ≡ r.failed_jobs
  pub log : r'.log ≡ r.log

pub release-SameCounters : (js : List ℕ) (r : Run) → SameCounters r (release js r)
unfolding release
release-SameCounters [] r = record {
  running = refl;
  finished = refl;
  failed = refl;
  completed = refl;
  failed_jobs = refl;
  log = refl;
}
release-SameCounters (j ∷ js) r =
    let same = release-SameCounters js (release_one j r) in
    record {
      running = same.running;
      finished = same.finished;
      failed = same.failed;
      completed = same.completed;
      failed_jobs = same.failed_jobs;
      log = same.log;
    }

-- A job that is listed once, and waits for something, waits for one thing less; it is queued when
-- nothing is left to wait for. A job that is not listed stays as it is.
abbrev pub Releases : List ℕ → ℕ → Run → Run → Type 0
Releases js j r r' =
    (r'.in_degree j + count j js ≡ r.in_degree j)
    × (count j r'.ready_queue
        ≡ count j r.ready_queue + (if r'.in_degree j == 0 then count j js else 0))

release_one-same : (j : ℕ) (r : Run) → 0 < r.in_degree j → Releases (j ∷ []) j r (release_one j r)
unfolding release_one
release_one-same j r h = ground (arith, count-append j r.ready_queue (j ∷ []))

release_one-other : (k j : ℕ) (r : Run) → (k == j) ≡ false → Releases [] j r (release_one k r)
unfolding release_one
release_one-other k j r away = ground (arith, count-append j r.ready_queue (k ∷ []))

pub release-at :
    (js : List ℕ) (r : Run) (j : ℕ)
    → count j js ≤ 1
    → count j js ≤ r.in_degree j
    → Releases js j r (release js r)
unfolding release
release-at [] r j once room = (omega arith, ground arith)
release-at (k ∷ js) r j once room = elim (Bool-cases (k == j)) [
  | inl here ↦
      let same : k ≡ j = (==_iff k j).0 here in
      let first = release_one-same j r (ground arith) in
      rw same (ground (arith, first, release-at js (release_one j r) j))
  | inr away ↦
      let first = release_one-other k j r away in
      ground (arith, first, release-at js (release_one k r) j)
]
