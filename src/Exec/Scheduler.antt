-- ===== src/Exec/Scheduler.antt =====
-- src/exec/scheduler.cpp: the event loop of `execute_parallel`. Jobs are their indices. The
-- operating system enters as a list of rounds, one for each turn of the `while` loop.
pub mod Counts
pub mod Release
pub mod Steps
mod Safety
pub mod Runs
mod Width
pub mod Progress
pub mod Terminates
pub mod Outcome
use putup.Prelude.{
  ℕ, zero, suc, ◌+◌, ◌-◌, ◌*◌, ◌^◌, ◌<◌, Bool, true, false, ◌&&◌, ◌||◌, not, List, [], ◌∷◌, ◌++◌,
  Option, none, some, length, ltb, leb, ◌==◌, if◌then◌else◌, update, is_nil, min,
}

-- What the callbacks saw: `on_start(job)` and `on_complete(job, result)` with `result.success`.
pub data Event : Type 0 where
  started : ℕ → Event
  completed : ℕ → Bool → Event

-- the options that steer the loop
pub record Options : Type 0 where
  pub jobs : ℕ
  pub keep_going : Bool
  pub dry_run : Bool

-- How a child left: its exit code, whether its scan output was refused, and the declared outputs
-- that it did not write. The exit code is an `int` in the source, of which only the test against 0 counts.
pub record JobExit : Type 0 where
  pub exit_code : ℕ
  pub scan_rejected : Bool
  pub unwritten : List ℕ

-- One turn of the loop: which launches succeed, which slots `try_reap` finds finished, and whether
-- `cancel` was called.
pub record Round : Type 0 where
  pub launches : ℕ → Bool
  pub exits : ℕ → Option JobExit
  pub cancelled : Bool

-- The local variables of `execute_parallel` and the counters of `stats`; `log` holds the callbacks,
-- the newest first, and `slots` the job of each slot whose process is active.
pub record Run : Type 0 where
  pub in_degree : ℕ → ℕ
  pub ready_queue : List ℕ
  pub running : ℕ
  pub finished_count : ℕ
  pub failed : Bool
  pub completed_jobs : ℕ
  pub failed_jobs : ℕ
  pub log : List Event

abbrev pub Slots : Type 0
Slots = List (Option ℕ)

-- `--x` on a `std::size_t`
abbrev pub decrement : ℕ → ℕ
decrement x = if x == 0 then 2 ^ 64 - 1 else x - 1

-- `result.success` after `reap_slot`, the scan test and `reject_unwritten_outputs`
unfoldable pub succeeds : JobExit → Bool
succeeds e = e.exit_code == 0 && (not e.scan_rejected && is_nil e.unwritten)

-- `if (--in_degree[dep_idx] == 0) ready_queue.push(dep_idx);`
unfoldable pub release_one : ℕ → Run → Run
release_one j r =
    let d = decrement (r.in_degree j) in
    record r {
      in_degree = update r.in_degree j d;
      ready_queue = if d == 0 then r.ready_queue ++ j ∷ [] else r.ready_queue;
    }

-- `for (auto dep_idx : dependents[job_idx])`
unfoldable pub release : List ℕ → Run → Run
unfolding release_one
release [] r = r
release (j ∷ js) r = release js (release_one j r)

-- `ready_queue.pop()` and `on_start`
unfoldable pub start_job : ℕ → List ℕ → Run → Run
start_job j rest r = record r { ready_queue = rest; log = started j ∷ r.log }

-- How the loop stands after some rounds: it goes on, it stopped because nothing runs and nothing is
-- ready or all jobs are finished, or it was broken off by a failure or a cancellation.
pub data Phase : Type 0 where
  going stopped aborted : Phase

pub record Loop : Type 0 where
  pub slots : Slots
  pub run : Run
  pub phase : Phase

module _ (dependents : ℕ → List ℕ) where
  -- a job ends well: `on_complete`, the counters, and the jobs that waited for it
  unfoldable pub complete_job : ℕ → Run → Run
  complete_job j r = release (dependents j) (record r {
    completed_jobs = r.completed_jobs + 1;
    finished_count = r.finished_count + 1;
    log = completed j true ∷ r.log;
  })

  -- a job fails, or cannot be launched
  unfoldable pub fail_job : ℕ → Run → Run
  fail_job j r = record r {
    failed_jobs = r.failed_jobs + 1;
    finished_count = r.finished_count + 1;
    failed = true;
    log = completed j false ∷ r.log;
  }

  module _ (options : Options) (round : Round) where
    -- the body of the launch loop at an empty slot
    unfoldable pub launch_next : List ℕ → Run → Option ℕ × Run
    launch_next [] r = (none, r)
    launch_next (j ∷ rest) r =
        if options.dry_run
        then (none, complete_job j (start_job j rest r))
        else if round.launches j
        then (some j, start_job j rest (record r { running = r.running + 1 }))
        else (none, fail_job j (start_job j rest r))

    -- step 1: fill the empty slots, in their order
    unfoldable pub launch_slots : Slots → Run → Slots × Run
    launch_slots [] r = ([], r)
    launch_slots (some j ∷ slots) r =
        let (slots', r') = launch_slots slots r in (some j ∷ slots', r')
    launch_slots (none ∷ slots) r =
        let (slot, r') = launch_next r.ready_queue r in
        let (slots', r'') = launch_slots slots r' in (slot ∷ slots', r'')

    -- the body of the reap loop at an active slot whose child has left
    unfoldable pub reap_job : ℕ → JobExit → Run → Run
    reap_job j e r =
        let r' = record r { running = decrement r.running } in
        if succeeds e then complete_job j r' else fail_job j r'

    -- the body of the reap loop at an active slot
    unfoldable pub reap_next : ℕ → Option JobExit → Run → Option ℕ × Run
    reap_next j none r = (some j, r)
    reap_next j (some e) r = (none, reap_job j e r)

    -- step 5: reap the children that left, slot `i` first
    unfoldable pub reap_slots : ℕ → Slots → Run → Slots × Run
    reap_slots i [] r = ([], r)
    reap_slots i (none ∷ slots) r =
        let (slots', r') = reap_slots (i + 1) slots r in (none ∷ slots', r')
    reap_slots i (some j ∷ slots) r =
        let (slot, r') = reap_next j (round.exits i) r in
        let (slots', r'') = reap_slots (i + 1) slots r' in (slot ∷ slots', r'')

    -- step 6: the children that are still there are killed and reaped, and report nothing
    unfoldable pub kill_slots : Slots → Run → Slots × Run
    kill_slots [] r = ([], r)
    kill_slots (none ∷ slots) r = let (slots', r') = kill_slots slots r in (none ∷ slots', r')
    kill_slots (some j ∷ slots) r =
        let (slots', r') = kill_slots slots (record r { running = decrement r.running }) in
        (none ∷ slots', r')

  module _ (options : Options) where
    -- step 1 with its guard
    unfoldable pub launch_phase : Round → Slots → Run → Slots × Run
    launch_phase round slots r =
        if not r.failed || options.keep_going
        then launch_slots options round slots r
        else (slots, r)

    -- steps 2 to 6, after the test that nothing runs and nothing is ready
    unfoldable pub reap_phase : Round → Slots → Run → Loop
    reap_phase round slots r =
        let (slots', r') = reap_slots options round 0 slots r in
        if round.cancelled || (r'.failed && not options.keep_going)
        then (let (slots'', r'') = kill_slots options round slots' r' in
            record { slots = slots''; run = r''; phase = aborted })
        else record { slots = slots'; run = r'; phase = going }

    unfoldable pub turn : Round → Slots → Run → Loop
    turn round slots r =
        let (slots', r') = launch_phase round slots r in
        if r'.running == 0 && is_nil r'.ready_queue
        then record { slots = slots'; run = r'; phase = stopped }
        else reap_phase round slots' r'

    -- the `while` loop over the rounds that the system plays
    unfoldable pub execute : ℕ → List Round → Loop → Loop
    execute total [] l = l
    execute total (round ∷ rounds) l =
        let next = execute total rounds (turn round l.slots l.run) in
        elim l.phase [
          | going ↦ if ltb l.run.finished_count total then next else record l { phase = stopped }
          | _ ↦ l
        ]

-- the jobs from `i` on that wait for nothing
unfoldable pub initially_ready : (ℕ → ℕ) → ℕ → ℕ → List ℕ
initially_ready in_degree i zero = []
initially_ready in_degree i (suc n) =
    let rest = initially_ready in_degree (i + 1) n in if in_degree i == 0 then i ∷ rest else rest

abbrev pub empty_slots : ℕ → Slots
empty_slots zero = []
empty_slots (suc n) = none ∷ empty_slots n

-- The state before the first turn, for `total` jobs on `max_jobs` slots.
unfoldable pub begin : (ℕ → ℕ) → ℕ → Run
unfolding initially_ready
begin in_degree total = record {
  in_degree = in_degree;
  ready_queue = initially_ready in_degree 0 total;
  running = 0;
  finished_count = 0;
  failed = false;
  completed_jobs = 0;
  failed_jobs = 0;
  log = [];
}

unfoldable pub enter_loop : (ℕ → ℕ) → ℕ → ℕ → Loop
enter_loop in_degree total max_jobs = record {
  slots = empty_slots max_jobs;
  run = begin in_degree total;
  phase = going;
}

-- `execute_parallel` after the dependency map is built, over the rounds that the system plays
unfoldable pub execute_parallel : Options → ℕ → (ℕ → ℕ) → (ℕ → List ℕ) → List Round → Loop
unfolding enter_loop
execute_parallel options total in_degree dependents rounds =
    execute dependents options total rounds (enter_loop in_degree total (min options.jobs total))
