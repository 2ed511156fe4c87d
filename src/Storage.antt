-- ===== src/Storage.antt =====
-- processor.go, `stateStorage`: the five maps of the processor and the methods that move jobs. A
-- method that changes the maps returns the new storage. `*StatusCount` values are never shared, so
-- the map holds them by value; reading one that is not there is a nil dereference.
pub mod New
pub mod Status
pub mod Lane
pub mod Refine
pub mod Valid
pub mod Fresh
pub mod Invariant
pub mod Holds
pub mod Oldest
use jorb.Base.{
  ℕ, String, ◌==◌, Bool, true, false, not, Option, none, some, List, [], ◌∷◌, ◌++◌, ℤ, pos, inc,
  dec, pos_part, ltb_ℤ, Dict, lookup, insert, if◌then◌else◌,
}
use jorb.Effect.{Result, ok, blocked, panic, nil_dereference, ◌>>=◌}
use jorb.Channel.{Channel, send}
use jorb.Job.{Job}
use jorb.State.{State, StatusCount}

pub record Storage (E L C : Type 0) : Type 0 where
  pub states : List (State E L)
  pub state_map : Dict (State E L)
  pub state_status_map : Dict StatusCount
  pub state_waiting_jobs_map : Dict (List (Job C))
  pub state_chan : Dict (Channel (Job C))
  pub sorted_state_names : List String

-- `s.stateStatusMap[k]`, a pointer that is then followed
abbrev pub deref : {A : Type 0} → Option A → Result A
deref none = panic nil_dereference
deref (some a) = ok a

-- a send on the nil channel of an unknown state waits for ever
abbrev pub send_to : {A : Type 0} → Option (Channel A) → A → Result (Channel A)
unfolding send
send_to none a = blocked
send_to (some ch) a = send ch a

abbrev pub terminal_of : {E L : Type 0} → Option (State E L) → Bool
terminal_of none = false
terminal_of (some s) = s.terminal

abbrev pub concurrency_of : {E L : Type 0} → Option (State E L) → ℤ
concurrency_of none = pos 0
concurrency_of (some s) = s.concurrency

abbrev pub jobs_of : {A : Type 0} → Option (List A) → List A
jobs_of none = []
jobs_of (some xs) = xs

-- the last element of a slice, and the slice without it
unfoldable pub split_last : {A : Type 0} → A → List A → A × List A
split_last x [] = (x, [])
split_last x (y ∷ ys) = let (l, rest) = split_last y ys in (l, x ∷ rest)

module _ {E L C : Type 0} where
  unfoldable pub run_job : Storage E L C → Job C → Result (Storage E L C)
  unfolding send
  run_job s job = do
    sc ← deref (lookup job.state s.state_status_map)
    ch ← send_to (lookup job.state s.state_chan) job
    ok (record s {
      state_status_map =
          insert job.state (record sc { executing = inc sc.executing }) s.state_status_map;
      state_chan = insert job.state ch s.state_chan;
    })

  unfoldable pub queue_job : Storage E L C → Job C → Result (Storage E L C)
  queue_job s job = do
    sc ← deref (lookup job.state s.state_status_map)
    ok (record s {
      state_status_map =
          insert job.state (record sc { waiting = inc sc.waiting }) s.state_status_map;
      state_waiting_jobs_map =
          insert job.state (job ∷ jobs_of (lookup job.state s.state_waiting_jobs_map))
            s.state_waiting_jobs_map;
    })

  unfoldable pub complete_job : Storage E L C → Job C → Result (Storage E L C)
  complete_job s job = do
    sc ← deref (lookup job.state s.state_status_map)
    ok (record s {
      state_status_map =
          insert job.state (record sc { completed = inc sc.completed }) s.state_status_map;
    })

  unfoldable pub is_terminal : Storage E L C → Job C → Bool
  is_terminal s job = terminal_of (lookup job.state s.state_map)

  unfoldable pub can_run_job_for_state : Storage E L C → String → Result Bool
  can_run_job_for_state s state = do
    sc ← deref (lookup state s.state_status_map)
    ok (ltb_ℤ sc.executing (concurrency_of (lookup state s.state_map)))

  unfoldable pub process_job : Storage E L C → Job C → Result (Storage E L C)
  unfolding is_terminal can_run_job_for_state
  process_job s job = if is_terminal s job then complete_job s job else do
    free ← can_run_job_for_state s job.state
    if free then run_job s job else queue_job s job

  -- `runNextWaitingJob` once the waiting job is chosen: it leaves the slice, and runs
  unfoldable pub start : Storage E L C → String → Job C → List (Job C) → Result (Storage E L C)
  start s state job rest = do
    let s' = record s { state_waiting_jobs_map = insert state rest s.state_waiting_jobs_map }
    sc ← deref (lookup job.state s'.state_status_map)
    run_job
        (record s' {
          state_status_map =
              insert job.state (record sc { waiting = dec sc.waiting }) s'.state_status_map;
        })
        job

  -- `runNextWaitingJob` once the count is lowered, on the waiting jobs of the state
  unfoldable pub run_last : Storage E L C → String → List (Job C) → Result (Storage E L C)
  unfolding start
  run_last s state [] = ok s
  run_last s state (x ∷ xs) = let (job, rest) = split_last x xs in start s state job rest

  unfoldable pub run_next_waiting_job : Storage E L C → String → Result (Storage E L C)
  unfolding run_last
  run_next_waiting_job s state = do
    sc ← deref (lookup state s.state_status_map)
    let s' = record s {
      state_status_map =
          insert state (record sc { executing = dec sc.executing }) s.state_status_map;
    }
    run_last s' state (jobs_of (lookup state s'.state_waiting_jobs_map))
