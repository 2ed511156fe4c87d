-- ===== src/Tests/Scheduler.antt =====
-- Witnesses for the storage and the main goroutine.
use jorb.Base.{
  ℕ, ◌≡◌, refl, ◌+◌, String, false, none, some, List, [], ◌∷◌, pos, lookup, insert, All, ◌↔◌, arith,
  length,
}
use jorb.Channel.{Channel}
use jorb.Effect.{Returns}
use jorb.Job.{Job}
use jorb.State.{State, KickRequest}
use jorb.Storage.{Storage, process_job, run_next_waiting_job, run_job, complete_job}
use jorb.Storage.New.{validate, new_state_storage_from_states}
use jorb.Storage.Lane.{HasLane, Lane, Moves, admit}
use jorb.Storage.Refine.{process_job-Moves}
use jorb.Storage.Oldest.{freed, run_next_waiting_job_lem}
use jorb.Storage.Status.{has_executing_jobs}
use jorb.Storage.Invariant.{Inv, SameStates, process_job-Inv}
use jorb.Storage.Valid.{validate_iff, StateOk}
use jorb.Storage.Fresh.{new_state_storage_from_states-Inv}
use jorb.Processor.{Return, nil_serializer, handle_return}
use jorb.Processor.Invariant.{handle_return-Inv}
use jorb.Processor.System.{
  System, Step, Reach, here, more, take, finish, take_job, count_jobs, count_returns, in_flight,
}
use jorb.Processor.Process.{Timed, take_all, process_loop}
use jorb.Processor.Running.{NamesOk, Passes, Ends, process_loop-Ends}
use jorb.Processor.Safety.{SystemOk, Reach-SystemOk}
use jorb.Processor.Progress.{stop_quiet}
use jorb.Tests.Config.{value_of, initial, config, fetch, keep, done, job_in}

initial_valid : validate initial ≡ none
unfolding validate new_state_storage_from_states insert lookup
initial_valid = refl

new_state_storage_from_states-Inv_example : Inv (λ k. 0) initial
new_state_storage_from_states-Inv_example = new_state_storage_from_states-Inv config initial_valid

initial-Inv : Inv (λ k. 0) initial
initial-Inv = new_state_storage_from_states-Inv config initial_valid

validate_iff_example : (validate initial ≡ none) ↔ All (StateOk initial.state_map) initial.states
validate_iff_example = validate_iff initial

-- One job fetches; three fetch, the third waits.
abbrev one_job : Storage Unit Unit ℕ
one_job = value_of initial (process_job initial (job_in "a" "fetch"))

one_job-Inv : Inv (λ k. 0) one_job
unfolding process_job run_job new_state_storage_from_states insert lookup
one_job-Inv = (process_job-Inv (λ k. 0) initial (job_in "a" "fetch") fetch refl initial-Inv).0

abbrev system_of : Storage Unit Unit ℕ → System Unit Unit Unit Unit ℕ
system_of s = record {
  main = record { storage = s; run = record { name = "run"; jobs = []; overall = tt }; store = tt };
  working = [];
  returning = [];
}

one_job-SystemOk : SystemOk (system_of one_job)
unfolding count_jobs count_returns
one_job-SystemOk = record { lanes = one_job-Inv; working = tt; returning = tt }

abbrev fetch_chan : Channel (Job ℕ)
fetch_chan = record { cap = 2; buf = job_in "a" "fetch" ∷ []; closed = false }

abbrev pub taken : System Unit Unit Unit Unit ℕ
taken = take_job (system_of one_job) "fetch" fetch_chan (job_in "a" "fetch") []

take-Step : Step nil_serializer (system_of one_job) taken
unfolding process_job run_job new_state_storage_from_states insert lookup count_jobs
take-Step = take "fetch" fetch fetch_chan (job_in "a" "fetch") [] refl refl refl (omega arith) refl

Reach-SystemOk_example : SystemOk taken
Reach-SystemOk_example =
    Reach-SystemOk nil_serializer (system_of one_job) taken (λ w j. refl) (more here take-Step)
      one_job-SystemOk

-- A job that arrives in a terminal state is only counted.
abbrev one_done : Storage Unit Unit ℕ
one_done = value_of initial (process_job initial (job_in "z" "done"))

one_done-SystemOk : SystemOk (system_of one_done)
unfolding process_job complete_job new_state_storage_from_states insert lookup count_jobs
    count_returns
one_done-SystemOk = record {
  lanes = (process_job-Inv (λ k. 0) initial (job_in "z" "done") done refl initial-Inv).0;
  working = tt;
  returning = tt;
}

stop_quiet_example :
    let y = system_of one_done in
    (y.working ≡ [])
    × (y.returning ≡ [])
    × ((k : String) (c : State Unit Unit)
        → lookup k y.main.storage.state_map ≡ some c
        → (l : Lane Unit Unit ℕ) × HasLane y.main.storage k l
          × (length l.chan.buf + length l.queue ≡ 0))
unfolding process_job complete_job new_state_storage_from_states insert lookup has_executing_jobs
stop_quiet_example = stop_quiet (system_of one_done) one_done-SystemOk refl

-- The worker sends job "a" on to `keep`, and asks for two more.
abbrev kick_to : String → KickRequest ℕ
kick_to state = record { c = 1; state = state }

abbrev pub returned : Return ℕ
returned = record {
  prior_state = "fetch";
  job = job_in "a" "keep";
  kick_requests = kick_to "fetch" ∷ kick_to "done" ∷ [];
}

handle_return-Inv_example :
    Returns
      (handle_return nil_serializer (λ i. i) taken.main returned)
      (λ (t, changed). Inv (λ k. 0) t.storage × SameStates taken.main.storage t.storage)
unfolding process_job run_job new_state_storage_from_states insert lookup count_jobs count_returns
handle_return-Inv_example =
    handle_return-Inv nil_serializer (λ i. i) (in_flight taken) (λ k. 0) taken.main returned
      (λ w j. refl) (fetch, refl) (keep, refl) ((fetch, refl), ((done, refl), tt)) refl
      (λ j ne. rw ne) Reach-SystemOk_example.lanes

abbrev fetch_lane : Lane Unit Unit ℕ
fetch_lane = record {
  config = fetch;
  status = record {
    state = "fetch";
    completed = pos 0;
    executing = pos 0;
    waiting = pos 0;
    terminal = false;
  };
  chan = record { cap = 2; buf = []; closed = false };
  queue = [];
}

process_job-Moves_example :
    Returns
      (process_job initial (job_in "a" "fetch"))
      (Moves initial "fetch" (admit fetch_lane (job_in "a" "fetch")))
unfolding new_state_storage_from_states insert lookup
process_job-Moves_example =
    process_job-Moves initial (job_in "a" "fetch") fetch_lane
      (record { config = refl; status = refl; chan = refl; queue = refl }) refl (λ e. omega arith)

-- Two jobs wait, "a" since before "b".
abbrev crowded : Storage Unit Unit ℕ
crowded = record initial {
  state_waiting_jobs_map =
      insert "fetch" (job_in "b" "fetch" ∷ job_in "a" "fetch" ∷ []) initial.state_waiting_jobs_map;
}

abbrev crowded_lane : Lane Unit Unit ℕ
crowded_lane = record fetch_lane { queue = job_in "b" "fetch" ∷ job_in "a" "fetch" ∷ [] }

run_next_waiting_job_lem_example : Returns (run_next_waiting_job crowded "fetch") (
    Moves crowded "fetch" (freed (some (job_in "b" "fetch" ∷ [], job_in "a" "fetch")) crowded_lane))
unfolding new_state_storage_from_states insert lookup
run_next_waiting_job_lem_example =
    run_next_waiting_job_lem crowded "fetch" crowded_lane
      (some (job_in "b" "fetch" ∷ [], job_in "a" "fetch"))
      (record { config = refl; status = refl; chan = refl; queue = refl }) refl (omega arith)
      (refl, (refl, tt)) refl

-- The worker takes job "a" and sends it back; it goes on to `keep`, and two jobs are kicked off.
abbrev came_back : System Unit Unit Unit Unit ℕ
came_back = record { main = taken.main; working = []; returning = returned ∷ [] }

came_back-Reach : Reach nil_serializer (system_of one_job) came_back
unfolding process_job run_job new_state_storage_from_states insert lookup count_jobs
came_back-Reach = more (more here take-Step) (
    finish [] [] (job_in "a" "fetch") returned refl
      (record {
        prior = refl;
        same_id = refl;
        next = (keep, refl);
        kicks = ((fetch, refl), ((done, refl), tt));
      })
      (omega arith) refl)

abbrev one_pass : List (Timed ℕ × List (Timed ℕ))
one_pass = (("fetch" ∷ [], (λ i. 0), returned), []) ∷ []

one_job-Passes : Passes nil_serializer (system_of one_job) one_pass
unfolding process_job run_job new_state_storage_from_states insert lookup take_all
one_job-Passes = (came_back, [], came_back-Reach, refl, refl, λ m changed e. tt)

one_job-NamesOk : NamesOk one_job
unfolding process_job run_job new_state_storage_from_states insert lookup
one_job-NamesOk = ((done, refl), ((fetch, refl), ((keep, refl), tt)))

process_loop-Ends_example :
    Returns
      (process_loop nil_serializer (system_of one_job).main one_pass)
      (λ (t, sent, done). Ends nil_serializer (λ w j. refl) (λ y. Unit) t)
process_loop-Ends_example =
    process_loop-Ends nil_serializer (λ w j. refl) (system_of one_job).main one_pass
      (system_of one_job, one_job-SystemOk, one_job-NamesOk, refl, one_job-Passes)
