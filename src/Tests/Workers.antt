-- ===== src/Tests/Workers.antt =====
-- Witnesses for what a worker does with a job, and for the start and the end of a run.
use jorb.Base.{
  pos, ℕ, ◌+◌, ◌≡◌, refl, String, Bool, true, false, Option, some, List, [], ◌∷◌, ℤ, Dict, lookup,
  insert, All,
}
use jorb.Effect.{Returns, ok}
use jorb.Channel.{Channel, make_chan}
use jorb.Run.{update_job}
use jorb.Job.{Job}
use jorb.State.{StatusCount}
use jorb.Storage.{split_last, queue_job, process_job, run_job, complete_job, run_next_waiting_job}
use jorb.Storage.New.{new_state_storage_from_states, validate}
use jorb.Storage.Status.{all_jobs_are_terminal, has_executing_jobs, get_status_counts}
use jorb.Storage.Invariant.{Inv, SameStates}
use jorb.Storage.Fresh.{new_state_storage_from_states-Inv}
use jorb.Processor.{
  Main, Return, nil_serializer, handle_return, persist_after_completion, persist_kicks, start_kicks,
}
use jorb.Processor.System.{Answers}
use jorb.Processor.Process.{Timed, take_all, process_loop, round, start_jobs, shutdown}
use jorb.Processor.Admission.{start_jobs-Inv}
use jorb.Processor.Starting.{shutdown-HasChannel, process_loop_lem, HasChannel, AtRest}
use jorb.Storage.Lane.{Lane, HasLane, admit}
use jorb.Worker.{
  rate_limit_on, deadline_exceeded, labelled, adaptive, BackoffRateLimiter, Outcome, Limits,
  execute_one,
}
use jorb.Worker.Outcomes.{execute_one-Answers}
use jorb.Worker.Ending.{Ending, too_late, itself, under_label, under_limit}
use jorb.Worker.Settling.{execute_one_limits}
use jorb.Tests.Config.{value_of, config, initial, fetch, keep, done, job_in}

-- A limiter that counts what it is told.
abbrev counter : BackoffRateLimiter (ℕ × ℕ)
counter = record { backoff = λ (b, s). (b + 1, s); on_success = λ (b, s). (b, s + 1) }

-- The function fails because its own deadline has passed at a rate limited service.
abbrev slow : Outcome ℕ
slow = record {
  c = 8;
  state = "keep";
  kick_requests = record { c = 1; state = "fetch" } ∷ [];
  err = some (labelled "get" (rate_limit_on deadline_exceeded));
}

-- The type of the functions of the states.
abbrev Handler : Type 0
Handler = Unit

abbrev call : Handler → Option ℤ → ℕ → Outcome ℕ
call f deadline c = slow

abbrev limits : Limits (ℕ × ℕ)
limits = record { limiter = adaptive (0, 0); waits = 0 }

abbrev seconds : ℤ → String
seconds d = "30s"

-- The deadline stands under a label and a `RateLimitError`, and the run goes on.
abbrev slow_Ending : Ending fetch.timeout false slow.err
slow_Ending =
    too_late (record { duration = pos 30; fail_state = "done" })
      (labelled "get" (rate_limit_on deadline_exceeded)) refl refl
      (under_label (under_limit (itself refl))) refl

-- The timeout hides the rate limit from the limiter.
execute_one_limits_example :
    Returns
      (execute_one counter seconds call fetch false limits (job_in "a" "fetch"))
      (λ (r, l). (l.limiter ≡ adaptive (0, 0)) × (l.waits ≡ 1))
execute_one_limits_example =
    execute_one_limits counter seconds call fetch false limits (job_in "a" "fetch") tt slow
      slow_Ending refl refl

execute_one-Answers_example :
    Returns
      (execute_one counter seconds call keep false limits (job_in "a" "keep"))
      (λ (r, l). Answers initial (job_in "a" "keep") r)
unfolding new_state_storage_from_states insert lookup
execute_one-Answers_example =
    execute_one-Answers counter seconds call keep initial false limits (job_in "a" "keep") tt slow
      refl refl (keep, refl) ((fetch, refl), tt) (λ t e. cc)

-- Of three jobs two are in `keep`, which runs one at a time: the first of them runs, the other waits.
abbrev three_jobs : Dict (Job ℕ)
three_jobs = ("a", job_in "a" "keep") ∷ ("b", job_in "b" "done") ∷ ("c", job_in "c" "keep") ∷ []

abbrev keep_lane : Lane Unit Unit ℕ
keep_lane = record {
  config = keep;
  status = record {
    state = "keep";
    completed = pos 0;
    executing = pos 0;
    waiting = pos 0;
    terminal = false;
  };
  chan = record { cap = 1; buf = []; closed = false };
  queue = [];
}

start_jobs-Inv_example : Returns (start_jobs initial three_jobs) (λ t.
    Inv (λ k. 0) t
    × SameStates initial t
    × HasLane t "keep" (record keep_lane {
      status = record keep_lane.status { executing = pos 1; waiting = pos 1 };
      chan = record { cap = 1; buf = job_in "a" "keep" ∷ []; closed = false };
      queue = job_in "c" "keep" ∷ [];
    }))
unfolding new_state_storage_from_states insert lookup validate admit
start_jobs-Inv_example =
    start_jobs-Inv (λ k. 0) initial three_jobs "keep" keep_lane
      ((keep, refl), ((done, refl), ((keep, refl), tt)))
      (new_state_storage_from_states-Inv config refl)
      (record { config = refl; status = refl; chan = refl; queue = refl })

abbrev returns : Channel (Return ℕ)
returns = make_chan 256

shutdown-HasChannel_example :
    Returns
      (shutdown initial returns)
      (λ (t, closed). All (λ c. HasChannel t true c.trigger_state) config × (closed.closed ≡ true))
unfolding new_state_storage_from_states insert lookup make_chan
shutdown-HasChannel_example =
    shutdown-HasChannel initial returns ((refl, (refl, tt)), ((refl, tt), (tt, tt)))
      ((make_chan 2, refl, refl), ((make_chan 1, refl, refl), ((make_chan 0, refl, refl), tt))) refl

-- A worker takes job "a" of `keep`, whose channel has room for one, and it comes back and is done; the
-- worker then takes job "b", which waited, and it is done as well.
abbrev jobs : Dict (Job ℕ)
jobs = ("a", job_in "a" "keep") ∷ ("b", job_in "b" "keep") ∷ []

abbrev before : Main Unit Unit Unit Unit ℕ
before = record {
  storage = value_of initial (start_jobs initial jobs);
  run = record { name = "run"; jobs = jobs; overall = tt };
  store = tt;
}

abbrev returned : String → Return ℕ
returned id = record { prior_state = "keep"; job = job_in id "done"; kick_requests = [] }

abbrev passes : List (Timed ℕ × List (Timed ℕ))
passes =
    (("keep" ∷ [], (λ i. 0), returned "a"), []) ∷ (("keep" ∷ [], (λ i. 0), returned "b"), []) ∷ []

abbrev after : Main Unit Unit Unit Unit ℕ × List (List StatusCount) × Bool
after = value_of (before, [], false) (process_loop nil_serializer before passes)

ends : process_loop nil_serializer before passes ≡ ok (after.0, after.1, true)
unfolding process_loop round handle_return start_jobs process_job run_job complete_job
    run_next_waiting_job new_state_storage_from_states insert lookup get_status_counts
    all_jobs_are_terminal has_executing_jobs persist_after_completion persist_kicks update_job
    start_kicks take_all queue_job split_last
ends = refl

process_loop_lem_example : AtRest after.0
process_loop_lem_example = process_loop_lem nil_serializer before after.0 passes after.1 ends
