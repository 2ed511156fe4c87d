-- ===== src/Tests/Goroutines.antt =====
-- Witnesses for the goroutines of a run.
use jorb.Base.{ℕ, inr, ◌≡◌, refl, String, false, ◌⊎◌, List, [], ◌∷◌, lookup, insert}
use jorb.Channel.{Channel}
use jorb.Effect.{ok}
use jorb.Job.{Job}
use jorb.Run.{Run}
use jorb.Storage.{Storage, process_job, queue_job, run_job, is_terminal}
use jorb.Storage.New.{validate, new_state_storage_from_states}
use jorb.Storage.Status.{all_jobs_are_terminal}
use jorb.Processor.{nil_serializer}
use jorb.Processor.Process.{start_jobs}
use jorb.Processor.Goroutines as G
use jorb.Processor.Goroutines.{
  Worker, idle, executing, executed, sending, Goroutines, new_processor, exec_func, start_workers,
  start_goroutines, Go, Crashes, Runs, starts, follows,
}
use jorb.Processor.Goroutines.Going.{AllDone}
use jorb.Processor.Goroutines.Executing.{run_completes}
use jorb.Processor.System.{Reach}
use jorb.Processor.Goroutines.Workers.{system}
use jorb.Processor.Goroutines.Refines.{interleavings_are_steps}
use jorb.Processor.Goroutines.Canceled.{canceled_send-Crashes}
use jorb.Tests.Config.{done as term, value_of, initial, config, fetch, keep, job_in}
use jorb.Tests.Scheduler.{returned}

-- Three jobs fetch, of which one waits, and one is to be kept.
abbrev four_jobs : Run Unit ℕ
four_jobs = record {
  name = "run";
  jobs =
      ("a", job_in "a" "fetch")
      ∷ ("b", job_in "b" "fetch")
      ∷ ("c", job_in "c" "fetch")
      ∷ ("d", job_in "d" "keep")
      ∷ [];
  overall = tt;
}

abbrev admitted : Storage Unit Unit ℕ
admitted = value_of initial (start_jobs initial four_jobs.jobs)

admits : start_jobs initial four_jobs.jobs ≡ ok admitted
unfolding start_jobs process_job run_job queue_job new_state_storage_from_states insert lookup
admits = refl

-- A worker receives job "a", executes it and comes to its send.
abbrev at_first : Goroutines Unit Unit Unit Unit ℕ
at_first = start_goroutines admitted four_jobs tt

abbrev all_workers : List (String × Worker ℕ)
all_workers = ("fetch", idle) ∷ ("fetch", idle) ∷ ("keep", idle) ∷ []

abbrev first_job : Job ℕ
first_job = job_in "a" "fetch"

abbrev one_left : Channel (Job ℕ)
one_left = record { cap = 2; buf = first_job ∷ job_in "b" "fetch" ∷ []; closed = false }

abbrev with_worker : Worker ℕ → Goroutines Unit Unit Unit Unit ℕ
with_worker w = record at_first {
  main = G.received at_first.main "fetch" one_left (job_in "b" "fetch" ∷ []);
  workers = ("fetch", w) ∷ ("fetch", idle) ∷ ("keep", idle) ∷ [];
}

to_send : Runs nil_serializer at_first (with_worker (sending first_job returned))
unfolding start_goroutines start_workers exec_func start_jobs process_job run_job queue_job
    new_state_storage_from_states insert lookup
to_send =
    follows {z = with_worker (executed first_job returned)}
      (follows {z = with_worker (executing first_job)}
        (follows starts (
          G.receive "fetch"
            (record { before = []; after = ("fetch", idle) ∷ ("keep", idle) ∷ []; at = refl })
            one_left first_job (job_in "b" "fetch" ∷ []) refl refl refl))
        (G.execute "fetch" first_job
          (record { before = []; after = ("fetch", idle) ∷ ("keep", idle) ∷ []; at = refl })
          returned
          (record {
            prior = refl;
            same_id = refl;
            next = (keep, refl);
            kicks = ((fetch, refl), ((term, refl), tt));
          })
          refl))
      (G.pass "fetch" first_job returned
        (record { before = []; after = ("fetch", idle) ∷ ("keep", idle) ∷ []; at = refl }) refl
        refl)

accepted : new_processor config ≡ inr initial
unfolding new_processor validate new_state_storage_from_states insert lookup
accepted = refl

working : all_jobs_are_terminal initial four_jobs ≡ false
unfolding all_jobs_are_terminal is_terminal new_state_storage_from_states insert lookup
working = refl

run_completes_example :
    ¬ (Crashes nil_serializer (with_worker (sending first_job returned)))
    × (AllDone (with_worker (sending first_job returned))
        ⊎ ((z : Goroutines Unit Unit Unit Unit ℕ) × Go nil_serializer
              (with_worker (sending first_job returned))
              z
            × (z.canceled ≡ false)))
unfolding start_goroutines new_state_storage_from_states insert lookup
run_completes_example =
    run_completes nil_serializer config initial admitted four_jobs tt
      (with_worker (sending first_job returned)) accepted
      ((refl, (refl, tt)), ((refl, tt), (tt, tt))) (refl, (refl, (refl, (refl, tt))))
      (refl, (refl, (refl, (refl, tt))))
      ((fetch, refl), ((fetch, refl), ((fetch, refl), ((keep, refl), tt)))) working (λ w j. refl)
      admits to_send refl

interleavings_are_steps_example :
    Reach nil_serializer (system at_first) (system (with_worker (sending first_job returned)))
unfolding start_goroutines new_state_storage_from_states insert lookup
interleavings_are_steps_example =
    interleavings_are_steps nil_serializer config initial admitted four_jobs tt
      (with_worker (sending first_job returned)) accepted
      ((refl, (refl, tt)), ((refl, tt), (tt, tt))) (refl, (refl, (refl, (refl, tt))))
      (refl, (refl, (refl, (refl, tt))))
      ((fetch, refl), ((fetch, refl), ((fetch, refl), ((keep, refl), tt)))) working (λ w j. refl)
      admits to_send refl (λ e. cc)

canceled_send-Crashes_example :
    (z : Goroutines Unit Unit Unit Unit ℕ) × Runs nil_serializer
      (with_worker (sending first_job returned))
      z
    × Crashes nil_serializer z
unfolding start_goroutines new_state_storage_from_states insert lookup
canceled_send-Crashes_example =
    canceled_send-Crashes nil_serializer config initial admitted four_jobs tt
      (with_worker (sending first_job returned)) "fetch" first_job returned accepted
      ((refl, (refl, tt)), ((refl, tt), (tt, tt))) (refl, (refl, (refl, (refl, tt))))
      (refl, (refl, (refl, (refl, tt))))
      ((fetch, refl), ((fetch, refl), ((fetch, refl), ((keep, refl), tt)))) working (λ w j. refl)
      admits to_send refl refl
      (record { before = []; after = ("fetch", idle) ∷ ("keep", idle) ∷ []; at = refl })
