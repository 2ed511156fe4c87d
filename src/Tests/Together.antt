-- ===== src/Tests/Together.antt =====
-- Witnesses for the main goroutine on its storage and on the serializer of files.
use jorb.Base.{ℕ, ◌≡◌, refl, String, true, false, ◌⊎◌, none, List, [], ◌∷◌, lookup, insert}
use jorb.Effect.{ok}
use jorb.Job.{update_last_event}
use jorb.Run.{Run, update_job}
use jorb.Storage.{process_job, run_next_waiting_job, run_job, complete_job}
use jorb.Storage.New.{new_state_storage_from_states}
use jorb.Json.{Record}
use jorb.Json.Replay.{unstamped, update_all, SameJobs}
use jorb.Json.Disk.{Event, works, fails, Failure, Store, done, syscall, environment}
use jorb.Json.Start.{job_update, new_json_serializer}
use jorb.Json.Restart.{restarted}
use jorb.Json.Unfailing.{opened}
use jorb.Json.Life.{with_events}
use jorb.Processor.{
  Main, kick_job, persist_kicks, persist_after_completion, start_kicks, handle_return,
}
use jorb.Processor.System.{System, here, more, handle}
use jorb.Processor.Touched.{touched_jobs, touched_jobs-DistinctJobs}
use jorb.Processor.Persisting.{json_serializer}
use jorb.Processor.Surviving.{Saved, remembered, handle_return_survives, killed_anywhere}
use jorb.Processor.Dying.{persist_after_completion_survives}
use jorb.Tests.Config.{value_of}
use jorb.Tests.Files.{empty, same, fresh, fresh-Sound}
use jorb.Tests.Logs.{plain, plain-RoundTrips}
use jorb.Tests.Scheduler.{taken, returned}

abbrev message : Failure → String
message e = "failed"

abbrev before : Main Unit Unit (Store (Record ℕ) Unit ℕ) Unit ℕ
before = record { storage = taken.main.storage; run = empty; store = fresh }

abbrev handled : Main Unit Unit (Store (Record ℕ) Unit ℕ) Unit ℕ
handled =
    (value_of (before, false)
      (handle_return (json_serializer plain same message) (λ i. i) before returned)).0

handles :
    handle_return (json_serializer plain same message) (λ i. i) before returned ≡ ok (handled, true)
unfolding process_job run_job new_state_storage_from_states insert lookup complete_job handle_return
    start_kicks kick_job persist_after_completion persist_kicks job_update syscall environment
    run_next_waiting_job update_job update_last_event
handles = refl

handle_return_survives_example :
    Saved plain same message handled
    × (v : Run Unit ℕ) × SameJobs handled.run v
    × (new_json_serializer plain (λ n i. 0) tt (restarted handled.store.disk empty [])
        ≡ (done v, opened v none))
handle_return_survives_example =
    handle_return_survives plain same message plain-RoundTrips (λ i. i) (λ n i. 0) tt before handled
      returned true empty (empty, fresh-Sound [], tt) handles

-- The line of the first update is written, and that of the second, whose Sync then fails.
abbrev bad_sync : List (Event ℕ)
bad_sync =
    record { updates = []; outcome = works; partial = false }
    ∷ record { updates = []; outcome = works; partial = false }
    ∷ record { updates = []; outcome = works; partial = false }
    ∷ record { updates = []; outcome = fails; partial = false }
    ∷ []

abbrev remembering : Run Unit ℕ
remembering = update_all (λ i. i) 0 (touched_jobs returned) empty

persist_after_completion_survives_example :
    (v : Run Unit ℕ) × ((k : String)
      → (unstamped (lookup k v.jobs) ≡ unstamped (lookup k empty.jobs))
        ⊎ (unstamped (lookup k v.jobs) ≡ unstamped (lookup k remembering.jobs)))
    × (new_json_serializer plain
          (λ n i. 0)
          tt
          (restarted
            (persist_after_completion
              (json_serializer plain same message)
              (with_events fresh bad_sync)
              returned).1.disk
            empty
            [])
        ≡ (done v, opened v none))
persist_after_completion_survives_example =
    persist_after_completion_survives plain same message (λ i. i) remembering plain-RoundTrips
      (λ n i. 0) tt empty returned empty (with_events fresh bad_sync)
      (remembered plain same message (λ i. i) (touched_jobs returned) empty empty
        (with_events fresh bad_sync) (touched_jobs-DistinctJobs returned) (fresh-Sound bad_sync)
        ((refl, refl), ((refl, refl), ((refl, refl), ((refl, refl), tt)))))
      ((refl, refl), ((refl, refl), ((refl, refl), ((refl, refl), tt))))

-- One return has come in, and is handled.
abbrev waiting : System Unit Unit (Store (Record ℕ) Unit ℕ) Unit ℕ
waiting = record { main = before; working = []; returning = returned ∷ [] }

abbrev caught_up : System Unit Unit (Store (Record ℕ) Unit ℕ) Unit ℕ
caught_up = record { main = handled; working = []; returning = [] }

killed_anywhere_example :
    (v : Run Unit ℕ) × SameJobs caught_up.main.run v
    × (new_json_serializer plain (λ n i. 0) tt (restarted caught_up.main.store.disk empty [])
        ≡ (done v, opened v none))
killed_anywhere_example =
    killed_anywhere plain same message plain-RoundTrips (λ n i. 0) tt waiting caught_up empty
      (empty, fresh-Sound [], tt)
      (more here (handle (λ i. i) returned [] handled true refl handles refl))
