-- ===== src/Tests/Files.antt =====
-- Witnesses for the files of a serializer.
use jorb.Base.{
  ap, ℕ, ◌≡◌, refl, String, true, false, Option, none, some, List, [], ◌∷◌, lookup, inl, inr, ◌⊎◌,
  insert, suc, length,
}
use jorb.Job.{Job, update_last_event}
use jorb.Run.{Run, update_job}
use jorb.Json.{Record, malformed, line, Codec, RoundTrips}
use jorb.Json.Replay.{unstamped, update_job-lookup}
use jorb.Json.Disk.{
  whole, torn, Event, works, fails, dies, Store, done, failed, decode_error, replay_error,
  environment, syscall, stat,
}
use jorb.Json.Store.{put_segment, do_checkpoint_rotate_write_delete}
use jorb.Json.Start.{job_update, new_json_serializer, append_to}
use jorb.Json.Rules.{Post}
use jorb.Json.Durable.{SameHeader, only_active, Holds, Sound, to_come, lines_of}
use jorb.Json.Rotation.{checkpoint-Sound}
use jorb.Json.CutOff.{CutOff, job_update-Sound}
use jorb.Json.Restart.{restarted, restart-Sound}
use jorb.Json.Refused.{new_json_serializer_of_torn, new_json_serializer_of_cut}
use jorb.Json.Life.{
  with_events, Moment, update, append, checkpoint, Lives, begins, goes_on, Durable, Lives-Durable,
}
use jorb.Tests.Config.{job_in}
use jorb.Tests.Logs.{plain, plain-RoundTrips}

abbrev pub empty : Run Unit ℕ
empty = record { name = "run"; jobs = []; overall = tt }

-- A serializer that has just started.
abbrev pub fresh : Store (Record ℕ) Unit ℕ
fresh = record {
  disk = record {
    main = some (whole empty);
    tmp = none;
    old = none;
    active = some [];
    sealed = [];
  };
  run = empty;
  append_file = true;
  seal_seq = 0;
  events = [];
}

abbrev pub same : Record ℕ → Record ℕ
same l = l

pub fresh-Sound :
    (es : List (Event ℕ)) → Sound plain empty (to_come es) empty (with_events fresh es)
fresh-Sound es = record {
  made = [];
  total = refl;
  memory = λ k. refl;
  run_header = (refl, refl);
  copy_header = (refl, refl);
  copy = λ k. inl refl;
  holds = record {
    checkpoint = empty;
    main = refl;
    header = (refl, refl);
    log = [];
    logs = only_active refl refl;
    covers = λ k. inr (λ o. refl, inl refl);
  };
  handle = λ e. refl;
}

-- The handle is closed, job "b" is updated before the log is renamed, and the program dies while the
-- temporary file is written.
abbrev busy : List (Event ℕ)
busy =
    record { updates = []; outcome = works; partial = false }
    ∷ record { updates = (3, job_in "b" "fetch") ∷ []; outcome = works; partial = false }
    ∷ record { updates = []; outcome = works; partial = false }
    ∷ record { updates = []; outcome = works; partial = false }
    ∷ record { updates = []; outcome = works; partial = false }
    ∷ record { updates = []; outcome = dies; partial = true }
    ∷ []

checkpoint-Sound_example :
    Post
      (Sound plain empty (job_in "b" "fetch" ∷ []) empty)
      (do_checkpoint_rotate_write_delete (with_events fresh busy))
      (λ u t. Sound plain empty (job_in "b" "fetch" ∷ []) empty t × (t.append_file ≡ true))
checkpoint-Sound_example =
    checkpoint-Sound plain empty (job_in "b" "fetch" ∷ []) (tt, tt) (with_events fresh busy)
      (fresh-Sound busy)

abbrev pub moved : Job ℕ
moved = job_in "a" "keep"

abbrev pub ahead : Store (Record ℕ) Unit ℕ
ahead = record fresh { run = update_job 5 empty moved }

-- The same with events to come, in which the main goroutine makes no updates.
with_events-Sound :
    (es : List (Event ℕ))
    → to_come es ≡ []
    → Sound plain empty (moved ∷ []) empty (record ahead { events = es })
unfolding update_job
with_events-Sound es quiet = record {
  made = moved ∷ [];
  total = ap (λ js. moved ∷ js) quiet;
  memory = λ k. update_job-lookup 5 empty moved k;
  run_header = (refl, refl);
  copy_header = (refl, refl);
  copy = λ k. inl refl;
  holds = record {
    checkpoint = empty;
    main = refl;
    header = (refl, refl);
    log = [];
    logs = only_active refl refl;
    covers = λ k. inr (λ o. refl, inl refl);
  };
  handle = λ e. refl;
}

pub ahead-Sound : Sound plain empty (moved ∷ []) empty ahead
ahead-Sound = with_events-Sound [] refl

-- The write of the line is cut off.
abbrev cut_write : Store (Record ℕ) Unit ℕ
cut_write = record ahead { events = record { updates = []; outcome = fails; partial = true } ∷ [] }

job_update-Sound_example :
    Post
      (λ t.
        Sound plain empty (moved ∷ []) empty t
        ⊎ Sound plain (update_job 5 empty moved) [] (update_job 5 empty moved) t
        ⊎ CutOff plain empty 5 moved [] (tt, tt) same t)
      (job_update plain same moved cut_write)
      (λ u t. Sound plain (update_job 5 empty moved) [] (update_job 5 empty moved) t)
job_update-Sound_example =
    job_update-Sound plain empty 5 moved [] (tt, tt) same cut_write (refl, tt)
      (with_events-Sound cut_write.events refl)

restart-Sound_example :
    (v : Run Unit ℕ) × SameHeader v empty
    × ((k : String)
        → (unstamped (lookup k v.jobs) ≡ unstamped (lookup k empty.jobs))
          ⊎ (unstamped (lookup k v.jobs) ≡ unstamped (lookup k ahead.run.jobs)))
    × Post
        (λ t. Holds plain v [] t.disk)
        (new_json_serializer plain (λ n i. 0) tt (restarted ahead.disk empty []))
        (λ r t. (r ≡ v) × Sound plain r [] r t × (t.append_file ≡ true))
restart-Sound_example =
    restart-Sound plain plain-RoundTrips (λ n i. 0) tt empty (moved ∷ []) ahead empty [] ahead-Sound
      tt

-- The update is made and appended, and a checkpoint follows that works.
abbrev begun : Moment (Record ℕ) Unit ℕ
begun = record { written = empty; pending = []; store = fresh }

abbrev updated : Moment (Record ℕ) Unit ℕ
updated = record { written = empty; pending = moved ∷ []; store = ahead }

abbrev appended : Moment (Record ℕ) Unit ℕ
appended = record {
  written = update_job 5 empty moved;
  pending = [];
  store = (job_update plain same moved ahead).1;
}

abbrev published : Moment (Record ℕ) Unit ℕ
published = record {
  written = update_job 5 empty moved;
  pending = [];
  store = (do_checkpoint_rotate_write_delete appended.store).1;
}

published-Lives : Lives plain same begun published
unfolding update_job insert update_last_event job_update do_checkpoint_rotate_write_delete syscall
    environment stat put_segment
published-Lives =
    goes_on
      (goes_on (goes_on begins (update 5 moved (tt, tt) refl))
        (append 5 moved [] [] appended.store refl tt refl refl refl))
      (checkpoint [] (done tt) published.store tt refl refl refl)

Lives-Durable_example : Durable plain same published
Lives-Durable_example =
    Lives-Durable plain same published-Lives
      (record { sound = fresh-Sound []; distinct = tt; idle = refl })

new_json_serializer_of_torn_example :
    (new_json_serializer plain
      (λ n i. 0)
      tt
      (restarted
        (record {
          main = none;
          tmp = some torn;
          old = some (whole empty);
          active = none;
          sealed = [];
        })
        empty
        [])).0
    ≡ failed decode_error
new_json_serializer_of_torn_example =
    new_json_serializer_of_torn plain (λ n i. 0) tt (some (whole empty)) none [] empty

-- Lines that may be cut off.
abbrev cuttable : Codec (Option (Record ℕ)) ℕ
cuttable = record { encode = λ r. some r; decode = λ l. l; is_blank = λ l. false }

cuttable-RoundTrips : RoundTrips cuttable
cuttable-RoundTrips = record { decode-encode = λ r. refl; written = λ r. refl }

new_json_serializer_of_cut_example :
    (new_json_serializer cuttable
      (λ n i. 0)
      tt
      (restarted
        (record {
          main = some (whole empty);
          tmp = none;
          old = none;
          active = some (append_to (lines_of cuttable (moved ∷ [])) none);
          sealed = [];
        })
        empty
        [])).0
    ≡ failed (replay_error (line (suc (length (moved ∷ []))) malformed))
new_json_serializer_of_cut_example =
    new_json_serializer_of_cut cuttable (λ n i. 0) tt cuttable-RoundTrips none none empty empty
      (moved ∷ []) none refl refl
