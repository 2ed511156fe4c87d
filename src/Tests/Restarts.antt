-- ===== src/Tests/Restarts.antt =====
-- Witnesses for a serializer none of whose calls fails.
use mathlib.Core.List.{Perm}
use jorb.Job.{Time}
use jorb.Base.{
  Bool, ◌+◌, ◌*◌, ℕ, List, map, arith, true, false, ◌≡◌, refl, String, none, some, [], ◌∷◌, ◌++◌,
  ◌⊎◌, ◌↔◌, lookup,
}
use jorb.Run.{Run}
use jorb.Json.Backoff.{Checkpointing, second, run_checkpoint, run_checkpoints}
use jorb.Json.Loop.{
  ticked, kicked, stopped, close, close-Sound, try_checkpoint, settled, checkpoint_retried,
}
use jorb.Json.Rules.{Post}
use jorb.Json.Replay.{unstamped}
use jorb.Json.Disk.{done}
use jorb.Json.Store.{do_checkpoint_rotate_write_delete}
use jorb.Json.Names.{
  inc, sealed_incremental_name, contains, is_prefix, parse_sealed_seq, list_sealed_segments,
}
use jorb.Json.Names.Stem.{append_name, append_name-shared_iff}
use jorb.Json.Names.Listing.{Ascending, list_sealed_segments-Ascending}
use jorb.Json.Start.{job_update, new_json_serializer, close_serializer}
use jorb.Json.Durable.{SameHeader, Sound}
use jorb.Json.Restart.{restarted}
use jorb.Json.Survival.{appended_update_survives}
use jorb.Json.Unfailing.{opened}
use jorb.Json.Returns.{new_json_serializer_returns, restart_after_close}
use jorb.Tests.Files.{empty, moved, same, ahead, ahead-Sound}
use jorb.Tests.Logs.{plain, plain-RoundTrips}

new_json_serializer_returns_example :
    (v : Run Unit ℕ) × SameHeader v empty
    × ((k : String)
        → (unstamped (lookup k v.jobs) ≡ unstamped (lookup k empty.jobs))
          ⊎ (unstamped (lookup k v.jobs) ≡ unstamped (lookup k ahead.run.jobs)))
    × (new_json_serializer plain (λ n i. 0) tt (restarted ahead.disk empty [])
        ≡ (done v, opened v none))
new_json_serializer_returns_example =
    new_json_serializer_returns plain plain-RoundTrips (λ n i. 0) tt empty (moved ∷ []) ahead empty
      ahead-Sound

restart_after_close_example :
    ((close_serializer ahead).0 ≡ done tt)
    × (new_json_serializer plain (λ n i. 0) tt (restarted (close_serializer ahead).1.disk empty [])
        ≡ (done ahead.run, opened ahead.run none))
restart_after_close_example =
    restart_after_close plain empty (moved ∷ []) plain-RoundTrips (λ n i. 0) tt ahead empty
      ahead-Sound refl

appended_update_survives_example :
    ((job_update plain same moved ahead).0 ≡ done tt)
    × (v : Run Unit ℕ) × (new_json_serializer plain
          (λ n i. 0)
          tt
          (restarted (job_update plain same moved ahead).1.disk empty [])
        ≡ (done v, opened v none))
    × (unstamped (lookup moved.id v.jobs) ≡ unstamped (some moved))
appended_update_survives_example =
    appended_update_survives plain plain-RoundTrips (λ n i. 0) tt empty 5 moved [] same ahead empty
      (tt, tt) ahead-Sound refl refl

abbrev waiting : Checkpointing
waiting = record {
  checkpoint_busy = false;
  checkpoint_pending = false;
  ck_failures = 0;
  ck_backoff_until = 0;
  kicked = true;
}

-- Two wakes, of which the second falls in the wait if the first checkpoint failed.
close-Sound_example :
    Post
      (Sound plain empty (moved ∷ []) empty)
      (close (kicked 5 6 ∷ ticked 7 8 ∷ stopped ∷ []) waiting ahead)
      (λ u t. Sound plain empty (moved ∷ []) empty t × (t.append_file ≡ false))
close-Sound_example =
    close-Sound plain empty (moved ∷ []) (tt, tt) (kicked 5 6 ∷ ticked 7 8 ∷ stopped ∷ []) waiting
      ahead refl ahead-Sound

-- "run"
abbrev stem : List ℕ
stem = b'r' ∷ b'u' ∷ b'n' ∷ []

list_sealed_segments-Ascending_example :
    Perm
      (list_sealed_segments
        (map (λ seq. sealed_incremental_name stem seq) (1_000_000 ∷ 999_999 ∷ [])))
      (1_000_000 ∷ 999_999 ∷ [])
    × Ascending (
        list_sealed_segments
          (map (λ seq. sealed_incremental_name stem seq) (1_000_000 ∷ 999_999 ∷ [])))
unfolding contains is_prefix
list_sealed_segments-Ascending_example =
    list_sealed_segments-Ascending stem (1_000_000 ∷ 999_999 ∷ []) refl
      (omega arith, (omega arith, tt))

name_of_42 : parse_sealed_seq (sealed_incremental_name stem 42) ≡ some 42
unfolding sealed_incremental_name parse_sealed_seq
name_of_42 = refl

-- A stem that contains the mark hides the number.
name_of_marked : parse_sealed_seq (sealed_incremental_name (b'x' ∷ (inc ++ b'y' ∷ [])) 42) ≡ none
unfolding sealed_incremental_name parse_sealed_seq
name_of_marked = refl

-- "run.json" and "run.bak"
append_name-shared_iff_example :
    (append_name (stem ++ b'.' ∷ b'j' ∷ b's' ∷ b'o' ∷ b'n' ∷ [])
      ≡ append_name (stem ++ b'.' ∷ b'b' ∷ b'a' ∷ b'k' ∷ []))
    ↔ (stem ≡ stem)
append_name-shared_iff_example =
    append_name-shared_iff stem (b'j' ∷ b's' ∷ b'o' ∷ b'n' ∷ []) stem (b'b' ∷ b'a' ∷ b'k' ∷ [])
      (refl, (refl, (refl, (refl, tt)))) (refl, (refl, (refl, tt)))

abbrev started : Checkpointing
started = record {
  checkpoint_busy = false;
  checkpoint_pending = false;
  ck_failures = 0;
  ck_backoff_until = 0;
  kicked = false;
}

-- A checkpoint fails, a second call comes within the wait, and a third fails after it.
abbrev calls : List (Time × Time × Bool)
calls = (10, 20, true) ∷ (30, 40, true) ∷ (2_000_000_000, 3_000_000_000, true) ∷ []

checkpoint_retried_example :
    ((run_checkpoint
        (3_000_000_000 + 16 * second)
        20_000_000_000
        false
        (run_checkpoints calls started)).ck_failures
      ≡ 0)
    × (try_checkpoint
          (3_000_000_000 + 16 * second)
          20_000_000_000
          (run_checkpoints calls started)
          ahead
        ≡ settled 20_000_000_000
            (record (run_checkpoints calls started) { checkpoint_busy = true })
            (do_checkpoint_rotate_write_delete ahead))
checkpoint_retried_example =
    checkpoint_retried calls 3_000_000_000 20_000_000_000 false started ahead refl (omega arith)
      (omega arith, (omega arith, (omega arith, tt)))
