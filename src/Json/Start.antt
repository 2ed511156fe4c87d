-- ===== src/Json/Start.antt =====
-- json_serializer.go: the start that recovers and replays, the append of an update, and the end.
-- `overall` is the zero value of the overall context, `cut` what is left of a line whose write was cut
-- off, and `now n i` what the clock says at line `i` of the `n`-th log that is replayed.
use jorb.Base.{ℕ, suc, Bool, true, false, Option, none, some, List, [], ◌∷◌, ◌++◌, map}
use jorb.Job.{Job, Time}
use jorb.Run.{Run, init, new_run}
use jorb.Json.{Codec, record_of, Load, loaded, refused, replay_jsonl_file}
use jorb.Json.Disk.{
  Content, whole, torn, serializer_closed, decode_error, replay_error, Io, ◌>>=◌, ◌>>◌, pure, raise,
  gets, modify, ◌on_error◌, syscall, touch, stat, is_there, or_empty,
}
use jorb.Json.Store.{
  segment, sort_by_seq, seq_of, remove_all_append_artifacts, snapshot_run, write_checkpoint_atomic,
  open_append, close_append, do_checkpoint_rotate_write_delete, recover_checkpoint_atomic,
}

abbrev pub append_to : {Line : Type 0} → List Line → Line → List Line
append_to ls l = ls ++ l ∷ []

module _ {Line OC C : Type 0} (codec : Codec Line C) where
  abbrev pub from_load : {A : Type 0} → Load A → Io Line OC C A
  from_load (loaded a) = pure a
  from_load (refused e) = raise (replay_error e)

  abbrev pub write_line : (Line → Line) → Line → Io Line OC C (Unit {0})
  write_line cut l =
      syscall
        (λ s. record s {
          disk = record s.disk { active = some (append_to (or_empty s.disk.active) l) };
        })
        (λ s. record s {
          disk = record s.disk { active = some (append_to (or_empty s.disk.active) (cut l)) };
        })

  abbrev pub write_update : (Line → Line) → Job C → Bool → Io Line OC C (Unit {0})
  write_update cut job false = raise serializer_closed
  write_update cut job true = do write_line cut (codec.encode (record_of job)); touch

  -- `JobUpdate`. With the ticker on, no checkpoint is scheduled.
  unfoldable pub job_update : (Line → Line) → Job C → Io Line OC C (Unit {0})
  unfolding syscall
  job_update cut job = gets (λ s. s.append_file) >>= write_update cut job

  module _ (now : ℕ → ℕ → Time) (overall : OC) where
    unfoldable pub replay_log : ℕ → List Line → Run OC C → Io Line OC C (Run OC C)
    unfolding replay_jsonl_file syscall
    replay_log n ls run = do
      touch
      from_load (replay_jsonl_file codec (now n) (record { lines = ls; err = none }) run)

    unfoldable pub replay_sealed : ℕ → List ℕ → Run OC C → Io Line OC C (Run OC C)
    unfolding replay_log
    replay_sealed n [] run = pure run
    replay_sealed n (seq ∷ seqs) run = do
      ls ← gets (λ s. or_empty (segment seq s.disk.sealed))
      run' ← replay_log n ls run
      replay_sealed (suc n) seqs run'

    abbrev pub decode : Time → Content OC C → Io Line OC C (Run OC C)
    decode t torn = raise decode_error
    decode t (whole r) = pure (init t r)

    abbrev pub decode_checkpoint : Time → Option (Content OC C) → Io Line OC C (Run OC C)
    decode_checkpoint t none = pure (new_run t "default" overall)
    decode_checkpoint t (some content) = do touch; decode t content

    abbrev pub replay_active : Bool → Run OC C → Io Line OC C (Run OC C)
    replay_active false run = pure run
    replay_active true run = do ls ← gets (λ s. or_empty s.disk.active); replay_log 0 ls run

    unfoldable pub load_checkpoint_and_replay : Io Line OC C (Run OC C)
    unfolding stat replay_sealed sort_by_seq init new_run
    load_checkpoint_and_replay = do
      touch
      main ← gets (λ s. s.disk.main)
      run ← decode_checkpoint (now 0 0) main
      seqs ← gets (λ s. sort_by_seq (map seq_of s.disk.sealed))
      run' ← replay_sealed 1 seqs run
      there ← stat (λ d. is_there d.active)
      replay_active there run'

    unfoldable pub materialize_clean_incremental : Io Line OC C (Unit {0})
    unfolding write_checkpoint_atomic remove_all_append_artifacts snapshot_run
    materialize_clean_incremental = do
      snap ← snapshot_run
      write_checkpoint_atomic snap
      remove_all_append_artifacts

    -- `NewJsonSerializer`, on the files that it finds
    unfoldable pub new_json_serializer : Io Line OC C (Run OC C)
    unfolding recover_checkpoint_atomic load_checkpoint_and_replay materialize_clean_incremental
        open_append
    new_json_serializer = do
      touch
      recover_checkpoint_atomic
      run ← load_checkpoint_and_replay
      modify (λ s. record s { run = run })
      materialize_clean_incremental
      open_append
      pure run

    unfoldable pub deserialize : Io Line OC C (Run OC C)
    unfolding load_checkpoint_and_replay init
    deserialize = do
      loaded_run ← load_checkpoint_and_replay
      let run = init (now 0 0) loaded_run
      modify (λ s. record s { run = run })
      pure run

module _ {Line OC C : Type 0} where
  -- `CheckpointSync`
  abbrev pub checkpoint_sync : Io Line OC C (Unit {0})
  checkpoint_sync = do_checkpoint_rotate_write_delete

  -- The handle is gone also when closing it fails.
  abbrev pub close_last : Bool → Io Line OC C (Unit {0})
  close_last false = pure tt
  close_last true = do
    ◌on_error◌ touch (modify (λ s. record s { append_file = false }))
    modify (λ s. record s { append_file = false })

  -- `Close`, once the checkpoint goroutine has stopped.
  unfoldable pub close_serializer : Io Line OC C (Unit {0})
  unfolding do_checkpoint_rotate_write_delete
  close_serializer = do
    ◌on_error◌ checkpoint_sync (gets (λ s. s.append_file) >>= close_append)
    is_open ← gets (λ s. s.append_file)
    close_last is_open
