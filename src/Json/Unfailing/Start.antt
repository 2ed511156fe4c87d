-- ===== src/Json/Unfailing/Start.antt =====
-- The start on each shape of the files, when no call to the operating system fails.
use jorb.Base.{ℕ, ◌≡◌, refl, ◌∙◌, false, Option, none, some, List, [], ◌∷◌}
use jorb.Job.{Job, Time}
use jorb.Run.{Run, init}
use jorb.Json.{Codec, RoundTrips, replay_jsonl_file}
use jorb.Json.Replay.{update_all, replay_lines_lem}
use jorb.Json.Disk.{Content, whole, Disk, done, environment, syscall, stat, pure, modify, ◌>>◌}
use jorb.Json.Store.{
  sort_by_seq, remove_each, log_files, remove_all_append_artifacts, snapshot_run,
  write_checkpoint_atomic, open_append, recover_checkpoint_atomic,
}
use jorb.Json.Start.{
  replay_log, replay_sealed, load_checkpoint_and_replay, materialize_clean_incremental,
  new_json_serializer,
}
use jorb.Json.Durable.{lines_of}
use jorb.Json.Restart.{restarted}
use jorb.Json.Unfailing.{opened, done_bind, segment_self, write_sealed}

module _ {Line OC C : Type 0} (codec : Codec Line C) (laws : RoundTrips codec) (now : ℕ → ℕ → Time)
    (overall : OC) where
  load_sealed :
      (c run : Run OC C) (tmp old : Option (Content OC C)) (n : ℕ) (js : List (Job C))
      → load_checkpoint_and_replay codec now overall (
          restarted
            (record {
              main = some (whole c);
              tmp = tmp;
              old = old;
              active = none;
              sealed = (n, lines_of codec js) ∷ [];
            })
            run
            [])
        ≡ (
          done (update_all (now 1) 0 js c),
          restarted
              (record {
                main = some (whole c);
                tmp = tmp;
                old = old;
                active = none;
                sealed = (n, lines_of codec js) ∷ [];
              })
              run
              [],
        )
  unfolding load_checkpoint_and_replay environment syscall stat replay_log replay_sealed sort_by_seq
      replay_jsonl_file init
  load_sealed c run tmp old n js =
      rw (segment_self n (lines_of codec js)) (rw (replay_lines_lem codec laws (now 1) 0 js c) refl)

  abbrev pub Starts : Run OC C → Disk Line OC C → Run OC C → Type 0
  Starts run d v =
      new_json_serializer codec now overall (restarted d run []) ≡ (done v, opened v none)

  pub start_sealed :
      (c run : Run OC C) (tmp old : Option (Content OC C)) (n : ℕ) (js : List (Job C))
      → Starts run
          (record {
            main = some (whole c);
            tmp = tmp;
            old = old;
            active = none;
            sealed = (n, lines_of codec js) ∷ [];
          })
          (update_all (now 1) 0 js c)
  unfolding new_json_serializer recover_checkpoint_atomic environment syscall stat
      materialize_clean_incremental snapshot_run open_append
  start_sealed c run tmp old n js =
      done_bind (load_checkpoint_and_replay codec now overall)
        (λ r.
          modify (λ s. record s { run = r })
          >> (materialize_clean_incremental codec now overall >> (open_append >> pure r)))
        (restarted (left c) run []) (restarted (left c) run []) v (load_sealed c run none none n js)
      ∙ done_bind (write_checkpoint_atomic v >> remove_all_append_artifacts)
          (λ u. open_append >> pure v) (restarted (left c) v [])
          (restarted
            (record { main = some (whole v); tmp = none; old = none; active = none; sealed = [] }) v
            [])
          tt (write_sealed v v (left c) false 0 n (lines_of codec js) refl refl)
    where
      v : Run OC C
      v = update_all (now 1) 0 js c

      left : Run OC C → Disk Line OC C
      left r = record {
        main = some (whole r);
        tmp = none;
        old = none;
        active = none;
        sealed = (n, lines_of codec js) ∷ [];
      }

  pub start_active :
      (c run : Run OC C) (tmp old : Option (Content OC C)) (js : List (Job C))
      → Starts run
          (record {
            main = some (whole c);
            tmp = tmp;
            old = old;
            active = some (lines_of codec js);
            sealed = [];
          })
          (update_all (now 0) 0 js c)
  unfolding new_json_serializer recover_checkpoint_atomic load_checkpoint_and_replay environment
      syscall stat replay_log replay_sealed sort_by_seq replay_jsonl_file init
      materialize_clean_incremental write_checkpoint_atomic remove_all_append_artifacts remove_each
      log_files snapshot_run open_append
  start_active c run tmp old js = rw (replay_lines_lem codec laws (now 0) 0 js c) refl

  pub start_none :
      (c run : Run OC C) (tmp old : Option (Content OC C))
      → Starts run
          (record { main = some (whole c); tmp = tmp; old = old; active = none; sealed = [] })
          c
  unfolding new_json_serializer recover_checkpoint_atomic load_checkpoint_and_replay environment
      syscall stat replay_sealed sort_by_seq init materialize_clean_incremental
      write_checkpoint_atomic remove_all_append_artifacts remove_each log_files snapshot_run
      open_append
  start_none c run tmp old = refl
