-- ===== src/Json/Unfailing.antt =====
-- The removal of a sealed log, when no call to the operating system fails.
pub mod Start
pub mod Publish
use jorb.Base.{
  ℕ, suc, arith, ◌≡◌, refl, ap, ◌∙◌, Bool, true, false, Option, none, some, List, [], ◌∷◌,
}
use jorb.Job.{Job, Time}
use jorb.Run.{Run, init}
use jorb.Json.{Codec, RoundTrips, replay_jsonl_file}
use jorb.Json.Replay.{update_all, replay_lines_lem}
use jorb.Json.Disk.{
  Content, whole, Disk, Store, done, environment, syscall, stat, Io, continue, pure, modify, ◌>>=◌,
  ◌>>◌,
}
use jorb.Json.Store.{
  put_segment, drop_segment, segment, sort_by_seq, remove_each, log_files,
  remove_all_append_artifacts, snapshot_run, write_checkpoint_atomic, open_append,
  do_checkpoint_rotate_write_delete, recover_checkpoint_atomic,
}
use jorb.Json.Start.{
  replay_log, replay_sealed, load_checkpoint_and_replay, materialize_clean_incremental,
  new_json_serializer,
}
use jorb.Json.Durable.{lines_of}
use jorb.Json.Restart.{restarted}

-- The files after a checkpoint of `r`; `old` is not touched.
abbrev published : {Line OC C : Type 0} → Run OC C → Option (Content OC C) → Disk Line OC C
published r old = record {
  main = some (whole r);
  tmp = none;
  old = old;
  active = some [];
  sealed = [];
}

-- A serializer that is open, with an empty log.
abbrev pub opened : {Line OC C : Type 0} → Run OC C → Option (Content OC C) → Store Line OC C
opened r old = record {
  disk = published r old;
  run = r;
  append_file = true;
  seal_seq = 0;
  events = [];
}

pub segment_self : {A : Type 0} (n : ℕ) (a : A) → segment n ((n, a) ∷ []) ≡ some a
unfolding segment
segment_self n a = ground arith

pub drop_segment_self : {A : Type 0} (n : ℕ) (a : A) → drop_segment n ((n, a) ∷ []) ≡ []
unfolding drop_segment
drop_segment_self n a = ground arith

module _ {Line OC C : Type 0} where
  pub done_bind :
      {A B : Type 0} (m : Io Line OC C A) (f : A → Io Line OC C B) (s t : Store Line OC C) (a : A)
      → m s ≡ (done a, t)
      → (m >>= f) s ≡ f a t
  done_bind m f s t a e = ap (λ x. continue x.0 f x.1) e

  pub clear_sealed :
      (d : Disk Line OC C) (run : Run OC C) (is_open : Bool) (seq n : ℕ) (lines : List Line)
      → d.active ≡ none
      → d.sealed ≡ (n, lines) ∷ []
      → remove_all_append_artifacts
          (record { disk = d; run = run; append_file = is_open; seal_seq = seq; events = [] })
        ≡ (
          done tt,
          record {
            disk = record d { active = none; sealed = [] };
            run = run;
            append_file = is_open;
            seal_seq = 0;
            events = [];
          },
        )
  unfolding remove_all_append_artifacts environment syscall remove_each log_files
  clear_sealed d run is_open seq n lines p q = rw p (rw q (rw (drop_segment_self n lines) refl))

  pub write_sealed :
      (r run : Run OC C) (d : Disk Line OC C) (is_open : Bool) (seq n : ℕ) (lines : List Line)
      → d.active ≡ none
      → d.sealed ≡ (n, lines) ∷ []
      → (write_checkpoint_atomic r >> remove_all_append_artifacts)
          (record { disk = d; run = run; append_file = is_open; seal_seq = seq; events = [] })
        ≡ (
          done tt,
          record {
            disk = record d { main = some (whole r); tmp = none; active = none; sealed = [] };
            run = run;
            append_file = is_open;
            seal_seq = 0;
            events = [];
          },
        )
  unfolding write_checkpoint_atomic environment syscall
  write_sealed r run d is_open seq n lines p q =
      clear_sealed (record d { main = some (whole r); tmp = none }) run is_open seq n lines p q
