-- ===== src/Json/Unfailing/Publish.antt =====
-- The checkpoint on each shape of the files, when no call to the operating system fails.
use jorb.Base.{ℕ, suc, ◌≡◌, refl, Bool, true, false, Option, none, some, List, [], ◌∷◌}
use jorb.Run.{Run}
use jorb.Json.Disk.{Content, whole, Disk, done, environment, syscall, stat, ◌>>◌}
use jorb.Json.Store.{
  put_segment, remove_each, log_files, remove_all_append_artifacts, snapshot_run,
  write_checkpoint_atomic, open_append, do_checkpoint_rotate_write_delete,
}
use jorb.Json.Unfailing.{published, opened, clear_sealed}

module _ {Line OC C : Type 0} where
  publish_sealed :
      (r run : Run OC C) (d : Disk Line OC C) (is_open : Bool) (seq n : ℕ) (lines : List Line)
      → d.active ≡ none
      → d.sealed ≡ (n, lines) ∷ []
      → (write_checkpoint_atomic r >> (remove_all_append_artifacts >> open_append))
          (record { disk = d; run = run; append_file = is_open; seal_seq = seq; events = [] })
        ≡ (
          done tt,
          record {
            disk = published r d.old;
            run = run;
            append_file = true;
            seal_seq = 0;
            events = [];
          },
        )
  unfolding write_checkpoint_atomic open_append environment syscall
  publish_sealed r run d is_open seq n lines p q =
      rw (clear_sealed (record d { main = some (whole r); tmp = none }) run is_open seq n lines p q)
        refl

  abbrev pub Publishes : Run OC C → Disk Line OC C → Type 0
  Publishes run d =
      (b : Bool) (seq : ℕ)
      → do_checkpoint_rotate_write_delete
          (record { disk = d; run = run; append_file = b; seal_seq = seq; events = [] })
        ≡ (done tt, opened run d.old)

  pub Publishes-sealed :
      (main tmp old : Option (Content OC C)) (n : ℕ) (lines : List Line) (run : Run OC C)
      → Publishes run
          (record { main = main; tmp = tmp; old = old; active = none; sealed = (n, lines) ∷ [] })
  unfolding do_checkpoint_rotate_write_delete environment syscall stat snapshot_run
  Publishes-sealed main tmp old n lines run true seq =
      publish_sealed run run
        (record { main = main; tmp = tmp; old = old; active = none; sealed = (n, lines) ∷ [] })
        false seq n lines refl refl
  Publishes-sealed main tmp old n lines run false seq =
      publish_sealed run run
        (record { main = main; tmp = tmp; old = old; active = none; sealed = (n, lines) ∷ [] })
        false seq n lines refl refl

  pub Publishes-active :
      (main tmp old : Option (Content OC C)) (lines : List Line) (run : Run OC C)
      → Publishes run
          (record { main = main; tmp = tmp; old = old; active = some lines; sealed = [] })
  unfolding do_checkpoint_rotate_write_delete environment syscall stat snapshot_run put_segment
  Publishes-active main tmp old lines run true seq =
      publish_sealed run run
        (record {
          main = main;
          tmp = tmp;
          old = old;
          active = none;
          sealed = (suc seq, lines) ∷ [];
        })
        false (suc seq) (suc seq) lines refl refl
  Publishes-active main tmp old lines run false seq =
      publish_sealed run run
        (record {
          main = main;
          tmp = tmp;
          old = old;
          active = none;
          sealed = (suc seq, lines) ∷ [];
        })
        false (suc seq) (suc seq) lines refl refl

  pub Publishes-none :
      (main tmp old : Option (Content OC C)) (run : Run OC C)
      → Publishes run (record { main = main; tmp = tmp; old = old; active = none; sealed = [] })
  unfolding do_checkpoint_rotate_write_delete environment syscall stat snapshot_run
      write_checkpoint_atomic remove_all_append_artifacts remove_each log_files open_append
  Publishes-none main tmp old run true seq = refl
  Publishes-none main tmp old run false seq = refl
