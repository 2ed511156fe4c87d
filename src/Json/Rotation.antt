-- ===== src/Json/Rotation.antt =====
-- The checkpoint as a whole: the log is sealed, the copy of the run published, the logs removed, and a
-- new log opened.
use jorb.Base.{ℕ, suc, ◌≡◌, refl, ap, inr, Bool, true, false, List}
use jorb.Job.{Job}
use jorb.Run.{Run}
use jorb.Json.{Codec}
use jorb.Json.Covers.{DistinctJobs}
use jorb.Json.Disk.{Disk, Store, modify, ignoring, change, touch, stat, is_there, ◌>>◌}
use jorb.Json.Store.{
  put_segment, remove_all_append_artifacts, snapshot_run, write_checkpoint_atomic, close_append,
  seal_active, rotate, do_checkpoint_rotate_write_delete,
}
use jorb.Json.Rules.{Post, bind_rule, post_map, stat_rule, touch_rule, change_rule}
use jorb.Json.Durable.{Logs, no_log, only_active, only_sealed, Sound, lines_of}
use jorb.Json.Checkpoint.{
  Safe, Closing, Published, Cleared, Safe-Stable, Closing-Stable, with_disk-Stable,
  write_checkpoint_atomic_rule, ignoring_touch_rule,
}
use jorb.Json.Clearing.{Sound-fields, remove_all_rule, open_append_rule}

module _ {Line OC C : Type 0} (codec : Codec Line C) (w : Run OC C) (all : List (Job C))
    (distinct : DistinctJobs all) where
  pub closed-Closing :
      (s : Store Line OC C)
      → Safe codec w all distinct s
      → Closing codec w all distinct w (record s { append_file = false })
  closed-Closing s h = (Sound-fields codec w all distinct w s false s.seal_seq (λ f. cc) h, refl)

  pub close_append_rule :
      (s : Store Line OC C) (b : Bool)
      → s.append_file ≡ b
      → Safe codec w all distinct s
      → Post
          (Safe codec w all distinct)
          (close_append b s)
          (λ u t. Closing codec w all distinct w t)
  close_append_rule s false e h = (h, e)
  close_append_rule s true e h =
      bind_rule (Safe codec w all distinct) (ignoring touch)
        (λ u. modify (λ s. record s { append_file = false })) s (λ u t. Safe codec w all distinct t)
        (λ u t. Closing codec w all distinct w t)
        (ignoring_touch_rule codec w all distinct (Safe codec w all distinct) s
          (Safe-Stable codec w all distinct) h)
        λ u t x. closed-Closing t x

  sealed-Logs :
      (n : ℕ) (d : Disk Line OC C) (ls : List Line)
      → is_there d.active ≡ true
      → Logs d ls
      → Logs (seal_active n d) ls
  unfolding put_segment
  sealed-Logs n d ls there (no_log a b c) = cc (ap is_there a, there)
  sealed-Logs n d ls there (only_active a b) = only_sealed n refl (rw (a, b) refl)
  sealed-Logs n d ls there (only_sealed m a b) = cc (ap is_there a, there)

  sealed-Closing :
      (n : ℕ) (s : Store Line OC C)
      → Closing codec w all distinct w s
      → is_there s.disk.active ≡ true
      → Closing codec w all distinct w (record s { disk = seal_active n s.disk })
  sealed-Closing n s (h, e) there = (
    record {
      made = h.made;
      total = h.total;
      memory = h.memory;
      run_header = h.run_header;
      copy_header = h.copy_header;
      copy = h.copy;
      holds = record {
        checkpoint = h.holds.checkpoint;
        main = h.holds.main;
        header = h.holds.header;
        log = h.holds.log;
        logs = sealed-Logs n s.disk (lines_of codec h.holds.log) there h.holds.logs;
        covers = h.holds.covers;
      };
      handle = λ t. cc (e, t);
    },
    e,
  )

  rotate_rule :
      (s : Store Line OC C) (b : Bool)
      → Closing codec w all distinct w s
      → (b ≡ true → is_there s.disk.active ≡ true)
      → Post (Safe codec w all distinct) (rotate b s) (λ u t. Closing codec w all distinct w t)
  rotate_rule s false h there = h
  rotate_rule s true h there =
      bind_rule (Safe codec w all distinct) (change (seal_active (suc s.seal_seq)))
        (λ u. modify (λ t. record t { seal_seq = suc t.seal_seq })) s
        (λ u t. Closing codec w all distinct w t) (λ u t. Closing codec w all distinct w t)
        (change_rule (Safe codec w all distinct) _
          (with_disk-Stable codec w all distinct w (λ d. is_there d.active ≡ true))
          (seal_active (suc s.seal_seq)) (Closing codec w all distinct w) s (h, there refl)
          (λ t x. sealed-Closing (suc s.seal_seq) t x.0 x.1))
        λ u t x.
          (Sound-fields codec w all distinct w t t.append_file (suc t.seal_seq) x.0.handle x.0, x.1)

  -- A copy of the run is as good as the run.
  copied :
      (s : Store Line OC C)
      → Closing codec w all distinct w s
      → Closing codec w all distinct s.run s
  copied s (h, e) = (
    record {
      made = h.made;
      total = h.total;
      memory = h.memory;
      run_header = h.run_header;
      copy_header = h.run_header;
      copy = λ k. inr (h.memory k);
      holds = h.holds;
      handle = h.handle;
    },
    e,
  )

  stat_active_rule :
      (s : Store Line OC C)
      → Closing codec w all distinct w s
      → Post
          (Safe codec w all distinct)
          (stat (λ d. is_there d.active) s)
          (λ b t. Closing codec w all distinct w t × (b ≡ true → is_there t.disk.active ≡ true))
  stat_active_rule s h =
      stat_rule (Safe codec w all distinct) (λ d. is_there d.active) s
        (λ b t. Closing codec w all distinct w t × (b ≡ true → is_there t.disk.active ≡ true))
        (post_map _ (touch s) (λ u t. Closing codec w all distinct w t) _
          (touch_rule _ (Closing codec w all distinct w)
            (record {
              turn = (Closing-Stable codec w all distinct w).turn;
              safe = λ t x. (x, λ e. cc);
            })
            s h)
          λ u t x. (x, λ e. e))
        λ t x. x.0.0

  -- The snapshot, the write and the removal.
  pub materialize_rule :
      (s : Store Line OC C)
      → Closing codec w all distinct w s
      → Post
          (Safe codec w all distinct)
          ((write_checkpoint_atomic s.run >> remove_all_append_artifacts) s)
          (λ u t. Cleared codec w all distinct t)
  materialize_rule s h =
      bind_rule (Safe codec w all distinct) (write_checkpoint_atomic s.run) _ s
        (λ u t. Published codec w all distinct s.run t) _
        (write_checkpoint_atomic_rule codec w all distinct s.run s (copied s h))
        λ u t x. remove_all_rule codec w all distinct s.run t x

  -- From a sound store, whatever the main goroutine does meanwhile: when the checkpoint fails or the
  -- program dies, at any of its calls, the store is sound, and when it works, appends go on.
  pub checkpoint-Sound :
      (s : Store Line OC C)
      → Sound codec w all w s
      → Post
          (Sound codec w all w)
          (do_checkpoint_rotate_write_delete s)
          (λ u t. Sound codec w all w t × (t.append_file ≡ true))
  unfolding do_checkpoint_rotate_write_delete snapshot_run
  checkpoint-Sound s h =
      bind_rule (Safe codec w all distinct) (close_append s.append_file) _ s
        (λ u t. Closing codec w all distinct w t) _ (close_append_rule s s.append_file refl h)
        λ u t x.
          bind_rule (Safe codec w all distinct) (stat (λ d. is_there d.active)) _ t
            (λ b v. Closing codec w all distinct w v × (b ≡ true → is_there v.disk.active ≡ true)) _
            (stat_active_rule t x)
            λ b t x.
              bind_rule (Safe codec w all distinct) (rotate b) _ t
                (λ u t. Closing codec w all distinct w t) _ (rotate_rule t b x.0 x.1)
                λ u t x.
                  bind_rule (Safe codec w all distinct) (write_checkpoint_atomic t.run) _ t
                    (λ u v. Published codec w all distinct t.run v) _
                    (write_checkpoint_atomic_rule codec w all distinct t.run t (copied t x))
                    λ u v x.
                      bind_rule (Safe codec w all distinct) remove_all_append_artifacts _ v
                        (λ u v. Cleared codec w all distinct v) _
                        (remove_all_rule codec w all distinct t.run v x)
                        λ u v x. open_append_rule codec w all distinct v x
