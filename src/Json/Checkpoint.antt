-- ===== src/Json/Checkpoint.antt =====
-- The checkpoint keeps what a restart needs, at each of its calls, whatever fails and whenever the
-- program dies.
use jorb.Base.{◌≡◌, refl, sym, ap, ◌∙◌, subst, inl, false, none, some, List, []}
use jorb.Job.{Job}
use jorb.Run.{Run}
use jorb.Json.{Codec}
use jorb.Json.Covers.{DistinctJobs, Covers-published}
use jorb.Json.Disk.{
  whole, torn, Disk, Store, ignoring, ◌on_error◌, change, touch, environment, is_there, ◌>>◌,
}
use jorb.Json.Store.{remove_tmp, write_checkpoint_atomic}
use jorb.Json.Rules.{Post, bind_rule, ignoring_rule, on_error_rule, Stable, touch_rule, change_rule}
use jorb.Json.Durable.{Sound, environment-Sound, environment-rest, lines_of, Logs-same, Holds-same}

module _ {Line OC C : Type 0} (codec : Codec Line C) (w : Run OC C) (all : List (Job C))
    (distinct : DistinctJobs all) where
  -- What is left whenever a call fails or the program dies.
  abbrev pub Safe : Store Line OC C → Type 0
  Safe = Sound codec w all w

  abbrev pub Closing : Run OC C → Store Line OC C → Type 0
  Closing c s = Sound codec w all c s × (s.append_file ≡ false)

  abbrev pub Published : Run OC C → Store Line OC C → Type 0
  Published c s = Closing c s × (s.disk.main ≡ some (whole c))

  abbrev pub Cleared : Store Line OC C → Type 0
  Cleared s = Closing w s × (s.disk.active ≡ none) × (s.disk.sealed ≡ [])

  pub forget : (c : Run OC C) (s : Store Line OC C) → Sound codec w all c s → Safe s
  forget c s h = record {
    made = h.made;
    total = h.total;
    memory = h.memory;
    run_header = h.run_header;
    copy_header = (refl, refl);
    copy = λ k. inl refl;
    holds = h.holds;
    handle = h.handle;
  }

  pub Safe-Stable : Stable Safe Safe
  Safe-Stable = record {
    turn = λ s h. environment-Sound codec w all w s distinct h;
    safe = λ s h. h;
  }

  Closing-turn : (c : Run OC C) (s : Store Line OC C) → Closing c s → Closing c (environment s)
  Closing-turn c s (h, e) =
      (environment-Sound codec w all c s distinct h, (environment-rest s).1 ∙ e)

  pub Closing-Stable : (c : Run OC C) → Stable Safe (Closing c)
  Closing-Stable c = record { turn = Closing-turn c; safe = λ s h. forget c s h.0 }

  -- Any assertion about the files is kept by the main goroutine's turn.
  pub with_disk-Stable :
      (c : Run OC C) (P : Disk Line OC C → Type 0) → Stable Safe (λ s. Closing c s × P s.disk)
  with_disk-Stable c P = record {
    turn = λ s h. (Closing-turn c s h.0, subst P (sym (environment-rest s).0) h.1);
    safe = λ s h. forget c s h.0.0;
  }

  -- Writing the temporary file changes nothing that a restart reads.
  abbrev pub SameFiles : (Disk Line OC C → Disk Line OC C) → Type 0
  SameFiles f =
      (d : Disk Line OC C)
      → ((f d).main ≡ d.main) × ((f d).active ≡ d.active) × ((f d).sealed ≡ d.sealed)

  pub Sound-same :
      (c : Run OC C) (f : Disk Line OC C → Disk Line OC C) (s : Store Line OC C)
      → SameFiles f
      → Sound codec w all c s
      → Sound codec w all c (record s { disk = f s.disk })
  Sound-same c f s same h = record {
    made = h.made;
    total = h.total;
    memory = h.memory;
    run_header = h.run_header;
    copy_header = h.copy_header;
    copy = h.copy;
    holds = Holds-same codec w h.made s.disk (f s.disk) (same s.disk) h.holds;
    handle = λ t. ap is_there (same s.disk).1 ∙ h.handle t;
  }

  pub ignoring_touch_rule :
      (I : Store Line OC C → Type 0) (s : Store Line OC C)
      → Stable Safe I
      → I s
      → Post Safe (ignoring touch s) (λ u t. I t)
  ignoring_touch_rule I s stable h =
      ignoring_rule Safe touch s I
        (touch_rule I I (record { turn = stable.turn; safe = λ t x. x }) s h) stable.safe

  abbrev Written : Run OC C → Store Line OC C → Type 0
  Written c s = Closing c s × (s.disk.tmp ≡ some (whole c))

  Written-Stable : (c : Run OC C) → Stable Safe (Written c)
  Written-Stable c = with_disk-Stable c (λ d. d.tmp ≡ some (whole c))

  publish :
      (c : Run OC C) (s : Store Line OC C)
      → Written c s
      → Published c (record s { disk = record s.disk { main = s.disk.tmp; tmp = none } })
  publish c s ((h, e), tmp) = (
    (
      record {
        made = h.made;
        total = h.total;
        memory = h.memory;
        run_header = h.run_header;
        copy_header = h.copy_header;
        copy = h.copy;
        holds = record {
          checkpoint = c;
          main = tmp;
          header = h.copy_header;
          log = h.holds.log;
          logs = Logs-same s.disk _ (lines_of codec h.holds.log) refl refl h.holds.logs;
          covers = λ k.
              Covers-published w h.holds.checkpoint c h.made h.holds.log k (h.copy k)
                (h.holds.covers k);
        };
        handle = h.handle;
      },
      e,
    ),
    tmp,
  )

  remove_tmp_rule : (s : Store Line OC C) → Safe s → Post Safe (remove_tmp s) (λ u t. Safe t)
  remove_tmp_rule s h =
      ignoring_rule Safe (change (λ d. record d { tmp = none })) s Safe
        (change_rule Safe Safe Safe-Stable (λ d. record d { tmp = none }) Safe s h
          λ t x. Sound-same w (λ d. record d { tmp = none }) t (λ d. (refl, refl, refl)) x)
        (λ t x. x)

  -- The write of a checkpoint from a copy of the run: if it works the copy is the checkpoint.
  pub write_checkpoint_atomic_rule :
      (c : Run OC C) (s : Store Line OC C)
      → Closing c s
      → Post Safe (write_checkpoint_atomic c s) (λ u t. Published c t)
  unfolding write_checkpoint_atomic
  write_checkpoint_atomic_rule c s h =
      bind_rule Safe touch _ s (λ u t. Closing c t) _
        (touch_rule Safe (Closing c) (Closing-Stable c) s h)
        λ u t h.
          bind_rule Safe (change (λ d. record d { tmp = some torn })) _ t (λ u t. Closing c t) _
            (change_rule Safe (Closing c) (Closing-Stable c) (λ d. record d { tmp = some torn })
              (Closing c) t h
              (λ v x. (
                Sound-same c (λ d. record d { tmp = some torn }) v (λ d. (refl, refl, refl)) x.0,
                x.1,
              )))
            λ u t h.
              bind_rule Safe
                (◌on_error◌ (change (λ d. record d { tmp = some (whole c) }))
                  (ignoring touch >> remove_tmp))
                _ t (λ u t. Written c t) _
                (on_error_rule Safe (change (λ d. record d { tmp = some (whole c) }))
                  (ignoring touch >> remove_tmp) t Safe (Written c)
                  (change_rule Safe (Closing c) (Closing-Stable c)
                    (λ d. record d { tmp = some (whole c) }) (Written c) t h
                    (λ v x. (
                      (
                        Sound-same c (λ d. record d { tmp = some (whole c) }) v
                            (λ d. (refl, refl, refl)) x.0,
                        x.1,
                      ),
                      refl,
                    )))
                  (λ v x. x) clean_up)
                λ u t h.
                  bind_rule Safe (◌on_error◌ touch (ignoring touch)) _ t (λ u t. Written c t) _
                    (on_error_rule Safe touch (ignoring touch) t Safe (Written c)
                      (touch_rule Safe (Written c) (Written-Stable c) t h) (λ v x. x)
                      (λ v x. ignoring_touch_rule Safe v Safe-Stable x))
                    λ u t h.
                      bind_rule Safe touch _ t (λ u t. Written c t) _
                        (touch_rule Safe (Written c) (Written-Stable c) t h)
                        λ u t h.
                          change_rule Safe (Written c) (Written-Stable c)
                            (λ d. record d { main = d.tmp; tmp = none }) (Published c) t h
                            (publish c)
    where
      clean_up :
          (v : Store Line OC C)
          → Safe v
          → Post Safe ((ignoring touch >> remove_tmp) v) (λ u y. Safe y)
      clean_up v x =
          bind_rule Safe (ignoring touch) (λ u. remove_tmp) v (λ u y. Safe y) (λ u y. Safe y)
            (ignoring_touch_rule Safe v Safe-Stable x) (λ u y z. remove_tmp_rule y z)
