-- ===== src/Json/Returns.antt =====
-- What a serializer does when no call to the operating system fails.
use jorb.Base.{
  ℕ, ◌≡◌, sym, ap, ◌∙◌, subst, ◌⊎◌, false, Option, none, some, List, [], ◌∷◌, String, lookup,
}
use jorb.Job.{Job, Time}
use jorb.Run.{Run}
use jorb.Json.{Codec, RoundTrips}
use jorb.Json.Replay.{unstamped, update_all, update_all-rest}
use jorb.Json.Disk.{whole, Disk, Store, done, environment, syscall, gets, ◌on_error◌, ◌>>=◌, ◌>>◌}
use jorb.Json.Store.{close_append, do_checkpoint_rotate_write_delete}
use jorb.Json.Start.{close_last, new_json_serializer, close_serializer}
use jorb.Json.Durable.{SameHeader, Logs, no_log, only_active, only_sealed, Sound, lines_of}
use jorb.Json.ReadBack.{read_back, log_number}
use jorb.Json.Loading.{no_lines}
use jorb.Json.Restart.{restarted, read_back_in_memory}
use jorb.Json.Unfailing.{opened}
use jorb.Json.Unfailing.Start.{Starts, start_none, start_active, start_sealed}
use jorb.Json.Unfailing.Publish.{Publishes, Publishes-none, Publishes-active, Publishes-sealed}

-- What holds of the files spelled out holds of the files.
of_shape :
    {Line OC C : Type 0} (P : Disk Line OC C → Type 0) (d : Disk Line OC C)
    (active : Option (List Line)) (sealed : List (ℕ × List Line))
    → d.active ≡ active
    → d.sealed ≡ sealed
    → P (record d { active = active; sealed = sealed })
    → P d
of_shape P d active sealed p q h =
    subst (λ a. P (record d { active = a })) (sym p)
      (subst (λ l. P (record d { active = active; sealed = l })) (sym q) h)

module _ {Line OC C : Type 0} (codec : Codec Line C) (laws : RoundTrips codec) (now : ℕ → ℕ → Time)
    (overall : OC) where
  start_on :
      (c run : Run OC C) (d : Disk Line OC C) (js : List (Job C))
      (logs : Logs d (lines_of codec js))
      → d.main ≡ some (whole c)
      → Starts codec laws now overall run d (update_all (now (log_number logs)) 0 js c)
  unfolding update_all
  start_on c run d js (no_log p q e) m =
      of_shape (λ d. Starts codec laws now overall run d (update_all (now 0) 0 js c)) d none [] p q
        (subst
          (λ x.
            Starts codec laws now overall run (record d { main = x; active = none; sealed = [] })
              (update_all (now 0) 0 js c))
          (sym m)
          (subst
            (λ l.
              Starts codec laws now overall run
                (record d { main = some (whole c); active = none; sealed = [] })
                (update_all (now 0) 0 l c))
            (sym (no_lines codec laws now overall js e))
            (start_none codec laws now overall c run d.tmp d.old)))
  start_on c run d js (only_active p q) m =
      of_shape (λ d. Starts codec laws now overall run d (update_all (now 0) 0 js c)) d
        (some (lines_of codec js)) [] p q
        (subst
          (λ x.
            Starts codec laws now overall run
              (record d { main = x; active = some (lines_of codec js); sealed = [] })
              (update_all (now 0) 0 js c))
          (sym m) (start_active codec laws now overall c run d.tmp d.old js))
  start_on c run d js (only_sealed n p q) m =
      of_shape (λ d. Starts codec laws now overall run d (update_all (now 1) 0 js c)) d none
        ((n, lines_of codec js) ∷ []) p q
        (subst
          (λ x.
            Starts codec laws now overall run
              (record d { main = x; active = none; sealed = (n, lines_of codec js) ∷ [] })
              (update_all (now 1) 0 js c))
          (sym m) (start_sealed codec laws now overall c run d.tmp d.old n js))

  -- On the files of a sound store, taken at any moment, a start in which no call fails returns a run
  -- in which every job is as it was written last or as it was in memory at that moment; it leaves a
  -- checkpoint of just this run, an empty log that is open, and no other file.
  pub new_json_serializer_returns :
      (w : Run OC C) (all : List (Job C)) (s : Store Line OC C) (run : Run OC C)
      → Sound codec w all w s
      → (v : Run OC C) × SameHeader v w
        × ((k : String)
            → (unstamped (lookup k v.jobs) ≡ unstamped (lookup k w.jobs))
              ⊎ (unstamped (lookup k v.jobs) ≡ unstamped (lookup k s.run.jobs)))
        × (new_json_serializer codec now overall (restarted s.disk run [])
            ≡ (done v, opened v none))
  new_json_serializer_returns w all s run h =
      let rest = update_all-rest (now (log_number h.holds.logs)) 0 h.holds.log h.holds.checkpoint in
      (
        read_back codec laws now overall h.holds,
        (rest.0 ∙ h.holds.header.0, rest.1 ∙ h.holds.header.1),
        read_back_in_memory codec laws now overall w all s h,
        start_on h.holds.checkpoint run s.disk h.holds.log h.holds.logs h.holds.main,
      )

Publishes-on :
    {Line OC C : Type 0} (d : Disk Line OC C) (run : Run OC C) (lines : List Line)
    → Logs d lines
    → Publishes run d
Publishes-on d run lines (no_log p q e) =
    of_shape (Publishes run) d none [] p q (Publishes-none d.main d.tmp d.old run)
Publishes-on d run lines (only_active p q) =
    of_shape (Publishes run) d (some lines) [] p q (Publishes-active d.main d.tmp d.old lines run)
Publishes-on d run lines (only_sealed n p q) =
    of_shape (Publishes run) d none ((n, lines) ∷ []) p q
      (Publishes-sealed d.main d.tmp d.old n lines run)

module _ {Line OC C : Type 0} (codec : Codec Line C) (w : Run OC C) (all : List (Job C)) where
  -- On a sound store, also one whose last checkpoint failed and left the handle closed, a checkpoint in
  -- which no call fails returns: its file holds the run as it is in memory, the log is empty and open,
  -- and no other log or temporary file is left.
  checkpoint_returns :
      (s : Store Line OC C)
      → Sound codec w all w s
      → s.events ≡ []
      → do_checkpoint_rotate_write_delete s ≡ (done tt, opened s.run s.disk.old)
  checkpoint_returns s h e =
      subst
        (λ es.
          do_checkpoint_rotate_write_delete (record s { events = es })
          ≡ (done tt, opened s.run s.disk.old))
        (sym e)
        (Publishes-on s.disk s.run (lines_of codec h.holds.log) h.holds.logs s.append_file
          s.seal_seq)

  close_serializer_lem :
      (s : Store Line OC C)
      → Sound codec w all w s
      → s.events ≡ []
      → close_serializer s ≡ (done tt, record (opened s.run s.disk.old) { append_file = false })
  unfolding close_serializer environment syscall
  close_serializer_lem s h e =
      ap
        (λ x.
          (◌on_error◌ (λ u. x) (gets (λ s. s.append_file) >>= close_append)
              >> (gets (λ s. s.append_file) >>= close_last))
            s)
        (checkpoint_returns s h e)

  -- After a `Close` in which no call fails, a start in which none fails returns the run that was in
  -- memory, with all its stamps.
  pub restart_after_close :
      (laws : RoundTrips codec) (now : ℕ → ℕ → Time) (overall : OC) (s : Store Line OC C)
      (run : Run OC C)
      → Sound codec w all w s
      → s.events ≡ []
      → ((close_serializer s).0 ≡ done tt)
        × (new_json_serializer codec now overall (restarted (close_serializer s).1.disk run [])
            ≡ (done s.run, opened s.run none))
  unfolding update_all
  restart_after_close laws now overall s run h e =
      let closed = close_serializer_lem s h e in
      (
        ap (λ x. x.0) closed,
        subst
            (λ x.
              new_json_serializer codec now overall (restarted x.1.disk run [])
              ≡ (done s.run, opened s.run none))
            (sym closed) (start_active codec laws now overall s.run run none s.disk.old []),
      )
