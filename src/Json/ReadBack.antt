-- ===== src/Json/ReadBack.antt =====
-- The run that a start reads from the files that a serializer left.
use jorb.Base.{ℕ, ◌≡◌, ◌≢◌, refl, sym, subst, String, List, [], ◌∷◌, All, lookup}
use jorb.Job.{Job, Time}
use jorb.Run.{Run}
use jorb.Json.{Codec, RoundTrips}
use jorb.Json.Replay.{unstamped, overlay, update_all, update_all-lookup, update_all-rest}
use jorb.Json.Covers.{Between, Covers-Between, Covers-found}
use jorb.Json.Disk.{Disk, Event, fails, Store, environment, turn, next_event}
use jorb.Json.Durable.{Logs, no_log, only_active, only_sealed, Holds}

-- There is no main goroutine yet, and no call fails, though the program may die in any.
abbrev pub Alone : {C : Type 0} → List (Event C) → Type 0
Alone es = All (λ e. (e.updates ≡ []) × (e.outcome ≢ fails)) es

module _ {Line OC C : Type 0} where
  Alone-turn :
      (es : List (Event C)) (s : Store Line OC C)
      → s.events ≡ es
      → Alone es
      → Alone (turn es s).events
  Alone-turn [] s e q = subst Alone (sym e) q
  Alone-turn (ev ∷ es) s e q = q.1

  pub Alone-environment : (s : Store Line OC C) → Alone s.events → Alone (environment s).events
  unfolding environment
  Alone-environment s q = Alone-turn s.events s refl q

pub Alone-next : {C : Type 0} (es : List (Event C)) → Alone es → (next_event es).outcome ≢ fails
Alone-next [] q = λ e. cc
Alone-next (e ∷ es) q = q.0.1

-- The log that is read is number 1 if it is sealed, and 0 if it is active.
abbrev pub log_number : {Line OC C : Type 0} {d : Disk Line OC C} {ls : List Line} → Logs d ls → ℕ
log_number (no_log a b c) = 0
log_number (only_active a b) = 0
log_number (only_sealed n a b) = 1

module _ {Line OC C : Type 0} (codec : Codec Line C) (laws : RoundTrips codec) (now : ℕ → ℕ → Time)
    (overall : OC) where
  -- The run that is read from the files.
  abbrev pub read_back :
      {w : Run OC C} {made : List (Job C)} {d : Disk Line OC C} → Holds codec w made d → Run OC C
  read_back h = update_all (now (log_number h.logs)) 0 h.log h.checkpoint

  read_back-lookup :
      (w : Run OC C) (made : List (Job C)) (d : Disk Line OC C) (h : Holds codec w made d)
      (k : String)
      → unstamped (lookup k (read_back h).jobs)
        ≡ unstamped (overlay k (lookup k h.checkpoint.jobs) h.log)
  read_back-lookup w made d h k = update_all-lookup (now (log_number h.logs)) 0 h.log h.checkpoint k

  pub read_back-Between :
      (w : Run OC C) (made : List (Job C)) (d : Disk Line OC C) (h : Holds codec w made d)
      (k : String)
      → Between w made (read_back h) k
  read_back-Between w made d h k =
      Covers-Between w h.checkpoint (read_back h) made h.log k (read_back-lookup w made d h k)
        (h.covers k)

  -- The files hold what is read from them.
  pub read_back-Holds :
      (w : Run OC C) (made : List (Job C)) (d : Disk Line OC C) (h : Holds codec w made d)
      → Holds codec (read_back h) [] d
  read_back-Holds w made d h =
      let rest = update_all-rest (now (log_number h.logs)) 0 h.log h.checkpoint in
      record {
        checkpoint = h.checkpoint;
        main = h.main;
        header = (sym rest.0, sym rest.1);
        log = h.log;
        logs = h.logs;
        covers = λ k.
            Covers-found w h.checkpoint (read_back h) made h.log k (read_back-lookup w made d h k)
              (h.covers k);
      }
