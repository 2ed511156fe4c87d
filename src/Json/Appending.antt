-- ===== src/Json/Appending.antt =====
-- An update that is appended is on the disk from then on.
use mathlib.Core.List.{append-nil, map-append}
use jorb.Base.{
  ◌≡◌, refl, sym, ap, ◌∙◌, subst, ◌⊎◌, inl, inr, Bool, true, false, some, List, [], ◌∷◌, ◌++◌, All,
  All-map, lookup,
}
use jorb.Job.{Job, Time}
use jorb.Run.{Run, update_job}
use jorb.Json.{Codec, record_of}
use jorb.Json.Replay.{unstamped, overlay, overlay-unstamped, update_job-lookup}
use jorb.Json.Covers.{DistinctJobs, Covers, Covers-written}
use jorb.Json.Disk.{Disk, Event, Store, touch, environment, turn, next_event, is_there, or_empty}
use jorb.Json.Start.{append_to, write_line, write_update, job_update}
use jorb.Json.Rules.{Post, bind_rule, whole_call_rule, touch_rule}
use jorb.Json.Durable.{
  Logs, no_log, only_active, only_sealed, Sound, to_come, jobs_of_updates, environment-rest,
  lines_of,
}

-- The main goroutine is in the call, so it makes no updates, and no write is cut off.
abbrev pub Quiet : {C : Type 0} → List (Event C) → Type 0
Quiet es = All (λ e. (e.updates ≡ []) × (e.partial ≡ false)) es

-- The main goroutine makes no updates; writes may be cut off.
abbrev pub Alone : {C : Type 0} → List (Event C) → Type 0
Alone es = All (λ e. e.updates ≡ []) es

pub Quiet-Alone : {C : Type 0} (es : List (Event C)) → Quiet es → Alone es
Quiet-Alone es q = All-map _ _ es (λ e x. x.0) q

pub Quiet-next : {C : Type 0} (es : List (Event C)) → Quiet es → (next_event es).partial ≡ false
Quiet-next [] q = refl
Quiet-next (e ∷ es) q = q.0.1

pub Alone-to_come : {C : Type 0} (es : List (Event C)) → Alone es → to_come es ≡ []
Alone-to_come [] q = refl
Alone-to_come (e ∷ es) q = ap (λ us. jobs_of_updates us ++ to_come es) q.0 ∙ Alone-to_come es q.1

pub Quiet-to_come : {C : Type 0} (es : List (Event C)) → Quiet es → to_come es ≡ []
Quiet-to_come es q = Alone-to_come es (Quiet-Alone es q)

module _ {Line OC C : Type 0} where
  Quiet-turn :
      (es : List (Event C)) (s : Store Line OC C)
      → s.events ≡ es
      → Quiet es
      → Quiet (turn es s).events
  Quiet-turn [] s e q = subst Quiet (sym e) q
  Quiet-turn (ev ∷ es) s e q = q.1

  Alone-turn :
      (es : List (Event C)) (s : Store Line OC C)
      → s.events ≡ es
      → Alone es
      → Alone (turn es s).events
  Alone-turn [] s e q = subst Alone (sym e) q
  Alone-turn (ev ∷ es) s e q = q.1

  pub Alone-environment : (s : Store Line OC C) → Alone s.events → Alone (environment s).events
  unfolding environment
  Alone-environment s q = Alone-turn s.events s refl q

  pub Quiet-environment : (s : Store Line OC C) → Quiet s.events → Quiet (environment s).events
  unfolding environment
  Quiet-environment s q = Quiet-turn s.events s refl q

module _ {Line OC C : Type 0} (codec : Codec Line C) (j : Job C) where
  abbrev pub with_line : Store Line OC C → Store Line OC C
  with_line s = record s {
    disk = record s.disk {
      active = some (append_to (or_empty s.disk.active) (codec.encode (record_of j)));
    };
  }

  -- `B` holds before the line of the update is written, and `A` once it is.
  pub record Append (B A : Store Line OC C → Type 0) : Type 0 where
    pub partial : (s : Store Line OC C) → B s → (next_event s.events).partial ≡ false
    pub turn_before : (s : Store Line OC C) → B s → B (environment s)
    pub turn_after : (s : Store Line OC C) → A s → A (environment s)
    pub writes : (s : Store Line OC C) → s.append_file ≡ true → B s → A (with_line s)

  written_rule :
      (B A : Store Line OC C → Type 0) (cut : Line → Line) (s : Store Line OC C) (b : Bool)
      → Append B A
      → s.append_file ≡ b
      → B s
      → Post (λ t. B t ⊎ A t) (write_update codec cut j b s) (λ u t. A t)
  written_rule B A cut s false h e x = inl x
  written_rule B A cut s true h e x =
      bind_rule (λ t. B t ⊎ A t) (write_line codec cut (codec.encode (record_of j))) (λ u. touch) s
        (λ u t. A t) (λ u t. A t)
        (whole_call_rule (λ t. B t ⊎ A t) _ _ s (λ u t. A t) (h.partial s x)
          (h.writes (environment s) ((environment-rest s).1 ∙ e) (h.turn_before s x))
          (inl (h.turn_before s x)))
        λ u t y.
          touch_rule (λ t. B t ⊎ A t) A (record { turn = h.turn_after; safe = λ v z. inr z }) t y

  -- `JobUpdate` ends with the line written, or, if it fails or the program dies, with or without it.
  pub job_update_rule :
      (B A : Store Line OC C → Type 0) (cut : Line → Line) (s : Store Line OC C)
      → Append B A
      → B s
      → Post (λ t. B t ⊎ A t) (job_update codec cut j s) (λ u t. A t)
  unfolding job_update
  job_update_rule B A cut s h x = written_rule B A cut s s.append_file h refl x

module _ {Line OC C : Type 0} (codec : Codec Line C) (w : Run OC C) (now : Time) (j : Job C)
    (rest : List (Job C)) (distinct : DistinctJobs (j ∷ rest)) where
  -- Before the write, and after it.
  abbrev pub Before : Store Line OC C → Type 0
  Before s = Sound codec w (j ∷ rest) w s

  abbrev pub After : Store Line OC C → Type 0
  After s = Sound codec (update_job now w j) rest (update_job now w j) s

  appended-Logs :
      (d : Disk Line OC C) (ls : List Line) (l : Line)
      → is_there d.active ≡ true
      → Logs d ls
      → Logs (record d { active = some (append_to (or_empty d.active) l) }) (append_to ls l)
  appended-Logs d ls l there (no_log a b c) = cc (ap is_there a, there)
  appended-Logs d ls l there (only_active a b) = only_active (rw a refl) b
  appended-Logs d ls l there (only_sealed n a b) = cc (ap is_there a, there)

  pub appended-After :
      (s : Store Line OC C)
      → s.append_file ≡ true
      → Alone s.events
      → Before s
      → After (with_line codec j s)
  unfolding update_job
  appended-After s open_file q h =
      let none_to_come = Alone-to_come s.events q in
      let all_made : h.made ≡ j ∷ rest =
        sym (append-nil h.made) ∙ ap (λ x. h.made ++ x) (sym none_to_come) ∙ h.total in
      record {
        made = rest;
        total = ap (λ x. rest ++ x) none_to_come ∙ append-nil rest;
        memory = λ k.
            h.memory k
            ∙ ap (λ m. unstamped (overlay k (lookup k w.jobs) m)) all_made
            ∙ sym (overlay-unstamped k _ _ rest (update_job-lookup now w j k));
        run_header = h.run_header;
        copy_header = (refl, refl);
        copy = λ k. inl refl;
        holds = record {
          checkpoint = h.holds.checkpoint;
          main = h.holds.main;
          header = h.holds.header;
          log = append_to h.holds.log j;
          logs =
              subst (Logs _)
                (sym (map-append (λ (i : Job C). codec.encode (record_of i)) h.holds.log (j ∷ [])))
                (appended-Logs s.disk (lines_of codec h.holds.log) (codec.encode (record_of j))
                  (h.handle open_file) h.holds.logs);
          covers = λ k. Covers-written now w h.holds.checkpoint j rest h.holds.log k (
              subst (λ m. Covers w m h.holds.checkpoint h.holds.log k) all_made (h.holds.covers k));
        };
        handle = λ t. refl;
      }
