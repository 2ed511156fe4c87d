-- ===== src/Json/Life.antt =====
-- The life of a serializer and its processor: the main goroutine updates the run, appends its updates
-- in their order, and checkpoints run at any time, with or without success. An append that returns an
-- error ends the life, since the program then stops (`log.Fatalf` of processor.go); Json.CutOff says what
-- it leaves.
use jorb.Base.{◌≡◌, sym, ap, ◌∙◌, subst, ◌⊎◌, true, false, List, [], ◌∷◌, ◌++◌}
use mathlib.Core.List.{append-nil}
use jorb.Job.{Job, Time}
use jorb.Run.{Run, update_job}
use jorb.Json.{Codec}
use jorb.Json.Covers.{DistinctJobs}
use jorb.Json.Disk.{Event, works, update_run, Store, Answer, done, failed, died, environment}
use jorb.Json.Store.{do_checkpoint_rotate_write_delete}
use jorb.Json.Start.{job_update}
use jorb.Json.Rules.{Post}
use jorb.Json.Durable.{Sound, to_come, environment-Sound}
use jorb.Json.Appending.{Alone, Alone-to_come}
use jorb.Json.CutOff.{CutOff, job_update-Sound}
use jorb.Json.Rotation.{checkpoint-Sound}

abbrev pub with_events : {Line OC C : Type 0} → Store Line OC C → List (Event C) → Store Line OC C
with_events s es = record s { events = es }

-- A moment between two calls: the run as it is written, the updates that are not, and the store.
pub record Moment (Line OC C : Type 0) : Type 0 where
  pub written : Run OC C
  pub pending : List (Job C)
  pub store : Store Line OC C

module _ {Line OC C : Type 0} (codec : Codec Line C) (cut : Line → Line) where
  -- An update of a job that has none pending; an append of the oldest pending update that returns
  -- without an error; and a checkpoint, during which the main goroutine may make more updates, and any
  -- calls of which may fail.
  pub data Move (m n : Moment Line OC C) : Type 0 where
    update :
        (now : Time) (j : Job C)
        → DistinctJobs (m.pending ++ j ∷ [])
        → n ≡ record {
          written = m.written;
          pending = m.pending ++ j ∷ [];
          store = record m.store { run = update_job now m.store.run j };
        }
        → Move m n
    append :
        (now : Time) (j : Job C) (rest : List (Job C)) (es : List (Event C)) (t : Store Line OC C)
        → m.pending ≡ j ∷ rest
        → Alone es
        → job_update codec cut j (with_events m.store es) ≡ (done tt, t)
        → t.events ≡ []
        → n ≡ record { written = update_job now m.written j; pending = rest; store = t }
        → Move m n
    checkpoint :
        (es : List (Event C)) (r : Answer (Unit {0})) (t : Store Line OC C)
        → DistinctJobs (m.pending ++ to_come es)
        → do_checkpoint_rotate_write_delete (with_events m.store es) ≡ (r, t)
        → t.events ≡ []
        → n ≡ record { written = m.written; pending = m.pending ++ to_come es; store = t }
        → Move m n

  pub data Lives (m : Moment Line OC C) : Moment Line OC C → Type 0 where
    begins : Lives m m
    goes_on : {n o : Moment Line OC C} → Lives m n → Move n o → Lives m o

  -- What holds between two calls.
  pub record Durable (m : Moment Line OC C) : Type 0 where
    pub sound : Sound codec m.written m.pending m.written m.store
    pub distinct : DistinctJobs m.pending
    pub idle : m.store.events ≡ []

  given_events :
      (w : Run OC C) (p : List (Job C)) (s : Store Line OC C) (es : List (Event C))
      → s.events ≡ []
      → Sound codec w p w s
      → Sound codec w (p ++ to_come es) w (with_events s es)
  given_events w p s es e h =
      let all_made : h.made ≡ p =
        sym (append-nil h.made) ∙ ap (λ x. h.made ++ to_come x) (sym e) ∙ h.total in
      record {
        made = h.made;
        total = ap (λ x. x ++ to_come es) all_made;
        memory = h.memory;
        run_header = h.run_header;
        copy_header = h.copy_header;
        copy = h.copy;
        holds = h.holds;
        handle = h.handle;
      }

  -- What holds after a checkpoint, however it ended.
  any_answer :
      (P : Store Line OC C → Type 0) (Q : Store Line OC C → Type 0) (r : Answer (Unit {0}))
      (t : Store Line OC C)
      → Post P (r, t) (λ u v. P v × Q v)
      → P t
  any_answer P Q (done u) t h = h.0
  any_answer P Q (failed e) t h = h
  any_answer P Q died t h = h

  updated :
      (now : Time) (m : Moment Line OC C) (j : Job C)
      → DistinctJobs (m.pending ++ j ∷ [])
      → Durable m
      → Sound codec m.written
          (m.pending ++ j ∷ [])
          m.written
          (record m.store { run = update_job now m.store.run j })
  unfolding environment update_run
  updated now m j distinct h =
      let es : List (Event C) =
        record { updates = (now, j) ∷ []; outcome = works; partial = false } ∷ [] in
      subst
        (λ rest.
          Sound codec m.written (m.pending ++ j ∷ []) m.written
            (record m.store { run = update_job now m.store.run j; events = rest }))
        (sym h.idle)
        (environment-Sound codec m.written (m.pending ++ j ∷ []) m.written (with_events m.store es)
          distinct (given_events m.written m.pending m.store es h.idle h.sound))

  Move-Durable : {m n : Moment Line OC C} → Move m n → Durable m → Durable n
  Move-Durable {m} (update now j distinct e) h =
      subst Durable (sym e)
        (record { sound = updated now m j distinct h; distinct = distinct; idle = h.idle })
  Move-Durable {m} (append now j rest es t p alone ran idle e) h =
      let distinct = subst DistinctJobs p h.distinct in
      let start = subst (λ q. Sound codec m.written q m.written m.store) p h.sound in
      subst Durable (sym e) (record {
        sound =
            subst
              (λ x.
                Post
                  (λ v.
                    Sound codec m.written (j ∷ rest) m.written v
                    ⊎ Sound codec (update_job now m.written j) rest (update_job now m.written j) v
                    ⊎ CutOff codec m.written now j rest distinct cut v)
                  x
                  (λ u v.
                    Sound codec (update_job now m.written j) rest (update_job now m.written j) v))
              ran
              (job_update-Sound codec m.written now j rest distinct cut (with_events m.store es)
                alone
                (subst (λ q. Sound codec m.written q m.written (with_events m.store es))
                  (ap (λ x. (j ∷ rest) ++ x) (Alone-to_come es alone) ∙ append-nil (j ∷ rest))
                  (given_events m.written (j ∷ rest) m.store es h.idle start)));
        distinct = distinct.1;
        idle = idle;
      })
  Move-Durable {m} (checkpoint es r t distinct ran idle e) h = subst Durable (sym e) (record {
    sound =
        any_answer (Sound codec m.written (m.pending ++ to_come es) m.written)
          (λ v. v.append_file ≡ true) r t
          (subst
            (λ x. Post (Sound codec m.written (m.pending ++ to_come es) m.written) x (λ u v.
              Sound codec m.written (m.pending ++ to_come es) m.written v × (v.append_file ≡ true)))
            ran
            (checkpoint-Sound codec m.written (m.pending ++ to_come es) distinct
              (with_events m.store es)
              (given_events m.written m.pending m.store es h.idle h.sound)));
    distinct = distinct;
    idle = idle;
  })

  -- In a life every append returns without an error, for one that fails stops the program; checkpoints
  -- may fail at any of their calls. Between any two moves of such a life, from a moment that is in
  -- order, the store is sound: its files hold every update that was appended, and its run in memory is
  -- the written one with what is pending.
  pub Lives-Durable : {m n : Moment Line OC C} → Lives m n → Durable m → Durable n
  Lives-Durable begins h = h
  Lives-Durable (goes_on l mv) h = Move-Durable mv (Lives-Durable l h)
