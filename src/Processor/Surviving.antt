-- ===== src/Processor/Surviving.antt =====
-- processor.go, `handleReturn`, on the `JsonSerializer`: what a start finds once a return is handled.
use mathlib.Core.List.{append-nil}
use jorb.Base.{
  ℕ, suc, ◌≡◌, refl, sym, ap, ◌∙◌, subst, inl, inr, Bool, String, Option, none, some, List, [], ◌∷◌,
  ◌++◌, lookup,
}
use jorb.Effect.{ok, bind-eq-ok}
use jorb.Job.{Job, Time}
use jorb.State.{KickRequest}
use jorb.Run.{Run, update_job}
use jorb.Storage.{process_job, run_next_waiting_job}
use jorb.Json.{Codec, RoundTrips}
use jorb.Json.Replay.{
  unstamped, overlay, overlay-unstamped, update_all, update_all-lookup, update_all-rest, SameJobs,
}
use jorb.Json.Covers.{DistinctJobs}
use jorb.Json.Disk.{Failure, Store, done}
use jorb.Json.Start.{new_json_serializer}
use jorb.Json.Durable.{Sound, Holds, Holds-made, to_come}
use jorb.Json.Appending.{Quiet, Quiet-to_come}
use jorb.Json.Restart.{restarted}
use jorb.Json.Unfailing.{opened}
use jorb.Json.Returns.{new_json_serializer_returns}
use jorb.Processor.{
  Serializer, Return, Main, kick_job, start_kicks, or_fatal, persist_after_completion,
  handle_return,
}
use jorb.Processor.System.{System, Step, take, finish, handle, Reach, here, more}
use jorb.Processor.Touched.{kicked_jobs, touched_jobs, touched_jobs-DistinctJobs}
use jorb.Processor.Persisting.{
  sharing, json_serializer, Unwritten, Ended, persist_after_completion-Ended,
}

module _ {E L W OC C : Type 0} where
  start_kicks-run :
      (now : ℕ → Time) (parent : Job C) (idx : ℕ) (ks : List (KickRequest C))
      (m t : Main E L W OC C)
      → start_kicks now parent idx ks m ≡ ok t
      → (t.run ≡ update_all now (suc idx) (kicked_jobs parent idx ks) m.run) × (t.store ≡ m.store)
  unfolding start_kicks update_all
  start_kicks-run now parent idx [] m t e =
      let same : m ≡ t = cc in (ap (λ x. x.run) (sym same), ap (λ x. x.store) (sym same))
  start_kicks-run now parent idx (k ∷ ks) m t e =
      let (storage, e_p, e_rest) =
        bind-eq-ok (process_job m.storage (kick_job parent idx k)) _ _ e in
      start_kicks-run now parent (suc idx) ks _ t e_rest

  or_fatal-eq :
      (m t : Main E L W OC C) (x : Option String × W)
      → or_fatal m x ≡ ok t
      → (x ≡ (none, t.store)) × (t.run ≡ m.run)
  or_fatal-eq m t (none, w) e =
      let same : (record m { store = w }) ≡ t = cc in
      (ap (λ (u : Main E L W OC C). (none, u.store)) same, ap (λ u. u.run) (sym same))
  or_fatal-eq m t (some x, w) e = cc

  -- A return that is handled has its jobs in the run, and the serializer has taken all of them.
  handle_return-run :
      (serializer : Serializer W C) (now : ℕ → Time) (m t : Main E L W OC C) (r : Return C)
      (b : Bool)
      → handle_return serializer now m r ≡ ok (t, b)
      → (t.run ≡ update_all now 0 (touched_jobs r) m.run)
        × (persist_after_completion serializer m.store r ≡ (none, t.store))
  unfolding handle_return update_all
  handle_return-run serializer now m t r b e =
      let (freed, e_f, rest_f) = bind-eq-ok (run_next_waiting_job m.storage r.prior_state) _ _ e in
      let (storage, e_p, rest_p) = bind-eq-ok (process_job freed r.job) _ _ rest_f in
      let (started, e_s, rest_s) =
        bind-eq-ok
          (start_kicks now r.job 0 r.kick_requests
            (record m { storage = storage; run = update_job (now 0) m.run r.job }))
          _ _ rest_p in
      let (saved, e_o, rest_o) =
        bind-eq-ok (or_fatal started (persist_after_completion serializer started.store r)) _ _
          rest_s in
      let same : saved ≡ t = cc in
      let (run, store) = start_kicks-run now r.job 0 r.kick_requests _ started e_s in
      let (all, kept) = or_fatal-eq started t _ (e_o ∙ ap ok same) in
      (kept ∙ run, sym (ap (λ s. persist_after_completion serializer s r) store) ∙ all)

pub append_nothing : {A : Type 0} (xs ys : List A) → (xs ++ ys) ≡ [] → xs ≡ []
append_nothing [] ys e = refl
append_nothing (x ∷ xs) ys e = cc

module _ {Line OC C : Type 0} (codec : Codec Line C) (cut : Line → Line)
    (message : Failure → String) where
  -- The updates are made in memory.
  pub remembered :
      (now : ℕ → Time) (js : List (Job C)) (w run : Run OC C) (s : Store Line OC C)
      → DistinctJobs js
      → Sound codec w [] w (sharing run s)
      → Quiet s.events
      → Sound codec w js w (sharing (update_all now 0 js run) s)
  remembered now js w run s distinct h q =
      let none_made = append_nothing h.made (to_come s.events) h.total in
      let rest = update_all-rest now 0 js run in
      record {
        made = js;
        total = ap (λ x. js ++ x) (Quiet-to_come s.events q) ∙ append-nil js;
        memory = λ k.
            update_all-lookup now 0 js run k
            ∙ overlay-unstamped k _ _ js
                (h.memory k ∙ ap (λ xs. unstamped (overlay k (lookup k w.jobs) xs)) none_made);
        run_header = (rest.0 ∙ h.run_header.0, rest.1 ∙ h.run_header.1);
        copy_header = h.copy_header;
        copy = λ k. inl refl;
        holds =
            Holds-made codec w [] js s.disk distinct
              (subst (λ xs. Holds codec w xs s.disk) none_made h.holds);
        handle = h.handle;
      }

module _ {E L Line OC C : Type 0} (codec : Codec Line C) (cut : Line → Line)
    (message : Failure → String) where
  -- All updates of the run of the processor are on the disk.
  abbrev pub Saved : Main E L (Store Line OC C) OC C → Type 0
  Saved m = (w : Run OC C) × Sound codec w [] w (sharing m.run m.store) × Quiet m.store.events

  handle_return-Saved :
      (now : ℕ → Time) (m t : Main E L (Store Line OC C) OC C) (r : Return C) (b : Bool)
      → handle_return (json_serializer codec cut message) now m r ≡ ok (t, b)
      → Saved m
      → Saved t
  handle_return-Saved now m t r b e (w, h, q) =
      let (run, persisted) = handle_return-run (json_serializer codec cut message) now m t r b e in
      let js = touched_jobs r in
      let memory = update_all now 0 js m.run in
      let (sound, quiet) : Unwritten codec cut message now memory (update_all now 0 js w) []
          t.store =
        subst (Ended codec cut message now memory 0 w js) persisted (
          persist_after_completion-Ended codec cut message now memory 0 r w m.store (
            remembered codec cut message now js w m.run m.store (touched_jobs-DistinctJobs r) h q,
            q,
          )) in
      (
        update_all now 0 js w,
        subst
            (λ x.
              Sound codec (update_all now 0 js w) [] (update_all now 0 js w) (sharing x t.store))
            (sym run) sound,
        quiet,
      )

  starts_again :
      (laws : RoundTrips codec) (again : ℕ → ℕ → Time) (overall : OC)
      (m : Main E L (Store Line OC C) OC C) (run : Run OC C)
      → Saved m
      → (v : Run OC C) × SameJobs m.run v
        × (new_json_serializer codec again overall (restarted m.store.disk run [])
            ≡ (done v, opened v none))
  starts_again laws again overall m run (w, h, q) =
      let (v, header, jobs, starts) =
        new_json_serializer_returns codec laws again overall w [] (sharing m.run m.store) run h in
      let none_made = append_nothing h.made (to_come m.store.events) h.total in
      let memory : (k : String) → unstamped (lookup k m.run.jobs) ≡ unstamped (lookup k w.jobs) =
        λ k. h.memory k ∙ ap (λ xs. unstamped (overlay k (lookup k w.jobs) xs)) none_made in
      (
        v,
        record {
          name = header.0 ∙ sym h.run_header.0;
          overall = header.1 ∙ sym h.run_header.1;
          jobs = λ k. elim (jobs k) [ inl e ↦ e ∙ sym (memory k) | inr e ↦ e ];
        },
        starts,
      )

  -- Let the disk have all updates of the run, and what is written be readable. When a return is handled,
  -- the disk again has all updates, those of the returned job and of the jobs it kicked off included:
  -- if the program is killed then, a start in which no call fails returns the run that was in memory,
  -- but for the stamps of its jobs.
  pub handle_return_survives :
      (laws : RoundTrips codec) (now : ℕ → Time) (again : ℕ → ℕ → Time) (overall : OC)
      (m t : Main E L (Store Line OC C) OC C) (r : Return C) (b : Bool) (run : Run OC C)
      → Saved m
      → handle_return (json_serializer codec cut message) now m r ≡ ok (t, b)
      → Saved t
        × (v : Run OC C) × SameJobs t.run v
        × (new_json_serializer codec again overall (restarted t.store.disk run [])
            ≡ (done v, opened v none))
  handle_return_survives laws now again overall m t r b run h e =
      let saved : Saved t = handle_return-Saved now m t r b e h in
      let (v, same, starts) = starts_again laws again overall t run saved in
      (saved, v, same, starts)

  Step-Saved :
      (y z : System E L (Store Line OC C) OC C)
      → Step (json_serializer codec cut message) y z
      → Saved y.main
      → Saved z.main
  Step-Saved y z (take k c ch j rest ec e b free ez) h = subst (λ x. Saved x.main) (sym ez) h
  Step-Saved y z (finish before after j r e a room ez) h = subst (λ x. Saved x.main) (sym ez) h
  Step-Saved y z (handle now r rest m changed e did ez) h =
      subst (λ x. Saved x.main) (sym ez) (handle_return-Saved now y.main m r changed did h)

  Reach-Saved :
      (y z : System E L (Store Line OC C) OC C)
      → Reach (json_serializer codec cut message) y z
      → Saved y.main
      → Saved z.main
  Reach-Saved y z here h = h
  Reach-Saved y z (more {z = x} path step) h = Step-Saved x z step (Reach-Saved y x path h)

  -- Let what is written be readable, and let the disk have all updates of the run at first. Whatever
  -- the order in which workers and the main goroutine move, if the program is killed between two
  -- moves, a start in which no call fails returns the run that was in memory, but for the stamps of
  -- its jobs.
  pub killed_anywhere :
      (laws : RoundTrips codec) (again : ℕ → ℕ → Time) (overall : OC)
      (y z : System E L (Store Line OC C) OC C) (run : Run OC C)
      → Saved y.main
      → Reach (json_serializer codec cut message) y z
      → (v : Run OC C) × SameJobs z.main.run v
        × (new_json_serializer codec again overall (restarted z.main.store.disk run [])
            ≡ (done v, opened v none))
  killed_anywhere laws again overall y z run h path =
      starts_again laws again overall z.main run (Reach-Saved y z path h)
