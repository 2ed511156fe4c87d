-- ===== src/Processor/Persisting.antt =====
-- processor.go, `persistAfterCompletion`, on the `JsonSerializer`, which shares the run with the
-- processor.
use jorb.Base.{
  ℕ, suc, ◌≡◌, refl, ap, subst, ◌⊎◌, inl, inr, String, Option, none, some, List, [], ◌∷◌, ◌++◌,
}
use jorb.Job.{Job, Time}
use jorb.State.{KickRequest}
use jorb.Run.{Run, update_job}
use jorb.Json.{Codec}
use jorb.Json.Replay.{update_all}
use jorb.Json.Covers.{DistinctJobs}
use jorb.Json.Disk.{
  Event, Failure, Store, Answer, done, failed, died, environment, turn, update_run,
}
use jorb.Json.Start.{job_update}
use jorb.Json.Rules.{Post}
use jorb.Json.Durable.{Sound, environment-Sound}
use jorb.Json.Appending.{
  Quiet, Quiet-next, Quiet-environment, Quiet-Alone, job_update_rule, appended-After,
}
use jorb.Processor.{Serializer, Return, kick_job, persist_kicks, persist_after_completion}
use jorb.Processor.Touched.{kicked_jobs, touched_jobs, touched_jobs-DistinctJobs}

module _ {Line OC C : Type 0} where
  -- The store of a processor whose run is `run`.
  abbrev pub sharing : Run OC C → Store Line OC C → Store Line OC C
  sharing run s = record s { run = run }

  turn-sharing :
      (run : Run OC C) (es : List (Event C)) (s : Store Line OC C)
      → s.events ≡ es
      → Quiet es
      → turn es (sharing run s) ≡ sharing run (turn es s)
  unfolding update_run
  turn-sharing run [] s e q = refl
  turn-sharing run (ev ∷ es) s e q =
      ap (λ us. sharing (update_run us run) (record s { events = es })) q.0.0

  environment-sharing :
      (run : Run OC C) (s : Store Line OC C)
      → Quiet s.events
      → environment (sharing run s) ≡ sharing run (environment s)
  unfolding environment
  environment-sharing run s q = turn-sharing run s.events s refl q

-- What an answer of `JobUpdate` is to the processor: after an error, as after the death of the program,
-- it goes no further.
abbrev pub error_of : (Failure → String) → Answer (Unit {0}) → Option String
error_of message (done u) = none
error_of message (failed e) = some (message e)
error_of message died = some ""

module _ {Line OC C : Type 0} (codec : Codec Line C) (cut : Line → Line)
    (message : Failure → String) where
  abbrev pub json_serializer : Serializer (Store Line OC C) C
  json_serializer = record {
    job_update =
        λ s job. let (answer, t) = job_update codec cut job s in (error_of message answer, t);
  }

module _ {Line OC C : Type 0} (codec : Codec Line C) (cut : Line → Line)
    (message : Failure → String) (now : ℕ → Time) (run : Run OC C) where
  -- The updates of `js` are in the memory of the processor and not on the disk.
  abbrev pub Unwritten : Run OC C → List (Job C) → Store Line OC C → Type 0
  Unwritten w js s = Sound codec w js w (sharing run s) × Quiet s.events

  turn-Unwritten :
      (w : Run OC C) (js : List (Job C)) (s : Store Line OC C)
      → DistinctJobs js
      → Unwritten w js s
      → Unwritten w js (environment s)
  turn-Unwritten w js s distinct (h, q) = (
    subst (Sound codec w js w) (environment-sharing run s q)
        (environment-Sound codec w js w (sharing run s) distinct h),
    Quiet-environment s q,
  )

  one_update :
      (n : ℕ) (w : Run OC C) (j : Job C) (js : List (Job C)) (s : Store Line OC C)
      → DistinctJobs (j ∷ js)
      → Unwritten w (j ∷ js) s
      → Post
          (λ t. Unwritten w (j ∷ js) t ⊎ Unwritten (update_job (now n) w j) js t)
          (job_update codec cut j s)
          (λ u t. Unwritten (update_job (now n) w j) js t)
  one_update n w j js s distinct h =
      job_update_rule codec j (Unwritten w (j ∷ js)) (Unwritten (update_job (now n) w j) js) cut s
        (record {
          partial = λ t x. Quiet-next t.events x.1;
          turn_before = λ t x. turn-Unwritten w (j ∷ js) t distinct x;
          turn_after = λ t x. turn-Unwritten (update_job (now n) w j) js t distinct.1 x;
          writes = λ t e x. (
            appended-After codec w (now n) j js distinct (sharing run t) e
                (Quiet-Alone t.events x.1) x.0,
            x.1,
          );
        })
        h

  -- Without an error all updates are written; with one, some of them in their order.
  abbrev pub Ended : ℕ → Run OC C → List (Job C) → Option String × Store Line OC C → Type 0
  Ended n w js (none, t) = Unwritten (update_all now n js w) [] t
  Ended n w js (some e, t) =
      (written : List (Job C)) × (rest : List (Job C)) × (js ≡ written ++ rest)
      × Unwritten (update_all now n written w) rest t

  abbrev serializer : Serializer (Store Line OC C) C
  serializer = json_serializer codec cut message

  stopped :
      (n : ℕ) (w : Run OC C) (j : Job C) (js : List (Job C)) (t : Store Line OC C)
      → Unwritten w (j ∷ js) t ⊎ Unwritten (update_job (now n) w j) js t
      → (written : List (Job C)) × (rest : List (Job C)) × ((j ∷ js) ≡ written ++ rest)
        × Unwritten (update_all now n written w) rest t
  unfolding update_all
  stopped n w j js t (inl h) = ([], j ∷ js, refl, h)
  stopped n w j js t (inr h) = (j ∷ [], js, refl, h)

  -- A call that goes on with `f` when it works.
  after_answer :
      (n : ℕ) (w : Run OC C) (j : Job C) (js : List (Job C))
      (x : Answer (Unit {0}) × Store Line OC C)
      (f : Store Line OC C → Option String × Store Line OC C)
      → Post
          (λ t. Unwritten w (j ∷ js) t ⊎ Unwritten (update_job (now n) w j) js t)
          x
          (λ u t. Unwritten (update_job (now n) w j) js t)
      → ((t : Store Line OC C)
          → Unwritten (update_job (now n) w j) js t
          → Ended (suc n) (update_job (now n) w j) js (f t))
      → Ended n w (j ∷ js) (elim (error_of message x.0) [ none ↦ f x.1 | some e ↦ (some e, x.1) ])
  unfolding update_all
  after_answer n w j js (done u, t) f h k = longer (f t) (k t h)
    where
      longer :
          (x : Option String × Store Line OC C)
          → Ended (suc n) (update_job (now n) w j) js x
          → Ended n w (j ∷ js) x
      longer (none, v) h = h
      longer (some e, v) (written, rest, split, h) = (j ∷ written, rest, ap (λ xs. j ∷ xs) split, h)
  after_answer n w j js (failed e, t) f h k = stopped n w j js t h
  after_answer n w j js (died, t) f h k = stopped n w j js t h

  persist_kicks-Ended :
      (n : ℕ) (parent : Job C) (idx : ℕ) (ks : List (KickRequest C)) (w : Run OC C)
      (s : Store Line OC C)
      → DistinctJobs (kicked_jobs parent idx ks)
      → Unwritten w (kicked_jobs parent idx ks) s
      → Ended n w (kicked_jobs parent idx ks) (persist_kicks serializer s parent idx ks)
  unfolding persist_kicks update_all
  persist_kicks-Ended n parent idx [] w s distinct h = h
  persist_kicks-Ended n parent idx (k ∷ ks) w s distinct h =
      let js = kicked_jobs parent (suc idx) ks in
      after_answer n w (kick_job parent idx k) js (job_update codec cut (kick_job parent idx k) s)
        (λ t. persist_kicks serializer t parent (suc idx) ks)
        (one_update n w (kick_job parent idx k) js s distinct h)
        λ t x. persist_kicks-Ended (suc n) parent (suc idx) ks _ t distinct.1 x

  -- The updates of a return, which are in memory, are appended in their order: without an error all of
  -- them are written; after an error, or when the program dies, the first of them are, and the store
  -- is sound with the others pending.
  pub persist_after_completion-Ended :
      (n : ℕ) (r : Return C) (w : Run OC C) (s : Store Line OC C)
      → Unwritten w (touched_jobs r) s
      → Ended n w (touched_jobs r) (persist_after_completion serializer s r)
  unfolding persist_after_completion
  persist_after_completion-Ended n r w s h =
      let distinct = touched_jobs-DistinctJobs r in
      let js = kicked_jobs r.job 0 r.kick_requests in
      after_answer n w r.job js (job_update codec cut r.job s)
        (λ t. persist_kicks serializer t r.job 0 r.kick_requests)
        (one_update n w r.job js s distinct h)
        λ t x. persist_kicks-Ended (suc n) r.job 0 r.kick_requests _ t distinct.1 x
