-- ===== src/Processor/Tracking.antt =====
-- processor.go, `handleReturn`: every job of the run that is not done stands in a lane, is with a worker
-- or is on its way back.
use jorb.Base.{
  ℕ, suc, ◌≡◌, sym, subst, ap, ◌∙◌, ◌⊎◌, inl, inr, Bool-cases, String-cases, String, ◌==◌, true,
  false, Option, none, some, List, [], ◌∷◌, Distinct, insert-Distinct, lookup, lookup-insert_self,
  lookup-insert_ne, All,
}
use mathlib.Core.Option.{some-injective}
use jorb.Effect.{Returns, Returns-bind}
use jorb.Job.{Job, Time, update_last_event}
use jorb.Run.{Run, update_job}
use jorb.State.{KickRequest}
use jorb.Storage.{Storage, process_job, run_next_waiting_job, is_terminal}
use jorb.Storage.Invariant.{Inv, SameStates}
use jorb.Storage.Holds.{Holds, Admits, process_job-Admits, run_next_waiting_job-Holds}
use jorb.Processor.{
  Serializer, Return, Main, kick_job, start_kicks, or_fatal, persist_after_completion,
  handle_return,
}
use jorb.Processor.Registered.{
  IsRegistered, NeverFails, SameStates-trans, IsRegistered-SameStates, kick_job-state,
  persist_after_completion-ok,
}

module _ {E L C : Type 0} where
  is_terminal-SameStates :
      (s t : Storage E L C) (j : Job C)
      → SameStates s t
      → is_terminal s j ≡ true
      → is_terminal t j ≡ true
  unfolding is_terminal
  is_terminal-SameStates s t j same e = rw same.state_map e

-- `away` tells of an id whether a job that bears it is out of the storage.
module _ {E L C : Type 0} (away : String → Type 0) where
  abbrev pub Found : Storage E L C → String → Job C → Type 0
  Found s i j = (is_terminal s j ≡ true) ⊎ Holds i s ⊎ away i

  Found-kept :
      (s t : Storage E L C) (i : String) (j : Job C)
      → SameStates s t
      → (Holds i s → Holds i t)
      → Found s i j
      → Found t i j
  Found-kept s t i j same keeps (inl e) = inl (is_terminal-SameStates s t j same e)
  Found-kept s t i j same keeps (inr (inl h)) = inr (inl (keeps h))
  Found-kept s t i j same keeps (inr (inr a)) = inr (inr a)

  -- The new entry of a job that is admitted.
  admitted :
      (n : String → ℕ) (now : Time) (s t : Storage E L C) (job : Job C)
      → Admits n s job t
      → Found t job.id (update_last_event now job)
  unfolding is_terminal update_last_event
  admitted n now s t job a = elim (Bool-cases (is_terminal s job)) [
    | inl e ↦ inl (is_terminal-SameStates s t (update_last_event now job) a.same e)
    | inr live ↦ inr (inl (a.adds live))
  ]

module _ {E L OC C : Type 0} (away : String → Type 0) where
  -- Each entry of the run, but for one under the id `x`, is terminal or under way.
  abbrev pub TracksOthers : String → Run OC C → Storage E L C → Type 0
  TracksOthers x run s =
      (i : String) (j : Job C) → (x == i) ≡ false → lookup i run.jobs ≡ some j → Found away s i j

  abbrev pub Tracks : Run OC C → Storage E L C → Type 0
  Tracks run s = (i : String) (j : Job C) → lookup i run.jobs ≡ some j → Found away s i j

  pub Admits-Tracks :
      (n : String → ℕ) (now : Time) (run : Run OC C) (s t : Storage E L C) (job : Job C)
      → Admits n s job t
      → TracksOthers job.id run s
      → Tracks (update_job now run job) t
  unfolding update_job
  Admits-Tracks n now run s t job a h i j e = elim (String-cases job.id i) [
    | inl p ↦
        subst (Found away t i)
          (some-injective _ _ (
            sym (lookup-insert_self job.id (update_last_event now job) run.jobs)
            ∙ ap (λ x. lookup x (update_job now run job).jobs) p
            ∙ e))
          (subst (λ x. Found away t x (update_last_event now job)) p
            (admitted away n now s t job a))
    | inr ne ↦
        Found-kept away s t i j a.same (a.keeps i)
          (h i j ne (sym (lookup-insert_ne job.id i (update_last_event now job) run.jobs ne) ∙ e))
  ]

module _ {E L W OC C : Type 0} (away : String → Type 0) where
  -- What holds of the main goroutine's state, with `n k` jobs of state `k` away.
  pub record MainOk (n : String → ℕ) (before : Main E L W OC C) (m : Main E L W OC C) : Type 0 where
    pub inv : Inv n m.storage
    pub same : SameStates before.storage m.storage
    pub tracks : Tracks away m.run m.storage
    pub distinct : Distinct before.run.jobs → Distinct m.run.jobs

  admit-MainOk :
      (n : String → ℕ) (now : Time) (before m : Main E L W OC C) (job : Job C) (t : Storage E L C)
      → SameStates before.storage m.storage
      → (Distinct before.run.jobs → Distinct m.run.jobs)
      → TracksOthers away job.id m.run m.storage
      → Admits n m.storage job t
      → MainOk n before (record m { storage = t; run = update_job now m.run job })
  unfolding update_job
  admit-MainOk n now before m job t same distinct h a = record {
    inv = a.inv;
    same = SameStates-trans same a.same;
    tracks = Admits-Tracks away n now m.run m.storage t job a h;
    distinct = λ d. insert-Distinct job.id (update_last_event now job) m.run.jobs (distinct d);
  }

  start_kicks-MainOk :
      (now : ℕ → Time) (n : String → ℕ) (before : Main E L W OC C) (parent : Job C) (idx : ℕ)
      (ks : List (KickRequest C)) (m : Main E L W OC C)
      → All (λ k. IsRegistered before.storage k.state) ks
      → MainOk n before m
      → Returns (start_kicks now parent idx ks m) (λ t. MainOk n before t)
  unfolding start_kicks
  start_kicks-MainOk now n before parent idx [] m a h = h
  start_kicks-MainOk now n before parent idx (k ∷ ks) m a h =
      let job : Job C = kick_job parent idx k in
      let (c, e) = IsRegistered-SameStates k.state h.same a.0 in
      Returns-bind _ _ (process_job m.storage job) _
        (process_job-Admits n m.storage job c
          (ap (λ j. lookup j m.storage.state_map) (kick_job-state parent idx k) ∙ e) h.inv)
        λ t x. start_kicks-MainOk now n before parent (suc idx) ks _ a.1 (
          admit-MainOk n (now (suc idx)) before m job t h.same h.distinct (λ i j ne. h.tracks i j)
            x)

  -- A return of a job in flight, whose new state and whose kicks are registered, is handled without a
  -- panic and without waiting, if the serializer does not fail. The job is in flight no longer, every
  -- lane stays in order, and each job of the run is terminal or under way.
  pub handle_return-MainOk :
      (serializer : Serializer W C) (now : ℕ → Time) (n n' : String → ℕ) (m : Main E L W OC C)
      (r : Return C)
      → NeverFails serializer
      → IsRegistered m.storage r.prior_state
      → IsRegistered m.storage r.job.state
      → All (λ k. IsRegistered m.storage k.state) r.kick_requests
      → n r.prior_state ≡ suc (n' r.prior_state)
      → ((j : String) → (r.prior_state == j) ≡ false → n' j ≡ n j)
      → Inv n m.storage
      → TracksOthers away r.job.id m.run m.storage
      → Returns (handle_return serializer now m r) (λ (t, changed). MainOk n' m t)
  unfolding handle_return
  handle_return-MainOk serializer now n n' m r never (c, e) known kicks one same h tracks =
      Returns-bind _ _ (run_next_waiting_job m.storage r.prior_state) _
        (run_next_waiting_job-Holds n n' m.storage r.prior_state c e one same h)
        λ s (inv, st, keeps).
          let (d, f) = IsRegistered-SameStates r.job.state st known in
          Returns-bind _ _ (process_job s r.job) _ (process_job-Admits n' s r.job d f inv) λ s' x.
            Returns-bind _ _ (start_kicks now r.job 0 r.kick_requests _) _
              (start_kicks-MainOk now n' m r.job 0 r.kick_requests _ kicks (
                admit-MainOk n' (now 0) m (record m { storage = s }) r.job s' st (λ d. d)
                  (λ i j ne l. Found-kept away m.storage s i j st (keeps i) (tracks i j ne l)) x))
              λ t good.
                let saved : Option String × W = persist_after_completion serializer t.store r in
                Returns-bind _ _ (or_fatal t saved) _
                  (or_fatal-MainOk n' m t saved
                    (persist_after_completion-ok serializer never t.store r) good)
                  λ u fine. fine
    where
      or_fatal-MainOk :
          (n : String → ℕ) (before m : Main E L W OC C) (x : Option String × W)
          → x.0 ≡ none
          → MainOk n before m
          → Returns (or_fatal m x) (λ t. MainOk n before t)
      or_fatal-MainOk n before m (none, w) e h = record {
        inv = h.inv;
        same = h.same;
        tracks = h.tracks;
        distinct = h.distinct;
      }
      or_fatal-MainOk n before m (some x, w) e h = cc
