-- ===== src/Processor/Goroutines/Executing.antt =====
-- processor.go, a run of a processor from `NewProcessor` on, with every goroutine.
use jorb.Base.{
  ◌≡◌, refl, sym, ap, ◌∙◌, subst, ◌⊎◌, inl, inr, false, Option, none, some, List, Distinct, All,
}
use jorb.Effect.{Returns, ok}
use jorb.Run.{Run}
use jorb.State.{State}
use jorb.Storage.{Storage}
use jorb.Storage.New.{ConfigError, validate, new_state_storage_from_states}
use jorb.Storage.Invariant.{Inv}
use jorb.Storage.Fresh.{new_state_storage_from_states-Inv}
use jorb.Storage.Status.{all_jobs_are_terminal}
use jorb.Processor.{Serializer}
use jorb.Processor.Registered.{IsRegistered, NeverFails}
use jorb.Processor.Starting.{DistinctStates}
use jorb.Processor.Process.{start_jobs}
use jorb.Processor.Launch.{Started, start_jobs-Started}
use jorb.Processor.Goroutines as G
use jorb.Processor.Goroutines.{
  Worker, idle, Goroutines, new_processor, start_workers, start_goroutines, is_finished, Go,
  Crashes, Runs, starts, follows,
}
use jorb.Processor.Goroutines.Alive.{Alive}
use jorb.Processor.Goroutines.Over.{Good, Go-Good}
use jorb.Processor.Goroutines.Going.{AllDone, Good-goes, Good-Crashes}
use jorb.Processor.Goroutines.Beginning.{start-Alive}

module _ {E L W OC C : Type 0} (serializer : Serializer W C) where
  pub canceled_before :
      (y z : Goroutines E L W OC C) → Go serializer y z → z.canceled ≡ false → y.canceled ≡ false
  canceled_before y z (G.receive k m ch j rest e b ez) live = ap (λ x. x.canceled) (sym ez) ∙ live
  canceled_before y z (G.stop_closed k m ch e b closed ez) live =
      ap (λ x. x.canceled) (sym ez) ∙ live
  canceled_before y z (G.stop_canceled k m c ez) live = ap (λ x. x.canceled) (sym ez) ∙ live
  canceled_before y z (G.execute k j m r a ez) live = ap (λ x. x.canceled) (sym ez) ∙ live
  canceled_before y z (G.drop k j r m c ez) live = ap (λ x. x.canceled) (sym ez) ∙ live
  canceled_before y z (G.pass k j r m c ez) live = ap (λ x. x.canceled) (sym ez) ∙ live
  canceled_before y z (G.send k j r m o room ez) live = ap (λ x. x.canceled) (sym ez) ∙ live
  canceled_before y z (G.handle now r rest m changed ph e did ez) live =
      ap (λ x. x.canceled) (sym ez) ∙ live
  canceled_before y z (G.drained ph e ez) live = ap (λ x. x.canceled) (sym ez) ∙ live
  canceled_before y z (G.leave ph c ez) live = ap (λ x. x.canceled) (sym ez) ∙ live
  canceled_before y z (G.close_all t returns ph did ez) live = ap (λ x. x.canceled) (sym ez) ∙ live
  canceled_before y z (G.cancel ez) live = let e = ap (λ x. x.canceled) ez in cc (e, live)

  pub Runs-Good :
      (y z : Goroutines E L W OC C)
      → NeverFails serializer
      → Runs serializer y z
      → z.canceled ≡ false
      → Good y
      → Good z
  Runs-Good y z never starts live h = h
  Runs-Good y z never (follows {z = x} path step) live h =
      Go-Good serializer never x z step live
        (Runs-Good y x never path (canceled_before x z step live) h)

-- What `NewProcessor` returns is the storage of its states, which `validate` accepts.
new_processor_lem :
    {E L C : Type 0} (states : List (State E L)) (s : Storage E L C)
    → new_processor states ≡ inr s
    → (validate s ≡ none) × (s ≡ new_state_storage_from_states states)
unfolding new_processor
new_processor_lem {C = C} states s e =
    go (validate (new_state_storage_from_states {C = C} states)) refl e
  where
    go :
        (v : Option ConfigError)
        → v ≡ validate (new_state_storage_from_states {C = C} states)
        → (elim v [ none ↦ inr (new_state_storage_from_states states) | some x ↦ inl x ]) ≡ inr s
        → (validate s ≡ none) × (s ≡ new_state_storage_from_states states)
    go none f e =
        let same : s ≡ new_state_storage_from_states states = cc in (ap validate same ∙ sym f, same)
    go (some x) f e = cc

module _ {E L W OC C : Type 0} where
  -- A run starts in order.
  pub started-Alive :
      (states : List (State E L)) (s t : Storage E L C) (run : Run OC C) (store : W)
      → new_processor states ≡ inr s
      → DistinctStates states
      → Distinct run.jobs
      → All (λ (id, j). j.id ≡ id) run.jobs
      → All (λ (id, j). IsRegistered s j.state) run.jobs
      → all_jobs_are_terminal s run ≡ false
      → start_jobs s run.jobs ≡ ok t
      → Alive (start_goroutines t run store)
  started-Alive states s t run store accepted distinct unique keyed known working did =
      let (valid, same) = new_processor_lem states s accepted in
      let ready = subst (λ x. validate x ≡ none) same valid in
      let began : Started s t run.jobs =
        subst (λ q. Returns q (λ u. Started s u run.jobs)) did
          (start_jobs-Started s run.jobs known
            (subst (Inv (λ k. 0)) (sym same) (new_state_storage_from_states-Inv states ready))) in
      start-Alive states run store ready distinct t (subst (λ x. Started x t run.jobs) same began)
        unique keyed (subst (λ x. all_jobs_are_terminal x run ≡ false) same working)

  -- Every place that a run which is not canceled comes to is a good one.
  pub reached-Good :
      (serializer : Serializer W C) (states : List (State E L)) (s t : Storage E L C)
      (run : Run OC C) (store : W) (y : Goroutines E L W OC C)
      → new_processor states ≡ inr s
      → DistinctStates states
      → Distinct run.jobs
      → All (λ (id, j). j.id ≡ id) run.jobs
      → All (λ (id, j). IsRegistered s j.state) run.jobs
      → all_jobs_are_terminal s run ≡ false
      → NeverFails serializer
      → start_jobs s run.jobs ≡ ok t
      → Runs serializer (start_goroutines t run store) y
      → y.canceled ≡ false
      → Good y
  reached-Good serializer states s t run store y accepted distinct unique keyed known working never
        did path live =
      Runs-Good serializer (start_goroutines t run store) y never path live
        (inl (started-Alive states s t run store accepted distinct unique keyed known working did))

  -- Let `NewProcessor` accept the states, of which no two have the same trigger state; let every job of
  -- the run stand under its own id, no id twice, in a registered state, one of them in a state that is
  -- not terminal; and let no update of the serializer fail. Each worker answers as `Answers` says: with
  -- its job under the same id, and the job and its kicks in registered states. Once `process` has admitted
  -- the jobs, whatever
  -- the order in which the workers and the main goroutine move from there on, as long as the context is
  -- not canceled, no goroutine panics with its next move, not by a send on a closed channel either; and
  -- one can move, until the main goroutine and all workers have ended, with every job of the run in a
  -- terminal state and no state with a job that executes.
  pub run_completes :
      (serializer : Serializer W C) (states : List (State E L)) (s t : Storage E L C)
      (run : Run OC C) (store : W) (y : Goroutines E L W OC C)
      → new_processor states ≡ inr s
      → DistinctStates states
      → Distinct run.jobs
      → All (λ (id, j). j.id ≡ id) run.jobs
      → All (λ (id, j). IsRegistered s j.state) run.jobs
      → all_jobs_are_terminal s run ≡ false
      → NeverFails serializer
      → start_jobs s run.jobs ≡ ok t
      → Runs serializer (start_goroutines t run store) y
      → y.canceled ≡ false
      → ¬ (Crashes serializer y)
        × (AllDone y ⊎ ((z : Goroutines E L W OC C) × Go serializer y z × (z.canceled ≡ false)))
  run_completes serializer states s t run store y accepted distinct unique keyed known working never
        did path live =
      let good =
        reached-Good serializer states s t run store y accepted distinct unique keyed known working
          never did path live in
      (Good-Crashes serializer never y good, Good-goes serializer never y live good)
