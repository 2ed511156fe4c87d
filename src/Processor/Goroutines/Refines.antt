-- ===== src/Processor/Goroutines/Refines.antt =====
-- The goroutines of a run, and the steps of Processor.System.
use jorb.Base.{◌≡◌, ◌≢◌, sym, subst, inl, inr, false, List, Distinct, All}
use jorb.Effect.{ok}
use jorb.Run.{Run}
use jorb.State.{State}
use jorb.Storage.{Storage}
use jorb.Storage.Status.{all_jobs_are_terminal}
use jorb.Processor.{Serializer}
use jorb.Processor.Registered.{IsRegistered, NeverFails}
use jorb.Processor.Starting.{DistinctStates}
use jorb.Processor.Process.{start_jobs}
use jorb.Processor.System.{Reach, here, more}
use jorb.Processor.Goroutines.{
  ended, Goroutines, new_processor, start_goroutines, Go, Runs, starts, follows,
}
use jorb.Processor.Goroutines.Workers.{system, Go-Simulates}
use jorb.Processor.Goroutines.Placed.{PhaseOk}
use jorb.Processor.Goroutines.Alive.{Alive}
use jorb.Processor.Goroutines.Over.{Good, Go-Over}
use jorb.Processor.Goroutines.Executing.{started-Alive, canceled_before, Runs-Good}

module _ {E L W OC C : Type 0} (serializer : Serializer W C) (never : NeverFails serializer) where
  not_ended : (y : Goroutines E L W OC C) → Alive y → y.phase ≢ ended
  not_ended y h e = subst (λ p. PhaseOk p y.main) e h.placed.phase

  one_more :
      (y x z : Goroutines E L W OC C)
      → Reach serializer (system y) (system x)
      → Go serializer x z
      → z.phase ≢ ended
      → Alive x
      → Reach serializer (system y) (system z)
  one_more y x z path step on h =
      elim (Go-Simulates serializer never x h.sound h.placed.staff z step h.still on) [
        | inl same ↦ subst (Reach serializer (system y)) (sym same) path
        | inr moves ↦ more path moves
      ]

  Runs-Reach :
      (y z : Goroutines E L W OC C)
      → Runs serializer y z
      → z.canceled ≡ false
      → z.phase ≢ ended
      → Alive y
      → Reach serializer (system y) (system z)
  Runs-Reach y z starts live on h = here
  Runs-Reach y z (follows {z = x} path step) live on h =
      let before = canceled_before serializer x z step live in
      through (Runs-Reach y x path before) (Runs-Good serializer y x never path before (inl h))
    where
      through :
          (x.phase ≢ ended → Alive y → Reach serializer (system y) (system x))
          → Good x
          → Reach serializer (system y) (system z)
      through earlier (inl k) = one_more y x z (earlier (not_ended x k) h) step on k
      through earlier (inr k) = absurd (on (Go-Over serializer x z step live k).phase)

module _ {E L W OC C : Type 0} where
  -- Let a run be started as `run_completes` has it, with workers that answer with registered states. Until it is canceled or the main goroutine ends,
  -- whatever the order in which the goroutines have moved, the jobs that workers hold, the returns on
  -- their way and the state of the main goroutine are such as steps of Processor.System bring about.
  pub interleavings_are_steps :
      (serializer : Serializer W C) (states : List (State E L)) (s t : Storage E L C)
      (run : Run OC C) (store : W) (y : Goroutines E L W OC C)
      → new_processor states ≡ inr s
      → DistinctStates states
      → Distinct run.jobs
      → All (λ (id, j). j.id ≡ id) run.jobs
      → All (λ (id, j). IsRegistered s j.state) run.jobs
      → all_jobs_are_terminal s run ≡ false
      → NeverFails serializer
      → start_jobs s run.jobs ≡ ok t
      → Runs serializer (start_goroutines t run store) y
      → y.canceled ≡ false
      → y.phase ≢ ended
      → Reach serializer (system (start_goroutines t run store)) (system y)
  interleavings_are_steps serializer states s t run store y accepted distinct unique keyed known
        working never did path live on =
      Runs-Reach serializer never (start_goroutines t run store) y path live on
        (started-Alive states s t run store accepted distinct unique keyed known working did)
