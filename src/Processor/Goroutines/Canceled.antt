-- ===== src/Processor/Goroutines/Canceled.antt =====
-- processor.go, a run that is canceled while a worker is at its send.
use jorb.Base.{◌≡◌, refl, inl, inr, String, false, List, Distinct, All}
use jorb.Effect.{ok}
use jorb.Job.{Job}
use jorb.Run.{Run}
use jorb.State.{State}
use jorb.Storage.{Storage}
use jorb.Storage.Status.{all_jobs_are_terminal}
use jorb.Processor.{Serializer, Return}
use jorb.Processor.Registered.{IsRegistered, NeverFails}
use jorb.Processor.Progress.{Returns-ok}
use jorb.Processor.Starting.{DistinctStates}
use jorb.Processor.Process.{start_jobs, shutdown}
use jorb.Processor.Goroutines as G
use jorb.Processor.Goroutines.{
  Worker, sending, selecting, leaving, ended, Goroutines, Moves, new_processor, start_goroutines,
  Go, Crashes, send_on_closed, Runs, starts, follows,
}
use jorb.Processor.Goroutines.Alive.{Alive}
use jorb.Processor.Goroutines.Over.{Good, shutdown_returns}
use jorb.Processor.Goroutines.Executing.{reached-Good}

module _ {E L W OC C : Type 0} where
  selecting-Alive : (y : Goroutines E L W OC C) → y.phase ≡ selecting → Good y → Alive y
  selecting-Alive y e (inl h) = h
  selecting-Alive y e (inr h) = cc (e, h.phase)

  crash_path :
      (serializer : Serializer W C) (y : Goroutines E L W OC C) (k : String) (j : Job C)
      (r : Return C)
      → y.phase ≡ selecting
      → Moves y k (sending j r)
      → Alive y
      → (z : Goroutines E L W OC C) × Runs serializer y z × Crashes serializer z
  crash_path serializer y k j r ph m h =
      let ((t, returns), did, closed) =
        Returns-ok _ (shutdown y.main.storage y.returns) (shutdown_returns y h) in
      (
        _,
        follows (follows (follows starts (G.cancel refl)) (G.leave ph refl refl))
            (G.close_all t returns refl did refl),
        send_on_closed k j r (record { before = m.before; after = m.after; at = m.at }) closed.1,
      )

  -- In a run as `run_completes` has it, from any place at which a worker is at its send while the main
  -- goroutine is in its select, the goroutines can come to one at which that worker panics with its next
  -- move: when the context is canceled, the main goroutine closes the channel of the returns.
  pub canceled_send-Crashes :
      (serializer : Serializer W C) (states : List (State E L)) (s t : Storage E L C)
      (run : Run OC C) (store : W) (y : Goroutines E L W OC C) (k : String) (j : Job C)
      (r : Return C)
      → new_processor states ≡ inr s
      → DistinctStates states
      → Distinct run.jobs
      → All (λ (id, j). j.id ≡ id) run.jobs
      → All (λ (id, j). IsRegistered s j.state) run.jobs
      → all_jobs_are_terminal s run ≡ false
      → NeverFails serializer
      → start_jobs s run.jobs ≡ ok t
      → Runs serializer (start_goroutines t run store) y
      → y.canceled ≡ false
      → y.phase ≡ selecting
      → Moves y k (sending j r)
      → (z : Goroutines E L W OC C) × Runs serializer y z × Crashes serializer z
  canceled_send-Crashes serializer states s t run store y k j r accepted distinct unique keyed known
        working never did path live ph m =
      crash_path serializer y k j r ph m (
        selecting-Alive y ph (
          reached-Good serializer states s t run store y accepted distinct unique keyed known
            working never did path live))
