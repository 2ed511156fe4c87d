-- ===== src/Processor/Goroutines/Alive.antt =====
-- What holds of the goroutines while the context is not done and the channels are open.
use mathlib.Core.Option.{some-injective}
use jorb.Base.{◌≡◌, ◌≢◌, sym, ap, ◌∙◌, subst, inl, inr, String, false, some, lookup}
use jorb.Channel.{Channel}
use jorb.Effect.{Returns}
use jorb.Job.{Job}
use jorb.Storage.Invariant.{SameStates}
use jorb.Processor.{Serializer}
use jorb.Processor.Registered.{NeverFails}
use jorb.Processor.Safety.{SystemOk, handle-SystemOk, Step-SystemOk}
use jorb.Processor.Finishing.{Tracked, Step-Tracked}
use jorb.Processor.Goroutines as G
use jorb.Processor.Goroutines.{
  Worker, idle, executing, executed, sending, stopped, Phase, selecting, draining, leaving, ended,
  Goroutines, Moves, moved, is_finished, Go,
}
use jorb.Processor.Goroutines.Workers.{system, NameOk, AnswersHeld, mover, Simulates, Go-Simulates}
use jorb.Processor.Goroutines.Placed.{
  Placed, Placed-moved, Placed-received, Placed-sent, Placed-handled, Placed-drained,
}

module _ {E L W OC C : Type 0} where
  pub record Alive (y : Goroutines E L W OC C) : Type 0 where
    pub sound : SystemOk (system y)
    pub tracked : Tracked (system y)
    pub still : y.canceled ≡ false
    pub placed : Placed y

  -- A channel from which a worker receives is open.
  channel_open :
      (y : Goroutines E L W OC C) (k : String) (m : Moves y k idle) (ch : Channel (Job C))
      → lookup k y.main.storage.state_chan ≡ some ch
      → Alive y
      → ch.closed ≡ false
  channel_open y k m ch e h =
      let (c, known) =
        (mover (λ (n, v). NameOk y.main.storage n) y k idle m h.placed.staff.named).0 in
      let (l, has, good) = h.sound.lanes.lanes k c known in
      subst (λ x. x.closed ≡ false) (some-injective _ _ (sym has.chan ∙ e)) good.is_open

module _ {E L W OC C : Type 0} (serializer : Serializer W C) (never : NeverFails serializer)
    (y : Goroutines E L W OC C) (h : Alive y) where
  Go-Placed :
      (z : Goroutines E L W OC C)
      → Go serializer y z
      → z.canceled ≡ false
      → z.phase ≢ ended
      → Placed z
  Go-Placed z (G.receive k m ch j rest e b ez) live on =
      subst Placed (sym ez) (Placed-received y k m ch j rest h.placed)
  Go-Placed z (G.stop_closed k m ch e b closed ez) live on = cc (channel_open y k m ch e h, closed)
  Go-Placed z (G.stop_canceled k m canceled ez) live on = cc (h.still, canceled)
  Go-Placed z (G.execute k j m r a ez) live on =
      subst Placed (sym ez) (Placed-moved y k (executing j) (executed j r) m a h.placed)
  Go-Placed z (G.drop k j r m canceled ez) live on = cc (h.still, canceled)
  Go-Placed z (G.pass k j r m still ez) live on = subst Placed (sym ez) (
      Placed-moved y k (executed j r) (sending j r) m
        (mover (λ (n, v). AnswersHeld y v) y k (executed j r) m h.placed.staff.answers) h.placed)
  Go-Placed z (G.send k j r m is_open room ez) live on =
      subst Placed (sym ez) (Placed-sent y k j r m h.placed)
  Go-Placed z (G.handle now r rest m changed ph e did ez) live on = subst Placed (sym ez) (
      Placed-handled y m rest
        (subst
          (λ q. Returns q (λ (t, b).
            SystemOk (record (system y) { main = t; returning = rest })
            × SameStates y.main.storage t.storage))
          did (handle-SystemOk serializer now (system y) r rest never e h.sound)).1
        h.placed)
  Go-Placed z (G.drained ph e ez) live on = subst Placed (sym ez) (Placed-drained y h.placed)
  Go-Placed z (G.leave ph canceled ez) live on = cc (h.still, canceled)
  Go-Placed z (G.close_all t returns ph did ez) live on = absurd (on (ap (λ x. x.phase) ez))
  Go-Placed z (G.cancel ez) live on = let e = ap (λ x. x.canceled) ez in cc (e, live)

  system_next :
      (z : Goroutines E L W OC C)
      → Simulates serializer never y h.sound h.placed.staff z
      → SystemOk (system z) × Tracked (system z)
  system_next z (inl e) = subst (λ x. SystemOk x × Tracked x) (sym e) (h.sound, h.tracked)
  system_next z (inr s) = (
    Step-SystemOk serializer (system y) (system z) never s h.sound,
    Step-Tracked serializer (system y) (system z) never s h.sound h.tracked,
  )

  pub Go-Alive :
      (z : Goroutines E L W OC C)
      → Go serializer y z
      → z.canceled ≡ false
      → z.phase ≢ ended
      → Alive z
  Go-Alive z g live on =
      let (sound, tracked) =
        system_next z (Go-Simulates serializer never y h.sound h.placed.staff z g h.still on) in
      record { sound = sound; tracked = tracked; still = live; placed = Go-Placed z g live on }
