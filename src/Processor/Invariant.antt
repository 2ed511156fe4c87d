-- ===== src/Processor/Invariant.antt =====
-- The main goroutine handles every return without a panic and without waiting, and keeps the lanes of
-- the storage in order.
use jorb.Base.{ℕ, suc, inr, ◌≡◌, String, ◌==◌, false, All}
use jorb.Effect.{Returns, Returns-map}
use jorb.Job.{Time}
use jorb.Storage.Invariant.{Inv, SameStates}
use jorb.Processor.{Serializer, Return, Main, handle_return}
use jorb.Processor.Tracking.{handle_return-MainOk}
pub use jorb.Processor.Registered.{
  IsRegistered, NeverFails, SameStates-refl, SameStates-trans, IsRegistered-SameStates,
}

module _ {E L W OC C : Type 0} where
  -- A return of a job in flight, whose new state and whose kicks are registered, is handled without a
  -- panic and without waiting, if the serializer does not fail; the job is in flight no longer, and
  -- every lane stays in order.
  pub handle_return-Inv :
      (serializer : Serializer W C) (now : ℕ → Time) (n n' : String → ℕ) (m : Main E L W OC C)
      (r : Return C)
      → NeverFails serializer
      → IsRegistered m.storage r.prior_state
      → IsRegistered m.storage r.job.state
      → All (λ k. IsRegistered m.storage k.state) r.kick_requests
      → n r.prior_state ≡ suc (n' r.prior_state)
      → ((j : String) → (r.prior_state == j) ≡ false → n' j ≡ n j)
      → Inv n m.storage
      → Returns
          (handle_return serializer now m r)
          (λ (t, changed). Inv n' t.storage × SameStates m.storage t.storage)
  handle_return-Inv serializer now n n' m r never known next kicks one same h =
      Returns-map _ _ (handle_return serializer now m r)
        (handle_return-MainOk (λ i. Unit) serializer now n n' m r never known next kicks one same h
          (λ i j ne e. inr (inr tt)))
        λ (t, changed) x. (x.inv, x.same)
