-- ===== src/Processor/Touched.antt =====
-- processor.go, the jobs that `handleReturn` updates and persists, and that no two have the same id.
use text.Mathlib.TextLemmas.{append_cancel_left, length-append}
use Prim.Native.String.{count}
use jorb.Base.{
  ℕ, suc, ◌<◌, ◌≡◌, ◌≢◌, ap, inl, inr, String, String-cases, ◌==◌, false, List, [], ◌∷◌, All, arith,
}
use jorb.Base.Decimal.{decimal, concat}
use jorb.Base.Numerals.{decimal_injective}
use jorb.Job.{Job}
use jorb.State.{KickRequest}
use jorb.Json.Covers.{DistinctJobs}
use jorb.Processor.{Return, kick_job}

-- The jobs that the requests become, from the one of number `idx` on.
abbrev pub kicked_jobs : {C : Type 0} → Job C → ℕ → List (KickRequest C) → List (Job C)
kicked_jobs parent idx [] = []
kicked_jobs parent idx (k ∷ ks) = kick_job parent idx k ∷ kicked_jobs parent (suc idx) ks

-- The jobs that a return updates, in their order.
abbrev pub touched_jobs : {C : Type 0} → Return C → List (Job C)
touched_jobs r = r.job ∷ kicked_jobs r.job 0 r.kick_requests

differ : (s t : String) → s ≢ t → (s == t) ≡ false
differ s t h = elim (String-cases s t) [ inl e ↦ absurd (h e) | inr ne ↦ ne ]

abbrev kick_id : String → ℕ → String
kick_id id idx = concat id (concat "->" (decimal idx))

kick_id_injective : (id : String) (i j : ℕ) → kick_id id i ≡ kick_id id j → i ≡ j
kick_id_injective id i j e = decimal_injective i j (
    append_cancel_left "->" (decimal i) (decimal j)
      (append_cancel_left id (concat "->" (decimal i)) (concat "->" (decimal j)) e))

kick_id-new : (id : String) (i : ℕ) → id ≢ kick_id id i
kick_id-new id i e = absurd (
    omega (
      arith,
      ap count e,
      length-append id (concat "->" (decimal i)),
      length-append "->" (decimal i),
    ))

module _ {C : Type 0} where
  kicked_jobs-differ :
      (parent : Job C) (i n : ℕ) (ks : List (KickRequest C))
      → i < n
      → All (λ (j : Job C). (kick_id parent.id i == j.id) ≡ false) (kicked_jobs parent n ks)
  unfolding kick_job
  kicked_jobs-differ parent i n [] h = tt
  kicked_jobs-differ parent i n (k ∷ ks) h = (
    differ (kick_id parent.id i) (kick_id parent.id n)
        (λ e. absurd (omega (arith, h, kick_id_injective parent.id i n e))),
    kicked_jobs-differ parent i (suc n) ks (omega (arith, h)),
  )

  parent-differs :
      (parent : Job C) (n : ℕ) (ks : List (KickRequest C))
      → All (λ (j : Job C). (parent.id == j.id) ≡ false) (kicked_jobs parent n ks)
  unfolding kick_job
  parent-differs parent n [] = tt
  parent-differs parent n (k ∷ ks) =
      (differ _ _ (kick_id-new parent.id n), parent-differs parent (suc n) ks)

  kicked_jobs-DistinctJobs :
      (parent : Job C) (n : ℕ) (ks : List (KickRequest C)) → DistinctJobs (kicked_jobs parent n ks)
  unfolding kick_job
  kicked_jobs-DistinctJobs parent n [] = tt
  kicked_jobs-DistinctJobs parent n (k ∷ ks) = (
    kicked_jobs-differ parent n (suc n) ks (omega arith),
    kicked_jobs-DistinctJobs parent (suc n) ks,
  )

  -- The jobs that a return kicks off have ids of their own, other than the job's.
  pub touched_jobs-DistinctJobs : (r : Return C) → DistinctJobs (touched_jobs r)
  touched_jobs-DistinctJobs r =
      (parent-differs r.job 0 r.kick_requests, kicked_jobs-DistinctJobs r.job 0 r.kick_requests)
