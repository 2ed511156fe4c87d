-- ===== src/Processor/Registered.antt =====
-- What a processor's steps need of the states, and of the serializer.
use jorb.Base.{ℕ, suc, ◌≡◌, refl, ap, ◌∙◌, String, Option, none, some, List, [], ◌∷◌, lookup, arith}
use jorb.Effect.{Returns}
use jorb.Job.{Job}
use jorb.State.{State, KickRequest}
use jorb.Storage.{Storage}
use jorb.Storage.Invariant.{SameStates}
use jorb.Processor.{
  Serializer, Return, Main, kick_job, or_fatal, persist_after_completion, persist_kicks,
}

-- The state is one that the processor was given.
abbrev pub IsRegistered : {E L C : Type 0} → Storage E L C → String → Type 0
IsRegistered {E} {L} s k = (c : State E L) × (lookup k s.state_map ≡ some c)

-- No update of a job fails.
abbrev pub NeverFails : {W C : Type 0} → Serializer W C → Type 0
NeverFails {W} {C} s = (w : W) (job : Job C) → (s.job_update w job).0 ≡ none

module _ {E L C : Type 0} where
  pub SameStates-refl : (s : Storage E L C) → SameStates s s
  SameStates-refl s = record { states = refl; state_map = refl; names = refl }

  pub SameStates-trans : {s t u : Storage E L C} → SameStates s t → SameStates t u → SameStates s u
  SameStates-trans a b = record {
    states = b.states ∙ a.states;
    state_map = b.state_map ∙ a.state_map;
    names = b.names ∙ a.names;
  }

  pub IsRegistered-SameStates :
      {s t : Storage E L C} (k : String) → SameStates s t → IsRegistered s k → IsRegistered t k
  IsRegistered-SameStates k a (c, e) = (c, ap (lookup k) a.state_map ∙ e)

pub kick_job-state :
    {C : Type 0} (parent : Job C) (idx : ℕ) (k : KickRequest C)
    → (kick_job parent idx k).state ≡ k.state
unfolding kick_job
kick_job-state parent idx k = refl

module _ {E L W OC C : Type 0} where
  pub or_fatal-ok :
      (m : Main E L W OC C) (r : Option String × W)
      → r.0 ≡ none
      → Returns (or_fatal m r) (λ t. t.storage ≡ m.storage)
  or_fatal-ok m (none, w) e = refl
  or_fatal-ok m (some x, w) e = cc

module _ {W C : Type 0} (s : Serializer W C) (h : NeverFails s) where
  pub persist_kicks-ok :
      (w : W) (parent : Job C) (idx : ℕ) (ks : List (KickRequest C))
      → (persist_kicks s w parent idx ks).0 ≡ none
  unfolding persist_kicks
  persist_kicks-ok w parent idx [] = refl
  persist_kicks-ok w parent idx (k ∷ ks) = ground (
    arith,
    h w (kick_job parent idx k),
    persist_kicks-ok (s.job_update w (kick_job parent idx k)).1 parent (suc idx) ks,
  )

  pub persist_after_completion-ok :
      (w : W) (r : Return C) → (persist_after_completion s w r).0 ≡ none
  unfolding persist_after_completion
  persist_after_completion-ok w r =
      ground (arith, h w r.job, persist_kicks-ok (s.job_update w r.job).1 r.job 0 r.kick_requests)
