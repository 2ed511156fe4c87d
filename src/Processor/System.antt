-- ===== src/Processor/System.antt =====
-- The goroutines of a running processor as interleaved steps: a worker takes a job from the channel of
-- its state, a worker finishes and sends its return, and the main goroutine handles a return. What a
-- user's `Exec` gives back is any return from the job's state whose states are registered.
use Prim.Native.Nat.{◌+◌}
use jorb.Base.{
  ℕ, ◌<◌, ◌≡◌, String, ◌==◌, Bool, some, List, [], ◌∷◌, ◌++◌, pos_part, lookup, insert, All, length,
  if◌then◌else◌,
}
use jorb.Channel.{Channel}
use jorb.Effect.{ok}
use jorb.Job.{Job, Time}
use jorb.State.{State}
use jorb.Storage.{Storage}
use jorb.Processor.{Serializer, Return, Main, handle_return}
use jorb.Processor.Invariant.{IsRegistered}

-- The capacity of `returnChan`.
abbrev pub return_cap : ℕ
return_cap = 256

pub record System (E L W OC C : Type 0) : Type 0 where
  pub main : Main E L W OC C
  pub working : List (Job C)
  pub returning : List (Return C)

-- The jobs of state `k` that workers hold, and those on their way back.
unfoldable pub count_jobs : {C : Type 0} → String → List (Job C) → ℕ
count_jobs k [] = 0
count_jobs k (j ∷ js) = (if j.state == k then 1 else 0) + count_jobs k js

unfoldable pub count_returns : {C : Type 0} → String → List (Return C) → ℕ
count_returns k [] = 0
count_returns k (r ∷ rs) = (if r.prior_state == k then 1 else 0) + count_returns k rs

abbrev pub in_flight : {E L W OC C : Type 0} → System E L W OC C → String → ℕ
in_flight y k = count_jobs k y.working + count_returns k y.returning

-- A return that a worker can make of job `j`.
pub record Answers {E L C : Type 0} (s : Storage E L C) (j : Job C) (r : Return C) : Type 0 where
  pub prior : r.prior_state ≡ j.state
  pub same_id : r.job.id ≡ j.id
  pub next : IsRegistered s r.job.state
  pub kicks : All (λ k. IsRegistered s k.state) r.kick_requests

module _ {E L W OC C : Type 0} where
  -- `j`, the oldest job in the channel of state `k`, goes to a worker of the state that is free.
  abbrev pub take_job :
      System E L W OC C → String → Channel (Job C) → Job C → List (Job C) → System E L W OC C
  take_job y k ch j rest = record {
    main = record y.main {
      storage = record y.main.storage {
        state_chan = insert k (record ch { buf = rest }) y.main.storage.state_chan;
      };
    };
    working = j ∷ y.working;
    returning = y.returning;
  }

  pub data Step (serializer : Serializer W C) (y z : System E L W OC C) : Type 0 where
    take :
        (k : String) (c : State E L) (ch : Channel (Job C)) (j : Job C) (rest : List (Job C))
        → lookup k y.main.storage.state_map ≡ some c
        → lookup k y.main.storage.state_chan ≡ some ch
        → ch.buf ≡ j ∷ rest
        → count_jobs k y.working < pos_part c.concurrency
        → z ≡ take_job y k ch j rest
        → Step serializer y z
    finish :
        (before after : List (Job C)) (j : Job C) (r : Return C)
        → y.working ≡ before ++ j ∷ after
        → Answers y.main.storage j r
        → length y.returning < return_cap
        → z ≡ record y { working = before ++ after; returning = y.returning ++ r ∷ [] }
        → Step serializer y z
    handle :
        (now : ℕ → Time) (r : Return C) (rest : List (Return C)) (m : Main E L W OC C)
        (changed : Bool)
        → y.returning ≡ r ∷ rest
        → handle_return serializer now y.main r ≡ ok (m, changed)
        → z ≡ record y { main = m; returning = rest }
        → Step serializer y z

  pub data Reach (serializer : Serializer W C) (y : System E L W OC C)
      : System E L W OC C → Type 0 where
    here : Reach serializer y y
    more :
        {z w : System E L W OC C}
        → Reach serializer y z
        → Step serializer z w
        → Reach serializer y w
