-- ===== src/Processor/Progress.antt =====
-- The processor does not get stuck while a job is under way, and stops only when none is.
use Prim.Native.Nat.{◌+◌}
use mathlib.Core.Option.{some-injective}
use jorb.Base.{
  ◌<◌, ◌≡◌, refl, sym, subst, ap, ◌∙◌, ◌⊎◌, String, eq_refl, false, some, List, [], ◌∷◌, pos,
  lookup, All, length, arith, inl, inr, ◌≤ℤ◌,
}
use jorb.Effect.{Result, ok, blocked, panic, Returns}
use jorb.Job.{Job}
use jorb.State.{State, StatusCount}
use jorb.Storage.Lane.{Lane, HasLane}
use jorb.Storage.Status.{has_executing_jobs, has_executing_jobs-none}
use jorb.Storage.Invariant.{LaneOk}
use jorb.Processor.{Serializer, Return, handle_return}
use jorb.Processor.Invariant.{IsRegistered, NeverFails}
use jorb.Processor.System.{
  System, count_jobs, count_returns, in_flight, take_job, Step, take, finish, handle,
}
use jorb.Processor.Safety.{SystemOk, ReturnOk, handle-SystemOk}

pub Returns-ok :
    {A : Type 0} (P : A → Type 0) (r : Result A) → Returns r P → (a : A) × (r ≡ ok a) × P a
Returns-ok P (ok a) h = (a, refl, h)
Returns-ok P blocked h = absurd h
Returns-ok P (panic p) h = absurd h

count_jobs_self : {C : Type 0} (j : Job C) (js : List (Job C)) → 0 < count_jobs j.state (j ∷ js)
unfolding count_jobs
count_jobs_self j js = rw (eq_refl j.state) (omega arith)

count_returns_self :
    {C : Type 0} (r : Return C) (rs : List (Return C)) → 0 < count_returns r.prior_state (r ∷ rs)
unfolding count_returns
count_returns_self r rs = rw (eq_refl r.prior_state) (omega arith)

-- With nothing in flight, a state with work has a job in its channel.
work_is_buffered :
    {E L C : Type 0} (k : String) (l : Lane E L C)
    → LaneOk k 0 l
    → (pos 1 ≤ℤ l.status.executing) ⊎ (pos 1 ≤ℤ l.status.waiting)
    → 0 < length l.chan.buf
work_is_buffered k l h (inl e) = ground (arith, h.executing)
work_is_buffered k l h (inr w) = ground (arith, h.waiting, h.busy, h.workable, h.idle)

module _ {E L W OC C : Type 0} (serializer : Serializer W C) (never : NeverFails serializer) where
  -- A return that waits can be handled.
  pub handle_next :
      (y : System E L W OC C) (r : Return C) (rest : List (Return C))
      → y.returning ≡ r ∷ rest
      → SystemOk y
      → (z : System E L W OC C) × Step serializer y z
  handle_next y r rest e h =
      let ((m, changed), done, good) =
        Returns-ok _ (handle_return serializer (λ i. 0) y.main r)
          (handle-SystemOk serializer (λ i. 0) y r rest never e h) in
      (record y { main = m; returning = rest }, handle (λ i. 0) r rest m changed e done refl)

  -- A worker that holds a job can finish, if no return waits: it may send the job back to its state.
  pub finish_next :
      (y : System E L W OC C) (j : Job C) (rest : List (Job C))
      → y.working ≡ j ∷ rest
      → y.returning ≡ []
      → SystemOk y
      → (z : System E L W OC C) × Step serializer y z
  finish_next y j rest e none_back h = (
    _,
    finish [] rest j (record { prior_state = j.state; job = j; kick_requests = [] }) e
        (record {
          prior = refl;
          same_id = refl;
          next = (subst (All (λ i. IsRegistered y.main.storage i.state)) e h.working).0;
          kicks = tt;
        })
        (rw none_back (omega arith)) refl,
  )

  -- A job in the channel of its state always finds a free worker.
  pub take_next :
      (y : System E L W OC C) (k : String) (c : State E L) (l : Lane E L C) (j : Job C)
      (rest : List (Job C))
      → lookup k y.main.storage.state_map ≡ some c
      → HasLane y.main.storage k l
      → LaneOk k (in_flight y k) l
      → l.chan.buf ≡ j ∷ rest
      → Step serializer y (take_job y k l.chan j rest)
  take_next y k c l j rest e has good b =
      take k l.config l.chan j rest has.config has.chan b
        (omega (arith, good.bounded, good.capacity, ap length b)) refl

  buffered_next :
      (y : System E L W OC C) (k : String) (c : State E L) (l : Lane E L C) (buf : List (Job C))
      → l.chan.buf ≡ buf
      → 0 < length buf
      → lookup k y.main.storage.state_map ≡ some c
      → HasLane y.main.storage k l
      → LaneOk k (in_flight y k) l
      → (z : System E L W OC C) × Step serializer y z
  buffered_next y k c l [] b p e has good = absurd (omega arith)
  buffered_next y k c l (j ∷ rest) b p e has good =
      (take_job y k l.chan j rest, take_next y k c l j rest e has good b)

  progress_by :
      (y : System E L W OC C) (working : List (Job C)) (returning : List (Return C)) (k : String)
      (c : State E L) (sc : StatusCount)
      → y.working ≡ working
      → y.returning ≡ returning
      → SystemOk y
      → lookup k y.main.storage.state_map ≡ some c
      → lookup k y.main.storage.state_status_map ≡ some sc
      → (pos 1 ≤ℤ sc.executing) ⊎ (pos 1 ≤ℤ sc.waiting)
      → (z : System E L W OC C) × Step serializer y z
  unfolding count_jobs count_returns
  progress_by y working (r ∷ rs) k c sc ew er h ec es work = handle_next y r rs er h
  progress_by y (j ∷ js) [] k c sc ew er h ec es work = finish_next y j js ew er h
  progress_by y [] [] k c sc ew er h ec es work =
      let (l, has, good) = h.lanes.lanes k c ec in
      buffered_next y k c l l.chan.buf refl
        (work_is_buffered k l (subst (λ i. LaneOk k i l) quiet good) (
          subst (λ i. (pos 1 ≤ℤ i.executing) ⊎ (pos 1 ≤ℤ i.waiting))
            (some-injective _ _ (sym es ∙ has.status)) work))
        ec has good
    where
      quiet : in_flight y k ≡ 0
      quiet = rw (ew, er)

  -- In a system in order, with a serializer that does not fail: while a registered state has a
  -- job that executes or waits, some goroutine can take a step.
  pub progress :
      (y : System E L W OC C) (k : String) (c : State E L) (sc : StatusCount)
      → SystemOk y
      → lookup k y.main.storage.state_map ≡ some c
      → lookup k y.main.storage.state_status_map ≡ some sc
      → (pos 1 ≤ℤ sc.executing) ⊎ (pos 1 ≤ℤ sc.waiting)
      → (z : System E L W OC C) × Step serializer y z
  progress y k c sc h ec es work = progress_by y y.working y.returning k c sc refl refl h ec es work

module _ {E L W OC C : Type 0} (y : System E L W OC C) (h : SystemOk y)
    (stop : has_executing_jobs y.main.storage ≡ false) where
  quiet_lane :
      (k : String) (l : Lane E L C)
      → HasLane y.main.storage k l
      → LaneOk k (in_flight y k) l
      → length l.chan.buf + in_flight y k + length l.queue ≡ 0
  quiet_lane k l has good = ground (
    arith,
    has_executing_jobs-none y.main.storage k l.status stop has.status,
    good.executing,
    good.busy,
    good.workable,
    good.idle,
  )

  no_worker : (js : List (Job C)) → y.working ≡ js → js ≡ []
  no_worker [] e = refl
  no_worker (j ∷ js) e =
      let (c, ec) = (subst (All (λ i. IsRegistered y.main.storage i.state)) e h.working).0 in
      let (l, has, good) = h.lanes.lanes j.state c ec in
      absurd (
        omega
          (arith, quiet_lane j.state l has good, count_jobs_self j js, ap (count_jobs j.state) e))

  no_return : (rs : List (Return C)) → y.returning ≡ rs → rs ≡ []
  no_return [] e = refl
  no_return (r ∷ rs) e =
      let (c, ec) = (subst (All (ReturnOk y.main.storage)) e h.returning).0.prior in
      let (l, has, good) = h.lanes.lanes r.prior_state c ec in
      absurd (
        omega (
          arith,
          quiet_lane r.prior_state l has good,
          count_returns_self r rs,
          ap (count_returns r.prior_state) e,
        ))

  -- In a system in order in which `hasExecutingJobs` finds none: no worker holds a job, none is
  -- on its way back, and no registered state has one in its channel or waiting.
  pub stop_quiet :
      (y.working ≡ [])
      × (y.returning ≡ [])
      × ((k : String) (c : State E L)
          → lookup k y.main.storage.state_map ≡ some c
          → (l : Lane E L C) × HasLane y.main.storage k l
            × (length l.chan.buf + length l.queue ≡ 0))
  stop_quiet = (
    no_worker y.working refl,
    no_return y.returning refl,
    λ k c e.
        let (l, has, good) = h.lanes.lanes k c e in
        (l, has, omega (arith, quiet_lane k l has good)),
  )
