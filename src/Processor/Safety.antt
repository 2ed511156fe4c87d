-- ===== src/Processor/Safety.antt =====
-- What holds of a running processor, whatever the order of the steps.
use Prim.Native.Nat.{◌+◌}
use mathlib.Core.Option.{some-injective}
use mathlib.Core.Path.{fun_ext}
use jorb.Base.{
  ℕ, suc, inr, ◌≡◌, sym, subst, ap, ◌∙◌, String, ◌==◌, eq_refl, false, some, List, [], ◌∷◌, ◌++◌,
  lookup, All, All-map, All-append, All-split, arith,
}
use jorb.Channel.{Channel}
use jorb.Effect.{Returns, Returns-map}
use jorb.Job.{Job, Time}
use jorb.State.{State}
use jorb.Storage.{Storage}
use jorb.Storage.Lane.{Moves-chan}
use jorb.Storage.Invariant.{Inv, LaneOk, SameStates, Moves-Inv, Moves-SameStates, take-LaneOk}
use jorb.Processor.{Serializer, Return, handle_return}
use jorb.Processor.Registered.{IsRegistered, IsRegistered-SameStates, NeverFails}
use jorb.Processor.Tracking.{TracksOthers, MainOk, handle_return-MainOk}
use jorb.Processor.System.{
  System, count_jobs, count_returns, in_flight, Answers, take_job, Step, take, finish, handle,
  Reach, here, more,
}

-- A return whose states are all registered.
pub record ReturnOk {E L C : Type 0} (s : Storage E L C) (r : Return C) : Type 0 where
  pub prior : IsRegistered s r.prior_state
  pub next : IsRegistered s r.job.state
  pub kicks : All (λ k. IsRegistered s k.state) r.kick_requests

pub record SystemOk {E L W OC C : Type 0} (y : System E L W OC C) : Type 0 where
  pub lanes : Inv (in_flight y) y.main.storage
  pub working : All (λ j. IsRegistered y.main.storage j.state) y.working
  pub returning : All (ReturnOk y.main.storage) y.returning

count_jobs-append :
    {C : Type 0} (k : String) (xs ys : List (Job C))
    → count_jobs k (xs ++ ys) ≡ count_jobs k xs + count_jobs k ys
unfolding count_jobs
count_jobs-append k [] ys = omega arith
count_jobs-append k (x ∷ xs) ys = omega (arith, count_jobs-append k xs ys)

count_returns-append :
    {C : Type 0} (k : String) (xs ys : List (Return C))
    → count_returns k (xs ++ ys) ≡ count_returns k xs + count_returns k ys
unfolding count_returns
count_returns-append k [] ys = omega arith
count_returns-append k (x ∷ xs) ys = omega (arith, count_returns-append k xs ys)

ReturnOk-SameStates :
    {E L C : Type 0} {s t : Storage E L C} (r : Return C)
    → SameStates s t
    → ReturnOk s r
    → ReturnOk t r
ReturnOk-SameStates r same h = record {
  prior = IsRegistered-SameStates r.prior_state same h.prior;
  next = IsRegistered-SameStates r.job.state same h.next;
  kicks = All-map _ _ r.kick_requests (λ k. IsRegistered-SameStates k.state same) h.kicks;
}

module _ {E L W OC C : Type 0} where
  -- The jobs in flight once a return is handled.
  abbrev pub in_flight_after : System E L W OC C → List (Return C) → String → ℕ
  in_flight_after y rest k = count_jobs k y.working + count_returns k rest

  pub handle-MainOk :
      (away : String → Type 0) (serializer : Serializer W C) (now : ℕ → Time)
      (y : System E L W OC C) (r : Return C) (rest : List (Return C))
      → NeverFails serializer
      → y.returning ≡ r ∷ rest
      → SystemOk y
      → TracksOthers away r.job.id y.main.run y.main.storage
      → Returns (handle_return serializer now y.main r) (λ (m, changed).
        SystemOk (record y { main = m; returning = rest })
        × MainOk away (in_flight_after y rest) y.main m)
  unfolding count_returns
  handle-MainOk away serializer now y r rest never e h tracks =
      let (ok_r, ok_rest) = subst (All (ReturnOk y.main.storage)) e h.returning in
      Returns-map _ _ (handle_return serializer now y.main r)
        (handle_return-MainOk away serializer now (in_flight y) (in_flight_after y rest) y.main r
          never ok_r.prior ok_r.next ok_r.kicks (rw (e, eq_refl r.prior_state) (omega arith)) others
          h.lanes tracks)
        λ (m, changed) x. (
          record {
            lanes = x.inv;
            working = All-map _ _ y.working (λ j. IsRegistered-SameStates j.state x.same) h.working;
            returning = All-map _ _ rest (λ q. ReturnOk-SameStates q x.same) ok_rest;
          },
          x,
        )
    where
      others :
          (j : String) → (r.prior_state == j) ≡ false → in_flight_after y rest j ≡ in_flight y j
      others j ne = rw (e, ne) (omega arith)

  pub handle-SystemOk :
      (serializer : Serializer W C) (now : ℕ → Time) (y : System E L W OC C) (r : Return C)
      (rest : List (Return C))
      → NeverFails serializer
      → y.returning ≡ r ∷ rest
      → SystemOk y
      → Returns (handle_return serializer now y.main r) (λ (m, changed).
        SystemOk (record y { main = m; returning = rest }) × SameStates y.main.storage m.storage)
  handle-SystemOk serializer now y r rest never e h =
      Returns-map _ _ (handle_return serializer now y.main r)
        (handle-MainOk (λ i. Unit) serializer now y r rest never e h (λ i j ne l. inr (inr tt)))
        λ (m, changed) (good, x). (good, x.same)

  take-SystemOk :
      (y : System E L W OC C) (k : String) (c : State E L) (ch : Channel (Job C)) (j : Job C)
      (rest : List (Job C))
      → lookup k y.main.storage.state_map ≡ some c
      → lookup k y.main.storage.state_chan ≡ some ch
      → ch.buf ≡ j ∷ rest
      → SystemOk y
      → SystemOk (take_job y k ch j rest)
  unfolding count_jobs
  take-SystemOk y k c ch j rest ec e b h =
      let (l, has, good) = h.lanes.lanes k c ec in
      let same_chan : l.chan ≡ ch = some-injective _ _ (sym has.chan ∙ e) in
      let buf : l.chan.buf ≡ j ∷ rest = ap (λ x. x.buf) same_chan ∙ b in
      let jk : j.state ≡ k = (subst (All (λ i. i.state ≡ k)) buf good.buffered).0 in
      let m = Moves-chan y.main.storage k l (record l.chan { buf = rest }) has in
      subst (λ x. SystemOk (take_job y k x j rest)) same_chan
        (record {
          lanes =
              Moves-Inv (in_flight y) (in_flight (take_job y k l.chan j rest)) _ _ k _ m
                (subst (λ i. LaneOk k i (record l { chan = record l.chan { buf = rest } }))
                  (one_more jk) (take-LaneOk k (in_flight y k) l j rest buf good))
                (others jk) h.lanes;
          working = (subst (IsRegistered y.main.storage) (sym jk) (c, ec), h.working);
          returning =
              All-map _ _ y.returning (λ q. ReturnOk-SameStates q (Moves-SameStates m)) h.returning;
        })
    where
      one_more :
          j.state ≡ k
          → suc (in_flight y k) ≡ count_jobs k (j ∷ y.working) + count_returns k y.returning
      one_more jk = rw (jk, eq_refl k) (omega arith)

      others :
          j.state ≡ k
          → (i : String) → (k == i) ≡ false
          → count_jobs i (j ∷ y.working) + count_returns i y.returning ≡ in_flight y i
      others jk i ne = rw (jk, ne) (omega arith)

  finish-SystemOk :
      (y : System E L W OC C) (before after : List (Job C)) (j : Job C) (r : Return C)
      → y.working ≡ before ++ j ∷ after
      → Answers y.main.storage j r
      → SystemOk y
      → SystemOk (record y { working = before ++ after; returning = y.returning ++ r ∷ [] })
  unfolding count_jobs count_returns
  finish-SystemOk y before after j r e a h = record {
    lanes = subst (λ n. Inv n y.main.storage) (fun_ext same_count) h.lanes;
    working =
        All-append _ before after (All-split _ before (j ∷ after) held).0
          (All-split _ before (j ∷ after) held).1.1;
    returning = All-append _ y.returning (r ∷ []) h.returning (
      record {
        prior =
            subst (IsRegistered y.main.storage) (sym a.prior)
              (All-split _ before (j ∷ after) held).1.0;
        next = a.next;
        kicks = a.kicks;
      },
      tt,
    );
  }
    where
      held : All (λ i. IsRegistered y.main.storage i.state) (before ++ j ∷ after)
      held = subst (All (λ i. IsRegistered y.main.storage i.state)) e h.working

      same_count :
          (k : String)
          → in_flight y k ≡ count_jobs k (before ++ after) + count_returns k (y.returning ++ r ∷ [])
      same_count k =
          rw (e, count_jobs-append, count_jobs-append, count_returns-append, a.prior) (omega arith)

  -- Every step of any goroutine keeps the lanes in order and the states registered.
  pub Step-SystemOk :
      (serializer : Serializer W C) (y z : System E L W OC C)
      → NeverFails serializer
      → Step serializer y z
      → SystemOk y
      → SystemOk z
  Step-SystemOk serializer y z never (take k c ch j rest ec e b free ez) h =
      subst SystemOk (sym ez) (take-SystemOk y k c ch j rest ec e b h)
  Step-SystemOk serializer y z never (finish before after j r e a room ez) h =
      subst SystemOk (sym ez) (finish-SystemOk y before after j r e a h)
  Step-SystemOk serializer y z never (handle now r rest m changed e done ez) h =
      subst SystemOk (sym ez) (
        (subst
          (λ q. Returns q (λ (t, b).
            SystemOk (record y { main = t; returning = rest })
            × SameStates y.main.storage t.storage))
          done (handle-SystemOk serializer now y r rest never e h)).0)

  -- Whatever the order in which workers and the main goroutine move, after any number of steps from a
  -- system in order, with a serializer that does not fail: for each registered state the executing
  -- count is the number of jobs in its channel, with workers and on their way back, and at most the
  -- concurrency; the waiting count is the length of its queue; jobs wait only when every place is
  -- taken; and every job stands in the lane of its own state.
  pub Reach-SystemOk :
      (serializer : Serializer W C) (y z : System E L W OC C)
      → NeverFails serializer
      → Reach serializer y z
      → SystemOk y
      → SystemOk z
  Reach-SystemOk serializer y z never here h = h
  Reach-SystemOk serializer y z never (more {z = x} path step) h =
      Step-SystemOk serializer x z never step (Reach-SystemOk serializer y x never path h)
