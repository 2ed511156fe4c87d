-- ===== src/Processor/Finishing.antt =====
-- The main goroutine never waits for a return that cannot come: while a job of the run is not done, or
-- one executes, some goroutine can move.
use mathlib.Core.Option.{some-injective}
use jorb.Base.{
  ℕ, ◌≡◌, refl, sym, subst, ap, ◌∙◌, ◌⊎◌, inl, inr, String, ◌==◌, false, some, List, [], ◌∷◌, ◌++◌,
  lookup, Distinct, Any, Any-append_left, Any-append_right, Any-split, arith, eq_iff,
}
use jorb.Channel.{Channel}
use jorb.Effect.{Returns, Returns-map}
use jorb.Job.{Job, Time}
use jorb.State.{State}
use jorb.Storage.{is_terminal}
use jorb.Storage.Lane.{Lane, HasLane, Moves-chan}
use jorb.Storage.Holds.{HasId, InLane, Holds, Moves-Holds_or}
use jorb.Processor.{Serializer, Return, handle_return}
use jorb.Processor.Registered.{NeverFails}
use jorb.Processor.Tracking.{Found, Tracks, TracksOthers}
use jorb.Processor.System.{System, take_job, Step, take, finish, handle, Reach, here, more}
use jorb.Processor.Safety.{SystemOk, handle-MainOk, Step-SystemOk}

module _ {E L W OC C : Type 0} where
  -- A worker has the job, or it is on its way back.
  abbrev pub Away : System E L W OC C → String → Type 0
  Away y i = Any (HasId i) y.working ⊎ Any (λ r. r.job.id ≡ i) y.returning

  -- Each job of the run is in a terminal state, or in a lane, or away.
  pub record Tracked (y : System E L W OC C) : Type 0 where
    pub tracks : Tracks (Away y) y.main.run y.main.storage
    pub distinct : Distinct y.main.run.jobs

  -- What the next system must do with a job that is not terminal.
  moved :
      (y z : System E L W OC C)
      → z.main.run ≡ y.main.run
      → z.main.storage.state_map ≡ y.main.storage.state_map
      → ((i : String) → Holds i y.main.storage ⊎ Away y i → Holds i z.main.storage ⊎ Away z i)
      → Tracked y
      → Tracked z
  unfolding is_terminal
  moved y z same states f h = record {
    tracks = λ i j e. go i j (h.tracks i j (ap (λ r. lookup i r.jobs) (sym same) ∙ e));
    distinct = subst (λ r. Distinct r.jobs) (sym same) h.distinct;
  }
    where
      go :
          (i : String) (j : Job C)
          → Found (Away y) y.main.storage i j
          → Found (Away z) z.main.storage i j
      go i j (inl e) = inl (rw states e)
      go i j (inr a) = inr (f i a)

  take-Tracked :
      (y : System E L W OC C) (k : String) (c : State E L) (ch : Channel (Job C)) (j : Job C)
      (rest : List (Job C))
      → lookup k y.main.storage.state_map ≡ some c
      → lookup k y.main.storage.state_chan ≡ some ch
      → ch.buf ≡ j ∷ rest
      → SystemOk y
      → Tracked y
      → Tracked (take_job y k ch j rest)
  take-Tracked y k c ch j rest ec e b h tracked =
      let (l, has, good) = h.lanes.lanes k c ec in
      let same_chan : l.chan ≡ ch = some-injective _ _ (sym has.chan ∙ e) in
      let buf : l.chan.buf ≡ j ∷ rest = ap (λ x. x.buf) same_chan ∙ b in
      subst (λ x. Tracked (take_job y k x j rest)) same_chan
        (moved y (take_job y k l.chan j rest) refl refl (λ i a. follow i l has buf a) tracked)
    where
      leave :
          (i : String) (l : Lane E L C)
          → l.chan.buf ≡ j ∷ rest
          → InLane i l
          → InLane i (record l { chan = record l.chan { buf = rest } }) ⊎ (j.id ≡ i)
      leave i l buf (inr q) = inl (inr q)
      leave i l buf (inl a) = elim (subst (Any (HasId i)) buf a) [
        | inl p ↦ inr p
        | inr later ↦ inl (inl later)
      ]

      follow :
          (i : String) (l : Lane E L C)
          → HasLane y.main.storage k l
          → l.chan.buf ≡ j ∷ rest
          → Holds i y.main.storage ⊎ Away y i
          → Holds i (take_job y k l.chan j rest).main.storage ⊎ Away (take_job y k l.chan j rest) i
      follow i l has buf (inr (inl a)) = inr (inl (inr a))
      follow i l has buf (inr (inr a)) = inr (inr a)
      follow i l has buf (inl a) =
          elim (Moves-Holds_or i (j.id ≡ i) y.main.storage _ k l _ has
            (Moves-chan y.main.storage k l (record l.chan { buf = rest }) has) (leave i l buf) a) [
              | inl b ↦ inl b
              | inr p ↦ inr (inl (inl p))
            ]

  finish-Tracked :
      (y : System E L W OC C) (before after : List (Job C)) (j : Job C) (r : Return C)
      → y.working ≡ before ++ j ∷ after
      → r.job.id ≡ j.id
      → Tracked y
      → Tracked (record y { working = before ++ after; returning = y.returning ++ r ∷ [] })
  finish-Tracked y before after j r e same h = moved y _ refl refl (λ i a. follow i a) h
    where
      follow :
          (i : String)
          → Holds i y.main.storage ⊎ Away y i
          → Holds i y.main.storage
            ⊎ Any (HasId i) (before ++ after)
            ⊎ Any (λ (q : Return C). q.job.id ≡ i) (y.returning ++ r ∷ [])
      follow i (inl a) = inl a
      follow i (inr (inr a)) = inr (inr (Any-append_left _ y.returning (r ∷ []) a))
      follow i (inr (inl a)) =
          elim (Any-split (HasId i) before (j ∷ after) (subst (Any (HasId i)) e a)) [
            | inl b ↦ inr (inl (Any-append_left (HasId i) before after b))
            | inr (inl p) ↦ inr (inr (Any-append_right _ y.returning (r ∷ []) (inl (same ∙ p))))
            | inr (inr b) ↦ inr (inl (Any-append_right (HasId i) before after b))
          ]

  handle-Tracked :
      (serializer : Serializer W C) (now : ℕ → Time) (y : System E L W OC C) (r : Return C)
      (rest : List (Return C))
      → NeverFails serializer
      → y.returning ≡ r ∷ rest
      → SystemOk y
      → Tracked y
      → Returns
          (handle_return serializer now y.main r)
          (λ (m, changed). Tracked (record y { main = m; returning = rest }))
  handle-Tracked serializer now y r rest never e h tracked =
      Returns-map _ _ (handle_return serializer now y.main r)
        (handle-MainOk away serializer now y r rest never e h others)
        λ (m, changed) (good, x). record {
          tracks = x.tracks;
          distinct = x.distinct tracked.distinct;
        }
    where
      away : String → Type 0
      away i = Any (HasId i) y.working ⊎ Any (λ (q : Return C). q.job.id ≡ i) rest

      still :
          (i : String) (j : Job C)
          → (r.job.id == i) ≡ false
          → Found (Away y) y.main.storage i j
          → Found away y.main.storage i j
      still i j ne (inl t) = inl t
      still i j ne (inr (inl a)) = inr (inl a)
      still i j ne (inr (inr (inl a))) = inr (inr (inl a))
      still i j ne (inr (inr (inr a))) = elim (subst (Any (λ (q : Return C). q.job.id ≡ i)) e a) [
        | inl p ↦ absurd (ground (arith, eq_iff r.job.id i, p, ne))
        | inr b ↦ inr (inr (inr b))
      ]

      others : TracksOthers away r.job.id y.main.run y.main.storage
      others i j ne l = still i j ne (tracked.tracks i j l)

  pub Step-Tracked :
      (serializer : Serializer W C) (y z : System E L W OC C)
      → NeverFails serializer
      → Step serializer y z
      → SystemOk y
      → Tracked y
      → Tracked z
  Step-Tracked serializer y z never (take k c ch j rest ec e b free ez) h t =
      subst Tracked (sym ez) (take-Tracked y k c ch j rest ec e b h t)
  Step-Tracked serializer y z never (finish before after j r e a room ez) h t =
      subst Tracked (sym ez) (finish-Tracked y before after j r e a.same_id t)
  Step-Tracked serializer y z never (handle now r rest m changed e done ez) h t =
      subst Tracked (sym ez) (
        subst (λ q. Returns q (λ (m, b). Tracked (record y { main = m; returning = rest }))) done
          (handle-Tracked serializer now y r rest never e h t))

  pub Reach-Tracked :
      (serializer : Serializer W C) (y z : System E L W OC C)
      → NeverFails serializer
      → Reach serializer y z
      → SystemOk y
      → Tracked y
      → SystemOk z × Tracked z
  Reach-Tracked serializer y z never here h t = (h, t)
  Reach-Tracked serializer y z never (more {z = x} path step) h t =
      let (good, tracked) = Reach-Tracked serializer y x never path h t in
      (
        Step-SystemOk serializer x z never step good,
        Step-Tracked serializer x z never step good tracked,
      )
