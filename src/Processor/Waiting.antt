-- ===== src/Processor/Waiting.antt =====
-- The main goroutine never waits for a return that cannot come.
use jorb.Base.{
  ◌≡◌, refl, sym, ap, ◌∙◌, ◌⊎◌, inl, inr, Bool, Bool-cases, ◌&&◌, not, String, ◌==◌, true, false,
  none, some, List, [], ◌∷◌, lookup, Distinct, Dict, Any, any_of, all_of, pos, length, ltb_ℤ, ◌≤◌,
  ◌≤ℤ◌, arith, eq_iff, eq_refl,
}
use jorb.Job.{Job}
use jorb.Storage.{is_terminal}
use jorb.Storage.Lane.{Lane}
use jorb.Storage.Invariant.{LaneOk}
use jorb.Storage.Holds.{HasId, InLane, Holds, same_lane}
use jorb.Storage.Status.{all_jobs_are_terminal, has_executing_jobs}
use jorb.Processor.{Serializer, Return}
use jorb.Processor.Registered.{NeverFails}
use jorb.Processor.Tracking.{Found}
use jorb.Processor.System.{System, in_flight, Step}
use jorb.Processor.Safety.{SystemOk}
use jorb.Processor.Progress.{progress, handle_next, finish_next}
use jorb.Processor.Finishing.{Away, Tracked}

Any-length : {A : Type 0} (P : A → Type 0) (xs : List A) → Any P xs → 1 ≤ length xs
Any-length P [] a = elim a [ ]
Any-length P (x ∷ xs) a = omega arith

module _ {V : Type 0} where
  later_entry :
      (k i : String) (v w : V) (m : Dict V)
      → lookup k m ≡ none
      → lookup i m ≡ some w
      → lookup i ((k, v) ∷ m) ≡ some w
  unfolding lookup
  later_entry k i v w m absent found = elim (Bool-cases (k == i)) [
    | inl same ↦
        let p : k ≡ i = (eq_iff k i).0 same in
        let wrong : none ≡ some w = sym absent ∙ ap (λ x. lookup x m) p ∙ found in cc (wrong)
    | inr other ↦ rw other found
  ]

  -- Of a map in which no key stands twice, some value is found that has the property.
  some_entry :
      (p : V → Bool) (m : Dict V)
      → Distinct m
      → any_of (λ (k, v). p v) m ≡ true
      → (k : String) × (v : V) × (lookup k m ≡ some v) × (p v ≡ true)
  unfolding lookup
  some_entry p [] d e = cc
  some_entry p ((k, v) ∷ m) (absent, d) e = elim (Bool-cases (p v)) [
    | inl yes_v ↦ (k, v, rw (eq_refl k) refl, yes_v)
    | inr no_v ↦
        let (i, w, found, q) = some_entry p m d (rw no_v at e) in
        (i, w, later_entry k i v w m absent found, q)
  ]

  not_all :
      (p : V → Bool) (m : Dict V)
      → all_of (λ (k, v). p v) m ≡ false
      → any_of (λ (k, v). not (p v)) m ≡ true
  not_all p [] e = cc
  not_all p ((k, v) ∷ m) e = elim (Bool-cases (p v)) [
    | inl q ↦ rw q (not_all p m (rw q at e))
    | inr q ↦ rw q refl
  ]

module _ {E L W OC C : Type 0} (serializer : Serializer W C) (never : NeverFails serializer)
    (y : System E L W OC C) (h : SystemOk y) where
  abbrev Moving : Type 0
  Moving = (z : System E L W OC C) × Step serializer y z

  executing_moves : has_executing_jobs y.main.storage ≡ true → Moving
  unfolding has_executing_jobs
  executing_moves e =
      let (k, c, found, positive) =
        some_entry (λ count. ltb_ℤ (pos 0) count.executing) y.main.storage.state_status_map
          h.lanes.distinct e in
      let (d, known) = h.lanes.counted k c found in
      progress serializer never y k d c h known found (inl (ground (arith, positive)))

  lane_moves : (i : String) → Holds i y.main.storage → Moving
  lane_moves i (k, l, has, a) =
      let (m, has', good) = h.lanes.lanes k l.config has.config in
      progress serializer never y k l.config m.status h has.config has'.status
        (work m good (same_lane i y.main.storage k l m has has' a))
    where
      work :
          (m : Lane E L C)
          → LaneOk k (in_flight y k) m
          → InLane i m
          → (pos 1 ≤ℤ m.status.executing) ⊎ (pos 1 ≤ℤ m.status.waiting)
      work m good (inl a) = inl (ground (arith, good.executing, Any-length (HasId i) m.chan.buf a))
      work m good (inr a) = inr (ground (arith, good.waiting, Any-length (HasId i) m.queue a))

  away_moves : (i : String) → Away y i → Moving
  away_moves i a = go y.working y.returning refl refl a
    where
      go :
          (ws : List (Job C)) (rs : List (Return C))
          → y.working ≡ ws
          → y.returning ≡ rs
          → Any (HasId i) ws ⊎ Any (λ (q : Return C). q.job.id ≡ i) rs
          → Moving
      go ws (r ∷ rs) e f b = handle_next serializer never y r rs f h
      go (w ∷ ws) [] e f b = finish_next serializer never y w ws e f h
      go [] [] e f (inl b) = elim b [ ]
      go [] [] e f (inr b) = elim b [ ]

  job_moves :
      (i : String) (j : Job C)
      → is_terminal y.main.storage j ≡ false
      → Found (Away y) y.main.storage i j
      → Moving
  job_moves i j live (inl t) = cc
  job_moves i j live (inr (inl b)) = lane_moves i b
  job_moves i j live (inr (inr b)) = away_moves i b

  unfinished_moves : Tracked y → all_jobs_are_terminal y.main.storage y.main.run ≡ false → Moving
  unfolding all_jobs_are_terminal
  unfinished_moves t e =
      let (i, j, found, live) =
        some_entry (λ j. not (is_terminal y.main.storage j)) y.main.run.jobs t.distinct
          (not_all (λ j. is_terminal y.main.storage j) y.main.run.jobs e) in
      job_moves i j (ground (arith, live)) (t.tracks i j found)

  pub waits_never :
      Tracked y
      → (all_jobs_are_terminal y.main.storage y.main.run && not (has_executing_jobs y.main.storage))
        ≡ false
      → (z : System E L W OC C) × Step serializer y z
  waits_never t e = elim (Bool-cases (has_executing_jobs y.main.storage)) [
    | inl b ↦ executing_moves b
    | inr b ↦ unfinished_moves t (ground (arith, b, e))
  ]
