-- ===== src/Storage/Holds.antt =====
-- Which jobs stand in the lanes of the storage: no method of the storage loses one.
use mathlib.Core.Option.{some-injective}
use jorb.Base.{
  ℕ, suc, ◌≡◌, refl, sym, subst, ap, ◌∙◌, inl, inr, ◌⊎◌, Bool-cases, String-cases, String, ◌==◌,
  false, some, List, [], ◌∷◌, lookup, ltb_ℤ, Any, Any-append_left, Any-append_right,
}
use jorb.Job.{Job}
use jorb.State.{State}
use jorb.Effect.{Returns, Returns-map}
use jorb.Storage.{Storage, split_last, process_job, run_next_waiting_job, is_terminal}
use jorb.Storage.Lane.{Lane, HasLane, put, enqueue, release, admit, start_last, next, Moves}
use jorb.Storage.Refine.{process_job-Moves, run_next_waiting_job-Moves}
use jorb.Storage.Invariant.{
  Inv, SameStates, admit_cases, admit-LaneOk, next-LaneOk, Moves-Inv, Moves-SameStates, LaneOk,
  room_to_run, room_to_start,
}

split_last-Any :
    {C : Type 0} (P : Job C → Type 0) (x : Job C) (xs : List (Job C))
    → Any P (x ∷ xs)
    → P (split_last x xs).0 ⊎ Any P (split_last x xs).1
unfolding split_last
split_last-Any P x [] (inl p) = inl p
split_last-Any P x [] (inr a) = elim a [ ]
split_last-Any P x (y ∷ ys) (inl p) = inr (inl p)
split_last-Any P x (y ∷ ys) (inr a) = elim (split_last-Any P y ys a) [
  | inl p ↦ inl p
  | inr b ↦ inr (inr b)
]

abbrev pub HasId : {C : Type 0} → String → Job C → Type 0
HasId i j = j.id ≡ i

module _ {E L C : Type 0} (i : String) where
  -- The lane has the job in its channel or in its queue.
  abbrev pub InLane : Lane E L C → Type 0
  InLane l = Any (HasId i) l.chan.buf ⊎ Any (HasId i) l.queue

  abbrev pub Holds : Storage E L C → Type 0
  Holds s = (k : String) × (l : Lane E L C) × HasLane s k l × InLane l

  pub same_lane :
      (s : Storage E L C) (k : String) (l m : Lane E L C)
      → HasLane s k l
      → HasLane s k m
      → InLane l
      → InLane m
  same_lane s k l m h g (inl a) =
      inl (subst (Any (HasId i)) (ap (λ c. c.buf) (some-injective _ _ (sym h.chan ∙ g.chan))) a)
  same_lane s k l m h g (inr a) = inr (subst (Any (HasId i)) (sym h.queue ∙ g.queue) a)

  -- `Q` tells of a job that may leave the lane.
  pub Moves-Holds_or :
      (Q : Type 0) (s t : Storage E L C) (k : String) (l m : Lane E L C)
      → HasLane s k l
      → Moves s k m t
      → (InLane l → InLane m ⊎ Q)
      → Holds s
      → Holds t ⊎ Q
  Moves-Holds_or Q s t k l m h v f (j, n, g, a) = elim (String-cases k j) [
    | inl p ↦ elim (f (same_lane s k n l (subst (λ x. HasLane s x n) (sym p) g) h a)) [
      | inl b ↦ inl (k, m, v.here, b)
      | inr q ↦ inr q
    ]
    | inr ne ↦ inl (j, n, v.others j n ne g, a)
  ]

  Moves-Holds :
      (s t : Storage E L C) (k : String) (l m : Lane E L C)
      → HasLane s k l
      → Moves s k m t
      → (InLane l → InLane m)
      → Holds s
      → Holds t
  Moves-Holds s t k l m h v f a = elim (Moves-Holds_or ⊥ s t k l m h v (λ b. inl (f b)) a) [
    | inl b ↦ b
    | inr q ↦ elim q [ ]
  ]

  admit-InLane : (l : Lane E L C) (job : Job C) → InLane l → InLane (admit l job)
  admit-InLane l job a = admit_cases InLane l job a (put_one a) (enqueue_one a)
    where
      put_one : InLane l → InLane (put l job)
      put_one (inl b) = inl (Any-append_left (HasId i) l.chan.buf (job ∷ []) b)
      put_one (inr b) = inr b

      enqueue_one : InLane l → InLane (enqueue l job)
      enqueue_one (inl b) = inl b
      enqueue_one (inr b) = inr (inr b)

  admitted-InLane :
      (l : Lane E L C) (job : Job C)
      → l.config.terminal ≡ false
      → HasId i job
      → InLane (admit l job)
  unfolding admit
  admitted-InLane l job t e = elim (Bool-cases (ltb_ℤ l.status.executing l.config.concurrency)) [
    | inl free ↦ simp (t, free) (inl (Any-append_right (HasId i) l.chan.buf (job ∷ []) (inl e)))
    | inr full ↦ simp (t, full) (inr (inl e))
  ]

  start_last-InLane :
      (l : Lane E L C) (waits : List (Job C))
      → waits ≡ l.queue
      → InLane l
      → InLane (start_last (release l) waits)
  start_last-InLane l [] e a = a
  start_last-InLane l (x ∷ xs) e (inl a) =
      inl (Any-append_left (HasId i) l.chan.buf ((split_last x xs).0 ∷ []) a)
  start_last-InLane l (x ∷ xs) e (inr a) =
      elim (split_last-Any (HasId i) x xs (subst (Any (HasId i)) (sym e) a)) [
        | inl p ↦ inl (Any-append_right (HasId i) l.chan.buf ((split_last x xs).0 ∷ []) (inl p))
        | inr b ↦ inr b
      ]

  next-InLane : (l : Lane E L C) → InLane l → InLane (next l)
  unfolding next
  next-InLane l a = start_last-InLane l l.queue refl a

-- What a method that admits `job` does: every lane stays in order, none loses a job, and the job stands
-- in a lane unless its state is terminal.
pub record Admits {E L C : Type 0} (n : String → ℕ) (s : Storage E L C) (job : Job C)
    (t : Storage E L C) : Type 0 where
  pub inv : Inv n t
  pub same : SameStates s t
  pub keeps : (i : String) → Holds i s → Holds i t
  pub adds : is_terminal s job ≡ false → Holds job.id t

module _ {E L C : Type 0} where
  pub process_job-Admits :
      (n : String → ℕ) (s : Storage E L C) (job : Job C) (c : State E L)
      → lookup job.state s.state_map ≡ some c
      → Inv n s
      → Returns (process_job s job) (Admits n s job)
  unfolding is_terminal
  process_job-Admits n s job c e h =
      let (l, has, good) = h.lanes job.state c e in
      Returns-map _ _ (process_job s job)
        (process_job-Moves s job l has good.is_open (room_to_run job.state _ l good))
        λ t m. record {
          inv =
              Moves-Inv n n s t job.state _ m (admit-LaneOk job.state (n job.state) l job refl good)
                (λ j ne. refl) h;
          same = Moves-SameStates m;
          keeps = λ i. Moves-Holds i s t job.state l (admit l job) has m (admit-InLane i l job);
          adds = λ live. (
            job.state,
            admit l job,
            m.here,
            admitted-InLane job.id l job (rw has.config at live) refl,
          );
        }

  pub run_next_waiting_job-Holds :
      (n n' : String → ℕ) (s : Storage E L C) (k : String) (c : State E L)
      → lookup k s.state_map ≡ some c
      → n k ≡ suc (n' k)
      → ((j : String) → (k == j) ≡ false → n' j ≡ n j)
      → Inv n s
      → Returns
          (run_next_waiting_job s k)
          (λ t. Inv n' t × SameStates s t × ((i : String) → Holds i s → Holds i t))
  run_next_waiting_job-Holds n n' s k c e one same h =
      let (l, has, good) = h.lanes k c e in
      let good' = subst (λ i. LaneOk k i l) one good in
      Returns-map _ _ (run_next_waiting_job s k)
        (run_next_waiting_job-Moves s k l has good.is_open (room_to_start k (n' k) l good')
          good.queued)
        λ t m. (
          Moves-Inv n n' s t k _ m (next-LaneOk k (n' k) l good') same h,
          Moves-SameStates m,
          λ i. Moves-Holds i s t k l (next l) has m (next-InLane i l),
        )
