-- ===== src/Storage/Invariant.antt =====
-- What holds of the storage between two steps of the main goroutine.
use jorb.Base.{
  ℕ, suc, ◌+◌, ◌≤◌, ◌<◌, ◌≡◌, refl, ap, sym, subst, ◌∙◌, inl, inr, Bool-cases, String-cases, String,
  ◌==◌, true, false, some, List, [], ◌∷◌, ◌++◌, pos, pos_part, ltb_ℤ, lookup, Distinct, length,
  length-append, All, All-append, arith,
}
use jorb.Job.{Job}
use jorb.State.{State, StatusCount}
use jorb.Effect.{Returns, Returns-map}
use jorb.Storage.{Storage, split_last, process_job, run_next_waiting_job}
use jorb.Storage.Lane.{
  Lane, HasLane, put, enqueue, complete, release, admit, start_last, next, Moves,
}
use jorb.Storage.Refine.{split_last-All, process_job-Moves, run_next_waiting_job-Moves}

-- The lane of state `k`, when `n` of its jobs are with a worker or on their way back.
pub record LaneOk {E L C : Type 0} (k : String) (n : ℕ) (l : Lane E L C) : Type 0 where
  pub is_open : l.chan.closed ≡ false
  pub capacity : l.chan.cap ≡ pos_part l.config.concurrency
  pub executing : l.status.executing ≡ pos (length l.chan.buf + n)
  pub waiting : l.status.waiting ≡ pos (length l.queue)
  pub bounded : length l.chan.buf + n ≤ l.chan.cap
  pub busy : 0 < length l.queue → length l.chan.buf + n ≡ l.chan.cap
  pub workable : l.config.terminal ≡ false → 0 < l.chan.cap
  pub idle : l.config.terminal ≡ true → length l.chan.buf + n + length l.queue ≡ 0
  pub queued : All (λ j. j.state ≡ k) l.queue
  pub buffered : All (λ j. j.state ≡ k) l.chan.buf

length-split_last :
    {C : Type 0} (x : Job C) (xs : List (Job C)) → length (split_last x xs).1 ≡ length xs
unfolding split_last
length-split_last x [] = refl
length-split_last x (y ∷ ys) = ap suc (length-split_last y ys)

pub admit_cases :
    {E L C : Type 0} (P : Lane E L C → Type 0) (l : Lane E L C) (job : Job C)
    → P (complete l)
    → P (put l job)
    → P (enqueue l job)
    → P (admit l job)
unfolding admit
admit_cases P l job a b c = elim (Bool-cases l.config.terminal) [
  | inl t ↦ simp t a
  | inr t ↦ elim (Bool-cases (ltb_ℤ l.status.executing l.config.concurrency)) [
    | inl e ↦ simp (t, e) b
    | inr e ↦ simp (t, e) c
  ]
]

module _ {E L C : Type 0} (k : String) where
  pub admit-LaneOk :
      (n : ℕ) (l : Lane E L C) (job : Job C)
      → job.state ≡ k
      → LaneOk k n l
      → LaneOk k n (admit l job)
  unfolding admit
  admit-LaneOk n l job e h = record {
    is_open = ground arith;
    capacity = ground arith;
    executing = ground (arith, length-append l.chan.buf (job ∷ []));
    waiting = ground arith;
    bounded = ground (arith, length-append l.chan.buf (job ∷ []));
    busy = ground (arith, length-append l.chan.buf (job ∷ []));
    workable = ground arith;
    idle = ground (arith, length-append l.chan.buf (job ∷ []));
    queued = ground arith;
    buffered =
        admit_cases (λ m. All (λ j. j.state ≡ k) m.chan.buf) l job h.buffered more h.buffered;
  }
    where
      more : All (λ j. j.state ≡ k) (l.chan.buf ++ job ∷ [])
      more = All-append (λ j. j.state ≡ k) l.chan.buf (job ∷ []) h.buffered (e, tt)

  start_last-LaneOk :
      (n : ℕ) (l : Lane E L C) (waits : List (Job C))
      → waits ≡ l.queue
      → LaneOk k (suc n) l
      → LaneOk k n (start_last (release l) waits)
  start_last-LaneOk n l [] e h = record {
    is_open = h.is_open;
    capacity = h.capacity;
    executing = ground (arith, h.executing);
    waiting = h.waiting;
    bounded = omega (arith, h.bounded);
    busy = ground (arith, h.busy);
    workable = h.workable;
    idle = ground (arith, h.idle);
    queued = h.queued;
    buffered = h.buffered;
  }
  start_last-LaneOk n l (x ∷ xs) e h = record {
    is_open = h.is_open;
    capacity = h.capacity;
    executing = ground (arith, h.executing, length-append l.chan.buf ((split_last x xs).0 ∷ []));
    waiting = ground (arith, h.waiting, length-split_last x xs);
    bounded = omega (arith, h.bounded, length-append l.chan.buf ((split_last x xs).0 ∷ []));
    busy = ground (arith, h.busy, length-append l.chan.buf ((split_last x xs).0 ∷ []));
    workable = h.workable;
    idle = ground (arith, h.idle);
    queued = parts.1;
    buffered = All-append (λ j. j.state ≡ k) l.chan.buf _ h.buffered (parts.0, tt);
  }
    where
      all : All (λ j. j.state ≡ k) (x ∷ xs)
      all = subst (All (λ j. j.state ≡ k)) (sym e) h.queued

      parts : ((split_last x xs).0.state ≡ k) × All (λ j. j.state ≡ k) (split_last x xs).1
      parts = split_last-All (λ j. j.state ≡ k) x xs all.0 all.1

  pub next-LaneOk : (n : ℕ) (l : Lane E L C) → LaneOk k (suc n) l → LaneOk k n (next l)
  unfolding next
  next-LaneOk n l h = start_last-LaneOk n l l.queue refl h

-- A worker takes the oldest job of the channel: one more is in flight.
pub take-LaneOk :
    {E L C : Type 0} (k : String) (n : ℕ) (l : Lane E L C) (j : Job C) (rest : List (Job C))
    → l.chan.buf ≡ j ∷ rest
    → LaneOk k n l
    → LaneOk k (suc n) (record l { chan = record l.chan { buf = rest } })
take-LaneOk k n l j rest e h = record {
  is_open = h.is_open;
  capacity = h.capacity;
  executing = h.executing ∙ ap pos (omega (arith, ap length e));
  waiting = h.waiting;
  bounded = omega (arith, h.bounded, ap length e);
  busy = λ q. omega (arith, h.busy q, ap length e);
  workable = h.workable;
  idle = λ t. omega (arith, h.idle t, ap length e);
  queued = h.queued;
  buffered = (subst (All (λ i. i.state ≡ k)) e h.buffered).1;
}

-- Every registered state has a lane in order; `n k` jobs of state `k` are in flight. Only registered
-- states are counted, each once.
pub record Inv {E L C : Type 0} (n : String → ℕ) (s : Storage E L C) : Type 0 where
  pub lanes :
      (k : String) (c : State E L)
      → lookup k s.state_map ≡ some c
      → (l : Lane E L C) × HasLane s k l × LaneOk k (n k) l
  pub counted :
      (k : String) (c : StatusCount)
      → lookup k s.state_status_map ≡ some c
      → (d : State E L) × (lookup k s.state_map ≡ some d)
  pub distinct : Distinct s.state_status_map

pub record SameStates {E L C : Type 0} (s t : Storage E L C) : Type 0 where
  pub states : t.states ≡ s.states
  pub state_map : t.state_map ≡ s.state_map
  pub names : t.sorted_state_names ≡ s.sorted_state_names

module _ {E L C : Type 0} where
  pub Moves-SameStates :
      {s t : Storage E L C} {k : String} {l : Lane E L C} → Moves s k l t → SameStates s t
  Moves-SameStates m = record { states = m.states; state_map = m.state_map; names = m.names }

  pub Moves-Inv :
      (n n' : String → ℕ) (s t : Storage E L C) (k : String) (l : Lane E L C)
      → Moves s k l t
      → LaneOk k (n' k) l
      → ((j : String) → (k == j) ≡ false → n' j ≡ n j)
      → Inv n s
      → Inv n' t
  Moves-Inv n n' s t k l m ok same h = record {
    lanes = λ j c e. elim (String-cases k j) [
      | inl p ↦
          subst (λ i. (l' : Lane E L C) × HasLane t i l' × LaneOk i (n' i) l') p (l, m.here, ok)
      | inr ne ↦
          let (l', has, good) = h.lanes j c (sym (ap (lookup j) m.state_map) ∙ e) in
          (l', m.others j l' ne has, subst (λ i. LaneOk j i l') (sym (same j ne)) good)
    ];
    counted = λ j c e. elim (String-cases k j) [
      | inl p ↦ (l.config, subst (λ i. lookup i t.state_map ≡ some l.config) p m.here.config)
      | inr ne ↦
          let (d, f) = h.counted j c (sym (m.counts j ne) ∙ e) in (d, ap (lookup j) m.state_map ∙ f)
    ];
    distinct = m.distinct h.distinct;
  }

  pub room_to_run :
      (k : String) (n : ℕ) (l : Lane E L C)
      → LaneOk k n l
      → ltb_ℤ l.status.executing l.config.concurrency ≡ true
      → length l.chan.buf < l.chan.cap
  room_to_run k n l h e = ground (arith, h.executing, h.capacity)

  pub room_to_start :
      (k : String) (n : ℕ) (l : Lane E L C) → LaneOk k (suc n) l → length l.chan.buf < l.chan.cap
  room_to_start k n l h = omega (arith, h.bounded)

  -- A job of a registered state is always taken in: the main goroutine neither panics nor waits at
  -- the state's channel.
  pub process_job-Inv :
      (n : String → ℕ) (s : Storage E L C) (job : Job C) (c : State E L)
      → lookup job.state s.state_map ≡ some c
      → Inv n s
      → Returns (process_job s job) (λ t. Inv n t × SameStates s t)
  process_job-Inv n s job c e h =
      let (l, has, good) = h.lanes job.state c e in
      Returns-map _ _ (process_job s job)
        (process_job-Moves s job l has good.is_open (room_to_run job.state _ l good))
        λ t m. (
          Moves-Inv n n s t job.state _ m (admit-LaneOk job.state (n job.state) l job refl good)
              (λ j ne. refl) h,
          Moves-SameStates m,
        )

  pub run_next_waiting_job-Inv :
      (n n' : String → ℕ) (s : Storage E L C) (k : String) (c : State E L)
      → lookup k s.state_map ≡ some c
      → n k ≡ suc (n' k)
      → ((j : String) → (k == j) ≡ false → n' j ≡ n j)
      → Inv n s
      → Returns (run_next_waiting_job s k) (λ t. Inv n' t × SameStates s t)
  run_next_waiting_job-Inv n n' s k c e one same h =
      let (l, has, good) = h.lanes k c e in
      let good' = subst (λ i. LaneOk k i l) one good in
      Returns-map _ _ (run_next_waiting_job s k)
        (run_next_waiting_job-Moves s k l has good.is_open (room_to_start k (n' k) l good')
          good.queued)
        λ t m. (Moves-Inv n n' s t k _ m (next-LaneOk k (n' k) l good') same h, Moves-SameStates m)
