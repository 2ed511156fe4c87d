-- ===== src/Storage/Refine.antt =====
-- Each method of the storage acts on one lane, as the functions on lanes say.
use jorb.Base.{
  ◌<◌, ◌≡◌, subst, inl, inr, Bool-cases, String, true, false, List, [], ◌∷◌, inc, dec, ltb_ℤ,
  insert, length, All, arith, ltb,
}
use jorb.Effect.{Returns, Returns-map}
use jorb.Channel.{send}
use jorb.Job.{Job}
use jorb.State.{StatusCount}
use jorb.Storage.{
  Storage, split_last, run_job, queue_job, complete_job, is_terminal, can_run_job_for_state,
  process_job, start, run_last, run_next_waiting_job,
}
use jorb.Storage.Lane.{
  Lane, HasLane, put, enqueue, complete, release, admit, start_last, next, Moves, Moves-status,
  Moves-chan, Moves-queue, Moves-trans, Moves-refl,
}

-- The oldest waiting job belongs to the lane, and the others that wait do too.
pub split_last-All :
    {C : Type 0} (P : Job C → Type 0) (x : Job C) (xs : List (Job C))
    → P x
    → All P xs
    → P (split_last x xs).0 × All P (split_last x xs).1
unfolding split_last
split_last-All P x [] h hs = (h, tt)
split_last-All P x (y ∷ ys) h hs = let r = split_last-All P y ys hs.0 hs.1 in (r.0, (h, r.1))

module _ {E L C : Type 0} where
  pub run_job-Moves :
      (s : Storage E L C) (job : Job C) (l : Lane E L C)
      → HasLane s job.state l
      → l.chan.closed ≡ false
      → length l.chan.buf < l.chan.cap
      → Returns (run_job s job) (Moves s job.state (put l job))
  unfolding run_job send
  run_job-Moves s job l h o f =
      rw (h.status, h.chan, o, room)
        (Moves-trans first (Moves-chan _ job.state (record l { status = count }) _ first.here))
    where
      room : ltb (length l.chan.buf) l.chan.cap ≡ true
      room = ground arith

      count : StatusCount
      count = record l.status { executing = inc l.status.executing }

      first :
          Moves s job.state
            (record l { status = count })
            (record s { state_status_map = insert job.state count s.state_status_map })
      first = Moves-status s job.state l count h

  queue_job-Moves :
      (s : Storage E L C) (job : Job C) (l : Lane E L C)
      → HasLane s job.state l
      → Returns (queue_job s job) (Moves s job.state (enqueue l job))
  unfolding queue_job
  queue_job-Moves s job l h =
      rw (h.status, h.queue)
        (Moves-trans first
          (Moves-queue _ job.state (record l { status = count }) (job ∷ l.queue) first.here))
    where
      count : StatusCount
      count = record l.status { waiting = inc l.status.waiting }

      first :
          Moves s job.state
            (record l { status = count })
            (record s { state_status_map = insert job.state count s.state_status_map })
      first = Moves-status s job.state l count h

  pub complete_job-Moves :
      (s : Storage E L C) (job : Job C) (l : Lane E L C)
      → HasLane s job.state l
      → Returns (complete_job s job) (Moves s job.state (complete l))
  unfolding complete_job
  complete_job-Moves s job l h = rw h.status (Moves-status s job.state l _ h)

  -- Admitting a job, to a lane whose channel is open and has room while the executing count is
  -- below the concurrency, returns, and acts on the lane of its state alone, as `admit` says.
  pub process_job-Moves :
      (s : Storage E L C) (job : Job C) (l : Lane E L C)
      → HasLane s job.state l
      → l.chan.closed ≡ false
      → (ltb_ℤ l.status.executing l.config.concurrency ≡ true → length l.chan.buf < l.chan.cap)
      → Returns (process_job s job) (Moves s job.state (admit l job))
  unfolding process_job is_terminal can_run_job_for_state admit
  process_job-Moves s job l h o f =
      rw (h.config, h.status)
        (elim (Bool-cases l.config.terminal) [
          | inl t ↦ simp t (complete_job-Moves s job l h)
          | inr t ↦ elim (Bool-cases (ltb_ℤ l.status.executing l.config.concurrency)) [
            | inl e ↦ simp (t, e) (run_job-Moves s job l h o (f e))
            | inr e ↦ simp (t, e) (queue_job-Moves s job l h)
          ]
        ])

  start-Moves :
      (s : Storage E L C) (job : Job C) (rest : List (Job C)) (l : Lane E L C)
      → HasLane s job.state l
      → l.chan.closed ≡ false
      → length l.chan.buf < l.chan.cap
      → Returns (start s job.state job rest) (
          Moves s job.state (
            put
              (record l {
                status = record l.status { waiting = dec l.status.waiting };
                queue = rest;
              })
              job))
  unfolding start
  start-Moves s job rest l h o f = rw h.status (
      Returns-map _ _ (run_job _ job) (run_job-Moves _ job _ second.here o f)
        λ t m. Moves-trans (Moves-trans first second) m)
    where
      count : StatusCount
      count = record l.status { waiting = dec l.status.waiting }

      first :
          Moves s job.state
            (record l { queue = rest })
            (record s { state_waiting_jobs_map = insert job.state rest s.state_waiting_jobs_map })
      first = Moves-queue s job.state l rest h

      second :
          Moves
            (record s { state_waiting_jobs_map = insert job.state rest s.state_waiting_jobs_map })
            job.state
            (record l { status = count; queue = rest })
            (record s {
              state_status_map = insert job.state count s.state_status_map;
              state_waiting_jobs_map = insert job.state rest s.state_waiting_jobs_map;
            })
      second = Moves-status _ job.state (record l { queue = rest }) count first.here

  run_last-Moves :
      (s : Storage E L C) (k : String) (l : Lane E L C) (waits : List (Job C))
      → HasLane s k l
      → l.chan.closed ≡ false
      → length l.chan.buf < l.chan.cap
      → All (λ j. j.state ≡ k) waits
      → Returns (run_last s k waits) (Moves s k (start_last l waits))
  unfolding run_last
  run_last-Moves s k l [] h o f a = Moves-refl h
  run_last-Moves s k l (x ∷ xs) h o f a =
      let same = (split_last-All (λ j. j.state ≡ k) x xs a.0 a.1).0 in
      subst
        (λ i.
          HasLane s i l
          → Returns (start s i (split_last x xs).0 (split_last x xs).1)
              (Moves s i (start_last l (x ∷ xs))))
        same (λ h'. start-Moves s (split_last x xs).0 (split_last x xs).1 l h' o f) h

  -- The return of a job acts on the lane of its state, as `next` says.
  pub run_next_waiting_job-Moves :
      (s : Storage E L C) (k : String) (l : Lane E L C)
      → HasLane s k l
      → l.chan.closed ≡ false
      → length l.chan.buf < l.chan.cap
      → All (λ j. j.state ≡ k) l.queue
      → Returns (run_next_waiting_job s k) (Moves s k (next l))
  unfolding run_next_waiting_job next
  run_next_waiting_job-Moves s k l h o f a =
      rw (h.status, h.queue)
        (Returns-map _ _ (run_last _ k l.queue)
          (run_last-Moves _ k (release l) l.queue first.here o f a) λ t m. Moves-trans first m)
    where
      first : Moves s k (release l) (record s {
        state_status_map =
            insert k (record l.status { executing = dec l.status.executing }) s.state_status_map;
      })
      first = Moves-status s k l _ h
