-- ===== src/Storage/Oldest.antt =====
-- processor.go, `runNextWaitingJob`: which waiting job gets the place of a job that came back. The
-- waiting jobs of a state stand newest first, as `queueJob` puts them.
use jorb.Base.{
  ◌<◌, ◌≡◌, refl, ap, ◌∙◌, subst, String, Option, none, some, false, List, [], ◌∷◌, ◌++◌, dec,
  length, All,
}
use jorb.Effect.{Returns}
use jorb.Job.{Job}
use jorb.Storage.{Storage, split_last, run_next_waiting_job}
use jorb.Storage.Lane.{Lane, HasLane, put, release, start_last, next, Moves}
use jorb.Storage.Refine.{run_next_waiting_job-Moves}

-- No job waits; or the newer ones, and the oldest behind them.
abbrev pub queue_of : {C : Type 0} → Option (List (Job C) × Job C) → List (Job C)
queue_of none = []
queue_of (some (newer, oldest)) = newer ++ oldest ∷ []

-- The lane when the place of one job is free: it stays free, or the oldest job is no longer one of the
-- waiting ones, is counted as executing and stands last in the channel.
abbrev pub freed : {E L C : Type 0} → Option (List (Job C) × Job C) → Lane E L C → Lane E L C
freed none l = release l
freed (some (newer, oldest)) l =
    put
      (record (release l) {
        status = record (release l).status { waiting = dec l.status.waiting };
        queue = newer;
      })
      oldest

split_last-append :
    {A : Type 0} (x : A) (xs : List A) (y : A) → split_last x (xs ++ y ∷ []) ≡ (y, x ∷ xs)
unfolding split_last
split_last-append x [] y = refl
split_last-append x (z ∷ xs) y = ap (λ (l, rest). (l, x ∷ rest)) (split_last-append z xs y)

module _ {E L C : Type 0} where
  start_last-freed :
      (w : Option (List (Job C) × Job C)) (l : Lane E L C)
      → start_last (release l) (queue_of w) ≡ freed w l
  unfolding split_last
  start_last-freed none l = refl
  start_last-freed (some ([], oldest)) l = refl
  start_last-freed (some (x ∷ newer, oldest)) l =
      ap
        (λ (job, rest).
          put
            (record (release l) {
              status = record (release l).status { waiting = dec l.status.waiting };
              queue = rest;
            })
            job)
        (split_last-append x newer oldest)

  -- When a job of the state has come back, to a lane whose channel is open and has room and whose
  -- waiting jobs are of the state: if none waits, the place is free, and the executing count one less.
  -- Otherwise the last of the waiting jobs, which was queued first, and no other, leaves the queue and
  -- takes the place: it stands at the end of the channel, the waiting count is one less, and the
  -- executing count is as before. No other lane changes.
  pub run_next_waiting_job_lem :
      (s : Storage E L C) (k : String) (l : Lane E L C) (w : Option (List (Job C) × Job C))
      → HasLane s k l
      → l.chan.closed ≡ false
      → length l.chan.buf < l.chan.cap
      → All (λ j. j.state ≡ k) l.queue
      → l.queue ≡ queue_of w
      → Returns (run_next_waiting_job s k) (Moves s k (freed w l))
  unfolding next
  run_next_waiting_job_lem s k l w h o f a e =
      subst (λ m. Returns (run_next_waiting_job s k) (Moves s k m))
        (ap (start_last (release l)) e ∙ start_last-freed w l)
        (run_next_waiting_job-Moves s k l h o f a)
