-- ===== src/Processor.antt =====
-- processor.go, the main goroutine of a `Processor`: what it does with each return of a worker.
pub mod Registered
pub mod Tracking
pub mod Invariant
pub mod System
pub mod Safety
pub mod Progress
pub mod Finishing
pub mod Waiting
pub mod Process
pub mod Admission
pub mod Starting
pub mod Launch
pub mod Goroutines
pub mod Touched
pub mod Persisting
pub mod Surviving
pub mod Dying
pub mod Running
use jorb.Base.{
  ℕ, suc, ◌+◌, String, ◌==◌, Bool, true, false, not, ◌&&◌, ◌||◌, Option, none, some, List, [], ◌∷◌,
  ltb, length, if◌then◌else◌,
}
use jorb.Base.Decimal.{decimal, concat}
use jorb.Effect.{Result, ok, blocked, panic, fatal, ◌>>=◌}
use jorb.Job.{Job, Time}
use jorb.Run.{Run, update_job}
use jorb.State.{KickRequest}
use jorb.Storage.{Storage, process_job, run_next_waiting_job}

-- serializer.go, `Serializer`, as the processor uses it: `W` is what a serializer keeps, and an error
-- is its message.
pub record Serializer (W C : Type 0) : Type 0 where
  pub job_update : W → Job C → Option String × W

-- `NilSerializer`
abbrev pub nil_serializer : {W C : Type 0} → Serializer W C
nil_serializer = record { job_update = λ w job. (none, w) }

pub record Return (C : Type 0) : Type 0 where
  pub prior_state : String
  pub job : Job C
  pub kick_requests : List (KickRequest C)

-- What the main goroutine changes.
pub record Main (E L W OC C : Type 0) : Type 0 where
  pub storage : Storage E L C
  pub run : Run OC C
  pub store : W

module _ {C : Type 0} where
  -- The job that a kick request becomes; both loops over the requests build it.
  unfoldable pub kick_job : Job C → ℕ → KickRequest C → Job C
  kick_job parent idx kick = record {
    id = concat parent.id (concat "->" (decimal idx));
    c = kick.c;
    state = kick.state;
    state_errors = some [];
    last_update = none;
  }

abbrev pub has_kicks : {C : Type 0} → List (KickRequest C) → Bool
has_kicks ks = ltb 0 (length ks)

module _ {W C : Type 0} (serializer : Serializer W C) where
  unfoldable pub persist_kicks : W → Job C → ℕ → List (KickRequest C) → Option String × W
  persist_kicks w parent idx [] = (none, w)
  persist_kicks w parent idx (k ∷ ks) =
      let (err, w') = serializer.job_update w (kick_job parent idx k) in
      let rest = persist_kicks w' parent (suc idx) ks in
      elim err [ none ↦ rest | some e ↦ (some e, w') ]

  unfoldable pub persist_after_completion : W → Return C → Option String × W
  persist_after_completion w r =
      let (err, w') = serializer.job_update w r.job in
      elim err [ none ↦ persist_kicks w' r.job 0 r.kick_requests | some e ↦ (some e, w') ]

module _ {E L W OC C : Type 0} where
  -- `now i` is what the i-th reading of the clock gives.
  unfoldable pub start_kicks :
      (ℕ → Time) → Job C → ℕ → List (KickRequest C) → Main E L W OC C → Result (Main E L W OC C)
  start_kicks now parent idx [] m = ok m
  start_kicks now parent idx (k ∷ ks) m = do
    let job = kick_job parent idx k
    let run = update_job (now (suc idx)) m.run job
    storage ← process_job m.storage job
    start_kicks now parent (suc idx) ks (record m { storage = storage; run = run })

  -- An error of the serializer ends the program.
  abbrev pub or_fatal : Main E L W OC C → Option String × W → Result (Main E L W OC C)
  or_fatal m (none, w) = ok (record m { store = w })
  or_fatal m (some e, w) = panic fatal

  unfoldable pub handle_return :
      Serializer W C → (ℕ → Time) → Main E L W OC C → Return C → Result (Main E L W OC C × Bool)
  handle_return serializer now m completed = do
    freed ← run_next_waiting_job m.storage completed.prior_state
    let run = update_job (now 0) m.run completed.job
    storage ← process_job freed completed.job
    started ←
        start_kicks now completed.job 0 completed.kick_requests
          (record m { storage = storage; run = run })
    saved ← or_fatal started (persist_after_completion serializer started.store completed)
    ok (
      saved,
      not (completed.prior_state == completed.job.state) || has_kicks completed.kick_requests,
    )
