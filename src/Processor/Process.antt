-- ===== src/Processor/Process.antt =====
-- processor.go, `Exec`, `process` and `shutdown`: how a run starts, the loop of the main goroutine over
-- the returns that reach it, and how the channels are closed.
use jorb.Base.{
  ℕ, String, Bool, true, false, not, ◌&&◌, Option, none, some, List, [], ◌∷◌, Dict, lookup, insert,
  if◌then◌else◌,
}
use jorb.Channel.{Channel, make_chan, close}
use jorb.Effect.{Result, ok, panic, close_of_nil, ◌>>=◌}
use jorb.Job.{Job, Time}
use jorb.State.{State, StatusCount}
use jorb.Storage.{Storage, process_job, complete_job}
use jorb.Storage.Status.{all_jobs_are_terminal, has_executing_jobs, get_status_counts}
use jorb.Processor.System.{return_cap}
use jorb.Processor.{Serializer, Return, Main, handle_return}

-- `close` of a channel of a map; a missing one is nil.
unfoldable pub close_chan : {A : Type 0} → Option (Channel A) → Result (Channel A)
unfolding close
close_chan none = panic close_of_nil
close_chan (some ch) = close ch

-- A return, with the readings of the clock while it is handled, and the states from whose channels
-- workers have taken a job since the return before it.
abbrev pub Timed : Type 0 → Type 0
Timed C = List String × (ℕ → Time) × Return C

module _ {E L C : Type 0} where
  -- A worker's receive from a channel that is not empty.
  abbrev pub take_from : String → Option (Channel (Job C)) → Storage E L C → Storage E L C
  take_from k none s = s
  take_from k (some ch) s = elim ch.buf [
    | [] ↦ s
    | j ∷ rest ↦ record s { state_chan = insert k (record ch { buf = rest }) s.state_chan }
  ]

  unfoldable pub take_all : List String → Storage E L C → Storage E L C
  take_all [] s = s
  take_all (k ∷ ks) s = take_all ks (take_from k (lookup k s.state_chan) s)

module _ {E L C : Type 0} where
  -- `for _, job := range r.Jobs { processJob(job) }`
  unfoldable pub start_jobs : Storage E L C → Dict (Job C) → Result (Storage E L C)
  start_jobs s [] = ok s
  start_jobs s ((id, job) ∷ jobs) = do s' ← process_job s job; start_jobs s' jobs

  unfoldable pub complete_jobs : Storage E L C → Dict (Job C) → Result (Storage E L C)
  complete_jobs s [] = ok s
  complete_jobs s ((id, job) ∷ jobs) = do s' ← complete_job s job; complete_jobs s' jobs

  unfoldable pub close_job_channel_for_state : Storage E L C → String → Result (Storage E L C)
  unfolding close_chan
  close_job_channel_for_state s name = do
    ch ← close_chan (lookup name s.state_chan)
    ok (record s { state_chan = insert name ch s.state_chan })

  unfoldable pub close_all : Storage E L C → List (State E L) → Result (Storage E L C)
  unfolding close_job_channel_for_state
  close_all s [] = ok s
  close_all s (state ∷ states) = do
    s' ← close_job_channel_for_state s state.trigger_state
    close_all s' states

  -- The job channels first, then `returnChan`.
  unfoldable pub shutdown :
      Storage E L C → Channel (Return C) → Result (Storage E L C × Channel (Return C))
  unfolding close_all close
  shutdown s return_chan = do s' ← close_all s s.states; closed ← close return_chan; ok (s', closed)

module _ {E L W OC C : Type 0} (serializer : Serializer W C) where
  abbrev pub after_takes : List String → Main E L W OC C → Main E L W OC C
  after_takes ks m = record m { storage = take_all ks m.storage }

  -- The inner loop: the returns that are there already.
  unfoldable pub drain : Main E L W OC C → Bool → List (Timed C) → Result (Main E L W OC C × Bool)
  unfolding take_all
  drain m needs_update [] = ok (m, needs_update)
  drain m needs_update ((taken, now, r) ∷ rs) = do
    (m', changed) ← handle_return serializer now (after_takes taken m) r
    drain m' (if changed then true else needs_update) rs

  -- One pass of the loop, on the return that was received and those behind it: the counts that are
  -- sent to the listener, if any, and whether the loop ends.
  unfoldable pub round :
      Main E L W OC C
      → Timed C
      → List (Timed C)
      → Result (Main E L W OC C × Option (List StatusCount) × Bool)
  unfolding drain take_all
  round m (taken, now, r) extras = do
    (m', changed) ← handle_return serializer now (after_takes taken m) r
    (m'', needs_update) ← drain m' changed extras
    counts ← get_status_counts m''.storage
    ok (
      m'',
      if needs_update then some counts else none,
      all_jobs_are_terminal m''.storage m''.run && not (has_executing_jobs m''.storage),
    )

  -- The loop, on the passes that are to come; the flag tells whether it ended by itself.
  unfoldable pub process_loop :
      Main E L W OC C
      → List (Timed C × List (Timed C))
      → Result (Main E L W OC C × List (List StatusCount) × Bool)
  unfolding round
  process_loop m [] = ok (m, [], false)
  process_loop m ((first, extras) ∷ passes) = do
    (m', update, ended) ← round m first extras
    (m'', later, done) ← elim ended [ true ↦ ok (m', [], true) | false ↦ process_loop m' passes ]
    ok (m'', elim update [ none ↦ later | some counts ↦ counts ∷ later ], done)

  -- `process`, until its last pass: the jobs of the run are admitted, and the first counts sent.
  unfoldable pub process :
      Main E L W OC C
      → List (Timed C × List (Timed C))
      → Result (Main E L W OC C × List (List StatusCount) × Bool)
  unfolding start_jobs process_loop
  process m passes = do
    storage ← start_jobs m.storage m.run.jobs
    counts ← get_status_counts storage
    (m', sent, done) ← process_loop (record m { storage = storage }) passes
    ok (m', counts ∷ sent, done)

  -- `Exec`, whose workers are the passes' returns.
  unfoldable pub exec :
      Main E L W OC C
      → List (Timed C × List (Timed C))
      → Result (Main E L W OC C × List (List StatusCount) × Bool)
  unfolding complete_jobs process
  exec m passes =
      if all_jobs_are_terminal m.storage m.run
      then (do
        storage ← complete_jobs m.storage m.run.jobs
        counts ← get_status_counts storage
        ok (record m { storage = storage }, counts ∷ [], true))
      else (do
        let return_chan : Channel (Return C) = make_chan return_cap
        (m', sent, done) ← process m passes
        (storage, closed) ← shutdown m'.storage return_chan
        ok (record m' { storage = storage }, sent, done))
