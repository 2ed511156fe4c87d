-- ===== src/Processor/Goroutines.antt =====
-- processor.go, `NewProcessor`, `Exec`, `execFunc`, `StateExec.Run` and `process` as goroutines: each
-- worker and the main goroutine with the place where it stands, the channels between them, the context,
-- and how the channels are closed.
pub mod Workers
pub mod Placed
pub mod Alive
pub mod Ending
pub mod Over
pub mod Going
pub mod Configured
pub mod Beginning
pub mod Executing
pub mod Canceled
pub mod Refines
use jorb.Base.{
  ℕ, zero, suc, ◌<◌, ◌≡◌, String, Bool, true, false, not, ◌&&◌, Option, none, some, List, [], ◌∷◌,
  ◌++◌, ◌⊎◌, inl, inr, pos_part, lookup, insert, length, if◌then◌else◌,
}
use jorb.Channel.{Channel, make_chan}
use jorb.Effect.{Result, ok, panic, Panic}
use jorb.Job.{Job, Time}
use jorb.Run.{Run}
use jorb.State.{State}
use jorb.Storage.{Storage}
use jorb.Storage.New.{ConfigError, validate, new_state_storage_from_states}
use jorb.Storage.Status.{all_jobs_are_terminal, has_executing_jobs}
use jorb.Processor.{Serializer, Return, Main, handle_return}
use jorb.Processor.System.{return_cap, Answers}
use jorb.Processor.Process.{shutdown}

-- Where a worker stands in `Run`: in its select; in `executeOne` with a job; behind it, with what it
-- gave; at the send, once it has seen that the context is not done; or it has ended.
pub data Worker (C : Type 0) : Type 0 where
  idle : Worker C
  executing : Job C → Worker C
  executed : Job C → Return C → Worker C
  sending : Job C → Return C → Worker C
  stopped : Worker C

-- Where the main goroutine stands in `process`: in its select, in the inner loop, before `shutdown`,
-- or it has ended.
pub data Phase : Type 0 where
  selecting draining leaving ended : Phase

-- The workers each have the state that they work for. What order they stand in says nothing.
pub record Goroutines (E L W OC C : Type 0) : Type 0 where
  pub main : Main E L W OC C
  pub phase : Phase
  pub workers : List (String × Worker C)
  pub returns : Channel (Return C)
  pub canceled : Bool

-- `NewProcessor`
unfoldable pub new_processor : {E L C : Type 0} → List (State E L) → ConfigError ⊎ Storage E L C
new_processor states =
    let st = new_state_storage_from_states states in
    elim (validate st) [ none ↦ inr st | some e ↦ inl e ]

-- `execFunc`: as many workers as the state's concurrency.
unfoldable pub exec_func : {C : Type 0} → String → ℕ → List (String × Worker C)
exec_func name zero = []
exec_func name (suc n) = (name, idle) ∷ exec_func name n

-- The loop of `Exec` over the states.
unfoldable pub start_workers : {E L C : Type 0} → List (State E L) → List (String × Worker C)
unfolding exec_func
start_workers [] = []
start_workers (s ∷ ss) =
    let rest = start_workers ss in
    if s.terminal then rest else exec_func s.trigger_state (pos_part s.concurrency) ++ rest

module _ {E L W OC C : Type 0} where
  -- `process` once it has admitted the jobs of the run to the storage `t`, with no worker on its way.
  unfoldable pub start_goroutines : Storage E L C → Run OC C → W → Goroutines E L W OC C
  unfolding start_workers make_chan
  start_goroutines t run store = record {
    main = record { storage = t; run = run; store = store };
    phase = selecting;
    workers = start_workers t.states;
    returns = make_chan return_cap;
    canceled = false;
  }

  -- The test at the end of a pass of the loop.
  abbrev pub is_finished : Main E L W OC C → Bool
  is_finished m = all_jobs_are_terminal m.storage m.run && not (has_executing_jobs m.storage)

  -- The storage when a job is received from the channel of `k`.
  abbrev pub received : Main E L W OC C → String → Channel (Job C) → List (Job C) → Main E L W OC C
  received m k ch rest = record m {
    storage = record m.storage {
      state_chan = insert k (record ch { buf = rest }) m.storage.state_chan;
    };
  }

  -- A worker of state `k` moves from one place to another.
  pub record Moves (y : Goroutines E L W OC C) (k : String) (w : Worker C) : Type 0 where
    pub before : List (String × Worker C)
    pub after : List (String × Worker C)
    pub at : y.workers ≡ before ++ (k, w) ∷ after

  abbrev pub moved :
      (y : Goroutines E L W OC C) {k : String} {w : Worker C}
      → Moves y k w
      → Worker C
      → Goroutines E L W OC C
  moved y {k} m w' = record y { workers = m.before ++ (k, w') ∷ m.after }

  pub data Go (serializer : Serializer W C) (y z : Goroutines E L W OC C) : Type 0 where
    receive :
        (k : String) (m : Moves y k idle) (ch : Channel (Job C)) (j : Job C) (rest : List (Job C))
        → lookup k y.main.storage.state_chan ≡ some ch
        → ch.buf ≡ j ∷ rest
        → z ≡ record y {
          main = received y.main k ch rest;
          workers = (k, executing j) ∷ m.before ++ m.after;
        }
        → Go serializer y z
    stop_closed :
        (k : String) (m : Moves y k idle) (ch : Channel (Job C))
        → lookup k y.main.storage.state_chan ≡ some ch
        → ch.buf ≡ []
        → ch.closed ≡ true
        → z ≡ moved y m stopped
        → Go serializer y z
    stop_canceled :
        (k : String) (m : Moves y k idle)
        → y.canceled ≡ true
        → z ≡ moved y m stopped
        → Go serializer y z
    -- `StateExec.Run` sends any result; here the states of the job and of its kicks are registered.
    execute :
        (k : String) (j : Job C) (m : Moves y k (executing j)) (r : Return C)
        → Answers y.main.storage j r
        → z ≡ moved y m (executed j r)
        → Go serializer y z
    drop :
        (k : String) (j : Job C) (r : Return C) (m : Moves y k (executed j r))
        → y.canceled ≡ true
        → z ≡ moved y m stopped
        → Go serializer y z
    pass :
        (k : String) (j : Job C) (r : Return C) (m : Moves y k (executed j r))
        → y.canceled ≡ false
        → z ≡ moved y m (sending j r)
        → Go serializer y z
    send :
        (k : String) (j : Job C) (r : Return C) (m : Moves y k (sending j r))
        → y.returns.closed ≡ false
        → length y.returns.buf < y.returns.cap
        → z ≡ record y {
          workers = m.before ++ (k, idle) ∷ m.after;
          returns = record y.returns { buf = y.returns.buf ++ r ∷ [] };
        }
        → Go serializer y z
    -- The main goroutine, in either select, receives a return and handles it.
    handle :
        (now : ℕ → Time) (r : Return C) (rest : List (Return C)) (m : Main E L W OC C)
        (changed : Bool)
        → (y.phase ≡ selecting) ⊎ (y.phase ≡ draining)
        → y.returns.buf ≡ r ∷ rest
        → handle_return serializer now y.main r ≡ ok (m, changed)
        → z ≡ record y { main = m; phase = draining; returns = record y.returns { buf = rest } }
        → Go serializer y z
    drained :
        y.phase ≡ draining
        → y.returns.buf ≡ []
        → z ≡ record y { phase = if is_finished y.main then leaving else selecting }
        → Go serializer y z
    leave :
        y.phase ≡ selecting
        → y.canceled ≡ true
        → z ≡ record y { phase = leaving }
        → Go serializer y z
    close_all :
        (t : Storage E L C) (returns : Channel (Return C))
        → y.phase ≡ leaving
        → shutdown y.main.storage y.returns ≡ ok (t, returns)
        → z ≡ record y { main = record y.main { storage = t }; phase = ended; returns = returns }
        → Go serializer y z
    cancel : z ≡ record y { canceled = true } → Go serializer y z

  -- A goroutine that panics with its next move.
  pub data Crashes (serializer : Serializer W C) (y : Goroutines E L W OC C) : Type 0 where
    send_on_closed :
        (k : String) (j : Job C) (r : Return C) (m : Moves y k (sending j r))
        → y.returns.closed ≡ true
        → Crashes serializer y
    in_handle :
        (now : ℕ → Time) (r : Return C) (rest : List (Return C)) (p : Panic)
        → (y.phase ≡ selecting) ⊎ (y.phase ≡ draining)
        → y.returns.buf ≡ r ∷ rest
        → handle_return serializer now y.main r ≡ panic p
        → Crashes serializer y
    in_shutdown :
        (p : Panic)
        → y.phase ≡ leaving
        → shutdown y.main.storage y.returns ≡ panic p
        → Crashes serializer y

  pub data Runs (serializer : Serializer W C) (y : Goroutines E L W OC C)
      : Goroutines E L W OC C → Type 0 where
    starts : Runs serializer y y
    follows :
        {z w : Goroutines E L W OC C}
        → Runs serializer y z
        → Go serializer z w
        → Runs serializer y w
