-- ===== src/Json/Disk.antt =====
-- The files of a `JsonSerializer`, and the calls of package os on them. Each call takes its turn from a
-- list of events: what the main goroutine does to the run before the call, and how the call ends. A
-- program that dies leaves the files as they are.
use jorb.Base.{ℕ, Bool, true, false, Option, none, some, List, [], ◌∷◌, if◌then◌else◌}
use jorb.Job.{Job, Time}
use jorb.Json.{LoadError}
use jorb.Run.{Run, update_job}

-- A checkpoint file has a whole run, or what is left of a write that did not end.
pub data Content (OC C : Type 0) : Type 0 where
  whole : Run OC C → Content OC C
  torn : Content OC C

-- The sealed segments stand in the order of their names, each under its number.
pub record Disk (Line OC C : Type 0) : Type 0 where
  pub main : Option (Content OC C)
  pub tmp : Option (Content OC C)
  pub old : Option (Content OC C)
  pub active : Option (List Line)
  pub sealed : List (ℕ × List Line)

pub data Outcome : Type 0 where
  works fails dies : Outcome

-- `partial` tells whether a write that fails, or during which the program dies, leaves a part.
pub record Event (C : Type 0) : Type 0 where
  pub updates : List (Time × Job C)
  pub outcome : Outcome
  pub partial : Bool

-- The serializer, the run that it shares with the processor, and the files. `append_file` tells
-- whether the handle of the active log is there.
pub record Store (Line OC C : Type 0) : Type 0 where
  pub disk : Disk Line OC C
  pub run : Run OC C
  pub append_file : Bool
  pub seal_seq : ℕ
  pub events : List (Event C)

pub data Failure : Type 0 where
  os_error serializer_closed decode_error : Failure
  replay_error : LoadError → Failure

pub data Answer (A : Type 0) : Type 0 where
  done : A → Answer A
  failed : Failure → Answer A
  died : Answer A

-- The updates of the main goroutine, in their order.
unfoldable pub update_run : {OC C : Type 0} → List (Time × Job C) → Run OC C → Run OC C
update_run [] r = r
update_run ((now, j) ∷ us) r = update_run us (update_job now r j)

abbrev pub Io : Type 0 → Type 0 → Type 0 → Type 0 → Type 0
Io Line OC C A = Store Line OC C → Answer A × Store Line OC C

abbrev pub recover : Answer (Unit {0}) → Answer (Unit {0})
recover (failed e) = done tt
recover r = r

abbrev pub next_event : {C : Type 0} → List (Event C) → Event C
next_event [] = record { updates = []; outcome = works; partial = false }
next_event (e ∷ es) = e

abbrev pub is_there : {A : Type 0} → Option A → Bool
is_there none = false
is_there (some a) = true

abbrev pub found : Answer (Unit {0}) → Bool → Answer Bool
found (done u) b = done b
found (failed e) b = done false
found died b = died

abbrev pub or_empty : {Line : Type 0} → Option (List Line) → List Line
or_empty none = []
or_empty (some ls) = ls

module _ {Line OC C A B : Type 0} where
  abbrev pub continue : Answer A → (A → Io Line OC C B) → Io Line OC C B
  continue (done a) f s = f a s
  continue (failed e) f s = (failed e, s)
  continue died f s = (died, s)

  infixl 5 ◌>>=◌ ◌>>◌
  abbrev pub ◌>>=◌ : Io Line OC C A → (A → Io Line OC C B) → Io Line OC C B
  ◌>>=◌ m f s = let (r, s') = m s in continue r f s'

  abbrev pub ◌>>◌ : Io Line OC C A → Io Line OC C B → Io Line OC C B
  m >> n = m >>= λ _. n

module _ {Line OC C : Type 0} where
  abbrev pub pure : {A : Type 0} → A → Io Line OC C A
  pure a s = (done a, s)

  abbrev pub raise : {A : Type 0} → Failure → Io Line OC C A
  raise e s = (failed e, s)

  abbrev pub gets : {A : Type 0} → (Store Line OC C → A) → Io Line OC C A
  gets f s = (done (f s), s)

  abbrev pub modify : (Store Line OC C → Store Line OC C) → Io Line OC C (Unit {0})
  modify f s = (done tt, f s)

  -- `_ = f()`
  abbrev pub ignoring : Io Line OC C (Unit {0}) → Io Line OC C (Unit {0})
  ignoring m s = let (r, s') = m s in (recover r, s')

  -- `if err := f(); err != nil { g(); return err }`
  abbrev pub give_up : Answer (Unit {0}) → Io Line OC C (Unit {0}) → Io Line OC C (Unit {0})
  give_up (failed e) g s = (g >> raise e) s
  give_up r g s = (r, s)

  abbrev pub ◌on_error◌ :
      Io Line OC C (Unit {0}) → Io Line OC C (Unit {0}) → Io Line OC C (Unit {0})
  ◌on_error◌ m g s = let (r, s') = m s in give_up r g s'

  abbrev pub turn : List (Event C) → Store Line OC C → Store Line OC C
  turn [] s = s
  turn (e ∷ es) s = record s { run = update_run e.updates s.run; events = es }

  -- The main goroutine's turn.
  unfoldable pub environment : Store Line OC C → Store Line OC C
  environment s = turn s.events s

  abbrev pub settle :
      Event C
      → (Store Line OC C → Store Line OC C)
      → (Store Line OC C → Store Line OC C)
      → Io Line OC C (Unit {0})
  settle e effect part s = elim e.outcome [
    | works ↦ (done tt, effect s)
    | fails ↦ (failed os_error, if e.partial then part s else s)
    | dies ↦ (died, if e.partial then part s else s)
  ]

  -- A call that has the first effect if it works, and the second if it is cut off.
  unfoldable pub syscall :
      (Store Line OC C → Store Line OC C)
      → (Store Line OC C → Store Line OC C)
      → Io Line OC C (Unit {0})
  unfolding environment
  syscall effect part s = settle (next_event s.events) effect part (environment s)

  -- A call that takes effect or does not.
  abbrev pub change : (Disk Line OC C → Disk Line OC C) → Io Line OC C (Unit {0})
  change f = syscall (λ s. record s { disk = f s.disk }) (λ s. s)

  -- One that leaves the files alone: Stat, Glob, Sync, Close, MkdirAll.
  abbrev pub touch : Io Line OC C (Unit {0})
  touch = syscall (λ s. s) (λ s. s)

  -- `_, err := os.Stat(path)`, and then `err == nil`
  unfoldable pub stat : (Disk Line OC C → Bool) → Io Line OC C Bool
  unfolding syscall
  stat test s = let (r, s') = touch s in (found r (test s'.disk), s')
