-- ===== src/Json.antt =====
-- json_serializer.go, what is read back of the incremental logs. How encoding/json writes and reads a
-- record, which lines are blank, and how bufio cuts a file into lines are arguments.
pub mod Replay
pub mod Disk
pub mod Store
pub mod Start
pub mod Rules
pub mod Covers
pub mod Durable
pub mod Checkpoint
pub mod Clearing
pub mod Rotation
pub mod Appending
pub mod CutOff
pub mod ReadBack
pub mod Starting
pub mod Loading
pub mod Restart
pub mod Closing
pub mod Refused
pub mod Unfailing
pub mod Returns
pub mod Survival
pub mod Life
pub mod Loop
pub mod Backoff
pub mod Names
use jorb.Base.{
  ℕ, suc, String, ◌==◌, Option, none, some, List, [], ◌∷◌, ◌≡◌, Bool, false, ℤ, pos, eqb_ℤ,
  if◌then◌else◌,
}
use jorb.Job.{Job, Time}
use jorb.Run.{Run, update_job}

-- One line of a log.
pub record Record (C : Type 0) : Type 0 where
  pub v : ℤ
  pub op : String
  pub job : Job C

abbrev pub jsonl_record_version : ℤ
jsonl_record_version = pos 1

pub record Codec (Line C : Type 0) : Type 0 where
  pub encode : Record C → Line
  pub decode : Line → Option (Record C)
  pub is_blank : Line → Bool

-- What is written can be read.
pub record RoundTrips {Line C : Type 0} (codec : Codec Line C) : Type 0 where
  pub decode-encode : (r : Record C) → codec.decode (codec.encode r) ≡ some r
  pub written : (r : Record C) → codec.is_blank (codec.encode r) ≡ false

pub data LoadError : Type 0 where
  malformed : LoadError
  unsupported_version : ℤ → LoadError
  unknown_op : String → LoadError
  line : ℕ → LoadError → LoadError
  scan_failed : String → LoadError

pub data Load (A : Type 0) : Type 0 where
  loaded : A → Load A
  refused : LoadError → Load A

infixl 5 ◌>>=◌
abbrev pub ◌>>=◌ : {A B : Type 0} → Load A → (A → Load B) → Load B
loaded a >>= f = f a
refused e >>= f = refused e

-- `fmt.Errorf("line %d: %w", …)`
abbrev pub at_line : {A : Type 0} → ℕ → Load A → Load A
at_line n (loaded a) = loaded a
at_line n (refused e) = refused (line n e)

-- The lines that a scanner finds, and its error at the end.
pub record Scan (Line : Type 0) : Type 0 where
  pub lines : List Line
  pub err : Option String

-- The record that `JobUpdate` writes.
abbrev pub record_of : {C : Type 0} → Job C → Record C
record_of job = record { v = jsonl_record_version; op = "job"; job = job }

module _ {Line OC C : Type 0} (codec : Codec Line C) where
  unfoldable pub apply_jsonl_line : Time → Line → Run OC C → Load (Run OC C)
  apply_jsonl_line now l run = elim (codec.decode l) [
    | none ↦ refused malformed
    | some rec ↦
        if eqb_ℤ rec.v jsonl_record_version
        then (if rec.op == "job"
            then loaded (update_job now run rec.job)
            else refused (unknown_op rec.op))
        else refused (unsupported_version rec.v)
  ]

  -- `now i` is what the clock says at the line after `i` others.
  unfoldable pub replay_lines : (ℕ → Time) → ℕ → List Line → Run OC C → Load (Run OC C)
  unfolding apply_jsonl_line
  replay_lines now n [] run = loaded run
  replay_lines now n (l ∷ ls) run = do
    run' ← if codec.is_blank l then loaded run else at_line (suc n) (apply_jsonl_line (now n) l run)
    replay_lines now (suc n) ls run'

  unfoldable pub replay_jsonl_file : (ℕ → Time) → Scan Line → Run OC C → Load (Run OC C)
  unfolding replay_lines
  replay_jsonl_file now scan run = do
    run' ← replay_lines now 0 scan.lines run
    elim scan.err [ none ↦ loaded run' | some e ↦ refused (scan_failed e) ]

  -- The loop over the sealed segments, in order, and the active log after them.
  unfoldable pub replay_files : List ((ℕ → Time) × Scan Line) → Run OC C → Load (Run OC C)
  unfolding replay_jsonl_file
  replay_files [] run = loaded run
  replay_files ((now, scan) ∷ scans) run = do
    run' ← replay_jsonl_file now scan run
    replay_files scans run'
