-- ===== src/Job.antt =====
-- job.go: the record of a job, its time stamp, and the copy of its errors.
pub mod Errors
use jorb.Base.{ℕ, ◌-◌, ◌%◌, String, Option, none, some, List, [], ◌∷◌, Dict, insert}

-- `time.Time`, in nanoseconds since Go's zero time.
abbrev pub Time : Type 0
Time = ℕ

-- `none` is the nil map.
pub record Job (C : Type 0) : Type 0 where
  pub id : String
  pub c : C
  pub state : String
  pub state_errors : Option (Dict (List String))
  pub last_update : Option Time

abbrev pub millisecond : ℕ
millisecond = 1_000_000

-- `t.Truncate(d)` rounds down to a multiple of `d` since the zero time.
abbrev pub truncate : Time → ℕ → Time
truncate t d = t - t % d

copy_errors : Dict (List String) → Dict (List String) → Dict (List String)
copy_errors [] out = out
copy_errors ((k, v) ∷ m) out = copy_errors m (insert k v out)

unfoldable pub clone_state_errors_map : Option (Dict (List String)) → Dict (List String)
unfolding copy_errors
clone_state_errors_map none = []
clone_state_errors_map (some m) = copy_errors m []

module _ {C : Type 0} where
  unfoldable pub update_last_event : Time → Job C → Job C
  update_last_event now j = record j { last_update = some (truncate now millisecond) }
