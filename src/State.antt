-- ===== src/State.antt =====
-- processor.go, the types that configure a processor. `E` is the type of the functions that a user
-- gives as `Exec` (`none` is nil), and `L` that of what stands in `RateLimit`.
use jorb.Base.{String, Bool, Option, ℤ}

pub record Timeout : Type 0 where
  pub duration : ℤ
  pub fail_state : String

pub record State (E L : Type 0) : Type 0 where
  pub trigger_state : String
  pub exec : Option E
  pub terminal : Bool
  pub concurrency : ℤ
  pub rate_limit : L
  pub timeout : Option Timeout

pub record KickRequest (C : Type 0) : Type 0 where
  pub c : C
  pub state : String

pub record StatusCount : Type 0 where
  pub state : String
  pub completed : ℤ
  pub executing : ℤ
  pub waiting : ℤ
  pub terminal : Bool
