-- ===== src/Worker.antt =====
-- processor.go, `StateExec`: what a worker does with one job; and the errors of ratelimit.go. The
-- user's function and the text of a duration are arguments; logging is left out.
pub mod Outcomes
pub mod Ending
pub mod Settling
use jorb.Base.{
  ℕ, ◌+◌, String, Bool, true, false, not, ◌&&◌, Option, none, some, List, [], ◌∷◌, ◌++◌, ℤ, Dict,
  lookup, insert, if◌then◌else◌,
}
use jorb.Base.Decimal.{concat}
use jorb.Effect.{Result, ok, panic, nil_map_write, ◌>>=◌}
use jorb.Job.{Job, clone_state_errors_map}
use jorb.Processor.{Return}
use jorb.Storage.{deref}
use jorb.State.{State, Timeout, KickRequest}

-- The errors that the code tells apart. `labelled` is what `fmt.Errorf("…: %w", …)` makes; a
-- `RateLimitError` wraps the error that it holds, if any.
pub data GoError : Type 0 where
  plain : String → GoError
  deadline_exceeded canceled empty_rate_limit : GoError
  rate_limit_on : GoError → GoError
  labelled : String → GoError → GoError

-- `err.Error()`
unfoldable pub error_text : GoError → String
error_text (plain s) = s
error_text deadline_exceeded = "context deadline exceeded"
error_text canceled = "context canceled"
error_text empty_rate_limit = "rate limit exceeded: <nil>"
error_text (rate_limit_on e) = concat "rate limit exceeded: " (error_text e)
error_text (labelled s e) = concat s (concat ": " (error_text e))

-- `errors.As(err, &rle)`
unfoldable pub is_rate_limit_error : GoError → Bool
is_rate_limit_error empty_rate_limit = true
is_rate_limit_error (rate_limit_on e) = true
is_rate_limit_error (labelled s e) = is_rate_limit_error e
is_rate_limit_error _ = false

-- `errors.Is(err, context.DeadlineExceeded)`
unfoldable pub is_deadline_exceeded : GoError → Bool
is_deadline_exceeded deadline_exceeded = true
is_deadline_exceeded (rate_limit_on e) = is_deadline_exceeded e
is_deadline_exceeded (labelled s e) = is_deadline_exceeded e
is_deadline_exceeded _ = false

-- What stands in `State.RateLimit`: nil, a limiter that cannot back off, or one that can.
pub data RateLimit (A : Type 0) : Type 0 where
  unlimited fixed : RateLimit A
  adaptive : A → RateLimit A

-- `BackoffRateLimiter`
pub record BackoffRateLimiter (A : Type 0) : Type 0 where
  pub backoff : A → A
  pub on_success : A → A

-- What a call of the user's function gives back.
pub record Outcome (C : Type 0) : Type 0 where
  pub c : C
  pub state : String
  pub kick_requests : List (KickRequest C)
  pub err : Option GoError

-- The limiter, and how often a worker has asked it for a token.
pub record Limits (A : Type 0) : Type 0 where
  pub limiter : RateLimit A
  pub waits : ℕ

unfoldable pub apply_rate_limit : {A : Type 0} → Limits A → Limits A
apply_rate_limit l = elim l.limiter [
  | unlimited ↦ l
  | fixed ↦ record l { waits = l.waits + 1 }
  | adaptive a ↦ record l { waits = l.waits + 1 }
]

module _ {A : Type 0} (ops : BackoffRateLimiter A) where
  unfoldable pub apply_rate_limit_error_backoff : GoError → RateLimit A → RateLimit A
  apply_rate_limit_error_backoff e (adaptive a) =
      if is_rate_limit_error e then adaptive (ops.backoff a) else adaptive a
  apply_rate_limit_error_backoff e l = l

  unfoldable pub apply_rate_limit_success : RateLimit A → RateLimit A
  apply_rate_limit_success (adaptive a) = adaptive (ops.on_success a)
  apply_rate_limit_success l = l

abbrev pub errors_of : Option (List String) → List String
errors_of none = []
errors_of (some es) = es

module _ {C : Type 0} where
  -- `j.StateErrors[k] = append(j.StateErrors[k], msg)`
  unfoldable pub add_error : Job C → String → String → Result (Job C)
  add_error j k msg = elim j.state_errors [
    | none ↦ panic nil_map_write
    | some m ↦
        ok (record j { state_errors = some (insert k (errors_of (lookup k m) ++ msg ∷ []) m) })
  ]

-- The deadline of our own context has passed, and the outer one is in order.
abbrev pub timed_out : Option Timeout → Option GoError → Bool → Option Timeout
timed_out none err outer_done = none
timed_out (some t) none outer_done = none
timed_out (some t) (some e) outer_done =
    if is_deadline_exceeded e && not outer_done then some t else none

module _ {A C : Type 0} (ops : BackoffRateLimiter A) (duration_text : ℤ → String) where
  -- `j` is the job as the user's function has left it.
  unfoldable pub classify_failure :
      Limits A → Job C → String → Option GoError → Result (Job C × Limits A)
  classify_failure l j prior none =
      ok (j, record l { limiter = apply_rate_limit_success ops l.limiter })
  classify_failure l j prior (some e) = do
    j' ← add_error j prior (error_text e)
    ok (j', record l { limiter = apply_rate_limit_error_backoff ops e l.limiter })

  unfoldable pub classify_result :
      Option Timeout → Bool → Limits A → Job C → String → Option GoError → Result (Job C × Limits A)
  classify_result timeout outer_done l j prior err = elim (timed_out timeout err outer_done) [
    | none ↦ classify_failure l j prior err
    | some t ↦ do
      j' ← add_error j prior (concat "timed out after " (duration_text t.duration))
      ok (record j' { state = t.fail_state }, l)
  ]

-- The deadline of the context that `Exec` is called with, if it has one of its own.
unfoldable pub derive_exec_context : Option Timeout → Option ℤ
derive_exec_context none = none
derive_exec_context (some t) = some t.duration

module _ {E L A C : Type 0} (ops : BackoffRateLimiter A) (duration_text : ℤ → String)
    (call : E → Option ℤ → C → Outcome C) where
  -- `outer_done` says whether the context of the run is done when the call has come back.
  unfoldable pub execute_one : State E L → Bool → Limits A → Job C → Result (Return C × Limits A)
  execute_one state outer_done limits job = do
    let j = record job { state_errors = some (clone_state_errors_map job.state_errors) }
    let l = apply_rate_limit limits
    f ← deref state.exec
    let out = call f (derive_exec_context state.timeout) j.c
    let ran = record j { c = out.c; state = out.state }
    (done, l') ← classify_result ops duration_text state.timeout outer_done l ran j.state out.err
    ok (record { prior_state = j.state; job = done; kick_requests = out.kick_requests }, l')
