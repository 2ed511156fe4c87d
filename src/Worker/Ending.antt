-- ===== src/Worker/Ending.antt =====
-- How a call of the user's function ends, told by the chain of errors that its error wraps, and what a
-- worker makes of each ending.
use jorb.Base.{
  ◌≡◌, refl, ap, ◌⊎◌, inl, inr, String, Bool, true, false, Option, none, some, ℤ, Bool-cases,
}
use jorb.Base.Decimal.{concat}
use jorb.State.{Timeout}
use jorb.Worker.{
  GoError, deadline_exceeded, empty_rate_limit, rate_limit_on, labelled, plain, canceled,
  error_text, is_rate_limit_error, is_deadline_exceeded, timed_out,
}
use jorb.Worker.Outcomes.{Feedback, succeeded, slowed, ignored}

-- The error satisfies `P`, or an error that it wraps does, directly or through others.
pub data Wraps (P : GoError → Type 0) : GoError → Type 0 where
  itself : {e : GoError} → P e → Wraps P e
  under_label : {s : String} {e : GoError} → Wraps P e → Wraps P (labelled s e)
  under_limit : {e : GoError} → Wraps P e → Wraps P (rate_limit_on e)

-- A deadline has passed: `context.DeadlineExceeded` is in the chain.
abbrev pub DeadlineIn : GoError → Type 0
DeadlineIn e = Wraps (λ d. d ≡ deadline_exceeded) e

-- A service limits the rate: a `RateLimitError`, with or without an error inside, is in the chain.
abbrev pub RateLimitIn : GoError → Type 0
RateLimitIn e = Wraps (λ d. (d ≡ empty_rate_limit) ⊎ ((x : GoError) × (d ≡ rate_limit_on x))) e

-- The error is not that of the state's own deadline.
abbrev pub NotLate : Option Timeout → Bool → GoError → Type 0
NotLate timeout outer_done e = (timeout ≡ none) ⊎ (¬ (DeadlineIn e)) ⊎ (outer_done ≡ true)

-- `outer_done` says whether the context of the run is done.
pub data Ending (timeout : Option Timeout) (outer_done : Bool) (err : Option GoError) : Type 0 where
  without_error : err ≡ none → Ending timeout outer_done err
  too_late :
      (t : Timeout) (e : GoError)
      → timeout ≡ some t
      → err ≡ some e
      → DeadlineIn e
      → outer_done ≡ false
      → Ending timeout outer_done err
  limited :
      (e : GoError)
      → err ≡ some e
      → NotLate timeout outer_done e
      → RateLimitIn e
      → Ending timeout outer_done err
  refused :
      (e : GoError)
      → err ≡ some e
      → NotLate timeout outer_done e
      → ¬ (RateLimitIn e)
      → Ending timeout outer_done err

deadline_found : {e : GoError} → DeadlineIn e → is_deadline_exceeded e ≡ true
unfolding is_deadline_exceeded
deadline_found (itself p) = ap is_deadline_exceeded p
deadline_found (under_label w) = deadline_found w
deadline_found (under_limit w) = deadline_found w

deadline_shown : (e : GoError) → is_deadline_exceeded e ≡ true → DeadlineIn e
unfolding is_deadline_exceeded
deadline_shown (plain s) h = cc
deadline_shown deadline_exceeded h = itself refl
deadline_shown canceled h = cc
deadline_shown empty_rate_limit h = cc
deadline_shown (rate_limit_on e) h = under_limit (deadline_shown e h)
deadline_shown (labelled s e) h = under_label (deadline_shown e h)

pub rate_limit_found : {e : GoError} → RateLimitIn e → is_rate_limit_error e ≡ true
unfolding is_rate_limit_error
rate_limit_found (itself (inl p)) = ap is_rate_limit_error p
rate_limit_found (itself (inr (x, p))) = ap is_rate_limit_error p
rate_limit_found (under_label w) = rate_limit_found w
rate_limit_found (under_limit w) = refl

pub rate_limit_shown : (e : GoError) → is_rate_limit_error e ≡ true → RateLimitIn e
unfolding is_rate_limit_error
rate_limit_shown (plain s) h = cc
rate_limit_shown deadline_exceeded h = cc
rate_limit_shown canceled h = cc
rate_limit_shown empty_rate_limit h = itself (inl refl)
rate_limit_shown (rate_limit_on e) h = itself (inr (e, refl))
rate_limit_shown (labelled s e) h = under_label (rate_limit_shown e h)

on_time_or_late :
    (timeout : Option Timeout) (outer_done : Bool) (e : GoError)
    → ((t : Timeout) × (timeout ≡ some t) × DeadlineIn e × (outer_done ≡ false))
      ⊎ NotLate timeout outer_done e
on_time_or_late none outer_done e = inr (inl refl)
on_time_or_late (some t) true e = inr (inr (inr refl))
on_time_or_late (some t) false e = elim (Bool-cases (is_deadline_exceeded e)) [
  | inl passed ↦ inl (t, refl, deadline_shown e passed, refl)
  | inr other ↦ inr (inr (inl (λ w. cc (deadline_found w, other))))
]

-- Every call ends in one of these ways.
pub ending :
    (timeout : Option Timeout) (outer_done : Bool) (err : Option GoError)
    → Ending timeout outer_done err
ending timeout outer_done none = without_error refl
ending timeout outer_done (some e) = elim (on_time_or_late timeout outer_done e) [
  | inl (t, is_set, w, live) ↦ too_late t e is_set refl w live
  | inr in_time ↦ elim (Bool-cases (is_rate_limit_error e)) [
    | inl limit ↦ limited e refl in_time (rate_limit_shown e limit)
    | inr other ↦ refused e refl in_time (λ w. cc (rate_limit_found w, other))
  ]
]

module _ {timeout : Option Timeout} {outer_done : Bool} {err : Option GoError} where
  -- The state that the job goes to, when the function chose `chosen`.
  abbrev pub goes_to : String → Ending timeout outer_done err → String
  goes_to chosen (too_late t e a b w c) = t.fail_state
  goes_to chosen _ = chosen

  -- The message that is recorded, if there is one.
  abbrev pub noted : (ℤ → String) → Ending timeout outer_done err → Option String
  noted text (without_error a) = none
  noted text (too_late t e a b w c) = some (concat "timed out after " (text t.duration))
  noted text (limited e a b w) = some (error_text e)
  noted text (refused e a b w) = some (error_text e)

  -- What the limiter is told.
  abbrev pub reported : Ending timeout outer_done err → Feedback
  reported (without_error a) = succeeded
  reported (limited e a b w) = slowed
  reported _ = ignored

  abbrev pub late : Ending timeout outer_done err → Option Timeout
  late (too_late t e a b w c) = some t
  late _ = none

timed_out-none :
    (timeout : Option Timeout) (outer_done : Bool) (e : GoError)
    → NotLate timeout outer_done e
    → timed_out timeout (some e) outer_done ≡ none
timed_out-none none outer_done e h = refl
timed_out-none (some t) outer_done e (inl h) = cc
timed_out-none (some t) true e h = elim (Bool-cases (is_deadline_exceeded e)) [
  | inl passed ↦ rw passed refl
  | inr other ↦ rw other refl
]
timed_out-none (some t) false e (inr (inr h)) = cc
timed_out-none (some t) false e (inr (inl h)) = elim (Bool-cases (is_deadline_exceeded e)) [
  | inl passed ↦ absurd (h (deadline_shown e passed))
  | inr other ↦ rw other refl
]

pub timed_out-late :
    (timeout : Option Timeout) (outer_done : Bool) (err : Option GoError)
    (v : Ending timeout outer_done err)
    → timed_out timeout err outer_done ≡ late v
timed_out-late none outer_done err (without_error a) = refl
timed_out-late (some t) outer_done err (without_error a) = rw a refl
timed_out-late timeout outer_done err (too_late t e a b w c) = rw (a, b, c, deadline_found w) refl
timed_out-late timeout outer_done err (limited e a b w) =
    rw a (timed_out-none timeout outer_done e b)
timed_out-late timeout outer_done err (refused e a b w) =
    rw a (timed_out-none timeout outer_done e b)
