-- ===== src/Worker/Settling.antt =====
-- processor.go, `executeOne` and `classifyResult`: what a worker returns and tells the limiter, by how
-- the call of the user's function ended.
use jorb.Base.{
  ◌+◌, ◌≡◌, ◌∙◌, if◌then◌else◌, refl, ap, inl, inr, String, Bool, Option, none, some, ℤ, Bool-cases,
}
use jorb.Effect.{Returns, Returns-map}
use jorb.Job.{Job}
use jorb.State.{State, Timeout}
use jorb.Worker.{GoError, is_rate_limit_error, BackoffRateLimiter, Outcome, Limits, execute_one}
use jorb.Worker.Ending.{
  Ending, without_error, too_late, limited, refused, late, reported, rate_limit_found,
  rate_limit_shown, timed_out-late,
}
use jorb.Worker.Outcomes.{
  Feedback, succeeded, slowed, ignored, told, tokens, feedback, limits_by_test,
}

module _ (timeout : Option Timeout) (outer_done : Bool) (err : Option GoError) where
  feedback-reported :
      (v : Ending timeout outer_done err) → feedback timeout err outer_done ≡ reported v
  feedback-reported v = rw (timed_out-late timeout outer_done err v, feedback) (by_ending v)
    where
      by_ending :
          (u : Ending timeout outer_done err)
          → Path Feedback
              (elim (late u) [
                | some t ↦ ignored
                | none ↦ elim err [
                  | none ↦ succeeded
                  | some e ↦ if is_rate_limit_error e then slowed else ignored
                ]
              ])
              (reported u)
      by_ending (without_error a) = rw a refl
      by_ending (too_late t e a b w c) = refl
      by_ending (limited e a b w) = rw (a, rate_limit_found w) refl
      by_ending (refused e a b w) = elim (Bool-cases (is_rate_limit_error e)) [
        | inl limit ↦ absurd (w (rate_limit_shown e limit))
        | inr other ↦ rw (a, other) refl
      ]

module _ {E L A C : Type 0} (ops : BackoffRateLimiter A) (text : ℤ → String)
    (call : E → Option ℤ → C → Outcome C) (state : State E L) where
  -- What the limiter is told, when there is a function to call: nothing if the call was too late,
  -- a success if it ended without an error, a backoff if its error is or wraps a `RateLimitError`, and
  -- nothing after any other error; a limiter that cannot back off is told nothing. Each job asks once
  -- for a token, if there is a limiter.
  pub execute_one_limits :
      (outer_done : Bool) (limits : Limits A) (job : Job C) (f : E) (out : Outcome C)
      (v : Ending state.timeout outer_done out.err)
      → state.exec ≡ some f
      → call f (elim state.timeout [ none ↦ none | some t ↦ some t.duration ]) job.c ≡ out
      → Returns (execute_one ops text call state outer_done limits job) (λ (r, l).
        (l.limiter ≡ told ops (reported v) limits.limiter)
        × (l.waits ≡ limits.waits + tokens limits.limiter))
  execute_one_limits outer_done limits job f out v ef eo =
      Returns-map _ _ (execute_one ops text call state outer_done limits job)
        (limits_by_test ops text call state outer_done limits job f out ef eo)
        λ (r, l) (limiter, waits). (
          limiter
              ∙ ap (λ b. told ops b limits.limiter)
                  (feedback-reported state.timeout outer_done out.err v),
          waits,
        )
