-- ===== src/Worker/Outcomes.antt =====
-- Where a job goes after a worker has had it, what is recorded of its errors, and what the limiter is
-- told.
use jorb.Base.{
  ℕ, ◌+◌, ◌≡◌, refl, sym, subst, ◌⊎◌, inl, inr, String, Bool, true, false, not, Option, none, some,
  List, [], ◌∷◌, ◌++◌, ℤ, Dict, lookup, insert, if◌then◌else◌, All, arith, ◌&&◌,
}
use jorb.Base.Decimal.{concat}
use jorb.Effect.{Returns, Returns-map}
use jorb.Job.{Job, clone_state_errors_map}
use jorb.Processor.Invariant.{IsRegistered}
use jorb.Processor.System.{Answers}
use jorb.Storage.{Storage}
use jorb.State.{State, Timeout}
use jorb.Worker.{
  derive_exec_context, GoError, error_text, is_rate_limit_error, is_deadline_exceeded, RateLimit,
  unlimited, adaptive, BackoffRateLimiter, Outcome, Limits, apply_rate_limit,
  apply_rate_limit_error_backoff, apply_rate_limit_success, errors_of, add_error, timed_out,
  classify_failure, classify_result, execute_one,
}

-- The message that is recorded for an outcome, if there is one.
abbrev pub message : (ℤ → String) → Option Timeout → Option GoError → Bool → Option String
message text timeout err outer_done = elim (timed_out timeout err outer_done) [
  | some t ↦ some (concat "timed out after " (text t.duration))
  | none ↦ elim err [ none ↦ none | some e ↦ some (error_text e) ]
]

-- The state that the job goes to: the fail state if its own deadline has passed.
abbrev pub destination : Option Timeout → Option GoError → Bool → String → String
destination timeout err outer_done chosen = elim (timed_out timeout err outer_done) [
  | some t ↦ t.fail_state
  | none ↦ chosen
]

-- The errors of a job by state, after a message for `prior`.
abbrev pub recorded : Option String → String → Dict (List String) → Dict (List String)
recorded none prior m = m
recorded (some msg) prior m = insert prior (errors_of (lookup prior m) ++ msg ∷ []) m

pub data Feedback : Type 0 where
  succeeded slowed ignored : Feedback

abbrev pub feedback : Option Timeout → Option GoError → Bool → Feedback
feedback timeout err outer_done = elim (timed_out timeout err outer_done) [
  | some t ↦ ignored
  | none ↦ elim err [
    | none ↦ succeeded
    | some e ↦ if is_rate_limit_error e then slowed else ignored
  ]
]

abbrev pub told : {A : Type 0} → BackoffRateLimiter A → Feedback → RateLimit A → RateLimit A
told ops succeeded (adaptive a) = adaptive (ops.on_success a)
told ops slowed (adaptive a) = adaptive (ops.backoff a)
told ops _ l = l

abbrev pub tokens : {A : Type 0} → RateLimit A → ℕ
tokens unlimited = 0
tokens _ = 1

destination_cases :
    (timeout : Option Timeout) (err : Option GoError) (outer_done : Bool) (chosen : String)
    → (destination timeout err outer_done chosen ≡ chosen)
      ⊎ ((t : Timeout) × (timeout ≡ some t)
          × (destination timeout err outer_done chosen ≡ t.fail_state))
destination_cases none err outer_done chosen = inl refl
destination_cases (some t) none outer_done chosen = inl refl
destination_cases (some t) (some e) outer_done chosen =
    settle (is_deadline_exceeded e && not outer_done)
  where
    settle :
        (late : Bool)
        → let d : String = elim (if late then some t else none) [
          | some u ↦ u.fail_state
          | none ↦ chosen
        ] in
          (d ≡ chosen) ⊎ ((u : Timeout) × (some t ≡ some u) × (d ≡ u.fail_state))
    settle true = inr (t, refl, refl)
    settle false = inl refl

destination_registered :
    {E L C : Type 0} (s : Storage E L C) (timeout : Option Timeout) (err : Option GoError)
    (outer_done : Bool) (chosen : String)
    → IsRegistered s chosen
    → ((t : Timeout) → timeout ≡ some t → IsRegistered s t.fail_state)
    → IsRegistered s (destination timeout err outer_done chosen)
destination_registered s timeout err outer_done chosen h fail =
    elim (destination_cases timeout err outer_done chosen) [
      | inl same ↦ subst (IsRegistered s) (sym same) h
      | inr (t, e, failed) ↦ subst (IsRegistered s) (sym failed) (fail t e)
    ]

module _ {E L A C : Type 0} (ops : BackoffRateLimiter A) (text : ℤ → String)
    (call : E → Option ℤ → C → Outcome C) (state : State E L) where
  -- What a worker returns, by what the code tests.
  pub return_by_test :
      (outer_done : Bool) (limits : Limits A) (job : Job C) (f : E) (out : Outcome C)
      → state.exec ≡ some f
      → call f (elim state.timeout [ none ↦ none | some t ↦ some t.duration ]) job.c ≡ out
      → Returns (execute_one ops text call state outer_done limits job) (λ (r, l).
        (r.prior_state ≡ job.state)
        × (r.job.id ≡ job.id)
        × (r.job.c ≡ out.c)
        × (r.job.state ≡ destination state.timeout out.err outer_done out.state)
        × (r.job.state_errors
            ≡ some (
                recorded
                  (message text state.timeout out.err outer_done)
                  job.state
                  (clone_state_errors_map job.state_errors)))
        × (r.kick_requests ≡ out.kick_requests))
  unfolding execute_one classify_result classify_failure add_error derive_exec_context
  return_by_test outer_done limits job f out ef eo = ground arith

  -- What the limiter is told, by what the code tests.
  pub limits_by_test :
      (outer_done : Bool) (limits : Limits A) (job : Job C) (f : E) (out : Outcome C)
      → state.exec ≡ some f
      → call f (elim state.timeout [ none ↦ none | some t ↦ some t.duration ]) job.c ≡ out
      → Returns (execute_one ops text call state outer_done limits job) (λ (r, l).
        (l.limiter ≡ told ops (feedback state.timeout out.err outer_done) limits.limiter)
        × (l.waits ≡ limits.waits + tokens limits.limiter))
  unfolding execute_one classify_result classify_failure add_error derive_exec_context
      apply_rate_limit apply_rate_limit_error_backoff apply_rate_limit_success
  limits_by_test outer_done limits job f out ef eo = ground arith

  -- With a function to call, and if the states that it chooses, for the job and its kicks, and
  -- the fail state of a timeout are registered, what a worker returns is an answer that the main
  -- goroutine can handle.
  pub execute_one-Answers :
      {E' L' : Type 0} (s : Storage E' L' C) (outer_done : Bool) (limits : Limits A) (job : Job C)
      (f : E) (out : Outcome C)
      → state.exec ≡ some f
      → call f (elim state.timeout [ none ↦ none | some t ↦ some t.duration ]) job.c ≡ out
      → IsRegistered s out.state
      → All (λ k. IsRegistered s k.state) out.kick_requests
      → ((t : Timeout) → state.timeout ≡ some t → IsRegistered s t.fail_state)
      → Returns (execute_one ops text call state outer_done limits job) (λ (r, l). Answers s job r)
  execute_one-Answers s outer_done limits job f out ef eo next kicks fail =
      Returns-map _ _ (execute_one ops text call state outer_done limits job)
        (return_by_test outer_done limits job f out ef eo)
        λ (r, l) (prior, id, c, at, errors, ks). record {
          prior = prior;
          same_id = id;
          next =
              subst (IsRegistered s) (sym at)
                (destination_registered s state.timeout out.err outer_done out.state next fail);
          kicks = subst (All (λ k. IsRegistered s k.state)) (sym ks) kicks;
        }
