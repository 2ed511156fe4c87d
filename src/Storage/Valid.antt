-- ===== src/Storage/Valid.antt =====
-- What `validate` accepts.
use jorb.Base.{
  or_else, ◌≡◌, refl, ◌≢◌, ◌↔◌, String, eq_iff, true, false, Option, none, some, List, [], ◌∷◌, pos,
  ◌≤ℤ◌, Dict, lookup, All, arith,
}
use jorb.State.{State, Timeout}
use jorb.Storage.{Storage}
use jorb.Storage.New.{check_workers, check_timeout, check_state, check_states, validate}

or_else_iff : {A : Type 0} (a b : Option A) → (or_else a b ≡ none) ↔ ((a ≡ none) × (b ≡ none))
or_else_iff a b = ground arith

module _ {E L : Type 0} where
  abbrev pub TimeoutOk : Dict (State E L) → Option Timeout → Type 0
  TimeoutOk m none = Unit
  TimeoutOk m (some t) =
      (pos 1 ≤ℤ t.duration) × (t.fail_state ≢ "") × (lookup t.fail_state m ≢ none)

  -- A state that can be worked: room for a job and a function, unless it is terminal; and a timeout
  -- that leads to a registered state, which the code allows on a terminal state too.
  pub record StateOk (m : Dict (State E L)) (s : State E L) : Type 0 where
    pub terminal_concurrency : s.terminal ≡ true → pos 0 ≤ℤ s.concurrency
    pub concurrency : s.terminal ≡ false → pos 1 ≤ℤ s.concurrency
    pub exec : s.terminal ≡ false → s.exec ≢ none
    pub timeout : TimeoutOk m s.timeout

  check_workers_iff :
      (s : State E L)
      → (check_workers s ≡ none) ↔ (
          (s.terminal ≡ true → pos 0 ≤ℤ s.concurrency)
          × (s.terminal ≡ false → pos 1 ≤ℤ s.concurrency)
          × (s.terminal ≡ false → s.exec ≢ none))
  unfolding check_workers
  check_workers_iff s = ground arith

  check_timeout_iff :
      (m : Dict (State E L)) (name : String) (t : Option Timeout)
      → (check_timeout m name t ≡ none) ↔ TimeoutOk m t
  unfolding check_timeout
  check_timeout_iff m name none = ground arith
  check_timeout_iff m name (some t) = ground (arith, eq_iff t.fail_state "")

  check_state_iff : (m : Dict (State E L)) (s : State E L) → (check_state m s ≡ none) ↔ StateOk m s
  unfolding check_state
  check_state_iff m s = (
    λ e.
        let (w, t) = (or_else_iff _ _).0 e in
        let (a, b, c) = (check_workers_iff s).0 w in
        record {
          terminal_concurrency = a;
          concurrency = b;
          exec = c;
          timeout = (check_timeout_iff m s.trigger_state s.timeout).0 t;
        },
    λ g. (or_else_iff _ _).1 (
      (check_workers_iff s).1 (g.terminal_concurrency, g.concurrency, g.exec),
      (check_timeout_iff m s.trigger_state s.timeout).1 g.timeout,
    ),
  )

  check_states_iff :
      (m : Dict (State E L)) (ss : List (State E L))
      → (check_states m ss ≡ none) ↔ All (StateOk m) ss
  unfolding check_states
  check_states_iff m [] = (λ e. tt, λ e. refl)
  check_states_iff m (s ∷ ss) = (
    λ e.
        let (a, b) = (or_else_iff _ _).0 e in
        ((check_state_iff m s).0 a, (check_states_iff m ss).0 b),
    λ g. (or_else_iff _ _).1 ((check_state_iff m s).1 g.0, (check_states_iff m ss).1 g.1),
  )

-- `validate` accepts a storage exactly when each of its states can be worked: it is terminal and its
-- concurrency is not negative, or it has a concurrency of one at least and a function; and its timeout,
-- if it has one, is positive and names a fail state that is registered. A terminal state may have
-- a timeout.
pub validate_iff :
    {E L C : Type 0} (st : Storage E L C)
    → (validate st ≡ none) ↔ All (StateOk st.state_map) st.states
unfolding validate
validate_iff st = check_states_iff st.state_map st.states
