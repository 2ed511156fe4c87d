-- ===== src/Storage/New.antt =====
-- processor.go, `newStateStorageFromStates` and `validate`: the storage that a processor starts
-- with, and the configurations that `NewProcessor` refuses.
use jorb.Base.{
  or_else, String, ◌==◌, Option, none, some, List, [], ◌∷◌, ◌++◌, ℤ, pos, pos_part, ltb_ℤ, leb_ℤ,
  Dict, lookup, insert, if◌then◌else◌,
}
use jorb.Base.Order.{sort_strings}
use jorb.Channel.{make_chan}
use jorb.State.{State, Timeout}
use jorb.Storage.{Storage}

pub data ConfigError : Type 0 where
  negative_concurrency non_positive_concurrency no_exec no_fail_state : String → ConfigError
  duration_not_positive : String → ℤ → ConfigError
  fail_state_not_registered : String → String → ConfigError

module _ {E L C : Type 0} where
  -- the body of the loop over the states
  unfoldable pub add_state : Storage E L C → State E L → Storage E L C
  unfolding make_chan
  add_state st s =
      let name = s.trigger_state in
      record st {
        sorted_state_names = st.sorted_state_names ++ name ∷ [];
        state_map = insert name s st.state_map;
        state_status_map =
            insert name
              (record {
                state = name;
                completed = pos 0;
                executing = pos 0;
                waiting = pos 0;
                terminal = s.terminal;
              })
              st.state_status_map;
        state_chan =
            insert name
              (make_chan (if ltb_ℤ s.concurrency (pos 0) then 0 else pos_part s.concurrency))
              st.state_chan;
      }

  abbrev pub empty_storage : List (State E L) → Storage E L C
  empty_storage states = record {
    states = states;
    state_map = [];
    state_status_map = [];
    state_waiting_jobs_map = [];
    state_chan = [];
    sorted_state_names = [];
  }

  unfoldable pub add_states : Storage E L C → List (State E L) → Storage E L C
  unfolding add_state
  add_states st [] = st
  add_states st (s ∷ ss) = add_states (add_state st s) ss

  unfoldable pub new_state_storage_from_states : List (State E L) → Storage E L C
  unfolding add_states sort_strings
  new_state_storage_from_states states =
      let st = add_states (empty_storage states) states in
      record st { sorted_state_names = sort_strings st.sorted_state_names }

module _ {E L : Type 0} where
  unfoldable pub check_workers : State E L → Option ConfigError
  check_workers s =
      if s.terminal
      then (if ltb_ℤ s.concurrency (pos 0)
          then some (negative_concurrency s.trigger_state)
          else none)
      else if ltb_ℤ s.concurrency (pos 1)
      then some (non_positive_concurrency s.trigger_state)
      else elim s.exec [ none ↦ some (no_exec s.trigger_state) | some f ↦ none ]

  unfoldable pub check_timeout : Dict (State E L) → String → Option Timeout → Option ConfigError
  check_timeout m name none = none
  check_timeout m name (some t) =
      if leb_ℤ t.duration (pos 0)
      then some (duration_not_positive name t.duration)
      else if t.fail_state == ""
      then some (no_fail_state name)
      else elim (lookup t.fail_state m) [
        | none ↦ some (fail_state_not_registered name t.fail_state)
        | some f ↦ none
      ]

  -- the body of the loop: the first error of a state
  unfoldable pub check_state : Dict (State E L) → State E L → Option ConfigError
  unfolding check_workers check_timeout
  check_state m s = or_else (check_workers s) (check_timeout m s.trigger_state s.timeout)

  unfoldable pub check_states : Dict (State E L) → List (State E L) → Option ConfigError
  unfolding check_state
  check_states m [] = none
  check_states m (s ∷ ss) = or_else (check_state m s) (check_states m ss)

unfoldable pub validate : {E L C : Type 0} → Storage E L C → Option ConfigError
unfolding check_states
validate st = check_states st.state_map st.states
