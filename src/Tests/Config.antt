-- ===== src/Tests/Config.antt =====
-- A processor of three states: two workers fetch, one stores, and `done` is terminal.
use jorb.Base.{ℕ, String, true, false, none, some, List, [], ◌∷◌, pos}
use jorb.Effect.{Result, ok, blocked, panic}
use jorb.Job.{Job}
use jorb.State.{State}
use jorb.Storage.{Storage}
use jorb.Storage.New.{new_state_storage_from_states}

abbrev pub fetch : State Unit Unit
fetch = record {
  trigger_state = "fetch";
  exec = some tt;
  terminal = false;
  concurrency = pos 2;
  rate_limit = tt;
  timeout = some (record { duration = pos 30; fail_state = "done" });
}

abbrev pub keep : State Unit Unit
keep = record {
  trigger_state = "keep";
  exec = some tt;
  terminal = false;
  concurrency = pos 1;
  rate_limit = tt;
  timeout = none;
}

abbrev pub done : State Unit Unit
done = record {
  trigger_state = "done";
  exec = none;
  terminal = true;
  concurrency = pos 0;
  rate_limit = tt;
  timeout = none;
}

abbrev pub config : List (State Unit Unit)
config = fetch ∷ keep ∷ done ∷ []

abbrev pub initial : Storage Unit Unit ℕ
initial = new_state_storage_from_states config

abbrev pub job_in : String → String → Job ℕ
job_in id state = record {
  id = id;
  c = 7;
  state = state;
  state_errors = some [];
  last_update = none;
}

-- What a call returns, or `d` if it does not.
abbrev pub value_of : {A : Type 0} → A → Result A → A
value_of d (ok a) = a
value_of d blocked = d
value_of d (panic p) = d
