-- ===== src/Runner/Session.antt =====
-- What `run_scenario_turns` of src/belt/runner/orchestrator.py works on: the calls that it makes, their
-- outcomes, and its variables.
use agent_belt.Prelude.{
  ℕ, String, Bool, Option, none, some, List, [], ◌∷◌, ◌++◌, Dict, get, put, is_some, nat_eq,
  if◌then◌else◌, string_eq,
}
use agent_belt.Entities.{TurnOutput, StateExpectation}

-- What a call gives: a value, or the text of what it raises.
pub data Attempt (A : Type 0) : Type 0 where
  done : A → Attempt A
  raised : String → Attempt A

-- The calls that a run makes of the agent, the sandbox and the workspace manager.
pub data Event : Type 0 where
  acquired released sandbox_up sandbox_down agent_set_up agent_torn_down : Event
  executed : (turn_idx : ℕ) → (message : String) → Event

-- The state of the agent, the files `turn_{i}_cli.txt` of the outcome directory, and the calls.
pub record World (S : Type 0) : Type 0 where
  pub agent : S
  pub cli : Dict ℕ String
  pub log : List Event

-- `BaseAgentAdapter`, as the orchestrator uses it; an exception of `teardown` is swallowed.
pub record Agent (S F : Type 0) : Type 0 where
  pub setup : S → S × Attempt (Unit {0})
  pub execute : (message : String) → (flags : List String) → S → S × Attempt String
  pub fetch_results : String → S → S × Attempt (TurnOutput F)
  pub teardown : S → S

-- What surrounds a run. Where `manager` is false there is no workspace manager.
pub record Surroundings (F : Type 0) : Type 0 where
  pub manager : Bool
  pub acquire : Attempt (Unit {0})
  -- `get_sandbox_provider` and `validate_profile`, and the provider's `setup`
  pub validate_profile : Attempt (Unit {0})
  pub setup_sandbox : Attempt (Unit {0})
  pub provider : String
  -- `install_resources`; `none` where the group has no resources
  pub install : Option (Attempt (Unit {0}))
  -- whether `_BoundedStreamWriter.from_path`, where streams are written, and the writes of the
  -- artifacts of a turn succeed
  pub open_stream : ℕ → Attempt (Unit {0})
  pub write_artifacts : ℕ → Attempt (Unit {0})
  -- `_render_turn_message`, of the template and the outputs so far
  pub render : String → List (TurnOutput F) → Attempt String
  -- `_capture_workspace_state`, and what `capture_diff` gives, an exception being `none`
  pub capture : StateExpectation → TurnOutput F → TurnOutput F
  pub capture_diff : ℕ → Option (Option String × List String)
  -- the write of `resource_lock.json`; `none` where there are no locks to write
  pub write_lock : Option (Attempt (Unit {0}))
  -- the file that the write of a sentinel leaves; `none` where it fails and leaves none
  pub sentinel : ℕ → String → Option String

-- The fields of `ScenarioResult` that a run determines.
pub record ScenarioResult (F : Type 0) : Type 0 where
  pub turns_completed : ℕ
  pub agent_cost_usd : Option F
  pub error : Option String
  pub agent_errors : List String

pub record Progress (S F : Type 0) : Type 0 where
  pub world : World S
  pub completed : ℕ
  pub cost : Option F
  pub errors : List String
  pub outputs : List (TurnOutput F)

-- How the loop over the turns goes on: with the next turn, not at all, or by an exception.
pub data Loop (S F : Type 0) : Type 0 where
  next : Progress S F → Loop S F
  break : Progress S F → Loop S F
  propagate : String → Progress S F → Loop S F

abbrev pub put_some : ℕ → Option String → Dict ℕ String → Dict ℕ String
put_some i none files = files
put_some i (some text) files = put i text files

module _ {S : Type 0} where
  abbrev pub record_event : Event → World S → World S
  record_event e w = record w { log = w.log ++ e ∷ [] }

  -- `_write_sentinel`: a file that stands is kept, and what the write raises is swallowed.
  abbrev pub write_sentinel : (text : ℕ → String → Option String) → ℕ → String → World S → World S
  write_sentinel text i e w = record w {
    cli = if is_some (get i w.cli) then w.cli else put_some i (text i e) w.cli;
  }
