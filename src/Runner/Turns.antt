-- ===== src/Runner/Turns.antt =====
-- `run_scenario_turns` of src/belt/runner/orchestrator.py: the life of an agent in one scenario.
pub mod Balance
pub mod Released
pub mod Files
pub mod Reached
pub mod Above
use agent_belt.Prelude.{
  ℕ, zero, suc, ◌+◌, String, Bool, true, false, not, ◌&&◌, ◌||◌, Option, none, some, List, [], ◌∷◌,
  ◌++◌, Dict, get, put, concat, is_some, or_else, nat_eq, if◌then◌else◌, ◌==◌, string_eq,
}
use agent_belt.Python.{Python}
use agent_belt.Entities.{TurnOutput, Turn, StateExpectation, blank_output}
use agent_belt.ErrorTypes.{unknown}
use agent_belt.Runner.Session.{
  Agent, Attempt, Event, Loop, Progress, ScenarioResult, Surroundings, World, acquired,
  agent_set_up, agent_torn_down, break, done, executed, next, propagate, raised, record_event,
  released, sandbox_down, sandbox_up, write_sentinel,
}

module _ (py : Python) {S : Type 0} (agent : Agent S (Python.Float py))
    (env : Surroundings (Python.Float py)) where
  open py use {Float}

  abbrev pub sentinel_at : ℕ → String → World S → World S
  sentinel_at i e w = write_sentinel env.sentinel i e w

  abbrev pub after_execute : ℕ → String → World S → S × Attempt String → World S × Attempt String
  after_execute i message w (s, answer) =
      (record_event (executed i message) (record w { agent = s }), answer)

  abbrev pub execute_rendered :
      ℕ → Turn Float → Attempt (Unit {0}) → String → World S → World S × Attempt String
  execute_rendered i turn (raised e) message w = (w, raised e)
  execute_rendered i turn (done _) message w =
      after_execute i message w (agent.execute message turn.flags w.agent)

  abbrev pub execute_turn : ℕ → Turn Float → Attempt String → World S → World S × Attempt String
  execute_turn i turn (raised e) w = (w, raised e)
  execute_turn i turn (done message) w = execute_rendered i turn (env.open_stream i) message w

  -- The output of a turn; where `fetch_results` raises, a sentinel and an output with an error.
  abbrev pub fetched :
      ℕ → String → World S → S × Attempt (TurnOutput Float) → World S × TurnOutput Float
  fetched i raw w (s, done o) = (record w { agent = s }, o)
  fetched i raw w (s, raised e) = (
    sentinel_at i (concat ("fetch_results error: " ∷ e ∷ [])) (record w { agent = s }),
    record blank_output { raw_cli = raw; has_error = some true },
  )

  abbrev pub with_cost : Option Float → Option Float → Option Float
  with_cost cost none = cost
  with_cost cost (some c) = some (py.add (or_else cost (py.of_ℕ 0)) c)

  -- `turn_output.error_type or UNKNOWN`
  abbrev pub error_of : Option String → String
  error_of none = unknown
  error_of (some e) = if e == "" then unknown else e

  abbrev pub is_true : Option Bool → Bool
  is_true none = false
  is_true (some b) = b

  abbrev pub errors_of : TurnOutput Float → List String
  errors_of o = if is_true o.has_error then error_of o.error_type ∷ [] else []

  -- `_capture_git_state`, of an isolated workspace only.
  abbrev pub with_diff : Option (Option String × List String) → TurnOutput Float → TurnOutput Float
  with_diff none o = o
  with_diff (some (diff, files)) o = record o { git_diff = diff; files_modified = files }

  abbrev pub captured : ℕ → Turn Float → TurnOutput Float → TurnOutput Float
  captured i turn o =
      let o' = env.capture turn.state_expect o in
      if env.manager then with_diff (env.capture_diff i) o' else o'

  abbrev pub write_turn :
      Attempt (Unit {0}) → ℕ → TurnOutput Float → Progress S Float → Loop S Float
  write_turn (raised e) i o p = propagate e p
  write_turn (done _) i o p = next (record p {
    world = record (p.world) { cli = put i o.raw_cli (p.world.cli) };
    completed = suc p.completed;
  })

  -- The rest of a turn's body, from the output that was fetched.
  abbrev pub finish_turn :
      ℕ → Turn Float → Progress S Float → World S × TurnOutput Float → Loop S Float
  finish_turn i turn p (w, o) =
      let o' = captured i turn o in
      write_turn (env.write_artifacts i) i o' (record p {
        world = w;
        cost = with_cost p.cost o.cost_usd;
        errors = p.errors ++ errors_of o;
        outputs = p.outputs ++ o' ∷ [];
      })

  abbrev pub after_turn :
      ℕ → Turn Float → Progress S Float → World S × Attempt String → Loop S Float
  after_turn i turn p (w, raised e) = break (record p { world = sentinel_at i e w })
  after_turn i turn p (w, done raw) =
      finish_turn i turn p (fetched i raw w (agent.fetch_results raw w.agent))

  unfoldable pub run_turn : ℕ → Turn Float → Progress S Float → Loop S Float
  run_turn i turn p =
      after_turn i turn p (execute_turn i turn (env.render turn.message p.outputs) p.world)

  -- The loop over the turns, and the exception that leaves it, if one does.
  unfoldable pub run_turns :
      ℕ → List (Turn Float) → Progress S Float → Progress S Float × Option String
  run_turns i [] p = (p, none)
  run_turns i (turn ∷ turns) p = elim (run_turn i turn p) [
    | next q ↦ run_turns (suc i) turns q
    | break q ↦ (q, none)
    | propagate e q ↦ (q, some e)
  ]

  -- What is left of the loop after a turn.
  abbrev pub continue_with : ℕ → List (Turn Float) → Loop S Float → Progress S Float × Option String
  continue_with i turns (next q) = run_turns (suc i) turns q
  continue_with i turns (break q) = (q, none)
  continue_with i turns (propagate e q) = (q, some e)

  -- `_build_sandbox_for_scenario`: whether the scenario has a sandbox to tear down.
  abbrev pub build_sandbox : Attempt (Unit {0}) → Attempt (Unit {0}) → Attempt Bool
  build_sandbox (raised e) setup = raised e
  build_sandbox (done _) setup =
      if env.provider == "host"
      then done false
      else elim setup [ raised e ↦ raised e | done _ ↦ done true ]

  abbrev pub release : World S → World S
  release w = if env.manager then record_event released w else w

  -- The `finally` block.
  abbrev pub clean_up : (sandboxed : Bool) → World S → World S
  clean_up sandboxed w =
      let torn = record_event agent_torn_down (record w { agent = agent.teardown w.agent }) in
      release (if sandboxed then record_event sandbox_down torn else torn)

  abbrev pub failed : String → ScenarioResult Float
  failed e = record {
    turns_completed = 0;
    agent_cost_usd = none;
    error = some e;
    agent_errors = [];
  }

  abbrev pub conclude :
      Bool → Progress S Float × Option String → World S × Attempt (ScenarioResult Float)
  conclude sandboxed (p, some e) = (clean_up sandboxed p.world, raised e)
  conclude sandboxed (p, none) = (
    clean_up sandboxed p.world,
    done (record {
      turns_completed = p.completed;
      agent_cost_usd = p.cost;
      error = none;
      agent_errors = p.errors;
    }),
  )

  abbrev pub start : World S → Progress S Float
  start w = record { world = w; completed = 0; cost = none; errors = []; outputs = [] }

  -- What is left once the locks are written, which raises before the `try` of the `finally` block.
  abbrev pub after_lock :
      List (Turn Float)
      → Bool
      → Option (Attempt (Unit {0}))
      → World S
      → World S × Attempt (ScenarioResult Float)
  after_lock turns sandboxed (some (raised e)) w = (w, raised e)
  after_lock turns sandboxed _ w = conclude sandboxed (run_turns 0 turns (start w))

  -- `agent.setup` stands before the `try` of the `finally` block.
  abbrev pub after_setup :
      List (Turn Float)
      → Bool
      → World S
      → S × Attempt (Unit {0})
      → World S × Attempt (ScenarioResult Float)
  after_setup turns sandboxed w (s, raised e) = (record w { agent = s }, raised e)
  after_setup turns sandboxed w (s, done _) =
      after_lock turns sandboxed env.write_lock (record_event agent_set_up (record w { agent = s }))

  abbrev pub set_up : List (Turn Float) → Bool → World S → World S × Attempt (ScenarioResult Float)
  set_up turns sandboxed w = after_setup turns sandboxed w (agent.setup w.agent)

  -- The resources are installed in an isolated workspace only.
  abbrev pub after_install :
      List (Turn Float)
      → Bool
      → Option (Attempt (Unit {0}))
      → World S
      → World S × Attempt (ScenarioResult Float)
  after_install turns sandboxed (some (raised e)) w =
      if env.manager
      then (let message = concat ("resource install failed: " ∷ e ∷ []) in
          (sentinel_at 0 message w, done (failed message)))
      else set_up turns sandboxed w
  after_install turns sandboxed _ w = set_up turns sandboxed w

  abbrev pub with_sandbox :
      List (Turn Float) → World S → Attempt Bool → World S × Attempt (ScenarioResult Float)
  with_sandbox turns w (raised e) =
      let message = concat ("sandbox setup failed: " ∷ e ∷ []) in
      (release (sentinel_at 0 message w), done (failed message))
  with_sandbox turns w (done sandboxed) =
      after_install turns sandboxed env.install (if sandboxed then record_event sandbox_up w else w)

  abbrev pub with_workspace : List (Turn Float) → World S → World S × Attempt (ScenarioResult Float)
  with_workspace turns w =
      with_sandbox turns w (build_sandbox env.validate_profile env.setup_sandbox)

  abbrev pub acquire_workspace :
      List (Turn Float) → Attempt (Unit {0}) → World S → World S × Attempt (ScenarioResult Float)
  acquire_workspace turns (raised e) w = (w, raised e)
  acquire_workspace turns (done _) w = with_workspace turns (record_event acquired w)

  -- `run_scenario_turns`
  unfoldable pub run_scenario_turns :
      List (Turn Float) → World S → World S × Attempt (ScenarioResult Float)
  run_scenario_turns turns w =
      if env.manager then acquire_workspace turns env.acquire w else with_workspace turns w
