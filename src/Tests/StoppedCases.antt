-- ===== src/Tests/StoppedCases.antt =====
-- The run of three turns of which the second raises, scored by the pipeline.
use agent_belt.Prelude.{ℕ, ◌≡◌, refl, true, false, none, some, [], ◌∷◌, arith}
use agent_belt.Payloads.{ScenarioScore}
use agent_belt.Runner.Session.{
  World, ScenarioResult, done, acquired, released, sandbox_up, sandbox_down, agent_set_up,
  agent_torn_down, executed,
}
use agent_belt.Runner.Turns.{run_scenario_turns, run_turns, run_turn}
use agent_belt.Pipeline.{Scorer, found, score_scenario}
use agent_belt.Pipeline.Stopped.{run_scenario_turns-no_pass, files_left}
use agent_belt.Tests.Samples.{sample_py, calls_output, rules_of_checks}
use agent_belt.Tests.RunnerCases.{sample_agent, sample_env, fresh_world, three_turns}

abbrev stopped_world : World ℕ
stopped_world = record {
  agent = 2;
  cli = (0, "done") ∷ (1, "boom") ∷ [];
  log =
      acquired
      ∷ sandbox_up
      ∷ agent_set_up
      ∷ executed 0 "go"
      ∷ executed 1 "go"
      ∷ agent_torn_down
      ∷ sandbox_down
      ∷ released
      ∷ [];
}

abbrev stopped_result : ScenarioResult ℕ
stopped_result = record {
  turns_completed = 1;
  agent_cost_usd = none;
  error = none;
  agent_errors = [];
}

stopped_run :
    run_scenario_turns sample_py sample_agent sample_env three_turns fresh_world
    ≡ (stopped_world, done stopped_result)
unfolding run_scenario_turns run_turns run_turn
stopped_run = refl

-- A scorer of the rules that is content with anything.
abbrev content_rules : Scorer ℕ
content_rules = record {
  name = "rules";
  score = λ outputs. done (some (record { passed = true; payload = rules_of_checks [] }));
}

run_scenario_turns-no_pass_example :
    (s : ScenarioScore) × (score_scenario
        (λ n. "n")
        "a"
        "core"
        (found (files_left (λ i. some (done calls_output)) (λ i. none) stopped_world 3 0))
        (content_rules ∷ [])
      ≡ some s)
    × (s.overall_pass ≡ false)
run_scenario_turns-no_pass_example =
    run_scenario_turns-no_pass sample_py sample_agent sample_env three_turns
      (λ i. some (done calls_output)) (λ i. none) (λ n. "n") "a" "core" fresh_world stopped_world
      stopped_result (content_rules ∷ []) refl stopped_run (omega arith) refl
