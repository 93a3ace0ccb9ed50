-- ===== src/Tests/PipelineCases.antt =====
-- The pipeline on a scenario of three turns, of which one left no file and one an output that
-- cannot be parsed.
use agent_belt.Prelude.{
  ℕ, ◌≡◌, refl, Option, none, some, List, [], ◌∷◌, true, false, ◌&&◌, ◌||◌, all, get, string_eq,
}
use agent_belt.Levels.{high}
use agent_belt.Payloads.{llm, ScenarioScore}
use agent_belt.Runner.Session.{Attempt, done, raised}
use agent_belt.Pipeline.{
  TurnFiles, ScorerResult, Scorer, found, load_turns, run_scorers, score_scenario, failed_rules,
  execution_check,
}
use agent_belt.Pipeline.Outputs.{left_output}
use agent_belt.Pipeline.Verdict.{score_scenario-passes, is_good}
use agent_belt.Pipeline.Surfaced.{score_scenario-shown, checks_at, gives_apart}
use agent_belt.Pipeline.Reported.{turns_reported, gave_verdict, names_scorer}
use agent_belt.Tests.Samples.{
  calls_output, errored_payload, scenario_payload, check, rules_of_checks,
}

abbrev sample_files : List (TurnFiles ℕ)
sample_files =
    record { output = some (done calls_output); cli = some (done "text"); state = none }
    ∷ record { output = none; cli = none; state = none }
    ∷ record {
      output = some (raised "bad json");
      cli = some (done "raw");
      state = some (done "state");
    }
    ∷ []

abbrev judge_scorer : Attempt (Option ScorerResult) → Scorer ℕ
judge_scorer answer = record { name = "llm"; score = λ outputs. answer }

abbrev rules_scorer : Scorer ℕ
rules_scorer = record {
  name = "rules";
  score = λ outputs.
      done (
        some
          (record { passed = true; payload = rules_of_checks (check "tools" (some true) ∷ []) }));
}

-- The judge of the first scorer errored, the last scorer raises after the rules.
abbrev sample_scorers : List (Scorer ℕ)
sample_scorers =
    judge_scorer (done (some (record { passed = false; payload = llm errored_payload })))
    ∷ rules_scorer
    ∷ record { name = "plugin"; score = λ outputs. raised "no network" }
    ∷ []

score_scenario-passes_example :
    (s : ScenarioScore) × (score_scenario (λ n. "n") "a" "core" (found sample_files) sample_scorers
      ≡ some s)
    × (s.overall_pass ≡ (
        all left_output sample_files
        && all (λ c. is_good (c.score (load_turns (λ n. "n") 0 sample_files).0)) sample_scorers))
score_scenario-passes_example =
    score_scenario-passes (λ n. "n") "a" "core" sample_files sample_scorers refl

sample_apart :
    all (gives_apart (λ n. "n") "a" "core" sample_files sample_scorers) sample_scorers ≡ true
unfolding load_turns
sample_apart = refl

score_scenario-shown_example :
    (s : ScenarioScore) × (score_scenario (λ n. "n") "a" "core" (found sample_files) sample_scorers
      ≡ some s)
    × (turns_reported (λ n. "n") (checks_at (get "rules" s.scores)) 0 sample_files ≡ true)
    × (all
          (λ c.
            gave_verdict (c.score (load_turns (λ n. "n") 0 sample_files).0)
            || names_scorer (checks_at (get "rules" s.scores)) c.name)
          sample_scorers
        ≡ true)
score_scenario-shown_example =
    score_scenario-shown (λ n. "n") "a" "core" sample_files sample_scorers refl sample_apart

-- Without files that are missing the rules and a passing judge pass.
all_pass :
    score_scenario
      (λ n. "n")
      "a"
      "core"
      (found (record { output = some (done calls_output); cli = none; state = none } ∷ []))
      (judge_scorer
          (done (some (record { passed = true; payload = llm (scenario_payload true high) })))
        ∷ rules_scorer
        ∷ [])
    ≡ some (record {
      scenario_name = "a";
      group = "core";
      scores =
          ("llm", llm (scenario_payload true high))
          ∷ ("rules", rules_of_checks (check "tools" (some true) ∷ []))
          ∷ [];
      overall_pass = true;
    })
unfolding score_scenario load_turns run_scorers
all_pass = refl

-- A judge that errored fails the scenario although the rules ran before it and passed.
errored_after :
    score_scenario
      (λ n. "n")
      "a"
      "core"
      (found (record { output = some (done calls_output); cli = none; state = none } ∷ []))
      (rules_scorer ∷ judge_scorer (raised "401") ∷ [])
    ≡ some (record {
      scenario_name = "a";
      group = "core";
      scores =
          (
            "rules",
            failed_rules (
                check "tools" (some true)
                ∷ execution_check "llm_scorer_ran" "llm scorer failed: 401"
                ∷ []),
          )
          ∷ [];
      overall_pass = false;
    })
unfolding score_scenario load_turns run_scorers
errored_after = refl
