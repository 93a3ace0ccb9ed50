-- ===== src/Tests/AggregatorCases.antt =====
-- The aggregation and the error types on sample scores.
use agent_belt.Prelude.{
  ℕ, ◌≡◌, refl, String, true, Option, none, some, List, [], ◌∷◌, map, Dict, get, count_if, length,
  ltb, or_else, All, Distinct, all as all_of, sort_by, str_le, set_of, if◌then◌else◌, ◌==◌,
  string_eq, insert, set_of_onto, add, tally_onto, group_onto, first_min,
}
use agent_belt.Levels.{level_eq, low, fail, inconclusive}
use agent_belt.Entities.{TurnOutput}
use agent_belt.ErrorTypes.{normalize_error_type, first_token, classify_error, classify_lowered}
use agent_belt.Payloads.{ScenarioScore, timeout, per_turn}
use agent_belt.Payloads.Rows.{iter_llm_payloads, iter_llm_verdicts, iter_per_turn_llm}
use agent_belt.Consensus.Votes.{error_eq}
use agent_belt.Aggregator.{verdicts_of, verdicts_in}
use agent_belt.Aggregator.Thresholds.{fail_levels, count_rules_failures, count_llm_failures}
use agent_belt.Aggregator.Thresholds.Budgets.{enforce_scores}
use agent_belt.Aggregator.Thresholds.RulesFailures.{fails_on, graded_on, get-count_rules_failures}
use agent_belt.Aggregator.Thresholds.LlmFailures.{grades, fails_dim, get-count_llm_failures}
use agent_belt.Aggregator.Thresholds.Enforced.{within, enforce_scores-all}
use agent_belt.Aggregator.Stats.{rule_dims, compute_partial_score, build_stats}
use agent_belt.Aggregator.Stats.Counts.{in_four_digits, sum_of, figures, rule_dims-partial}
use agent_belt.Aggregator.Reliability.{ScenarioReliability, trial_key, compute_reliability}
use agent_belt.Aggregator.Reliability.Trials.{rows_of, Counts, compute_reliability-rows}
use agent_belt.Aggregator.Errors.{
  first_reply, build_task_quality_split, first_hint, TaskQuality, AgentErrors, is_blocked,
  agent_rows, collect_agent_errors,
}
use agent_belt.Aggregator.JudgeRows.{first_error, JudgeErrors, judge_rows, collect_judge_errors}
use agent_belt.Aggregator.Errors.Split.{keys_of, IsPartition}
use agent_belt.Aggregator.Errors.Collected.{collect_agent_errors-IsPartition}
use agent_belt.Tests.Samples.{
  sample_py, calls_output, failed_output, both_scores, bad_score, turns_payload, graded_turn,
}

get-count_llm_failures_example : get "style" (count_llm_failures sample_py both_scores []) ≡ (
    if ltb 0 (count_if (λ s. grades "style" (verdicts_of sample_py s)) both_scores)
    then some (
      count_if (λ s. fails_dim (fail_levels []) "style" (verdicts_of sample_py s)) both_scores,
      count_if (λ s. grades "style" (verdicts_of sample_py s)) both_scores,
    )
    else none)
get-count_llm_failures_example = get-count_llm_failures sample_py both_scores [] "style"

-- A turn that failed is hidden by one that is inconclusive, which is not in the fail set.
rolled_up :
    get "style" (
      count_llm_failures sample_py
        (record bad_score {
          scores =
              (
                "judge",
                per_turn (turns_payload (graded_turn 0 inconclusive ∷ graded_turn 1 fail ∷ [])),
              )
              ∷ [];
        }
          ∷ [])
        (low ∷ fail ∷ []))
    ≡ some (0, 1)
unfolding count_llm_failures sort_by set_of_onto verdicts_in iter_llm_payloads iter_llm_verdicts
    iter_per_turn_llm group_onto insert add first_min
rolled_up = refl

get-count_rules_failures_example :
    or_else (get "execution" (count_rules_failures both_scores)) (0, 0) ≡ (
      count_if (fails_on "execution" both_scores) (graded_on "execution" both_scores),
      length (graded_on "execution" both_scores),
    )
get-count_rules_failures_example = get-count_rules_failures both_scores "execution"

abbrev budgets : Dict String (Dict String ℕ)
budgets = ("rules", ("execution", 50) ∷ []) ∷ ("llm", ("style", 10) ∷ []) ∷ []

enforce_scores-all_example :
    (enforce_scores sample_py both_scores [] budgets).1
    ≡ all_of (λ (mode, dims). all_of (within sample_py both_scores [] mode) dims) budgets
enforce_scores-all_example = enforce_scores-all sample_py both_scores [] budgets

rule_dims-partial_example :
    (figures (compute_partial_score sample_py both_scores) ≡ (
      sum_of (λ c. c.passed) (rule_dims both_scores),
      sum_of (λ c. c.total) (rule_dims both_scores),
    ))
    × ((build_stats sample_py both_scores).partial_score
        ≡ in_four_digits sample_py (compute_partial_score sample_py both_scores))
rule_dims-partial_example = rule_dims-partial sample_py both_scores

abbrev base : String → Option String
base name = if name == "one__trial_1" then some "one" else none

compute_reliability-rows_example :
    (map
        (λ (r : ScenarioReliability ℕ). r.scenario)
        (rows_of sample_py base (compute_reliability sample_py base both_scores))
      ≡ sort_by str_le (set_of (map (trial_key sample_py base) both_scores)))
    × All
        (Counts sample_py base both_scores)
        (rows_of sample_py base (compute_reliability sample_py base both_scores))
compute_reliability-rows_example = compute_reliability-rows sample_py base both_scores refl

abbrev outputs : ScenarioScore → Option (List (TurnOutput ℕ))
outputs s =
    if s.scenario_name == "one__trial_1"
    then some (failed_output ∷ [])
    else some (calls_output ∷ [])

abbrev first_line : String → String
first_line s = s

keys_differ : Distinct (keys_of both_scores)
keys_differ = (refl, (refl, tt))

abbrev quality : TaskQuality ℕ
quality = record {
  attempted = 2;
  env_failed = 2;
  env_failed_agent = 1;
  env_failed_judge = 1;
  completed = 0;
  passed = 0;
  task_failed = 0;
  pct = none;
}

abbrev report : AgentErrors sample_py
report = record {
  scenarios_with_errors = 1;
  scenarios_total = 2;
  vacuous_passes = 1;
  by_error_type = ("rate_limited", 1) ∷ [];
  per_scenario =
      record {
        scenario = "g/one__trial_1";
        passed = true;
        vacuous_pass = true;
        error_types = "rate_limited" ∷ [];
        first_reply_text = none;
      }
      ∷ [];
  task_quality = some quality;
  remediation = none;
}

collected :
    collect_agent_errors sample_py first_line outputs both_scores none
      (collect_judge_errors both_scores)
    ≡ some report
unfolding collect_agent_errors collect_judge_errors agent_rows judge_rows first_reply first_error
    iter_llm_payloads build_task_quality_split first_hint set_of_onto add tally_onto sort_by insert
collected = refl

abbrev judge_report : JudgeErrors
judge_report = record {
  scenarios_with_errors = 1;
  scenarios_total = 2;
  by_error_type = (timeout, 1) ∷ [];
  per_scenario = record { scenario = "g/two"; error_type = timeout } ∷ [];
}

recognized :
    normalize_error_type (λ s. s) (some "RateLimitError") (some "http 429" ∷ [])
    ≡ some "rate_limited"
unfolding normalize_error_type first_token classify_error classify_lowered
recognized = refl

collect_agent_errors-IsPartition_example :
    IsPartition both_scores
      (is_blocked (agent_rows sample_py first_line outputs both_scores) (judge_rows both_scores))
      quality
collect_agent_errors-IsPartition_example =
    collect_agent_errors-IsPartition sample_py first_line outputs both_scores none report quality
      keys_differ collected refl
