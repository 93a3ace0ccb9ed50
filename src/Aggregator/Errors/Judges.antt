-- ===== src/Aggregator/Errors/Judges.antt =====
-- What `collect_judge_errors` of src/belt/aggregator/stats.py reports.
use agent_belt.Prelude.{
  ◌≡◌, Bool, Option, none, some, List, map, any as any_of, keep, count_if, count, All,
}
use agent_belt.Payloads.{ScenarioScore}
use agent_belt.Payloads.Rows.{iter_llm_payloads}
use agent_belt.Consensus.Votes.{error_eq}
use agent_belt.Aggregator.{scenario_key}
use agent_belt.Aggregator.JudgeRows.{payload_errored, JudgeErrorRow, JudgeErrors}

-- Some judge of the scenario, of either shape, errored.
abbrev pub judge_errored : ScenarioScore → Bool
judge_errored s = any_of (λ (name, p). payload_errored p) (iter_llm_payloads s.scores)

-- What the report says, if there is one.
abbrev Reported : List ScenarioScore → Option JudgeErrors → Type 0
Reported scores none = count_if judge_errored scores ≡ 0
Reported scores (some e) =
    (e.scenarios_with_errors ≡ count_if judge_errored scores)
    × (map (λ (r : JudgeErrorRow). r.scenario) e.per_scenario
        ≡ map scenario_key (keep judge_errored scores))
    × All (λ (t, n). n ≡ count t (map (λ (r : JudgeErrorRow). r.error_type) e.per_scenario))
        e.by_error_type
