-- ===== src/Aggregator.antt =====
-- src/belt/aggregator: what a run's scores add up to. `stats.py` counts and describes, and
-- `thresholds.py` decides whether the run passes.
pub mod Thresholds
pub mod Stats
pub mod Reliability
pub mod JudgeRows
pub mod Errors
use agent_belt.Prelude.{
  String, Bool, Option, none, some, List, [], ◌∷◌, ◌++◌, map, get, concat, if◌then◌else◌, ◌==◌,
  string_eq,
}
use agent_belt.Python
use agent_belt.Payloads.{CheckEntry, RulesPayload, ScorerPayload, rules, ScenarioScore}
use agent_belt.Payloads.Rows.{LlmShaped, Verdict, iter_llm_payloads, iter_llm_verdicts}

-- `f"{s.group}/{s.scenario_name}"`
abbrev pub scenario_key : ScenarioScore → String
scenario_key s = concat (s.group ∷ "/" ∷ s.scenario_name ∷ [])

abbrev pub rules_payload : Option ScorerPayload → List CheckEntry
rules_payload (some (rules p)) = p.checks
rules_payload _ = []

-- The checks under the key `rules`; a score without a rules payload there is skipped.
abbrev pub rule_checks : ScenarioScore → List CheckEntry
rule_checks s = rules_payload (get "rules" s.scores)

-- `check.dimension or "unknown"`
abbrev pub dimension_of : CheckEntry → String
dimension_of c = if c.dimension == "" then "unknown" else c.dimension

module _ (py : Python.Python) where
  unfoldable pub verdicts_in : List (String × LlmShaped) → List Verdict
  verdicts_in [] = []
  verdicts_in ((name, p) ∷ payloads) = iter_llm_verdicts py p ++ verdicts_in payloads

  -- The verdicts of every LLM payload of a scenario, in the order of the nested loops.
  abbrev pub verdicts_of : ScenarioScore → List Verdict
  verdicts_of s = verdicts_in (iter_llm_payloads s.scores)
