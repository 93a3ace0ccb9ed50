-- ===== src/Aggregator/Thresholds.antt =====
-- src/belt/aggregator/thresholds.py: failures per dimension, and the budgets on them.
pub mod Budgets
pub mod RulesFailures
pub mod LlmFailures
pub mod Enforced
use agent_belt.Prelude.{
  ℕ, zero, suc, ◌+◌, ◌≡◌, String, Bool, true, false, not, ◌&&◌, ◌||◌, Option, none, some, List, [],
  ◌∷◌, ◌++◌, map, elem, count_if, length, Dict, get, put, upsert, keys, values, or_else, is_some,
  is_empty, set_of, sort_by, str_le, accumulate, concat, join, ltb, if◌then◌else◌, ◌==◌, string_eq,
}
use agent_belt.Python.{Python}
use agent_belt.Levels.{ScoreLevel, level_eq, default_fail_levels}
use agent_belt.Payloads.{CheckEntry, ScenarioScore}
use agent_belt.Payloads.Rows.{Verdict, has_failed}
use agent_belt.Aggregator.{scenario_key, rule_checks, dimension_of, verdicts_of}

-- The rows of the nested loops over the scores and their rule checks.
abbrev pub check_rows : String → List CheckEntry → List (String × (String × CheckEntry))
check_rows key [] = []
check_rows key (c ∷ checks) = (dimension_of c, (key, c)) ∷ check_rows key checks

abbrev pub rule_rows : List ScenarioScore → List (String × (String × CheckEntry))
rule_rows [] = []
rule_rows (s ∷ scores) = check_rows (scenario_key s) (rule_checks s) ++ rule_rows scores

-- A scenario enters its dimension as passing, and a check that is false fails it.
abbrev pub mark : String × CheckEntry → Dict String Bool → Dict String Bool
mark (key, c) scenarios =
    upsert key (λ old. if has_failed c then false else or_else old true) scenarios

-- `dim_scenarios`
unfoldable pub dim_scenarios : List ScenarioScore → Dict String (Dict String Bool)
dim_scenarios scores = accumulate mark [] (rule_rows scores)

abbrev pub failed_of_total : Dict String Bool → ℕ × ℕ
failed_of_total scenarios = (count_if (λ b. not b) (values scenarios), length scenarios)

abbrev pub summed : Dict String (Dict String Bool) → Dict String (ℕ × ℕ)
summed [] = []
summed ((dim, scenarios) ∷ dims) = (dim, failed_of_total scenarios) ∷ summed dims

-- `_count_rules_failures`
unfoldable pub count_rules_failures : List ScenarioScore → Dict String (ℕ × ℕ)
unfolding dim_scenarios
count_rules_failures scores = summed (dim_scenarios scores)

-- `llm_fail_on or set(DEFAULT_FAIL_LEVELS)`
abbrev pub fail_levels : List ScoreLevel → List ScoreLevel
fail_levels chosen = if is_empty chosen then default_fail_levels else chosen

-- The verdict that the loop over a scenario's verdicts leaves for the dimension.
unfoldable pub verdict_for :
    List ScoreLevel → String → Option ScoreLevel → List Verdict → Option ScoreLevel
verdict_for fail_on dim seen [] = seen
verdict_for fail_on dim none ((d, l, r) ∷ rows) =
    verdict_for fail_on dim (if d == dim then some l else none) rows
verdict_for fail_on dim (some old) ((d, l, r) ∷ rows) =
    verdict_for fail_on dim
      (some (if d == dim && (elem l fail_on && not (elem old fail_on)) then l else old)) rows

abbrev pub bump_counts : List ScoreLevel → Option ScoreLevel → ℕ × ℕ → ℕ × ℕ
bump_counts fail_on none (failed, total) = (failed, total)
bump_counts fail_on (some l) (failed, total) =
    (if elem l fail_on then failed + 1 else failed, total + 1)

module _ (py : Python) where
  open py use {Float}

  abbrev pub dims_of : List Verdict → List String
  dims_of [] = []
  dims_of ((d, l, r) ∷ rows) = d ∷ dims_of rows

  unfoldable pub all_llm_dims : List ScenarioScore → List String
  all_llm_dims [] = []
  all_llm_dims (s ∷ scores) = dims_of (verdicts_of py s) ++ all_llm_dims scores

  unfoldable pub discover_llm_dimensions : List ScenarioScore → List String
  unfolding all_llm_dims
  discover_llm_dimensions scores = sort_by str_le (set_of (all_llm_dims scores))

  -- `failed` and `total` of one dimension.
  unfoldable pub count_dimension : List ScoreLevel → String → ℕ × ℕ → List ScenarioScore → ℕ × ℕ
  unfolding verdict_for
  count_dimension fail_on dim counts [] = counts
  count_dimension fail_on dim counts (s ∷ scores) =
      count_dimension fail_on dim
        (bump_counts fail_on (verdict_for fail_on dim none (verdicts_of py s)) counts) scores

  unfoldable pub count_dimensions :
      List ScoreLevel → List ScenarioScore → List String → Dict String (ℕ × ℕ)
  unfolding count_dimension
  count_dimensions fail_on scores [] = []
  count_dimensions fail_on scores (dim ∷ dims) =
      let counts = count_dimension fail_on dim (0, 0) scores in
      let rest = count_dimensions fail_on scores dims in
      if ltb 0 counts.1 then (dim, counts) ∷ rest else rest

  -- `_count_llm_failures`
  unfoldable pub count_llm_failures : List ScenarioScore → List ScoreLevel → Dict String (ℕ × ℕ)
  unfolding count_dimensions discover_llm_dimensions
  count_llm_failures scores chosen =
      count_dimensions (fail_levels chosen) scores (discover_llm_dimensions scores)
