-- ===== src/Aggregator/Thresholds/Enforced.antt =====
-- What it means that a run is within its budgets, src/belt/aggregator/thresholds.py.
use agent_belt.Prelude.{
  ℕ, ap, Option, none, some, or_else, ltb, length, count_if, ◌==◌, Bool-cases, inl, inr, ◌≡◌, refl,
  ◌∙◌, String, Bool, true, false, ◌&&◌, List, [], ◌∷◌, arith, all as all_of, all-append,
  all-sort_by, Dict, get, sort_by, if◌then◌else◌, string_eq,
}
use agent_belt.Python.{Python}
use agent_belt.Levels.{ScoreLevel}
use agent_belt.Payloads.{ScenarioScore}
use agent_belt.Aggregator.{verdicts_of}
use agent_belt.Aggregator.Thresholds.{count_rules_failures, count_llm_failures, fail_levels}
use agent_belt.Aggregator.Thresholds.LlmFailures.{grades, fails_dim, get-count_llm_failures}
use agent_belt.Aggregator.Thresholds.RulesFailures.{graded_on, fails_on, get-count_rules_failures}
use agent_belt.Aggregator.Thresholds.Budgets.{
  ThresholdCheck, percent, check_threshold, by_key, check_dims, Failures, failures_of, check_modes,
  run_checks, enforce, enforce_scores,
}

module _ (py : Python) where
  open py use {Float}

  -- A share in percent, 0 of nothing.
  abbrev pub share : (failed total : ℕ) → Float
  share failed total =
      if ltb 0 total
      then py.mul (py.div (py.of_ℕ failed) (py.of_ℕ total)) (py.of_ℕ 100)
      else py.of_ℕ 0

  run_checks-all :
      (b : Bool) (checks : List (ThresholdCheck py))
      → run_checks py b checks ≡ (b && all_of (λ c. c.passed) checks)
  unfolding run_checks
  run_checks-all b [] = ground arith
  run_checks-all b (c ∷ checks) =
      ground (arith, run_checks-all (if c.passed then b else false) checks)

  percent-or_else :
      (o : Option (ℕ × ℕ)) → percent py o ≡ share (or_else o (0, 0)).0 (or_else o (0, 0)).1
  percent-or_else none = refl
  percent-or_else (some (failed, total)) = refl

  percent-if :
      (b : Bool) (failed total : ℕ)
      → b ≡ ltb 0 total
      → percent py (if b then some (failed, total) else none) ≡ share failed total
  percent-if true failed total h = refl
  percent-if false failed total h = ground (arith, h)

  module _ (scores : List ScenarioScore) (fail_on : List ScoreLevel) where
    -- The scenarios that a mode grades on a dimension, and those of them that fail it.
    abbrev pub graded_count : String → String → ℕ
    graded_count mode dim =
        if mode == "rules"
        then length (graded_on dim scores)
        else count_if (λ s. grades dim (verdicts_of py s)) scores

    abbrev pub failed_count : String → String → ℕ
    failed_count mode dim =
        if mode == "rules"
        then count_if (fails_on dim scores) (graded_on dim scores)
        else count_if (λ s. fails_dim (fail_levels fail_on) dim (verdicts_of py s)) scores

    -- The dimension's share of failing scenarios is within the budget.
    abbrev pub within : String → String × Float → Bool
    within mode (dim, max_pct) =
        py.le (share (failed_count mode dim) (graded_count mode dim)) max_pct

    abbrev counted : Failures py
    counted = record {
      rules_failures = count_rules_failures scores;
      llm_failures = count_llm_failures py scores fail_on;
    }

    percent-share :
        (mode dim : String)
        → percent py (get dim (failures_of py counted mode))
          ≡ share (failed_count mode dim) (graded_count mode dim)
    percent-share mode dim = elim (Bool-cases (mode == "rules")) [
      | inl e ↦ rw e (
          percent-or_else (get dim (count_rules_failures scores))
          ∙ ap (λ (c : ℕ × ℕ). share c.0 c.1) (get-count_rules_failures scores dim))
      | inr e ↦ rw e (
          ap (percent py) (get-count_llm_failures py scores fail_on dim)
          ∙ percent-if _ _ (count_if (λ s. grades dim (verdicts_of py s)) scores) refl)
    ]

    all-check_dims :
        (mode : String) (dims : Dict String Float)
        → all_of (λ c. c.passed) (check_dims py (failures_of py counted mode) mode dims)
          ≡ all_of (within mode) dims
    unfolding check_dims check_threshold
    all-check_dims mode [] = refl
    all-check_dims mode ((dim, max_pct) ∷ dims) = rw (percent-share mode dim) (
        ap (λ b. py.le (share (failed_count mode dim) (graded_count mode dim)) max_pct && b)
          (all-check_dims mode dims))

    all-check_modes :
        (thresholds : Dict String (Dict String Float))
        → all_of (λ c. c.passed) (check_modes py counted thresholds)
          ≡ all_of (λ (mode, dims). all_of (within mode) dims) thresholds
    unfolding check_modes
    all-check_modes [] = refl
    all-check_modes ((mode, dims) ∷ thresholds) =
        all-append (λ (c : ThresholdCheck py). c.passed)
          (check_dims py (failures_of py counted mode) mode (sort_by by_key dims))
          (check_modes py counted thresholds)
        ∙ rw
            (
              all-check_dims mode (sort_by by_key dims),
              all-sort_by by_key (within mode) dims,
              all-check_modes thresholds,
            )
            refl

-- A run passes if and only if every budget is met: of the scenarios graded on the budget's
-- dimension, the share that fails it, in percent and computed in floats, is at most the budget, and
-- 0 where no scenario is graded on it. A budget in the mode `rules` counts the scenarios with a check
-- on the dimension and those with a false one; in every other mode, those with a judge's row on the
-- dimension and those with a row in the fail set. No budget is left out, and their order plays no
-- part.
pub enforce_scores-all :
    (py : Python) (scores : List ScenarioScore) (fail_on : List ScoreLevel)
    (thresholds : Dict String (Dict String py.Float))
    → (enforce_scores py scores fail_on thresholds).1
      ≡ all_of (λ (mode, dims). all_of (within py scores fail_on mode) dims) thresholds
unfolding enforce_scores enforce
enforce_scores-all py scores fail_on thresholds =
    run_checks-all py true (check_modes py (counted py scores fail_on) (sort_by by_key thresholds))
    ∙ all-check_modes py scores fail_on (sort_by by_key thresholds)
    ∙ all-sort_by by_key (λ (mode, dims). all_of (within py scores fail_on mode) dims) thresholds
