-- ===== src/Aggregator/Thresholds/Budgets.antt =====
-- `ThresholdEnforcer.enforce` and `validate_thresholds` of src/belt/aggregator/thresholds.py.
use agent_belt.Prelude.{
  ℕ, String, Bool, true, false, Option, none, some, List, [], ◌∷◌, ◌++◌, map, elem, Dict, get,
  sort_by, str_le, concat, join, ltb, if◌then◌else◌, ◌==◌, string_eq,
}
use agent_belt.Python.{Python}
use agent_belt.Levels.{ScoreLevel}
use agent_belt.Payloads.{ScenarioScore}
use agent_belt.Aggregator.Thresholds.{count_rules_failures, count_llm_failures}

-- The order of `sorted(d.items())`, the keys of a dictionary being distinct.
abbrev pub by_key {ℓ} : {V : Type ℓ} → String × V → String × V → Bool
by_key a b = str_le a.0 b.0

module _ (py : Python) where
  open py use {Float}

  pub record ThresholdCheck : Type 0 where
    pub dimension : String
    pub actual_pct : Float
    pub max_pct : Float
    pub passed : Bool

  -- `(failed / total * 100) if total > 0 else 0.0`
  abbrev pub percent : Option (ℕ × ℕ) → Float
  percent none = py.of_ℕ 0
  percent (some (failed, total)) =
      if ltb 0 total
      then py.mul (py.div (py.of_ℕ failed) (py.of_ℕ total)) (py.of_ℕ 100)
      else py.of_ℕ 0

  unfoldable pub check_threshold : Dict String (ℕ × ℕ) → String → String → Float → ThresholdCheck
  check_threshold failures mode dim max_pct =
      let actual = percent (get dim failures) in
      record {
        dimension = concat (mode ∷ "/" ∷ dim ∷ []);
        actual_pct = actual;
        max_pct = max_pct;
        passed = py.le actual max_pct;
      }

  unfoldable pub check_dims : Dict String (ℕ × ℕ) → String → Dict String Float → List ThresholdCheck
  unfolding check_threshold
  check_dims failures mode [] = []
  check_dims failures mode ((dim, max_pct) ∷ dims) =
      check_threshold failures mode dim max_pct ∷ check_dims failures mode dims

  pub record Failures : Type 0 where
    pub rules_failures : Dict String (ℕ × ℕ)
    pub llm_failures : Dict String (ℕ × ℕ)

  abbrev pub failures_of : Failures → String → Dict String (ℕ × ℕ)
  failures_of f mode = if mode == "rules" then f.rules_failures else f.llm_failures

  unfoldable pub check_modes : Failures → Dict String (Dict String Float) → List ThresholdCheck
  unfolding check_dims
  check_modes f [] = []
  check_modes f ((mode, dims) ∷ thresholds) =
      check_dims (failures_of f mode) mode (sort_by by_key dims) ++ check_modes f thresholds

  -- `all_passed`, which a failing check clears.
  unfoldable pub run_checks : Bool → List ThresholdCheck → Bool
  run_checks all_passed [] = all_passed
  run_checks all_passed (c ∷ checks) = run_checks (if c.passed then all_passed else false) checks

  unfoldable pub display_line : ThresholdCheck → String
  display_line c = concat (
      "  "
      ∷ c.dimension
      ∷ ": "
      ∷ py.fixed 1 c.actual_pct
      ∷ "% failed (max "
      ∷ py.fixed 0 c.max_pct
      ∷ "%) "
      ∷ (if c.passed then "✅" else "❌")
      ∷ [])

  -- `enforce`: the lines, whether every check passed, and the checks.
  unfoldable pub enforce :
      Failures → Dict String (Dict String Float) → List String × Bool × List ThresholdCheck
  unfolding check_modes run_checks display_line
  enforce f thresholds =
      let checks = check_modes f (sort_by by_key thresholds) in
      (map display_line checks, run_checks true checks, checks)

  -- The checks of a run on its own scores.
  unfoldable pub enforce_scores :
      List ScenarioScore
      → List ScoreLevel
      → Dict String (Dict String Float)
      → List String × Bool × List ThresholdCheck
  unfolding enforce count_rules_failures count_llm_failures
  enforce_scores scores fail_on thresholds =
      enforce
        (record {
          rules_failures = count_rules_failures scores;
          llm_failures = count_llm_failures py scores fail_on;
        })
        thresholds

-- `validate_thresholds`: the messages of the error it raises, if any.
abbrev pub unknown_dim : List String → String → List String
unknown_dim known dim =
    if elem dim known
    then []
    else concat (
        "llm/" ∷ dim ∷ ": unknown dimension (valid: " ∷ join ", " (sort_by str_le known) ∷ ")" ∷ [])
      ∷ []

abbrev pub unknown_dims : {V : Type 0} → Option (List String) → Dict String V → List String
unknown_dims none dims = []
unknown_dims (some known) [] = []
unknown_dims (some known) ((dim, v) ∷ dims) =
    unknown_dim known dim ++ unknown_dims (some known) dims

unfoldable pub validate_thresholds :
    {V : Type 0} → Option (List String) → Dict String (Dict String V) → List String
validate_thresholds known [] = []
validate_thresholds known ((mode, dims) ∷ thresholds) =
    let rest = validate_thresholds known thresholds in
    if mode == "rules"
    then rest
    else if mode == "llm"
    then unknown_dims known dims ++ rest
    else concat ("Unknown mode '" ∷ mode ∷ "' (valid: rules, llm)" ∷ []) ∷ rest
