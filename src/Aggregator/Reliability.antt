-- ===== src/Aggregator/Reliability.antt =====
-- `compute_reliability` of src/belt/aggregator/stats.py: how often the trials of a scenario pass.
pub mod Trials
use agent_belt.Prelude.{
  ℕ, zero, suc, ◌≡◌, String, Bool, true, false, Option, none, some, List, [], ◌∷◌, map,
  any as any_of, count_if, length, Dict, group, or_else, is_some, is_empty, sort_by, str_le, concat,
  if◌then◌else◌, ltb, string_eq,
}
use agent_belt.Python.{Python}
use agent_belt.Payloads.{ScenarioScore}
use agent_belt.Aggregator.Thresholds.Budgets.{by_key}

pub record ScenarioReliability (F : Type 0) : Type 0 where
  pub scenario : String
  pub trials : ℕ
  pub passed : ℕ
  pub pass_rate : F
  pub pass_at_1 : F
  pub pass_at_3 : F
  pub pass_at_8 : F
  pub pass_pow_1 : F
  pub pass_pow_3 : F
  pub pass_pow_8 : F

pub record Reliability (F : Type 0) : Type 0 where
  pub mean_pass_rate : F
  pub mean_pass_at_1 : F
  pub mean_pass_at_3 : F
  pub mean_pass_at_8 : F
  pub mean_pass_pow_1 : F
  pub mean_pass_pow_3 : F
  pub mean_pass_pow_8 : F
  pub scenarios : List (ScenarioReliability F)

-- `trial_base` is `TRIAL_SUFFIX_RE`: the name without its suffix `__trial_N`, if it has one.
module _ (py : Python) (trial_base : String → Option String) where
  open py use {Float}

  abbrev pub trial_key : ScenarioScore → String
  trial_key s = concat (s.group ∷ "/" ∷ or_else (trial_base s.scenario_name) s.scenario_name ∷ [])

  unfoldable pub trial_groups : List ScenarioScore → Dict String (List Bool)
  trial_groups scores = group (map (λ s. (trial_key s, s.overall_pass)) scores)

  -- `1 - (1 - p)^k`
  abbrev pub at_least_once : ℕ → Float → Float
  at_least_once k p = py.sub (py.of_ℕ 1) (py.pow (py.sub (py.of_ℕ 1) p) k)

  abbrev pub passes_in : List Bool → ℕ
  passes_in results = count_if (λ b. b) results

  abbrev pub rate : List Bool → Float
  rate results =
      if ltb 0 (length results)
      then py.div (py.of_ℕ (passes_in results)) (py.of_ℕ (length results))
      else py.of_ℕ 0

  unfoldable pub scenario_reliability : String → List Bool → ScenarioReliability Float
  scenario_reliability key results =
      let p = rate results in
      record {
        scenario = key;
        trials = length results;
        passed = passes_in results;
        pass_rate = py.round p 4;
        pass_at_1 = py.round p 4;
        pass_at_3 = py.round (at_least_once 3 p) 4;
        pass_at_8 = py.round (at_least_once 8 p) 4;
        pass_pow_1 = py.round p 4;
        pass_pow_3 = py.round (py.pow p 3) 4;
        pass_pow_8 = py.round (py.pow p 8) 4;
      }

  unfoldable pub reliability_rows : Dict String (List Bool) → List (ScenarioReliability Float)
  unfolding scenario_reliability
  reliability_rows [] = []
  reliability_rows ((key, results) ∷ groups) =
      scenario_reliability key results ∷ reliability_rows groups

  -- `total_p`
  unfoldable pub total_rate : Float → Dict String (List Bool) → Float
  total_rate total [] = total
  total_rate total ((key, results) ∷ groups) = total_rate (py.add total (rate results)) groups

  unfoldable pub summarize : Dict String (List Bool) → Reliability Float
  unfolding reliability_rows total_rate
  summarize groups =
      let rows = reliability_rows groups in
      let p =
        if ltb 0 (length rows)
        then py.div (total_rate (py.of_ℕ 0) groups) (py.of_ℕ (length rows))
        else py.of_ℕ 0 in
      record {
        mean_pass_rate = py.round p 4;
        mean_pass_at_1 = py.round p 4;
        mean_pass_at_3 = py.round (at_least_once 3 p) 4;
        mean_pass_at_8 = py.round (at_least_once 8 p) 4;
        mean_pass_pow_1 = py.round p 4;
        mean_pass_pow_3 = py.round (py.pow p 3) 4;
        mean_pass_pow_8 = py.round (py.pow p 8) 4;
        scenarios = rows;
      }

  unfoldable pub compute_reliability : List ScenarioScore → Option (Reliability Float)
  unfolding trial_groups summarize
  compute_reliability scores =
      if any_of (λ s. is_some (trial_base s.scenario_name)) scores
      then some (summarize (sort_by by_key (trial_groups scores)))
      else none
