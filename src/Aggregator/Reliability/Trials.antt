-- ===== src/Aggregator/Reliability/Trials.antt =====
-- Which trials the reliability of a scenario counts, src/belt/aggregator/stats.py.
use agent_belt.Prelude.{
  ◌≡◌, refl, sym, ◌∙◌, ap, String, Bool, true, ◌&&◌, Option, none, some, List, [], ◌∷◌, map, arith,
  any as any_of, count_if, length, All, Dict, get, keys, group, get-group, keys-group, values_of,
  firsts, set_of, Distinct-set_of, All-entries, All-sort_by, sort_by, map-sort_by, str_le, or_else,
  is_some, ◌==◌, string_eq,
}
use agent_belt.Python.{Python}
use agent_belt.Payloads.{ScenarioScore}
use agent_belt.Aggregator.Thresholds.Budgets.{by_key}
use agent_belt.Aggregator.Reliability.{
  ScenarioReliability, Reliability, trial_key, trial_groups, scenario_reliability, reliability_rows,
  summarize, compute_reliability,
}

keys-map : {V : Type 0} (d : Dict String V) → map (λ (entry : String × V). entry.0) d ≡ keys d
keys-map [] = refl
keys-map ((k, v) ∷ d) = ap (λ (ks : List String). k ∷ ks) (keys-map d)

keys-sort_by : {V : Type 0} (d : Dict String V) → keys (sort_by by_key d) ≡ sort_by str_le (keys d)
keys-sort_by {V} d =
    sym (keys-map (sort_by by_key d))
    ∙ map-sort_by str_le (λ (entry : String × V). entry.0) d
    ∙ ap (sort_by str_le) (keys-map d)

module _ (py : Python) (trial_base : String → Option String) where
  open py use {Float}

  abbrev pub rows_of : Option (Reliability Float) → List (ScenarioReliability Float)
  rows_of none = []
  rows_of (some r) = r.scenarios

  -- The row counts the trials of its scenario and, of these, those that passed.
  abbrev pub Counts : List ScenarioScore → ScenarioReliability Float → Type 0
  Counts scores row =
      (row.trials ≡ count_if (λ s. row.scenario == trial_key py trial_base s) scores)
      × (row.passed
          ≡ count_if (λ s. row.scenario == trial_key py trial_base s && s.overall_pass) scores)

  abbrev keyed : List ScenarioScore → List (String × Bool)
  keyed scores = map (λ s. (trial_key py trial_base s, s.overall_pass)) scores

  results-counts :
      (key : String) (scores : List ScenarioScore)
      → (length (values_of key (keyed scores))
          ≡ count_if (λ s. key == trial_key py trial_base s) scores)
        × (count_if (λ b. b) (values_of key (keyed scores))
            ≡ count_if (λ s. key == trial_key py trial_base s && s.overall_pass) scores)
  results-counts key [] = (refl, refl)
  results-counts key (s ∷ scores) =
      let (a, b) = results-counts key scores in (ground (arith, a), ground (arith, b))

  entries :
      (scores : List ScenarioScore)
      → All (λ (k, rs). rs ≡ values_of k (keyed scores)) (group (keyed scores))
  entries scores = found (group (keyed scores)) (
      All-entries (group (keyed scores))
        (rw (keys-group (keyed scores)) (Distinct-set_of (firsts (keyed scores)))))
    where
      found :
          (d : Dict String (List Bool))
          → All (λ (k, rs). get k (group (keyed scores)) ≡ some rs) d
          → All (λ (k, rs). rs ≡ values_of k (keyed scores)) d
      found [] a = tt
      found ((k, rs) ∷ d) a = (
        sym (ap (λ (o : Option (List Bool)). or_else o []) a.0) ∙ get-group k (keyed scores),
        found d a.1,
      )

  rows-Counts :
      (scores : List ScenarioScore) (d : Dict String (List Bool))
      → All (λ (k, rs). rs ≡ values_of k (keyed scores)) d
      → All (Counts scores) (reliability_rows py trial_base d)
  unfolding reliability_rows scenario_reliability
  rows-Counts scores [] a = tt
  rows-Counts scores ((k, rs) ∷ d) a =
      let (m, n) = results-counts k scores in
      ((ap length a.0 ∙ m, ap (count_if (λ b. b)) a.0 ∙ n), rows-Counts scores d a.1)

  names-of-rows :
      (d : Dict String (List Bool))
      → map (λ (r : ScenarioReliability Float). r.scenario) (reliability_rows py trial_base d)
        ≡ keys d
  unfolding reliability_rows scenario_reliability
  names-of-rows [] = refl
  names-of-rows ((k, rs) ∷ d) = ap (λ (ks : List String). k ∷ ks) (names-of-rows d)

  firsts-keyed :
      (scores : List ScenarioScore) → firsts (keyed scores) ≡ map (trial_key py trial_base) scores
  firsts-keyed [] = refl
  firsts-keyed (s ∷ scores) =
      ap (λ (ks : List String). trial_key py trial_base s ∷ ks) (firsts-keyed scores)

-- If some score is a trial, the scenarios with their suffix removed have a row each, in the order
-- of their names, and a row counts exactly the scores of its scenario, and of these the ones that
-- passed: no trial is lost or counted for another scenario.
pub compute_reliability-rows :
    (py : Python) (trial_base : String → Option String) (scores : List ScenarioScore)
    → any_of (λ s. is_some (trial_base s.scenario_name)) scores ≡ true
    → (map
          (λ (r : ScenarioReliability py.Float). r.scenario)
          (rows_of py trial_base (compute_reliability py trial_base scores))
        ≡ sort_by str_le (set_of (map (trial_key py trial_base) scores)))
      × All
          (Counts py trial_base scores)
          (rows_of py trial_base (compute_reliability py trial_base scores))
unfolding compute_reliability trial_groups summarize
compute_reliability-rows py trial_base scores h =
    let groups = group (map (λ s. (trial_key py trial_base s, s.overall_pass)) scores) in
    rw h (
      names-of-rows py trial_base (sort_by by_key groups)
          ∙ keys-sort_by groups
          ∙ ap (sort_by str_le) (
              keys-group (map (λ s. (trial_key py trial_base s, s.overall_pass)) scores)
              ∙ ap (λ ks. set_of ks) (firsts-keyed py trial_base scores)),
      rows-Counts py trial_base scores (sort_by by_key groups)
          (All-sort_by by_key _ groups (entries py trial_base scores)),
    )
