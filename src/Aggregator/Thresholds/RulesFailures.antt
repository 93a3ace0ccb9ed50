-- ===== src/Aggregator/Thresholds/RulesFailures.antt =====
-- What `_count_rules_failures` of src/belt/aggregator/thresholds.py counts.
use agent_belt.Prelude.{
  ◌≡◌, refl, ◌∙◌, String, Bool, true, false, not, ◌&&◌, List, [], ◌∷◌, arith, any as any_of,
  count_if, length, Dict, get, keys, or_else, Distinct, Distinct-set_of, set_of, firsts, values_of,
  gather, get-accumulate, get-upsert, keys-gather, count_if_ext, count-values, length-keys,
  if◌then◌else◌, ◌==◌, string_eq,
}
use agent_belt.Payloads.{CheckEntry, ScenarioScore}
use agent_belt.Payloads.Rows.{has_failed}
use agent_belt.Aggregator.Thresholds.{
  rule_rows, mark, dim_scenarios, failed_of_total, summed, count_rules_failures,
}

-- The scenario and the check of each rule check on the dimension, over the whole run.
abbrev pub checks_on : String → List ScenarioScore → List (String × CheckEntry)
checks_on dim scores = values_of dim (rule_rows scores)

-- The scenarios with a check on the dimension, each once.
abbrev pub graded_on : String → List ScenarioScore → List String
graded_on dim scores = set_of (firsts (checks_on dim scores))

-- Some check of the scenario on the dimension is false.
abbrev pub fails_on : String → List ScenarioScore → String → Bool
fails_on dim scores key = any_of (λ (k, c). key == k && has_failed c) (checks_on dim scores)

get-marked :
    (key : String) (d : Dict String Bool) (rows : List (String × CheckEntry))
    → or_else (get key (gather mark d rows)) true
      ≡ (or_else (get key d) true && not (any_of (λ (k, c). key == k && has_failed c) rows))
get-marked key d [] = ground arith
get-marked key d ((k, c) ∷ rows) = ground (
  arith,
  get-marked key (mark (k, c) d) rows,
  get-upsert k key (λ old. if has_failed c then false else or_else old true) d,
  string_eq.beq_iff key k,
)

keys-marked :
    (rows : List (String × CheckEntry)) → keys (gather mark [] rows) ≡ set_of (firsts rows)
keys-marked rows = keys-gather (λ c old. if has_failed c then false else or_else old true) rows

failed_of_total-eq :
    (scenarios : Dict String Bool)
    → Distinct (keys scenarios)
    → failed_of_total scenarios ≡ (
      count_if (λ k. not (or_else (get k scenarios) true)) (keys scenarios),
      length (keys scenarios),
    )
failed_of_total-eq scenarios h =
    rw (count-values (λ b. not b) true scenarios h, length-keys scenarios) refl

marked-fails :
    (rows : List (String × CheckEntry)) (key : String)
    → not (or_else (get key (gather mark [] rows)) true)
      ≡ any_of (λ (k, c). key == k && has_failed c) rows
marked-fails rows key = ground (arith, get-marked key [] rows)

get-summed :
    (dim : String) (dims : Dict String (Dict String Bool))
    → or_else (get dim (summed dims)) (0, 0) ≡ failed_of_total (or_else (get dim dims) [])
get-summed dim [] = refl
get-summed dim ((d, scenarios) ∷ dims) = ground (arith, get-summed dim dims)

-- What a budget on a rules dimension is measured on: `total` is the number of scenarios with a
-- check on the dimension (an empty name counting as `unknown`), each counted once whatever its
-- number of checks, and `failed` is the number of these with a check that is false; a skipped
-- check fails nobody. A dimension without checks counts zero of zero.
pub get-count_rules_failures :
    (scores : List ScenarioScore) (dim : String)
    → or_else (get dim (count_rules_failures scores)) (0, 0)
      ≡ (count_if (fails_on dim scores) (graded_on dim scores), length (graded_on dim scores))
unfolding count_rules_failures dim_scenarios
get-count_rules_failures scores dim =
    let rows = checks_on dim scores in
    let scenarios = gather mark [] rows in
    get-summed dim (dim_scenarios scores)
    ∙ rw (get-accumulate mark [] dim (rule_rows scores)) (
        failed_of_total-eq scenarios (rw (keys-marked rows) (Distinct-set_of (firsts rows)))
        ∙ rw
            (
              keys-marked rows,
              count_if_ext _ (fails_on dim scores) (marked-fails rows) (graded_on dim scores),
            )
            refl)
