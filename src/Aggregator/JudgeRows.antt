-- ===== src/Aggregator/JudgeRows.antt =====
-- `collect_judge_errors` of src/belt/aggregator/stats.py: the scenarios whose judges errored.
use agent_belt.Prelude.{
  ℕ, String, Bool, not, ◌&&◌, ◌||◌, Option, none, some, List, [], ◌∷◌, ◌++◌, map, length, is_empty,
  or_else, Dict, tally, sort_by, str_le, ltb, if◌then◌else◌, string_eq,
}
use agent_belt.Payloads.{ScenarioScore, JudgeErrorType, other}
use agent_belt.Payloads.Rows.{LlmShaped, scenario_level, turn_level, iter_llm_payloads}
use agent_belt.Consensus.Votes.{error_token, error_eq}
use agent_belt.Aggregator.{scenario_key}

abbrev pub payload_errored : LlmShaped → Bool
payload_errored (scenario_level p) = p.judge_errored
payload_errored (turn_level p) = p.judge_errored

abbrev pub payload_error_type : LlmShaped → JudgeErrorType
payload_error_type (scenario_level p) = or_else p.judge_error_type other
payload_error_type (turn_level p) = or_else p.judge_error_type other

-- `etype < first_etype`, as texts
abbrev pub before : JudgeErrorType → JudgeErrorType → Bool
before a b = not (str_le (error_token b) (error_token a))

abbrev pub earlier : JudgeErrorType → Option JudgeErrorType → Option JudgeErrorType
earlier e none = some e
earlier e (some first) = if before e first then some e else some first

-- `first_etype`, after the loop over a scenario's LLM payloads
unfoldable pub first_error :
    Option JudgeErrorType → List (String × LlmShaped) → Option JudgeErrorType
first_error first [] = first
first_error first ((name, p) ∷ payloads) =
    first_error (if payload_errored p then earlier (payload_error_type p) first else first) payloads

pub record JudgeErrorRow : Type 0 where
  pub scenario : String
  pub error_type : JudgeErrorType

abbrev pub judge_row : ScenarioScore → Option JudgeErrorType → List JudgeErrorRow
judge_row s none = []
judge_row s (some e) = record { scenario = scenario_key s; error_type = e } ∷ []

unfoldable pub judge_rows : List ScenarioScore → List JudgeErrorRow
unfolding first_error
judge_rows [] = []
judge_rows (s ∷ scores) =
    judge_row s (first_error none (iter_llm_payloads s.scores)) ++ judge_rows scores

-- The key `(-count, token)`, as an order on the entries.
abbrev pub commoner {ℓ} : {K : Type ℓ} → (K → String) → K × ℕ → K × ℕ → Bool
commoner token (s, m) (t, n) = ltb n m || (not (ltb m n) && str_le (token s) (token t))

pub record JudgeErrors : Type 0 where
  pub scenarios_with_errors : ℕ
  pub scenarios_total : ℕ
  pub by_error_type : Dict JudgeErrorType ℕ
  pub per_scenario : List JudgeErrorRow

unfoldable pub collect_judge_errors : List ScenarioScore → Option JudgeErrors
unfolding judge_rows
collect_judge_errors scores =
    let rows = judge_rows scores in
    if is_empty rows
    then none
    else some (record {
      scenarios_with_errors = length rows;
      scenarios_total = length scores;
      by_error_type = sort_by (commoner error_token) (tally (map (λ r. r.error_type) rows));
      per_scenario = rows;
    })
