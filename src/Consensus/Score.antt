-- ===== src/Consensus/Score.antt =====
-- The constructor's checks and `score` of `ConsensusScorer`, src/belt/scorer/llm/consensus.py.
pub mod Errors
pub mod Blocks
use agent_belt.Prelude.{
  ℕ, zero, suc, ◌≡◌, String, Bool, true, false, not, ◌&&◌, Option, none, some, List, [], ◌∷◌, ◌++◌,
  map, any as any_of, all as all_of, length, Dict, get, put, keys, set_of, is_empty, or_else, ltb,
  nat_beq, if◌then◌else◌, ◌==◌, string_eq, Eq, ◌↔◌, arith,
}
use agent_belt.Payloads.{LlmPayload, PerTurnLlmPayload, TurnVerdict, JudgeErrorType, other}
use agent_belt.Payloads.Rows.{LlmShaped, scenario_level, turn_level}
use agent_belt.Consensus.Votes.{Strategy, parse_strategy, headline_error}
use agent_belt.Consensus.Merge.{ScorerResult, ScenarioVerdicts, merge_verdicts}
use agent_belt.Consensus.PerTurn.{TurnPayloads, merge_per_turn_verdicts}

pub data Resolution : Type 0 where
  scenario turn : Resolution

abbrev pub same_resolution : Resolution → Resolution → Bool
same_resolution scenario scenario = true
same_resolution turn turn = true
same_resolution _ _ = false

-- A sub-judge, with the answer that its own `score` gives on the scenario at hand.
pub record Judge : Type 0 where
  pub judge_name : String
  pub resolution : Resolution
  pub answer : Option ScorerResult

pub data ConfigError : Type 0 where
  too_few_judges unknown_strategy mixed_resolutions : ConfigError

pub record ConsensusScorer : Type 0 where
  pub first_judge : Judge
  pub second_judge : Judge
  pub other_judges : List Judge
  pub strategy : Strategy

pub data Built : Type 0 where
  built : ConsensusScorer → Built
  rejected : ConfigError → Built

-- `__init__`
unfoldable pub build : List Judge → String → Built
unfolding parse_strategy
build [] strategy = rejected too_few_judges
build (j ∷ []) strategy = rejected too_few_judges
build (j ∷ k ∷ judges) strategy = elim (parse_strategy strategy) [
  | none ↦ rejected unknown_strategy
  | some s ↦
      if all_of (λ i. same_resolution i.resolution j.resolution) (k ∷ judges)
      then built (record { first_judge = j; second_judge = k; other_judges = judges; strategy = s })
      else rejected mixed_resolutions
]

abbrev pub all_judges : ConsensusScorer → List Judge
all_judges c = c.first_judge ∷ c.second_judge ∷ c.other_judges

-- `all_results`
unfoldable pub collect : Dict String ScorerResult → List Judge → Dict String ScorerResult
collect results [] = results
collect results (j ∷ judges) =
    collect (elim j.answer [ none ↦ results | some r ↦ put j.judge_name r results ]) judges

-- `_subjudge_usable`
unfoldable pub subjudge_usable : LlmShaped → Bool
subjudge_usable (scenario_level p) = not p.judge_errored
subjudge_usable (turn_level p) = any_of (λ t. not (is_empty t.dimensions)) p.turns

unfoldable pub usable_results : Bool → Dict String ScorerResult → Dict String ScorerResult
usable_results wanted [] = []
usable_results wanted ((name, r) ∷ results) =
    let rest = usable_results wanted results in
    if subjudge_usable r.payload
    then (if wanted then (name, r) ∷ rest else rest)
    else if wanted
    then rest
    else (name, r) ∷ rest

abbrev pub error_of : LlmShaped → Option JudgeErrorType
error_of (scenario_level p) = p.judge_error_type
error_of (turn_level p) = p.judge_error_type

unfoldable pub errors_of : Dict String ScorerResult → List JudgeErrorType
errors_of [] = []
errors_of ((name, r) ∷ results) =
    let rest = errors_of results in elim (error_of r.payload) [ none ↦ rest | some e ↦ e ∷ rest ]

-- One errored turn for each of the scenario's turns.
unfoldable pub errored_turns : JudgeErrorType → ℕ → ℕ → List TurnVerdict
errored_turns headline i zero = []
errored_turns headline i (suc n) =
    record {
      turn_idx = i;
      dimensions = [];
      usage = none;
      judge_errored = true;
      judge_error_type = some headline;
    }
    ∷ errored_turns headline (suc i) n

unfoldable pub all_judges_errored_payload : Dict String ScorerResult → Resolution → ℕ → LlmShaped
unfolding errors_of errored_turns
all_judges_errored_payload errored resolution n_turns =
    let headline = or_else (headline_error (errors_of errored)) other in
    elim resolution [
      | turn ↦ turn_level (record {
        overall_pass = false;
        turns = errored_turns headline 0 n_turns;
        usage = none;
        consensus_meta = none;
        judge_errored = true;
        judge_error_type = some headline;
      })
      | scenario ↦ scenario_level (record {
        overall_pass = false;
        dimensions = [];
        usage = none;
        consensus_meta = none;
        judge_errored = true;
        judge_error_type = some headline;
      })
    ]

-- The assertions that every payload has the shape of the block's resolution.
unfoldable pub scenario_verdicts : Dict String ScorerResult → Option ScenarioVerdicts
scenario_verdicts [] = some []
scenario_verdicts ((name, r) ∷ results) =
    let rest = scenario_verdicts results in
    elim r.payload [
      | scenario_level p ↦ elim rest [ none ↦ none | some vs ↦ some ((name, (r.passed, p)) ∷ vs) ]
      | turn_level p ↦ none
    ]

unfoldable pub turn_payloads : Dict String ScorerResult → Option TurnPayloads
turn_payloads [] = some []
turn_payloads ((name, r) ∷ results) =
    let rest = turn_payloads results in
    elim r.payload [
      | scenario_level p ↦ none
      | turn_level p ↦ elim rest [ none ↦ none | some ps ↦ some ((name, p) ∷ ps) ]
    ]

pub data Scored : Type 0 where
  no_score : Scored
  result : ScorerResult → Scored
  assertion_error : Scored

abbrev pub merge_by : Resolution → Strategy → Dict String ScorerResult → Scored
merge_by scenario strategy real = elim (scenario_verdicts real) [
  | none ↦ assertion_error
  | some vs ↦ result (merge_verdicts strategy vs)
]
merge_by turn strategy real = elim (turn_payloads real) [
  | none ↦ assertion_error
  | some ps ↦ result (merge_per_turn_verdicts strategy ps)
]

-- The choice between the merges; `real` and `errored` partition the results.
unfoldable pub conclude :
    Resolution → Strategy → ℕ → Dict String ScorerResult → Dict String ScorerResult → Scored
conclude resolution strategy n_turns [] errored =
    result
      (record { passed = false; payload = all_judges_errored_payload errored resolution n_turns })
conclude resolution strategy n_turns ((name, r) ∷ []) [] = result r
conclude resolution strategy n_turns real errored = merge_by resolution strategy real

-- `score`, on a scenario with the given number of turn outputs.
unfoldable pub score : ConsensusScorer → ℕ → Scored
unfolding collect usable_results conclude
score c zero = no_score
score c (suc n) =
    let results = collect [] (all_judges c) in
    if is_empty results
    then no_score
    else conclude c.first_judge.resolution c.strategy (suc n) (usable_results true results)
        (usable_results false results)
