-- ===== src/Payloads.antt =====
-- src/belt/scorer/payloads.py: the typed payloads that scorers leave in a score.
pub mod Rows
pub mod Rollup
use agent_belt.Prelude.{ℕ, String, Bool, Option, List, Dict}
use agent_belt.Json.{Value}
use agent_belt.Levels.{ScoreLevel}

pub record CheckEntry : Type 0 where
  pub dimension : String
  pub check : String
  pub passed : Option Bool
  pub details : String
  pub turn_idx : Option ℕ

pub record RulesPayload : Type 0 where
  pub checks : List CheckEntry
  pub passed : Bool

pub record LlmDimensionVerdict : Type 0 where
  pub score : ScoreLevel
  pub reasoning : String

pub record UsageStats : Type 0 where
  pub prompt_tokens : Option ℕ
  pub completion_tokens : Option ℕ
  pub total_tokens : Option ℕ

-- A disagreement of the judges: the turn (per-turn judging only), the dimension and the votes.
pub record Disagreement : Type 0 where
  pub turn : Option ℕ
  pub dimension : String
  pub votes : Dict ScoreLevel ℕ

pub record ConsensusMeta : Type 0 where
  pub strategy : String
  pub judges : List String
  pub shared_dimensions : List String
  pub disagreements : List Disagreement

pub data JudgeErrorType : Type 0 where
  rate_limited timeout auth_failed other all_turns_skipped : JudgeErrorType

pub record TurnVerdict : Type 0 where
  pub turn_idx : ℕ
  pub dimensions : Dict String LlmDimensionVerdict
  pub usage : Option UsageStats
  pub judge_errored : Bool
  pub judge_error_type : Option JudgeErrorType

-- `individual_verdicts` of a merged payload is written out by `model_dump` for readers of the
-- files, and is left out: no code of the modelled parts reads it.
pub record LlmPayload : Type 0 where
  pub overall_pass : Bool
  pub dimensions : Dict String LlmDimensionVerdict
  pub usage : Option UsageStats
  pub consensus_meta : Option ConsensusMeta
  pub judge_errored : Bool
  pub judge_error_type : Option JudgeErrorType

pub record PerTurnLlmPayload : Type 0 where
  pub overall_pass : Bool
  pub turns : List TurnVerdict
  pub usage : Option UsageStats
  pub consensus_meta : Option ConsensusMeta
  pub judge_errored : Bool
  pub judge_error_type : Option JudgeErrorType

-- The registered payload types; a plugin's own is `plugin`, which no built-in consumer enters.
pub data ScorerPayload : Type 0 where
  rules : RulesPayload → ScorerPayload
  llm : LlmPayload → ScorerPayload
  per_turn : PerTurnLlmPayload → ScorerPayload
  plugin : String → ScorerPayload

pub record ScenarioScore : Type 0 where
  pub scenario_name : String
  pub group : String
  pub scores : Dict String ScorerPayload
  pub overall_pass : Bool
