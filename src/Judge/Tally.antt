-- ===== src/Judge/Tally.antt =====
-- The payloads of a single judge, and the variables of the loop over the turns
-- (src/belt/scorer/llm/scorer.py).
use agent_belt.Prelude.{
  ℕ, ◌+◌, String, Bool, true, false, not, ◌&&◌, ◌||◌, Option, none, some, List, [], ◌∷◌, ◌++◌,
  any as any_of, elem, Dict, or_else, ltb, if◌then◌else◌, string_eq,
}
use agent_belt.Levels.{default_fail_levels, level_eq}
use agent_belt.Payloads.{
  LlmDimensionVerdict, LlmPayload, UsageStats, TurnVerdict, PerTurnLlmPayload, JudgeErrorType,
  all_turns_skipped,
}
use agent_belt.Consensus.PerTurn.{fails}
use agent_belt.Judge.Dimensions.{ScoringStrategy}

-- `JudgeVerdict`, with its dimensions apart from the overall verdict.
pub record JudgeVerdict : Type 0 where
  pub overall_pass : Bool
  pub dimension_scores : Dict String LlmDimensionVerdict

pub data EvidenceScope : Type 0 where
  isolated cumulative : EvidenceScope

-- What is asked about a turn, or about a scenario: the dimensions, the turns shown and the number
-- of the first of them, and what the turn gives in place of the scenario's instruction and files.
pub record Question (T : Type 0) : Type 0 where
  pub strategy : ScoringStrategy
  pub start_idx : ℕ
  pub turns : List T
  pub instruction : Option String
  pub evidence_files : Option (List String)

-- What scoring gives: a payload, a ScorerError or another exception.
pub data Scored (P : Type 0) : Type 0 where
  scored : P → Scored P
  raised_fatal : Scored P
  raised_other : Scored P

abbrev pub judge_errored_payload : JudgeErrorType → LlmPayload
judge_errored_payload e = record {
  overall_pass = false;
  dimensions = [];
  usage = none;
  consensus_meta = none;
  judge_errored = true;
  judge_error_type = some e;
}

abbrev pub has_fail_level : Dict String LlmDimensionVerdict → Bool
has_fail_level = any_of (λ (name, v). elem v.score default_fail_levels)

-- `_verdict_to_payload`: the overall verdict of the model cannot hide a failing dimension.
abbrev pub verdict_to_payload : JudgeVerdict → Option UsageStats → LlmPayload
verdict_to_payload v usage = record {
  overall_pass = v.overall_pass && not (has_fail_level v.dimension_scores);
  dimensions = v.dimension_scores;
  usage = usage;
  consensus_meta = none;
  judge_errored = false;
  judge_error_type = none;
}

-- `_turn_verdict_from_judge_verdict`
abbrev pub turn_verdict_from : ℕ → JudgeVerdict → Option UsageStats → TurnVerdict
turn_verdict_from i v usage = record {
  turn_idx = i;
  dimensions = v.dimension_scores;
  usage = usage;
  judge_errored = false;
  judge_error_type = none;
}

abbrev pub skipped_turn : ℕ → TurnVerdict
skipped_turn i = record {
  turn_idx = i;
  dimensions = [];
  usage = none;
  judge_errored = false;
  judge_error_type = none;
}

abbrev pub errored_turn : ℕ → JudgeErrorType → TurnVerdict
errored_turn i e = record {
  turn_idx = i;
  dimensions = [];
  usage = none;
  judge_errored = true;
  judge_error_type = some e;
}

-- The variables of the loop over the turns.
pub record Tally : Type 0 where
  pub turns_out : List TurnVerdict
  pub prompt : ℕ
  pub completion : ℕ
  pub tokens_seen : Bool
  pub any_voted : Bool
  pub first_error_type : Option JudgeErrorType
  pub any_errored : Bool

abbrev pub first_tally : Tally
first_tally = record {
  turns_out = [];
  prompt = 0;
  completion = 0;
  tokens_seen = false;
  any_voted = false;
  first_error_type = none;
  any_errored = false;
}

abbrev pub skip_turn : ℕ → Tally → Tally
skip_turn i t = record t { turns_out = t.turns_out ++ skipped_turn i ∷ [] }

abbrev pub some_first : Option JudgeErrorType → JudgeErrorType → Option JudgeErrorType
some_first none e = some e
some_first (some f) e = some f

abbrev pub error_turn : ℕ → JudgeErrorType → Tally → Tally
error_turn i e t = record t {
  turns_out = t.turns_out ++ errored_turn i e ∷ [];
  any_errored = true;
  first_error_type = some_first t.first_error_type e;
}

-- `int(usage.get(...) or 0)`
abbrev pub prompt_of : Option UsageStats → ℕ
prompt_of none = 0
prompt_of (some u) = or_else u.prompt_tokens 0

abbrev pub completion_of : Option UsageStats → ℕ
completion_of none = 0
completion_of (some u) = or_else u.completion_tokens 0

abbrev pub vote_turn : ℕ → JudgeVerdict → Option UsageStats → Tally → Tally
vote_turn i v usage t = record t {
  turns_out = t.turns_out ++ turn_verdict_from i v usage ∷ [];
  any_voted = true;
  prompt = t.prompt + prompt_of usage;
  completion = t.completion + completion_of usage;
  tokens_seen = t.tokens_seen || (ltb 0 (prompt_of usage) || ltb 0 (completion_of usage));
}

abbrev pub merged_usage : Tally → Option UsageStats
merged_usage t =
    if t.tokens_seen
    then some (record {
      prompt_tokens = some t.prompt;
      completion_tokens = some t.completion;
      total_tokens = some (t.prompt + t.completion);
    })
    else none

abbrev pub overall_pass_of : Tally → Bool
overall_pass_of t = t.any_voted && (not t.any_errored && not (any_of fails t.turns_out))

-- What follows the loop.
abbrev pub conclude : Tally → PerTurnLlmPayload
conclude t =
    if not t.any_voted
    then record {
      overall_pass = false;
      turns = t.turns_out;
      usage = merged_usage t;
      consensus_meta = none;
      judge_errored = true;
      judge_error_type = some (or_else t.first_error_type all_turns_skipped);
    }
    else record {
      overall_pass = overall_pass_of t;
      turns = t.turns_out;
      usage = merged_usage t;
      consensus_meta = none;
      judge_errored = t.any_errored;
      judge_error_type = if t.any_errored then t.first_error_type else none;
    }
