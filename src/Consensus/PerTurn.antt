-- ===== src/Consensus/PerTurn.antt =====
-- `_merge_per_turn_verdicts` of src/belt/scorer/llm/consensus.py.
pub mod Coverage
use agent_belt.Prelude.{
  ℕ, ◌≡◌, String, Bool, true, false, not, ◌&&◌, ◌||◌, Option, none, some, List, [], ◌∷◌, ◌++◌, map,
  keep, any as any_of, all as all_of, elem, Dict, get, keys, set_of, is_empty, is_some, or_else,
  sort_by, str_le, leb, nat_beq, if◌then◌else◌, ◌==◌, nat_eq, string_eq,
}
use agent_belt.Levels.{ScoreLevel, default_fail_levels, level_eq}
use agent_belt.Payloads.{
  LlmDimensionVerdict, UsageStats, Disagreement, ConsensusMeta, TurnVerdict, PerTurnLlmPayload,
  JudgeErrorType, all_turns_skipped,
}
use agent_belt.Payloads.Rows.{LlmShaped, turn_level}
use agent_belt.Consensus.Votes.{Strategy, strategy_name, headline_error}
use agent_belt.Consensus.Merge.{
  ScorerResult, Dimensions, merge_dimensions, all_dims, shared_dims, merged_usage,
}

abbrev pub TurnPayloads : Type 0
TurnPayloads = Dict String PerTurnLlmPayload

abbrev pub indices_of : TurnPayloads → List ℕ
indices_of [] = []
indices_of ((name, payload) ∷ payloads) = map (λ t. t.turn_idx) payload.turns ++ indices_of payloads

-- `sorted(all_turn_indices)`
unfoldable pub turn_indices : TurnPayloads → List ℕ
turn_indices payloads = sort_by leb (set_of (indices_of payloads))

abbrev pub turn_at : ℕ → List TurnVerdict → Option TurnVerdict
turn_at idx [] = none
turn_at idx (t ∷ turns) = if nat_beq t.turn_idx idx then some t else turn_at idx turns

-- `per_judge_turn`
unfoldable pub per_judge_turn : ℕ → TurnPayloads → Dict String TurnVerdict
per_judge_turn idx [] = []
per_judge_turn idx ((name, payload) ∷ payloads) =
    let rest = per_judge_turn idx payloads in
    elim (turn_at idx payload.turns) [ none ↦ rest | some t ↦ (name, t) ∷ rest ]

abbrev pub casts_votes : TurnVerdict → Bool
casts_votes t = not t.judge_errored && not (is_empty t.dimensions)

-- `voting`, with the dimensions that each judge graded.
unfoldable pub voting : Dict String TurnVerdict → Dict String Dimensions
voting [] = []
voting ((name, t) ∷ turns) =
    let rest = voting turns in if casts_votes t then (name, t.dimensions) ∷ rest else rest

-- The error types of the entries that errored and name one.
unfoldable pub error_types : List TurnVerdict → List JudgeErrorType
error_types [] = []
error_types (t ∷ turns) =
    let rest = error_types turns in
    if t.judge_errored then elim t.judge_error_type [ none ↦ rest | some e ↦ e ∷ rest ] else rest

abbrev pub turns_of : Dict String TurnVerdict → List TurnVerdict
turns_of [] = []
turns_of ((name, t) ∷ turns) = t ∷ turns_of turns

pub record MergedTurn : Type 0 where
  pub verdict : TurnVerdict
  pub disagreements : List Disagreement
  pub shared : List String

-- A turn on which no judge cast a vote.
unfoldable pub uncovered_turn : ℕ → List JudgeErrorType → MergedTurn
uncovered_turn idx errors = record {
  verdict = record {
    turn_idx = idx;
    dimensions = [];
    usage = none;
    judge_errored = not (is_empty errors);
    judge_error_type = headline_error errors;
  };
  disagreements = [];
  shared = [];
}

unfoldable pub voted_turn : Strategy → ℕ → Dict String Dimensions → MergedTurn
voted_turn strategy idx judges =
    let merged = merge_dimensions strategy (some idx) judges (sort_by str_le (all_dims judges)) in
    record {
      verdict = record {
        turn_idx = idx;
        dimensions = merged.dimensions;
        usage = none;
        judge_errored = false;
        judge_error_type = none;
      };
      disagreements = merged.disagreements;
      shared = shared_dims judges;
    }

unfoldable pub merge_turn : Strategy → ℕ → Dict String TurnVerdict → MergedTurn
unfolding uncovered_turn voted_turn
merge_turn strategy idx per_judge =
    if is_empty (voting per_judge)
    then uncovered_turn idx (error_types (turns_of per_judge))
    else voted_turn strategy idx (voting per_judge)

-- An index comes from some judge's payload, so that `per_judge_turn` is never empty here.
unfoldable pub merge_turns : Strategy → TurnPayloads → List ℕ → List MergedTurn
unfolding merge_turn per_judge_turn
merge_turns strategy payloads indices =
    map (λ idx. merge_turn strategy idx (per_judge_turn idx payloads)) indices

abbrev pub fails : TurnVerdict → Bool
fails t = not t.judge_errored && any_of (λ (dim, v). elem v.score default_fail_levels) t.dimensions

abbrev pub usages_of : TurnPayloads → List (Option UsageStats)
usages_of [] = []
usages_of ((name, payload) ∷ payloads) = payload.usage ∷ usages_of payloads

abbrev pub disagreements_of : List MergedTurn → List Disagreement
disagreements_of [] = []
disagreements_of (t ∷ turns) = t.disagreements ++ disagreements_of turns

abbrev pub shared_of : List MergedTurn → List String
shared_of [] = []
shared_of (t ∷ turns) = t.shared ++ shared_of turns

-- The headline error of the merged payload.
unfoldable pub payload_error : List TurnVerdict → Option JudgeErrorType
payload_error turns =
    if any_of (λ t. t.judge_errored) turns
    then some (or_else (headline_error (error_types turns)) all_turns_skipped)
    else if any_of (λ t. not (is_empty t.dimensions)) turns
    then none
    else some all_turns_skipped

unfoldable pub merge_per_turn_verdicts : Strategy → TurnPayloads → ScorerResult
unfolding merge_turns payload_error
merge_per_turn_verdicts strategy payloads =
    let merged = merge_turns strategy payloads (turn_indices payloads) in
    let turns = map (λ t. t.verdict) merged in
    let any_voted = any_of (λ t. not (is_empty t.dimensions)) turns in
    let judge_errored = any_of (λ t. t.judge_errored) turns || not any_voted in
    let overall_pass = any_voted && (not judge_errored && not (any_of fails turns)) in
    record {
      passed = overall_pass;
      payload = turn_level (record {
        overall_pass = overall_pass;
        turns = turns;
        usage = merged_usage (usages_of payloads);
        consensus_meta = some (record {
          strategy = strategy_name strategy;
          judges = keys payloads;
          shared_dimensions = sort_by str_le (set_of (shared_of merged));
          disagreements = disagreements_of merged;
        });
        judge_errored = judge_errored;
        judge_error_type = payload_error turns;
      });
    }
