-- ===== src/Consensus/Merge.antt =====
-- `_merge_verdicts` of src/belt/scorer/llm/consensus.py, and the merge of one dimension that the
-- per-turn form repeats.
pub mod Dimensions
use agent_belt.Prelude.{
  ℕ, ◌+◌, ◌≡◌, String, Bool, true, false, not, Option, none, some, List, [], ◌∷◌, ◌++◌, map, length,
  keep, all as all_of, Dict, get, keys, set_of, tally, is_some, or_else, sort_by, str_le, concat,
  join, nat_beq, ltb, if◌then◌else◌, ◌==◌, string_eq,
}
use agent_belt.Levels.{ScoreLevel, value, level_eq}
use agent_belt.Payloads.{LlmDimensionVerdict, UsageStats, Disagreement, ConsensusMeta, LlmPayload}
use agent_belt.Payloads.Rows.{LlmShaped, scenario_level}
use agent_belt.Consensus.Votes.{Strategy, strategy_name, apply_strategy, apply_strategy_bool}

pub record ScorerResult : Type 0 where
  pub passed : Bool
  pub payload : LlmShaped

abbrev pub Dimensions : Type 0
Dimensions = Dict String LlmDimensionVerdict

pub record Vote : Type 0 where
  pub judge : String
  pub level : ScoreLevel
  pub reasoning : String

-- The votes on a dimension, in the order of the judges; a judge without it casts none.
unfoldable pub votes_on : String → Dict String Dimensions → List Vote
votes_on dim [] = []
votes_on dim ((judge, dims) ∷ judges) =
    let rest = votes_on dim judges in
    elim (get dim dims) [
      | none ↦ rest
      | some v ↦ record { judge = judge; level = v.score; reasoning = v.reasoning } ∷ rest
    ]

abbrev pub names_of : Dict String Dimensions → List String
names_of [] = []
names_of ((judge, dims) ∷ judges) = keys dims ++ names_of judges

-- `set.union(*dim_sets)` and `set.intersection(*dim_sets)`
unfoldable pub all_dims : Dict String Dimensions → List String
all_dims judges = set_of (names_of judges)

abbrev pub graded_by_all : Dict String Dimensions → String → Bool
graded_by_all judges dim = all_of (λ (judge, dims). is_some (get dim dims)) judges

unfoldable pub shared_dims : Dict String Dimensions → List String
unfolding all_dims
shared_dims judges = keep (graded_by_all judges) (all_dims judges)

abbrev pub summary : List Vote → String
summary votes = join ", " (map (λ v. concat (v.judge ∷ "=" ∷ value v.level ∷ [])) votes)

-- The reasoning of the first vote for the winner, or else of the first vote.
unfoldable pub winning_reasoning : ScoreLevel → String → List Vote → String
winning_reasoning winner default [] = default
winning_reasoning winner default (v ∷ votes) =
    if v.level == winner then v.reasoning else winning_reasoning winner default votes

abbrev pub is_unanimous : List ScoreLevel → Bool
is_unanimous levels = nat_beq (length (set_of levels)) 1

-- The merge of two or more votes on a shared dimension.
unfoldable pub vote_dimension :
    Strategy → Vote → List Vote → LlmDimensionVerdict × Option (Dict ScoreLevel ℕ)
unfolding winning_reasoning
vote_dimension strategy v votes =
    let levels = map (λ w. w.level) (v ∷ votes) in
    let winner = apply_strategy strategy v.level (map (λ w. w.level) votes) in
    let reasoning = winning_reasoning winner v.reasoning (v ∷ votes) in
    if is_unanimous levels then (record { score = winner; reasoning = reasoning }, none) else (
      record {
        score = winner;
        reasoning = concat (
            "[Consensus "
            ∷ strategy_name strategy
            ∷ " ("
            ∷ summary (v ∷ votes)
            ∷ ")] "
            ∷ reasoning
            ∷ []);
      },
      some (tally levels),
    )

abbrev pub first_vote : Vote → LlmDimensionVerdict × Option (Dict ScoreLevel ℕ)
first_vote v = (record { score = v.level; reasoning = v.reasoning }, none)

-- One turn of the loop over the dimensions: no vote gives no entry, and only a shared dimension
-- with two votes is voted on.
unfoldable pub merge_dimension :
    Strategy → Bool → List Vote → Option (LlmDimensionVerdict × Option (Dict ScoreLevel ℕ))
unfolding vote_dimension
merge_dimension strategy shared [] = none
merge_dimension strategy shared (v ∷ []) = some (first_vote v)
merge_dimension strategy shared (v ∷ w ∷ votes) =
    if shared then some (vote_dimension strategy v (w ∷ votes)) else some (first_vote v)

pub record Merged : Type 0 where
  pub dimensions : Dimensions
  pub disagreements : List Disagreement

abbrev pub disagreement : Option ℕ → String → Option (Dict ScoreLevel ℕ) → List Disagreement
disagreement turn dim none = []
disagreement turn dim (some counts) = record { turn = turn; dimension = dim; votes = counts } ∷ []

abbrev pub with_entry :
    Option ℕ → String → Option (LlmDimensionVerdict × Option (Dict ScoreLevel ℕ)) → Merged → Merged
with_entry turn dim none merged = merged
with_entry turn dim (some (verdict, split)) merged = record {
  dimensions = (dim, verdict) ∷ merged.dimensions;
  disagreements = disagreement turn dim split ++ merged.disagreements;
}

unfoldable pub merge_dimensions :
    Strategy → Option ℕ → Dict String Dimensions → List String → Merged
merge_dimensions strategy turn judges [] = record { dimensions = []; disagreements = [] }
merge_dimensions strategy turn judges (dim ∷ names) =
    with_entry turn dim (merge_dimension strategy (graded_by_all judges dim) (votes_on dim judges))
      (merge_dimensions strategy turn judges names)

-- Token usage, summed over the judges that report it.
abbrev pub usage_field : (UsageStats → Option ℕ) → Option UsageStats → ℕ
usage_field read none = 0
usage_field read (some usage) = or_else (read usage) 0

unfoldable pub sum_usage : (UsageStats → Option ℕ) → List (Option UsageStats) → ℕ
sum_usage read [] = 0
sum_usage read (u ∷ us) = usage_field read u + sum_usage read us

unfoldable pub merged_usage : List (Option UsageStats) → Option UsageStats
unfolding sum_usage
merged_usage usages =
    let total = sum_usage (λ u. u.total_tokens) usages in
    if ltb 0 total
    then some (record {
      prompt_tokens = some (sum_usage (λ u. u.prompt_tokens) usages);
      completion_tokens = some (sum_usage (λ u. u.completion_tokens) usages);
      total_tokens = some total;
    })
    else none

-- The sub-judges' results, as the assertion on their payloads leaves them.
abbrev pub ScenarioVerdicts : Type 0
ScenarioVerdicts = Dict String (Bool × LlmPayload)

abbrev pub dimensions_of : ScenarioVerdicts → Dict String Dimensions
dimensions_of [] = []
dimensions_of ((name, (passed, payload)) ∷ verdicts) =
    (name, payload.dimensions) ∷ dimensions_of verdicts

abbrev pub scenario_usages : ScenarioVerdicts → List (Option UsageStats)
scenario_usages [] = []
scenario_usages ((name, (passed, payload)) ∷ verdicts) = payload.usage ∷ scenario_usages verdicts

abbrev pub pass_votes : ScenarioVerdicts → List Bool
pass_votes [] = []
pass_votes ((name, (passed, payload)) ∷ verdicts) = passed ∷ pass_votes verdicts

unfoldable pub merge_verdicts : Strategy → ScenarioVerdicts → ScorerResult
unfolding merge_dimensions merge_dimension votes_on shared_dims all_dims merged_usage
merge_verdicts strategy verdicts =
    let judges = dimensions_of verdicts in
    let merged = merge_dimensions strategy none judges (sort_by str_le (all_dims judges)) in
    let overall = apply_strategy_bool strategy (pass_votes verdicts) in
    record {
      passed = overall;
      payload = scenario_level (record {
        overall_pass = overall;
        dimensions = merged.dimensions;
        usage = merged_usage (scenario_usages verdicts);
        consensus_meta = some (record {
          strategy = strategy_name strategy;
          judges = keys verdicts;
          shared_dimensions = sort_by str_le (shared_dims judges);
          disagreements = merged.disagreements;
        });
        judge_errored = false;
        judge_error_type = none;
      });
    }
