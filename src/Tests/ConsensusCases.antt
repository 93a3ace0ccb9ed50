-- ===== src/Tests/ConsensusCases.antt =====
-- The consensus of several judges on sample votes.
use agent_belt.Prelude.{
  any as any_of, ◌≡◌, refl, ◌≢◌, true, false, some, [], ◌∷◌, get, elem, count, is_empty, All, arith,
  string_eq, sort_by, insert, set_of_onto, add, first_min, tally_onto,
}
use agent_belt.Prelude.Int.{◌≤ℤ◌}
use agent_belt.Levels.{ScoreLevel, low, medium, high, level_rank, level_eq, default_fail_levels}
use agent_belt.Payloads.{timeout, rate_limited, LlmDimensionVerdict}
use agent_belt.Payloads.Rows.{scenario_level}
use agent_belt.Consensus.Votes.{
  majority, unanimous, any, parse_strategy, candidates, majority_vote_level, apply_strategy,
  headline_error, error_eq,
}
use agent_belt.Consensus.Votes.Majority.{IsMajority, majority_vote_level-IsMajority}
use agent_belt.Consensus.Merge.{
  merge_dimensions, all_dims, vote_dimension, winning_reasoning, ScenarioVerdicts, votes_on,
  graded_by_all, merge_dimension, dimensions_of, merge_verdicts,
}
use agent_belt.Consensus.Merge.Dimensions.{
  merged_dims, levels, merge_verdicts-voted, merge_verdicts-unanimous,
}
use agent_belt.Consensus.PerTurn.{
  merge_turns, turn_indices, merge_turn, uncovered_turn, voted_turn, TurnPayloads, per_judge_turn,
  voting, error_types, turns_of, merge_per_turn_verdicts,
}
use agent_belt.Consensus.PerTurn.Coverage.{
  errored_by_name, merge_per_turn-covered, merge_per_turn-unanimous,
}
use agent_belt.Consensus.Score.{
  Judge, scenario, ConsensusScorer, built, build, assertion_error, score,
}
use agent_belt.Consensus.Score.Blocks.{score-no_assertion}
use agent_belt.Tests.Samples.{
  scenario_payload, errored_payload, turns_payload, graded_turn, errored_turn,
}

majority_vote_level-IsMajority_example :
    IsMajority (high ∷ low ∷ high ∷ low ∷ []) (majority_vote_level high (low ∷ high ∷ low ∷ []))
majority_vote_level-IsMajority_example = majority_vote_level-IsMajority high (low ∷ high ∷ low ∷ [])

swapped : (l : ScoreLevel) → count l (low ∷ high ∷ []) ≡ count l (high ∷ low ∷ [])
swapped l = ground arith

abbrev two_verdicts : ScenarioVerdicts
two_verdicts =
    ("a", (true, scenario_payload true high)) ∷ ("b", (false, scenario_payload false low)) ∷ []

abbrev merged_style : LlmDimensionVerdict
merged_style = record { score = low; reasoning = "[Consensus unanimous (a=high, b=low)] seen" }

merged_style_run :
    get "style" (merged_dims (merge_verdicts unanimous two_verdicts).payload) ≡ some merged_style
unfolding merge_verdicts merge_dimensions all_dims votes_on merge_dimension vote_dimension
    winning_reasoning apply_strategy sort_by insert set_of_onto add first_min
merged_style_run = refl

merge_verdicts-voted_example :
    elem low (levels (votes_on "style" (dimensions_of two_verdicts))) ≡ true
merge_verdicts-voted_example =
    merge_verdicts-voted unanimous two_verdicts "style" merged_style merged_style_run

merge_verdicts-unanimous_example :
    All
      (λ l. level_rank low ≤ℤ level_rank l)
      (levels (votes_on "style" (dimensions_of two_verdicts)))
merge_verdicts-unanimous_example =
    merge_verdicts-unanimous two_verdicts "style" merged_style refl merged_style_run

abbrev two_turns : TurnPayloads
two_turns =
    ("a", turns_payload (graded_turn 0 high ∷ graded_turn 1 high ∷ []))
    ∷ ("b", turns_payload (graded_turn 0 medium ∷ errored_turn 1 ∷ []))
    ∷ []

two_turns_pass : (merge_per_turn_verdicts unanimous two_turns).passed ≡ true
unfolding merge_per_turn_verdicts merge_turns turn_indices merge_turn uncovered_turn voted_turn
    per_judge_turn voting error_types headline_error merge_dimensions all_dims votes_on
    merge_dimension vote_dimension winning_reasoning apply_strategy sort_by insert set_of_onto add
    first_min tally_onto
two_turns_pass = refl

style_is_shared : graded_by_all (voting (per_judge_turn 0 two_turns)) "style" ≡ true
unfolding voting per_judge_turn
style_is_shared = refl

merge_per_turn-unanimous_example :
    All
      (λ l. elem l default_fail_levels ≡ false)
      (levels (votes_on "style" (voting (per_judge_turn 0 two_turns))))
merge_per_turn-unanimous_example =
    merge_per_turn-unanimous two_turns 0 "style" two_turns_pass refl style_is_shared

abbrev one_silent : TurnPayloads
one_silent =
    ("a", turns_payload (graded_turn 0 high ∷ record (graded_turn 1 high) { dimensions = [] } ∷ []))
    ∷ ("b", turns_payload (graded_turn 0 medium ∷ []))
    ∷ []

one_silent_passes : (merge_per_turn_verdicts majority one_silent).passed ≡ true
unfolding merge_per_turn_verdicts merge_turns turn_indices merge_turn uncovered_turn voted_turn
    per_judge_turn voting error_types headline_error merge_dimensions all_dims votes_on
    merge_dimension vote_dimension winning_reasoning apply_strategy majority_vote_level candidates
    sort_by insert set_of_onto add first_min tally_onto
one_silent_passes = refl

nobody_votes : is_empty (voting (per_judge_turn 1 one_silent)) ≡ true
unfolding voting per_judge_turn
nobody_votes = refl

merge_per_turn-covered_example :
    any_of errored_by_name (turns_of (per_judge_turn 1 one_silent)) ≡ false
merge_per_turn-covered_example =
    merge_per_turn-covered majority one_silent 1 one_silent_passes refl nobody_votes

abbrev judge_a : Judge
judge_a = record {
  judge_name = "a";
  resolution = scenario;
  answer = some (record { passed = true; payload = scenario_level (scenario_payload true high) });
}

abbrev judge_b : Judge
judge_b = record {
  judge_name = "b";
  resolution = scenario;
  answer = some (record { passed = false; payload = scenario_level errored_payload });
}

abbrev block : ConsensusScorer
block = record { first_judge = judge_a; second_judge = judge_b; other_judges = []; strategy = any }

block_is_built : build (judge_a ∷ judge_b ∷ []) "any" ≡ built block
unfolding build parse_strategy
block_is_built = refl

score-no_assertion_example : score block 1 ≢ assertion_error
score-no_assertion_example =
    score-no_assertion (judge_a ∷ judge_b ∷ []) "any" block 1 block_is_built refl

timeout_leads : headline_error (timeout ∷ rate_limited ∷ timeout ∷ []) ≡ some timeout
unfolding headline_error tally_onto first_min
timeout_leads = refl
