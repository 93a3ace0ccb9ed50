-- ===== src/Tests/PreflightCases.antt =====
-- The preflight of the judges that work turn by turn, on scenarios with skipped turns.
use agent_belt.Prelude.{
  ℕ, ◌≡◌, refl, true, false, none, [], ◌∷◌, List, String, all, is_empty, Memᴰ, ◌||◌,
}
use agent_belt.Consensus.Score.{turn, scenario}
use agent_belt.Payloads.{UsageStats, timeout}
use agent_belt.Judge.Call.{Outcome, infra_error}
use agent_belt.Judge.Dimensions.{TurnJudgeOverride, ScoringStrategy}
use agent_belt.Judge.PerTurn.{score_per_turn}
use agent_belt.Judge.Tally.{JudgeVerdict, Question, isolated}
use agent_belt.Pipeline.Preflight.{
  LlmJudge, BuiltScorer, single, not_llm, iter_per_turn_judges, JudgedScenario,
  validate_per_turn_judges, resolve_per_turn_override, unknown_judge, never_votes,
}
use agent_belt.Pipeline.Preflight.Accepted.{validate_per_turn_judges-accepts, is_acceptable}
use agent_belt.Pipeline.Preflight.Votes.{score_per_turn-NotBlamed, NotBlamed}

abbrev skipping : TurnJudgeOverride
skipping = record {
  instruction = none;
  dimensions = none;
  extend_default_dimensions = false;
  evidence_files = none;
  skip = true;
}

abbrev turn_judge : LlmJudge
turn_judge = record { judge_name = "style"; resolution = turn }

abbrev sample_built : List BuiltScorer
sample_built =
    not_llm
    ∷ single (record { judge_name = "whole"; resolution = scenario })
    ∷ single turn_judge
    ∷ []

abbrev half_skipped : JudgedScenario
half_skipped = record { name = "a"; turns = (("style", skipping) ∷ []) ∷ [] ∷ [] }

abbrev all_skipped : JudgedScenario
all_skipped = record { name = "b"; turns = (("style", skipping) ∷ ("styl", skipping) ∷ []) ∷ [] }

refused :
    validate_per_turn_judges sample_built (half_skipped ∷ all_skipped ∷ [])
    ≡ unknown_judge "b" 0 "styl" ∷ never_votes "b" "style" ∷ []
unfolding validate_per_turn_judges
refused = refl

validate_per_turn_judges-accepts_example :
    is_empty (validate_per_turn_judges sample_built (half_skipped ∷ all_skipped ∷ [])) ≡ (
      is_empty (iter_per_turn_judges sample_built)
      || all (is_acceptable (iter_per_turn_judges sample_built)) (half_skipped ∷ all_skipped ∷ []))
validate_per_turn_judges-accepts_example =
    validate_per_turn_judges-accepts sample_built (half_skipped ∷ all_skipped ∷ [])

accepted : is_empty (validate_per_turn_judges sample_built (half_skipped ∷ [])) ≡ true
unfolding validate_per_turn_judges
accepted = refl

abbrev timed_out_ask : Question String → ℕ → Outcome JudgeVerdict UsageStats × ℕ
timed_out_ask q n = (infra_error timeout, n)

abbrev no_dimensions : ScoringStrategy
no_dimensions = record { dimensions = []; agent_context = "" }

score_per_turn-NotBlamed_example :
    NotBlamed timed_out_ask no_dimensions isolated
      (resolve_per_turn_override "style" half_skipped.turns)
      ("x" ∷ "y" ∷ [])
      (score_per_turn timed_out_ask no_dimensions isolated
        (resolve_per_turn_override "style" half_skipped.turns)
        ("x" ∷ "y" ∷ [])
        0).0
score_per_turn-NotBlamed_example =
    score_per_turn-NotBlamed timed_out_ask no_dimensions isolated ("x" ∷ "y" ∷ []) sample_built
      (half_skipped ∷ []) turn_judge half_skipped 0 accepted (Memᴰ.head refl) (Memᴰ.head refl) refl
      refl (λ q s. refl)
