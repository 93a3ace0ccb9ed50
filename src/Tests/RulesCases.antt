-- ===== src/Tests/RulesCases.antt =====
-- The rules, and the rows of payloads, on sample turns.
use agent_belt.Prelude.{
  ℕ, ◌≡◌, refl, ◌↔◌, ◌||◌, not, String, true, false, [], ◌∷◌, all, any, elem, is_empty, All, arith,
  values_of, string_eq,
}
use mathlib.Core.List.{Sublistᴰ}
use agent_belt.Levels.{high, low}
use agent_belt.Payloads.Rows.{DimensionFeedback, cells, iter_per_turn_llm}
use agent_belt.Payloads.Rollup.{RowIsWorst, iter_per_turn_llm-worst}
use agent_belt.Rules.Helpers.{is_subsequence}
use agent_belt.Rules.Helpers.Subsequence.{is_subsequence_iff}
use agent_belt.Rules.Trajectory.{only_used_checks, forbidden_checks}
use agent_belt.Rules.Scorer.{is_passed, score}
use agent_belt.Rules.Scorer.Labels.{labels, score-labels}
use agent_belt.Rules.Scorer.Verdict.{tool_policy, score_short}
use agent_belt.Tests.Samples.{
  sample_py, strict_expect, calls_output, plain_turn, turns_payload, graded_turn,
}

score-labels_example :
    labels (score sample_py (plain_turn ∷ []) (calls_output ∷ [])).checks
    ≡ labels (score sample_py (plain_turn ∷ []) []).checks
score-labels_example = score-labels sample_py (plain_turn ∷ []) (calls_output ∷ []) []

score_short_example :
    (score sample_py (plain_turn ∷ plain_turn ∷ []) (calls_output ∷ [])).passed ≡ false
score_short_example =
    score_short sample_py (plain_turn ∷ plain_turn ∷ []) (calls_output ∷ []) (omega arith)
      (refl, (refl, tt))

tool_policy_example :
    (all is_passed (only_used_checks sample_py 0 calls_output strict_expect) ≡ (
      is_empty strict_expect.only_used_tools
      || all (λ tc. elem tc.name strict_expect.only_used_tools) calls_output.tool_calls))
    × (all is_passed (forbidden_checks sample_py 0 calls_output strict_expect)
        ≡ not (any (λ tc. elem tc.name strict_expect.forbidden_tools) calls_output.tool_calls))
tool_policy_example = tool_policy sample_py 0 calls_output strict_expect

is_subsequence_iff_example :
    (is_subsequence ("Read" ∷ "Write" ∷ []) ("Read" ∷ "Bash" ∷ "Write" ∷ []) ≡ true)
    ↔ Sublistᴰ {A = String} ("Read" ∷ "Write" ∷ []) ("Read" ∷ "Bash" ∷ "Write" ∷ [])
is_subsequence_iff_example =
    is_subsequence_iff ("Read" ∷ "Write" ∷ []) ("Read" ∷ "Bash" ∷ "Write" ∷ [])

iter_per_turn_llm-worst_example :
    All
      (λ (fb : DimensionFeedback ℕ).
        RowIsWorst fb.raw
          (values_of fb.dimension (cells (graded_turn 0 high ∷ graded_turn 1 low ∷ []))))
      (iter_per_turn_llm sample_py "judge"
        (turns_payload (graded_turn 0 high ∷ graded_turn 1 low ∷ [])))
iter_per_turn_llm-worst_example =
    iter_per_turn_llm-worst sample_py "judge"
      (turns_payload (graded_turn 0 high ∷ graded_turn 1 low ∷ []))
