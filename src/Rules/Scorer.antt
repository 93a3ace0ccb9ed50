-- ===== src/Rules/Scorer.antt =====
-- src/belt/scorer/rules/scorer.py: the checks of each turn, collected over the scenario.
pub mod Labels
pub mod Verdict
use agent_belt.Prelude.{
  ℕ, zero, suc, String, Bool, true, false, Option, none, some, List, [], ◌∷◌, ◌++◌, all,
  if◌then◌else◌,
}
use agent_belt.Python.{Python}
use agent_belt.Entities.{TurnOutput, TurnExpectation, StateExpectation, Turn, blank_output}
use agent_belt.Payloads.{CheckEntry, RulesPayload}
use agent_belt.Rules.Trajectory.{check_trajectory}
use agent_belt.Rules.Checks.{
  check_execution, check_response, check_efficiency, check_performance, check_cost,
}
use agent_belt.Rules.Files.{check_state, check_file_diff, has_file_diff_checks, has_state_checks}

-- `c.passed` in a Boolean place: a check that was not evaluated counts as not passed.
abbrev pub is_passed : CheckEntry → Bool
is_passed c = elim c.passed [ some b ↦ b | none ↦ false ]

module _ (py : Python) where
  open py use {Float}

  unfoldable pub check_turn :
      ℕ → TurnOutput Float → TurnExpectation Float → Option StateExpectation → List CheckEntry
  check_turn turn_idx output expect state_expect =
      check_execution py turn_idx output expect
      ++ (check_trajectory py turn_idx output expect
          ++ (check_response py turn_idx output expect
              ++ (check_efficiency py turn_idx output expect
                  ++ (check_performance py turn_idx output expect
                      ++ (check_cost py turn_idx output expect
                          ++ ((if has_file_diff_checks expect
                                then check_file_diff turn_idx output expect
                                else [])
                              ++ elim state_expect [
                                | none ↦ []
                                | some se ↦ check_state turn_idx output se
                              ]))))))

  abbrev pub state_of : Turn Float → Option StateExpectation
  state_of turn = if has_state_checks turn.state_expect then some turn.state_expect else none

  -- The loop over the turns; a turn with no output is checked against a blank one.
  unfoldable pub score_from : ℕ → List (Turn Float) → List (TurnOutput Float) → List CheckEntry
  score_from i [] outputs = []
  score_from i (turn ∷ turns) [] =
      check_turn i blank_output turn.expect (state_of turn) ++ score_from (suc i) turns []
  score_from i (turn ∷ turns) (output ∷ outputs) =
      check_turn i output turn.expect (state_of turn) ++ score_from (suc i) turns outputs

  unfoldable pub score : List (Turn Float) → List (TurnOutput Float) → RulesPayload
  score turns outputs =
      let checks = score_from 0 turns outputs in
      record { checks = checks; passed = all is_passed checks }
