-- ===== src/Rules/Trajectory.antt =====
-- src/belt/scorer/rules/trajectory.py: one function for each stanza of `check_trajectory`.
use agent_belt.Prelude.{
  ℕ, String, Bool, true, false, not, ◌&&◌, ◌||◌, Option, none, some, List, [], ◌∷◌, ◌++◌, map, any,
  elem, keep, set_of, is_empty, take, join, concat, sort_by, str_le, if◌then◌else◌, ◌==◌, string_eq,
}
use agent_belt.Json.{obj}
use agent_belt.Python.{Python}
use agent_belt.Entities.{ToolCall, TurnOutput, TurnExpectation}
use agent_belt.Payloads.{CheckEntry}
use agent_belt.Rules.Helpers.{
  is_subsequence, args_match, result_contains, result_matches, skill_invoked,
}

abbrev pub trajectory_entry : ℕ → String → Bool → String → CheckEntry
trajectory_entry ti check passed details = record {
  dimension = "trajectory";
  check = check;
  passed = some passed;
  details = details;
  turn_idx = some ti;
}

module _ (py : Python) where
  open py use {Float, word_in, lower, strip, str_value, repr, compile}

  abbrev pub tool_names : TurnOutput Float → List String
  tool_names output = set_of (map (λ tc. tc.name) output.tool_calls)

  -- In the structured calls, or else as a word of the raw output.
  abbrev pub tool_found : TurnOutput Float → String → Bool
  tool_found output tool = elem tool (tool_names output) || word_in tool output.raw_cli

  unfoldable pub tools_invoked_checks :
      ℕ → TurnOutput Float → TurnExpectation Float → List CheckEntry
  tools_invoked_checks ti output expect =
      map
        (λ tool.
          trajectory_entry ti (concat ("tool_invoked(" ∷ tool ∷ ")" ∷ [])) (tool_found output tool)
            (if elem tool (tool_names output)
              then "via tool_calls"
              else if word_in tool output.raw_cli
              then "via cli fallback"
              else ""))
        expect.tools_invoked

  abbrev pub first_match : List String → String
  first_match [] = ""
  first_match (t ∷ ts) = concat ("matched: " ∷ t ∷ [])

  unfoldable pub tools_invoked_any_checks :
      ℕ → TurnOutput Float → TurnExpectation Float → List CheckEntry
  tools_invoked_any_checks ti output expect =
      map
        (λ alternatives.
          let matched = keep (tool_found output) alternatives in
          trajectory_entry ti (concat ("tool_invoked_any(" ∷ join "|" alternatives ∷ ")" ∷ []))
            (not (is_empty matched)) (first_match matched))
        expect.tools_invoked_any

  abbrev pub tool_sequence : TurnOutput Float → List String
  tool_sequence output =
      if is_empty output.tool_sequence
      then map (λ tc. tc.name) output.tool_calls
      else output.tool_sequence

  unfoldable pub in_order_checks : ℕ → TurnOutput Float → TurnExpectation Float → List CheckEntry
  in_order_checks ti output expect =
      let wanted = expect.tools_invoked_in_order in
      let seq = tool_sequence output in
      let passed = is_subsequence wanted seq in
      if is_empty wanted
      then []
      else trajectory_entry ti (concat ("tools_invoked_in_order(" ∷ join "→" wanted ∷ ")" ∷ []))
          passed (if passed then "" else concat ("actual sequence: " ∷ join "→" (take 20 seq) ∷ []))
        ∷ []

  abbrev pub listed : String → List String → String
  listed heading [] = ""
  listed heading (t ∷ ts) = concat (heading ∷ join "," (t ∷ ts) ∷ [])

  unfoldable pub only_used_checks : ℕ → TurnOutput Float → TurnExpectation Float → List CheckEntry
  only_used_checks ti output expect =
      let allowed = set_of expect.only_used_tools in
      let violations = sort_by str_le (keep (λ t. not (elem t allowed)) (tool_names output)) in
      if is_empty expect.only_used_tools
      then []
      else trajectory_entry ti
          (concat ("only_used_tools(" ∷ join "," (sort_by str_le allowed) ∷ ")" ∷ []))
          (is_empty violations) (listed "violations: " violations)
        ∷ []

  unfoldable pub forbidden_checks : ℕ → TurnOutput Float → TurnExpectation Float → List CheckEntry
  forbidden_checks ti output expect =
      let forbidden = set_of expect.forbidden_tools in
      let used_forbidden = sort_by str_le (keep (λ t. elem t forbidden) (tool_names output)) in
      if is_empty expect.forbidden_tools
      then []
      else trajectory_entry ti
          (concat ("forbidden_tools(" ∷ join "," (sort_by str_le forbidden) ∷ ")" ∷ []))
          (is_empty used_forbidden) (listed "used: " used_forbidden)
        ∷ []

  abbrev pub calls_of : TurnOutput Float → String → List (ToolCall Float)
  calls_of output tool_name = keep (λ tc. tc.name == tool_name) output.tool_calls

  -- The two branches that the checks on a tool's calls share: no call, and some call that fits.
  abbrev pub call_entry :
      ℕ → String → String → List (ToolCall Float) → (ToolCall Float → Bool) → String → CheckEntry
  call_entry ti check tool_name [] fits missing =
      trajectory_entry ti check false (concat ("tool " ∷ tool_name ∷ " not invoked" ∷ []))
  call_entry ti check tool_name (tc ∷ calls) fits missing =
      let found = any fits (tc ∷ calls) in
      trajectory_entry ti check found (if found then "" else missing)

  unfoldable pub args_contain_checks :
      ℕ → TurnOutput Float → TurnExpectation Float → List CheckEntry
  args_contain_checks ti output expect =
      map
        (λ (tool_name, expected).
          call_entry ti (concat ("tool_args_contain(" ∷ tool_name ∷ ")" ∷ [])) tool_name
            (calls_of output tool_name) (λ tc. args_match py tc.args expected)
            (concat ("no call matched " ∷ str_value (obj expected) ∷ [])))
        expect.tool_args_contain

  unfoldable pub result_contains_checks :
      ℕ → TurnOutput Float → TurnExpectation Float → List CheckEntry
  result_contains_checks ti output expect =
      map
        (λ (tool_name, expected).
          call_entry ti (concat ("tool_result_contains(" ∷ tool_name ∷ ")" ∷ [])) tool_name
            (calls_of output tool_name) (λ tc. result_contains py tc expected)
            (concat ("no result contained " ∷ repr expected ∷ [])))
        expect.tool_result_contains

  -- `_compiled_tool_patterns[tool_name]` is the compiled form of this very entry.
  unfoldable pub result_pattern_checks :
      ℕ → TurnOutput Float → TurnExpectation Float → List CheckEntry
  result_pattern_checks ti output expect =
      map
        (λ (tool_name, expected).
          call_entry ti (concat ("tool_result_pattern(" ∷ tool_name ∷ ")" ∷ [])) tool_name
            (calls_of output tool_name) (λ tc. result_matches py tc (compile expected))
            (concat ("no result matched " ∷ repr expected ∷ [])))
        expect.tool_result_pattern

  unfoldable pub skill_checks : ℕ → TurnOutput Float → TurnExpectation Float → List CheckEntry
  skill_checks ti output expect =
      map
        (λ skill.
          let verdict = skill_invoked py skill output.tool_calls output.raw_cli in
          trajectory_entry ti (concat ("skill_invoked(" ∷ skill ∷ ")" ∷ [])) verdict.0 verdict.1)
        expect.skills_invoked

  -- `bool(text and text.strip())`
  abbrev pub has_text : Option String → Bool
  has_text none = false
  has_text (some text) = not (text == "") && not (strip text == "")

  abbrev pub same_bool : Bool → Bool → Bool
  same_bool true b = b
  same_bool false b = not b

  unfoldable pub thinking_checks : ℕ → TurnOutput Float → TurnExpectation Float → List CheckEntry
  thinking_checks ti output expect =
      let present = has_text output.thinking_text in
      elim expect.has_thinking [
        | none ↦ []
        | some wanted ↦
            trajectory_entry ti "has_thinking" (same_bool present wanted) (
              if same_bool present wanted
              then ""
              else if wanted
              then "thinking absent"
              else "thinking unexpectedly present")
            ∷ []
      ]

  unfoldable pub check_trajectory : ℕ → TurnOutput Float → TurnExpectation Float → List CheckEntry
  check_trajectory ti output expect =
      tools_invoked_checks ti output expect
      ++ (tools_invoked_any_checks ti output expect
          ++ (in_order_checks ti output expect
              ++ (only_used_checks ti output expect
                  ++ (forbidden_checks ti output expect
                      ++ (args_contain_checks ti output expect
                          ++ (result_contains_checks ti output expect
                              ++ (result_pattern_checks ti output expect
                                  ++ (skill_checks ti output expect
                                      ++ thinking_checks ti output expect))))))))
