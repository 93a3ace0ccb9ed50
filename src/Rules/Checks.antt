-- ===== src/Rules/Checks.antt =====
-- src/belt/scorer/rules/{execution,response,efficiency,performance}.py
use agent_belt.Prelude.{
  ℕ, String, Bool, false, not, ◌||◌, Option, none, some, List, [], ◌∷◌, ◌++◌, map, any, length,
  str_in, concat, or_else, if◌then◌else◌, ◌==◌, string_eq,
}
use agent_belt.Prelude.Int.{ℤ, pos, leb_ℤ}
use agent_belt.Python.{Python}
use agent_belt.Entities.{TurnTiming, TurnOutput, TurnExpectation}
use agent_belt.Payloads.{CheckEntry}

abbrev pub entry : String → ℕ → String → Bool → String → CheckEntry
entry dimension ti check passed details = record {
  dimension = dimension;
  check = check;
  passed = some passed;
  details = details;
  turn_idx = some ti;
}

-- `ERROR_PATTERNS` of constants.py.
abbrev pub error_patterns : List String
error_patterns =
    "traceback (most recent call last)" ∷ "runtimeerror: " ∷ "attributeerror: " ∷ "keyerror: "
    ∷ "typeerror: " ∷ "nameerror: " ∷ "valueerror: " ∷ "assertionerror: " ∷ "importerror: "
    ∷ "oserror: " ∷ "filenotfounderror: " ∷ "permissionerror: " ∷ "indexerror: "
    ∷ "zerodivisionerror: " ∷ "validation error" ∷ "error in stream" ∷ []

module _ (py : Python) where
  open py use {Float, le, lower, prefix, str_int, str_float, fixed, repr, compile, search}

  -- The agent's own flag, or else the error patterns in the raw output.
  unfoldable pub turn_errored : TurnOutput Float → Bool
  turn_errored output = elim output.has_error [
    | some flag ↦ flag
    | none ↦ any (λ p. str_in p (lower output.raw_cli)) error_patterns
  ]

  unfoldable pub no_errors_checks : ℕ → TurnOutput Float → TurnExpectation Float → List CheckEntry
  no_errors_checks ti output expect =
      if expect.no_errors
      then entry "execution" ti "no_errors" (not (turn_errored output)) "" ∷ []
      else []

  unfoldable pub not_contains_checks :
      ℕ → TurnOutput Float → TurnExpectation Float → List CheckEntry
  not_contains_checks ti output expect =
      map
        (λ forbidden.
          entry "execution" ti (concat ("not_contains(" ∷ forbidden ∷ ")" ∷ []))
            (not (str_in (lower forbidden) (lower output.raw_cli))) "")
        expect.not_contains

  unfoldable pub error_type_checks : ℕ → TurnOutput Float → TurnExpectation Float → List CheckEntry
  error_type_checks ti output expect =
      let actual = or_else output.error_type "" in
      elim expect.error_type_is [
        | none ↦ []
        | some wanted ↦
            entry "execution" ti (concat ("error_type_is(" ∷ wanted ∷ ")" ∷ []))
              (lower actual == lower wanted)
              (if actual == "" then "no error_type" else concat ("actual: " ∷ actual ∷ []))
            ∷ []
      ]

  unfoldable pub check_execution : ℕ → TurnOutput Float → TurnExpectation Float → List CheckEntry
  check_execution ti output expect =
      no_errors_checks ti output expect
      ++ (not_contains_checks ti output expect ++ error_type_checks ti output expect)

  unfoldable pub has_reply_checks : ℕ → TurnOutput Float → TurnExpectation Float → List CheckEntry
  has_reply_checks ti output expect =
      if expect.has_reply then entry "response" ti "has_reply" output.has_reply "" ∷ [] else []

  unfoldable pub contains_checks : ℕ → TurnOutput Float → TurnExpectation Float → List CheckEntry
  contains_checks ti output expect =
      map
        (λ expected.
          entry "response" ti (concat ("contains(" ∷ expected ∷ ")" ∷ []))
            (str_in (lower expected) (lower output.reply_text)
              || str_in (lower expected) (lower output.raw_cli))
            "")
        expect.contains

  -- The compiled cache is the patterns' own compiled forms, in order.
  unfoldable pub reply_pattern_checks :
      ℕ → TurnOutput Float → TurnExpectation Float → List CheckEntry
  reply_pattern_checks ti output expect =
      map
        (λ pattern.
          let passed = search (compile pattern) output.reply_text in
          entry "response" ti (concat ("reply_pattern(" ∷ pattern ∷ ")" ∷ [])) passed (
            if passed
            then ""
            else concat ("reply did not match: " ∷ repr (prefix 200 output.reply_text) ∷ [])))
        expect.reply_pattern

  unfoldable pub check_response : ℕ → TurnOutput Float → TurnExpectation Float → List CheckEntry
  check_response ti output expect =
      has_reply_checks ti output expect
      ++ (contains_checks ti output expect ++ reply_pattern_checks ti output expect)

  abbrev pub counted : ℕ → String → ℤ → ℤ → CheckEntry
  counted ti check limit count =
      entry "efficiency" ti (concat (check ∷ "(<=" ∷ str_int limit ∷ ")" ∷ [])) (leb_ℤ count limit)
        (concat ("counted " ∷ str_int count ∷ []))

  unfoldable pub llm_turn_checks : ℕ → TurnOutput Float → TurnExpectation Float → List CheckEntry
  llm_turn_checks ti output expect = elim expect.max_llm_turns [
    | none ↦ []
    | some limit ↦ counted ti "max_llm_turns" limit (or_else output.llm_turn_count (pos 0)) ∷ []
  ]

  unfoldable pub tool_call_checks : ℕ → TurnOutput Float → TurnExpectation Float → List CheckEntry
  tool_call_checks ti output expect = elim expect.max_tool_calls [
    | none ↦ []
    | some limit ↦ counted ti "max_tool_calls" limit (pos (length output.tool_calls)) ∷ []
  ]

  unfoldable pub check_efficiency : ℕ → TurnOutput Float → TurnExpectation Float → List CheckEntry
  check_efficiency ti output expect =
      llm_turn_checks ti output expect ++ tool_call_checks ti output expect

  -- A measured value against its limit; a value that was not reported fails.
  abbrev pub within : Option Float → Float → Bool
  within none limit = false
  within (some actual) limit = le actual limit

  unfoldable pub check_cost : ℕ → TurnOutput Float → TurnExpectation Float → List CheckEntry
  check_cost ti output expect = elim expect.max_cost_usd [
    | none ↦ []
    | some limit ↦
        entry "cost" ti (concat ("max_cost_usd(<=$" ∷ str_float limit ∷ ")" ∷ []))
          (within output.cost_usd limit)
          (elim output.cost_usd [
            | none ↦ "cost not reported"
            | some actual ↦ concat ("actual: $" ∷ fixed 4 actual ∷ [])
          ])
        ∷ []
  ]

  abbrev pub timed : Option (TurnTiming Float) → (TurnTiming Float → Option Float) → Option Float
  timed none read = none
  timed (some timing) read = read timing

  -- One row of `perf_checks`.
  unfoldable pub performance_check :
      ℕ → String → String → Option Float → Option Float → List CheckEntry
  performance_check ti dim check_name none actual = []
  performance_check ti dim check_name (some limit) actual =
      entry dim ti (concat (check_name ∷ "(<=" ∷ str_float limit ∷ "s)" ∷ [])) (within actual limit)
        (elim actual [ none ↦ "not parsed" | some t ↦ concat ("actual: " ∷ fixed 1 t ∷ "s" ∷ []) ])
      ∷ []

  -- With no limit at all the early return and the loop agree on the empty list.
  unfoldable pub check_performance : ℕ → TurnOutput Float → TurnExpectation Float → List CheckEntry
  unfolding performance_check
  check_performance ti output expect =
      let timing = output.timing in
      performance_check ti "performance_ttfe" "max_ttfe_seconds" expect.max_ttfe_seconds
        (timed timing (λ t. t.ttfe))
      ++ (performance_check ti "performance_ttft" "max_ttft_seconds" expect.max_ttft_seconds
            (timed timing (λ t. t.ttft))
          ++ (performance_check ti "performance_ttlt" "max_ttlt_seconds" expect.max_ttlt_seconds
                (timed timing (λ t. t.ttlt))
              ++ performance_check ti "performance_total" "max_total_seconds"
                  expect.max_total_seconds (timed timing (λ t. t.total))))
