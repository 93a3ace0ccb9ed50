-- ===== src/Rules/Scorer/Verdict.antt =====
-- When the checks of src/belt/scorer/rules pass.
use agent_belt.Prelude.{
  ℕ, suc, ◌<◌, String, ◌≡◌, refl, sym, ◌∙◌, ap, Bool, true, false, not, ◌&&◌, ◌||◌, List, [], ◌∷◌,
  map, arith, elem, any, all, keep, set_of, is_empty, length, All, Bool-cases, inl, inr, sort_by,
  str_le, any-set_of, elem-set_of, is_empty-sort_by, is_empty-keep, any-map, all-map,
  all-eq-not-any, any_ext, all-append, string_eq,
}
use agent_belt.Python.{Python}
use agent_belt.Entities.{ToolCall, TurnOutput, TurnExpectation, Turn, blank_output}
use agent_belt.Rules.Trajectory.{only_used_checks, forbidden_checks}
use agent_belt.Rules.Checks.{check_response, has_reply_checks}
use agent_belt.Rules.Files.{modified_exact_checks}
use agent_belt.Rules.Scorer.{is_passed, check_turn, score_from, score, state_of}

-- A set difference, sorted, is empty exactly when no element falls in it.
is_empty_sorted :
    (p : String → Bool) (xs : List String)
    → is_empty (sort_by str_le (keep p (set_of xs))) ≡ not (any p xs)
is_empty_sorted p xs =
    is_empty-sort_by str_le (keep p (set_of xs))
    ∙ is_empty-keep p (set_of xs)
    ∙ ap not (any-set_of p xs)

violations :
    (allowed names : List String)
    → is_empty (sort_by str_le (keep (λ t. not (elem t (set_of allowed))) (set_of names)))
      ≡ all (λ t. elem t allowed) names
violations allowed names =
    is_empty_sorted (λ t. not (elem t (set_of allowed))) names
    ∙ ap not (any_ext _ _ (λ t. ap not (elem-set_of t allowed)) names)
    ∙ sym (all-eq-not-any (λ t. elem t allowed) names)

used_of :
    (forbidden names : List String)
    → is_empty (sort_by str_le (keep (λ t. elem t (set_of forbidden)) (set_of names)))
      ≡ not (any (λ t. elem t forbidden) names)
used_of forbidden names =
    is_empty_sorted (λ t. elem t (set_of forbidden)) names
    ∙ ap not (any_ext _ _ (λ t. elem-set_of t forbidden) names)

any_nothing {ℓ} : {A : Type ℓ} (xs : List A) → any (λ x. false) xs ≡ false
any_nothing [] = refl
any_nothing (x ∷ xs) = any_nothing xs

-- A set lies in another as its list does.
subset_of_sets :
    (xs ys : List String) → all (λ x. elem x (set_of ys)) (set_of xs) ≡ all (λ x. elem x ys) xs
subset_of_sets xs ys =
    all-eq-not-any (λ x. elem x (set_of ys)) (set_of xs)
    ∙ ap not (any-set_of (λ x. not (elem x (set_of ys))) xs)
    ∙ ap not (any_ext _ _ (λ x. ap not (elem-set_of x ys)) xs)
    ∙ sym (all-eq-not-any (λ x. elem x ys) xs)

module _ (py : Python) where
  open py use {Float}

  only_used_passes :
      (ti : ℕ) (output : TurnOutput Float) (expect : TurnExpectation Float)
      → all is_passed (only_used_checks py ti output expect) ≡ (
          is_empty expect.only_used_tools
          || all (λ tc. elem tc.name expect.only_used_tools) output.tool_calls)
  unfolding only_used_checks
  only_used_passes ti output expect = elim (Bool-cases (is_empty expect.only_used_tools)) [
    | inl e ↦ rw e
    | inr e ↦ rw e (
        ground (
          arith,
          violations expect.only_used_tools (map (λ tc. tc.name) output.tool_calls),
          all-map (λ t. elem t expect.only_used_tools) (λ (tc : ToolCall Float). tc.name)
              output.tool_calls,
        ))
  ]

  forbidden_passes :
      (ti : ℕ) (output : TurnOutput Float) (forbidden : List String)
      (expect : TurnExpectation Float)
      → expect.forbidden_tools ≡ forbidden
      → all is_passed (forbidden_checks py ti output expect)
        ≡ not (any (λ tc. elem tc.name forbidden) output.tool_calls)
  unfolding forbidden_checks
  forbidden_passes ti output [] expect e = rw (e, any_nothing)
  forbidden_passes ti output (f ∷ fs) expect e = rw e (
      ground (
        arith,
        used_of (f ∷ fs) (map (λ tc. tc.name) output.tool_calls),
        any-map (λ t. elem t (f ∷ fs)) (λ (tc : ToolCall Float). tc.name) output.tool_calls,
      ))

  -- The check of `only_used_tools` passes exactly when every call is of a listed tool (with an
  -- empty list nothing is checked), and that of `forbidden_tools` exactly when no call is of a
  -- listed tool.
  pub tool_policy :
      (ti : ℕ) (output : TurnOutput Float) (expect : TurnExpectation Float)
      → (all is_passed (only_used_checks py ti output expect) ≡ (
          is_empty expect.only_used_tools
          || all (λ tc. elem tc.name expect.only_used_tools) output.tool_calls))
        × (all is_passed (forbidden_checks py ti output expect)
            ≡ not (any (λ tc. elem tc.name expect.forbidden_tools) output.tool_calls))
  tool_policy ti output expect =
      (only_used_passes ti output expect, forbidden_passes ti output _ expect refl)

  -- A turn without an output of its own fails its `has_reply` check.
  blank_turn :
      (i : ℕ) (turn : Turn Float)
      → turn.expect.has_reply ≡ true
      → all is_passed (check_turn py i blank_output turn.expect (state_of py turn)) ≡ false
  unfolding check_turn check_response has_reply_checks
  blank_turn i turn h = rw (all-append, all-append, all-append, h) (ground arith)

  score_from_short :
      (i : ℕ) (turns : List (Turn Float)) (outputs : List (TurnOutput Float))
      → length outputs < length turns
      → All (λ turn. turn.expect.has_reply ≡ true) turns
      → all is_passed (score_from py i turns outputs) ≡ false
  unfolding score_from
  score_from_short i [] outputs h a = absurd (omega arith)
  score_from_short i (t ∷ ts) [] h a = rw (all-append, blank_turn i t a.0)
  score_from_short i (t ∷ ts) (o ∷ os) h a =
      rw (all-append, score_from_short (suc i) ts os (omega arith) a.1) (ground arith)

  -- A run that ended early is never scored as passed: with fewer outputs than turns, each of
  -- which expects a reply (the default), the rules do not pass.
  pub score_short :
      (turns : List (Turn Float)) (outputs : List (TurnOutput Float))
      → length outputs < length turns
      → All (λ turn. turn.expect.has_reply ≡ true) turns
      → (score py turns outputs).passed ≡ false
  unfolding score
  score_short turns outputs h a = score_from_short 0 turns outputs h a

-- The check of `files_modified_exact` passes exactly when the same paths were modified as were
-- listed, order and repetitions apart (with an empty list nothing is checked).
modified_exact_passes :
    {F : Type 0} (ti : ℕ) (output : TurnOutput F) (expect : TurnExpectation F)
    → all is_passed (modified_exact_checks ti output expect) ≡ (
        is_empty expect.files_modified_exact
        || (all (λ p. elem p expect.files_modified_exact) output.files_modified
            && all (λ p. elem p output.files_modified) expect.files_modified_exact))
unfolding modified_exact_checks
modified_exact_passes ti output expect = elim (Bool-cases (is_empty expect.files_modified_exact)) [
  | inl e ↦ rw e
  | inr e ↦ rw e (
      ground (
        arith,
        subset_of_sets output.files_modified expect.files_modified_exact,
        subset_of_sets expect.files_modified_exact output.files_modified,
      ))
]
