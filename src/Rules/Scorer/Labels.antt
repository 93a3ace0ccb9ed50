-- ===== src/Rules/Scorer/Labels.antt =====
-- Which checks a turn gets, seen apart from how they come out (scorer.py of src/belt/scorer/rules).
use agent_belt.Prelude.{
  ℕ, suc, String, ◌≡◌, refl, Bool, Option, none, some, List, [], ◌∷◌, ◌++◌, map, is_empty,
  Bool-cases, Option-cases, inl, inr, sym, ◌∙◌,
}
use mathlib.Core.List.{map-append}
use agent_belt.Python.{Python}
use agent_belt.Entities.{TurnOutput, TurnExpectation, StateExpectation, Turn, ToolCall}
use agent_belt.Payloads.{CheckEntry}
use agent_belt.Rules.Trajectory.{
  check_trajectory, tools_invoked_checks, tools_invoked_any_checks, in_order_checks,
  only_used_checks, forbidden_checks, args_contain_checks, result_contains_checks,
  result_pattern_checks, skill_checks, thinking_checks, call_entry,
}
use agent_belt.Rules.Checks.{
  check_execution, no_errors_checks, not_contains_checks, error_type_checks, check_response,
  has_reply_checks, contains_checks, reply_pattern_checks, check_efficiency, llm_turn_checks,
  tool_call_checks, check_performance, performance_check, check_cost,
}
use agent_belt.Rules.Files.{
  check_state, check_file_diff, has_file_diff_checks, modified_any_checks, modified_exact_checks,
  file_contains_entry,
}
use agent_belt.Rules.Scorer.{check_turn, score_from, score}

-- What a check is about: its dimension, its name and its turn.
pub record Label : Type 0 where
  pub dimension : String
  pub check : String
  pub turn_idx : Option ℕ

abbrev pub label : CheckEntry → Label
label c = record { dimension = c.dimension; check = c.check; turn_idx = c.turn_idx }

abbrev pub labels : List CheckEntry → List Label
labels = map label

labels-append :
    (xs ys us vs : List CheckEntry)
    → labels xs ≡ labels us
    → labels ys ≡ labels vs
    → labels (xs ++ ys) ≡ labels (us ++ vs)
labels-append xs ys us vs h k = rw (map-append, map-append, h, k)

labels-map {ℓ} :
    {A : Type ℓ} (f g : A → CheckEntry)
    → ((a : A) → label (f a) ≡ label (g a))
    → (xs : List A) → labels (map f xs) ≡ labels (map g xs)
labels-map f g h [] = refl
labels-map f g h (x ∷ xs) = cc (h x, labels-map f g h xs)

module _ (py : Python) where
  open py use {Float}

  call_entry-label :
      (ti : ℕ) (check tool missing : String) (calls : List (ToolCall Float))
      (fits : ToolCall Float → Bool)
      → label (call_entry py ti check tool calls fits missing)
        ≡ record { dimension = "trajectory"; check = check; turn_idx = some ti }
  call_entry-label ti check tool missing [] fits = refl
  call_entry-label ti check tool missing (tc ∷ calls) fits = refl

  module _ (ti : ℕ) (o p : TurnOutput Float) (expect : TurnExpectation Float) where
    in_order-labels :
        labels (in_order_checks py ti o expect) ≡ labels (in_order_checks py ti p expect)
    unfolding in_order_checks
    in_order-labels = elim (Bool-cases (is_empty expect.tools_invoked_in_order)) [
      | inl e ↦ rw e
      | inr e ↦ rw e
    ]

    only_used-labels :
        labels (only_used_checks py ti o expect) ≡ labels (only_used_checks py ti p expect)
    unfolding only_used_checks
    only_used-labels = elim (Bool-cases (is_empty expect.only_used_tools)) [
      | inl e ↦ rw e
      | inr e ↦ rw e
    ]

    forbidden-labels :
        labels (forbidden_checks py ti o expect) ≡ labels (forbidden_checks py ti p expect)
    unfolding forbidden_checks
    forbidden-labels = elim (Bool-cases (is_empty expect.forbidden_tools)) [
      | inl e ↦ rw e
      | inr e ↦ rw e
    ]

    thinking-labels :
        labels (thinking_checks py ti o expect) ≡ labels (thinking_checks py ti p expect)
    unfolding thinking_checks
    thinking-labels = elim (Option-cases expect.has_thinking) [ inl e ↦ rw e | inr (w, e) ↦ rw e ]

    trajectory-labels :
        labels (check_trajectory py ti o expect) ≡ labels (check_trajectory py ti p expect)
    unfolding check_trajectory tools_invoked_checks tools_invoked_any_checks args_contain_checks
        result_contains_checks result_pattern_checks skill_checks
    trajectory-labels = labels-append _ _ _ _ (labels-map _ _ (λ t. refl) expect.tools_invoked) (
        labels-append _ _ _ _ (labels-map _ _ (λ t. refl) expect.tools_invoked_any) (
          labels-append _ _ _ _ in_order-labels (
            labels-append _ _ _ _ only_used-labels (
              labels-append _ _ _ _ forbidden-labels (
                labels-append _ _ _ _
                  (labels-map _ _
                    (λ (t, e). call_entry-label _ _ _ _ _ _ ∙ sym (call_entry-label _ _ _ _ _ _))
                    expect.tool_args_contain)
                  (labels-append _ _ _ _
                    (labels-map _ _
                      (λ (t, e). call_entry-label _ _ _ _ _ _ ∙ sym (call_entry-label _ _ _ _ _ _))
                      expect.tool_result_contains)
                    (labels-append _ _ _ _
                      (labels-map _ _
                        (λ (t, e).
                          call_entry-label _ _ _ _ _ _ ∙ sym (call_entry-label _ _ _ _ _ _))
                        expect.tool_result_pattern)
                      (labels-append _ _ _ _ (labels-map _ _ (λ t. refl) expect.skills_invoked)
                        thinking-labels))))))))

    execution-labels :
        labels (check_execution py ti o expect) ≡ labels (check_execution py ti p expect)
    unfolding check_execution no_errors_checks not_contains_checks error_type_checks
    execution-labels =
        labels-append _ _ _ _ (elim (Bool-cases expect.no_errors) [ inl e ↦ rw e | inr e ↦ rw e ])
          (labels-append _ _ _ _ (labels-map _ _ (λ t. refl) expect.not_contains)
            (elim (Option-cases expect.error_type_is) [ inl e ↦ rw e | inr (w, e) ↦ rw e ]))

    response-labels :
        labels (check_response py ti o expect) ≡ labels (check_response py ti p expect)
    unfolding check_response has_reply_checks contains_checks reply_pattern_checks
    response-labels =
        labels-append _ _ _ _ (elim (Bool-cases expect.has_reply) [ inl e ↦ rw e | inr e ↦ rw e ])
          (labels-append _ _ _ _ (labels-map _ _ (λ t. refl) expect.contains)
            (labels-map _ _ (λ t. refl) expect.reply_pattern))

    efficiency-labels :
        labels (check_efficiency py ti o expect) ≡ labels (check_efficiency py ti p expect)
    unfolding check_efficiency llm_turn_checks tool_call_checks
    efficiency-labels =
        labels-append (llm_turn_checks py ti o expect) _ (llm_turn_checks py ti p expect) _
          (elim (Option-cases expect.max_llm_turns) [ inl e ↦ rw e | inr (w, e) ↦ rw e ])
          (elim (Option-cases expect.max_tool_calls) [ inl e ↦ rw e | inr (w, e) ↦ rw e ])

    cost-labels : labels (check_cost py ti o expect) ≡ labels (check_cost py ti p expect)
    unfolding check_cost
    cost-labels = elim (Option-cases expect.max_cost_usd) [ inl e ↦ rw e | inr (w, e) ↦ rw e ]

    performance_check-labels :
        (dim name : String) (limit a b : Option Float)
        → labels (performance_check py ti dim name limit a)
          ≡ labels (performance_check py ti dim name limit b)
    unfolding performance_check
    performance_check-labels dim name none a b = refl
    performance_check-labels dim name (some limit) a b = refl

    performance-labels :
        labels (check_performance py ti o expect) ≡ labels (check_performance py ti p expect)
    unfolding check_performance
    performance-labels =
        labels-append _ _ _ _ (performance_check-labels _ _ expect.max_ttfe_seconds _ _) (
          labels-append _ _ _ _ (performance_check-labels _ _ expect.max_ttft_seconds _ _) (
            labels-append _ _ _ _ (performance_check-labels _ _ expect.max_ttlt_seconds _ _)
              (performance_check-labels _ _ expect.max_total_seconds _ _)))

    modified_any-labels :
        labels (modified_any_checks ti o expect) ≡ labels (modified_any_checks ti p expect)
    unfolding modified_any_checks
    modified_any-labels = elim (Bool-cases (is_empty expect.files_modified_any)) [
      | inl e ↦ rw e
      | inr e ↦ rw e
    ]

    modified_exact-labels :
        labels (modified_exact_checks ti o expect) ≡ labels (modified_exact_checks ti p expect)
    unfolding modified_exact_checks
    modified_exact-labels = elim (Bool-cases (is_empty expect.files_modified_exact)) [
      | inl e ↦ rw e
      | inr e ↦ rw e
    ]

    file_diff-labels : labels (check_file_diff ti o expect) ≡ labels (check_file_diff ti p expect)
    unfolding check_file_diff
    file_diff-labels = labels-append _ _ _ _ modified_any-labels (
        labels-append _ _ _ _ modified_exact-labels (
          labels-append _ _ _ _ (labels-map _ _ (λ t. refl) expect.files_not_modified)
            (labels-map _ _ (λ t. refl) expect.git_diff_contains)))

    file_contains-labels :
        (path substring : String) (a b : Option String)
        → label (file_contains_entry ti path substring a)
          ≡ label (file_contains_entry ti path substring b)
    unfolding file_contains_entry
    file_contains-labels path substring none none = refl
    file_contains-labels path substring none (some t) = refl
    file_contains-labels path substring (some s) none = refl
    file_contains-labels path substring (some s) (some t) = refl

    state-labels :
        (se : StateExpectation) → labels (check_state ti o se) ≡ labels (check_state ti p se)
    unfolding check_state
    state-labels se = labels-append _ _ _ _ (labels-map _ _ (λ t. refl) se.files_exist) (
        labels-append _ _ _ _
          (labels-map _ _ (λ (path, substring). file_contains-labels path substring _ _)
            se.files_contain)
          (labels-map _ _ (λ t. refl) se.files_not_exist))

    optional_state-labels :
        (state : Option StateExpectation)
        → labels (elim state [ none ↦ [] | some se ↦ check_state ti o se ])
          ≡ labels (elim state [ none ↦ [] | some se ↦ check_state ti p se ])
    optional_state-labels none = refl
    optional_state-labels (some se) = state-labels se

    check_turn-labels :
        (state : Option StateExpectation)
        → labels (check_turn py ti o expect state) ≡ labels (check_turn py ti p expect state)
    unfolding check_turn
    check_turn-labels state = labels-append _ _ _ _ execution-labels (
        labels-append _ _ _ _ trajectory-labels (
          labels-append _ _ _ _ response-labels (
            labels-append _ _ _ _ efficiency-labels (
              labels-append _ _ _ _ performance-labels (
                labels-append _ _ _ _ cost-labels (
                  labels-append _ _ _ _
                    (elim (Bool-cases (has_file_diff_checks expect)) [
                      | inl e ↦ rw e file_diff-labels
                      | inr e ↦ rw e
                    ])
                    (optional_state-labels state)))))))

  score_from-labels :
      (i : ℕ) (turns : List (Turn Float)) (os ps : List (TurnOutput Float))
      → labels (score_from py i turns os) ≡ labels (score_from py i turns ps)
  unfolding score_from
  score_from-labels i [] os ps = refl
  score_from-labels i (t ∷ ts) [] [] = refl
  score_from-labels i (t ∷ ts) [] (p ∷ ps) =
      labels-append _ _ _ _ (check_turn-labels i _ p t.expect _)
        (score_from-labels (suc i) ts [] ps)
  score_from-labels i (t ∷ ts) (o ∷ os) [] =
      labels-append _ _ _ _ (check_turn-labels i o _ t.expect _)
        (score_from-labels (suc i) ts os [])
  score_from-labels i (t ∷ ts) (o ∷ os) (p ∷ ps) =
      labels-append _ _ _ _ (check_turn-labels i o p t.expect _)
        (score_from-labels (suc i) ts os ps)

  -- Which checks a scenario gets (their dimensions, names and turns, in order) depends on the
  -- scenario alone: two agents' outputs, of any length and content, are scored on the same list.
  pub score-labels :
      (turns : List (Turn Float)) (os ps : List (TurnOutput Float))
      → labels (score py turns os).checks ≡ labels (score py turns ps).checks
  unfolding score
  score-labels turns os ps = score_from-labels 0 turns os ps
