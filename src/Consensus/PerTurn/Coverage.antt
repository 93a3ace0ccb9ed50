-- ===== src/Consensus/PerTurn/Coverage.antt =====
-- What a passing per-turn merge of src/belt/scorer/llm/consensus.py implies for each turn.
use agent_belt.Prelude.{
  ℕ, ◌≡◌, refl, sym, ◌∙◌, ◌&&◌, is_some, String, Bool, true, false, none, some, List, [], ◌∷◌, map,
  arith, any as any_of, elem, All, Dict, get, is_empty, sort_by, str_le, leb, set_of, any-sort_by,
  elem-set_of, any-map, not_at_elem, Option-cases, inl, inr, Bool-cases, ◌==◌, string_eq, nat_eq,
}
use agent_belt.Prelude.Int.{◌≤ℤ◌}
use agent_belt.Levels.{ScoreLevel, default_fail_levels, level_rank, level_eq}
use agent_belt.Payloads.{LlmDimensionVerdict, TurnVerdict}
use agent_belt.Consensus.Votes.{Strategy, unanimous}
use agent_belt.Consensus.Merge.{
  Dimensions, Vote, votes_on, graded_by_all, merge_dimension, merge_dimensions, all_dims,
}
use agent_belt.Consensus.Merge.Dimensions.{levels, verdict_of, outcome, get-all_dims, winner-least}
use agent_belt.Consensus.PerTurn.{
  TurnPayloads, indices_of, turn_indices, per_judge_turn, voting, error_types, turns_of,
  uncovered_turn, voted_turn, merge_turn, merge_turns, fails, merge_per_turn_verdicts, MergedTurn,
}

elem-turn_indices :
    (idx : ℕ) (payloads : TurnPayloads)
    → elem idx (turn_indices payloads) ≡ elem idx (indices_of payloads)
unfolding turn_indices
elem-turn_indices idx payloads =
    any-sort_by leb (λ i. idx == i) (set_of (indices_of payloads))
    ∙ elem-set_of idx (indices_of payloads)

abbrev merged_at : Strategy → TurnPayloads → ℕ → TurnVerdict
merged_at strategy payloads idx = (merge_turn strategy idx (per_judge_turn idx payloads)).verdict

-- A test that no merged turn meets is not met at the index of any judge's turn.
at_index :
    (strategy : Strategy) (payloads : TurnPayloads) (p : TurnVerdict → Bool) (idx : ℕ)
    → any_of p (
        map (λ (t : MergedTurn). t.verdict) (merge_turns strategy payloads (turn_indices payloads)))
      ≡ false
    → elem idx (indices_of payloads) ≡ true
    → p (merged_at strategy payloads idx) ≡ false
unfolding merge_turns
at_index strategy payloads p idx h m =
    let at : ℕ → MergedTurn = λ i. merge_turn strategy i (per_judge_turn i payloads) in
    not_at_elem (λ i. p (merged_at strategy payloads i)) idx (turn_indices payloads)
      (sym (any-map (λ (t : MergedTurn). p t.verdict) at (turn_indices payloads))
        ∙ sym (any-map p (λ (t : MergedTurn). t.verdict) (map at (turn_indices payloads)))
        ∙ h)
      (elem-turn_indices idx payloads ∙ m)

passed_turns :
    (strategy : Strategy) (payloads : TurnPayloads)
    → (merge_per_turn_verdicts strategy payloads).passed ≡ true
    → let turns : List TurnVerdict =
        map
          (λ (t : MergedTurn). t.verdict)
          (merge_turns strategy payloads (turn_indices payloads)) in
      (any_of (λ t. t.judge_errored) turns ≡ false) × (any_of fails turns ≡ false)
unfolding merge_per_turn_verdicts
passed_turns strategy payloads h = (ground arith, ground arith)

uncovered_errors :
    (strategy : Strategy) (idx : ℕ) (per_judge : Dict String TurnVerdict)
    → (merge_turn strategy idx per_judge).verdict.judge_errored ≡ false
    → is_empty (voting per_judge) ≡ true
    → is_empty (error_types (turns_of per_judge)) ≡ true
unfolding merge_turn uncovered_turn
uncovered_errors strategy idx per_judge h k = ground (arith, h, k)

-- A judge's turn that is marked as errored and names an error.
abbrev pub errored_by_name : TurnVerdict → Bool
errored_by_name t = t.judge_errored && is_some t.judge_error_type

none_named :
    (turns : List TurnVerdict)
    → is_empty (error_types turns) ≡ true
    → any_of errored_by_name turns ≡ false
unfolding error_types
none_named [] h = refl
none_named (t ∷ turns) h = ground (arith, h, none_named turns)

-- A gap in one judge's coverage is never hidden: if the merge passes, a turn that some judge
-- reports has a judge that cast votes on it, or on it no judge's own turn is marked as errored and
-- names an error.
pub merge_per_turn-covered :
    (strategy : Strategy) (payloads : TurnPayloads) (idx : ℕ)
    → (merge_per_turn_verdicts strategy payloads).passed ≡ true
    → elem idx (indices_of payloads) ≡ true
    → is_empty (voting (per_judge_turn idx payloads)) ≡ true
    → any_of errored_by_name (turns_of (per_judge_turn idx payloads)) ≡ false
merge_per_turn-covered strategy payloads idx h m k =
    none_named (turns_of (per_judge_turn idx payloads)) (
      uncovered_errors strategy idx (per_judge_turn idx payloads)
        (at_index strategy payloads (λ t. t.judge_errored) idx (passed_turns strategy payloads h).0
          m)
        k)

failing : LlmDimensionVerdict → Bool
failing v = elem v.score default_fail_levels

no_failing :
    (dim : String) (dims : Dimensions) (v : LlmDimensionVerdict)
    → any_of (λ (d, w). elem w.score default_fail_levels) dims ≡ false
    → get dim dims ≡ some v
    → elem v.score default_fail_levels ≡ false
no_failing dim [] v h g = cc
no_failing dim ((d, w) ∷ dims) v h g = elim (Bool-cases (dim == d)) [
  | inl e ↦ let same : w ≡ v = ground (arith, g) in rw (sym same) (ground (arith, h))
  | inr e ↦ no_failing dim dims v (ground (arith, h)) (ground (arith, g))
]

above :
    (w : ScoreLevel) (ls : List ScoreLevel)
    → elem w default_fail_levels ≡ false
    → All (λ l. level_rank w ≤ℤ level_rank l) ls
    → All (λ l. elem l default_fail_levels ≡ false) ls
above w [] h a = tt
above w (l ∷ ls) h a = (one w l h a.0, above w ls h a.1)
  where
    one :
        (w l : ScoreLevel)
        → elem w default_fail_levels ≡ false
        → level_rank w ≤ℤ level_rank l
        → elem l default_fail_levels ≡ false
    one w l h a = ground arith

none_voted :
    (strategy : Strategy) (shared : Bool) (votes : List Vote)
    → verdict_of (merge_dimension strategy shared votes) ≡ none
    → All (λ l. elem l default_fail_levels ≡ false) (levels votes)
unfolding merge_dimension
none_voted strategy shared [] h = tt
none_voted strategy shared (v ∷ []) h = cc
none_voted strategy true (v ∷ w ∷ votes) h = cc
none_voted strategy false (v ∷ w ∷ votes) h = cc

voted_fails :
    (strategy : Strategy) (idx : ℕ) (per_judge : Dict String TurnVerdict)
    → fails (merge_turn strategy idx per_judge).verdict ≡ false
    → is_empty (voting per_judge) ≡ false
    → any_of
        (λ (d, w). elem w.score default_fail_levels)
        (merge_dimensions strategy
          (some idx)
          (voting per_judge)
          (sort_by str_le (all_dims (voting per_judge)))).dimensions
      ≡ false
unfolding merge_turn voted_turn
voted_fails strategy idx per_judge h k = ground (arith, h, k)

nobody :
    (dim : String) (judges : Dict String Dimensions)
    → is_empty judges ≡ true
    → All (λ l. elem l default_fail_levels ≡ false) (levels (votes_on dim judges))
unfolding votes_on
nobody dim [] h = tt
nobody dim (j ∷ judges) h = cc

-- Under `unanimous` a passing merge means that no judge failed what every judge graded: on every
-- turn that some judge reports, every vote on a dimension which all the voting judges of the turn
-- grade is outside the levels that count as failures.
pub merge_per_turn-unanimous :
    (payloads : TurnPayloads) (idx : ℕ) (dim : String)
    → (merge_per_turn_verdicts unanimous payloads).passed ≡ true
    → elem idx (indices_of payloads) ≡ true
    → graded_by_all (voting (per_judge_turn idx payloads)) dim ≡ true
    → All
        (λ l. elem l default_fail_levels ≡ false)
        (levels (votes_on dim (voting (per_judge_turn idx payloads))))
merge_per_turn-unanimous payloads idx dim h m g =
    let judges = voting (per_judge_turn idx payloads) in
    let quiet = at_index unanimous payloads fails idx (passed_turns unanimous payloads h).1 m in
    elim (Bool-cases (is_empty judges)) [
      | inl e ↦ nobody dim judges e
      | inr e ↦ elim (Option-cases (outcome unanimous (some idx) judges dim)) [
        | inl n ↦ none_voted unanimous (graded_by_all judges dim) (votes_on dim judges) n
        | inr (v, s) ↦
            above v.score (levels (votes_on dim judges))
              (no_failing dim _ v (voted_fails unanimous idx (per_judge_turn idx payloads) quiet e)
                (get-all_dims unanimous (some idx) judges dim ∙ s))
              (winner-least (votes_on dim judges) v (rw g at s))
      ]
    ]
