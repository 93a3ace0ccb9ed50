-- ===== src/Consensus/Merge/Dimensions.antt =====
-- What the merge of src/belt/scorer/llm/consensus.py gives for each dimension.
use agent_belt.Prelude.{
  ℕ, ◌≡◌, refl, sym, ◌∙◌, String, Bool, true, false, ◌&&◌, Option, none, some, List, [], ◌∷◌, map,
  arith, elem, elem-append, All, Dict, get, keys, is_some, sort_by, str_le, elem-set_of,
  any-sort_by, Bool-cases, inl, inr, if◌then◌else◌, ◌==◌, string_eq, eq_self, eq_of_beq,
}
use mathlib.Core.Path.{subst}
use agent_belt.Prelude.Int.{◌≤ℤ◌}
use agent_belt.Levels.{ScoreLevel, level_rank, level_eq}
use agent_belt.Payloads.{LlmDimensionVerdict}
use agent_belt.Payloads.Rows.{LlmShaped, scenario_level, turn_level}
use agent_belt.Consensus.Votes.{Strategy, unanimous, apply_strategy}
use agent_belt.Consensus.Votes.Strategies.{elem-apply_strategy, unanimous-least}
use agent_belt.Consensus.Merge.{
  Dimensions, Vote, votes_on, names_of, all_dims, graded_by_all, vote_dimension, merge_dimension,
  merge_dimensions, with_entry, Merged, ScenarioVerdicts, dimensions_of, merge_verdicts,
}

abbrev pub verdict_of : {A : Type 0} → Option (LlmDimensionVerdict × A) → Option LlmDimensionVerdict
verdict_of none = none
verdict_of (some (v, split)) = some v

abbrev pub merged_dims : LlmShaped → Dimensions
merged_dims (scenario_level p) = p.dimensions
merged_dims (turn_level p) = []

abbrev pub levels : List Vote → List ScoreLevel
levels votes = map (λ v. v.level) votes

-- A dimension that some judge graded gets a vote.
votes_on-none :
    (dim : String) (judges : Dict String Dimensions)
    → elem dim (names_of judges) ≡ false
    → votes_on dim judges ≡ []
unfolding votes_on
votes_on-none dim [] h = refl
votes_on-none dim ((judge, dims) ∷ judges) h =
    rw (get-none dim dims (ground (arith, elem-append dim (keys dims) (names_of judges))), votes_on)
      (votes_on-none dim judges (ground (arith, elem-append dim (keys dims) (names_of judges))))
  where
    get-none : (k : String) (d : Dimensions) → elem k (keys d) ≡ false → get k d ≡ none
    get-none k [] h = refl
    get-none k ((j, v) ∷ d) h = ground (arith, get-none k d)

module _ (strategy : Strategy) (turn : Option ℕ) (judges : Dict String Dimensions) where
  abbrev pub outcome : String → Option LlmDimensionVerdict
  outcome dim =
      verdict_of (merge_dimension strategy (graded_by_all judges dim) (votes_on dim judges))

  get-with_entry :
      (dim name : String) (o : Option (LlmDimensionVerdict × Option (Dict ScoreLevel ℕ)))
      (merged : Merged)
      → get dim (with_entry turn name o merged).dimensions
        ≡ (if dim == name && is_some o then verdict_of o else get dim merged.dimensions)
  get-with_entry dim name none merged = ground arith
  get-with_entry dim name (some (v, split)) merged = ground arith

  none_of_not_some :
      (o : Option (LlmDimensionVerdict × Option (Dict ScoreLevel ℕ)))
      → is_some o ≡ false
      → verdict_of o ≡ none
  none_of_not_some none h = refl
  none_of_not_some (some o) h = cc

  get-merge_dimensions :
      (dim : String) (names : List String)
      → get dim (merge_dimensions strategy turn judges names).dimensions
        ≡ (if elem dim names then outcome dim else none)
  unfolding merge_dimensions
  get-merge_dimensions dim [] = refl
  get-merge_dimensions dim (name ∷ names) =
      let o = merge_dimension strategy (graded_by_all judges name) (votes_on name judges) in
      let rest = merge_dimensions strategy turn judges names in
      get-with_entry dim name o rest ∙ elim (Bool-cases (dim == name)) [
        | inl h ↦
            let same : dim ≡ name = eq_of_beq dim name h in
            rw (h, get-merge_dimensions dim names) (rw same (ground (arith, none_of_not_some o)))
        | inr h ↦ rw (h, get-merge_dimensions dim names)
      ]

no_votes :
    (strategy : Strategy) (shared : Bool) → verdict_of (merge_dimension strategy shared []) ≡ none
unfolding merge_dimension
no_votes strategy shared = refl

-- A dimension that nobody graded has no outcome, so the loop's order and its set play no part.
pub get-all_dims :
    (strategy : Strategy) (turn : Option ℕ) (judges : Dict String Dimensions) (dim : String)
    → get dim (merge_dimensions strategy turn judges (sort_by str_le (all_dims judges))).dimensions
      ≡ outcome strategy turn judges dim
unfolding all_dims
get-all_dims strategy turn judges dim =
    get-merge_dimensions strategy turn judges dim (sort_by str_le (all_dims judges))
    ∙ elim (Bool-cases (elem dim (names_of judges))) [
      | inl h ↦ rw (
        any-sort_by str_le (λ x. dim == x) (all_dims judges),
        elem-set_of dim (names_of judges),
        h,
      )
      | inr h ↦
          rw
            (
              any-sort_by str_le (λ x. dim == x) (all_dims judges),
              elem-set_of dim (names_of judges),
              h,
              votes_on-none dim judges h,
            )
            (sym (no_votes strategy (graded_by_all judges dim)))
    ]

-- The verdict on a dimension, in the merge of the sub-judges, is that of its votes in the order of
-- the judges.
get-merge_verdicts :
    (strategy : Strategy) (verdicts : ScenarioVerdicts) (dim : String)
    → get dim (merged_dims (merge_verdicts strategy verdicts).payload)
      ≡ verdict_of (
          merge_dimension strategy
            (graded_by_all (dimensions_of verdicts) dim)
            (votes_on dim (dimensions_of verdicts)))
unfolding merge_verdicts
get-merge_verdicts strategy verdicts dim = get-all_dims strategy none (dimensions_of verdicts) dim

winner-elem :
    (strategy : Strategy) (shared : Bool) (votes : List Vote) (v : LlmDimensionVerdict)
    → verdict_of (merge_dimension strategy shared votes) ≡ some v
    → elem v.score (levels votes) ≡ true
unfolding merge_dimension vote_dimension
winner-elem strategy shared [] v h = cc
winner-elem strategy shared (a ∷ []) v h =
    let same : a.level ≡ v.score = ground (arith, h) in
    rw (sym same) (ground (arith, eq_self a.level))
winner-elem strategy false (a ∷ b ∷ votes) v h =
    let same : a.level ≡ v.score = ground (arith, h) in
    rw (sym same) (ground (arith, eq_self a.level))
winner-elem strategy true (a ∷ b ∷ votes) v h =
    let same : apply_strategy strategy a.level (levels (b ∷ votes)) ≡ v.score = ground (arith, h) in
    subst (λ (l : ScoreLevel). elem l (levels (a ∷ b ∷ votes)) ≡ true) same
      (elem-apply_strategy a.level (levels (b ∷ votes)) strategy)

pub winner-least :
    (votes : List Vote) (v : LlmDimensionVerdict)
    → verdict_of (merge_dimension unanimous true votes) ≡ some v
    → All (λ l. level_rank v.score ≤ℤ level_rank l) (levels votes)
unfolding merge_dimension vote_dimension
winner-least [] v h = tt
winner-least (a ∷ []) v h =
    let same : a.level ≡ v.score = ground (arith, h) in rw (sym same) (omega arith, tt)
winner-least (a ∷ b ∷ votes) v h =
    let same : apply_strategy unanimous a.level (levels (b ∷ votes)) ≡ v.score =
      ground (arith, h) in
    subst (λ (l : ScoreLevel). All (λ x. level_rank l ≤ℤ level_rank x) (levels (a ∷ b ∷ votes)))
      same (unanimous-least a.level (levels (b ∷ votes)))

-- No merge invents a verdict: the level that it gives a dimension is one that a judge gave it.
pub merge_verdicts-voted :
    (strategy : Strategy) (verdicts : ScenarioVerdicts) (dim : String) (v : LlmDimensionVerdict)
    → get dim (merged_dims (merge_verdicts strategy verdicts).payload) ≡ some v
    → elem v.score (levels (votes_on dim (dimensions_of verdicts))) ≡ true
merge_verdicts-voted strategy verdicts dim v h =
    winner-elem strategy _ _ v (sym (get-merge_verdicts strategy verdicts dim) ∙ h)

-- Under `unanimous` no judge's verdict on a dimension that every judge graded ranks below the
-- merged one.
pub merge_verdicts-unanimous :
    (verdicts : ScenarioVerdicts) (dim : String) (v : LlmDimensionVerdict)
    → graded_by_all (dimensions_of verdicts) dim ≡ true
    → get dim (merged_dims (merge_verdicts unanimous verdicts).payload) ≡ some v
    → All (λ l. level_rank v.score ≤ℤ level_rank l) (levels (votes_on dim (dimensions_of verdicts)))
merge_verdicts-unanimous verdicts dim v shared h =
    winner-least (votes_on dim (dimensions_of verdicts)) v
      (rw shared at (sym (get-merge_verdicts unanimous verdicts dim) ∙ h))
