-- ===== src/Consensus/Score/Blocks.antt =====
-- The configurations that `ConsensusScorer` accepts, and what they make impossible,
-- src/belt/scorer/llm/consensus.py.
use agent_belt.Prelude.{
  ℕ, zero, suc, ◌≤◌, ◌≡◌, refl, sym, String, Bool, true, false, Option, none, some, List, [], ◌∷◌,
  arith, all as all_of, length, Dict, ◌≢◌, is_some, put, all-upsert, Option-cases, Bool-cases, inl,
  inr, ◌==◌, eq_of_beq, string_eq,
}
use mathlib.Core.Path.{subst}
use agent_belt.Payloads.Rows.{LlmShaped, scenario_level, turn_level}
use agent_belt.Consensus.Votes.{
  Strategy, majority, unanimous, any, parse_strategy, strategy_name, error_eq,
}
use agent_belt.Consensus.Merge.{ScorerResult}
use agent_belt.Consensus.Score.{
  Resolution, scenario, turn, same_resolution, Judge, ConsensusScorer, Built, built, rejected,
  build, all_judges, collect, scenario_verdicts, turn_payloads, usable_results, Scored,
  assertion_error, merge_by, conclude, score,
}

parse_strategy-name :
    (s : String) (strategy : Strategy)
    → parse_strategy s ≡ some strategy
    → strategy_name strategy ≡ s
unfolding parse_strategy
parse_strategy-name s majority h = elim (Bool-cases (s == "majority")) [
  | inl a ↦ sym (eq_of_beq s "majority" a)
  | inr a ↦ absurd (ground (arith, h, a))
]
parse_strategy-name s unanimous h = elim (Bool-cases (s == "unanimous")) [
  | inl a ↦ sym (eq_of_beq s "unanimous" a)
  | inr a ↦ absurd (ground (arith, h, a))
]
parse_strategy-name s any h = elim (Bool-cases (s == "any")) [
  | inl a ↦ sym (eq_of_beq s "any" a)
  | inr a ↦ absurd (ground (arith, h, a))
]

same_resolution_self : (r : Resolution) → same_resolution r r ≡ true
same_resolution_self r = ground arith

-- What a block that was built keeps of the configuration.
abbrev Kept : List Judge → String → Built → Type 0
Kept judges strategy (rejected e) = Unit
Kept judges strategy (built c) =
    (all_judges c ≡ judges)
    × (2 ≤ length judges)
    × (strategy_name c.strategy ≡ strategy)
    × (all_of (λ j. same_resolution j.resolution c.first_judge.resolution) judges ≡ true)

build-Kept :
    (judges : List Judge) (strategy : String) → Kept judges strategy (build judges strategy)
unfolding build
build-Kept [] strategy = tt
build-Kept (j ∷ []) strategy = tt
build-Kept (j ∷ k ∷ judges) strategy = elim (Option-cases (parse_strategy strategy)) [
  | inl e ↦ rw (Kept, e) tt
  | inr (s, e) ↦
      elim (Bool-cases (all_of (λ i. same_resolution i.resolution j.resolution) (k ∷ judges))) [
        | inl a ↦
            rw (Kept, e, a)
              (
                refl,
                omega arith,
                parse_strategy-name strategy s e,
                ground (arith, a, same_resolution_self j.resolution),
              )
        | inr a ↦ rw (Kept, e, a) tt
      ]
]

-- A consensus block that is accepted keeps the judges as they were given, at least two of them,
-- all of the resolution of the first, and has one of the three strategies, the one it names.
build_sound :
    (judges : List Judge) (strategy : String) (c : ConsensusScorer)
    → build judges strategy ≡ built c
    → (all_judges c ≡ judges)
      × (2 ≤ length judges)
      × (strategy_name c.strategy ≡ strategy)
      × (all_of (λ j. same_resolution j.resolution c.first_judge.resolution) judges ≡ true)
build_sound judges strategy c h = subst (Kept judges strategy) h (build-Kept judges strategy)

abbrev pub in_form : Resolution → LlmShaped → Bool
in_form scenario (scenario_level p) = true
in_form turn (turn_level p) = true
in_form r s = false

abbrev form_of : Resolution → Option ScorerResult → Bool
form_of r none = true
form_of r (some a) = in_form r a.payload

abbrev pub answers_in_form : Resolution → Judge → Bool
answers_in_form r j = form_of r j.answer

module _ (r : Resolution) where
  abbrev all_in_form : Dict String ScorerResult → Bool
  all_in_form results = all_of (λ (name, a). in_form r a.payload) results

  answered :
      (name : String) (o : Option ScorerResult) (results : Dict String ScorerResult)
      → all_in_form results ≡ true
      → form_of r o ≡ true
      → all_in_form (elim o [ none ↦ results | some a ↦ put name a results ]) ≡ true
  answered name none results h f = h
  answered name (some a) results h f =
      all-upsert (λ (n, b). in_form r b.payload) name (λ o. a) results (λ j o. f) h

  collect-form :
      (judges : List Judge) (results : Dict String ScorerResult)
      → all_in_form results ≡ true
      → all_of (answers_in_form r) judges ≡ true
      → all_in_form (collect results judges) ≡ true
  unfolding collect
  collect-form [] results h f = h
  collect-form (j ∷ judges) results h f =
      collect-form judges (elim j.answer [ none ↦ results | some a ↦ put j.judge_name a results ])
        (answered j.judge_name j.answer results h (ground (arith, f))) (ground (arith, f))

  usable-form :
      (wanted : Bool) (results : Dict String ScorerResult)
      → all_in_form results ≡ true
      → all_in_form (usable_results wanted results) ≡ true
  unfolding usable_results
  usable-form wanted [] h = refl
  usable-form wanted ((name, a) ∷ results) h = ground (arith, usable-form wanted results)

scenario-total :
    (results : Dict String ScorerResult)
    → all_in_form scenario results ≡ true
    → is_some (scenario_verdicts results) ≡ true
unfolding scenario_verdicts
scenario-total [] h = refl
scenario-total ((name, a) ∷ results) h = ground (arith, scenario-total results)

turn-total :
    (results : Dict String ScorerResult)
    → all_in_form turn results ≡ true
    → is_some (turn_payloads results) ≡ true
unfolding turn_payloads
turn-total [] h = refl
turn-total ((name, a) ∷ results) h = ground (arith, turn-total results)

abbrev asserts : Scored → Bool
asserts assertion_error = true
asserts _ = false

merge_by-total :
    (r : Resolution) (strategy : Strategy) (real : Dict String ScorerResult)
    → all_in_form r real ≡ true
    → asserts (merge_by r strategy real) ≡ false
merge_by-total scenario strategy real h = ground (arith, scenario-total real h)
merge_by-total turn strategy real h = ground (arith, turn-total real h)

conclude-total :
    (r : Resolution) (strategy : Strategy) (n : ℕ) (real errored : Dict String ScorerResult)
    → all_in_form r real ≡ true
    → asserts (conclude r strategy n real errored) ≡ false
unfolding conclude
conclude-total r strategy n [] errored h = refl
conclude-total r strategy n (a ∷ []) [] h = refl
conclude-total r strategy n (a ∷ []) (b ∷ errored) h = merge_by-total r strategy (a ∷ []) h
conclude-total r strategy n (a ∷ b ∷ real) errored h = merge_by-total r strategy (a ∷ b ∷ real) h

score-total :
    (c : ConsensusScorer) (n : ℕ)
    → all_of (answers_in_form c.first_judge.resolution) (all_judges c) ≡ true
    → asserts (score c n) ≡ false
unfolding score
score-total c zero h = refl
score-total c (suc n) h =
    let r = c.first_judge.resolution in
    let results = collect [] (all_judges c) in
    ground (
      arith,
      conclude-total r c.strategy (suc n) (usable_results true results)
          (usable_results false results)
          (usable-form r true results (collect-form r (all_judges c) [] refl h)),
    )

in_block :
    (r : Resolution) (judges : List Judge)
    → all_of (λ (j : Judge). same_resolution j.resolution r) judges ≡ true
    → all_of (λ (j : Judge). answers_in_form j.resolution j) judges ≡ true
    → all_of (answers_in_form r) judges ≡ true
in_block r [] h f = refl
in_block r (j ∷ judges) h f = ground (arith, in_block r judges, equal r j.resolution)
  where
    equal : (r s : Resolution) → same_resolution s r ≡ true → s ≡ r
    equal r s h = ground arith

-- The assertions on the payloads never fail in a block that was built, if each judge answers in
-- the form of its own resolution.
pub score-no_assertion :
    (judges : List Judge) (strategy : String) (c : ConsensusScorer) (n : ℕ)
    → build judges strategy ≡ built c
    → all_of (λ (j : Judge). answers_in_form j.resolution j) judges ≡ true
    → score c n ≢ assertion_error
score-no_assertion judges strategy c n b f =
    let (same, enough, named, shared) = build_sound judges strategy c b in
    let form = in_block c.first_judge.resolution judges shared f in
    λ e. ground (
      arith,
      e,
      score-total c n (
          subst (λ (js : List Judge). all_of (answers_in_form c.first_judge.resolution) js ≡ true)
            (sym same) form),
    )
