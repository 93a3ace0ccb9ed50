-- ===== src/Consensus/Score/Errors.antt =====
-- The error paths of `ConsensusScorer`,
-- src/belt/scorer/llm/consensus.py.
use agent_belt.Prelude.{
  ℕ, ◌≤◌, ◌≡◌, sym, ◌∙◌, String, Bool, true, false, ◌||◌, none, some, List, any as any_of, length,
  ltb, if◌then◌else◌, [], ◌∷◌, arith, elem, count, Dict, All, tally, first_min, mem-first_min,
  first_min-greatest, All-at, All-tally, All-of_elem, entry_of_key, elem-set_of, keys-tally, keys,
  Memᴰ, ap, eq_self, string_eq,
}
use mathlib.Core.Path.{subst}
use agent_belt.Payloads.{JudgeErrorType}
use agent_belt.Payloads.Rows.{LlmShaped, scenario_level, turn_level}
use agent_belt.Consensus.Votes.{headline_error, error_eq, more_common, first_of_entries}
use agent_belt.Consensus.Merge.{ScorerResult}
use agent_belt.Consensus.Score.{Judge, Scored, result}

abbrev pub passes : Scored → Bool
passes (result r) = r.passed
passes _ = false

further : (x y : JudgeErrorType × ℕ) → more_common x y ≡ true → y.1 ≤ x.1
further (s, m) (t, n) h = ground arith

no_further : (x y : JudgeErrorType × ℕ) → more_common x y ≡ false → x.1 ≤ y.1
no_further (s, m) (t, n) h = ground arith

-- The entry that is picked has the highest count.
first_of_entries-greatest :
    (d : Dict JudgeErrorType ℕ) (e : JudgeErrorType)
    → first_of_entries d ≡ some e
    → (n : ℕ) × Memᴰ (e, n) d × All (λ x. x.1 ≤ n) d
first_of_entries-greatest [] e h = absurd (ground (arith, h))
first_of_entries-greatest (x ∷ d) e h =
    let best = first_min more_common x d in
    let same : best.0 ≡ e = ground (arith, h) in
    (
      best.1,
      subst (λ (t : JudgeErrorType). Memᴰ {A = JudgeErrorType × ℕ} (t, best.1) (x ∷ d)) same
          (mem-first_min more_common x d),
      first_min-greatest more_common (λ p. p.1) further no_further x d,
    )

mem-elem :
    (e : JudgeErrorType) (n : ℕ) (d : Dict JudgeErrorType ℕ)
    → Memᴰ (e, n) d
    → elem e (keys d) ≡ true
mem-elem e n [] m = elim m [ ]
mem-elem e n ((t, i) ∷ d) (Memᴰ.head h) =
    let same : e ≡ t = ap (λ (p : JudgeErrorType × ℕ). p.0) h in rw same (ground (arith, eq_self t))
mem-elem e n ((t, i) ∷ d) (Memᴰ.tail m) = ground (arith, mem-elem e n d m)

-- The error that names a failure of several judges is one that some judge met, and none is met
-- more often.
headline_error-common :
    (errors : List JudgeErrorType) (e : JudgeErrorType)
    → headline_error errors ≡ some e
    → (elem e errors ≡ true) × All (λ t. count t errors ≤ count e errors) errors
unfolding headline_error
headline_error-common errors e h =
    let (n, m, top) = first_of_entries-greatest (tally errors) e h in
    let full : n ≡ count e errors =
      All-at (λ (p : JudgeErrorType × ℕ). p.1 ≡ count p.0 errors) (e, n) (tally errors)
        (All-tally errors) m in
    (
      sym (elem-set_of e errors) ∙ rw (sym (keys-tally errors)) (mem-elem e n (tally errors) m),
      All-of_elem (λ t. count t errors ≤ count e errors) errors
          (λ t v.
            let (i, l) =
              entry_of_key t (tally errors) (rw (keys-tally errors) (elem-set_of t errors ∙ v)) in
            omega (
              arith,
              full,
              All-at (λ (p : JudgeErrorType × ℕ). p.1 ≤ n) (t, i) (tally errors) top l,
              All-at (λ (p : JudgeErrorType × ℕ). p.1 ≡ count p.0 errors) (t, i) (tally errors)
                  (All-tally errors) l,
            )),
    )

-- Whether a payload has a verdict: one of the whole scenario that is not marked as an error, or one
-- turn by turn with a turn that has a dimension.
abbrev pub has_verdict : LlmShaped → Bool
has_verdict (scenario_level p) = if p.judge_errored then false else true
has_verdict (turn_level p) = any_of (λ t. ltb 0 (length t.dimensions)) p.turns

abbrev pub gives_verdict : Judge → Bool
gives_verdict j = elim j.answer [ none ↦ false | some r ↦ has_verdict r.payload ]

unfoldable any_verdict : Dict String ScorerResult → Bool
any_verdict [] = false
any_verdict ((name, r) ∷ results) = has_verdict r.payload || any_verdict results
