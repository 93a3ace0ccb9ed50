-- ===== src/Aggregator/Thresholds/LlmFailures.antt =====
-- What `_count_llm_failures` of src/belt/aggregator/thresholds.py counts.
use agent_belt.Prelude.{
  ℕ, ◌+◌, ◌≡◌, refl, sym, ◌∙◌, String, Bool, true, false, not, ◌&&◌, ◌||◌, Option, none, some, List,
  [], ◌∷◌, arith, any as any_of, elem, elem-append, elem-set_of, any-sort_by, count_if, Dict, get,
  is_some, set_of, str_le, ltb, Bool-cases, inl, inr, eq_of_beq, if◌then◌else◌, ◌==◌, string_eq,
}
use agent_belt.Python.{Python}
use agent_belt.Levels.{ScoreLevel, level_eq}
use agent_belt.Payloads.{ScenarioScore}
use agent_belt.Payloads.Rows.{Verdict}
use agent_belt.Aggregator.{verdicts_of}
use agent_belt.Aggregator.Thresholds.{
  fail_levels, verdict_for, bump_counts, dims_of, all_llm_dims, discover_llm_dimensions,
  count_dimension, count_dimensions, count_llm_failures,
}

-- Some verdict grades the dimension; some verdict on it is in the fail set.
abbrev pub grades : String → List Verdict → Bool
grades dim rows = any_of (λ (d, l, r). d == dim) rows

abbrev pub fails_dim : List ScoreLevel → String → List Verdict → Bool
fails_dim fail_on dim rows = any_of (λ (d, l, r). d == dim && elem l fail_on) rows

abbrev fails_with : List ScoreLevel → Option ScoreLevel → Bool
fails_with fail_on none = false
fails_with fail_on (some l) = elem l fail_on

is_some-verdict_for :
    (fail_on : List ScoreLevel) (dim : String) (seen : Option ScoreLevel) (rows : List Verdict)
    → is_some (verdict_for fail_on dim seen rows) ≡ (is_some seen || grades dim rows)
unfolding verdict_for
is_some-verdict_for fail_on dim none [] = refl
is_some-verdict_for fail_on dim (some old) [] = refl
is_some-verdict_for fail_on dim none ((d, l, r) ∷ rows) =
    ground (arith, is_some-verdict_for fail_on dim (if d == dim then some l else none) rows)
is_some-verdict_for fail_on dim (some old) ((d, l, r) ∷ rows) =
    is_some-verdict_for fail_on dim _ rows

fails_with-verdict_for :
    (fail_on : List ScoreLevel) (dim : String) (seen : Option ScoreLevel) (rows : List Verdict)
    → fails_with fail_on (verdict_for fail_on dim seen rows)
      ≡ (fails_with fail_on seen || fails_dim fail_on dim rows)
unfolding verdict_for
fails_with-verdict_for fail_on dim none [] = refl
fails_with-verdict_for fail_on dim (some old) [] = ground arith
fails_with-verdict_for fail_on dim none ((d, l, r) ∷ rows) =
    ground (arith, fails_with-verdict_for fail_on dim (if d == dim then some l else none) rows)
fails_with-verdict_for fail_on dim (some old) ((d, l, r) ∷ rows) = ground (
  arith,
  fails_with-verdict_for fail_on dim
      (some (if d == dim && (elem l fail_on && not (elem old fail_on)) then l else old)) rows,
)

module _ (py : Python) (fail_on : List ScoreLevel) (dim : String) where
  abbrev failed_in : List ScenarioScore → ℕ
  failed_in scores = count_if (λ s. fails_dim fail_on dim (verdicts_of py s)) scores

  abbrev graded_in : List ScenarioScore → ℕ
  graded_in scores = count_if (λ s. grades dim (verdicts_of py s)) scores

  bump_counts-eq :
      (o : Option ScoreLevel) (a b : ℕ) (rows : List Verdict)
      → is_some o ≡ grades dim rows
      → fails_with fail_on o ≡ fails_dim fail_on dim rows
      → bump_counts fail_on o (a, b)
        ≡ (if fails_dim fail_on dim rows then a + 1 else a, if grades dim rows then b + 1 else b)
  bump_counts-eq none a b rows h k = rw (sym h, sym k) refl
  bump_counts-eq (some l) a b rows h k = rw (sym h, sym k) refl

  count_dimension-eq :
      (a b : ℕ) (scores : List ScenarioScore)
      → count_dimension py fail_on dim (a, b) scores ≡ (a + failed_in scores, b + graded_in scores)
  unfolding count_dimension
  count_dimension-eq a b [] = ground arith
  count_dimension-eq a b (s ∷ scores) =
      let rows = verdicts_of py s in
      let o = verdict_for fail_on dim none rows in
      rw
        (bump_counts-eq o a b rows (is_some-verdict_for fail_on dim none rows)
          (fails_with-verdict_for fail_on dim none rows))
        (count_dimension-eq (if fails_dim fail_on dim rows then a + 1 else a)
            (if grades dim rows then b + 1 else b) scores
          ∙ ground arith)

module _ (py : Python) where
  entry :
      (dim d : String) (c : ℕ × ℕ) (rest : Dict String (ℕ × ℕ))
      → (dim == d) ≡ true
      → get dim (if ltb 0 c.1 then (d, c) ∷ rest else rest)
        ≡ (if ltb 0 c.1 then some c else get dim rest)
  entry dim d c rest h = ground (arith, h)

  other_entry :
      (dim d : String) (c : ℕ × ℕ) (rest : Dict String (ℕ × ℕ))
      → (dim == d) ≡ false
      → get dim (if ltb 0 c.1 then (d, c) ∷ rest else rest) ≡ get dim rest
  other_entry dim d c rest h = ground (arith, h)

  merged_entry :
      (b : Bool) (c : ℕ × ℕ)
      → (if ltb 0 c.1 then some c else (if b && ltb 0 c.1 then some c else none))
        ≡ (if ltb 0 c.1 then some c else none)
  merged_entry b c = ground arith

  get-count_dimensions :
      (fail_on : List ScoreLevel) (scores : List ScenarioScore) (dim : String) (dims : List String)
      → let c : ℕ × ℕ = count_dimension py fail_on dim (0, 0) scores in
        get dim (count_dimensions py fail_on scores dims)
        ≡ (if elem dim dims && ltb 0 c.1 then some c else none)
  unfolding count_dimensions
  get-count_dimensions fail_on scores dim [] = refl
  get-count_dimensions fail_on scores dim (d ∷ dims) =
      let c = count_dimension py fail_on d (0, 0) scores in
      let rest = get-count_dimensions fail_on scores dim dims in
      elim (Bool-cases (dim == d)) [
        | inl h ↦
            entry dim d c (count_dimensions py fail_on scores dims) h
            ∙ rw (rest, h) (rw (eq_of_beq dim d h) (merged_entry (elem d dims) c))
        | inr h ↦ other_entry dim d c (count_dimensions py fail_on scores dims) h ∙ rw (h) rest
      ]

  elem-dims_of : (dim : String) (rows : List Verdict) → elem dim (dims_of py rows) ≡ grades dim rows
  elem-dims_of dim [] = refl
  elem-dims_of dim ((d, l, r) ∷ rows) =
      ground (arith, elem-dims_of dim rows, string_eq.beq_iff dim d, string_eq.beq_iff d dim)

  graded-elem :
      (fail_on : List ScoreLevel) (dim : String) (scores : List ScenarioScore)
      → ltb 0 (graded_in py fail_on dim scores) ≡ elem dim (all_llm_dims py scores)
  unfolding all_llm_dims
  graded-elem fail_on dim [] = refl
  graded-elem fail_on dim (s ∷ scores) = ground (
    arith,
    graded-elem fail_on dim scores,
    elem-append dim (dims_of py (verdicts_of py s)) (all_llm_dims py scores),
    elem-dims_of dim (verdicts_of py s),
  )

-- What a budget on an LLM dimension is measured on: `total` counts the scenarios with a row of
-- `iter_llm_verdicts` on the dimension, and `failed` those where some row on it is in the fail set,
-- so that a passing judge's row never masks a failing one. A judge that graded turn by turn has one
-- row for the dimension, that of its worst turn by the ranks of `iter_per_turn_llm`. A dimension
-- without a row has no entry.
pub get-count_llm_failures :
    (py : Python) (scores : List ScenarioScore) (chosen : List ScoreLevel) (dim : String)
    → get dim (count_llm_failures py scores chosen) ≡ (
        if ltb 0 (count_if (λ s. grades dim (verdicts_of py s)) scores)
        then some (
          count_if (λ s. fails_dim (fail_levels chosen) dim (verdicts_of py s)) scores,
          count_if (λ s. grades dim (verdicts_of py s)) scores,
        )
        else none)
unfolding count_llm_failures discover_llm_dimensions
get-count_llm_failures py scores chosen dim =
    let fail_on = fail_levels chosen in
    get-count_dimensions py fail_on scores dim _
    ∙ rw
        (
          count_dimension-eq py fail_on dim 0 0 scores,
          any-sort_by str_le (λ d. dim == d) (set_of (all_llm_dims py scores)),
          elem-set_of dim (all_llm_dims py scores),
          sym (graded-elem py fail_on dim scores),
        )
        (ground arith)
