-- ===== src/Aggregator/Stats/Counts.antt =====
-- What the rule counts of src/belt/aggregator/stats.py add up to.
use agent_belt.Prelude.{
  ℕ, ◌+◌, ◌≡◌, refl, sym, ◌++◌, map, accumulate_onto, count_if-append, length-append, ◌∙◌, ap,
  String, not, Option, none, some, List, [], ◌∷◌, arith, count_if, length, Dict, get, or_else,
  values_of, gather, accumulate, sum_over, sum-accumulate, get-accumulate, if◌then◌else◌, string_eq,
}
use agent_belt.Python.{Python}
use agent_belt.Payloads.{CheckEntry, ScenarioScore}
use agent_belt.Aggregator.{rule_checks, dimension_of}
use agent_belt.Payloads.Rows.{has_passed}
use agent_belt.Aggregator.Stats.{
  RuleCounts, no_checks, count_check, rule_dims, checks_summed, RuleLoop, first_loop, add_check,
  add_checks, rule_loop, scores_summed, PartialScore, partial_of, rounded, build_stats,
  compute_partial_score,
}

-- The rule checks of a run, in one list, and each with its dimension.
unfoldable all_checks : List ScenarioScore → List CheckEntry
all_checks [] = []
all_checks (s ∷ scores) = rule_checks s ++ all_checks scores

abbrev by_dimension : List CheckEntry → List (String × CheckEntry)
by_dimension checks = map (λ c. (dimension_of c, c)) checks

add_checks-append :
    (l : RuleLoop) (xs ys : List CheckEntry)
    → add_checks l (xs ++ ys) ≡ add_checks (add_checks l xs) ys
unfolding add_checks
add_checks-append l [] ys = refl
add_checks-append l (x ∷ xs) ys = add_checks-append (add_check x l) xs ys

rule_loop-eq :
    (l : RuleLoop) (scores : List ScenarioScore)
    → rule_loop l scores ≡ add_checks l (all_checks scores)
unfolding rule_loop all_checks add_checks
rule_loop-eq l [] = refl
rule_loop-eq l (s ∷ scores) =
    rule_loop-eq (add_checks l (rule_checks s)) scores
    ∙ sym (add_checks-append l (rule_checks s) (all_checks scores))

dims-add_checks :
    (l : RuleLoop) (checks : List CheckEntry)
    → (add_checks l checks).dims
      ≡ accumulate_onto count_check no_checks l.dims (by_dimension checks)
unfolding add_checks accumulate_onto
dims-add_checks l [] = refl
dims-add_checks l (c ∷ checks) = dims-add_checks (add_check c l) checks

figures-add_checks :
    (l : RuleLoop) (checks : List CheckEntry)
    → ((add_checks l checks).checks_passed ≡ l.checks_passed + count_if has_passed checks)
      × ((add_checks l checks).checks_total ≡ l.checks_total + length checks)
unfolding add_checks
figures-add_checks l [] = (ground arith, ground arith)
figures-add_checks l (c ∷ checks) =
    let rest = figures-add_checks (add_check c l) checks in
    (ground (arith, rest.0), omega (arith, rest.1))

rule_dims-eq :
    (scores : List ScenarioScore)
    → rule_dims scores ≡ accumulate count_check no_checks (by_dimension (all_checks scores))
unfolding rule_dims
rule_dims-eq scores =
    ap (λ (l : RuleLoop). l.dims) (rule_loop-eq first_loop scores)
    ∙ dims-add_checks first_loop (all_checks scores)

-- The counts of a list of checks.
abbrev pub counts_of : List CheckEntry → RuleCounts
counts_of checks = record {
  passed = count_if has_passed checks;
  failed = count_if (λ c. not (has_passed c)) checks;
  total = length checks;
}

abbrev added : RuleCounts → RuleCounts → RuleCounts
added a b = record {
  passed = a.passed + b.passed;
  failed = a.failed + b.failed;
  total = a.total + b.total;
}

added-none : (a : RuleCounts) → added no_checks a ≡ a
added-none a = ground arith

gather-counts :
    (counts : RuleCounts) (checks : List CheckEntry)
    → gather count_check counts checks ≡ added counts (counts_of checks)
gather-counts counts [] = ground arith
gather-counts counts (c ∷ checks) = ground (arith, gather-counts (count_check c counts) checks)

-- Each rules dimension carries the counts of its own checks over the whole run: those that passed,
-- those that did not (a skipped check is one), and all of them.
get-rule_dims :
    (scores : List ScenarioScore) (dim : String)
    → or_else (get dim (rule_dims scores)) no_checks
      ≡ counts_of (values_of dim (by_dimension (all_checks scores)))
get-rule_dims scores dim =
    let checks = values_of dim (by_dimension (all_checks scores)) in
    ap (λ d. or_else (get dim d) no_checks) (rule_dims-eq scores)
    ∙ get-accumulate count_check no_checks dim (by_dimension (all_checks scores))
    ∙ gather-counts no_checks checks
    ∙ added-none (counts_of checks)

checks_summed-eq :
    (m n : ℕ) (checks : List CheckEntry)
    → checks_summed (m, n) checks ≡ (m + count_if has_passed checks, n + length checks)
unfolding checks_summed
checks_summed-eq m n [] = ground arith
checks_summed-eq m n (c ∷ checks) =
    ground (arith, checks_summed-eq (if has_passed c then m + 1 else m) (n + 1) checks)

scores_summed-eq :
    (m n : ℕ) (scores : List ScenarioScore)
    → scores_summed (m, n) scores
      ≡ (m + count_if has_passed (all_checks scores), n + length (all_checks scores))
unfolding scores_summed all_checks
scores_summed-eq m n [] = ground arith
scores_summed-eq m n (s ∷ scores) =
    let checks = rule_checks s in
    ap (λ c. scores_summed c scores) (checks_summed-eq m n checks)
    ∙ scores_summed-eq (m + count_if has_passed checks) (n + length checks) scores
    ∙ ground (
      arith,
      count_if-append has_passed checks (all_checks scores),
      length-append checks (all_checks scores),
    )

-- The sum of a figure over the dimensions.
abbrev pub sum_of : (RuleCounts → ℕ) → Dict String RuleCounts → ℕ
sum_of f dims = sum_over f dims

from_zero : (m n : ℕ) → ◌≡◌ {A = ℕ × ℕ} (0 + m, 0 + n) (m, n)
from_zero m n = ground arith

abbrev pub figures : {F : Type 0} → Option (PartialScore F) → ℕ × ℕ
figures none = (0, 0)
figures (some p) = (p.checks_passed, p.checks_total)

abbrev one_if_passed : CheckEntry → ℕ
one_if_passed c = if has_passed c then 1 else 0

sum_over-passed :
    (checks : List CheckEntry)
    → sum_over one_if_passed (by_dimension checks) ≡ count_if has_passed checks
sum_over-passed [] = refl
sum_over-passed (c ∷ checks) = ground (arith, sum_over-passed checks)

sum_over-total :
    (checks : List CheckEntry) → sum_over (λ c. 1) (by_dimension checks) ≡ length checks
sum_over-total [] = refl
sum_over-total (c ∷ checks) = omega (arith, sum_over-total checks)

sum_of-passed :
    (checks : List CheckEntry)
    → sum_of (λ c. c.passed) (accumulate count_check no_checks (by_dimension checks))
      ≡ count_if has_passed checks
sum_of-passed checks =
    sum-accumulate count_check no_checks (λ c. c.passed) one_if_passed refl (λ c b. ground arith)
      (by_dimension checks)
    ∙ sum_over-passed checks

sum_of-total :
    (checks : List CheckEntry)
    → sum_of (λ c. c.total) (accumulate count_check no_checks (by_dimension checks)) ≡ length checks
sum_of-total checks =
    sum-accumulate count_check no_checks (λ c. c.total) (λ c. 1) refl (λ c b. refl)
      (by_dimension checks)
    ∙ sum_over-total checks

figures-partial_of :
    (py : Python) (checks : List CheckEntry)
    → figures (partial_of py (count_if has_passed checks, length checks))
      ≡ (count_if has_passed checks, length checks)
figures-partial_of py [] = refl
figures-partial_of py (c ∷ checks) = refl

-- The loop of `build_stats` and that of `compute_partial_score` end with the same figures.
loop-summed :
    (scores : List ScenarioScore)
    → ((rule_loop first_loop scores).checks_passed, (rule_loop first_loop scores).checks_total)
      ≡ scores_summed (0, 0) scores
loop-summed scores =
    let checks = all_checks scores in
    let (passed, total) = figures-add_checks first_loop checks in
    ap (λ (l : RuleLoop). (l.checks_passed, l.checks_total)) (rule_loop-eq first_loop scores)
    ∙ ap (λ m. (m, (add_checks first_loop checks).checks_total)) passed
    ∙ ap (λ n. (0 + count_if has_passed checks, n)) total
    ∙ sym (scores_summed-eq 0 0 scores)

-- A partial score in four digits.
abbrev pub in_four_digits :
    (py : Python) → Option (PartialScore py.Float) → Option (PartialScore py.Float)
in_four_digits py none = none
in_four_digits py (some p) = some (record p { partial_score = py.round p.partial_score 4 })

rounded-in_four_digits :
    (py : Python) (p : Option (PartialScore py.Float)) → rounded py p ≡ in_four_digits py p
rounded-in_four_digits py none = refl
rounded-in_four_digits py (some p) = refl

-- The rules dimensions of a run split its checks: over the dimensions, the checks that passed and
-- all checks add up to the figures of `compute_partial_score`; and its score in four digits, with
-- the same figures, is that of `build_stats`, which counts on its own in the loop that fills the
-- dimensions.
pub rule_dims-partial :
    (py : Python) (scores : List ScenarioScore)
    → (figures (compute_partial_score py scores)
        ≡ (sum_of (λ c. c.passed) (rule_dims scores), sum_of (λ c. c.total) (rule_dims scores)))
      × ((build_stats py scores).partial_score
          ≡ in_four_digits py (compute_partial_score py scores))
unfolding compute_partial_score build_stats scores_summed
rule_dims-partial py scores =
    let checks = all_checks scores in
    (
      summed
          ∙ rw (rule_dims-eq scores)
              (rw (sum_of-passed checks, sum_of-total checks) (figures-partial_of py checks)),
      reported scores,
    )
  where
    summed :
        figures (compute_partial_score py scores)
        ≡ figures
            (partial_of py (count_if has_passed (all_checks scores), length (all_checks scores)))
    summed =
        ap (λ (c : ℕ × ℕ). figures (partial_of py c)) (scores_summed-eq 0 0 scores ∙ from_zero _ _)

    reported :
        (scores : List ScenarioScore)
        → (build_stats py scores).partial_score
          ≡ in_four_digits py (compute_partial_score py scores)
    reported [] = refl
    reported (s ∷ scores) =
        ap (λ (c : ℕ × ℕ). rounded py (partial_of py c)) (loop-summed (s ∷ scores))
        ∙ rounded-in_four_digits py (compute_partial_score py (s ∷ scores))
