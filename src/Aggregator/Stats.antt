-- ===== src/Aggregator/Stats.antt =====
-- `build_stats` and `compute_partial_score` of src/belt/aggregator/stats.py.
pub mod Counts
pub mod Histograms
use agent_belt.Prelude.{
  ℕ, zero, suc, ◌+◌, ◌*◌, ◌≡◌, String, Bool, true, false, not, Option, none, some, List, [], ◌∷◌,
  ◌++◌, map, count_if, length, Dict, get, put, upsert, keys, or_else, is_empty, accumulate,
  accumulate_onto, concat, ltb, if◌then◌else◌, ◌==◌, string_eq, bump,
}
use agent_belt.Prelude.Int.{pos}
use agent_belt.Python.{Python}
use agent_belt.Levels.{ScoreLevel, level_eq, all_verdict_tokens, inconclusive}
use agent_belt.Payloads.{CheckEntry, ScenarioScore}
use agent_belt.Payloads.Rows.{LlmShaped, Verdict, has_passed, iter_llm_payloads, iter_llm_verdicts}
use agent_belt.Aggregator.{rule_checks, dimension_of}

pub record RuleCounts : Type 0 where
  pub passed : ℕ
  pub failed : ℕ
  pub total : ℕ

abbrev pub no_checks : RuleCounts
no_checks = record { passed = 0; failed = 0; total = 0 }

-- A check that was skipped counts as failed here.
abbrev pub count_check : CheckEntry → RuleCounts → RuleCounts
count_check c counts = record {
  passed = if has_passed c then counts.passed + 1 else counts.passed;
  failed = if has_passed c then counts.failed else counts.failed + 1;
  total = counts.total + 1;
}

-- The variables of the loop over the checks of the rules.
pub record RuleLoop : Type 0 where
  pub dims : Dict String RuleCounts
  pub checks_passed : ℕ
  pub checks_total : ℕ

abbrev pub first_loop : RuleLoop
first_loop = record { dims = []; checks_passed = 0; checks_total = 0 }

-- The body of the loop.
abbrev pub add_check : CheckEntry → RuleLoop → RuleLoop
add_check c l = record {
  dims = upsert (dimension_of c) (λ old. count_check c (or_else old no_checks)) l.dims;
  checks_passed = if has_passed c then l.checks_passed + 1 else l.checks_passed;
  checks_total = l.checks_total + 1;
}

unfoldable pub add_checks : RuleLoop → List CheckEntry → RuleLoop
add_checks l [] = l
add_checks l (c ∷ checks) = add_checks (add_check c l) checks

unfoldable pub rule_loop : RuleLoop → List ScenarioScore → RuleLoop
unfolding add_checks
rule_loop l [] = l
rule_loop l (s ∷ scores) = rule_loop (add_checks l (rule_checks s)) scores

unfoldable pub rule_dims : List ScenarioScore → Dict String RuleCounts
unfolding rule_loop
rule_dims scores = (rule_loop first_loop scores).dims

-- `checks_passed` and `checks_total` of `compute_partial_score`, over the checks of a score.
unfoldable pub checks_summed : ℕ × ℕ → List CheckEntry → ℕ × ℕ
checks_summed counts [] = counts
checks_summed (passed, total) (c ∷ checks) =
    checks_summed (if has_passed c then passed + 1 else passed, total + 1) checks

-- And over all scores.
unfoldable pub scores_summed : ℕ × ℕ → List ScenarioScore → ℕ × ℕ
unfolding checks_summed
scores_summed counts [] = counts
scores_summed counts (s ∷ scores) = scores_summed (checks_summed counts (rule_checks s)) scores

-- One histogram: how often each token was given, and the number of verdicts.
pub record Histogram : Type 0 where
  pub counts : Dict ScoreLevel ℕ
  pub total : ℕ

abbrev pub empty_histogram : Histogram
empty_histogram = record { counts = map (λ l. (l, 0)) all_verdict_tokens; total = 0 }

-- Every token has a bucket, so that the guard on the tokens always lets a verdict through.
abbrev pub count_verdict : ScoreLevel → Histogram → Histogram
count_verdict l h = record { counts = upsert l bump h.counts; total = h.total + 1 }

pub record RuleDim (F : Type 0) : Type 0 where
  pub counts : RuleCounts
  pub pass_rate : F

pub data ScorerBlock (F : Type 0) : Type 0 where
  rules_block : Dict String (RuleDim F) → ScorerBlock F
  llm_block : Dict String Histogram → ScorerBlock F

pub record PartialScore (F : Type 0) : Type 0 where
  pub checks_passed : ℕ
  pub checks_total : ℕ
  pub partial_score : F

pub record Stats (F : Type 0) : Type 0 where
  pub pass_rate : F
  pub scorers : Dict String (ScorerBlock F)
  pub partial_score : Option (PartialScore F)
  pub inconclusive_warnings : List String

module _ (py : Python) where
  open py use {Float}

  abbrev pub level_rows : List Verdict → List (String × ScoreLevel)
  level_rows [] = []
  level_rows ((dim, l, r) ∷ rows) = (dim, l) ∷ level_rows rows

  -- The inner loops, over one payload.
  unfoldable pub count_payload : LlmShaped → Dict String Histogram → Dict String Histogram
  count_payload p block =
      accumulate_onto count_verdict empty_histogram block (level_rows (iter_llm_verdicts py p))

  unfoldable pub all_payloads : List ScenarioScore → List (String × LlmShaped)
  all_payloads [] = []
  all_payloads (s ∷ scores) = iter_llm_payloads s.scores ++ all_payloads scores

  -- A histogram for each scorer and dimension.
  unfoldable pub per_scorer_dims : List ScenarioScore → Dict String (Dict String Histogram)
  unfolding all_payloads count_payload
  per_scorer_dims scores = accumulate count_payload [] (all_payloads scores)

  abbrev pub ratio : ℕ → ℕ → Float
  ratio passed total = py.div (py.of_ℕ passed) (py.of_ℕ total)

  abbrev pub rule_rows_of : Dict String RuleCounts → Dict String (RuleDim Float)
  rule_rows_of [] = []
  rule_rows_of ((dim, counts) ∷ dims) =
      (
        dim,
        record {
          counts = counts;
          pass_rate =
              if ltb 0 counts.total
              then py.round (ratio counts.passed counts.total) 2
              else py.of_ℕ 0;
        },
      )
      ∷ rule_rows_of dims

  abbrev pub with_rules :
      Dict String RuleCounts → Dict String (ScorerBlock Float) → Dict String (ScorerBlock Float)
  with_rules dims scorers =
      if is_empty dims then scorers else put "rules" (rules_block (rule_rows_of dims)) scorers

  unfoldable pub with_llm :
      Dict String (Dict String Histogram)
      → Dict String (ScorerBlock Float)
      → Dict String (ScorerBlock Float)
  with_llm [] scorers = scorers
  with_llm ((name, dims) ∷ blocks) scorers = with_llm blocks (put name (llm_block dims) scorers)

  -- The warning on a dimension whose share of inconclusive verdicts is above the ceiling.
  abbrev pub inconclusive_warning : String → String → ℕ → ℕ → List String
  inconclusive_warning scorer dim zero zero = []
  inconclusive_warning scorer dim (suc n) zero = []
  inconclusive_warning scorer dim n (suc total) =
      let share = py.div (py.mul (py.of_ℕ 100) (py.of_ℕ n)) (py.of_ℕ (suc total)) in
      if py.le share (py.of_ℕ 20)
      then []
      else concat (
          scorer
          ∷ "/"
          ∷ dim
          ∷ ": "
          ∷ py.str_int (pos n)
          ∷ "/"
          ∷ py.str_int (pos (suc total))
          ∷ " verdicts ("
          ∷ py.fixed 0 share
          ∷ "%) inconclusive - rubric may be unevidenced or transcript may be too short."
          ∷ [])
        ∷ []

  unfoldable pub dim_warnings : String → Dict String Histogram → List String
  dim_warnings scorer [] = []
  dim_warnings scorer ((dim, h) ∷ dims) =
      inconclusive_warning scorer dim (or_else (get inconclusive h.counts) 0) h.total
      ++ dim_warnings scorer dims

  unfoldable pub warnings : Dict String (Dict String Histogram) → List String
  unfolding dim_warnings
  warnings [] = []
  warnings ((scorer, dims) ∷ blocks) = dim_warnings scorer dims ++ warnings blocks

  abbrev pub partial_of : ℕ × ℕ → Option (PartialScore Float)
  partial_of (passed, zero) = none
  partial_of (passed, suc total) = some (record {
    checks_passed = passed;
    checks_total = suc total;
    partial_score = ratio passed (suc total);
  })

  abbrev pub rounded : Option (PartialScore Float) → Option (PartialScore Float)
  rounded none = none
  rounded (some p) = some (record {
    checks_passed = p.checks_passed;
    checks_total = p.checks_total;
    partial_score = py.round p.partial_score 4;
  })

  unfoldable pub build_stats : List ScenarioScore → Stats Float
  unfolding rule_loop per_scorer_dims with_llm warnings
  build_stats [] = record {
    pass_rate = py.of_ℕ 0;
    scorers = [];
    partial_score = none;
    inconclusive_warnings = [];
  }
  build_stats (s ∷ scores) =
      let run = s ∷ scores in
      let loop = rule_loop first_loop run in
      let blocks = per_scorer_dims run in
      record {
        pass_rate = py.round (ratio (count_if (λ t. t.overall_pass) run) (length run)) 2;
        scorers = with_llm blocks (with_rules loop.dims []);
        partial_score = rounded (partial_of (loop.checks_passed, loop.checks_total));
        inconclusive_warnings = warnings blocks;
      }

  -- `compute_partial_score`, which does not round.
  unfoldable pub compute_partial_score : List ScenarioScore → Option (PartialScore Float)
  unfolding scores_summed
  compute_partial_score scores = partial_of (scores_summed (0, 0) scores)
