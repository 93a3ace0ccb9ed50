-- ===== src/Aggregator/Stats/Histograms.antt =====
-- What the verdict histograms of src/belt/aggregator/stats.py count.
use agent_belt.Prelude.{
  ◌+◌, ◌≡◌, refl, sym, ◌∙◌, String, List, [], ◌∷◌, ◌++◌, arith, count, length, Dict, get, bump,
  or_else, values_of, gather, gather-append, get-accumulate, get-accumulate_onto, get-upsert,
  string_eq,
}
use agent_belt.Python.{Python}
use agent_belt.Levels.{ScoreLevel, level_eq}
use agent_belt.Payloads.{ScenarioScore}
use agent_belt.Payloads.Rows.{LlmShaped, iter_llm_verdicts}
use agent_belt.Aggregator.Stats.{
  Histogram, empty_histogram, count_verdict, level_rows, count_payload, all_payloads,
  per_scorer_dims,
}

module _ (py : Python) where
  -- The tokens that a list of payloads gives a dimension.
  abbrev pub tokens_in : String → List LlmShaped → List ScoreLevel
  tokens_in dim [] = []
  tokens_in dim (p ∷ payloads) =
      values_of dim (level_rows py (iter_llm_verdicts py p)) ++ tokens_in dim payloads

  -- The tokens that a scorer gives a dimension, over the whole run.
  abbrev pub tokens_of : String → String → List ScenarioScore → List ScoreLevel
  tokens_of scorer dim scores = tokens_in dim (values_of scorer (all_payloads py scores))

  -- `stats["scorers"][scorer][dim]`
  abbrev pub histogram : String → String → List ScenarioScore → Histogram
  histogram scorer dim scores =
      or_else (get dim (or_else (get scorer (per_scorer_dims py scores)) [])) empty_histogram

  get-block :
      (dim : String) (block : Dict String Histogram) (payloads : List LlmShaped)
      → or_else (get dim (gather (count_payload py) block payloads)) empty_histogram
        ≡ gather count_verdict (or_else (get dim block) empty_histogram) (tokens_in dim payloads)
  unfolding count_payload
  get-block dim block [] = refl
  get-block dim block (p ∷ payloads) =
      get-block dim (count_payload py p block) payloads
      ∙ rw
          (get-accumulate_onto count_verdict empty_histogram dim block
            (level_rows py (iter_llm_verdicts py p)))
          (sym (
            gather-append count_verdict (or_else (get dim block) empty_histogram)
              (values_of dim (level_rows py (iter_llm_verdicts py p))) (tokens_in dim payloads)))

count-tokens :
    (l : ScoreLevel) (h : Histogram) (tokens : List ScoreLevel)
    → or_else (get l (gather count_verdict h tokens).counts) 0
      ≡ or_else (get l h.counts) 0 + count l tokens
count-tokens l h [] = omega arith
count-tokens l h (t ∷ tokens) = ground (
  arith,
  count-tokens l (count_verdict t h) tokens,
  get-upsert t l bump h.counts,
  level_eq.beq_iff l t,
)

total-tokens :
    (h : Histogram) (tokens : List ScoreLevel)
    → (gather count_verdict h tokens).total ≡ h.total + length tokens
total-tokens h [] = omega arith
total-tokens h (t ∷ tokens) = ground (arith, total-tokens (count_verdict t h) tokens)

get-empty : (l : ScoreLevel) → or_else (get l empty_histogram.counts) 0 ≡ 0
get-empty l = ground arith

-- The histogram of a scorer's dimension counts, for each level, the verdicts with that level that
-- the scorer's payloads give the dimension over the whole run, and its total is the number of all
-- of them.
histogram-counts :
    (py : Python) (scores : List ScenarioScore) (scorer dim : String) (l : ScoreLevel)
    → (or_else (get l (histogram py scorer dim scores).counts) 0
        ≡ count l (tokens_of py scorer dim scores))
      × ((histogram py scorer dim scores).total ≡ length (tokens_of py scorer dim scores))
unfolding per_scorer_dims
histogram-counts py scores scorer dim l =
    let tokens = tokens_of py scorer dim scores in
    let same : histogram py scorer dim scores ≡ gather count_verdict empty_histogram tokens =
      rw (get-accumulate (count_payload py) [] scorer (all_payloads py scores))
        (get-block py dim [] (values_of scorer (all_payloads py scores))) in
    rw same (
      omega (arith, count-tokens l empty_histogram tokens, get-empty l),
      omega (arith, total-tokens empty_histogram tokens),
    )
