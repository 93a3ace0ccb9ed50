-- ===== src/Payloads/Rows.antt =====
-- The built-in iterators of src/belt/scorer/payloads.py: one row for each (scorer, dimension).
use agent_belt.Prelude.{
  ℕ, ◌+◌, String, Bool, false, not, ◌&&◌, ◌||◌, Option, none, some, List, [], ◌∷◌, ◌++◌, map,
  length, keep, Dict, get, keys, group, or_else, sort_by, str_le, first_min, ltb, leb, concat, join,
  if◌then◌else◌, ◌==◌, string_eq, is_some,
}
use agent_belt.Prelude.Int.{pos, ltb_ℤ}
use agent_belt.Levels.{ScoreLevel, low, medium, high, pass, fail, inconclusive, worst_of_turns_rank}
use agent_belt.Python.{Python}
use agent_belt.Payloads.{
  CheckEntry, RulesPayload, LlmDimensionVerdict, LlmPayload, TurnVerdict, PerTurnLlmPayload,
  ScorerPayload, rules, llm, per_turn, plugin,
}

abbrev pub Cell : Type 0
Cell = ℕ × LlmDimensionVerdict

-- `DimensionFeedback.raw` of the built-in iterators.
pub data Raw : Type 0 where
  rules_raw : (passed failed skipped total : ℕ) → List CheckEntry → Raw
  llm_raw : LlmDimensionVerdict → Raw
  per_turn_raw : (worst_turn_idx : ℕ) → (worst_score : ScoreLevel) → List Cell → Raw

pub record DimensionFeedback (F : Type 0) : Type 0 where
  pub scorer_name : String
  pub dimension : String
  pub score : Option F
  pub comment : String
  pub raw : Raw

-- `c.passed is True`, `is False`, `is None`
abbrev pub has_passed : CheckEntry → Bool
has_passed c = elim c.passed [ some b ↦ b | none ↦ false ]

abbrev pub has_failed : CheckEntry → Bool
has_failed c = elim c.passed [ some b ↦ not b | none ↦ false ]

abbrev pub was_skipped : CheckEntry → Bool
was_skipped c = not (is_some c.passed)

-- `by_dim`
unfoldable pub checks_by_dimension : List CheckEntry → Dict String (List CheckEntry)
checks_by_dimension checks = group (map (λ c. (c.dimension, c)) checks)

-- The cells of a per-turn payload: each turn's verdicts, tagged with the turn.
unfoldable pub turn_cells : ℕ → Dict String LlmDimensionVerdict → List (String × Cell)
turn_cells idx [] = []
turn_cells idx ((dim, verdict) ∷ dims) = (dim, (idx, verdict)) ∷ turn_cells idx dims

unfoldable pub cells : List TurnVerdict → List (String × Cell)
unfolding turn_cells
cells [] = []
cells (turn ∷ turns) = turn_cells turn.turn_idx turn.dimensions ++ cells turns

-- The key `(rank, turn_idx)` of the rollup's `min`.
abbrev pub worse : Cell → Cell → Bool
worse a b =
    let ra = worst_of_turns_rank a.1.score in
    let rb = worst_of_turns_rank b.1.score in ltb_ℤ ra rb || (not (ltb_ℤ rb ra) && ltb a.0 b.0)

unfoldable pub worst_cell : List Cell → Option Cell
worst_cell [] = none
worst_cell (entry ∷ entries) = some (first_min worse entry entries)

module _ (py : Python) where
  open py use {Float, of_ℕ, div, str_int}

  -- Half is 0.5, exactly.
  unfoldable pub level_to_score : ScoreLevel → Option Float
  level_to_score high = some (of_ℕ 1)
  level_to_score medium = some (div (of_ℕ 1) (of_ℕ 2))
  level_to_score low = some (of_ℕ 0)
  level_to_score pass = some (of_ℕ 1)
  level_to_score fail = some (of_ℕ 0)
  level_to_score inconclusive = none

  abbrev pub turn_prefix : Option ℕ → String
  turn_prefix none = ""
  turn_prefix (some i) = concat ("turn " ∷ str_int (pos i) ∷ ": " ∷ [])

  abbrev pub comment_line : CheckEntry → String
  comment_line c = concat (
      turn_prefix c.turn_idx
      ∷ c.check
      ∷ (if c.details == "" then "" else concat (" - " ∷ c.details ∷ []))
      ∷ [])

  unfoldable pub format_rules_comment : List CheckEntry → List CheckEntry → String
  format_rules_comment [] [] = ""
  format_rules_comment [] (s ∷ skipped) = concat (
      str_int (pos (length (s ∷ skipped)))
      ∷ " check(s) not evaluated (scenario aborted before rules ran)"
      ∷ [])
  format_rules_comment (f ∷ failed) skipped = join "\n" (map comment_line (f ∷ failed))

  unfoldable pub rules_row : String → String → List CheckEntry → DimensionFeedback Float
  rules_row scorer dim checks =
      let passed = keep has_passed checks in
      let failed = keep has_failed checks in
      let skipped = keep was_skipped checks in
      let runnable = length passed + length failed in
      record {
        scorer_name = scorer;
        dimension = dim;
        score = if leb runnable 0 then none else some (div (of_ℕ (length passed)) (of_ℕ runnable));
        comment = format_rules_comment failed skipped;
        raw = rules_raw (length passed) (length failed) (length skipped) (length checks) checks;
      }

  unfoldable pub iter_rules : String → RulesPayload → List (DimensionFeedback Float)
  unfolding checks_by_dimension rules_row
  iter_rules scorer payload =
      let by_dim = checks_by_dimension payload.checks in
      map (λ dim. rules_row scorer dim (or_else (get dim by_dim) [])) (sort_by str_le (keys by_dim))

  abbrev pub llm_row : String → String → Option LlmDimensionVerdict → List (DimensionFeedback Float)
  llm_row scorer dim none = []
  llm_row scorer dim (some verdict) =
      record {
        scorer_name = scorer;
        dimension = dim;
        score = level_to_score verdict.score;
        comment = verdict.reasoning;
        raw = llm_raw verdict;
      }
      ∷ []

  -- `payload.dimensions[dim]` of a key of the dictionary is always there.
  unfoldable pub llm_rows :
      String → Dict String LlmDimensionVerdict → List String → List (DimensionFeedback Float)
  llm_rows scorer dims [] = []
  llm_rows scorer dims (dim ∷ names) =
      llm_row scorer dim (get dim dims) ++ llm_rows scorer dims names

  unfoldable pub iter_llm : String → LlmPayload → List (DimensionFeedback Float)
  unfolding llm_rows
  iter_llm scorer payload =
      llm_rows scorer payload.dimensions (sort_by str_le (keys payload.dimensions))

  abbrev pub turn_comment : Cell → String
  turn_comment (idx, verdict) =
      if verdict.reasoning == ""
      then concat ("[turn " ∷ str_int (pos idx) ∷ "]" ∷ [])
      else concat ("[turn " ∷ str_int (pos idx) ∷ "] " ∷ verdict.reasoning ∷ [])

  abbrev pub per_turn_row :
      String → String → List Cell → Option Cell → List (DimensionFeedback Float)
  per_turn_row scorer dim entries none = []
  per_turn_row scorer dim entries (some worst) =
      record {
        scorer_name = scorer;
        dimension = dim;
        score = level_to_score worst.1.score;
        comment = turn_comment worst;
        raw = per_turn_raw worst.0 worst.1.score (sort_by (λ a b. leb a.0 b.0) entries);
      }
      ∷ []

  unfoldable pub per_turn_rows :
      String → Dict String (List Cell) → List String → List (DimensionFeedback Float)
  per_turn_rows scorer by_dim [] = []
  per_turn_rows scorer by_dim (dim ∷ names) =
      let entries = or_else (get dim by_dim) [] in
      per_turn_row scorer dim entries (worst_cell entries) ++ per_turn_rows scorer by_dim names

  unfoldable pub iter_per_turn_llm : String → PerTurnLlmPayload → List (DimensionFeedback Float)
  unfolding cells worst_cell per_turn_rows
  iter_per_turn_llm scorer payload =
      let by_dim = group (cells payload.turns) in
      per_turn_rows scorer by_dim (sort_by str_le (keys by_dim))

  -- The dispatch on the payload's registered type; a plugin's iterator is its own.
  unfoldable pub iter_payload :
      (String → String → List (DimensionFeedback Float))
      → String
      → ScorerPayload
      → List (DimensionFeedback Float)
  iter_payload of_plugin scorer (rules p) = iter_rules scorer p
  iter_payload of_plugin scorer (llm p) = iter_llm scorer p
  iter_payload of_plugin scorer (per_turn p) = iter_per_turn_llm scorer p
  iter_payload of_plugin scorer (plugin p) = of_plugin scorer p

  unfoldable pub iter_dimension_feedback :
      (String → String → List (DimensionFeedback Float))
      → Dict String ScorerPayload
      → List (DimensionFeedback Float)
  unfolding iter_payload
  iter_dimension_feedback of_plugin [] = []
  iter_dimension_feedback of_plugin ((name, payload) ∷ scores) =
      iter_payload of_plugin name payload ++ iter_dimension_feedback of_plugin scores

-- `iter_llm_verdicts`: the dimension, the token and the reasoning of each dimension. An LLM
-- payload is one of two shapes.
pub data LlmShaped : Type 0 where
  scenario_level : LlmPayload → LlmShaped
  turn_level : PerTurnLlmPayload → LlmShaped

abbrev pub Verdict : Type 0
Verdict = String × ScoreLevel × String

abbrev pub as_llm : ScorerPayload → Option LlmShaped
as_llm (rules p) = none
as_llm (llm p) = some (scenario_level p)
as_llm (per_turn p) = some (turn_level p)
as_llm (plugin p) = none

-- `iter_llm_payloads`
unfoldable pub iter_llm_payloads : Dict String ScorerPayload → List (String × LlmShaped)
iter_llm_payloads [] = []
iter_llm_payloads ((name, payload) ∷ scores) =
    let rest = iter_llm_payloads scores in
    elim (as_llm payload) [ none ↦ rest | some p ↦ (name, p) ∷ rest ]

abbrev pub verdict_row : String → Option LlmDimensionVerdict → List Verdict
verdict_row dim none = []
verdict_row dim (some v) = (dim, v.score, v.reasoning) ∷ []

unfoldable pub verdict_rows : Dict String LlmDimensionVerdict → List String → List Verdict
verdict_rows dims [] = []
verdict_rows dims (dim ∷ names) = verdict_row dim (get dim dims) ++ verdict_rows dims names

module _ (py : Python) where
  open py use {Float}

  abbrev pub rolled_up : Raw → Option ScoreLevel
  rolled_up (per_turn_raw idx score entries) = some score
  rolled_up _ = none

  -- The rows of a per-turn payload always carry a `worst_score`.
  abbrev pub rollup_verdict : DimensionFeedback Float → List Verdict
  rollup_verdict fb = elim (rolled_up fb.raw) [
    | none ↦ []
    | some score ↦ (fb.dimension, score, fb.comment) ∷ []
  ]

  unfoldable pub rollup_verdicts : List (DimensionFeedback Float) → List Verdict
  rollup_verdicts [] = []
  rollup_verdicts (fb ∷ rows) = rollup_verdict fb ++ rollup_verdicts rows

  unfoldable pub iter_llm_verdicts : LlmShaped → List Verdict
  unfolding verdict_rows rollup_verdicts
  iter_llm_verdicts (scenario_level p) =
      verdict_rows p.dimensions (sort_by str_le (keys p.dimensions))
  iter_llm_verdicts (turn_level p) = rollup_verdicts (iter_per_turn_llm py "__rollup__" p)
