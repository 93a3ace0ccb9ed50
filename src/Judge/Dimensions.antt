-- ===== src/Judge/Dimensions.antt =====
-- The dimensions that a judge grades (src/belt/agent/scoring.py), and those of a single turn
-- (`_effective_strategy_for_turn` of src/belt/scorer/llm/scorer.py).
pub mod Scales
use agent_belt.Prelude.{
  String, Bool, true, false, not, Option, none, some, List, [], ◌∷◌, ◌++◌, map, keep, elem,
  is_empty, Dict, get, put, concat, join, if◌then◌else◌, ◌==◌, string_eq,
}

pub data Kind : Type 0 where
  binary ternary : Kind

pub record DimensionDef : Type 0 where
  pub name : String
  pub description : String
  pub kind : Kind
  pub allow_inconclusive : Bool
  pub high : String
  pub medium : String
  pub low : String
  pub pass : String
  pub fail : String
  pub evidence_hints : String

pub record ScoringStrategy : Type 0 where
  pub dimensions : List DimensionDef
  pub agent_context : String

abbrev pub base_values : Kind → List String
base_values binary = "pass" ∷ "fail" ∷ []
base_values ternary = "low" ∷ "medium" ∷ "high" ∷ []

abbrev pub allowed_score_values : DimensionDef → List String
allowed_score_values d =
    base_values d.kind ++ (if d.allow_inconclusive then "inconclusive" ∷ [] else [])

abbrev pub dimension_names : ScoringStrategy → List String
dimension_names s = map (λ d. d.name) s.dimensions

-- The parts of a JSON schema that depend on the dimensions: the verdicts of each definition, the
-- definition that a property refers to, if it is no boolean, and the properties that are required.
pub record Schema : Type 0 where
  pub defs : Dict String (List String)
  pub properties : Dict String (Option String)
  pub required : List String

-- `sanitise` is `_sanitise`, which replaces what stands in no key.
module _ (sanitise : String → String) where
  abbrev pub verdict_def_name : DimensionDef → String
  verdict_def_name d = concat (sanitise d.name ∷ "_Verdict" ∷ [])

  -- The loop of `build_schema`.
  unfoldable pub add_dimensions : List DimensionDef → Schema → Schema
  add_dimensions [] s = s
  add_dimensions (d ∷ ds) s = add_dimensions ds (record {
    defs = put (verdict_def_name d) (allowed_score_values d) s.defs;
    properties = put d.name (some (verdict_def_name d)) s.properties;
    required = s.required ++ d.name ∷ [];
  })

  abbrev pub empty_schema : Schema
  empty_schema = record { defs = []; properties = []; required = [] }

  -- `build_schema`
  unfoldable pub build_schema : ScoringStrategy → Schema
  build_schema strategy =
      let s = add_dimensions strategy.dimensions empty_schema in
      record {
        defs = s.defs;
        properties = put "overall_pass" none s.properties;
        required = s.required ++ "overall_pass" ∷ [];
      }

-- `title` is the heading of a name: its underscores replaced, in title case.
module _ (title : String → String) where
  abbrev pub scale_lines : DimensionDef → Kind → List String
  scale_lines d binary = "1. pass - " ∷ d.pass ∷ "\n2. fail - " ∷ d.fail ∷ "\n" ∷ []
  scale_lines d ternary =
      "1. high - " ∷ d.high ∷ "\n2. medium - " ∷ d.medium ∷ "\n3. low - " ∷ d.low ∷ "\n" ∷ []

  abbrev pub inconclusive_num : Kind → String
  inconclusive_num binary = "3"
  inconclusive_num ternary = "4"

  abbrev pub inconclusive_lines : DimensionDef → List String
  inconclusive_lines d =
      if d.allow_inconclusive
      then inconclusive_num d.kind
        ∷ ". inconclusive - the available evidence does not let you decide. "
        ∷ "Only pick this when the transcript or workspace does not show "
        ∷ "behaviour relevant to this dimension; quote the gap in `reasoning`. "
        ∷ "Inconclusive counts as a failure in the headline pass-rate.\n"
        ∷ []
      else []

  abbrev pub hint_lines : DimensionDef → List String
  hint_lines d =
      if d.evidence_hints == "" then [] else "\nLook for: " ∷ d.evidence_hints ∷ "\n" ∷ []

  abbrev pub dimension_prompt : DimensionDef → String
  dimension_prompt d = concat (
      ("## " ∷ title d.name ∷ "\n\n" ∷ d.description ∷ "\n\n" ∷ [])
      ++ (scale_lines d d.kind ++ (inconclusive_lines d ++ hint_lines d)))

  -- `build_dimensions_prompt`
  abbrev pub build_dimensions_prompt : ScoringStrategy → String
  build_dimensions_prompt s = join "\n" (map dimension_prompt s.dimensions)

-- What a turn says of a judge (`TurnJudgeOverride` of src/belt/scenario.py).
pub record TurnJudgeOverride : Type 0 where
  pub instruction : Option String
  pub dimensions : Option (List DimensionDef)
  pub extend_default_dimensions : Bool
  pub evidence_files : Option (List String)
  pub skip : Bool

abbrev pub with_dimensions : ScoringStrategy → Bool → List DimensionDef → ScoringStrategy
with_dimensions strategy extend [] = strategy
with_dimensions strategy extend (d ∷ ds) =
    let parsed = d ∷ ds in
    let names = map (λ e. e.name) parsed in
    record {
      dimensions =
          if extend
          then keep (λ e. not (elem e.name names)) strategy.dimensions ++ parsed
          else parsed;
      agent_context = strategy.agent_context;
    }

abbrev pub given_dimensions : Option (List DimensionDef) → List DimensionDef
given_dimensions none = []
given_dimensions (some ds) = ds

-- `_effective_strategy_for_turn`; the override's dimensions are parsed.
abbrev pub effective_strategy_for_turn :
    ScoringStrategy → Option TurnJudgeOverride → ScoringStrategy
effective_strategy_for_turn strategy none = strategy
effective_strategy_for_turn strategy (some o) =
    with_dimensions strategy o.extend_default_dimensions (given_dimensions o.dimensions)
