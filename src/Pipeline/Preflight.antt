-- ===== src/Pipeline/Preflight.antt =====
-- `validate_per_turn_judges_against_scenarios` of src/belt/scorer/pipeline.py: before a run, each
-- judge that works turn by turn must have a turn to judge in each scenario.
pub mod Accepted
pub mod Votes
use agent_belt.Prelude.{
  ℕ, zero, suc, String, Bool, true, false, not, ◌&&◌, Option, none, some, List, [], ◌∷◌, ◌++◌, map,
  keep, length, get_elem?, elem, is_empty, ltb, Dict, get, keys, if◌then◌else◌, ◌==◌, string_eq,
  nat_eq,
}
use agent_belt.Consensus.Score.{Resolution, turn, same_resolution}
use agent_belt.Judge.Dimensions.{TurnJudgeOverride}

-- An `LLMScorer`, by its name and resolution.
pub record LlmJudge : Type 0 where
  pub judge_name : String
  pub resolution : Resolution

pub data BuiltScorer : Type 0 where
  single : LlmJudge → BuiltScorer
  consensus : List LlmJudge → BuiltScorer
  not_llm : BuiltScorer

abbrev pub turn_judges : List LlmJudge → List LlmJudge
turn_judges = keep (λ j. same_resolution j.resolution turn)

-- `_iter_per_turn_judges`
abbrev pub iter_per_turn_judges : List BuiltScorer → List LlmJudge
iter_per_turn_judges [] = []
iter_per_turn_judges (single j ∷ ss) = turn_judges (j ∷ []) ++ iter_per_turn_judges ss
iter_per_turn_judges (consensus js ∷ ss) = turn_judges js ++ iter_per_turn_judges ss
iter_per_turn_judges (not_llm ∷ ss) = iter_per_turn_judges ss

-- A scenario, by its name and the `llm_judges` of its turns.
pub record JudgedScenario : Type 0 where
  pub name : String
  pub turns : List (Dict String TurnJudgeOverride)

pub data PreflightError : Type 0 where
  unknown_judge : (scenario_name : String) → (turn_idx : ℕ) → (judge_name : String) → PreflightError
  never_votes : (scenario_name judge_name : String) → PreflightError

-- The names in a turn that no judge has.
abbrev pub unknown_in :
    String → ℕ → (declared : List String) → Dict String TurnJudgeOverride → List PreflightError
unknown_in scenario_name i declared overrides =
    map (λ j. unknown_judge scenario_name i j) (keep (λ j. not (elem j declared)) (keys overrides))

abbrev pub unknown_judges :
    String
    → ℕ
    → (declared : List String) → List (Dict String TurnJudgeOverride)
    → List PreflightError
unknown_judges scenario_name i declared [] = []
unknown_judges scenario_name i declared (o ∷ os) =
    unknown_in scenario_name i declared o ++ unknown_judges scenario_name (suc i) declared os

pub record Counts : Type 0 where
  pub mentions : ℕ
  pub skips : ℕ

abbrev pub count_turn : Option TurnJudgeOverride → Counts → Counts
count_turn none c = c
count_turn (some o) c = record {
  mentions = suc c.mentions;
  skips = if o.skip then suc c.skips else c.skips;
}

abbrev pub count_turns : String → List (Dict String TurnJudgeOverride) → Counts → Counts
count_turns judge_name [] c = c
count_turns judge_name (o ∷ os) c = count_turns judge_name os (count_turn (get judge_name o) c)

abbrev pub none_counted : Counts
none_counted = record { mentions = 0; skips = 0 }

abbrev pub skips_all : Counts → (n_turns : ℕ) → Bool
skips_all c n_turns = ltb 0 c.mentions && (c.skips == c.mentions && c.mentions == n_turns)

abbrev pub never_voting : JudgedScenario → String → List PreflightError
never_voting s judge_name =
    if is_empty s.turns
    then []
    else (if skips_all (count_turns judge_name s.turns none_counted) (length s.turns)
        then never_votes s.name judge_name ∷ []
        else [])

abbrev pub silent_judges : JudgedScenario → List LlmJudge → List PreflightError
silent_judges s [] = []
silent_judges s (j ∷ js) = never_voting s j.judge_name ++ silent_judges s js

abbrev pub scenario_errors : List LlmJudge → JudgedScenario → List PreflightError
scenario_errors judges s =
    unknown_judges s.name 0 (map (λ j. j.judge_name) judges) s.turns ++ silent_judges s judges

abbrev pub all_errors : List LlmJudge → List JudgedScenario → List PreflightError
all_errors judges [] = []
all_errors judges (s ∷ ss) = scenario_errors judges s ++ all_errors judges ss

-- `validate_per_turn_judges_against_scenarios`: the errors of the ConfigError, if there is one.
unfoldable pub validate_per_turn_judges :
    List BuiltScorer → List JudgedScenario → List PreflightError
validate_per_turn_judges scorers scenarios =
    let judges = iter_per_turn_judges scorers in
    if is_empty judges then [] else all_errors judges scenarios

abbrev pub override_in : String → Option (Dict String TurnJudgeOverride) → Option TurnJudgeOverride
override_in judge_name none = none
override_in judge_name (some o) = get judge_name o

-- `_resolve_per_turn_override` of `LLMScorer`
abbrev pub resolve_per_turn_override :
    String → List (Dict String TurnJudgeOverride) → ℕ → Option TurnJudgeOverride
resolve_per_turn_override judge_name turns i = override_in judge_name (get_elem? turns i)
