-- ===== src/Pipeline.antt =====
-- `score_scenario` of src/belt/scorer/pipeline.py: the outputs of a scenario's turns, every scorer
-- on them, and the score of the scenario.
pub mod Outputs
pub mod Verdict
pub mod Failing
pub mod Reported
pub mod Shown
pub mod Surfaced
pub mod Stopped
pub mod Preflight
use agent_belt.Prelude.{
  ℕ, zero, suc, String, Bool, true, false, not, ◌&&◌, Option, none, some, List, [], ◌∷◌, ◌++◌, keep,
  any as any_of, is_empty, Dict, get, put, concat, or_else, if◌then◌else◌, ◌==◌, string_eq,
}
use agent_belt.Entities.{TurnOutput, blank_output}
use agent_belt.Payloads.{
  CheckEntry, RulesPayload, ScorerPayload, rules, llm, per_turn, plugin, ScenarioScore,
  JudgeErrorType, other,
}
use agent_belt.Consensus.Votes.{error_token}
use agent_belt.Runner.Session.{Attempt, done, raised}

-- The files of a turn: its output and its CLI output, if they exist, and its state, if it exists.
-- An output that cannot be parsed, or has another schema, raises.
pub record TurnFiles (F : Type 0) : Type 0 where
  pub output : Option (Attempt (TurnOutput F))
  pub cli : Option (Attempt String)
  pub state : Option (Attempt String)

-- `ScorerResult`, as the pipeline reads it; `payload` is its `data`.
pub record ScorerResult : Type 0 where
  pub passed : Bool
  pub payload : ScorerPayload

-- `BaseScorer`, for the scenario that is scored.
pub record Scorer (F : Type 0) : Type 0 where
  pub name : String
  pub score : List (TurnOutput F) → Attempt (Option ScorerResult)

-- The scenario of an outcome directory, with the files of each of its turns.
pub data Loaded (F : Type 0) : Type 0 where
  found : List (TurnFiles F) → Loaded F
  not_found : (path : String) → Loaded F
  invalid : (error : String) → Loaded F

-- The variables of the loop over the scorers.
pub record Scoring : Type 0 where
  pub all_scores : Dict String ScorerPayload
  pub missing_checks : List CheckEntry
  pub overall_pass : Bool

-- A failed check of the execution.
abbrev pub execution_check : (check details : String) → CheckEntry
execution_check check details = record {
  dimension = "execution";
  check = check;
  passed = some false;
  details = details;
  turn_idx = none;
}

abbrev pub failed_rules : List CheckEntry → ScorerPayload
failed_rules checks = rules (record { checks = checks; passed = false })

-- What is loaded of a turn: an output, or a check that says why there is none.
pub data TurnLoad (F : Type 0) : Type 0 where
  turn_output : TurnOutput F → TurnLoad F
  missing_check : CheckEntry → TurnLoad F

abbrev pub state_text : Option (Attempt String) → Option String
state_text (some (done text)) = some text
state_text _ = none

abbrev pub turn_name : (str_nat : ℕ → String) → ℕ → (what : String) → String
turn_name str_nat i what = concat ("turn_" ∷ str_nat i ∷ what ∷ [])

abbrev pub from_cli :
    {F : Type 0} (str_nat : ℕ → String) → ℕ → TurnFiles F → Option (Attempt String) → TurnLoad F
from_cli str_nat i files none =
    missing_check (execution_check (turn_name str_nat i "_exists") "file missing")
from_cli str_nat i files (some (raised e)) =
    missing_check (execution_check (turn_name str_nat i "_readable") e)
from_cli str_nat i files (some (done text)) =
    turn_output (record blank_output { raw_cli = text; raw_state = state_text files.state })

-- An output that is missing or cannot be parsed falls back to the raw files.
abbrev pub load_turn :
    {F : Type 0} (str_nat : ℕ → String)
    → ℕ
    → TurnFiles F
    → Option (Attempt (TurnOutput F))
    → TurnLoad F
load_turn str_nat i files (some (done o)) = turn_output o
load_turn str_nat i files _ = from_cli str_nat i files files.cli

abbrev pub add_load :
    {F : Type 0}
    → TurnLoad F
    → List (TurnOutput F) × List CheckEntry
    → List (TurnOutput F) × List CheckEntry
add_load (turn_output o) (outputs, missing) = (o ∷ outputs, missing)
add_load (missing_check c) (outputs, missing) = (outputs, c ∷ missing)

-- The outputs of the turns from turn `i` on, and the checks for those without one.
unfoldable pub load_turns :
    {F : Type 0} (str_nat : ℕ → String)
    → ℕ
    → List (TurnFiles F)
    → List (TurnOutput F) × List CheckEntry
load_turns str_nat i [] = ([], [])
load_turns str_nat i (files ∷ rest) =
    add_load (load_turn str_nat i files files.output) (load_turns str_nat (suc i) rest)

abbrev pub error_if : Bool → Option JudgeErrorType → Option JudgeErrorType
error_if errored e = if errored then some (or_else e other) else none

-- The error of a judge's payload that is no verdict.
abbrev pub judge_error : ScorerPayload → Option JudgeErrorType
judge_error (llm p) = error_if p.judge_errored p.judge_error_type
judge_error (per_turn p) = error_if p.judge_errored p.judge_error_type
judge_error _ = none

abbrev pub scorer_check : String → (details : List String) → CheckEntry
scorer_check name details =
    execution_check (concat (name ∷ "_scorer_ran" ∷ [])) (concat (name ∷ details))

-- The check for a payload that is no verdict.
abbrev pub infra_checks : String → Option JudgeErrorType → List CheckEntry
infra_checks name none = []
infra_checks name (some e) =
    scorer_check name (" scorer judge-infra failure: " ∷ error_token e ∷ []) ∷ []

-- The payload of the rules with the missing checks before its own; `none` is the AssertionError.
abbrev pub prepend : List CheckEntry → ScorerPayload → Option ScorerResult
prepend missing (rules p) =
    some (record { passed = false; payload = failed_rules (missing ++ p.checks) })
prepend missing _ = none

abbrev pub stored : String → Scoring → Option ScorerResult → Option Scoring
stored name m none = none
stored name m (some r) = some (record m {
  all_scores = put name r.payload m.all_scores;
  overall_pass = m.overall_pass && r.passed;
})

abbrev pub add_result : String → ScorerResult → Scoring → Option Scoring
add_result name r m = stored name m (
    if name == "rules" && not (is_empty m.missing_checks)
    then prepend m.missing_checks r.payload
    else some r)

-- The body of the loop, of what the scorer gave.
abbrev pub after_score : String → Attempt (Option ScorerResult) → Scoring → Option Scoring
after_score name (raised e) m = some (record m {
  missing_checks = m.missing_checks ++ scorer_check name (" scorer failed: " ∷ e ∷ []) ∷ [];
  overall_pass = false;
})
after_score name (done none) m = some m
after_score name (done (some r)) m =
    add_result name r
      (record m { missing_checks = m.missing_checks ++ infra_checks name (judge_error r.payload) })

abbrev pub then_score : Option Scoring → (Scoring → Option Scoring) → Option Scoring
then_score none next = none
then_score (some m) next = next m

-- The loop over the scorers; `none` is an AssertionError.
unfoldable pub run_scorers :
    {F : Type 0} → List (Scorer F) → List (TurnOutput F) → Scoring → Option Scoring
run_scorers [] outputs m = some m
run_scorers (s ∷ ss) outputs m =
    then_score (after_score s.name (s.score outputs) m) (λ m'. run_scorers ss outputs m')

abbrev pub same_key : CheckEntry → CheckEntry → Bool
same_key a b = a.check == b.check && (a.dimension == b.dimension && a.details == b.details)

abbrev pub extras : List CheckEntry → List CheckEntry → List CheckEntry
extras missing existing = keep (λ c. not (any_of (same_key c) existing)) missing

-- The scores with the missing checks in the payload of the rules.
abbrev pub with_missing :
    List CheckEntry → Option ScorerPayload → Dict String ScorerPayload → Dict String ScorerPayload
with_missing missing (some (rules p)) scores =
    if is_empty (extras missing p.checks)
    then scores
    else put "rules" (failed_rules (p.checks ++ extras missing p.checks)) scores
with_missing missing _ scores = put "rules" (failed_rules missing) scores

abbrev pub score_of :
    (scenario_name group : String) → Dict String ScorerPayload → Bool → ScenarioScore
score_of scenario_name group scores overall_pass = record {
  scenario_name = scenario_name;
  group = group;
  scores = scores;
  overall_pass = overall_pass;
}

-- What follows the loop.
abbrev pub finish : (scenario_name group : String) → Scoring → ScenarioScore
finish scenario_name group m =
    if is_empty m.missing_checks
    then score_of scenario_name group m.all_scores m.overall_pass
    else score_of scenario_name group
        (with_missing m.missing_checks (get "rules" m.all_scores) m.all_scores) false

abbrev pub finished : (scenario_name group : String) → Option Scoring → Option ScenarioScore
finished scenario_name group none = none
finished scenario_name group (some m) = some (finish scenario_name group m)

abbrev pub first_scoring : List CheckEntry → Scoring
first_scoring missing = record { all_scores = []; missing_checks = missing; overall_pass = true }

abbrev pub rejected : (scenario_name group check details : String) → ScenarioScore
rejected scenario_name group check details =
    score_of scenario_name group (("rules", failed_rules (execution_check check details ∷ [])) ∷ [])
      false

-- `score_scenario`; `none` is an AssertionError.
unfoldable pub score_scenario :
    {F : Type 0} (str_nat : ℕ → String) (scenario_name group : String)
    → Loaded F
    → List (Scorer F)
    → Option ScenarioScore
score_scenario str_nat scenario_name group (found files) scorers =
    let (outputs, missing) = load_turns str_nat 0 files in
    finished scenario_name group (run_scorers scorers outputs (first_scoring missing))
score_scenario str_nat scenario_name group (not_found path) scorers =
    some (rejected scenario_name group "scenario_exists" path)
score_scenario str_nat scenario_name group (invalid error) scorers =
    some (rejected scenario_name group "scenario_valid" error)
