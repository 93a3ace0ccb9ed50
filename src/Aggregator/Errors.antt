-- ===== src/Aggregator/Errors.antt =====
-- `collect_judge_errors`, `collect_agent_errors` and `build_task_quality_split` of
-- src/belt/aggregator/stats.py: which scenarios failed for reasons other than the task.
pub mod Split
pub mod Collected
pub mod Judges
use agent_belt.Prelude.{
  ℕ, zero, suc, ◌+◌, ◌-◌, ◌≡◌, String, Bool, true, false, not, ◌&&◌, ◌||◌, Option, none, some, List,
  [], ◌∷◌, ◌++◌, map, any as any_of, keep, elem, count_if, length, is_empty, is_some, or_else, Dict,
  keys, tally, add, set_of, sort_by, str_le, ltb, if◌then◌else◌, ◌==◌, string_eq,
}
use agent_belt.Python.{Python}
use agent_belt.Entities.{TurnOutput}
use agent_belt.ErrorTypes.{environmental_error_types, unknown, remediation_for}
use agent_belt.Payloads.{ScenarioScore, JudgeErrorType, other}
use agent_belt.Payloads.Rows.{LlmShaped, scenario_level, turn_level, iter_llm_payloads}
use agent_belt.Consensus.Votes.{error_token, error_eq}
use agent_belt.Aggregator.{scenario_key}
use agent_belt.Aggregator.JudgeRows.{
  JudgeErrorRow, JudgeErrors, before, collect_judge_errors, commoner, earlier, first_error,
  judge_row, judge_rows, payload_error_type, payload_errored,
}

pub record AgentErrorRow : Type 0 where
  pub scenario : String
  pub passed : Bool
  pub vacuous_pass : Bool
  pub error_types : List String
  pub first_reply_text : Option String

-- `pct` is a float, here an argument of the record.
pub record TaskQuality (F : Type 0) : Type 0 where
  pub attempted : ℕ
  pub env_failed : ℕ
  pub env_failed_agent : ℕ
  pub env_failed_judge : ℕ
  pub completed : ℕ
  pub passed : ℕ
  pub task_failed : ℕ
  pub pct : Option F

abbrev pub is_environmental : AgentErrorRow → Bool
is_environmental row = any_of (λ t. elem t environmental_error_types) row.error_types

abbrev pub blocked_agent : List AgentErrorRow → List String
blocked_agent rows = set_of (map (λ r. r.scenario) (keep is_environmental rows))

abbrev pub blocked_judge : List JudgeErrorRow → List String
blocked_judge rows = set_of (map (λ r. r.scenario) rows)

-- `env_blocked_judge - env_blocked_agent`
abbrev pub judge_only : List AgentErrorRow → List JudgeErrorRow → List String
judge_only agent judge = keep (λ k. not (elem k (blocked_agent agent))) (blocked_judge judge)

abbrev pub is_blocked : List AgentErrorRow → List JudgeErrorRow → String → Bool
is_blocked agent judge key = elem key (blocked_agent agent) || elem key (blocked_judge judge)

module _ (py : Python) where
  open py use {Float}

  -- Every blocked scenario is one of the scores, so that no subtraction goes below zero.
  unfoldable pub build_task_quality_split :
      List ScenarioScore → List AgentErrorRow → List JudgeErrorRow → Option (TaskQuality Float)
  build_task_quality_split scores agent judge =
      let env_failed_agent = length (blocked_agent agent) in
      let env_failed_judge = length (judge_only agent judge) in
      let env_failed = env_failed_agent + env_failed_judge in
      let completed = length scores - env_failed in
      let passed =
        count_if (λ s. s.overall_pass && not (is_blocked agent judge (scenario_key s))) scores in
      if is_empty (blocked_agent agent) && is_empty (blocked_judge judge)
      then none
      else some (record {
        attempted = length scores;
        env_failed = env_failed;
        env_failed_agent = env_failed_agent;
        env_failed_judge = env_failed_judge;
        completed = completed;
        passed = passed;
        task_failed = completed - passed;
        pct =
            if ltb 0 completed
            then some
                (py.round (py.div (py.mul (py.of_ℕ 100) (py.of_ℕ passed)) (py.of_ℕ completed)) 1)
            else none;
      })

  pub record AgentErrors : Type 0 where
    pub scenarios_with_errors : ℕ
    pub scenarios_total : ℕ
    pub vacuous_passes : ℕ
    pub by_error_type : Dict String ℕ
    pub per_scenario : List AgentErrorRow
    pub task_quality : Option (TaskQuality Float)
    pub remediation : Option String

  -- `o.error_type or UNKNOWN`
  abbrev pub type_or_unknown : Option String → String
  type_or_unknown none = unknown
  type_or_unknown (some t) = if t == "" then unknown else t

  -- `has_error` is set and true.
  abbrev pub errored : TurnOutput Float → Bool
  errored o = or_else o.has_error false

  abbrev pub errors_in : List (TurnOutput Float) → List String
  errors_in outputs = map (λ o. type_or_unknown o.error_type) (keep errored outputs)

  -- The first line of the first reply that is not blank; `first_line` is
  -- `text.strip().splitlines()[0]`.
  unfoldable pub first_reply : (String → String) → List (TurnOutput Float) → Option String
  first_reply first_line [] = none
  first_reply first_line (o ∷ outputs) =
      if o.reply_text == "" || py.strip o.reply_text == ""
      then first_reply first_line outputs
      else some (first_line o.reply_text)

  abbrev pub agent_row :
      (String → String) → ScenarioScore → List (TurnOutput Float) → List AgentErrorRow
  agent_row first_line s outputs =
      let failing = keep errored outputs in
      if is_empty failing
      then []
      else record {
        scenario = scenario_key s;
        passed = s.overall_pass;
        vacuous_pass = s.overall_pass;
        error_types = errors_in outputs;
        first_reply_text = first_reply first_line failing;
      }
        ∷ []

  -- `outputs_of` reads the turn outputs of a scenario's folder, if there is one.
  unfoldable pub agent_rows :
      (String → String)
      → (ScenarioScore → Option (List (TurnOutput Float)))
      → List ScenarioScore
      → List AgentErrorRow
  unfolding first_reply
  agent_rows first_line outputs_of [] = []
  agent_rows first_line outputs_of (s ∷ scores) =
      agent_row first_line s (or_else (outputs_of s) []) ++ agent_rows first_line outputs_of scores

  abbrev pub types_in : List AgentErrorRow → List String
  types_in [] = []
  types_in (r ∷ rows) = r.error_types ++ types_in rows

  unfoldable pub first_hint : Option String → List String → Option String
  first_hint agent_name [] = none
  first_hint agent_name (t ∷ types) =
      let rest = first_hint agent_name types in
      elim (remediation_for t agent_name) [ none ↦ rest | some hint ↦ some hint ]

  abbrev pub hint_for : Option String → List String → Option String
  hint_for none types = none
  hint_for (some name) types = if name == "" then none else first_hint (some name) types

  abbrev pub judge_scenarios : Option JudgeErrors → List JudgeErrorRow
  judge_scenarios none = []
  judge_scenarios (some e) = e.per_scenario

  -- The block that only carries the partition: the code leaves the other keys out.
  abbrev pub split_only : Option (TaskQuality Float) → Option AgentErrors
  split_only none = none
  split_only (some split) = some (record {
    scenarios_with_errors = 0;
    scenarios_total = 0;
    vacuous_passes = 0;
    by_error_type = [];
    per_scenario = [];
    task_quality = some split;
    remediation = none;
  })

  unfoldable pub collect_agent_errors :
      (String → String)
      → (ScenarioScore → Option (List (TurnOutput Float)))
      → List ScenarioScore
      → Option String
      → Option JudgeErrors
      → Option AgentErrors
  unfolding agent_rows build_task_quality_split first_hint
  collect_agent_errors first_line outputs_of scores agent_name judge_errors =
      let rows = agent_rows first_line outputs_of scores in
      let judge = judge_scenarios judge_errors in
      let split = build_task_quality_split scores rows judge in
      let by_type = sort_by (commoner (λ t. t)) (tally (types_in rows)) in
      if is_empty rows
      then (if is_empty judge then none else split_only split)
      else some (record {
        scenarios_with_errors = length rows;
        scenarios_total = length scores;
        vacuous_passes = count_if (λ r. r.vacuous_pass) rows;
        by_error_type = by_type;
        per_scenario = rows;
        task_quality = split;
        remediation = hint_for agent_name (keys by_type);
      })
