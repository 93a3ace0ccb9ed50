-- ===== src/Aggregator/Errors/Collected.antt =====
-- The partition of a whole run in `collect_agent_errors`, src/belt/aggregator/stats.py.
use agent_belt.Prelude.{
  ◌≡◌, refl, sym, ◌∙◌, ap, String, true, Option, none, some, List, [], ◌∷◌, arith, elem,
  all as all_of, all-append, all-map, all-elem_self, is_empty, or_else, Distinct, Bool-cases, inl,
  inr, string_eq,
}
use agent_belt.Python.{Python}
use agent_belt.Entities.{TurnOutput}
use agent_belt.Payloads.{ScenarioScore, JudgeErrorType}
use agent_belt.Payloads.Rows.{iter_llm_payloads}
use mathlib.Core.Path.{subst}
use agent_belt.Aggregator.{scenario_key}
use agent_belt.Aggregator.Errors.{
  judge_scenarios, split_only, AgentErrorRow, TaskQuality, AgentErrors, is_blocked,
  build_task_quality_split, agent_rows, agent_row, collect_agent_errors,
}
use agent_belt.Aggregator.JudgeRows.{
  JudgeErrorRow, JudgeErrors, first_error, judge_rows, judge_row, collect_judge_errors,
}
use agent_belt.Aggregator.Errors.Split.{
  keys_of, agent_within, judge_within, IsPartition, split-IsPartition,
}

agent_row-within :
    (py : Python) (first_line : String → String) (keys : List String) (s : ScenarioScore)
    (outputs : List (TurnOutput py.Float))
    → elem (scenario_key s) keys ≡ true
    → agent_within keys (agent_row py first_line s outputs) ≡ true
agent_row-within py first_line keys s outputs h = ground (arith, h)

agent_rows-within :
    (py : Python) (first_line : String → String)
    (outputs_of : ScenarioScore → Option (List (TurnOutput py.Float))) (keys : List String)
    (scores : List ScenarioScore)
    → all_of (λ s. elem (scenario_key s) keys) scores ≡ true
    → agent_within keys (agent_rows py first_line outputs_of scores) ≡ true
unfolding agent_rows
agent_rows-within py first_line outputs_of keys [] h = refl
agent_rows-within py first_line outputs_of keys (s ∷ scores) h =
    all-append (λ (r : AgentErrorRow). elem r.scenario keys)
      (agent_row py first_line s (or_else (outputs_of s) []))
      (agent_rows py first_line outputs_of scores)
    ∙ ground (
      arith,
      agent_row-within py first_line keys s (or_else (outputs_of s) []),
      agent_rows-within py first_line outputs_of keys scores,
    )

judge_row-within :
    (keys : List String) (s : ScenarioScore) (o : Option JudgeErrorType)
    → elem (scenario_key s) keys ≡ true
    → judge_within keys (judge_row s o) ≡ true
judge_row-within keys s none h = refl
judge_row-within keys s (some e) h = ground (arith, h)

judge_rows-within :
    (keys : List String) (scores : List ScenarioScore)
    → all_of (λ s. elem (scenario_key s) keys) scores ≡ true
    → judge_within keys (judge_rows scores) ≡ true
unfolding judge_rows
judge_rows-within keys [] h = refl
judge_rows-within keys (s ∷ scores) h =
    let row = judge_row s (first_error none (iter_llm_payloads s.scores)) in
    all-append (λ (r : JudgeErrorRow). elem r.scenario keys) row (judge_rows scores)
    ∙ ground (
      arith,
      h,
      judge_row-within keys s (first_error none (iter_llm_payloads s.scores)),
      judge_rows-within keys scores,
    )

judge_scenarios-collected :
    (py : Python) (scores : List ScenarioScore)
    → judge_scenarios py (collect_judge_errors scores) ≡ judge_rows scores
unfolding collect_judge_errors
judge_scenarios-collected py scores = elim (Bool-cases (is_empty (judge_rows scores))) [
  | inl n ↦ rw (judge_scenarios, n) (sym (nil_of_empty (judge_rows scores) n))
  | inr n ↦ rw (judge_scenarios, n) refl
]
  where
    nil_of_empty : (rows : List JudgeErrorRow) → is_empty rows ≡ true → rows ≡ []
    nil_of_empty [] h = refl
    nil_of_empty (r ∷ rows) h = cc

abbrev Splits : (py : Python) → Option (TaskQuality py.Float) → Option (AgentErrors py) → Type 0
Splits py split none = Unit
Splits py split (some e) = e.task_quality ≡ split

split_only-Splits :
    (py : Python) (split : Option (TaskQuality py.Float)) → Splits py split (split_only py split)
split_only-Splits py none = tt
split_only-Splits py (some q) = refl

collect-Splits :
    (py : Python) (first_line : String → String)
    (outputs_of : ScenarioScore → Option (List (TurnOutput py.Float))) (scores : List ScenarioScore)
    (agent_name : Option String) (judge : Option JudgeErrors)
    → Splits py
        (build_task_quality_split py scores
          (agent_rows py first_line outputs_of scores)
          (judge_scenarios py judge))
        (collect_agent_errors py first_line outputs_of scores agent_name judge)
unfolding collect_agent_errors
collect-Splits py first_line outputs_of scores agent_name judge =
    elim (Bool-cases (is_empty (agent_rows py first_line outputs_of scores))) [
      | inl n ↦ elim (Bool-cases (is_empty (judge_scenarios py judge))) [
        | inl m ↦ rw (Splits, n, m) tt
        | inr m ↦ rw (Splits, n, m) (split_only-Splits py _)
      ]
      | inr n ↦ rw (Splits, n) refl
    ]

-- The task-quality split of a run whose scenarios have distinct keys is a partition, though the
-- code gets it by subtracting: the blocked scenarios (by an environmental error of the agent or by
-- an error of a judge, one that is both counting once) and the completed ones make up the run, and
-- of the completed ones those that pass and those that do not are counted exactly. A pass of a
-- blocked scenario is never counted.
pub collect_agent_errors-IsPartition :
    (py : Python) (first_line : String → String)
    (outputs_of : ScenarioScore → Option (List (TurnOutput py.Float))) (scores : List ScenarioScore)
    (agent_name : Option String) (e : AgentErrors py) (q : TaskQuality py.Float)
    → Distinct (keys_of scores)
    → collect_agent_errors py first_line outputs_of scores agent_name (collect_judge_errors scores)
      ≡ some e
    → e.task_quality ≡ some q
    → IsPartition scores
        (is_blocked (agent_rows py first_line outputs_of scores) (judge_rows scores))
        q
collect_agent_errors-IsPartition py first_line outputs_of scores agent_name e q d h k =
    let agent = agent_rows py first_line outputs_of scores in
    let judge = judge_rows scores in
    let within : all_of (λ s. elem (scenario_key s) (keys_of scores)) scores ≡ true =
      sym (all-map (λ x. elem x (keys_of scores)) scenario_key scores)
      ∙ all-elem_self (keys_of scores) in
    split-IsPartition py scores agent judge q d
      (agent_rows-within py first_line outputs_of (keys_of scores) scores within)
      (judge_rows-within (keys_of scores) scores within)
      (ap (build_task_quality_split py scores agent) (sym (judge_scenarios-collected py scores))
        ∙ sym (
            subst (Splits py _) h (
              collect-Splits py first_line outputs_of scores agent_name
                (collect_judge_errors scores)))
        ∙ k)
