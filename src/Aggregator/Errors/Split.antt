-- ===== src/Aggregator/Errors/Split.antt =====
-- The partition that `build_task_quality_split` makes, src/belt/aggregator/stats.py.
use agent_belt.Prelude.{
  ℕ, ◌+◌, ◌-◌, ◌≡◌, refl, sym, ◌∙◌, String, Bool, true, not, ◌&&◌, Option, none, some, List, map,
  arith, keep, elem, all as all_of, all-set_of, all-map, count_if, count_if_ext, length, is_empty,
  Distinct, Distinct-set_of, Distinct-keep, all-keep, elem-keep, count_if-subset, count_if-map,
  count_if-split, count_if-not, Bool-cases, inl, inr, string_eq,
}
use agent_belt.Python.{Python}
use agent_belt.Payloads.{ScenarioScore}
use mathlib.Core.Path.{subst}
use agent_belt.Aggregator.{scenario_key}
use agent_belt.Aggregator.Errors.{
  AgentErrorRow, TaskQuality, is_environmental, blocked_agent, blocked_judge, judge_only,
  is_blocked, build_task_quality_split,
}
use agent_belt.Aggregator.JudgeRows.{JudgeErrorRow}

abbrev pub keys_of : List ScenarioScore → List String
keys_of scores = map scenario_key scores

module _ (keys : List String) where
  abbrev pub agent_within : List AgentErrorRow → Bool
  agent_within rows = all_of (λ r. elem r.scenario keys) rows

  abbrev pub judge_within : List JudgeErrorRow → Bool
  judge_within rows = all_of (λ r. elem r.scenario keys) rows

  all-blocked_agent :
      (rows : List AgentErrorRow)
      → agent_within rows ≡ true
      → all_of (λ k. elem k keys) (blocked_agent rows) ≡ true
  all-blocked_agent rows h =
      let failing = keep is_environmental rows in
      all-set_of (λ k. elem k keys) (map (λ (r : AgentErrorRow). r.scenario) failing)
      ∙ all-map (λ k. elem k keys) (λ (r : AgentErrorRow). r.scenario) failing
      ∙ all-keep is_environmental (λ r. elem r.scenario keys) rows h

  all-blocked_judge :
      (rows : List JudgeErrorRow)
      → judge_within rows ≡ true
      → all_of (λ k. elem k keys) (blocked_judge rows) ≡ true
  all-blocked_judge rows h =
      all-set_of (λ k. elem k keys) (map (λ (r : JudgeErrorRow). r.scenario) rows)
      ∙ all-map (λ k. elem k keys) (λ (r : JudgeErrorRow). r.scenario) rows
      ∙ h

  -- The size of the union of the two axes is the number of blocked scenarios.
  env_failed-eq :
      (agent : List AgentErrorRow) (judge : List JudgeErrorRow)
      → Distinct keys
      → agent_within agent ≡ true
      → judge_within judge ≡ true
      → count_if (is_blocked agent judge) keys
        ≡ length (blocked_agent agent) + length (judge_only agent judge)
  env_failed-eq agent judge d h k =
      let a = blocked_agent agent in
      let j = judge_only agent judge in
      omega (
        arith,
        count_if-subset keys a d (Distinct-set_of _) (all-blocked_agent agent h),
        count_if-subset keys j d
            (Distinct-keep (λ x. not (elem x a)) (blocked_judge judge) (Distinct-set_of _))
            (all-keep (λ x. not (elem x a)) (λ x. elem x keys) (blocked_judge judge)
              (all-blocked_judge judge k)),
        count_if-split (is_blocked agent judge) (λ x. elem x a) keys,
        count_if_ext (λ x. is_blocked agent judge x && elem x a) (λ x. elem x a) (λ x. ground arith)
            keys,
        count_if_ext (λ x. is_blocked agent judge x && not (elem x a)) (λ x. elem x j)
            (λ x. ground (arith, elem-keep (λ y. not (elem y a)) x (blocked_judge judge))) keys,
      )

-- The four figures of the partition, each a count of scenarios.
pub record IsPartition {F : Type 0} (scores : List ScenarioScore) (blocked : String → Bool)
    (q : TaskQuality F) : Type 0 where
  pub all_attempted : q.attempted ≡ length scores
  pub counts_blocked : q.env_failed ≡ count_if (λ s. blocked (scenario_key s)) scores
  pub counts_completed : q.completed ≡ count_if (λ s. not (blocked (scenario_key s))) scores
  pub counts_passed :
      q.passed ≡ count_if (λ s. not (blocked (scenario_key s)) && s.overall_pass) scores
  pub counts_task_failed :
      q.task_failed ≡ count_if (λ s. not (blocked (scenario_key s)) && not s.overall_pass) scores

-- What the body computes, when there is a partition.
abbrev Figured : {F : Type 0} → ℕ → ℕ → ℕ → Option (TaskQuality F) → Type 0
Figured total failed good none = Unit
Figured total failed good (some q) =
    (q.attempted ≡ total)
    × (q.env_failed ≡ failed)
    × (q.completed ≡ total - failed)
    × (q.passed ≡ good)
    × (q.task_failed ≡ (total - failed) - good)

split-Figured :
    (py : Python) (scores : List ScenarioScore) (agent : List AgentErrorRow)
    (judge : List JudgeErrorRow)
    → Figured
        (length scores)
        (length (blocked_agent agent) + length (judge_only agent judge))
        (count_if (λ s. s.overall_pass && not (is_blocked agent judge (scenario_key s))) scores)
        (build_task_quality_split py scores agent judge)
unfolding build_task_quality_split
split-Figured py scores agent judge =
    elim (Bool-cases (is_empty (blocked_agent agent) && is_empty (blocked_judge judge))) [
      | inl n ↦ rw (Figured, n) tt
      | inr n ↦ rw (Figured, n) (refl, refl, refl, refl, refl)
    ]

pub split-IsPartition :
    (py : Python) (scores : List ScenarioScore) (agent : List AgentErrorRow)
    (judge : List JudgeErrorRow) (q : TaskQuality py.Float)
    → Distinct (keys_of scores)
    → agent_within (keys_of scores) agent ≡ true
    → judge_within (keys_of scores) judge ≡ true
    → build_task_quality_split py scores agent judge ≡ some q
    → IsPartition scores (is_blocked agent judge) q
split-IsPartition py scores agent judge q d h k e =
    let b : ScenarioScore → Bool = λ s. is_blocked agent judge (scenario_key s) in
    let (attempted, failed, completed, passed, task_failed) =
      subst (Figured _ _ _) e (split-Figured py scores agent judge) in
    let union : count_if b scores ≡ length (blocked_agent agent) + length (judge_only agent judge) =
      sym (count_if-map (is_blocked agent judge) scenario_key scores)
      ∙ env_failed-eq (keys_of scores) agent judge d h k in
    let others = count_if-not b scores in
    let split = count_if-split (λ s. not (b s)) (λ s. s.overall_pass) scores in
    let swap =
      count_if_ext (λ s. s.overall_pass && not (b s)) (λ s. not (b s) && s.overall_pass)
        (λ s. ground arith) scores in
    record {
      all_attempted = attempted;
      counts_blocked = failed ∙ sym union;
      counts_completed = omega (arith, completed, union, others);
      counts_passed = passed ∙ swap;
      counts_task_failed = omega (arith, task_failed, union, others, split, swap);
    }
