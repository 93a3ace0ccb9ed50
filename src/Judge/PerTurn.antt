-- ===== src/Judge/PerTurn.antt =====
-- `score` of src/belt/scorer/llm/scorer.py, on whole scenarios (`_score_scenario`) and turn by turn
-- (`_score_per_turn`).
pub mod Tallied
pub mod Verdicts
use agent_belt.Prelude.{
  ℕ, zero, suc, ◌+◌, String, Bool, true, false, not, ◌&&◌, ◌||◌, Option, none, some, List, [], ◌∷◌,
  ◌++◌, take, get_elem?, length, any as any_of, elem, Dict, or_else, ltb, if◌then◌else◌, ◌==◌,
  string_eq, is_empty,
}
use agent_belt.Levels.{default_fail_levels, level_eq}
use agent_belt.Payloads.{
  LlmDimensionVerdict, LlmPayload, UsageStats, TurnVerdict, PerTurnLlmPayload, JudgeErrorType,
  other, all_turns_skipped,
}
use agent_belt.Consensus.PerTurn.{fails}
use agent_belt.Judge.Call.{Outcome, answered, infra_error, fatal, crashed}
use agent_belt.Judge.Dimensions.{ScoringStrategy, TurnJudgeOverride, effective_strategy_for_turn}
use agent_belt.Judge.Tally.{
  EvidenceScope, JudgeVerdict, Question, Scored, Tally, completion_of, conclude, cumulative,
  error_turn, errored_turn, first_tally, has_fail_level, isolated, judge_errored_payload,
  merged_usage, overall_pass_of, prompt_of, raised_fatal, raised_other, scored, skip_turn,
  skipped_turn, some_first, turn_verdict_from, verdict_to_payload, vote_turn,
}

-- `instruction_override`: an empty instruction is none.
abbrev pub instruction_of : Option String → Option String
instruction_of none = none
instruction_of (some s) = if s == "" then none else some s

abbrev pub override_instruction : Option TurnJudgeOverride → Option String
override_instruction none = none
override_instruction (some o) = instruction_of o.instruction

abbrev pub override_files : Option TurnJudgeOverride → Option (List String)
override_files none = none
override_files (some o) = o.evidence_files

abbrev pub is_skipped : Option TurnJudgeOverride → Bool
is_skipped none = false
is_skipped (some o) = o.skip

abbrev pub one : {T : Type 0} → Option T → List T
one none = []
one (some t) = t ∷ []

-- `_select_turn_window`
abbrev pub select_turn_window : {T : Type 0} → EvidenceScope → List T → ℕ → ℕ × List T
select_turn_window cumulative turns i = (0, take (suc i) turns)
select_turn_window isolated turns i = (i, one (get_elem? turns i))

-- `ask` is `_call_api` after the messages are built, `override_at` is
-- `scenario.turns[i].llm_judges.get(judge_name)`, and none beyond the turns of the scenario.
module _ {S T : Type 0} (ask : Question T → S → Outcome JudgeVerdict UsageStats × S)
    (strategy : ScoringStrategy) where
  abbrev pub payload_from : Outcome JudgeVerdict UsageStats → Scored LlmPayload
  payload_from (answered (some v) usage) = scored (verdict_to_payload v usage)
  payload_from (answered none usage) = scored (judge_errored_payload other)
  payload_from (infra_error e) = scored (judge_errored_payload e)
  payload_from fatal = raised_fatal
  payload_from crashed = raised_other

  -- `_score_scenario`
  abbrev pub score_scenario : List T → S → Scored LlmPayload × S
  score_scenario turns s =
      let (outcome, s') =
        ask
          (record {
            strategy = strategy;
            start_idx = 0;
            turns = turns;
            instruction = none;
            evidence_files = none;
          })
          s in
      (payload_from outcome, s')

  module _ (scope : EvidenceScope) (override_at : ℕ → Option TurnJudgeOverride)
      (turn_outputs : List T) where
    abbrev pub question_at : ℕ → Option TurnJudgeOverride → Question T
    question_at i o =
        let (start, window) = select_turn_window scope turn_outputs i in
        record {
          strategy = effective_strategy_for_turn strategy o;
          start_idx = start;
          turns = window;
          instruction = override_instruction o;
          evidence_files = override_files o;
        }

    abbrev pub after_ask : ℕ → Tally → Outcome JudgeVerdict UsageStats × S → Scored Tally × S
    after_ask i t (answered (some v) usage, s) = (scored (vote_turn i v usage t), s)
    after_ask i t (answered none usage, s) = (scored (error_turn i other t), s)
    after_ask i t (infra_error e, s) = (scored (error_turn i e t), s)
    after_ask i t (fatal, s) = (raised_fatal, s)
    after_ask i t (crashed, s) = (raised_other, s)

    unfoldable pub judge_turn : ℕ → Option TurnJudgeOverride → Tally → S → Scored Tally × S
    judge_turn i o t s =
        if is_skipped o
        then (scored (skip_turn i t), s)
        else after_ask i t (ask (question_at i o) s)

    -- Goes on after a turn, unless it raised.
    abbrev pub continue_with : Scored Tally × S → (Tally → S → Scored Tally × S) → Scored Tally × S
    continue_with (scored t, s) next = next t s
    continue_with (raised_fatal, s) next = (raised_fatal, s)
    continue_with (raised_other, s) next = (raised_other, s)

    -- The loop, `left` of the turns being left from turn `i` on.
    unfoldable pub judge_turns : (left i : ℕ) → Tally → S → Scored Tally × S
    judge_turns zero i t s = (scored t, s)
    judge_turns (suc left) i t s =
        continue_with (judge_turn i (override_at i) t s) (λ t' s'. judge_turns left (suc i) t' s')

    abbrev pub payload_of : Scored Tally → Scored PerTurnLlmPayload
    payload_of (scored t) = scored (conclude t)
    payload_of raised_fatal = raised_fatal
    payload_of raised_other = raised_other

    -- `_score_per_turn`
    unfoldable pub score_per_turn : S → Scored PerTurnLlmPayload × S
    score_per_turn s =
        let (r, s') = judge_turns (length turn_outputs) 0 first_tally s in (payload_of r, s')
