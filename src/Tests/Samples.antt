-- ===== src/Tests/Samples.antt =====
-- Sample data for the cases: a Python whose floats are natural numbers, turns, payloads and scores.
use agent_belt.Prelude.{
  ℕ, zero, suc, ◌+◌, ◌-◌, ◌*◌, ◌/◌, String, Bool, true, false, Option, none, some, List, [], ◌∷◌,
  leb, str_in,
}
use agent_belt.Python.{Python}
use agent_belt.Json.{str, arr, cons, nil, field, end}
use agent_belt.Levels.{ScoreLevel, low, high}
use agent_belt.Entities.{
  ToolCall, TurnOutput, TurnExpectation, Turn, default_expect, default_state_expect,
}
use agent_belt.Payloads.{
  CheckEntry, LlmDimensionVerdict, LlmPayload, PerTurnLlmPayload, TurnVerdict, ScorerPayload,
  ScenarioScore, rules, llm, per_turn, rate_limited, timeout,
}

abbrev power : ℕ → ℕ → ℕ
power x zero = 1
power x (suc n) = x * power x n

abbrev pub sample_py : Python
sample_py = record {
  Float = ℕ;
  of_ℕ = λ n. n;
  le = leb;
  add = λ a b. a + b;
  sub = λ a b. a - b;
  mul = λ a b. a * b;
  div = λ a b. a / b;
  pow = power;
  round = λ x n. x;
  lower = λ s. s;
  strip = λ s. s;
  prefix = λ n s. s;
  after_colon = λ s. s;
  str_int = λ n. "n";
  str_float = λ x. "x";
  fixed = λ n x. "x";
  repr = λ s. s;
  str_value = λ v. "v";
  dumps = λ v. "v";
  dumps_unicode = λ v. "v";
  Pattern = String;
  compile = λ s. s;
  search = λ p s. str_in p s;
  word_in = λ w s. str_in w s;
}

abbrev pub read_call : ToolCall ℕ
read_call = record {
  name = "Read";
  call_id = "1";
  args = end;
  result = some (field "lines" (arr (cons (str "def main") nil)) end);
}

abbrev pub write_call : ToolCall ℕ
write_call = record { name = "Write"; call_id = "2"; args = end; result = none }

abbrev pub calls_output : TurnOutput ℕ
calls_output = record {
  raw_cli = "done";
  reply_text = "done";
  tool_calls = read_call ∷ write_call ∷ [];
  has_reply = true;
  has_error = none;
  timing = none;
  cost_usd = none;
  error_type = none;
  workspace_files = [];
  git_diff = none;
  files_modified = "a.py" ∷ "b.py" ∷ [];
  raw_state = none;
  llm_turn_count = none;
  thinking_text = none;
  tool_sequence = "Read" ∷ "Write" ∷ [];
}

abbrev pub failed_output : TurnOutput ℕ
failed_output = record {
  raw_cli = "";
  reply_text = "";
  tool_calls = [];
  has_reply = false;
  has_error = some true;
  timing = none;
  cost_usd = none;
  error_type = some "rate_limited";
  workspace_files = [];
  git_diff = none;
  files_modified = [];
  raw_state = none;
  llm_turn_count = none;
  thinking_text = none;
  tool_sequence = [];
}

abbrev pub plain_turn : Turn ℕ
plain_turn = record {
  message = "go";
  flags = [];
  expect = default_expect;
  state_expect = default_state_expect;
}

abbrev pub verdict : ScoreLevel → LlmDimensionVerdict
verdict l = record { score = l; reasoning = "seen" }

abbrev pub scenario_payload : Bool → ScoreLevel → LlmPayload
scenario_payload b l = record {
  overall_pass = b;
  dimensions = ("style", verdict l) ∷ [];
  usage = none;
  consensus_meta = none;
  judge_errored = false;
  judge_error_type = none;
}

abbrev pub errored_payload : LlmPayload
errored_payload = record {
  overall_pass = false;
  dimensions = [];
  usage = none;
  consensus_meta = none;
  judge_errored = true;
  judge_error_type = some timeout;
}

abbrev pub graded_turn : ℕ → ScoreLevel → TurnVerdict
graded_turn i l = record {
  turn_idx = i;
  dimensions = ("style", verdict l) ∷ [];
  usage = none;
  judge_errored = false;
  judge_error_type = none;
}

abbrev pub errored_turn : ℕ → TurnVerdict
errored_turn i = record {
  turn_idx = i;
  dimensions = [];
  usage = none;
  judge_errored = true;
  judge_error_type = some rate_limited;
}

abbrev pub turns_payload : List TurnVerdict → PerTurnLlmPayload
turns_payload turns = record {
  overall_pass = true;
  turns = turns;
  usage = none;
  consensus_meta = none;
  judge_errored = false;
  judge_error_type = none;
}

abbrev pub check : String → Option Bool → CheckEntry
check dim passed = record {
  dimension = dim;
  check = "c";
  passed = passed;
  details = "";
  turn_idx = some 0;
}

abbrev pub rules_of_checks : List CheckEntry → ScorerPayload
rules_of_checks checks = rules (record { checks = checks; passed = true })

abbrev pub good_score : ScenarioScore
good_score = record {
  scenario_name = "one__trial_1";
  group = "g";
  scores =
      ("rules", rules_of_checks (check "execution" (some true) ∷ check "cost" none ∷ []))
      ∷ ("llm", llm (scenario_payload true high))
      ∷ [];
  overall_pass = true;
}

abbrev pub bad_score : ScenarioScore
bad_score = record {
  scenario_name = "two";
  group = "g";
  scores =
      ("rules", rules_of_checks (check "execution" (some false) ∷ []))
      ∷ ("judge_a", llm (scenario_payload true high))
      ∷ ("judge_b", per_turn (turns_payload (graded_turn 0 high ∷ graded_turn 1 low ∷ [])))
      ∷ ("judge_c", llm errored_payload)
      ∷ [];
  overall_pass = false;
}

abbrev pub both_scores : List ScenarioScore
both_scores = good_score ∷ bad_score ∷ []

abbrev pub strict_expect : TurnExpectation ℕ
strict_expect = record default_expect {
  only_used_tools = "Read" ∷ "Write" ∷ [];
  forbidden_tools = "Bash" ∷ [];
  files_modified_exact = "b.py" ∷ "a.py" ∷ "b.py" ∷ [];
}
