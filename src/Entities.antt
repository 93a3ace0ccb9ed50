-- ===== src/Entities.antt =====
-- src/belt/entities.py and src/belt/scenario.py: what an agent's turn produced and what a scenario
-- expects of it. `F` is the type of floats, of which the schema says nothing.
use agent_belt.Prelude.{String, Bool, true, false, Option, none, List, [], Dict}
use agent_belt.Prelude.Int.{ℤ}
use agent_belt.Json.{Fields}

pub record ToolCall (F : Type 0) : Type 0 where
  pub name : String
  pub call_id : String
  pub args : Fields F
  pub result : Option (Fields F)

pub record TurnTiming (F : Type 0) : Type 0 where
  pub ttfe : Option F
  pub ttft : Option F
  pub ttlt : Option F
  pub total : Option F

pub record TurnOutput (F : Type 0) : Type 0 where
  pub raw_cli : String
  pub reply_text : String
  pub tool_calls : List (ToolCall F)
  pub has_reply : Bool
  pub has_error : Option Bool
  pub timing : Option (TurnTiming F)
  pub cost_usd : Option F
  pub error_type : Option String
  pub workspace_files : Dict String (Option String)
  pub git_diff : Option String
  pub files_modified : List String
  pub raw_state : Option String
  pub llm_turn_count : Option ℤ
  pub thinking_text : Option String
  pub tool_sequence : List String

-- `TurnOutput(raw_cli="")`: every other field has its default.
abbrev pub blank_output : {F : Type 0} → TurnOutput F
blank_output = record {
  raw_cli = "";
  reply_text = "";
  tool_calls = [];
  has_reply = false;
  has_error = none;
  timing = none;
  cost_usd = none;
  error_type = none;
  workspace_files = [];
  git_diff = none;
  files_modified = [];
  raw_state = none;
  llm_turn_count = none;
  thinking_text = none;
  tool_sequence = [];
}

pub record TurnExpectation (F : Type 0) : Type 0 where
  pub no_errors : Bool
  pub not_contains : List String
  pub tools_invoked : List String
  pub tools_invoked_any : List (List String)
  pub tools_invoked_in_order : List String
  pub only_used_tools : List String
  pub forbidden_tools : List String
  pub tool_args_contain : Dict String (Fields F)
  pub tool_result_contains : Dict String String
  pub tool_result_pattern : Dict String String
  pub skills_invoked : List String
  pub has_reply : Bool
  pub contains : List String
  pub reply_pattern : List String
  pub max_llm_turns : Option ℤ
  pub max_tool_calls : Option ℤ
  pub max_cost_usd : Option F
  pub error_type_is : Option String
  pub has_thinking : Option Bool
  pub max_ttfe_seconds : Option F
  pub max_ttft_seconds : Option F
  pub max_ttlt_seconds : Option F
  pub max_total_seconds : Option F
  pub files_modified_any : List String
  pub files_modified_exact : List String
  pub files_not_modified : List String
  pub git_diff_contains : List String

pub record StateExpectation : Type 0 where
  pub files_exist : List String
  pub files_contain : Dict String String
  pub files_not_exist : List String
  pub capture_git_diff : Bool

-- The fields of a turn that the rule-based scorer reads.
pub record Turn (F : Type 0) : Type 0 where
  pub message : String
  pub flags : List String
  pub expect : TurnExpectation F
  pub state_expect : StateExpectation

-- A turn that expects nothing beyond the defaults (`no_errors` and `has_reply` are true).
abbrev pub default_expect : {F : Type 0} → TurnExpectation F
default_expect = record {
  no_errors = true;
  not_contains = [];
  tools_invoked = [];
  tools_invoked_any = [];
  tools_invoked_in_order = [];
  only_used_tools = [];
  forbidden_tools = [];
  tool_args_contain = [];
  tool_result_contains = [];
  tool_result_pattern = [];
  skills_invoked = [];
  has_reply = true;
  contains = [];
  reply_pattern = [];
  max_llm_turns = none;
  max_tool_calls = none;
  max_cost_usd = none;
  error_type_is = none;
  has_thinking = none;
  max_ttfe_seconds = none;
  max_ttft_seconds = none;
  max_ttlt_seconds = none;
  max_total_seconds = none;
  files_modified_any = [];
  files_modified_exact = [];
  files_not_modified = [];
  git_diff_contains = [];
}

abbrev pub default_state_expect : StateExpectation
default_state_expect = record {
  files_exist = [];
  files_contain = [];
  files_not_exist = [];
  capture_git_diff = false;
}
