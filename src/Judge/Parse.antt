-- ===== src/Judge/Parse.antt =====
-- `_parse_response` and `_extract_usage` of src/belt/scorer/llm/scorer.py: what a provider's
-- response says.
pub mod Protocols
use agent_belt.Prelude.{
  ℕ, zero, suc, String, Bool, true, false, not, ◌&&◌, ◌||◌, Option, none, some, or_else,
  if◌then◌else◌, ◌==◌, string_eq,
}
use agent_belt.Prelude.Int.{ℤ, pos, negsuc, ◌+ℤ◌}
use agent_belt.Json.{
  Value, null, bool, int, float, str, arr, obj, Items, nil, cons, Fields, end, field,
}
use agent_belt.Rules.Helpers.{get_field}

-- The three forms of a response; every other backend answers in the form of `openai`.
pub data Protocol : Type 0 where
  openai anthropic ollama : Protocol

-- The dictionary that `_extract_usage` gives for a response that was not cached.
pub record Usage (F : Type 0) : Type 0 where
  pub prompt_tokens : ℤ
  pub completion_tokens : ℤ
  pub total_tokens : ℤ
  pub cost_usd : Option F

-- What a judge has used so far.
pub record Totals (F : Type 0) : Type 0 where
  pub total_prompt_tokens : ℤ
  pub total_completion_tokens : ℤ
  pub total_cost_usd : Option F

-- `JudgeVerdict.model_validate` and `model_validate_json`, which may raise; `int(value)`, which may
-- raise; the truth value of a float, its sum and zero; and `compute_cost` for the judge's model.
pub record Reading (F V : Type 0) : Type 0 where
  pub model_validate : Fields F → Option V
  pub model_validate_json : String → Option V
  pub to_int : Value F → Option ℤ
  pub float_is_true : F → Bool
  pub add : F → F → F
  pub zero_cost : F
  pub compute_cost : ℤ → ℤ → Option F

abbrev pub int_is_true : ℤ → Bool
int_is_true (pos zero) = false
int_is_true (pos (suc n)) = true
int_is_true (negsuc n) = true

abbrev pub is_list_true : {F : Type 0} → Items F → Bool
is_list_true nil = false
is_list_true (cons v vs) = true

abbrev pub is_dict_true : {F : Type 0} → Fields F → Bool
is_dict_true end = false
is_dict_true (field k v vs) = true

abbrev pub is_given : {F : Type 0} → Option (Value F) → Bool
is_given none = false
is_given (some null) = false
is_given (some v) = true

abbrev pub or_null : {F : Type 0} → Option (Value F) → Value F
or_null none = null
or_null (some v) = v

-- `first.get("message")` of a dictionary, where it is a dictionary.
abbrev pub dict_at : {F : Type 0} → Option (Value F) → Option (Fields F)
dict_at (some (obj d)) = some d
dict_at _ = none

abbrev pub text_at : {F : Type 0} → Option (Value F) → Option String
text_at (some (str s)) = some s
text_at _ = none

abbrev pub is_text : {F : Type 0} → String → Option (Value F) → Bool
is_text s (some (str t)) = t == s
is_text s _ = false

abbrev pub content_of : {F : Type 0} → Option (Fields F) → Option String
content_of none = none
content_of (some message) = text_at (get_field "content" message)

abbrev pub first_message : {F : Type 0} → Option (Value F) → Option (Fields F)
first_message (some (arr (cons (obj first) rest))) = dict_at (get_field "message" first)
first_message _ = none

abbrev pub is_verdict_block : {F : Type 0} → Fields F → Bool
is_verdict_block block =
    is_text "tool_use" (get_field "type" block) && is_text "judge_verdict" (get_field "name" block)

-- The input of the first block that calls the verdict tool.
abbrev pub verdict_input : {F : Type 0} → Items F → Option (Fields F)
verdict_input nil = none
verdict_input (cons (obj block) blocks) =
    let rest = verdict_input blocks in
    if is_verdict_block block then dict_at (get_field "input" block) else rest
verdict_input (cons _ blocks) = verdict_input blocks

abbrev pub blocks_input : {F : Type 0} → Option (Value F) → Option (Fields F)
blocks_input (some (arr blocks)) = verdict_input blocks
blocks_input _ = none

module _ {F V : Type 0} (reading : Reading F V) where
  abbrev pub is_true : Option (Value F) → Bool
  is_true none = false
  is_true (some null) = false
  is_true (some (bool b)) = b
  is_true (some (int n)) = int_is_true n
  is_true (some (float x)) = reading.float_is_true x
  is_true (some (str s)) = not (s == "")
  is_true (some (arr xs)) = is_list_true xs
  is_true (some (obj d)) = is_dict_true d

  -- `a or b or c`
  abbrev pub first_true : Option (Value F) → Option (Value F) → Option (Value F) → Option (Value F)
  first_true a b c = if is_true a then a else (if is_true b then b else c)

  abbrev pub safe_token_int : Option (Value F) → ℤ
  safe_token_int none = pos 0
  safe_token_int (some null) = pos 0
  safe_token_int (some v) = or_else (reading.to_int v) (pos 0)

  -- The usage of a response, or the counts that Ollama gives beside it.
  abbrev pub top_level_usage : (prompt_eval eval : Option (Value F)) → Option (Fields F)
  top_level_usage p e =
      if is_given p || is_given e
      then some (field "prompt_eval_count" (or_null p) (field "eval_count" (or_null e) end))
      else none

  abbrev pub raw_usage : Fields F → Option (Value F) → Option (Fields F)
  raw_usage body (some (obj u)) = some u
  raw_usage body _ =
      top_level_usage (get_field "prompt_eval_count" body) (get_field "eval_count" body)

  abbrev pub prompt_tokens_of : Fields F → ℤ
  prompt_tokens_of u = safe_token_int (
      first_true (get_field "prompt_tokens" u) (get_field "input_tokens" u)
        (get_field "prompt_eval_count" u))

  abbrev pub completion_tokens_of : Fields F → ℤ
  completion_tokens_of u = safe_token_int (
      first_true (get_field "completion_tokens" u) (get_field "output_tokens" u)
        (get_field "eval_count" u))

  abbrev pub add_cost : Option F → Option F → Option F
  add_cost total none = total
  add_cost total (some c) = some (reading.add (or_else total reading.zero_cost) c)

  abbrev pub counted : ℤ → ℤ → Totals F → Option (Usage F) × Totals F
  counted prompt completion t =
      let cost = reading.compute_cost prompt completion in
      (
        some (record {
          prompt_tokens = prompt;
          completion_tokens = completion;
          total_tokens = prompt +ℤ completion;
          cost_usd = cost;
        }),
        record {
          total_prompt_tokens = t.total_prompt_tokens +ℤ prompt;
          total_completion_tokens = t.total_completion_tokens +ℤ completion;
          total_cost_usd = add_cost t.total_cost_usd cost;
        },
      )

  abbrev pub usage_from : Option (Fields F) → Totals F → Option (Usage F) × Totals F
  usage_from none t = (none, t)
  usage_from (some u) t = counted (prompt_tokens_of u) (completion_tokens_of u) t

  -- `_extract_usage`
  abbrev pub extract_usage : Fields F → Totals F → Option (Usage F) × Totals F
  extract_usage body t = usage_from (raw_usage body (get_field "usage" body)) t

  abbrev pub validated : Option (Fields F) → Option V
  validated none = none
  validated (some d) = reading.model_validate d

  abbrev pub validated_json : Option String → Option V
  validated_json none = none
  validated_json (some text) = reading.model_validate_json text

  -- `_parse_openai_verdict`, `_parse_anthropic_verdict` and `_parse_ollama_verdict`
  abbrev pub parse_verdict : Protocol → Fields F → Option V
  parse_verdict openai body = validated_json (content_of (first_message (get_field "choices" body)))
  parse_verdict anthropic body = validated (blocks_input (get_field "content" body))
  parse_verdict ollama body = validated_json (content_of (dict_at (get_field "message" body)))

  abbrev pub with_verdict :
      Option V → Option (Usage F) × Totals F → (Option V × Option (Usage F)) × Totals F
  with_verdict v (usage, t) = ((v, usage), t)

  -- `_parse_response`, of `resp.json()`, which may raise.
  unfoldable pub parse_response :
      Protocol → Option (Value F) → Totals F → (Option V × Option (Usage F)) × Totals F
  parse_response protocol (some (obj body)) t =
      with_verdict (parse_verdict protocol body) (extract_usage body t)
  parse_response protocol _ t = ((none, none), t)
