-- ===== src/Tests/ParseCases.antt =====
-- Responses of the three protocols, and the price of a call.
use agent_belt.Prelude.{ℕ, ◌≡◌, refl, String, true, Option, none, some, [], ◌∷◌}
use agent_belt.Prelude.Int.{ℤ, pos, ◌+ℤ◌}
use agent_belt.Json.{Value, int, nil, end, field, obj, null}
use agent_belt.Judge.Pricing.{PricingTable, compute_cost}
use agent_belt.Judge.Parse.{openai, anthropic, Totals, Reading, parse_response}
use agent_belt.Judge.Parse.Protocols.{with_cost, parse_response-response, response, Answer}
use agent_belt.Tests.Samples.{sample_py}

abbrev sample_table : PricingTable ℕ
sample_table = record {
  models = ("gpt", record { input_per_token = 2; output_per_token = 3 }) ∷ [];
  aliases = ("best", "gpt") ∷ [];
}

abbrev no_slash : String → Option (String × String)
no_slash key = none

by_alias_priced :
    compute_cost sample_py no_slash sample_table "best" (pos 10) (pos 1) none (some 7) ≡ some 23
by_alias_priced = refl

local_model :
    compute_cost sample_py
      (λ key. some ("ollama", "llama"))
      sample_table
      "ollama/llama"
      (pos 10)
      (pos 1)
      none
      none
    ≡ some 0
local_model = refl

abbrev int_of : Value ℕ → Option ℤ
int_of (int n) = some n
int_of _ = none

abbrev sample_reading : Reading ℕ String
sample_reading = record {
  model_validate = λ d. some "verdict";
  model_validate_json = λ text. some text;
  to_int = int_of;
  float_is_true = λ x. true;
  add = λ x y. x;
  zero_cost = 0;
  compute_cost = λ p c. compute_cost sample_py no_slash sample_table "gpt" p c none none;
}

abbrev nothing_used : Totals ℕ
nothing_used = record {
  total_prompt_tokens = pos 5;
  total_completion_tokens = pos 0;
  total_cost_usd = none;
}

abbrev sample_answer : Answer ℕ
sample_answer = record {
  text = "verdict";
  input = end;
  texts = "Let me see." ∷ [];
  other_choices = nil;
  prompt = 10;
  completion = 0;
}

parse_response-response_example :
    parse_response sample_reading anthropic
      (some (obj (response anthropic sample_answer)))
      nothing_used
    ≡ (
      (
        some "verdict",
        some (record {
          prompt_tokens = pos 10;
          completion_tokens = pos 0;
          total_tokens = pos 10 +ℤ pos 0;
          cost_usd = some 20;
        }),
      ),
      record {
        total_prompt_tokens = nothing_used.total_prompt_tokens +ℤ pos 10;
        total_completion_tokens = nothing_used.total_completion_tokens +ℤ pos 0;
        total_cost_usd = with_cost sample_reading nothing_used.total_cost_usd (some 20);
      },
    )
parse_response-response_example =
    parse_response-response sample_reading anthropic sample_answer "verdict" nothing_used
      (λ n. refl) refl refl

-- A response without a verdict still counts its tokens.
no_verdict :
    parse_response sample_reading openai
      (some (
        obj (
          field "usage"
            (obj (field "prompt_tokens" null (field "input_tokens" (int (pos 4)) end)))
            end)))
      nothing_used
    ≡ (
      (
        none,
        some (record {
          prompt_tokens = pos 4;
          completion_tokens = pos 0;
          total_tokens = pos 4;
          cost_usd = some 8;
        }),
      ),
      record {
        total_prompt_tokens = pos 9;
        total_completion_tokens = pos 0;
        total_cost_usd = some 0;
      },
    )
unfolding parse_response
no_verdict = refl
