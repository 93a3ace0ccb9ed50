-- ===== src/Judge/Parse/Protocols.antt =====
-- A response in the form of its protocol is read back.
use agent_belt.Prelude.{
  ℕ, zero, suc, ◌≡◌, refl, ap, ◌∙◌, String, Option, none, some, or_else, List, [], ◌∷◌, string_eq,
}
use agent_belt.Prelude.Int.{ℤ, pos, ◌+ℤ◌}
use agent_belt.Json.{Value, int, str, arr, obj, Items, nil, cons, Fields, end, field}
use agent_belt.Judge.Parse.{
  Protocol, openai, anthropic, ollama, Totals, Reading, safe_token_int, first_true, counted,
  add_cost, extract_usage, parse_verdict, with_verdict, parse_response, validated, verdict_input,
}

-- What a model answers: the verdict as a text or as a dictionary, the texts before it, what other
-- choices there are, and the tokens.
pub record Answer (F : Type 0) : Type 0 where
  pub text : String
  pub input : Fields F
  pub texts : List String
  pub other_choices : Items F
  pub prompt : ℕ
  pub completion : ℕ

module _ {F : Type 0} where
  abbrev pub message : String → Value F
  message text = obj (field "role" (str "assistant") (field "content" (str text) end))

  abbrev pub after_texts : List String → Items F → Items F
  after_texts [] blocks = blocks
  after_texts (t ∷ ts) blocks =
      cons (obj (field "type" (str "text") (field "text" (str t) end))) (after_texts ts blocks)

  abbrev pub verdict_block : Fields F → Value F
  verdict_block input = obj (
      field "type" (str "tool_use")
        (field "name" (str "judge_verdict") (field "input" (obj input) end)))

  -- The response of each protocol.
  abbrev pub response : Protocol → Answer F → Fields F
  response openai a =
      field "choices" (arr (cons (obj (field "message" (message a.text) end)) a.other_choices)) (
        field "usage"
          (obj (
            field "prompt_tokens" (int (pos a.prompt))
              (field "completion_tokens" (int (pos a.completion)) end)))
          end)
  response anthropic a =
      field "content" (arr (after_texts a.texts (cons (verdict_block a.input) nil))) (
        field "usage"
          (obj (
            field "input_tokens" (int (pos a.prompt))
              (field "output_tokens" (int (pos a.completion)) end)))
          end)
  response ollama a = field "message" (message a.text) (
      field "prompt_eval_count" (int (pos a.prompt))
        (field "eval_count" (int (pos a.completion)) end))

  verdict_input-texts :
      (ts : List String) (input : Fields F)
      → verdict_input (after_texts ts (cons (verdict_block input) nil)) ≡ some input
  verdict_input-texts [] input = refl
  verdict_input-texts (t ∷ ts) input = verdict_input-texts ts input

module _ {F V : Type 0} (reading : Reading F V) where
  -- `int(n)` of an integer is the integer.
  abbrev pub ReadsInts : Type 0
  ReadsInts = (n : ℤ) → reading.to_int (int n) ≡ some n

  tokens-first :
      ReadsInts
      → (n : ℕ) → safe_token_int reading (first_true reading (some (int (pos n))) none none) ≡ pos n
  tokens-first r zero = refl
  tokens-first r (suc n) = ap (λ o. or_else o (pos 0)) (r (pos (suc n)))

  tokens-second :
      ReadsInts
      → (n : ℕ) → safe_token_int reading (first_true reading none (some (int (pos n))) none) ≡ pos n
  tokens-second r zero = refl
  tokens-second r (suc n) = ap (λ o. or_else o (pos 0)) (r (pos (suc n)))

  tokens-third :
      ReadsInts
      → (n : ℕ) → safe_token_int reading (first_true reading none none (some (int (pos n)))) ≡ pos n
  tokens-third r n = ap (λ o. or_else o (pos 0)) (r (pos n))

  counted-same :
      (m n p c : ℤ) (t : Totals F) → m ≡ p → n ≡ c → counted reading m n t ≡ counted reading p c t
  counted-same m n p c t e f = ap (λ k. counted reading k n t) e ∙ ap (λ k. counted reading p k t) f

  extract_usage-response :
      ReadsInts
      → (protocol : Protocol) (a : Answer F) (t : Totals F)
      → extract_usage reading (response protocol a) t
        ≡ counted reading (pos a.prompt) (pos a.completion) t
  extract_usage-response r openai a t =
      counted-same _ _ _ _ t (tokens-first r a.prompt) (tokens-first r a.completion)
  extract_usage-response r anthropic a t =
      counted-same _ _ _ _ t (tokens-second r a.prompt) (tokens-second r a.completion)
  extract_usage-response r ollama a t =
      counted-same _ _ _ _ t (tokens-third r a.prompt) (tokens-third r a.completion)

  -- The cost of a judge after one of a call, which may be unknown.
  abbrev pub with_cost : Option F → Option F → Option F
  with_cost total none = total
  with_cost none (some c) = some (reading.add reading.zero_cost c)
  with_cost (some before) (some c) = some (reading.add before c)

  add_cost-with_cost : (total cost : Option F) → add_cost reading total cost ≡ with_cost total cost
  add_cost-with_cost total none = refl
  add_cost-with_cost none (some c) = refl
  add_cost-with_cost (some before) (some c) = refl

  parse_verdict-response :
      (protocol : Protocol) (a : Answer F) (v : V)
      → reading.model_validate_json a.text ≡ some v
      → reading.model_validate a.input ≡ some v
      → parse_verdict reading protocol (response protocol a) ≡ some v
  parse_verdict-response openai a v h k = h
  parse_verdict-response anthropic a v h k =
      ap (validated reading) (verdict_input-texts a.texts a.input) ∙ k
  parse_verdict-response ollama a v h k = h

  -- A response of each protocol is read back: its verdict, which is valid as a text or as a
  -- dictionary, and its tokens. The tokens of the prompt and of the completion are also added to
  -- those of the judge's totals, and their cost, where it is known, to the cost; texts before the
  -- verdict and other choices do not matter.
  pub parse_response-response :
      (protocol : Protocol) (a : Answer F) (v : V) (t : Totals F)
      → ReadsInts
      → reading.model_validate_json a.text ≡ some v
      → reading.model_validate a.input ≡ some v
      → parse_response reading protocol (some (obj (response protocol a))) t ≡ (
        (
          some v,
          some (record {
            prompt_tokens = pos a.prompt;
            completion_tokens = pos a.completion;
            total_tokens = pos a.prompt +ℤ pos a.completion;
            cost_usd = reading.compute_cost (pos a.prompt) (pos a.completion);
          }),
        ),
        record {
          total_prompt_tokens = t.total_prompt_tokens +ℤ pos a.prompt;
          total_completion_tokens = t.total_completion_tokens +ℤ pos a.completion;
          total_cost_usd =
              with_cost t.total_cost_usd (reading.compute_cost (pos a.prompt) (pos a.completion));
        },
      )
  unfolding parse_response
  parse_response-response protocol a v t r h k =
      ap (λ o. with_verdict reading o (extract_usage reading (response protocol a) t))
        (parse_verdict-response protocol a v h k)
      ∙ ap (λ u. with_verdict reading (some v) u) (extract_usage-response r protocol a t)
      ∙ ap
          (λ cost. (
            (
              some v,
              some (record {
                prompt_tokens = pos a.prompt;
                completion_tokens = pos a.completion;
                total_tokens = pos a.prompt +ℤ pos a.completion;
                cost_usd = reading.compute_cost (pos a.prompt) (pos a.completion);
              }),
            ),
            record {
              total_prompt_tokens = t.total_prompt_tokens +ℤ pos a.prompt;
              total_completion_tokens = t.total_completion_tokens +ℤ pos a.completion;
              total_cost_usd = cost;
            },
          ))
          (add_cost-with_cost t.total_cost_usd
            (reading.compute_cost (pos a.prompt) (pos a.completion)))
