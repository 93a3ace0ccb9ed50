-- ===== src/Judge/Pricing.antt =====
-- The cost of a judge's call (src/belt/scorer/llm/pricing.py).
use agent_belt.Prelude.{suc, String, Option, none, some, Dict, get, if◌then◌else◌, ◌==◌, string_eq}
use agent_belt.Prelude.Int.{ℤ, pos, negsuc}
use agent_belt.Python.{Python}

-- The rates of a model.
pub record ModelPricing (F : Type 0) : Type 0 where
  pub input_per_token : F
  pub output_per_token : F

-- The table, its aliases, and the rates that a judge's configuration gives.
pub record PricingTable (F : Type 0) : Type 0 where
  pub models : Dict String (ModelPricing F)
  pub aliases : Dict String String

abbrev pub or_priced :
    {F : Type 0} → Option (ModelPricing F) → Option (ModelPricing F) → Option (ModelPricing F)
or_priced (some p) other = some p
or_priced none other = other

-- `split_slash` is `key.split("/", 1)` of a key with a slash.
module _ (py : Python) (split_slash : String → Option (String × String)) where
  open py use {Float}

  abbrev pub of_ℤ : ℤ → Float
  of_ℤ (pos n) = py.of_ℕ n
  of_ℤ (negsuc n) = py.sub (py.of_ℕ 0) (py.of_ℕ (suc n))

  abbrev pub ollama_zero_cost : ModelPricing Float
  ollama_zero_cost = record { input_per_token = py.of_ℕ 0; output_per_token = py.of_ℕ 0 }

  abbrev pub by_alias : PricingTable Float → Option String → Option (ModelPricing Float)
  by_alias table none = none
  by_alias table (some canonical) = if canonical == "" then none else get canonical table.models

  abbrev pub by_prefix : PricingTable Float → Option (String × String) → Option (ModelPricing Float)
  by_prefix table none = none
  by_prefix table (some (provider, bare)) =
      if provider == "ollama" then some ollama_zero_cost else get bare table.models

  -- `lookup_pricing`
  abbrev pub lookup_pricing : PricingTable Float → String → Option (ModelPricing Float)
  lookup_pricing table model =
      let key = py.strip (py.lower model) in
      or_priced (get key table.models)
        (or_priced (by_alias table (get key table.aliases)) (by_prefix table (split_slash key)))

  abbrev pub priced : (prompt_tokens completion_tokens : ℤ) → ModelPricing Float → Float
  priced prompt completion p =
      py.add (py.mul (of_ℤ prompt) p.input_per_token) (py.mul (of_ℤ completion) p.output_per_token)

  abbrev pub priced_if :
      (prompt_tokens completion_tokens : ℤ) → Option (ModelPricing Float) → Option Float
  priced_if prompt completion none = none
  priced_if prompt completion (some p) = some (priced prompt completion p)

  -- The rates of the configuration count only if it gives both.
  abbrev pub override : Option Float → Option Float → Option (ModelPricing Float)
  override (some i) (some o) = some (record { input_per_token = i; output_per_token = o })
  override _ _ = none

  -- `compute_cost`
  abbrev pub compute_cost :
      PricingTable Float
      → String
      → (prompt_tokens completion_tokens : ℤ)
      → (cost_per_prompt_token cost_per_completion_token : Option Float) → Option Float
  compute_cost table model prompt completion i o =
      priced_if prompt completion (or_priced (override i o) (lookup_pricing table model))
