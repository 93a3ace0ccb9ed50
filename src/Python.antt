-- ===== src/Python.antt =====
-- What the modelled code takes from Python's library: floats, text transformations, regular
-- expressions and the printing of values. It is a parameter of the definitions that use it.
use agent_belt.Prelude.{ℕ, String, Bool}
use agent_belt.Prelude.Int.{ℤ}
use agent_belt.Json.{Value}

pub record Python : Type 1 where
  pub Float : Type 0
  -- `float(n)`, `a <= b`, the operators of arithmetic, `round(x, n)`
  pub of_ℕ : ℕ → Float
  pub le : Float → Float → Bool
  pub add : Float → Float → Float
  pub sub : Float → Float → Float
  pub mul : Float → Float → Float
  pub div : Float → Float → Float
  pub pow : Float → ℕ → Float
  pub round : Float → ℕ → Float
  -- `s.lower()`, `s.strip()`, `s[:n]`
  pub lower : String → String
  pub strip : String → String
  pub prefix : ℕ → String → String
  -- `s.split(":", 1)[1]` of a text with a colon
  pub after_colon : String → String
  -- `str(x)`, `f"{x:.nf}"`, `repr(s)`, `str(value)`, `json.dumps(value)`, and the same with
  -- `ensure_ascii=False, default=str`
  pub str_int : ℤ → String
  pub str_float : Float → String
  pub fixed : ℕ → Float → String
  pub repr : String → String
  pub str_value : Value Float → String
  pub dumps : Value Float → String
  pub dumps_unicode : Value Float → String
  -- `re.compile`, `pattern.search(text) is not None`, and `\b`-delimited search of a literal
  pub Pattern : Type 0
  pub compile : String → Pattern
  pub search : Pattern → String → Bool
  pub word_in : String → String → Bool
