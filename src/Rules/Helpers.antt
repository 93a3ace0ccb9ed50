-- ===== src/Rules/Helpers.antt =====
-- src/belt/scorer/rules/helpers.py
pub mod Subsequence
pub mod Leaves
use agent_belt.Prelude.{
  ℕ, zero, suc, ◌+◌, String, ◌≡◌, refl, Bool, true, false, ◌&&◌, ◌||◌, Option, none, some, List, [],
  ◌∷◌, ◌++◌, any, str_in, concat, if◌then◌else◌, leb, ◌==◌, string_eq,
}
use agent_belt.Json.{
  Value, Items, Fields, null, bool, int, float, str, arr, obj, nil, cons, end, field,
}
use agent_belt.Python.{Python}
use agent_belt.Entities.{ToolCall}

-- `item in it` on an iterator: what is left behind the first match.
unfoldable pub seek : String → List String → Option (List String)
seek item [] = none
seek item (x ∷ rest) = if x == item then some rest else seek item rest

unfoldable pub is_subsequence : List String → List String → Bool
unfolding seek
is_subsequence [] it = true
is_subsequence (item ∷ needle) it = elim (seek item it) [
  | none ↦ false
  | some rest ↦ is_subsequence needle rest
]

-- `d.get(key)` on a JSON object.
abbrev pub get_field : {F : Type 0} → String → Fields F → Option (Value F)
get_field key end = none
get_field key (field k v rest) = if k == key then some v else get_field key rest

abbrev pub max_result_depth : ℕ
max_result_depth = 10

module _ (py : Python) where
  open py use {Float, Pattern, lower, search, str_value, dumps, dumps_unicode, after_colon}

  -- One expected pair: a missing key and a null value are both `None`.
  abbrev pub arg_matches : Option (Value Float) → Value Float → Bool
  arg_matches none expected = false
  arg_matches (some null) expected = false
  arg_matches (some actual) expected =
      str_in (lower (str_value expected)) (lower (str_value actual))

  unfoldable pub args_match : Fields Float → Fields Float → Bool
  args_match actual end = true
  args_match actual (field key val rest) =
      arg_matches (get_field key actual) val && args_match actual rest

  -- `_walk`: the string leaves as they are, other scalars as JSON, and JSON below the depth limit.
  unfoldable mutual
    pub walk : Value Float → ℕ → List String
    walk null depth = dumps_unicode null ∷ []
    walk (bool b) depth = dumps_unicode (bool b) ∷ []
    walk (int n) depth = dumps_unicode (int n) ∷ []
    walk (float x) depth = dumps_unicode (float x) ∷ []
    walk (str s) depth = if leb max_result_depth depth then dumps_unicode (str s) ∷ [] else s ∷ []
    walk (arr xs) depth =
        let below = walk_items xs (suc depth) in
        if leb max_result_depth depth then dumps_unicode (arr xs) ∷ [] else below
    walk (obj fs) depth =
        let below = walk_fields fs (suc depth) in
        if leb max_result_depth depth then dumps_unicode (obj fs) ∷ [] else below

    pub walk_items : Items Float → ℕ → List String
    walk_items nil depth = []
    walk_items (cons v xs) depth = walk v depth ++ walk_items xs depth

    pub walk_fields : Fields Float → ℕ → List String
    walk_fields end depth = []
    walk_fields (field k v fs) depth = walk v depth ++ walk_fields fs depth

  unfoldable pub iter_result_strings : ToolCall Float → List String
  iter_result_strings tc = elim tc.result [ none ↦ [] | some fs ↦ walk (obj fs) 0 ]

  unfoldable pub result_contains : ToolCall Float → String → Bool
  result_contains tc substring =
      any (λ text. str_in (lower substring) (lower text)) (iter_result_strings tc)

  unfoldable pub result_matches : ToolCall Float → Pattern → Bool
  result_matches tc compiled = any (search compiled) (iter_result_strings tc)

  abbrev pub value_matches : Value Float → String → Bool
  value_matches val expected =
      let val_lower = lower (str_value val) in
      let expected_lower = lower expected in
      val_lower == expected_lower
      || (str_in ":" val_lower && after_colon val_lower == expected_lower)

  abbrev pub arg_value_matches : Option (Value Float) → String → Bool
  arg_value_matches none expected = false
  arg_value_matches (some null) expected = false
  arg_value_matches (some val) expected = value_matches val expected

  -- The text in which `_any_arg_contains` looks: a string itself, any other value as JSON.
  abbrev pub arg_text : Value Float → String
  arg_text (str s) = lower s
  arg_text val = lower (dumps val)

  unfoldable pub any_arg_contains : Fields Float → String → Bool
  any_arg_contains end substring = false
  any_arg_contains (field k val rest) substring =
      str_in (lower substring) (arg_text val) || any_arg_contains rest substring

  -- Tier 1: the `Skill` tool.
  unfoldable pub via_skill_tool : String → List (ToolCall Float) → Bool
  via_skill_tool skill calls =
      any (λ tc. tc.name == "Skill" && arg_value_matches (get_field "skill" tc.args) skill) calls

  -- Tier 2: the first call with an argument that holds the skill's path.
  unfoldable pub via_args : String → List (ToolCall Float) → Option (ToolCall Float)
  via_args pattern [] = none
  via_args pattern (tc ∷ calls) =
      if any_arg_contains tc.args pattern then some tc else via_args pattern calls

  unfoldable pub skill_invoked : String → List (ToolCall Float) → String → Bool × String
  unfolding via_skill_tool via_args any_arg_contains
  skill_invoked skill calls raw_cli =
      let pattern = concat ("skills/" ∷ skill ∷ []) in
      if via_skill_tool skill calls
      then (true, "via Skill tool")
      else elim (via_args pattern calls) [
        | some tc ↦ (true, concat ("via " ∷ tc.name ∷ " tool args" ∷ []))
        | none ↦ if str_in pattern raw_cli then (true, "via cli fallback") else (false, "")
      ]
