-- ===== src/Runner/Template.antt =====
-- The messages of later turns (`_render_turn_message` of src/belt/runner/orchestrator.py).
pub mod Rendered
use agent_belt.Prelude.{
  ℕ, zero, suc, String, Bool, true, false, Option, none, some, List, [], ◌∷◌, ◌++◌, leb, ltb,
  length, get_elem?, elem, str_in, join, concat, or_else, if◌then◌else◌, ◌==◌, string_eq,
}
use agent_belt.Entities.{TurnOutput}

abbrev pub template_fields : List String
template_fields = "reply_text" ∷ "git_diff" ∷ "tool_sequence" ∷ []

-- `turn_message_max_chars` of src/belt/constants.py.
abbrev pub turn_message_max_chars : ℕ
turn_message_max_chars = 10_000_000

pub data Scope : Type 0 where
  prev : Scope
  turn : ℕ → Scope

-- A template as `_PLACEHOLDER_RE.sub` walks it: the text between two matches, or a match.
pub data Piece : Type 0 where
  plain : String → Piece
  placeholder : Scope → (field : String) → Piece

abbrev pub append_to : Option String → Option (List String) → Option (List String)
append_to (some text) (some rest) = some (text ∷ rest)
append_to _ _ = none

abbrev pub capped : (len : String → ℕ) → Option (List String) → Option String
capped len none = none
capped len (some parts) =
    if ltb turn_message_max_chars (len (concat parts)) then none else some (concat parts)

module _ {F : Type 0} where
  abbrev pub last : List (TurnOutput F) → Option (TurnOutput F)
  last [] = none
  last (o ∷ []) = some o
  last (o ∷ p ∷ os) = last (p ∷ os)

  -- `_format_field`; `none` is the ScenarioError of a field outside the closed set.
  abbrev pub format_field : TurnOutput F → String → Option String
  format_field o field =
      if field == "reply_text"
      then some o.reply_text
      else (if field == "git_diff"
          then some (or_else o.git_diff "")
          else (if field == "tool_sequence" then some (join ", " o.tool_sequence) else none))

  abbrev pub field_of : Option (TurnOutput F) → String → Option String
  field_of none field = none
  field_of (some o) field = format_field o field

  -- The output that a placeholder names, if its turn has run.
  abbrev pub referenced : List (TurnOutput F) → Scope → Option (TurnOutput F)
  referenced prior prev = last prior
  referenced prior (turn idx) = if leb (length prior) idx then none else get_elem? prior idx

  -- `replace`; `none` is a ScenarioError.
  abbrev pub replace : List (TurnOutput F) → Piece → Option String
  replace prior (plain text) = some text
  replace prior (placeholder scope field) =
      if elem field template_fields then field_of (referenced prior scope) field else none

  unfoldable pub substitute : List (TurnOutput F) → List Piece → Option (List String)
  substitute prior [] = some []
  substitute prior (piece ∷ pieces) = append_to (replace prior piece) (substitute prior pieces)

  -- `_render_turn_message`, of the outputs of the turns before; `none` is a ScenarioError.
  -- `pieces` is the walk of the regular expression, `len` the length of a text.
  unfoldable pub render_turn_message :
      (pieces : String → List Piece) (len : String → ℕ)
      → String
      → List (TurnOutput F)
      → Option String
  render_turn_message pieces len template prior =
      if str_in "{{" template
      then capped len (substitute prior (pieces template))
      else some template
