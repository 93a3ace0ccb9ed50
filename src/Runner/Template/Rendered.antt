-- ===== src/Runner/Template/Rendered.antt =====
-- When a message can be rendered, and what it is then.
use agent_belt.Prelude.{
  ℕ, zero, suc, ◌≡◌, refl, String, Bool, true, false, ◌&&◌, Option, none, some, List, [], ◌∷◌, leb,
  ltb, length, get_elem?, elem, str_in, all, map, concat, or_else, is_some, if◌then◌else◌,
  string_eq, arith, ap, ◌∙◌,
}
use agent_belt.Entities.{TurnOutput}
use agent_belt.Runner.Template.{
  Piece, plain, placeholder, prev, turn, template_fields, turn_message_max_chars, replace,
  substitute, render_turn_message, last, referenced, field_of, format_field, append_to, capped,
}

-- A placeholder names a field of the closed set and a turn that has run.
abbrev pub is_valid : ℕ → Piece → Bool
is_valid n (plain text) = true
is_valid n (placeholder prev field) = ltb 0 n && elem field template_fields
is_valid n (placeholder (turn idx) field) = ltb idx n && elem field template_fields

capped-if :
    (len : String → ℕ) (b : Bool) (parts : List String)
    → capped len (if b then some parts else none)
      ≡ (if b && leb (len (concat parts)) turn_message_max_chars then some (concat parts) else none)
capped-if len true parts = ground arith
capped-if len false parts = refl

append_to-value :
    (o : Option String) (b : Bool) (rest : List String)
    → append_to o (if b then some rest else none)
      ≡ (if is_some o && b then some (or_else o "" ∷ rest) else none)
append_to-value none b rest = refl
append_to-value (some text) true rest = refl
append_to-value (some text) false rest = refl

module _ {F : Type 0} where
  -- What stands for a piece in the message.
  abbrev pub value : List (TurnOutput F) → Piece → String
  value prior piece = or_else (replace prior piece) ""

  is_some-last : (prior : List (TurnOutput F)) → is_some (last prior) ≡ ltb 0 (length prior)
  is_some-last [] = refl
  is_some-last (o ∷ []) = refl
  is_some-last (o ∷ p ∷ os) = ground (arith, is_some-last (p ∷ os))

  is_some-get_elem? :
      (prior : List (TurnOutput F)) (i : ℕ) → is_some (get_elem? prior i) ≡ ltb i (length prior)
  is_some-get_elem? [] i = ground arith
  is_some-get_elem? (o ∷ os) zero = ground arith
  is_some-get_elem? (o ∷ os) (suc i) = ground (arith, is_some-get_elem? os i)

  is_some-format_field :
      (o : TurnOutput F) (field : String)
      → is_some (format_field o field) ≡ elem field template_fields
  is_some-format_field o field = ground arith

  is_some-field_of :
      (o : Option (TurnOutput F)) (field : String)
      → is_some (if elem field template_fields then field_of o field else none)
        ≡ (is_some o && elem field template_fields)
  is_some-field_of none field = ground arith
  is_some-field_of (some o) field = ground (arith, is_some-format_field o field)

  is_some-replace :
      (prior : List (TurnOutput F)) (piece : Piece)
      → is_some (replace prior piece) ≡ is_valid (length prior) piece
  is_some-replace prior (plain text) = refl
  is_some-replace prior (placeholder prev field) =
      is_some-field_of (last prior) field
      ∙ ap (λ b. b && elem field template_fields) (is_some-last prior)
  is_some-replace prior (placeholder (turn idx) field) =
      is_some-field_of (referenced prior (turn idx)) field
      ∙ ap (λ b. b && elem field template_fields) (ground (arith, is_some-get_elem? prior idx))

  substitute-valid :
      (prior : List (TurnOutput F)) (pieces : List Piece)
      → substitute prior pieces
        ≡ (if all (is_valid (length prior)) pieces then some (map (value prior) pieces) else none)
  unfolding substitute
  substitute-valid prior [] = refl
  substitute-valid prior (piece ∷ pieces) =
      rw (substitute-valid prior pieces, ← is_some-replace prior piece)
        (append_to-value (replace prior piece) (all (is_valid (length prior)) pieces)
          (map (value prior) pieces))

  -- A template with a placeholder is rendered exactly when every placeholder names a supported
  -- field of a turn that has run and the message is not too long. Then the message is the template
  -- with each placeholder replaced, in one pass: what the replacements contain is not expanded.
  pub render_turn_message-valid :
      (pieces : String → List Piece) (len : String → ℕ) (template : String)
      (prior : List (TurnOutput F))
      → str_in "{{" template ≡ true
      → let message = concat (map (value prior) (pieces template)) in
        render_turn_message pieces len template prior ≡ (
          if all (is_valid (length prior)) (pieces template)
            && leb (len message) turn_message_max_chars
          then some message
          else none)
  unfolding render_turn_message
  render_turn_message-valid pieces len template prior h =
      rw (h, substitute-valid prior (pieces template))
        (capped-if len (all (is_valid (length prior)) (pieces template))
          (map (value prior) (pieces template)))
