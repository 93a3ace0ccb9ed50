-- ===== src/Prelude/Text.antt =====
-- Python's string operations on the native texts.
use Prim.Native.String.{String, compare, ◌++◌}
use mathlib.Core.Bool.{Bool}
use mathlib.Core.List.{List, [], ◌∷◌}
use text.Mathlib.Text.{find?, is_le}
use agent_belt.Prelude.Tests.{is_some}

-- `needle in text`
abbrev pub str_in : String → String → Bool
str_in needle text = is_some (find? text needle)

-- `s <= t`, by code points: the order that `sorted` uses.
abbrev pub str_le : String → String → Bool
str_le s t = is_le (compare s t)

-- An f-string is the list of its parts.
abbrev pub concat : List String → String
concat [] = ""
concat (s ∷ ss) = s ++ concat ss

-- `sep.join(parts)`
abbrev pub join : String → List String → String
join sep [] = ""
join sep (s ∷ []) = s
join sep (s ∷ t ∷ ts) = s ++ (sep ++ join sep (t ∷ ts))
