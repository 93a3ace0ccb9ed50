-- ===== src/Judge/Truncate.antt =====
-- `_truncate_section` and `_truncate_to_budget` of src/belt/scorer/llm/scorer.py: the evidence of a
-- judge's prompt within its budget. A text is the list of its code points.
pub mod Budget
use agent_belt.Prelude.{
  ℕ, zero, suc, ◌+◌, ◌-◌, ◌/◌, ◌%◌, Bool, true, false, ◌&&◌, ◌||◌, List, [], ◌∷◌, ◌++◌, map, take,
  length, leb, ltb, if◌then◌else◌, elem, is_empty, nat_eq,
}

abbrev pub Text : Type 0
Text = List ℕ

abbrev pub drop : {A : Type 0} → ℕ → List A → List A
drop zero xs = xs
drop (suc n) [] = []
drop (suc n) (x ∷ xs) = drop n xs

abbrev pub min : ℕ → ℕ → ℕ
min a b = if leb a b then a else b

-- `text[-n:]`: the last `n` characters, but all of them where `n` is 0.
abbrev pub tail_of : {A : Type 0} → ℕ → List A → List A
tail_of n text = if leb n 0 then text else drop (length text - n) text

pub record Section : Type 0 where
  pub header : Text
  pub content : Text
  pub keep_tail : Bool

-- Texts are joined from these parts: `"\n... ("` and `" chars truncated)\n"`.
abbrev pub marker_start : Text
marker_start = 10 ∷ 46 ∷ 46 ∷ 46 ∷ 32 ∷ 40 ∷ []

abbrev pub marker_end : Text
marker_end =
    32 ∷ 99 ∷ 104 ∷ 97 ∷ 114 ∷ 115 ∷ 32 ∷ 116 ∷ 114 ∷ 117 ∷ 110 ∷ 99 ∷ 97 ∷ 116 ∷ 101 ∷ 100 ∷ 41
    ∷ 10 ∷ []

-- The decimal digits of a number; it has no more of them than `suc n`.
unfoldable pub digits : (fuel n : ℕ) → Text
digits zero n = []
digits (suc fuel) n = elim (ltb n 10) [
  | true ↦ (48 + n) ∷ []
  | false ↦ digits fuel (n / 10) ++ (48 + n % 10) ∷ []
]

-- `marker`, the notice that so many characters were cut.
abbrev pub marker : ℕ → Text
marker removed = marker_start ++ (digits (suc removed) removed ++ marker_end)

-- The characters that `str.strip` takes off.
abbrev pub is_space : ℕ → Bool
is_space c =
    (leb 9 c && leb c 13)
    || ((leb 28 c && leb c 32)
        || ((leb 8192 c && leb c 8202)
            || elem c (133 ∷ 160 ∷ 5760 ∷ 8232 ∷ 8233 ∷ 8239 ∷ 8287 ∷ 12288 ∷ [])))

abbrev pub strip_start : Text → Text
strip_start [] = []
strip_start (c ∷ text) = let rest = strip_start text in if is_space c then rest else c ∷ text

abbrev pub strip_end : Text → Text
strip_end [] = []
strip_end (c ∷ text) =
    let rest = strip_end text in if is_empty rest && is_space c then [] else c ∷ rest

-- `str.strip`
abbrev pub strip : Text → Text
strip text = strip_end (strip_start text)

abbrev pub keep_part : Bool → (usable : ℕ) → (cut text : Text) → Text
keep_part true usable cut text = cut ++ tail_of usable text
keep_part false usable cut text = take usable text ++ cut

-- `_truncate_section`
unfoldable pub truncate_section : Text → (budget : ℕ) → (keep_tail : Bool) → Text
truncate_section text budget keep_tail =
    let cut = marker (length text - budget) in
    if leb (length text) budget
    then text
    else (if ltb budget (length cut)
        then strip cut
        else keep_part keep_tail (budget - length cut) cut text)

abbrev pub section_len : Section → ℕ
section_len s = length s.header + length s.content

abbrev pub total_len : List Section → ℕ
total_len [] = 0
total_len (s ∷ ss) = section_len s + total_len ss

abbrev pub min_size : Section → ℕ
min_size s = length s.header + 40

abbrev pub to_remove : ℕ → Section → ℕ
to_remove excess s = min (section_len s - min_size s) excess

abbrev pub shorten : ℕ → Section → Section
shorten excess s = record s {
  content = truncate_section s.content (length s.content - to_remove excess s) s.keep_tail;
}

-- A turn of the loop; at an excess of 0 the loop has ended.
unfoldable pub fit : ℕ → Section → Section × ℕ
fit excess s =
    if leb excess 0
    then (s, excess)
    else (if leb (section_len s) (min_size s)
        then (s, excess)
        else (shorten excess s, excess - to_remove excess s))

abbrev pub fit_next : Section → List Section × ℕ → List Section × ℕ
fit_next s (ss, excess) = let (s', left) = fit excess s in (s' ∷ ss, left)

-- The loop over the sections from the last one on, and the excess that is left.
unfoldable pub fit_all : ℕ → List Section → List Section × ℕ
fit_all excess [] = ([], excess)
fit_all excess (s ∷ ss) = fit_next s (fit_all excess ss)

-- `_truncate_to_budget`, each section with its header.
unfoldable pub truncate_to_budget : List Section → (budget : ℕ) → List Section
truncate_to_budget sections budget =
    if leb (total_len sections) budget
    then sections
    else (fit_all (total_len sections - budget) sections).0
