-- ===== src/Rules/Helpers/Subsequence.antt =====
-- `is_subsequence` of src/belt/scorer/rules/helpers.py: the greedy walk of one iterator is complete.
use mathlib.Core.List.{Sublistᴰ}
use mathlib.Core.Bool.{false≢true}
use text.Mathlib.TextEquality.{eq_iff}
use agent_belt.Prelude.{
  String, ◌≡◌, refl, sym, true, false, some, List, [], ◌∷◌, arith, ◌==◌, string_eq, Bool-cases,
  Option-cases, inl, inr, eq_of_beq, ◌↔◌,
}
use agent_belt.Rules.Helpers.{seek, is_subsequence}

Sublistᴰ-tail : (a : String) (xs ys : List String) → Sublistᴰ (a ∷ xs) ys → Sublistᴰ xs ys
Sublistᴰ-tail a xs [] s = elim s [ ]
Sublistᴰ-tail a xs (y ∷ ys) (Sublistᴰ.cons s) = Sublistᴰ.cons (Sublistᴰ-tail a xs ys s)
Sublistᴰ-tail a xs (y ∷ ys) (Sublistᴰ.cons-cons e s) = Sublistᴰ.cons s

-- What `seek` leaves, put behind the item, is embedded in the list.
seek_sound :
    (item : String) (xs ys rest : List String)
    → seek item ys ≡ some rest
    → Sublistᴰ xs rest
    → Sublistᴰ (item ∷ xs) ys
unfolding seek
seek_sound item xs [] rest h s = cc
seek_sound item xs (y ∷ ys) rest h s = elim (Bool-cases (y == item)) [
  | inl e ↦
      let same : y ≡ item = eq_of_beq y item e in
      let left : ys ≡ rest = ground (arith, h, e) in Sublistᴰ.cons-cons (sym same) (rw left s)
  | inr e ↦ Sublistᴰ.cons (seek_sound item xs ys rest (ground arith) s)
]

-- The first match leaves room for whatever any embedding leaves.
seek_complete :
    (item : String) (xs ys : List String)
    → Sublistᴰ (item ∷ xs) ys
    → (rest : List String) × (seek item ys ≡ some rest) × Sublistᴰ xs rest
unfolding seek
seek_complete item xs [] s = elim s [ ]
seek_complete item xs (y ∷ ys) s = elim (Bool-cases (y == item)) [
  | inl e ↦ (ys, rw e, tail_of s)
  | inr e ↦
      let (rest, found, left) = seek_complete item xs ys (later e s) in (rest, rw e found, left)
]
  where
    tail_of : Sublistᴰ (item ∷ xs) (y ∷ ys) → Sublistᴰ xs ys
    tail_of (Sublistᴰ.cons s) = Sublistᴰ-tail item xs ys s
    tail_of (Sublistᴰ.cons-cons e s) = s

    later : (y == item) ≡ false → Sublistᴰ (item ∷ xs) (y ∷ ys) → Sublistᴰ (item ∷ xs) ys
    later h (Sublistᴰ.cons s) = s
    later h (Sublistᴰ.cons-cons e s) = absurd (ground (arith, h, eq_iff y item, e))

is_subsequence-sound :
    (needle it : List String) → is_subsequence needle it ≡ true → Sublistᴰ needle it
unfolding is_subsequence
is_subsequence-sound [] it h = nil_embeds it
  where
    nil_embeds : (ys : List String) → Sublistᴰ [] ys
    nil_embeds [] = Sublistᴰ.slnil
    nil_embeds (y ∷ ys) = Sublistᴰ.cons (nil_embeds ys)
is_subsequence-sound (item ∷ needle) it h = elim (Option-cases (seek item it)) [
  | inl e ↦ absurd (false≢true (rw (e, is_subsequence) at h))
  | inr (rest, e) ↦
      seek_sound item needle it rest e
        (is_subsequence-sound needle rest (rw (e, is_subsequence) at h))
]

is_subsequence_complete :
    (needle it : List String) → Sublistᴰ needle it → is_subsequence needle it ≡ true
unfolding is_subsequence
is_subsequence_complete [] it s = refl
is_subsequence_complete (item ∷ needle) it s =
    let (rest, e, left) = seek_complete item needle it s in
    rw (e, is_subsequence) (is_subsequence_complete needle rest left)

-- The check for tools in order holds exactly when the wanted names are a (not necessarily
-- contiguous) sublist of the sequence of calls.
pub is_subsequence_iff :
    (needle it : List String) → (is_subsequence needle it ≡ true) ↔ Sublistᴰ needle it
is_subsequence_iff needle it = (is_subsequence-sound needle it, is_subsequence_complete needle it)
