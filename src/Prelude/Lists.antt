-- ===== src/Prelude/Lists.antt =====
-- Lists: measures by native numbers, Boolean quantifiers and sets of comparable values.
use Prim.Native.Nat.{ℕ, zero, suc, ◌+◌, ◌≤◌}
use mathlib.Core.Path.{◌≡◌, refl}
use mathlib.Core.Bool.{Bool, true, false, not, ◌&&◌, ◌||◌}
use mathlib.Core.Option.{Option, none, some}
use mathlib.Core.List.{List, [], ◌∷◌, ◌++◌}
use native.Mathlib.Omega.{arith}
use agent_belt.Prelude.Tests.{Eq, ◌==◌, if◌then◌else◌}

module _ {ℓ} {A : Type ℓ} where
  abbrev pub length : List A → ℕ
  length [] = 0
  length (x ∷ xs) = suc (length xs)

  abbrev pub take : ℕ → List A → List A
  take zero xs = []
  take (suc n) [] = []
  take (suc n) (x ∷ xs) = x ∷ take n xs

  abbrev pub get_elem? : List A → ℕ → Option A
  get_elem? [] i = none
  get_elem? (x ∷ xs) zero = some x
  get_elem? (x ∷ xs) (suc i) = get_elem? xs i

  -- Python's truth of a list.
  abbrev pub is_empty : List A → Bool
  is_empty [] = true
  is_empty (x ∷ xs) = false

  abbrev pub any : (A → Bool) → List A → Bool
  any p [] = false
  any p (x ∷ xs) = p x || any p xs

  abbrev pub all : (A → Bool) → List A → Bool
  all p [] = true
  all p (x ∷ xs) = p x && all p xs

  -- A comprehension with a test.
  abbrev pub keep : (A → Bool) → List A → List A
  keep p [] = []
  keep p (x ∷ xs) = let rest = keep p xs in if p x then x ∷ rest else rest

  abbrev pub count_if : (A → Bool) → List A → ℕ
  count_if p [] = 0
  count_if p (x ∷ xs) = let rest = count_if p xs in if p x then suc rest else rest

  abbrev pub All {κ} : (A → Type κ) → List A → Type κ
  All P [] = Unit
  All P (x ∷ xs) = P x × All P xs

  pub length-append : (xs ys : List A) → length (xs ++ ys) ≡ length xs + length ys
  length-append [] ys = omega arith
  length-append (x ∷ xs) ys = omega (arith, length-append xs ys)

  pub any-append : (p : A → Bool) (xs ys : List A) → any p (xs ++ ys) ≡ (any p xs || any p ys)
  any-append p [] ys = refl
  any-append p (x ∷ xs) ys = ground (arith, any-append p xs ys)

  pub is_empty-append : (xs ys : List A) → is_empty (xs ++ ys) ≡ (is_empty xs && is_empty ys)
  is_empty-append [] ys = refl
  is_empty-append (x ∷ xs) ys = refl

  pub all-append : (p : A → Bool) (xs ys : List A) → all p (xs ++ ys) ≡ (all p xs && all p ys)
  all-append p [] ys = refl
  all-append p (x ∷ xs) ys = ground (arith, all-append p xs ys)

  pub count_if-append :
      (p : A → Bool) (xs ys : List A) → count_if p (xs ++ ys) ≡ count_if p xs + count_if p ys
  count_if-append p [] ys = omega arith
  count_if-append p (x ∷ xs) ys = ground (arith, count_if-append p xs ys)

  pub count_if-le : (p : A → Bool) (xs : List A) → count_if p xs ≤ length xs
  count_if-le p [] = omega arith
  count_if-le p (x ∷ xs) = ground (arith, count_if-le p xs)

  pub length-keep : (p : A → Bool) (xs : List A) → length (keep p xs) ≡ count_if p xs
  length-keep p [] = refl
  length-keep p (x ∷ xs) = ground (arith, length-keep p xs)

  pub All-append {κ} : (P : A → Type κ) (xs ys : List A) → All P xs → All P ys → All P (xs ++ ys)
  All-append P [] ys hx hy = hy
  All-append P (x ∷ xs) ys hx hy = (hx.0, All-append P xs ys hx.1 hy)

  pub all-not : (p : A → Bool) (xs : List A) → all (λ x. not (p x)) xs ≡ not (any p xs)
  all-not p [] = refl
  all-not p (x ∷ xs) = ground (arith, all-not p xs)

module _ {ℓ} {A : Type ℓ} ⦃e : Eq A⦄ where
  -- `a in xs`
  abbrev pub elem : A → List A → Bool
  elem a [] = false
  elem a (x ∷ xs) = a == x || elem a xs

  -- A set is the list of its elements in insertion order; `set.add`.
  unfoldable pub add : A → List A → List A
  add a xs = if elem a xs then xs else xs ++ a ∷ []

  abbrev pub count : A → List A → ℕ
  count a xs = count_if (λ x. a == x) xs

  -- `set(xs)`
  unfoldable pub set_of_onto : List A → List A → List A
  set_of_onto acc [] = acc
  set_of_onto acc (x ∷ xs) = set_of_onto (add x acc) xs

  abbrev pub set_of : List A → List A
  set_of xs = set_of_onto [] xs

  -- No value stands twice.
  abbrev pub Distinct : List A → Type 0
  Distinct [] = Unit
  Distinct (x ∷ xs) = (elem x xs ≡ false) × Distinct xs

  pub elem-append : (a : A) (xs ys : List A) → elem a (xs ++ ys) ≡ (elem a xs || elem a ys)
  elem-append a [] ys = refl
  elem-append a (x ∷ xs) ys = ground (arith, elem-append a xs ys)
