-- ===== src/Prelude/Counting.antt =====
-- How many elements of one set lie in another.
use Prim.Native.Nat.{◌+◌}
use mathlib.Core.Path.{◌≡◌, refl, sym, ◌∙◌}
use mathlib.Core.Bool.{Bool, true, false, not, ◌&&◌}
use mathlib.Core.Logic.{inl, inr}
use mathlib.Core.List.{List, [], ◌∷◌, map}
use native.Mathlib.Omega.{arith}
use agent_belt.Prelude.Tests.{Eq, ◌==◌, if◌then◌else◌, Bool-cases}
use agent_belt.Prelude.Lists.{all, keep, count_if, elem, length, Distinct}

module _ {ℓ} {A : Type ℓ} where
  pub count_if-false : (xs : List A) → count_if (λ _. false) xs ≡ 0
  count_if-false [] = refl
  count_if-false (x ∷ xs) = count_if-false xs

  pub count_if-all : (p : A → Bool) (xs : List A) → all p xs ≡ true → count_if p xs ≡ length xs
  count_if-all p [] h = refl
  count_if-all p (x ∷ xs) h = ground (arith, count_if-all p xs)

  pub count_if-split :
      (p q : A → Bool) (xs : List A)
      → count_if p xs ≡ count_if (λ x. p x && q x) xs + count_if (λ x. p x && not (q x)) xs
  count_if-split p q [] = refl
  count_if-split p q (x ∷ xs) = ground (arith, count_if-split p q xs)

  pub count_if-not :
      (p : A → Bool) (xs : List A) → count_if p xs + count_if (λ x. not (p x)) xs ≡ length xs
  count_if-not p [] = refl
  count_if-not p (x ∷ xs) = ground (arith, count_if-not p xs)

module _ {ℓ κ} {A : Type ℓ} {B : Type κ} where
  pub count_if-map :
      (p : B → Bool) (f : A → B) (xs : List A) → count_if p (map f xs) ≡ count_if (λ x. p (f x)) xs
  count_if-map p f [] = refl
  count_if-map p f (x ∷ xs) = ground (arith, count_if-map p f xs)

module _ {ℓ} {A : Type ℓ} ⦃e : Eq A⦄ where
  count-Distinct :
      (a : A) (xs : List A) → Distinct xs → count_if (λ x. x == a) xs ≡ (if elem a xs then 1 else 0)
  count-Distinct a [] d = refl
  count-Distinct a (x ∷ xs) d =
      ground (arith, d.0, count-Distinct a xs d.1, e.beq_iff x a, e.beq_iff a x)

  count_if-insert :
      (k : A) (ks xs : List A)
      → elem k ks ≡ false
      → count_if (λ x. elem x (k ∷ ks)) xs
        ≡ count_if (λ x. x == k) xs + count_if (λ x. elem x ks) xs
  count_if-insert k ks [] h = refl
  count_if-insert k ks (x ∷ xs) h = ground (arith, count_if-insert k ks xs h, e.beq_iff x k)

  -- Two sets have as many common elements seen from either.
  pub count_if-swap :
      (xs ys : List A)
      → Distinct xs
      → Distinct ys
      → count_if (λ x. elem x ys) xs ≡ count_if (λ y. elem y xs) ys
  count_if-swap [] ys c d = sym (count_if-false ys)
  count_if-swap (x ∷ xs) ys c d =
      ground (arith, count_if-insert x xs ys c.0, count-Distinct x ys d, count_if-swap xs ys c.1 d)

  -- The elements of a set that contains another are as many there as the other has.
  pub count_if-subset :
      (xs ys : List A)
      → Distinct xs
      → Distinct ys
      → all (λ y. elem y xs) ys ≡ true
      → count_if (λ x. elem x ys) xs ≡ length ys
  count_if-subset xs ys c d h = count_if-swap xs ys c d ∙ count_if-all (λ y. elem y xs) ys h

  pub elem-keep : (p : A → Bool) (a : A) (xs : List A) → elem a (keep p xs) ≡ (elem a xs && p a)
  elem-keep p a [] = refl
  elem-keep p a (x ∷ xs) = ground (arith, elem-keep p a xs, e.beq_iff a x)

  pub Distinct-keep : (p : A → Bool) (xs : List A) → Distinct xs → Distinct (keep p xs)
  Distinct-keep p [] d = tt
  Distinct-keep p (x ∷ xs) d = elim (Bool-cases (p x)) [
    | inl h ↦ rw h (ground (arith, d.0, elem-keep p x xs), Distinct-keep p xs d.1)
    | inr h ↦ rw h (Distinct-keep p xs d.1)
  ]

module _ {ℓ} {A : Type ℓ} where
  pub all-keep : (p q : A → Bool) (xs : List A) → all q xs ≡ true → all q (keep p xs) ≡ true
  all-keep p q [] h = refl
  all-keep p q (x ∷ xs) h = ground (arith, all-keep p q xs)
