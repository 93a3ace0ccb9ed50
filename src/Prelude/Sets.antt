-- ===== src/Prelude/Sets.antt =====
-- Laws of sets as lists of their elements.
use mathlib.Core.Path.{◌≡◌, refl}
use mathlib.Core.Bool.{Bool, true, false, not, ◌||◌}
use mathlib.Core.List.{List, [], ◌∷◌, ◌++◌, map}
use native.Mathlib.Omega.{arith}
use agent_belt.Prelude.Tests.{Eq, ◌==◌, Bool-cases, eq_self}
use mathlib.Core.Logic.{inl, inr}
use agent_belt.Prelude.Lists.{
  any, all, keep, is_empty, All, elem, add, set_of, set_of_onto, Distinct, any-append, elem-append,
  count_if,
}

module _ {ℓ} {A : Type ℓ} where
  pub is_empty-keep : (p : A → Bool) (xs : List A) → is_empty (keep p xs) ≡ not (any p xs)
  is_empty-keep p [] = refl
  is_empty-keep p (x ∷ xs) = ground (arith, is_empty-keep p xs)

  pub all-eq-not-any : (p : A → Bool) (xs : List A) → all p xs ≡ not (any (λ x. not (p x)) xs)
  all-eq-not-any p [] = refl
  all-eq-not-any p (x ∷ xs) = ground (arith, all-eq-not-any p xs)

  pub any_ext : (p q : A → Bool) → ((a : A) → p a ≡ q a) → (xs : List A) → any p xs ≡ any q xs
  any_ext p q h [] = refl
  any_ext p q h (x ∷ xs) = ground (arith, h x, any_ext p q h xs)

  pub count_if_ext :
      (p q : A → Bool) → ((a : A) → p a ≡ q a) → (xs : List A) → count_if p xs ≡ count_if q xs
  count_if_ext p q h [] = refl
  count_if_ext p q h (x ∷ xs) = ground (arith, h x, count_if_ext p q h xs)

  pub all_ext : (p q : A → Bool) → ((a : A) → p a ≡ q a) → (xs : List A) → all p xs ≡ all q xs
  all_ext p q h [] = refl
  all_ext p q h (x ∷ xs) = ground (arith, h x, all_ext p q h xs)

module _ {ℓ} {A : Type ℓ} ⦃e : Eq A⦄ where
  pub any_of_elem :
      (p : A → Bool) (a : A) (xs : List A) → elem a xs ≡ true → p a ≡ true → any p xs ≡ true
  any_of_elem p a [] h k = h
  any_of_elem p a (x ∷ xs) h k = ground (arith, e.beq_iff a x, any_of_elem p a xs)

  pub elem_of_all :
      (p : A → Bool) (a : A) (xs : List A) → all p xs ≡ true → elem a xs ≡ true → p a ≡ true
  elem_of_all p a [] h k = ground arith
  elem_of_all p a (x ∷ xs) h k = ground (arith, e.beq_iff a x, elem_of_all p a xs)

  pub any-add : (p : A → Bool) (a : A) (xs : List A) → any p (add a xs) ≡ (any p xs || p a)
  unfolding add
  any-add p a xs = ground (arith, any_of_elem p a xs, any-append p xs (a ∷ []))

  pub elem-add : (a b : A) (xs : List A) → elem b (add a xs) ≡ (elem b xs || b == a)
  unfolding add
  elem-add a b xs = ground (arith, e.beq_iff b a, elem-append b xs (a ∷ []))

  pub any-set_of_onto :
      (p : A → Bool) (acc xs : List A) → any p (set_of_onto acc xs) ≡ (any p acc || any p xs)
  unfolding set_of_onto
  any-set_of_onto p acc [] = ground arith
  any-set_of_onto p acc (x ∷ xs) = ground (arith, any-set_of_onto p (add x acc) xs, any-add p x acc)

  pub any-set_of : (p : A → Bool) (xs : List A) → any p (set_of xs) ≡ any p xs
  any-set_of p xs = any-set_of_onto p [] xs

  elem-set_of_onto :
      (a : A) (acc xs : List A) → elem a (set_of_onto acc xs) ≡ (elem a acc || elem a xs)
  unfolding set_of_onto
  elem-set_of_onto a acc [] = ground arith
  elem-set_of_onto a acc (x ∷ xs) =
      ground (arith, elem-set_of_onto a (add x acc) xs, elem-add x a acc)

  pub elem-set_of : (a : A) (xs : List A) → elem a (set_of xs) ≡ elem a xs
  elem-set_of a xs = elem-set_of_onto a [] xs

  pub Distinct-snoc :
      (a : A) (xs : List A) → Distinct xs → elem a xs ≡ false → Distinct (xs ++ a ∷ [])
  Distinct-snoc a [] d h = (refl, tt)
  Distinct-snoc a (x ∷ xs) d h = (
    ground (arith, d.0, elem-append x xs (a ∷ []), e.beq_iff x a, e.beq_iff a x),
    Distinct-snoc a xs d.1 (ground arith),
  )

  pub Distinct-add : (a : A) (xs : List A) → Distinct xs → Distinct (add a xs)
  unfolding add
  Distinct-add a xs d = elim (Bool-cases (elem a xs)) [
    | inl old ↦ rw old d
    | inr new ↦ rw new (Distinct-snoc a xs d new)
  ]

  Distinct-set_of_onto : (acc xs : List A) → Distinct acc → Distinct (set_of_onto acc xs)
  unfolding set_of_onto
  Distinct-set_of_onto acc [] d = d
  Distinct-set_of_onto acc (x ∷ xs) d = Distinct-set_of_onto (add x acc) xs (Distinct-add x acc d)

  pub Distinct-set_of : (xs : List A) → Distinct (set_of xs)
  Distinct-set_of xs = Distinct-set_of_onto [] xs tt

  pub all_of_elem :
      (p : A → Bool) (xs : List A) → ((a : A) → elem a xs ≡ true → p a ≡ true) → all p xs ≡ true
  all_of_elem p [] h = refl
  all_of_elem p (x ∷ xs) h = ground (
    arith,
    h x (ground (arith, eq_self x)),
    all_of_elem p xs (λ a m. h a (ground (arith, m, a == x))),
  )

module _ {ℓ κ} {A : Type ℓ} {B : Type κ} where
  pub any-map : (p : B → Bool) (f : A → B) (xs : List A) → any p (map f xs) ≡ any (λ x. p (f x)) xs
  any-map p f [] = refl
  any-map p f (x ∷ xs) = ground (arith, any-map p f xs)

module _ {ℓ} {A : Type ℓ} ⦃e : Eq A⦄ where
  pub not_at_elem :
      (p : A → Bool) (a : A) (xs : List A) → any p xs ≡ false → elem a xs ≡ true → p a ≡ false
  not_at_elem p a xs h m = ground (arith, any_of_elem p a xs m)

  pub All-of_elem {κ} :
      (P : A → Type κ) (xs : List A) → ((a : A) → elem a xs ≡ true → P a) → All P xs
  All-of_elem P [] h = tt
  All-of_elem P (x ∷ xs) h =
      (h x (ground (arith, eq_self x)), All-of_elem P xs (λ a m. h a (ground (arith, m, a == x))))

  pub all-set_of : (p : A → Bool) (xs : List A) → all p (set_of xs) ≡ all p xs
  all-set_of p xs =
      ground
        (arith, all-eq-not-any p (set_of xs), all-eq-not-any p xs, any-set_of (λ x. not (p x)) xs)

  pub all-elem_self : (xs : List A) → all (λ x. elem x xs) xs ≡ true
  all-elem_self xs = all_of_elem (λ x. elem x xs) xs (λ a m. m)

module _ {ℓ κ} {A : Type ℓ} {B : Type κ} where
  pub all-map : (p : B → Bool) (f : A → B) (xs : List A) → all p (map f xs) ≡ all (λ x. p (f x)) xs
  all-map p f [] = refl
  all-map p f (x ∷ xs) = ground (arith, all-map p f xs)
