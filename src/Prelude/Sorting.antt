-- ===== src/Prelude/Sorting.antt =====
-- `sorted`, and `min` with a key, which keeps the first of equals.
use Prim.Native.Nat.{ℕ, ◌≤◌}
use mathlib.Core.Path.{◌≡◌, refl, ap, ◌∙◌}
use mathlib.Core.Bool.{Bool, true, false, ◌||◌, ◌&&◌}
use mathlib.Core.List.{List, [], ◌∷◌, Memᴰ, map}
use native.Mathlib.Omega.{arith}
use agent_belt.Prelude.Tests.{if◌then◌else◌, Bool-cases}
use mathlib.Core.Logic.{inl, inr}
use agent_belt.Prelude.Lists.{any, all, is_empty, All}

module _ {ℓ} {A : Type ℓ} (le : A → A → Bool) where
  -- A stable insertion sort.
  unfoldable pub insert : A → List A → List A
  insert a [] = a ∷ []
  insert a (x ∷ xs) = if le a x then a ∷ x ∷ xs else x ∷ insert a xs

  unfoldable pub sort_by : List A → List A
  sort_by [] = []
  sort_by (x ∷ xs) = insert x (sort_by xs)

module _ {ℓ} {A : Type ℓ} (le : A → A → Bool) where
  any-insert : (p : A → Bool) (a : A) (xs : List A) → any p (insert le a xs) ≡ (p a || any p xs)
  unfolding insert
  any-insert p a [] = refl
  any-insert p a (x ∷ xs) = ground (arith, any-insert p a xs)

  pub any-sort_by : (p : A → Bool) (xs : List A) → any p (sort_by le xs) ≡ any p xs
  unfolding sort_by
  any-sort_by p [] = refl
  any-sort_by p (x ∷ xs) = ground (arith, any-insert p x (sort_by le xs), any-sort_by p xs)

  is_empty-insert : (a : A) (xs : List A) → is_empty (insert le a xs) ≡ false
  unfolding insert
  is_empty-insert a [] = refl
  is_empty-insert a (x ∷ xs) = ground arith

  pub is_empty-sort_by : (xs : List A) → is_empty (sort_by le xs) ≡ is_empty xs
  unfolding sort_by
  is_empty-sort_by [] = refl
  is_empty-sort_by (x ∷ xs) = is_empty-insert x (sort_by le xs)

module _ {ℓ} {A : Type ℓ} (lt : A → A → Bool) where
  unfoldable pub first_min : A → List A → A
  first_min best [] = best
  first_min best (x ∷ xs) = first_min (if lt x best then x else best) xs

-- `lt` compares by some key: what is needed for the first minimum to be a minimum.
pub record IsKeyOrder {ℓ} {A : Type ℓ} (lt : A → A → Bool) : Type ℓ where
  pub irrefl : (a : A) → lt a a ≡ false
  pub asym : (a b : A) → lt a b ≡ true → lt b a ≡ false
  pub neg_trans : (a b c : A) → lt a b ≡ false → lt b c ≡ false → lt a c ≡ false

module _ {ℓ} {A : Type ℓ} (lt : A → A → Bool) where
  least :
      IsKeyOrder lt
      → (best r : A) (xs : List A) → r ≡ first_min lt best xs
      → All (λ x. lt x r ≡ false) (best ∷ xs)
  unfolding first_min
  least o best r [] h = (rw h (o.irrefl best), tt)
  least o best r (x ∷ xs) h = elim (Bool-cases (lt x best)) [
    | inl e ↦
        let ih = least o x r xs (rw e at h) in
        (o.neg_trans best x r (o.asym x best e) ih.0, (ih.0, ih.1))
    | inr e ↦ let ih = least o best r xs (rw e at h) in (ih.0, (o.neg_trans x best r e ih.0, ih.1))
  ]

  pub first_min-least :
      IsKeyOrder lt
      → (best : A) (xs : List A) → All (λ x. lt x (first_min lt best xs) ≡ false) (best ∷ xs)
  first_min-least o best xs = least o best (first_min lt best xs) xs refl

  pub mem-first_min : (best : A) (xs : List A) → Memᴰ (first_min lt best xs) (best ∷ xs)
  unfolding first_min
  mem-first_min best [] = Memᴰ.head refl
  mem-first_min best (x ∷ xs) = elim (Bool-cases (lt x best)) [
    | inl e ↦ rw e (Memᴰ.tail (mem-first_min x xs))
    | inr e ↦ rw e (skip (mem-first_min best xs))
  ]
    where
      skip : {r : A} → Memᴰ r (best ∷ xs) → Memᴰ r (best ∷ x ∷ xs)
      skip (Memᴰ.head e) = Memᴰ.head e
      skip (Memᴰ.tail m) = Memᴰ.tail (Memᴰ.tail m)

-- A comparison that never prefers a smaller measure picks an element of the greatest measure.
module _ {ℓ} {A : Type ℓ} (lt : A → A → Bool) (f : A → ℕ) where
  greatest :
      ((x y : A) → lt x y ≡ true → f y ≤ f x)
      → ((x y : A) → lt x y ≡ false → f x ≤ f y)
      → (best r : A) (xs : List A) → r ≡ first_min lt best xs
      → All (λ x. f x ≤ f r) (best ∷ xs)
  unfolding first_min
  greatest p q best r [] h = (rw h (omega arith), tt)
  greatest p q best r (x ∷ xs) h = elim (Bool-cases (lt x best)) [
    | inl e ↦
        let ih = greatest p q x r xs (rw e at h) in (omega (arith, ih.0, p x best e), (ih.0, ih.1))
    | inr e ↦
        let ih = greatest p q best r xs (rw e at h) in
        (ih.0, (omega (arith, ih.0, q x best e), ih.1))
  ]

  pub first_min-greatest :
      ((x y : A) → lt x y ≡ true → f y ≤ f x)
      → ((x y : A) → lt x y ≡ false → f x ≤ f y)
      → (best : A) (xs : List A) → All (λ x. f x ≤ f (first_min lt best xs)) (best ∷ xs)
  first_min-greatest p q best xs = greatest p q best (first_min lt best xs) xs refl

module _ {ℓ} {A : Type ℓ} (le : A → A → Bool) where
  all-insert : (p : A → Bool) (a : A) (xs : List A) → all p (insert le a xs) ≡ (p a && all p xs)
  unfolding insert
  all-insert p a [] = refl
  all-insert p a (x ∷ xs) = ground (arith, all-insert p a xs)

  pub all-sort_by : (p : A → Bool) (xs : List A) → all p (sort_by le xs) ≡ all p xs
  unfolding sort_by
  all-sort_by p [] = refl
  all-sort_by p (x ∷ xs) = ground (arith, all-insert p x (sort_by le xs), all-sort_by p xs)

  All-insert {κ} : (P : A → Type κ) (a : A) (xs : List A) → P a → All P xs → All P (insert le a xs)
  unfolding insert
  All-insert P a [] h k = (h, tt)
  All-insert P a (x ∷ xs) h k = elim (Bool-cases (le a x)) [
    | inl e ↦ rw e (h, k)
    | inr e ↦ rw e (k.0, All-insert P a xs h k.1)
  ]

  pub All-sort_by {κ} : (P : A → Type κ) (xs : List A) → All P xs → All P (sort_by le xs)
  unfolding sort_by
  All-sort_by P [] h = tt
  All-sort_by P (x ∷ xs) h = All-insert P x (sort_by le xs) h.0 (All-sort_by P xs h.1)

-- To sort by an image is to sort the images.
module _ {ℓ κ} {A : Type ℓ} {B : Type κ} (le : B → B → Bool) (f : A → B) where
  map-insert :
      (a : A) (xs : List A)
      → map f (insert (λ x y. le (f x) (f y)) a xs) ≡ insert le (f a) (map f xs)
  unfolding insert
  map-insert a [] = refl
  map-insert a (x ∷ xs) = ground (arith, map-insert a xs)

  pub map-sort_by :
      (xs : List A) → map f (sort_by (λ x y. le (f x) (f y)) xs) ≡ sort_by le (map f xs)
  unfolding sort_by
  map-sort_by [] = refl
  map-sort_by (x ∷ xs) =
      map-insert x (sort_by (λ x y. le (f x) (f y)) xs) ∙ ap (insert le (f x)) (map-sort_by xs)
