-- ===== src/Prelude/Tally.antt =====
-- `collections.Counter`: how often each value stands in a list, in the order of first occurrence.
use Prim.Native.Nat.{ℕ, ◌+◌, ◌≤◌, max}
use mathlib.Core.Path.{◌≡◌, refl, sym, ap, subst, ◌∙◌}
use mathlib.Core.Bool.{true, false}
use mathlib.Core.Option.{Option, some}
use mathlib.Core.Logic.{inl, inr}
use mathlib.Core.List.{List, [], ◌∷◌, Memᴰ}
use native.Mathlib.Omega.{arith}
use agent_belt.Prelude.Tests.{Eq, ◌==◌, or_else, Bool-cases, nat_beq, ltb, nat_beq_iff, ltb→lt}
use agent_belt.Prelude.Lists.{elem, add, count, All, set_of, set_of_onto, keep}
use agent_belt.Prelude.Dicts.{All-entries, Dict, get, upsert, keys, values, keys-upsert, get-upsert}
use agent_belt.Prelude.Sets.{Distinct-set_of}
use agent_belt.Prelude.Grouping.{bump}

-- `max(xs)`; every caller passes a list that is not empty.
abbrev pub max_of : List ℕ → ℕ
max_of [] = 0
max_of (x ∷ xs) = max x (max_of xs)

pub max_of-ge : (x : ℕ) (xs : List ℕ) → Memᴰ x xs → x ≤ max_of xs
max_of-ge x (y ∷ ys) (Memᴰ.head e) = omega (arith, e)
max_of-ge x (y ∷ ys) (Memᴰ.tail m) = omega (arith, max_of-ge x ys m)
max_of-ge x [] m = elim m [ ]

module _ {K : Type 0} ⦃e : Eq K⦄ where
  unfoldable pub tally_onto : Dict K ℕ → List K → Dict K ℕ
  tally_onto d [] = d
  tally_onto d (x ∷ xs) = tally_onto (upsert x bump d) xs

  abbrev pub tally : List K → Dict K ℕ
  tally xs = tally_onto [] xs

  get-tally_onto :
      (k : K) (d : Dict K ℕ) (xs : List K)
      → or_else (get k (tally_onto d xs)) 0 ≡ or_else (get k d) 0 + count k xs
  unfolding tally_onto
  get-tally_onto k d [] = omega arith
  get-tally_onto k d (x ∷ xs) =
      ground (arith, get-tally_onto k (upsert x bump d) xs, get-upsert x k bump d, e.beq_iff k x)

  -- A value's count is the number of its occurrences.
  pub get-tally : (k : K) (xs : List K) → or_else (get k (tally xs)) 0 ≡ count k xs
  get-tally k xs = omega (arith, get-tally_onto k [] xs)

  keys-tally_onto : (d : Dict K ℕ) (xs : List K) → keys (tally_onto d xs) ≡ set_of_onto (keys d) xs
  unfolding tally_onto set_of_onto add
  keys-tally_onto d [] = refl
  keys-tally_onto d (x ∷ xs) = keys-tally_onto (upsert x bump d) xs ∙ rw (keys-upsert x bump d)

  pub keys-tally : (xs : List K) → keys (tally xs) ≡ set_of xs
  keys-tally xs = keys-tally_onto [] xs

  pub elem-of-count : (k : K) (xs : List K) → 1 ≤ count k xs → elem k xs ≡ true
  elem-of-count k [] h = elim h [ ]
  elem-of-count k (x ∷ xs) h = ground (arith, elem-of-count k xs)

  pub count-of-elem : (k : K) (xs : List K) → elem k xs ≡ true → 1 ≤ count k xs
  count-of-elem k [] h = cc
  count-of-elem k (x ∷ xs) h = ground (arith, count-of-elem k xs)

  -- Each entry of the tally is a value with its count.
  pub All-tally : (xs : List K) → All (λ (k, n). n ≡ count k xs) (tally xs)
  All-tally xs =
      counts (tally xs) (All-entries (tally xs) (rw (keys-tally xs) (Distinct-set_of xs)))
    where
      counts :
          (d : Dict K ℕ)
          → All (λ (k, n). get k (tally xs) ≡ some n) d
          → All (λ (k, n). n ≡ count k xs) d
      counts [] a = tt
      counts ((k, n) ∷ d) a =
          (sym (ap (λ (o : Option ℕ). or_else o 0) a.0) ∙ get-tally k xs, counts d a.1)

pub All-at {ℓ κ} : {A : Type ℓ} (P : A → Type κ) (a : A) (xs : List A) → All P xs → Memᴰ a xs → P a
All-at P a [] all m = elim m [ ]
All-at P a (x ∷ xs) all (Memᴰ.head e) = subst P (sym e) all.0
All-at P a (x ∷ xs) all (Memᴰ.tail m) = All-at P a xs all.1 m

module _ {K : Type 0} ⦃e : Eq K⦄ where
  pub entry_of_key : (k : K) (d : Dict K ℕ) → elem k (keys d) ≡ true → (n : ℕ) × Memᴰ (k, n) d
  entry_of_key k [] h = absurd (ground (arith, h))
  entry_of_key k ((j, n) ∷ d) h = elim (Bool-cases (k == j)) [
    | inl s ↦ (n, Memᴰ.head (ap (λ (x : K). (x, n)) ((e.beq_iff k j).0 s)))
    | inr s ↦ let (m, found) = entry_of_key k d (ground arith) in (m, Memᴰ.tail found)
  ]

module _ {K : Type 0} where
  pub mem-values : (k : K) (n : ℕ) (d : Dict K ℕ) → Memᴰ (k, n) d → Memᴰ n (values d)
  mem-values k n [] m = elim m [ ]
  mem-values k n ((j, i) ∷ d) (Memᴰ.head h) = Memᴰ.head (ap (λ (p : K × ℕ). p.1) h)
  mem-values k n ((j, i) ∷ d) (Memᴰ.tail m) = Memᴰ.tail (mem-values k n d m)

  -- The entries with a given count.
  abbrev pub with_count : ℕ → Dict K ℕ → Dict K ℕ
  with_count n d = keep (λ entry. nat_beq entry.1 n) d

  pub mem-keys-with_count :
      (k : K) (n : ℕ) (d : Dict K ℕ) → Memᴰ (k, n) d → Memᴰ k (keys (with_count n d))
  mem-keys-with_count k n [] m = elim m [ ]
  mem-keys-with_count k n ((j, i) ∷ d) (Memᴰ.head h) =
      let same : n ≡ i = ap (λ (p : K × ℕ). p.1) h in
      rw ((nat_beq_iff i n).1 (sym same)) (Memᴰ.head (ap (λ (p : K × ℕ). p.0) h))
  mem-keys-with_count k n ((j, i) ∷ d) (Memᴰ.tail m) = elim (Bool-cases (nat_beq i n)) [
    | inl h ↦ rw h (Memᴰ.tail (mem-keys-with_count k n d m))
    | inr h ↦ rw h (mem-keys-with_count k n d m)
  ]

  pub mem-of-with_count :
      (k : K) (n : ℕ) (d : Dict K ℕ) → Memᴰ k (keys (with_count n d)) → Memᴰ (k, n) d
  mem-of-with_count k n [] m = elim m [ ]
  mem-of-with_count k n ((j, i) ∷ d) m = elim (Bool-cases (nat_beq i n)) [
    | inl h ↦ here h (mem-of-with_count k n d) (rw h at m)
    | inr h ↦ Memᴰ.tail (mem-of-with_count k n d (rw h at m))
  ]
    where
      here :
          nat_beq i n ≡ true
          → (Memᴰ k (keys (with_count n d)) → Memᴰ (k, n) d)
          → Memᴰ k (j ∷ keys (with_count n d))
          → Memᴰ (k, n) ((j, i) ∷ d)
      here h below (Memᴰ.head e) = Memᴰ.head (ground (arith, e, (nat_beq_iff i n).0 h))
      here h below (Memᴰ.tail l) = Memᴰ.tail (below l)

  -- The highest count is reached.
  pub max-reached :
      (d : Dict K ℕ) → (k : K) → (n : ℕ) → Memᴰ (k, n) d → (j : K) × Memᴰ (j, max_of (values d)) d
  max-reached [] k n m = elim m [ ]
  max-reached ((j, i) ∷ []) k n m = (j, Memᴰ.head (ground arith))
  max-reached ((j, i) ∷ (l, u) ∷ d) k n m =
      let (w, found) = max-reached ((l, u) ∷ d) l u (Memᴰ.head refl) in
      elim (Bool-cases (ltb i (max_of (values ((l, u) ∷ d))))) [
        | inl h ↦ (w, rw (max_right h) (Memᴰ.tail found))
        | inr h ↦ (j, Memᴰ.head (rw (max_left h)))
      ]
    where
      max_right :
          ltb i (max_of (values ((l, u) ∷ d))) ≡ true
          → max_of (values ((j, i) ∷ (l, u) ∷ d)) ≡ max_of (values ((l, u) ∷ d))
      max_right h = omega (arith, ltb→lt i (max_of (values ((l, u) ∷ d))) h)

      max_left :
          ltb i (max_of (values ((l, u) ∷ d))) ≡ false → max_of (values ((j, i) ∷ (l, u) ∷ d)) ≡ i
      max_left h = omega (arith, not_lt h)
        where
          not_lt : ltb i (max_of (values ((l, u) ∷ d))) ≡ false → max_of (values ((l, u) ∷ d)) ≤ i
          not_lt h = ground arith
