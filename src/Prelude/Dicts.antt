-- ===== src/Prelude/Dicts.antt =====
-- Python dictionaries: entries in insertion order, a key standing once.
use mathlib.Core.Path.{◌≡◌, refl, sym, ◌∙◌}
use mathlib.Core.Logic.{inl, inr}
use mathlib.Core.Bool.{Bool, true, false}
use mathlib.Core.Option.{Option, none, some}
use mathlib.Core.List.{List, [], ◌∷◌, ◌++◌}
use native.Mathlib.Omega.{arith}
use agent_belt.Prelude.Tests.{Eq, ◌==◌, if◌then◌else◌, is_some, or_else, Bool-cases, eq_self}
use agent_belt.Prelude.Lists.{all, All, elem, count_if, Distinct, length}

abbrev pub Dict {ℓ} : Type ℓ → Type ℓ → Type ℓ
Dict K V = List (K × V)

module _ {ℓ} {K V : Type ℓ} where
  abbrev pub keys : Dict K V → List K
  keys [] = []
  keys ((k, v) ∷ d) = k ∷ keys d

  abbrev pub values : Dict K V → List V
  values [] = []
  values ((k, v) ∷ d) = v ∷ values d

module _ {ℓ} {K V : Type ℓ} ⦃e : Eq K⦄ where
  -- `d.get(k)`
  abbrev pub get : K → Dict K V → Option V
  get k [] = none
  get k ((j, v) ∷ d) = if k == j then some v else get k d

  -- `d[k] = f(d.get(k))`: in place, or at the end.
  abbrev pub upsert : K → (Option V → V) → Dict K V → Dict K V
  upsert k f [] = (k, f none) ∷ []
  upsert k f ((j, v) ∷ d) = if k == j then (j, f (some v)) ∷ d else (j, v) ∷ upsert k f d

  -- `d[k] = v`
  abbrev pub put : K → V → Dict K V → Dict K V
  put k v d = upsert k (λ _. v) d

  pub get-upsert :
      (k j : K) (f : Option V → V) (d : Dict K V)
      → get j (upsert k f d) ≡ (if j == k then some (f (get k d)) else get j d)
  get-upsert k j f [] = refl
  get-upsert k j f ((i, v) ∷ d) =
      ground (arith, e.beq_iff k i, e.beq_iff j i, e.beq_iff j k, get-upsert k j f d)

  pub keys-upsert :
      (k : K) (f : Option V → V) (d : Dict K V)
      → keys (upsert k f d) ≡ (if elem k (keys d) then keys d else keys d ++ k ∷ [])
  keys-upsert k f [] = refl
  keys-upsert k f ((i, v) ∷ d) = ground (arith, keys-upsert k f d)

  pub all-upsert :
      (p : K × V → Bool) (k : K) (f : Option V → V) (d : Dict K V)
      → ((j : K) (o : Option V) → p (j, f o) ≡ true)
      → all p d ≡ true
      → all p (upsert k f d) ≡ true
  all-upsert p k f [] h a = ground (arith, h k none)
  all-upsert p k f ((i, v) ∷ d) h a = ground (arith, h i (some v), all-upsert p k f d h)

  pub is_some-get : (k : K) (d : Dict K V) → is_some (get k d) ≡ elem k (keys d)
  is_some-get k [] = refl
  is_some-get k ((j, v) ∷ d) = ground (arith, is_some-get k d)

  pub all-get :
      (p : V → Bool) (k : K) (v : V) (d : Dict K V)
      → all (λ entry. p entry.1) d ≡ true
      → get k d ≡ some v
      → p v ≡ true
  all-get p k v [] h g = absurd (ground (arith, g))
  all-get p k v ((j, w) ∷ d) h g = elim (Bool-cases (k == j)) [
    | inl e ↦ let same : w ≡ v = ground (arith, g) in rw (sym same) (ground (arith, h))
    | inr e ↦ all-get p k v d (ground (arith, h)) (ground (arith, g))
  ]

  under_new_key :
      (k : K) (v : V) (d xs : Dict K V)
      → elem k (keys xs) ≡ false
      → All (λ (j, w). get j d ≡ some w) xs
      → All (λ (j, w). get j ((k, v) ∷ d) ≡ some w) xs
  under_new_key k v d [] h a = tt
  under_new_key k v d ((j, w) ∷ xs) h a = (
    other (j == k) (ground (arith, h, e.beq_iff k j, e.beq_iff j k)) (get j d) ∙ a.0,
    under_new_key k v d xs (ground arith) a.1,
  )
    where
      other : (b : Bool) → b ≡ false → (o : Option V) → (if b then some v else o) ≡ o
      other b h o = rw h refl

  -- In a dictionary with distinct keys an entry is found under its key.
  pub All-entries : (d : Dict K V) → Distinct (keys d) → All (λ (k, v). get k d ≡ some v) d
  All-entries [] h = tt
  All-entries ((k, v) ∷ d) h = (rw (eq_self k), under_new_key k v d d h.0 (All-entries d h.1))

  count-entries :
      (p : V → Bool) (default : V) (d xs : Dict K V)
      → All (λ (k, v). get k d ≡ some v) xs
      → count_if p (values xs) ≡ count_if (λ k. p (or_else (get k d) default)) (keys xs)
  count-entries p default d [] a = refl
  count-entries p default d ((k, v) ∷ xs) a =
      rw (a.0) (ground (arith, count-entries p default d xs a.1))

  -- To count values is to count the keys at which they are found.
  pub count-values :
      (p : V → Bool) (default : V) (d : Dict K V)
      → Distinct (keys d)
      → count_if p (values d) ≡ count_if (λ k. p (or_else (get k d) default)) (keys d)
  count-values p default d h = count-entries p default d d (All-entries d h)

  pub length-keys : (d : Dict K V) → length (keys d) ≡ length d
  length-keys [] = refl
  length-keys ((k, v) ∷ d) = ground (arith, length-keys d)
