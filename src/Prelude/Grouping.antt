-- ===== src/Prelude/Grouping.antt =====
-- `d.setdefault(k, []).append(v)` and `d[k] = d.get(k, 0) + 1` over a list.
use Prim.Native.Nat.{ℕ, ◌+◌}
use mathlib.Core.Path.{◌≡◌, refl, sym, ◌∙◌}
use mathlib.Core.Option.{Option}
use mathlib.Core.Logic.{inl, inr}
use mathlib.Core.List.{List, [], ◌∷◌, ◌++◌, append-nil, append_assoc}
use native.Mathlib.Omega.{arith}
use agent_belt.Prelude.Tests.{Eq, ◌==◌, if◌then◌else◌, or_else, Bool-cases}
use agent_belt.Prelude.Lists.{add, set_of, set_of_onto}
use agent_belt.Prelude.Dicts.{Dict, get, upsert, keys, keys-upsert, get-upsert}

abbrev pub push {ℓ} : {V : Type ℓ} → V → Option (List V) → List V
push v old = or_else old [] ++ v ∷ []

abbrev pub bump : Option ℕ → ℕ
bump old = or_else old 0 + 1

module _ {ℓ} {K V : Type ℓ} ⦃e : Eq K⦄ where
  unfoldable pub group_onto : Dict K (List V) → List (K × V) → Dict K (List V)
  group_onto d [] = d
  group_onto d ((k, v) ∷ rows) = group_onto (upsert k (push v) d) rows

  abbrev pub group : List (K × V) → Dict K (List V)
  group rows = group_onto [] rows

  -- The values that stand beside a key.
  abbrev pub values_of : K → List (K × V) → List V
  values_of k [] = []
  values_of k ((j, v) ∷ rows) = let rest = values_of k rows in if k == j then v ∷ rest else rest

  get-group_onto :
      (k : K) (d : Dict K (List V)) (rows : List (K × V))
      → or_else (get k (group_onto d rows)) [] ≡ or_else (get k d) [] ++ values_of k rows
  unfolding group_onto
  get-group_onto k d [] = sym (append-nil _)
  get-group_onto k d ((j, v) ∷ rows) = elim (Bool-cases (k == j)) [
    | inl h ↦
        rw (get-group_onto k (upsert j (push v) d) rows, get-upsert j k (push v) d, h)
          (rw (sym ((e.beq_iff k j).0 h))
            (append_assoc (or_else (get k d) []) (v ∷ []) (values_of k rows)))
    | inr h ↦ rw (get-group_onto k (upsert j (push v) d) rows, get-upsert j k (push v) d, h)
  ]

  pub get-group : (k : K) (rows : List (K × V)) → or_else (get k (group rows)) [] ≡ values_of k rows
  get-group k rows = get-group_onto k [] rows

  abbrev pub firsts : List (K × V) → List K
  firsts [] = []
  firsts ((k, v) ∷ rows) = k ∷ firsts rows

  keys-group_onto :
      (d : Dict K (List V)) (rows : List (K × V))
      → keys (group_onto d rows) ≡ set_of_onto (keys d) (firsts rows)
  unfolding group_onto set_of_onto add
  keys-group_onto d [] = refl
  keys-group_onto d ((k, v) ∷ rows) =
      keys-group_onto (upsert k (push v) d) rows ∙ (rw (keys-upsert k (push v) d))

  -- The keys are those of the rows, each once, in the order of their first rows.
  pub keys-group : (rows : List (K × V)) → keys (group rows) ≡ set_of (firsts rows)
  keys-group rows = keys-group_onto [] rows

module _ {ℓ κ} {V : Type ℓ} {B : Type κ} (f : V → B → B) where
  -- The loop over the values of one key.
  abbrev pub gather : B → List V → B
  gather b [] = b
  gather b (v ∷ vs) = gather (f v b) vs

module _ {ℓ κ} {V : Type ℓ} {B : Type κ} (f : V → B → B) where
  pub gather-append : (b : B) (us vs : List V) → gather f b (us ++ vs) ≡ gather f (gather f b us) vs
  gather-append b [] vs = refl
  gather-append b (u ∷ us) vs = gather-append (f u b) us vs

-- `acc = d.setdefault(k, init); acc = f(v, acc)` over the rows.
module _ {ℓ} {K V B : Type ℓ} ⦃e : Eq K⦄ (f : V → B → B) (init : B) where
  unfoldable pub accumulate_onto : Dict K B → List (K × V) → Dict K B
  accumulate_onto d [] = d
  accumulate_onto d ((k, v) ∷ rows) =
      accumulate_onto (upsert k (λ old. f v (or_else old init)) d) rows

  abbrev pub accumulate : List (K × V) → Dict K B
  accumulate rows = accumulate_onto [] rows

module _ {ℓ} {K V B : Type ℓ} ⦃e : Eq K⦄ (f : V → B → B) (init : B) where
  pub get-accumulate_onto :
      (k : K) (d : Dict K B) (rows : List (K × V))
      → or_else (get k (accumulate_onto f init d rows)) init
        ≡ gather f (or_else (get k d) init) (values_of k rows)
  unfolding accumulate_onto
  get-accumulate_onto k d [] = refl
  get-accumulate_onto k d ((j, v) ∷ rows) =
      let next : Option B → B = λ old. f v (or_else old init) in
      elim (Bool-cases (k == j)) [
        | inl h ↦
            rw (get-accumulate_onto k (upsert j next d) rows, get-upsert j k next d, h)
              (rw (sym ((e.beq_iff k j).0 h)) refl)
        | inr h ↦ rw (get-accumulate_onto k (upsert j next d) rows, get-upsert j k next d, h)
      ]

  -- A key's entry is the loop over the rows of that key alone.
  pub get-accumulate :
      (k : K) (rows : List (K × V))
      → or_else (get k (accumulate f init rows)) init ≡ gather f init (values_of k rows)
  get-accumulate k rows = get-accumulate_onto k [] rows

  keys-accumulate_onto :
      (d : Dict K B) (rows : List (K × V))
      → keys (accumulate_onto f init d rows) ≡ set_of_onto (keys d) (firsts rows)
  unfolding accumulate_onto set_of_onto add
  keys-accumulate_onto d [] = refl
  keys-accumulate_onto d ((k, v) ∷ rows) =
      let next : Option B → B = λ old. f v (or_else old init) in
      keys-accumulate_onto (upsert k next d) rows ∙ (rw (keys-upsert k next d))

  pub keys-accumulate : (rows : List (K × V)) → keys (accumulate f init rows) ≡ set_of (firsts rows)
  keys-accumulate rows = keys-accumulate_onto [] rows

module _ {ℓ} {K V B : Type ℓ} ⦃e : Eq K⦄ (g : V → Option B → B) where
  keys-gather_onto :
      (d : Dict K B) (rows : List (K × V))
      → keys (gather (λ (row : K × V). upsert row.0 (g row.1)) d rows)
        ≡ set_of_onto (keys d) (firsts rows)
  unfolding set_of_onto add
  keys-gather_onto d [] = refl
  keys-gather_onto d ((k, v) ∷ rows) =
      keys-gather_onto (upsert k (g v) d) rows ∙ (rw (keys-upsert k (g v) d))

  -- A loop that sets one key for each row leaves the rows' keys.
  pub keys-gather :
      (rows : List (K × V))
      → keys (gather (λ (row : K × V). upsert row.0 (g row.1)) [] rows) ≡ set_of (firsts rows)
  keys-gather rows = keys-gather_onto [] rows

module _ {ℓ κ} {K : Type ℓ} {B : Type κ} (m : B → ℕ) where
  -- A measure, summed over the entries.
  abbrev pub sum_over : List (K × B) → ℕ
  sum_over [] = 0
  sum_over ((k, b) ∷ d) = m b + sum_over d

-- A measure that each row raises by its weight.
module _ {ℓ} {K V B : Type ℓ} ⦃e : Eq K⦄ (f : V → B → B) (init : B) (m : B → ℕ) (w : V → ℕ)
    (none_yet : m init ≡ 0) (raised : (v : V) (b : B) → m (f v b) ≡ m b + w v) where
  sum-upsert :
      (k : K) (v : V) (d : Dict K B)
      → sum_over m (upsert k (λ old. f v (or_else old init)) d) ≡ sum_over m d + w v
  sum-upsert k v [] = omega (arith, raised v init, none_yet)
  sum-upsert k v ((j, b) ∷ d) = ground (arith, raised v b, sum-upsert k v d)

  sum-accumulate_onto :
      (d : Dict K B) (rows : List (K × V))
      → sum_over m (accumulate_onto f init d rows) ≡ sum_over m d + sum_over w rows
  unfolding accumulate_onto
  sum-accumulate_onto d [] = omega arith
  sum-accumulate_onto d ((k, v) ∷ rows) = omega (
    arith,
    sum-accumulate_onto (upsert k (λ old. f v (or_else old init)) d) rows,
    sum-upsert k v d,
  )

  pub sum-accumulate : (rows : List (K × V)) → sum_over m (accumulate f init rows) ≡ sum_over w rows
  sum-accumulate rows = omega (arith, sum-accumulate_onto [] rows)
