-- ===== src/Payloads/Rollup.antt =====
-- The worst-of-turns rollup of src/belt/scorer/payloads.py.
use mathlib.Core.List.{map-append}
use agent_belt.Prelude.{
  ℕ, ◌≤◌, ◌≡◌, refl, sym, ◌∙◌, ap, String, Bool, true, false, not, ◌&&◌, ◌||◌, List, [], ◌∷◌, map,
  Memᴰ, arith, any, all, elem, All, All-append, keys, group, sort_by, str_le, first_min,
  first_min-least, mem-first_min, IsKeyOrder, values_of, firsts, get-group, keys-group, set_of,
  any-set_of, any-sort_by, all-eq-not-any, all_of_elem, is_empty, ltb, string_eq, Bool-cases, inl,
  inr, ◌⊎◌,
}
use agent_belt.Prelude.Int.{ℤ, ltb_ℤ, leb_ℤ, ◌≤ℤ◌}
use agent_belt.Levels.{ScoreLevel, worst_of_turns_rank, level_eq}
use agent_belt.Python.{Python}
use agent_belt.Payloads.{PerTurnLlmPayload}
use agent_belt.Payloads.Rows.{
  Cell, Raw, per_turn_raw, DimensionFeedback, cells, worse, worst_cell, per_turn_row, per_turn_rows,
  iter_per_turn_llm,
}

-- The key order of `min`, over any ranks and turns.
abbrev before : ℤ × ℕ → ℤ × ℕ → Bool
before (x, i) (y, j) = ltb_ℤ x y || (not (ltb_ℤ y x) && ltb i j)

before_irrefl : (x : ℤ) (i : ℕ) → before (x, i) (x, i) ≡ false
before_irrefl x i = ground arith

before-asym : (x y : ℤ) (i j : ℕ) → before (x, i) (y, j) ≡ true → before (y, j) (x, i) ≡ false
before-asym x y i j h = ground arith

before-neg_trans :
    (x y z : ℤ) (i j k : ℕ)
    → before (x, i) (y, j) ≡ false
    → before (y, j) (z, k) ≡ false
    → before (x, i) (z, k) ≡ false
before-neg_trans x y z i j k h l = ground arith

worse-IsKeyOrder : IsKeyOrder worse
worse-IsKeyOrder = record {
  irrefl = λ a. before_irrefl (worst_of_turns_rank a.1.score) a.0;
  asym = λ a b. before-asym (worst_of_turns_rank a.1.score) (worst_of_turns_rank b.1.score) a.0 b.0;
  neg_trans = λ a b c.
      before-neg_trans (worst_of_turns_rank a.1.score) (worst_of_turns_rank b.1.score)
        (worst_of_turns_rank c.1.score) a.0 b.0 c.0;
}

-- A turn and its token stand for the worst of some cells: they are one of them, and any cell ranks
-- higher, or ranks alike and is of no earlier turn.
abbrev pub IsWorst : ℕ → ScoreLevel → List Cell → Type 0
IsWorst idx score cs =
    ((c : Cell) × Memᴰ c cs × (c.0 ≡ idx) × (c.1.score ≡ score))
    × All
        (λ c.
          (¬ (worst_of_turns_rank c.1.score ≤ℤ worst_of_turns_rank score))
          ⊎ ((worst_of_turns_rank score ≡ worst_of_turns_rank c.1.score) × (idx ≤ c.0)))
        cs

abbrev pub RowIsWorst : Raw → List Cell → Type 0
RowIsWorst (per_turn_raw idx score entries) cs = IsWorst idx score cs
RowIsWorst _ cs = ⊥

not_before : (x y : ℤ) (i j : ℕ) → before (x, i) (y, j) ≡ false → (¬ (x ≤ℤ y)) ⊎ ((y ≡ x) × (j ≤ i))
not_before x y i j h = elim (Bool-cases (leb_ℤ x y)) [
  | inl e ↦ inr (ground arith, ground arith)
  | inr e ↦ inl (λ l. absurd (ground arith))
]

All-map {ℓ κ μ} :
    {A : Type ℓ} (P : A → Type κ) (Q : A → Type μ)
    → ((a : A) → P a → Q a)
    → (xs : List A) → All P xs
    → All Q xs
All-map P Q h [] a = tt
All-map P Q h (x ∷ xs) a = (h x a.0, All-map P Q h xs a.1)

first_min-IsWorst :
    (c : Cell) (cs : List Cell)
    → IsWorst (first_min worse c cs).0 (first_min worse c cs).1.score (c ∷ cs)
first_min-IsWorst c cs =
    let w = first_min worse c cs in
    (
      (w, mem-first_min worse c cs, refl, refl),
      All-map (λ x. worse x w ≡ false) _
          (λ x h.
            not_before (worst_of_turns_rank x.1.score) (worst_of_turns_rank w.1.score) x.0 w.0 h)
          (c ∷ cs) (first_min-least worse worse-IsKeyOrder c cs),
    )

module _ (py : Python) where
  open py use {Float}

  row-worst :
      (scorer dim : String) (rows : List (String × Cell)) (cs : List Cell)
      → values_of dim rows ≡ cs
      → All
          (λ (fb : DimensionFeedback Float). RowIsWorst fb.raw (values_of fb.dimension rows))
          (per_turn_row py scorer dim cs (worst_cell cs))
  unfolding worst_cell
  row-worst scorer dim rows [] e = tt
  row-worst scorer dim rows (c ∷ cs) e = (rw e (first_min-IsWorst c cs), tt)

  -- Every row stands for the worst of the cells that its dimension has in `rows`.
  rows-worst :
      (scorer : String) (rows : List (String × Cell)) (names : List String)
      → All
          (λ (fb : DimensionFeedback Float). RowIsWorst fb.raw (values_of fb.dimension rows))
          (per_turn_rows py scorer (group rows) names)
  unfolding per_turn_rows
  rows-worst scorer rows [] = tt
  rows-worst scorer rows (dim ∷ names) =
      All-append _ _ _
        (rw (get-group dim rows) (row-worst scorer dim rows (values_of dim rows) refl))
        (rows-worst scorer rows names)

  -- A per-turn payload's row for a dimension shows the worst verdict that any turn gave it, and
  -- the earliest turn that gave a verdict of that rank: `inconclusive` ranks below `fail` and
  -- `low`, which rank below `medium`, below `high` and `pass`.
  pub iter_per_turn_llm-worst :
      (scorer : String) (p : PerTurnLlmPayload)
      → All
          (λ (fb : DimensionFeedback Float).
            RowIsWorst fb.raw (values_of fb.dimension (cells p.turns)))
          (iter_per_turn_llm py scorer p)
  unfolding iter_per_turn_llm
  iter_per_turn_llm-worst scorer p = rows-worst scorer (cells p.turns) _

  values_of-nonempty :
      (dim : String) (rows : List (String × Cell))
      → elem dim (firsts rows) ≡ true
      → is_empty (values_of dim rows) ≡ false
  values_of-nonempty dim [] h = cc
  values_of-nonempty dim ((k, c) ∷ rows) h = ground (arith, values_of-nonempty dim rows)

  row-dimension :
      (scorer dim : String) (cs : List Cell)
      → is_empty cs ≡ false
      → map
          (λ (fb : DimensionFeedback Float). fb.dimension)
          (per_turn_row py scorer dim cs (worst_cell cs))
        ≡ dim ∷ []
  unfolding worst_cell
  row-dimension scorer dim [] h = cc
  row-dimension scorer dim (c ∷ cs) h = refl

  rows-dimension :
      (scorer : String) (rows : List (String × Cell)) (names : List String)
      → all (λ k. elem k (firsts rows)) names ≡ true
      → map
          (λ (fb : DimensionFeedback Float). fb.dimension)
          (per_turn_rows py scorer (group rows) names)
        ≡ names
  unfolding per_turn_rows
  rows-dimension scorer rows [] h = refl
  rows-dimension scorer rows (dim ∷ names) h =
      rw
        (
          map-append,
          get-group dim rows,
          row-dimension scorer dim (values_of dim rows)
              (values_of-nonempty dim rows (ground arith)),
        )
        (ap (λ ds. dim ∷ ds) (rows-dimension scorer rows names (ground arith)))

  all-keys :
      (rows : List (String × Cell))
      → all (λ k. elem k (firsts rows)) (sort_by str_le (keys (group rows))) ≡ true
  all-keys rows =
      all-eq-not-any (λ k. elem k (firsts rows)) (sort_by str_le (keys (group rows)))
      ∙ ap not (any-sort_by str_le (λ k. not (elem k (firsts rows))) (keys (group rows)))
      ∙ ap (λ ks. not (any (λ k. not (elem k (firsts rows))) ks)) (keys-group rows)
      ∙ ap not (any-set_of (λ k. not (elem k (firsts rows))) (firsts rows))
      ∙ sym (all-eq-not-any (λ k. elem k (firsts rows)) (firsts rows))
      ∙ all_of_elem (λ k. elem k (firsts rows)) (firsts rows) (λ a h. h)

  -- A per-turn payload gives one row for each dimension that some turn graded, in the order of
  -- their names, and no other row.
  iter_per_turn_llm-dimensions :
      (scorer : String) (p : PerTurnLlmPayload)
      → map (λ (fb : DimensionFeedback Float). fb.dimension) (iter_per_turn_llm py scorer p)
        ≡ sort_by str_le (set_of (firsts (cells p.turns)))
  unfolding iter_per_turn_llm
  iter_per_turn_llm-dimensions scorer p =
      rows-dimension scorer (cells p.turns) _ (all-keys (cells p.turns))
      ∙ ap (sort_by str_le) (keys-group (cells p.turns))
