-- ===== src/Rules/Helpers/Leaves.antt =====
-- `_iter_result_strings` of src/belt/scorer/rules/helpers.py: which string leaves of a tool call's
-- result the checks see as they are.
use agent_belt.Prelude.{
  ℕ, zero, suc, ◌+◌, ◌<◌, String, ◌≡◌, true, some, arith, elem, elem-append, string_eq, str_in,
  any_of_elem,
}
use text.Mathlib.TextEquality.{eq_iff}
use agent_belt.Json.{Value, Items, Fields, str, arr, obj, cons, field}
use agent_belt.Python.{Python}
use agent_belt.Entities.{ToolCall}
use agent_belt.Rules.Helpers.{walk, walk_items, walk_fields, iter_result_strings, result_contains}

-- The text `s` is a string of the value, under `n` arrays and objects.
mutual
  pub data Leaf {F : Type 0} (s : String) : ℕ → Value F → Type 0 where
    here : {t : String} → t ≡ s → Leaf s zero (str t)
    in_arr : {n : ℕ} {xs : Items F} → LeafItems s n xs → Leaf s (suc n) (arr xs)
    in_obj : {n : ℕ} {fs : Fields F} → LeafFields s n fs → Leaf s (suc n) (obj fs)

  pub data LeafItems {F : Type 0} (s : String) : ℕ → Items F → Type 0 where
    first : {n : ℕ} {v : Value F} {xs : Items F} → Leaf s n v → LeafItems s n (cons v xs)
    later : {n : ℕ} {v : Value F} {xs : Items F} → LeafItems s n xs → LeafItems s n (cons v xs)

  pub data LeafFields {F : Type 0} (s : String) : ℕ → Fields F → Type 0 where
    first_field :
        {n : ℕ} {k : String} {v : Value F} {fs : Fields F}
        → Leaf s n v
        → LeafFields s n (field k v fs)
    later_field :
        {n : ℕ} {k : String} {v : Value F} {fs : Fields F}
        → LeafFields s n fs
        → LeafFields s n (field k v fs)

module _ (py : Python) where
  open py use {Float, lower}

  mutual
    unfolding walk

    elem-walk :
        (s : String) {n : ℕ} {v : Value Float} (l : Leaf s n v) (depth : ℕ)
        → depth + n < 10
        → elem s (walk py v depth) ≡ true
    elem-walk s (here {t = t} e) depth h = ground (arith, eq_iff s t)
    elem-walk s (in_arr l) depth h = ground (arith, elem-walk_items s l (suc depth) (omega arith))
    elem-walk s (in_obj l) depth h = ground (arith, elem-walk_fields s l (suc depth) (omega arith))

    elem-walk_items :
        (s : String) {n : ℕ} {xs : Items Float} (l : LeafItems s n xs) (depth : ℕ)
        → depth + n < 10
        → elem s (walk_items py xs depth) ≡ true
    elem-walk_items s (first {v = v} {xs = xs} l) depth h =
        rw elem-append (ground (arith, elem-walk s l depth h))
    elem-walk_items s (later {v = v} {xs = xs} l) depth h =
        rw elem-append (ground (arith, elem-walk_items s l depth h))

    elem-walk_fields :
        (s : String) {n : ℕ} {fs : Fields Float} (l : LeafFields s n fs) (depth : ℕ)
        → depth + n < 10
        → elem s (walk_fields py fs depth) ≡ true
    elem-walk_fields s (first_field l) depth h =
        rw elem-append (ground (arith, elem-walk s l depth h))
    elem-walk_fields s (later_field l) depth h =
        rw elem-append (ground (arith, elem-walk_fields s l depth h))

  -- A string of a tool call's result that lies under fewer than ten containers is among the
  -- texts to match, as it is; so a check for a substring of it, up to case, passes.
  result_contains-Leaf :
      (tc : ToolCall Float) (fs : Fields Float) (s substring : String) (n : ℕ)
      → tc.result ≡ some fs
      → Leaf {F = Float} s n (obj fs)
      → n < 10
      → str_in (lower substring) (lower s) ≡ true
      → (elem s (iter_result_strings py tc) ≡ true) × (result_contains py tc substring ≡ true)
  unfolding iter_result_strings result_contains
  result_contains-Leaf tc fs s substring n e l h found =
      let listed : elem s (walk py (obj fs) 0) ≡ true = elem-walk s l 0 (omega arith) in
      (
        rw e listed,
        rw e (
            any_of_elem (λ text. str_in (lower substring) (lower text)) s (walk py (obj fs) 0)
              listed found),
      )
