-- ===== src/Runner/Stream/Prefix.antt =====
-- What a stream file holds after any sequence of writes.
use mathlib.Core.List.{append_assoc, append-nil}
use agent_belt.Prelude.{
  ℕ, ◌+◌, ◌≤◌, ◌≡◌, refl, sym, ◌∙◌, String, true, false, List, [], ◌∷◌, ◌++◌, leb, if◌then◌else◌,
  arith,
}
use agent_belt.Runner.Stream.{open_writer, write, write_all}

module _ (size : String → ℕ) (marker : ℕ → String) where
  abbrev pub total : List String → ℕ
  total [] = 0
  total (text ∷ texts) = size text + total texts

  -- The file of a cap, apart from the wrapper: the texts up to the first one that does not fit
  -- with those before it, whose bytes are `used`, and in its place the marker.
  abbrev pub cut : (max used : ℕ) → List String → List String
  cut max used [] = []
  cut max used (text ∷ texts) =
      if leb (used + size text) max
      then text ∷ cut max (used + size text) texts
      else marker max ∷ []

  write_all-tripped :
      (texts : List String) (fh : List String) (max written : ℕ)
      → (write_all size marker texts
          (record { fh = fh; max = max; written = written; tripped = true })).fh
        ≡ fh
  unfolding write_all write
  write_all-tripped [] fh max written = refl
  write_all-tripped (text ∷ texts) fh max written = write_all-tripped texts fh max written

  write_all-cut :
      (texts : List String) (fh : List String) (max written : ℕ)
      → (write_all size marker texts
          (record { fh = fh; max = max; written = written; tripped = false })).fh
        ≡ fh ++ cut max written texts
  unfolding write_all write
  write_all-cut [] fh max written = sym (append-nil fh)
  write_all-cut (text ∷ texts) fh max written =
      elim (leb (written + size text) max)
        as (λ b.
          (write_all size marker texts (
            if b
            then record {
              fh = fh ++ text ∷ [];
              max = max;
              written = written + size text;
              tripped = false;
            }
            else record {
              fh = fh ++ marker max ∷ [];
              max = max;
              written = written;
              tripped = true;
            })).fh
          ≡ fh ++ (if b then text ∷ cut max (written + size text) texts else marker max ∷ [])) [
            | true ↦
                write_all-cut texts (fh ++ text ∷ []) max (written + size text)
                ∙ append_assoc fh (text ∷ []) (cut max (written + size text) texts)
            | false ↦ write_all-tripped texts (fh ++ marker max ∷ []) max written
          ]

  cut-bounded :
      (max used : ℕ) (texts : List String)
      → used ≤ max
      → used + total (cut max used texts) ≤ max + size (marker max)
  cut-bounded max used [] h = omega arith
  cut-bounded max used (text ∷ texts) h = ground (arith, cut-bounded max (used + size text) texts)

  -- After any writes the stream file holds the texts written, up to the first one that does not
  -- fit in the cap with those before it; that one is replaced by one marker, and nothing follows.
  -- So the file is within the cap and the size of one marker.
  pub write_all-bounded :
      (texts : List String) (max : ℕ)
      → let fh = (write_all size marker texts (open_writer max)).fh in
        (fh ≡ cut max 0 texts) × (total fh ≤ max + size (marker max))
  write_all-bounded texts max =
      let e = write_all-cut texts [] max 0 in (e, rw e (omega (arith, cut-bounded max 0 texts)))
