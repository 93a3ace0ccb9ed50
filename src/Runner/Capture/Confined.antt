-- ===== src/Runner/Capture/Confined.antt =====
-- The capture of a turn's files stays below the workspace.
use agent_belt.Prelude.{
  ℕ, zero, suc, ◌≡◌, refl, ap, ◌∙◌, String, true, Option, none, some, List, [], ◌∷◌, map, take,
  length, ◌≤◌, sort_by, str_le, Bool-cases, inl, inr, arith,
}
use agent_belt.Filter.{PathParts, is_descendant}
use agent_belt.Runner.Capture.{
  Workspace, safe_resolve, inside, capture_file, capture_files, max_files_per_turn,
}

-- Two file systems that agree on what a workspace's paths are and on the files below its root.
pub record SameInside (a b : Workspace) : Type 0 where
  pub root : a.root ≡ b.root
  pub resolve : (rel : String) → a.resolve rel ≡ b.resolve rel
  pub is_file : (p : PathParts) → is_descendant p a.root ≡ true → a.is_file p ≡ b.is_file p
  pub read : (p : PathParts) → is_descendant p a.root ≡ true → a.read p ≡ b.read p

map_ext : {A B : Type 0} (f g : A → B) → ((a : A) → f a ≡ g a) → (xs : List A) → map f xs ≡ map g xs
map_ext f g h [] = refl
map_ext f g h (x ∷ xs) = cc (h x, map_ext f g h xs)

length-take : {A : Type 0} (n : ℕ) (xs : List A) → length (take n xs) ≤ n
length-take zero xs = omega arith
length-take (suc n) [] = omega arith
length-take (suc n) (x ∷ xs) = omega (arith, length-take n xs)

length-map : {A B : Type 0} (f : A → B) (xs : List A) → length (map f xs) ≡ length xs
length-map f [] = refl
length-map f (x ∷ xs) = omega (arith, length-map f xs)

module _ (len : String → ℕ) (prefix : ℕ → String → String) where
  capture-inside :
      (a b : Workspace) (o : Option PathParts)
      → SameInside a b
      → capture_file len prefix a (inside a o) ≡ capture_file len prefix b (inside b o)
  capture-inside a b none s = refl
  capture-inside a b (some full) s =
      let same = ap (is_descendant full) s.root in
      elim (Bool-cases (is_descendant full a.root)) [
        | inl h ↦ ground (arith, h, same, s.is_file full h, s.read full h)
        | inr h ↦ ground (arith, h, same)
      ]

  capture-same :
      (a b : Workspace) (rel : String)
      → SameInside a b
      → capture_file len prefix a (safe_resolve a rel)
        ≡ capture_file len prefix b (safe_resolve b rel)
  capture-same a b rel s =
      ap (λ o. capture_file len prefix a (inside a o)) (s.resolve rel)
      ∙ capture-inside a b (b.resolve rel) s

  -- What is captured depends on nothing outside the workspace: two file systems that agree on the
  -- files below its root give the same files. And no more files are captured than the limit.
  pub capture_files-confined :
      (a b : Workspace) (paths : List String)
      → SameInside a b
      → (capture_files len prefix a paths ≡ capture_files len prefix b paths)
        × (length (capture_files len prefix a paths) ≤ max_files_per_turn)
  unfolding capture_files
  capture_files-confined a b paths s =
      let entry : Workspace → String → String × Option String =
        λ ws rel. (rel, capture_file len prefix ws (safe_resolve ws rel)) in
      let rels = take max_files_per_turn (sort_by str_le paths) in
      (
        map_ext (entry a) (entry b) (λ rel. ap (λ c. (rel, c)) (capture-same a b rel s)) rels,
        rw (length-map (entry a) rels) (length-take max_files_per_turn (sort_by str_le paths)),
      )
