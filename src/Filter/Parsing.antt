-- ===== src/Filter/Parsing.antt =====
-- What `_parse_path_filter` accepts.
use agent_belt.Prelude.{
  ◌≡◌, refl, String, Bool, true, false, ◌&&◌, ◌||◌, Option, none, some, List, [], ◌∷◌, string_eq,
  if◌then◌else◌, all, length, arith, eq_self,
}
use agent_belt.Filter.{
  ◌>>=◌, PathParts, ParsedPath, FileTree, same_path, parse_one, parse_entry, parse_stripped,
  parse_entries, parse_path_filter, stripped_entries, strip_root_basename_prefix,
}

same_path_self : (p : PathParts) → same_path p p ≡ true
same_path_self [] = refl
same_path_self (a ∷ p) = ground (arith, eq_self a, same_path_self p)

module _ (tree : FileTree) where
  -- An entry names a directory that exists, or the root, which is then a group.
  abbrev pub is_resolved : ParsedPath → Bool
  is_resolved p = tree.is_dir p.0 || (tree.root_is_group && same_path p.0 tree.scenarios_root)

  abbrev resolved : Option ParsedPath → Bool
  resolved none = true
  resolved (some p) = is_resolved p

  resolved-parse_entry : (f : String) → resolved (parse_entry tree f) ≡ true
  resolved-parse_entry f = ground arith

  resolved-parse_stripped :
      (f : String) (s : Option String)
      → tree.root_is_group ≡ true
      → resolved (parse_stripped tree f s) ≡ true
  resolved-parse_stripped f none h = resolved-parse_entry f
  resolved-parse_stripped f (some s) h =
      ground (arith, h, resolved-parse_entry f, same_path_self tree.scenarios_root)

  resolved-if :
      (b : Bool) (x y : Option ParsedPath)
      → (b ≡ true → resolved x ≡ true)
      → resolved y ≡ true
      → resolved (if b then x else y) ≡ true
  resolved-if true x y h k = h refl
  resolved-if false x y h k = k

  resolved-parse_one : (f : String) → resolved (parse_one tree f) ≡ true
  resolved-parse_one f =
      resolved-if tree.root_is_group (parse_stripped tree f (strip_root_basename_prefix tree f))
        (parse_entry tree f) (resolved-parse_stripped f (strip_root_basename_prefix tree f))
        (resolved-parse_entry f)

  abbrev AllResolved : List String → Option (List ParsedPath) → Type 0
  AllResolved fs none = Unit
  AllResolved fs (some ps) = (all is_resolved ps ≡ true) × (length ps ≡ length fs)

  AllResolved-one :
      (f : String) (fs : List String) (p : Option ParsedPath) (ps : Option (List ParsedPath))
      → resolved p ≡ true
      → AllResolved fs ps
      → AllResolved (f ∷ fs) (p >>= (λ q. ps >>= (λ qs. some (q ∷ qs))))
  AllResolved-one f fs none ps r h = tt
  AllResolved-one f fs (some p) none r h = tt
  AllResolved-one f fs (some p) (some ps) r h = (ground (arith, h.0), ground (arith, h.1))

  AllResolved-parse_entries : (fs : List String) → AllResolved fs (parse_entries tree fs)
  unfolding parse_entries
  AllResolved-parse_entries [] = (refl, refl)
  AllResolved-parse_entries (f ∷ fs) =
      AllResolved-one f fs (parse_one tree f) (parse_entries tree fs) (resolved-parse_one f)
        (AllResolved-parse_entries fs)

  -- A list of filters that is accepted gives one entry for each filter that is not blank, and each
  -- has a directory that exists, or is the root where the root is a group.
  parse_path_filter-resolved :
      (s : String) (ps : List ParsedPath)
      → parse_path_filter tree s ≡ some ps
      → (all is_resolved ps ≡ true) × (length ps ≡ length (stripped_entries tree s))
  parse_path_filter-resolved s ps h = rw h at (AllResolved-parse_entries (stripped_entries tree s))
