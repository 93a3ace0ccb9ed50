-- ===== src/Filter.antt =====
-- src/belt/filter.py: which groups and scenarios a run selects.
pub mod Selection
pub mod Parsing
use agent_belt.Prelude.{
  String, Bool, true, false, not, ◌&&◌, ◌||◌, Option, none, some, List, [], ◌∷◌, ◌++◌, Eq, ◌==◌,
  string_eq, str_in, if◌then◌else◌, all, any as any_of, elem, keep, map, is_empty, is_some, set_of,
  add,
}

infixl 20 ◌>>=◌
abbrev pub ◌>>=◌ : {A B : Type 0} → Option A → (A → Option B) → Option B
none >>= f = none
some a >>= f = f a

-- A resolved path: its parts, the last one first, so that the parent is the tail.
abbrev pub PathParts : Type 0
PathParts = List String

abbrev pub same_path : PathParts → PathParts → Bool
same_path [] [] = true
same_path (a ∷ p) (b ∷ q) = (a == b) && same_path p q
same_path _ _ = false

-- `child.relative_to(parent)` succeeds: also for the path itself.
abbrev pub is_descendant : (child parent : PathParts) → Bool
is_descendant [] parent = same_path [] parent
is_descendant (a ∷ p) parent = same_path (a ∷ p) parent || is_descendant p parent

abbrev pub parent : PathParts → PathParts
parent [] = []
parent (a ∷ p) = p

abbrev pub name : PathParts → String
name [] = ""
name (a ∷ p) = a

-- An entry of `parsed_paths`: a directory, and the name of a scenario or None.
abbrev pub ParsedPath : Type 0
ParsedPath = PathParts × Option String

pub record ScenarioFilter : Type 0 where
  pub tags : List String
  pub parsed_paths : Option (List ParsedPath)

pub data Step : Type 0 where
  return_all : Step
  continue : (matched : Bool) → (allowed : List String) → Step

-- The body of the loop once an entry is related to the group; `same` is `filter_path == g`.
abbrev pub related_entry : (same : Bool) → Option String → List String → Step
related_entry same none allowed = return_all
related_entry same (some scenario_name) allowed =
    if not (scenario_name == "") && same
    then continue true (add scenario_name allowed)
    else (if not same then return_all else continue true allowed)

unfoldable pub is_related : PathParts → PathParts → Bool
is_related g filter_path =
    same_path g filter_path || (is_descendant g filter_path || is_descendant filter_path g)

abbrev pub path_step : PathParts → ParsedPath → Bool → List String → Step
path_step g (filter_path, scenario_name) matched allowed =
    if is_related g filter_path
    then related_entry (same_path filter_path g) scenario_name allowed
    else continue matched allowed

unfoldable pub match_paths : PathParts → List ParsedPath → Bool → List String → Bool × List String
match_paths g [] matched allowed = (matched, allowed)
match_paths g (p ∷ ps) matched allowed = elim (path_step g p matched allowed) [
  | return_all ↦ (true, [])
  | continue m names ↦ match_paths g ps m names
]

-- `matches_group`, of a resolved directory.
abbrev pub matches_group : ScenarioFilter → PathParts → Bool × List String
matches_group f g = elim f.parsed_paths [
  | none ↦ (true, [])
  | some paths ↦ match_paths g paths false []
]

abbrev pub has_path_filter : ScenarioFilter → Bool
has_path_filter f = is_some f.parsed_paths

abbrev pub has_tag_filter : ScenarioFilter → Bool
has_tag_filter f = not (is_empty f.tags)

-- How src/belt/runner/phases/parse_filter.py reads the answer for a scenario of the group.
abbrev pub is_allowed : Bool × List String → String → Bool
is_allowed (matched, allowed_names) scenario =
    matched && (is_empty allowed_names || elem scenario allowed_names)

-- `matches_scenario`, by the tags of the scenario and the default tags of its group.
abbrev pub matches_scenario : ScenarioFilter → (tags default_tags : List String) → Bool
matches_scenario f tags default_tags =
    is_empty f.tags || all (λ t. elem t tags || elem t default_tags) f.tags

-- What the parser reads of the directories, and of Python's operations on texts.
pub record FileTree : Type 0 where
  pub scenarios_root : PathParts
  pub root_is_group : Bool
  -- `(scenarios_root / f).resolve()`
  pub resolve : String → PathParts
  pub is_dir : PathParts → Bool
  -- `s.strip()`, `s.split(",")`, `s.removesuffix(".json")`
  pub strip : String → String
  pub split_commas : String → List String
  pub remove_json : String → String
  -- the parts of `s.partition(separator)` before and after the separator
  pub partition : (separator s : String) → String × String

abbrev pub has_separator : String → Bool
has_separator f = str_in "/" f || str_in "\\" f

module _ (tree : FileTree) where
  abbrev pub split_head : String → String × String
  split_head f =
      let parts = tree.partition "/" f in
      if str_in "\\" parts.0 && not (str_in "/" parts.0) then tree.partition "\\" f else parts

  -- `_strip_root_basename_prefix`
  abbrev pub strip_root_basename_prefix : String → Option String
  strip_root_basename_prefix f =
      let parts = split_head f in
      if not (has_separator f)
      then some f
      else (if (parts.0 == name tree.scenarios_root) && not (parts.1 == "")
          then some (parts.1)
          else none)

  -- An entry that is no scenario of the root; `none` is the ScenarioError.
  abbrev pub parse_entry : String → Option ParsedPath
  parse_entry f =
      let p = tree.resolve f in
      if tree.is_dir p
      then some (p, none)
      else (if not (has_separator f)
          then none
          else (if not (tree.is_dir (parent p))
              then none
              else some (parent p, some (tree.remove_json (name p)))))

  abbrev pub parse_stripped : String → Option String → Option ParsedPath
  parse_stripped f none = parse_entry f
  parse_stripped f (some stripped) =
      if not (has_separator stripped)
      then some (tree.scenarios_root, some (tree.remove_json stripped))
      else parse_entry f

  abbrev pub parse_one : String → Option ParsedPath
  parse_one f =
      if tree.root_is_group then parse_stripped f (strip_root_basename_prefix f) else parse_entry f

  unfoldable pub parse_entries : List String → Option (List ParsedPath)
  parse_entries [] = some []
  parse_entries (f ∷ fs) = do p ← parse_one f; ps ← parse_entries fs; some (p ∷ ps)

  abbrev pub stripped_entries : String → List String
  stripped_entries s = keep (λ f. not (f == "")) (map tree.strip (tree.split_commas s))

  -- `_parse_path_filter`; `none` is the ScenarioError of the first entry that does not resolve.
  abbrev pub parse_path_filter : String → Option (List ParsedPath)
  parse_path_filter scenarios_filter = parse_entries (stripped_entries scenarios_filter)

  abbrev given : Option String → String
  given none = ""
  given (some s) = s

  abbrev filter_with : List String → List ParsedPath → ScenarioFilter
  filter_with tags [] = record { tags = tags; parsed_paths = none }
  filter_with tags (p ∷ ps) = record { tags = tags; parsed_paths = some (p ∷ ps) }

  -- `from_cli_args`: an absent or empty option is no filter, and a filter without entries neither.
  abbrev pub from_cli_args : (tags scenarios : Option String) → Option ScenarioFilter
  from_cli_args tags scenarios = do
    let tag_set = if given tags == "" then [] else set_of (stripped_entries (given tags))
    parsed ← (if given scenarios == "" then some [] else parse_path_filter (given scenarios))
    some (filter_with tag_set parsed)
