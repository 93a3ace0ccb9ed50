-- ===== src/Tests/FilterCases.antt =====
-- The filter on a tree of two groups below one directory.
use agent_belt.Prelude.{
  ◌≡◌, refl, ◌==◌, string_eq, if◌then◌else◌, String, true, false, ◌||◌, none, some, List, [], ◌∷◌,
  any as any_of,
}
use agent_belt.Filter.{
  PathParts, ParsedPath, FileTree, ScenarioFilter, same_path, matches_group, matches_scenario,
  match_paths, is_related, is_allowed, parse_entries, parse_path_filter, from_cli_args,
}
use agent_belt.Filter.Selection.{is_allowed-matches_group, covers}

abbrev root : PathParts
root = "scenarios" ∷ []

abbrev claude : PathParts
claude = "claude" ∷ "agents" ∷ root

abbrev resolve_sample : String → PathParts
resolve_sample f =
    if f == "agents"
    then "agents" ∷ root
    else (if f == "agents/claude/first" then "first" ∷ claude else f ∷ root)

abbrev sample_tree : FileTree
sample_tree = record {
  scenarios_root = root;
  root_is_group = false;
  resolve = resolve_sample;
  is_dir = λ p. same_path p root || (same_path p ("agents" ∷ root) || same_path p claude);
  strip = λ s. s;
  split_commas = λ s. s ∷ [];
  remove_json = λ s. s;
  partition = λ separator s. (s, "");
}

abbrev one_scenario : List ParsedPath
one_scenario = (claude, some "first") ∷ []

abbrev sample_filter : ScenarioFilter
sample_filter = record { tags = "smoke" ∷ []; parsed_paths = some one_scenario }

names_a_scenario : parse_path_filter sample_tree "agents/claude/first" ≡ some one_scenario
unfolding parse_entries
names_a_scenario = refl

typo_rejected : from_cli_args sample_tree none (some "claude") ≡ none
unfolding parse_entries
typo_rejected = refl

ancestor_matches : matches_group sample_filter ("agents" ∷ root) ≡ (true, [])
unfolding match_paths is_related
ancestor_matches = refl

tags_required : matches_scenario sample_filter ("fast" ∷ []) ("smoke" ∷ []) ≡ true
tags_required = refl

is_allowed-matches_group_example :
    is_allowed (matches_group sample_filter claude) "second"
    ≡ any_of (covers claude "second") one_scenario
is_allowed-matches_group_example =
    is_allowed-matches_group sample_filter one_scenario claude "second" refl refl
