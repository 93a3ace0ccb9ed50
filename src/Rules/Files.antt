-- ===== src/Rules/Files.antt =====
-- src/belt/scorer/rules/{state,file_diff}.py
use agent_belt.Prelude.{
  ℕ, String, Bool, false, not, ◌&&◌, ◌||◌, Option, none, some, List, [], ◌∷◌, ◌++◌, map, elem, keep,
  set_of, all, is_empty, is_some, str_in, concat, join, sort_by, str_le, or_else, get, Dict,
  if◌then◌else◌, string_eq,
}
use agent_belt.Entities.{TurnOutput, TurnExpectation, StateExpectation}
use agent_belt.Payloads.{CheckEntry}
use agent_belt.Rules.Checks.{entry}

-- `ws.get(path)`: a path that is missing, or that was captured as absent, has no content.
unfoldable pub content_of : Dict String (Option String) → String → Option String
content_of ws path = or_else (get path ws) none

abbrev pub quoted_missing : String → String
quoted_missing substring = concat ("'" ∷ substring ∷ "' not in file" ∷ [])

unfoldable pub file_contains_entry : ℕ → String → String → Option String → CheckEntry
file_contains_entry ti path substring none =
    entry "state" ti (concat ("file_contains(" ∷ path ∷ ")" ∷ [])) false "file not found"
file_contains_entry ti path substring (some content) =
    entry "state" ti (concat ("file_contains(" ∷ path ∷ ")" ∷ [])) (str_in substring content)
      (if str_in substring content then "" else quoted_missing substring)

abbrev pub difference : List String → List String → List String
difference xs ys = keep (λ x. not (elem x ys)) xs

abbrev pub part : String → List String → List String
part heading [] = []
part heading (x ∷ xs) = concat (heading ∷ join ", " (sort_by str_le (x ∷ xs)) ∷ []) ∷ []

-- `actual == expected` on sets.
abbrev pub same_set : List String → List String → Bool
same_set actual expected = all (λ x. elem x expected) actual && all (λ x. elem x actual) expected

module _ {F : Type 0} where
  unfoldable pub check_state : ℕ → TurnOutput F → StateExpectation → List CheckEntry
  unfolding content_of file_contains_entry
  check_state ti output se =
      let ws = output.workspace_files in
      map
        (λ path.
          let exists = is_some (content_of ws path) in
          entry "state" ti (concat ("file_exists(" ∷ path ∷ ")" ∷ [])) exists
            (if exists then "" else "file not found"))
        se.files_exist
      ++ (map (λ (path, substring). file_contains_entry ti path substring (content_of ws path))
            se.files_contain
          ++ map
              (λ path.
                let exists = is_some (content_of ws path) in
                entry "state" ti (concat ("file_not_exists(" ∷ path ∷ ")" ∷ [])) (not exists)
                  (if exists then "file unexpectedly exists" else ""))
              se.files_not_exist)

  unfoldable pub modified_any_checks : ℕ → TurnOutput F → TurnExpectation F → List CheckEntry
  modified_any_checks ti output expect =
      let matched = keep (λ p. elem p output.files_modified) expect.files_modified_any in
      if is_empty expect.files_modified_any
      then []
      else entry "file_diff" ti
          (concat ("files_modified_any(" ∷ join "," expect.files_modified_any ∷ ")" ∷ []))
          (not (is_empty matched))
          (if is_empty matched
            then "none matched"
            else concat ("matched: " ∷ join ", " matched ∷ []))
        ∷ []

  unfoldable pub modified_exact_checks : ℕ → TurnOutput F → TurnExpectation F → List CheckEntry
  modified_exact_checks ti output expect =
      let actual = set_of output.files_modified in
      let expected = set_of expect.files_modified_exact in
      let matches = same_set actual expected in
      if is_empty expect.files_modified_exact
      then []
      else entry "file_diff" ti "files_modified_exact" matches (
          if matches
          then ""
          else join "; " (
              part "missing: " (difference expected actual)
              ++ part "extra: " (difference actual expected)))
        ∷ []

  unfoldable pub check_file_diff : ℕ → TurnOutput F → TurnExpectation F → List CheckEntry
  check_file_diff ti output expect =
      modified_any_checks ti output expect
      ++ (modified_exact_checks ti output expect
          ++ (map
                (λ path.
                  let modified = elem path output.files_modified in
                  entry "file_diff" ti (concat ("file_not_modified(" ∷ path ∷ ")" ∷ []))
                    (not modified) (if modified then "file was modified" else ""))
                expect.files_not_modified
              ++ map
                  (λ substring.
                    let found = str_in substring (or_else output.git_diff "") in
                    entry "file_diff" ti (concat ("git_diff_contains(" ∷ substring ∷ ")" ∷ []))
                      found (if found then "" else "not found in diff"))
                  expect.git_diff_contains))

  unfoldable pub has_file_diff_checks : TurnExpectation F → Bool
  has_file_diff_checks expect =
      not (is_empty expect.files_modified_any)
      || (not (is_empty expect.files_modified_exact)
          || (not (is_empty expect.files_not_modified) || not (is_empty expect.git_diff_contains)))

unfoldable pub has_state_checks : StateExpectation → Bool
has_state_checks se =
    not (is_empty se.files_exist)
    || (not (is_empty se.files_contain) || not (is_empty se.files_not_exist))
