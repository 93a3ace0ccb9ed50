-- ===== src/Runner/Capture.antt =====
-- What a turn leaves in the workspace (`_safe_resolve` and `_capture_workspace_state` of
-- src/belt/runner/orchestrator.py).
pub mod Confined
use agent_belt.Prelude.{
  ℕ, String, Bool, true, false, not, ◌&&◌, Option, none, some, List, [], ◌∷◌, ◌++◌, map, length,
  take, ltb, is_empty, Dict, keys, set_of, sort_by, str_le, concat, if◌then◌else◌, ◌==◌, nat_eq,
  string_eq,
}
use agent_belt.Entities.{TurnOutput, StateExpectation}
use agent_belt.Filter.{PathParts, is_descendant}

abbrev pub max_file_capture_bytes : ℕ
max_file_capture_bytes = 10_240

abbrev pub max_files_per_turn : ℕ
max_files_per_turn = 500

-- The file system below a workspace: `resolve` is `(root / rel).resolve()`, which may raise, and
-- `read` the text of a file, which may fail.
pub record Workspace : Type 0 where
  pub root : PathParts
  pub resolve : String → Option PathParts
  pub is_file : PathParts → Bool
  pub read : PathParts → Option String

-- `git diff`: the exit code and the output; `none` where git could not be run.
abbrev pub GitResult : Type 0
GitResult = Option (ℕ × String)

-- `full.relative_to(root)` raises for a path that is not below the root.
abbrev pub inside : Workspace → Option PathParts → Option PathParts
inside ws none = none
inside ws (some full) = if is_descendant full ws.root then some full else none

-- `_safe_resolve`
abbrev pub safe_resolve : Workspace → String → Option PathParts
safe_resolve ws rel = inside ws (ws.resolve rel)

abbrev pub paths_to_check : StateExpectation → List String
paths_to_check e = set_of (e.files_exist ++ (keys e.files_contain ++ e.files_not_exist))

-- `len(content)`, and `content[:n]`.
module _ (len : String → ℕ) (prefix : ℕ → String → String) where
  abbrev pub truncated : Option String → Option String
  truncated none = none
  truncated (some content) =
      if ltb max_file_capture_bytes (len content)
      then some (concat (prefix max_file_capture_bytes content ∷ "\n... (truncated)" ∷ []))
      else some content

  abbrev pub capture_file : Workspace → Option PathParts → Option String
  capture_file ws none = none
  capture_file ws (some full) = if ws.is_file full then truncated (ws.read full) else none

  -- The files of a turn, each under its path; the paths are those of a set, and so distinct.
  unfoldable pub capture_files : Workspace → List String → Dict String (Option String)
  capture_files ws paths =
      map (λ rel. (rel, capture_file ws (safe_resolve ws rel)))
        (take max_files_per_turn (sort_by str_le paths))

abbrev pub captured_diff : (strip : String → String) → GitResult → Option String → Option String
captured_diff strip none old = old
captured_diff strip (some (code, stdout)) old =
    if (code == 0) && not (strip stdout == "") then some stdout else old

-- `turn_output.raw_state` as a truth value.
abbrev pub has_text : Option String → Bool
has_text none = false
has_text (some s) = not (s == "")

module _ {F : Type 0} (len : String → ℕ) (prefix : ℕ → String → String)
    (strip : String → String) where
  -- `_capture_workspace_state`
  unfoldable pub capture_workspace_state :
      Workspace → GitResult → StateExpectation → TurnOutput F → TurnOutput F
  capture_workspace_state ws git e o =
      let paths = paths_to_check e in
      record o {
        workspace_files =
            if is_empty paths then o.workspace_files else capture_files len prefix ws paths;
        raw_state =
            if e.capture_git_diff && not (has_text o.raw_state)
            then captured_diff strip git o.raw_state
            else o.raw_state;
      }
