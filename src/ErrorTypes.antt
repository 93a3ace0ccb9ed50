-- ===== src/ErrorTypes.antt =====
-- src/belt/agent/error_types.py and the sets of error types of src/belt/entities.py: from the text
-- of a failed run to a token, and from a token to a hint.
pub mod Classify
use agent_belt.Prelude.{
  String, Bool, true, false, not, ◌&&◌, Option, none, some, List, [], ◌∷◌, ◌++◌, any as any_of,
  elem, Dict, get, str_in, if◌then◌else◌, ◌==◌, string_eq,
}

abbrev pub authentication_failed : String
authentication_failed = "authentication_failed"

abbrev pub rate_limited : String
rate_limited = "rate_limited"

abbrev pub timeout : String
timeout = "timeout"

abbrev pub model_unavailable : String
model_unavailable = "model_unavailable"

abbrev pub refused : String
refused = "refused"

abbrev pub unknown : String
unknown = "unknown"

abbrev pub error_types : List String
error_types =
    authentication_failed ∷ rate_limited ∷ timeout ∷ model_unavailable ∷ refused ∷ unknown ∷ []

abbrev pub environmental_error_types : List String
environmental_error_types = authentication_failed ∷ rate_limited ∷ timeout ∷ model_unavailable ∷ []

abbrev pub task_error_types : List String
task_error_types = refused ∷ unknown ∷ []

abbrev pub auth_patterns : List String
auth_patterns =
    "not logged in" ∷ "please run /login" ∷ "please run `claude login`" ∷ "failed to authenticate"
    ∷ "invalid authentication credentials" ∷ "authentication_error" ∷ "authentication failed"
    ∷ "authentication required" ∷ "401 unauthorized" ∷ "http 401" ∷ " 401 "
    ∷ "unauthorized: invalid" ∷ "expired token" ∷ "token expired" ∷ "has expired" ∷ "please log in"
    ∷ "please login" ∷ "not authenticated" ∷ []

abbrev pub rate_limit_patterns : List String
rate_limit_patterns =
    "rate_limit" ∷ "rate limit" ∷ "rate-limit" ∷ "rate limited" ∷ " 429 " ∷ "http 429"
    ∷ "too many requests" ∷ "quota exceeded" ∷ "insufficient quota" ∷ []

abbrev pub timeout_patterns : List String
timeout_patterns =
    "request timed out" ∷ "deadline exceeded" ∷ "operation timed out" ∷ "context deadline exceeded"
    ∷ "504 gateway timeout" ∷ []

abbrev pub model_unavailable_patterns : List String
model_unavailable_patterns =
    "model_not_found" ∷ "model not found" ∷ "does not have access to model" ∷ "no access to model"
    ∷ "model is not available" ∷ "the model `" ∷ "unknown model" ∷ "unsupported model" ∷ []

abbrev pub refused_patterns : List String
refused_patterns =
    "i can't help with that" ∷ "i cannot help with" ∷ "i won't help with" ∷ "i'm not able to help"
    ∷ "model refused" ∷ []

-- A loop over one of the pattern lists.
abbrev pub matches : List String → String → Bool
matches patterns text = any_of (λ p. str_in p text) patterns

-- `str.lower` is a parameter.
module _ (lower : String → String) where
  unfoldable pub classify_lowered : String → Option String
  classify_lowered lowered =
      if matches model_unavailable_patterns lowered
      then some model_unavailable
      else if matches auth_patterns lowered
      then some authentication_failed
      else if matches rate_limit_patterns lowered
      then some rate_limited
      else if matches timeout_patterns lowered
      then some timeout
      else if matches refused_patterns lowered
      then some refused
      else none

  unfoldable pub classify_error : Option String → Option String
  unfolding classify_lowered
  classify_error none = none
  classify_error (some text) = if text == "" then none else classify_lowered (lower text)

  unfoldable pub first_token : List (Option String) → Option String
  unfolding classify_error
  first_token [] = none
  first_token (candidate ∷ candidates) =
      let rest = first_token candidates in
      elim (classify_error candidate) [ none ↦ rest | some token ↦ some token ]

  abbrev pub is_canonical : Option String → Bool
  is_canonical none = false
  is_canonical (some t) = not (t == "") && elem t error_types

  unfoldable pub normalize_error_type : Option String → List (Option String) → Option String
  unfolding first_token
  normalize_error_type raw_error_type texts =
      if is_canonical raw_error_type then raw_error_type else first_token (raw_error_type ∷ texts)

abbrev pub remediation : Dict String (Dict String String)
remediation =
    (
      authentication_failed,
      ("claude-code", "Re-authenticate the Claude Code CLI: run `claude login`.")
          ∷ ("codex", "Re-authenticate the Codex CLI: run `codex login`.")
          ∷ ("gemini", "Re-authenticate the Gemini CLI: run `gemini auth login`.")
          ∷ (
            "copilot",
            "Re-authenticate GitHub Copilot CLI: run `gh auth login` or `copilot auth login`.",
          )
          ∷ ("goose", "Re-authenticate Goose: check `~/.config/goose/config.yaml`.")
          ∷ ("opencode", "Re-authenticate OpenCode CLI.")
          ∷ ("cursor", "Re-authenticate Cursor CLI: run `cursor login`.")
          ∷ ("*", "Re-authenticate the agent CLI and retry.")
          ∷ [],
    )
    ∷ (
      rate_limited,
      ("*", "Wait for the rate-limit window to reset, or switch to a different API key.") ∷ [],
    )
    ∷ (timeout, ("*", "Increase the per-turn timeout or reduce scenario complexity.") ∷ [])
    ∷ (
      model_unavailable,
      (
        "*",
        "Switch to a model your project key is entitled to, or request access. Use ``belt agent info <agent>`` to see what the adapter expects.",
      )
          ∷ [],
    )
    ∷ (
      refused,
      ("*", "Model refused. Adjust the scenario assistant persona or the user prompt.") ∷ [],
    )
    ∷ (unknown, ("*", "Open the per-turn output JSON for the underlying error message.") ∷ [])
    ∷ []

-- The hint for the agent, or else the one for every agent.
abbrev pub own_hint : Option String → Dict String String → Option String
own_hint none table = none
own_hint (some agent) table = if agent == "" then none else get agent table

abbrev pub hint_in : Option String → Option (Dict String String) → Option String
hint_in agent_name none = none
hint_in agent_name (some table) = elim (own_hint agent_name table) [
  | some hint ↦ some hint
  | none ↦ get "*" table
]

unfoldable pub remediation_for : String → Option String → Option String
remediation_for error_type agent_name = hint_in agent_name (get error_type remediation)
