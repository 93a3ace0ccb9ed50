-- ===== src/Consensus/Votes.antt =====
-- The voting rules of src/belt/scorer/llm/consensus.py.
pub mod Majority
pub mod Strategies
use agent_belt.Prelude.{
  ℕ, ◌+◌, ◌*◌, ◌≡◌, refl, String, Bool, true, false, not, ◌&&◌, ◌||◌, Option, none, some, List, [],
  ◌∷◌, map, length, keep, any as any_of, all as all_of, count_if, Dict, keys, values, tally, max_of,
  first_min, nat_beq, ltb, str_le, if◌then◌else◌, ◌==◌, string_eq, Eq, ◌↔◌, arith,
}
use agent_belt.Prelude.Int.{ltb_ℤ}
use agent_belt.Levels.{ScoreLevel, level_rank, level_eq}
use agent_belt.Payloads.{
  JudgeErrorType, rate_limited, timeout, auth_failed, other, all_turns_skipped,
}

pub data Strategy : Type 0 where
  majority unanimous any : Strategy

abbrev pub strategy_name : Strategy → String
strategy_name majority = "majority"
strategy_name unanimous = "unanimous"
strategy_name any = "any"

-- `CONSENSUS_STRATEGIES`
unfoldable pub parse_strategy : String → Option Strategy
parse_strategy s =
    if s == "majority"
    then some majority
    else if s == "unanimous"
    then some unanimous
    else if s == "any"
    then some any
    else none

abbrev pub lower_level : ScoreLevel → ScoreLevel → Bool
lower_level a b = ltb_ℤ (level_rank a) (level_rank b)

abbrev pub higher_level : ScoreLevel → ScoreLevel → Bool
higher_level a b = ltb_ℤ (level_rank b) (level_rank a)

-- The levels that reach the highest count.
unfoldable pub candidates : List ScoreLevel → List ScoreLevel
candidates votes =
    let counts = tally votes in
    keys (keep (λ (level, n). nat_beq n (max_of (values counts))) counts)

-- `min` over the candidates. Every caller has a vote, and so a candidate.
abbrev pub lowest : ScoreLevel → List ScoreLevel → ScoreLevel
lowest default [] = default
lowest default (c ∷ cs) = first_min lower_level c cs

unfoldable pub majority_vote_level : ScoreLevel → List ScoreLevel → ScoreLevel
majority_vote_level vote votes = lowest vote (candidates (vote ∷ votes))

-- `_apply_strategy`, on a list of votes that is not empty.
unfoldable pub apply_strategy : Strategy → ScoreLevel → List ScoreLevel → ScoreLevel
apply_strategy majority vote votes = majority_vote_level vote votes
apply_strategy unanimous vote votes = first_min lower_level vote votes
apply_strategy any vote votes = first_min higher_level vote votes

-- `true_count > len(votes) / 2`
unfoldable pub majority_vote_bool : List Bool → Bool
majority_vote_bool votes = ltb (length votes) (2 * count_if (λ b. b) votes)

unfoldable pub apply_strategy_bool : Strategy → List Bool → Bool
apply_strategy_bool majority votes = majority_vote_bool votes
apply_strategy_bool unanimous votes = all_of (λ b. b) votes
apply_strategy_bool any votes = any_of (λ b. b) votes

-- The tokens of `judge_error_type`, whose order breaks ties between equally common errors.
abbrev pub error_token : JudgeErrorType → String
error_token rate_limited = "rate_limited"
error_token timeout = "timeout"
error_token auth_failed = "auth_failed"
error_token other = "other"
error_token all_turns_skipped = "all_turns_skipped"

abbrev pub error_place : JudgeErrorType → ℕ
error_place rate_limited = 0
error_place timeout = 1
error_place auth_failed = 2
error_place other = 3
error_place all_turns_skipped = 4

pub error_eq_iff :
    (a b : JudgeErrorType) → (nat_beq (error_place a) (error_place b) ≡ true) ↔ (a ≡ b)
error_eq_iff a b = ground arith

instance abbrev pub error_eq : Eq JudgeErrorType
error_eq = record { beq = λ a b. nat_beq (error_place a) (error_place b); beq_iff = error_eq_iff }

-- The key `(-count, token)`.
abbrev pub more_common : JudgeErrorType × ℕ → JudgeErrorType × ℕ → Bool
more_common (s, m) (t, n) =
    ltb n m || (not (ltb m n) && not (str_le (error_token t) (error_token s)))

abbrev pub first_of_entries : Dict JudgeErrorType ℕ → Option JudgeErrorType
first_of_entries [] = none
first_of_entries (entry ∷ entries) = some (first_min more_common entry entries).0

-- The most common error type, ties broken by the token.
unfoldable pub headline_error : List JudgeErrorType → Option JudgeErrorType
headline_error errors = first_of_entries (tally errors)
