-- ===== src/Levels.antt =====
-- src/belt/scorer/entities.py: the verdict tokens of the LLM judges, and the sets of them that
-- count as failures.
use agent_belt.Prelude.{ℕ, ◌≡◌, ◌↔◌, Bool, true, List, [], ◌∷◌, String, arith, nat_beq, Eq}
use agent_belt.Prelude.Int.{ℤ, pos, negsuc}

-- The order of the constructors is that of the enumeration.
pub data ScoreLevel : Type 0 where
  low medium high pass fail inconclusive : ScoreLevel

abbrev pub place : ScoreLevel → ℕ
place low = 0
place medium = 1
place high = 2
place pass = 3
place fail = 4
place inconclusive = 5

abbrev pub same_level : ScoreLevel → ScoreLevel → Bool
same_level a b = nat_beq (place a) (place b)

pub same_level_iff : (a b : ScoreLevel) → (same_level a b ≡ true) ↔ (a ≡ b)
same_level_iff a b = ground arith

instance abbrev pub level_eq : Eq ScoreLevel
level_eq = record { beq = same_level; beq_iff = same_level_iff }

-- `ScoreLevel.value`
abbrev pub value : ScoreLevel → String
value low = "low"
value medium = "medium"
value high = "high"
value pass = "pass"
value fail = "fail"
value inconclusive = "inconclusive"

abbrev pub all_verdict_tokens : List ScoreLevel
all_verdict_tokens = low ∷ medium ∷ high ∷ pass ∷ fail ∷ inconclusive ∷ []

abbrev pub default_fail_levels : List ScoreLevel
default_fail_levels = low ∷ fail ∷ inconclusive ∷ []

-- `_LEVEL_RANK` of consensus.py and `_WORST_OF_TURNS_RANK` of payloads.py.
abbrev pub level_rank : ScoreLevel → ℤ
level_rank inconclusive = negsuc 0
level_rank fail = pos 0
level_rank low = pos 0
level_rank medium = pos 1
level_rank high = pos 2
level_rank pass = pos 2

abbrev pub worst_of_turns_rank : ScoreLevel → ℤ
worst_of_turns_rank inconclusive = negsuc 0
worst_of_turns_rank fail = pos 0
worst_of_turns_rank low = pos 0
worst_of_turns_rank medium = pos 1
worst_of_turns_rank high = pos 2
worst_of_turns_rank pass = pos 2
