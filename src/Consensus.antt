-- ===== src/Consensus.antt =====
-- src/belt/scorer/llm/consensus.py: several LLM judges whose verdicts are merged by a vote.
pub mod Votes
pub mod Merge
pub mod PerTurn
pub mod Score
