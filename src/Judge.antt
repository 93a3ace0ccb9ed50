-- ===== src/Judge.antt =====
-- src/belt/scorer/llm/scorer.py: a single LLM judge.
pub mod Truncate
pub mod Call
pub mod Dimensions
pub mod Tally
pub mod PerTurn
pub mod Pricing
pub mod Parse
