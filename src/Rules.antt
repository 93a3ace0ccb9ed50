-- ===== src/Rules.antt =====
-- src/belt/scorer/rules: the deterministic checks of a turn and the scorer that collects them.
pub mod Helpers
pub mod Trajectory
pub mod Checks
pub mod Files
pub mod Scorer
