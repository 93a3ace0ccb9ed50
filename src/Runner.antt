-- ===== src/Runner.antt =====
-- src/belt/runner: the turns of a scenario, and the scenarios of a run.
pub mod Stream
pub mod Template
pub mod Capture
pub mod Session
pub mod Turns
pub mod Schedule
