-- ===== src/Tests.antt =====
-- Runs of the modelled code on small inputs: sample data, and each theorem at work on them.
mod Samples
mod RulesCases
mod ConsensusCases
mod AggregatorCases
mod CacheCases
mod FilterCases
mod RunnerCases
mod JudgeCases
mod PipelineCases
mod PreflightCases
mod ParseCases
mod StoppedCases
