-- ===== src/Lib.antt =====
-- agent-belt: the verdicts of an evaluation run, from the checks on a turn to the run's exit.
--
-- agent-belt runs command-line agents through scenarios, records what each turn produced, scores
-- it and aggregates the scores. This library models the path that decides: the turns of a
-- scenario, the rule-based scorer, a single LLM judge, the merge of several judges, the typed
-- payloads that these leave, and the aggregation of a run's scores into statistics, error reports
-- and threshold gates. The runner (`Runner`) drives an agent through the turns of each scenario
-- and leaves an output for each turn. The scenario's turns and these outputs go to the rules
-- (`Rules`), which give a list of checks, and to the judges (`Judge`), which ask a model, through
-- the cache (`Cache`) where there is one; the judges' answers go to the consensus (`Consensus`),
-- which gives a payload per scenario or per turn; the pipeline (`Pipeline`) puts the payloads under
-- the names of their scorers into a `ScenarioScore` (`Payloads`); and the aggregator (`Aggregator`) walks the scores of
-- the run, by `iter_llm_payloads` and `iter_llm_verdicts` where judges are concerned.
--
-- The files:
--   Prelude and its children: the library names that all share, tests on numbers, equality as an
--     instance, lists, dictionaries in insertion order, grouping (`setdefault`), `Counter`,
--     `sorted`, `min` with a key, sets and their sizes.
--   Json: JSON values, with the type of floats as a parameter.
--   Python: what the code takes from Python itself and from its library (floats, lower-casing,
--     regular expressions, formatting) as a record of operations, of which nothing is assumed.
--   Levels: src/belt/scorer/entities.py, the verdict tokens and the two rank tables.
--   Entities: src/belt/entities.py and src/belt/scenario.py, turn outputs and expectations.
--   Payloads: src/belt/scorer/payloads.py; Payloads/Rows has the row iterators, and
--     Payloads/Rollup the worst-of-turns rollup.
--   Rules: src/belt/scorer/rules; Helpers, Trajectory, Checks (execution, response, efficiency,
--     performance, cost), Files (state, file_diff) and Scorer are named for the source's files.
--     Rules/Scorer/Labels and Verdict, and the children of Helpers, hold the theorems.
--   Consensus: src/belt/scorer/llm/consensus.py; Votes (the strategies), Merge
--     (`_merge_verdicts`), PerTurn (`_merge_per_turn_verdicts`) and Score (the constructor's
--     checks and `score`), each with its theorems in its children.
--   ErrorTypes: src/belt/agent/error_types.py and the sets of error types of
--     src/belt/entities.py.
--   Aggregator: src/belt/aggregator; Thresholds and its child Budgets are thresholds.py, and
--     Stats, Reliability, JudgeRows and Errors are the parts of stats.py.
--   Cache: src/belt/scorer/llm/cache.py; the directory is a list of files with their times, and
--     which calls on the file system succeed is a record of Booleans. Evictions and Oldest are
--     about `_evict_if_over_budget`, Reads about `get` and `put`.
--   Filter: src/belt/filter.py; paths are lists of parts, and the directories that exist are a
--     record. Selection is about `matches_group`, Parsing about `_parse_path_filter`.
--   Runner: src/belt/runner; Stream, Template, Capture and Turns are parts of orchestrator.py
--     (the capped stream file, the templates of messages, the capture of the workspace, and
--     `run_scenario_turns` with a log of the calls it makes), Schedule is
--     phases/run_scenarios.py. Session has the calls and variables of Turns. Turns/Balance and
--     Released are about that log, Files, Reached and Above about the CLI files.
--   Judge: src/belt/scorer/llm/scorer.py; Truncate (`_truncate_to_budget`), Call (`_call_api`
--     over Cache), Dimensions (src/belt/agent/scoring.py and a turn's own dimensions) and
--     PerTurn (`_score_scenario`, `_score_per_turn`; Tally has its payloads and variables), each
--     with its theorems in its children; Parse is `_parse_response` and `_extract_usage`, and
--     Pricing src/belt/scorer/llm/pricing.py.
--   Pipeline: `score_scenario` of src/belt/scorer/pipeline.py; a scorer is a function that may
--     raise, the files of a turn are a record. Verdict and Surfaced are about what it gives; Outputs,
--     Shown, Failing and Reported have their lemmas.
--     Preflight is `validate_per_turn_judges_against_scenarios` of the same file, and Votes its
--     effect on `_score_per_turn`; Stopped goes from a run of the runner to its score.
--   Tests: sample data, runs on it, and each theorem at a concrete input.
--
-- How the code is read. A Python list is a list, a set is the list of its elements in insertion
-- order, a dictionary an association list in insertion order. Loops that append are structural
-- recursion; loops that update a dictionary are recursion with the dictionary as an argument, or
-- `accumulate`, which is `setdefault` followed by an update. Floats are an abstract type: no
-- theorem depends on their arithmetic. A walk into a tool result stops at depth ten as in the
-- source, and all recursion is structural, so that no fuel is needed but for the digits of a
-- number in a judge's prompt, which are at most as many as the number and one. Where the source
-- asserts or raises, the model has a value for it (`assertion_error`, `rejected`).
--
-- The agent, the sandbox, the workspace manager and the HTTP client are records of functions
-- (`Agent`, `Surroundings`, `Judge`), which may give an exception wherever the code expects one;
-- an exception that the code swallows leaves no trace, and so the runtime sidecar that a run
-- writes after the agent's set-up is not modelled. Where backoff's promise matters, a hypothesis
-- bounds the requests of one call.
--
-- Not modelled: the agents' adapters, the containers and worktrees behind the runner, the text of
-- a judge's prompt and the requests of each backend (`ask`, or fields of `Judge`; a sub-judge's
-- payload is an argument of the consensus), the loading of the price table, the command line, the
-- exporters and renderers, configuration and logging; the registry of plugin payloads;
-- `individual_verdicts`, which is written for readers of the files only; and of stats.py the
-- bottom line and the sums of cost and time. Turn outputs are read from disk by an argument of
-- `collect_agent_errors`.
pub mod Prelude
pub mod Json
pub mod Python
pub mod Levels
pub mod Entities
pub mod Payloads
pub mod Rules
pub mod Consensus
pub mod ErrorTypes
pub mod Aggregator
pub mod Cache
pub mod Filter
pub mod Runner
pub mod Judge
pub mod Pipeline
pub mod Tests
