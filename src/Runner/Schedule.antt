-- ===== src/Runner/Schedule.antt =====
-- `run_scenarios` of src/belt/runner/phases/run_scenarios.py: the scenarios of a run and their trials.
pub mod Counted
use agent_belt.Prelude.{
  ℕ, zero, suc, ◌+◌, String, Bool, true, false, not, ◌&&◌, Option, none, some, List, [], ◌∷◌, ◌++◌,
  map, take, length, elem, leb, ltb, concat, if◌then◌else◌, string_eq,
}
use agent_belt.Runner.Session.{Attempt, done, raised}

pub record MatchedGroup : Type 0 where
  pub name : String
  pub group_dir : String
  pub scenarios : List String

-- A scenario of a group to be run, with its place in the run.
pub record Task : Type 0 where
  pub scenario : String
  pub group_name : String
  pub outcome_dir : List String
  pub num : ℕ

-- The fields of `ScenarioResult` that name the scenario, and the failure of the harness.
pub record Result : Type 0 where
  pub scenario_name : String
  pub group_path : String
  pub error : Option String

-- The handler of `_run_one`: an exception of the run is a result with its text.
abbrev pub result_of : Task → Attempt Result → Result
result_of t (done r) = r
result_of t (raised e) = record {
  scenario_name = t.scenario;
  group_path = t.group_name;
  error = some e;
}

-- How `_run_one` ends, by what `ctx.progress.scenario_done` gives, which stands after its `try`.
abbrev pub finish : Attempt (Unit {0}) → Result → Attempt Result
finish (done _) r = done r
finish (raised e) r = raised e

-- `future.result()` of a pool's runs: an exception is logged, and has no result.
abbrev pub kept : List (Attempt Result) → List Result
kept [] = []
kept (done r ∷ runs) = r ∷ kept runs
kept (raised e ∷ runs) = kept runs

abbrev pub prepend : List Result → Attempt (List Result) → Attempt (List Result)
prepend before (raised e) = raised e
prepend before (done rs) = done (before ++ rs)

-- One worker runs the tasks in order; an exception leaves the loop.
abbrev pub in_order : List (Attempt Result) → Attempt (List Result)
in_order [] = done []
in_order (done r ∷ runs) = prepend (r ∷ []) (in_order runs)
in_order (raised e ∷ runs) = raised e

-- `_run_one`, where `run` is the body of its `try`.
abbrev pub run_one :
    (run : Task → Attempt Result) (scenario_done : Task → Result → Attempt (Unit {0}))
    → Task
    → Attempt Result
run_one run scenario_done t = let r = result_of t (run t) in finish (scenario_done t r) r

-- `str_nat` is `str(n)`.
module _ (str_nat : ℕ → String) (n_trials : ℕ) where
  abbrev pub suffix : ℕ → String
  suffix trial = if ltb 1 n_trials then concat ("__trial_" ∷ str_nat trial ∷ []) else ""

  -- `for trial in range(n_trials)`, from `trial` on, `left` of them being left and `n` being counted.
  unfoldable pub trial_tasks : MatchedGroup → String → (left trial n : ℕ) → List Task
  trial_tasks g s zero trial n = []
  trial_tasks g s (suc left) trial n =
      record {
        scenario = s;
        group_name = g.name;
        outcome_dir = g.group_dir ∷ concat (s ∷ suffix trial ∷ []) ∷ [];
        num = suc n;
      }
      ∷ trial_tasks g s left (suc trial) (suc n)

  unfoldable pub trial_failures : MatchedGroup → String → ℕ → List Result
  trial_failures g s zero = []
  trial_failures g s (suc left) =
      record { scenario_name = s; group_path = g.name; error = some "group setup failed" }
      ∷ trial_failures g s left

  unfoldable pub group_tasks : MatchedGroup → List String → ℕ → List Task
  group_tasks g [] n = []
  group_tasks g (s ∷ ss) n = trial_tasks g s n_trials 0 n ++ group_tasks g ss (n + n_trials)

  unfoldable pub group_failures : MatchedGroup → List String → List Result
  group_failures g [] = []
  group_failures g (s ∷ ss) = trial_failures g s n_trials ++ group_failures g ss

  -- How far a group moves the counter.
  abbrev pub advance : List String → ℕ → ℕ
  advance [] n = n
  advance (s ∷ ss) n = advance ss (n + n_trials)

  unfoldable pub scenario_tasks : (failed_groups : List String) → List MatchedGroup → ℕ → List Task
  scenario_tasks failed_groups [] n = []
  scenario_tasks failed_groups (g ∷ gs) n =
      (if elem g.name failed_groups then [] else group_tasks g g.scenarios n)
      ++ scenario_tasks failed_groups gs (advance g.scenarios n)

  unfoldable pub failed_results : (failed_groups : List String) → List MatchedGroup → List Result
  failed_results failed_groups [] = []
  failed_results failed_groups (g ∷ gs) =
      (if elem g.name failed_groups then group_failures g g.scenarios else [])
      ++ failed_results failed_groups gs

  module _ (run : Task → Attempt Result) (scenario_done : Task → Result → Attempt (Unit {0})) where
    -- `as_completed` is the order in which a pool's runs end.
    unfoldable pub run_scenarios :
        (as_completed : List (Attempt Result) → List (Attempt Result)) (workers : ℕ)
        → (failed_groups : List String) → List MatchedGroup
        → Attempt (List Result)
    run_scenarios as_completed workers failed_groups groups =
        let runs = map (run_one run scenario_done) (scenario_tasks failed_groups groups 0) in
        if leb workers 1
        then prepend (failed_results failed_groups groups) (in_order runs)
        else done (failed_results failed_groups groups ++ kept (as_completed runs))

    -- An interrupt between two tasks of a single worker keeps the results so far.
    abbrev pub interrupted_after :
        ℕ → (failed_groups : List String) → List MatchedGroup → Attempt (List Result)
    interrupted_after k failed_groups groups = prepend (failed_results failed_groups groups) (
        in_order (take k (map (run_one run scenario_done) (scenario_tasks failed_groups groups 0))))
