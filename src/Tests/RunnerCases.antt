-- ===== src/Tests/RunnerCases.antt =====
-- The runner on an agent that counts its calls, in a workspace with a sandbox.
use agent_belt.Prelude.{
  ℕ, suc, ◌*◌, ◌≤◌, ◌≡◌, refl, sym, ap, String, Bool, true, Option, none, some, List, [], ◌∷◌,
  length, count_if, concat, map, all, leb, get, if◌then◌else◌, if_true, ◌==◌, nat_eq, string_eq,
  ◌&&◌, arith,
}
use agent_belt.Entities.{Turn}
use agent_belt.Filter.{PathParts, is_descendant}
use agent_belt.Runner.Stream.{write_all, open_writer}
use agent_belt.Runner.Stream.Prefix.{write_all-bounded, cut, total}
use agent_belt.Runner.Template.{
  Piece, plain, placeholder, turn, render_turn_message, substitute, turn_message_max_chars,
}
use agent_belt.Runner.Template.Rendered.{render_turn_message-valid, is_valid, value}
use agent_belt.Runner.Capture.{Workspace, capture_files, max_files_per_turn}
use agent_belt.Runner.Capture.Confined.{capture_files-confined, SameInside}
use agent_belt.Runner.Turns.{run_turn, run_turns, run_scenario_turns}
use agent_belt.Runner.Session.{
  Attempt, done, raised, acquired, released, sandbox_up, sandbox_down, agent_set_up,
  agent_torn_down, executed, World, Agent, Surroundings,
}
use agent_belt.Runner.Turns.Balance.{IsBalanced}
use agent_belt.Runner.Turns.Released.{run_scenario_turns-IsBalanced}
use agent_belt.Runner.Turns.Reached.{run_scenario_turns-IsReported, IsReported}
use agent_belt.Runner.Schedule.{
  MatchedGroup, Task, Result, result_of, run_scenarios, scenario_tasks, failed_results, group_tasks,
  trial_tasks,
}
use agent_belt.Runner.Schedule.Counted.{count-run_scenarios, NamesItself, is_of, occurrences}
use agent_belt.Tests.Samples.{sample_py, calls_output, plain_turn}

-- Streams of texts of ten bytes.
write_all-bounded_example :
    let fh =
      (write_all (λ text. 10) (λ max. "cut") ("a" ∷ "b" ∷ "c" ∷ "d" ∷ []) (open_writer 25)).fh in
    (fh ≡ cut (λ text. 10) (λ max. "cut") 25 0 ("a" ∷ "b" ∷ "c" ∷ "d" ∷ []))
    × (total (λ text. 10) (λ max. "cut") fh ≤ 35)
write_all-bounded_example =
    write_all-bounded (λ text. 10) (λ max. "cut") ("a" ∷ "b" ∷ "c" ∷ "d" ∷ []) 25

stream_cut :
    cut (λ text. 10) (λ max. "cut") 25 0 ("a" ∷ "b" ∷ "c" ∷ "d" ∷ []) ≡ "a" ∷ "b" ∷ "cut" ∷ []
stream_cut = refl

-- A template of one placeholder after a text.
abbrev sample_pieces : String → List Piece
sample_pieces template = plain "Fix: " ∷ placeholder (turn 0) "reply_text" ∷ []

render_turn_message-valid_example :
    let message =
      concat (map (value (calls_output ∷ [])) (sample_pieces "Fix: {{turn_0.reply_text}}")) in
    render_turn_message sample_pieces (λ text. 9) "Fix: {{turn_0.reply_text}}" (calls_output ∷ [])
    ≡ (if all (is_valid 1) (sample_pieces "Fix: {{turn_0.reply_text}}")
          && leb 9 turn_message_max_chars
        then some message
        else none)
render_turn_message-valid_example =
    render_turn_message-valid sample_pieces (λ text. 9) "Fix: {{turn_0.reply_text}}"
      (calls_output ∷ []) refl

later_turn :
    render_turn_message
      (λ template. placeholder (turn 1) "reply_text" ∷ [])
      (λ text. 9)
      "{{turn_1.reply_text}}"
      (calls_output ∷ [])
    ≡ none
unfolding render_turn_message substitute
later_turn = refl

-- Two file systems that differ outside the workspace; `out` is a link to a file there.
abbrev resolve_link : String → Option PathParts
resolve_link rel = if rel == "out" then some ("secret" ∷ []) else some (rel ∷ "ws" ∷ [])

abbrev one_workspace : Workspace
one_workspace = record {
  root = "ws" ∷ [];
  resolve = resolve_link;
  is_file = λ p. true;
  read = λ p. some "text";
}

abbrev other_workspace : Workspace
other_workspace = record {
  root = "ws" ∷ [];
  resolve = resolve_link;
  is_file = λ p. is_descendant p ("ws" ∷ []);
  read = λ p. if is_descendant p ("ws" ∷ []) then some "text" else some "password";
}

same_workspaces : SameInside one_workspace other_workspace
same_workspaces = record {
  root = refl;
  resolve = λ rel. refl;
  is_file = λ p h. sym h;
  read = λ p h. sym (if_true (is_descendant p ("ws" ∷ [])) (some "text") (some "password") h);
}

capture_files-confined_example :
    (capture_files (λ text. 4) (λ n text. text) one_workspace ("a.py" ∷ "out" ∷ [])
      ≡ capture_files (λ text. 4) (λ n text. text) other_workspace ("a.py" ∷ "out" ∷ []))
    × (length (capture_files (λ text. 4) (λ n text. text) one_workspace ("a.py" ∷ "out" ∷ []))
        ≤ max_files_per_turn)
capture_files-confined_example =
    capture_files-confined (λ text. 4) (λ n text. text) one_workspace other_workspace
      ("a.py" ∷ "out" ∷ []) same_workspaces

-- An agent whose second turn raises.
abbrev pub sample_agent : Agent ℕ ℕ
sample_agent = record {
  setup = λ s. (s, done tt);
  execute = λ message flags s. (suc s, if s == 1 then raised "boom" else done "text");
  fetch_results = λ raw s. (s, done calls_output);
  teardown = λ s. s;
}

abbrev pub sample_env : Surroundings ℕ
sample_env = record {
  manager = true;
  acquire = done tt;
  validate_profile = done tt;
  setup_sandbox = done tt;
  provider = "docker";
  install = some (done tt);
  open_stream = λ i. done tt;
  write_artifacts = λ i. done tt;
  render = λ template outputs. done template;
  capture = λ expect output. output;
  capture_diff = λ i. none;
  write_lock = none;
  sentinel = λ i e. some e;
}

abbrev pub fresh_world : World ℕ
fresh_world = record { agent = 0; cli = []; log = [] }

abbrev pub three_turns : List (Turn ℕ)
three_turns = plain_turn ∷ plain_turn ∷ plain_turn ∷ []

run_scenario_turns-IsBalanced_example :
    IsBalanced (run_scenario_turns sample_py sample_agent sample_env three_turns fresh_world).0.log
run_scenario_turns-IsBalanced_example =
    run_scenario_turns-IsBalanced sample_py sample_agent sample_env three_turns fresh_world refl
      refl refl refl

run_scenario_turns-IsReported_example :
    IsReported sample_py sample_agent sample_env 3
      (run_scenario_turns sample_py sample_agent sample_env three_turns fresh_world)
run_scenario_turns-IsReported_example =
    run_scenario_turns-IsReported sample_py sample_agent sample_env three_turns (λ i e. refl)
      fresh_world

second_turn_fails :
    (run_scenario_turns sample_py sample_agent sample_env three_turns fresh_world).0 ≡ record {
      agent = 2;
      cli = (0, "done") ∷ (1, "boom") ∷ [];
      log =
          acquired
          ∷ sandbox_up
          ∷ agent_set_up
          ∷ executed 0 "go"
          ∷ executed 1 "go"
          ∷ agent_torn_down
          ∷ sandbox_down
          ∷ released
          ∷ [];
    }
unfolding run_scenario_turns run_turns run_turn
second_turn_fails = refl

-- The workspace and the sandbox stay where the resources cannot be installed, and where the agent
-- cannot be set up.
install_fails :
    (run_scenario_turns sample_py sample_agent
      (record sample_env { install = some (raised "no link") })
      three_turns
      fresh_world).0.log
    ≡ acquired ∷ sandbox_up ∷ []
unfolding run_scenario_turns
install_fails = refl

setup_fails :
    (run_scenario_turns sample_py
      (record sample_agent { setup = λ s. (s, raised "no binary") })
      sample_env
      three_turns
      fresh_world).0.log
    ≡ acquired ∷ sandbox_up ∷ []
unfolding run_scenario_turns
setup_fails = refl

-- When the locks of the resources cannot be written, the agent is left set up too.
lock_fails :
    (run_scenario_turns sample_py sample_agent
      (record sample_env { write_lock = some (raised "disk full") })
      three_turns
      fresh_world).0.log
    ≡ acquired ∷ sandbox_up ∷ agent_set_up ∷ []
unfolding run_scenario_turns
lock_fails = refl

-- A sentinel that cannot be written leaves no file of the turn that failed.
sentinel_fails :
    (run_scenario_turns sample_py sample_agent
      (record sample_env { sentinel = λ i e. none })
      three_turns
      fresh_world).0.cli
    ≡ (0, "done") ∷ []
unfolding run_scenario_turns run_turns run_turn
sentinel_fails = refl

-- The sentinel of a failed `fetch_results` is overwritten by the turn's artifacts.
fetch_fails :
    get 0
      (run_scenario_turns sample_py
        (record sample_agent { fetch_results = λ raw s. (s, raised "not found") })
        sample_env
        (plain_turn ∷ [])
        fresh_world).0.cli
    ≡ some "text"
unfolding run_scenario_turns run_turns run_turn
fetch_fails = refl

-- Two groups of one name, the second trial of a scenario ending before the first.
abbrev sample_groups : List MatchedGroup
sample_groups =
    record { name = "core"; group_dir = "out/core"; scenarios = "a" ∷ "b" ∷ [] }
    ∷ record { name = "broken"; group_dir = "out/broken"; scenarios = "a" ∷ [] }
    ∷ []

-- A run names its outcome directory's parent, and not the group.
abbrev sample_run : Task → Attempt Result
sample_run t = done (record { scenario_name = t.scenario; group_path = "out/core"; error = none })

sample_run-NamesItself : NamesItself sample_run
sample_run-NamesItself t r e = sym (ap (λ a. (result_of t a).scenario_name) e)

abbrev quiet : Task → Result → Attempt (Unit {0})
quiet t r = done tt

abbrev swapped : List (Attempt Result) → List (Attempt Result)
swapped [] = []
swapped (r ∷ []) = r ∷ []
swapped (r ∷ s ∷ rs) = s ∷ r ∷ rs

count-swapped :
    (p : Attempt Result → Bool) (rs : List (Attempt Result))
    → count_if p (swapped rs) ≡ count_if p rs
count-swapped p [] = refl
count-swapped p (r ∷ []) = refl
count-swapped p (r ∷ s ∷ rs) = ground arith

count-run_scenarios_example :
    (results : List Result) × (run_scenarios
        (λ n. "n")
        2
        sample_run
        quiet
        swapped
        4
        ("broken" ∷ [])
        sample_groups
      ≡ done results)
    × (count_if (is_of "a") results ≡ 2 * occurrences "a" sample_groups)
count-run_scenarios_example =
    count-run_scenarios (λ n. "n") 2 "a" sample_run quiet swapped 4 ("broken" ∷ []) sample_groups
      sample_run-NamesItself (λ t r. refl) count-swapped

-- A display that raises loses the results of a pool's runs, and ends a run with one worker.
loud_pool :
    run_scenarios (λ n. "n") 1 sample_run (λ t r. raised "no console") swapped 4 [] sample_groups
    ≡ done []
unfolding run_scenarios scenario_tasks failed_results group_tasks trial_tasks
loud_pool = refl

loud_worker :
    run_scenarios (λ n. "n") 1 sample_run (λ t r. raised "no console") swapped 1 [] sample_groups
    ≡ raised "no console"
unfolding run_scenarios scenario_tasks failed_results group_tasks trial_tasks
loud_worker = refl
