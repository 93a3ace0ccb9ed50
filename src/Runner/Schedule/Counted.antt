-- ===== src/Runner/Schedule/Counted.antt =====
-- Every scenario of a run has its results, whatever fails and whatever the order.
use agent_belt.Prelude.{
  ℕ, zero, suc, ◌+◌, ◌*◌, ◌≡◌, refl, ap, ◌++◌, Bool-cases, inl, inr, ◌∙◌, String, Bool, true, false,
  List, [], ◌∷◌, map, elem, leb, count_if, count_if-append, if◌then◌else◌, ◌==◌, string_eq, arith,
}
use agent_belt.Runner.Session.{Attempt, done, raised}
use agent_belt.Runner.Schedule.{
  MatchedGroup, Task, Result, trial_tasks, trial_failures, group_tasks, group_failures,
  scenario_tasks, failed_results, result_of, run_scenarios, advance, run_one, finish, kept, prepend,
  in_order,
}

abbrev pub is_of : (scenario : String) → Result → Bool
is_of scenario r = r.scenario_name == scenario

abbrev is_task_of : (scenario : String) → Task → Bool
is_task_of scenario t = t.scenario == scenario

-- How often a scenario's name stands in the groups.
abbrev pub occurrences : (scenario : String) → List MatchedGroup → ℕ
occurrences scenario [] = 0
occurrences scenario (g ∷ gs) = count_if (λ s. s == scenario) g.scenarios + occurrences scenario gs

-- Each run that returns gives a result with the name of its own scenario.
abbrev pub NamesItself : (Task → Attempt Result) → Type 0
NamesItself run = (t : Task) (r : Result) → run t ≡ done r → r.scenario_name ≡ t.scenario

-- A test of the result of a run that ended with one.
abbrev on_done : (Result → Bool) → Attempt Result → Bool
on_done p (done r) = p r
on_done p (raised e) = false

count-kept :
    (p : Result → Bool) (runs : List (Attempt Result))
    → count_if p (kept runs) ≡ count_if (on_done p) runs
count-kept p [] = refl
count-kept p (done r ∷ runs) = ground (arith, count-kept p runs)
count-kept p (raised e ∷ runs) = count-kept p runs

mul-add : (n a b : ℕ) → n * (a + b) ≡ n * a + n * b
mul-add n a b = grind arith

scaled : (n k : ℕ) (c : Bool) → (if c then n else 0) + n * k ≡ n * (if c then suc k else k)
scaled n k true = grind arith
scaled n k false = omega arith

either :
    {A B : Type 0} (p : A → Bool) (q : B → Bool) (b : Bool) (xs : List A) (ys : List B) (k : ℕ)
    → count_if p xs ≡ k
    → count_if q ys ≡ k
    → count_if p (if b then xs else []) + count_if q (if b then [] else ys) ≡ k
either p q true xs ys k h i = omega (arith, h)
either p q false xs ys k h i = omega (arith, i)

is_of-result_of :
    (scenario : String) (t : Task) (a : Attempt Result)
    → ((r : Result) → a ≡ done r → r.scenario_name ≡ t.scenario)
    → is_of scenario (result_of t a) ≡ is_task_of scenario t
is_of-result_of scenario t (done r) h = rw (h r refl) refl
is_of-result_of scenario t (raised e) h = refl

module _ (str_nat : ℕ → String) (n_trials : ℕ) (scenario : String) where
  count-trial_tasks :
      (g : MatchedGroup) (s : String) (left trial n : ℕ)
      → count_if (is_task_of scenario) (trial_tasks str_nat n_trials g s left trial n)
        ≡ (if s == scenario then left else 0)
  unfolding trial_tasks
  count-trial_tasks g s zero trial n = ground arith
  count-trial_tasks g s (suc left) trial n =
      ground (arith, count-trial_tasks g s left (suc trial) (suc n))

  count-trial_failures :
      (g : MatchedGroup) (s : String) (left : ℕ)
      → count_if (is_of scenario) (trial_failures str_nat n_trials g s left)
        ≡ (if s == scenario then left else 0)
  unfolding trial_failures
  count-trial_failures g s zero = ground arith
  count-trial_failures g s (suc left) = ground (arith, count-trial_failures g s left)

  count-group_tasks :
      (g : MatchedGroup) (ss : List String) (n : ℕ)
      → count_if (is_task_of scenario) (group_tasks str_nat n_trials g ss n)
        ≡ n_trials * count_if (λ s. s == scenario) ss
  unfolding group_tasks
  count-group_tasks g [] n = ground arith
  count-group_tasks g (s ∷ ss) n =
      count_if-append (is_task_of scenario) (trial_tasks str_nat n_trials g s n_trials 0 n) _
      ∙ omega (
        arith,
        count-trial_tasks g s n_trials 0 n,
        count-group_tasks g ss (n + n_trials),
        scaled n_trials (count_if (λ t. t == scenario) ss) (s == scenario),
      )

  count-group_failures :
      (g : MatchedGroup) (ss : List String)
      → count_if (is_of scenario) (group_failures str_nat n_trials g ss)
        ≡ n_trials * count_if (λ s. s == scenario) ss
  unfolding group_failures
  count-group_failures g [] = ground arith
  count-group_failures g (s ∷ ss) =
      count_if-append (is_of scenario) (trial_failures str_nat n_trials g s n_trials) _
      ∙ omega (
        arith,
        count-trial_failures g s n_trials,
        count-group_failures g ss,
        scaled n_trials (count_if (λ t. t == scenario) ss) (s == scenario),
      )

  -- A group's scenarios fail without a run, or become tasks.
  count-groups :
      (failed_groups : List String) (gs : List MatchedGroup) (n : ℕ)
      → count_if (is_of scenario) (failed_results str_nat n_trials failed_groups gs)
          + count_if (is_task_of scenario) (scenario_tasks str_nat n_trials failed_groups gs n)
        ≡ n_trials * occurrences scenario gs
  unfolding failed_results scenario_tasks
  count-groups failed_groups [] n = omega arith
  count-groups failed_groups (g ∷ gs) n =
      let failures = group_failures str_nat n_trials g g.scenarios in
      let tasks = group_tasks str_nat n_trials g g.scenarios n in
      let failed = elem g.name failed_groups in
      let k = count_if (λ s. s == scenario) g.scenarios in
      let m = advance str_nat n_trials g.scenarios n in
      omega (
        arith,
        count_if-append (is_of scenario) (if failed then failures else [])
            (failed_results str_nat n_trials failed_groups gs),
        count_if-append (is_task_of scenario) (if failed then [] else tasks)
            (scenario_tasks str_nat n_trials failed_groups gs m),
        either (is_of scenario) (is_task_of scenario) failed failures tasks (n_trials * k)
            (count-group_failures g g.scenarios) (count-group_tasks g g.scenarios n),
        count-groups failed_groups gs m,
        mul-add n_trials k (occurrences scenario gs),
      )

  module _ (run : Task → Attempt Result) (scenario_done : Task → Result → Attempt (Unit {0})) where
    -- The progress display never raises.
    abbrev pub IsQuiet : Type 0
    IsQuiet = (t : Task) (r : Result) → scenario_done t r ≡ done tt

    run_one-done : IsQuiet → (t : Task) → run_one run scenario_done t ≡ done (result_of t (run t))
    run_one-done q t = ap (λ a. finish a (result_of t (run t))) (q t (result_of t (run t)))

    count-runs :
        IsQuiet
        → NamesItself run
        → (ts : List Task)
        → count_if (on_done (is_of scenario)) (map (run_one run scenario_done) ts)
          ≡ count_if (is_task_of scenario) ts
    count-runs q h [] = refl
    count-runs q h (t ∷ ts) =
        rw (run_one-done q t, is_of-result_of scenario t (run t) (h t), count-runs q h ts) refl

    -- The results of one worker, in order.
    in_order-kept :
        IsQuiet
        → (ts : List Task)
        → in_order (map (run_one run scenario_done) ts)
          ≡ done (kept (map (run_one run scenario_done) ts))
    in_order-kept q [] = refl
    in_order-kept q (t ∷ ts) = rw (run_one-done q t, in_order-kept q ts) refl

    -- Every scenario of a run has one result for each trial, counted by its name over all groups,
    -- also where its group failed or its run raised, and for one worker or several; when a run that
    -- returns names its scenario, the progress display does not raise, and a pool ends each of its
    -- runs once, in whatever order.
    pub count-run_scenarios :
        (as_completed : List (Attempt Result) → List (Attempt Result)) (workers : ℕ)
        (failed_groups : List String) (gs : List MatchedGroup)
        → NamesItself run
        → IsQuiet
        → ((p : Attempt Result → Bool) (rs : List (Attempt Result))
            → count_if p (as_completed rs) ≡ count_if p rs)
        → (results : List Result) × (run_scenarios str_nat n_trials run scenario_done as_completed
              workers failed_groups gs
            ≡ done results)
          × (count_if (is_of scenario) results ≡ n_trials * occurrences scenario gs)
    unfolding run_scenarios
    count-run_scenarios as_completed workers failed_groups gs h q c =
        let failures = failed_results str_nat n_trials failed_groups gs in
        let tasks = scenario_tasks str_nat n_trials failed_groups gs 0 in
        let runs = map (run_one run scenario_done) tasks in
        let counted = count-groups failed_groups gs 0 in
        elim (Bool-cases (leb workers 1)) [
          | inl e ↦ (
            failures ++ kept runs,
            rw e (ap (prepend failures) (in_order-kept q tasks)),
            omega (
              arith,
              count_if-append (is_of scenario) failures (kept runs),
              count-kept (is_of scenario) runs,
              count-runs q h tasks,
              counted,
            ),
          )
          | inr e ↦ (
            failures ++ kept (as_completed runs),
            rw e refl,
            omega (
              arith,
              count_if-append (is_of scenario) failures (kept (as_completed runs)),
              count-kept (is_of scenario) (as_completed runs),
              c (on_done (is_of scenario)) runs,
              count-runs q h tasks,
              counted,
            ),
          )
        ]
