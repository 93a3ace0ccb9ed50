-- ===== src/Pipeline/Surfaced.antt =====
-- What went wrong with a scenario stands in its score.
use mathlib.Core.Path.{subst}
use agent_belt.Prelude.{
  ℕ, suc, all-append, ◌==◌, ◌≡◌, refl, sym, ◌∙◌, String, Bool, true, not, ◌||◌, Option, none, some,
  List, [], ◌∷◌, ◌++◌, all, all_ext, any as any_of, get, string_eq, arith,
}
use agent_belt.Payloads.{CheckEntry, ScorerPayload, rules, llm, per_turn, plugin, ScenarioScore}
use agent_belt.Pipeline.{
  TurnFiles, Scorer, found, Scoring, load_turns, run_scorers, finish, finished, first_scoring,
  score_scenario, load_turn, from_cli, add_load, same_key,
}
use agent_belt.Entities.{TurnOutput}
use agent_belt.Runner.Session.{Attempt, done, raised}
use agent_belt.Pipeline.Failing.{
  is_failed, is_apart, gave_clean, is_clean_at, Clean, Clean-run_scorers, Clean-finish,
}
use agent_belt.Pipeline.Reported.{
  shown_failed, all-shown_failed, turns_reported, turns_reported-load_turns, gave_verdict,
  names_scorer, scorers_reported,
}
use agent_belt.Pipeline.Verdict.{in_form, all_checks, is_good, Stepped, Stepped-run_scorers}
use agent_belt.Pipeline.Shown.{is_shown, finish-shown}

-- The checks of the rules in a score, none where there is no such payload.
abbrev pub checks_at : Option ScorerPayload → List CheckEntry
checks_at (some (rules p)) = p.checks
checks_at _ = []

is_shown-checks_at :
    (c : CheckEntry) (o : Option ScorerPayload) → is_shown c o ≡ any_of (same_key c) (checks_at o)
is_shown-checks_at c none = refl
is_shown-checks_at c (some (rules p)) = refl
is_shown-checks_at c (some (llm p)) = refl
is_shown-checks_at c (some (per_turn p)) = refl
is_shown-checks_at c (some (plugin p)) = refl

apart-checks_at :
    (own : List CheckEntry) (o : Option ScorerPayload)
    → is_clean_at own o ≡ true
    → all (is_apart own) (checks_at o) ≡ true
apart-checks_at own none h = refl
apart-checks_at own (some (rules p)) h = h
apart-checks_at own (some (llm p)) h = refl
apart-checks_at own (some (per_turn p)) h = refl
apart-checks_at own (some (plugin p)) h = refl

-- The pipeline's own checks stand in a score as failed ones.
finish-shown_failed :
    (scenario_name group : String) (own : List CheckEntry) (m : Scoring)
    → m.missing_checks ≡ own
    → Clean own (some m)
    → all (shown_failed (checks_at (get "rules" (finish scenario_name group m).scores))) own ≡ true
finish-shown_failed scenario_name group own m e k =
    let o = get "rules" (finish scenario_name group m).scores in
    all-shown_failed own (checks_at o) own (λ d h. h)
      (apart-checks_at own o (Clean-finish own scenario_name group m k))
      (sym (
          all_ext (λ c. is_shown c o) (λ c. any_of (same_key c) (checks_at o))
            (λ c. is_shown-checks_at c o) own)
        ∙ subst (λ cs. all (λ c. is_shown c o) cs ≡ true) e (finish-shown scenario_name group m))

load_turns-failed :
    {F : Type 0} (str_nat : ℕ → String) (i : ℕ) (files : List (TurnFiles F))
    → all is_failed (load_turns str_nat i files).1 ≡ true
unfolding load_turns
load_turns-failed {F = F} str_nat i [] = refl
load_turns-failed {F = F} str_nat i (files ∷ rest) =
    added files files.output (load_turns str_nat (suc i) rest)
      (load_turns-failed str_nat (suc i) rest)
  where
    from :
        (files : TurnFiles F) (cli : Option (Attempt String))
        (rest : List (TurnOutput F) × List CheckEntry)
        → all is_failed rest.1 ≡ true
        → all is_failed (add_load (from_cli str_nat i files cli) rest).1 ≡ true
    from files none (outputs, missing) h = h
    from files (some (raised e)) (outputs, missing) h = h
    from files (some (done text)) (outputs, missing) h = h

    added :
        (files : TurnFiles F) (output : Option (Attempt (TurnOutput F)))
        (rest : List (TurnOutput F) × List CheckEntry)
        → all is_failed rest.1 ≡ true
        → all is_failed (add_load (load_turn str_nat i files output) rest).1 ≡ true
    added files none rest h = from files files.cli rest h
    added files (some (raised e)) rest h = from files files.cli rest h
    added files (some (done o)) (outputs, missing) h = h

module _ {F : Type 0} (str_nat : ℕ → String) (scenario_name group : String) where
  -- The checks that the pipeline adds of its own.
  abbrev pub own_checks : List (TurnFiles F) → List (Scorer F) → List CheckEntry
  own_checks files scorers =
      (load_turns str_nat 0 files).1 ++ all_checks (load_turns str_nat 0 files).0 scorers

  -- The rules that give, as passing or skipped, no check with the name, dimension and details of one
  -- that the pipeline adds.
  abbrev pub gives_apart : List (TurnFiles F) → List (Scorer F) → Scorer F → Bool
  gives_apart files scorers s =
      not (s.name == "rules")
      || gave_clean (own_checks files scorers) (s.score (load_turns str_nat 0 files).0)

  -- A scenario is scored, when the scorer named `rules` gives the payload of the rules and no check
  -- of that payload, unless it fails, has the name, dimension and details of one that is added. Its
  -- score has failed checks on the execution among those of the rules: for each turn that left
  -- neither an output that can be parsed nor a CLI output that can be read, one named for the turn;
  -- and for each scorer that raised or gave a judge's payload that is marked as an error, one named
  -- for the scorer. This also holds where there is no scorer of the rules, and whatever the order of
  -- the scorers.
  pub score_scenario-shown :
      (files : List (TurnFiles F)) (scorers : List (Scorer F))
      → all (in_form (load_turns str_nat 0 files).0) scorers ≡ true
      → all (gives_apart files scorers) scorers ≡ true
      → (s : ScenarioScore) × (score_scenario str_nat scenario_name group (found files) scorers
          ≡ some s)
        × (turns_reported str_nat (checks_at (get "rules" s.scores)) 0 files ≡ true)
        × (all
              (λ c.
                gave_verdict (c.score (load_turns str_nat 0 files).0)
                || names_scorer (checks_at (get "rules" s.scores)) c.name)
              scorers
            ≡ true)
  unfolding score_scenario
  score_scenario-shown files scorers h a =
      let (outputs, missing) = load_turns str_nat 0 files in
      let own = own_checks files scorers in
      go (run_scorers scorers outputs (first_scoring missing))
        (Stepped-run_scorers outputs scorers (first_scoring missing) h)
        (Clean-run_scorers own outputs scorers (first_scoring missing)
          (load_turns-failed str_nat 0 files, refl) a)
    where
      go :
          (o : Option Scoring)
          → Stepped
              (first_scoring (load_turns str_nat 0 files).1)
              (all (λ c. is_good (c.score (load_turns str_nat 0 files).0)) scorers)
              (all_checks (load_turns str_nat 0 files).0 scorers)
              o
          → Clean (own_checks files scorers) o
          → (s : ScenarioScore) × (finished scenario_name group o ≡ some s)
            × (turns_reported str_nat (checks_at (get "rules" s.scores)) 0 files ≡ true)
            × (all
                  (λ c.
                    gave_verdict (c.score (load_turns str_nat 0 files).0)
                    || names_scorer (checks_at (get "rules" s.scores)) c.name)
                  scorers
                ≡ true)
      go none l k = absurd l
      go (some m) l k =
          let s = finish scenario_name group m in
          let checks = checks_at (get "rules" s.scores) in
          let shown = finish-shown_failed scenario_name group (own_checks files scorers) m l.1 k in
          let parts =
            sym (
              all-append (shown_failed checks) (load_turns str_nat 0 files).1
                (all_checks (load_turns str_nat 0 files).0 scorers))
            ∙ shown in
          (
            s,
            refl,
            turns_reported-load_turns str_nat checks 0 files (ground (arith, parts)),
            scorers_reported checks (load_turns str_nat 0 files).0 scorers (ground (arith, parts)),
          )
