-- ===== src/Pipeline/Stopped.antt =====
-- From the runner to the score: a run that stops early, scored by the pipeline.
use mathlib.Core.Path.{subst}
use agent_belt.Prelude.{
  ℕ, zero, suc, ◌+◌, ◌≤◌, ◌<◌, ◌≡◌, refl, sym, ◌∙◌, String, true, false, Option, none, some, List,
  [], ◌∷◌, all, length, is_empty, is_some, get, nat_eq, nat_beq_iff, ◌==◌, Bool-cases, inl, inr,
  arith,
}
use agent_belt.Python.{Python}
use agent_belt.Entities.{TurnOutput, Turn}
use agent_belt.Payloads.{CheckEntry, ScenarioScore}
use agent_belt.Runner.Session.{Attempt, done, World, Agent, Surroundings, ScenarioResult}
use agent_belt.Runner.Turns.{run_scenario_turns}
use agent_belt.Runner.Turns.Above.{RunEnded, run_scenario_turns-ended}
use agent_belt.Pipeline.{
  TurnFiles, Scorer, found, TurnLoad, turn_output, missing_check, load_turn, add_load, load_turns,
  score_scenario,
}
use agent_belt.Pipeline.Outputs.{is_empty-load_turns}
use agent_belt.Pipeline.Verdict.{in_form, score_scenario-passes}

module _ {F : Type 0} (output_at : ℕ → Option (Attempt (TurnOutput F)))
    (state_at : ℕ → Option (Attempt String)) where
  -- The files of a turn: the output is written after the CLI file, and so only where there is one.
  abbrev pub file_of : Option String → ℕ → TurnFiles F
  file_of none i = record { output = none; cli = none; state = state_at i }
  file_of (some text) i = record {
    output = output_at i;
    cli = some (done text);
    state = state_at i;
  }

  -- What a run leaves of the turns from turn `i` on, `left` of them being left.
  abbrev pub files_left : {S : Type 0} → World S → (left i : ℕ) → List (TurnFiles F)
  files_left w zero i = []
  files_left w (suc left) i = file_of (get i w.cli) i ∷ files_left w left (suc i)

none_of : {A : Type 0} (o : Option A) → is_some o ≡ false → o ≡ none
none_of none h = refl
none_of (some a) h = absurd (ground (arith, h))

missing-add_load :
    {F : Type 0} (x : TurnLoad F) (r : List (TurnOutput F) × List CheckEntry)
    → is_empty r.1 ≡ false
    → is_empty (add_load x r).1 ≡ false
missing-add_load (turn_output o) r h = h
missing-add_load (missing_check c) r h = refl

module _ {S F : Type 0} (output_at : ℕ → Option (Attempt (TurnOutput F)))
    (state_at : ℕ → Option (Attempt String)) (str_nat : ℕ → String) where
  -- A turn without a file has a missing check.
  missing-load_turns :
      (w : World S) (m left i : ℕ)
      → is_some (get m w.cli) ≡ false
      → i ≤ m
      → m < i + left
      → is_empty (load_turns str_nat i (files_left output_at state_at w left i)).1 ≡ false
  unfolding load_turns
  missing-load_turns w m zero i h l u = absurd (omega (arith, l, u))
  missing-load_turns w m (suc left) i h l u = elim (Bool-cases (m == i)) [
    | inl e ↦
        subst
          (λ o.
            is_empty
              (add_load
                (load_turn str_nat i (file_of output_at state_at o i)
                  (file_of output_at state_at o i).output)
                (load_turns str_nat (suc i) (files_left output_at state_at w left (suc i)))).1
            ≡ false)
          (sym (
            none_of (get i w.cli)
              (subst (λ k. is_some (get k w.cli) ≡ false) ((nat_beq_iff m i).0 e) h)))
          refl
    | inr e ↦
        missing-add_load
          (load_turn str_nat i (file_of output_at state_at (get i w.cli) i)
            (file_of output_at state_at (get i w.cli) i).output)
          (load_turns str_nat (suc i) (files_left output_at state_at w left (suc i)))
          (missing-load_turns w m left (suc i) h (ground (arith, e, l, nat_beq_iff m i))
            (omega (arith, u)))
  ]

module _ (py : Python) {S : Type 0} (agent : Agent S (Python.Float py))
    (env : Surroundings (Python.Float py)) (turns : List (Turn (Python.Float py)))
    (output_at : ℕ → Option (Attempt (TurnOutput (Python.Float py))))
    (state_at : ℕ → Option (Attempt String)) (str_nat : ℕ → String)
    (scenario_name group : String) where
  open py use {Float}

  -- A run in an empty directory that stops before it has begun the last turn is no pass, whatever
  -- its scorers say, when the scenario that is scored has the turns that were run and the scorer
  -- named `rules` gives the payload of the rules: the files that the run leaves lack those of a turn.
  pub run_scenario_turns-no_pass :
      (start end : World S) (r : ScenarioResult Float) (scorers : List (Scorer Float))
      → start.cli ≡ []
      → run_scenario_turns py agent env turns start ≡ (end, done r)
      → suc r.turns_completed < length turns
      → all
          (in_form (load_turns str_nat 0 (files_left output_at state_at end (length turns) 0)).0)
          scorers
        ≡ true
      → (s : ScenarioScore) × (score_scenario str_nat scenario_name group
            (found (files_left output_at state_at end (length turns) 0))
            scorers
          ≡ some s)
        × (s.overall_pass ≡ false)
  run_scenario_turns-no_pass start end r scorers e ran early h =
      let none_from =
        subst (RunEnded py agent env) ran (run_scenario_turns-ended py agent env turns start e) in
      let missing =
        missing-load_turns output_at state_at str_nat end (suc r.turns_completed) (length turns) 0
          (none_from (suc r.turns_completed) (omega arith)) (omega arith) (omega (arith, early)) in
      let (s, scored, passes) =
        score_scenario-passes str_nat scenario_name group
          (files_left output_at state_at end (length turns) 0) scorers h in
      (
        s,
        scored,
        passes
            ∙ ground (
              arith,
              missing,
              is_empty-load_turns str_nat 0 (files_left output_at state_at end (length turns) 0),
            ),
      )
