-- ===== src/Pipeline/Verdict.antt =====
-- The verdict on a scenario, of the files of its turns and the answers of its scorers.
use mathlib.Core.List.{append_assoc, append-nil}
use mathlib.Core.Path.{subst}
use agent_belt.Prelude.{
  ℕ, ◌≡◌, refl, sym, ap, ◌∙◌, String, Bool, true, false, not, ◌&&◌, ◌||◌, Option, none, some, List,
  [], ◌∷◌, ◌++◌, all, is_empty, is_empty-append, if_true, if_false, Bool-cases, inl, inr, ◌==◌,
  string_eq, arith,
}
use agent_belt.Entities.{TurnOutput}
use agent_belt.Payloads.{
  CheckEntry, ScorerPayload, rules, llm, per_turn, plugin, ScenarioScore, JudgeErrorType,
}
use agent_belt.Runner.Session.{Attempt, done, raised}
use agent_belt.Pipeline.Outputs.{left_output, is_empty-load_turns}
use agent_belt.Pipeline.{
  TurnFiles, error_if, ScorerResult, Scorer, found, Scoring, load_turns, judge_error, scorer_check,
  infra_checks, prepend, stored, add_result, after_score, then_score, run_scorers, finish, finished,
  first_scoring, score_scenario,
}

-- The payload of a judge that is marked as an error.
abbrev pub is_marked : ScorerPayload → Bool
is_marked (llm p) = p.judge_errored
is_marked (per_turn p) = p.judge_errored
is_marked (rules p) = false
is_marked (plugin p) = false

-- A scorer raised nothing, and gave no payload or one that passes and is a verdict.
abbrev pub is_good : Attempt (Option ScorerResult) → Bool
is_good (raised e) = false
is_good (done none) = true
is_good (done (some r)) = r.passed && not (is_marked r.payload)

-- The check that the answer of a scorer adds, if one.
abbrev pub checks_of : String → Attempt (Option ScorerResult) → List CheckEntry
checks_of name (raised e) = scorer_check name (" scorer failed: " ∷ e ∷ []) ∷ []
checks_of name (done none) = []
checks_of name (done (some r)) = infra_checks name (judge_error r.payload)

abbrev pub is_rules : ScorerPayload → Bool
is_rules (rules p) = true
is_rules _ = false

abbrev pub gave_rules : Attempt (Option ScorerResult) → Bool
gave_rules (done (some r)) = is_rules r.payload
gave_rules _ = true

module _ {F : Type 0} where
  -- The scorer named `rules` gives the payload of the rules.
  abbrev pub in_form : List (TurnOutput F) → Scorer F → Bool
  in_form outputs s = not (s.name == "rules") || gave_rules (s.score outputs)

  abbrev pub all_checks : List (TurnOutput F) → List (Scorer F) → List CheckEntry
  all_checks outputs [] = []
  all_checks outputs (s ∷ ss) = checks_of s.name (s.score outputs) ++ all_checks outputs ss

abbrev passes : Scoring → Bool
passes m = is_empty m.missing_checks && m.overall_pass

-- The loop goes on with a verdict that `ok` decides, and these new checks.
abbrev pub Stepped : Scoring → Bool → List CheckEntry → Option Scoring → Type 0
Stepped m ok new none = ⊥
Stepped m ok new (some m') =
    (passes m' ≡ (passes m && ok)) × (m'.missing_checks ≡ m.missing_checks ++ new)

is_empty-error_if :
    (name : String) (b : Bool) (e : Option JudgeErrorType)
    → is_empty (infra_checks name (error_if b e)) ≡ not b
is_empty-error_if name true e = refl
is_empty-error_if name false e = refl

is_empty-infra_checks :
    (name : String) (p : ScorerPayload)
    → is_empty (infra_checks name (judge_error p)) ≡ not (is_marked p)
is_empty-infra_checks name (llm p) = is_empty-error_if name p.judge_errored p.judge_error_type
is_empty-infra_checks name (per_turn p) = is_empty-error_if name p.judge_errored p.judge_error_type
is_empty-infra_checks name (rules p) = refl
is_empty-infra_checks name (plugin p) = refl

Stepped-prepend :
    (name : String) (m : Scoring) (ok : Bool) (p : ScorerPayload)
    → is_rules p ≡ true
    → is_empty m.missing_checks ≡ false
    → Stepped m ok [] (stored name m (prepend m.missing_checks p))
Stepped-prepend name m ok (rules p) h e = (ground (arith, e), sym (append-nil m.missing_checks))
Stepped-prepend name m ok (llm p) h e = absurd (ground (arith, h))
Stepped-prepend name m ok (per_turn p) h e = absurd (ground (arith, h))
Stepped-prepend name m ok (plugin p) h e = absurd (ground (arith, h))

Stepped-add_result :
    (name : String) (r : ScorerResult) (m : Scoring)
    → (not (name == "rules") || is_rules r.payload) ≡ true
    → Stepped m r.passed [] (add_result name r m)
Stepped-add_result name r m h =
    let test = name == "rules" && not (is_empty m.missing_checks) in
    elim (Bool-cases test) [
      | inl e ↦
          subst (λ o. Stepped m r.passed [] (stored name m o))
            (sym (if_true test (prepend m.missing_checks r.payload) (some r) e))
            (Stepped-prepend name m r.passed r.payload (ground (arith, e, h)) (ground (arith, e)))
      | inr e ↦
          subst (λ o. Stepped m r.passed [] (stored name m o))
            (sym (if_false test (prepend m.missing_checks r.payload) (some r) e))
            (ground arith, sym (append-nil m.missing_checks))
    ]

Stepped-noted :
    (m : Scoring) (ok : Bool) (new : List CheckEntry) (o : Option Scoring)
    → Stepped (record m { missing_checks = m.missing_checks ++ new }) ok [] o
    → Stepped m (ok && is_empty new) new o
Stepped-noted m ok new (some m') h = (
  h.0 ∙ ground (arith, is_empty-append m.missing_checks new),
  h.1 ∙ append-nil (m.missing_checks ++ new),
)
Stepped-noted m ok new none h = h

Stepped-after_score :
    (name : String) (a : Attempt (Option ScorerResult)) (m : Scoring)
    → (not (name == "rules") || gave_rules a) ≡ true
    → Stepped m (is_good a) (checks_of name a) (after_score name a m)
Stepped-after_score name (raised e) m h = (
  ground (
    arith,
    is_empty-append m.missing_checks (scorer_check name (" scorer failed: " ∷ e ∷ []) ∷ []),
  ),
  refl,
)
Stepped-after_score name (done none) m h = (ground arith, sym (append-nil m.missing_checks))
Stepped-after_score name (done (some r)) m h =
    let new = infra_checks name (judge_error r.payload) in
    let m' : Scoring = record m { missing_checks = m.missing_checks ++ new } in
    subst (λ b. Stepped m (r.passed && b) new (add_result name r m'))
      (is_empty-infra_checks name r.payload)
      (Stepped-noted m r.passed new (add_result name r m') (Stepped-add_result name r m' h))

Stepped-then_score :
    (m : Scoring) (a b : Bool) (xs ys : List CheckEntry) (o : Option Scoring)
    (next : Scoring → Option Scoring)
    → Stepped m a xs o
    → ((m' : Scoring) → Stepped m' b ys (next m'))
    → Stepped m (a && b) (xs ++ ys) (then_score o next)
Stepped-then_score m a b xs ys none next h k = h
Stepped-then_score m a b xs ys (some m') next h k = go (next m') (k m')
  where
    go : (o : Option Scoring) → Stepped m' b ys o → Stepped m (a && b) (xs ++ ys) o
    go none l = l
    go (some n) l = (
      l.0 ∙ ground (arith, h.0),
      l.1 ∙ ap (λ zs. zs ++ ys) h.1 ∙ append_assoc m.missing_checks xs ys,
    )

module _ {F : Type 0} (outputs : List (TurnOutput F)) where
  pub Stepped-run_scorers :
      (ss : List (Scorer F)) (m : Scoring)
      → all (in_form outputs) ss ≡ true
      → Stepped m
          (all (λ s. is_good (s.score outputs)) ss)
          (all_checks outputs ss)
          (run_scorers ss outputs m)
  unfolding run_scorers
  Stepped-run_scorers [] m h = (ground arith, sym (append-nil m.missing_checks))
  Stepped-run_scorers (s ∷ ss) m h =
      Stepped-then_score m (is_good (s.score outputs)) (all (λ s. is_good (s.score outputs)) ss)
        (checks_of s.name (s.score outputs)) (all_checks outputs ss)
        (after_score s.name (s.score outputs) m) (λ m'. run_scorers ss outputs m')
        (Stepped-after_score s.name (s.score outputs) m (ground (arith, h)))
        (λ m'. Stepped-run_scorers ss m' (ground (arith, h)))

overall_pass-finish :
    (scenario_name group : String) (m : Scoring)
    → (finish scenario_name group m).overall_pass ≡ passes m
overall_pass-finish scenario_name group m = ground arith

module _ {F : Type 0} (str_nat : ℕ → String) (scenario_name group : String) where
  -- A scenario is scored, when the scorer named `rules` gives the payload of the rules. It passes
  -- exactly when every turn left an output that can be parsed or a CLI output that can be read, no
  -- scorer raised, every payload passes and no judge's payload is marked as an error.
  pub score_scenario-passes :
      (files : List (TurnFiles F)) (scorers : List (Scorer F))
      → all (in_form (load_turns str_nat 0 files).0) scorers ≡ true
      → (s : ScenarioScore) × (score_scenario str_nat scenario_name group (found files) scorers
          ≡ some s)
        × (s.overall_pass ≡ (
            all left_output files
            && all (λ c. is_good (c.score (load_turns str_nat 0 files).0)) scorers))
  unfolding score_scenario
  score_scenario-passes files scorers h =
      let (outputs, missing) = load_turns str_nat 0 files in
      go (run_scorers scorers outputs (first_scoring missing))
        (Stepped-run_scorers outputs scorers (first_scoring missing) h)
    where
      go :
          (o : Option Scoring)
          → Stepped
              (first_scoring (load_turns str_nat 0 files).1)
              (all (λ c. is_good (c.score (load_turns str_nat 0 files).0)) scorers)
              (all_checks (load_turns str_nat 0 files).0 scorers)
              o
          → (s : ScenarioScore) × (finished scenario_name group o ≡ some s)
            × (s.overall_pass ≡ (
                all left_output files
                && all (λ c. is_good (c.score (load_turns str_nat 0 files).0)) scorers))
      go none l = absurd l
      go (some m) l = (
        finish scenario_name group m,
        refl,
        overall_pass-finish scenario_name group m
            ∙ l.0
            ∙ ground (arith, is_empty-load_turns str_nat 0 files),
      )
