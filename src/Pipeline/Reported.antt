-- ===== src/Pipeline/Reported.antt =====
-- Which failed checks report the turns without an output and the scorers without a verdict.
use agent_belt.Prelude.{
  ℕ, suc, ◌≡◌, refl, String, Bool, true, false, not, ◌&&◌, ◌||◌, Option, none, some, List, [], ◌∷◌,
  all, all-append, or_else, any as any_of, concat, ◌==◌, string_eq, arith,
}
use agent_belt.Entities.{TurnOutput}
use agent_belt.Consensus.Votes.{error_token}
use agent_belt.Payloads.{
  other, CheckEntry, ScorerPayload, rules, llm, per_turn, plugin, JudgeErrorType,
}
use agent_belt.Runner.Session.{Attempt, done, raised}
use agent_belt.Pipeline.{
  TurnFiles, ScorerResult, Scorer, load_turn, load_turns, from_cli, add_load, turn_name, same_key,
  execution_check, error_if, infra_checks,
}
use agent_belt.Pipeline.Outputs.{is_done, left_output}
use agent_belt.Pipeline.Verdict.{is_marked, checks_of, all_checks}
use agent_belt.Pipeline.Failing.{is_failed, is_apart}

-- A failed check on the execution of this name is among the checks.
abbrev pub has_failed_check : String → List CheckEntry → Bool
has_failed_check name checks =
    any_of (λ d. is_failed d && ("execution" == d.dimension && name == d.check)) checks

-- A failed check of this name, dimension and details.
abbrev pub shown_failed : List CheckEntry → CheckEntry → Bool
shown_failed checks c = any_of (λ d. same_key c d && is_failed d) checks

has_failed-shown :
    (name details : String) (checks : List CheckEntry)
    → shown_failed checks (execution_check name details) ≡ true
    → has_failed_check name checks ≡ true
has_failed-shown name details [] h = absurd (ground (arith, h))
has_failed-shown name details (d ∷ checks) h =
    ground (arith, h, has_failed-shown name details checks)

-- Checks that are shown are shown as failed ones, among checks that keep apart from them.
shown-failed :
    (own checks : List CheckEntry) (c : CheckEntry)
    → ((d : CheckEntry) → same_key c d ≡ true → any_of (λ e. same_key e d) own ≡ true)
    → all (is_apart own) checks ≡ true
    → any_of (same_key c) checks ≡ true
    → shown_failed checks c ≡ true
shown-failed own [] c i k h = absurd (ground (arith, h))
shown-failed own (d ∷ checks) c i k h = ground (arith, i d, k, h, shown-failed own checks c i)

pub all-shown_failed :
    (own checks cs : List CheckEntry)
    → ((d : CheckEntry)
        → any_of (λ e. same_key e d) cs ≡ true
        → any_of (λ e. same_key e d) own ≡ true)
    → all (is_apart own) checks ≡ true
    → all (λ c. any_of (same_key c) checks) cs ≡ true
    → all (shown_failed checks) cs ≡ true
all-shown_failed own checks [] i k h = refl
all-shown_failed own checks (c ∷ cs) i k h = ground (
  arith,
  h,
  shown-failed own checks c (λ d e. i d (ground (arith, e))) k,
  all-shown_failed own checks cs (λ d e. i d (ground (arith, e))) k,
)

abbrev pub names_turn : (str_nat : ℕ → String) → List CheckEntry → ℕ → Bool
names_turn str_nat checks i =
    has_failed_check (turn_name str_nat i "_exists") checks
    || has_failed_check (turn_name str_nat i "_readable") checks

module _ {F : Type 0} (str_nat : ℕ → String) (checks : List CheckEntry) where
  -- Each turn from turn `i` on left an output, or a failed check has its name.
  abbrev pub turns_reported : ℕ → List (TurnFiles F) → Bool
  turns_reported i [] = true
  turns_reported i (files ∷ rest) =
      (left_output files || names_turn str_nat checks i) && turns_reported (suc i) rest

  from_cli-reported :
      (i : ℕ) (files : TurnFiles F) (cli : Option (Attempt String))
      (rest : List (TurnOutput F) × List CheckEntry)
      → all (shown_failed checks) (add_load (from_cli str_nat i files cli) rest).1 ≡ true
      → ((is_done cli || names_turn str_nat checks i) ≡ true)
        × (all (shown_failed checks) rest.1 ≡ true)
  from_cli-reported i files none (outputs, missing) h = (
    ground (arith, h, has_failed-shown (turn_name str_nat i "_exists") "file missing" checks),
    ground (arith, h),
  )
  from_cli-reported i files (some (raised e)) (outputs, missing) h = (
    ground (arith, h, has_failed-shown (turn_name str_nat i "_readable") e checks),
    ground (arith, h),
  )
  from_cli-reported i files (some (done text)) (outputs, missing) h = (refl, h)

  load_turn-reported :
      (i : ℕ) (files : TurnFiles F) (output : Option (Attempt (TurnOutput F)))
      (rest : List (TurnOutput F) × List CheckEntry)
      → all (shown_failed checks) (add_load (load_turn str_nat i files output) rest).1 ≡ true
      → (((is_done output || is_done files.cli) || names_turn str_nat checks i) ≡ true)
        × (all (shown_failed checks) rest.1 ≡ true)
  load_turn-reported i files none rest h = from_cli-reported i files files.cli rest h
  load_turn-reported i files (some (raised e)) rest h = from_cli-reported i files files.cli rest h
  load_turn-reported i files (some (done o)) (outputs, missing) h = (refl, h)

  pub turns_reported-load_turns :
      (i : ℕ) (files : List (TurnFiles F))
      → all (shown_failed checks) (load_turns str_nat i files).1 ≡ true
      → turns_reported i files ≡ true
  unfolding load_turns
  turns_reported-load_turns i [] h = refl
  turns_reported-load_turns i (files ∷ rest) h =
      let first = load_turn-reported i files files.output (load_turns str_nat (suc i) rest) h in
      ground (arith, first.0, turns_reported-load_turns (suc i) rest first.1)

-- A scorer did not raise, and its payload, if it gave one, is not marked as an error.
abbrev pub gave_verdict : Attempt (Option ScorerResult) → Bool
gave_verdict (raised e) = false
gave_verdict (done none) = true
gave_verdict (done (some r)) = not (is_marked r.payload)

abbrev pub names_scorer : List CheckEntry → String → Bool
names_scorer checks name = has_failed_check (concat (name ∷ "_scorer_ran" ∷ [])) checks

module _ (checks : List CheckEntry) where
  infra-reported :
      (name : String) (b : Bool) (e : Option JudgeErrorType)
      → all (shown_failed checks) (infra_checks name (error_if b e)) ≡ true
      → (not b || names_scorer checks name) ≡ true
  infra-reported name false e h = refl
  infra-reported name true e h =
      has_failed-shown (concat (name ∷ "_scorer_ran" ∷ []))
        (concat (name ∷ " scorer judge-infra failure: " ∷ error_token (or_else e other) ∷ []))
        checks (ground (arith, h))

  answer-reported :
      (name : String) (a : Attempt (Option ScorerResult))
      → all (shown_failed checks) (checks_of name a) ≡ true
      → (gave_verdict a || names_scorer checks name) ≡ true
  answer-reported name (raised e) h =
      has_failed-shown (concat (name ∷ "_scorer_ran" ∷ []))
        (concat (name ∷ " scorer failed: " ∷ e ∷ [])) checks (ground (arith, h))
  answer-reported name (done none) h = refl
  answer-reported name (done (some r)) h = payload r.payload h
    where
      payload :
          (p : ScorerPayload)
          → all
              (shown_failed checks)
              (checks_of name (done (some (record { passed = true; payload = p }))))
            ≡ true
          → (not (is_marked p) || names_scorer checks name) ≡ true
      payload (llm p) h = infra-reported name p.judge_errored p.judge_error_type h
      payload (per_turn p) h = infra-reported name p.judge_errored p.judge_error_type h
      payload (rules p) h = refl
      payload (plugin p) h = refl

  pub scorers_reported :
      {F : Type 0} (outputs : List (TurnOutput F)) (ss : List (Scorer F))
      → all (shown_failed checks) (all_checks outputs ss) ≡ true
      → all (λ s. gave_verdict (s.score outputs) || names_scorer checks s.name) ss ≡ true
  scorers_reported outputs [] h = refl
  scorers_reported outputs (s ∷ ss) h = ground (
    arith,
    h,
    all-append (shown_failed checks) (checks_of s.name (s.score outputs)) (all_checks outputs ss),
    answer-reported s.name (s.score outputs),
    scorers_reported outputs ss,
  )
