-- ===== src/Pipeline/Failing.antt =====
-- The failed checks that the pipeline adds to those of the rules keep apart from these.
use agent_belt.Prelude.{
  ◌≡◌, refl, ◌∙◌, String, Bool, true, false, not, ◌&&◌, ◌||◌, Option, none, some, List, [], ◌∷◌,
  ◌++◌, all, all-append, any as any_of, keep, Dict, is_empty, get, get-upsert, put, if_true,
  if_false, sym, Bool-cases, inl, inr, ◌==◌, string_eq, arith,
}
use mathlib.Core.Path.{subst}
use agent_belt.Entities.{TurnOutput}
use agent_belt.Payloads.{
  ScenarioScore, CheckEntry, ScorerPayload, rules, llm, per_turn, plugin, JudgeErrorType,
}
use agent_belt.Runner.Session.{Attempt, done, raised}
use agent_belt.Pipeline.{
  ScorerResult, Scorer, Scoring, same_key, judge_error, scorer_check, infra_checks, prepend, stored,
  add_result, after_score, then_score, run_scorers, with_missing, extras, failed_rules, finish,
}

abbrev pub is_failed : CheckEntry → Bool
is_failed c = elim c.passed [ none ↦ false | some b ↦ not b ]

failed_infra :
    (name : String) (e : Option JudgeErrorType) → all is_failed (infra_checks name e) ≡ true
failed_infra name none = refl
failed_infra name (some e) = refl

-- `own` are the checks of the pipeline.
module _ (own : List CheckEntry) where
  -- A check that fails, or that is none of the pipeline's.
  abbrev pub is_apart : CheckEntry → Bool
  is_apart d = is_failed d || not (any_of (λ c. same_key c d) own)

  abbrev pub is_clean : ScorerPayload → Bool
  is_clean (rules p) = all is_apart p.checks
  is_clean _ = true

  abbrev pub gave_clean : Attempt (Option ScorerResult) → Bool
  gave_clean (done (some r)) = is_clean r.payload
  gave_clean _ = true

  abbrev pub is_clean_at : Option ScorerPayload → Bool
  is_clean_at none = true
  is_clean_at (some p) = is_clean p

  -- The checks to be added fail, and those of the rules so far keep apart from them.
  abbrev pub Clean : Option Scoring → Type 0
  Clean none = Unit
  Clean (some m) =
      (all is_failed m.missing_checks ≡ true) × (is_clean_at (get "rules" m.all_scores) ≡ true)

  all-apart : (cs : List CheckEntry) → all is_failed cs ≡ true → all is_apart cs ≡ true
  all-apart [] h = refl
  all-apart (c ∷ cs) h = ground (arith, h, all-apart cs)

  Clean-stored :
      (name : String) (r : ScorerResult) (m : Scoring)
      → Clean (some m)
      → (not (name == "rules") || is_clean r.payload) ≡ true
      → Clean (stored name m (some r))
  Clean-stored name r m h k = (
    h.0,
    subst (λ o. is_clean_at o ≡ true) (sym (get-upsert name "rules" (λ _. r.payload) m.all_scores))
        (elim (Bool-cases ("rules" == name)) [
          | inl e ↦
              rw e (
                ground
                  (arith, e, k, string_eq.beq_iff "rules" name, string_eq.beq_iff name "rules"))
          | inr e ↦ rw e h.1
        ]),
  )

  Clean-prepend :
      (name : String) (p : ScorerPayload) (m : Scoring)
      → Clean (some m)
      → is_clean p ≡ true
      → Clean (stored name m (prepend m.missing_checks p))
  Clean-prepend name (rules p) m h k =
      let checks = m.missing_checks ++ p.checks in
      Clean-stored name
        (record { passed = false; payload = rules (record { checks = checks; passed = false }) }) m
        h
        (ground
          (arith, all-append is_apart m.missing_checks p.checks, all-apart m.missing_checks h.0, k))
  Clean-prepend name (llm p) m h k = tt
  Clean-prepend name (per_turn p) m h k = tt
  Clean-prepend name (plugin p) m h k = tt

  Clean-add_result :
      (name : String) (r : ScorerResult) (m : Scoring)
      → Clean (some m)
      → (not (name == "rules") || is_clean r.payload) ≡ true
      → Clean (add_result name r m)
  Clean-add_result name r m h k =
      let test = name == "rules" && not (is_empty m.missing_checks) in
      elim (Bool-cases test) [
        | inl e ↦
            subst (λ o. Clean (stored name m o))
              (sym (if_true test (prepend m.missing_checks r.payload) (some r) e))
              (Clean-prepend name r.payload m h (ground (arith, e, k)))
        | inr e ↦
            subst (λ o. Clean (stored name m o))
              (sym (if_false test (prepend m.missing_checks r.payload) (some r) e))
              (Clean-stored name r m h k)
      ]

  Clean-after_score :
      (name : String) (a : Attempt (Option ScorerResult)) (m : Scoring)
      → Clean (some m)
      → (not (name == "rules") || gave_clean a) ≡ true
      → Clean (after_score name a m)
  Clean-after_score name (raised e) m h k = (
    all-append is_failed m.missing_checks (scorer_check name (" scorer failed: " ∷ e ∷ []) ∷ [])
        ∙ ground (arith, h.0),
    h.1,
  )
  Clean-after_score name (done none) m h k = h
  Clean-after_score name (done (some r)) m h k =
      let new = infra_checks name (judge_error r.payload) in
      Clean-add_result name r (record m { missing_checks = m.missing_checks ++ new })
        (
          all-append is_failed m.missing_checks new
              ∙ ground (arith, h.0, failed_infra name (judge_error r.payload)),
          h.1,
        )
        k

  Clean-then_score :
      (o : Option Scoring) (next : Scoring → Option Scoring)
      → Clean o
      → ((m : Scoring) → Clean (some m) → Clean (next m))
      → Clean (then_score o next)
  Clean-then_score none next h k = tt
  Clean-then_score (some m) next h k = k m h

  pub Clean-run_scorers :
      {F : Type 0} (outputs : List (TurnOutput F)) (ss : List (Scorer F)) (m : Scoring)
      → Clean (some m)
      → all (λ s. not (s.name == "rules") || gave_clean (s.score outputs)) ss ≡ true
      → Clean (run_scorers ss outputs m)
  unfolding run_scorers
  Clean-run_scorers outputs [] m h k = h
  Clean-run_scorers outputs (s ∷ ss) m h k =
      Clean-then_score (after_score s.name (s.score outputs) m) (λ m'. run_scorers ss outputs m')
        (Clean-after_score s.name (s.score outputs) m h (ground (arith, k)))
        (λ m' h'. Clean-run_scorers outputs ss m' h' (ground (arith, k)))

  all-keep :
      (p : CheckEntry → Bool) (cs : List CheckEntry)
      → all is_failed cs ≡ true
      → all is_failed (keep p cs) ≡ true
  all-keep p [] h = refl
  all-keep p (c ∷ cs) h = ground (arith, h, all-keep p cs)

  Clean-put :
      (checks : List CheckEntry) (scores : Dict String ScorerPayload)
      → all is_apart checks ≡ true
      → is_clean_at (get "rules" (put "rules" (failed_rules checks) scores)) ≡ true
  Clean-put checks scores h =
      subst (λ o. is_clean_at o ≡ true)
        (sym (get-upsert "rules" "rules" (λ _. failed_rules checks) scores)) h

  Clean-with_missing :
      (missing : List CheckEntry) (o : Option ScorerPayload) (scores : Dict String ScorerPayload)
      → all is_failed missing ≡ true
      → get "rules" scores ≡ o
      → is_clean_at o ≡ true
      → is_clean_at (get "rules" (with_missing missing o scores)) ≡ true
  Clean-with_missing missing none scores h e k = Clean-put missing scores (all-apart missing h)
  Clean-with_missing missing (some (llm p)) scores h e k =
      Clean-put missing scores (all-apart missing h)
  Clean-with_missing missing (some (per_turn p)) scores h e k =
      Clean-put missing scores (all-apart missing h)
  Clean-with_missing missing (some (plugin p)) scores h e k =
      Clean-put missing scores (all-apart missing h)
  Clean-with_missing missing (some (rules p)) scores h e k =
      let new = extras missing p.checks in
      let added = put "rules" (failed_rules (p.checks ++ new)) scores in
      elim (Bool-cases (is_empty new)) [
        | inl n ↦
            subst (λ d. is_clean_at (get "rules" d) ≡ true)
              (sym (if_true (is_empty new) scores added n))
              (subst (λ o. is_clean_at o ≡ true) (sym e) k)
        | inr n ↦
            subst (λ d. is_clean_at (get "rules" d) ≡ true)
              (sym (if_false (is_empty new) scores added n))
              (Clean-put (p.checks ++ new) scores (
                all-append is_apart p.checks new
                ∙ ground (
                  arith,
                  k,
                  all-apart new (all-keep (λ c. not (any_of (same_key c) p.checks)) missing h),
                )))
      ]

  pub Clean-finish :
      (scenario_name group : String) (m : Scoring)
      → Clean (some m)
      → is_clean_at (get "rules" (finish scenario_name group m).scores) ≡ true
  Clean-finish scenario_name group m h = elim (Bool-cases (is_empty m.missing_checks)) [
    | inl e ↦
        subst (λ (s : ScenarioScore). is_clean_at (get "rules" s.scores) ≡ true)
          (sym (if_true (is_empty m.missing_checks) _ _ e)) h.1
    | inr e ↦
        subst (λ (s : ScenarioScore). is_clean_at (get "rules" s.scores) ≡ true)
          (sym (if_false (is_empty m.missing_checks) _ _ e))
          (Clean-with_missing m.missing_checks (get "rules" m.all_scores) m.all_scores h.0 refl h.1)
  ]
