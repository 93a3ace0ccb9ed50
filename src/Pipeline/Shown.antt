-- ===== src/Pipeline/Shown.antt =====
-- The checks that are missing stand in the score of a scenario.
use mathlib.Core.List.{append_assoc}
use mathlib.Core.Path.{subst}
use agent_belt.Prelude.{
  ◌≡◌, refl, sym, ◌∙◌, String, Bool, true, false, not, ◌||◌, Option, none, some, List, [], ◌∷◌,
  ◌++◌, all, all_ext, any as any_of, keep, any-append, is_empty, Dict, get, put, get-upsert,
  if_true, if_false, Bool-cases, inl, inr, string_eq, eq_self, arith,
}
use agent_belt.Payloads.{CheckEntry, ScorerPayload, rules, llm, per_turn, plugin, ScenarioScore}
use agent_belt.Pipeline.{Scoring, finish, with_missing, same_key, extras, failed_rules}

-- A check of the name, dimension and details stands in the payload of the rules.
abbrev pub is_shown : CheckEntry → Option ScorerPayload → Bool
is_shown c (some (rules p)) = any_of (same_key c) p.checks
is_shown c _ = false

same_key_self : (c : CheckEntry) → same_key c c ≡ true
same_key_self c = ground (arith, eq_self c.check, eq_self c.dimension, eq_self c.details)

-- Checks are shown among checks that end in them.
shown_at_end : (pre cs : List CheckEntry) → all (λ c. any_of (same_key c) (pre ++ cs)) cs ≡ true
shown_at_end pre [] = refl
shown_at_end pre (c ∷ cs) =
    let here = any-append (same_key c) pre (c ∷ cs) in
    let there =
      subst (λ l. all (λ d. any_of (same_key d) l) cs ≡ true) (append_assoc pre (c ∷ []) cs)
        (shown_at_end (pre ++ c ∷ []) cs) in
    ground (arith, here, there, same_key_self c)

-- Each check of a list is in the one or, if it is not, in the other.
all-keep :
    (a b : CheckEntry → Bool) (cs : List CheckEntry)
    → all b (keep (λ c. not (a c)) cs) ≡ true
    → all (λ c. a c || b c) cs ≡ true
all-keep a b [] h = refl
all-keep a b (c ∷ cs) h = elim (Bool-cases (a c)) [
  | inl e ↦ ground (arith, e, all-keep a b cs (ground (arith, e, h)))
  | inr e ↦ ground (arith, e, all-keep a b cs (ground (arith, e, h)), h)
]

all_empty : {A : Type 0} (p : A → Bool) (xs : List A) → is_empty xs ≡ true → all p xs ≡ true
all_empty p [] h = refl
all_empty p (x ∷ xs) h = absurd (ground (arith, h))

put-shown :
    (checks missing : List CheckEntry) (scores : Dict String ScorerPayload)
    → all (λ c. any_of (same_key c) checks) missing ≡ true
    → all (λ c. is_shown c (get "rules" (put "rules" (failed_rules checks) scores))) missing ≡ true
put-shown checks missing scores h =
    subst (λ o. all (λ c. is_shown c o) missing ≡ true)
      (sym (get-upsert "rules" "rules" (λ _. failed_rules checks) scores)) h

replaced-shown :
    (missing : List CheckEntry) (scores : Dict String ScorerPayload)
    → all (λ c. is_shown c (get "rules" (put "rules" (failed_rules missing) scores))) missing ≡ true
replaced-shown missing scores = put-shown missing missing scores (shown_at_end [] missing)

with_missing-shown :
    (missing : List CheckEntry) (o : Option ScorerPayload) (scores : Dict String ScorerPayload)
    → get "rules" scores ≡ o
    → all (λ c. is_shown c (get "rules" (with_missing missing o scores))) missing ≡ true
with_missing-shown missing none scores e = replaced-shown missing scores
with_missing-shown missing (some (llm p)) scores e = replaced-shown missing scores
with_missing-shown missing (some (per_turn p)) scores e = replaced-shown missing scores
with_missing-shown missing (some (plugin p)) scores e = replaced-shown missing scores
with_missing-shown missing (some (rules p)) scores e =
    let old : CheckEntry → Bool = λ c. any_of (same_key c) p.checks in
    let new = extras missing p.checks in
    let added = put "rules" (failed_rules (p.checks ++ new)) scores in
    elim (Bool-cases (is_empty new)) [
      | inl n ↦
          subst (λ d. all (λ c. is_shown c (get "rules" d)) missing ≡ true)
            (sym (if_true (is_empty new) scores added n))
            (subst (λ o. all (λ c. is_shown c o) missing ≡ true) (sym e)
              (all_ext old (λ c. old c || false) (λ c. ground arith) missing
                ∙ all-keep old (λ c. false) missing (all_empty (λ c. false) new n)))
      | inr n ↦
          subst (λ d. all (λ c. is_shown c (get "rules" d)) missing ≡ true)
            (sym (if_false (is_empty new) scores added n))
            (put-shown (p.checks ++ new) missing scores (
              all_ext (λ c. any_of (same_key c) (p.checks ++ new))
                (λ c. old c || any_of (same_key c) new) (λ c. any-append (same_key c) p.checks new)
                missing
              ∙ all-keep old (λ c. any_of (same_key c) new) missing (shown_at_end [] new)))
    ]

pub finish-shown :
    (scenario_name group : String) (m : Scoring)
    → all (λ c. is_shown c (get "rules" (finish scenario_name group m).scores)) m.missing_checks
      ≡ true
finish-shown scenario_name group m = elim (Bool-cases (is_empty m.missing_checks)) [
  | inl e ↦
      all_empty (λ c. is_shown c (get "rules" (finish scenario_name group m).scores))
        m.missing_checks e
  | inr e ↦
      subst
        (λ (s : ScenarioScore).
          all (λ c. is_shown c (get "rules" s.scores)) m.missing_checks ≡ true)
        (sym (if_false (is_empty m.missing_checks) _ _ e))
        (with_missing-shown m.missing_checks (get "rules" m.all_scores) m.all_scores refl)
]
