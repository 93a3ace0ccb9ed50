-- ===== src/Pipeline/Preflight/Votes.antt =====
-- In a run that the preflight accepts no judge ends with every turn skipped.
use mathlib.Core.Path.{subst}
use agent_belt.Prelude.{
  ℕ, suc, ◌+◌, ◌≡◌, refl, sym, ap, ◌∙◌, String, Bool, true, false, not, ◌||◌, Option, none, some,
  List, [], ◌∷◌, all, any as any_of, Memᴰ, length, is_empty, is_some, or_else, Dict, get,
  if◌then◌else◌, if_true, if_false, Bool-cases, inl, inr, string_eq, arith,
}
use agent_belt.Payloads.{UsageStats, PerTurnLlmPayload, JudgeErrorType, other, all_turns_skipped}
use agent_belt.Judge.Call.{Outcome, answered, infra_error, fatal, crashed}
use agent_belt.Judge.Dimensions.{ScoringStrategy, TurnJudgeOverride}
use agent_belt.Judge.PerTurn.{
  is_skipped, question_at, after_ask, judge_turn, judge_turns, continue_with, payload_of,
  score_per_turn,
}
use agent_belt.Judge.Tally.{
  JudgeVerdict, EvidenceScope, Question, Scored, scored, raised_fatal, raised_other, Tally,
  first_tally, conclude, some_first,
}
use agent_belt.Pipeline.Preflight.{
  LlmJudge, BuiltScorer, iter_per_turn_judges, JudgedScenario, validate_per_turn_judges,
  resolve_per_turn_override,
}
use agent_belt.Pipeline.Preflight.Accepted.{
  validate_per_turn_judges-accepts, can_vote, is_acceptable,
}

-- The error of a judge that had no turn to judge.
abbrev pub blames_skips : Option JudgeErrorType → Bool
blames_skips (some all_turns_skipped) = true
blames_skips _ = false

abbrev pub outcome_blames : Outcome JudgeVerdict UsageStats → Bool
outcome_blames (infra_error e) = blames_skips (some e)
outcome_blames _ = false

-- Some turn was judged, or its judge errored.
abbrev was_judged : Tally → Bool
was_judged t = t.any_voted || is_some t.first_error_type

-- A turn was judged or, if `pending`, will be; and no error blames the skips.
pub record IsJudged (pending : Bool) (t : Tally) : Type 0 where
  judged : (was_judged t || pending) ≡ true
  blameless : blames_skips t.first_error_type ≡ false

blames-some_first :
    (f : Option JudgeErrorType) (e : JudgeErrorType)
    → blames_skips f ≡ false
    → blames_skips (some e) ≡ false
    → blames_skips (some_first f e) ≡ false
blames-some_first none e h k = k
blames-some_first (some f) e h k = h

or_else-first :
    (f : Option JudgeErrorType) → is_some f ≡ true → some (or_else f all_turns_skipped) ≡ f
or_else-first (some f) h = refl
or_else-first none h = absurd (ground (arith, h))

blames-conclude :
    (t : Tally) → IsJudged false t → blames_skips (conclude t).judge_error_type ≡ false
blames-conclude t h = elim (Bool-cases (not t.any_voted)) [
  | inl e ↦
      subst (λ (p : PerTurnLlmPayload). blames_skips p.judge_error_type ≡ false)
        (sym (if_true (not t.any_voted) _ _ e))
        (ap blames_skips (or_else-first t.first_error_type (ground (arith, e, h.judged)))
          ∙ h.blameless)
  | inr e ↦
      subst (λ (p : PerTurnLlmPayload). blames_skips p.judge_error_type ≡ false)
        (sym (if_false (not t.any_voted) _ _ e))
        (elim t.any_errored
          as (λ b. blames_skips (if b then t.first_error_type else none) ≡ false) [
            | true ↦ h.blameless
            | false ↦ refl
          ])
]

module _ {S T : Type 0} (ask : Question T → S → Outcome JudgeVerdict UsageStats × S)
    (strategy : ScoringStrategy) (scope : EvidenceScope)
    (override_at : ℕ → Option TurnJudgeOverride) (turn_outputs : List T) where
  -- No error of a call is the one for skipped turns.
  abbrev pub NoneBlamed : Type 0
  NoneBlamed = (q : Question T) (s : S) → outcome_blames (ask q s).0 ≡ false

  abbrev Judged : Bool → Scored Tally × S → Type 0
  Judged pending (scored t, s) = IsJudged pending t
  Judged pending _ = Unit

  Judged-after_ask :
      (i : ℕ) (t : Tally) (pending : Bool) (r : Outcome JudgeVerdict UsageStats × S)
      → blames_skips t.first_error_type ≡ false
      → outcome_blames r.0 ≡ false
      → Judged pending (after_ask ask strategy scope override_at turn_outputs i t r)
  Judged-after_ask i t pending (answered (some v) u, s) h k = record {
    judged = refl;
    blameless = h;
  }
  Judged-after_ask i t pending (answered none u, s) h k = record {
    judged = ground arith;
    blameless = blames-some_first t.first_error_type other h refl;
  }
  Judged-after_ask i t pending (infra_error e, s) h k = record {
    judged = ground arith;
    blameless = blames-some_first t.first_error_type e h k;
  }
  Judged-after_ask i t pending (fatal, s) h k = tt
  Judged-after_ask i t pending (crashed, s) h k = tt

  module _ (blameless : NoneBlamed) where
    Judged-judge_turn :
        (i : ℕ) (o : Option TurnJudgeOverride) (t : Tally) (s : S) (pending : Bool)
        → IsJudged (not (is_skipped o) || pending) t
        → Judged pending (judge_turn ask strategy scope override_at turn_outputs i o t s)
    unfolding judge_turn
    Judged-judge_turn i o t s pending h = elim (Bool-cases (is_skipped o)) [
      | inl e ↦
          subst (Judged pending) (sym (if_true (is_skipped o) _ _ e))
            (record { judged = ground (arith, e, h.judged); blameless = h.blameless })
      | inr e ↦
          let q = question_at ask strategy scope override_at turn_outputs i o in
          subst (Judged pending) (sym (if_false (is_skipped o) _ _ e))
            (Judged-after_ask i t pending (ask q s) h.blameless (blameless q s))
    ]

    Judged-continue_with :
        (a : Bool) (r : Scored Tally × S) (next : Tally → S → Scored Tally × S)
        → ((t : Tally) (s : S) → IsJudged a t → Judged false (next t s))
        → Judged a r
        → Judged false (continue_with ask strategy scope override_at turn_outputs r next)
    Judged-continue_with a (scored t, s) next k h = k t s h
    Judged-continue_with a (raised_fatal, s) next k h = tt
    Judged-continue_with a (raised_other, s) next k h = tt

    Judged-judge_turns :
        (name : String) (turns : List (Dict String TurnJudgeOverride)) (i : ℕ) (t : Tally) (s : S)
        → ((k : ℕ) → override_at (i + k) ≡ resolve_per_turn_override name turns k)
        → IsJudged (any_of (λ o. not (is_skipped (get name o))) turns) t
        → Judged false
            (judge_turns ask strategy scope override_at turn_outputs (length turns) i t s)
    unfolding judge_turns
    Judged-judge_turns name [] i t s at h = h
    Judged-judge_turns name (o ∷ os) i t s at h =
        let rest = any_of (λ p. not (is_skipped (get name p))) os in
        Judged-continue_with rest
          (judge_turn ask strategy scope override_at turn_outputs i (override_at i) t s)
          (λ t' s'.
            judge_turns ask strategy scope override_at turn_outputs (length os) (suc i) t' s')
          (λ t' s' h'.
            Judged-judge_turns name os (suc i) t' s'
              (λ k. ap override_at (omega arith) ∙ at (suc k)) h')
          (Judged-judge_turn i (override_at i) t s rest (
            subst (λ p. IsJudged (not (is_skipped p) || rest) t)
              (sym (ap override_at (omega arith) ∙ at 0)) h))

  -- The error of the payload, if the scoring gives one.
  abbrev pub NotBlamed : Scored PerTurnLlmPayload → Type 0
  NotBlamed (scored p) = blames_skips p.judge_error_type ≡ false
  NotBlamed _ = Unit

  NotBlamed-payload_of :
      (r : Scored Tally × S)
      → Judged false r
      → NotBlamed (payload_of ask strategy scope override_at turn_outputs r.0)
  NotBlamed-payload_of (scored t, s) h = blames-conclude t h
  NotBlamed-payload_of (raised_fatal, s) h = tt
  NotBlamed-payload_of (raised_other, s) h = tt

all-at :
    {A : Type 0} (p : A → Bool) (a : A) (xs : List A) → Memᴰ a xs → all p xs ≡ true → p a ≡ true
all-at p a [] m h = elim m [ ]
all-at p a (x ∷ xs) (Memᴰ.head e) h = ap p e ∙ ground (arith, h)
all-at p a (x ∷ xs) (Memᴰ.tail m) h = all-at p a xs m (ground (arith, h))

is_empty-at : {A : Type 0} (a : A) (xs : List A) → Memᴰ a xs → is_empty xs ≡ false
is_empty-at a [] m = elim m [ ]
is_empty-at a (x ∷ xs) m = refl

can_vote-accepted :
    (scorers : List BuiltScorer) (scenarios : List JudgedScenario) (j : LlmJudge)
    (s : JudgedScenario)
    → is_empty (validate_per_turn_judges scorers scenarios) ≡ true
    → Memᴰ j (iter_per_turn_judges scorers)
    → Memᴰ s scenarios
    → can_vote s.turns j.judge_name ≡ true
can_vote-accepted scorers scenarios j s ok m n =
    let judges = iter_per_turn_judges scorers in
    let each = all-at (is_acceptable judges) s scenarios n (
      ground
        (arith, validate_per_turn_judges-accepts scorers scenarios, ok, is_empty-at j judges m)) in
    all-at (λ k. can_vote s.turns k.judge_name) j judges m (ground (arith, each))

module _ {S T : Type 0} (ask : Question T → S → Outcome JudgeVerdict UsageStats × S)
    (strategy : ScoringStrategy) (scope : EvidenceScope) (turn_outputs : List T) where
  -- In a run that the preflight accepts, a judge that works turn by turn scores no scenario with the
  -- error that all turns were skipped, when the scenario has turns, each of them left an output and
  -- no call itself gives that error.
  pub score_per_turn-NotBlamed :
      (scorers : List BuiltScorer) (scenarios : List JudgedScenario) (j : LlmJudge)
      (sc : JudgedScenario) (s : S)
      → is_empty (validate_per_turn_judges scorers scenarios) ≡ true
      → Memᴰ j (iter_per_turn_judges scorers)
      → Memᴰ sc scenarios
      → is_empty sc.turns ≡ false
      → length turn_outputs ≡ length sc.turns
      → NoneBlamed ask strategy scope (resolve_per_turn_override j.judge_name sc.turns) turn_outputs
      → NotBlamed ask strategy scope
          (resolve_per_turn_override j.judge_name sc.turns)
          turn_outputs
          (score_per_turn ask strategy scope
            (resolve_per_turn_override j.judge_name sc.turns)
            turn_outputs
            s).0
  unfolding score_per_turn
  score_per_turn-NotBlamed scorers scenarios j sc s ok m n some_turn same blameless =
      let at = resolve_per_turn_override j.judge_name sc.turns in
      NotBlamed-payload_of ask strategy scope at turn_outputs
        (judge_turns ask strategy scope at turn_outputs (length turn_outputs) 0 first_tally s)
        (subst
          (λ k.
            Judged ask strategy scope at turn_outputs false
              (judge_turns ask strategy scope at turn_outputs k 0 first_tally s))
          (sym same)
          (Judged-judge_turns ask strategy scope at turn_outputs blameless j.judge_name sc.turns 0
            first_tally s (λ k. ap at (omega arith))
            (record {
              judged = ground (arith, can_vote-accepted scorers scenarios j sc ok m n, some_turn);
              blameless = refl;
            })))
