-- ===== src/Judge/PerTurn/Verdicts.antt =====
-- What a payload of turn-by-turn judging says of its turns.
use mathlib.Core.Path.{subst}
use agent_belt.Prelude.{
  ℕ, zero, suc, ◌+◌, ◌≡◌, refl, sym, Bool, true, not, Option, none, some, List, length, if_true,
  if_false, Bool-cases, inl, inr, arith,
}
use agent_belt.Payloads.{UsageStats, PerTurnLlmPayload, other}
use agent_belt.Judge.Call.{Outcome, answered, infra_error, fatal, crashed}
use agent_belt.Judge.Dimensions.{ScoringStrategy, TurnJudgeOverride}
use agent_belt.Judge.PerTurn.{
  is_skipped, question_at, after_ask, judge_turn, judge_turns, continue_with, payload_of,
  score_per_turn,
}
use agent_belt.Judge.Tally.{
  JudgeVerdict, EvidenceScope, Question, Scored, scored, raised_fatal, raised_other, Tally,
  first_tally,
}
use agent_belt.Judge.PerTurn.Tallied.{
  add_zero, zero_add, suc_add, IsTallied, IsHonest, conclude-IsHonest, IsTallied-skip,
  IsTallied-error, IsTallied-vote,
}

module _ {S T : Type 0} (ask : Question T → S → Outcome JudgeVerdict UsageStats × S)
    (strategy : ScoringStrategy) (scope : EvidenceScope)
    (override_at : ℕ → Option TurnJudgeOverride) (turn_outputs : List T) where
  -- Whether the judge is asked about a turn, which is not to be skipped.
  abbrev pub judged : ℕ → Bool
  judged i = not (is_skipped (override_at i))

  abbrev Tallied : ℕ → Scored Tally × S → Type 0
  Tallied n (scored t, s) = IsTallied judged n t
  Tallied n _ = Unit

  Tallied-after_ask :
      (n : ℕ) (t : Tally) (o : Outcome JudgeVerdict UsageStats × S)
      → judged n ≡ true
      → IsTallied judged n t
      → Tallied (suc n) (after_ask ask strategy scope override_at turn_outputs n t o)
  Tallied-after_ask n t (answered (some v) u, s) j h = IsTallied-vote judged n v u t j h
  Tallied-after_ask n t (answered none u, s) j h = IsTallied-error judged n other t j h
  Tallied-after_ask n t (infra_error e, s) j h = IsTallied-error judged n e t j h
  Tallied-after_ask n t (fatal, s) j h = tt
  Tallied-after_ask n t (crashed, s) j h = tt

  Tallied-judge_turn :
      (n : ℕ) (t : Tally) (s : S)
      → IsTallied judged n t
      → Tallied
          (suc n)
          (judge_turn ask strategy scope override_at turn_outputs n (override_at n) t s)
  unfolding judge_turn
  Tallied-judge_turn n t s h = elim (Bool-cases (is_skipped (override_at n))) [
    | inl e ↦
        subst (Tallied (suc n)) (sym (if_true (is_skipped (override_at n)) _ _ e))
          (IsTallied-skip judged n t (ground (arith, e)) h)
    | inr e ↦ subst (Tallied (suc n)) (sym (if_false (is_skipped (override_at n)) _ _ e)) (
        Tallied-after_ask n t
          (ask (question_at ask strategy scope override_at turn_outputs n (override_at n)) s)
          (ground (arith, e)) h)
  ]

  Tallied-continue_with :
      (n m : ℕ) (r : Scored Tally × S) (next : Tally → S → Scored Tally × S)
      → ((t : Tally) (s : S) → IsTallied judged n t → Tallied m (next t s))
      → Tallied n r
      → Tallied m (continue_with ask strategy scope override_at turn_outputs r next)
  Tallied-continue_with n m (scored t, s) next then_next h = then_next t s h
  Tallied-continue_with n m (raised_fatal, s) next then_next h = tt
  Tallied-continue_with n m (raised_other, s) next then_next h = tt

  Tallied-judge_turns :
      (left n : ℕ) (t : Tally) (s : S)
      → IsTallied judged n t
      → Tallied (left + n) (judge_turns ask strategy scope override_at turn_outputs left n t s)
  unfolding judge_turns
  Tallied-judge_turns zero n t s h = subst (λ k. IsTallied judged k t) (sym (zero_add n)) h
  Tallied-judge_turns (suc left) n t s h =
      subst
        (λ k. Tallied k (judge_turns ask strategy scope override_at turn_outputs (suc left) n t s))
        (sym (suc_add left n))
        (Tallied-continue_with (suc n) (left + suc n)
          (judge_turn ask strategy scope override_at turn_outputs n (override_at n) t s)
          (λ t' s'. judge_turns ask strategy scope override_at turn_outputs left (suc n) t' s')
          (λ t' s' h'. Tallied-judge_turns left (suc n) t' s' h') (Tallied-judge_turn n t s h))

  IsTallied-first_tally : IsTallied judged 0 first_tally
  IsTallied-first_tally = record { errored_seen = refl; typed = refl; numbered = refl; seen = refl }

  -- What the scoring gives is an honest payload, when it gives one.
  abbrev pub Honest : Scored PerTurnLlmPayload → Type 0
  Honest (scored p) = IsHonest judged (length turn_outputs) p
  Honest raised_fatal = Unit
  Honest raised_other = Unit

  Honest-payload_of :
      (r : Scored Tally × S)
      → Tallied (length turn_outputs) r
      → Honest (payload_of ask strategy scope override_at turn_outputs r.0)
  Honest-payload_of (scored t, s) h = conclude-IsHonest judged (length turn_outputs) t h
  Honest-payload_of (raised_fatal, s) h = tt
  Honest-payload_of (raised_other, s) h = tt

  -- Judging turn by turn gives one verdict for each turn of the run, numbered by its place. The
  -- payload passes only when some turn is not skipped, no turn errored and no turn has a failing
  -- dimension; a turn that errored marks the payload, a marked payload does not pass and names a
  -- type of error, and one that is not marked names none. With every turn skipped the payload is
  -- marked by the error of that name.
  pub score_per_turn-IsHonest :
      (s : S) → Honest (score_per_turn ask strategy scope override_at turn_outputs s).0
  unfolding score_per_turn
  score_per_turn-IsHonest s =
      Honest-payload_of
        (judge_turns ask strategy scope override_at turn_outputs (length turn_outputs) 0 first_tally
          s)
        (subst
          (λ k. Tallied k (
            judge_turns ask strategy scope override_at turn_outputs (length turn_outputs) 0
              first_tally s))
          (add_zero (length turn_outputs))
          (Tallied-judge_turns (length turn_outputs) 0 first_tally s IsTallied-first_tally))
