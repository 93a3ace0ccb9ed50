-- ===== src/Judge/PerTurn/Tallied.antt =====
-- What the variables of the loop over the turns agree with, and what follows for the payload.
use mathlib.Core.List.{map-append}
use mathlib.Core.Path.{subst}
use agent_belt.Prelude.{
  ℕ, zero, suc, ◌+◌, ◌≡◌, refl, sym, ap, ◌∙◌, Bool, true, false, not, ◌||◌, Option, some, List, [],
  ◌∷◌, ◌++◌, map, any as any_of, any-append, is_some, if_true, if_false, Bool-cases, inl, inr,
  arith,
}
use agent_belt.Payloads.{
  UsageStats, TurnVerdict, PerTurnLlmPayload, JudgeErrorType, all_turns_skipped,
}
use agent_belt.Consensus.PerTurn.{fails}
use agent_belt.Judge.Tally.{
  JudgeVerdict, Tally, skip_turn, error_turn, vote_turn, conclude, skipped_turn, errored_turn,
  turn_verdict_from,
}

abbrev errored : TurnVerdict → Bool
errored t = t.judge_errored

-- The numbers from `i` on.
abbrev pub range : (left i : ℕ) → List ℕ
range zero i = []
range (suc left) i = i ∷ range left (suc i)

pub add_zero : (n : ℕ) → n + 0 ≡ n
add_zero n = omega arith

pub zero_add : (n : ℕ) → 0 + n ≡ n
zero_add n = omega arith

pub suc_add : (n i : ℕ) → suc n + i ≡ n + suc i
suc_add n i = omega arith

range-snoc : (n i : ℕ) → range n i ++ (n + i) ∷ [] ≡ range (suc n) i
range-snoc zero i = ground arith
range-snoc (suc n) i = ap (◌∷◌ i) (rw (suc_add n i) (range-snoc n (suc i)))

-- The loop's variables agree with the turns so far, and with which of them are judged at all.
pub record IsTallied (judged : ℕ → Bool) (n : ℕ) (t : Tally) : Type 0 where
  pub errored_seen : t.any_errored ≡ any_of errored t.turns_out
  pub typed : t.any_errored ≡ is_some t.first_error_type
  pub numbered : map (λ v. v.turn_idx) t.turns_out ≡ range n 0
  pub seen : (t.any_voted || t.any_errored) ≡ any_of judged (range n 0)

-- A turn is numbered by its place. A payload that passes has no turn that errored or failed, and a
-- payload with such a turn does not pass; one with a turn that errored is itself marked, with a
-- type. Where no turn is judged the payload is marked too, and does not pass.
pub record IsHonest (judged : ℕ → Bool) (n : ℕ) (p : PerTurnLlmPayload) : Type 0 where
  pub numbered : map (λ v. v.turn_idx) p.turns ≡ range n 0
  pub passing : p.overall_pass ≡ true → (any_of errored p.turns || any_of fails p.turns) ≡ false
  pub marked : any_of errored p.turns ≡ true → p.judge_errored ≡ true
  pub failing :
      p.judge_errored ≡ true → (p.overall_pass ≡ false) × (is_some p.judge_error_type ≡ true)
  pub clean : p.judge_errored ≡ false → is_some p.judge_error_type ≡ false
  pub all_skipped :
      any_of judged (range n 0) ≡ false
      → (p.overall_pass ≡ false)
        × (p.judge_errored ≡ true)
        × (p.judge_error_type ≡ some all_turns_skipped)
  pub judged_once : p.overall_pass ≡ true → any_of judged (range n 0) ≡ true

pub conclude-IsHonest :
    (judged : ℕ → Bool) (n : ℕ) (t : Tally) → IsTallied judged n t → IsHonest judged n (conclude t)
conclude-IsHonest judged n t h = elim (Bool-cases t.any_voted) [
  | inl v ↦
      subst (IsHonest judged n) (sym (if_false (not t.any_voted) _ _ (ground (arith, v)))) (record {
        numbered = h.numbered;
        passing = λ p. ground (arith, p, h.errored_seen);
        marked = λ e. h.errored_seen ∙ e;
        failing = λ e. (ground (arith, e), ground (arith, e, h.typed));
        clean = λ e. ground (arith, e);
        all_skipped = λ e. absurd (ground (arith, e, v, h.seen));
        judged_once = λ p. sym h.seen ∙ ground (arith, v);
      })
  | inr v ↦
      subst (IsHonest judged n) (sym (if_true (not t.any_voted) _ _ (ground (arith, v)))) (record {
        numbered = h.numbered;
        passing = λ p. cc;
        marked = λ e. refl;
        failing = λ e. (refl, refl);
        clean = λ e. cc;
        all_skipped = λ e. (refl, refl, ground (arith, e, h.seen, h.typed));
        judged_once = λ p. cc;
      })
]

numbered-snoc :
    (judged : ℕ → Bool) (n : ℕ) (t : Tally) (v : TurnVerdict)
    → IsTallied judged n t
    → v.turn_idx ≡ n
    → map (λ w. w.turn_idx) (t.turns_out ++ v ∷ []) ≡ range (suc n) 0
numbered-snoc judged n t v h e =
    map-append (λ w. w.turn_idx) t.turns_out (v ∷ [])
    ∙ ap (λ l. l ++ v.turn_idx ∷ []) h.numbered
    ∙ ap (λ k. range n 0 ++ k ∷ []) (e ∙ sym (add_zero n))
    ∙ range-snoc n 0

errored-snoc :
    (judged : ℕ → Bool) (n : ℕ) (t : Tally) (v : TurnVerdict)
    → IsTallied judged n t
    → any_of errored (t.turns_out ++ v ∷ []) ≡ (t.any_errored || v.judge_errored)
errored-snoc judged n t v h =
    any-append errored t.turns_out (v ∷ []) ∙ ground (arith, h.errored_seen)

-- What the turns judged so far and the next one have seen.
seen-snoc :
    (judged : ℕ → Bool) (n : ℕ) (t : Tally)
    → IsTallied judged n t
    → any_of judged (range (suc n) 0) ≡ ((t.any_voted || t.any_errored) || judged n)
seen-snoc judged n t h =
    ap (any_of judged) (sym (range-snoc n 0))
    ∙ any-append judged (range n 0) ((n + 0) ∷ [])
    ∙ rw (sym h.seen) (rw (add_zero n) (ground arith))

pub IsTallied-skip :
    (judged : ℕ → Bool) (n : ℕ) (t : Tally)
    → judged n ≡ false
    → IsTallied judged n t
    → IsTallied judged (suc n) (skip_turn n t)
IsTallied-skip judged n t j h = record {
  errored_seen = sym (errored-snoc judged n t (skipped_turn n) h ∙ ground arith);
  typed = h.typed;
  numbered = numbered-snoc judged n t (skipped_turn n) h refl;
  seen = sym (seen-snoc judged n t h ∙ ground (arith, j));
}

pub IsTallied-error :
    (judged : ℕ → Bool) (n : ℕ) (e : JudgeErrorType) (t : Tally)
    → judged n ≡ true
    → IsTallied judged n t
    → IsTallied judged (suc n) (error_turn n e t)
IsTallied-error judged n e t j h = record {
  errored_seen = sym (errored-snoc judged n t (errored_turn n e) h ∙ ground arith);
  typed = ground arith;
  numbered = numbered-snoc judged n t (errored_turn n e) h refl;
  seen = sym (seen-snoc judged n t h ∙ ground (arith, j));
}

pub IsTallied-vote :
    (judged : ℕ → Bool) (n : ℕ) (v : JudgeVerdict) (u : Option UsageStats) (t : Tally)
    → judged n ≡ true
    → IsTallied judged n t
    → IsTallied judged (suc n) (vote_turn n v u t)
IsTallied-vote judged n v u t j h = record {
  errored_seen = sym (errored-snoc judged n t (turn_verdict_from n v u) h ∙ ground arith);
  typed = h.typed;
  numbered = numbered-snoc judged n t (turn_verdict_from n v u) h refl;
  seen = sym (seen-snoc judged n t h ∙ ground (arith, j));
}
