-- ===== src/Pipeline/Preflight/Accepted.antt =====
-- Which runs the preflight accepts.
use agent_belt.Prelude.{
  ℕ, suc, ◌+◌, ◌≤◌, ◌<◌, ◌≡◌, refl, ap, ◌∙◌, String, Bool, true, false, not, ◌&&◌, ◌||◌, Option,
  none, some, List, [], ◌∷◌, map, keep, all, any as any_of, length, elem, is_empty, is_empty-append,
  is_some, count_if, Dict, get, keys, if◌then◌else◌, Bool-cases, inl, inr, string_eq, nat_eq,
  nat_beq_iff, arith,
}
use agent_belt.Judge.Dimensions.{TurnJudgeOverride}
use agent_belt.Judge.PerTurn.{is_skipped}
use agent_belt.Pipeline.Preflight.{
  LlmJudge, BuiltScorer, iter_per_turn_judges, JudgedScenario, unknown_judge, unknown_in,
  unknown_judges, Counts, count_turn, count_turns, none_counted, skips_all, never_voting,
  silent_judges, scenario_errors, all_errors, validate_per_turn_judges,
}

-- The judge has a turn to judge, if there are turns.
abbrev pub can_vote : List (Dict String TurnJudgeOverride) → String → Bool
can_vote turns judge_name =
    is_empty turns || any_of (λ o. not (is_skipped (get judge_name o))) turns

-- Each name in the turns is that of a judge, and each judge has a turn to judge.
abbrev pub is_acceptable : List LlmJudge → JudgedScenario → Bool
is_acceptable judges s =
    all (λ o. all (λ j. elem j (map (λ k. k.judge_name) judges)) (keys o)) s.turns
    && all (λ k. can_vote s.turns k.judge_name) judges

is_empty-unknown_in :
    (name : String) (i : ℕ) (declared ks : List String)
    → is_empty (map (λ j. unknown_judge name i j) (keep (λ j. not (elem j declared)) ks))
      ≡ all (λ j. elem j declared) ks
is_empty-unknown_in name i declared [] = refl
is_empty-unknown_in name i declared (k ∷ ks) = elim (Bool-cases (elem k declared)) [
  | inl e ↦ rw e (is_empty-unknown_in name i declared ks)
  | inr e ↦ rw e refl
]

is_empty-unknown_judges :
    (name : String) (i : ℕ) (declared : List String) (turns : List (Dict String TurnJudgeOverride))
    → is_empty (unknown_judges name i declared turns)
      ≡ all (λ o. all (λ j. elem j declared) (keys o)) turns
is_empty-unknown_judges name i declared [] = refl
is_empty-unknown_judges name i declared (o ∷ os) =
    is_empty-append (unknown_in name i declared o) (unknown_judges name (suc i) declared os)
    ∙ ap (λ b. b && is_empty (unknown_judges name (suc i) declared os))
        (is_empty-unknown_in name i declared (keys o))
    ∙ ap (λ b. all (λ j. elem j declared) (keys o) && b)
        (is_empty-unknown_judges name (suc i) declared os)

-- What the loop over the turns counts.
record IsCounted (judge_name : String) (turns : List (Dict String TurnJudgeOverride)) (c d : Counts)
    : Type 0 where
  mentioned : d.mentions ≡ c.mentions + count_if (λ o. is_some (get judge_name o)) turns
  skipped : d.skips ≡ c.skips + count_if (λ o. is_skipped (get judge_name o)) turns

abbrev one_if : Bool → ℕ
one_if b = if b then 1 else 0

mentions-count_turn :
    (o : Option TurnJudgeOverride) (c : Counts)
    → (count_turn o c).mentions ≡ c.mentions + one_if (is_some o)
mentions-count_turn none c = omega arith
mentions-count_turn (some o) c = omega arith

skips-count_turn :
    (o : Option TurnJudgeOverride) (c : Counts)
    → (count_turn o c).skips ≡ c.skips + one_if (is_skipped o)
skips-count_turn none c = omega arith
skips-count_turn (some o) c = ground arith

count_turns-IsCounted :
    (judge_name : String) (turns : List (Dict String TurnJudgeOverride)) (c : Counts)
    → IsCounted judge_name turns c (count_turns judge_name turns c)
count_turns-IsCounted judge_name [] c = record { mentioned = omega arith; skipped = omega arith }
count_turns-IsCounted judge_name (o ∷ os) c =
    let next = count_turn (get judge_name o) c in
    let rest = count_turns-IsCounted judge_name os next in
    record {
      mentioned = rest.mentioned ∙ ground (arith, mentions-count_turn (get judge_name o) c);
      skipped = rest.skipped ∙ ground (arith, skips-count_turn (get judge_name o) c);
    }

is_some-skipped : (o : Option TurnJudgeOverride) → is_skipped o ≡ true → is_some o ≡ true
is_some-skipped none h = h
is_some-skipped (some o) h = refl

-- The counts of a list, and what all of its elements are.
record IsTotal (judge_name : String) (turns : List (Dict String TurnJudgeOverride)) : Type 0 where
  fewer :
      count_if (λ o. is_skipped (get judge_name o)) turns
      ≤ count_if (λ o. is_some (get judge_name o)) turns
  bounded : count_if (λ o. is_some (get judge_name o)) turns ≤ length turns
  total :
      any_of (λ o. not (is_skipped (get judge_name o))) turns ≡ false
      → count_if (λ o. is_skipped (get judge_name o)) turns ≡ length turns
  partial :
      any_of (λ o. not (is_skipped (get judge_name o))) turns ≡ true
      → count_if (λ o. is_skipped (get judge_name o)) turns < length turns

counts-IsTotal :
    (judge_name : String) (turns : List (Dict String TurnJudgeOverride)) → IsTotal judge_name turns
counts-IsTotal judge_name [] = record {
  fewer = omega arith;
  bounded = omega arith;
  total = λ h. refl;
  partial = λ h. absurd (ground (arith, h));
}
counts-IsTotal judge_name (o ∷ os) =
    let rest = counts-IsTotal judge_name os in
    let s = is_some-skipped (get judge_name o) in
    record {
      fewer = ground (arith, rest.fewer, s);
      bounded = ground (arith, rest.bounded);
      total = λ h. ground (arith, h, rest.total);
      partial = λ h. ground (arith, h, rest.partial, rest.fewer, rest.bounded);
    }

skips_all-not :
    (c : Counts) (n : ℕ) (v : Bool)
    → c.skips ≤ c.mentions
    → c.mentions ≤ n
    → 0 < n
    → (v ≡ false → c.skips ≡ n)
    → (v ≡ true → c.skips < n)
    → skips_all c n ≡ not v
skips_all-not c n false f b z t p =
    ground (arith, f, b, z, t refl, nat_beq_iff c.skips c.mentions, nat_beq_iff c.mentions n)
skips_all-not c n true f b z t p =
    ground (arith, f, b, p refl, nat_beq_iff c.skips c.mentions, nat_beq_iff c.mentions n)

length-positive : {A : Type 0} (xs : List A) → is_empty xs ≡ false → 0 < length xs
length-positive [] h = absurd (ground (arith, h))
length-positive (x ∷ xs) h = omega arith

skips_all-can_vote :
    (judge_name : String) (turns : List (Dict String TurnJudgeOverride))
    → is_empty turns ≡ false
    → skips_all (count_turns judge_name turns none_counted) (length turns)
      ≡ not (any_of (λ o. not (is_skipped (get judge_name o))) turns)
skips_all-can_vote judge_name turns h =
    let c = count_turns judge_name turns none_counted in
    let counted = count_turns-IsCounted judge_name turns none_counted in
    let t = counts-IsTotal judge_name turns in
    skips_all-not c (length turns) (any_of (λ o. not (is_skipped (get judge_name o))) turns)
      (omega (arith, counted.mentioned, counted.skipped, t.fewer))
      (omega (arith, counted.mentioned, t.bounded)) (length-positive turns h)
      (λ e. omega (arith, counted.skipped, t.total e))
      (λ e. omega (arith, counted.skipped, t.partial e))

is_empty-never_voting :
    (s : JudgedScenario) (judge_name : String)
    → is_empty (never_voting s judge_name) ≡ can_vote s.turns judge_name
is_empty-never_voting s judge_name = elim (Bool-cases (is_empty s.turns)) [
  | inl e ↦ ground (arith, e)
  | inr e ↦ ground (arith, e, skips_all-can_vote judge_name s.turns e)
]

is_empty-silent_judges :
    (s : JudgedScenario) (judges : List LlmJudge)
    → is_empty (silent_judges s judges) ≡ all (λ k. can_vote s.turns k.judge_name) judges
is_empty-silent_judges s [] = refl
is_empty-silent_judges s (j ∷ js) =
    is_empty-append (never_voting s j.judge_name) (silent_judges s js)
    ∙ ap (λ b. b && is_empty (silent_judges s js)) (is_empty-never_voting s j.judge_name)
    ∙ ap (λ b. can_vote s.turns j.judge_name && b) (is_empty-silent_judges s js)

is_empty-all_errors :
    (judges : List LlmJudge) (ss : List JudgedScenario)
    → is_empty (all_errors judges ss) ≡ all (is_acceptable judges) ss
is_empty-all_errors judges [] = refl
is_empty-all_errors judges (s ∷ ss) =
    let declared = map (λ j. j.judge_name) judges in
    is_empty-append (scenario_errors judges s) (all_errors judges ss)
    ∙ ap (λ b. b && is_empty (all_errors judges ss))
        (is_empty-append (unknown_judges s.name 0 declared s.turns) (silent_judges s judges)
          ∙ ap (λ b. b && is_empty (silent_judges s judges))
              (is_empty-unknown_judges s.name 0 declared s.turns)
          ∙ ap (λ b. all (λ o. all (λ j. elem j declared) (keys o)) s.turns && b)
              (is_empty-silent_judges s judges))
    ∙ ap (λ b. is_acceptable judges s && b) (is_empty-all_errors judges ss)

-- The preflight accepts a run exactly when no judge works turn by turn or, in every scenario, each
-- name under the turns' overrides is that of such a judge and each such judge has a turn that is
-- not skipped for it, if the scenario has turns.
pub validate_per_turn_judges-accepts :
    (scorers : List BuiltScorer) (scenarios : List JudgedScenario)
    → is_empty (validate_per_turn_judges scorers scenarios) ≡ (
        is_empty (iter_per_turn_judges scorers)
        || all (is_acceptable (iter_per_turn_judges scorers)) scenarios)
unfolding validate_per_turn_judges
validate_per_turn_judges-accepts scorers scenarios =
    let judges = iter_per_turn_judges scorers in
    ground (arith, is_empty-all_errors judges scenarios)
