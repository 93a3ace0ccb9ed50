-- ===== src/Filter/Selection.antt =====
-- What the loop of `matches_group` selects.
use agent_belt.Prelude.{
  ◌≡◌, refl, String, Bool, true, false, not, ◌&&◌, ◌||◌, none, some, List, [], ◌∷◌, ◌==◌, string_eq,
  all, any as any_of, elem, is_empty, arith, ap, ◌∙◌, Bool-cases, inl, inr, add, elem-append,
}
use agent_belt.Filter.{
  PathParts, ParsedPath, match_paths, is_related, same_path, ScenarioFilter, matches_group,
  is_allowed, Step, return_all, continue, path_step,
}

-- An entry selects a scenario of a group: the scenario it names in this very group, and every
-- scenario of a group that is above or below its directory, or named without a scenario.
abbrev pub covers : PathParts → String → ParsedPath → Bool
covers g scenario (filter_path, none) = is_related g filter_path
covers g scenario (filter_path, some wanted) =
    is_related g filter_path && (not (same_path filter_path g) || scenario == wanted)

-- The name of an entry, if it has one, is not empty.
abbrev pub is_named : ParsedPath → Bool
is_named (filter_path, none) = true
is_named (filter_path, some wanted) = not (wanted == "")

elem-add : (x a : String) (xs : List String) → elem x (add a xs) ≡ (elem x xs || x == a)
unfolding add
elem-add x a xs = ground (arith, elem-append x xs (a ∷ []), string_eq.beq_iff x a)

is_empty-add : (a : String) (xs : List String) → is_empty (add a xs) ≡ false
unfolding add
is_empty-add a [] = refl
is_empty-add a (x ∷ xs) = ground arith

is_named_add : (a : String) (xs : List String) → true ≡ not (is_empty (add a xs))
is_named_add a xs = rw (is_empty-add a xs) refl

-- What the loop gives after a step.
abbrev after : PathParts → List ParsedPath → Step → Bool × List String
after g ps return_all = (true, [])
after g ps (continue m names) = match_paths g ps m names

match_paths-step :
    (g : PathParts) (p : ParsedPath) (ps : List ParsedPath) (matched : Bool) (allowed : List String)
    (s : Step)
    → path_step g p matched allowed ≡ s
    → match_paths g (p ∷ ps) matched allowed ≡ after g ps s
unfolding match_paths
match_paths-step g p ps matched allowed s h = ap (after g ps) h

is_allowed-match_paths :
    (g : PathParts) (scenario : String) (ps : List ParsedPath) (matched : Bool)
    (allowed : List String)
    → all is_named ps ≡ true
    → matched ≡ not (is_empty allowed)
    → is_allowed (match_paths g ps matched allowed) scenario
      ≡ (elem scenario allowed || any_of (covers g scenario) ps)
is_allowed-match_paths g scenario [] matched [] h e = unfold match_paths in ground (arith, e)
is_allowed-match_paths g scenario [] matched (a ∷ names) h e =
    unfold match_paths in ground (arith, e)
is_allowed-match_paths g scenario ((fp, none) ∷ ps) matched allowed h e =
    elim (Bool-cases (is_related g fp)) [
      | inl r ↦
          rw (match_paths-step g (fp, none) ps matched allowed return_all (rw r refl))
            (ground (arith, r))
      | inr r ↦
          rw
            (match_paths-step g (fp, none) ps matched allowed (continue matched allowed)
              (rw r refl))
            (rw r (is_allowed-match_paths g scenario ps matched allowed h e))
    ]
is_allowed-match_paths g scenario ((fp, some wanted) ∷ ps) matched allowed h e =
    elim (Bool-cases (is_related g fp)) [
      | inr r ↦
          rw
            (match_paths-step g (fp, some wanted) ps matched allowed (continue matched allowed)
              (rw r refl))
            (rw r (is_allowed-match_paths g scenario ps matched allowed (ground arith) e))
      | inl r ↦ elim (Bool-cases (same_path fp g)) [
        | inr s ↦
            rw
              (match_paths-step g (fp, some wanted) ps matched allowed return_all
                (ground (arith, r, s)))
              (ground (arith, r, s))
        | inl s ↦
            rw
              (match_paths-step g (fp, some wanted) ps matched allowed
                (continue true (add wanted allowed)) (ground (arith, r, s, h)))
              (rw r (
                rw s (
                  is_allowed-match_paths g scenario ps true (add wanted allowed) (ground arith)
                    (is_named_add wanted allowed)
                  ∙ ground (arith, elem-add scenario wanted allowed))))
      ]
    ]

-- When no entry has an empty name, a path filter selects a scenario of a group, by what
-- `matches_group` gives, exactly when some entry covers it, whatever the order of the entries.
pub is_allowed-matches_group :
    (f : ScenarioFilter) (paths : List ParsedPath) (g : PathParts) (scenario : String)
    → f.parsed_paths ≡ some paths
    → all is_named paths ≡ true
    → is_allowed (matches_group f g) scenario ≡ any_of (covers g scenario) paths
is_allowed-matches_group f paths g scenario e h =
    rw e (is_allowed-match_paths g scenario paths false [] h refl)
