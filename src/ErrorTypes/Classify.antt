-- ===== src/ErrorTypes/Classify.antt =====
-- What src/belt/agent/error_types.py guarantees of its tokens and hints.
use agent_belt.Prelude.{
  ◌≡◌, refl, sym, ap, ◌∙◌, String, Bool, true, false, not, ◌&&◌, ◌||◌, Option, none, some, List, [],
  ◌∷◌, arith, elem, elem-append, elem_of_all, is_some-get, all-get, get, is_some, Option-cases,
  Bool-cases, inl, inr, if◌then◌else◌, ◌==◌, string_eq,
}
use mathlib.Core.Path.{subst}
use agent_belt.ErrorTypes.{
  authentication_failed, rate_limited, timeout, refused, auth_patterns, rate_limit_patterns,
  timeout_patterns, refused_patterns, unknown, error_types, environmental_error_types,
  task_error_types, model_unavailable_patterns, matches, classify_lowered, classify_error,
  first_token, is_canonical, normalize_error_type, remediation, own_hint, hint_in, remediation_for,
  model_unavailable,
}

abbrev is_token : Option String → Bool
is_token none = true
is_token (some t) = elem t error_types && not (t == unknown)

chosen :
    (a b c d e : Bool)
    → is_token (
        if a
        then some model_unavailable
        else if b
        then some authentication_failed
        else if c
        then some rate_limited
        else if d
        then some timeout
        else if e
        then some refused
        else none)
      ≡ true
chosen true b c d e = refl
chosen false true c d e = refl
chosen false false true d e = refl
chosen false false false true e = refl
chosen false false false false true = refl
chosen false false false false false = refl

step :
    (o rest : Option String)
    → is_token o ≡ true
    → is_token rest ≡ true
    → is_token (elim o [ none ↦ rest | some token ↦ some token ]) ≡ true
step none rest h k = k
step (some t) rest h k = h

canonical_of_token :
    (o : Option String) (token : String)
    → is_token o ≡ true
    → o ≡ some token
    → elem token error_types ≡ true
canonical_of_token none token h e = absurd (ground (arith, e))
canonical_of_token (some t) token h e =
    let same : t ≡ token = ground (arith, e) in
    rw (sym same) (both (elem t error_types) (not (t == unknown)) h)
  where
    both : (a b : Bool) → (a && b) ≡ true → a ≡ true
    both a b h = ground (arith, h)

module _ (lower : String → String) where
  classify_lowered-token : (text : String) → is_token (classify_lowered lower text) ≡ true
  unfolding classify_lowered
  classify_lowered-token text =
      chosen (matches model_unavailable_patterns text) (matches auth_patterns text)
        (matches rate_limit_patterns text) (matches timeout_patterns text)
        (matches refused_patterns text)

  classify_error-token : (text : Option String) → is_token (classify_error lower text) ≡ true
  unfolding classify_error
  classify_error-token none = refl
  classify_error-token (some text) = elim (Bool-cases (text == "")) [
    | inl e ↦ rw (is_token, e) refl
    | inr e ↦
        subst
          (λ (b : Bool). is_token (if b then none else classify_lowered lower (lower text)) ≡ true)
          (sym e) (classify_lowered-token (lower text))
  ]

  first_token-token : (texts : List (Option String)) → is_token (first_token lower texts) ≡ true
  unfolding first_token
  first_token-token [] = refl
  first_token-token (t ∷ texts) =
      step (classify_error lower t) (first_token lower texts) (classify_error-token t)
        (first_token-token texts)

  canonical-fixed :
      (token : String) (texts : List (Option String))
      → elem token error_types ≡ true
      → normalize_error_type lower (some token) texts ≡ some token
  unfolding normalize_error_type
  canonical-fixed token texts h =
      ground (arith, h, elem_of_all (λ s. not (s == "")) token error_types refl h)

  normalized :
      (raw : Option String) (texts : List (Option String)) (token : String)
      → normalize_error_type lower raw texts ≡ some token
      → elem token error_types ≡ true
  unfolding normalize_error_type
  normalized none texts token h =
      canonical_of_token (first_token lower (none ∷ texts)) token (first_token-token (none ∷ texts))
        h
  normalized (some raw) texts token h = elim (Bool-cases (is_canonical lower (some raw))) [
    | inl e ↦
        let same : raw ≡ token = ground (arith, (rw e at h)) in
        rw (sym same) (known (raw == "") (elem raw error_types) e)
    | inr e ↦
        canonical_of_token (first_token lower (some raw ∷ texts)) token
          (first_token-token (some raw ∷ texts)) (rw e at h)
  ]
    where
      known : (a b : Bool) → (not a && b) ≡ true → b ≡ true
      known a b h = ground (arith, h)

-- No vendor label gets through: whatever an adapter passes, the result is nothing or one of the
-- canonical tokens, and normalizing that token again keeps it.
normalize_error_type-canonical :
    (lower : String → String) (raw : Option String) (texts again : List (Option String))
    (token : String)
    → normalize_error_type lower raw texts ≡ some token
    → (elem token error_types ≡ true) × (normalize_error_type lower (some token) again ≡ some token)
normalize_error_type-canonical lower raw texts again token h =
    let known = normalized lower raw texts token h in
    (known, canonical-fixed lower token again known)

-- Every error type is either environmental or of the task, and none is both.
error_types-partition :
    (t : String)
    → (elem t error_types ≡ (elem t environmental_error_types || elem t task_error_types))
      × ((elem t environmental_error_types && elem t task_error_types) ≡ false)
error_types-partition t = (
  elem-append t environmental_error_types task_error_types,
  ground (arith, elem_of_all (λ s. not (elem s task_error_types)) t environmental_error_types refl),
)

-- There is a hint for an error type, whatever the agent, if and only if the type is canonical.
remediation_for-some :
    (t : String) (agent : Option String) → is_some (remediation_for t agent) ≡ elem t error_types
unfolding remediation_for
remediation_for-some t agent = elim (Option-cases (get t remediation)) [
  | inl e ↦ rw (hint_in, e) (sym (ap is_some e) ∙ is_some-get t remediation)
  | inr (table, e) ↦
      rw (hint_in, e)
        (agnostic (own_hint agent table) (get "*" table)
            (all-get (λ hints. is_some (get "*" hints)) t table remediation refl e)
          ∙ sym (ap is_some e)
          ∙ is_some-get t remediation)
]
  where
    agnostic :
        (own any : Option String)
        → is_some any ≡ true
        → is_some (elim own [ some hint ↦ some hint | none ↦ any ]) ≡ true
    agnostic none any h = h
    agnostic (some hint) any h = refl
