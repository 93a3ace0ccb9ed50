-- ===== src/Consensus/Votes/Majority.antt =====
-- The voting rules against their description: who wins, and how the three strategies compare.
use agent_belt.Prelude.{
  ℕ, ◌≤◌, ◌<◌, ◌≡◌, refl, sym, ◌∙◌, All-at, entry_of_key, mem-values, mem-keys-with_count,
  mem-of-with_count, max-reached, true, false, List, [], ◌∷◌, Memᴰ, count, elem, All, Dict, values,
  tally, All-tally, max_of, max_of-ge, keys-tally, elem-set_of, elem-of-count, count-of-elem,
  first_min-least, mem-first_min, IsKeyOrder, ◌==◌, Bool-cases, inl, inr, ◌⊎◌, arith, eq_self,
  eq_of_beq,
}
use mathlib.Core.Path.{subst}
use native.Mathlib.Decide.{ℕ_discrete}
use agent_belt.Prelude.Int.{ℤ, ltb_ℤ, ◌≤ℤ◌}
use agent_belt.Levels.{ScoreLevel, level_rank, level_eq}
use agent_belt.Consensus.Votes.{lower_level, higher_level, candidates, lowest, majority_vote_level}

ltb_ℤ-irrefl : (x : ℤ) → ltb_ℤ x x ≡ false
ltb_ℤ-irrefl x = ground arith

ltb_ℤ-asym : (x y : ℤ) → ltb_ℤ x y ≡ true → ltb_ℤ y x ≡ false
ltb_ℤ-asym x y h = ground arith

ltb_ℤ-neg_trans : (x y z : ℤ) → ltb_ℤ x y ≡ false → ltb_ℤ y z ≡ false → ltb_ℤ x z ≡ false
ltb_ℤ-neg_trans x y z h k = ground arith

pub lower-IsKeyOrder : IsKeyOrder lower_level
lower-IsKeyOrder = record {
  irrefl = λ a. ltb_ℤ-irrefl (level_rank a);
  asym = λ a b. ltb_ℤ-asym (level_rank a) (level_rank b);
  neg_trans = λ a b c. ltb_ℤ-neg_trans (level_rank a) (level_rank b) (level_rank c);
}

pub higher-IsKeyOrder : IsKeyOrder higher_level
higher-IsKeyOrder = record {
  irrefl = λ a. ltb_ℤ-irrefl (level_rank a);
  asym = λ a b. ltb_ℤ-asym (level_rank b) (level_rank a);
  neg_trans = λ a b c h k. ltb_ℤ-neg_trans (level_rank c) (level_rank b) (level_rank a) k h;
}

pub elem_of_Memᴰ : (a : ScoreLevel) (xs : List ScoreLevel) → Memᴰ a xs → elem a xs ≡ true
elem_of_Memᴰ a (x ∷ xs) (Memᴰ.head h) = rw h (ground (arith, eq_self x))
elem_of_Memᴰ a (x ∷ xs) (Memᴰ.tail m) = ground (arith, elem_of_Memᴰ a xs m)
elem_of_Memᴰ a [] m = elim m [ ]

count-zero : (l : ScoreLevel) (xs : List ScoreLevel) → elem l xs ≡ false → count l xs ≡ 0
count-zero l [] h = refl
count-zero l (x ∷ xs) h = ground (arith, count-zero l xs)

pub at_elem :
    (P : ScoreLevel → Type 0) (a : ScoreLevel) (xs : List ScoreLevel)
    → All P xs
    → elem a xs ≡ true
    → P a
at_elem P a [] all h = absurd (ground arith)
at_elem P a (x ∷ xs) all h = elim (Bool-cases (a == x)) [
  | inl e ↦ subst P (sym (eq_of_beq a x e)) all.0
  | inr e ↦ at_elem P a xs all.1 (ground arith)
]

pub not_lower : (x y : ℤ) → ltb_ℤ x y ≡ false → y ≤ℤ x
not_lower x y h = ground arith

-- What a majority vote with pessimistic ties promises of its winner: somebody voted for it, and
-- any level has fewer votes, or as many and no lower rank.
pub record IsMajority (votes : List ScoreLevel) (winner : ScoreLevel) : Type 0 where
  pub voted : elem winner votes ≡ true
  pub beats :
      (l : ScoreLevel)
      → (count l votes < count winner votes)
        ⊎ ((count l votes ≡ count winner votes) × (level_rank winner ≤ℤ level_rank l))

pub most :
    (votes : List ScoreLevel) (winner : ScoreLevel)
    → IsMajority votes winner
    → (l : ScoreLevel) → count l votes ≤ count winner votes
most votes winner m l = elim (m.beats l) [ inl h ↦ omega arith | inr h ↦ omega (arith, h.0) ]

pub pessimistic :
    (votes : List ScoreLevel) (winner : ScoreLevel)
    → IsMajority votes winner
    → (l : ScoreLevel) → count l votes ≡ count winner votes
    → level_rank winner ≤ℤ level_rank l
pessimistic votes winner m l e = elim (m.beats l) [
  | inl h ↦ absurd (omega (arith, e))
  | inr h ↦ h.1
]

module _ (vote : ScoreLevel) (votes : List ScoreLevel) where
  abbrev ballot : List ScoreLevel
  ballot = vote ∷ votes

  abbrev counts : Dict ScoreLevel ℕ
  counts = tally ballot

  abbrev top : ℕ
  top = max_of (values counts)

  entry_of_vote : (l : ScoreLevel) → elem l ballot ≡ true → Memᴰ (l, count l ballot) counts
  entry_of_vote l h =
      let (n, found) = entry_of_key l counts (rw (keys-tally ballot) (elem-set_of l ballot ∙ h)) in
      let same : n ≡ count l ballot =
        All-at (λ (e : ScoreLevel × ℕ). e.1 ≡ count e.0 ballot) (l, n) counts (All-tally ballot)
          found in
      subst (λ (m : ℕ). Memᴰ {A = ScoreLevel × ℕ} (l, m) counts) same found

  count-le-top : (l : ScoreLevel) → count l ballot ≤ top
  count-le-top l = elim (Bool-cases (elem l ballot)) [
    | inl h ↦ max_of-ge _ _ (mem-values l _ counts (entry_of_vote l h))
    | inr h ↦ omega (arith, count-zero l ballot h)
  ]

  count-candidate : (c : ScoreLevel) → Memᴰ c (candidates ballot) → count c ballot ≡ top
  unfolding candidates
  count-candidate c m = sym (
      All-at (λ (e : ScoreLevel × ℕ). e.1 ≡ count e.0 ballot) (c, top) counts (All-tally ballot)
        (mem-of-with_count c top counts m))

  candidate_of_count :
      (l : ScoreLevel) → elem l ballot ≡ true → count l ballot ≡ top → Memᴰ l (candidates ballot)
  unfolding candidates
  candidate_of_count l h e =
      mem-keys-with_count l top counts
        (subst (λ (m : ℕ). Memᴰ {A = ScoreLevel × ℕ} (l, m) counts) e (entry_of_vote l h))

  vote_counted : elem vote ballot ≡ true
  vote_counted = ground (arith, eq_self vote)

  some_candidate : (c : ScoreLevel) × Memᴰ c (candidates ballot)
  unfolding candidates
  some_candidate =
      let (j, found) = max-reached counts vote _ (entry_of_vote vote vote_counted) in
      (j, mem-keys-with_count j top counts found)

  lowest_of :
      (cs : List ScoreLevel)
      → (c : ScoreLevel) → Memᴰ c cs
      → Memᴰ (lowest vote cs) cs × All (λ x. lower_level x (lowest vote cs) ≡ false) cs
  lowest_of [] c m = elim m [ ]
  lowest_of (x ∷ xs) c m =
      (mem-first_min lower_level x xs, first_min-least lower_level lower-IsKeyOrder x xs)

  -- The winner of a majority vote was voted for; no level has more votes; and of the levels with
  -- as many votes none ranks below it.
  pub majority_vote_level-IsMajority : IsMajority ballot (majority_vote_level vote votes)
  unfolding majority_vote_level
  majority_vote_level-IsMajority =
      let w = lowest vote (candidates ballot) in
      let (c, found) = some_candidate in
      let (won, least) = lowest_of (candidates ballot) c found in
      let full : count w ballot ≡ top = count-candidate w won in
      record {
        voted =
            elem-of-count w ballot
              (omega (arith, full, count-le-top vote, count-of-elem vote ballot vote_counted));
        beats = λ l. elim (ℕ_discrete (count l ballot) (count w ballot)) [
          | no differs ↦ inl (omega (arith, full, count-le-top l))
          | yes e ↦ inr (
            e,
            not_lower (level_rank l) (level_rank w) (
                All-at (λ x. lower_level x w ≡ false) l (candidates ballot) least
                  (candidate_of_count l
                    (elem-of-count l ballot (
                      omega (
                        arith,
                        e,
                        full,
                        count-le-top vote,
                        count-of-elem vote ballot vote_counted,
                      )))
                    (e ∙ full))),
          )
        ];
      }
