-- ===== src/Consensus/Votes/Strategies.antt =====
-- How the strategies of src/belt/scorer/llm/consensus.py compare, on levels and on Booleans.
use agent_belt.Prelude.{
  ◌*◌, ◌<◌, ◌≡◌, refl, Bool, true, false, not, ◌&&◌, ◌||◌, List, [], ◌∷◌, length, any as any_of,
  all as all_of, count, count_if, elem, All, first_min, first_min-least, mem-first_min, leb, arith,
}
use agent_belt.Prelude.Int.{ℤ, ◌≤ℤ◌}
use agent_belt.Levels.{ScoreLevel, level_rank, level_eq}
use agent_belt.Consensus.Votes.{
  Strategy, majority, unanimous, any, lower_level, higher_level, majority_vote_level,
  apply_strategy, majority_vote_bool, apply_strategy_bool,
}
use agent_belt.Consensus.Votes.Majority.{
  majority_vote_level-IsMajority, lower-IsKeyOrder, higher-IsKeyOrder, not_lower, elem_of_Memᴰ,
  at_elem, most, pessimistic,
}

All-ranks :
    (f : ScoreLevel → Bool) (P : ScoreLevel → Type 0)
    → ((x : ScoreLevel) → f x ≡ false → P x)
    → (xs : List ScoreLevel) → All (λ x. f x ≡ false) xs
    → All P xs
All-ranks f P h [] a = tt
All-ranks f P h (x ∷ xs) a = (h x a.0, All-ranks f P h xs a.1)

module _ (vote : ScoreLevel) (votes : List ScoreLevel) where
  -- `unanimous` gives a level that was voted for and ranks lowest.
  pub unanimous-least :
      All (λ x. level_rank (apply_strategy unanimous vote votes) ≤ℤ level_rank x) (vote ∷ votes)
  unfolding apply_strategy
  unanimous-least =
      let w = first_min lower_level vote votes in
      All-ranks (λ x. lower_level x w) _ (λ x. not_lower (level_rank x) (level_rank w))
        (vote ∷ votes) (first_min-least lower_level lower-IsKeyOrder vote votes)

  any-greatest :
      All (λ x. level_rank x ≤ℤ level_rank (apply_strategy any vote votes)) (vote ∷ votes)
  unfolding apply_strategy
  any-greatest =
      let w = first_min higher_level vote votes in
      All-ranks (λ x. higher_level x w) _ (λ x. not_lower (level_rank w) (level_rank x))
        (vote ∷ votes) (first_min-least higher_level higher-IsKeyOrder vote votes)

  -- Whatever the strategy, the merged level is one that some judge voted for.
  pub elem-apply_strategy :
      (s : Strategy) → elem (apply_strategy s vote votes) (vote ∷ votes) ≡ true
  unfolding apply_strategy
  elem-apply_strategy majority = (majority_vote_level-IsMajority vote votes).voted
  elem-apply_strategy unanimous = elem_of_Memᴰ _ _ (mem-first_min lower_level vote votes)
  elem-apply_strategy any = elem_of_Memᴰ _ _ (mem-first_min higher_level vote votes)

  -- On the same votes `unanimous` never ranks above another strategy and `any` never below, and
  -- every strategy gives a level that some judge voted for.
  strategies_bracket :
      (s : Strategy)
      → (elem (apply_strategy s vote votes) (vote ∷ votes) ≡ true)
        × (level_rank (apply_strategy unanimous vote votes)
            ≤ℤ level_rank (apply_strategy s vote votes))
        × (level_rank (apply_strategy s vote votes) ≤ℤ level_rank (apply_strategy any vote votes))
  strategies_bracket s =
      let voted = elem-apply_strategy s in
      (
        voted,
        at_elem (λ x. level_rank (apply_strategy unanimous vote votes) ≤ℤ level_rank x) _
            (vote ∷ votes) unanimous-least voted,
        at_elem (λ x. level_rank x ≤ℤ level_rank (apply_strategy any vote votes)) _ (vote ∷ votes)
            any-greatest voted,
      )

antisym : (x y : ℤ) → x ≤ℤ y → y ≤ℤ x → x ≡ y
antisym x y h k = ground arith

-- The rank of a majority depends on the counts alone: judges who are asked in another order give
-- a level of the same rank. (The level may differ: `low` and `fail` rank alike.)
majority_order :
    (v w : ScoreLevel) (vs ws : List ScoreLevel)
    → ((l : ScoreLevel) → count l (v ∷ vs) ≡ count l (w ∷ ws))
    → level_rank (majority_vote_level v vs) ≡ level_rank (majority_vote_level w ws)
majority_order v w vs ws same =
    let a = majority_vote_level v vs in
    let b = majority_vote_level w ws in
    let ma = majority_vote_level-IsMajority v vs in
    let mb = majority_vote_level-IsMajority w ws in
    antisym (level_rank a) (level_rank b)
      (pessimistic (v ∷ vs) a ma b
        (omega (arith, same a, same b, most (v ∷ vs) a ma b, most (w ∷ ws) b mb a)))
      (pessimistic (w ∷ ws) b mb a
        (omega (arith, same a, same b, most (v ∷ vs) a ma b, most (w ∷ ws) b mb a)))

all-count :
    (votes : List Bool) → all_of (λ b. b) votes ≡ true → count_if (λ b. b) votes ≡ length votes
all-count [] h = refl
all-count (true ∷ votes) h = omega (arith, all-count votes h)
all-count (false ∷ votes) h = cc

any-count : (votes : List Bool) → 0 < count_if (λ b. b) votes → any_of (λ b. b) votes ≡ true
any-count [] h = elim h [ ]
any-count (true ∷ votes) h = refl
any-count (false ∷ votes) h = any-count votes h

-- On whether a scenario passed: with at least one vote, what `unanimous` passes `majority` passes,
-- and what `majority` passes `any` passes; and where no more than half of the votes pass (a tie
-- included), `majority` fails.
bool_strategies :
    (vote : Bool) (votes : List Bool)
    → let ballot : List Bool = vote ∷ votes in
      ((not (apply_strategy_bool unanimous ballot) || apply_strategy_bool majority ballot) ≡ true)
      × ((not (apply_strategy_bool majority ballot) || apply_strategy_bool any ballot) ≡ true)
      × ((leb (2 * count_if (λ b. b) ballot) (length ballot) && apply_strategy_bool majority ballot)
          ≡ false)
unfolding apply_strategy_bool majority_vote_bool
bool_strategies vote votes = (
  ground (arith, all-count (vote ∷ votes)),
  ground (arith, any-count (vote ∷ votes)),
  ground arith,
)
