-- ===== src/Cache/Oldest.antt =====
-- Which files `_evict_if_over_budget` drops.
use agent_belt.Prelude.{
  ℕ, ◌-◌, ◌≤◌, ◌<◌, ◌≡◌, ◌⊎◌, refl, sym, ap, true, not, List, [], ◌∷◌, ◌++◌, keep, all, sort_by,
  leb, inl, inr, Bool-cases, arith,
}
use agent_belt.Cache.{CacheFile, Disk, older, total_size, drop_oldest, evict_if_over_budget}
use agent_belt.Cache.Evictions.{all-sort_by-keep, total_size-sort_by}

module _ {D : Type 0} (disk : Disk D) where
  -- The files dropped are needed: no fewer of the oldest leave a directory that fits.
  abbrev AllNeeded : ℕ → (dropped left : List CacheFile) → Type 0
  AllNeeded m [] left = Unit
  AllNeeded m (f ∷ fs) left = (m < total_size disk (f ∷ fs ++ left)) × AllNeeded m fs left

  abbrev pub Dropped : ℕ → (sorted left : List CacheFile) → Type 0
  Dropped m sorted left =
      (dropped : List CacheFile) × (sorted ≡ dropped ++ left)
      × AllNeeded m dropped left
      × (total_size disk left ≤ m)

  drop_oldest-Dropped :
      (m total : ℕ) (xs : List CacheFile)
      → all disk.can_unlink xs ≡ true
      → total ≡ total_size disk xs
      → Dropped m xs (drop_oldest disk m total xs)
  unfolding drop_oldest
  drop_oldest-Dropped m total [] u e = ([], refl, tt, omega arith)
  drop_oldest-Dropped m total (x ∷ xs) u e = elim (Bool-cases (leb total m)) [
    | inl p ↦ rw p ([], refl, tt, ground (arith, p, e))
    | inr p ↦
        let ih =
          drop_oldest-Dropped m (total - disk.size x.text) xs (ground arith) (ground (arith, e)) in
        let unlinked : disk.can_unlink x ≡ true = ground arith in
        rw p (rw unlinked (x ∷ ih.0, ap (◌∷◌ x) ih.1, (rw (sym ih.1) (ground arith), ih.2), ih.3))
  ]

  -- An eviction under a positive budget, when the directory can be scanned and its files can be
  -- unlinked, changes nothing if the files with a `stat` fit. Otherwise it keeps the files without
  -- a `stat`, and drops a first part of the others, sorted from the oldest on, so that the rest of
  -- them fits the budget; with any one of the dropped files and those that follow it in that order
  -- the rest would not fit.
  pub evict_if_over_budget-Dropped :
      (m : ℕ) (fs : List CacheFile)
      → 0 < m
      → disk.can_scan ≡ true
      → all disk.can_unlink fs ≡ true
      → ((total_size disk (keep disk.can_stat fs) ≤ m) × (evict_if_over_budget disk m fs ≡ fs))
        ⊎ ((left : List CacheFile) × (evict_if_over_budget disk m fs
              ≡ keep (λ f. not (disk.can_stat f)) fs ++ left)
            × Dropped m (sort_by older (keep disk.can_stat fs)) left)
  unfolding evict_if_over_budget
  evict_if_over_budget-Dropped m fs h s u =
      let entries = keep disk.can_stat fs in
      elim (Bool-cases (leb (total_size disk entries) m)) [
        | inl p ↦ inl (ground (arith, p), ground (arith, h, p))
        | inr p ↦ inr (
          drop_oldest disk m (total_size disk entries) (sort_by older entries),
          ground (arith, h, s, p),
          drop_oldest-Dropped m (total_size disk entries) (sort_by older entries)
              (all-sort_by-keep disk disk.can_unlink disk.can_stat fs u)
              (sym (total_size-sort_by disk entries)),
        )
      ]
