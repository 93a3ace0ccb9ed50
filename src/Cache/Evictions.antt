-- ===== src/Cache/Evictions.antt =====
-- The budget of the cache, and what is read back.
use agent_belt.Prelude.{
  ℕ, ◌-◌, ◌≤◌, ◌<◌, ◌≡◌, refl, sym, ap, ◌∙◌, String, Bool, true, not, some, List, [], ◌∷◌, ◌++◌,
  keep, all, sort_by, insert, leb, if◌then◌else◌, ◌==◌, string_eq, inl, inr, Bool-cases, ◌||◌,
  arith, all-sort_by,
}
use agent_belt.Cache.{
  CacheFile, Disk, find_file, older, total_size, drop_oldest, evict_if_over_budget,
}

insert-last :
    (x n : CacheFile) (xs : List CacheFile)
    → x.mtime < n.mtime
    → insert older x (xs ++ n ∷ []) ≡ insert older x xs ++ n ∷ []
unfolding insert
insert-last x n [] h = ground (arith, h)
insert-last x n (y ∷ ys) h = ground (arith, insert-last x n ys h)

-- The newest file is sorted to the end.
sort_by-newest :
    (n : CacheFile) (xs : List CacheFile)
    → all (λ f. not (leb n.mtime f.mtime)) xs ≡ true
    → sort_by older (xs ++ n ∷ []) ≡ sort_by older xs ++ n ∷ []
unfolding sort_by insert
sort_by-newest n [] h = refl
sort_by-newest n (x ∷ xs) h =
    ap (insert older x) (sort_by-newest n xs (ground arith))
    ∙ insert-last x n (sort_by older xs) (ground (arith, h))

find_file-last :
    (k : String) (n : CacheFile) (xs : List CacheFile)
    → all (λ f. not (k == f.key)) xs ≡ true
    → (k == n.key) ≡ true
    → find_file k (xs ++ n ∷ []) ≡ some n
find_file-last k n [] h e = ground arith
find_file-last k n (x ∷ xs) h e = ground (arith, find_file-last k n xs)

module _ {D : Type 0} (disk : Disk D) where
  total_size-insert :
      (x : CacheFile) (xs : List CacheFile)
      → total_size disk (insert older x xs) ≡ total_size disk (x ∷ xs)
  unfolding insert
  total_size-insert x [] = refl
  total_size-insert x (y ∷ ys) = ground (arith, total_size-insert x ys)

  pub total_size-sort_by :
      (xs : List CacheFile) → total_size disk (sort_by older xs) ≡ total_size disk xs
  unfolding sort_by
  total_size-sort_by [] = refl
  total_size-sort_by (x ∷ xs) =
      omega (arith, total_size-insert x (sort_by older xs), total_size-sort_by xs)

  drop_oldest-bounded :
      (m total : ℕ) (xs : List CacheFile)
      → all disk.can_unlink xs ≡ true
      → total ≡ total_size disk xs
      → total_size disk (drop_oldest disk m total xs) ≤ m
  unfolding drop_oldest
  drop_oldest-bounded m total [] h e = omega arith
  drop_oldest-bounded m total (x ∷ xs) h e =
      ground (arith, drop_oldest-bounded m (total - disk.size x.text) xs)

  total_size-keep :
      (p : CacheFile → Bool) (xs ys : List CacheFile)
      → total_size disk (keep p (keep (λ f. not (p f)) xs ++ ys)) ≤ total_size disk ys
  total_size-keep p [] [] = omega arith
  total_size-keep p [] (y ∷ ys) = ground (arith, total_size-keep p [] ys)
  total_size-keep p (x ∷ xs) ys = ground (arith, total_size-keep p xs ys)

  pub all-keep :
      (q p : CacheFile → Bool) (xs : List CacheFile) → all q xs ≡ true → all q (keep p xs) ≡ true
  all-keep q p [] h = refl
  all-keep q p (x ∷ xs) h = ground (arith, all-keep q p xs)

  pub all-sort_by-keep :
      (q p : CacheFile → Bool) (xs : List CacheFile)
      → all q xs ≡ true
      → all q (sort_by older (keep p xs)) ≡ true
  all-sort_by-keep q p xs h = all-sort_by older q (keep p xs) ∙ all-keep q p xs h

  -- After an eviction under a positive budget, when the directory can be scanned and its files can
  -- be unlinked, the files with a `stat` fit the budget.
  pub evict_if_over_budget-bounded :
      (m : ℕ) (fs : List CacheFile)
      → 0 < m
      → disk.can_scan ≡ true
      → all disk.can_unlink fs ≡ true
      → total_size disk (keep disk.can_stat (evict_if_over_budget disk m fs)) ≤ m
  unfolding evict_if_over_budget
  evict_if_over_budget-bounded m fs h s u =
      let entries = keep disk.can_stat fs in
      let sorted = sort_by older entries in
      ground (
        arith,
        h,
        s,
        total_size-keep disk.can_stat fs (drop_oldest disk m (total_size disk entries) sorted),
        drop_oldest-bounded m (total_size disk entries) sorted
            (all-sort_by-keep disk.can_unlink disk.can_stat fs u)
            (sym (total_size-sort_by entries)),
      )

  find_file-skip :
      (k : String) (xs ys : List CacheFile)
      → all (λ f. not (k == f.key)) xs ≡ true
      → find_file k (xs ++ ys) ≡ find_file k ys
  find_file-skip k [] ys h = refl
  find_file-skip k (x ∷ xs) ys h = ground (arith, find_file-skip k xs ys)

  find_file-found :
      (k : String) (n : CacheFile) (xs ys : List CacheFile)
      → find_file k xs ≡ some n
      → find_file k (xs ++ ys) ≡ some n
  find_file-found k n [] ys h = absurd (ground (arith, h))
  find_file-found k n (x ∷ xs) ys h = ground (arith, find_file-found k n xs ys)

  keep-last :
      (p : CacheFile → Bool) (n : CacheFile) (xs : List CacheFile)
      → keep p (xs ++ n ∷ []) ≡ (if p n then keep p xs ++ n ∷ [] else keep p xs)
  keep-last p n [] = refl
  keep-last p n (x ∷ xs) = ground (arith, keep-last p n xs)

  find_file-drop_oldest :
      (k : String) (n : CacheFile) (m total : ℕ) (xs : List CacheFile)
      → all (λ f. not (k == f.key)) xs ≡ true
      → (k == n.key) ≡ true
      → all disk.can_unlink xs ≡ true
      → disk.size n.text ≤ m
      → total ≡ total_size disk (xs ++ n ∷ [])
      → find_file k (drop_oldest disk m total (xs ++ n ∷ [])) ≡ some n
  unfolding drop_oldest
  find_file-drop_oldest k n m total [] h e u s t = ground (arith, e, s, t)
  find_file-drop_oldest k n m total (x ∷ xs) h e u s t = ground (
    arith,
    e,
    s,
    t,
    find_file-last k n xs,
    find_file-drop_oldest k n m (total - disk.size x.text) xs,
  )

  -- What the loop leaves of a directory has the newest file, with or without a `stat` of it.
  find_file-loop :
      (k : String) (n : CacheFile) (m : ℕ) (fs : List CacheFile)
      → all (λ f. not (k == f.key)) fs ≡ true
      → (k == n.key) ≡ true
      → all (λ f. not (leb n.mtime f.mtime)) fs ≡ true
      → all disk.can_unlink fs ≡ true
      → disk.size n.text ≤ m
      → find_file k (
          keep (λ f. not (disk.can_stat f)) (fs ++ n ∷ [])
          ++ drop_oldest disk m
              (total_size disk (keep disk.can_stat (fs ++ n ∷ [])))
              (sort_by older (keep disk.can_stat (fs ++ n ∷ []))))
        ≡ some n
  find_file-loop k n m fs h e o u s = elim (Bool-cases (disk.can_stat n)) [
    | inl p ↦
        let stat = disk.can_stat in
        let xs = keep stat fs in
        let sorted = sort_by-newest n xs (all-keep (λ f. not (leb n.mtime f.mtime)) stat fs o) in
        rw (keep-last stat n fs) (
          rw p (
            rw (keep-last (λ f. not (stat f)) n fs) (
              rw p (
                rw sorted (
                  find_file-skip k (keep (λ f. not (stat f)) fs) _
                    (all-keep (λ f. not (k == f.key)) (λ f. not (stat f)) fs h)
                  ∙ find_file-drop_oldest k n m (total_size disk (xs ++ n ∷ [])) (sort_by older xs)
                      (all-sort_by-keep (λ f. not (k == f.key)) stat fs h) e
                      (all-sort_by-keep disk.can_unlink stat fs u) s
                      (sym (total_size-sort_by (xs ++ n ∷ [])) ∙ ap (total_size disk) sorted))))))
    | inr p ↦
        let others : CacheFile → Bool = λ f. not (disk.can_stat f) in
        rw (keep-last others n fs) (
          rw p (
            find_file-found k n (keep others fs ++ n ∷ []) _ (
              find_file-last k n (keep others fs) (all-keep (λ f. not (k == f.key)) others fs h)
                e)))
  ]

  pub find_file-evict :
      (k : String) (n : CacheFile) (m : ℕ) (fs : List CacheFile)
      → all (λ f. not (k == f.key)) fs ≡ true
      → (k == n.key) ≡ true
      → all (λ f. not (leb n.mtime f.mtime)) fs ≡ true
      → all disk.can_unlink fs ≡ true
      → (leb m 0 || leb (disk.size n.text) m) ≡ true
      → find_file k (evict_if_over_budget disk m (fs ++ n ∷ [])) ≡ some n
  unfolding evict_if_over_budget
  find_file-evict k n m fs h e o u s =
      ground (arith, s, find_file-last k n fs h e, find_file-loop k n m fs h e o u)
