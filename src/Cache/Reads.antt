-- ===== src/Cache/Reads.antt =====
-- What `get` gives, and what a `put` leaves for it.
use agent_belt.Prelude.{
  ℕ, suc, ◌≤◌, ◌<◌, ◌≡◌, refl, sym, ap, ◌∙◌, String, true, not, none, some, List, [], ◌∷◌, ◌++◌,
  keep, all, leb, ◌==◌, string_eq, inl, inr, Bool-cases, Option-cases, eq_self, eq_of_beq, ◌||◌,
  arith,
}
use agent_belt.Cache.{
  CacheFile, ScoreCache, Disk, Lookup, hit, miss, os_error, get, put, find_file, unlink, total_size,
}
use agent_belt.Cache.Evictions.{evict_if_over_budget-bounded, find_file-evict, all-keep}

all-unlink : (k : String) (fs : List CacheFile) → all (λ f. not (k == f.key)) (unlink k fs) ≡ true
all-unlink k [] = refl
all-unlink k (f ∷ fs) = ground (arith, all-unlink k fs)

find_file-unlink : (k : String) (fs : List CacheFile) → find_file k (unlink k fs) ≡ none
find_file-unlink k [] = refl
find_file-unlink k (f ∷ fs) = ground (arith, find_file-unlink k fs)

find_file-key :
    (k : String) (f : CacheFile) (fs : List CacheFile) → find_file k fs ≡ some f → k ≡ f.key
find_file-key k f [] h = absurd (ground (arith, h))
find_file-key k f (g ∷ fs) h = elim (Bool-cases (k == g.key)) [
  | inl e ↦ let same : g ≡ f = ground (arith, h) in eq_of_beq k g.key e ∙ ap (λ x. x.key) same
  | inr e ↦ find_file-key k f fs (ground (arith, h))
]

-- What a `get` does to the cache, by what it gives.
abbrev pub Accounted : {D : Type 0} → String → ScoreCache → Lookup D → ScoreCache → Type 0
Accounted k c (hit r) d = (d.files ≡ c.files) × (d.hits ≡ suc c.hits) × (d.misses ≡ c.misses)
Accounted k c miss d = (find_file k d.files ≡ none) × (d.hits ≡ c.hits) × (d.misses ≡ suc c.misses)
Accounted k c os_error d = d ≡ c

module _ {D : Type 0} (disk : Disk D) where
  -- A `get` that hits counts one hit and leaves the files; a `get` that misses counts one miss and
  -- leaves no file of the key, a corrupt one included; a `get` that raises changes nothing.
  pub get-Accounted :
      (k : String) (c : ScoreCache) → Accounted k c (get disk k c).0 (get disk k c).1
  get-Accounted k c = elim (Option-cases (find_file k c.files)) [
    | inl e ↦ rw e (e, refl, refl)
    | inr (f, e) ↦ elim (Option-cases (disk.loads f.text)) [
      | inr (r, l) ↦ rw e (rw l (refl, refl, refl))
      | inl l ↦ elim (Bool-cases (disk.can_unlink f)) [
        | inl u ↦ rw e (
            rw l (
              rw u
                (rw (sym (find_file-key k f c.files e)) (find_file-unlink k c.files), refl, refl)))
        | inr u ↦ rw e (rw l (rw u refl))
      ]
    ]
  ]

  -- After a `put` that is written, under a positive budget, when the directory can be scanned and
  -- every file can be unlinked, the files with a `stat` fit the budget.
  put-bounded :
      (now : ℕ) (k : String) (r : D) (payload : String) (c : ScoreCache)
      → 0 < c.max_bytes
      → disk.can_scan ≡ true
      → ((f : CacheFile) → disk.can_unlink f ≡ true)
      → disk.dumps r ≡ some payload
      → total_size disk (keep disk.can_stat (put disk true now k r c).files) ≤ c.max_bytes
  put-bounded now k r payload c h s u d =
      let n : CacheFile = record { key = k; text = payload; mtime = now } in
      rw d (
        evict_if_over_budget-bounded disk c.max_bytes (unlink k c.files ++ n ∷ []) h s
          (every (unlink k c.files ++ n ∷ [])))
    where
      every : (fs : List CacheFile) → all disk.can_unlink fs ≡ true
      every [] = refl
      every (f ∷ fs) = ground (arith, u f, every fs)

  -- A response that was put is what `get` gives for its key, evictions included, when it can be
  -- printed and parsed again, it is newer than every file in the cache, these can be unlinked, and
  -- its own size is within the budget or there is no budget.
  pub get-put :
      (now : ℕ) (k : String) (r : D) (payload : String) (c : ScoreCache)
      → disk.dumps r ≡ some payload
      → disk.loads payload ≡ some r
      → all (λ f. not (leb now f.mtime)) c.files ≡ true
      → all disk.can_unlink c.files ≡ true
      → (leb c.max_bytes 0 || leb (disk.size payload) c.max_bytes) ≡ true
      → (get disk k (put disk true now k r c)).0 ≡ hit r
  get-put now k r payload c d l o u s =
      let n : CacheFile = record { key = k; text = payload; mtime = now } in
      rw d (
        rw
          (find_file-evict disk k n c.max_bytes (unlink k c.files) (all-unlink k c.files)
            (eq_self k)
            (all-keep disk (λ f. not (leb now f.mtime)) (λ f. not (k == f.key)) c.files o)
            (all-keep disk disk.can_unlink (λ f. not (k == f.key)) c.files u) s)
          (rw l refl))
