-- ===== src/Cache/Repeated.antt =====
-- What a `get` leaves for the next one.
use mathlib.Core.Path.{subst}
use agent_belt.Prelude.{
  ◌≡◌, refl, ap, ◌∙◌, String, Bool, true, not, Option, none, some, ◌==◌, string_eq, all, Bool-cases,
  inl, inr, arith,
}
use agent_belt.Cache.{CacheFile, ScoreCache, Disk, hit, find_file, read_file, get_file, get}
use agent_belt.Cache.Reads.{get-Accounted, Accounted}
use agent_belt.Cache.Evictions.{all-keep}

module _ {D : Type 0} (disk : Disk D) where
  read_file-same :
      (f : CacheFile) (r : Option D) (b c : ScoreCache)
      → (read_file disk f r b).0 ≡ (read_file disk f r c).0
  read_file-same f (some d) b c = refl
  read_file-same f none b c = ground arith

  get_file-same :
      (o : Option CacheFile) (b c : ScoreCache) → (get_file disk o b).0 ≡ (get_file disk o c).0
  get_file-same none b c = refl
  get_file-same (some f) b c = read_file-same f (disk.loads f.text) b c

  all-read_file :
      (p : CacheFile → Bool) (f : CacheFile) (r : Option D) (c : ScoreCache)
      → all p c.files ≡ true
      → all p (read_file disk f r c).1.files ≡ true
  all-read_file p f (some d) c h = h
  all-read_file p f none c h = elim (Bool-cases (disk.can_unlink f)) [
    | inl u ↦ rw u (all-keep disk p (λ g. not (f.key == g.key)) c.files h)
    | inr u ↦ rw u h
  ]

  -- A `get` adds no file.
  pub all-get_file :
      (p : CacheFile → Bool) (o : Option CacheFile) (c : ScoreCache)
      → all p c.files ≡ true
      → all p (get_file disk o c).1.files ≡ true
  all-get_file p none c h = h
  all-get_file p (some f) c h = all-read_file p f (disk.loads f.text) c h

  max-read_file :
      (f : CacheFile) (r : Option D) (c : ScoreCache)
      → (read_file disk f r c).1.max_bytes ≡ c.max_bytes
  max-read_file f (some d) c = refl
  max-read_file f none c = ground arith

  pub max-get_file :
      (o : Option CacheFile) (c : ScoreCache) → (get_file disk o c).1.max_bytes ≡ c.max_bytes
  max-get_file none c = refl
  max-get_file (some f) c = max-read_file f (disk.loads f.text) c

  same_files :
      (k : String) (b c : ScoreCache) → b.files ≡ c.files → (get disk k b).0 ≡ (get disk k c).0
  same_files k b c e =
      ap (λ fs. (get_file disk (find_file k fs) b).0) e ∙ get_file-same (find_file k c.files) b c

  -- A second `get` gives what a first one found.
  pub get-get :
      (k : String) (c : ScoreCache) (d : D)
      → (get disk k c).0 ≡ hit d
      → (get disk k (get disk k c).1).0 ≡ hit d
  get-get k c d h =
      let accounted = subst (λ l. Accounted k c l (get disk k c).1) h (get-Accounted disk k c) in
      same_files k (get disk k c).1 c accounted.0 ∙ h
