-- ===== src/Cache.antt =====
-- src/belt/scorer/llm/cache.py: the cache of judge responses, a directory of files with a budget.
pub mod Evictions
pub mod Reads
pub mod Repeated
pub mod Oldest
use agent_belt.Prelude.{
  ℕ, zero, suc, ◌+◌, ◌-◌, ◌*◌, String, Bool, true, false, not, Option, none, some, List, [], ◌∷◌,
  ◌++◌, keep, sort_by, leb, if◌then◌else◌, ◌==◌, string_eq,
}
use agent_belt.Prelude.Int.{ℤ, pos_part}

-- A file `{key}.json` of the directory. Temporary files are never read and never counted.
pub record CacheFile : Type 0 where
  pub key : String
  pub text : String
  pub mtime : ℕ

pub record ScoreCache : Type 0 where
  -- The files in the order of `iterdir`, which is arbitrary: it only breaks ties of `mtime`.
  pub files : List CacheFile
  pub hits : ℕ
  pub misses : ℕ
  pub max_bytes : ℕ

-- What `get` gives: the response, None, or the error of an `unlink` that fails.
pub data Lookup (D : Type 0) : Type 0 where
  hit : D → Lookup D
  miss : Lookup D
  os_error : Lookup D

-- The JSON library, the sizes of files, and which of the calls on the file system succeed. `loads` is
-- `none` where reading or parsing raises.
pub record Disk (D : Type 0) : Type 0 where
  pub loads : String → Option D
  pub dumps : D → Option String
  pub size : String → ℕ
  pub can_scan : Bool
  pub can_stat : CacheFile → Bool
  pub can_unlink : CacheFile → Bool

abbrev pub default_cache_max_bytes : ℕ
default_cache_max_bytes = 500 * 1024 * 1024

-- The variable of the environment; `parse_int` is `int(raw)`, which may raise.
abbrev pub cache_max_bytes : (parse_int : String → Option ℤ) → Option String → ℕ
cache_max_bytes parse_int none = default_cache_max_bytes
cache_max_bytes parse_int (some raw) = elim (parse_int raw) [
  | none ↦ default_cache_max_bytes
  | some value ↦ pos_part value
]

-- `__init__`, on a directory that has files from earlier runs.
abbrev pub open_cache :
    (parse_int : String → Option ℤ)
    → Option String
    → (max_bytes : Option ℤ) → List CacheFile
    → ScoreCache
open_cache parse_int raw none fs = record {
  files = fs;
  hits = 0;
  misses = 0;
  max_bytes = cache_max_bytes parse_int raw;
}
open_cache parse_int raw (some n) fs = record {
  files = fs;
  hits = 0;
  misses = 0;
  max_bytes = pos_part n;
}

abbrev pub find_file : String → List CacheFile → Option CacheFile
find_file k [] = none
find_file k (f ∷ fs) = if k == f.key then some f else find_file k fs

-- The directory without the file of a key.
abbrev pub unlink : String → List CacheFile → List CacheFile
unlink k fs = keep (λ f. not (k == f.key)) fs

abbrev pub older : CacheFile → CacheFile → Bool
older f g = leb f.mtime g.mtime

module _ {D : Type 0} (disk : Disk D) where
  abbrev pub read_file : CacheFile → Option D → ScoreCache → Lookup D × ScoreCache
  read_file f (some response) c = (
    hit response,
    record { files = c.files; hits = suc c.hits; misses = c.misses; max_bytes = c.max_bytes },
  )
  read_file f none c =
      if disk.can_unlink f
      then (
        miss,
        record {
          files = unlink f.key c.files;
          hits = c.hits;
          misses = suc c.misses;
          max_bytes = c.max_bytes;
        },
      )
      else (os_error, c)

  abbrev pub get_file : Option CacheFile → ScoreCache → Lookup D × ScoreCache
  get_file none c = (
    miss,
    record { files = c.files; hits = c.hits; misses = suc c.misses; max_bytes = c.max_bytes },
  )
  get_file (some f) c = read_file f (disk.loads f.text) c

  -- `get`
  abbrev pub get : String → ScoreCache → Lookup D × ScoreCache
  get k c = get_file (find_file k c.files) c

  abbrev pub total_size : List CacheFile → ℕ
  total_size [] = 0
  total_size (f ∷ fs) = disk.size f.text + total_size fs

  -- What the loop over the sorted entries leaves, from the total size before it.
  unfoldable pub drop_oldest : (max_bytes total : ℕ) → List CacheFile → List CacheFile
  drop_oldest max_bytes total [] = []
  drop_oldest max_bytes total (victim ∷ fs) =
      if leb total max_bytes
      then victim ∷ fs
      else (if disk.can_unlink victim
          then drop_oldest max_bytes (total - disk.size victim.text) fs
          else victim ∷ drop_oldest max_bytes total fs)

  -- `_evict_if_over_budget`: an entry without a `stat` is neither counted nor dropped.
  unfoldable pub evict_if_over_budget : ℕ → List CacheFile → List CacheFile
  evict_if_over_budget max_bytes fs =
      let entries = keep disk.can_stat fs in
      let total = total_size entries in
      if leb max_bytes 0
      then fs
      else (if not disk.can_scan
          then fs
          else (if leb total max_bytes
              then fs
              else keep (λ f. not (disk.can_stat f)) fs
                ++ drop_oldest max_bytes total (sort_by older entries)))

  abbrev write_entry : Option String → (written : Bool) (now : ℕ) → String → ScoreCache → ScoreCache
  write_entry (some payload) true now k c = record {
    files =
        evict_if_over_budget c.max_bytes
          (unlink k c.files ++ record { key = k; text = payload; mtime = now } ∷ []);
    hits = c.hits;
    misses = c.misses;
    max_bytes = c.max_bytes;
  }
  write_entry _ _ now k c = c

  -- `put`, at the time `now`; `written` says whether the write and the rename succeed. The text is
  -- the printed value with the line end, and a failure leaves the directory as it was.
  abbrev pub put : (written : Bool) (now : ℕ) → String → D → ScoreCache → ScoreCache
  put written now k response c = write_entry (disk.dumps response) written now k c
