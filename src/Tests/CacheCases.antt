-- ===== src/Tests/CacheCases.antt =====
-- The cache on a directory of two files, of which the budget leaves one beside a new file.
use agent_belt.Prelude.{
  ◌≤◌, ◌≡◌, ◌⊎◌, refl, String, true, none, some, List, [], ◌∷◌, sort_by, insert, arith,
}
use agent_belt.Cache.{
  CacheFile, ScoreCache, Disk, hit, get, put, total_size, evict_if_over_budget, drop_oldest, older,
  cache_max_bytes, open_cache, default_cache_max_bytes,
}
use agent_belt.Prelude.Int.{pos, negsuc}
use agent_belt.Cache.Oldest.{evict_if_over_budget-Dropped, Dropped}
use agent_belt.Cache.Reads.{get-put}

abbrev sample_disk : Disk String
sample_disk = record {
  loads = λ text. some text;
  dumps = λ response. some response;
  size = λ text. 40;
  can_scan = true;
  can_stat = λ f. true;
  can_unlink = λ f. true;
}

abbrev first : CacheFile
first = record { key = "a"; text = "yes"; mtime = 2 }

abbrev second : CacheFile
second = record { key = "b"; text = "no"; mtime = 1 }

abbrev sample_cache : ScoreCache
sample_cache = record { files = first ∷ second ∷ []; hits = 0; misses = 0; max_bytes = 100 }

oldest_dropped :
    (put sample_disk true 3 "c" "maybe" sample_cache).files
    ≡ first ∷ record { key = "c"; text = "maybe"; mtime = 3 } ∷ []
unfolding evict_if_over_budget drop_oldest sort_by insert
oldest_dropped = refl

negative_budget : cache_max_bytes (λ raw. some (negsuc 4)) (some "-5") ≡ 0
negative_budget = refl

bad_budget : cache_max_bytes (λ raw. none) (some "lots") ≡ default_cache_max_bytes
bad_budget = refl

opened_without_budget :
    (open_cache (λ raw. some (pos 7)) (some "7") (some (negsuc 0)) []).max_bytes ≡ 0
opened_without_budget = refl

evict_if_over_budget-Dropped_example :
    ((total_size sample_disk (first ∷ second ∷ []) ≤ 50)
      × (evict_if_over_budget sample_disk 50 (first ∷ second ∷ []) ≡ first ∷ second ∷ []))
    ⊎ ((left : List CacheFile) × (evict_if_over_budget sample_disk 50 (first ∷ second ∷ []) ≡ left)
        × Dropped sample_disk 50 (sort_by older (first ∷ second ∷ [])) left)
evict_if_over_budget-Dropped_example =
    evict_if_over_budget-Dropped sample_disk 50 (first ∷ second ∷ []) (omega arith) refl refl

get-put_example :
    (get sample_disk "c" (put sample_disk true 3 "c" "maybe" sample_cache)).0 ≡ hit "maybe"
get-put_example = get-put sample_disk 3 "c" "maybe" "maybe" sample_cache refl refl refl refl refl
