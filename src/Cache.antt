-- ===== src/Cache.antt =====
-- include/reaction/cache/cache_base.h: the versioned, size-bounded cache that the graph's caches
-- extend. A clock reading is an argument; every method returns the new cache, since a lookup
-- writes the access time and the counters of a `mutable` member.
pub mod Laws
pub mod Tests
use reaction.Prelude.{
  ℕ, ◌+◌, ◌*◌, ◌^◌, ◌%◌, Bool, ◌&&◌, Option, none, some, List, [], ◌∷◌, KeyEqual, ◌==◌, ltb, leb,
  if◌then◌else◌, length, find, put, remove, nat_beq,
}

-- `isValidCacheSize`
unfoldable pub is_valid_cache_size : ℕ → Bool
is_valid_cache_size size = ltb 0 size && leb size 10000

-- `CacheEntry`
pub record CacheEntry {ℓ} (V : Type ℓ) : Type ℓ where
  pub value : V
  pub version : ℕ
  pub last_access : ℕ

-- `CacheBase`: the two configuration constants, the entries, the version and the statistics.
pub record Cache {ℓ κ} (K : Type ℓ) (V : Type κ) : Type (ℓ ⊔ κ) where
  pub max_cache_size : ℕ
  pub cache_ttl : ℕ
  pub entries : List (K × CacheEntry V)
  pub current_version : ℕ
  pub hit_count : ℕ
  pub miss_count : ℕ

-- `Stats`, without the ratio of its two counters, which is a `double`.
pub record Stats : Type 0 where
  pub total_entries : ℕ
  pub stats_version : ℕ
  pub hits : ℕ
  pub misses : ℕ

abbrev pub u64 : ℕ
u64 = 2 ^ 64

-- The constructor: version 1, no entry, both counters 0.
unfoldable pub new_cache {ℓ κ} : {K : Type ℓ} {V : Type κ} → ℕ → ℕ → Cache K V
new_cache max_size ttl = record {
  max_cache_size = max_size;
  cache_ttl = ttl;
  entries = [];
  current_version = 1;
  hit_count = 0;
  miss_count = 0;
}

module _ {ℓ κ} {K : Type ℓ} {V : Type κ} where
  -- The loop that erases every entry last used before `now - ttl`.
  unfoldable pub drop_expired : ℕ → ℕ → List (K × CacheEntry V) → List (K × CacheEntry V)
  drop_expired now ttl [] = []
  drop_expired now ttl ((k, e) ∷ m) =
      let rest = drop_expired now ttl m in
      if ltb (e.last_access + ttl) now then rest else (k, e) ∷ rest

  -- `std::min_element` by the access time: the first entry that none precedes.
  unfoldable pub oldest : K × CacheEntry V → List (K × CacheEntry V) → K × CacheEntry V
  oldest best [] = best
  oldest best (c ∷ m) = oldest (if ltb c.1.last_access best.1.last_access then c else best) m

  -- `invalidateAllEntries`
  unfoldable pub invalidate_all_entries : Cache K V → Cache K V
  invalidate_all_entries c = record c {
    current_version = (c.current_version + 1) % u64;
    entries = [];
  }

  -- `getStatsInternal`
  unfoldable pub get_stats_internal : Cache K V → Stats
  get_stats_internal c = record {
    total_entries = length c.entries;
    stats_version = c.current_version;
    hits = c.hit_count;
    misses = c.miss_count;
  }

  unfoldable pub count_miss : Cache K V → Cache K V
  count_miss c = record c { miss_count = (c.miss_count + 1) % u64 }

module _ {ℓ κ} {K : Type ℓ} {V : Type κ} ⦃eq : KeyEqual K⦄ where
  unfoldable pub drop_oldest : List (K × CacheEntry V) → List (K × CacheEntry V)
  unfolding oldest
  drop_oldest [] = []
  drop_oldest (c ∷ m) = remove (oldest c m).0 (c ∷ m)

  -- `cleanupOldEntriesInternal`, and so `triggerCleanupInternal`
  unfoldable pub cleanup_old_entries_internal : ℕ → Cache K V → Cache K V
  cleanup_old_entries_internal now c =
      let kept = drop_expired now c.cache_ttl c.entries in
      record c { entries = if ltb c.max_cache_size (length kept) then drop_oldest kept else kept }

  unfoldable pub touch_entry : ℕ → K → CacheEntry V → Cache K V → Cache K V
  touch_entry now key e c = record c {
    entries = put key (record e { last_access = now }) c.entries;
    hit_count = (c.hit_count + 1) % u64;
  }

  -- `getCachedValue`: an entry of another version is a miss, and stays.
  unfoldable pub get_cached_value : ℕ → K → Cache K V → Option V × Cache K V
  unfolding touch_entry count_miss
  get_cached_value now key c = elim (find key c.entries) [
    | none ↦ (none, count_miss c)
    | some e ↦
        if nat_beq e.version c.current_version
        then (some e.value, touch_entry now key e c)
        else (none, count_miss c)
  ]

  -- `cacheValue`
  unfoldable pub cache_value : ℕ → K → V → Cache K V → Cache K V
  unfolding cleanup_old_entries_internal
  cache_value now key value c =
      let entry : CacheEntry V = record {
        value = value;
        version = c.current_version;
        last_access = now;
      } in
      let c' = record c { entries = put key entry c.entries } in
      if ltb c'.max_cache_size (length c'.entries) then cleanup_old_entries_internal now c' else c'
