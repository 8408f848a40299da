-- ===== src/Cache/Laws.antt =====
-- What lookups see of the cache of cache_base.h.
use reaction.Prelude.{
  ℕ, ◌+◌, ◌≤◌, ◌<◌, ◌≡◌, refl, ◌⊎◌, inl, inr, true, Option, none, some, List, [], ◌∷◌, KeyEqual,
  ◌==◌, ltb, if◌then◌else◌, length, find, put, remove, nat_beq, find-put, find-remove,
  length-put-le, length-put-has, length-remove-lt, has, arith, Option-cases,
}
use reaction.Cache.{
  CacheEntry, Cache, drop_expired, oldest, drop_oldest, invalidate_all_entries,
  cleanup_old_entries_internal, get_cached_value, cache_value,
}

-- What a lookup returns for the entry that it found.
unfoldable pub visible {ℓ} : {V : Type ℓ} → ℕ → Option (CacheEntry V) → Option V
visible version none = none
visible version (some e) = if nat_beq e.version version then some e.value else none

module _ {ℓ κ} {K : Type ℓ} {V : Type κ} ⦃eq : KeyEqual K⦄ where
  unfoldable pub peek : K → Cache K V → Option V
  unfolding visible
  peek k c = visible c.current_version (find k c.entries)

  -- No key has two entries, as in a hash map.
  abbrev pub Distinct : List (K × CacheEntry V) → Type (ℓ ⊔ κ)
  Distinct [] = Unit
  Distinct ((k, e) ∷ m) = (find k m ≡ none) × Distinct m

  -- A well-formed cache: distinct keys, and never more entries than configured.
  pub record IsValid (c : Cache K V) : Type (ℓ ⊔ κ) where
    pub distinct : Distinct c.entries
    pub bounded : length c.entries ≤ c.max_cache_size

  Distinct-put :
      (k : K) (e : CacheEntry V) (m : List (K × CacheEntry V)) → Distinct m → Distinct (put k e m)
  unfolding find put
  Distinct-put k e [] d = (refl, tt)
  Distinct-put k e ((j, w) ∷ m) d =
      ground (arith, find-put k j e m, eq.same_key_iff j k, eq.same_key_iff k j, Distinct-put k e m)

  Distinct-remove : (k : K) (m : List (K × CacheEntry V)) → Distinct m → Distinct (remove k m)
  unfolding remove
  Distinct-remove k [] d = tt
  Distinct-remove k ((j, w) ∷ m) d = ground (arith, find-remove k j m, Distinct-remove k m)

  find-drop_expired :
      (now ttl : ℕ) (k : K) (m : List (K × CacheEntry V))
      → Distinct m
      → (find k (drop_expired now ttl m) ≡ none) ⊎ (find k (drop_expired now ttl m) ≡ find k m)
  unfolding drop_expired find
  find-drop_expired now ttl k [] d = inl refl
  find-drop_expired now ttl k ((j, w) ∷ m) d =
      ground (arith, eq.same_key_iff j k, find-drop_expired now ttl k m d.1)

  Distinct-drop_expired :
      (now ttl : ℕ) (m : List (K × CacheEntry V)) → Distinct m → Distinct (drop_expired now ttl m)
  unfolding drop_expired
  Distinct-drop_expired now ttl [] d = tt
  Distinct-drop_expired now ttl ((j, w) ∷ m) d =
      ground (arith, find-drop_expired now ttl j m, Distinct-drop_expired now ttl m)

  length-drop_expired-le :
      (now ttl : ℕ) (m : List (K × CacheEntry V)) → length (drop_expired now ttl m) ≤ length m
  unfolding drop_expired
  length-drop_expired-le now ttl [] = omega arith
  length-drop_expired-le now ttl ((k, e) ∷ m) = ground (arith, length-drop_expired-le now ttl m)

  has_of_either :
      (x : K) (c d w : K × CacheEntry V) (m : List (K × CacheEntry V))
      → (w ≡ d) ⊎ (w ≡ c)
      → has x (w ∷ m) ≡ true
      → has x (c ∷ d ∷ m) ≡ true
  unfolding find
  has_of_either x c d w m p h = ground arith

  find-oldest :
      (c : K × CacheEntry V) (m : List (K × CacheEntry V)) → has (oldest c m).0 (c ∷ m) ≡ true
  unfolding oldest find
  find-oldest c [] = ground (arith, eq.same_key_iff c.0 c.0)
  find-oldest c (d ∷ m) =
      let w = if ltb d.1.last_access c.1.last_access then d else c in
      has_of_either (oldest w m).0 c d w m (ground arith) (find-oldest w m)

  length-drop_oldest :
      (m : List (K × CacheEntry V)) (n : ℕ) → length m ≤ n + 1 → length (drop_oldest m) ≤ n
  unfolding drop_oldest
  length-drop_oldest [] n h = omega arith
  length-drop_oldest (c ∷ m) n h =
      omega (arith, length-remove-lt (oldest c m).0 (c ∷ m) (find-oldest c m))

  find-drop_oldest :
      (k : K) (m : List (K × CacheEntry V))
      → (find k (drop_oldest m) ≡ none) ⊎ (find k (drop_oldest m) ≡ find k m)
  unfolding drop_oldest
  find-drop_oldest k [] = inr refl
  find-drop_oldest k (c ∷ m) = ground (arith, find-remove (oldest c m).0 k (c ∷ m))

  Distinct-drop_oldest : (m : List (K × CacheEntry V)) → Distinct m → Distinct (drop_oldest m)
  unfolding drop_oldest
  Distinct-drop_oldest [] d = tt
  Distinct-drop_oldest (c ∷ m) d = Distinct-remove (oldest c m).0 (c ∷ m) d

  -- `cleanupOldEntriesInternal` on a map with distinct keys that holds at most one entry too many
  -- leaves a valid cache; a lookup then finds nothing, or what it found before.
  pub cleanup_lem :
      (now : ℕ) (k : K) (c : Cache K V)
      → Distinct c.entries
      → length c.entries ≤ c.max_cache_size + 1
      → IsValid (cleanup_old_entries_internal now c)
        × ((peek k (cleanup_old_entries_internal now c) ≡ none)
            ⊎ (peek k (cleanup_old_entries_internal now c) ≡ peek k c))
  unfolding cleanup_old_entries_internal peek
  cleanup_lem now k c d h =
      let kept = drop_expired now c.cache_ttl c.entries in
      ground (
        arith,
        Distinct-drop_expired now c.cache_ttl c.entries d,
        Distinct-drop_oldest kept,
        length-drop_expired-le now c.cache_ttl c.entries,
        length-drop_oldest kept c.max_cache_size,
        find-drop_expired now c.cache_ttl k c.entries d,
        find-drop_oldest k kept,
      )

  -- A lookup reports what is visible, and changes nothing that a later lookup sees.
  pub get_cached_value_lem :
      (now : ℕ) (k j : K) (c : Cache K V)
      → ((get_cached_value now k c).0 ≡ peek k c) × (peek j (get_cached_value now k c).1 ≡ peek j c)
  unfolding get_cached_value peek
  get_cached_value_lem now k j c = elim (Option-cases (find k c.entries)) [
    | inl miss ↦ (rw (miss, get_cached_value), rw (miss, get_cached_value))
    | inr (e, hit) ↦
        ground (arith, find-put k j (record e { last_access = now }) c.entries, eq.same_key_iff k j)
  ]

  -- `getCachedValue` keeps the cache valid.
  pub get_cached_value-IsValid :
      (now : ℕ) (k : K) (c : Cache K V) → IsValid c → IsValid (get_cached_value now k c).1
  unfolding get_cached_value
  get_cached_value-IsValid now k c v = elim (Option-cases (find k c.entries)) [
    | inl miss ↦ rw (miss, get_cached_value) (record { distinct = v.distinct; bounded = v.bounded })
    | inr (e, hit) ↦
        let e' : CacheEntry V = record e { last_access = now } in
        rw (hit, get_cached_value)
          (ground
            (arith, Distinct-put k e' c.entries v.distinct, length-put-has k e' c.entries (rw hit)))
  ]

  -- `cacheValue` keeps a valid cache valid, so never above its configured size. Afterwards a
  -- lookup of the key finds the new value or nothing, and a lookup of another key what it found
  -- before or nothing.
  pub cache_value_lem :
      (now : ℕ) (k : K) (v : V) (j : K) (c : Cache K V)
      → IsValid c
      → IsValid (cache_value now k v c)
        × ((peek j (cache_value now k v c) ≡ none)
            ⊎ (peek j (cache_value now k v c) ≡ (if k == j then some v else peek j c)))
  unfolding cache_value cleanup_old_entries_internal peek
  cache_value_lem now k v j c valid =
      let e : CacheEntry V = record { value = v; version = c.current_version; last_access = now } in
      let c' = record c { entries = put k e c.entries } in
      ground (
        arith,
        find-put k j e c.entries,
        length-put-le k e c.entries,
        Distinct-put k e c.entries valid.distinct,
        cleanup_lem now j c',
      )

  -- While there is room for one more entry, `cacheValue` forgets nothing: a lookup of the key finds
  -- the new value, and a lookup of another key what it found before.
  pub cache_value_fits_lem :
      (now : ℕ) (k : K) (v : V) (j : K) (c : Cache K V)
      → length c.entries < c.max_cache_size
      → peek j (cache_value now k v c) ≡ (if k == j then some v else peek j c)
  unfolding cache_value cleanup_old_entries_internal peek
  cache_value_fits_lem now k v j c room =
      let e : CacheEntry V = record { value = v; version = c.current_version; last_access = now } in
      ground (arith, find-put k j e c.entries, length-put-le k e c.entries)

  -- After `invalidateAllEntries` every lookup misses, and the cache is valid.
  pub invalidate_all_entries_lem :
      (j : K) (c : Cache K V)
      → IsValid (invalidate_all_entries c) × (peek j (invalidate_all_entries c) ≡ none)
  unfolding invalidate_all_entries peek find
  invalidate_all_entries_lem j c = ground arith
