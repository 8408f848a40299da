-- ===== src/Cache/Tests.antt =====
-- A cache of two entries, on concrete keys and clock readings.
use reaction.Prelude.{
  ℕ, ◌≡◌, refl, ◌⊎◌, none, some, nat_eq, ◌==◌, if◌then◌else◌, find, put, remove, arith,
}
use reaction.Cache.{Cache, new_cache, cache_value, drop_expired, drop_oldest}
use reaction.Cache.Laws.{peek, IsValid, cache_value_lem, cache_value_fits_lem}

abbrev small : Cache ℕ ℕ
small = new_cache 2 100

abbrev filled : Cache ℕ ℕ
filled = cache_value 1 7 70 small

small-IsValid : IsValid small
unfolding new_cache
small-IsValid = record { distinct = tt; bounded = omega arith }

filled-IsValid : IsValid filled
filled-IsValid = (cache_value_lem 1 7 70 0 small small-IsValid).0

third_entry_evicts_the_oldest : peek 7 (cache_value 3 9 90 (cache_value 2 8 80 filled)) ≡ none
unfolding cache_value peek new_cache find put drop_expired drop_oldest remove
third_entry_evicts_the_oldest = refl

cache_value_lem_example :
    IsValid (cache_value 2 8 80 filled)
    × ((peek 7 (cache_value 2 8 80 filled) ≡ none)
        ⊎ (peek 7 (cache_value 2 8 80 filled)
            ≡ (if ◌==◌ {K = ℕ} 8 7 then some 80 else peek 7 filled)))
cache_value_lem_example = cache_value_lem 2 8 80 7 filled filled-IsValid

cache_value_fits_lem_example :
    peek 7 (cache_value 2 8 80 filled) ≡ (if ◌==◌ {K = ℕ} 8 7 then some 80 else peek 7 filled)
unfolding cache_value new_cache put
cache_value_fits_lem_example = cache_value_fits_lem 2 8 80 7 filled (omega arith)
