-- ===== src/DataSet/Limits.antt =====
-- `#getMaxCacheEntries` and `#getMaxCacheSizeBytes`, the same code in TupleSet.js and CellSet.js.
use huey.Base.{ℕ, ◌*◌, Option, some}

-- `Number(settings.getSettings(path))`. A fraction is not modelled.
pub data JsNumber : Type 0 where
  nan infinite negative : JsNumber
  whole : ℕ → JsNumber

-- The two limits that the settings hold; `none` where there is no settings object to ask.
pub record CacheSettings : Type 0 where
  pub max_cache_entries : Option JsNumber
  pub max_cache_size_mb : Option JsNumber

abbrev pub default_max_cache_entries : ℕ
default_max_cache_entries = 10000

abbrev pub default_max_cache_size_mb : ℕ
default_max_cache_size_mb = 50

-- `if (!Number.isFinite(value) || value < 0) value = fallback`
unfoldable pub number_or : Option JsNumber → ℕ → ℕ
number_or (some (whole n)) fallback = n
number_or _ fallback = fallback

unfoldable pub get_max_cache_entries : CacheSettings → ℕ
unfolding number_or
get_max_cache_entries s = number_or s.max_cache_entries default_max_cache_entries

unfoldable pub get_max_cache_size_bytes : CacheSettings → ℕ
unfolding number_or
get_max_cache_size_bytes s = number_or s.max_cache_size_mb default_max_cache_size_mb * 1024 * 1024
