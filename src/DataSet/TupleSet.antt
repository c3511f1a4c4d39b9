-- ===== src/DataSet/TupleSet.antt =====
-- src/DataSet/TupleSet.js: the page cache of an axis' tuples, with its least-recently-used
-- eviction, and the paging of `getTuples`. Proofs are in the modules below.
pub mod Load
pub mod Paging
pub mod Cache
pub mod Eviction
pub mod Window
pub mod Stored
pub mod Correct
pub mod Answer
pub mod Measured
pub mod Reach
mod Tests
use huey.Base.{
  ℕ, zero, suc, ◌+◌, ◌-◌, ◌≡◌, Bool, true, false, ◌&&◌, ◌||◌, Option, none, some, List, [], ◌∷◌,
  String, length, get_elem?, take, drop, ltb, leb, ◌==◌, is_some, if◌then◌else◌,
}
use text.Mathlib.Text.{◌==◌ as str_eq}
use huey.Base.Result.{Result, JsError, ok, throw, type_error}
use huey.Base.JsMap
use huey.Base.JsMap.{JsMap}
use huey.Base.Sparse
use huey.Base.Sparse.{Sparse}
use huey.DataSet.Limits.{CacheSettings, get_max_cache_entries, get_max_cache_size_bytes}

abbrev pub json_object_braces_size : ℕ
json_object_braces_size = 2

abbrev pub json_object_key_value_separator_size : ℕ
json_object_key_value_separator_size = 1

abbrev pub grouping_id_alias : String
grouping_id_alias = "__huey_grouping_id"

-- The tuple has a grouping id only where that is above 0.
pub record Tuple (V : Type 0) : Type 0 where
  pub values : List V
  pub grouping_id : Option ℕ

-- The object's private fields, and the settings that its limits are read from.
pub record TupleSet (V : Type 0) : Type 0 where
  pub tuples : Sparse (Tuple V)
  pub tuple_value_fields : List String
  pub tuple_serialized_sizes : JsMap ℕ
  pub tuple_cache_entry_size_total : ℕ
  pub tuple_count : Option ℕ
  pub page_size : ℕ
  pub tuple_access_order : JsMap Bool
  pub settings : CacheSettings

-- What a query gives: the names of the fields, and for each row the value of a field.
pub record ResultSet (V : Type 0) : Type 0 where
  pub fields : List String
  pub rows : List (String → V)

-- The data source behind the axis: `ok none` where there is no SQL to run, and a query may fail.
-- `count_rows` is the number that the count query returns, `page limit offset` the rows of the
-- axis query.
pub record Backend (V : Type 0) : Type 0 where
  pub count_rows : Result (Option ℕ)
  pub page : ℕ → ℕ → Result (Option (ResultSet V))
  pub canceled : Bool

module _ {V : Type 0} where
  unfoldable pub clear : TupleSet V → TupleSet V
  clear s = record s {
    tuples = [];
    tuple_count = none;
    tuple_serialized_sizes = [];
    tuple_cache_entry_size_total = 0;
    tuple_access_order = [];
  }

  unfoldable pub touch_tuple : TupleSet V → ℕ → TupleSet V
  touch_tuple s index = record s {
    tuple_access_order = JsMap.set (JsMap.delete s.tuple_access_order index) index true;
  }

  unfoldable pub remove_tuple : TupleSet V → ℕ → TupleSet V
  remove_tuple s index = elim (JsMap.get s.tuple_serialized_sizes index) [
    | none ↦ record s {
      tuples = Sparse.set s.tuples index none;
      tuple_access_order = JsMap.delete s.tuple_access_order index;
    }
    | some size ↦ record s {
      tuples = Sparse.set s.tuples index none;
      tuple_cache_entry_size_total = s.tuple_cache_entry_size_total - size;
      tuple_serialized_sizes = JsMap.delete s.tuple_serialized_sizes index;
      tuple_access_order = JsMap.delete s.tuple_access_order index;
    }
  ]

  unfoldable pub cache_size : TupleSet V → ℕ
  cache_size s =
      let num_cached_tuples = length s.tuple_serialized_sizes in
      if num_cached_tuples == 0
      then json_object_braces_size
      else json_object_braces_size + s.tuple_cache_entry_size_total + (num_cached_tuples - 1)

  -- The test of the loop of `#enforceCacheLimits`.
  unfoldable pub over_limits : TupleSet V → Bool
  unfolding cache_size
  over_limits s =
      ltb (get_max_cache_entries s.settings) (length s.tuple_access_order)
      || ltb (get_max_cache_size_bytes s.settings) (cache_size s)

  -- The loop of `#enforceCacheLimits`: the first key of the insertion-ordered map is dropped.
  unfoldable pub evict : ℕ → TupleSet V → TupleSet V
  evict zero s = s
  evict (suc fuel) s = elim (over_limits s) [
    | false ↦ s
    | true ↦ elim s.tuple_access_order [
      | [] ↦ s
      | entry ∷ rest ↦ evict fuel (remove_tuple s entry.0)
    ]
  ]

  unfoldable pub enforce_cache_limits : TupleSet V → TupleSet V
  unfolding evict
  enforce_cache_limits s = evict (suc (length s.tuple_access_order)) s

  -- The loop of `getTuplesSync` over the slice, whose first element stands at `index`.
  unfoldable pub touch_cached : TupleSet V → ℕ → Sparse (Tuple V) → TupleSet V
  touch_cached s index [] = s
  touch_cached s index (none ∷ ts) = touch_cached s (suc index) ts
  touch_cached s index (some t ∷ ts) = touch_cached (touch_tuple s index) (suc index) ts

  unfoldable pub get_tuples_sync : TupleSet V → ℕ → ℕ → TupleSet V × Sparse (Tuple V)
  unfolding touch_cached
  get_tuples_sync s from to =
      let tuples = Sparse.slice s.tuples from to in (touch_cached s from tuples, tuples)

  unfoldable pub get_tuple_sync : TupleSet V → ℕ → TupleSet V × Option (Tuple V)
  get_tuple_sync s index = elim (Sparse.get s.tuples index) [
    | none ↦ (s, none)
    | some t ↦ (touch_tuple s index, some t)
  ]

-- The running total never falls below a size that it contains (TupleSet/Cache), so `-` is exact.
-- What the code takes from JavaScript: the lengths of the JSON texts of a key and of a tuple.
module _ {V : Type 0} (json_key_size : ℕ → ℕ) (json_tuple_size : Tuple V → ℕ) where
  unfoldable pub get_tuple_serialized_size : ℕ → Tuple V → ℕ
  get_tuple_serialized_size index tuple =
      json_key_size index + json_object_key_value_separator_size + json_tuple_size tuple

  unfoldable pub store_tuple : TupleSet V → ℕ → Tuple V → TupleSet V
  unfolding get_tuple_serialized_size
  store_tuple s index tuple =
      let total : ℕ = elim (JsMap.get s.tuple_serialized_sizes index) [
        | none ↦ s.tuple_cache_entry_size_total
        | some size ↦ s.tuple_cache_entry_size_total - size
      ] in
      let tuple_serialized_size = get_tuple_serialized_size index tuple in
      record s {
        tuples = Sparse.set s.tuples index (some tuple);
        tuple_serialized_sizes = JsMap.set s.tuple_serialized_sizes index tuple_serialized_size;
        tuple_cache_entry_size_total = total + tuple_serialized_size;
      }
