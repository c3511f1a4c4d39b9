-- ===== src/DataSet/CellSet/Tests.antt =====
-- CellSet.js on a small grid: two rows by three columns, and a cache for two cells.
use huey.Base.{ℕ, ◌+◌, ◌<◌, ◌≡◌, refl, none, some, List, [], ◌∷◌, String, arith, inl, ◌↔◌}
use huey.Base.Result.{Result, ok, throw, type_error}
use huey.Base.JsMap
use huey.Base.JsMap.{JsMap, IsUnique}
use huey.Base.Sparse
use huey.Base.Dict
use huey.DataSet.Limits.{CacheSettings, whole, get_max_cache_entries, get_max_cache_size_bytes}
use huey.DataSet.Sizes.{sum_over}
use huey.DataSet.CellSet.{
  Cell, CellSet, extract_rows, extract_cells, enforce_cache_limits, remove_cell, over_limits,
  touch_cell,
}
use huey.DataSet.CellSet.Index.{get_cell_index, grid_size}
use huey.DataSet.CellSet.Ranges.{AxisInfo, get_tuple_ranges, bounds}
use huey.DataSet.CellSet.Address.{In, Between, counts_of, get_tuple_ranges-cells}
use huey.DataSet.CellSet.Cache.{IsConsistent}
use huey.DataSet.CellSet.Fetch.{
  TupleSets, CellRows, has_value, serve_all, ensure_tuples_ready_for_ranges, get_cells,
}
use huey.DataSet.CellSet.Serving.{IsServed, index_of, all_complete, serve_all-begun}
use huey.DataSet.CellSet.Cached.{get_cells-cached}
use huey.DataSet.CellSet.Eviction.{KeepsNewest, extract_cells-KeepsNewest}

abbrev axes : List AxisInfo
axes =
    record { tuple_count = some 2; item_count = 1 }
    ∷ record { tuple_count = some 3; item_count = 1 }
    ∷ []

abbrev ranges : List (ℕ × ℕ)
ranges = (0, 2) ∷ (1, 9) ∷ []

get_tuple_ranges-cells_example :
    (combinations : List (List ℕ)) × (get_tuple_ranges axes ranges [] [] ≡ ok combinations)
    × ((is : List ℕ) → In is combinations ↔ Between is (bounds axes ranges))
    × ((is : List ℕ)
        → In is combinations
        → get_cell_index is (counts_of axes) < grid_size (counts_of axes))
    × ((is js : List ℕ)
        → In is combinations
        → In js combinations
        → get_cell_index is (counts_of axes) ≡ get_cell_index js (counts_of axes)
        → is ≡ js)
get_tuple_ranges-cells_example = get_tuple_ranges-cells axes ranges refl (inl refl, (inl refl, tt))

abbrev tight : CacheSettings
tight = record { max_cache_entries = some (whole 2); max_cache_size_mb = none }

abbrev empty : CellSet ℕ
empty = record {
  cells = [];
  cell_value_fields = [];
  cell_access_timestamps = [];
  cell_serialized_sizes = [];
  access_counter = 0;
  cache_size = 2;
  settings = tight;
}

empty-IsConsistent : IsConsistent empty
unfolding IsUnique JsMap.get sum_over Sparse.get
empty-IsConsistent = record {
  stamps_unique = tt;
  sizes_unique = tt;
  sized = λ k. refl;
  stored = λ k. refl;
  same_length = refl;
  braced = λ k n e. cc;
  past = λ k n e. cc;
  total = refl;
}

abbrev cell_size : ℕ → Cell ℕ → ℕ
cell_size k cell = 30

abbrev fields : List String
fields = "sum" ∷ []

abbrev rows : List (ℕ × (String → ℕ))
rows = (4, λ f. 10) ∷ (1, λ f. 20) ∷ (4, λ f. 30) ∷ (5, λ f. 40) ∷ []

-- Cell 1 was touched longest ago, and leaves.
keeps_newest :
    (extract_cells cell_size "__huey_cellIndex" fields rows empty).cell_access_timestamps
    ≡ (4, 3) ∷ (5, 4) ∷ []
unfolding extract_cells enforce_cache_limits remove_cell over_limits get_max_cache_entries
    get_max_cache_size_bytes JsMap.set JsMap.get JsMap.delete Sparse.get Sparse.set touch_cell
keeps_newest = refl

extract_cells-KeepsNewest_example :
    KeepsNewest
      (extract_rows cell_size "__huey_cellIndex" fields rows empty)
      (extract_cells cell_size "__huey_cellIndex" fields rows empty)
extract_cells-KeepsNewest_example =
    extract_cells-KeepsNewest cell_size (λ k cell. omega arith) "__huey_cellIndex" fields rows empty
      empty-IsConsistent

-- One tuple set of two tuples with an item; the first cell is cached, with the sum.
abbrev tuple_source : TupleSets ℕ ℕ
tuple_source = record {
  axes = λ w. record { tuple_count = some 2; item_count = 1 } ∷ [];
  get_tuple_sync = λ w j i. (w + 1, some i);
  get_tuples = λ w j count offset. (w, ok (some offset ∷ []));
}

abbrev sum_cell : Cell ℕ
sum_cell = record { values = ("sum", 42) ∷ [] }

abbrev with_sum : CellSet ℕ
with_sum = record {
  cells = Sparse.set [] 0 (some sum_cell);
  cell_value_fields = "sum" ∷ [];
  cell_access_timestamps = (0, 1) ∷ [];
  cell_serialized_sizes = (0, 10) ∷ [];
  access_counter = 1;
  cache_size = 10;
  settings = record { max_cache_entries = none; max_cache_size_mb = none };
}

abbrev no_query : JsMap (List (ℕ × ℕ)) → List ℕ → ℕ → Result (CellRows ℕ)
no_query tuples items w = throw type_error

serve_all-begun_example : IsServed tuple_source ("sum" ∷ []) with_sum.cells (record {
  available_cells = (0, sum_cell) ∷ [];
  tuples_to_query = (1, (0, 1) ∷ []) ∷ [];
  cells_axis_items_to_fetch = 0 ∷ [];
})
unfolding serve_all Sparse.set Sparse.get JsMap.set get_cell_index Dict.get
serve_all-begun_example =
    serve_all-begun tuple_source ("sum" ∷ []) with_sum.cells ((0 ∷ []) ∷ (1 ∷ []) ∷ []) 0 1 _ refl

get_cells-cached_example :
    (available : JsMap (Cell ℕ)) × (get_cells
        (λ k c. 10)
        tuple_source
        no_query
        ("sum" ∷ [])
        0
        with_sum
        ((0, 1) ∷ [])
      ≡ (0, with_sum, ok (some available)))
    × ((indices : List ℕ)
        → In indices ((0 ∷ []) ∷ [])
        → JsMap.get available (index_of tuple_source ("sum" ∷ []) with_sum.cells 0 indices)
          ≡ Sparse.get with_sum.cells (index_of tuple_source ("sum" ∷ []) with_sum.cells 0 indices))
unfolding ensure_tuples_ready_for_ranges get_tuple_ranges all_complete Sparse.set Sparse.get
    get_cell_index has_value Dict.get
get_cells-cached_example =
    get_cells-cached (λ k c. 10) tuple_source no_query "sum" [] 0 0 with_sum ((0, 1) ∷ [])
      ((0 ∷ []) ∷ []) refl refl refl
