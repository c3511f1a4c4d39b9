-- ===== src/DataSet/CellSet.antt =====
-- src/DataSet/CellSet.js: the coordinates of cells, and the cache of their values, with the
-- eviction of the cell that was accessed longest ago. Proofs are in the modules below.
pub mod Index
pub mod Ranges
pub mod Address
pub mod Cache
pub mod Rows
pub mod Eviction
pub mod Fetch
pub mod Serving
pub mod Cached
mod Tests
use huey.Base.{
  ℕ, zero, suc, ◌+◌, ◌-◌, Bool, true, false, ◌||◌, Option, none, some, List, [], ◌∷◌, ◌++◌, String,
  length, ltb, ◌==◌, if◌then◌else◌,
}
use text.Mathlib.Text.{◌==◌ as str_eq}
use huey.Base.JsMap
use huey.Base.JsMap.{JsMap}
use huey.Base.Sparse
use huey.Base.Sparse.{Sparse}
use huey.Base.Dict
use huey.Base.Dict.{Dict}
use huey.DataSet.Limits.{CacheSettings, get_max_cache_entries, get_max_cache_size_bytes}

-- `JSON.stringify({}).length`, and the length of what separates two entries.
abbrev pub empty_cache_size : ℕ
empty_cache_size = 2

abbrev pub serialized_entry_separator_size : ℕ
serialized_entry_separator_size = 1

pub record Cell (V : Type 0) : Type 0 where
  pub values : Dict V

-- The private fields; `cell_value_fields` holds the names of the fields that were met.
pub record CellSet (V : Type 0) : Type 0 where
  pub cells : Sparse (Cell V)
  pub cell_value_fields : List String
  pub cell_access_timestamps : JsMap ℕ
  pub cell_serialized_sizes : JsMap ℕ
  pub access_counter : ℕ
  pub cache_size : ℕ
  pub settings : CacheSettings

module _ {V : Type 0} where
  unfoldable pub clear : CellSet V → CellSet V
  clear s = record s {
    cells = [];
    cell_value_fields = [];
    cell_access_timestamps = [];
    cell_serialized_sizes = [];
    access_counter = 0;
    cache_size = empty_cache_size;
  }

  unfoldable pub touch_cell : CellSet V → ℕ → CellSet V
  touch_cell s cell_index = record s {
    access_counter = s.access_counter + 1;
    cell_access_timestamps = JsMap.set s.cell_access_timestamps cell_index (s.access_counter + 1);
  }

  unfoldable pub remove_cell : CellSet V → ℕ → CellSet V
  remove_cell s cell_index = elim (JsMap.get s.cell_serialized_sizes cell_index) [
    | none ↦ record s {
      cells = Sparse.set s.cells cell_index none;
      cell_access_timestamps = JsMap.delete s.cell_access_timestamps cell_index;
    }
    | some serialized_size ↦ record s {
      cache_size =
          if length s.cell_serialized_sizes == 1
          then empty_cache_size
          else s.cache_size - (serialized_size - serialized_entry_separator_size);
      cell_serialized_sizes = JsMap.delete s.cell_serialized_sizes cell_index;
      cells = Sparse.set s.cells cell_index none;
      cell_access_timestamps = JsMap.delete s.cell_access_timestamps cell_index;
    }
  ]

  -- The test of the loop of `#enforceCacheLimits`.
  unfoldable pub over_limits : CellSet V → Bool
  over_limits s =
      ltb (get_max_cache_entries s.settings) (length s.cell_access_timestamps)
      || ltb (get_max_cache_size_bytes s.settings) s.cache_size

-- `forEach` over the timestamps: the first cell with the least one, `none` standing for Infinity.
unfoldable pub oldest : JsMap ℕ → Option (ℕ × ℕ) → Option (ℕ × ℕ)
oldest [] best = best
oldest ((index, access) ∷ rest) none = oldest rest (some (index, access))
oldest ((index, access) ∷ rest) (some (best, least)) =
    oldest rest (if ltb access least then some (index, access) else some (best, least))

unfoldable pub has_name : String → List String → Bool
has_name name [] = false
has_name name (first ∷ names) = str_eq first name || has_name name names

unfoldable pub add_names : List String → List String → List String
unfolding has_name
add_names [] known = known
add_names (name ∷ names) known =
    add_names names (if has_name name known then known else known ++ name ∷ [])

module _ {V : Type 0} where
  unfoldable pub evict : ℕ → CellSet V → CellSet V
  evict zero s = s
  evict (suc fuel) s = elim (over_limits s) [
    | false ↦ s
    | true ↦ elim (oldest s.cell_access_timestamps none) [
      | none ↦ s
      | some found ↦ evict fuel (remove_cell s found.0)
    ]
  ]

  unfoldable pub enforce_cache_limits : CellSet V → CellSet V
  unfolding evict oldest
  enforce_cache_limits s = evict (suc (length s.cell_access_timestamps)) s

  -- `cells[cellIndex]`, or a new cell without values, stored.
  unfoldable pub ensure_cell : CellSet V → ℕ → CellSet V
  ensure_cell s cell_index = elim (Sparse.get s.cells cell_index) [
    | none ↦ record s { cells = Sparse.set s.cells cell_index (some (record { values = [] })) }
    | some cell ↦ s
  ]

  -- `cell.values[fieldName] = row[fieldName]` for the fields behind the first. The cell is the one
  -- that the cache holds.
  unfoldable pub set_values : List String → (String → V) → Dict V → Dict V
  set_values [] row values = values
  set_values (field ∷ fields) row values = set_values fields row (Dict.set values field (row field))

  -- The fields of a row that were not met before are noted.
  unfoldable pub note_fields : List String → CellSet V → CellSet V
  unfolding add_names
  note_fields names s = record s { cell_value_fields = add_names names s.cell_value_fields }

  unfoldable pub values_at : CellSet V → ℕ → Dict V
  values_at s cell_index = elim (Sparse.get s.cells cell_index) [
    | none ↦ []
    | some cell ↦ cell.values
  ]

-- `json_cell_size index cell` is the length of the JSON text of `{[index]: cell}`.
module _ {V : Type 0} (json_cell_size : ℕ → Cell V → ℕ) where
  unfoldable pub update_cell_cache_size : CellSet V → ℕ → CellSet V
  unfolding values_at
  update_cell_cache_size s cell_index =
      let serialized_size =
        json_cell_size cell_index (record { values = values_at s cell_index }) in
      let size : ℕ = elim (JsMap.get s.cell_serialized_sizes cell_index) [
        | some current ↦ s.cache_size + serialized_size - current
        | none ↦
            if length s.cell_serialized_sizes == 0
            then serialized_size
            else s.cache_size + serialized_size - serialized_entry_separator_size
      ] in
      record s {
        cache_size = size;
        cell_serialized_sizes = JsMap.set s.cell_serialized_sizes cell_index serialized_size;
      }

  -- One row of `#extractCellsFromResultset`: the cell is found or made, touched, filled, measured.
  unfoldable pub extract_row : List String → ℕ → (String → V) → CellSet V → CellSet V
  unfolding ensure_cell set_values update_cell_cache_size
  extract_row fields cell_index row s =
      let touched = touch_cell (ensure_cell s cell_index) cell_index in
      let filled = record touched {
        cells =
            Sparse.set touched.cells cell_index
              (some (record { values = set_values fields row (values_at touched cell_index) }));
      } in
      update_cell_cache_size filled cell_index

  -- The rows with their cell indices; `index_field` is the name of the cell index column, and `fields`
  -- are the names behind it.
  unfoldable pub extract_rows :
      String → List String → List (ℕ × (String → V)) → CellSet V → CellSet V
  unfolding extract_row note_fields
  extract_rows index_field fields [] s = s
  extract_rows index_field fields ((cell_index, row) ∷ rows) s =
      extract_rows index_field fields rows
        (extract_row fields cell_index row (note_fields (index_field ∷ fields) s))

  unfoldable pub extract_cells :
      String → List String → List (ℕ × (String → V)) → CellSet V → CellSet V
  unfolding extract_rows
  extract_cells index_field fields rows s =
      enforce_cache_limits (extract_rows index_field fields rows s)
