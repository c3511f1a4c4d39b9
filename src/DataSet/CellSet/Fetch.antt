-- ===== src/DataSet/CellSet/Fetch.antt =====
-- CellSet.js, `getCells`: cells that are complete in the cache are served from it, the others are
-- queried. `W` is the state of the tuple sets, which `getCells` reads through their methods.
use huey.Base.{
  ℕ, suc, ◌-◌, Bool, true, false, ◌||◌, Option, none, some, List, [], ◌∷◌, ◌++◌, String, is_some,
  get_elem?, leb, ◌==◌, if◌then◌else◌,
}
use huey.Base.Result.{Result, ok, throw, type_error}
use huey.Base.JsMap
use huey.Base.JsMap.{JsMap}
use huey.Base.Sparse
use huey.Base.Sparse.{Sparse}
use huey.Base.Dict
use huey.DataSet.CellSet.{Cell, CellSet, values_at, extract_rows, enforce_cache_limits}
use huey.DataSet.CellSet.Index.{get_cell_index}
use huey.DataSet.CellSet.Ranges.{AxisInfo, get_tuple_ranges}

-- What `getCells` calls of the tuple sets: the counts, `getTupleSync(index)`, and
-- `getTuples(count, offset)`, of the tuple set at a position.
pub record TupleSets (W T : Type 0) : Type 0 where
  pub axes : W → List AxisInfo
  pub get_tuple_sync : W → ℕ → ℕ → W × Option T
  pub get_tuples : W → ℕ → ℕ → ℕ → W × Result (List (Option T))

unfoldable pub tuple_counts : List AxisInfo → List (Option ℕ)
tuple_counts [] = []
tuple_counts (axis ∷ axes) = axis.tuple_count ∷ tuple_counts axes

unfoldable pub has_position : ℕ → List ℕ → Bool
has_position j [] = false
has_position j (i ∷ positions) =
    let rest = has_position j positions in if i == j then true else rest

module _ {V : Type 0} where
  unfoldable pub has_value : Option (Cell V) → String → Bool
  has_value none sql = false
  has_value (some cell) sql = is_some (Dict.get cell.values sql)

  -- The loop over the items of the cells axis, given by their SQL texts: a cell that lacks a value
  -- is no longer a cell, and the items that it lacks, with all behind, are to be fetched.
  unfoldable pub scan_items : Option (Cell V) → List String → ℕ → List ℕ → Option (Cell V) × List ℕ
  unfolding has_value has_position
  scan_items cell [] j to_fetch = (cell, to_fetch)
  scan_items cell (sql ∷ items) j to_fetch =
      let has = has_value cell sql in
      scan_items (if has then cell else none) items (suc j)
        (if has || has_position j to_fetch then to_fetch else to_fetch ++ j ∷ [])

-- What the loop over the combinations has found.
pub record Progress (V T : Type 0) : Type 0 where
  pub available_cells : JsMap (Cell V)
  pub tuples_to_query : JsMap (List (ℕ × T))
  pub cells_axis_items_to_fetch : List ℕ

module _ {W T : Type 0} (tuple_sets : TupleSets W T) where
  -- `tupleSet.getTuples(1, tupleIndex)`, and the first tuple of the answer, or the cached one.
  unfoldable pub fetch_tuple : W → ℕ → ℕ → W × Result (Option T)
  fetch_tuple w j tuple_index =
      let (w', answer) = tuple_sets.get_tuples w j 1 tuple_index in
      elim answer as (λ x. W × Result (Option T)) [
        | throw e ↦ (w', throw e)
        | ok [] ↦ let (w'', tuple) = tuple_sets.get_tuple_sync w' j tuple_index in (w'', ok tuple)
        | ok (tuple ∷ tuples) ↦ (w', ok tuple)
      ]

  -- The tuple of one axis; none of an axis without items or with no tuples.
  unfoldable pub tuple_for_cell : W → ℕ → ℕ → W × Result (Option T)
  unfolding fetch_tuple
  tuple_for_cell w j tuple_index =
      let (w', tuple) = tuple_sets.get_tuple_sync w j tuple_index in
      elim tuple as (λ x. W × Result (Option T)) [
        | some t ↦ (w', ok (some t))
        | none ↦ elim (get_elem? (tuple_sets.axes w') j) as (λ x. W × Result (Option T)) [
          | none ↦ (w', throw type_error)
          | some axis ↦
              let empty : Bool = elim axis.tuple_count [ none ↦ false | some n ↦ n == 0 ] in
              if (axis.item_count == 0) || empty
              then (w', ok none)
              else fetch_tuple w' j tuple_index
        ]
      ]

  unfoldable pub tuples_for_cell : W → ℕ → List ℕ → W × Result (List (ℕ × T))
  unfolding tuple_for_cell
  tuples_for_cell w j [] = (w, ok [])
  tuples_for_cell w j (tuple_index ∷ indices) =
      let (w', first) = tuple_for_cell w j tuple_index in
      elim first as (λ x. W × Result (List (ℕ × T))) [
        | throw e ↦ (w', throw e)
        | ok tuple ↦
            let (w'', rest) = tuples_for_cell w' (suc j) indices in
            elim rest as (λ x. W × Result (List (ℕ × T))) [
              | throw e ↦ (w'', throw e)
              | ok tuples ↦ elim tuple as (λ x. W × Result (List (ℕ × T))) [
                | none ↦ (w'', ok tuples)
                | some t ↦ (w'', ok ((j, t) ∷ tuples))
              ]
            ]
      ]

  -- `#ensureTuplesReadyForRanges`: every tuple set is asked, and the first error is thrown.
  unfoldable pub ensure_tuples_ready_for_ranges :
      W → ℕ → List AxisInfo → List (ℕ × ℕ) → W × Result (Unit {0})
  ensure_tuples_ready_for_ranges w i [] ranges = (w, ok tt)
  ensure_tuples_ready_for_ranges w i (axis ∷ axes) [] = (w, ok tt)
  ensure_tuples_ready_for_ranges w i (axis ∷ axes) ((from, to) ∷ ranges) =
      let asked : W × Result (List (Option T)) =
        if axis.item_count == 0
        then (w, ok [])
        else tuple_sets.get_tuples w i (if leb to from then 1 else to - from) from in
      let (w', rest) = ensure_tuples_ready_for_ranges asked.0 (suc i) axes ranges in
      elim asked.1 as (λ x. W × Result (Unit {0})) [
        | throw e ↦ (w', throw e)
        | ok tuples ↦ (w', rest)
      ]

module _ {V W T : Type 0} (tuple_sets : TupleSets W T) (items : List String)
    (cells : Sparse (Cell V)) where
  -- The tuples that were found are noted for the query, if there are any.
  unfoldable pub note_tuples :
      Progress V T → ℕ → List ℕ → W × Result (List (ℕ × T)) → W × Result (Progress V T)
  note_tuples p cell_index to_fetch (w, throw e) = (w, throw e)
  note_tuples p cell_index to_fetch (w, ok []) =
      (w, ok (record p { cells_axis_items_to_fetch = to_fetch }))
  note_tuples p cell_index to_fetch (w, ok (t ∷ tuples)) = (
    w,
    ok (record p {
      tuples_to_query = JsMap.set p.tuples_to_query cell_index (t ∷ tuples);
      cells_axis_items_to_fetch = to_fetch;
    }),
  )

  -- What is done with the cell and the items to fetch that the loop over the items leaves.
  unfoldable pub serve_cell :
      W → Progress V T → ℕ → List ℕ → Option (Cell V) × List ℕ → W × Result (Progress V T)
  unfolding note_tuples tuples_for_cell
  serve_cell w p cell_index indices (some cell, to_fetch) = (
    w,
    ok (record p {
      available_cells = JsMap.set p.available_cells cell_index cell;
      cells_axis_items_to_fetch = to_fetch;
    }),
  )
  serve_cell w p cell_index indices (none, to_fetch) =
      note_tuples p cell_index to_fetch (tuples_for_cell tuple_sets w 0 indices)

  -- One combination of tuples.
  unfoldable pub serve : W → Progress V T → List ℕ → W × Result (Progress V T)
  unfolding scan_items serve_cell tuple_counts
  serve w p indices =
      let cell_index = get_cell_index indices (tuple_counts (tuple_sets.axes w)) in
      serve_cell w p cell_index indices
        (scan_items (Sparse.get cells cell_index) items 0 p.cells_axis_items_to_fetch)

  unfoldable pub serve_all : W → Progress V T → List (List ℕ) → W × Result (Progress V T)
  unfolding serve
  serve_all w p [] = (w, ok p)
  serve_all w p (indices ∷ combinations) =
      let (w', result) = serve w p indices in
      elim result as (λ x. W × Result (Progress V T)) [
        | throw e ↦ (w', throw e)
        | ok p' ↦ serve_all w' p' combinations
      ]

-- What the cells query answers: the name of the column with the cell indices, the names of the
-- others, and the rows with their cell indices.
pub record CellRows (V : Type 0) : Type 0 where
  pub index_field : String
  pub fields : List String
  pub rows : List (ℕ × (String → V))

-- `Object.assign(availableCells, newCells)`: a cell has the values that it has when all rows are read.
unfoldable pub assign_cells :
    {V : Type 0} → JsMap (Cell V) → CellSet V → List (ℕ × (String → V)) → JsMap (Cell V)
unfolding values_at
assign_cells available read [] = available
assign_cells available read ((cell_index, row) ∷ rows) =
    assign_cells (JsMap.set available cell_index (record { values = values_at read cell_index }))
      read rows

module _ {V W T : Type 0} (json_cell_size : ℕ → Cell V → ℕ) (tuple_sets : TupleSets W T)
    (execute_cells_query : JsMap (List (ℕ × T)) → List ℕ → W → Result (CellRows V)) where
  unfoldable pub query_cells :
      W → CellSet V → Progress V T → W × CellSet V × Result (Option (JsMap (Cell V)))
  unfolding extract_rows assign_cells
  query_cells w s p =
      elim p.cells_axis_items_to_fetch as (λ x. W × CellSet V × Result (Option (JsMap (Cell V)))) [
        | [] ↦ (w, s, ok (some p.available_cells))
        | item ∷ to_fetch ↦
            elim (execute_cells_query p.tuples_to_query (item ∷ to_fetch) w)
              as (λ x. W × CellSet V × Result (Option (JsMap (Cell V)))) [
                | throw e ↦ (w, s, throw e)
                | ok answer ↦
                    let read =
                      extract_rows json_cell_size answer.index_field answer.fields answer.rows s in
                    (
                      w,
                      enforce_cache_limits read,
                      ok (some (assign_cells p.available_cells read answer.rows)),
                    )
              ]
      ]

  abbrev pub Outcome : Type 0
  Outcome = W × CellSet V × Result (Option (JsMap (Cell V)))

  -- The rest of `getCells` behind the loop over the combinations, behind `getTupleRanges`, and
  -- behind `#ensureTuplesReadyForRanges`.
  unfoldable pub after_serving : CellSet V → W × Result (Progress V T) → Outcome
  unfolding query_cells
  after_serving s (w, throw e) = (w, s, throw e)
  after_serving s (w, ok p) = query_cells w s p

  unfoldable pub after_ranges : List String → W → CellSet V → Result (List (List ℕ)) → Outcome
  unfolding after_serving serve_all
  after_ranges items w s (throw e) = (w, s, throw e)
  after_ranges items w s (ok combinations) = after_serving s (
      serve_all tuple_sets items s.cells w
        (record { available_cells = []; tuples_to_query = []; cells_axis_items_to_fetch = [] })
        combinations)

  unfoldable pub after_ready :
      List String → CellSet V → List (ℕ × ℕ) → W × Result (Unit {0}) → Outcome
  unfolding after_ranges get_tuple_ranges
  after_ready items s ranges (w, throw e) = (w, s, throw e)
  after_ready items s ranges (w, ok _) =
      after_ranges items w s (get_tuple_ranges (tuple_sets.axes w) ranges [] [])

  -- `items` are the SQL texts of the items of the cells axis; `undefined` is `none`.
  unfoldable pub get_cells : List String → W → CellSet V → List (ℕ × ℕ) → Outcome
  unfolding ensure_tuples_ready_for_ranges after_ready
  get_cells [] w s ranges = (w, s, ok none)
  get_cells (item ∷ items) w s ranges =
      after_ready (item ∷ items) s ranges
        (ensure_tuples_ready_for_ranges tuple_sets w 0 (tuple_sets.axes w) ranges)
