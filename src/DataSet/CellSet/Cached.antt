-- ===== src/DataSet/CellSet/Cached.antt =====
-- CellSet.js, `getCells` when the cache has every cell that is asked for.
use huey.Base.{
  ℕ, ◌≡◌, refl, sym, ap, ◌∙◌, true, some, List, [], ◌∷◌, String, ◌==◌, arith, ==_iff, Bool-cases,
  Option-cases, inl, inr,
}
use huey.Base.Result.{Result, ok}
use huey.Base.JsMap
use huey.Base.JsMap.{JsMap}
use huey.Base.Sparse
use huey.Base.Sparse.{Sparse}
use huey.DataSet.CellSet.{Cell, CellSet}
use huey.DataSet.CellSet.Ranges.{get_tuple_ranges}
use huey.DataSet.CellSet.Address.{In}
use huey.DataSet.CellSet.Fetch.{
  TupleSets, CellRows, Progress, serve_all, ensure_tuples_ready_for_ranges, query_cells,
  after_ready, after_ranges, after_serving, get_cells,
}
use huey.DataSet.CellSet.Serving.{
  index_of, all_complete, collect_cells, begun, no_values, serve_all_complete,
}

module _ {V W T : Type 0} (tuple_sets : TupleSets W T) (items : List String)
    (cells : Sparse (Cell V)) (w : W) where
  collect_cells-keeps :
      (combinations : List (List ℕ)) (available : JsMap (Cell V)) (k : ℕ)
      → JsMap.get available k ≡ Sparse.get cells k
      → JsMap.get (collect_cells tuple_sets items cells w available combinations) k
        ≡ Sparse.get cells k
  unfolding collect_cells
  collect_cells-keeps [] available k h = h
  collect_cells-keeps (indices ∷ combinations) available k h =
      let i = index_of tuple_sets items cells w indices in
      elim (Option-cases (Sparse.get cells i)) [
        | inl gone ↦ rw (gone, collect_cells) (collect_cells-keeps combinations available k h)
        | inr (cell, there) ↦
            rw (there, collect_cells)
              (collect_cells-keeps combinations (JsMap.set available i cell) k
                (set_keeps i cell there))
      ]
    where
      set_keeps :
          (i : ℕ) (cell : Cell V)
          → Sparse.get cells i ≡ some cell
          → JsMap.get (JsMap.set available i cell) k ≡ Sparse.get cells k
      set_keeps i cell there = elim (Bool-cases (i == k)) [
        | inl here ↦
            ground (arith, here, JsMap.get-set available i k cell)
            ∙ sym there
            ∙ ap (Sparse.get cells) ((==_iff i k).0 here)
        | inr other ↦ ground (arith, other, h, JsMap.get-set available i k cell)
      ]

  collect_cells-In :
      (combinations : List (List ℕ)) (available : JsMap (Cell V)) (indices : List ℕ)
      → all_complete tuple_sets items cells w combinations ≡ true
      → In indices combinations
      → JsMap.get
          (collect_cells tuple_sets items cells w available combinations)
          (index_of tuple_sets items cells w indices)
        ≡ Sparse.get cells (index_of tuple_sets items cells w indices)
  unfolding collect_cells all_complete
  collect_cells-In [] available indices h i = elim i [ ]
  collect_cells-In (first ∷ combinations) available indices h i =
      let k = index_of tuple_sets items cells w first in
      elim (Option-cases (Sparse.get cells k)) [
        | inl gone ↦ absurd (no_values tuple_sets items cells gone (ground arith))
        | inr (cell, there) ↦
            rw (there, collect_cells)
              (elim i [
                | inr later ↦
                    collect_cells-In combinations (JsMap.set available k cell) indices
                      (ground arith) later
                | inl now ↦
                    collect_cells-keeps combinations (JsMap.set available k cell)
                      (index_of tuple_sets items cells w indices)
                      (ground (
                        arith,
                        there,
                        ap (index_of tuple_sets items cells w) now,
                        JsMap.get-set available k k cell,
                      ))
              ])
      ]

module _ {V W T : Type 0} (json_cell_size : ℕ → Cell V → ℕ) (tuple_sets : TupleSets W T)
    (execute_cells_query : JsMap (List (ℕ × T)) → List ℕ → W → Result (CellRows V)) where
  get_cells-served :
      (item : String) (items : List String) (w w' : W) (s : CellSet V) (ranges : List (ℕ × ℕ))
      (combinations : List (List ℕ)) (p : Progress V T)
      → ensure_tuples_ready_for_ranges tuple_sets w 0 (tuple_sets.axes w) ranges ≡ (w', ok tt)
      → get_tuple_ranges (tuple_sets.axes w') ranges [] [] ≡ ok combinations
      → serve_all tuple_sets
          (item ∷ items)
          s.cells
          w'
          (begun tuple_sets (item ∷ items) s.cells)
          combinations
        ≡ (w', ok p)
      → p.cells_axis_items_to_fetch ≡ []
      → get_cells json_cell_size tuple_sets execute_cells_query (item ∷ items) w s ranges
        ≡ (w', s, ok (some p.available_cells))
  unfolding get_cells after_ready after_ranges after_serving query_cells
  get_cells-served item items w w' s ranges combinations p ready found all nothing =
      ap
        (λ (r : W × Result (Unit {0})).
          after_ready json_cell_size tuple_sets execute_cells_query (item ∷ items) s ranges r)
        ready
      ∙ ap
          (λ (r : Result (List (List ℕ))).
            after_ranges json_cell_size tuple_sets execute_cells_query (item ∷ items) w' s r)
          found
      ∙ ap
          (λ (r : W × Result (Progress V T)).
            after_serving json_cell_size tuple_sets execute_cells_query s r)
          all
      ∙ rw (nothing, query_cells) refl

  -- When the tuples of the ranges can be read, and the cache has for each combination of the
  -- ranges a cell with a value for each item of the cells axis: `getCells` returns, for each
  -- combination, the cell that the cache holds; it sends no query, whatever a query would
  -- answer, and leaves the cell cache as it was.
  pub get_cells-cached :
      (item : String) (items : List String) (w w' : W) (s : CellSet V) (ranges : List (ℕ × ℕ))
      (combinations : List (List ℕ))
      → ensure_tuples_ready_for_ranges tuple_sets w 0 (tuple_sets.axes w) ranges ≡ (w', ok tt)
      → get_tuple_ranges (tuple_sets.axes w') ranges [] [] ≡ ok combinations
      → all_complete tuple_sets (item ∷ items) s.cells w' combinations ≡ true
      → (available : JsMap (Cell V)) × (get_cells json_cell_size tuple_sets execute_cells_query
            (item ∷ items)
            w
            s
            ranges
          ≡ (w', s, ok (some available)))
        × ((indices : List ℕ)
            → In indices combinations
            → JsMap.get available (index_of tuple_sets (item ∷ items) s.cells w' indices)
              ≡ Sparse.get s.cells (index_of tuple_sets (item ∷ items) s.cells w' indices))
  get_cells-cached item items w w' s ranges combinations ready found complete =
      let all_items = item ∷ items in
      let start = begun tuple_sets all_items s.cells in
      let available = collect_cells tuple_sets all_items s.cells w' [] combinations in
      (
        available,
        get_cells-served item items w w' s ranges combinations
            (record start { available_cells = available }) ready found
            (serve_all_complete tuple_sets all_items s.cells combinations w' start complete) refl,
        λ indices i.
            collect_cells-In tuple_sets all_items s.cells w' combinations [] indices complete i,
      )
