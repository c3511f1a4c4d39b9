-- ===== src/DataSet/CellSet/Rows.antt =====
-- CellSet.js, `#extractCellsFromResultset`: a row that is read keeps the cache invariant.
use huey.Base.{
  ℕ, ◌+◌, ◌-◌, ◌*◌, ◌≤◌, ◌≡◌, refl, sym, subst, true, none, some, List, [], ◌∷◌, String, arith,
  length, is_some, Option-cases, inl, inr, ◌==◌, if◌then◌else◌,
}
use huey.Base.JsMap
use huey.Base.JsMap.{JsMap, IsUnique}
use huey.Base.Sparse
use huey.Base.Sparse.{Sparse}
use huey.DataSet.Sizes.{
  size_at, sum_over, sum_over-append, sum_over-empty, sum_over-set_size, sum_over-delete,
  get-delete_self,
}
use huey.DataSet.CellSet.{
  Cell, CellSet, touch_cell, ensure_cell, set_values, values_at, update_cell_cache_size,
  extract_row, extract_rows, note_fields,
}
use huey.DataSet.CellSet.Cache.{IsConsistent, braced_at, sum_over-braced, sum_over-set}

-- The JSON text of a cell stands in braces.
module _ {V : Type 0} (json_cell_size : ℕ → Cell V → ℕ)
    (braces : (k : ℕ) (cell : Cell V) → 2 ≤ json_cell_size k cell) where
  -- The size that `updateCellCacheSize` records after a cell is filled, and the two maps.
  row-total :
      (s : CellSet V) (k n : ℕ)
      → IsConsistent s
      → 2 ≤ n
      → (elim (JsMap.get s.cell_serialized_sizes k) as (λ o. ℕ) [
        | some current ↦ s.cache_size + n - current
        | none ↦ if length s.cell_serialized_sizes == 0 then n else s.cache_size + n - 1
      ])
          + 2 * length (JsMap.set s.cell_access_timestamps k (s.access_counter + 1))
        ≡ 2
          + sum_over
              (JsMap.set s.cell_serialized_sizes k n)
              (JsMap.set s.cell_access_timestamps k (s.access_counter + 1))
          + (length (JsMap.set s.cell_access_timestamps k (s.access_counter + 1)) - 1)
  unfolding size_at sum_over
  row-total s k n c h =
      let stamps = s.cell_access_timestamps in
      let sizes = s.cell_serialized_sizes in
      let now = s.access_counter + 1 in
      elim (Option-cases (JsMap.get stamps k)) [
        | inl e ↦ ground (
          arith,
          c.total,
          c.same_length,
          c.sized k,
          sum_over-empty sizes stamps,
          JsMap.set_absent stamps k now e,
          JsMap.length-set_absent stamps k now e,
          sum_over-append (JsMap.set sizes k n) stamps ((k, now) ∷ []),
          sum_over-set_size sizes k n stamps e,
          JsMap.get-set sizes k k n,
          sum_over-braced sizes stamps (braced_at s c) c.stamps_unique,
        )
        | inr (a, e) ↦ elim (Option-cases (JsMap.get sizes k)) [
          | inl f ↦ absurd (ground (arith, c.sized k))
          | inr (old, f) ↦ ground (
            arith,
            c.total,
            JsMap.length-set_present stamps k now a e,
            JsMap.length-delete stamps k a c.stamps_unique e,
            sum_over-set (JsMap.set sizes k n) stamps k now a e,
            sum_over-delete (JsMap.set sizes k n) k a stamps c.stamps_unique e,
            sum_over-delete sizes k a stamps c.stamps_unique e,
            sum_over-set_size sizes k n (JsMap.delete stamps k) (get-delete_self stamps k),
            JsMap.get-set sizes k k n,
            sum_over-braced sizes (JsMap.delete stamps k)
                (λ j h. braced_at s c j (ground (arith, JsMap.get-delete stamps k j)))
                (JsMap.delete-IsUnique stamps k c.stamps_unique),
          )
        ]
      ]

  row-same_length :
      (s : CellSet V) (k n v : ℕ)
      → IsConsistent s
      → length (JsMap.set s.cell_serialized_sizes k n)
        ≡ length (JsMap.set s.cell_access_timestamps k v)
  row-same_length s k n v c = elim (Option-cases (JsMap.get s.cell_access_timestamps k)) [
    | inl e ↦ ground (
      arith,
      c.same_length,
      c.sized k,
      JsMap.length-set_absent s.cell_access_timestamps k v e,
      JsMap.length-set_absent s.cell_serialized_sizes k n,
    )
    | inr (a, e) ↦ elim (Option-cases (JsMap.get s.cell_serialized_sizes k)) [
      | inl f ↦ absurd (ground (arith, c.sized k))
      | inr (old, f) ↦ omega (
        arith,
        c.same_length,
        JsMap.length-set_present s.cell_access_timestamps k v a e,
        JsMap.length-set_present s.cell_serialized_sizes k n old f,
      )
    ]
  ]

  -- The cell at `k` is stored and touched, with whatever values, and then measured.
  measured-IsConsistent :
      (s : CellSet V) (k : ℕ) (cells : Sparse (Cell V))
      → IsConsistent s
      → ((j : ℕ)
          → is_some (Sparse.get cells j)
            ≡ (if k == j then true else is_some (Sparse.get s.cells j)))
      → IsConsistent
          (update_cell_cache_size json_cell_size (record (touch_cell s k) { cells = cells }) k)
  unfolding update_cell_cache_size touch_cell
  measured-IsConsistent s k cells c h =
      let filled : CellSet V = record (touch_cell s k) { cells = cells } in
      let n = json_cell_size k (record { values = values_at filled k }) in
      record {
        stamps_unique = JsMap.set-IsUnique s.cell_access_timestamps k _ c.stamps_unique;
        sizes_unique = JsMap.set-IsUnique s.cell_serialized_sizes k _ c.sizes_unique;
        sized = λ j. ground (
          arith,
          c.sized j,
          JsMap.get-set s.cell_access_timestamps k j (s.access_counter + 1),
          JsMap.get-set s.cell_serialized_sizes k j n,
        );
        stored = λ j. ground (
          arith,
          c.stored j,
          h j,
          JsMap.get-set s.cell_access_timestamps k j (s.access_counter + 1),
        );
        same_length = row-same_length s k n (s.access_counter + 1) c;
        braced = λ j m e. ground (
          arith,
          c.braced j m,
          JsMap.get-set s.cell_serialized_sizes k j n,
          braces k (record { values = values_at filled k }),
        );
        past = λ j m e.
            ground (
              arith,
              c.past j m,
              JsMap.get-set s.cell_access_timestamps k j (s.access_counter + 1),
            );
        total = row-total s k n c (braces k (record { values = values_at filled k }));
      }

  -- A cell that is made changes the cells only.
  ensure_cell-record :
      (s : CellSet V) (k : ℕ) → ensure_cell s k ≡ record s { cells = (ensure_cell s k).cells }
  unfolding ensure_cell
  ensure_cell-record s k = elim (Option-cases (Sparse.get s.cells k)) [
    | inl e ↦ rw (e, ensure_cell) refl
    | inr (old, e) ↦ rw (e, ensure_cell) refl
  ]

  get-ensure_cell :
      (s : CellSet V) (k j : ℕ)
      → is_some (Sparse.get (ensure_cell s k).cells j)
        ≡ (if k == j then true else is_some (Sparse.get s.cells j))
  unfolding ensure_cell
  get-ensure_cell s k j = elim (Option-cases (Sparse.get s.cells k)) [
    | inl e ↦
        rw (e, ensure_cell)
          (ground (arith, Sparse.get-set s.cells k j (some (record { values = [] }))))
    | inr (old, e) ↦ rw (e, ensure_cell) (ground arith)
  ]

  get-filled :
      (s : CellSet V) (k j : ℕ) (cell : Cell V)
      → is_some (Sparse.get (Sparse.set (ensure_cell s k).cells k (some cell)) j)
        ≡ (if k == j then true else is_some (Sparse.get s.cells j))
  get-filled s k j cell =
      ground (arith, get-ensure_cell s k j, Sparse.get-set (ensure_cell s k).cells k j (some cell))

  -- A row that is read keeps the cache consistent.
  pub extract_row-IsConsistent :
      (fields : List String) (k : ℕ) (row : String → V) (s : CellSet V)
      → IsConsistent s
      → IsConsistent (extract_row json_cell_size fields k row s)
  unfolding extract_row touch_cell
  extract_row-IsConsistent fields k row s c =
      subst
        (λ (r : CellSet V). IsConsistent (
          update_cell_cache_size json_cell_size
            (record (touch_cell r k) {
              cells =
                  Sparse.set r.cells k (
                    some
                      (record { values = set_values fields row (values_at (touch_cell r k) k) }));
            })
            k))
        (sym (ensure_cell-record s k)) (measured-IsConsistent s k _ c (λ j. get-filled s k j _))

  -- The names of fields are no part of the invariant.
  note_fields-IsConsistent :
      (names : List String) (s : CellSet V) → IsConsistent s → IsConsistent (note_fields names s)
  unfolding note_fields
  note_fields-IsConsistent names s c = record {
    stamps_unique = c.stamps_unique;
    sizes_unique = c.sizes_unique;
    sized = c.sized;
    stored = c.stored;
    same_length = c.same_length;
    braced = c.braced;
    past = c.past;
    total = c.total;
  }

  pub extract_rows-IsConsistent :
      (index_field : String) (fields : List String) (rows : List (ℕ × (String → V))) (s : CellSet V)
      → IsConsistent s
      → IsConsistent (extract_rows json_cell_size index_field fields rows s)
  unfolding extract_rows
  extract_rows-IsConsistent index_field fields [] s c = c
  extract_rows-IsConsistent index_field fields ((k, row) ∷ rows) s c =
      let noted = note_fields (index_field ∷ fields) s in
      extract_rows-IsConsistent index_field fields rows
        (extract_row json_cell_size fields k row noted)
        (extract_row-IsConsistent fields k row noted
          (note_fields-IsConsistent (index_field ∷ fields) s c))
