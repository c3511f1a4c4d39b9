-- ===== src/DataSet/TupleSet/Reach.antt =====
-- TupleSet.js: every public operation keeps the cache consistent, whatever the data source does.
use huey.Base.{
  ℕ, suc, ◌+◌, ◌≡◌, refl, Bool, true, not, ◌&&◌, Option, none, some, List, [], ◌∷◌, String, arith,
  ltb, ◌==◌, is_some, if◌then◌else◌, ◌⊎◌, inl, inr, Option-cases, Bool-cases,
}
use huey.Base.Result.{Result, ok, throw, Result-cases}
use text.Mathlib.Text.{◌==◌ as str_eq}
use huey.Base.JsMap
use huey.Base.Sparse
use huey.Base.Sparse.{Sparse}
use huey.DataSet.Limits.{CacheSettings}
use huey.DataSet.TupleSet.{
  Tuple, TupleSet, ResultSet, Backend, clear, touch_tuple, touch_cached, get_tuples_sync,
  get_tuple_sync, enforce_cache_limits, grouping_id_alias, cache_size,
}
use huey.DataSet.TupleSet.Load.{load_tuples, load_rows, begin_load, to_tuple}
use huey.DataSet.TupleSet.Paging.{
  clip_count, scan, fetch_count, run_axis_query, execute_axis_query, get_tuples,
}
use huey.DataSet.TupleSet.Cache.{
  IsConsistent, clear-IsConsistent, touch_tuple-IsConsistent, store-IsConsistent,
}
use huey.DataSet.TupleSet.Eviction.{enforce_cache_limits-EvictsOldest}
use huey.DataSet.TupleSet.Measured.{
  IsMeasured, text_size, cache_size-text_size, clear-IsMeasured, get_tuples_sync-IsMeasured,
  get_tuple_sync-IsMeasured, store-IsMeasured, enforce-IsMeasured,
}

module _ {V : Type 0} where
  abbrev pub empty : CacheSettings → TupleSet V
  empty settings = record {
    tuples = [];
    tuple_value_fields = [];
    tuple_serialized_sizes = [];
    tuple_cache_entry_size_total = 0;
    tuple_count = none;
    page_size = 50;
    tuple_access_order = [];
    settings = settings;
  }

  touch_stored-IsConsistent :
      (s : TupleSet V) (k : ℕ)
      → IsConsistent s
      → is_some (Sparse.get s.tuples k) ≡ true
      → IsConsistent (touch_tuple s k)
  touch_stored-IsConsistent s k c h = elim (Option-cases (JsMap.get s.tuple_access_order k)) [
    | inl e ↦ absurd (ground (arith, c.stored k))
    | inr (b, e) ↦ touch_tuple-IsConsistent s k b c e
  ]

  touch_cached-IsConsistent :
      (s : TupleSet V) (index : ℕ) (ts : Sparse (Tuple V))
      → IsConsistent s
      → ((i : ℕ) (t : Tuple V)
          → Sparse.get ts i ≡ some t
          → is_some (Sparse.get s.tuples (index + i)) ≡ true)
      → IsConsistent (touch_cached s index ts) × ((touch_cached s index ts).tuples ≡ s.tuples)
  unfolding touch_cached Sparse.get touch_tuple
  touch_cached-IsConsistent s index [] c h = (c, refl)
  touch_cached-IsConsistent s index (none ∷ ts) c h =
      touch_cached-IsConsistent s (suc index) ts c (λ i t e.
        let shift : index + suc i ≡ suc index + i = omega arith in rw (← shift) (h (suc i) t e))
  touch_cached-IsConsistent s index (some t ∷ ts) c h =
      let here : index + 0 ≡ index = omega arith in
      touch_cached-IsConsistent (touch_tuple s index) (suc index) ts
        (touch_stored-IsConsistent s index c (rw here at (h 0 t refl)))
        (λ i u e.
          let shift : index + suc i ≡ suc index + i = omega arith in rw (← shift) (h (suc i) u e))

  -- `getTuplesSync` on a consistent cache returns the slice of the cache, changes no tuple,
  -- and keeps the cache consistent.
  pub get_tuples_sync-IsConsistent :
      (s : TupleSet V) (from to : ℕ)
      → IsConsistent s
      → IsConsistent (get_tuples_sync s from to).0
        × ((get_tuples_sync s from to).0.tuples ≡ s.tuples)
        × ((i : ℕ)
            → Sparse.get (get_tuples_sync s from to).1 i
              ≡ (if ltb (from + i) to then Sparse.get s.tuples (from + i) else none))
  unfolding get_tuples_sync
  get_tuples_sync-IsConsistent s from to c =
      let (c', same) =
        touch_cached-IsConsistent s from (Sparse.slice s.tuples from to) c
          (λ i t e. ground (arith, Sparse.get-slice s.tuples from to i)) in
      (c', same, Sparse.get-slice s.tuples from to)

  get_tuple_sync-IsConsistent :
      (s : TupleSet V) (index : ℕ) → IsConsistent s → IsConsistent (get_tuple_sync s index).0
  unfolding get_tuple_sync
  get_tuple_sync-IsConsistent s index c = elim (Option-cases (Sparse.get s.tuples index)) [
    | inl e ↦ rw (e, get_tuple_sync) c
    | inr (t, e) ↦ rw (e, get_tuple_sync) (touch_stored-IsConsistent s index c (rw e))
  ]

-- What a client of the object calls; the data source may answer differently each time.
pub data Call (V : Type 0) : Type 0 where
  clear_cache : Call V
  read : ℕ → ℕ → Call V
  read_one : ℕ → Call V
  fetch : Backend V → ℕ → ℕ → Call V

module _ {V : Type 0} (json_key_size : ℕ → ℕ) (json_tuple_size : Tuple V → ℕ) (number_of : V → ℕ)
    (items : ℕ) where
  -- Consistent, with the sizes of the entries recorded.
  abbrev pub IsSound : TupleSet V → Type 0
  IsSound s = IsConsistent s × IsMeasured json_key_size json_tuple_size s

  load_rows-IsSound :
      (fields : List String) (grouped : Bool) (index : ℕ) (rows : List (String → V))
      (s : TupleSet V)
      → IsSound s
      → IsSound
          (load_rows json_key_size json_tuple_size number_of fields grouped items index rows s).0
  unfolding load_rows
  load_rows-IsSound fields grouped index [] s c = c
  load_rows-IsSound fields grouped index (row ∷ rows) s c =
      go (to_tuple number_of fields grouped items row) refl
        (load_rows-IsSound fields grouped (suc index) rows)
    where
      go :
          (r : Result (Tuple V))
          → to_tuple number_of fields grouped items row ≡ r
          → ((t : TupleSet V)
              → IsSound t
              → IsSound
                  (load_rows json_key_size json_tuple_size number_of fields grouped items
                    (suc index)
                    rows
                    t).0)
          → IsSound
              (load_rows json_key_size json_tuple_size number_of fields grouped items index
                (row ∷ rows)
                s).0
      go (throw e) h ih = rw (h, load_rows) c
      go (ok t) h ih =
          rw (h, load_rows)
            (ih _ (
              store-IsConsistent json_key_size json_tuple_size s index t c.0,
              store-IsMeasured json_key_size json_tuple_size s index t c.1,
            ))

  -- Where the rows are loaded, `#loadTuples` enforces the limits or has thrown.
  load_tuples_state :
      (first : String) (rest : List String) (rows : List (String → V)) (offset : ℕ)
      (total : Option ℕ) (s : TupleSet V)
      → let rs : ResultSet V = record { fields = first ∷ rest; rows = rows } in
        let loaded =
          (load_rows json_key_size json_tuple_size number_of
            (first ∷ rest)
            (str_eq first grouping_id_alias)
            items
            offset
            rows
            (begin_load number_of items first rest rs offset total s)).0 in
        ((load_tuples json_key_size json_tuple_size number_of items rs offset total s).0
          ≡ enforce_cache_limits loaded)
        ⊎ ((load_tuples json_key_size json_tuple_size number_of items rs offset total s).0 ≡ loaded)
  unfolding load_tuples
  load_tuples_state first rest rows offset total s =
      let rs : ResultSet V = record { fields = first ∷ rest; rows = rows } in
      elim (Result-cases
        (load_rows json_key_size json_tuple_size number_of (first ∷ rest)
          (str_eq first grouping_id_alias) items offset rows
          (begin_load number_of items first rest rs offset total s)).1) [
            | inl (a, e) ↦ inl (ground arith)
            | inr (x, e) ↦ inr (ground arith)
          ]

  begun-IsSound :
      (first : String) (rest : List String) (rs : ResultSet V) (offset : ℕ) (total : Option ℕ)
      (s : TupleSet V)
      → IsSound s
      → IsSound (begin_load number_of items first rest rs offset total s)
  unfolding begin_load
  begun-IsSound first rest rs offset total s (c, m) = (
    record {
      order_unique = c.order_unique;
      sizes_unique = c.sizes_unique;
      sized = c.sized;
      stored = c.stored;
      same_length = c.same_length;
      total = c.total;
    },
    record { recorded = m.recorded },
  )

  load_fields-IsSound :
      (fields : List String) (rows : List (String → V)) (offset : ℕ) (total : Option ℕ)
      (s : TupleSet V)
      → IsSound s
      → IsSound
          (load_tuples json_key_size json_tuple_size number_of items
            (record { fields = fields; rows = rows })
            offset
            total
            s).0
  unfolding load_tuples
  load_fields-IsSound [] rows offset total s c = c
  load_fields-IsSound (first ∷ rest) rows offset total s c =
      let rs : ResultSet V = record { fields = first ∷ rest; rows = rows } in
      let c' =
        load_rows-IsSound (first ∷ rest) (str_eq first grouping_id_alias) offset rows _
          (begun-IsSound first rest rs offset total s c) in
      elim (load_tuples_state first rest rows offset total s) [
        | inl e ↦ rw e (
          (enforce_cache_limits-EvictsOldest _ c'.0).1,
          enforce-IsMeasured json_key_size json_tuple_size _ c'.1,
        )
        | inr e ↦ rw e c'
      ]

  load_tuples-IsSound :
      (rs : ResultSet V) (offset : ℕ) (total : Option ℕ) (s : TupleSet V)
      → IsSound s
      → IsSound (load_tuples json_key_size json_tuple_size number_of items rs offset total s).0
  load_tuples-IsSound rs = load_fields-IsSound rs.fields rs.rows

  -- A query leaves the cache as it is, or loads a page.
  run_axis_query_state :
      (backend : Backend V) (limit offset : ℕ) (total : Option ℕ) (s : TupleSet V)
      → ((run_axis_query json_key_size json_tuple_size number_of backend items limit offset total
            s).0
          ≡ s)
        ⊎ ((rs : ResultSet V) × ((run_axis_query json_key_size json_tuple_size number_of backend
                items limit offset total s).0
              ≡ (load_tuples json_key_size json_tuple_size number_of items rs offset total s).0))
  unfolding run_axis_query
  run_axis_query_state backend limit offset total s =
      elim (Result-cases (backend.page limit offset)) [
        | inr (x, e) ↦ inl (ground arith)
        | inl (answer, e) ↦ elim (Option-cases answer) [
          | inl f ↦ inl (ground arith)
          | inr (rs, f) ↦ elim (Bool-cases backend.canceled) [
            | inl stop ↦ inl (ground arith)
            | inr go ↦
                elim (Result-cases
                  (load_tuples json_key_size json_tuple_size number_of items rs offset total s).1) [
                    | inl (a, r) ↦ inr (rs, ground arith)
                    | inr (x, r) ↦ inr (rs, ground arith)
                  ]
          ]
        ]
      ]

  run_axis_query-IsSound :
      (backend : Backend V) (limit offset : ℕ) (total : Option ℕ) (s : TupleSet V)
      → IsSound s
      → IsSound
          (run_axis_query json_key_size json_tuple_size number_of backend items limit offset total
            s).0
  run_axis_query-IsSound backend limit offset total s c =
      elim (run_axis_query_state backend limit offset total s) [
        | inl e ↦ rw e c
        | inr (rs, e) ↦ rw e (load_tuples-IsSound rs offset total s c)
      ]

  execute_axis_query-IsSound :
      (backend : Backend V) (limit offset : ℕ) (s : TupleSet V)
      → IsSound s
      → IsSound
          (execute_axis_query json_key_size json_tuple_size number_of backend items limit offset
            s).0
  unfolding execute_axis_query
  execute_axis_query-IsSound backend limit offset s c =
      elim (Bool-cases ((offset == 0) && not (is_some s.tuple_count))) [
        | inl e ↦ elim (Result-cases backend.count_rows) [
          | inr (x, h) ↦ rw (e, h) c
          | inl (answer, h) ↦ elim (Option-cases answer) [
            | inl f ↦ rw (e, h, f) c
            | inr (n, f) ↦ rw (e, h, f) (run_axis_query-IsSound backend limit offset (some n) s c)
          ]
        ]
        | inr e ↦ rw e (run_axis_query-IsSound backend limit offset none s c)
      ]

  get_tuples_state :
      (backend : Backend V) (s : TupleSet V) (count offset : ℕ)
      → ((get_tuples json_key_size json_tuple_size number_of backend items s count offset).0 ≡ s)
        ⊎ ((limit : ℕ) × (first : ℕ) × ((get_tuples json_key_size json_tuple_size number_of backend
                items s count offset).0
              ≡ (execute_axis_query json_key_size json_tuple_size number_of backend items limit
                  first s).0))
  unfolding get_tuples
  get_tuples_state backend s count offset =
      let n = clip_count s.tuple_count count offset in
      elim (Option-cases (scan s.tuples offset 0 n none []).0) [
        | inl e ↦ inl (ground arith)
        | inr ((first, last), e) ↦
            let limit = fetch_count s n offset first (suc last) in
            elim (Result-cases
              (execute_axis_query json_key_size json_tuple_size number_of backend items limit first
                s).1) [
                  | inl (a, r) ↦ inr (limit, first, ground arith)
                  | inr (x, r) ↦ inr (limit, first, ground arith)
                ]
      ]

  -- One call, and the cache that it leaves, also where it throws.
  pub call : TupleSet V → Call V → TupleSet V
  call s clear_cache = clear s
  call s (read from to) = (get_tuples_sync s from to).0
  call s (read_one index) = (get_tuple_sync s index).0
  call s (fetch backend count offset) =
      (get_tuples json_key_size json_tuple_size number_of backend items s count offset).0

  pub run : TupleSet V → List (Call V) → TupleSet V
  run s [] = s
  run s (c ∷ calls) = run (call s c) calls

  call-IsSound : (s : TupleSet V) (c : Call V) → IsSound s → IsSound (call s c)
  unfolding call
  call-IsSound s clear_cache h =
      (clear-IsConsistent s, clear-IsMeasured json_key_size json_tuple_size s)
  call-IsSound s (read from to) h = (
    (get_tuples_sync-IsConsistent s from to h.0).0,
    get_tuples_sync-IsMeasured json_key_size json_tuple_size s from to h.1,
  )
  call-IsSound s (read_one index) h = (
    get_tuple_sync-IsConsistent s index h.0,
    get_tuple_sync-IsMeasured json_key_size json_tuple_size s index h.1,
  )
  call-IsSound s (fetch backend count offset) h = elim (get_tuples_state backend s count offset) [
    | inl e ↦ rw e h
    | inr (limit, first, e) ↦ rw e (execute_axis_query-IsSound backend limit first s h)
  ]

  run-IsSound : (calls : List (Call V)) (s : TupleSet V) → IsSound s → IsSound (run s calls)
  unfolding run
  run-IsSound [] s h = h
  run-IsSound (c ∷ calls) s h = run-IsSound calls (call s c) (call-IsSound s c h)

  -- After any calls on a consistent cache, where the size recorded of each cached tuple is the
  -- length of its key, a colon and its JSON text, with a data source whose queries fail, are
  -- canceled or answer anything: the cache is consistent, the recorded sizes are still those
  -- lengths, and `cacheSize` is the length of an object with the cached tuples, two braces,
  -- the entries and the commas between them.
  pub run-IsConsistent :
      (calls : List (Call V)) (s : TupleSet V)
      → IsConsistent s
      → IsMeasured json_key_size json_tuple_size s
      → IsConsistent (run s calls)
        × IsMeasured json_key_size json_tuple_size (run s calls)
        × (cache_size (run s calls) ≡ text_size json_key_size json_tuple_size (run s calls))
  run-IsConsistent calls s c m =
      let (c', m') = run-IsSound calls s (c, m) in
      (c', m', cache_size-text_size json_key_size json_tuple_size (run s calls) c' m')
