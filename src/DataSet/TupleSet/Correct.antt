-- ===== src/DataSet/TupleSet/Correct.antt =====
-- TupleSet.js: what `getTuples` returns, against the rows of the axis query.
use huey.Base.{
  ℕ, zero, suc, ◌+◌, ◌-◌, ◌≡◌, ap, ◌∙◌, false, not, ◌&&◌, Option, none, some, List, [], ◌∷◌, String,
  arith, length, get_elem?, take, drop, ltb, leb, ◌==◌, is_some, if◌then◌else◌, inl, inr,
  Bool-cases, leb→le,
}
use text.Mathlib.Text.{◌==◌ as str_eq}
use huey.Base.Result.{ok}
use huey.Base.JsMap
use huey.Base.Sparse
use huey.Base.Sparse.{Sparse}
use huey.DataSet.TupleSet.{
  Tuple, TupleSet, ResultSet, Backend, grouping_id_alias, enforce_cache_limits,
}
use huey.DataSet.TupleSet.Load.{load_tuples, begin_load}
use huey.DataSet.TupleSet.Paging.{
  scan, clip_count, fetch_count, run_axis_query, execute_axis_query, get_tuples,
}
use huey.DataSet.TupleSet.Cache.{IsConsistent}
use huey.DataSet.TupleSet.Eviction.{enforce_cache_limits-EvictsOldest}
use huey.DataSet.TupleSet.Stored.{
  Converts, Converts-take, Converts-drop, get_elem?-page, store_all, store_all-IsConsistent,
  get-store_all, settings-store_all, load_rows-store_all,
}

-- The data source answers the axis query, whose whole result is `rows`, by pages.
pub record Serves {V : Type 0} (number_of : V → ℕ) (backend : Backend V) (items : ℕ)
    (rows : List (Tuple V)) : Type 0 where
  pub first : String
  pub rest : List String
  pub all : List (String → V)
  pub page :
      (limit offset : ℕ)
      → backend.page limit offset
        ≡ ok (some (record { fields = first ∷ rest; rows = take limit (drop offset all) }))
  pub counts : backend.count_rows ≡ ok (some (length all))
  pub converts : Converts number_of (first ∷ rest) (str_eq first grouping_id_alias) items all rows
  pub running : backend.canceled ≡ false

-- Every cached tuple is the row of its index.
pub record IsFaithful {V : Type 0} (s : TupleSet V) (rows : List (Tuple V)) : Type 0 where
  pub at_index : (j : ℕ) (t : Tuple V) → Sparse.get s.tuples j ≡ some t → get_elem? rows j ≡ some t

pub is_some-get_elem? :
    {V : Type 0} (ts : List (Tuple V)) (i : ℕ) → is_some (get_elem? ts i) ≡ ltb i (length ts)
is_some-get_elem? [] i = ground arith
is_some-get_elem? (t ∷ ts) zero = ground arith
is_some-get_elem? (t ∷ ts) (suc i) = ground (arith, is_some-get_elem? ts i)

-- A page read at an index of the whole result.
page_if :
    {V : Type 0} (limit offset : ℕ) (rows : List (Tuple V)) (j : ℕ) (old : Option (Tuple V))
    → (if leb offset j && ltb j (offset + length (take limit (drop offset rows)))
        then get_elem? (take limit (drop offset rows)) (j - offset)
        else old)
      ≡ (if leb offset j && ltb j (offset + limit) && is_some (get_elem? rows j)
          then get_elem? rows j
          else old)
page_if limit offset rows j old = elim (Bool-cases (leb offset j)) [
  | inr e ↦ rw e
  | inl e ↦
      let same : offset + (j - offset) ≡ j = omega (arith, leb→le offset j e) in
      let page = take limit (drop offset rows) in
      ground (
        arith,
        get_elem?-page limit offset rows (j - offset),
        is_some-get_elem? page (j - offset),
        ap (get_elem? rows) same,
      )
]

module _ {V : Type 0} (json_key_size : ℕ → ℕ) (json_tuple_size : Tuple V → ℕ) (number_of : V → ℕ)
    (backend : Backend V) (items : ℕ) (rows : List (Tuple V))
    (v : Serves number_of backend items rows) where
  -- The result set of a page.
  abbrev pub page_of : ℕ → ℕ → ResultSet V
  page_of limit offset = record { fields = v.first ∷ v.rest; rows = take limit (drop offset v.all) }

  -- The cache once a page is stored, before the limits are enforced.
  abbrev pub loaded : ℕ → ℕ → Option ℕ → TupleSet V → TupleSet V
  loaded limit offset total s =
      store_all json_key_size json_tuple_size offset (take limit (drop offset rows))
        (begin_load number_of items v.first v.rest (page_of limit offset) offset total s)

  page-Converts :
      (limit offset : ℕ)
      → Converts number_of
          (v.first ∷ v.rest)
          (str_eq v.first grouping_id_alias)
          items
          (take limit (drop offset v.all))
          (take limit (drop offset rows))
  page-Converts limit offset =
      let grouped = str_eq v.first grouping_id_alias in
      Converts-take number_of (v.first ∷ v.rest) grouped items limit (drop offset v.all)
        (drop offset rows)
        (Converts-drop number_of (v.first ∷ v.rest) grouped items offset v.all rows v.converts)

  load_lem :
      (limit offset : ℕ) (total : Option ℕ) (s : TupleSet V)
      → load_tuples json_key_size json_tuple_size number_of items
          (page_of limit offset)
          offset
          total
          s
        ≡ (enforce_cache_limits (loaded limit offset total s), ok tt)
  unfolding load_tuples
  load_lem limit offset total s = ground (
    arith,
    load_rows-store_all json_key_size json_tuple_size number_of (v.first ∷ v.rest)
        (str_eq v.first grouping_id_alias) items offset (take limit (drop offset v.all))
        (take limit (drop offset rows))
        (begin_load number_of items v.first v.rest (page_of limit offset) offset total s)
        (page-Converts limit offset),
  )

  run_lem :
      (limit offset : ℕ) (total : Option ℕ) (s : TupleSet V)
      → run_axis_query json_key_size json_tuple_size number_of backend items limit offset total s
        ≡ (
          enforce_cache_limits (loaded limit offset total s),
          ok (length (take limit (drop offset v.all))),
        )
  unfolding run_axis_query
  run_lem limit offset total s =
      ground (arith, v.page limit offset, v.running, load_lem limit offset total s)

  -- The total that the query runs with: the count query's, if the count is not known yet.
  abbrev pub total_for : ℕ → TupleSet V → Option ℕ
  total_for offset s =
      if (offset == 0) && not (is_some s.tuple_count) then some (length v.all) else none

  pub execute_lem :
      (limit offset : ℕ) (s : TupleSet V)
      → execute_axis_query json_key_size json_tuple_size number_of backend items limit offset s ≡ (
        enforce_cache_limits (loaded limit offset (total_for offset s) s),
        ok (length (take limit (drop offset v.all))),
      )
  unfolding execute_axis_query
  execute_lem limit offset s = elim (Bool-cases ((offset == 0) && not (is_some s.tuple_count))) [
    | inl e ↦ rw (e, v.counts, run_lem limit offset (some (length v.all)) s)
    | inr e ↦ rw (e, run_lem limit offset none s)
  ]

  begin-IsConsistent :
      (limit offset : ℕ) (total : Option ℕ) (s : TupleSet V)
      → IsConsistent s
      → IsConsistent
          (begin_load number_of items v.first v.rest (page_of limit offset) offset total s)
  unfolding begin_load
  begin-IsConsistent limit offset total s c = record {
    order_unique = c.order_unique;
    sizes_unique = c.sizes_unique;
    sized = c.sized;
    stored = c.stored;
    same_length = c.same_length;
    total = c.total;
  }

  pub loaded-IsConsistent :
      (limit offset : ℕ) (total : Option ℕ) (s : TupleSet V)
      → IsConsistent s
      → IsConsistent (loaded limit offset total s)
  loaded-IsConsistent limit offset total s c =
      store_all-IsConsistent json_key_size json_tuple_size offset (take limit (drop offset rows)) _
        (begin-IsConsistent limit offset total s c)

  -- After a page is stored, its rows are there, and elsewhere the tuples are those of before.
  pub get-loaded :
      (limit offset : ℕ) (total : Option ℕ) (s : TupleSet V) (j : ℕ)
      → Sparse.get (loaded limit offset total s).tuples j ≡ (
          if leb offset j && ltb j (offset + limit) && is_some (get_elem? rows j)
          then get_elem? rows j
          else Sparse.get s.tuples j)
  unfolding begin_load
  get-loaded limit offset total s j =
      get-store_all json_key_size json_tuple_size offset (take limit (drop offset rows)) _ j
      ∙ page_if limit offset rows j (Sparse.get s.tuples j)

  pub loaded-IsFaithful :
      (limit offset : ℕ) (total : Option ℕ) (s : TupleSet V)
      → IsFaithful s rows
      → IsFaithful (loaded limit offset total s) rows
  loaded-IsFaithful limit offset total s f = record {
    at_index = λ j t h. ground (arith, get-loaded limit offset total s j, f.at_index j t);
  }

  pub enforced-IsFaithful :
      (s : TupleSet V)
      → IsConsistent s
      → IsFaithful s rows
      → IsFaithful (enforce_cache_limits s) rows
  enforced-IsFaithful s c f = record {
    at_index = λ j t h.
        let (e, _) = enforce_cache_limits-EvictsOldest s c in
        ground (
          arith,
          f.at_index j t,
          e.kept j,
          e.gone j,
          Bool-cases (is_some (JsMap.get (drop e.dropped s.tuple_access_order) j)),
        );
  }

  settings-loaded :
      (limit offset : ℕ) (total : Option ℕ) (s : TupleSet V)
      → (loaded limit offset total s).settings ≡ s.settings
  unfolding begin_load
  settings-loaded limit offset total s =
      (settings-store_all json_key_size json_tuple_size offset (take limit (drop offset rows)) _).0

  -- The cache that `getTuples` fetches into, and the page that it fetches.
  abbrev pub fetched : TupleSet V → ℕ → ℕ → ℕ → ℕ → TupleSet V
  fetched s count offset first last =
      loaded (fetch_count s count offset first (suc last)) first (total_for first s) s

  pub get_tuples_cached :
      (s : TupleSet V) (count offset : ℕ)
      → (scan s.tuples offset 0 (clip_count s.tuple_count count offset) none []).0 ≡ none
      → get_tuples json_key_size json_tuple_size number_of backend items s count offset
        ≡ (s, ok (scan s.tuples offset 0 (clip_count s.tuple_count count offset) none []).1)
  unfolding get_tuples
  get_tuples_cached s count offset h = ground arith

  pub get_tuples-fetched :
      (s : TupleSet V) (count offset first last : ℕ)
      → (scan s.tuples offset 0 (clip_count s.tuple_count count offset) none []).0
        ≡ some (first, last)
      → let s' =
          enforce_cache_limits
            (fetched s (clip_count s.tuple_count count offset) offset first last) in
        get_tuples json_key_size json_tuple_size number_of backend items s count offset
        ≡ (s', ok (Sparse.slice s'.tuples offset (offset + clip_count s.tuple_count count offset)))
  unfolding get_tuples
  get_tuples-fetched s count offset first last h =
      let n = clip_count s.tuple_count count offset in
      ground (arith, execute_lem (fetch_count s n offset first (suc last)) first s)
