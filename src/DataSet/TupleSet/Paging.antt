-- ===== src/DataSet/TupleSet/Paging.antt =====
-- TupleSet.js, `getTuples`, `getCachedTupleCount` and the local branch of `#executeAxisQuery`.
use huey.Base.{
  ℕ, zero, suc, ◌+◌, ◌-◌, Bool, false, not, ◌&&◌, Option, none, some, [], length, ltb, ◌==◌,
  is_some, if◌then◌else◌,
}
use huey.Base.Result.{Result, ok, throw}
use huey.Base.Sparse
use huey.Base.Sparse.{Sparse}
use huey.DataSet.TupleSet.{Tuple, TupleSet, Backend}
use huey.DataSet.TupleSet.Load.{load_tuples}

-- `firstIndexToFetch` and `lastIndexToFetch` at a missing tuple.
unfoldable pub widen : Option (ℕ × ℕ) → ℕ → Option (ℕ × ℕ)
widen none index = some (index, index)
widen (some (first, last)) index = some (first, if ltb last index then index else last)

-- `count`, cut at the tuple count if that is known.
unfoldable pub clip_count : Option ℕ → ℕ → ℕ → ℕ
clip_count none count offset = count
clip_count (some tuple_count) count offset =
    if ltb tuple_count (offset + count) then tuple_count - offset else count

module _ {V : Type 0} where
  -- `n` rounds of the loop of `getCachedTupleCount`, from index `i` on.
  unfoldable pub cached_run : Sparse (Tuple V) → ℕ → ℕ → ℕ
  cached_run data_ i zero = 0
  cached_run data_ i (suc n) = elim (Sparse.get data_ i) [
    | none ↦ 0
    | some t ↦ suc (cached_run data_ (suc i) n)
  ]

  unfoldable pub get_cached_tuple_count : TupleSet V → ℕ → ℕ
  unfolding cached_run
  get_cached_tuple_count s offset = elim s.tuple_count [
    | none ↦ 0
    | some tuple_count ↦ cached_run s.tuples offset (tuple_count - offset)
  ]

  -- `n` rounds of the loop of `getTuples`, from `i` on: the window to fetch, and the tuples at hand.
  unfoldable pub scan :
      Sparse (Tuple V)
      → ℕ
      → ℕ
      → ℕ
      → Option (ℕ × ℕ)
      → Sparse (Tuple V)
      → Option (ℕ × ℕ) × Sparse (Tuple V)
  unfolding widen
  scan data_ offset i zero window tuples = (window, tuples)
  scan data_ offset i (suc n) window tuples = elim (Sparse.get data_ (offset + i)) [
    | none ↦ scan data_ offset (suc i) n (widen window (offset + i)) tuples
    | some t ↦ scan data_ offset (suc i) n window (Sparse.set tuples i (some t))
  ]

  -- The number of tuples to fetch: a short tail is filled up to a page, if there is more to read.
  unfoldable pub fetch_count : TupleSet V → ℕ → ℕ → ℕ → ℕ → ℕ
  fetch_count s count offset first last =
      let new_count = last - first in
      let more : Bool = elim s.tuple_count [
        | none ↦ false
        | some tuple_count ↦ ltb last tuple_count
      ] in
      if ltb new_count s.page_size && (offset + count == last) && more
      then s.page_size
      else new_count

module _ {V : Type 0} (json_key_size : ℕ → ℕ) (json_tuple_size : Tuple V → ℕ) (number_of : V → ℕ)
    (backend : Backend V) (item_count : ℕ) where
  -- The axis query, once the total count is settled.
  unfoldable pub run_axis_query : ℕ → ℕ → Option ℕ → TupleSet V → TupleSet V × Result ℕ
  run_axis_query limit offset total_count s = elim (backend.page limit offset) [
    | throw e ↦ (s, throw e)
    | ok none ↦ (s, ok 0)
    | ok (some rs) ↦
        if backend.canceled
        then (s, ok 0)
        else let (loaded, result) =
            load_tuples json_key_size json_tuple_size number_of item_count rs offset total_count
              s in
          elim result [ ok _ ↦ (loaded, ok (length rs.rows)) | throw e ↦ (loaded, throw e) ]
  ]

  unfoldable pub execute_axis_query : ℕ → ℕ → TupleSet V → TupleSet V × Result ℕ
  unfolding run_axis_query
  execute_axis_query limit offset s =
      if (offset == 0) && not (is_some s.tuple_count)
      then elim backend.count_rows [
        | throw e ↦ (s, throw e)
        | ok none ↦ (s, ok 0)
        | ok (some n) ↦ run_axis_query limit offset (some n) s
      ]
      else run_axis_query limit offset none s

  unfoldable pub get_tuples : TupleSet V → ℕ → ℕ → TupleSet V × Result (Sparse (Tuple V))
  unfolding clip_count scan fetch_count execute_axis_query
  get_tuples s count offset =
      let count' = clip_count s.tuple_count count offset in
      let (window, tuples) = scan s.tuples offset 0 count' none [] in
      elim window [
        | none ↦ (s, ok tuples)
        | some (first, last_missing) ↦
            let last = suc last_missing in
            let (s', result) =
              execute_axis_query (fetch_count s count' offset first last) first s in
            elim result [
              | ok _ ↦ (s', ok (Sparse.slice s'.tuples offset (offset + count')))
              | throw e ↦ (s', throw e)
            ]
      ]
