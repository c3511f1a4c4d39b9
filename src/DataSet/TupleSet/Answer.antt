-- ===== src/DataSet/TupleSet/Answer.antt =====
-- TupleSet.js: `getTuples` answers with the rows of the axis query.
use huey.Base.{
  ℕ, suc, ◌+◌, ◌<◌, ◌≤◌, ◌≡◌, ap, ◌∙◌, true, false, Option, none, some, List, [], arith, length,
  get_elem?, ltb, is_some, if◌then◌else◌, ◌⊎◌, inl, inr, Option-cases,
}
use huey.Base.Result.{ok}
use huey.Base.Sparse
use huey.Base.Sparse.{Sparse}
use huey.DataSet.TupleSet.{Tuple, TupleSet, Backend, over_limits, enforce_cache_limits}
use huey.DataSet.TupleSet.Paging.{scan, clip_count, fetch_count, get_tuples}
use huey.DataSet.TupleSet.Cache.{IsConsistent}
use huey.DataSet.TupleSet.Eviction.{enforce_cache_limits-EvictsOldest, evict_within}
use huey.DataSet.TupleSet.Window.{scan-IsWindow, scan_tuples, scan_all}
use huey.DataSet.TupleSet.Correct.{
  Serves, IsFaithful, is_some-get_elem?, fetched, loaded-IsConsistent, loaded-IsFaithful,
  enforced-IsFaithful, get-loaded, get_tuples_cached, get_tuples-fetched, total_for,
}

-- The answer `tuples` to a request from `offset` on, and the cache that it leaves.
pub record Answers {V : Type 0} (rows : List (Tuple V)) (offset : ℕ) (s : TupleSet V)
    (tuples : Sparse (Tuple V)) : Type 0 where
  pub consistent : IsConsistent s
  pub faithful : IsFaithful s rows
  pub sound :
      (i : ℕ) (t : Tuple V) → Sparse.get tuples i ≡ some t → get_elem? rows (offset + i) ≡ some t

-- The tuple count is unknown, or that of the rows.
abbrev pub HasCount : {V : Type 0} → TupleSet V → List (Tuple V) → Type 0
HasCount s rows = (s.tuple_count ≡ none) ⊎ (s.tuple_count ≡ some (length rows))

-- At least the window is fetched.
fetch_count-ge :
    {V : Type 0} (s : TupleSet V) (count offset first last : ℕ)
    → last ≤ first + fetch_count s count offset first last
unfolding fetch_count
fetch_count-ge s count offset first last = ground arith

-- Cutting the request at the tuple count loses no row.
clip_lem :
    {V : Type 0} (s : TupleSet V) (rows : List (Tuple V)) (count offset i : ℕ)
    → HasCount s rows
    → (if ltb i (clip_count s.tuple_count count offset) then get_elem? rows (offset + i) else none)
      ≡ (if ltb i count then get_elem? rows (offset + i) else none)
unfolding clip_count
clip_lem s rows count offset i (inl h) = rw (h, clip_count)
clip_lem s rows count offset i (inr h) =
    rw (h, clip_count) (ground (arith, is_some-get_elem? rows (offset + i)))

module _ {V : Type 0} (json_key_size : ℕ → ℕ) (json_tuple_size : Tuple V → ℕ) (number_of : V → ℕ)
    (backend : Backend V) (items : ℕ) (rows : List (Tuple V))
    (v : Serves number_of backend items rows) (s : TupleSet V) (count offset : ℕ)
    (c : IsConsistent s) (f : IsFaithful s rows) where
  abbrev n : ℕ
  n = clip_count s.tuple_count count offset

  abbrev scanned : Option (ℕ × ℕ) × Sparse (Tuple V)
  scanned = scan s.tuples offset 0 n none []

  abbrev cache : ℕ → ℕ → TupleSet V
  cache first last =
      fetched json_key_size json_tuple_size number_of backend items rows v s n offset first last

  nothing_before : (j : ℕ) → offset ≤ j → j < offset + 0 → is_some (Sparse.get s.tuples j) ≡ true
  nothing_before j low high = absurd (omega arith)

  get-scanned :
      scanned.0 ≡ none
      → (i : ℕ)
      → Sparse.get scanned.1 i ≡ (if ltb i n then Sparse.get s.tuples (offset + i) else none)
  get-scanned h i =
      scan_tuples s.tuples offset 0 n [] h i ∙ ground (arith, Sparse.get-empty {A = Tuple V} i)

  get-sliced :
      (t : TupleSet V) (i : ℕ)
      → Sparse.get (Sparse.slice t.tuples offset (offset + n)) i
        ≡ (if ltb i n then Sparse.get t.tuples (offset + i) else none)
  get-sliced t i = Sparse.get-slice t.tuples offset (offset + n) i ∙ ground arith

  -- What is at hand in full is the request.
  cached_rows :
      scanned.0 ≡ none
      → (i : ℕ)
      → (if ltb i n then Sparse.get s.tuples (offset + i) else none)
        ≡ (if ltb i n then get_elem? rows (offset + i) else none)
  cached_rows h i = elim (Option-cases (Sparse.get s.tuples (offset + i))) [
    | inl e ↦ ground (arith, scan_all s.tuples offset 0 n [] h i)
    | inr (t, e) ↦ rw (e, f.at_index (offset + i) t e)
  ]

  -- On a data source that answers the count query and the axis query from fixed rows, by
  -- pages, and with a cache that is consistent and holds only those rows: `getTuples` returns,
  -- each tuple that it returns is the row of its index, and the cache stays consistent and
  -- holds only those rows.
  pub get_tuples-Answers :
      (s' : TupleSet V) × (tuples : Sparse (Tuple V)) × (get_tuples json_key_size json_tuple_size
          number_of backend items s count offset
        ≡ (s', ok tuples))
      × Answers rows offset s' tuples
  get_tuples-Answers = elim (Option-cases scanned.0) [
    | inl h ↦ (
      s,
      scanned.1,
      get_tuples_cached json_key_size json_tuple_size number_of backend items rows v s count offset
          h,
      record {
        consistent = c;
        faithful = f;
        sound = λ i t e. ground (arith, get-scanned h i, f.at_index (offset + i) t);
      },
    )
    | inr ((first, last), h) ↦
        let page = cache first last in
        let c' =
          loaded-IsConsistent json_key_size json_tuple_size number_of backend items rows v
            (fetch_count s n offset first (suc last)) first
            (total_for json_key_size json_tuple_size number_of backend items rows v first s) s c in
        let f' =
          loaded-IsFaithful json_key_size json_tuple_size number_of backend items rows v
            (fetch_count s n offset first (suc last)) first
            (total_for json_key_size json_tuple_size number_of backend items rows v first s) s f in
        let (_, kept) = enforce_cache_limits-EvictsOldest page c' in
        let f'' =
          enforced-IsFaithful json_key_size json_tuple_size number_of backend items rows v page c'
            f' in
        (
          enforce_cache_limits page,
          _,
          get_tuples-fetched json_key_size json_tuple_size number_of backend items rows v s count
              offset first last h,
          record {
            consistent = kept;
            faithful = f'';
            sound = λ i t e.
                ground
                  (arith, get-sliced (enforce_cache_limits page) i, f''.at_index (offset + i) t);
          },
        )
  ]

  -- In the window that is fetched, and in the cache beside it, every row of the request is there.
  get-page :
      (first last : ℕ)
      → scanned.0 ≡ some (first, last)
      → (i : ℕ) → i < n
      → Sparse.get (cache first last).tuples (offset + i) ≡ get_elem? rows (offset + i)
  get-page first last h i below =
      let w =
        scan-IsWindow s.tuples offset (offset + n) 0 n [] (omega arith) nothing_before first last
          h in
      let limit = fetch_count s n offset first (suc last) in
      let at =
        get-loaded json_key_size json_tuple_size number_of backend items rows v limit first
          (total_for json_key_size json_tuple_size number_of backend items rows v first s) s
          (offset + i) in
      elim (Option-cases (Sparse.get s.tuples (offset + i))) [
        | inl e ↦
            ground (arith, at, w.covers (offset + i), fetch_count-ge s n offset first (suc last))
        | inr (t, e) ↦ ground (arith, at, f.at_index (offset + i) t)
      ]

  kept_rows :
      (first last : ℕ)
      → scanned.0 ≡ some (first, last)
      → over_limits (cache first last) ≡ false
      → (i : ℕ)
      → (if ltb i n
          then Sparse.get (enforce_cache_limits (cache first last)).tuples (offset + i)
          else none)
        ≡ (if ltb i n then get_elem? rows (offset + i) else none)
  unfolding enforce_cache_limits
  kept_rows first last h over i =
      let same =
        ap (λ (t : TupleSet V). Sparse.get t.tuples (offset + i))
          (evict_within (suc (length (cache first last).tuple_access_order)) (cache first last)
            over) in
      ground (arith, same, get-page first last h i)

  -- On a data source that answers the count query and the axis query from fixed rows, by
  -- pages, and with a cache that is consistent and holds only those rows: if the tuple count
  -- is unknown or right, and the page that is fetched leaves the cache within its limits, then
  -- `getTuples` returns, and at each position below `count` it returns the row of the axis
  -- query, where there is one, and nothing behind.
  pub get_tuples_complete :
      HasCount s rows
      → ((first last : ℕ) → scanned.0 ≡ some (first, last) → over_limits (cache first last) ≡ false)
      → (s' : TupleSet V) × (tuples : Sparse (Tuple V)) × (get_tuples json_key_size json_tuple_size
            number_of backend items s count offset
          ≡ (s', ok tuples))
        × ((i : ℕ)
            → Sparse.get tuples i ≡ (if ltb i count then get_elem? rows (offset + i) else none))
  get_tuples_complete known room = elim (Option-cases scanned.0) [
    | inl h ↦ (
      s,
      scanned.1,
      get_tuples_cached json_key_size json_tuple_size number_of backend items rows v s count offset
          h,
      λ i. get-scanned h i ∙ cached_rows h i ∙ clip_lem s rows count offset i known,
    )
    | inr ((first, last), h) ↦ (
      enforce_cache_limits (cache first last),
      _,
      get_tuples-fetched json_key_size json_tuple_size number_of backend items rows v s count offset
          first last h,
      λ i.
          get-sliced (enforce_cache_limits (cache first last)) i
          ∙ kept_rows first last h (room first last h) i
          ∙ clip_lem s rows count offset i known,
    )
  ]
