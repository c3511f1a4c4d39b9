-- ===== src/DataSet/TupleSet/Measured.antt =====
-- TupleSet.js: the sizes that are recorded are those of the entries of the cache, as JSON text.
use huey.Base.{
  ℕ, zero, suc, ◌+◌, ◌-◌, ◌≡◌, refl, ap, ◌∙◌, Bool, true, none, some, [], ◌∷◌, arith, length, ◌==◌,
  map_option, Option-cases, Bool-cases, inl, inr,
}
use huey.Base.JsMap
use huey.Base.JsMap.{JsMap}
use huey.Base.Sparse
use huey.Base.Sparse.{Sparse}
use huey.DataSet.Sizes.{size_at, sum_over, json_object_size}
use huey.DataSet.TupleSet.{
  Tuple, TupleSet, clear, touch_tuple, touch_cached, store_tuple, remove_tuple, evict, over_limits,
  enforce_cache_limits, get_tuples_sync, get_tuple_sync, cache_size,
}
use huey.DataSet.TupleSet.Cache.{IsConsistent, store_and_touch}
use huey.DataSet.TupleSet.Eviction.{cache_size-json}

module _ {V : Type 0} (json_key_size : ℕ → ℕ) (json_tuple_size : Tuple V → ℕ) where
  -- The length of an entry: its key, a colon, and the tuple.
  unfoldable pub entry_size : ℕ → Tuple V → ℕ
  entry_size index tuple = json_key_size index + 1 + json_tuple_size tuple

  -- Each cached tuple has the size of its entry recorded, and nothing else has a size.
  pub record IsMeasured (s : TupleSet V) : Type 0 where
    pub recorded :
        (j : ℕ)
        → JsMap.get s.tuple_serialized_sizes j ≡ map_option (entry_size j) (Sparse.get s.tuples j)

  -- The lengths of the entries with these keys, added up.
  unfoldable pub entry_sizes : Sparse (Tuple V) → JsMap Bool → ℕ
  entry_sizes tuples [] = 0
  entry_sizes tuples ((k, b) ∷ order) =
      (elim (Sparse.get tuples k) as (λ x. ℕ) [ none ↦ 0 | some tuple ↦ entry_size k tuple ])
      + entry_sizes tuples order

  -- The length of the JSON text of an object with the cached tuples: two braces, the entries, and a
  -- comma between any two.
  unfoldable pub text_size : TupleSet V → ℕ
  unfolding entry_sizes
  text_size s = 2 + entry_sizes s.tuples s.tuple_access_order + (length s.tuple_access_order - 1)

  sizes-measured :
      (s : TupleSet V) (order : JsMap Bool)
      → IsMeasured s
      → sum_over s.tuple_serialized_sizes order ≡ entry_sizes s.tuples order
  unfolding sum_over entry_sizes size_at
  sizes-measured s [] m = refl
  sizes-measured s ((k, b) ∷ order) m = elim (Option-cases (Sparse.get s.tuples k)) [
    | inl e ↦ ground (arith, e, m.recorded k, sizes-measured s order m)
    | inr (t, e) ↦ ground (arith, e, m.recorded k, sizes-measured s order m)
  ]

  pub cache_size-text_size :
      (s : TupleSet V) → IsConsistent s → IsMeasured s → cache_size s ≡ text_size s
  unfolding text_size json_object_size
  cache_size-text_size s c m =
      cache_size-json s c
      ∙ ap (λ n. 2 + n + (length s.tuple_access_order - 1))
          (sizes-measured s s.tuple_access_order m)

  pub clear-IsMeasured : (s : TupleSet V) → IsMeasured (clear s)
  unfolding clear JsMap.get Sparse.get
  clear-IsMeasured s = record { recorded = λ j. refl }

  touch-IsMeasured : (s : TupleSet V) (k : ℕ) → IsMeasured s → IsMeasured (touch_tuple s k)
  unfolding touch_tuple
  touch-IsMeasured s k m = record { recorded = m.recorded }

  touch_cached-IsMeasured :
      (s : TupleSet V) (index : ℕ) (ts : Sparse (Tuple V))
      → IsMeasured s
      → IsMeasured (touch_cached s index ts)
  unfolding touch_cached
  touch_cached-IsMeasured s index [] m = m
  touch_cached-IsMeasured s index (none ∷ ts) m = touch_cached-IsMeasured s (suc index) ts m
  touch_cached-IsMeasured s index (some t ∷ ts) m =
      touch_cached-IsMeasured (touch_tuple s index) (suc index) ts (touch-IsMeasured s index m)

  pub get_tuples_sync-IsMeasured :
      (s : TupleSet V) (from to : ℕ) → IsMeasured s → IsMeasured (get_tuples_sync s from to).0
  unfolding get_tuples_sync
  get_tuples_sync-IsMeasured s from to m =
      touch_cached-IsMeasured s from (Sparse.slice s.tuples from to) m

  pub get_tuple_sync-IsMeasured :
      (s : TupleSet V) (index : ℕ) → IsMeasured s → IsMeasured (get_tuple_sync s index).0
  unfolding get_tuple_sync
  get_tuple_sync-IsMeasured s index m = elim (Option-cases (Sparse.get s.tuples index)) [
    | inl e ↦ rw (e, get_tuple_sync) m
    | inr (t, e) ↦ rw (e, get_tuple_sync) (touch-IsMeasured s index m)
  ]

  same_key : {A : Type 0} (a : ℕ → A) (k j : ℕ) → (k == j) ≡ true → a k ≡ a j
  same_key a k j h = let e : k ≡ j = ground arith in ap a e

  pub store-IsMeasured :
      (s : TupleSet V) (k : ℕ) (t : Tuple V)
      → IsMeasured s
      → IsMeasured (store_and_touch json_key_size json_tuple_size s k t)
  unfolding store_tuple touch_tuple entry_size
  store-IsMeasured s k t m = record {
    recorded = λ j.
        let sizes =
          JsMap.get-set s.tuple_serialized_sizes k j (json_key_size k + 1 + json_tuple_size t) in
        let tuples = Sparse.get-set s.tuples k j (some t) in
        elim (Bool-cases (k == j)) [
          | inl e ↦
              let key = same_key (λ i. some (json_key_size i + 1 + json_tuple_size t)) k j e in
              ground (arith, sizes, tuples, e, key)
          | inr e ↦ ground (arith, sizes, tuples, e, m.recorded j)
        ];
  }

  remove-IsMeasured : (s : TupleSet V) (k : ℕ) → IsMeasured s → IsMeasured (remove_tuple s k)
  unfolding remove_tuple
  remove-IsMeasured s k m = elim (Option-cases (JsMap.get s.tuple_serialized_sizes k)) [
    | inl e ↦
        rw (e, remove_tuple)
          (record {
            recorded = λ j. elim (Bool-cases (k == j)) [
              | inl h ↦ ground (
                arith,
                Sparse.get-set s.tuples k j none,
                h,
                e,
                same_key (JsMap.get s.tuple_serialized_sizes) k j h,
              )
              | inr h ↦ ground (arith, Sparse.get-set s.tuples k j none, h, m.recorded j)
            ];
          })
    | inr (n, e) ↦
        rw (e, remove_tuple)
          (record {
            recorded = λ j. ground (
              arith,
              Sparse.get-set s.tuples k j none,
              JsMap.get-delete s.tuple_serialized_sizes k j,
              m.recorded j,
            );
          })
  ]

  evict-IsMeasured : (fuel : ℕ) (s : TupleSet V) → IsMeasured s → IsMeasured (evict fuel s)
  unfolding evict
  evict-IsMeasured zero s m = m
  evict-IsMeasured (suc fuel) s m = elim (Bool-cases (over_limits s)) [
    | inr e ↦ rw (e, evict) m
    | inl e ↦ go s.tuple_access_order refl e (evict-IsMeasured fuel)
  ]
    where
      go :
          (order : JsMap Bool)
          → s.tuple_access_order ≡ order
          → over_limits s ≡ true
          → ((t : TupleSet V) → IsMeasured t → IsMeasured (evict fuel t))
          → IsMeasured (evict (suc fuel) s)
      go [] o e ih = rw (e, o, evict) m
      go ((k, b) ∷ rest) o e ih = rw (e, o, evict) (ih (remove_tuple s k) (remove-IsMeasured s k m))

  pub enforce-IsMeasured : (s : TupleSet V) → IsMeasured s → IsMeasured (enforce_cache_limits s)
  unfolding enforce_cache_limits
  enforce-IsMeasured s m = evict-IsMeasured (suc (length s.tuple_access_order)) s m
