-- ===== src/DataSet/TupleSet/Cache.antt =====
-- TupleSet.js: the cache invariant, kept by the operations on single tuples.
use huey.Base.{
  ℕ, ◌≡◌, refl, Bool, true, none, some, arith, length, is_some, Option-cases, inl, inr, ap,
}
use huey.Base.JsMap
use huey.Base.JsMap.{JsMap, IsUnique}
use huey.Base.Sparse
use huey.Base.Sparse.{Sparse}
use huey.DataSet.Sizes.{
  size_at, sum_over, sum_over-delete_size, sum_over-delete, sum_over-move_last, sum_over-store,
  get-delete_self,
}
use huey.DataSet.TupleSet.{
  Tuple, TupleSet, clear, touch_tuple, remove_tuple, store_tuple, get_tuple_serialized_size,
}

-- The tuples that are stored, those that have a size and those in the access order are the same, no
-- index stands twice, and the running total is the sum of the sizes.
pub record IsConsistent {V : Type 0} (s : TupleSet V) : Type 0 where
  pub order_unique : IsUnique s.tuple_access_order
  pub sizes_unique : IsUnique s.tuple_serialized_sizes
  pub sized :
      (k : ℕ)
      → is_some (JsMap.get s.tuple_access_order k) ≡ is_some (JsMap.get s.tuple_serialized_sizes k)
  pub stored :
      (k : ℕ) → is_some (JsMap.get s.tuple_access_order k) ≡ is_some (Sparse.get s.tuples k)
  pub same_length : length s.tuple_serialized_sizes ≡ length s.tuple_access_order
  pub total :
      s.tuple_cache_entry_size_total ≡ sum_over s.tuple_serialized_sizes s.tuple_access_order

module _ {V : Type 0} where
  pub clear-IsConsistent : (s : TupleSet V) → IsConsistent (clear s)
  unfolding clear IsUnique JsMap.get sum_over Sparse.get
  clear-IsConsistent s = record {
    order_unique = tt;
    sizes_unique = tt;
    sized = λ k. refl;
    stored = λ k. refl;
    same_length = refl;
    total = refl;
  }

  -- An index that is not cached has no entry to drop.
  remove_absent-IsConsistent :
      (s : TupleSet V) (k : ℕ)
      → IsConsistent s
      → JsMap.get s.tuple_serialized_sizes k ≡ none
      → IsConsistent (remove_tuple s k)
  unfolding remove_tuple
  remove_absent-IsConsistent s k c e =
      let absent : JsMap.get s.tuple_access_order k ≡ none = ground (arith, c.sized k) in
      rw (e, remove_tuple, JsMap.delete_absent s.tuple_access_order k absent)
        (record {
          order_unique = c.order_unique;
          sizes_unique = c.sizes_unique;
          sized = c.sized;
          stored = λ j. ground (arith, c.stored j, Sparse.get-set s.tuples k j none);
          same_length = c.same_length;
          total = c.total;
        })

  remove_present-IsConsistent :
      (s : TupleSet V) (k n : ℕ) (b : Bool)
      → IsConsistent s
      → JsMap.get s.tuple_serialized_sizes k ≡ some n
      → JsMap.get s.tuple_access_order k ≡ some b
      → IsConsistent (remove_tuple s k)
  unfolding remove_tuple size_at
  remove_present-IsConsistent s k n b c e f =
      rw (e, remove_tuple)
        (record {
          order_unique = JsMap.delete-IsUnique s.tuple_access_order k c.order_unique;
          sizes_unique = JsMap.delete-IsUnique s.tuple_serialized_sizes k c.sizes_unique;
          sized = λ j. ground (
            arith,
            c.sized j,
            JsMap.get-delete s.tuple_access_order k j,
            JsMap.get-delete s.tuple_serialized_sizes k j,
          );
          stored = λ j. ground (
            arith,
            c.stored j,
            JsMap.get-delete s.tuple_access_order k j,
            Sparse.get-set s.tuples k j none,
          );
          same_length = omega (
            arith,
            c.same_length,
            JsMap.length-delete s.tuple_access_order k b c.order_unique f,
            JsMap.length-delete s.tuple_serialized_sizes k n c.sizes_unique e,
          );
          total = ground (
            arith,
            c.total,
            sum_over-delete s.tuple_serialized_sizes k b s.tuple_access_order c.order_unique f,
            sum_over-delete_size s.tuple_serialized_sizes k (JsMap.delete s.tuple_access_order k)
                (get-delete_self s.tuple_access_order k),
          );
        })

  pub remove_tuple-IsConsistent :
      (s : TupleSet V) (k : ℕ) → IsConsistent s → IsConsistent (remove_tuple s k)
  remove_tuple-IsConsistent s k c = elim (Option-cases (JsMap.get s.tuple_serialized_sizes k)) [
    | inl e ↦ remove_absent-IsConsistent s k c e
    | inr (n, e) ↦ elim (Option-cases (JsMap.get s.tuple_access_order k)) [
      | inl f ↦ absurd (ground (arith, c.sized k))
      | inr (b, f) ↦ remove_present-IsConsistent s k n b c e f
    ]
  ]

  -- A touch moves a cached index to the end, and changes nothing else.
  pub touch_tuple-IsConsistent :
      (s : TupleSet V) (k : ℕ) (b : Bool)
      → IsConsistent s
      → JsMap.get s.tuple_access_order k ≡ some b
      → IsConsistent (touch_tuple s k)
  unfolding touch_tuple
  touch_tuple-IsConsistent s k b c f = record {
    order_unique =
        JsMap.set-IsUnique (JsMap.delete s.tuple_access_order k) k true
          (JsMap.delete-IsUnique s.tuple_access_order k c.order_unique);
    sizes_unique = c.sizes_unique;
    sized = λ j. ground (
      arith,
      c.sized j,
      JsMap.get-delete s.tuple_access_order k j,
      JsMap.get-set (JsMap.delete s.tuple_access_order k) k j true,
    );
    stored = λ j. ground (
      arith,
      c.stored j,
      JsMap.get-delete s.tuple_access_order k j,
      JsMap.get-set (JsMap.delete s.tuple_access_order k) k j true,
    );
    same_length = omega (
      arith,
      c.same_length,
      JsMap.length-delete s.tuple_access_order k b c.order_unique f,
      JsMap.length-set_absent (JsMap.delete s.tuple_access_order k) k true
          (get-delete_self s.tuple_access_order k),
    );
    total = ground (
      arith,
      c.total,
      sum_over-delete s.tuple_serialized_sizes k b s.tuple_access_order c.order_unique f,
      sum_over-move_last s.tuple_serialized_sizes k true s.tuple_access_order,
    );
  }

module _ {V : Type 0} (json_key_size : ℕ → ℕ) (json_tuple_size : Tuple V → ℕ) where
  -- A row that is loaded: stored, then touched.
  abbrev pub store_and_touch : TupleSet V → ℕ → Tuple V → TupleSet V
  store_and_touch s k t = touch_tuple (store_tuple json_key_size json_tuple_size s k t) k

  store-sized :
      (s : TupleSet V) (k : ℕ) (t : Tuple V)
      → IsConsistent s
      → (j : ℕ)
      → is_some (JsMap.get (store_and_touch s k t).tuple_access_order j)
        ≡ is_some (JsMap.get (store_and_touch s k t).tuple_serialized_sizes j)
  unfolding store_tuple touch_tuple
  store-sized s k t c j = ground (
    arith,
    c.sized j,
    JsMap.get-delete s.tuple_access_order k j,
    JsMap.get-set (JsMap.delete s.tuple_access_order k) k j true,
    JsMap.get-set s.tuple_serialized_sizes k j
        (get_tuple_serialized_size json_key_size json_tuple_size k t),
  )

  store-stored :
      (s : TupleSet V) (k : ℕ) (t : Tuple V)
      → IsConsistent s
      → (j : ℕ)
      → is_some (JsMap.get (store_and_touch s k t).tuple_access_order j)
        ≡ is_some (Sparse.get (store_and_touch s k t).tuples j)
  unfolding store_tuple touch_tuple
  store-stored s k t c j = ground (
    arith,
    c.stored j,
    JsMap.get-delete s.tuple_access_order k j,
    JsMap.get-set (JsMap.delete s.tuple_access_order k) k j true,
    Sparse.get-set s.tuples k j (some t),
  )

  store-same_length :
      (s : TupleSet V) (k : ℕ) (t : Tuple V)
      → IsConsistent s
      → length (store_and_touch s k t).tuple_serialized_sizes
        ≡ length (store_and_touch s k t).tuple_access_order
  unfolding store_tuple touch_tuple
  store-same_length s k t c =
      let order = s.tuple_access_order in
      let sizes = s.tuple_serialized_sizes in
      let size = get_tuple_serialized_size json_key_size json_tuple_size k t in
      let last = JsMap.length-set_absent (JsMap.delete order k) k true (get-delete_self order k) in
      elim (Option-cases (JsMap.get sizes k)) [
        | inl e ↦
            let absent : JsMap.get order k ≡ none = ground (arith, c.sized k) in
            omega (
              arith,
              c.same_length,
              last,
              JsMap.length-set_absent sizes k size e,
              ap (λ (m : JsMap Bool). length m) (JsMap.delete_absent order k absent),
            )
        | inr (n, e) ↦ elim (Option-cases (JsMap.get order k)) [
          | inl f ↦ absurd (ground (arith, c.sized k))
          | inr (b, f) ↦ omega (
            arith,
            c.same_length,
            last,
            JsMap.length-set_present sizes k size n e,
            JsMap.length-delete order k b c.order_unique f,
          )
        ]
      ]

  store-total :
      (s : TupleSet V) (k : ℕ) (t : Tuple V)
      → IsConsistent s
      → (store_and_touch s k t).tuple_cache_entry_size_total
        ≡ sum_over
            (store_and_touch s k t).tuple_serialized_sizes
            (store_and_touch s k t).tuple_access_order
  unfolding store_tuple touch_tuple size_at
  store-total s k t c =
      let order = s.tuple_access_order in
      let sizes = s.tuple_serialized_sizes in
      let size = get_tuple_serialized_size json_key_size json_tuple_size k t in
      elim (Option-cases (JsMap.get order k)) [
        | inl f ↦ ground (
          arith,
          c.total,
          c.sized k,
          sum_over-store sizes k size true order,
          JsMap.delete_absent order k f,
        )
        | inr (b, f) ↦ ground (
          arith,
          c.total,
          c.sized k,
          sum_over-store sizes k size true order,
          sum_over-delete sizes k b order c.order_unique f,
        )
      ]

  pub store-IsConsistent :
      (s : TupleSet V) (k : ℕ) (t : Tuple V) → IsConsistent s → IsConsistent (store_and_touch s k t)
  unfolding store_tuple touch_tuple
  store-IsConsistent s k t c = record {
    order_unique =
        JsMap.set-IsUnique (JsMap.delete s.tuple_access_order k) k true
          (JsMap.delete-IsUnique s.tuple_access_order k c.order_unique);
    sizes_unique = JsMap.set-IsUnique s.tuple_serialized_sizes k _ c.sizes_unique;
    sized = store-sized s k t c;
    stored = store-stored s k t c;
    same_length = store-same_length s k t c;
    total = store-total s k t c;
  }
