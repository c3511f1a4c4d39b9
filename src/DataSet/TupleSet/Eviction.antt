-- ===== src/DataSet/TupleSet/Eviction.antt =====
-- TupleSet.js, `#enforceCacheLimits`: what is evicted is the least recently used tuples, no more of
-- them than the limits ask for.
use huey.Base.{
  ℕ, zero, suc, ◌<◌, ◌≡◌, refl, sym, ap, ◌∙◌, Bool, true, false, ◌||◌, none, some, [], ◌∷◌, arith,
  length, drop, ltb, ◌==◌, is_some, ==_iff, Option-cases, Bool-cases, ◌⊎◌, inl, inr,
}
use huey.Base.JsMap
use huey.Base.JsMap.{JsMap, IsUnique}
use huey.Base.Sparse
use huey.Base.Sparse.{Sparse}
use huey.DataSet.Limits.{CacheSettings, get_max_cache_entries, get_max_cache_size_bytes}
use huey.DataSet.Sizes.{json_object_size, sum_over-empty, sum_over-delete_size}
use huey.DataSet.TupleSet.{
  TupleSet, remove_tuple, cache_size, over_limits, evict, enforce_cache_limits,
}
use huey.DataSet.TupleSet.Cache.{IsConsistent, remove_tuple-IsConsistent}

-- A cache with these entries, in this order of use, passes one of the two limits: the number of
-- entries, or the length of its JSON text.
unfoldable pub exceeds : CacheSettings → JsMap ℕ → JsMap Bool → Bool
unfolding json_object_size
exceeds settings sizes order =
    ltb (get_max_cache_entries settings) (length order)
    || ltb (get_max_cache_size_bytes settings) (json_object_size sizes order)

-- `t` is `s` without the first `dropped` entries of the access order.
pub record EvictsOldest {V : Type 0} (s t : TupleSet V) : Type 0 where
  pub dropped : ℕ
  pub order : t.tuple_access_order ≡ drop dropped s.tuple_access_order
  pub kept :
      (j : ℕ)
      → is_some (JsMap.get (drop dropped s.tuple_access_order) j) ≡ true
      → Sparse.get t.tuples j ≡ Sparse.get s.tuples j
  pub gone :
      (j : ℕ)
      → is_some (JsMap.get (drop dropped s.tuple_access_order) j) ≡ false
      → Sparse.get t.tuples j ≡ none
  pub needed :
      (m : ℕ)
      → m < dropped
      → exceeds s.settings s.tuple_serialized_sizes (drop m s.tuple_access_order) ≡ true
  pub within :
      (exceeds s.settings s.tuple_serialized_sizes (drop dropped s.tuple_access_order) ≡ false)
      ⊎ (drop dropped s.tuple_access_order ≡ [])

get-drop-none :
    (m : ℕ) (order : JsMap Bool) (k : ℕ)
    → JsMap.get order k ≡ none
    → JsMap.get (drop m order) k ≡ none
unfolding JsMap.get
get-drop-none zero order k h = h
get-drop-none (suc m) [] k h = refl
get-drop-none (suc m) ((j, b) ∷ order) k h = get-drop-none m order k (ground arith)

first_of_order :
    (order : JsMap Bool) (k : ℕ) (b : Bool) (rest : JsMap Bool)
    → order ≡ (k, b) ∷ rest
    → IsUnique order
    → (JsMap.get order k ≡ some b) × (JsMap.delete order k ≡ rest) × (JsMap.get rest k ≡ none)
unfolding IsUnique JsMap.get JsMap.delete
first_of_order [] k b rest e u = cc
first_of_order ((j, c) ∷ order) k b rest e u =
    (ground arith, ground (arith, JsMap.delete_absent order j u.0), ground arith)

-- The length of an entry that is gone does not count.
exceeds-delete :
    (settings : CacheSettings) (sizes : JsMap ℕ) (k : ℕ) (order : JsMap Bool)
    → JsMap.get order k ≡ none
    → exceeds settings (JsMap.delete sizes k) order ≡ exceeds settings sizes order
unfolding exceeds
exceeds-delete settings sizes k order h = rw (sum_over-delete_size sizes k order h)

module _ {V : Type 0} where
  -- The running total gives the length of the JSON text of the cache.
  pub cache_size-json :
      (s : TupleSet V)
      → IsConsistent s
      → cache_size s ≡ json_object_size s.tuple_serialized_sizes s.tuple_access_order
  unfolding cache_size json_object_size
  cache_size-json s c = elim (Bool-cases (length s.tuple_serialized_sizes == 0)) [
    | inl e ↦
        let empty = (==_iff (length s.tuple_serialized_sizes) 0).0 e in
        rw e (
          omega
            (arith, c.same_length, sum_over-empty s.tuple_serialized_sizes s.tuple_access_order))
    | inr e ↦ rw e (omega (arith, c.same_length, c.total, none_zero e))
  ]
    where
      none_zero :
          (length s.tuple_serialized_sizes == 0) ≡ false → 0 < length s.tuple_serialized_sizes
      none_zero e = ground arith

  over_limits-exceeds :
      (s : TupleSet V)
      → IsConsistent s
      → over_limits s ≡ exceeds s.settings s.tuple_serialized_sizes s.tuple_access_order
  unfolding over_limits exceeds
  over_limits-exceeds s c = rw (cache_size-json s c)

  -- The first entry of the order leaves; `k` has a size, since it stands in the order.
  first_removed :
      (s : TupleSet V) (k : ℕ) (b : Bool) (rest : JsMap Bool)
      → IsConsistent s
      → s.tuple_access_order ≡ (k, b) ∷ rest
      → ((remove_tuple s k).tuple_access_order ≡ rest)
        × ((remove_tuple s k).tuple_serialized_sizes ≡ JsMap.delete s.tuple_serialized_sizes k)
        × ((remove_tuple s k).tuples ≡ Sparse.set s.tuples k none)
        × ((remove_tuple s k).settings ≡ s.settings)
        × (JsMap.get rest k ≡ none)
  unfolding remove_tuple
  first_removed s k b rest c e =
      let (found, cut, absent) = first_of_order s.tuple_access_order k b rest e c.order_unique in
      elim (Option-cases (JsMap.get s.tuple_serialized_sizes k)) [
        | inl g ↦ absurd (ground (arith, c.sized k))
        | inr (n, g) ↦ rw (g, remove_tuple) (cut, refl, refl, refl, absent)
      ]

  -- Nothing is evicted.
  stays :
      (s : TupleSet V)
      → IsConsistent s
      → (exceeds s.settings s.tuple_serialized_sizes s.tuple_access_order ≡ false)
        ⊎ (s.tuple_access_order ≡ [])
      → EvictsOldest s s
  stays s c w = record {
    dropped = 0;
    order = refl;
    kept = λ j h. refl;
    gone = λ j h. ground (arith, c.stored j);
    needed = λ m h. absurd (omega arith);
    within = w;
  }

  drop-removed :
      (s : TupleSet V) (k : ℕ) (b : Bool) (rest : JsMap Bool)
      → IsConsistent s
      → s.tuple_access_order ≡ (k, b) ∷ rest
      → (m : ℕ) → drop (suc m) s.tuple_access_order ≡ drop m (remove_tuple s k).tuple_access_order
  drop-removed s k b rest c e m =
      let (cut, _, _, _, _) = first_removed s k b rest c e in
      ap (drop (suc m)) e ∙ sym (ap (drop m) cut)

  -- What is exceeded after the first entry has left, in terms of the cache before.
  exceeds-removed :
      (s : TupleSet V) (k : ℕ) (b : Bool) (rest : JsMap Bool)
      → IsConsistent s
      → s.tuple_access_order ≡ (k, b) ∷ rest
      → (m : ℕ)
      → exceeds s.settings s.tuple_serialized_sizes (drop (suc m) s.tuple_access_order)
        ≡ exceeds
            (remove_tuple s k).settings
            (remove_tuple s k).tuple_serialized_sizes
            (drop m (remove_tuple s k).tuple_access_order)
  exceeds-removed s k b rest c e m =
      let (cut, sizes, _, settings, absent) = first_removed s k b rest c e in
      cc (
        drop-removed s k b rest c e m,
        ap (drop m) cut,
        sizes,
        settings,
        exceeds-delete s.settings s.tuple_serialized_sizes k (drop m rest)
            (get-drop-none m rest k absent),
      )

  module _ (s t : TupleSet V) (k : ℕ) (b : Bool) (rest : JsMap Bool) (c : IsConsistent s)
      (e : s.tuple_access_order ≡ (k, b) ∷ rest) where
    kept-removed :
        (m j : ℕ)
        → is_some (JsMap.get (drop (suc m) s.tuple_access_order) j) ≡ true
        → Sparse.get (remove_tuple s k).tuples j ≡ Sparse.get s.tuples j
    kept-removed m j h =
        let (_, _, tuples, _, absent) = first_removed s k b rest c e in
        let h' : is_some (JsMap.get (drop m rest) j) ≡ true = rw e at h in
        ground (arith, tuples, Sparse.get-set s.tuples k j none, get-drop-none m rest k absent)

    -- The first entry leaves, and the loop goes on.
    step : over_limits s ≡ true → EvictsOldest (remove_tuple s k) t → EvictsOldest s t
    step over v = record {
      dropped = suc v.dropped;
      order = v.order ∙ sym (removed v.dropped);
      kept = λ j h. v.kept j (rw (removed v.dropped) at h) ∙ kept-removed v.dropped j h;
      gone = λ j h. v.gone j (rw (removed v.dropped) at h);
      needed = need;
      within = elim v.within [
        | inl w ↦ inl (exceeds-removed s k b rest c e v.dropped ∙ w)
        | inr w ↦ inr (removed v.dropped ∙ w)
      ];
    }
      where
        removed :
            (m : ℕ)
            → drop (suc m) s.tuple_access_order ≡ drop m (remove_tuple s k).tuple_access_order
        removed = drop-removed s k b rest c e

        need :
            (m : ℕ)
            → m < suc v.dropped
            → exceeds s.settings s.tuple_serialized_sizes (drop m s.tuple_access_order) ≡ true
        need zero h = sym (over_limits-exceeds s c) ∙ over
        need (suc m) h = exceeds-removed s k b rest c e m ∙ v.needed m (omega arith)

  pub evict_within : (fuel : ℕ) (s : TupleSet V) → over_limits s ≡ false → evict fuel s ≡ s
  unfolding evict
  evict_within zero s h = refl
  evict_within (suc fuel) s h = rw (h, evict)

  evict_empty : (fuel : ℕ) (s : TupleSet V) → s.tuple_access_order ≡ [] → evict fuel s ≡ s
  unfolding evict
  evict_empty zero s h = refl
  evict_empty (suc fuel) s h = ground arith

  evict_step :
      (fuel : ℕ) (s : TupleSet V) (k : ℕ) (b : Bool) (rest : JsMap Bool)
      → over_limits s ≡ true
      → s.tuple_access_order ≡ (k, b) ∷ rest
      → evict (suc fuel) s ≡ evict fuel (remove_tuple s k)
  unfolding evict
  evict_step fuel s k b rest h e = ground arith

  evict_lem :
      (fuel : ℕ) (s : TupleSet V)
      → IsConsistent s
      → length s.tuple_access_order < fuel
      → EvictsOldest s (evict fuel s) × IsConsistent (evict fuel s)
  evict_lem zero s c h = absurd (omega arith)
  evict_lem (suc fuel) s c h = elim (Bool-cases (over_limits s)) [
    | inr e ↦
        rw (evict_within (suc fuel) s e) (stays s c (inl (sym (over_limits-exceeds s c) ∙ e)), c)
    | inl e ↦ go s.tuple_access_order refl e (evict_lem fuel)
  ]
    where
      go :
          (order : JsMap Bool)
          → s.tuple_access_order ≡ order
          → over_limits s ≡ true
          → ((r : TupleSet V)
              → IsConsistent r
              → length r.tuple_access_order < fuel
              → EvictsOldest r (evict fuel r) × IsConsistent (evict fuel r))
          → EvictsOldest s (evict (suc fuel) s) × IsConsistent (evict (suc fuel) s)
      go [] o e ih = rw (evict_empty (suc fuel) s o) (stays s c (inr o), c)
      go ((k, b) ∷ rest) o e ih =
          let r = remove_tuple s k in
          let (cut, _, _, _, _) = first_removed s k b rest c o in
          let shorter : length r.tuple_access_order < fuel =
            omega
              (arith, ap (λ (m : JsMap Bool). length m) cut, ap (λ (m : JsMap Bool). length m) o) in
          let (v, c') = ih r (remove_tuple-IsConsistent s k c) shorter in
          rw (evict_step fuel s k b rest e o) (step s (evict fuel r) k b rest c o e v, c')

  -- On a consistent cache, `#enforceCacheLimits` drops the least recently used tuples from the
  -- front of the access order, as few as bring the cache within both limits, or all; every
  -- other tuple stays as it was, and the cache stays consistent.
  pub enforce_cache_limits-EvictsOldest :
      (s : TupleSet V)
      → IsConsistent s
      → EvictsOldest s (enforce_cache_limits s) × IsConsistent (enforce_cache_limits s)
  unfolding enforce_cache_limits
  enforce_cache_limits-EvictsOldest s c =
      evict_lem (suc (length s.tuple_access_order)) s c (omega arith)
