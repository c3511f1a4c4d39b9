-- ===== src/QueryModel/WellFormed.antt =====
-- QueryModel.js: no item is twice in the query. It may stand on the filter axis, and on one of the
-- other axes; aggregated items stand on the cells axis.
use huey.Base.{
  ℕ, zero, suc, ◌+◌, ◌≤◌, ◌≡◌, refl, sym, ap, ◌∙◌, true, some, List, [], ◌∷◌, arith, if◌then◌else◌,
  Option-cases, Bool-cases, inl, inr, length,
}
use huey.QueryModel.Item.{Item, pos, AxisId, truthy, key, matches, matches-key}
use huey.QueryModel.Axis
use huey.QueryModel.Axis.{
  find_index, insert_at, delete_at, update_at, sync_item_indices, sync_from, target_index,
}
use huey.QueryModel.Occurrences.{
  occurrences, occurrences-insert_at, find_index-delete_at, find_index-same, occurrences-sync_from,
}
use huey.QueryModel.Model.{Axes, same_axis, items_on, set_items, find_on, place, sync}

-- The number of items that a configuration matches on the axes but the filter axis.
abbrev pub occurrences_shown : {V : Type 0} → Axes V → Item V → ℕ
occurrences_shown axes c =
    occurrences c axes.on_columns + occurrences c axes.on_rows + occurrences c axes.on_cells

pub record IsWellFormed {V : Type 0} (axes : Axes V) : Type 0 where
  pub once_shown : (c : Item V) → occurrences_shown axes c ≤ 1
  pub once_filtered : (c : Item V) → occurrences c axes.on_filters ≤ 1
  pub aggregated :
      (c : Item V)
      → truthy c.aggregator ≡ true
      → occurrences c axes.on_columns + occurrences c axes.on_rows ≡ 0

pub same_axis-eq : (id j : AxisId) → same_axis id j ≡ true → id ≡ j
unfolding same_axis
same_axis-eq id j h = ground arith

module _ {V : Type 0} where
  occurrences-update_axis :
      (c : Item V) (i : ℕ) (id : AxisId) (items : List (Item V))
      → occurrences c (update_at i (λ item. record item { axis = some id }) items)
        ≡ occurrences c items
  unfolding occurrences update_at matches
  occurrences-update_axis c i id [] = refl
  occurrences-update_axis c zero id (item ∷ items) = refl
  occurrences-update_axis c (suc i) id (item ∷ items) =
      omega (arith, occurrences-update_axis c i id items)

  pub items_on-set_items :
      (axes : Axes V) (id j : AxisId) (items : List (Item V))
      → items_on (set_items axes id items) j ≡ (if same_axis id j then items else items_on axes j)
  unfolding items_on set_items same_axis
  items_on-set_items axes id j items = ground arith

  -- Where one axis has new items, in number the old ones and `n` more.
  occurrences-set_items :
      (axes : Axes V) (id j : AxisId) (items : List (Item V)) (c : Item V) (n : ℕ)
      → occurrences c items ≡ n + occurrences c (items_on axes id)
      → occurrences c (items_on (set_items axes id items) j)
        ≡ (if same_axis id j then n else 0) + occurrences c (items_on axes j)
  occurrences-set_items axes id j items c n h =
      rw (items_on-set_items axes id j items) (elim (Bool-cases (same_axis id j)) [
        | inl e ↦ rw e (h ∙ ap (λ k. n + occurrences c (items_on axes k)) (same_axis-eq id j e))
        | inr e ↦ rw e (omega arith)
      ])

  pub occurrences-sync :
      (axes : Axes V) (id j : AxisId) (c : Item V)
      → occurrences c (items_on (sync axes id) j) ≡ occurrences c (items_on axes j)
  unfolding sync sync_item_indices
  occurrences-sync axes id j c = ground (
    arith,
    occurrences-set_items axes id j (sync_from 0 (items_on axes id)) c 0
        (omega (arith, occurrences-sync_from c 0 (items_on axes id))),
  )

  pub occurrences-place :
      (axes : Axes V) (id j : AxisId) (config c : Item V)
      → occurrences c (items_on (place axes id config).1 j)
        ≡ (if same_axis id j then (if matches c config then 1 else 0) else 0)
          + occurrences c (items_on axes j)
  unfolding place Axis.add_item matches
  occurrences-place axes id j config c = occurrences-set_items axes id j _ c _ (
      occurrences-update_axis c (target_index config.index (length (items_on axes id))) id _
      ∙ occurrences-insert_at c (Axis.add_item config (items_on axes id)).0
          (target_index config.index (length (items_on axes id))) (items_on axes id))

  -- What is taken off an axis counted once there.
  pub occurrences-remove :
      (axes : Axes V) (id j : AxisId) (found c item : Item V) (i : ℕ)
      → find_index found (items_on axes id) ≡ some (i, item)
      → occurrences c (items_on (set_items axes id (delete_at i (items_on axes id))) j)
          + (if same_axis id j then (if matches c item then 1 else 0) else 0)
        ≡ occurrences c (items_on axes j)
  occurrences-remove axes id j found c item i h =
      let (_, _, o) = find_index-delete_at c found (items_on axes id) i item h in
      rw (items_on-set_items axes id j (delete_at i (items_on axes id)))
        (elim (Bool-cases (same_axis id j)) [
          | inl e ↦ rw e (o ∙ ap (λ k. occurrences c (items_on axes k)) (same_axis-eq id j e))
          | inr e ↦ rw e (omega arith)
        ])

  -- An item that `findItem` finds on an axis has the key that was asked for, and is found there again.
  pub find_on-Found :
      (ids : List AxisId) (axes : Axes V) (config found : Item V) (id : AxisId)
      → find_on ids axes config ≡ some (id, found)
      → (i : ℕ) × (item : Item V) × (find_index found (items_on axes id) ≡ some (i, item))
        × (key item ≡ key config)
        × (key found ≡ key config)
  unfolding find_on Axis.find_item key
  find_on-Found [] axes config found id h = cc
  find_on-Found (k ∷ ids) axes config found id h =
      elim (Option-cases (find_index config (items_on axes k))) [
        | inl e ↦ find_on-Found ids axes config found id (rw (e, find_on) at h)
        | inr ((i, item), e) ↦
            let h' : some (k, record item { index = some (pos i); axis = some k })
                ≡ some (id, found) =
              rw (e, find_on) at h in
            let at : k ≡ id = ground arith in
            let it : record item { index = some (pos i); axis = some k } ≡ found = ground arith in
            let same : key item ≡ key config = sym (
              (matches-key config item).0
                (find_index-delete_at config config (items_on axes k) i item e).0) in
            let same' : key found ≡ key config = ap key (sym it) ∙ same in
            (
              i,
              item,
              find_index-same found config (items_on axes id) same'
                  ∙ ap (λ a. find_index config (items_on axes a)) (sym at)
                  ∙ e,
              same,
              same',
            )
      ]
