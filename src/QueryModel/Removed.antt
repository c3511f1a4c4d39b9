-- ===== src/QueryModel/Removed.antt =====
-- QueryModel.js, `removeItem`: the item that it takes off an axis, and what it leaves.
use huey.Base.{
  ℕ, zero, suc, ◌+◌, ◌≡◌, refl, sym, ap, ◌∙◌, false, true, Option, none, some, List, [], ◌∷◌, ◌++◌,
  map, length, get_elem?, arith, Option-cases, Bool-cases, inl, inr, if◌then◌else◌,
}
use huey.QueryModel.Item.{Item, pos, AxisId, key, matches}
use huey.QueryModel.Axis
use huey.QueryModel.Axis.{find_index, delete_at, sync_from, sync_item_indices}
use huey.QueryModel.Model.{
  QueryModel, Axes, same_axis, items_on, set_items, find_item, sync, search_config, fire,
}
use huey.QueryModel.Operations.{remove_item}
use huey.QueryModel.WellFormed.{IsWellFormed, items_on-set_items, find_on-Found}
use huey.QueryModel.Adding.{remove_item-IsWellFormed}

-- An item, whatever its place on its axis.
unfoldable pub placeless : {V : Type 0} → Item V → Item V
placeless item = record item { index = none }

-- What is left, and what is returned, when `removeItem` takes an item off the axis `from`.
pub record Removes {V : Type 0} (m : QueryModel V) (config : Item V) (from : AxisId)
    (after : QueryModel V) (result : Option (Item V)) : Type 0 where
  pub item : Item V
  pub before : List (Item V)
  pub behind : List (Item V)
  pub same_key : key item ≡ key (search_config config)
  pub stood : items_on m.axes from ≡ before ++ item ∷ behind
  pub returned : result ≡ some (record item { index = some (pos (length before)) })
  pub left : map placeless (items_on after.axes from) ≡ map placeless (before ++ behind)
  pub numbered :
      (i : ℕ) (x : Item V)
      → get_elem? (items_on after.axes from) i ≡ some x
      → x.index ≡ some (pos i)
  pub others : (j : AxisId) → same_axis from j ≡ false → items_on after.axes j ≡ items_on m.axes j
  pub well_formed : IsWellFormed after.axes

same_axis_refl : (id : AxisId) → same_axis id id ≡ true
unfolding same_axis
same_axis_refl id = ground arith

module _ {V : Type 0} where
  placeless-sync_from :
      (i : ℕ) (items : List (Item V)) → map placeless (sync_from i items) ≡ map placeless items
  unfolding sync_from placeless
  placeless-sync_from i [] = refl
  placeless-sync_from i (item ∷ items) =
      ap (λ (l : List (Item V)). record item { index = none } ∷ l)
        (placeless-sync_from (suc i) items)

  get-sync_from :
      (n : ℕ) (items : List (Item V)) (i : ℕ) (x : Item V)
      → get_elem? (sync_from n items) i ≡ some x
      → x.index ≡ some (pos (n + i))
  unfolding sync_from
  get-sync_from n [] i x h = cc
  get-sync_from n (item ∷ items) zero x h =
      let at : n + 0 ≡ n = omega arith in rw at (ground (arith, h))
  get-sync_from n (item ∷ items) (suc i) x h =
      let at : n + suc i ≡ suc n + i = omega arith in rw at (get-sync_from (suc n) items i x h)

  find_index-splits :
      (config : Item V) (items : List (Item V)) (i : ℕ) (item : Item V)
      → find_index config items ≡ some (i, item)
      → (before : List (Item V)) × (behind : List (Item V)) × (items ≡ before ++ item ∷ behind)
        × (delete_at i items ≡ before ++ behind)
        × (i ≡ length before)
  unfolding find_index delete_at
  find_index-splits config [] i item h = cc
  find_index-splits config (first ∷ items) i item h = elim (Bool-cases (matches config first)) [
    | inl e ↦
        let at : i ≡ 0 = ground arith in
        let it : first ≡ item = ground arith in
        ([], items, ap (λ (x : Item V). x ∷ items) it, rw at refl, at)
    | inr e ↦ elim (Option-cases (find_index config items)) [
      | inl f ↦ cc
      | inr ((j, found), f) ↦
          let at : i ≡ suc j = ground arith in
          let it : found ≡ item = ground arith in
          let (before, behind, whole, rest, place) =
            find_index-splits config items j item (f ∙ ap (λ (x : Item V). some (j, x)) it) in
          (
            first ∷ before,
            behind,
            ap (λ (l : List (Item V)). first ∷ l) whole,
            rw at (ap (λ (l : List (Item V)). first ∷ l) rest),
            omega (arith, at, place),
          )
    ]
  ]

  removed-axes :
      (axes : Axes V) (from j : AxisId) (items : List (Item V))
      → items_on (sync (set_items axes from items) from) j
        ≡ (if same_axis from j then sync_from 0 items else items_on axes j)
  unfolding sync sync_item_indices
  removed-axes axes from j items =
      let taken = set_items axes from items in
      let here : items_on taken from ≡ items =
        rw (items_on-set_items axes from from items, same_axis_refl from) refl in
      ground (
        arith,
        items_on-set_items taken from j (sync_from 0 (items_on taken from)),
        items_on-set_items axes from j items,
        ap (sync_from 0) here,
      )

  remove_item-at :
      (m : QueryModel V) (config found item : Item V) (from : AxisId) (i : ℕ)
      → find_item m.axes (search_config config) ≡ some (from, found)
      → find_index found (items_on m.axes from) ≡ some (i, item)
      → ((remove_item m config).0.axes
          ≡ sync (set_items m.axes from (delete_at i (items_on m.axes from))) from)
        × ((remove_item m config).1 ≡ some (record item { index = some (pos i) }))
  unfolding remove_item Axis.remove_item fire
  remove_item-at m config found item from i h f = rw (h, f, remove_item) (refl, refl)

  -- On a query that has no item twice, when `findItem` finds the item that is searched for on
  -- an axis: `removeItem` returns an item of that axis with the key that was searched for and
  -- the place where it stood; it leaves on that axis all the other items, in their order and
  -- unchanged but for their places, numbered from 0; it leaves the other axes as they were,
  -- and no item twice in the query.
  pub remove_item-Removes :
      (m : QueryModel V) (config found : Item V) (from : AxisId)
      → IsWellFormed m.axes
      → find_item m.axes (search_config config) ≡ some (from, found)
      → let (after, result) = remove_item m config in Removes m config from after result
  unfolding find_item
  remove_item-Removes m config found from w h =
      let (i, item, f, same, _) = find_on-Found _ m.axes (search_config config) found from h in
      let (before, behind, whole, rest, place) =
        find_index-splits found (items_on m.axes from) i item f in
      let (axes, result) = remove_item-at m config found item from i h f in
      let items = delete_at i (items_on m.axes from) in
      let on : (j : AxisId)
          → items_on (remove_item m config).0.axes j
            ≡ (if same_axis from j then sync_from 0 items else items_on m.axes j) =
        λ j. ap (λ (a : Axes V). items_on a j) axes ∙ removed-axes m.axes from j items in
      let here : items_on (remove_item m config).0.axes from ≡ sync_from 0 items =
        ground (arith, on from, same_axis_refl from) in
      record {
        item = item;
        before = before;
        behind = behind;
        same_key = same;
        stood = whole;
        returned = result ∙ ap (λ k. some (record item { index = some (pos k) })) place;
        left = ap (map placeless) here ∙ placeless-sync_from 0 items ∙ ap (map placeless) rest;
        numbered = λ k x e.
            let at : k ≡ 0 + k = omega arith in
            get-sync_from 0 items k x (rw here at e) ∙ ap (λ n. some (pos n)) (sym at);
        others = λ j e. ground (arith, on j, e);
        well_formed = remove_item-IsWellFormed m config w;
      }
