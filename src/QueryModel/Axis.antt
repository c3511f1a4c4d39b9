-- ===== src/QueryModel/Axis.antt =====
-- QueryAxis.js: the items of one axis, in their order.
use huey.Base.{
  ℕ, zero, suc, true, false, Option, none, some, List, [], ◌∷◌, ltb, length, if◌then◌else◌,
}
use huey.QueryModel.Item.{Item, ℤ, pos, negsuc, matches}

-- Where a new item goes: to the end without an index, otherwise at the index, kept within the axis.
unfoldable pub target_index : Option ℤ → ℕ → ℕ
target_index none count = count
target_index (some (negsuc n)) count = 0
target_index (some (pos n)) count = if ltb count n then count else n

module _ {V : Type 0} where
  -- `findIndex`, with the item that is found.
  unfoldable pub find_index : Item V → List (Item V) → Option (ℕ × Item V)
  find_index config [] = none
  find_index config (item ∷ items) =
      let rest : Option (ℕ × Item V) = elim (find_index config items) [
        | none ↦ none
        | some found ↦ some (suc found.0, found.1)
      ] in
      if matches config item then some (0, item) else rest

  -- A copy of the item, with its place on the axis.
  unfoldable pub find_item : Item V → List (Item V) → Option (Item V)
  unfolding find_index
  find_item config items = elim (find_index config items) [
    | none ↦ none
    | some found ↦ some (record found.1 { index = some (pos found.0) })
  ]

  -- `splice(index, 0, item)` and `splice(index, 1)`.
  unfoldable pub insert_at : ℕ → Item V → List (Item V) → List (Item V)
  insert_at zero item items = item ∷ items
  insert_at (suc i) item [] = item ∷ []
  insert_at (suc i) item (first ∷ items) = first ∷ insert_at i item items

  unfoldable pub delete_at : ℕ → List (Item V) → List (Item V)
  delete_at i [] = []
  delete_at zero (item ∷ items) = items
  delete_at (suc i) (item ∷ items) = item ∷ delete_at i items

  -- The item that is stored, and the axis with it.
  unfoldable pub add_item : Item V → List (Item V) → Item V × List (Item V)
  unfolding target_index insert_at
  add_item config items =
      let i = target_index config.index (length items) in
      let added = record config { index = some (pos i); axis = none } in
      (added, insert_at i added items)

  unfoldable pub remove_item : Item V → List (Item V) → Option (Item V × List (Item V))
  unfolding find_index delete_at
  remove_item config items = elim (find_index config items) [
    | none ↦ none
    | some found ↦ some (record found.1 { index = some (pos found.0) }, delete_at found.0 items)
  ]

  unfoldable pub sync_from : ℕ → List (Item V) → List (Item V)
  sync_from i [] = []
  sync_from i (item ∷ items) = record item { index = some (pos i) } ∷ sync_from (suc i) items

  unfoldable pub sync_item_indices : List (Item V) → List (Item V)
  unfolding sync_from
  sync_item_indices items = sync_from 0 items

  -- The items with totals, `none` where there are none.
  unfoldable pub totals_of : List (Item V) → List (Item V)
  totals_of [] = []
  totals_of (item ∷ items) =
      let rest = totals_of items in
      elim item.include_totals [ none ↦ rest | some true ↦ item ∷ rest | some false ↦ rest ]

  unfoldable pub get_totals_items : List (Item V) → Option (List (Item V))
  unfolding totals_of
  get_totals_items items = elim (totals_of items) as (λ x. Option (List (Item V))) [
    | [] ↦ none
    | item ∷ rest ↦ some (item ∷ rest)
  ]

  -- The item at a place, changed in place.
  unfoldable pub update_at : ℕ → (Item V → Item V) → List (Item V) → List (Item V)
  update_at i f [] = []
  update_at zero f (item ∷ items) = f item ∷ items
  update_at (suc i) f (item ∷ items) = item ∷ update_at i f items
