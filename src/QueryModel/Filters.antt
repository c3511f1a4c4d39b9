-- ===== src/QueryModel/Filters.antt =====
-- QueryModel.js: `setQueryAxisItemFilter` and `setQueryAxisItemFilterToggleState`.
use huey.Base.{
  ℕ, suc, ◌≡◌, refl, sym, ap, ◌∙◌, Bool, true, false, Option, none, some, List, [], ◌∷◌, String,
  arith, if◌then◌else◌, get_elem?, Option-cases, Bool-cases, inl, inr,
}
use huey.Base.Result.{Result, ok, throw, type_error, error}
use huey.QueryModel.Item.{
  Item, Filter, pos, negsuc, AxisId, filters, key, matches, matches-same_item,
}
use huey.QueryModel.Axis
use huey.QueryModel.Axis.{find_index, update_at}
use huey.QueryModel.Occurrences.{find_index-delete_at}
use huey.QueryModel.Model.{
  QueryModel, Axes, item_changed, before_change, same_axis, items_on, set_items, find_item, find_on,
  searched, fire, announce,
}
use huey.QueryModel.Operations.{update_found}

module _ {V : Type 0} where
  -- `items[queryModelItem.index]`
  unfoldable pub stored_item : Axes V → AxisId → Item V → Option (Item V)
  unfolding items_on
  stored_item axes id found = elim found.index [
    | none ↦ none
    | some (negsuc n) ↦ none
    | some (pos i) ↦ get_elem? (items_on axes id) i
  ]

  unfoldable pub is_filter_item : Item V → Bool
  unfolding same_axis
  is_filter_item item = elim item.axis [ none ↦ false | some id ↦ same_axis id filters ]

  -- The filter that is stored: none without values, otherwise with the old toggle state, or closed.
  unfoldable pub new_filter : Option (Filter V) → Filter V → Option (Filter V)
  new_filter old filter = elim filter.values as (λ x. Option (Filter V)) [
    | [] ↦ none
    | value ∷ values ↦ some (record filter {
      toggle_state = elim old as (λ x. Option String) [
        | none ↦ some "closed"
        | some o ↦ o.toggle_state
      ];
    })
  ]

-- `item_id` is the id of an item, which throws for an aggregator or derivation that is not known.
module _ {V : Type 0} (item_id : Item V → Result String) where
  unfoldable pub set_query_axis_item_filter :
      QueryModel V → Item V → Filter V → QueryModel V × Result {0} Unit
  unfolding is_filter_item find_item new_filter stored_item announce update_found
  set_query_axis_item_filter m item filter =
      if is_filter_item item
      then elim (find_item m.axes item) [
        | none ↦ (m, throw (error "Item is not part of the model!"))
        | some (id, found) ↦ elim (stored_item m.axes id found) [
          | none ↦ (m, throw type_error)
          | some stored ↦ elim (item_id stored) [
            | throw e ↦ (m, throw e)
            | ok name ↦ (
              announce m (item_changed id name) (λ m. record m {
                axes =
                    update_found m.axes id found
                      (λ i. record i { filter = new_filter item.filter filter });
              }),
              ok tt,
            )
          ]
        ]
      ]
      else (m, throw (error "Item is not a filter axis item!"))

  -- An item without a filter makes the assignment throw, when `beforechange` has been fired.
  unfoldable pub set_query_axis_item_filter_toggle_state :
      QueryModel V → Item V → String → QueryModel V × Result {0} Unit
  unfolding is_filter_item find_item stored_item announce fire update_found
  set_query_axis_item_filter_toggle_state m item toggle_state =
      if is_filter_item item
      then elim (find_item m.axes item) [
        | none ↦ (m, throw (error "Item is not part of the model!"))
        | some (id, found) ↦ elim (stored_item m.axes id found) [
          | none ↦ (m, throw type_error)
          | some stored ↦ elim (item_id stored) [
            | throw e ↦ (m, throw e)
            | ok name ↦ elim stored.filter [
              | none ↦ (fire m (before_change (item_changed id name)), throw type_error)
              | some filter ↦ (
                announce m (item_changed id name) (λ m. record m {
                  axes = update_found m.axes id found (λ i. record i {
                    filter = some (record filter { toggle_state = some toggle_state });
                  });
                }),
                ok tt,
              )
            ]
          ]
        ]
      ]
      else (m, throw (error "Item is not a filter axis item!"))

module _ {V : Type 0} where
  -- An item that is changed in place, but for what it is found by, is found where it was.
  find_index-update_at :
      (c : Item V) (f : Item V → Item V) (items : List (Item V)) (i : ℕ) (item : Item V)
      → ((x : Item V) → key (f x) ≡ key x)
      → find_index c items ≡ some (i, item)
      → find_index c (update_at i f items) ≡ some (i, f item)
  unfolding find_index update_at
  find_index-update_at c f [] i item k h = cc
  find_index-update_at c f (first ∷ items) i item k h = elim (Bool-cases (matches c first)) [
    | inl e ↦
        let at : i ≡ 0 = ground arith in
        let it : first ≡ item = ground arith in
        rw at (ground (arith, matches-same_item c (f first) first (k first), ap f it))
    | inr e ↦ elim (Option-cases (find_index c items)) [
      | inl g ↦ cc
      | inr ((j, found), g) ↦
          let at : i ≡ suc j = ground arith in
          let it : found ≡ item = ground arith in
          rw at (ground (arith, find_index-update_at c f items j found k g, ap f it))
    ]
  ]

  find_item-filters :
      (axes : Axes V) (item : Item V)
      → item.axis ≡ some filters
      → (found : Item V) → find_item axes item ≡ some (filters, found)
      → (i : ℕ) × (stored : Item V) × (find_index item axes.on_filters ≡ some (i, stored))
        × (found ≡ record stored { index = some (pos i); axis = some filters })
  unfolding find_item searched find_on Axis.find_item items_on
  find_item-filters axes item a found h = elim (Option-cases (find_index item axes.on_filters)) [
    | inl e ↦ absurd (ground arith)
    | inr ((i, stored), e) ↦ (i, stored, e, ground arith)
  ]

  find_item-at :
      (axes : Axes V) (item stored : Item V) (i : ℕ)
      → item.axis ≡ some filters
      → find_index item axes.on_filters ≡ some (i, stored)
      → find_item axes item
        ≡ some (filters, record stored { index = some (pos i); axis = some filters })
  unfolding find_item searched find_on Axis.find_item items_on
  find_item-at axes item stored i a e = ground arith

  update_found-at :
      (axes : Axes V) (found : Item V) (i : ℕ) (f : Item V → Item V)
      → found.index ≡ some (pos i)
      → update_found axes filters found f
        ≡ record axes { on_filters = update_at i f axes.on_filters }
  unfolding update_found items_on set_items
  update_found-at axes found i f x = rw (x, update_found) refl

  -- The filter that an item of the filter axis is left with.
  pub record Stores (old : Option (Filter V)) (filter : Filter V) (stored : Option (Filter V))
      : Type 0 where
    pub emptied : filter.values ≡ [] → stored ≡ none
    pub kept :
        (value : String × V) (values : List (String × V)) (o : Filter V)
        → filter.values ≡ value ∷ values
        → old ≡ some o
        → stored ≡ some (record filter { toggle_state = o.toggle_state })
    pub closed :
        (value : String × V) (values : List (String × V))
        → filter.values ≡ value ∷ values
        → old ≡ none
        → stored ≡ some (record filter { toggle_state = some "closed" })

  new_filter-Stores :
      (old : Option (Filter V)) (filter : Filter V) → Stores old filter (new_filter old filter)
  unfolding new_filter
  new_filter-Stores old filter = record {
    emptied = λ e. rw (e, new_filter) refl;
    kept = λ value values o e f. ground (arith, e, f);
    closed = λ value values e f. ground (arith, e, f);
  }

module _ {V : Type 0} (item_id : Item V → Result String) where
  set_filter-stored :
      (m : QueryModel V) (item found stored : Item V) (filter : Filter V) (i : ℕ) (name : String)
      → is_filter_item item ≡ true
      → find_item m.axes item ≡ some (filters, found)
      → found.index ≡ some (pos i)
      → get_elem? m.axes.on_filters i ≡ some stored
      → item_id stored ≡ ok name
      → ((set_query_axis_item_filter item_id m item filter).1 ≡ ok tt)
        × ((set_query_axis_item_filter item_id m item filter).0.axes ≡ record m.axes {
          on_filters =
              update_at i
                (λ x. record x { filter = new_filter item.filter filter })
                m.axes.on_filters;
        })
  unfolding set_query_axis_item_filter announce fire stored_item items_on
  set_filter-stored m item found stored filter i name a h x s n =
      rw (a, h, x, s, n, set_query_axis_item_filter, stored_item)
        (
          refl,
          update_found-at m.axes found i (λ x. record x { filter = new_filter item.filter filter })
              x,
        )

  -- `setQueryAxisItemFilter` on an item of the filter axis that is part of the model, where
  -- the ids of items can be made, returns, and then `findItem` finds the item where it was,
  -- with another filter: none when the new filter has no values; the new filter with the
  -- toggle state of the filter of the item that was passed, when that has one; the new filter
  -- with the toggle state closed otherwise; and the other axes are as they were.
  pub set_query_axis_item_filter-find_item :
      (m : QueryModel V) (item found : Item V) (filter : Filter V)
      → item.axis ≡ some filters
      → find_item m.axes item ≡ some (filters, found)
      → ((x : Item V) → (name : String) × (item_id x ≡ ok name))
      → let (after, result) = set_query_axis_item_filter item_id m item filter in
        (stored : Option (Filter V)) × Stores item.filter filter stored
        × (result ≡ ok tt)
        × (find_item after.axes item ≡ some (filters, record found { filter = stored }))
        × (after.axes.on_columns ≡ m.axes.on_columns)
        × (after.axes.on_rows ≡ m.axes.on_rows)
        × (after.axes.on_cells ≡ m.axes.on_cells)
  unfolding is_filter_item same_axis key
  set_query_axis_item_filter-find_item m item found filter a h ids =
      let (i, stored, e, it) = find_item-filters m.axes item a found h in
      let (_, at, _) = find_index-delete_at item item m.axes.on_filters i stored e in
      let (name, n) = ids stored in
      let indexed : found.index ≡ some (pos i) = ap (λ (x : Item V). x.index) it in
      let (returns, axes) =
        set_filter-stored m item found stored filter i name (ground arith) h indexed at n in
      let f : Item V → Item V = λ x. record x { filter = new_filter item.filter filter } in
      let there = find_index-update_at item f m.axes.on_filters i stored (λ x. refl) e in
      (
        new_filter item.filter filter,
        new_filter-Stores item.filter filter,
        returns,
        ap (λ (x : Axes V). find_item x item) axes
            ∙ find_item-at (record m.axes { on_filters = update_at i f m.axes.on_filters }) item
                (f stored) i a there
            ∙ ap (λ (x : Item V). some (filters, f x)) (sym it),
        ap (λ (x : Axes V). x.on_columns) axes,
        ap (λ (x : Axes V). x.on_rows) axes,
        ap (λ (x : Axes V). x.on_cells) axes,
      )
