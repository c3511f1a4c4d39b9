-- ===== src/QueryModel/Adding.antt =====
-- QueryModel.js: `addItem`, `moveItem` and `removeItem` leave no item in the query twice.
use huey.Base.{
  ◌≡◌, ◌≢◌, refl, sym, ap, ◌∙◌, Bool, true, false, Option, none, some, List, [], ◌∷◌, String, arith,
  if◌then◌else◌, Option-cases, Bool-cases, inl, inr, ◌⊎◌, ◌+◌, ◌≤◌, ℕ, subst,
}
use huey.Base.Result.{Result, ok, Result-cases}
use huey.QueryModel.Item.{Item, AxisId, filters, columns, rows, cells, truthy, key, matches}
use huey.QueryModel.Axis
use huey.QueryModel.Axis.{find_index, delete_at}
use huey.QueryModel.Occurrences.{occurrences}
use huey.QueryModel.Model.{
  QueryModel, Axes, same_axis, items_on, set_items, find_item, find_on, searched, sync, move_to,
  search_config, axis_for, fire,
}
use huey.QueryModel.Operations.{
  fill, inherit_filter, unmoved, relocate, add_filled, add_found, add_item, remove_item,
}
use huey.QueryModel.WellFormed.{
  IsWellFormed, same_axis-eq, occurrences-sync, occurrences-remove, find_on-Found,
}
use huey.QueryModel.Kept.{
  shown_axes, count_on, aggregator-same, move_to-found, move_to-none, placed-shown, placed-filters,
  moved-IsWellFormed,
}
use huey.QueryModel.Filling.{fill-key}

-- An aggregated item is not asked for on the columns or rows axis.
unfoldable pub PlacesAggregated : {V : Type 0} → Item V → Type 0
PlacesAggregated config =
    truthy config.aggregator ≡ true → (config.axis ≢ some columns) × (config.axis ≢ some rows)

-- All of these axes are the filter axis, or none is.
AllFiltered : Bool → List AxisId → Type 0
AllFiltered b [] = Unit
AllFiltered b (id ∷ ids) = (same_axis id filters ≡ b) × AllFiltered b ids

searched_for-filtered :
    (id : AxisId) (aggregated : Bool)
    → AllFiltered
        (same_axis id filters)
        (if same_axis id filters then filters ∷ [] else shown_axes aggregated)
unfolding AllFiltered same_axis
searched_for-filtered id true = ground arith
searched_for-filtered id false = ground arith

filters-same_axis : (id : AxisId) → same_axis id filters ≡ false → id ≢ filters
unfolding same_axis
filters-same_axis id h = ground arith

module _ {V : Type 0} where
  inherit_filter-key :
      (id : AxisId) (found : Option (Item V)) (config : Item V)
      → key (inherit_filter id found config) ≡ key config
  unfolding inherit_filter key
  inherit_filter-key id found config = ground arith

  -- The axes after an item is moved, if it can be.
  relocate-axes :
      (m : QueryModel V) (id : AxisId) (config added : Item V) (found : Option (AxisId × Item V))
      (axes' : Axes V)
      → move_to m.axes id config found ≡ some (added, axes')
      → (relocate m id config found).0.axes ≡ axes'
  unfolding relocate fire
  relocate-axes m id config added found axes' h = rw (h, relocate) refl

  -- The axes are left alone, or the item is moved.
  add_filled-cases :
      (m : QueryModel V) (id : AxisId) (config : Item V) (found : Option (AxisId × Item V))
      → ((add_filled m id config found).0 ≡ m)
        ⊎ ((config' : Item V) × (key config' ≡ key config)
            × ((add_filled m id config found) ≡ relocate m id config' found))
  unfolding add_filled
  add_filled-cases m id config found = elim (Option-cases (unmoved m.axes id config found)) [
    | inl e ↦
        let item : Option (Item V) = elim found [ none ↦ none | some f ↦ some f.1 ] in
        inr (
          inherit_filter id item config,
          inherit_filter-key id item config,
          rw (e, add_filled) refl,
        )
    | inr (item, e) ↦ inl (rw (e, add_filled) refl)
  ]

  -- Where `addItem` looks.
  pub searched-search_config :
      (config : Item V) (id : AxisId)
      → (searched (search_config (record config { axis = some id }))
          ≡ (if same_axis id filters then filters ∷ [] else shown_axes (truthy config.aggregator)))
        × (key (search_config (record config { axis = some id })) ≡ key config)
  unfolding searched search_config same_axis key
  searched-search_config config id = ground arith

  find_on-filtered :
      (b : Bool) (ids : List AxisId) (axes : Axes V) (config found : Item V) (from : AxisId)
      → AllFiltered b ids
      → find_on ids axes config ≡ some (from, found)
      → same_axis from filters ≡ b
  unfolding find_on AllFiltered
  find_on-filtered b [] axes config found from a h = cc
  find_on-filtered b (id ∷ ids) axes config found from a h =
      elim (Option-cases (Axis.find_item config (items_on axes id))) [
        | inl e ↦ find_on-filtered b ids axes config found from a.1 (rw (e, find_on) at h)
        | inr (item, e) ↦ ground arith
      ]

  axis_for-placed :
      (config : Item V) (id : AxisId)
      → PlacesAggregated config
      → axis_for config ≡ ok id
      → truthy config.aggregator ≡ true
      → (id ≢ columns) × (id ≢ rows)
  unfolding axis_for PlacesAggregated
  axis_for-placed config id places h t = elim (Option-cases config.axis) [
    | inl e ↦ let at : id ≡ cells = ground arith in (λ f. ground arith, λ f. ground arith)
    | inr (j, e) ↦
        let at : id ≡ j = ground arith in
        (λ f. (places t).0 (e ∙ ap some (sym at ∙ f)), λ f. (places t).1 (e ∙ ap some (sym at ∙ f)))
  ]

  -- The moved item, or the new one, is in the query once.
  relocate-IsWellFormed :
      (m : QueryModel V) (id : AxisId) (config config' : Item V) (found : Option (AxisId × Item V))
      → IsWellFormed m.axes
      → find_item m.axes (search_config (record config { axis = some id })) ≡ found
      → key config' ≡ key config
      → (truthy config.aggregator ≡ true → (id ≢ columns) × (id ≢ rows))
      → IsWellFormed (relocate m id config' found).0.axes
  unfolding find_item
  relocate-IsWellFormed m id config config' none w h k places =
      let wanted = search_config (record config { axis = some id }) in
      let (s, same) = searched-search_config config id in
      let same' : key wanted ≡ key config' = same ∙ sym k in
      let agg = aggregator-same config' config k in
      let (added, axes', e, counts) = move_to-none m.axes config' id in
      rw (relocate-axes m id config' added none axes' e) (elim (Bool-cases (same_axis id filters)) [
        | inl f ↦
            let h' : find_on (filters ∷ []) m.axes wanted ≡ none = rw f at (rw s at h) in
            placed-filters m.axes axes' config' wanted w h' same' (
              subst
                (λ (i : AxisId).
                  (j : AxisId) (c : Item V)
                  → occurrences c (items_on axes' j)
                    ≡ count_on i j (matches c config') + occurrences c (items_on m.axes j))
                (same_axis-eq id filters f) counts)
        | inr f ↦
            let h' : find_on (shown_axes (truthy config.aggregator)) m.axes wanted ≡ none =
              rw f at (rw s at h) in
            placed-shown m.axes axes' config' wanted id w (filters-same_axis id f) (rw agg h') same'
              (λ t. places (sym agg ∙ t)) counts
      ])
  relocate-IsWellFormed m id config config' (some (from, found)) w h k places =
      let (s, same) = searched-search_config config id in
      let agg = aggregator-same config' config k in
      let h' : find_on
            (if same_axis id filters then filters ∷ [] else shown_axes (truthy config.aggregator))
            m.axes (search_config (record config { axis = some id }))
          ≡ some (from, found) =
        rw s at h in
      let (added, axes', e, counts) =
        move_to-found m.axes _ config' _ found id from h (same ∙ sym k) in
      rw (relocate-axes m id config' added (some (from, found)) axes' e) (
        moved-IsWellFormed m.axes axes' config' id from w
          (sym (
            find_on-filtered (same_axis id filters) _ m.axes _ found from
              (searched_for-filtered id (truthy config.aggregator)) h'))
          (λ t. places (sym agg ∙ t)) counts)

module _ {V : Type 0} (get_column_metadata : V → List (String × String))
    (create_formatter : Item V → Result (Option V))
    (create_literal_writer : Item V → Result (Option V))
    (create_parser : Item V → Result (Option V)) where
  -- `addItem` behind the search leaves the axes alone, or moves an item with the same key.
  pub add_found-cases :
      (m : QueryModel V) (id : AxisId) (config : Item V) (found : Option (AxisId × Item V))
      → ((add_found get_column_metadata create_formatter create_literal_writer create_parser m id
            config found).0
          ≡ m)
        ⊎ ((config' : Item V) × (key config' ≡ key config)
            × (add_found get_column_metadata create_formatter create_literal_writer create_parser m
                  id config found
                ≡ relocate m id config' found))
  unfolding add_found
  add_found-cases m id config found =
      let item : Option (Item V) = elim found [ none ↦ none | some f ↦ some f.1 ] in
      elim (Result-cases (
        fill get_column_metadata create_formatter create_literal_writer create_parser m.datasource
          item config)) [
            | inr (e, h) ↦ inl (rw (h, add_found) refl)
            | inl (filled, h) ↦
                let same =
                  fill-key get_column_metadata create_formatter create_literal_writer create_parser
                    m.datasource item config filled h in
                rw (h, add_found)
                  (elim (add_filled-cases m id filled found) [
                    | inl g ↦ inl g
                    | inr (config', k, g) ↦ inr (config', k ∙ same, g)
                  ])
          ]

  -- `addItem`, whether it returns or throws, keeps every item from being in the query twice:
  -- at most once on the filter axis and once on the other axes, with no aggregated item on the
  -- columns or rows axis; provided that an aggregated item is not asked for on the columns or
  -- rows axis.
  pub add_item-IsWellFormed :
      (m : QueryModel V) (config : Item V)
      → IsWellFormed m.axes
      → PlacesAggregated config
      → IsWellFormed
          (add_item get_column_metadata create_formatter create_literal_writer create_parser m
            config).0.axes
  unfolding add_item PlacesAggregated axis_for
  add_item-IsWellFormed m config w places = elim (Result-cases (axis_for config)) [
    | inr (e, h) ↦ rw (h, add_item) w
    | inl (id, h) ↦
        let placed = record config { axis = some id } in
        let found = find_item m.axes (search_config placed) in
        rw (h, add_item)
          (elim (add_found-cases m id placed found) [
            | inl e ↦ rw e w
            | inr (config', k, e) ↦ rw e (
                relocate-IsWellFormed m id placed config' found w refl k
                  (λ t. axis_for-placed config id places h t))
          ])
  ]

module _ {V : Type 0} where
  fewer-IsWellFormed :
      (axes axes' : Axes V)
      → IsWellFormed axes
      → ((j : AxisId) (c : Item V)
          → occurrences c (items_on axes' j) ≤ occurrences c (items_on axes j))
      → IsWellFormed axes'
  unfolding items_on
  fewer-IsWellFormed axes axes' w less = record {
    once_shown = λ c. omega (arith, less columns c, less rows c, less cells c, w.once_shown c);
    once_filtered = λ c. omega (arith, less filters c, w.once_filtered c);
    aggregated = λ c t. omega (arith, less columns c, less rows c, w.aggregated c t);
  }

  -- `removeItem` keeps every item from being in the query twice: at most once on the filter
  -- axis and once on the other axes, with no aggregated item on the columns or rows axis.
  pub remove_item-IsWellFormed :
      (m : QueryModel V) (config : Item V)
      → IsWellFormed m.axes
      → IsWellFormed (remove_item m config).0.axes
  unfolding remove_item find_item fire Axis.remove_item
  remove_item-IsWellFormed m config w =
      elim (Option-cases (find_item m.axes (search_config config))) [
        | inl e ↦ rw (e, remove_item) w
        | inr ((from, found), e) ↦
            let (i, item, f, _, _) = find_on-Found _ m.axes (search_config config) found from e in
            rw (e, f, remove_item) (removed m.axes found item from i w f)
      ]
    where
      removed :
          (axes : Axes V) (found item : Item V) (from : AxisId) (i : ℕ)
          → IsWellFormed axes
          → find_index found (items_on axes from) ≡ some (i, item)
          → IsWellFormed (sync (set_items axes from (delete_at i (items_on axes from))) from)
      removed axes found item from i w f =
          let taken = set_items axes from (delete_at i (items_on axes from)) in
          let less : (j : AxisId) (c : Item V)
              → occurrences c (items_on (sync taken from) j) ≤ occurrences c (items_on axes j) =
            λ j c. omega (
              arith,
              occurrences-sync taken from j c,
              occurrences-remove axes from j found c item i f,
            ) in
          fewer-IsWellFormed axes (sync taken from) w less
