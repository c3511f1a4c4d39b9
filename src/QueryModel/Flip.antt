-- ===== src/QueryModel/Flip.antt =====
-- QueryModel.js: `flipAxes`, and the setters of the other properties of the model.
use huey.Base.{
  ◌≡◌, refl, sym, ap, ◌∙◌, Bool, true, false, ◌&&◌, Option, none, some, List, [], ◌∷◌, arith,
  if◌then◌else◌, Bool-cases, inl, inr,
}
use huey.Base.Result.{Result, ok, throw, type_error}
use huey.QueryModel.Item.{Item, AxisId, filters, columns, rows, cells}
use huey.QueryModel.Model.{
  QueryModel, Axes, axes_changed, cell_headers_axis_changed, datasource_changed, same_axis,
  items_on, set_items, fire, announce,
}
use huey.QueryModel.Operations.{clear_axes, axis_ids}
use huey.QueryModel.WellFormed.{items_on-set_items, same_axis-eq}

-- The axes that are flipped; `none` where `getQueryAxis` finds no axis.
unfoldable pub flipped_axes : Option AxisId → Option AxisId → Option (AxisId × AxisId)
flipped_axes none none = some (columns, rows)
flipped_axes (some columns) none = some (columns, rows)
flipped_axes (some rows) none = some (rows, columns)
flipped_axes (some filters) none = none
flipped_axes (some cells) none = none
flipped_axes none (some id2) = none
flipped_axes (some id1) (some id2) = some (id1, id2)

same_axis_refl : (i : AxisId) → same_axis i i ≡ true
unfolding same_axis
same_axis_refl i = ground arith

same_axis-sym : (i j : AxisId) → same_axis i j ≡ same_axis j i
unfolding same_axis
same_axis-sym i j = ground arith

module _ {V : Type 0} where
  -- Copies of the items, that are told another axis.
  unfoldable pub on_axis : AxisId → List (Item V) → List (Item V)
  on_axis id [] = []
  on_axis id (item ∷ items) = record item { axis = some id } ∷ on_axis id items

  unfoldable pub is_empty : List (Item V) → Bool
  is_empty [] = true
  is_empty (item ∷ items) = false

  unfoldable pub exchange : QueryModel V → AxisId → AxisId → QueryModel V
  unfolding on_axis items_on set_items announce is_empty
  exchange m id1 id2 =
      let items1 = items_on m.axes id1 in
      let items2 = items_on m.axes id2 in
      let added1 = on_axis id1 items2 in
      let added2 = on_axis id2 items1 in
      if is_empty items1 && is_empty items2
      then m
      else announce m
          (axes_changed (
            (id1, record { added = added1; removed = items1 })
            ∷ (id2, record { added = added2; removed = items2 })
            ∷ []))
          (λ m. record m { axes = set_items (set_items m.axes id1 added1) id2 added2 })

  unfoldable pub flip_axes :
      QueryModel V → Option AxisId → Option AxisId → QueryModel V × Result {0} Unit
  unfolding flipped_axes exchange
  flip_axes m axis_id1 axis_id2 = elim (flipped_axes axis_id1 axis_id2) [
    | none ↦ (m, throw type_error)
    | some ids ↦ (exchange m ids.0 ids.1, ok tt)
  ]

  unfoldable pub set_cell_headers_axis : QueryModel V → AxisId → QueryModel V
  unfolding same_axis announce
  set_cell_headers_axis m id =
      if same_axis id m.cell_headers_axis
      then m
      else announce m (cell_headers_axis_changed m.cell_headers_axis id)
          (λ m. record m { cell_headers_axis = id })

  -- `same_datasource` is the identity of objects, and of `undefined`.
  unfoldable pub set_datasource :
      (Option V → Option V → Bool) → QueryModel V → Option V → Bool → QueryModel V
  unfolding announce clear_axes
  set_datasource same_datasource m datasource dont_clear =
      if same_datasource datasource m.datasource
      then m
      else announce m (datasource_changed m.datasource datasource) (λ m. record m {
        axes = if dont_clear then m.axes else clear_axes axis_ids m.axes;
        datasource = datasource;
      })

  -- Every item says that it stands on this axis.
  unfoldable pub OnAxis : AxisId → List (Item V) → Type 0
  OnAxis id [] = Unit
  OnAxis id (item ∷ items) = (item.axis ≡ some id) × OnAxis id items

  on_axis-same :
      (id other : AxisId) (items : List (Item V))
      → OnAxis id items
      → on_axis id (on_axis other items) ≡ items
  unfolding on_axis OnAxis
  on_axis-same id other [] h = refl
  on_axis-same id other (item ∷ items) h =
      let rest = on_axis-same id other items h.1 in
      let here : record item { axis = some id } ≡ item = ground arith in
      ap (λ (i : Item V). i ∷ on_axis id (on_axis other items)) here
      ∙ ap (λ (l : List (Item V)). item ∷ l) rest

  Axes-ext : (a b : Axes V) → ((j : AxisId) → items_on a j ≡ items_on b j) → a ≡ b
  unfolding items_on
  Axes-ext a b h =
      let f : a.on_filters ≡ b.on_filters = h filters in
      let c : a.on_columns ≡ b.on_columns = h columns in
      let r : a.on_rows ≡ b.on_rows = h rows in let e : a.on_cells ≡ b.on_cells = h cells in cc

  is_empty-nil : (items : List (Item V)) → is_empty items ≡ true → items ≡ []
  unfolding is_empty
  is_empty-nil items h = ground arith

  -- What stands on each axis after an exchange.
  exchange-items :
      (m : QueryModel V) (i j k : AxisId)
      → items_on (exchange m i j).axes k ≡ (
          if same_axis j k
          then on_axis j (items_on m.axes i)
          else if same_axis i k
          then on_axis i (items_on m.axes j)
          else items_on m.axes k)
  unfolding exchange announce fire on_axis
  exchange-items m i j k =
      elim (Bool-cases (is_empty (items_on m.axes i) && is_empty (items_on m.axes j))) [
        | inl e ↦
            rw (e, exchange)
              (empty (is_empty-nil (items_on m.axes i) (ground arith))
                (is_empty-nil (items_on m.axes j) (ground arith)))
        | inr e ↦
            rw (e, exchange)
              (items_on-set_items (set_items m.axes i (on_axis i (items_on m.axes j))) j k
                  (on_axis j (items_on m.axes i))
                ∙ ap
                    (λ (l : List (Item V)).
                      if same_axis j k then on_axis j (items_on m.axes i) else l)
                    (items_on-set_items m.axes i k (on_axis i (items_on m.axes j))))
      ]
    where
      empty :
          items_on m.axes i ≡ []
          → items_on m.axes j ≡ []
          → items_on m.axes k ≡ (
              if same_axis j k
              then on_axis j (items_on m.axes i)
              else if same_axis i k
              then on_axis i (items_on m.axes j)
              else items_on m.axes k)
      empty e f =
          rw (e, f)
            (elim (Bool-cases (same_axis j k)) [
              | inl g ↦ rw g (ap (items_on m.axes) (sym (same_axis-eq j k g)) ∙ f)
              | inr g ↦ elim (Bool-cases (same_axis i k)) [
                | inl h ↦ rw (g, h) (ap (items_on m.axes) (sym (same_axis-eq i k h)) ∙ e)
                | inr h ↦ rw (g, h) refl
              ]
            ])

  -- Flipping two different axes twice gives the axes that there were, when every item on the
  -- two says on which it stands.
  pub exchange-involutive :
      (m : QueryModel V) (i j : AxisId)
      → same_axis i j ≡ false
      → OnAxis i (items_on m.axes i)
      → OnAxis j (items_on m.axes j)
      → (exchange (exchange m i j) i j).axes ≡ m.axes
  exchange-involutive m i j d hi hj = Axes-ext _ _ at
    where
      d' : same_axis j i ≡ false
      d' = same_axis-sym j i ∙ d

      at_i : items_on (exchange m i j).axes i ≡ on_axis i (items_on m.axes j)
      at_i = exchange-items m i j i ∙ rw (d', same_axis_refl i) refl

      at_j : items_on (exchange m i j).axes j ≡ on_axis j (items_on m.axes i)
      at_j = exchange-items m i j j ∙ rw (same_axis_refl j) refl

      at : (k : AxisId) → items_on (exchange (exchange m i j) i j).axes k ≡ items_on m.axes k
      at k = exchange-items (exchange m i j) i j k ∙ elim (Bool-cases (same_axis j k)) [
        | inl g ↦
            rw (g, at_i)
              (on_axis-same j i (items_on m.axes j) hj ∙ ap (items_on m.axes) (same_axis-eq j k g))
        | inr g ↦ elim (Bool-cases (same_axis i k)) [
          | inl h ↦
              rw (g, h, at_j)
                (on_axis-same i j (items_on m.axes i) hi
                  ∙ ap (items_on m.axes) (same_axis-eq i k h))
          | inr h ↦ rw (g, h) (exchange-items m i j k ∙ rw (g, h) refl)
        ]
      ]
