-- ===== src/QueryModel/Operations.antt =====
-- QueryModel.js: the public operations. Each returns the model, with the events it has fired, and
-- what the call returns or throws.
use huey.Base.{
  Bool, false, not, ◌&&◌, Option, none, some, List, [], ◌∷◌, String, if◌then◌else◌, is_some,
}
use huey.Base.Result.{Result, ok, throw, type_error, ◌>>=◌}
use text.Mathlib.Text.{is_eq}
use Prim.Native.String.{compare}
use huey.QueryModel.Item.{Item, pos, AxisId, filters, columns, rows, cells, truthy}
use huey.QueryModel.Axis
use huey.QueryModel.Axis.{update_at}
use huey.QueryModel.Model.{
  QueryModel, Axes, AxisChange, axes_changed, before_change, change, same_axis, items_on, set_items,
  fire, announce, find_item, added_and_removed, is_in_place, move_to, search_config, axis_for, sync,
}

unfoldable pub same_name : Option String → String → Bool
same_name none name = false
same_name (some own) name = is_eq (compare own name)

-- The loop over the column metadata: the last row with the name decides.
unfoldable pub column_type_in :
    List (String × String) → Option String → Option String → Option String
unfolding same_name
column_type_in [] name found = found
column_type_in ((column_name, column_type) ∷ metadata) name found =
    column_type_in metadata name (if same_name name column_name then some column_type else found)

-- A function of the item: its own, that of the item that was found, or a new one.
unfoldable pub fill_function :
    {V : Type 0} → Option V → Option V → Result (Option V) → Result (Option V)
fill_function (some own) found created = ok (some own)
fill_function none (some found) created = ok (some found)
fill_function none none created = created

-- An item that goes to the filter axis keeps the filter it has there.
unfoldable pub inherit_filter : {V : Type 0} → AxisId → Option (Item V) → Item V → Item V
unfolding same_axis
inherit_filter id found config = elim found [
  | none ↦ config
  | some item ↦
      if same_axis id filters && not (is_some config.filter)
      then record config { filter = item.filter }
      else config
]

module _ {V : Type 0} where
  -- The item that was found, where nothing is to change.
  unfoldable pub unmoved : Axes V → AxisId → Item V → Option (AxisId × Item V) → Option (Item V)
  unfolding is_in_place items_on
  unmoved axes id config found = elim found [
    | none ↦ none
    | some f ↦ if is_in_place (items_on axes id) id config f then some f.1 else none
  ]

  -- `beforechange`, the change of the axes, `change`.
  unfoldable pub relocate :
      QueryModel V → AxisId → Item V → Option (AxisId × Item V) → QueryModel V × Result (Item V)
  unfolding move_to added_and_removed fire
  relocate m id config found =
      let before = fire m (before_change (added_and_removed id config found)) in
      elim (move_to m.axes id config found) [
        | none ↦ (before, throw type_error)
        | some moved ↦ (
          fire (record before { axes = moved.1 }) (change (added_and_removed id moved.0 found)),
          ok moved.0,
        )
      ]

  unfoldable pub add_filled :
      QueryModel V → AxisId → Item V → Option (AxisId × Item V) → QueryModel V × Result (Item V)
  unfolding unmoved relocate inherit_filter
  add_filled m id config found =
      let item : Option (Item V) = elim found [ none ↦ none | some f ↦ some f.1 ] in
      elim (unmoved m.axes id config found) [
        | some item ↦ (m, ok item)
        | none ↦ relocate m id (inherit_filter id item config) found
      ]

-- What the model takes from other parts: the metadata of a datasource, and the functions that
-- `QueryAxisItem` makes for an item, which throw for an aggregator or derivation it does not know.
module _ {V : Type 0} (get_column_metadata : V → List (String × String))
    (create_formatter : Item V → Result (Option V))
    (create_literal_writer : Item V → Result (Option V))
    (create_parser : Item V → Result (Option V)) where
  unfoldable pub fill_column_type : Option V → Option (Item V) → Item V → Result (Item V)
  unfolding truthy column_type_in
  fill_column_type datasource found config =
      let wanted : Result (Item V) = elim datasource [
        | none ↦ throw type_error
        | some source ↦ ok (record config {
          column_type =
              column_type_in (get_column_metadata source) config.column_name config.column_type;
        })
      ] in
      if truthy config.column_type then ok config else elim found [
        | none ↦ wanted
        | some item ↦
            if truthy item.column_type
            then ok (record config { column_type = item.column_type })
            else wanted
      ]

  unfoldable pub fill_formatter : Option (Item V) → Item V → Result (Item V)
  unfolding fill_function
  fill_formatter found config =
      let known : Option V = elim found [ none ↦ none | some item ↦ item.formatter ] in
      fill_function config.formatter known (create_formatter config)
      >>= (λ f. ok (record config { formatter = f }))

  unfoldable pub fill_literal_writer : Option (Item V) → Item V → Result (Item V)
  unfolding fill_function
  fill_literal_writer found config =
      let known : Option V = elim found [ none ↦ none | some item ↦ item.literal_writer ] in
      fill_function config.literal_writer known (create_literal_writer config)
      >>= (λ f. ok (record config { literal_writer = f }))

  unfoldable pub fill_parser : Option (Item V) → Item V → Result (Item V)
  unfolding fill_function
  fill_parser found config =
      let known : Option V = elim found [ none ↦ none | some item ↦ item.parser ] in
      fill_function config.parser known (create_parser config)
      >>= (λ f. ok (record config { parser = f }))

  -- The type of the column and the functions, in this order.
  unfoldable pub fill : Option V → Option (Item V) → Item V → Result (Item V)
  unfolding fill_column_type fill_formatter fill_literal_writer fill_parser
  fill datasource found config =
      fill_column_type datasource found config
      >>= fill_formatter found
      >>= fill_literal_writer found
      >>= fill_parser found

  -- `addItem` behind the search: the item is completed, and then left where it is, moved, or added.
  unfoldable pub add_found :
      QueryModel V → AxisId → Item V → Option (AxisId × Item V) → QueryModel V × Result (Item V)
  unfolding fill add_filled
  add_found m id config found =
      let item : Option (Item V) = elim found [ none ↦ none | some f ↦ some f.1 ] in
      elim (fill m.datasource item config) [
        | throw e ↦ (m, throw e)
        | ok filled ↦ add_filled m id filled found
      ]

  unfoldable pub add_item : QueryModel V → Item V → QueryModel V × Result (Item V)
  unfolding add_found find_item search_config axis_for
  add_item m config = elim (axis_for config) [
    | throw e ↦ (m, throw e)
    | ok id ↦
        let placed = record config { axis = some id } in
        add_found m id placed (find_item m.axes (search_config placed))
  ]

  unfoldable pub move_item : QueryModel V → Item V → AxisId → QueryModel V × Result (Item V)
  unfolding add_item
  move_item m item id = add_item m (record item { axis = some id })

abbrev pub axis_ids : List AxisId
axis_ids = filters ∷ columns ∷ rows ∷ cells ∷ []

-- The axes that `clear` is about: one, or all.
unfoldable pub chosen : Option AxisId → List AxisId
chosen none = axis_ids
chosen (some id) = id ∷ []

module _ {V : Type 0} where
  unfoldable pub remove_item : QueryModel V → Item V → QueryModel V × Option (Item V)
  unfolding find_item search_config items_on set_items fire sync Axis.remove_item
  remove_item m config = elim (find_item m.axes (search_config config)) [
    | none ↦ (m, none)
    | some (from, item) ↦
        let before = fire m (
          before_change (axes_changed ((from, record { added = []; removed = item ∷ [] }) ∷ []))) in
        elim (Axis.remove_item item (items_on m.axes from)) [
          | none ↦ (
            fire (record before { axes = sync m.axes from })
                (change (axes_changed ((from, record { added = []; removed = [] }) ∷ []))),
            none,
          )
          | some (removed, items) ↦ (
            fire (record before { axes = sync (set_items m.axes from items) from })
                (change
                  (axes_changed ((from, record { added = []; removed = removed ∷ [] }) ∷ []))),
            some removed,
          )
        ]
  ]

  -- `items[index]`, changed.
  unfoldable pub update_found : Axes V → AxisId → Item V → (Item V → Item V) → Axes V
  unfolding items_on set_items update_at
  update_found axes id found f = elim found.index [
    | some (pos i) ↦ set_items axes id (update_at i f (items_on axes id))
    | _ ↦ axes
  ]

  -- The change is assigned to a variable, and the events that are fired do not have it. The id of
  -- the item, which the change is made with, is taken to exist.
  unfoldable pub toggle_totals : QueryModel V → Item V → Bool → QueryModel V × Option (Item V)
  unfolding find_item update_found announce
  toggle_totals m config value = elim (find_item m.axes config) [
    | none ↦ (m, none)
    | some (id, found) ↦ (
      announce m (axes_changed []) (λ m. record m {
        axes = update_found m.axes id found (λ item. record item { include_totals = some value });
      }),
      some found,
    )
  ]

  unfoldable pub clear_axes : List AxisId → Axes V → Axes V
  unfolding set_items
  clear_axes [] axes = axes
  clear_axes (id ∷ ids) axes = clear_axes ids (set_items axes id [])

  unfoldable pub removed_from : List AxisId → Axes V → List (AxisId × AxisChange V)
  unfolding items_on
  removed_from [] axes = []
  removed_from (id ∷ ids) axes =
      let rest = removed_from ids axes in
      elim (items_on axes id) as (λ x. List (AxisId × AxisChange V)) [
        | [] ↦ rest
        | item ∷ items ↦ (id, record { added = []; removed = item ∷ items }) ∷ rest
      ]

  unfoldable pub clear : QueryModel V → Option AxisId → QueryModel V
  unfolding chosen removed_from announce clear_axes
  clear m id = elim (removed_from (chosen id) m.axes) as (λ x. QueryModel V) [
    | [] ↦ m
    | first ∷ others ↦
        announce m (axes_changed (first ∷ others))
          (λ m. record m { axes = clear_axes (chosen id) m.axes })
  ]
