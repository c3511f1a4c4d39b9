-- ===== src/QueryModel/Model.antt =====
-- QueryModel.js: the four axes and the other properties of a query, the operations that change
-- them, and the events they fire. Each operation takes the model and returns it; `events` holds the
-- events fired so far, so that `beforechange` and `change` are told apart by what happens between.
use huey.Base.{
  Bool, true, false, not, ◌&&◌, ◌||◌, Option, none, some, List, [], ◌∷◌, ◌++◌, String, length,
  if◌then◌else◌, is_some, ◌==◌,
}
use huey.Base.Result.{Result, ok, throw, error}
use huey.QueryModel.Item.{Item, ℤ, pos, negsuc, AxisId, filters, columns, rows, cells, truthy}
use huey.QueryModel.Axis
use huey.QueryModel.Axis.{target_index, update_at, sync_item_indices}

pub record Axes (V : Type 0) : Type 0 where
  pub on_filters : List (Item V)
  pub on_columns : List (Item V)
  pub on_rows : List (Item V)
  pub on_cells : List (Item V)

unfoldable pub same_axis : AxisId → AxisId → Bool
same_axis filters filters = true
same_axis columns columns = true
same_axis rows rows = true
same_axis cells cells = true
same_axis _ _ = false

-- What an event says of one axis.
pub record AxisChange (V : Type 0) : Type 0 where
  pub added : List (Item V)
  pub removed : List (Item V)

pub data EventData (V : Type 0) : Type 0 where
  axes_changed : List (AxisId × AxisChange V) → EventData V
  item_changed : AxisId → String → EventData V
  cell_headers_axis_changed : AxisId → AxisId → EventData V
  datasource_changed : Option V → Option V → EventData V

pub data Event (V : Type 0) : Type 0 where
  before_change change : EventData V → Event V

-- The private fields; `events` is what listeners were sent, the oldest first.
pub record QueryModel (V : Type 0) : Type 0 where
  pub axes : Axes V
  pub cell_headers_axis : AxisId
  pub datasource : Option V
  pub events : List (Event V)

module _ {V : Type 0} where
  -- `getQueryAxis(axisId).getItems()`
  unfoldable pub items_on : Axes V → AxisId → List (Item V)
  items_on axes filters = axes.on_filters
  items_on axes columns = axes.on_columns
  items_on axes rows = axes.on_rows
  items_on axes cells = axes.on_cells

  unfoldable pub set_items : Axes V → AxisId → List (Item V) → Axes V
  set_items axes filters items = record axes { on_filters = items }
  set_items axes columns items = record axes { on_columns = items }
  set_items axes rows items = record axes { on_rows = items }
  set_items axes cells items = record axes { on_cells = items }

  unfoldable pub fire : QueryModel V → Event V → QueryModel V
  fire m e = record m { events = m.events ++ e ∷ [] }

  -- `beforechange`, the change, `change`.
  unfoldable pub announce :
      QueryModel V → EventData V → (QueryModel V → QueryModel V) → QueryModel V
  unfolding fire
  announce m d f = fire (f (fire m (before_change d))) (change d)

  -- `findItem` on these axes, in this order: the axis and the item.
  unfoldable pub find_on : List AxisId → Axes V → Item V → Option (AxisId × Item V)
  unfolding items_on Axis.find_item
  find_on [] axes config = none
  find_on (id ∷ ids) axes config = elim (Axis.find_item config (items_on axes id)) [
    | some item ↦ some (id, record item { axis = some id })
    | none ↦ find_on ids axes config
  ]

  -- The axes that `findItem` searches.
  unfoldable pub searched : Item V → List AxisId
  searched config = elim config.axis [
    | some id ↦ id ∷ []
    | none ↦ if truthy config.aggregator then cells ∷ [] else columns ∷ rows ∷ cells ∷ []
  ]

  unfoldable pub find_item : Axes V → Item V → Option (AxisId × Item V)
  unfolding searched find_on
  find_item axes config = find_on (searched config) axes config

  -- `#addItem`: the item that the axis stores is told its axis.
  unfoldable pub place : Axes V → AxisId → Item V → Item V × Axes V
  unfolding items_on set_items Axis.add_item
  place axes id config =
      let (added, items) = Axis.add_item config (items_on axes id) in
      let i = target_index config.index (length (items_on axes id)) in
      (
        record added { axis = some id },
        set_items axes id (update_at i (λ item. record item { axis = some id }) items),
      )

  unfoldable pub sync : Axes V → AxisId → Axes V
  unfolding items_on set_items sync_item_indices
  sync axes id = set_items axes id (sync_item_indices (items_on axes id))

  -- What `addItem` says of the axes: `config` is added, and what was found is removed.
  unfoldable pub added_and_removed : AxisId → Item V → Option (AxisId × Item V) → EventData V
  added_and_removed id config none =
      axes_changed ((id, record { added = config ∷ []; removed = [] }) ∷ [])
  added_and_removed id config (some (from, found)) =
      if same_axis from id
      then axes_changed ((id, record { added = config ∷ []; removed = found ∷ [] }) ∷ [])
      else axes_changed (
          (id, record { added = config ∷ []; removed = [] })
          ∷ (from, record { added = []; removed = found ∷ [] })
          ∷ [])

  unfoldable pub last_index : List (Item V) → ℤ
  last_index [] = negsuc 0
  last_index (item ∷ items) = pos (length items)

unfoldable pub same_index : Option ℤ → Option ℤ → Bool
same_index none none = true
same_index (some (pos m)) (some (pos n)) = m == n
same_index (some (negsuc m)) (some (negsuc n)) = m == n
same_index _ _ = false

unfoldable pub same_totals : Option Bool → Option Bool → Bool
same_totals none none = true
same_totals (some true) (some true) = true
same_totals (some false) (some false) = true
same_totals _ _ = false

module _ {V : Type 0} where
  -- The test on which `addItem` leaves an item where it is. The filter of an item that is found is a
  -- copy, which is never the filter that was asked for.
  unfoldable pub is_in_place : List (Item V) → AxisId → Item V → AxisId × Item V → Bool
  unfolding same_axis same_index last_index same_totals
  is_in_place items id config (from, found) =
      same_axis from id
      && (same_index found.index config.index
          || (not (is_some config.index) && same_index found.index (some (last_index items))))
      && (not (is_some config.include_totals)
          || same_totals config.include_totals found.include_totals)
      && not (is_some config.filter)

  -- `#removeItem(foundItem)`, then `#addItem(config)`, then both axes are synchronized.
  unfoldable pub move_to :
      Axes V → AxisId → Item V → Option (AxisId × Item V) → Option (Item V × Axes V)
  unfolding items_on set_items place sync same_axis Axis.remove_item
  move_to axes id config none =
      let (added, placed) = place axes id config in some (added, sync placed id)
  move_to axes id config (some (from, found)) = elim (Axis.remove_item found (items_on axes from)) [
    | none ↦ none
    | some (removed, items) ↦
        let (added, placed) = place (set_items axes from items) id config in
        let synced = sync placed id in
        some (added, if same_axis from id then synced else sync synced from)
  ]

  -- The configuration by which `addItem` and `removeItem` look for an item: any axis will do, but for
  -- the filter axis.
  unfoldable pub search_config : Item V → Item V
  search_config config = elim config.axis [
    | some filters ↦ config
    | some _ ↦ record config { axis = none }
    | none ↦ config
  ]

  -- The axis of a new item.
  unfoldable pub axis_for : Item V → Result AxisId
  axis_for config = elim config.axis [
    | some id ↦ ok id
    | none ↦
        if truthy config.aggregator
        then ok cells
        else throw (error "Can't add item: No axis specified!")
  ]
