-- ===== src/QueryModel/Events.antt =====
-- QueryModel.js: what listeners of a query model are sent.
use huey.Base.{◌≡◌, Bool, Option, List, [], ◌∷◌, ◌++◌, String}
use huey.Base.Result.{Result}
use huey.QueryModel.Item.{Item, AxisId}
use huey.QueryModel.Axis
use huey.QueryModel.Model.{QueryModel, EventData, before_change, change}
use huey.QueryModel.Operations.{add_item, remove_item, toggle_totals, clear}
use huey.QueryModel.Flip.{flip_axes, set_cell_headers_axis, set_datasource}

-- `m'` is `m`, or two events more were fired, `beforechange` and then `change`.
pub data Announces {V : Type 0} (m m' : QueryModel V) : Type 0 where
  silent : m' ≡ m → Announces m m'
  announced :
      (before after : EventData V)
      → m'.events ≡ (m.events ++ before_change before ∷ []) ++ change after ∷ []
      → Announces m m'

-- The calls that change a query model.
pub data Call (V : Type 0) : Type 0 where
  adding : Item V → Call V
  removing : Item V → Call V
  toggling_totals : Item V → Bool → Call V
  clearing : Option AxisId → Call V
  flipping : Option AxisId → Option AxisId → Call V
  setting_cell_headers_axis : AxisId → Call V
  setting_datasource : Option V → Bool → Call V

module _ {V : Type 0} (get_column_metadata : V → List (String × String))
    (create_formatter : Item V → Result (Option V))
    (create_literal_writer : Item V → Result (Option V))
    (create_parser : Item V → Result (Option V))
    (same_datasource : Option V → Option V → Bool) where
  unfoldable pub perform : QueryModel V → Call V → QueryModel V
  unfolding add_item remove_item toggle_totals clear flip_axes set_cell_headers_axis set_datasource
  perform m (adding config) =
      (add_item get_column_metadata create_formatter create_literal_writer create_parser m config).0
  perform m (removing config) = (remove_item m config).0
  perform m (toggling_totals config value) = (toggle_totals m config value).0
  perform m (clearing id) = clear m id
  perform m (flipping id1 id2) = (flip_axes m id1 id2).0
  perform m (setting_cell_headers_axis id) = set_cell_headers_axis m id
  perform m (setting_datasource datasource dont_clear) =
      set_datasource same_datasource m datasource dont_clear
