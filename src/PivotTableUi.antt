-- ===== src/PivotTableUi.antt =====
-- PivotTableUiUtils.js: which member of a tuple is a total, and the settings of the pivot table.
pub mod Totals
mod Tests
use huey.Base.{
  ℕ, zero, suc, ◌+◌, ◌-◌, ◌*◌, ◌/◌, ◌%◌, ◌≤◌, ◌≡◌, refl, Bool, true, false, not, ◌&&◌, ◌||◌, Option,
  none, some, List, [], ◌∷◌, ◌==◌, String, if◌then◌else◌, length, get_elem?, arith,
}
use huey.QueryModel.Item.{ℤ, pos, negsuc}

-- `reduce` with `unshift`, from an index on; an item is given by its `includeTotals`.
unfoldable pub collect_indices : List ℕ → ℕ → List Bool → List ℕ
collect_indices acc index [] = acc
collect_indices acc index (include_totals ∷ items) =
    collect_indices (if include_totals then index ∷ acc else acc) (suc index) items

-- `none` is `undefined`.
unfoldable pub get_totals_items_indices : List Bool → Option (List ℕ)
unfolding collect_indices
get_totals_items_indices [] = none
get_totals_items_indices (item ∷ items) = some (collect_indices [] 0 (item ∷ items))

-- `groupingId & (1n << i)`, as a test.
unfoldable pub has_bit : ℕ → ℕ → Bool
has_bit grouping_id zero = grouping_id % 2 == 1
has_bit grouping_id (suc i) = has_bit (grouping_id / 2) i

-- The loop, from `i` below the given number down; `none` is Infinity.
unfoldable pub find_bit : ℕ → List ℕ → ℕ → Option ℕ
unfolding has_bit
find_bit grouping_id totals_items_indices zero = none
find_bit grouping_id totals_items_indices (suc i) =
    let rest = find_bit grouping_id totals_items_indices i in
    if has_bit grouping_id i then get_elem? totals_items_indices i else rest

unfoldable pub is_totals_member : Option ℕ → Option (List ℕ) → Option ℕ → Option ℕ
unfolding find_bit
is_totals_member none totals_items_indices current_item_index = none
is_totals_member (some grouping_id) none current_item_index = none
is_totals_member (some grouping_id) (some totals_items_indices) none = none
is_totals_member (some grouping_id) (some totals_items_indices) (some current_item_index) =
    if (grouping_id == 0) || (length totals_items_indices == 0)
    then none
    else find_bit grouping_id totals_items_indices (length totals_items_indices)

-- `V` is the type of the values that a setting may have.
pub record PivotSettings (V : Type 0) : Type 0 where
  pub ditto_mark : Option V
  pub hide_repeating_axis_values : Option V
  pub max_cell_width : Option V

-- What a function on settings gets: nothing, the settings, or an object whose `getSettings` gives
-- them, or nothing.
pub data SettingsObject (V : Type 0) : Type 0 where
  missing : SettingsObject V
  plain : PivotSettings V → SettingsObject V
  source : Option (PivotSettings V) → SettingsObject V

unfoldable pub resolve : {V : Type 0} → SettingsObject V → Option (PivotSettings V)
resolve missing = none
resolve (plain settings) = some settings
resolve (source settings) = settings

unfoldable pub or_default : {V : Type 0} → Option V → V → V
or_default none v = v
or_default (some w) v = w

unfoldable pub get_ditto_mark : {V : Type 0} → V → SettingsObject V → V
unfolding resolve or_default
get_ditto_mark default_ditto_mark settings = elim (resolve settings) [
  | none ↦ default_ditto_mark
  | some s ↦ or_default s.ditto_mark default_ditto_mark
]

unfoldable pub get_hide_repeating_axis_values : {V : Type 0} → V → SettingsObject V → V
unfolding resolve or_default
get_hide_repeating_axis_values default_hide settings = elim (resolve settings) [
  | none ↦ default_hide
  | some s ↦ or_default s.hide_repeating_axis_values default_hide
]

abbrev pub maximum_cell_width : ℕ
maximum_cell_width = 30

-- `maxCellWidth === undefined || isNaN(maxCellWidth) || maxCellWidth <= 0`, on what `parseInt`
-- returns, `none` for NaN.
unfoldable pub clamp_width : Option ℤ → ℕ
clamp_width none = maximum_cell_width
clamp_width (some (negsuc n)) = maximum_cell_width
clamp_width (some (pos zero)) = maximum_cell_width
clamp_width (some (pos (suc n))) = suc n

-- A value that is not truthy is `undefined`, NaN or one that `<= 0` is true of.
unfoldable pub get_max_cell_width :
    {V : Type 0} → (V → Bool) → (V → Option ℤ) → SettingsObject V → ℕ
unfolding resolve clamp_width
get_max_cell_width truthy parse_int settings = elim (resolve settings) [
  | none ↦ maximum_cell_width
  | some s ↦ elim s.max_cell_width as (λ x. ℕ) [
    | none ↦ maximum_cell_width
    | some v ↦ if truthy v then clamp_width (parse_int v) else maximum_cell_width
  ]
]
