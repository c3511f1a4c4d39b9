-- ===== src/PivotTableUi/Tests.antt =====
-- PivotTableUiUtils.js with three items, two of them with totals.
use huey.Base.{ℕ, ◌≡◌, ◌≤◌, refl, Bool, true, false, some, none, Option, List, [], ◌∷◌, ◌==◌, not}
use huey.QueryModel.Item.{ℤ, negsuc}
use huey.PivotTableUi.{
  get_totals_items_indices, is_totals_member, SettingsObject, source, get_max_cell_width,
}
use huey.PivotTableUi.Totals.{
  Member, inclusions, grouping_id, first_total, is_totals_member-first_total,
  get_max_cell_width-positive,
}

abbrev members : List Member
members =
    record { include_totals = true; is_total = false }
    ∷ record { include_totals = false; is_total = false }
    ∷ record { include_totals = true; is_total = true }
    ∷ []

indices : get_totals_items_indices (inclusions members) ≡ some (2 ∷ 0 ∷ [])
unfolding get_totals_items_indices inclusions
indices = refl

third : first_total 0 members ≡ some 2
unfolding first_total
third = refl

is_totals_member-first_total_example :
    is_totals_member
      (some (grouping_id 0 members))
      (get_totals_items_indices (inclusions members))
      (some 2)
    ≡ first_total 0 members
is_totals_member-first_total_example = is_totals_member-first_total members 2

abbrev negative : SettingsObject ℕ
negative = source (
    some (record { ditto_mark = none; hide_repeating_axis_values = none; max_cell_width = some 5 }))

abbrev truthy : ℕ → Bool
truthy n = not (n == 0)

abbrev parse_negative : ℕ → Option ℤ
parse_negative n = some (negsuc n)

get_max_cell_width-positive_example : 1 ≤ get_max_cell_width truthy parse_negative negative
get_max_cell_width-positive_example = get_max_cell_width-positive truthy parse_negative negative
