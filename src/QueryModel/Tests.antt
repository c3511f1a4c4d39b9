-- ===== src/QueryModel/Tests.antt =====
-- QueryModel.js on a query with two columns and a count.
use huey.Base.{
  ℕ, ◌≡◌, ◌↔◌, ◌==◌, refl, Bool, true, false, none, some, Option, map, List, [], ◌∷◌, String, arith,
}
use huey.Base.Dict
use huey.Base.Dict.{Dict}
use huey.Base.Result.{Result, ok, throw, error}
use huey.QueryModel.Serializer.{
  StateItem, QueryModelState, strip_all, serialize_query_model, config_of, state_items, saved,
  serialize_query_model-saved,
}
use huey.QueryModel.Compare.{State, compare_states}
use huey.QueryModel.Compared.{SameItem, items_of, compare_states_iff}
use huey.QueryModel.Referenced.{Config, get_referenced_columns}
use huey.QueryModel.Filters.{
  set_query_axis_item_filter, Stores, set_query_axis_item_filter-find_item,
}
use huey.QueryModel.Item.{Item, Filter, pos, filters, matches, AxisId, columns, rows, cells, truthy}
use huey.QueryModel.Occurrences.{occurrences}
use huey.QueryModel.Axis
use huey.QueryModel.Model.{search_config, find_item, QueryModel, items_on, same_axis, axis_for}
use huey.QueryModel.Operations.{add_item, remove_item}
use huey.QueryModel.WellFormed.{IsWellFormed}
use huey.QueryModel.Adding.{PlacesAggregated, add_item-IsWellFormed}
use huey.QueryModel.Removed.{Removes, remove_item-Removes}
use huey.QueryModel.Flip.{exchange, OnAxis, exchange-involutive}

abbrev metadata : ℕ → List (String × String)
metadata source = ("year", "INTEGER") ∷ ("region", "VARCHAR") ∷ []

abbrev create : Item ℕ → Result (Option ℕ)
create item = ok (some 7)

abbrev no_item : Item ℕ
no_item = record {
  column_name = none;
  column_type = none;
  member_expression_path = none;
  derivation = none;
  aggregator = none;
  caption = none;
  include_totals = none;
  formatter = none;
  literal_writer = none;
  parser = none;
  filter = none;
  index = none;
  axis = none;
}

abbrev year : Item ℕ
year = record no_item { column_name = some "year"; axis = some columns }

abbrev region : Item ℕ
region = record no_item { column_name = some "region"; axis = some columns }

abbrev count : Item ℕ
count = record no_item {
  column_name = some "*";
  column_type = some "BIGINT";
  aggregator = some "count";
}

abbrev start : QueryModel ℕ
start = record {
  axes = record { on_filters = []; on_columns = []; on_rows = []; on_cells = [] };
  cell_headers_axis = columns;
  datasource = some 1;
  events = [];
}

start-IsWellFormed : IsWellFormed start.axes
unfolding occurrences
start-IsWellFormed = record {
  once_shown = λ c. omega arith;
  once_filtered = λ c. omega arith;
  aggregated = λ c t. refl;
}

plain-PlacesAggregated : (id : AxisId) → PlacesAggregated (record year { axis = some id })
unfolding PlacesAggregated truthy
plain-PlacesAggregated id t = cc

abbrev one : QueryModel ℕ
one = (add_item metadata create create create start year).0

one-IsWellFormed : IsWellFormed one.axes
one-IsWellFormed =
    add_item-IsWellFormed metadata create create create start year start-IsWellFormed
      (plain-PlacesAggregated columns)

-- The year is moved from the columns axis to the rows axis.
add_item-IsWellFormed_example :
    IsWellFormed
      (add_item metadata create create create one (record year { axis = some rows })).0.axes
add_item-IsWellFormed_example =
    add_item-IsWellFormed metadata create create create one (record year { axis = some rows })
      one-IsWellFormed (plain-PlacesAggregated rows)

remove_item-Removes_example :
    Removes one year columns (remove_item one year).0 (remove_item one year).1
unfolding find_item search_config truthy add_item Axis.update_at matches
remove_item-Removes_example =
    remove_item-Removes one year
      (record year {
        column_type = some "INTEGER";
        formatter = some 7;
        literal_writer = some 7;
        parser = some 7;
        index = some (pos 0);
      })
      columns one-IsWellFormed refl

abbrev same_number : Option ℕ → Option ℕ → Bool
same_number a b = false

-- The year on the columns axis, the region on the rows axis.
abbrev two : QueryModel ℕ
two = record start {
  axes = record {
    on_filters = [];
    on_columns = record year { axis = some columns } ∷ [];
    on_rows = record region { axis = some rows } ∷ [];
    on_cells = [];
  };
}

exchange-involutive_example : (exchange (exchange two columns rows) columns rows).axes ≡ two.axes
unfolding OnAxis items_on same_axis
exchange-involutive_example = exchange-involutive two columns rows refl (refl, tt) (refl, tt)

-- An item without an axis is refused, unless it is aggregated.
no_axis :
    axis_for (record year { axis = none }) ≡ throw (error "Can't add item: No axis specified!")
unfolding axis_for truthy
no_axis = refl

count_on_cells : axis_for count ≡ ok cells
unfolding axis_for truthy
count_on_cells = refl

-- The region on the filter axis, and two values for its filter.
abbrev region_filter : Item ℕ
region_filter = record region { axis = some filters; index = some (pos 0) }

abbrev filtered : QueryModel ℕ
filtered = record start { axes = record start.axes { on_filters = region_filter ∷ [] } }

abbrev in_north : Filter ℕ
in_north = record { filter_type = "in"; values = ("'North'", 1) ∷ []; toggle_state = none }

set_query_axis_item_filter-find_item_example :
    let after = set_query_axis_item_filter (λ x. ok "id") filtered region_filter in_north in
    (stored : Option (Filter ℕ)) × Stores none in_north stored
    × (after.1 ≡ ok tt)
    × (find_item after.0.axes region_filter
        ≡ some (filters, record region_filter { filter = stored }))
    × (after.0.axes.on_columns ≡ [])
    × (after.0.axes.on_rows ≡ [])
    × (after.0.axes.on_cells ≡ [])
unfolding find_item matches
set_query_axis_item_filter-find_item_example =
    set_query_axis_item_filter-find_item (λ x. ok "id") filtered region_filter region_filter
      in_north refl refl (λ x. ("id", refl))

abbrev two_state : QueryModelState ℕ
two_state = record {
  datasource_id = "local";
  cells_headers = columns;
  axes =
      (columns, strip_all false columns (items_on two.axes columns))
      ∷ (rows, strip_all false rows (items_on two.axes rows))
      ∷ [];
  sampling = none;
}

serialize_query_model-saved_example :
    map
      (λ (i : StateItem ℕ). saved columns (config_of columns i))
      (state_items two_state.axes columns)
    ≡ map (saved columns) (items_on two.axes columns)
unfolding serialize_query_model items_on
serialize_query_model-saved_example =
    serialize_query_model-saved (λ d. "local") two none false two_state refl columns

-- Two states in which the item on the rows axis has another caption.
abbrev same_json : Option ℕ → Option ℕ → Bool
same_json none none = true
same_json none (some b) = false
same_json (some a) none = false
same_json (some a) (some b) = a == b

abbrev by_rows : State same_json
by_rows = record {
  properties = [];
  axes = ("rows", (("column", 1) ∷ ("caption", 5) ∷ []) ∷ []) ∷ [];
}

abbrev with_caption : State same_json
with_caption = record {
  properties = [];
  axes = ("rows", (("column", 1) ∷ ("caption", 6) ∷ []) ∷ []) ∷ [];
}

abbrev one_id : Dict ℕ → String
one_id item = "item"

compare_states_iff_example :
    (Dict.get (compare_states same_json one_id by_rows with_caption).axes_changed "rows" ≡ none) ↔ (
      (id : String)
      → SameItem same_json
          (Dict.get (items_of same_json one_id by_rows.axes "rows") id)
          (Dict.get (items_of same_json one_id with_caption.axes "rows") id))
compare_states_iff_example = compare_states_iff same_json refl one_id by_rows with_caption "rows"

-- A column with two types, and the count of all rows.
abbrev year_as : String → Config
year_as type = record { column = some "year"; column_name = none; column_type = some type }

abbrev all_rows : Config
all_rows = record { column = none; column_name = some "*"; column_type = none }

abbrev year_twice : Dict (List Config)
year_twice = ("columns", year_as "INTEGER" ∷ []) ∷ ("cells", all_rows ∷ year_as "BIGINT" ∷ []) ∷ []

year_twice-columns :
    get_referenced_columns (some (record { axes = some year_twice }))
    ≡ ok (some (("year", some "BIGINT") ∷ []))
unfolding get_referenced_columns truthy Dict.set
year_twice-columns = refl
