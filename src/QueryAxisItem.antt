-- ===== src/QueryAxisItem.antt =====
-- QueryAxisItem.js: the values of the filter of an item, as SQL literals. FilterUi.js: the types
-- of a filter. The values are in the order of `Object.keys`.
pub mod Conditions
pub mod Meaning
pub mod Keeps
pub mod Chosen
pub mod Paired
pub mod Terms
pub mod Equality
pub mod Ranges
pub mod Patterns
pub mod Literals
pub mod Correct
pub mod Errors
mod Tests
use huey.Base.{
  ℕ, zero, suc, Bool, true, false, not, Option, none, some, List, [], ◌∷◌, map, if◌then◌else◌,
  get_elem?,
}
use huey.Base.Result.{Result, ok, throw, type_error, ◌>>=◌}
use huey.Base.Text.{Text, codes, starts_with, same}

pub data FilterType : Type 0 where
  include exclude like notlike between notbetween hasany hasall nothasany nothasall : FilterType

unfoldable pub filter_type_text : FilterType → Text
filter_type_text include = codes "in"
filter_type_text exclude = codes "notin"
filter_type_text like = codes "like"
filter_type_text notlike = codes "notlike"
filter_type_text between = codes "between"
filter_type_text notbetween = codes "notbetween"
filter_type_text hasany = codes "hasany"
filter_type_text hasall = codes "hasall"
filter_type_text nothasany = codes "nothasany"
filter_type_text nothasall = codes "nothasall"

-- `#isFilterTypeInObject`.
unfoldable pub is_filter_type_in : List FilterType → FilterType → Bool
unfolding filter_type_text same
is_filter_type_in [] filter_type = false
is_filter_type_in (t ∷ types) filter_type =
    let rest = is_filter_type_in types filter_type in
    if same (filter_type_text t) (filter_type_text filter_type) then true else rest

unfoldable pub is_range_filter_type : FilterType → Bool
unfolding is_filter_type_in
is_range_filter_type filter_type = is_filter_type_in (between ∷ notbetween ∷ []) filter_type

unfoldable pub is_exclusive_filter_type : FilterType → Bool
unfolding filter_type_text starts_with
is_exclusive_filter_type filter_type = starts_with (filter_type_text filter_type) (codes "not")

pub record FilterValue : Type 0 where
  pub literal : Text
  pub enabled : Option Bool

pub record ItemFilter : Type 0 where
  pub filter_type : FilterType
  pub values : List (Text × FilterValue)
  pub to_values : Option (List (Text × FilterValue))
  pub case_sensitive : Option Bool

-- `valueObject.enabled !== false`.
unfoldable pub is_enabled : FilterValue → Bool
is_enabled value = elim value.enabled [ some false ↦ false | _ ↦ true ]

unfoldable pub enabled_values : List (Text × FilterValue) → List (Text × FilterValue)
unfolding is_enabled
enabled_values [] = []
enabled_values ((key, value) ∷ values) =
    let rest = enabled_values values in if is_enabled value then (key, value) ∷ rest else rest

unfoldable pub literals_of : List (Text × FilterValue) → List Text
literals_of values = map (λ (v : Text × FilterValue). v.1.literal) values

-- A literal for each of the values: that of the value at the same index of all the values to the
-- other end of the range. `toValues[toValueKeys[index]].literal` throws where there is none.
unfoldable pub to_value_literals :
    List (Text × FilterValue) → List (Text × FilterValue) → Result (List Text)
to_value_literals [] to_values = ok []
to_value_literals (v ∷ values) [] = throw type_error
to_value_literals (v ∷ values) ((key, to_value) ∷ to_values) =
    to_value_literals values to_values >>= λ literals. ok (to_value.literal ∷ literals)

pub record LiteralLists : Type 0 where
  pub value_literals : List Text
  pub to_value_literals : Option (List Text)

-- The literals of a filter on ranges; `Object.keys(toValues)` throws on `undefined`.
unfoldable pub range_lists :
    List (Text × FilterValue) → Option (List (Text × FilterValue)) → Result LiteralLists
unfolding literals_of to_value_literals
range_lists values none = throw type_error
range_lists values (some to_values) = to_value_literals values to_values >>= λ literals.
    ok (record { value_literals = literals_of values; to_value_literals = some literals })

unfoldable pub get_filter_axis_item_values_list_as_sql_literals :
    ItemFilter → Bool → Result LiteralLists
unfolding enabled_values literals_of range_lists is_range_filter_type
get_filter_axis_item_values_list_as_sql_literals filter include_disabled_items =
    let values = if include_disabled_items then filter.values else enabled_values filter.values in
    if is_range_filter_type filter.filter_type
    then range_lists values filter.to_values
    else ok (record { value_literals = literals_of values; to_value_literals = none })

-- `undefined`, for an item without filter, counts as false.
unfoldable pub is_filter_item_effective : Option ItemFilter → Result Bool
unfolding get_filter_axis_item_values_list_as_sql_literals
is_filter_item_effective none = ok false
is_filter_item_effective (some filter) =
    get_filter_axis_item_values_list_as_sql_literals filter false >>= λ lists.
    ok (elim lists.value_literals [ [] ↦ false | l ∷ literals ↦ true ])
