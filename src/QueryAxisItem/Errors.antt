-- ===== src/QueryAxisItem/Errors.antt =====
-- QueryAxisItem.js: when `getFilterConditionSql` throws.
use huey.Base.{
  ℕ, suc, Bool, true, false, ◌≡◌, refl, Option, none, some, List, [], ◌∷◌, if◌then◌else◌, arith,
  length, leb, inl, inr, ◌∙◌, ap, not, ◌&&◌, ◌||◌, Bool-cases, Option-cases,
}
use huey.Base.Result.{Result, ok, throw, ◌>>=◌, Result-cases, returns}
use huey.Base.Text.{Text}
use huey.QueryAxisItem.{
  FilterValue, ItemFilter, LiteralLists, is_enabled, literals_of, enabled_values, range_lists,
  to_value_literals, is_range_filter_type, get_filter_axis_item_values_list_as_sql_literals,
  is_filter_item_effective,
}
use huey.QueryAxisItem.Conditions.{get_filter_condition_sql}
use huey.QueryAxisItem.Keeps.{counts, any_enabled, asks_for_ranges}
use huey.QueryAxisItem.Chosen.{any_enabled-listed, asks_for_ranges-range}

enough_ends : List (Text × FilterValue) → Option (List (Text × FilterValue)) → Bool
enough_ends values none = false
enough_ends values (some to_values) = leb (length values) (length to_values)

-- How many values are not disabled.
unfoldable pub count_enabled : List (Text × FilterValue) → ℕ
unfolding counts
count_enabled [] = 0
count_enabled ((key, value) ∷ values) =
    let rest = count_enabled values in if counts value then suc rest else rest

-- A filter on ranges needs the ends of ranges, as many as it has values that are not disabled.
unfoldable pub has_ends : ItemFilter → Bool
unfolding asks_for_ranges count_enabled
has_ends filter =
    if asks_for_ranges filter.filter_type
    then elim filter.to_values as (λ x. Bool) [
      | none ↦ false
      | some to_values ↦ leb (count_enabled filter.values) (length to_values)
    ]
    else true

length-enabled_values :
    (values : List (Text × FilterValue)) → length (enabled_values values) ≡ count_enabled values
unfolding enabled_values count_enabled is_enabled counts
length-enabled_values [] = refl
length-enabled_values ((key, value) ∷ values) = ground (arith, length-enabled_values values)

returns-to_value_literals :
    (values to_values : List (Text × FilterValue))
    → returns (to_value_literals values to_values) ≡ leb (length values) (length to_values)
unfolding to_value_literals returns
returns-to_value_literals [] to_values = ground arith
returns-to_value_literals (v ∷ values) [] = ground arith
returns-to_value_literals (v ∷ values) ((key, to_value) ∷ to_values) =
    ground (arith, returns-to_value_literals values to_values)

returns-ok {ℓ κ} :
    {A : Type ℓ} {B : Type κ} (r : Result A) (f : A → B) → returns (r >>= λ a. ok (f a)) ≡ returns r
unfolding returns
returns-ok (ok a) f = refl
returns-ok (throw e) f = refl

returns-range_lists :
    (values : List (Text × FilterValue)) (to_values : Option (List (Text × FilterValue)))
    → returns (range_lists values to_values) ≡ enough_ends values to_values
unfolding range_lists enough_ends returns
returns-range_lists values none = refl
returns-range_lists values (some to_values) =
    returns-ok (to_value_literals values to_values) _ ∙ returns-to_value_literals values to_values

returns-literals :
    (filter : ItemFilter)
    → returns (get_filter_axis_item_values_list_as_sql_literals filter false) ≡ has_ends filter
unfolding get_filter_axis_item_values_list_as_sql_literals has_ends returns enough_ends
returns-literals filter = ground (
  arith,
  returns-range_lists (enabled_values filter.values) filter.to_values,
  asks_for_ranges-range filter.filter_type,
  length-enabled_values filter.values,
)

literals-enabled :
    (filter : ItemFilter) (lists : LiteralLists)
    → get_filter_axis_item_values_list_as_sql_literals filter false ≡ ok lists
    → lists.value_literals ≡ literals_of (enabled_values filter.values)
unfolding get_filter_axis_item_values_list_as_sql_literals range_lists
literals-enabled filter lists h = elim (Bool-cases (is_range_filter_type filter.filter_type)) [
  | inr e ↦ ground (arith, h)
  | inl e ↦ elim (Option-cases filter.to_values) [
    | inl f ↦ absurd (ground arith)
    | inr (to_values, f) ↦
        elim (Result-cases (to_value_literals (enabled_values filter.values) to_values)) [
          | inl (ends, g) ↦ ground arith
          | inr (x, g) ↦ absurd (ground arith)
        ]
  ]
]

-- `getFilterConditionSql` of an item with a filter returns, and does not throw, just when,
-- first, the filter is not on ranges or has at least as many ends of ranges as it has values
-- that are not disabled, and, second, no value is not disabled or the SQL and the data type of
-- the item can be made.
pub returns-get_filter_condition_sql :
    (column_sql : Result Text) (item_data_type : Result (Option Text)) (filter : ItemFilter)
    → returns (get_filter_condition_sql column_sql item_data_type (some filter))
      ≡ has_ends filter
        && (not (any_enabled filter.values) || (returns column_sql && returns item_data_type))
unfolding get_filter_condition_sql is_filter_item_effective returns
returns-get_filter_condition_sql column_sql item_data_type filter =
    elim (Result-cases (get_filter_axis_item_values_list_as_sql_literals filter false)) [
      | inl (lists, e) ↦
          let some_value =
            ap (λ l. elim l as (λ x. Bool) [ [] ↦ false | l ∷ literals ↦ true ])
              (literals-enabled filter lists e)
            ∙ any_enabled-listed filter.values in
          ground (arith, returns-literals filter, some_value)
      | inr (x, e) ↦ ground (arith, returns-literals filter)
    ]
