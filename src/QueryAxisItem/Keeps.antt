-- ===== src/QueryAxisItem/Keeps.antt =====
-- Which rows a filter keeps.
use huey.Base.{
  ℕ, suc, Bool, true, false, not, ◌&&◌, ◌||◌, none, some, List, [], ◌∷◌, ◌++◌, leb, if◌then◌else◌,
}
use huey.Base.Text.{Text, same}
use huey.QueryAxisItem.{
  FilterType, include, exclude, like, notlike, between, notbetween, hasany, hasall, nothasany,
  nothasall, FilterValue, ItemFilter,
}
use huey.QueryAxisItem.Conditions.{is_null_literal}
use huey.QueryAxisItem.Meaning.{Row, any_equals}

unfoldable pub any_like : Row → List Text → Bool
any_like row [] = false
any_like row (l ∷ literals) = row.is_like l || any_like row literals

unfoldable pub any_between : Row → List Text → List Text → Bool
any_between row [] to_literals = false
any_between row (l ∷ literals) [] = false
any_between row (l ∷ literals) (m ∷ to_literals) =
    row.lies_between l m || any_between row literals to_literals

-- Which rows a filter keeps, told apart by whether NULL is among its values; the others are
-- not NULL.
unfoldable pub keeps : FilterType → Bool → Row → List Text → List Text → Bool
unfolding any_equals any_like any_between
keeps filter_type with_null row literals to_literals = elim filter_type as (λ x. Bool) [
  | include ↦ if row.is_null then with_null else any_equals row literals
  | exclude ↦ if row.is_null then not with_null else not (any_equals row literals)
  | like ↦ if row.is_null then with_null else any_like row literals
  | notlike ↦ if row.is_null then not with_null else not (any_like row literals)
  | between ↦ if row.is_null then with_null else any_between row literals to_literals
  | notbetween ↦ if row.is_null then false else not (any_between row literals to_literals)
  | hasany ↦ if row.is_null then false else row.has_any literals
  | hasall ↦ if row.is_null then false else row.has_all literals
  | nothasany ↦ if row.is_null then false else not (row.has_any literals)
  | nothasall ↦ if row.is_null then false else not (row.has_all literals)
]

-- A value counts unless it is disabled.
unfoldable pub counts : FilterValue → Bool
counts value = elim value.enabled [ some false ↦ false | _ ↦ true ]

unfoldable pub any_enabled : List (Text × FilterValue) → Bool
unfolding counts
any_enabled [] = false
any_enabled ((key, value) ∷ values) = let rest = any_enabled values in counts value || rest

-- How many of the values that count are NULL.
unfoldable pub count_nulls : List (Text × FilterValue) → ℕ
unfolding counts
count_nulls [] = 0
count_nulls ((key, value) ∷ values) =
    let rest = count_nulls values in
    if counts value && is_null_literal value.literal then suc rest else rest

-- The literals of the values that count and are not NULL.
unfoldable pub chosen_literals : List (Text × FilterValue) → List Text
unfolding counts
chosen_literals [] = []
chosen_literals ((key, value) ∷ values) =
    let rest = chosen_literals values in
    if counts value && not (is_null_literal value.literal) then value.literal ∷ rest else rest

-- The other end of the range with this key.
unfoldable pub end_of : List (Text × FilterValue) → Text → List Text
unfolding same
end_of [] key = []
end_of ((other, value) ∷ to_values) key =
    let rest = end_of to_values key in if same other key then value.literal ∷ [] else rest

-- For each literal that is chosen the other end of its range.
unfoldable pub chosen_ends : List (Text × FilterValue) → List (Text × FilterValue) → List Text
unfolding counts end_of
chosen_ends to_values [] = []
chosen_ends to_values ((key, value) ∷ values) =
    let rest = chosen_ends to_values values in
    if counts value && not (is_null_literal value.literal)
    then end_of to_values key ++ rest
    else rest

unfoldable pub asks_for_ranges : FilterType → Bool
asks_for_ranges between = true
asks_for_ranges notbetween = true
asks_for_ranges _ = false

-- A filter with no value but NULL.
unfoldable pub keeps_null : FilterType → Row → Bool
keeps_null filter_type row = elim filter_type as (λ x. Bool) [
  | include ↦ row.is_null
  | exclude ↦ not row.is_null
  | like ↦ row.is_null
  | notlike ↦ not row.is_null
  | between ↦ row.is_null
  | notbetween ↦ not row.is_null
  | hasany ↦ row.is_null
  | hasall ↦ row.is_null
  | nothasany ↦ not row.is_null
  | nothasall ↦ not row.is_null
]

unfoldable pub ends_by_key : ItemFilter → List Text
unfolding chosen_ends
ends_by_key filter = elim filter.to_values as (λ x. List Text) [
  | none ↦ []
  | some to_values ↦ chosen_ends to_values filter.values
]

-- Whether a filter keeps a row, by its values that are not disabled, and, for ranges, their other
-- ends with the same keys.
unfoldable pub filter_keeps : ItemFilter → Row → Bool
unfolding count_nulls chosen_literals ends_by_key keeps_null keeps
filter_keeps filter row = elim (chosen_literals filter.values) as (λ x. Bool) [
  | [] ↦ keeps_null filter.filter_type row
  | l ∷ others ↦
      keeps filter.filter_type (leb 1 (count_nulls filter.values)) row (l ∷ others)
        (ends_by_key filter)
]

unfoldable pub has_key : Text → List (Text × FilterValue) → Bool
unfolding same
has_key key [] = false
has_key key ((other, value) ∷ values) = let rest = has_key key values in same key other || rest

-- No value is disabled, the ends of the ranges have the same keys as the values, in the same order
-- and no key twice, and none is NULL but that of NULL.
unfoldable pub paired : List (Text × FilterValue) → List (Text × FilterValue) → Bool
unfolding has_key counts
paired [] [] = true
paired [] (to_value ∷ to_values) = false
paired (value ∷ values) [] = false
paired ((key, value) ∷ values) ((other, to_value) ∷ to_values) =
    let rest = paired values to_values in
    same other key
    && not (has_key key values)
    && counts value
    && (is_null_literal value.literal || not (is_null_literal to_value.literal))
    && rest

unfoldable pub ranges_fit : ItemFilter → Bool
unfolding asks_for_ranges paired
ranges_fit filter =
    if asks_for_ranges filter.filter_type
    then elim filter.to_values as (λ x. Bool) [
      | none ↦ false
      | some to_values ↦ paired filter.values to_values
    ]
    else true
