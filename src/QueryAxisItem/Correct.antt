-- ===== src/QueryAxisItem/Correct.antt =====
-- QueryAxisItem.js: the condition of a filter is true of the rows that the filter keeps.
use huey.Base.{Bool, true, false, not, ◌≡◌, none, some, List, [], ◌∷◌, if◌then◌else◌}
use huey.Base.Text.{Text}
use huey.QueryAxisItem.{FilterType}
use huey.QueryAxisItem.Meaning.{Row}
use huey.QueryAxisItem.Keeps.{keeps, chosen_literals, ends_by_key}
use huey.QueryAxisItem.Chosen.{listed}
use huey.Base.Result.{ok}
use huey.QueryAxisItem.{
  ItemFilter, LiteralLists, is_exclusive_filter_type,
  get_filter_axis_item_values_list_as_sql_literals,
}
use huey.QueryAxisItem.Conditions.{index_of_null, splice_at}
use huey.QueryAxisItem.Literals.{ends_fit}

-- The literals of the ends of ranges; none when the filter is not on ranges.
unfoldable pub ends_of : LiteralLists → List Text
ends_of lists = elim lists.to_value_literals as (λ x. List Text) [ none ↦ [] | some l ↦ l ]

-- The lists that the code makes, and what they have to do with the values that are chosen.
record IsListing (filter : ItemFilter) (lists : LiteralLists) : Type 0 where
  made : get_filter_axis_item_values_list_as_sql_literals filter false ≡ ok lists
  values : lists.value_literals ≡ listed filter.values
  fit :
      ends_fit filter.filter_type
        (chosen_literals filter.values)
        (splice_at (index_of_null (listed filter.values)) (ends_of lists))
      ≡ true
  ends :
      (w : Bool) (row : Row) (literals : List Text)
      → keeps filter.filter_type w row literals
          (splice_at (index_of_null (listed filter.values)) (ends_of lists))
        ≡ keeps filter.filter_type w row literals (ends_by_key filter)

-- `kept`, by what it computes of its literals.
abbrev kept_by : FilterType → Row → Bool → List Text → List Text → Bool
kept_by filter_type row with_null others ends = elim others as (λ x. Bool) [
  | [] ↦ if is_exclusive_filter_type filter_type then not row.is_null else row.is_null
  | l ∷ more ↦ keeps filter_type with_null row (l ∷ more) ends
]
