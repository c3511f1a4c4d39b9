-- ===== src/QueryAxisItem/Tests.antt =====
-- QueryAxisItem.js with filters on a column.
use huey.Base.{Option, not, ◌&&◌, ◌||◌, true, false, ◌≡◌, refl, none, some, List, [], ◌∷◌}
use huey.Base.Result.{Result, returns, ok, throw, type_error}
use huey.Base.Text.{Text, codes, same}
use huey.QueryAxisItem.{exclude, like, between, FilterValue, ItemFilter}
use huey.QueryAxisItem.Conditions.{is_null_literal, get_filter_condition_sql}
use huey.QueryAxisItem.Meaning.{Row}
use huey.QueryAxisItem.Keeps.{any_enabled, filter_keeps, ranges_fit, ends_by_key}
use huey.QueryAxisItem.Errors.{has_ends, returns-get_filter_condition_sql}

abbrev value : Text → FilterValue
value literal = record { literal = literal; enabled = none }

abbrev disabled : Text → FilterValue
disabled literal = record { literal = literal; enabled = some false }

abbrev listed : List (Text × FilterValue)
listed =
    (codes "1", value (codes "1"))
    ∷ (codes "2", disabled (codes "2"))
    ∷ (codes "3", value (codes "3"))
    ∷ (codes "NULL", value (codes "NULL"))
    ∷ []

abbrev excluded : ItemFilter
excluded = record {
  filter_type = exclude;
  values = listed;
  to_values = none;
  case_sensitive = none;
}

excluded-sql :
    get_filter_condition_sql (ok (codes "price")) (ok none) (some excluded)
    ≡ ok (some (codes "( price IS NOT NULL AND price  NOT IN ( 1\n,3 ) )"))
unfolding get_filter_condition_sql
excluded-sql = refl

liked : ItemFilter
liked = record {
  filter_type = like;
  values = (codes "a", value (codes "'a%'")) ∷ (codes "b", value (codes "'b%'")) ∷ [];
  to_values = none;
  case_sensitive = some false;
}

liked-sql :
    get_filter_condition_sql (ok (codes "name")) (ok (some (codes "VARCHAR"))) (some liked)
    ≡ ok (some (codes "( \nname COLLATE NOCASE LIKE 'a%'\nOR name COLLATE NOCASE LIKE 'b%' )"))
unfolding get_filter_condition_sql liked
liked-sql = refl

-- The value that is disabled takes no part, but its end does: 3 is paired with the end of 2.
abbrev ranges : ItemFilter
ranges = record {
  filter_type = between;
  values = (codes "2", disabled (codes "2")) ∷ (codes "3", value (codes "3")) ∷ [];
  to_values = some ((codes "2", value (codes "20")) ∷ (codes "3", value (codes "30")) ∷ []);
  case_sensitive = none;
}

ranges-sql :
    get_filter_condition_sql (ok (codes "price")) (ok none) (some ranges)
    ≡ ok (some (codes "\nprice BETWEEN 3 AND 20"))
unfolding get_filter_condition_sql
ranges-sql = refl

abbrev seven : Row
seven = record {
  is_null = false;
  equals = λ l. same l (codes "7");
  is_like = λ l. false;
  lies_between = λ l m. false;
  has_any = λ l. false;
  has_all = λ l. false;
}

filter_keeps-seven : filter_keeps excluded seven ≡ true
unfolding filter_keeps is_null_literal
filter_keeps-seven = refl

-- Of the same ranges, what the filter asks for is 3 to 30.
ranges-ends : ends_by_key ranges ≡ codes "30" ∷ []
unfolding ends_by_key is_null_literal
ranges-ends = refl

two_ranges : ItemFilter
two_ranges = record {
  filter_type = between;
  values = (codes "2", value (codes "2")) ∷ (codes "3", value (codes "3")) ∷ [];
  to_values = some ((codes "2", value (codes "20")) ∷ (codes "3", value (codes "30")) ∷ []);
  case_sensitive = none;
}

two_ranges-fit : ranges_fit two_ranges ≡ true
unfolding ranges_fit two_ranges is_null_literal
two_ranges-fit = refl

-- The SQL of an item whose aggregator is not known.
abbrev unknown_column : Result Text
unknown_column = throw type_error

abbrev no_type : Result (Option Text)
no_type = ok none

returns-get_filter_condition_sql_example :
    returns (get_filter_condition_sql unknown_column no_type (some ranges))
    ≡ has_ends ranges
      && (not (any_enabled ranges.values) || (returns unknown_column && returns no_type))
returns-get_filter_condition_sql_example =
    returns-get_filter_condition_sql unknown_column no_type ranges
