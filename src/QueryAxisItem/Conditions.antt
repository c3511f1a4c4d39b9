-- ===== src/QueryAxisItem/Conditions.antt =====
-- QueryAxisItem.js: `getFilterConditionSql`, the text of the condition of a filter.
-- `column_sql` is what `getSqlForQueryAxisItem` returns for the item, or that it throws, and
-- `item_data_type` what `getQueryAxisItemDataType` does.
use huey.Base.{
  ℕ, zero, suc, Bool, true, false, not, ◌&&◌, ◌||◌, Option, none, some, List, [], ◌∷◌, ◌++◌,
  is_some, if◌then◌else◌, length, leb,
}
use huey.Base.Result.{Result, ok, ◌>>=◌}
use huey.Base.Text.{Text, codes, same, starts_with, join}
use huey.QueryAxisItem.{
  FilterType, include, exclude, like, notlike, between, notbetween, hasany, hasall, nothasany,
  nothasall, ItemFilter, is_exclusive_filter_type, get_filter_axis_item_values_list_as_sql_literals,
  is_filter_item_effective,
}

unfoldable pub is_null_literal : Text → Bool
unfolding same starts_with
is_null_literal value = same value (codes "NULL") || starts_with value (codes "NULL::")

-- `findIndex`; `none` for -1.
unfoldable pub index_of_null : List Text → Option ℕ
unfolding is_null_literal
index_of_null [] = none
index_of_null (l ∷ literals) =
    let rest = index_of_null literals in
    if is_null_literal l then some 0 else elim rest [ none ↦ none | some i ↦ some (suc i) ]

-- `splice(index, 1)`.
unfoldable pub splice : ℕ → List Text → List Text
splice i [] = []
splice zero (l ∷ literals) = literals
splice (suc i) (l ∷ literals) = l ∷ splice i literals

unfoldable pub splice_at : Option ℕ → List Text → List Text
unfolding splice
splice_at none literals = literals
splice_at (some i) literals = splice i literals

unfoldable pub is_varchar : Option Text → Bool
unfolding same
is_varchar none = false
is_varchar (some data_type) = same data_type (codes "VARCHAR")

unfoldable pub collated : Text → Option Text → Option Bool → Text
unfolding is_varchar
collated column data_type case_sensitive = elim case_sensitive as (λ x. Text) [
  | some false ↦ if is_varchar data_type then column ++ codes " COLLATE NOCASE" else column
  | _ ↦ column
]

-- The column that LIKE is asked of.
unfoldable pub pattern_column : Text → Option Text → Text
unfolding is_varchar
pattern_column column data_type =
    if is_varchar data_type then column else column ++ codes "::VARCHAR"

unfoldable pub null_condition : Text → Bool → Text
null_condition column exclusive =
    if exclusive then column ++ codes " IS NOT NULL" else column ++ codes " IS NULL"

unfoldable pub logical_operator : Bool → Text
logical_operator exclusive = if exclusive then codes "AND " else codes "OR "

unfoldable pub parenthesized : Bool → Text → Text
parenthesized needs sql = if needs then codes "( " ++ (sql ++ codes " )") else sql

-- `( sql )` for INCLUDE and EXCLUDE, before the outer parentheses.
unfoldable pub equality_condition : Text → Bool → Bool → List Text → Text
unfolding null_condition logical_operator
equality_condition column exclusive with_null literals =
    let comparison = elim literals as (λ x. Text) [
      | [] ↦ []
      | l ∷ [] ↦ if exclusive then column ++ (codes "  != " ++ l) else column ++ (codes " = " ++ l)
      | l ∷ m ∷ more ↦
          if exclusive
          then column ++ (codes "  NOT IN ( " ++ (join (codes "\n,") (l ∷ m ∷ more) ++ codes " )"))
          else column ++ (codes "  IN ( " ++ (join (codes "\n,") (l ∷ m ∷ more) ++ codes " )"))
    ] in
    let sql =
      if with_null
      then null_condition column exclusive
        ++ (codes " " ++ (logical_operator exclusive ++ comparison))
      else if exclusive
      then column ++ codes " IS NULL" ++ (codes " OR " ++ comparison)
      else comparison in
    codes "( " ++ (sql ++ codes " )")

-- `reduce` with a line for each term, joined by the operator.
unfoldable pub reduce_terms : Text → Text → Bool → List Text → Text
reduce_terms operator sql first [] = sql
reduce_terms operator sql first (term ∷ terms) =
    let joint = if first then codes "\n" else codes "\n" ++ operator in
    reduce_terms operator (sql ++ (joint ++ term)) false terms

unfoldable pub like_terms : Text → Bool → List Text → List Text
like_terms column exclusive [] = []
like_terms column exclusive (l ∷ literals) =
    (if exclusive then column ++ (codes " NOT LIKE " ++ l) else column ++ (codes " LIKE " ++ l))
    ∷ like_terms column exclusive literals

unfoldable pub between_terms : Text → Bool → List Text → List Text → List Text
between_terms column exclusive [] to_literals = []
between_terms column exclusive (l ∷ literals) [] = []
between_terms column exclusive (l ∷ literals) (m ∷ to_literals) =
    (if exclusive
      then column ++ (codes " NOT BETWEEN " ++ (l ++ (codes " AND " ++ m)))
      else column ++ (codes " BETWEEN " ++ (l ++ (codes " AND " ++ m))))
    ∷ between_terms column exclusive literals to_literals

unfoldable pub with_null_condition : Text → Bool → Text → Text
unfolding null_condition logical_operator
with_null_condition column exclusive sql =
    null_condition column exclusive ++ (codes " " ++ (logical_operator exclusive ++ sql))

-- LIKE and NOT LIKE: the text, before the outer parentheses.
unfoldable pub like_condition : Text → Option Text → Bool → Bool → List Text → Text
unfolding pattern_column reduce_terms like_terms logical_operator with_null_condition
like_condition column data_type exclusive with_null literals =
    let pattern = pattern_column column data_type in
    let sql =
      reduce_terms (logical_operator exclusive) [] true (like_terms pattern exclusive literals) in
    if with_null
    then with_null_condition column exclusive sql
    else if exclusive
    then codes "(" ++ (sql ++ codes ")") ++ (codes " OR " ++ (pattern ++ codes " IS NULL"))
    else sql

unfoldable pub between_condition : Text → Bool → Bool → List Text → List Text → Text
unfolding reduce_terms between_terms logical_operator with_null_condition
between_condition column exclusive with_null literals to_literals =
    let sql =
      reduce_terms (logical_operator exclusive) [] true
        (between_terms column exclusive literals to_literals) in
    if with_null then with_null_condition column exclusive sql else sql

unfoldable pub array_condition : Text → Text → Bool → List Text → Text
unfolding join
array_condition function column exclusive literals =
    let sql =
      function
      ++ (codes "( "
          ++ (column ++ (codes ", [ " ++ (join (codes ",") literals ++ codes " ] )")))) in
    if exclusive then codes "NOT " ++ sql else sql

-- Of the terms that OR joins: more than one, or one and the condition on NULL.
unfoldable pub needs_or : Bool → Bool → List Text → Bool
needs_or exclusive with_null literals = not exclusive && (with_null || leb 2 (length literals))

-- The condition on the values, when there are any beside NULL.
unfoldable pub values_condition :
    Text → Option Text → FilterType → Bool → List Text → List Text → Text
unfolding equality_condition like_condition between_condition array_condition parenthesized needs_or
values_condition column data_type filter_type with_null literals to_literals =
    elim filter_type as (λ x. Text) [
      | include ↦ parenthesized with_null (equality_condition column false with_null literals)
      | exclude ↦ parenthesized (not with_null) (equality_condition column true with_null literals)
      | like ↦
          parenthesized (needs_or false with_null literals)
            (like_condition column data_type false with_null literals)
      | notlike ↦
          parenthesized (not with_null) (like_condition column data_type true with_null literals)
      | between ↦
          parenthesized (needs_or false with_null literals)
            (between_condition column false with_null literals to_literals)
      | notbetween ↦
          parenthesized (needs_or true with_null literals)
            (between_condition column true with_null literals to_literals)
      | hasany ↦ array_condition (codes "list_has_any") column false literals
      | hasall ↦ array_condition (codes "list_has_all") column false literals
      | nothasany ↦ array_condition (codes "list_has_any") column true literals
      | nothasall ↦ array_condition (codes "list_has_all") column true literals
    ]

-- The condition for lists of literals that are not both empty.
unfoldable pub literals_condition : Text → Option Text → FilterType → List Text → List Text → Text
unfolding index_of_null splice_at values_condition null_condition is_exclusive_filter_type
literals_condition column data_type filter_type literals to_literals =
    let index = index_of_null literals in
    let others = splice_at index literals in
    elim others as (λ x. Text) [
      | [] ↦ null_condition column (is_exclusive_filter_type filter_type)
      | l ∷ more ↦
          values_condition column data_type filter_type (is_some index) (l ∷ more)
            (splice_at index to_literals)
    ]

-- `undefined` is `none`.
unfoldable pub get_filter_condition_sql :
    Result Text → Result (Option Text) → Option ItemFilter → Result (Option Text)
unfolding is_filter_item_effective get_filter_axis_item_values_list_as_sql_literals collated
    literals_condition
get_filter_condition_sql column_sql item_data_type none = ok none
get_filter_condition_sql column_sql item_data_type (some filter) =
    is_filter_item_effective (some filter) >>= λ effective.
    if effective
    then (column_sql >>= λ column_expression. item_data_type >>= λ data_type.
        get_filter_axis_item_values_list_as_sql_literals filter false >>= λ lists.
        let to_literals = elim lists.to_value_literals as (λ x. List Text) [
          | none ↦ []
          | some l ↦ l
        ] in
        ok (
          some (
            literals_condition (collated column_expression data_type filter.case_sensitive)
              data_type filter.filter_type lists.value_literals to_literals)))
    else ok none
