-- ===== src/QueryAxisItem/Literals.antt =====
-- QueryAxisItem.js: the condition for lists of literals is true of the rows that they keep.
use huey.Base.{
  Bool, true, false, not, ◌&&◌, ◌≡◌, Option, some, List, [], ◌∷◌, if◌then◌else◌, arith, is_some,
  length, ◌==◌,
}
use huey.Base.Text.{Text}
use huey.QueryAxisItem.{
  FilterType, include, exclude, like, notlike, between, notbetween, hasany, hasall, nothasany,
  nothasall,
}
use huey.QueryAxisItem.Conditions.{pattern_column, null_condition, values_condition}
use huey.QueryAxisItem.Meaning.{Row, none_null, null_test, not_null_test, one, holds}
use huey.QueryAxisItem.Keeps.{keeps}
use huey.QueryAxisItem.Chosen.{}
use huey.QueryAxisItem.Terms.{Means}
use huey.QueryAxisItem.{is_exclusive_filter_type, is_range_filter_type}
use huey.QueryAxisItem.Conditions.{index_of_null, splice_at, literals_condition}
use huey.QueryAxisItem.Equality.{equality-Means}
use huey.QueryAxisItem.Ranges.{between-Means, notbetween-Means}
use huey.QueryAxisItem.Patterns.{like-Means, notlike-Means, array-Means}

-- As many ends of ranges as beginnings, none of them NULL; asked of range filters only.
unfoldable pub ends_fit : FilterType → List Text → List Text → Bool
unfolding none_null is_range_filter_type
ends_fit filter_type literals to_literals =
    if is_range_filter_type filter_type
    then none_null to_literals && (length literals == length to_literals)
    else true

module _ (column : Text) (data_type : Option Text) (row : Row) where
  values-Means :
      (filter_type : FilterType) (with_null : Bool) (l : Text) (literals to_literals : List Text)
      → none_null (l ∷ literals) ≡ true
      → ends_fit filter_type (l ∷ literals) to_literals ≡ true
      → Means column
          (pattern_column column data_type)
          row
          (values_condition column data_type filter_type with_null (l ∷ literals) to_literals)
          (keeps filter_type with_null row (l ∷ literals) to_literals)
  unfolding values_condition ends_fit is_range_filter_type
  values-Means include w l literals t h e =
      equality-Means column (pattern_column column data_type) row false w l literals t h
  values-Means exclude w l literals t h e =
      equality-Means column (pattern_column column data_type) row true w l literals t h
  values-Means like w l literals t h e = like-Means column data_type row w l literals t h
  values-Means notlike w l literals t h e = notlike-Means column data_type row w l literals t h
  values-Means between w l literals [] h e = absurd (ground arith)
  values-Means between w l literals (m ∷ t) h e =
      between-Means column (pattern_column column data_type) row w l literals m t h (ground arith)
  values-Means notbetween w l literals [] h e = absurd (ground arith)
  values-Means notbetween w l literals (m ∷ t) h e =
      notbetween-Means column (pattern_column column data_type) row w l literals m t h
        (ground arith)
  values-Means hasany w l literals t h e =
      array-Means column data_type row false false w (l ∷ literals) t
  values-Means hasall w l literals t h e =
      array-Means column data_type row false true w (l ∷ literals) t
  values-Means nothasany w l literals t h e =
      array-Means column data_type row true false w (l ∷ literals) t
  values-Means nothasall w l literals t h e =
      array-Means column data_type row true true w (l ∷ literals) t

-- Which rows are kept that has these literals, in which NULL may be. A filter on arrays with
-- no other value than NULL asks for NULL only.
unfoldable pub kept : FilterType → Row → List Text → List Text → Bool
unfolding index_of_null splice_at keeps is_exclusive_filter_type
kept filter_type row literals to_literals =
    let listed = index_of_null literals in
    elim (splice_at listed literals) as (λ x. Bool) [
      | [] ↦ if is_exclusive_filter_type filter_type then not row.is_null else row.is_null
      | l ∷ others ↦
          keeps filter_type (is_some listed) row (l ∷ others) (splice_at listed to_literals)
    ]

null-Means :
    (column pattern : Text) (row : Row) (exclusive : Bool)
    → Means column pattern row
        (null_condition column exclusive)
        (if exclusive then not row.is_null else row.is_null)
unfolding null_condition holds
null-Means column pattern row true = (some (not row.is_null), one not_null_test, ground arith)
null-Means column pattern row false = (some row.is_null, one null_test, ground arith)

pub literals-Means :
    (column : Text) (data_type : Option Text) (row : Row) (filter_type : FilterType)
    (literals to_literals : List Text)
    → none_null (splice_at (index_of_null literals) literals) ≡ true
    → ends_fit filter_type
        (splice_at (index_of_null literals) literals)
        (splice_at (index_of_null literals) to_literals)
      ≡ true
    → Means column
        (pattern_column column data_type)
        row
        (literals_condition column data_type filter_type literals to_literals)
        (kept filter_type row literals to_literals)
unfolding literals_condition kept
literals-Means column data_type row filter_type literals to_literals =
    let listed = index_of_null literals in
    elim (splice_at listed literals)
      as (λ others.
        none_null others ≡ true
        → ends_fit filter_type others (splice_at listed to_literals) ≡ true
        → Means column (pattern_column column data_type) row
            (elim others as (λ x. Text) [
              | [] ↦ null_condition column (is_exclusive_filter_type filter_type)
              | l ∷ others ↦
                  values_condition column data_type filter_type (is_some listed) (l ∷ others)
                    (splice_at listed to_literals)
            ])
            (elim others as (λ x. Bool) [
              | [] ↦ if is_exclusive_filter_type filter_type then not row.is_null else row.is_null
              | l ∷ others ↦
                  keeps filter_type (is_some listed) row (l ∷ others) (splice_at listed to_literals)
            ])) [
              | [] ↦ λ h e.
                  null-Means column (pattern_column column data_type) row
                    (is_exclusive_filter_type filter_type)
              | l ∷ others ↦ λ h e.
                  values-Means column data_type row filter_type (is_some listed) l others
                    (splice_at listed to_literals) h e
            ]
