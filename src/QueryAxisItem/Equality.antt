-- ===== src/QueryAxisItem/Equality.antt =====
-- QueryAxisItem.js: the condition of INCLUDE and EXCLUDE.
use huey.Base.{Bool, true, false, not, ◌≡◌, List, [], ◌∷◌, if◌then◌else◌, arith}
use huey.Base.Text.{Text}
use huey.QueryAxisItem.{include, exclude}
use huey.QueryAxisItem.Conditions.{
  null_condition, logical_operator, parenthesized, equality_condition,
}
use huey.QueryAxisItem.Meaning.{
  not3, or3, and3, Row, compared, none_null, null_test, not_null_test, equal, not_equal, in_list,
  not_in_list, group, one, both, all, either, holds,
}
use huey.QueryAxisItem.Keeps.{keeps}
use huey.QueryAxisItem.Terms.{Means, grouped}

module _ (column pattern : Text) (row : Row) where
  pub equality-Means :
      (exclusive with_null : Bool) (l : Text) (literals : List Text) (to_literals : List Text)
      → none_null (l ∷ literals) ≡ true
      → Means column pattern row
          (parenthesized
            (if exclusive then not with_null else with_null)
            (equality_condition column exclusive with_null (l ∷ literals)))
          (keeps (if exclusive then exclude else include) with_null row (l ∷ literals) to_literals)
  unfolding parenthesized equality_condition null_condition logical_operator keeps holds compared
      none_null or3 and3 not3
  equality-Means false false l [] t h =
      (_, one (group (all (one (equal l (ground arith))))), ground arith)
  equality-Means false false l (n ∷ literals) t h =
      (_, one (group (all (one (in_list l (n ∷ literals) h)))), ground arith)
  equality-Means false true l [] t h = (
    _,
    grouped column pattern row
        (all (one (group (either (all (one null_test)) (all (one (equal l (ground arith)))))))),
    ground arith,
  )
  equality-Means false true l (n ∷ literals) t h = (
    _,
    grouped column pattern row
        (all (one (group (either (all (one null_test)) (all (one (in_list l (n ∷ literals) h))))))),
    ground arith,
  )
  equality-Means true false l [] t h = (
    _,
    grouped column pattern row
        (all (one (group (either (all (one null_test)) (all (one (not_equal l (ground arith)))))))),
    ground arith,
  )
  equality-Means true false l (n ∷ literals) t h = (
    _,
    grouped column pattern row (
        all (
          one (group (either (all (one null_test)) (all (one (not_in_list l (n ∷ literals) h))))))),
    ground arith,
  )
  equality-Means true true l [] t h = (
    _,
    one (group (all (both (one not_null_test) (one (not_equal l (ground arith)))))),
    ground arith,
  )
  equality-Means true true l (n ∷ literals) t h = (
    _,
    one (group (all (both (one not_null_test) (one (not_in_list l (n ∷ literals) h))))),
    ground arith,
  )
