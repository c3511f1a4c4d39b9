-- ===== src/QueryAxisItem/Patterns.antt =====
-- QueryAxisItem.js: the condition of LIKE and NOT LIKE, and those on arrays.
use huey.Base.{Bool, true, false, not, ◌≡◌, ap, ◌∙◌, Option, some, List, ◌∷◌, if◌then◌else◌, arith}
use huey.Base.Text.{Text, codes}
use huey.QueryAxisItem.{like, notlike, hasany, hasall, nothasany, nothasall}
use huey.QueryAxisItem.Conditions.{
  pattern_column, null_condition, logical_operator, parenthesized, reduce_terms, like_terms,
  with_null_condition, like_condition, array_condition, needs_or,
}
use huey.QueryAxisItem.Meaning.{
  not3, or3, and3, Row, compared, negated, none_null, null_test, pattern_null_test, not_null_test,
  has_any, has_all, negation, close_group, line, one, both, all, either, holds,
}
use huey.QueryAxisItem.Keeps.{any_like, keeps}
use huey.QueryAxisItem.Terms.{
  fold_and, fold_or, reduce-and, reduce-or, like_truths, like_term, like_terms-AllRead, holds-or3,
  holds-and3, holds-like, holds-notlike, Means, grouped, null_or_value, value, null_fails,
  value_not_null, value_or_null, or-terms, needs_or-alone,
}

module _ (column : Text) (data_type : Option Text) (row : Row) where
  pub like-Means :
      (with_null : Bool) (l : Text) (literals : List Text) (to_literals : List Text)
      → none_null (l ∷ literals) ≡ true
      → Means column
          (pattern_column column data_type)
          row
          (parenthesized
            (needs_or false with_null (l ∷ literals))
            (like_condition column data_type false with_null (l ∷ literals)))
          (keeps like with_null row (l ∷ literals) to_literals)
  unfolding needs_or parenthesized like_condition like_terms with_null_condition null_condition
      logical_operator keeps none_null reduce_terms any_like
  like-Means true l literals t h =
      let n = negated false (compared row (row.is_like l)) in
      let first = like_term column (pattern_column column data_type) row false l (ground arith) in
      let others =
        like_terms-AllRead column (pattern_column column data_type) row false literals
          (ground arith) in
      (
        or3 (some row.is_null) (
            fold_or column (pattern_column column data_type) row n
              (like_truths column (pattern_column column data_type) row false literals)),
        grouped column (pattern_column column data_type) row (
            either (all (one null_test)) (
              reduce-or column (pattern_column column data_type) row others
                (all (one (line first))))),
        holds-or3 column (pattern_column column data_type) row (some row.is_null) (
              fold_or column (pattern_column column data_type) row n
                (like_truths column (pattern_column column data_type) row false literals))
            ∙ rw (holds-like column (pattern_column column data_type) row n literals) (
                null_or_value column (pattern_column column data_type) row (row.is_like l)
                  (any_like row literals)),
      )
  like-Means false l literals t h =
      let n = negated false (compared row (row.is_like l)) in
      let first = like_term column (pattern_column column data_type) row false l (ground arith) in
      let others =
        like_terms-AllRead column (pattern_column column data_type) row false literals
          (ground arith) in
      (
        fold_or column (pattern_column column data_type) row n
            (like_truths column (pattern_column column data_type) row false literals),
        or-terms column (pattern_column column data_type) row (needs_or false false (l ∷ literals))
            (λ e.
              ap (λ (x : List Text). like_terms (pattern_column column data_type) false x)
                (needs_or-alone column (pattern_column column data_type) row l literals e))
            first others,
        holds-like column (pattern_column column data_type) row n literals
            ∙ value column (pattern_column column data_type) row (row.is_like l)
                (any_like row literals),
      )

  pub notlike-Means :
      (with_null : Bool) (l : Text) (literals : List Text) (to_literals : List Text)
      → none_null (l ∷ literals) ≡ true
      → Means column
          (pattern_column column data_type)
          row
          (parenthesized
            (not with_null)
            (like_condition column data_type true with_null (l ∷ literals)))
          (keeps notlike with_null row (l ∷ literals) to_literals)
  unfolding parenthesized like_condition like_terms with_null_condition null_condition
      logical_operator keeps none_null reduce_terms any_like
  notlike-Means true l literals t h =
      let n = negated true (compared row (row.is_like l)) in
      let first = like_term column (pattern_column column data_type) row true l (ground arith) in
      let others =
        like_terms-AllRead column (pattern_column column data_type) row true literals
          (ground arith) in
      (
        and3 (some (not row.is_null)) (
            fold_and column (pattern_column column data_type) row n
              (like_truths column (pattern_column column data_type) row true literals)),
        both (one not_null_test)
            (reduce-and column (pattern_column column data_type) row others (one (line first))),
        holds-and3 column (pattern_column column data_type) row (some (not row.is_null)) (
              fold_and column (pattern_column column data_type) row n
                (like_truths column (pattern_column column data_type) row true literals))
            ∙ rw
                (holds-notlike column (pattern_column column data_type) row n literals
                  (null_fails column (pattern_column column data_type) row (row.is_like l)))
                (value_not_null column (pattern_column column data_type) row (row.is_like l)
                  (any_like row literals)),
      )
  notlike-Means false l literals t h =
      let n = negated true (compared row (row.is_like l)) in
      let first = like_term column (pattern_column column data_type) row true l (ground arith) in
      let others =
        like_terms-AllRead column (pattern_column column data_type) row true literals
          (ground arith) in
      let terms =
        fold_and column (pattern_column column data_type) row n
          (like_truths column (pattern_column column data_type) row true literals) in
      (
        or3 terms (some row.is_null),
        grouped column (pattern_column column data_type) row (
            either
              (all (
                one (
                  close_group (
                    all (
                      reduce-and column (pattern_column column data_type) row others
                        (one (line first)))))))
              (all (one pattern_null_test))),
        holds-or3 column (pattern_column column data_type) row terms (some row.is_null)
            ∙ rw
                (holds-notlike column (pattern_column column data_type) row n literals
                  (null_fails column (pattern_column column data_type) row (row.is_like l)))
                (value_or_null column (pattern_column column data_type) row (row.is_like l)
                  (any_like row literals)),
      )

  pub array-Means :
      (exclusive all_of with_null : Bool) (literals to_literals : List Text)
      → Means column
          (pattern_column column data_type)
          row
          (array_condition
            (if all_of then codes "list_has_all" else codes "list_has_any")
            column
            exclusive
            literals)
          (keeps
            (if exclusive
              then (if all_of then nothasall else nothasany)
              else (if all_of then hasall else hasany))
            with_null
            row
            literals
            to_literals)
  unfolding array_condition keeps holds compared not3
  array-Means false false w l t = (compared row (row.has_any l), one (has_any l), ground arith)
  array-Means false true w l t = (compared row (row.has_all l), one (has_all l), ground arith)
  array-Means true false w l t =
      (not3 (compared row (row.has_any l)), one (negation (has_any l)), ground arith)
  array-Means true true w l t =
      (not3 (compared row (row.has_all l)), one (negation (has_all l)), ground arith)
