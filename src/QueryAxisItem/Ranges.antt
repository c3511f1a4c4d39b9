-- ===== src/QueryAxisItem/Ranges.antt =====
-- QueryAxisItem.js: the condition of BETWEEN and NOT BETWEEN.
use huey.Base.{Bool, true, false, not, ◌≡◌, ap, ◌∙◌, some, List, ◌∷◌, arith}
use huey.Base.Text.{Text}
use huey.QueryAxisItem.{between, notbetween}
use huey.QueryAxisItem.Conditions.{
  null_condition, logical_operator, parenthesized, reduce_terms, between_terms, with_null_condition,
  between_condition, needs_or,
}
use huey.QueryAxisItem.Meaning.{
  or3, and3, Row, compared, negated, none_null, null_test, not_null_test, line, one, both, all,
  either,
}
use huey.QueryAxisItem.Keeps.{any_between, keeps}
use huey.QueryAxisItem.Terms.{
  fold_and, fold_or, reduce-and, reduce-or, between_truths, between_term, between_terms-AllRead,
  holds-or3, holds-and3, holds-between, holds-notbetween, Means, grouped, null_or_value, value,
  null_fails, value_not, value_not_null, or-terms, needs_or-alone,
}

module _ (column pattern : Text) (row : Row) where
  pub between-Means :
      (with_null : Bool) (l : Text) (literals : List Text) (m : Text) (to_literals : List Text)
      → none_null (l ∷ literals) ≡ true
      → none_null (m ∷ to_literals) ≡ true
      → Means column pattern row
          (parenthesized
            (needs_or false with_null (l ∷ literals))
            (between_condition column false with_null (l ∷ literals) (m ∷ to_literals)))
          (keeps between with_null row (l ∷ literals) (m ∷ to_literals))
  unfolding needs_or parenthesized between_condition between_terms with_null_condition
      null_condition logical_operator keeps none_null reduce_terms any_between
  between-Means true l literals m to_literals h k =
      let n = negated false (compared row (row.lies_between l m)) in
      let first = between_term column pattern row false l m (ground arith) (ground arith) in
      let others =
        between_terms-AllRead column pattern row false literals to_literals (ground arith)
          (ground arith) in
      (
        or3 (some row.is_null) (
            fold_or column pattern row n
              (between_truths column pattern row false literals to_literals)),
        grouped column pattern row (
            either (all (one null_test))
              (reduce-or column pattern row others (all (one (line first))))),
        holds-or3 column pattern row (some row.is_null) (
              fold_or column pattern row n
                (between_truths column pattern row false literals to_literals))
            ∙ rw (holds-between column pattern row n literals to_literals) (
                null_or_value column pattern row (row.lies_between l m)
                  (any_between row literals to_literals)),
      )
  between-Means false l literals m to_literals h k =
      let n = negated false (compared row (row.lies_between l m)) in
      let first = between_term column pattern row false l m (ground arith) (ground arith) in
      let others =
        between_terms-AllRead column pattern row false literals to_literals (ground arith)
          (ground arith) in
      (
        fold_or column pattern row n (between_truths column pattern row false literals to_literals),
        or-terms column pattern row (needs_or false false (l ∷ literals))
            (λ e.
              ap (λ (x : List Text). between_terms column false x to_literals)
                (needs_or-alone column pattern row l literals e))
            first others,
        holds-between column pattern row n literals to_literals
            ∙ value column pattern row (row.lies_between l m)
                (any_between row literals to_literals),
      )

  pub notbetween-Means :
      (with_null : Bool) (l : Text) (literals : List Text) (m : Text) (to_literals : List Text)
      → none_null (l ∷ literals) ≡ true
      → none_null (m ∷ to_literals) ≡ true
      → Means column pattern row
          (parenthesized
            (needs_or true with_null (l ∷ literals))
            (between_condition column true with_null (l ∷ literals) (m ∷ to_literals)))
          (keeps notbetween with_null row (l ∷ literals) (m ∷ to_literals))
  unfolding needs_or parenthesized between_condition between_terms with_null_condition
      null_condition logical_operator keeps none_null reduce_terms any_between
  notbetween-Means true l literals m to_literals h k =
      let n = negated true (compared row (row.lies_between l m)) in
      let first = between_term column pattern row true l m (ground arith) (ground arith) in
      let others =
        between_terms-AllRead column pattern row true literals to_literals (ground arith)
          (ground arith) in
      (
        and3 (some (not row.is_null)) (
            fold_and column pattern row n
              (between_truths column pattern row true literals to_literals)),
        both (one not_null_test) (reduce-and column pattern row others (one (line first))),
        holds-and3 column pattern row (some (not row.is_null)) (
              fold_and column pattern row n
                (between_truths column pattern row true literals to_literals))
            ∙ rw
                (holds-notbetween column pattern row n literals to_literals
                  (null_fails column pattern row (row.lies_between l m)))
                (value_not_null column pattern row (row.lies_between l m)
                  (any_between row literals to_literals)),
      )
  notbetween-Means false l literals m to_literals h k =
      let n = negated true (compared row (row.lies_between l m)) in
      let first = between_term column pattern row true l m (ground arith) (ground arith) in
      let others =
        between_terms-AllRead column pattern row true literals to_literals (ground arith)
          (ground arith) in
      (
        fold_and column pattern row n (between_truths column pattern row true literals to_literals),
        reduce-and column pattern row others (one (line first)),
        holds-notbetween column pattern row n literals to_literals
              (null_fails column pattern row (row.lies_between l m))
            ∙ value_not column pattern row (row.lies_between l m)
                (any_between row literals to_literals),
      )
