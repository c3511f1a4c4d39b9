-- ===== src/QueryAxisItem/Terms.antt =====
-- QueryAxisItem.js: the terms that `reduce` joins with AND or OR, and their truth values.
use huey.Base.{
  Bool, true, false, not, ◌&&◌, ◌||◌, ◌≡◌, refl, ◌∙◌, some, List, [], ◌∷◌, ◌++◌, if◌then◌else◌,
  arith,
}
use huey.Base.Text.{Text, codes}
use huey.QueryAxisItem.{}
use huey.QueryAxisItem.Conditions.{
  is_null_literal, parenthesized, reduce_terms, like_terms, between_terms, needs_or,
}
use huey.QueryAxisItem.Meaning.{
  Truth, not3, or3, and3, Row, compared, negated, none_null, Level, atom, conjunction, disjunction,
  Reads, is_like, not_like, is_between, not_between, group, line, one, both_lines, all,
  either_lines, holds,
}
use huey.QueryAxisItem.Keeps.{any_like, any_between}

module _ (column pattern : Text) (row : Row) where
  abbrev pub ReadsAs : Level → Text → Truth → Type 0
  ReadsAs level s m = Reads column pattern row level s m

  -- The texts of a list, with their truth values.
  pub data AllRead : List Text → List Truth → Type 0 where
    nil : AllRead [] []
    more :
        {t : Text} {m : Truth} {terms : List Text} {ms : List Truth}
        → ReadsAs atom t m
        → AllRead terms ms
        → AllRead (t ∷ terms) (m ∷ ms)

  unfoldable pub fold_and : Truth → List Truth → Truth
  fold_and m [] = m
  fold_and m (n ∷ ms) = fold_and (and3 m n) ms

  unfoldable pub fold_or : Truth → List Truth → Truth
  fold_or m [] = m
  fold_or m (n ∷ ms) = fold_or (or3 m n) ms

  pub reduce-and :
      {terms : List Text} {ms : List Truth}
      → AllRead terms ms
      → {sql : Text} {m : Truth} → ReadsAs conjunction sql m
      → ReadsAs conjunction (reduce_terms (codes "AND ") sql false terms) (fold_and m ms)
  unfolding reduce_terms fold_and
  reduce-and nil r = r
  reduce-and (more h hs) r = reduce-and hs (both_lines r (one h))

  pub reduce-or :
      {terms : List Text} {ms : List Truth}
      → AllRead terms ms
      → {sql : Text} {m : Truth} → ReadsAs disjunction sql m
      → ReadsAs disjunction (reduce_terms (codes "OR ") sql false terms) (fold_or m ms)
  unfolding reduce_terms fold_or
  reduce-or nil r = r
  reduce-or (more h hs) r = reduce-or hs (either_lines r (all (one h)))

  unfoldable pub like_truths : Bool → List Text → List Truth
  unfolding negated compared
  like_truths exclusive [] = []
  like_truths exclusive (l ∷ literals) =
      negated exclusive (compared row (row.is_like l)) ∷ like_truths exclusive literals

  unfoldable pub between_truths : Bool → List Text → List Text → List Truth
  unfolding negated compared
  between_truths exclusive [] to_literals = []
  between_truths exclusive (l ∷ literals) [] = []
  between_truths exclusive (l ∷ literals) (m ∷ to_literals) =
      negated exclusive (compared row (row.lies_between l m))
      ∷ between_truths exclusive literals to_literals

  pub like_term :
      (exclusive : Bool) (l : Text)
      → is_null_literal l ≡ false
      → ReadsAs atom
          (if exclusive
            then pattern ++ (codes " NOT LIKE " ++ l)
            else pattern ++ (codes " LIKE " ++ l))
          (negated exclusive (compared row (row.is_like l)))
  unfolding negated
  like_term true l h = not_like l h
  like_term false l h = is_like l h

  pub between_term :
      (exclusive : Bool) (l m : Text)
      → is_null_literal l ≡ false
      → is_null_literal m ≡ false
      → ReadsAs atom
          (if exclusive
            then column ++ (codes " NOT BETWEEN " ++ (l ++ (codes " AND " ++ m)))
            else column ++ (codes " BETWEEN " ++ (l ++ (codes " AND " ++ m))))
          (negated exclusive (compared row (row.lies_between l m)))
  unfolding negated
  between_term true l m h k = not_between l m h k
  between_term false l m h k = is_between l m h k

  pub like_terms-AllRead :
      (exclusive : Bool) (literals : List Text)
      → none_null literals ≡ true
      → AllRead (like_terms pattern exclusive literals) (like_truths exclusive literals)
  unfolding like_terms like_truths none_null
  like_terms-AllRead exclusive [] h = nil
  like_terms-AllRead exclusive (l ∷ literals) h =
      more (like_term exclusive l (ground arith))
        (like_terms-AllRead exclusive literals (ground arith))

  pub between_terms-AllRead :
      (exclusive : Bool) (literals to_literals : List Text)
      → none_null literals ≡ true
      → none_null to_literals ≡ true
      → AllRead
          (between_terms column exclusive literals to_literals)
          (between_truths exclusive literals to_literals)
  unfolding between_terms between_truths none_null
  between_terms-AllRead exclusive [] to_literals h k = nil
  between_terms-AllRead exclusive (l ∷ literals) [] h k = nil
  between_terms-AllRead exclusive (l ∷ literals) (m ∷ to_literals) h k =
      more (between_term exclusive l m (ground arith) (ground arith))
        (between_terms-AllRead exclusive literals to_literals (ground arith) (ground arith))

  pub holds-or3 : (m n : Truth) → holds (or3 m n) ≡ holds m || holds n
  unfolding holds or3
  holds-or3 m n = ground arith

  pub holds-and3 : (m n : Truth) → holds (and3 m n) ≡ holds m && holds n
  unfolding holds and3
  holds-and3 m n = ground arith

  pub holds-like :
      (m : Truth) (literals : List Text)
      → holds (fold_or m (like_truths false literals))
        ≡ holds m || (not row.is_null && any_like row literals)
  unfolding fold_or like_truths any_like negated compared holds
  holds-like m [] = ground arith
  holds-like m (l ∷ literals) =
      let n = compared row (row.is_like l) in
      holds-like (or3 m n) literals ∙ ground (arith, holds-or3 m n)

  pub holds-notlike :
      (m : Truth) (literals : List Text)
      → (row.is_null ≡ true → holds m ≡ false)
      → holds (fold_and m (like_truths true literals)) ≡ holds m && not (any_like row literals)
  unfolding fold_and like_truths any_like negated compared holds not3
  holds-notlike m [] h = ground arith
  holds-notlike m (l ∷ literals) h =
      let n = negated true (compared row (row.is_like l)) in
      holds-notlike (and3 m n) literals (λ e. ground (arith, holds-and3 m n))
      ∙ ground (arith, holds-and3 m n)

  pub holds-between :
      (m : Truth) (literals to_literals : List Text)
      → holds (fold_or m (between_truths false literals to_literals))
        ≡ holds m || (not row.is_null && any_between row literals to_literals)
  unfolding fold_or between_truths any_between negated compared holds
  holds-between m [] to_literals = ground arith
  holds-between m (l ∷ literals) [] = ground arith
  holds-between m (l ∷ literals) (k ∷ to_literals) =
      let n = compared row (row.lies_between l k) in
      holds-between (or3 m n) literals to_literals ∙ ground (arith, holds-or3 m n)

  pub holds-notbetween :
      (m : Truth) (literals to_literals : List Text)
      → (row.is_null ≡ true → holds m ≡ false)
      → holds (fold_and m (between_truths true literals to_literals))
        ≡ holds m && not (any_between row literals to_literals)
  unfolding fold_and between_truths any_between negated compared holds not3
  holds-notbetween m [] to_literals h = ground arith
  holds-notbetween m (l ∷ literals) [] h = ground arith
  holds-notbetween m (l ∷ literals) (k ∷ to_literals) h =
      let n = negated true (compared row (row.lies_between l k)) in
      holds-notbetween (and3 m n) literals to_literals (λ e. ground (arith, holds-and3 m n))
      ∙ ground (arith, holds-and3 m n)

  -- The text reads as a condition that can stand under AND, and that is true just when `b` is.
  abbrev pub Means : Text → Bool → Type 0
  Means sql b = (m : Truth) × ReadsAs conjunction sql m × (holds m ≡ b)

  pub grouped :
      {sql : Text} {m : Truth}
      → ReadsAs disjunction sql m
      → ReadsAs conjunction (codes "( " ++ (sql ++ codes " )")) m
  grouped r = one (group r)

  -- How the truth value of the first term and that of the others make that of all.
  pub null_or_value :
      (a b : Bool)
      → (holds (some row.is_null)
          || (holds (negated false (compared row a)) || (not row.is_null && b)))
        ≡ (if row.is_null then true else a || b)
  unfolding holds negated compared
  null_or_value a b = ground arith

  pub value :
      (a b : Bool)
      → (holds (negated false (compared row a)) || (not row.is_null && b))
        ≡ (if row.is_null then false else a || b)
  unfolding holds negated compared
  value a b = ground arith

  pub null_fails : (a : Bool) → row.is_null ≡ true → holds (negated true (compared row a)) ≡ false
  unfolding holds negated compared not3
  null_fails a h = ground arith

  pub value_not :
      (a b : Bool)
      → (holds (negated true (compared row a)) && not b)
        ≡ (if row.is_null then false else not (a || b))
  unfolding holds negated compared not3
  value_not a b = ground arith

  pub value_not_null :
      (a b : Bool)
      → (holds (some (not row.is_null)) && (holds (negated true (compared row a)) && not b))
        ≡ (if row.is_null then false else not (a || b))
  unfolding holds negated compared not3
  value_not_null a b = ground arith

  pub value_or_null :
      (a b : Bool)
      → ((holds (negated true (compared row a)) && not b) || holds (some row.is_null))
        ≡ (if row.is_null then true else not (a || b))
  unfolding holds negated compared not3
  value_or_null a b = ground arith

  -- One term, or several in parentheses.
  pub or-terms :
      (several : Bool) {sql : Text} {m : Truth} {terms : List Text} {ms : List Truth}
      → (several ≡ false → terms ≡ [])
      → ReadsAs atom sql m
      → AllRead terms ms
      → ReadsAs conjunction
          (parenthesized several (reduce_terms (codes "OR ") (codes "\n" ++ sql) false terms))
          (fold_or m ms)
  unfolding parenthesized reduce_terms fold_or
  or-terms true e h hs = grouped (reduce-or hs (all (one (line h))))
  or-terms false e h nil = one (line h)
  or-terms false e h (more k hs) = absurd (no_term (e refl))
    where
      no_term : {t : Text} {terms : List Text} → t ∷ terms ≡ [] → ⊥
      no_term h = cc

  pub needs_or-alone :
      (l : Text) (literals : List Text)
      → needs_or false false (l ∷ literals) ≡ false
      → literals ≡ []
  unfolding needs_or
  needs_or-alone l [] h = refl
  needs_or-alone l (n ∷ literals) h = absurd (ground arith)
