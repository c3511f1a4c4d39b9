-- ===== src/QueryAxisItem/Meaning.antt =====
-- What the text of a condition means in SQL, with its logic of three values, for one row.
use huey.Base.{
  Bool, true, false, not, ◌&&◌, ◌||◌, ◌≡◌, Option, none, some, List, [], ◌∷◌, ◌++◌, if◌then◌else◌,
}
use huey.Base.Text.{Text, codes, join}
use huey.QueryAxisItem.Conditions.{is_null_literal}

-- `none` for UNKNOWN.
abbrev pub Truth : Type 0
Truth = Option Bool

unfoldable pub not3 : Truth → Truth
not3 none = none
not3 (some b) = some (not b)

unfoldable pub or3 : Truth → Truth → Truth
or3 (some true) m = some true
or3 (some false) m = m
or3 none (some true) = some true
or3 none m = none

unfoldable pub and3 : Truth → Truth → Truth
and3 (some false) m = some false
and3 (some true) m = m
and3 none (some false) = some false
and3 none m = none

-- The value of a column in a row: whether it is NULL, and, where it is not, which literals it
-- equals, which patterns it is like, between which literals it lies, and whether, as a list,
-- it has some or all of a list of literals.
pub record Row : Type 0 where
  pub is_null : Bool
  pub equals : Text → Bool
  pub is_like : Text → Bool
  pub lies_between : Text → Text → Bool
  pub has_any : List Text → Bool
  pub has_all : List Text → Bool

-- A comparison is unknown where the value is NULL.
unfoldable pub compared : Row → Bool → Truth
compared row b = if row.is_null then none else some b

unfoldable pub negated : Bool → Truth → Truth
unfolding not3
negated n m = if n then not3 m else m

unfoldable pub any_equals : Row → List Text → Bool
any_equals row [] = false
any_equals row (l ∷ literals) = row.equals l || any_equals row literals

unfoldable pub none_null : List Text → Bool
unfolding is_null_literal
none_null [] = true
none_null (l ∷ literals) = not (is_null_literal l) && none_null literals

-- Where a condition may stand: under AND, beside others; under AND; or under OR.
pub data Level : Type 0 where
  atom conjunction disjunction : Level

-- The text is a condition on the column, with this truth value. `pattern` is the column as a text.
-- Literals are not NULL.
pub data Reads (column pattern : Text) (row : Row) : Level → Text → Truth → Type 0 where
  null_test : Reads column pattern row atom (column ++ codes " IS NULL") (some row.is_null)
  pattern_null_test : Reads column pattern row atom (pattern ++ codes " IS NULL") (some row.is_null)
  not_null_test :
      Reads column pattern row atom (column ++ codes " IS NOT NULL") (some (not row.is_null))
  equal :
      (l : Text)
      → is_null_literal l ≡ false
      → Reads column pattern row atom (column ++ (codes " = " ++ l)) (compared row (row.equals l))
  not_equal :
      (l : Text)
      → is_null_literal l ≡ false
      → Reads column pattern row atom
          (column ++ (codes "  != " ++ l))
          (not3 (compared row (row.equals l)))
  in_list :
      (l : Text) (literals : List Text)
      → none_null (l ∷ literals) ≡ true
      → Reads column pattern row atom
          (column ++ (codes "  IN ( " ++ (join (codes "\n,") (l ∷ literals) ++ codes " )")))
          (compared row (any_equals row (l ∷ literals)))
  not_in_list :
      (l : Text) (literals : List Text)
      → none_null (l ∷ literals) ≡ true
      → Reads column pattern row atom
          (column ++ (codes "  NOT IN ( " ++ (join (codes "\n,") (l ∷ literals) ++ codes " )")))
          (not3 (compared row (any_equals row (l ∷ literals))))
  is_like :
      (l : Text)
      → is_null_literal l ≡ false
      → Reads column pattern row atom
          (pattern ++ (codes " LIKE " ++ l))
          (compared row (row.is_like l))
  not_like :
      (l : Text)
      → is_null_literal l ≡ false
      → Reads column pattern row atom
          (pattern ++ (codes " NOT LIKE " ++ l))
          (not3 (compared row (row.is_like l)))
  is_between :
      (l m : Text)
      → is_null_literal l ≡ false
      → is_null_literal m ≡ false
      → Reads column pattern row atom
          (column ++ (codes " BETWEEN " ++ (l ++ (codes " AND " ++ m))))
          (compared row (row.lies_between l m))
  not_between :
      (l m : Text)
      → is_null_literal l ≡ false
      → is_null_literal m ≡ false
      → Reads column pattern row atom
          (column ++ (codes " NOT BETWEEN " ++ (l ++ (codes " AND " ++ m))))
          (not3 (compared row (row.lies_between l m)))
  has_any :
      (literals : List Text)
      → Reads column pattern row atom
          (codes "list_has_any"
            ++ (codes "( "
                ++ (column ++ (codes ", [ " ++ (join (codes ",") literals ++ codes " ] )")))))
          (compared row (row.has_any literals))
  has_all :
      (literals : List Text)
      → Reads column pattern row atom
          (codes "list_has_all"
            ++ (codes "( "
                ++ (column ++ (codes ", [ " ++ (join (codes ",") literals ++ codes " ] )")))))
          (compared row (row.has_all literals))
  negation :
      {s : Text} {m : Truth}
      → Reads column pattern row atom s m
      → Reads column pattern row atom (codes "NOT " ++ s) (not3 m)
  group :
      {s : Text} {m : Truth}
      → Reads column pattern row disjunction s m
      → Reads column pattern row atom (codes "( " ++ (s ++ codes " )")) m
  close_group :
      {s : Text} {m : Truth}
      → Reads column pattern row disjunction s m
      → Reads column pattern row atom (codes "(" ++ (s ++ codes ")")) m
  line :
      {level : Level} {s : Text} {m : Truth}
      → Reads column pattern row level s m
      → Reads column pattern row level (codes "\n" ++ s) m
  one :
      {s : Text} {m : Truth}
      → Reads column pattern row atom s m
      → Reads column pattern row conjunction s m
  both :
      {s t : Text} {m n : Truth}
      → Reads column pattern row conjunction s m
      → Reads column pattern row conjunction t n
      → Reads column pattern row conjunction (s ++ (codes " AND " ++ t)) (and3 m n)
  both_lines :
      {s t : Text} {m n : Truth}
      → Reads column pattern row conjunction s m
      → Reads column pattern row conjunction t n
      → Reads column pattern row conjunction (s ++ (codes "\nAND " ++ t)) (and3 m n)
  all :
      {s : Text} {m : Truth}
      → Reads column pattern row conjunction s m
      → Reads column pattern row disjunction s m
  either :
      {s t : Text} {m n : Truth}
      → Reads column pattern row disjunction s m
      → Reads column pattern row disjunction t n
      → Reads column pattern row disjunction (s ++ (codes " OR " ++ t)) (or3 m n)
  either_lines :
      {s t : Text} {m n : Truth}
      → Reads column pattern row disjunction s m
      → Reads column pattern row disjunction t n
      → Reads column pattern row disjunction (s ++ (codes "\nOR " ++ t)) (or3 m n)

-- A row passes WHERE when the condition is true, not when it is false or unknown.
unfoldable pub holds : Truth → Bool
holds (some true) = true
holds _ = false
