-- ===== src/QueryAxisItem/Chosen.antt =====
-- QueryAxisItem.js: the literals that `#getFilterAxisItemValuesListAsSqlLiterals` lists, without
-- NULL, are those of the values that are not disabled.
use huey.Base.{
  ℕ, suc, Bool, true, false, ◌||◌, ◌≡◌, refl, sym, ◌∙◌, none, List, [], ◌∷◌, is_some, leb, arith,
  Option-cases, Bool-cases, inl, inr,
}
use huey.Base.Text.{Text}
use huey.QueryAxisItem.{
  FilterType, include, exclude, like, notlike, between, notbetween, hasany, hasall, nothasany,
  nothasall, FilterValue, is_enabled, enabled_values, literals_of, is_range_filter_type,
}
use huey.QueryAxisItem.Conditions.{is_null_literal, index_of_null, splice, splice_at}
use huey.QueryAxisItem.Meaning.{Row, none_null}
use huey.QueryAxisItem.Keeps.{
  counts, any_enabled, count_nulls, chosen_literals, asks_for_ranges, keeps,
}

-- The literals that the code lists.
abbrev pub listed : List (Text × FilterValue) → List Text
listed values = literals_of (enabled_values values)

pub enabled-counts : (value : FilterValue) → is_enabled value ≡ counts value
unfolding is_enabled counts
enabled-counts value = refl

no_nulls :
    (values : List (Text × FilterValue))
    → count_nulls values ≡ 0
    → (index_of_null (listed values) ≡ none) × (chosen_literals values ≡ listed values)
unfolding count_nulls chosen_literals literals_of enabled_values index_of_null
no_nulls [] h = (refl, refl)
no_nulls ((key, value) ∷ values) h = ground (arith, no_nulls values, enabled-counts value)

pub splice-listed :
    (values : List (Text × FilterValue))
    → leb (count_nulls values) 1 ≡ true
    → splice_at (index_of_null (listed values)) (listed values) ≡ chosen_literals values
unfolding count_nulls chosen_literals literals_of enabled_values index_of_null splice_at splice
splice-listed [] h = refl
splice-listed ((key, value) ∷ values) h =
    ground (arith, splice-listed values, no_nulls values, enabled-counts value)

index-first :
    (l : Text) (literals : List Text)
    → is_some (index_of_null (l ∷ literals)) ≡ is_null_literal l || is_some (index_of_null literals)
unfolding index_of_null
index-first l literals = elim (Bool-cases (is_null_literal l)) [
  | inl n ↦ rw n refl
  | inr n ↦
      rw n (elim (Option-cases (index_of_null literals)) [
        | inl e ↦ rw e refl
        | inr (i, e) ↦ rw e refl
      ])
]

one_at_least : (n : ℕ) → leb 1 (suc n) ≡ true
one_at_least n = ground arith

pub index_of_null-listed :
    (values : List (Text × FilterValue))
    → is_some (index_of_null (listed values)) ≡ leb 1 (count_nulls values)
unfolding count_nulls literals_of enabled_values index_of_null
index_of_null-listed [] = refl
index_of_null-listed ((key, value) ∷ values) = elim (Bool-cases (counts value)) [
  | inr off ↦ rw (enabled-counts value ∙ off) (index_of_null-listed values)
  | inl on ↦ rw (enabled-counts value ∙ on) (
      index-first value.literal (listed values)
      ∙ elim (Bool-cases (is_null_literal value.literal)) [
        | inl n ↦ rw n (sym (one_at_least (count_nulls values)))
        | inr n ↦ rw n (index_of_null-listed values)
      ])
]

pub none_null-chosen :
    (values : List (Text × FilterValue)) → none_null (chosen_literals values) ≡ true
unfolding chosen_literals none_null
none_null-chosen [] = refl
none_null-chosen ((key, value) ∷ values) = elim (Bool-cases (counts value)) [
  | inr off ↦ rw off (none_null-chosen values)
  | inl on ↦ elim (Bool-cases (is_null_literal value.literal)) [
    | inl n ↦ rw (on, n) (none_null-chosen values)
    | inr n ↦ rw (on, n) (rw n (none_null-chosen values))
  ]
]

pub any_enabled-listed :
    (values : List (Text × FilterValue))
    → (elim (listed values) as (λ x. Bool) [ [] ↦ false | l ∷ literals ↦ true ])
      ≡ any_enabled values
unfolding enabled_values any_enabled literals_of
any_enabled-listed [] = refl
any_enabled-listed ((key, value) ∷ values) =
    ground (arith, any_enabled-listed values, enabled-counts value)

-- Only a filter on ranges asks for the other ends.
pub keeps-ends :
    (filter_type : FilterType) (w : Bool) (row : Row) (literals s t : List Text)
    → asks_for_ranges filter_type ≡ false
    → keeps filter_type w row literals s ≡ keeps filter_type w row literals t
unfolding keeps asks_for_ranges
keeps-ends include w row literals s t h = refl
keeps-ends exclude w row literals s t h = refl
keeps-ends like w row literals s t h = refl
keeps-ends notlike w row literals s t h = refl
keeps-ends between w row literals s t h = absurd (ground arith)
keeps-ends notbetween w row literals s t h = absurd (ground arith)
keeps-ends hasany w row literals s t h = refl
keeps-ends hasall w row literals s t h = refl
keeps-ends nothasany w row literals s t h = refl
keeps-ends nothasall w row literals s t h = refl

pub asks_for_ranges-range :
    (filter_type : FilterType) → is_range_filter_type filter_type ≡ asks_for_ranges filter_type
unfolding is_range_filter_type asks_for_ranges
asks_for_ranges-range include = refl
asks_for_ranges-range exclude = refl
asks_for_ranges-range like = refl
asks_for_ranges-range notlike = refl
asks_for_ranges-range between = refl
asks_for_ranges-range notbetween = refl
asks_for_ranges-range hasany = refl
asks_for_ranges-range hasall = refl
asks_for_ranges-range nothasany = refl
asks_for_ranges-range nothasall = refl
