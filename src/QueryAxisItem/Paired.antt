-- ===== src/QueryAxisItem/Paired.antt =====
-- QueryAxisItem.js: the ends of ranges that the code lists are those with the keys of the values,
-- when the two are paired.
use huey.Base.{
  suc, true, false, not, ◌||◌, ◌≡◌, refl, sym, ap, ◌∙◌, List, [], ◌∷◌, leb, length, if◌then◌else◌,
  arith, Option-cases, Bool-cases, inl, inr,
}
use huey.Base.Result.{ok}
use huey.Base.Text.{Text, same, same-eq}
use huey.QueryAxisItem.{FilterValue, enabled_values, literals_of, to_value_literals}
use huey.QueryAxisItem.Conditions.{is_null_literal, index_of_null, splice, splice_at}
use huey.QueryAxisItem.Meaning.{none_null}
use huey.QueryAxisItem.Keeps.{
  counts, count_nulls, chosen_literals, end_of, chosen_ends, has_key, paired,
}
use huey.QueryAxisItem.Chosen.{listed, enabled-counts}

-- An end whose key no value has is passed over.
chosen_ends-skip :
    (key : Text) (to_value : FilterValue) (to_values values : List (Text × FilterValue))
    → has_key key values ≡ false
    → chosen_ends ((key, to_value) ∷ to_values) values ≡ chosen_ends to_values values
unfolding chosen_ends end_of has_key
chosen_ends-skip key to_value to_values [] h = refl
chosen_ends-skip key to_value to_values ((other, value) ∷ values) h =
    ground (arith, chosen_ends-skip key to_value to_values values)

-- What two lists that are paired begin with, and what is behind.
record Begins (key : Text) (value : FilterValue) (other : Text) (to_value : FilterValue)
    (values to_values : List (Text × FilterValue)) : Type 0 where
  one_key : same other key ≡ true
  enabled : counts value ≡ true
  both : is_null_literal value.literal || not (is_null_literal to_value.literal) ≡ true
  rest : paired values to_values ≡ true
  skip : chosen_ends ((other, to_value) ∷ to_values) values ≡ chosen_ends to_values values

begins :
    (key other : Text) (value to_value : FilterValue) (values to_values : List (Text × FilterValue))
    → paired ((key, value) ∷ values) ((other, to_value) ∷ to_values) ≡ true
    → Begins key value other to_value values to_values
unfolding paired
begins key other value to_value values to_values h =
    let one_key : same other key ≡ true = ground arith in
    let fresh : has_key key values ≡ false = ground arith in
    record {
      one_key = one_key;
      enabled = ground arith;
      both = ground arith;
      rest = ground arith;
      skip =
          chosen_ends-skip other to_value to_values values
            (ap (λ k. has_key k values) (same-eq other key one_key) ∙ fresh);
    }

-- The ends for a value that is not NULL, or is.
chosen_ends-first :
    (key other : Text) (value to_value : FilterValue) (values to_values : List (Text × FilterValue))
    → Begins key value other to_value values to_values
    → chosen_ends ((other, to_value) ∷ to_values) ((key, value) ∷ values) ≡ (
        if is_null_literal value.literal
        then chosen_ends to_values values
        else to_value.literal ∷ chosen_ends to_values values)
unfolding chosen_ends end_of
chosen_ends-first key other value to_value values to_values b =
    let one_key = b.one_key in
    let enabled = b.enabled in
    let skip = b.skip in
    elim (Bool-cases (is_null_literal value.literal)) [
      | inl n ↦ rw (n, enabled) skip
      | inr n ↦ rw (n, enabled, one_key) (ap (λ (l : List Text). to_value.literal ∷ l) skip)
    ]

listed-first :
    (key : Text) (value : FilterValue) (values : List (Text × FilterValue))
    → counts value ≡ true
    → listed ((key, value) ∷ values) ≡ value.literal ∷ listed values
unfolding literals_of enabled_values
listed-first key value values h = rw (enabled-counts value ∙ h) refl

count_nulls-first :
    (key : Text) (value : FilterValue) (values : List (Text × FilterValue))
    → counts value ≡ true
    → count_nulls ((key, value) ∷ values)
      ≡ (if is_null_literal value.literal then suc (count_nulls values) else count_nulls values)
unfolding count_nulls
count_nulls-first key value values h = rw h refl

paired-no_nulls :
    (values to_values : List (Text × FilterValue))
    → paired values to_values ≡ true
    → count_nulls values ≡ 0
    → chosen_ends to_values values ≡ literals_of to_values
unfolding literals_of chosen_ends paired
paired-no_nulls [] [] h e = refl
paired-no_nulls [] (t ∷ to_values) h e = absurd (ground arith)
paired-no_nulls (v ∷ values) [] h e = absurd (ground arith)
paired-no_nulls ((key, value) ∷ values) ((other, to_value) ∷ to_values) h e =
    let b = begins key other value to_value values to_values h in
    let n = count_nulls-first key value values b.enabled in
    let none_here : is_null_literal value.literal ≡ false = ground (arith, n, e) in
    let none_behind : count_nulls values ≡ 0 = ground (arith, n, e) in
    chosen_ends-first key other value to_value values to_values b
    ∙ rw none_here (
        ap (λ (l : List Text). to_value.literal ∷ l)
          (paired-no_nulls values to_values b.rest none_behind))

splice-first :
    (l : Text) (literals : List Text) (t : Text) (ends : List Text)
    → splice_at (index_of_null (l ∷ literals)) (t ∷ ends)
      ≡ (if is_null_literal l then ends else t ∷ splice_at (index_of_null literals) ends)
unfolding splice_at splice index_of_null
splice-first l literals t ends = elim (Bool-cases (is_null_literal l)) [
  | inl n ↦ rw n refl
  | inr n ↦
      rw n (elim (Option-cases (index_of_null literals)) [
        | inl e ↦ rw e refl
        | inr (i, e) ↦ rw e refl
      ])
]

pub splice-ends :
    (values to_values : List (Text × FilterValue))
    → paired values to_values ≡ true
    → leb (count_nulls values) 1 ≡ true
    → splice_at (index_of_null (listed values)) (literals_of to_values)
      ≡ chosen_ends to_values values
unfolding paired literals_of chosen_ends splice_at index_of_null splice enabled_values
splice-ends [] [] h e = refl
splice-ends [] (t ∷ to_values) h e = absurd (ground arith)
splice-ends (v ∷ values) [] h e = absurd (ground arith)
splice-ends ((key, value) ∷ values) ((other, to_value) ∷ to_values) h e =
    let b = begins key other value to_value values to_values h in
    let n = count_nulls-first key value values b.enabled in
    let ends = literals_of to_values in
    ap (λ l. splice_at (index_of_null l) (to_value.literal ∷ ends))
      (listed-first key value values b.enabled)
    ∙ splice-first value.literal (listed values) to_value.literal ends
    ∙ elim (Bool-cases (is_null_literal value.literal)) [
      | inl null ↦
          let none_behind : count_nulls values ≡ 0 = ground (arith, n, e, null) in
          rw null (sym (paired-no_nulls values to_values b.rest none_behind))
      | inr other_value ↦
          let one_behind : leb (count_nulls values) 1 ≡ true = ground (arith, n, e) in
          rw other_value (
            ap (λ (l : List Text). to_value.literal ∷ l)
              (splice-ends values to_values b.rest one_behind))
    ]
    ∙ sym (chosen_ends-first key other value to_value values to_values b)

chosen_literals-first :
    (key : Text) (value : FilterValue) (values : List (Text × FilterValue))
    → counts value ≡ true
    → chosen_literals ((key, value) ∷ values) ≡ (
        if is_null_literal value.literal
        then chosen_literals values
        else value.literal ∷ chosen_literals values)
unfolding chosen_literals
chosen_literals-first key value values h = elim (Bool-cases (is_null_literal value.literal)) [
  | inl n ↦ rw (n, h) refl
  | inr n ↦ rw (n, h) refl
]

pub paired-fits :
    (values to_values : List (Text × FilterValue))
    → paired values to_values ≡ true
    → (none_null (chosen_ends to_values values) ≡ true)
      × (length (chosen_literals values) ≡ length (chosen_ends to_values values))
unfolding paired none_null chosen_ends chosen_literals
paired-fits [] [] h = (refl, refl)
paired-fits [] (t ∷ to_values) h = absurd (ground arith)
paired-fits (v ∷ values) [] h = absurd (ground arith)
paired-fits ((key, value) ∷ values) ((other, to_value) ∷ to_values) h =
    let b = begins key other value to_value values to_values h in
    let (none_here, count) = paired-fits values to_values b.rest in
    let ends = chosen_ends-first key other value to_value values to_values b in
    let literals = chosen_literals-first key value values b.enabled in
    let both = b.both in
    rw (ends, literals)
      (elim (Bool-cases (is_null_literal value.literal)) [
        | inl n ↦ rw n (none_here, count)
        | inr n ↦ rw n (ground (arith, both, n, none_here), ap suc count)
      ])

pub paired-ends :
    (values to_values : List (Text × FilterValue))
    → paired values to_values ≡ true
    → to_value_literals (enabled_values values) to_values ≡ ok (literals_of to_values)
unfolding paired to_value_literals enabled_values literals_of
paired-ends [] [] h = refl
paired-ends [] (t ∷ to_values) h = absurd (ground arith)
paired-ends (v ∷ values) [] h = absurd (ground arith)
paired-ends ((key, value) ∷ values) ((other, to_value) ∷ to_values) h =
    let b = begins key other value to_value values to_values h in
    rw (enabled-counts value ∙ b.enabled, paired-ends values to_values b.rest) refl
