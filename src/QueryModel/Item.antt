-- ===== src/QueryModel/Item.antt =====
-- QueryModel.js and QueryAxis.js: the configuration of an item, and the test by which `findItem`
-- tells whether two configurations mean the same item.
use huey.Base.{
  ℕ, ◌≡◌, refl, sym, ap, ◌∙◌, Bool, true, false, not, ◌&&◌, Option, none, some, List, [], ◌∷◌,
  String, arith, ◌↔◌, if◌then◌else◌, inl, inr, Bool-cases,
}
use text.Mathlib.Text.{◌==◌}
use text.Mathlib.TextEquality.{eq_iff}

-- The integers that an index is given as.
pub data ℤ : Type 0 where
  pos negsuc : ℕ → ℤ

pub data AxisId : Type 0 where
  filters columns rows cells : AxisId

-- `V` is the type of the values that the query model passes on without a look at them.
pub record Filter (V : Type 0) : Type 0 where
  pub filter_type : String
  pub values : List (String × V)
  pub toggle_state : Option String

-- A property that is not set is `none`. An item that an axis holds is a configuration, too.
pub record Item (V : Type 0) : Type 0 where
  pub column_name : Option String
  pub column_type : Option String
  pub member_expression_path : Option (List String)
  pub derivation : Option String
  pub aggregator : Option String
  pub caption : Option String
  pub include_totals : Option Bool
  pub formatter : Option V
  pub literal_writer : Option V
  pub parser : Option V
  pub filter : Option (Filter V)
  pub index : Option ℤ
  pub axis : Option AxisId

-- `text || ''`.
unfoldable pub text_or_empty : Option String → String
text_or_empty none = ""
text_or_empty (some t) = t

-- A text that is set and not empty.
unfoldable pub truthy : Option String → Bool
unfolding text_or_empty
truthy t = not (text_or_empty t == "")

unfoldable pub same_path : List String → List String → Bool
same_path [] [] = true
same_path [] (s ∷ q) = false
same_path (r ∷ p) [] = false
same_path (r ∷ p) (s ∷ q) = (r == s) && same_path p q

-- `if (derivation) { item.derivation === derivation } else { !item.derivation }`
unfoldable pub same_text : Option String → Option String → Bool
unfolding truthy text_or_empty
same_text wanted found =
    if truthy wanted then text_or_empty found == text_or_empty wanted else not (truthy found)

-- An array is truthy, an empty one as well; paths are compared by their JSON texts.
unfoldable pub same_member : Option (List String) → Option (List String) → Bool
unfolding same_path
same_member none none = true
same_member none (some q) = false
same_member (some p) none = false
same_member (some p) (some q) = same_path p q

-- The test of `findItem`.
unfoldable pub matches : {V : Type 0} → Item V → Item V → Bool
unfolding same_text same_member text_or_empty
matches config item =
    (text_or_empty item.column_name == text_or_empty config.column_name)
    && same_member config.member_expression_path item.member_expression_path
    && same_text config.derivation item.derivation
    && same_text config.aggregator item.aggregator

-- What identifies an item.
abbrev pub Key : Type 0
Key = String × Option (List String) × String × String

unfoldable pub key : {V : Type 0} → Item V → Key
unfolding text_or_empty
key item = (
  text_or_empty item.column_name,
  item.member_expression_path,
  text_or_empty item.derivation,
  text_or_empty item.aggregator,
)

same_path-eq : (p q : List String) → same_path p q ≡ true → p ≡ q
unfolding same_path
same_path-eq [] [] h = refl
same_path-eq [] (s ∷ q) h = cc
same_path-eq (r ∷ p) [] h = cc
same_path-eq (r ∷ p) (s ∷ q) h = ground (arith, eq_iff r s, same_path-eq p q)

same_path_refl : (p : List String) → same_path p p ≡ true
unfolding same_path
same_path_refl [] = refl
same_path_refl (r ∷ p) = ground (arith, eq_iff r r, same_path_refl p)

same_member-eq : (p q : Option (List String)) → same_member p q ≡ true → p ≡ q
unfolding same_member
same_member-eq none none h = refl
same_member-eq none (some q) h = cc
same_member-eq (some p) none h = cc
same_member-eq (some p) (some q) h = ap some (same_path-eq p q h)

same_member_refl : (p : Option (List String)) → same_member p p ≡ true
unfolding same_member
same_member_refl none = refl
same_member_refl (some p) = same_path_refl p

same_text_iff : (s t : Option String) → (same_text s t ≡ true) ↔ (text_or_empty s ≡ text_or_empty t)
unfolding same_text truthy
same_text_iff s t = ground (
  arith,
  eq_iff (text_or_empty t) (text_or_empty s),
  eq_iff (text_or_empty t) "",
  eq_iff (text_or_empty s) "",
)

module _ {V : Type 0} where
  -- Two configurations match just when they have the same column, path, derivation and aggregator,
  -- where a text that is not set counts as empty.
  pub matches-key : (config item : Item V) → (matches config item ≡ true) ↔ (key config ≡ key item)
  unfolding matches key
  matches-key config item = (
    λ h.
        let name : text_or_empty config.column_name ≡ text_or_empty item.column_name =
          ground
            (arith, eq_iff (text_or_empty item.column_name) (text_or_empty config.column_name)) in
        let path : config.member_expression_path ≡ item.member_expression_path =
          same_member-eq _ _ (ground arith) in
        let derived : text_or_empty config.derivation ≡ text_or_empty item.derivation =
          (same_text_iff config.derivation item.derivation).0 (ground arith) in
        let aggregated : text_or_empty config.aggregator ≡ text_or_empty item.aggregator =
          (same_text_iff config.aggregator item.aggregator).0 (ground arith) in
        cc,
    λ e.
        let path : same_member config.member_expression_path item.member_expression_path ≡ true =
          rw (ap (λ (k : Key). k.1) e) (same_member_refl item.member_expression_path) in
        ground (
          arith,
          eq_iff (text_or_empty item.column_name) (text_or_empty config.column_name),
          ap (λ (k : Key). k.0) e,
          path,
          (same_text_iff config.derivation item.derivation).1 (ap (λ (k : Key). k.2) e),
          (same_text_iff config.aggregator item.aggregator).1 (ap (λ (k : Key). k.3) e),
        ),
  )

  pub matches_refl : (item : Item V) → matches item item ≡ true
  matches_refl item = (matches-key item item).1 refl

  -- Configurations with one key match the same items.
  pub matches-same : (a b item : Item V) → key a ≡ key b → matches a item ≡ matches b item
  matches-same a b item e = elim (Bool-cases (matches a item)) [
    | inl h ↦ h ∙ sym ((matches-key b item).1 (sym e ∙ (matches-key a item).0 h))
    | inr h ↦ elim (Bool-cases (matches b item)) [
      | inl g ↦
          absurd (true-false (sym ((matches-key a item).1 (e ∙ (matches-key b item).0 g)) ∙ h))
      | inr g ↦ h ∙ sym g
    ]
  ]
    where
      true-false : true ≡ false → ⊥
      true-false h = cc

  -- A configuration matches items with one key alike.
  pub matches-same_item : (c a b : Item V) → key a ≡ key b → matches c a ≡ matches c b
  matches-same_item c a b e = elim (Bool-cases (matches c a)) [
    | inl h ↦ h ∙ sym ((matches-key c b).1 ((matches-key c a).0 h ∙ e))
    | inr h ↦ elim (Bool-cases (matches c b)) [
      | inl g ↦ absurd (true-false (sym ((matches-key c a).1 ((matches-key c b).0 g ∙ sym e)) ∙ h))
      | inr g ↦ h ∙ sym g
    ]
  ]
    where
      true-false : true ≡ false → ⊥
      true-false h = cc
