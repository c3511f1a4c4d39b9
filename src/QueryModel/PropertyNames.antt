-- ===== src/QueryModel/PropertyNames.antt =====
-- QueryModel.js, `getPropertyNames` of `compareStates`: it has every name that an object has.
use huey.Base.{
  ◌≡◌, ◌↔◌, refl, sym, ap, ◌∙◌, Bool, true, ◌&&◌, ◌||◌, none, some, List, [], ◌∷◌, ◌++◌, String,
  arith, Option-cases, inl, inr, is_some,
}
use text.Mathlib.TextEquality.{eq_iff}
use huey.Base.Dict
use huey.Base.Dict.{Dict}
use huey.QueryModel.Compare.{knows, add_property_name, add_keys, get_property_names}

unfoldable pub all_pass : List String → (String → Bool) → Bool
all_pass [] f = true
all_pass (name ∷ names) f = f name && all_pass names f

all_pass-append :
    (names more : List String) (f : String → Bool)
    → all_pass (names ++ more) f ≡ all_pass names f && all_pass more f
unfolding all_pass
all_pass-append [] more f = refl
all_pass-append (name ∷ names) more f = ground (arith, all_pass-append names more f)

all_pass-knows :
    (names : List String) (name : String) (f : String → Bool)
    → knows names name ≡ true
    → all_pass names f ≡ true
    → f name ≡ true
unfolding all_pass knows
all_pass-knows [] name f k h = absurd (ground arith)
all_pass-knows (first ∷ names) name f k h =
    ground (arith, eq_iff first name, all_pass-knows names name f, ap f)

all_pass-add_property_name :
    (names : List String) (name : String) (f : String → Bool)
    → all_pass (add_property_name names name) f ≡ all_pass names f && f name
unfolding add_property_name all_pass
all_pass-add_property_name names name f =
    ground (arith, all_pass-append names (name ∷ []) f, all_pass-knows names name f)

all_keys {ℓ} : {V : Type ℓ} → Dict V → (String → Bool) → Bool
all_keys [] f = true
all_keys ((key, value) ∷ d) f = f key && all_keys d f

all_pass-add_keys {ℓ} :
    {V : Type ℓ} (d : Dict V) (names : List String) (f : String → Bool)
    → all_pass (add_keys names d) f ≡ all_pass names f && all_keys d f
unfolding add_keys all_keys
all_pass-add_keys [] names f = ground arith
all_pass-add_keys ((key, value) ∷ d) names f = ground (
  arith,
  all_pass-add_keys d (add_property_name names key) f,
  all_pass-add_property_name names key f,
)

all_keys-get {ℓ} :
    {V : Type ℓ} (d : Dict V) (name : String) (v : V) (f : String → Bool)
    → all_keys d f ≡ true
    → Dict.get d name ≡ some v
    → f name ≡ true
unfolding all_keys Dict.get
all_keys-get [] name v f h e = absurd (ground arith)
all_keys-get ((key, value) ∷ d) name v f h e =
    ground (arith, eq_iff key name, all_keys-get d name v f, ap f)

every :
    (names : List String) (f : String → Bool)
    → ((name : String) → f name ≡ true)
    → all_pass names f ≡ true
unfolding all_pass
every [] f h = refl
every (name ∷ names) f h = ground (arith, h name, every names f h)

knows-append :
    (names : List String) (name other : String)
    → knows (names ++ name ∷ []) other ≡ knows names other || knows (name ∷ []) other
unfolding knows
knows-append [] name other = refl
knows-append (first ∷ names) name other = ground (arith, knows-append names name other)

knows-add_property_name :
    (names : List String) (name other : String)
    → knows (add_property_name names name) other ≡ knows names other || knows (name ∷ []) other
unfolding add_property_name knows
knows-add_property_name names name other =
    ground (arith, knows-append names name other, eq_iff name other, ap (knows names))

pub knows-add_keys {ℓ} :
    {V : Type ℓ} (d : Dict V) (names : List String) (other : String)
    → knows (add_keys names d) other ≡ knows names other || is_some (Dict.get d other)
unfolding add_keys Dict.get knows
knows-add_keys [] names other = ground arith
knows-add_keys ((key, value) ∷ d) names other = ground (
  arith,
  knows-add_keys d (add_property_name names key) other,
  knows-add_property_name names key other,
)

-- A test that passes where neither has the name passes on all names, or fails on one of theirs.
pub names_iff {ℓ} :
    {V : Type ℓ} (a b : Dict V) (f : String → Bool)
    → ((name : String) → Dict.get a name ≡ none → Dict.get b name ≡ none → f name ≡ true)
    → (all_pass (get_property_names a b) f ≡ true) ↔ ((name : String) → f name ≡ true)
unfolding get_property_names
names_iff a b f outside = (
  λ h name.
      let both : (all_pass (add_keys [] a) f && all_keys b f) ≡ true =
        sym (all_pass-add_keys b (add_keys [] a) f) ∙ h in
      let keys_a : all_keys a f ≡ true = ground (arith, both, all_pass-add_keys a [] f) in
      let keys_b : all_keys b f ≡ true = ground (arith, both) in
      elim (Option-cases (Dict.get a name)) [
        | inr (v, e) ↦ all_keys-get a name v f keys_a e
        | inl e ↦ elim (Option-cases (Dict.get b name)) [
          | inr (v, g) ↦ all_keys-get b name v f keys_b g
          | inl g ↦ outside name e g
        ]
      ],
  λ h. every (get_property_names a b) f h,
)
