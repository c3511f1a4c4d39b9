-- ===== src/SqlHelper/Descriptor.antt =====
-- SQLHelper.js: `getStructTypeDescriptor` reads back the fields of a STRUCT.
use huey.Base.{
  ℕ, zero, suc, ◌-◌, ◌≤◌, ◌≡◌, refl, ap, ◌∙◌, true, ◌||◌, Option, none, some, List, [], ◌∷◌, ◌++◌,
  ◌==◌, if◌then◌else◌, length, arith, Bool-cases, inl, inr,
}
use mathlib.Core.List.{append_assoc}
use huey.Base.Result.{Result, ok}
use huey.Base.Text.{Text, same, same-eq}
use huey.SqlHelper.Types.{
  Structure, set_member, get_member, break_at, space, comma, right, parse_member_name, more, last,
  after_type, after_name, parse_member, with_first, parse_member_type, parse_members,
  parse_structure, get_struct_type_descriptor,
}
use huey.SqlHelper.Structs.{parse_member-length}
use huey.SqlHelper.Fields.{
  Field, show_name, show_fields, show_struct, lacks, starts_bare, is_balanced, is_readable, type_of,
  are_readable,
}

break_at-lacks :
    (c : ℕ) (s rest : Text) → lacks c s ≡ true → break_at c (s ++ c ∷ rest) ≡ some (s, c ∷ rest)
unfolding break_at lacks
break_at-lacks c [] rest h = ground arith
break_at-lacks c (d ∷ s) rest h =
    let tail = break_at-lacks c s rest (ground arith) in rw (tail) (ground arith)

pub parse_member_type-balanced :
    (level : ℕ) (s rest : Text) (c : ℕ)
    → ((c == right) || (c == comma)) ≡ true
    → is_balanced level s ≡ true
    → parse_member_type level (s ++ c ∷ rest) ≡ (s, c ∷ rest)
unfolding parse_member_type is_balanced with_first
parse_member_type-balanced level [] rest c h b = ground arith
parse_member_type-balanced level (d ∷ s) rest c h b = ground (
  arith,
  parse_member_type-balanced (suc level) s rest c,
  parse_member_type-balanced (level - 1) s rest c,
  parse_member_type-balanced level s rest c,
)

get_member-set_member :
    (structure : Structure) (name type other : Text)
    → get_member (set_member structure name type) other
      ≡ (if same name other then some type else get_member structure other)
unfolding get_member set_member
get_member-set_member [] name type other = refl
get_member-set_member ((n, t) ∷ structure) name type other = elim (Bool-cases (same n name)) [
  | inl h ↦ let e = same-eq n name h in ground arith
  | inr h ↦
      ground (
        arith,
        get_member-set_member structure name type other,
        same-eq name other,
        same-eq n other,
      )
]

name_in_quotes :
    (name rest : Text)
    → lacks 34 name ≡ true
    → parse_member_name (34 ∷ (name ++ 34 ∷ space ∷ rest)) ≡ some (name, space ∷ rest)
unfolding parse_member_name
name_in_quotes name rest h = rw (break_at-lacks 34 name (space ∷ rest) h) refl

bare_name :
    (name rest : Text)
    → lacks space name ≡ true
    → starts_bare name ≡ true
    → parse_member_name (name ++ space ∷ rest) ≡ some (name, space ∷ rest)
unfolding parse_member_name starts_bare
bare_name [] rest h b = refl
bare_name (c ∷ name) rest h b = ground (arith, break_at-lacks space (c ∷ name) rest h)

parse_member_name-show_name :
    (field : Field) (rest : Text)
    → is_readable field ≡ true
    → parse_member_name (show_name field ++ space ∷ rest) ≡ some (field.name, space ∷ rest)
unfolding show_name is_readable
parse_member_name-show_name field rest h = elim (Bool-cases field.in_quotes) [
  | inl q ↦
      let plain : lacks 34 field.name ≡ true = ground arith in
      rw q (
        ap (λ (l : Text). parse_member_name (34 ∷ l))
          (append_assoc field.name (34 ∷ []) (space ∷ rest))
        ∙ name_in_quotes field.name rest plain)
  | inr q ↦ rw q (bare_name field.name rest (ground arith) (ground arith))
]

parse_member-name :
    (s name rest : Text)
    → parse_member_name s ≡ some (name, rest)
    → parse_member s ≡ after_name name rest
unfolding parse_member
parse_member-name s name rest e = rw (e, parse_member) refl

parse_member-last :
    (field : Field)
    → is_readable field ≡ true
    → parse_member (show_fields field []) ≡ last field.name field.type
unfolding show_fields after_name after_type is_readable
parse_member-last field h =
    let behind = field.type ++ right ∷ [] in
    parse_member-name (show_fields field []) field.name (space ∷ behind)
      (parse_member_name-show_name field behind h)
    ∙ rw (parse_member_type-balanced 0 field.type [] right refl (ground arith)) refl

parse_member-more :
    (field : Field) (rest : Text)
    → is_readable field ≡ true
    → parse_member (show_name field ++ space ∷ (field.type ++ comma ∷ space ∷ rest))
      ≡ more field.name field.type rest
unfolding after_name after_type is_readable
parse_member-more field rest h =
    let behind = field.type ++ comma ∷ space ∷ rest in
    parse_member-name (show_name field ++ space ∷ behind) field.name (space ∷ behind)
      (parse_member_name-show_name field behind h)
    ∙ rw (parse_member_type-balanced 0 field.type (space ∷ rest) comma refl (ground arith)) refl

-- What the loop collects.
collect : Structure → List Field → Structure
collect structure [] = structure
collect structure (field ∷ fields) = collect (set_member structure field.name field.type) fields

get_member-collect :
    (fields : List Field) (structure : Structure) (name : Text)
    → get_member (collect structure fields) name
      ≡ elim (type_of fields name) [ none ↦ get_member structure name | some type ↦ some type ]
unfolding collect type_of
get_member-collect [] structure name = refl
get_member-collect (field ∷ fields) structure name =
    get_member-collect fields (set_member structure field.name field.type) name
    ∙ ground (arith, get_member-set_member structure field.name field.type name)

parse_members-last :
    (fuel : ℕ) (s : Text) (structure : Structure) (name type : Text)
    → length s ≤ fuel
    → parse_member s ≡ last name type
    → parse_members fuel s structure ≡ some (ok (set_member structure name type))
unfolding parse_members parse_member parse_member_name
parse_members-last fuel [] structure name type h e = absurd (ground arith)
parse_members-last zero (c ∷ s) structure name type h e = absurd (omega arith)
parse_members-last (suc fuel) (c ∷ s) structure name type h e = rw (e, parse_members) refl

parse_members-more :
    (fuel : ℕ) (s : Text) (structure : Structure) (name type rest : Text)
    (r : Option (Result Structure))
    → length s ≤ fuel
    → parse_member s ≡ more name type rest
    → ((f : ℕ) → length rest ≤ f → parse_members f rest (set_member structure name type) ≡ r)
    → parse_members fuel s structure ≡ r
unfolding parse_members parse_member parse_member_name
parse_members-more fuel [] structure name type rest r h e next = absurd (ground arith)
parse_members-more zero (c ∷ s) structure name type rest r h e next = absurd (omega arith)
parse_members-more (suc fuel) (c ∷ s) structure name type rest r h e next =
    rw (e, parse_members) (next fuel (omega (arith, parse_member-length (c ∷ s) name type rest e)))

parse_members-show_fields :
    (fuel : ℕ) (field : Field) (fields : List Field) (structure : Structure)
    → are_readable (field ∷ fields) ≡ true
    → length (show_fields field fields) ≤ fuel
    → parse_members fuel (show_fields field fields) structure
      ≡ some (ok (collect structure (field ∷ fields)))
unfolding collect are_readable show_fields
parse_members-show_fields fuel field [] structure r h =
    parse_members-last fuel (show_fields field []) structure field.name field.type h
      (parse_member-last field (ground arith))
parse_members-show_fields fuel field (next ∷ fields) structure r h =
    let added = set_member structure field.name field.type in
    let others : are_readable (next ∷ fields) ≡ true = ground arith in
    parse_members-more fuel (show_fields field (next ∷ fields)) structure field.name field.type
      (show_fields next fields) (some (ok (collect added (next ∷ fields)))) h
      (parse_member-more field (show_fields next fields) (ground arith))
      (λ f g. parse_members-show_fields f next fields added others g)

-- From the text of a STRUCT as DuckDB writes it, where a name in quotes has no quote inside, a
-- bare name has no space and does not begin with a quote, and the parentheses of each type
-- match with no comma outside them, `getStructTypeDescriptor` returns an object that has for
-- every name the type of the last field with that name, and nothing for a name that no field
-- has.
pub get_struct_type_descriptor-show_struct :
    (field : Field) (fields : List Field)
    → are_readable (field ∷ fields) ≡ true
    → (structure : Structure) × (get_struct_type_descriptor (show_struct field fields)
        ≡ some (ok structure))
      × ((name : Text) → get_member structure name ≡ type_of (field ∷ fields) name)
unfolding get_struct_type_descriptor show_struct parse_structure get_member
get_struct_type_descriptor-show_struct field fields r = (
  collect [] (field ∷ fields),
  parse_members-show_fields (length (show_fields field fields)) field fields [] r (omega arith),
  λ name. get_member-collect (field ∷ fields) [] name ∙ by_type (type_of (field ∷ fields) name),
)
  where
    by_type :
        (o : Option Text)
        → (elim o as (λ x. Option Text) [ none ↦ none | some type ↦ some type ]) ≡ o
    by_type none = refl
    by_type (some type) = refl
