-- ===== src/SqlHelper/Structs.antt =====
-- SQLHelper.js: `getStructTypeDescriptor` ends, and reads back the fields of a STRUCT.
use huey.Base.{
  ℕ, zero, suc, ◌-◌, ◌≤◌, ◌<◌, ◌≡◌, refl, true, some, [], ◌∷◌, ◌==◌, length, drop, arith,
  Option-cases, Bool-cases, inl, inr, is_some,
}
use huey.Base.Text.{Text}
use huey.SqlHelper.Types.{
  Structure, set_member, break_at, space, parse_member_name, more, last, fails, after_type,
  after_name, parse_member, with_first, parse_member_type, parse_members, parse_structure,
  get_struct_type_descriptor,
}

break_at-length :
    (c : ℕ) (s before after : Text) → break_at c s ≡ some (before, after) → length after ≤ length s
unfolding break_at
break_at-length c [] before after h = cc
break_at-length c (d ∷ s) before after h = elim (Option-cases (break_at c s)) [
  | inl e ↦ ground arith
  | inr ((b, a), e) ↦ ground (arith, break_at-length c s b a e)
]

parse_member_name-length :
    (s name rest : Text) → parse_member_name s ≡ some (name, rest) → length rest ≤ length s
unfolding parse_member_name
parse_member_name-length [] name rest h = cc
parse_member_name-length (c ∷ s) name rest h = elim (Bool-cases (c == 34)) [
  | inl q ↦ elim (Option-cases (break_at 34 s)) [
    | inl e ↦ ground arith
    | inr ((b, []), e) ↦ ground arith
    | inr ((b, d ∷ a), e) ↦ ground (arith, break_at-length 34 s b (d ∷ a) e)
  ]
  | inr q ↦ ground (arith, break_at-length space (c ∷ s) name rest)
]

parse_member_type-length : (level : ℕ) (s : Text) → length (parse_member_type level s).1 ≤ length s
unfolding parse_member_type with_first
parse_member_type-length level [] = omega arith
parse_member_type-length level (c ∷ s) = ground (
  arith,
  parse_member_type-length (suc level) s,
  parse_member_type-length (level - 1) s,
  parse_member_type-length level s,
)

after_type-length :
    (name type behind n t rest : Text)
    → after_type name type behind ≡ more n t rest
    → length rest < length behind
unfolding after_type
after_type-length name type [] n t rest h = ground arith
after_type-length name type (c ∷ []) n t rest h = ground arith
after_type-length name type (c ∷ d ∷ l) n t rest h = ground arith

after_name-length :
    (name s n t rest : Text) → after_name name s ≡ more n t rest → length rest < length s
unfolding after_name
after_name-length name [] n t rest h = ground arith
after_name-length name (c ∷ s) n t rest h = ground (
  arith,
  after_type-length name (parse_member_type 0 s).0 (parse_member_type 0 s).1 n t rest,
  parse_member_type-length 0 s,
)

pub parse_member-length :
    (s n t rest : Text) → parse_member s ≡ more n t rest → length rest < length s
unfolding parse_member
parse_member-length s n t rest h = elim (Option-cases (parse_member_name s)) [
  | inl e ↦ ground arith
  | inr ((name, l), e) ↦
      ground (arith, parse_member_name-length s name l e, after_name-length name l n t rest)
]

parse_members-is_some :
    (fuel : ℕ) (s : Text) (structure : Structure)
    → length s ≤ fuel
    → is_some (parse_members fuel s structure) ≡ true
unfolding parse_members
parse_members-is_some zero [] structure h = refl
parse_members-is_some zero (c ∷ s) structure h = absurd (omega arith)
parse_members-is_some (suc fuel) [] structure h = refl
parse_members-is_some (suc fuel) (c ∷ s) structure h =
    elim (parse_member (c ∷ s))
        as (λ r.
          parse_member (c ∷ s) ≡ r → is_some (parse_members (suc fuel) (c ∷ s) structure) ≡ true) [
            | fails message ↦ λ e. rw (e, parse_members) refl
            | last name type ↦ λ e. rw (e, parse_members) refl
            | more name type rest ↦ λ e.
                rw (e, parse_members)
                  (parse_members-is_some fuel rest (set_member structure name type)
                    (omega (arith, parse_member-length (c ∷ s) name type rest e)))
          ]
      refl

parse_structure-is_some : (s : Text) → is_some (parse_structure s) ≡ true
unfolding parse_structure
parse_structure-is_some [] = refl
parse_structure-is_some (c ∷ s) = ground (arith, parse_members-is_some (length s) s [])

-- x
pub get_struct_type_descriptor-is_some : (s : Text) → is_some (get_struct_type_descriptor s) ≡ true
unfolding get_struct_type_descriptor
get_struct_type_descriptor-is_some s = ground (arith, parse_structure-is_some (drop 6 s))
