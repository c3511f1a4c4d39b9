-- ===== src/SqlHelper/Ends.antt =====
-- SQLHelper.js: `getMemberExpressionType` ends on any texts.
use huey.Base.{
  ◌≡◌, refl, true, Option, none, some, List, [], ◌∷◌, arith, Option-cases, inl, inr, is_some,
}
use huey.Base.Result.{Result, ok, throw}
use huey.Base.Text.{Text}
use huey.SqlHelper.Types.{get_struct_type_descriptor}
use huey.SqlHelper.Maps.{}
use huey.SqlHelper.Members.{
  on_type, struct_member_type, get_member_type, get_member_expression_type,
}
use huey.SqlHelper.Structs.{get_struct_type_descriptor-is_some}

on_type-is_some : (type : Option Text) (f : Text → Result Text) → is_some (on_type type f) ≡ true
unfolding on_type
on_type-is_some type f = ground arith

struct_member_type-is_some :
    (type : Option Text) (name : Text) → is_some (struct_member_type type name) ≡ true
unfolding struct_member_type
struct_member_type-is_some none name = refl
struct_member_type-is_some (some type) name =
    elim (Option-cases (get_struct_type_descriptor type)) [
      | inl e ↦ absurd (ground (arith, get_struct_type_descriptor-is_some type))
      | inr (r, e) ↦ rw e refl
    ]

get_member_type-is_some : (type : Option Text) (m : Text) → is_some (get_member_type type m) ≡ true
unfolding get_member_type
get_member_type-is_some type m =
    ground (arith, struct_member_type-is_some type m, on_type-is_some type)

-- `getMemberExpressionType` ends on any type and any path, with a result or an error: the loop
-- of `getStructTypeDescriptor` takes no more rounds than the text has characters.
pub get_member_expression_type-is_some :
    (path : List Text) (type : Option Text) → is_some (get_member_expression_type type path) ≡ true
unfolding get_member_expression_type
get_member_expression_type-is_some [] type = refl
get_member_expression_type-is_some (m ∷ path) type = elim (Option-cases (get_member_type type m)) [
  | inl e ↦ absurd (ground (arith, get_member_type-is_some type m))
  | inr (throw x, e) ↦ rw (e, get_member_expression_type) refl
  | inr (ok t, e) ↦ rw (e, get_member_expression_type) (get_member_expression_type-is_some path t)
]
