-- ===== src/SqlHelper/Members.antt =====
-- SQLHelper.js: the type of the member that a path leads to.
use huey.Base.{Option, none, some, List, [], ◌∷◌, if◌then◌else◌}
use huey.Base.Result.{Result, ok, throw, type_error, ◌>>=◌}
use huey.Base.Text.{Text, codes, same}
use huey.SqlHelper.Types.{
  get_member, get_struct_type_descriptor, get_array_element_type, get_array_type,
}
use huey.SqlHelper.Maps.{get_map_key_type, get_map_value_type, get_map_entries_type}

-- A type, or `undefined`; `none` when the fuel for a STRUCT does not suffice.
abbrev pub MemberType : Type 0
MemberType = Option (Result (Option Text))

-- What a step does to the text of a type; it throws a TypeError on `undefined`.
unfoldable pub on_type : Option Text → (Text → Result Text) → MemberType
on_type none f = some (throw type_error)
on_type (some type) f = some (f type >>= λ t. ok (some t))

-- `getStructTypeDescriptor(type)[memberExpression]`.
unfoldable pub struct_member_type : Option Text → Text → MemberType
unfolding get_struct_type_descriptor get_member
struct_member_type none name = some (throw type_error)
struct_member_type (some type) name = elim (get_struct_type_descriptor type) as (λ x. MemberType) [
  | none ↦ none
  | some r ↦ some (r >>= λ structure. ok (get_member structure name))
]

-- The type that one element of the path leads to.
unfoldable pub get_member_type : Option Text → Text → MemberType
unfolding on_type struct_member_type same
get_member_type type member_expression =
    if same member_expression (codes "unnest()")
    then on_type type get_array_element_type
    else if same member_expression (codes "generate_subscripts()")
    then some (ok (some (codes "BIGINT")))
    else if same member_expression (codes "map_entries()")
    then on_type type get_map_entries_type
    else if same member_expression (codes "map_keys()")
    then on_type type (λ t. get_map_key_type t >>= λ k. ok (get_array_type k))
    else if same member_expression (codes "map_values()")
    then on_type type (λ t. get_map_value_type t >>= λ v. ok (get_array_type v))
    else struct_member_type type member_expression

unfoldable pub get_member_expression_type : Option Text → List Text → MemberType
unfolding get_member_type
get_member_expression_type type [] = some (ok type)
get_member_expression_type type (member_expression ∷ path) =
    elim (get_member_type type member_expression) as (λ x. MemberType) [
      | none ↦ none
      | some (throw e) ↦ some (throw e)
      | some (ok member_type) ↦ get_member_expression_type member_type path
    ]
