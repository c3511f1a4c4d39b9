-- ===== src/SqlHelper/Paths.antt =====
-- SQLHelper.js: `getMemberExpressionType` finds the type that a path leads to.
use huey.Base.{
  ◌≡◌, refl, ap, ◌∙◌, Bool, true, false, ◌||◌, Option, some, List, [], ◌∷◌, ◌++◌, arith,
}
use huey.Base.Result.{ok}
use huey.Base.Text.{Text, codes, same, ends_with-append, slice_to-append}
use huey.SqlHelper.Types.{
  Structure, get_member, get_struct_type_descriptor, is_array_type, get_array_element_type,
  get_array_type,
}
use huey.SqlHelper.Maps.{trim, get_map_entries_type}
use huey.SqlHelper.Members.{
  on_type, struct_member_type, get_member_type, get_member_expression_type,
}
use huey.SqlHelper.Fields.{Field, show_struct, is_balanced, type_of, are_readable}
use huey.SqlHelper.MapTypes.{show_map, show_entry, key_type, value_type, entry_type}
use huey.SqlHelper.Descriptor.{get_struct_type_descriptor-show_struct}

unfoldable pub is_special_word : Text → Bool
unfolding same
is_special_word word =
    same word (codes "unnest()")
    || same word (codes "generate_subscripts()")
    || same word (codes "map_entries()")
    || same word (codes "map_keys()")
    || same word (codes "map_values()")

-- The path that leads from a type to another.
pub data LeadsTo : Text → List Text → Text → Type 0 where
  here : {t : Text} → LeadsTo t [] t
  element :
      (t : Text) {u : Text} {path : List Text}
      → LeadsTo t path u
      → LeadsTo (t ++ codes "[]") (codes "unnest()" ∷ path) u
  subscript :
      {t u : Text} {path : List Text}
      → LeadsTo (codes "BIGINT") path u
      → LeadsTo t (codes "generate_subscripts()" ∷ path) u
  member :
      (field : Field) (fields : List Field) (name t : Text) {u : Text} {path : List Text}
      → are_readable (field ∷ fields) ≡ true
      → is_special_word name ≡ false
      → type_of (field ∷ fields) name ≡ some t
      → LeadsTo t path u
      → LeadsTo (show_struct field fields) (name ∷ path) u
  keys :
      (key value : Text) {u : Text} {path : List Text}
      → is_balanced 0 key ≡ true
      → trim key ≡ key
      → LeadsTo (key ++ codes "[]") path u
      → LeadsTo (show_map key value) (codes "map_keys()" ∷ path) u
  values :
      (key value : Text) {u : Text} {path : List Text}
      → is_balanced 0 key ≡ true
      → trim value ≡ value
      → LeadsTo (value ++ codes "[]") path u
      → LeadsTo (show_map key value) (codes "map_values()" ∷ path) u
  entries :
      (key value : Text) {u : Text} {path : List Text}
      → is_balanced 0 key ≡ true
      → trim key ≡ key
      → trim value ≡ value
      → LeadsTo (show_entry key value ++ codes "[]") path u
      → LeadsTo (show_map key value) (codes "map_entries()" ∷ path) u

get_member_expression_type-step :
    (type : Option Text) (m : Text) (path : List Text) (next : Option Text)
    → get_member_type type m ≡ some (ok next)
    → get_member_expression_type type (m ∷ path) ≡ get_member_expression_type next path
unfolding get_member_expression_type
get_member_expression_type-step type m path next e = rw (e, get_member_expression_type) refl

get_array_element_type-array : (t : Text) → get_array_element_type (t ++ codes "[]") ≡ ok t
unfolding get_array_element_type is_array_type
get_array_element_type-array t =
    rw (ends_with-append t (codes "[]"), slice_to-append [] t (codes "[]") (λ e. ground arith)) refl

element-type :
    (t : Text) → get_member_type (some (t ++ codes "[]")) (codes "unnest()") ≡ some (ok (some t))
unfolding get_member_type on_type
element-type t = rw (get_array_element_type-array t) refl

struct_member_type-parsed :
    (type name : Text) (structure : Structure)
    → get_struct_type_descriptor type ≡ some (ok structure)
    → struct_member_type (some type) name ≡ some (ok (get_member structure name))
unfolding struct_member_type
struct_member_type-parsed type name structure e = rw (e, struct_member_type) refl

struct_member-type :
    (field : Field) (fields : List Field) (name : Text)
    → are_readable (field ∷ fields) ≡ true
    → struct_member_type (some (show_struct field fields)) name
      ≡ some (ok (type_of (field ∷ fields) name))
struct_member-type field fields name r =
    let (structure, parsed, found) = get_struct_type_descriptor-show_struct field fields r in
    struct_member_type-parsed (show_struct field fields) name structure parsed
    ∙ ap (λ (o : Option Text). some (ok o)) (found name)

member-type :
    (type : Option Text) (name : Text)
    → is_special_word name ≡ false
    → get_member_type type name ≡ struct_member_type type name
unfolding get_member_type is_special_word
member-type type name w = ground arith

subscript-type :
    (t : Text)
    → get_member_type (some t) (codes "generate_subscripts()") ≡ some (ok (some (codes "BIGINT")))
unfolding get_member_type
subscript-type t = refl

module _ (key value : Text) (b : is_balanced 0 key ≡ true) where
  keys-type :
      get_member_type (some (show_map key value)) (codes "map_keys()")
      ≡ some (ok (some (trim key ++ codes "[]")))
  unfolding get_member_type on_type get_array_type
  keys-type = rw (key_type key value b) refl

  values-type :
      get_member_type (some (show_map key value)) (codes "map_values()")
      ≡ some (ok (some (trim value ++ codes "[]")))
  unfolding get_member_type on_type get_array_type
  values-type = rw (value_type key value b) refl

  entries-type :
      get_member_type (some (show_map key value)) (codes "map_entries()")
      ≡ some (ok (some (show_entry (trim key) (trim value) ++ codes "[]")))
  unfolding get_member_type on_type get_map_entries_type get_array_type
  entries-type = rw (entry_type key value b) refl

no_path : (t : Text) → get_member_expression_type (some t) [] ≡ some (ok (some t))
unfolding get_member_expression_type
no_path t = refl

-- Where a path leads from a type to another, through the elements of arrays, the subscripts of
-- arrays, the members of a STRUCT, and the keys, values or entries of a MAP, with the types
-- written as DuckDB writes them, `getMemberExpressionType` returns that other type.
pub get_member_expression_type-LeadsTo :
    {type t : Text} (path : List Text)
    → LeadsTo type path t
    → get_member_expression_type (some type) path ≡ some (ok (some t))
get_member_expression_type-LeadsTo [] (here {t}) = no_path t
get_member_expression_type-LeadsTo _ (element t {u} {path} l) =
    get_member_expression_type-step (some (t ++ codes "[]")) (codes "unnest()") path (some t)
      (element-type t)
    ∙ get_member_expression_type-LeadsTo path l
get_member_expression_type-LeadsTo _ (subscript {t} {u} {path} l) =
    get_member_expression_type-step (some t) (codes "generate_subscripts()") path
      (some (codes "BIGINT")) (subscript-type t)
    ∙ get_member_expression_type-LeadsTo path l
get_member_expression_type-LeadsTo _ (member field fields name t {u} {path} r w e l) =
    get_member_expression_type-step (some (show_struct field fields)) name path (some t) (
      member-type (some (show_struct field fields)) name w
      ∙ struct_member-type field fields name r
      ∙ ap (λ (o : Option Text). some (ok o)) e)
    ∙ get_member_expression_type-LeadsTo path l
get_member_expression_type-LeadsTo _ (keys key value {u} {path} b k l) =
    get_member_expression_type-step (some (show_map key value)) (codes "map_keys()") path
      (some (key ++ codes "[]")) (keys-type key value b ∙ rw k refl)
    ∙ get_member_expression_type-LeadsTo path l
get_member_expression_type-LeadsTo _ (values key value {u} {path} b v l) =
    get_member_expression_type-step (some (show_map key value)) (codes "map_values()") path
      (some (value ++ codes "[]")) (values-type key value b ∙ rw v refl)
    ∙ get_member_expression_type-LeadsTo path l
get_member_expression_type-LeadsTo _ (entries key value {u} {path} b k v l) =
    get_member_expression_type-step (some (show_map key value)) (codes "map_entries()") path
      (some (show_entry key value ++ codes "[]")) (entries-type key value b ∙ rw (k, v) refl)
    ∙ get_member_expression_type-LeadsTo path l
