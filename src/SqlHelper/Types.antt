-- ===== src/SqlHelper/Types.antt =====
-- SQLHelper.js: the texts of composite types, STRUCT, MAP and arrays, and the types of the members
-- that a path leads to. A position in the text is what is left of the text behind it, and the
-- message of an error is the part of it that does not quote the argument.
use huey.Base.{
  ℕ, zero, suc, ◌-◌, Bool, ◌&&◌, Option, none, some, List, [], ◌∷◌, ◌++◌, ◌==◌, String, ◌||◌,
  if◌then◌else◌, length, drop,
}
use huey.Base.Result.{Result, ok, throw, error}
use huey.Base.Text.{Text, codes, same, starts_with, ends_with, slice_to}

-- The object that `getStructTypeDescriptor` returns: names with types.
abbrev pub Structure : Type 0
Structure = List (Text × Text)

unfoldable pub set_member : Structure → Text → Text → Structure
set_member [] name type = (name, type) ∷ []
set_member ((n, t) ∷ structure) name type =
    let rest = set_member structure name type in
    if same n name then (n, type) ∷ structure else (n, t) ∷ rest

-- `undefined` when there is no such member.
unfoldable pub get_member : Structure → Text → Option Text
get_member [] name = none
get_member ((n, t) ∷ structure) name =
    let rest = get_member structure name in if same n name then some t else rest

-- The text before the first such code and the text from it on; `none` when `indexOf` is -1.
unfoldable pub break_at : ℕ → Text → Option (Text × Text)
break_at c [] = none
break_at c (d ∷ s) =
    let rest = break_at c s in
    if d == c
    then some ([], d ∷ s)
    else elim rest [ none ↦ none | some (before, after) ↦ some (d ∷ before, after) ]

abbrev pub space : ℕ
space = 32

abbrev pub comma : ℕ
comma = 44

abbrev pub left : ℕ
left = 40

abbrev pub right : ℕ
right = 41

-- `none` where the index becomes 0, behind a name with no closing quote, or -1, behind a name
-- with no space: no space stands there.
unfoldable pub parse_member_name : Text → Option (Text × Text)
unfolding break_at
parse_member_name [] = none
parse_member_name (c ∷ s) =
    let in_quotes = break_at 34 s in
    let bare = break_at space (c ∷ s) in
    if c == 34
    then elim in_quotes as (λ x. Option (Text × Text)) [
      | none ↦ none
      | some (name, []) ↦ none
      | some (name, d ∷ rest) ↦ some (name, rest)
    ]
    else bare

unfoldable pub with_first : ℕ → Text × Text → Text × Text
with_first c (type, rest) = (c ∷ type, rest)

-- The type, which ends before a comma or a right parenthesis of level 0, or with the text.
unfoldable pub parse_member_type : ℕ → Text → Text × Text
unfolding with_first
parse_member_type level [] = ([], [])
parse_member_type level (c ∷ s) =
    let next = if c == left then suc level else if c == right then level - 1 else level in
    let rest = parse_member_type next s in
    if ((c == right) || (c == comma)) && (level == 0) then ([], c ∷ s) else with_first c rest

-- How a round of the loop over the members ends: the loop goes on with what is left of the text,
-- or it ends, or the round throws.
pub data Round : Type 0 where
  more : Text → Text → Text → Round
  last : Text → Text → Round
  fails : String → Round

unfoldable pub after_type : Text → Text → Text → Round
after_type name type [] = last name type
after_type name type (c ∷ []) =
    if c == comma then fails "Error parsing STRUCT: expected \" \"" else last name type
after_type name type (c ∷ d ∷ rest) =
    if c == comma
    then (if d == space then more name type rest else fails "Error parsing STRUCT: expected \" \"")
    else last name type

unfoldable pub after_name : Text → Text → Round
unfolding parse_member_type after_type
after_name name [] = fails "Error parsing STRUCT: expected \"  \""
after_name name (c ∷ rest) =
    let (type, behind) = parse_member_type 0 rest in
    if c == space
    then after_type name type behind
    else fails "Error parsing STRUCT: expected \"  \""

unfoldable pub parse_member : Text → Round
unfolding parse_member_name after_name
parse_member s = elim (parse_member_name s) as (λ x. Round) [
  | none ↦ fails "Error parsing STRUCT: expected \"  \""
  | some (name, rest) ↦ after_name name rest
]

-- The loop over the members, on fuel; `none` when the fuel does not suffice.
unfoldable pub parse_members : ℕ → Text → Structure → Option (Result Structure)
unfolding parse_member set_member
parse_members zero [] structure = some (ok structure)
parse_members zero (c ∷ s) structure = none
parse_members (suc fuel) [] structure = some (ok structure)
parse_members (suc fuel) (c ∷ s) structure =
    elim (parse_member (c ∷ s)) as (λ x. Option (Result Structure)) [
      | fails message ↦ some (throw (error message))
      | last name type ↦ some (ok (set_member structure name type))
      | more name type rest ↦ parse_members fuel rest (set_member structure name type)
    ]

-- What stands behind the keyword. Each round of the loop passes one character at least: the length
-- of the text is fuel enough.
unfoldable pub parse_structure : Text → Option (Result Structure)
unfolding parse_members
parse_structure [] = some (throw (error "is not a STRUCT: expected \"(\""))
parse_structure (c ∷ rest) =
    if c == left
    then parse_members (length rest) rest []
    else some (throw (error "is not a STRUCT: expected \"(\""))

unfoldable pub get_struct_type_descriptor : Text → Option (Result Structure)
unfolding parse_structure starts_with
get_struct_type_descriptor struct_column_type =
    if starts_with struct_column_type (codes "STRUCT")
    then parse_structure (drop 6 struct_column_type)
    else some (throw (error "is not a STRUCT: expected keyword STRUCT"))

unfoldable pub is_array_type : Text → Bool
unfolding ends_with
is_array_type data_type = ends_with data_type (codes "[]")

unfoldable pub is_map_type : Text → Bool
unfolding starts_with ends_with
is_map_type data_type = starts_with data_type (codes "MAP(") && ends_with data_type (codes ")")

unfoldable pub is_struct_type : Text → Bool
unfolding starts_with ends_with
is_struct_type data_type =
    starts_with data_type (codes "STRUCT(") && ends_with data_type (codes ")")

unfoldable pub is_string_type : Text → Bool
unfolding same
is_string_type data_type = same data_type (codes "VARCHAR") || same data_type (codes "BLOB")

unfoldable pub get_array_element_type : Text → Result Text
unfolding is_array_type slice_to
get_array_element_type array_type =
    if is_array_type array_type
    then ok (slice_to 0 2 array_type)
    else throw (error "Expected an array type")

unfoldable pub get_array_type : Text → Text
get_array_type element_type = element_type ++ codes "[]"
