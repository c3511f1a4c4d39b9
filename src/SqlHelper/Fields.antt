-- ===== src/SqlHelper/Fields.antt =====
-- The fields of a STRUCT as DuckDB writes them, and which of these `getStructTypeDescriptor` reads.
use huey.Base.{
  ℕ, suc, ◌-◌, Bool, true, false, not, ◌&&◌, ◌||◌, Option, none, some, List, [], ◌∷◌, ◌++◌, ◌==◌,
  if◌then◌else◌,
}
use huey.Base.Text.{Text, codes, same}
use huey.SqlHelper.Types.{space, comma, left, right}

-- A field as DuckDB writes it: the name, in quotes or bare, a space, and the type.
pub record Field : Type 0 where
  pub name : Text
  pub in_quotes : Bool
  pub type : Text

unfoldable pub show_name : Field → Text
show_name field = if field.in_quotes then 34 ∷ (field.name ++ 34 ∷ []) else field.name

-- The fields, with a comma and a space between two, and what is behind them.
unfoldable pub show_fields : Field → List Field → Text
unfolding show_name
show_fields field [] = show_name field ++ space ∷ (field.type ++ right ∷ [])
show_fields field (next ∷ fields) =
    show_name field ++ space ∷ (field.type ++ comma ∷ space ∷ show_fields next fields)

unfoldable pub show_struct : Field → List Field → Text
unfolding show_fields
show_struct field fields = codes "STRUCT(" ++ show_fields field fields

unfoldable pub lacks : ℕ → Text → Bool
lacks c [] = true
lacks c (d ∷ s) = let rest = lacks c s in if d == c then false else rest

unfoldable pub starts_bare : Text → Bool
starts_bare [] = true
starts_bare (c ∷ s) = not (c == 34)

-- From a level on, the parentheses match, and no comma stands outside them.
unfoldable pub is_balanced : ℕ → Text → Bool
is_balanced level [] = level == 0
is_balanced level (c ∷ s) =
    let next = if c == left then suc level else if c == right then level - 1 else level in
    let rest = is_balanced next s in
    if ((c == right) || (c == comma)) && (level == 0) then false else rest

-- A name in quotes has no quote inside; a bare one has no space and does not begin with a
-- quote. The parentheses of the type match, and no comma stands outside them.
unfoldable pub is_readable : Field → Bool
unfolding lacks starts_bare is_balanced
is_readable field =
    (if field.in_quotes
      then lacks 34 field.name
      else lacks space field.name && starts_bare field.name)
    && is_balanced 0 field.type

-- The type of the last field with a name.
unfoldable pub type_of : List Field → Text → Option Text
type_of [] name = none
type_of (field ∷ fields) name =
    let own = if same field.name name then some field.type else none in
    elim (type_of fields name) [ none ↦ own | some type ↦ some type ]

unfoldable pub are_readable : List Field → Bool
unfolding is_readable
are_readable [] = true
are_readable (field ∷ fields) = is_readable field && are_readable fields
