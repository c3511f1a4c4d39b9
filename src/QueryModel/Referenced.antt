-- ===== src/QueryModel/Referenced.antt =====
-- QueryModel.js, `getReferencedColumns`: the columns that the items of a state name, with the types
-- that the items give them.
use huey.Base.{
  ◌≡◌, refl, sym, ap, ◌∙◌, Bool, false, not, ◌&&◌, Option, none, some, List, [], ◌∷◌, ◌++◌, String,
  if◌then◌else◌, arith,
}
use text.Mathlib.Text.{◌==◌ as str_eq}
use text.Mathlib.TextEquality.{eq_iff}
use huey.Base.Dict
use huey.Base.Dict.{Dict}
use huey.Base.Result.{Result, ok, throw, type_error}
use huey.QueryModel.Item.{truthy}

pub record Config : Type 0 where
  pub column : Option String
  pub column_name : Option String
  pub column_type : Option String

-- `item.column || item.columnName`.
unfoldable pub column_of : Config → Option String
unfolding truthy
column_of item = if truthy item.column then item.column else item.column_name

unfoldable pub add_column :
    Option String → Option String → Dict (Option String) → Dict (Option String)
add_column none type acc = acc
add_column (some name) type acc = if str_eq name "*" then acc else Dict.set acc name type

unfoldable pub add_columns : Dict (Option String) → List Config → Dict (Option String)
unfolding add_column column_of
add_columns acc [] = acc
add_columns acc (item ∷ items) =
    add_columns (add_column (column_of item) item.column_type acc) items

unfoldable pub add_axes : Dict (Option String) → Dict (List Config) → Dict (Option String)
unfolding add_columns
add_axes acc [] = acc
add_axes acc ((axis_id, items) ∷ axes) = add_axes (add_columns acc items) axes

-- A state, with the axes that it may lack.
pub record ReferencingState : Type 0 where
  pub axes : Option (Dict (List Config))

-- `none` is null; `Object.keys(undefined)` throws.
unfoldable pub get_referenced_columns :
    Option ReferencingState → Result (Option (Dict (Option String)))
unfolding add_axes
get_referenced_columns none = ok none
get_referenced_columns (some state) =
    elim state.axes as (λ x. Result (Option (Dict (Option String)))) [
      | none ↦ throw type_error
      | some axes ↦ ok (some (add_axes [] axes))
    ]

-- Whether a column that is not `*` has this name.
unfoldable pub is_named : String → Option String → Bool
is_named name none = false
is_named name (some column) = str_eq column name && not (str_eq name "*")

-- The type that the last item with this column gives it.
unfoldable pub last_type : String → List Config → Option (Option String)
unfolding is_named
last_type name [] = none
last_type name (item ∷ items) = elim (last_type name items) as (λ x. Option (Option String)) [
  | some type ↦ some type
  | none ↦ if is_named name (column_of item) then some item.column_type else none
]

-- The items of all axes, in the order of the axes.
unfoldable pub all_items : Dict (List Config) → List Config
all_items [] = []
all_items ((axis_id, items) ∷ axes) = items ++ all_items axes

add_columns-append :
    (acc : Dict (Option String)) (s t : List Config)
    → add_columns acc (s ++ t) ≡ add_columns (add_columns acc s) t
unfolding add_columns
add_columns-append acc [] t = refl
add_columns-append acc (item ∷ s) t =
    add_columns-append (add_column (column_of item) item.column_type acc) s t

add_axes-all_items :
    (acc : Dict (Option String)) (axes : Dict (List Config))
    → add_axes acc axes ≡ add_columns acc (all_items axes)
unfolding add_axes all_items add_columns
add_axes-all_items acc [] = refl
add_axes-all_items acc ((axis_id, items) ∷ axes) =
    add_axes-all_items (add_columns acc items) axes
    ∙ sym (add_columns-append acc items (all_items axes))

or_else {ℓ} : {A : Type ℓ} → Option A → Option A → Option A
or_else none b = b
or_else (some a) b = some a

get-add_column :
    (acc : Dict (Option String)) (column type : Option String) (name : String)
    → Dict.get (add_column column type acc) name
      ≡ (if is_named name column then some type else Dict.get acc name)
unfolding add_column is_named
get-add_column acc none type name = refl
get-add_column acc (some column) type name = ground (
  arith,
  Dict.get-set acc column name type,
  eq_iff column name,
  eq_iff column "*",
  eq_iff name "*",
)

get-add_columns :
    (acc : Dict (Option String)) (items : List Config) (name : String)
    → Dict.get (add_columns acc items) name ≡ or_else (last_type name items) (Dict.get acc name)
unfolding add_columns last_type or_else
get-add_columns acc [] name = refl
get-add_columns acc (item ∷ items) name =
    let next = add_column (column_of item) item.column_type acc in
    ground (
      arith,
      get-add_columns next items name,
      get-add_column acc (column_of item) item.column_type name,
    )

or_else-none : (b : Option (Option String)) → or_else b none ≡ b
unfolding or_else
or_else-none none = refl
or_else-none (some b) = refl

-- `getReferencedColumns` returns null for no state, throws for a state without axes, and for a
-- state with axes returns an object, in which each column but `*` that an item of any axis
-- names has the type that the last such item gives it, in the order of the axes and of the
-- items on each, and there is no other column.
pub get_referenced_columns-last_type :
    (get_referenced_columns none ≡ ok none)
    × (get_referenced_columns (some (record { axes = none })) ≡ throw type_error)
    × ((axes : Dict (List Config))
        → (columns : Dict (Option String)) × (get_referenced_columns
              (some (record { axes = some axes }))
            ≡ ok (some columns))
          × ((name : String) → Dict.get columns name ≡ last_type name (all_items axes)))
unfolding get_referenced_columns Dict.get
get_referenced_columns-last_type = (
  refl,
  refl,
  λ axes. (
    add_axes [] axes,
    refl,
    λ name.
        ap (λ (columns : Dict (Option String)). Dict.get columns name) (add_axes-all_items [] axes)
        ∙ (get-add_columns [] (all_items axes) name
            ∙ or_else-none (last_type name (all_items axes))),
  ),
)
