-- ===== src/QueryModel/Compare.antt =====
-- QueryModel.js, `compareStates`: what changed between two states. A property that is not set is
-- `none`; an item is the object of its properties.
use huey.Base.{
  Bool, true, false, ◌||◌, Option, none, some, List, [], ◌∷◌, ◌++◌, String, if◌then◌else◌,
}
use text.Mathlib.Text.{◌==◌ as str_eq}
use huey.Base.Dict
use huey.Base.Dict.{Dict}

unfoldable pub knows : List String → String → Bool
knows [] name = false
knows (first ∷ names) name = let rest = knows names name in if str_eq first name then true else rest

-- `propertyNames[propertyName] = propertyName`.
unfoldable pub add_property_name : List String → String → List String
unfolding knows
add_property_name names name = if knows names name then names else names ++ name ∷ []

unfoldable pub add_keys {ℓ} : {V : Type ℓ} → List String → Dict V → List String
unfolding add_property_name
add_keys names [] = names
add_keys names ((key, value) ∷ d) = add_keys (add_property_name names key) d

unfoldable pub get_property_names {ℓ} : {V : Type ℓ} → Dict V → Dict V → List String
unfolding add_keys
get_property_names a b = add_keys (add_keys [] a) b

-- `same` tells whether two values have the same JSON text.
module _ {V : Type 0} (same : Option V → Option V → Bool) where
  unfoldable pub changes : Dict V → Dict V → List String → List String → Dict (Option V × Option V)
  unfolding knows
  changes old new ignored [] = []
  changes old new ignored (name ∷ names) =
      let rest = changes old new ignored names in
      if knows ignored name || same (Dict.get old name) (Dict.get new name)
      then rest
      else (name, (Dict.get old name, Dict.get new name)) ∷ rest

  unfoldable pub compare_objects :
      Dict V → Dict V → List String → Option (Dict (Option V × Option V))
  unfolding changes get_property_names
  compare_objects old new ignored =
      elim (changes old new ignored (get_property_names old new))
        as (λ x. Option (Dict (Option V × Option V))) [
          | [] ↦ none
          | change ∷ more ↦ some (change ∷ more)
        ]

  unfoldable pub axis_as_object : (Dict V → String) → Dict (Dict V) → List (Dict V) → Dict (Dict V)
  axis_as_object id_of acc [] = acc
  axis_as_object id_of acc (item ∷ items) =
      axis_as_object id_of (Dict.set acc (id_of item) item) items

  pub record AxisChange : Type 0 where
    pub added : List (Dict V)
    pub removed : List (Dict V)
    pub changed : Dict (Dict (Option V × Option V))

  -- What one item id adds to the change of its axis.
  unfoldable pub note_item : String → Option (Dict V) → Option (Dict V) → AxisChange → AxisChange
  unfolding compare_objects
  note_item id none none change = change
  note_item id none (some new) change = record change { added = new ∷ change.added }
  note_item id (some old) none change = record change { removed = old ∷ change.removed }
  note_item id (some old) (some new) change =
      elim (compare_objects old new []) as (λ x. AxisChange) [
        | none ↦ change
        | some c ↦ record change { changed = (id, c) ∷ change.changed }
      ]

  unfoldable pub item_changes : Dict (Dict V) → Dict (Dict V) → List String → AxisChange
  unfolding note_item
  item_changes old new [] = record { added = []; removed = []; changed = [] }
  item_changes old new (id ∷ ids) =
      note_item id (Dict.get old id) (Dict.get new id) (item_changes old new ids)

  -- `Object.keys(axisChange).length`, once what is empty is deleted.
  unfoldable pub is_change : AxisChange → Bool
  is_change change =
      (elim change.added [ [] ↦ false | a ∷ l ↦ true ])
      || (elim change.removed [ [] ↦ false | a ∷ l ↦ true ])
      || (elim change.changed [ [] ↦ false | a ∷ l ↦ true ])

  -- `oldAxes[axisId] || []`.
  unfoldable pub items_or_none : Option (List (Dict V)) → List (Dict V)
  items_or_none none = []
  items_or_none (some items) = items

  unfoldable pub axis_change : (Dict V → String) → List (Dict V) → List (Dict V) → AxisChange
  unfolding axis_as_object item_changes get_property_names
  axis_change id_of old_items new_items =
      let old = axis_as_object id_of [] old_items in
      let new = axis_as_object id_of [] new_items in
      item_changes old new (get_property_names old new)

  unfoldable pub axes_changes :
      (Dict V → String)
      → Dict (List (Dict V))
      → Dict (List (Dict V))
      → List String
      → Dict AxisChange
  unfolding axis_change is_change items_or_none
  axes_changes id_of old new [] = []
  axes_changes id_of old new (axis_id ∷ axis_ids) =
      let rest = axes_changes id_of old new axis_ids in
      let change =
        axis_change id_of (items_or_none (Dict.get old axis_id))
          (items_or_none (Dict.get new axis_id)) in
      if is_change change then (axis_id, change) ∷ rest else rest

  -- The properties of a state besides `axes`, and its axes.
  pub record State : Type 0 where
    pub properties : Dict V
    pub axes : Dict (List (Dict V))

  pub record StateChange : Type 0 where
    pub properties_changed : Dict (Option V × Option V)
    pub axes_changed : Dict AxisChange

  -- An array is truthy, an empty one as well: both parts are always there.
  unfoldable pub compare_states : (Dict V → String) → State → State → StateChange
  unfolding changes axes_changes get_property_names
  compare_states id_of old new = record {
    properties_changed =
        changes old.properties new.properties [] (get_property_names old.properties new.properties);
    axes_changed = axes_changes id_of old.axes new.axes (get_property_names old.axes new.axes);
  }
