-- ===== src/QueryModel/Compared.antt =====
-- QueryModel.js, `compareStates`: an axis is reported as changed just when its items differ.
use huey.Base.{
  ◌≡◌, ◌↔◌, refl, sym, ap, ◌∙◌, Bool, true, false, not, ◌&&◌, ◌||◌, Option, none, some, List, [],
  ◌∷◌, String, if◌then◌else◌, arith,
}
use text.Mathlib.TextEquality.{eq_iff}
use huey.Base.Dict
use huey.Base.Dict.{Dict}
use huey.QueryModel.Compare.{
  knows, add_keys, get_property_names, changes, compare_objects, AxisChange, note_item,
  item_changes, is_change, axis_as_object, axis_change, items_or_none, axes_changes, State,
  compare_states,
}
use huey.QueryModel.PropertyNames.{all_pass, knows-add_keys, names_iff}

module _ {V : Type 0} (same : Option V → Option V → Bool) where
  is_nil {ℓ} : {A : Type ℓ} → List A → Bool
  is_nil [] = true
  is_nil (a ∷ l) = false

  changes-all_pass :
      (a b : Dict V) (names : List String)
      → is_nil (changes same a b [] names)
        ≡ all_pass names (λ name. same (Dict.get a name) (Dict.get b name))
  unfolding changes is_nil all_pass knows
  changes-all_pass a b [] = refl
  changes-all_pass a b (name ∷ names) = ground (arith, changes-all_pass a b names)

  -- Two items with one id: neither, or both with the same properties.
  abbrev pub SameItem : Option (Dict V) → Option (Dict V) → Type 0
  SameItem none none = Unit
  SameItem none (some b) = ⊥
  SameItem (some a) none = ⊥
  SameItem (some a) (some b) = (name : String) → same (Dict.get a name) (Dict.get b name) ≡ true

  same_item : Option (Dict V) → Option (Dict V) → Bool
  same_item none none = true
  same_item none (some b) = false
  same_item (some a) none = false
  same_item (some a) (some b) = is_nil (changes same a b [] (get_property_names a b))

  note_item-is_change :
      (id : String) (a b : Option (Dict V)) (change : AxisChange same)
      → is_change same (note_item same id a b change) ≡ not (same_item a b) || is_change same change
  unfolding note_item is_change same_item compare_objects is_nil
  note_item-is_change id none none change = refl
  note_item-is_change id none (some b) change = ground arith
  note_item-is_change id (some a) none change = ground arith
  note_item-is_change id (some a) (some b) change = ground arith

  item_changes-all_pass :
      (old new : Dict (Dict V)) (ids : List String)
      → is_change same (item_changes same old new ids)
        ≡ not (all_pass ids (λ id. same_item (Dict.get old id) (Dict.get new id)))
  unfolding item_changes all_pass is_change
  item_changes-all_pass old new [] = refl
  item_changes-all_pass old new (id ∷ ids) = ground (
    arith,
    item_changes-all_pass old new ids,
    note_item-is_change id (Dict.get old id) (Dict.get new id) (item_changes same old new ids),
  )

  same_none : same_item none none ≡ true
  unfolding same_item
  same_none = refl

  -- The items of an axis of a state, by their ids; none where there is no such axis.
  unfoldable pub items_of : (Dict V → String) → Dict (List (Dict V)) → String → Dict (Dict V)
  items_of id_of axes axis_id =
      axis_as_object same id_of [] (items_or_none same (Dict.get axes axis_id))

  module _ (undefined_same : same none none ≡ true) where
    same_item_iff : (a b : Option (Dict V)) → (same_item a b ≡ true) ↔ SameItem a b
    unfolding same_item
    same_item_iff none none = (λ h. tt, λ h. refl)
    same_item_iff none (some b) = (λ h. absurd (ground arith), λ h. absurd h)
    same_item_iff (some a) none = (λ h. absurd (ground arith), λ h. absurd h)
    same_item_iff (some a) (some b) =
        let test = λ (name : String). same (Dict.get a name) (Dict.get b name) in
        let names = names_iff a b test (λ name e g. ground (arith, e, g, undefined_same)) in
        let count = changes-all_pass a b (get_property_names a b) in
        (λ h. names.0 (sym count ∙ h), λ h. count ∙ names.1 h)

    axis_change_iff :
        (id_of : Dict V → String) (old new : List (Dict V))
        → (is_change same (axis_change same id_of old new) ≡ false) ↔ (
            (id : String)
            → SameItem
                (Dict.get (axis_as_object same id_of [] old) id)
                (Dict.get (axis_as_object same id_of [] new) id))
    unfolding axis_change
    axis_change_iff id_of old new =
        let a = axis_as_object same id_of [] old in
        let b = axis_as_object same id_of [] new in
        let test = λ (id : String). same_item (Dict.get a id) (Dict.get b id) in
        let names = names_iff a b test (λ id e g. rw (e, g) same_none) in
        let count = item_changes-all_pass a b (get_property_names a b) in
        (
          λ h id.
              (same_item_iff (Dict.get a id) (Dict.get b id)).0
                (names.0 (ground (arith, h, count)) id),
          λ h.
              let all = names.1 (λ id. (same_item_iff (Dict.get a id) (Dict.get b id)).1 (h id)) in
              ground (arith, all, count),
        )

    change_of :
        (Dict V → String) → Dict (List (Dict V)) → Dict (List (Dict V)) → String → AxisChange same
    change_of id_of old new axis_id =
        axis_change same id_of (items_or_none same (Dict.get old axis_id))
          (items_or_none same (Dict.get new axis_id))

    get-axes_changes :
        (id_of : Dict V → String) (old new : Dict (List (Dict V))) (ids : List String) (id : String)
        → Dict.get (axes_changes same id_of old new ids) id ≡ (
            if knows ids id && is_change same (change_of id_of old new id)
            then some (change_of id_of old new id)
            else none)
    unfolding axes_changes Dict.get knows change_of
    get-axes_changes id_of old new [] id = refl
    get-axes_changes id_of old new (axis_id ∷ ids) id = ground (
      arith,
      get-axes_changes id_of old new ids id,
      eq_iff axis_id id,
      ap (change_of id_of old new),
    )

    unchanged_iff :
        (b k : Bool) (change : AxisChange same)
        → (k ≡ false → b ≡ false)
        → ((if k && b then some change else none) ≡ none) ↔ (b ≡ false)
    unchanged_iff b k change h = (λ e. ground arith, λ e. ground arith)

    empty_axis : (id_of : Dict V → String) → is_change same (axis_change same id_of [] []) ≡ false
    unfolding axis_change axis_as_object item_changes is_change get_property_names
    empty_axis id_of = refl

    not_an_axis :
        (id_of : Dict V → String) (old new : Dict (List (Dict V))) (id : String)
        → knows (get_property_names old new) id ≡ false
        → is_change same (change_of id_of old new id) ≡ false
    unfolding get_property_names change_of items_or_none knows
    not_an_axis id_of old new id h =
        let in_new = knows-add_keys new (add_keys [] old) id in
        let in_old = knows-add_keys old [] id in
        let gone_old : Dict.get old id ≡ none = ground (arith, in_old, in_new, h) in
        let gone_new : Dict.get new id ≡ none = ground (arith, in_old, in_new, h) in
        rw (gone_old, gone_new) (empty_axis id_of)

    -- Where two values that are undefined count as having the same JSON text: `compareStates`
    -- reports no change of an axis just when, for every id, either neither state has an item
    -- with it on the axis, or both have one and the two have the same JSON text for every
    -- property.
    pub compare_states_iff :
        (id_of : Dict V → String) (old new : State same) (axis_id : String)
        → (Dict.get (compare_states same id_of old new).axes_changed axis_id ≡ none) ↔ (
            (id : String)
            → SameItem
                (Dict.get (items_of id_of old.axes axis_id) id)
                (Dict.get (items_of id_of new.axes axis_id) id))
    unfolding compare_states items_of change_of
    compare_states_iff id_of old new axis_id =
        let names = get_property_names old.axes new.axes in
        let change = change_of id_of old.axes new.axes axis_id in
        let entry = get-axes_changes id_of old.axes new.axes names axis_id in
        let unchanged =
          unchanged_iff (is_change same change) (knows names axis_id) change
            (not_an_axis id_of old.axes new.axes axis_id) in
        let items =
          axis_change_iff id_of (items_or_none same (Dict.get old.axes axis_id))
            (items_or_none same (Dict.get new.axes axis_id)) in
        (λ e. items.0 (unchanged.0 (sym entry ∙ e)), λ h. entry ∙ unchanged.1 (items.1 h))
