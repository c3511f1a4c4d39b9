-- ===== src/QueryModel/Serializer.antt =====
-- QuerySerializer.js, and the part of `setState` in QueryModel.js that reads the items of a state.
use huey.Base.{
  ◌≡◌, refl, sym, ap, ◌∙◌, Bool, true, false, Option, none, some, List, [], ◌∷◌, String, arith,
  if◌then◌else◌, map, is_some, Bool-cases, inl, inr,
}
use text.Mathlib.TextEquality.{eq_iff}
use huey.QueryModel.Item.{
  Item, Filter, ℤ, AxisId, filters, columns, rows, cells, truthy, text_or_empty, key, Key,
}
use huey.QueryModel.Model.{QueryModel, Axes, items_on, same_axis}
use huey.QueryModel.WellFormed.{same_axis-eq}

-- The stripped item of a state.
pub record StateItem (V : Type 0) : Type 0 where
  pub column_name : Option String
  pub column_type : Option String
  pub member_expression_path : Option (List String)
  pub derivation : Option String
  pub aggregator : Option String
  pub include_totals : Option Bool
  pub filter : Option (Filter V)
  pub index : Option ℤ

pub record QueryModelState (V : Type 0) : Type 0 where
  pub datasource_id : String
  pub cells_headers : AxisId
  pub axes : List (AxisId × List (StateItem V))
  pub sampling : Option V

-- `if (text) copy = text`, and `if (flag === true) copy = true`.
unfoldable pub copy_text : Option String → Option String
unfolding truthy
copy_text text = if truthy text then text else none

unfoldable pub copy_true : Option Bool → Option Bool
copy_true (some true) = some true
copy_true _ = none

text_or_empty-copy_text :
    (text : Option String) → text_or_empty (copy_text text) ≡ text_or_empty text
unfolding copy_text truthy text_or_empty
text_or_empty-copy_text text = ground (arith, eq_iff (text_or_empty text) "")

copy_true-copy_true : (flag : Option Bool) → copy_true (copy_true flag) ≡ copy_true flag
unfolding copy_true
copy_true-copy_true flag = ground arith

kept_filter :
    {V : Type 0} (b : Bool) (filter : Option (Filter V))
    → (if b then if b then if b then filter else none else none else none)
      ≡ (if b then filter else none)
kept_filter true filter = refl
kept_filter false filter = refl

mem : List AxisId → AxisId → Bool
mem [] id = false
mem (j ∷ ids) id = let rest = mem ids id in if same_axis j id then true else rest

mem-all : (id : AxisId) → mem (cells ∷ columns ∷ filters ∷ rows ∷ []) id ≡ true
unfolding mem same_axis
mem-all id = ground arith

module _ {V : Type 0} where
  unfoldable pub strip : Bool → AxisId → Item V → StateItem V
  unfolding copy_text copy_true same_axis
  strip include_item_indices id item = record {
    column_name = item.column_name;
    column_type = item.column_type;
    member_expression_path = item.member_expression_path;
    derivation = copy_text item.derivation;
    aggregator = copy_text item.aggregator;
    include_totals = copy_true item.include_totals;
    filter = if same_axis id filters then item.filter else none;
    index = if include_item_indices then item.index else none;
  }

  unfoldable pub strip_all : Bool → AxisId → List (Item V) → List (StateItem V)
  unfolding strip
  strip_all include_item_indices id [] = []
  strip_all include_item_indices id (item ∷ items) =
      strip include_item_indices id item ∷ strip_all include_item_indices id items

  -- The axes with items, in the order of their sorted ids.
  unfoldable pub serialize_axes : Bool → Axes V → List AxisId → List (AxisId × List (StateItem V))
  unfolding strip_all items_on
  serialize_axes include_item_indices axes [] = []
  serialize_axes include_item_indices axes (id ∷ ids) =
      let rest = serialize_axes include_item_indices axes ids in
      elim (items_on axes id) as (λ x. List (AxisId × List (StateItem V))) [
        | [] ↦ rest
        | item ∷ items ↦ (id, strip_all include_item_indices id (item ∷ items)) ∷ rest
      ]

  -- `datasource_id` is `getId` of a datasource, and `sampling` what `getSampling` returns.
  unfoldable pub serialize_query_model :
      (V → String) → QueryModel V → Option V → Bool → Option (QueryModelState V)
  unfolding serialize_axes
  serialize_query_model datasource_id m sampling include_item_indices = elim m.datasource [
    | none ↦ none
    | some datasource ↦
        elim (serialize_axes include_item_indices m.axes (cells ∷ columns ∷ filters ∷ rows ∷ []))
          as (λ x. Option (QueryModelState V)) [
            | [] ↦ none
            | first ∷ others ↦ some (record {
              datasource_id = datasource_id datasource;
              cells_headers = m.cell_headers_axis;
              axes = first ∷ others;
              sampling = sampling;
            })
          ]
  ]

  -- The configuration that `setState` adds for an item of a state that `serializeQueryModel` made.
  unfoldable pub config_of : AxisId → StateItem V → Item V
  unfolding copy_true same_axis
  config_of id item = record {
    column_name = item.column_name;
    column_type = item.column_type;
    member_expression_path = item.member_expression_path;
    derivation = item.derivation;
    aggregator = item.aggregator;
    caption = none;
    include_totals = copy_true item.include_totals;
    formatter = none;
    literal_writer = none;
    parser = none;
    filter = if same_axis id filters then item.filter else none;
    index = none;
    axis = some id;
  }

  -- `axes[axisId]`, no items where there is no entry.
  unfoldable pub state_items : List (AxisId × List (StateItem V)) → AxisId → List (StateItem V)
  state_items [] id = []
  state_items ((j, items) ∷ axes) id =
      let rest = state_items axes id in if same_axis j id then items else rest

  -- What a saved item has to keep: what identifies it, its column type, its totals and its filter.
  unfoldable pub saved : AxisId → Item V → Key × Option String × Bool × Option (Filter V)
  unfolding key copy_true same_axis
  saved id item = (
    key item,
    item.column_type,
    is_some (copy_true item.include_totals),
    if same_axis id filters then item.filter else none,
  )

  saved-config_of :
      (indices : Bool) (id : AxisId) (item : Item V)
      → saved id (config_of id (strip indices id item)) ≡ saved id item
  unfolding saved config_of strip key
  saved-config_of indices id item =
      rw
        (
          text_or_empty-copy_text item.derivation,
          text_or_empty-copy_text item.aggregator,
          copy_true-copy_true item.include_totals,
          copy_true-copy_true item.include_totals,
          kept_filter (same_axis id filters) item.filter,
        )
        refl

  saved-strip_all :
      (indices : Bool) (id : AxisId) (items : List (Item V))
      → map (λ (i : StateItem V). saved id (config_of id i)) (strip_all indices id items)
        ≡ map (saved id) items
  unfolding strip_all
  saved-strip_all indices id [] = refl
  saved-strip_all indices id (item ∷ items) =
      rw (saved-config_of indices id item, saved-strip_all indices id items) refl

  step :
      (indices : Bool) (axes : Axes V) (j : AxisId) (ids : List AxisId) (id : AxisId)
      (items : List (Item V))
      → items_on axes j ≡ items
      → state_items (serialize_axes indices axes ids) id
        ≡ (if mem ids id then strip_all indices id (items_on axes id) else [])
      → state_items (serialize_axes indices axes (j ∷ ids)) id
        ≡ (if mem (j ∷ ids) id then strip_all indices id (items_on axes id) else [])
  unfolding state_items serialize_axes mem strip_all
  step indices axes j ids id [] e ih = elim (Bool-cases (same_axis j id)) [
    | inr f ↦ rw (e, serialize_axes, f, mem) ih
    | inl f ↦
        let none_here : items_on axes id ≡ [] =
          ap (items_on axes) (sym (same_axis-eq j id f)) ∙ e in
        rw (e, serialize_axes, f, mem)
          (ih ∙ nothing (mem ids id) none_here ∙ sym (ap (strip_all indices id) none_here))
  ]
    where
      nothing :
          (b : Bool)
          → items_on axes id ≡ []
          → (if b then strip_all indices id (items_on axes id) else []) ≡ []
      nothing true h = ap (strip_all indices id) h
      nothing false h = refl
  step indices axes j ids id (item ∷ items) e ih = elim (Bool-cases (same_axis j id)) [
    | inr f ↦ rw (e, serialize_axes, f, mem, state_items) ih
    | inl f ↦
        let here : j ≡ id = same_axis-eq j id f in
        rw (e, serialize_axes, f, mem, state_items)
          (ap (λ (k : AxisId). strip_all indices k (item ∷ items)) here
            ∙ ap (strip_all indices id) (sym e ∙ ap (items_on axes) here))
  ]

  state_items-serialize_axes :
      (indices : Bool) (axes : Axes V) (ids : List AxisId) (id : AxisId)
      → state_items (serialize_axes indices axes ids) id
        ≡ (if mem ids id then strip_all indices id (items_on axes id) else [])
  unfolding state_items serialize_axes mem
  state_items-serialize_axes indices axes [] id = refl
  state_items-serialize_axes indices axes (j ∷ ids) id =
      step indices axes j ids id (items_on axes j) refl
        (state_items-serialize_axes indices axes ids id)

  -- When a query model has a state to save, the configurations that `setState` makes of the
  -- saved items of any axis are, one for one and in their order, like the items of that axis
  -- in column, path, derivation, aggregator, column type, whether totals are included, and, on
  -- the filter axis, filter.
  pub serialize_query_model-saved :
      (datasource_id : V → String) (m : QueryModel V) (sampling : Option V) (indices : Bool)
      (state : QueryModelState V)
      → serialize_query_model datasource_id m sampling indices ≡ some state
      → (id : AxisId)
      → map (λ (i : StateItem V). saved id (config_of id i)) (state_items state.axes id)
        ≡ map (saved id) (items_on m.axes id)
  unfolding serialize_query_model
  serialize_query_model-saved datasource_id m sampling indices state h id =
      ap (map (λ (i : StateItem V). saved id (config_of id i)))
        (restored (serialize_axes indices m.axes all_ids) refl)
      ∙ saved-strip_all indices id (items_on m.axes id)
    where
      all_ids : List AxisId
      all_ids = cells ∷ columns ∷ filters ∷ rows ∷ []

      restored :
          (l : List (AxisId × List (StateItem V)))
          → serialize_axes indices m.axes all_ids ≡ l
          → state_items state.axes id ≡ strip_all indices id (items_on m.axes id)
      restored [] e = absurd (ground arith)
      restored (first ∷ others) e =
          let same : first ∷ others ≡ state.axes = ground arith in
          ap (λ l. state_items l id) (sym same ∙ sym e)
          ∙ state_items-serialize_axes indices m.axes all_ids id
          ∙ rw (mem-all id) refl
