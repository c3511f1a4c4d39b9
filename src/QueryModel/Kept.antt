-- ===== src/QueryModel/Kept.antt =====
-- QueryModel.js: `addItem` and `removeItem` leave no item in the query twice.
use huey.Base.{
  ℕ, ◌+◌, ◌≡◌, refl, sym, ap, ◌∙◌, Bool, true, none, some, List, [], ◌∷◌, arith, if◌then◌else◌, ◌≢◌,
  Option-cases, Bool-cases, inl, inr,
}
use huey.QueryModel.Item.{
  Item, AxisId, filters, columns, rows, cells, truthy, key, matches, matches-key, matches-same_item,
  Key,
}
use huey.QueryModel.Axis
use huey.QueryModel.Axis.{find_index, delete_at}
use huey.QueryModel.Occurrences.{occurrences, find_index-none, occurrences-same}
use huey.QueryModel.Model.{Axes, same_axis, items_on, set_items, find_on, place, sync, move_to}
use huey.QueryModel.WellFormed.{
  occurrences_shown, IsWellFormed, occurrences-sync, occurrences-place, occurrences-remove,
  find_on-Found,
}

-- One of these on this axis.
abbrev pub count_if : Bool → ℕ
count_if b = if b then 1 else 0

abbrev pub count_on : AxisId → AxisId → Bool → ℕ
count_on id j b = if same_axis id j then count_if b else 0

-- The axes that are searched for an item that is not a filter.
abbrev pub shown_axes : Bool → List AxisId
shown_axes aggregated = if aggregated then cells ∷ [] else columns ∷ rows ∷ cells ∷ []

module _ {V : Type 0} where
  -- The item that is found leaves its axis, and the new one is counted on its own.
  pub move_to-found :
      (axes : Axes V) (ids : List AxisId) (config wanted found : Item V) (id from : AxisId)
      → find_on ids axes wanted ≡ some (from, found)
      → key wanted ≡ key config
      → (added : Item V) × (axes' : Axes V) × (move_to axes id config (some (from, found))
          ≡ some (added, axes'))
        × ((j : AxisId) (c : Item V)
            → occurrences c (items_on axes' j) + count_on from j (matches c config)
              ≡ count_on id j (matches c config) + occurrences c (items_on axes j))
  unfolding move_to Axis.remove_item
  move_to-found axes ids config wanted found id from h same =
      let (i, item, f, k, _) = find_on-Found ids axes wanted found from h in
      let taken = set_items axes from (delete_at i (items_on axes from)) in
      let placed = (place taken id config).1 in
      (
        (place taken id config).0,
        if same_axis from id then sync placed id else sync (sync placed id) from,
        rw (f, move_to, Axis.remove_item) refl,
        λ j c. ground (
          arith,
          occurrences-sync placed id j c,
          occurrences-sync (sync placed id) from j c,
          occurrences-place taken id j config c,
          occurrences-remove axes from j found c item i f,
          matches-same_item c item config (k ∙ same),
        ),
      )

  pub move_to-none :
      (axes : Axes V) (config : Item V) (id : AxisId)
      → (added : Item V) × (axes' : Axes V) × (move_to axes id config none ≡ some (added, axes'))
        × ((j : AxisId) (c : Item V)
            → occurrences c (items_on axes' j)
              ≡ count_on id j (matches c config) + occurrences c (items_on axes j))
  unfolding move_to
  move_to-none axes config id =
      let placed = (place axes id config).1 in
      (
        _,
        sync placed id,
        refl,
        λ j c. occurrences-sync placed id j c ∙ occurrences-place axes id j config c,
      )

  find_on-none :
      (id : AxisId) (ids : List AxisId) (axes : Axes V) (config : Item V)
      → find_on (id ∷ ids) axes config ≡ none
      → (occurrences config (items_on axes id) ≡ 0) × (find_on ids axes config ≡ none)
  unfolding find_on Axis.find_item
  find_on-none id ids axes config h = elim (Option-cases (find_index config (items_on axes id))) [
    | inl e ↦ (find_index-none config (items_on axes id) e, rw (e, find_on) at h)
    | inr (found, e) ↦ absurd (ground arith)
  ]

  pub aggregator-same : (a b : Item V) → key a ≡ key b → truthy a.aggregator ≡ truthy b.aggregator
  unfolding key truthy
  aggregator-same a b e = rw (ap (λ (k : Key). k.3) e) refl

  module _ (axes : Axes V) (config wanted c : Item V) (same : key wanted ≡ key config)
      (m : matches c config ≡ true) where
    -- What is not found does not occur.
    absent :
        (id : AxisId) (ids : List AxisId)
        → find_on (id ∷ ids) axes wanted ≡ none
        → occurrences c (items_on axes id) ≡ 0
    absent id ids h =
        occurrences-same c wanted (items_on axes id) ((matches-key c config).0 m ∙ sym same)
        ∙ (find_on-none id ids axes wanted h).0

    absent-shown :
        IsWellFormed axes
        → find_on (shown_axes (truthy config.aggregator)) axes wanted ≡ none
        → occurrences_shown axes c ≡ 0
    unfolding items_on
    absent-shown w h = elim (Bool-cases (truthy config.aggregator)) [
      | inl e ↦
          let only : find_on (cells ∷ []) axes wanted ≡ none = rw e at h in
          omega (
            arith,
            absent cells [] only,
            w.aggregated c (aggregator-same c config ((matches-key c config).0 m) ∙ e),
          )
      | inr e ↦
          let all : find_on (columns ∷ rows ∷ cells ∷ []) axes wanted ≡ none = rw e at h in
          let two = (find_on-none columns (rows ∷ cells ∷ []) axes wanted all).1 in
          let one = (find_on-none rows (cells ∷ []) axes wanted two).1 in
          omega (
            arith,
            absent columns (rows ∷ cells ∷ []) all,
            absent rows (cells ∷ []) two,
            absent cells [] one,
          )
    ]

  pub placed-shown :
      (axes axes' : Axes V) (config wanted : Item V) (id : AxisId)
      → IsWellFormed axes
      → id ≢ filters
      → find_on (shown_axes (truthy config.aggregator)) axes wanted ≡ none
      → key wanted ≡ key config
      → (truthy config.aggregator ≡ true → (id ≢ columns) × (id ≢ rows))
      → ((j : AxisId) (c : Item V)
          → occurrences c (items_on axes' j)
            ≡ count_on id j (matches c config) + occurrences c (items_on axes j))
      → IsWellFormed axes'
  unfolding items_on same_axis
  placed-shown axes axes' config wanted id w shown h same places counts = record {
    once_shown = λ c. ground (
      arith,
      counts columns c,
      counts rows c,
      counts cells c,
      w.once_shown c,
      λ (m : matches c config ≡ true). absent-shown axes config wanted c same m w h,
    );
    once_filtered = λ c. ground (arith, counts filters c, w.once_filtered c);
    aggregated = λ c t. ground (
      arith,
      counts columns c,
      counts rows c,
      w.aggregated c t,
      places,
      λ (m : matches c config ≡ true). aggregator-same c config ((matches-key c config).0 m),
    );
  }

  pub placed-filters :
      (axes axes' : Axes V) (config wanted : Item V)
      → IsWellFormed axes
      → find_on (filters ∷ []) axes wanted ≡ none
      → key wanted ≡ key config
      → ((j : AxisId) (c : Item V)
          → occurrences c (items_on axes' j)
            ≡ count_on filters j (matches c config) + occurrences c (items_on axes j))
      → IsWellFormed axes'
  unfolding items_on same_axis
  placed-filters axes axes' config wanted w h same counts = record {
    once_shown =
        λ c. omega (arith, counts columns c, counts rows c, counts cells c, w.once_shown c);
    once_filtered = λ c. ground (
      arith,
      counts filters c,
      w.once_filtered c,
      λ (m : matches c config ≡ true). absent axes config wanted c same m filters [] h,
    );
    aggregated = λ c t. omega (arith, counts columns c, counts rows c, w.aggregated c t);
  }

  -- An item that is moved.
  pub moved-IsWellFormed :
      (axes axes' : Axes V) (config : Item V) (id from : AxisId)
      → IsWellFormed axes
      → same_axis id filters ≡ same_axis from filters
      → (truthy config.aggregator ≡ true → (id ≢ columns) × (id ≢ rows))
      → ((j : AxisId) (c : Item V)
          → occurrences c (items_on axes' j) + count_on from j (matches c config)
            ≡ count_on id j (matches c config) + occurrences c (items_on axes j))
      → IsWellFormed axes'
  unfolding items_on same_axis
  moved-IsWellFormed axes axes' config id from w filtered places counts = record {
    once_shown =
        λ c. ground (arith, counts columns c, counts rows c, counts cells c, w.once_shown c);
    once_filtered = λ c. ground (arith, counts filters c, w.once_filtered c);
    aggregated = λ c t. ground (
      arith,
      counts columns c,
      counts rows c,
      w.aggregated c t,
      places,
      λ (m : matches c config ≡ true). aggregator-same c config ((matches-key c config).0 m),
    );
  }
