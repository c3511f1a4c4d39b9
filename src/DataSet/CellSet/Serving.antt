-- ===== src/DataSet/CellSet/Serving.antt =====
-- CellSet.js, `getCells`: which cells are served from the cache, and which are queried.
use huey.Base.{
  ℕ, suc, ◌⊎◌, ◌≡◌, refl, sym, ap, ◌∙◌, Bool, true, false, ◌&&◌, Option, none, some, List, [], ◌∷◌,
  ◌++◌, String, is_some, ◌==◌, if◌then◌else◌, arith, ==_iff, subst, Bool-cases, Option-cases, inl,
  inr,
}
use huey.Base.Result.{JsError, Result, ok, throw, Result-cases}
use huey.Base.JsMap
use huey.Base.JsMap.{JsMap}
use huey.Base.Sparse
use huey.Base.Sparse.{Sparse}
use huey.DataSet.CellSet.{Cell}
use huey.DataSet.CellSet.Index.{get_cell_index}
use huey.DataSet.CellSet.Fetch.{
  TupleSets, tuple_counts, has_position, has_value, scan_items, Progress, tuples_for_cell,
  note_tuples, serve_cell, serve, serve_all,
}

module _ {V : Type 0} where
  -- A cell with a value for each of the items.
  unfoldable pub has_values : Option (Cell V) → List String → Bool
  has_values none items = false
  has_values (some cell) [] = true
  has_values (some cell) (sql ∷ items) = has_value (some cell) sql && has_values (some cell) items

  abbrev no_cell : Option (Cell V)
  no_cell = none

  scan_items-none :
      (items : List String) (j : ℕ) (fetch : List ℕ) → (scan_items no_cell items j fetch).0 ≡ none
  unfolding scan_items has_value
  scan_items-none [] j fetch = refl
  scan_items-none (sql ∷ items) j fetch =
      scan_items-none items (suc j) (if has_position j fetch then fetch else fetch ++ j ∷ [])

  scan_items_complete :
      (cell : Cell V) (items : List String) (j : ℕ) (fetch : List ℕ)
      → has_values (some cell) items ≡ true
      → scan_items (some cell) items j fetch ≡ (some cell, fetch)
  unfolding scan_items has_values
  scan_items_complete cell [] j fetch h = refl
  scan_items_complete cell (sql ∷ items) j fetch h =
      let has : has_value (some cell) sql ≡ true = ground arith in
      rw has (scan_items_complete cell items (suc j) fetch (ground arith))

  scan_items_incomplete :
      (cell : Option (Cell V)) (items : List String) (j : ℕ) (fetch : List ℕ)
      → has_values cell items ≡ false
      → (scan_items cell items j fetch).0 ≡ none
  unfolding scan_items has_values
  scan_items_incomplete none items j fetch h = scan_items-none items j fetch
  scan_items_incomplete (some cell) [] j fetch h = absurd (ground arith)
  scan_items_incomplete (some cell) (sql ∷ items) j fetch h =
      elim (Bool-cases (has_value (some cell) sql)) [
        | inl has ↦
            rw (has, scan_items)
              (scan_items_incomplete (some cell) items (suc j) fetch (ground arith))
        | inr lacks ↦
            rw (lacks, scan_items)
              (scan_items-none items (suc j)
                (if has_position j fetch then fetch else fetch ++ j ∷ []))
      ]

module _ {V W T : Type 0} (tuple_sets : TupleSets W T) (items : List String)
    (cells : Sparse (Cell V)) where
  -- The cells that are served are those of the cache and complete; those that are queried are not
  -- complete there.
  pub record IsServed (p : Progress V T) : Type 0 where
    pub from_cache :
        (k : ℕ) (cell : Cell V)
        → JsMap.get p.available_cells k ≡ some cell
        → (Sparse.get cells k ≡ some cell) × (has_values (some cell) items ≡ true)
    pub queried :
        (k : ℕ)
        → is_some (JsMap.get p.tuples_to_query k) ≡ true
        → has_values (Sparse.get cells k) items ≡ false

  abbrev pub index_of : W → List ℕ → ℕ
  index_of w indices = get_cell_index indices (tuple_counts (tuple_sets.axes w))

  returned :
      {w w' : W} {p p' : Progress V T}
      → ◌≡◌ {A = W × Result (Progress V T)} (w, ok p) (w', ok p')
      → p ≡ p'
  returned e = cc

  pub no_values : {o : Option (Cell V)} → o ≡ none → has_values o items ≡ true → ⊥
  unfolding has_values
  no_values e h =
      let never : false ≡ true = subst (λ (x : Option (Cell V)). has_values x items ≡ true) e h in
      absurd (ground arith)

  served :
      (w : W) (p : Progress V T) (indices : List ℕ) (cell : Cell V)
      → Sparse.get cells (index_of w indices) ≡ some cell
      → has_values (some cell) items ≡ true
      → serve tuple_sets items cells w p indices ≡ (
        w,
        ok (record p { available_cells = JsMap.set p.available_cells (index_of w indices) cell }),
      )
  unfolding serve serve_cell
  served w p indices cell e h =
      ap
        (λ (found : Option (Cell V) × List ℕ).
          serve_cell tuple_sets items cells w p (index_of w indices) indices found)
        (ap (λ (c : Option (Cell V)). scan_items c items 0 p.cells_axis_items_to_fetch) e
          ∙ scan_items_complete cell items 0 p.cells_axis_items_to_fetch h)

  -- What a combination that is not served leaves: the cells that are served as they were, and at
  -- most its own tuples more to query.
  abbrev Missed : ℕ → Progress V T → Progress V T → Type 0
  Missed k p p' =
      (p'.available_cells ≡ p.available_cells)
      × ((p'.tuples_to_query ≡ p.tuples_to_query)
          ⊎ ((tuples : List (ℕ × T)) × (p'.tuples_to_query ≡ JsMap.set p.tuples_to_query k tuples)))

  noted :
      (p : Progress V T) (k : ℕ) (fetch : List ℕ) (found : W × Result (List (ℕ × T))) (w' : W)
      (p' : Progress V T)
      → note_tuples tuple_sets items cells p k fetch found ≡ (w', ok p')
      → Missed k p p'
  unfolding note_tuples
  noted p k fetch (w, throw x) w' p' e = absurd (ground arith)
  noted p k fetch (w, ok []) w' p' e =
      let same : record p { cells_axis_items_to_fetch = fetch } ≡ p' = cc in
      (
        sym (ap (λ (q : Progress V T). q.available_cells) same),
        inl (sym (ap (λ (q : Progress V T). q.tuples_to_query) same)),
      )
  noted p k fetch (w, ok (t ∷ tuples)) w' p' e =
      let same : record p {
        tuples_to_query = JsMap.set p.tuples_to_query k (t ∷ tuples);
        cells_axis_items_to_fetch = fetch;
      }
          ≡ p' =
        cc in
      (
        sym (ap (λ (q : Progress V T). q.available_cells) same),
        inr (t ∷ tuples, sym (ap (λ (q : Progress V T). q.tuples_to_query) same)),
      )

  missing :
      (w : W) (p : Progress V T) (indices : List ℕ) (w' : W) (p' : Progress V T)
      → has_values (Sparse.get cells (index_of w indices)) items ≡ false
      → serve tuple_sets items cells w p indices ≡ (w', ok p')
      → Missed (index_of w indices) p p'
  unfolding serve serve_cell
  missing w p indices w' p' h e =
      let scanned =
        scan_items (Sparse.get cells (index_of w indices)) items 0 p.cells_axis_items_to_fetch in
      noted p (index_of w indices) scanned.1 (tuples_for_cell tuple_sets w 0 indices) w' p' (
        ap
          (λ (o : Option (Cell V)).
            serve_cell tuple_sets items cells w p (index_of w indices) indices (o, scanned.1))
          (sym (
            scan_items_incomplete (Sparse.get cells (index_of w indices)) items 0
              p.cells_axis_items_to_fetch h))
        ∙ e)

  Missed-IsServed :
      (k : ℕ) (p p' : Progress V T)
      → IsServed p
      → has_values (Sparse.get cells k) items ≡ false
      → Missed k p p'
      → IsServed p'
  Missed-IsServed k p p' served h (same, inl kept) = record {
    from_cache = λ j cell e. served.from_cache j cell (rw (sym same) e);
    queried = λ j e. served.queried j (rw (sym kept) e);
  }
  Missed-IsServed k p p' served h (same, inr (tuples, more)) = record {
    from_cache = λ j cell e. served.from_cache j cell (rw (sym same) e);
    queried = λ j e.
        ground (arith, h, e, more, JsMap.get-set p.tuples_to_query k j tuples, served.queried j);
  }

  set-IsServed :
      (k : ℕ) (p : Progress V T) (cell : Cell V)
      → IsServed p
      → Sparse.get cells k ≡ some cell
      → has_values (some cell) items ≡ true
      → IsServed (record p { available_cells = JsMap.set p.available_cells k cell })
  set-IsServed k p cell served e h = record {
    from_cache = λ j c f. elim (Bool-cases (k == j)) [
      | inl here ↦
          let at : k ≡ j = (==_iff k j).0 here in
          let own : cell ≡ c = ground (arith, here, f, JsMap.get-set p.available_cells k j cell) in
          (
            ap (Sparse.get cells) (sym at) ∙ e ∙ ap some own,
            subst (λ (x : Cell V). has_values (some x) items ≡ true) own h,
          )
      | inr other ↦
          served.from_cache j c (ground (arith, other, f, JsMap.get-set p.available_cells k j cell))
    ];
    queried = served.queried;
  }

  serve-IsServed :
      (w : W) (p : Progress V T) (indices : List ℕ) (w' : W) (p' : Progress V T)
      → IsServed p
      → serve tuple_sets items cells w p indices ≡ (w', ok p')
      → IsServed p'
  serve-IsServed w p indices w' p' h e =
      let k = index_of w indices in
      elim (Bool-cases (has_values (Sparse.get cells k) items)) [
        | inr lacks ↦ Missed-IsServed k p p' h lacks (missing w p indices w' p' lacks e)
        | inl has ↦ elim (Option-cases (Sparse.get cells k)) [
          | inl gone ↦ absurd (no_values gone has)
          | inr (cell, there) ↦
              let complete : has_values (some cell) items ≡ true =
                subst (λ (o : Option (Cell V)). has_values o items ≡ true) there has in
              let same : record p { available_cells = JsMap.set p.available_cells k cell } ≡ p' =
                returned (sym (served w p indices cell there complete) ∙ e) in
              subst IsServed same (set-IsServed k p cell h there complete)
        ]
      ]

  serve_all-ok :
      (w : W) (p : Progress V T) (indices : List ℕ) (combinations : List (List ℕ))
      (q : Progress V T)
      → (serve tuple_sets items cells w p indices).1 ≡ ok q
      → serve_all tuple_sets items cells w p (indices ∷ combinations)
        ≡ serve_all tuple_sets items cells
            (serve tuple_sets items cells w p indices).0
            q
            combinations
  unfolding serve_all
  serve_all-ok w p indices combinations q e = rw (e, serve_all) refl

  serve_all-throw :
      (w : W) (p : Progress V T) (indices : List ℕ) (combinations : List (List ℕ)) (x : JsError)
      → (serve tuple_sets items cells w p indices).1 ≡ throw x
      → (serve_all tuple_sets items cells w p (indices ∷ combinations)).1 ≡ throw x
  unfolding serve_all
  serve_all-throw w p indices combinations x e = rw (e, serve_all) refl

  serve_all-IsServed :
      (combinations : List (List ℕ)) (w : W) (p : Progress V T) (w' : W) (p' : Progress V T)
      → IsServed p
      → serve_all tuple_sets items cells w p combinations ≡ (w', ok p')
      → IsServed p'
  unfolding serve_all
  serve_all-IsServed [] w p w' p' h e = subst IsServed (returned e) h
  serve_all-IsServed (indices ∷ combinations) w p w' p' h e =
      let first = serve tuple_sets items cells w p indices in
      elim (Result-cases first.1) [
        | inr (x, f) ↦ absurd (
            ground (
              arith,
              ap (λ (r : W × Result (Progress V T)). r.1) e,
              serve_all-throw w p indices combinations x f,
            ))
        | inl (q, f) ↦
            serve_all-IsServed combinations first.0 q w' p'
              (serve-IsServed w p indices first.0 q h
                (ap (λ (r : Result (Progress V T)). (first.0, r)) f))
              (sym (serve_all-ok w p indices combinations q f) ∙ e)
      ]

  abbrev pub begun : Progress V T
  begun = record { available_cells = []; tuples_to_query = []; cells_axis_items_to_fetch = [] }

  begun-IsServed : IsServed begun
  unfolding JsMap.get
  begun-IsServed = record {
    from_cache = λ k cell e. absurd (ground arith);
    queried = λ k e. absurd (ground arith);
  }

  -- Whatever the tuple sets answer, when the loop of `getCells` over the combinations ends
  -- without an error: each cell that is served is the one that the cache holds at its index
  -- and has a value for each item of the cells axis, and no cell that the query asks for is
  -- such a cell.
  pub serve_all-begun :
      (combinations : List (List ℕ)) (w w' : W) (p : Progress V T)
      → serve_all tuple_sets items cells w begun combinations ≡ (w', ok p)
      → IsServed p
  serve_all-begun combinations w w' p e =
      serve_all-IsServed combinations w begun w' p begun-IsServed e

  -- Every combination is one of a cell that the cache has complete.
  unfoldable pub all_complete : W → List (List ℕ) → Bool
  unfolding has_values tuple_counts
  all_complete w [] = true
  all_complete w (indices ∷ combinations) =
      has_values (Sparse.get cells (index_of w indices)) items && all_complete w combinations

  -- The cells of the cache, by the indices of the combinations.
  unfoldable pub collect_cells : W → JsMap (Cell V) → List (List ℕ) → JsMap (Cell V)
  unfolding tuple_counts
  collect_cells w available [] = available
  collect_cells w available (indices ∷ combinations) =
      elim (Sparse.get cells (index_of w indices)) as (λ x. JsMap (Cell V)) [
        | none ↦ collect_cells w available combinations
        | some cell ↦ collect_cells w (JsMap.set available (index_of w indices) cell) combinations
      ]

  pub serve_all_complete :
      (combinations : List (List ℕ)) (w : W) (p : Progress V T)
      → all_complete w combinations ≡ true
      → serve_all tuple_sets items cells w p combinations
        ≡ (w, ok (record p { available_cells = collect_cells w p.available_cells combinations }))
  unfolding all_complete collect_cells serve_all
  serve_all_complete [] w p h = refl
  serve_all_complete (indices ∷ combinations) w p h =
      let k = index_of w indices in
      elim (Option-cases (Sparse.get cells k)) [
        | inl gone ↦ absurd (no_values gone (ground arith))
        | inr (cell, there) ↦
            let complete : has_values (some cell) items ≡ true =
              subst (λ (o : Option (Cell V)). has_values o items ≡ true) there (ground arith) in
            let q = record p { available_cells = JsMap.set p.available_cells k cell } in
            let one = served w p indices cell there complete in
            serve_all-ok w p indices combinations q
              (ap (λ (r : W × Result (Progress V T)). r.1) one)
            ∙ ap
                (λ (r : W × Result (Progress V T)).
                  serve_all tuple_sets items cells r.0 q combinations)
                one
            ∙ serve_all_complete combinations w q (ground arith)
            ∙ rw (there, collect_cells) refl
      ]
