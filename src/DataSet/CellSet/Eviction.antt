-- ===== src/DataSet/CellSet/Eviction.antt =====
-- CellSet.js, `#enforceCacheLimits`: what is evicted is the cells that were accessed longest ago.
use huey.Base.{
  ℕ, zero, suc, ◌<◌, ◌≤◌, ◌≡◌, refl, ◌∙◌, true, false, none, some, List, [], ◌∷◌, String, arith,
  length, ltb, Option-cases, Bool-cases, ◌⊎◌, inl, inr,
}
use huey.Base.JsMap
use huey.Base.JsMap.{JsMap, IsUnique}
use huey.Base.Sparse
use huey.Base.Sparse.{Sparse}
use huey.DataSet.CellSet.{
  Cell, CellSet, remove_cell, over_limits, oldest, evict, enforce_cache_limits, extract_rows,
  extract_cells,
}
use huey.DataSet.CellSet.Cache.{IsConsistent, remove_cell-IsConsistent}
use huey.DataSet.CellSet.Rows.{extract_rows-IsConsistent}

-- `r` is an entry of the map, and no entry has a smaller timestamp.
pub record IsLeast (m : JsMap ℕ) (r : ℕ × ℕ) : Type 0 where
  pub found : JsMap.get m r.0 ≡ some r.1
  pub least : (k n : ℕ) → JsMap.get m k ≡ some n → r.1 ≤ n

oldest_lem :
    (m : JsMap ℕ) (i a : ℕ)
    → IsUnique m
    → (r : ℕ × ℕ) × (oldest m (some (i, a)) ≡ some r)
      × (r.1 ≤ a)
      × ((k n : ℕ) → JsMap.get m k ≡ some n → r.1 ≤ n)
      × ((r ≡ (i, a)) ⊎ (JsMap.get m r.0 ≡ some r.1))
unfolding oldest JsMap.get IsUnique
oldest_lem [] i a u = ((i, a), refl, omega arith, λ k n e. cc, inl refl)
oldest_lem ((j, b) ∷ m) i a u = elim (Bool-cases (ltb b a)) [
  | inl e ↦
      let (r, f, low, least, at) = oldest_lem m j b u.1 in
      (
        r,
        rw e f,
        ground arith,
        λ k n h. ground (arith, least k n),
        elim at [ inl g ↦ inr (ground arith) | inr g ↦ inr (ground (arith, u.0)) ],
      )
  | inr e ↦
      let (r, f, low, least, at) = oldest_lem m i a u.1 in
      (
        r,
        rw e f,
        low,
        λ k n h. ground (arith, least k n),
        elim at [ inl g ↦ inl g | inr g ↦ inr (ground (arith, u.0)) ],
      )
]

-- The first entry with the smallest timestamp is found when there is one.
oldest-IsLeast :
    (m : JsMap ℕ) → IsUnique m → (m ≡ []) ⊎ ((r : ℕ × ℕ) × (oldest m none ≡ some r) × IsLeast m r)
unfolding oldest JsMap.get IsUnique
oldest-IsLeast [] u = inl refl
oldest-IsLeast ((j, b) ∷ m) u =
    let (r, f, low, least, at) = oldest_lem m j b u.1 in
    inr (
      r,
      f,
      record {
        found = elim at [ inl g ↦ ground arith | inr g ↦ ground (arith, u.0) ];
        least = λ k n h. ground (arith, least k n);
      },
    )

-- `t` is `s` after an eviction.
pub record KeepsNewest {V : Type 0} (s t : CellSet V) : Type 0 where
  pub consistent : IsConsistent t
  pub within : (over_limits t ≡ false) ⊎ (t.cell_access_timestamps ≡ [])
  pub kept :
      (j n : ℕ)
      → JsMap.get t.cell_access_timestamps j ≡ some n
      → (JsMap.get s.cell_access_timestamps j ≡ some n)
        × (Sparse.get t.cells j ≡ Sparse.get s.cells j)
  pub newest :
      (i j m n : ℕ)
      → JsMap.get s.cell_access_timestamps i ≡ some m
      → JsMap.get t.cell_access_timestamps i ≡ none
      → JsMap.get t.cell_access_timestamps j ≡ some n
      → m ≤ n
  pub idle : over_limits s ≡ false → t ≡ s

module _ {V : Type 0} where
  stays :
      (s : CellSet V)
      → IsConsistent s
      → (over_limits s ≡ false) ⊎ (s.cell_access_timestamps ≡ [])
      → KeepsNewest s s
  stays s c w = record {
    consistent = c;
    within = w;
    kept = λ j n e. (e, refl);
    newest = λ i j m n e f g. cc;
    idle = λ h. refl;
  }

  remove_cell-maps :
      (s : CellSet V) (k : ℕ)
      → ((remove_cell s k).cell_access_timestamps ≡ JsMap.delete s.cell_access_timestamps k)
        × ((remove_cell s k).cells ≡ Sparse.set s.cells k none)
  unfolding remove_cell
  remove_cell-maps s k = elim (Option-cases (JsMap.get s.cell_serialized_sizes k)) [
    | inl e ↦ rw (e, remove_cell) (refl, refl)
    | inr (n, e) ↦ rw (e, remove_cell) (refl, refl)
  ]

  evict_within : (fuel : ℕ) (s : CellSet V) → over_limits s ≡ false → evict fuel s ≡ s
  unfolding evict
  evict_within zero s h = refl
  evict_within (suc fuel) s h = rw (h, evict)

  evict_empty : (fuel : ℕ) (s : CellSet V) → s.cell_access_timestamps ≡ [] → evict fuel s ≡ s
  unfolding evict oldest
  evict_empty zero s h = refl
  evict_empty (suc fuel) s h = ground arith

  evict_step :
      (fuel : ℕ) (s : CellSet V) (r : ℕ × ℕ)
      → over_limits s ≡ true
      → oldest s.cell_access_timestamps none ≡ some r
      → evict (suc fuel) s ≡ evict fuel (remove_cell s r.0)
  unfolding evict
  evict_step fuel s r h e = ground arith

  -- The oldest cell leaves, and the loop goes on.
  step :
      (s t : CellSet V) (r : ℕ × ℕ)
      → over_limits s ≡ true
      → IsLeast s.cell_access_timestamps r
      → KeepsNewest (remove_cell s r.0) t
      → KeepsNewest s t
  step s t r over least v =
      let (stamps, cells) = remove_cell-maps s r.0 in
      let before : (j n : ℕ)
          → JsMap.get (remove_cell s r.0).cell_access_timestamps j ≡ some n
          → (JsMap.get s.cell_access_timestamps j ≡ some n)
            × (Sparse.get (remove_cell s r.0).cells j ≡ Sparse.get s.cells j) =
        λ j n e. ground (
          arith,
          stamps,
          cells,
          JsMap.get-delete s.cell_access_timestamps r.0 j,
          Sparse.get-set s.cells r.0 j none,
        ) in
      record {
        consistent = v.consistent;
        within = v.within;
        kept = λ j n e. let (f, g) = v.kept j n e in let (f', g') = before j n f in (f', g ∙ g');
        newest = λ i j m n e f g. ground (
          arith,
          stamps,
          JsMap.get-delete s.cell_access_timestamps r.0 i,
          least.found,
          least.least j n (before j n (v.kept j n g).0).0,
          v.newest i j m n,
        );
        idle = λ h. cc;
      }

  evict_lem :
      (fuel : ℕ) (s : CellSet V)
      → IsConsistent s
      → length s.cell_access_timestamps < fuel
      → KeepsNewest s (evict fuel s)
  evict_lem zero s c h = absurd (omega arith)
  evict_lem (suc fuel) s c h = elim (Bool-cases (over_limits s)) [
    | inr e ↦ rw (evict_within (suc fuel) s e) (stays s c (inl e))
    | inl e ↦ elim (oldest-IsLeast s.cell_access_timestamps c.stamps_unique) [
      | inl o ↦ rw (evict_empty (suc fuel) s o) (stays s c (inr o))
      | inr (r, f, least) ↦
          let shorter : length (remove_cell s r.0).cell_access_timestamps < fuel =
            rw ((remove_cell-maps s r.0).0) (
              omega (
                arith,
                JsMap.length-delete s.cell_access_timestamps r.0 r.1 c.stamps_unique least.found,
              )) in
          rw (evict_step fuel s r e f) (
            step s (evict fuel (remove_cell s r.0)) r e least
              (evict_lem fuel (remove_cell s r.0) (remove_cell-IsConsistent s r.0 c) shorter))
    ]
  ]

  pub enforce_cache_limits-KeepsNewest :
      (s : CellSet V) → IsConsistent s → KeepsNewest s (enforce_cache_limits s)
  unfolding enforce_cache_limits
  enforce_cache_limits-KeepsNewest s c =
      evict_lem (suc (length s.cell_access_timestamps)) s c (omega arith)

-- A result set that is read into a consistent cell cache, where the JSON text of a cell is at
-- least as long as its braces, leaves it consistent, and within both limits or empty; of the
-- cells that the cache held with the result set read, those that are left have timestamps no
-- smaller than those that left, and keep their values, and all are left when the limits were
-- not passed.
pub extract_cells-KeepsNewest :
    {V : Type 0} (json_cell_size : ℕ → Cell V → ℕ)
    (braces : (k : ℕ) (cell : Cell V) → 2 ≤ json_cell_size k cell) (index_field : String)
    (fields : List String) (rows : List (ℕ × (String → V))) (s : CellSet V)
    → IsConsistent s
    → KeepsNewest
        (extract_rows json_cell_size index_field fields rows s)
        (extract_cells json_cell_size index_field fields rows s)
unfolding extract_cells
extract_cells-KeepsNewest json_cell_size braces index_field fields rows s c =
    enforce_cache_limits-KeepsNewest (extract_rows json_cell_size index_field fields rows s)
      (extract_rows-IsConsistent json_cell_size braces index_field fields rows s c)
