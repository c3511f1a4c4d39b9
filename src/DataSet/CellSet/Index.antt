-- ===== src/DataSet/CellSet/Index.antt =====
-- CellSet.js, `getCellIndex`: tuple coordinates to one linear index.
use huey.Base.{
  ℕ, zero, suc, ◌+◌, ◌*◌, ◌<◌, ◌≤◌, ◌≡◌, refl, ap, ap₂, Option, none, some, List, [], ◌∷◌, arith,
}
use native.Mathlib.Decide.{dec_lt}

-- The inner loop: the factor is multiplied by each known, non-zero tuple count downstream.
unfoldable pub scale : ℕ → List (Option ℕ) → ℕ
scale factor [] = factor
scale factor (none ∷ counts) = scale factor counts
scale factor (some zero ∷ counts) = scale factor counts
scale factor (some (suc n) ∷ counts) = scale (factor * suc n) counts

-- One tuple index for each tuple set, whose tuple counts these are.
unfoldable pub get_cell_index : List ℕ → List (Option ℕ) → ℕ
unfolding scale
get_cell_index [] counts = 0
get_cell_index (tuple_index ∷ indices) [] = 0
get_cell_index (tuple_index ∷ indices) (count ∷ counts) =
    scale tuple_index counts + get_cell_index indices counts

-- The number of positions of an axis: an empty or unknown axis has one.
abbrev pub axis_size : Option ℕ → ℕ
axis_size none = 1
axis_size (some zero) = 1
axis_size (some (suc n)) = suc n

-- The number of cells.
unfoldable pub grid_size : List (Option ℕ) → ℕ
grid_size [] = 1
grid_size (count ∷ counts) = axis_size count * grid_size counts

-- One index for each axis, each inside its axis.
abbrev pub InGrid : List ℕ → List (Option ℕ) → Type 0
InGrid [] [] = Unit
InGrid [] (count ∷ counts) = ⊥
InGrid (i ∷ is) [] = ⊥
InGrid (i ∷ is) (count ∷ counts) = (i < axis_size count) × InGrid is counts

scale-grid_size :
    (factor : ℕ) (counts : List (Option ℕ)) → scale factor counts ≡ factor * grid_size counts
unfolding scale grid_size
scale-grid_size factor [] = omega arith
scale-grid_size factor (none ∷ counts) = omega (arith, scale-grid_size factor counts)
scale-grid_size factor (some zero ∷ counts) = omega (arith, scale-grid_size factor counts)
scale-grid_size factor (some (suc n) ∷ counts) =
    grind (arith, scale-grid_size (factor * suc n) counts)

next_row : (p i j : ℕ) → i < j → i * p + p ≤ j * p
next_row p i j h = grind arith

row_bound : (p s i r : ℕ) → i < s → r < p → i * p + r < s * p
row_bound p s i r h k = omega (arith, next_row p i s h)

-- Two places in rows of the same width are one place.
same_row : (p i j r t : ℕ) → r < p → t < p → i * p + r ≡ j * p + t → (i ≡ j) × (r ≡ t)
same_row p i j r t hr ht e = elim (dec_lt i j) [
  | yes h ↦ absurd (omega (arith, next_row p i j h))
  | no h ↦ elim (dec_lt j i) [
    | yes k ↦ absurd (omega (arith, next_row p j i k))
    | no k ↦ let same : i ≡ j = omega arith in (same, omega (arith, ap (λ (x : ℕ). x * p) same))
  ]
]

-- Coordinates inside the grid give an index below the number of cells.
pub get_cell_index-lt-grid_size :
    (is : List ℕ) (counts : List (Option ℕ))
    → InGrid is counts
    → get_cell_index is counts < grid_size counts
unfolding get_cell_index grid_size
get_cell_index-lt-grid_size [] [] h = omega arith
get_cell_index-lt-grid_size [] (c ∷ counts) h = elim h [ ]
get_cell_index-lt-grid_size (i ∷ is) [] h = elim h [ ]
get_cell_index-lt-grid_size (i ∷ is) (c ∷ counts) h = rw (scale-grid_size i counts) (
    row_bound (grid_size counts) (axis_size c) i (get_cell_index is counts) h.0
      (get_cell_index-lt-grid_size is counts h.1))

-- Different coordinates inside the grid have different indices.
pub get_cell_index-injective :
    (is js : List ℕ) (counts : List (Option ℕ))
    → InGrid is counts
    → InGrid js counts
    → get_cell_index is counts ≡ get_cell_index js counts
    → is ≡ js
unfolding get_cell_index
get_cell_index-injective [] [] [] h k e = refl
get_cell_index-injective [] [] (c ∷ counts) h k e = refl
get_cell_index-injective [] (j ∷ js) [] h k e = elim k [ ]
get_cell_index-injective [] (j ∷ js) (c ∷ counts) h k e = elim h [ ]
get_cell_index-injective (i ∷ is) js [] h k e = elim h [ ]
get_cell_index-injective (i ∷ is) [] (c ∷ counts) h k e = elim k [ ]
get_cell_index-injective (i ∷ is) (j ∷ js) (c ∷ counts) h k e =
    let (first, rest) =
      same_row (grid_size counts) i j (get_cell_index is counts) (get_cell_index js counts)
        (get_cell_index-lt-grid_size is counts h.1) (get_cell_index-lt-grid_size js counts k.1)
        (omega (arith, scale-grid_size i counts, scale-grid_size j counts)) in
    ap₂ ◌∷◌ first (get_cell_index-injective is js counts h.1 k.1 rest)
