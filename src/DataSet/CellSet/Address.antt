-- ===== src/DataSet/CellSet/Address.antt =====
-- CellSet.js: the cells of a request, addressed by `getTupleRanges` and `getCellIndex`.
use huey.Base.{
  ℕ, zero, suc, ◌+◌, ◌-◌, ◌<◌, ◌≤◌, ◌≡◌, refl, ap, Option, List, [], ◌∷◌, ◌++◌, map, arith, length,
  ◌⊎◌, inl, inr, ◌↔◌, is_some, true,
}
use native.Mathlib.Decide.{dec_lt}
use huey.Base.Result.{ok}
use huey.DataSet.CellSet.Index.{
  get_cell_index, grid_size, axis_size, InGrid, get_cell_index-lt-grid_size,
  get_cell_index-injective,
}
use huey.DataSet.CellSet.Ranges.{
  AxisInfo, clip_to, bounds, count_up, gather, cartesian, get_tuple_ranges,
  get_tuple_ranges-cartesian,
}

abbrev pub In : {A : Type 0} → A → List A → Type 0
In a [] = ⊥
In a (x ∷ xs) = (a ≡ x) ⊎ In a xs

-- One index for each bound, from its start to before its end.
abbrev pub Between : List ℕ → List (ℕ × ℕ) → Type 0
Between [] [] = Unit
Between [] (b ∷ bs) = ⊥
Between (i ∷ is) [] = ⊥
Between (i ∷ is) ((from, to) ∷ bs) = ((from ≤ i) × (i < to)) × Between is bs

In-append : {A : Type 0} (a : A) (xs ys : List A) → (In a xs ⊎ In a ys) → In a (xs ++ ys)
In-append a [] ys (inl h) = elim h [ ]
In-append a [] ys (inr h) = h
In-append a (x ∷ xs) ys (inl (inl e)) = inl e
In-append a (x ∷ xs) ys (inl (inr h)) = inr (In-append a xs ys (inl h))
In-append a (x ∷ xs) ys (inr h) = inr (In-append a xs ys (inr h))

append-In : {A : Type 0} (a : A) (xs ys : List A) → In a (xs ++ ys) → In a xs ⊎ In a ys
append-In a [] ys h = inr h
append-In a (x ∷ xs) ys (inl e) = inl (inl e)
append-In a (x ∷ xs) ys (inr h) = elim (append-In a xs ys h) [ inl k ↦ inl (inr k) | inr k ↦ inr k ]

In-map : (i : ℕ) (is : List ℕ) (ls : List (List ℕ)) → In is ls → In (i ∷ is) (map (◌∷◌ i) ls)
In-map i is [] h = elim h [ ]
In-map i is (l ∷ ls) (inl e) = inl (ap (◌∷◌ i) e)
In-map i is (l ∷ ls) (inr h) = inr (In-map i is ls h)

map-In :
    (i : ℕ) (is : List ℕ) (ls : List (List ℕ))
    → In is (map (◌∷◌ i) ls)
    → (js : List ℕ) × (is ≡ i ∷ js) × In js ls
map-In i is [] h = elim h [ ]
map-In i is (l ∷ ls) (inl e) = (l, e, inl refl)
map-In i is (l ∷ ls) (inr h) = let (js, e, k) = map-In i is ls h in (js, e, inr k)

In-gather :
    (g : ℕ → List (List ℕ)) (n from i : ℕ) (is : List ℕ)
    → from ≤ i
    → i < from + n
    → In is (g i)
    → In is (gather g (count_up n from))
unfolding gather count_up
In-gather g zero from i is low high h = absurd (omega arith)
In-gather g (suc n) from i is low high h = elim (dec_lt from i) [
  | yes more ↦
      In-append is (g from) (gather g (count_up n (suc from)))
        (inr (In-gather g n (suc from) i is more (omega arith) h))
  | no last ↦
      let here : i ≡ from = omega arith in
      In-append is (g from) (gather g (count_up n (suc from))) (inl (rw here at h))
]

gather-In :
    (g : ℕ → List (List ℕ)) (n from : ℕ) (is : List ℕ)
    → In is (gather g (count_up n from))
    → (i : ℕ) × (from ≤ i) × (i < from + n) × In is (g i)
unfolding gather count_up
gather-In g zero from is h = elim h [ ]
gather-In g (suc n) from is h = elim (append-In is (g from) (gather g (count_up n (suc from))) h) [
  | inl k ↦ (from, omega arith, omega arith, k)
  | inr k ↦
      let (i, low, high, found) = gather-In g n (suc from) is k in
      (i, omega arith, omega arith, found)
]

cartesian-Between : (bs : List (ℕ × ℕ)) (is : List ℕ) → In is (cartesian bs) → Between is bs
unfolding cartesian
cartesian-Between [] is (inl e) = rw e tt
cartesian-Between [] is (inr h) = elim h [ ]
cartesian-Between ((from, to) ∷ bs) is h =
    let (i, low, high, found) = gather-In (λ i. map (◌∷◌ i) (cartesian bs)) (to - from) from is h in
    let (js, e, k) = map-In i is (cartesian bs) found in
    rw e ((low, omega arith), cartesian-Between bs js k)

Between-cartesian : (bs : List (ℕ × ℕ)) (is : List ℕ) → Between is bs → In is (cartesian bs)
unfolding cartesian
Between-cartesian [] [] h = inl refl
Between-cartesian [] (i ∷ is) h = elim h [ ]
Between-cartesian (b ∷ bs) [] h = elim h [ ]
Between-cartesian ((from, to) ∷ bs) (i ∷ is) h =
    In-gather (λ i. map (◌∷◌ i) (cartesian bs)) (to - from) from i (i ∷ is) h.0.0
      (omega (arith, h.0)) (In-map i is (cartesian bs) (Between-cartesian bs is h.1))

-- The tuple counts are loaded; an axis without items needs none.
abbrev pub AllKnown : List AxisInfo → Type 0
AllKnown [] = Unit
AllKnown (axis ∷ axes) = ((is_some axis.tuple_count ≡ true) ⊎ (axis.item_count ≡ 0)) × AllKnown axes

abbrev pub counts_of : List AxisInfo → List (Option ℕ)
counts_of [] = []
counts_of (axis ∷ axes) = axis.tuple_count ∷ counts_of axes

clip_to-le :
    (axis : AxisInfo) (from to : ℕ)
    → (is_some axis.tuple_count ≡ true) ⊎ (axis.item_count ≡ 0)
    → clip_to axis from to ≤ axis_size axis.tuple_count
unfolding clip_to
clip_to-le axis from to h = ground arith

Between-InGrid :
    (axes : List AxisInfo) (ranges : List (ℕ × ℕ)) (is : List ℕ)
    → length axes ≡ length ranges
    → AllKnown axes
    → Between is (bounds axes ranges)
    → InGrid is (counts_of axes)
unfolding bounds
Between-InGrid [] ranges [] e k h = tt
Between-InGrid [] ranges (i ∷ is) e k h = elim h [ ]
Between-InGrid (axis ∷ axes) [] is e k h = absurd (omega arith)
Between-InGrid (axis ∷ axes) ((from, to) ∷ ranges) [] e k h = elim h [ ]
Between-InGrid (axis ∷ axes) ((from, to) ∷ ranges) (i ∷ is) e k h = (
  omega (arith, clip_to-le axis from to k.0, h.0),
  Between-InGrid axes ranges is (omega arith) k.1 h.1,
)

-- A request with one range for each tuple set, once the tuple counts are loaded, names cells
-- by combinations of indices that lie inside the clipped ranges, and all of those; each has an
-- index below the number of cells, and two different combinations have different indices.
pub get_tuple_ranges-cells :
    (axes : List AxisInfo) (ranges : List (ℕ × ℕ))
    → length axes ≡ length ranges
    → AllKnown axes
    → (combinations : List (List ℕ)) × (get_tuple_ranges axes ranges [] [] ≡ ok combinations)
      × ((is : List ℕ) → In is combinations ↔ Between is (bounds axes ranges))
      × ((is : List ℕ)
          → In is combinations
          → get_cell_index is (counts_of axes) < grid_size (counts_of axes))
      × ((is js : List ℕ)
          → In is combinations
          → In js combinations
          → get_cell_index is (counts_of axes) ≡ get_cell_index js (counts_of axes)
          → is ≡ js)
get_tuple_ranges-cells axes ranges e k =
    let inside = λ (is : List ℕ) (h : In is (cartesian (bounds axes ranges))).
      Between-InGrid axes ranges is e k (cartesian-Between (bounds axes ranges) is h) in
    (
      cartesian (bounds axes ranges),
      get_tuple_ranges-cartesian axes ranges e,
      λ is. (cartesian-Between (bounds axes ranges) is, Between-cartesian (bounds axes ranges) is),
      λ is h. get_cell_index-lt-grid_size is (counts_of axes) (inside is h),
      λ is js h h'. get_cell_index-injective is js (counts_of axes) (inside is h) (inside js h'),
    )
