-- ===== src/DataSet/CellSet/Ranges.antt =====
-- CellSet.js, `getTupleRanges`: ranges of tuple indices to all combinations of tuple indices.
use huey.Base.{
  ℕ, zero, suc, ◌-◌, ◌<◌, ◌≤◌, ◌≡◌, refl, sym, ap, ◌∙◌, ◌&&◌, Option, none, some, List, [], ◌∷◌,
  ◌++◌, map, arith, length, get_elem?, drop, length-drop, ltb, leb, ◌==◌, if◌then◌else◌,
}
use mathlib.Core.List.{append-nil, append_assoc, map-append}
use mathlib.Core.Path.{fun_ext}
use huey.Base.Result.{Result, ok, throw, type_error, ◌>>=◌}

-- What is read of a tuple set: `getTupleCountSync()` and the number of items of its axis.
pub record AxisInfo : Type 0 where
  pub tuple_count : Option ℕ
  pub item_count : ℕ

-- The end of a range, in one tuple set: an empty axis has one synthetic coordinate, an empty range
-- at 0 stands for the first tuple, and no range goes past the tuple count.
unfoldable pub clip_to : AxisInfo → ℕ → ℕ → ℕ
clip_to axis from to =
    let tuple_count : Option ℕ = elim axis.tuple_count [
      | none ↦ if axis.item_count == 0 then some 1 else none
      | some n ↦ if (n == 0) && (axis.item_count == 0) then some 1 else some n
    ] in
    let to' = if (from == 0) && (to == 0) then 1 else to in
    elim tuple_count [ none ↦ to' | some n ↦ if ltb n to' then n else to' ]

-- `for (let i = from; i < to; i++)` for the rounds left.
unfoldable pub for_each :
    ℕ → ℕ → (ℕ → List (List ℕ) → Result (List (List ℕ))) → List (List ℕ) → Result (List (List ℕ))
for_each zero i body all = ok all
for_each (suc n) i body all = do all' ← body i all; for_each n (suc i) body all'

-- `tupleSets[numTupleSets - numRanges]`
unfoldable pub tuple_set_at : List AxisInfo → ℕ → Option AxisInfo
tuple_set_at tuple_sets num_ranges =
    if leb num_ranges (length tuple_sets)
    then get_elem? tuple_sets (length tuple_sets - num_ranges)
    else none

unfoldable pub get_tuple_ranges :
    List AxisInfo → List (ℕ × ℕ) → List ℕ → List (List ℕ) → Result (List (List ℕ))
unfolding clip_to for_each tuple_set_at
get_tuple_ranges tuple_sets [] previous all = ok (all ++ previous ∷ [])
get_tuple_ranges tuple_sets ((from, to) ∷ ranges) previous all =
    let recur = get_tuple_ranges tuple_sets ranges in
    elim (tuple_set_at tuple_sets (suc (length ranges))) [
      | none ↦ throw type_error
      | some axis ↦
          for_each (clip_to axis from to - from) from (λ i all'. recur (previous ++ i ∷ []) all')
            all
    ]

-- The bounds that each axis contributes, when there is one range for each tuple set.
unfoldable pub bounds : List AxisInfo → List (ℕ × ℕ) → List (ℕ × ℕ)
bounds (axis ∷ axes) ((from, to) ∷ ranges) = (from, clip_to axis from to) ∷ bounds axes ranges
bounds axes ranges = []

-- `i`, `i + 1`, … for `n` numbers.
unfoldable pub count_up : ℕ → ℕ → List ℕ
count_up zero i = []
count_up (suc n) i = i ∷ count_up n (suc i)

unfoldable pub gather : (ℕ → List (List ℕ)) → List ℕ → List (List ℕ)
gather g [] = []
gather g (i ∷ is) = g i ++ gather g is

-- Every choice of one index from each bound, the last axis fastest.
unfoldable pub cartesian : List (ℕ × ℕ) → List (List ℕ)
unfolding count_up gather
cartesian [] = [] ∷ []
cartesian ((from, to) ∷ rest) =
    gather (λ i. map (◌∷◌ i) (cartesian rest)) (count_up (to - from) from)

map-gather :
    (f : List ℕ → List ℕ) (g : ℕ → List (List ℕ)) (is : List ℕ)
    → map f (gather g is) ≡ gather (λ i. map f (g i)) is
unfolding gather
map-gather f g [] = refl
map-gather f g (i ∷ is) =
    map-append f (g i) (gather g is)
    ∙ ap (λ (l : List (List ℕ)). map f (g i) ++ l) (map-gather f g is)

map-prefix :
    (previous : List ℕ) (i : ℕ) (ls : List (List ℕ))
    → map (λ (l : List ℕ). previous ++ l) (map (◌∷◌ i) ls)
      ≡ map (λ (l : List ℕ). (previous ++ i ∷ []) ++ l) ls
map-prefix previous i [] = refl
map-prefix previous i (l ∷ ls) = rw (map-prefix previous i ls, append_assoc)

for_each-gather :
    (n i : ℕ) (body : ℕ → List (List ℕ) → Result (List (List ℕ))) (g : ℕ → List (List ℕ))
    → ((j : ℕ) (all : List (List ℕ)) → body j all ≡ ok (all ++ g j))
    → (all : List (List ℕ)) → for_each n i body all ≡ ok (all ++ gather g (count_up n i))
unfolding for_each gather count_up
for_each-gather zero i body g h all = rw append-nil
for_each-gather (suc n) i body g h all =
    rw (h i all) (rw (for_each-gather n (suc i) body g h (all ++ g i), append_assoc))

drop_cons :
    (sets : List AxisInfo) (k : ℕ) (axis : AxisInfo) (axes : List AxisInfo)
    → drop k sets ≡ axis ∷ axes
    → (get_elem? sets k ≡ some axis) × (drop (suc k) sets ≡ axes)
drop_cons [] zero axis axes h = cc
drop_cons [] (suc k) axis axes h = cc
drop_cons (s ∷ sets) zero axis axes h = (ground arith, ground arith)
drop_cons (s ∷ sets) (suc k) axis axes h = drop_cons sets k axis axes h

map_nothing : (ls : List (List ℕ)) → map (λ (l : List ℕ). [] ++ l) ls ≡ ls
map_nothing [] = refl
map_nothing (l ∷ ls) = rw (map_nothing ls)

get_elem?-lt :
    (sets : List AxisInfo) (k : ℕ) (axis : AxisInfo)
    → get_elem? sets k ≡ some axis
    → k < length sets
get_elem?-lt [] k axis h = cc
get_elem?-lt (s ∷ sets) zero axis h = omega arith
get_elem?-lt (s ∷ sets) (suc k) axis h = omega (arith, get_elem?-lt sets k axis h)

tuple_set_at_lem :
    (sets : List AxisInfo) (k n : ℕ) (axis : AxisInfo) (axes : List AxisInfo)
    → get_elem? sets k ≡ some axis
    → drop (suc k) sets ≡ axes
    → length axes ≡ n
    → tuple_set_at sets (suc n) ≡ some axis
unfolding tuple_set_at
tuple_set_at_lem sets k n axis axes found rest e =
    let below = get_elem?-lt sets k axis found in
    let left = length-drop (suc k) sets in
    let size = ap (λ (l : List AxisInfo). length l) rest in
    let place : length sets - suc n ≡ k = omega arith in
    let enough : suc n ≤ length sets = omega arith in rw place (ground arith)

-- The recursion, at the last tuple sets, one for each range that is left.
ranges_lem :
    (sets axes : List AxisInfo) (ranges : List (ℕ × ℕ)) (k : ℕ) (previous : List ℕ)
    (all : List (List ℕ))
    → drop k sets ≡ axes
    → length axes ≡ length ranges
    → get_tuple_ranges sets ranges previous all
      ≡ ok (all ++ map (λ (l : List ℕ). previous ++ l) (cartesian (bounds axes ranges)))
unfolding get_tuple_ranges cartesian bounds
ranges_lem sets [] [] k previous all d e = rw append-nil
ranges_lem sets [] (r ∷ ranges) k previous all d e = absurd (omega arith)
ranges_lem sets (axis ∷ axes) [] k previous all d e = absurd (omega arith)
ranges_lem sets (axis ∷ axes) ((from, to) ∷ ranges) k previous all d e =
    let (found, rest) = drop_cons sets k axis axes d in
    let at : tuple_set_at sets (suc (length ranges)) ≡ some axis =
      tuple_set_at_lem sets k (length ranges) axis axes found rest (omega arith) in
    let C = cartesian (bounds axes ranges) in
    rw (at, get_tuple_ranges)
      (for_each-gather (clip_to axis from to - from) from _
          (λ i. map (λ (l : List ℕ). (previous ++ i ∷ []) ++ l) C)
          (λ j all'.
            ranges_lem sets axes ranges (suc k) (previous ++ j ∷ []) all' rest (omega arith))
          all
        ∙ ap (λ (l : List (List ℕ)). ok (all ++ l))
            (sym (
              map-gather (λ (l : List ℕ). previous ++ l) (λ i. map (◌∷◌ i) C)
                (count_up (clip_to axis from to - from) from)
              ∙ ap
                  (λ (g : ℕ → List (List ℕ)).
                    gather g (count_up (clip_to axis from to - from) from))
                  (fun_ext (λ i. map-prefix previous i C)))))

-- With one range for each tuple set, `getTupleRanges` yields every combination of the clipped
-- ranges once each, in row-major order.
pub get_tuple_ranges-cartesian :
    (sets : List AxisInfo) (ranges : List (ℕ × ℕ))
    → length sets ≡ length ranges
    → get_tuple_ranges sets ranges [] [] ≡ ok (cartesian (bounds sets ranges))
get_tuple_ranges-cartesian sets ranges e =
    ranges_lem sets sets ranges 0 [] [] refl e
    ∙ ap ok (map_nothing (cartesian (bounds sets ranges)))
