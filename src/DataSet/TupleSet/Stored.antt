-- ===== src/DataSet/TupleSet/Stored.antt =====
-- TupleSet.js, `#loadTuples`: what the cache holds after a page has been loaded.
use huey.Base.{
  ℕ, zero, suc, ◌+◌, ◌-◌, ◌≡◌, refl, ap, ◌∙◌, Bool, ◌&&◌, none, some, List, [], ◌∷◌, String, arith,
  length, get_elem?, take, drop, ltb, leb, ◌==◌, if◌then◌else◌,
}
use huey.Base.Result.{ok}
use huey.Base.Sparse
use huey.Base.Sparse.{Sparse}
use huey.DataSet.TupleSet.{Tuple, TupleSet, touch_tuple, store_tuple}
use huey.DataSet.TupleSet.Load.{to_tuple, load_rows}
use huey.DataSet.TupleSet.Cache.{IsConsistent, store_and_touch, store-IsConsistent}

-- The rows can be read, and these are their tuples.
abbrev pub Converts :
    {V : Type 0} → (V → ℕ) → List String → Bool → ℕ → List (String → V) → List (Tuple V) → Type 0
Converts number_of fields grouped items [] [] = Unit
Converts number_of fields grouped items [] (t ∷ ts) = ⊥
Converts number_of fields grouped items (r ∷ rs) [] = ⊥
Converts number_of fields grouped items (r ∷ rs) (t ∷ ts) =
    (to_tuple number_of fields grouped items r ≡ ok t)
    × Converts number_of fields grouped items rs ts

module _ {V : Type 0} (number_of : V → ℕ) (fields : List String) (grouped : Bool) (items : ℕ) where
  pub Converts-take :
      (n : ℕ) (rs : List (String → V)) (ts : List (Tuple V))
      → Converts number_of fields grouped items rs ts
      → Converts number_of fields grouped items (take n rs) (take n ts)
  Converts-take zero rs ts c = tt
  Converts-take (suc n) [] [] c = tt
  Converts-take (suc n) [] (t ∷ ts) c = elim c [ ]
  Converts-take (suc n) (r ∷ rs) [] c = elim c [ ]
  Converts-take (suc n) (r ∷ rs) (t ∷ ts) c = (c.0, Converts-take n rs ts c.1)

  pub Converts-drop :
      (n : ℕ) (rs : List (String → V)) (ts : List (Tuple V))
      → Converts number_of fields grouped items rs ts
      → Converts number_of fields grouped items (drop n rs) (drop n ts)
  Converts-drop zero rs ts c = c
  Converts-drop (suc n) [] [] c = tt
  Converts-drop (suc n) [] (t ∷ ts) c = elim c [ ]
  Converts-drop (suc n) (r ∷ rs) [] c = elim c [ ]
  Converts-drop (suc n) (r ∷ rs) (t ∷ ts) c = Converts-drop n rs ts c.1

  pub Converts-length :
      (rs : List (String → V)) (ts : List (Tuple V))
      → Converts number_of fields grouped items rs ts
      → length rs ≡ length ts
  Converts-length [] [] c = refl
  Converts-length [] (t ∷ ts) c = elim c [ ]
  Converts-length (r ∷ rs) [] c = elim c [ ]
  Converts-length (r ∷ rs) (t ∷ ts) c = ap suc (Converts-length rs ts c.1)

get_elem?-take :
    {V : Type 0} (n : ℕ) (ts : List (Tuple V)) (i : ℕ)
    → get_elem? (take n ts) i ≡ (if ltb i n then get_elem? ts i else none)
get_elem?-take zero ts i = ground arith
get_elem?-take (suc n) [] i = ground arith
get_elem?-take (suc n) (t ∷ ts) zero = ground arith
get_elem?-take (suc n) (t ∷ ts) (suc i) = ground (arith, get_elem?-take n ts i)

get_elem?-drop :
    {V : Type 0} (n : ℕ) (ts : List (Tuple V)) (i : ℕ)
    → get_elem? (drop n ts) i ≡ get_elem? ts (n + i)
get_elem?-drop zero ts i = ap (get_elem? ts) (omega arith)
get_elem?-drop (suc n) [] i = refl
get_elem?-drop (suc n) (t ∷ ts) i =
    get_elem?-drop n ts i
    ∙ ap (get_elem? (t ∷ ts)) (let e : suc (n + i) ≡ suc n + i = omega arith in e)

get_elem?-cons :
    {V : Type 0} (t : Tuple V) (ts : List (Tuple V)) (n : ℕ)
    → get_elem? (t ∷ ts) n ≡ (if n == 0 then some t else get_elem? ts (n - 1))
get_elem?-cons t ts zero = ground arith
get_elem?-cons t ts (suc n) =
    ground (arith, ap (get_elem? ts) (let e : n ≡ suc n - 1 = omega arith in e))

-- The page of the result that starts at `offset`.
pub get_elem?-page :
    {V : Type 0} (limit offset : ℕ) (ts : List (Tuple V)) (i : ℕ)
    → get_elem? (take limit (drop offset ts)) i
      ≡ (if ltb i limit then get_elem? ts (offset + i) else none)
get_elem?-page limit offset ts i =
    ground (arith, get_elem?-take limit (drop offset ts) i, get_elem?-drop offset ts i)

module _ {V : Type 0} (json_key_size : ℕ → ℕ) (json_tuple_size : Tuple V → ℕ) where
  -- Every tuple stored at its index, in order.
  unfoldable pub store_all : ℕ → List (Tuple V) → TupleSet V → TupleSet V
  store_all index [] s = s
  store_all index (t ∷ ts) s =
      store_all (suc index) ts (store_and_touch json_key_size json_tuple_size s index t)

  pub store_all-IsConsistent :
      (index : ℕ) (ts : List (Tuple V)) (s : TupleSet V)
      → IsConsistent s
      → IsConsistent (store_all index ts s)
  unfolding store_all
  store_all-IsConsistent index [] s c = c
  store_all-IsConsistent index (t ∷ ts) s c =
      store_all-IsConsistent (suc index) ts
        (store_and_touch json_key_size json_tuple_size s index t)
        (store-IsConsistent json_key_size json_tuple_size s index t c)

  get-store :
      (s : TupleSet V) (k : ℕ) (t : Tuple V) (j : ℕ)
      → Sparse.get (store_and_touch json_key_size json_tuple_size s k t).tuples j
        ≡ (if k == j then some t else Sparse.get s.tuples j)
  unfolding store_tuple touch_tuple
  get-store s k t j = Sparse.get-set s.tuples k j (some t)

  pub get-store_all :
      (index : ℕ) (ts : List (Tuple V)) (s : TupleSet V) (j : ℕ)
      → Sparse.get (store_all index ts s).tuples j ≡ (
          if leb index j && ltb j (index + length ts)
          then get_elem? ts (j - index)
          else Sparse.get s.tuples j)
  unfolding store_all
  get-store_all index [] s j = ground arith
  get-store_all index (t ∷ ts) s j =
      let before : (j - index) - 1 ≡ j - suc index = omega arith in
      ground (
        arith,
        get-store_all (suc index) ts (store_and_touch json_key_size json_tuple_size s index t) j,
        get-store s index t j,
        get_elem?-cons t ts (j - index),
        ap (get_elem? ts) before,
      )

  pub settings-store_all :
      (index : ℕ) (ts : List (Tuple V)) (s : TupleSet V)
      → ((store_all index ts s).settings ≡ s.settings)
        × ((store_all index ts s).tuple_count ≡ s.tuple_count)
        × ((store_all index ts s).page_size ≡ s.page_size)
  unfolding store_all store_tuple touch_tuple
  settings-store_all index [] s = (refl, refl, refl)
  settings-store_all index (t ∷ ts) s =
      settings-store_all (suc index) ts (store_and_touch json_key_size json_tuple_size s index t)

  -- Rows that can be read are all stored.
  pub load_rows-store_all :
      (number_of : V → ℕ) (fields : List String) (grouped : Bool) (items : ℕ) (index : ℕ)
      (rs : List (String → V)) (ts : List (Tuple V)) (s : TupleSet V)
      → Converts number_of fields grouped items rs ts
      → load_rows json_key_size json_tuple_size number_of fields grouped items index rs s
        ≡ (store_all index ts s, ok tt)
  unfolding load_rows store_all
  load_rows-store_all number_of fields grouped items index [] [] s c = refl
  load_rows-store_all number_of fields grouped items index [] (t ∷ ts) s c = elim c [ ]
  load_rows-store_all number_of fields grouped items index (r ∷ rs) [] s c = elim c [ ]
  load_rows-store_all number_of fields grouped items index (r ∷ rs) (t ∷ ts) s c =
      rw (c.0, load_rows)
        (load_rows-store_all number_of fields grouped items (suc index) rs ts
          (store_and_touch json_key_size json_tuple_size s index t) c.1)
