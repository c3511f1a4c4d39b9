-- ===== src/DataSet/CellSet/Cache.antt =====
-- CellSet.js: the cache invariant, kept by the operations on single cells.
use huey.Base.{
  ℕ, ◌+◌, ◌-◌, ◌*◌, ◌≤◌, ◌≡◌, refl, true, none, some, [], ◌∷◌, arith, length, is_some, Option-cases,
  inl, inr, ◌==◌, if◌then◌else◌,
}
use huey.Base.JsMap
use huey.Base.JsMap.{JsMap, IsUnique}
use huey.Base.Sparse
use huey.Base.Sparse.{Sparse}
use huey.DataSet.Sizes.{
  size_at, sum_over, sum_over-empty, sum_over-delete_size, sum_over-delete, get-delete_self,
}
use huey.DataSet.CellSet.{CellSet, clear, remove_cell}

-- The cells that are stored, those that have a size and those that have a timestamp are the same, no
-- index stands twice, no timestamp lies in the future, and the running total is the length of the
-- JSON text of all cells: two braces, each entry without the two braces it was measured with, and
-- the commas.
pub record IsConsistent {V : Type 0} (s : CellSet V) : Type 0 where
  pub stamps_unique : IsUnique s.cell_access_timestamps
  pub sizes_unique : IsUnique s.cell_serialized_sizes
  pub sized :
      (k : ℕ)
      → is_some (JsMap.get s.cell_access_timestamps k)
        ≡ is_some (JsMap.get s.cell_serialized_sizes k)
  pub stored :
      (k : ℕ) → is_some (JsMap.get s.cell_access_timestamps k) ≡ is_some (Sparse.get s.cells k)
  pub same_length : length s.cell_serialized_sizes ≡ length s.cell_access_timestamps
  pub braced : (k n : ℕ) → JsMap.get s.cell_serialized_sizes k ≡ some n → 2 ≤ n
  pub past : (k n : ℕ) → JsMap.get s.cell_access_timestamps k ≡ some n → n ≤ s.access_counter
  pub total :
      s.cache_size + 2 * length s.cell_access_timestamps
      ≡ 2
        + sum_over s.cell_serialized_sizes s.cell_access_timestamps
        + (length s.cell_access_timestamps - 1)

-- Every entry counts for two at least.
pub sum_over-braced :
    (sizes m : JsMap ℕ)
    → ((k : ℕ) → is_some (JsMap.get m k) ≡ true → 2 ≤ size_at sizes k)
    → IsUnique m
    → 2 * length m ≤ sum_over sizes m
unfolding sum_over JsMap.get IsUnique
sum_over-braced sizes [] h u = omega arith
sum_over-braced sizes ((k, v) ∷ m) h u =
    let here : 2 ≤ size_at sizes k = h k (ground arith) in
    let rest = sum_over-braced sizes m (λ j e. h j (ground (arith, u.0))) u.1 in
    omega (arith, here, rest)

pub sum_over-set :
    (sizes m : JsMap ℕ) (k v w : ℕ)
    → JsMap.get m k ≡ some w
    → sum_over sizes (JsMap.set m k v) ≡ sum_over sizes m
unfolding sum_over JsMap.get JsMap.set
sum_over-set sizes [] k v w h = cc
sum_over-set sizes ((j, x) ∷ m) k v w h = ground (arith, sum_over-set sizes m k v w)

length-delete_pos : (m : JsMap ℕ) (k : ℕ) (v : ℕ) → JsMap.get m k ≡ some v → 1 ≤ length m
unfolding JsMap.get
length-delete_pos [] k v h = cc
length-delete_pos (e ∷ m) k v h = omega arith

module _ {V : Type 0} where
  pub clear-IsConsistent : (s : CellSet V) → IsConsistent (clear s)
  unfolding clear IsUnique JsMap.get sum_over Sparse.get
  clear-IsConsistent s = record {
    stamps_unique = tt;
    sizes_unique = tt;
    sized = λ k. refl;
    stored = λ k. refl;
    same_length = refl;
    braced = λ k n e. cc;
    past = λ k n e. cc;
    total = refl;
  }

  remove_absent-IsConsistent :
      (s : CellSet V) (k : ℕ)
      → IsConsistent s
      → JsMap.get s.cell_serialized_sizes k ≡ none
      → IsConsistent (remove_cell s k)
  unfolding remove_cell
  remove_absent-IsConsistent s k c e =
      let absent : JsMap.get s.cell_access_timestamps k ≡ none = ground (arith, c.sized k) in
      rw (e, remove_cell, JsMap.delete_absent s.cell_access_timestamps k absent)
        (record {
          stamps_unique = c.stamps_unique;
          sizes_unique = c.sizes_unique;
          sized = c.sized;
          stored = λ j. ground (arith, c.stored j, Sparse.get-set s.cells k j none);
          same_length = c.same_length;
          braced = c.braced;
          past = c.past;
          total = c.total;
        })

  pub braced_at :
      (s : CellSet V)
      → IsConsistent s
      → (k : ℕ) → is_some (JsMap.get s.cell_access_timestamps k) ≡ true
      → 2 ≤ size_at s.cell_serialized_sizes k
  unfolding size_at
  braced_at s c k h = elim (Option-cases (JsMap.get s.cell_serialized_sizes k)) [
    | inl e ↦ absurd (ground (arith, c.sized k))
    | inr (n, e) ↦ ground (arith, c.braced k n e)
  ]

  remove-total :
      (s : CellSet V) (k n a : ℕ)
      → IsConsistent s
      → JsMap.get s.cell_serialized_sizes k ≡ some n
      → JsMap.get s.cell_access_timestamps k ≡ some a
      → (if length s.cell_serialized_sizes == 1 then 2 else s.cache_size - (n - 1))
          + 2 * length (JsMap.delete s.cell_access_timestamps k)
        ≡ 2
          + sum_over
              (JsMap.delete s.cell_serialized_sizes k)
              (JsMap.delete s.cell_access_timestamps k)
          + (length (JsMap.delete s.cell_access_timestamps k) - 1)
  unfolding size_at
  remove-total s k n a c e f =
      let stamps = s.cell_access_timestamps in
      let sizes = s.cell_serialized_sizes in
      ground (
        arith,
        c.total,
        c.same_length,
        c.braced k n e,
        sum_over-empty (JsMap.delete sizes k) (JsMap.delete stamps k),
        sum_over-braced sizes (JsMap.delete stamps k)
            (λ j h. braced_at s c j (ground (arith, JsMap.get-delete stamps k j)))
            (JsMap.delete-IsUnique stamps k c.stamps_unique),
        JsMap.length-delete stamps k a c.stamps_unique f,
        sum_over-delete sizes k a stamps c.stamps_unique f,
        sum_over-delete_size sizes k (JsMap.delete stamps k) (get-delete_self stamps k),
      )

  pub remove_cell-IsConsistent :
      (s : CellSet V) (k : ℕ) → IsConsistent s → IsConsistent (remove_cell s k)
  unfolding remove_cell
  remove_cell-IsConsistent s k c = elim (Option-cases (JsMap.get s.cell_serialized_sizes k)) [
    | inl e ↦ remove_absent-IsConsistent s k c e
    | inr (n, e) ↦ elim (Option-cases (JsMap.get s.cell_access_timestamps k)) [
      | inl f ↦ absurd (ground (arith, c.sized k))
      | inr (a, f) ↦
          rw (e, remove_cell)
            (record {
              stamps_unique = JsMap.delete-IsUnique s.cell_access_timestamps k c.stamps_unique;
              sizes_unique = JsMap.delete-IsUnique s.cell_serialized_sizes k c.sizes_unique;
              sized = λ j. ground (
                arith,
                c.sized j,
                JsMap.get-delete s.cell_access_timestamps k j,
                JsMap.get-delete s.cell_serialized_sizes k j,
              );
              stored = λ j. ground (
                arith,
                c.stored j,
                JsMap.get-delete s.cell_access_timestamps k j,
                Sparse.get-set s.cells k j none,
              );
              same_length = omega (
                arith,
                c.same_length,
                JsMap.length-delete s.cell_access_timestamps k a c.stamps_unique f,
                JsMap.length-delete s.cell_serialized_sizes k n c.sizes_unique e,
              );
              braced = λ j m h.
                  c.braced j m (ground (arith, JsMap.get-delete s.cell_serialized_sizes k j));
              past = λ j m h.
                  c.past j m (ground (arith, JsMap.get-delete s.cell_access_timestamps k j));
              total = remove-total s k n a c e f;
            })
    ]
  ]
