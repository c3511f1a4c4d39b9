-- ===== src/DataSet/Sizes.antt =====
-- The length of the JSON text of a cache, computed from the sizes of its entries: the independent
-- description that both caches' running totals are held against.
use huey.Base.{ℕ, ◌+◌, ◌-◌, ◌≡◌, refl, none, some, [], ◌∷◌, ◌++◌, arith, length}
use huey.Base.JsMap
use huey.Base.JsMap.{JsMap, IsUnique}

-- The size that is recorded for a key, 0 for none.
unfoldable pub size_at : JsMap ℕ → ℕ → ℕ
size_at sizes k = elim (JsMap.get sizes k) [ none ↦ 0 | some n ↦ n ]

module _ {ℓ} {V : Type ℓ} where
  pub get-delete_self : (m : JsMap V) (k : ℕ) → JsMap.get (JsMap.delete m k) k ≡ none
  get-delete_self m k = ground (arith, JsMap.get-delete m k k)

  -- The sizes of the keys of `m`, added up.
  unfoldable pub sum_over : JsMap ℕ → JsMap V → ℕ
  sum_over sizes [] = 0
  sum_over sizes ((k, v) ∷ m) = size_at sizes k + sum_over sizes m

  -- `{` and `}`, the entries, and a comma between any two.
  unfoldable pub json_object_size : JsMap ℕ → JsMap V → ℕ
  unfolding sum_over
  json_object_size sizes m = 2 + sum_over sizes m + (length m - 1)

  pub sum_over-empty : (sizes : JsMap ℕ) (m : JsMap V) → length m ≡ 0 → sum_over sizes m ≡ 0
  unfolding sum_over
  sum_over-empty sizes [] h = refl
  sum_over-empty sizes (e ∷ m) h = absurd (omega arith)

  pub sum_over-append :
      (sizes : JsMap ℕ) (m n : JsMap V)
      → sum_over sizes (m ++ n) ≡ sum_over sizes m + sum_over sizes n
  unfolding sum_over
  sum_over-append sizes [] n = omega arith
  sum_over-append sizes ((k, v) ∷ m) n = omega (arith, sum_over-append sizes m n)

  pub sum_over-set_size :
      (sizes : JsMap ℕ) (k w : ℕ) (m : JsMap V)
      → JsMap.get m k ≡ none
      → sum_over (JsMap.set sizes k w) m ≡ sum_over sizes m
  unfolding sum_over size_at JsMap.get
  sum_over-set_size sizes k w [] h = refl
  sum_over-set_size sizes k w ((j, v) ∷ m) h =
      ground (arith, JsMap.get-set sizes k j w, sum_over-set_size sizes k w m)

  pub sum_over-delete_size :
      (sizes : JsMap ℕ) (k : ℕ) (m : JsMap V)
      → JsMap.get m k ≡ none
      → sum_over (JsMap.delete sizes k) m ≡ sum_over sizes m
  unfolding sum_over size_at JsMap.get
  sum_over-delete_size sizes k [] h = refl
  sum_over-delete_size sizes k ((j, v) ∷ m) h =
      ground (arith, JsMap.get-delete sizes k j, sum_over-delete_size sizes k m)

  pub sum_over-delete :
      (sizes : JsMap ℕ) (k : ℕ) (v : V) (m : JsMap V)
      → IsUnique m
      → JsMap.get m k ≡ some v
      → sum_over sizes (JsMap.delete m k) + size_at sizes k ≡ sum_over sizes m
  unfolding sum_over JsMap.get JsMap.delete IsUnique
  sum_over-delete sizes k v [] u h = cc
  sum_over-delete sizes k v ((j, w) ∷ m) u h =
      ground (arith, sum_over-delete sizes k v m u.1, JsMap.delete_absent m j u.0)

  -- A key that is moved to the end, or put there, adds its size.
  pub sum_over-move_last :
      (sizes : JsMap ℕ) (k : ℕ) (v : V) (m : JsMap V)
      → sum_over sizes (JsMap.set (JsMap.delete m k) k v)
        ≡ sum_over sizes (JsMap.delete m k) + size_at sizes k
  unfolding sum_over
  sum_over-move_last sizes k v m =
      rw (JsMap.set_absent (JsMap.delete m k) k v (get-delete_self m k))
        (omega (arith, sum_over-append sizes (JsMap.delete m k) ((k, v) ∷ [])))

  -- The keys of a map, as far as a new size of one key and its move to the end change the sum.
  pub sum_over-store :
      (sizes : JsMap ℕ) (k w : ℕ) (v : V) (m : JsMap V)
      → sum_over (JsMap.set sizes k w) (JsMap.set (JsMap.delete m k) k v)
        ≡ sum_over sizes (JsMap.delete m k) + w
  unfolding size_at
  sum_over-store sizes k w v m = ground (
    arith,
    sum_over-move_last (JsMap.set sizes k w) k v m,
    sum_over-set_size sizes k w (JsMap.delete m k) (get-delete_self m k),
    JsMap.get-set sizes k k w,
  )
