-- ===== src/Base/JsMap.antt =====
-- JavaScript's `Map` with number keys: entries in insertion order. `set` keeps the place of a key
-- that is there and appends one that is not; `delete` drops the entry.
use mathlib.Core.List.{List, [], ◌∷◌, ◌++◌}
use mathlib.Core.Path.{◌≡◌, refl}
use mathlib.Core.Option.{Option, none, some}
use Prim.Native.Nat.{ℕ, ◌+◌}
use native.Mathlib.Omega.{arith}
use huey.Base.Tests.{◌==◌, if◌then◌else◌}
use huey.Base.Lists.{length}

abbrev pub JsMap {ℓ} : Type ℓ → Type ℓ
JsMap V = List (ℕ × V)

module _ {ℓ} {V : Type ℓ} where
  unfoldable pub get : JsMap V → ℕ → Option V
  get [] k = none
  get ((j, v) ∷ m) k = if j == k then some v else get m k

  unfoldable pub set : JsMap V → ℕ → V → JsMap V
  set [] k v = (k, v) ∷ []
  set ((j, w) ∷ m) k v = if j == k then (j, v) ∷ m else (j, w) ∷ set m k v

  unfoldable pub delete : JsMap V → ℕ → JsMap V
  delete [] k = []
  delete ((j, w) ∷ m) k = let rest = delete m k in if j == k then rest else (j, w) ∷ rest

  -- No key stands twice.
  unfoldable pub IsUnique : JsMap V → Type ℓ
  IsUnique [] = Unit
  IsUnique ((k, v) ∷ m) = (get m k ≡ none) × IsUnique m

  pub get-set :
      (m : JsMap V) (k j : ℕ) (v : V) → get (set m k v) j ≡ (if k == j then some v else get m j)
  unfolding get set
  get-set [] k j v = refl
  get-set ((i, w) ∷ m) k j v = ground (arith, get-set m k j v)

  pub get-delete : (m : JsMap V) (k j : ℕ) → get (delete m k) j ≡ (if k == j then none else get m j)
  unfolding get delete
  get-delete [] k j = ground arith
  get-delete ((i, w) ∷ m) k j = ground (arith, get-delete m k j)

  pub delete_absent : (m : JsMap V) (k : ℕ) → get m k ≡ none → delete m k ≡ m
  unfolding get delete
  delete_absent [] k h = refl
  delete_absent ((i, w) ∷ m) k h = ground (arith, delete_absent m k)

  pub set_absent : (m : JsMap V) (k : ℕ) (v : V) → get m k ≡ none → set m k v ≡ m ++ (k, v) ∷ []
  unfolding get set
  set_absent [] k v h = refl
  set_absent ((i, w) ∷ m) k v h = ground (arith, set_absent m k v)

  pub set-IsUnique : (m : JsMap V) (k : ℕ) (v : V) → IsUnique m → IsUnique (set m k v)
  unfolding IsUnique set get
  set-IsUnique [] k v u = (refl, tt)
  set-IsUnique ((i, w) ∷ m) k v u = ground (arith, get-set m k i v, set-IsUnique m k v u.1)

  pub delete-IsUnique : (m : JsMap V) (k : ℕ) → IsUnique m → IsUnique (delete m k)
  unfolding IsUnique delete
  delete-IsUnique [] k u = tt
  delete-IsUnique ((i, w) ∷ m) k u = ground (arith, get-delete m k i, delete-IsUnique m k u.1)

  pub length-set_absent :
      (m : JsMap V) (k : ℕ) (v : V) → get m k ≡ none → length (set m k v) ≡ length m + 1
  unfolding get set
  length-set_absent [] k v h = omega arith
  length-set_absent ((i, w) ∷ m) k v h = ground (arith, length-set_absent m k v)

  pub length-set_present :
      (m : JsMap V) (k : ℕ) (v w : V) → get m k ≡ some w → length (set m k v) ≡ length m
  unfolding get set
  length-set_present [] k v w h = cc
  length-set_present ((i, x) ∷ m) k v w h = ground (arith, length-set_present m k v w)

  pub length-delete :
      (m : JsMap V) (k : ℕ) (v : V)
      → IsUnique m
      → get m k ≡ some v
      → length (delete m k) + 1 ≡ length m
  unfolding IsUnique get delete
  length-delete [] k v u h = cc
  length-delete ((i, w) ∷ m) k v u h =
      ground (arith, length-delete m k v u.1, delete_absent m i u.0)
