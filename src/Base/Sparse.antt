-- ===== src/Base/Sparse.antt =====
-- A JavaScript array with holes: `undefined` is read at a hole and past the end, and a write past
-- the end makes holes on the way.
use mathlib.Core.List.{List, [], ◌∷◌}
use mathlib.Core.Path.{◌≡◌, refl, ap, ◌∙◌}
use mathlib.Core.Option.{Option, none}
use Prim.Native.Nat.{ℕ, zero, suc, ◌+◌, ◌-◌}
use native.Mathlib.Omega.{arith}
use huey.Base.Tests.{◌==◌, ltb, if◌then◌else◌}
use huey.Base.Lists.{take, drop}

abbrev pub Sparse {ℓ} : Type ℓ → Type ℓ
Sparse A = List (Option A)

module _ {ℓ} {A : Type ℓ} where
  unfoldable pub get : Sparse A → ℕ → Option A
  get [] i = none
  get (x ∷ xs) zero = x
  get (x ∷ xs) (suc i) = get xs i

  unfoldable pub set : Sparse A → ℕ → Option A → Sparse A
  set [] zero o = o ∷ []
  set [] (suc i) o = none ∷ set [] i o
  set (x ∷ xs) zero o = o ∷ xs
  set (x ∷ xs) (suc i) o = x ∷ set xs i o

  -- `slice(from, to)`
  unfoldable pub slice : Sparse A → ℕ → ℕ → Sparse A
  slice xs from to = take (to - from) (drop from xs)

  pub get-empty : (i : ℕ) → get [] i ≡ none
  unfolding get
  get-empty i = refl

  pub get-set :
      (xs : Sparse A) (i j : ℕ) (o : Option A)
      → get (set xs i o) j ≡ (if i == j then o else get xs j)
  unfolding get set
  get-set [] zero zero o = ground arith
  get-set [] zero (suc j) o = ground arith
  get-set [] (suc i) zero o = ground arith
  get-set [] (suc i) (suc j) o = ground (arith, get-set [] i j o)
  get-set (x ∷ xs) zero zero o = ground arith
  get-set (x ∷ xs) zero (suc j) o = ground arith
  get-set (x ∷ xs) (suc i) zero o = ground arith
  get-set (x ∷ xs) (suc i) (suc j) o = ground (arith, get-set xs i j o)

  pub get-take :
      (n : ℕ) (xs : Sparse A) (i : ℕ) → get (take n xs) i ≡ (if ltb i n then get xs i else none)
  unfolding get
  get-take zero xs i = ground arith
  get-take (suc n) [] i = ground arith
  get-take (suc n) (x ∷ xs) zero = ground arith
  get-take (suc n) (x ∷ xs) (suc i) = ground (arith, get-take n xs i)

  pub get-drop : (n : ℕ) (xs : Sparse A) (i : ℕ) → get (drop n xs) i ≡ get xs (n + i)
  unfolding get
  get-drop zero xs i = ap (get xs) (omega arith)
  get-drop (suc n) [] i = ground arith
  get-drop (suc n) (x ∷ xs) i =
      get-drop n xs i ∙ ap (get (x ∷ xs)) (let e : suc (n + i) ≡ suc n + i = omega arith in e)

  pub get-slice :
      (xs : Sparse A) (from to i : ℕ)
      → get (slice xs from to) i ≡ (if ltb (from + i) to then get xs (from + i) else none)
  unfolding slice
  get-slice xs from to i = ground (arith, get-take (to - from) (drop from xs) i, get-drop from xs i)
