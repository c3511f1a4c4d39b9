-- ===== src/Base/Text.antt =====
-- A JavaScript string as the list of its character codes, and the methods that the source calls.
use Prim.Native.Nat.{ℕ, ◌-◌}
use Prim.Native.Char.{code}
use Prim.Native.String.{String}
use mathlib.Core.List.{List, [], ◌∷◌, ◌++◌, append_assoc}
use mathlib.Core.Path.{◌≡◌, refl, sym, ap}
use mathlib.Core.Logic.{◌≢◌}
use mathlib.Core.Bool.{Bool, true, false, ◌&&◌}
use native.Mathlib.Omega.{arith}
use huey.Base.Tests.{◌==◌, if◌then◌else◌, leb}
use huey.Base.Lists.{length, take, drop, length-append}

abbrev pub Text : Type 0
Text = List ℕ

abbrev pub codes : String → Text
codes String.[] = []
codes (String.◌∷◌ c s) = code c ∷ codes s

unfoldable pub same : Text → Text → Bool
same [] [] = true
same [] (d ∷ t) = false
same (c ∷ s) [] = false
same (c ∷ s) (d ∷ t) = let rest = same s t in if c == d then rest else false

pub same-eq : (s t : Text) → same s t ≡ true → s ≡ t
unfolding same
same-eq [] [] h = refl
same-eq [] (d ∷ t) h = cc
same-eq (c ∷ s) [] h = cc
same-eq (c ∷ s) (d ∷ t) h = ground (arith, same-eq s t)

pub same_refl : (s : Text) → same s s ≡ true
unfolding same
same_refl [] = refl
same_refl (c ∷ s) = ground (arith, same_refl s)

unfoldable pub starts_with : Text → Text → Bool
starts_with s [] = true
starts_with [] (d ∷ t) = false
starts_with (c ∷ s) (d ∷ t) = let rest = starts_with s t in if c == d then rest else false

-- `str.slice(i, -n)`, where `-0` is 0.
unfoldable pub slice_to : ℕ → ℕ → Text → Text
slice_to i n s = if n == 0 then [] else take ((length s - n) - i) (drop i s)

unfoldable pub ends_with : Text → Text → Bool
unfolding same
ends_with s t = leb (length t) (length s) && same (drop (length s - length t) s) t

unfoldable pub includes_code : Text → ℕ → Bool
includes_code [] c = false
includes_code (d ∷ s) c = let rest = includes_code s c in if c == d then true else rest

-- `join`.
unfoldable pub join : Text → List Text → Text
join separator [] = []
join separator (s ∷ []) = s
join separator (s ∷ t ∷ texts) = s ++ (separator ++ join separator (t ∷ texts))

pub drop-append : (s t : Text) → drop (length s) (s ++ t) ≡ t
drop-append [] t = refl
drop-append (c ∷ s) t = drop-append s t

pub take-append : (s t : Text) → take (length s) (s ++ t) ≡ s
take-append [] [] = refl
take-append [] (d ∷ t) = refl
take-append (c ∷ s) t = ap (λ (l : Text). c ∷ l) (take-append s t)

pub starts_with-append : (s t : Text) → starts_with (s ++ t) s ≡ true
unfolding starts_with
starts_with-append [] [] = refl
starts_with-append [] (d ∷ t) = refl
starts_with-append (c ∷ s) t = ground (arith, starts_with-append s t)

pub ends_with-append : (s t : Text) → ends_with (s ++ t) t ≡ true
unfolding ends_with
ends_with-append s t =
    let there : drop (length (s ++ t) - length t) (s ++ t) ≡ t = rw (skipped) (drop-append s t) in
    rw (there, same_refl t) (ground (arith, length-append s t))
  where
    skipped : length (s ++ t) - length t ≡ length s
    skipped = omega (arith, length-append s t)

-- A text between two others is what `slice` leaves of them.
pub slice_to-append :
    (before s after : Text)
    → length after ≢ 0
    → slice_to (length before) (length after) (before ++ (s ++ after)) ≡ s
unfolding slice_to
slice_to-append before s after h =
    rw (drop-append before (s ++ after), kept) (ground (arith, take-append s after))
  where
    kept : (length (before ++ (s ++ after)) - length after) - length before ≡ length s
    kept = omega (arith, length-append before (s ++ after), length-append s after)

pub ends_with-between : (before s after : Text) → ends_with (before ++ (s ++ after)) after ≡ true
ends_with-between before s after =
    rw (sym (append_assoc before s after)) (ends_with-append (before ++ s) after)
