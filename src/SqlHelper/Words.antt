-- ===== src/SqlHelper/Words.antt =====
-- SQLHelper.js: which characters SQL takes in a name without quotes, and which ones the code quotes.
use huey.Base.{
  ℕ, zero, suc, ◌≡◌, refl, ap, ◌∙◌, Bool, true, false, not, ◌&&◌, ◌||◌, List, [], ◌∷◌, arith, ◌==◌,
  leb, ltb, Bool-cases, inl, inr,
}
use huey.Base.Text.{Text, includes_code}
use huey.SqlHelper.Quoting.{double_quote, is_digit, is_special, is_space, special_codes}

abbrev pub dot : ℕ
dot = 46

-- What a name in SQL may be made of without quotes: letters, digits, `_`, and what is not ASCII;
-- a digit is not its first character.
is_digit_code : ℕ → Bool
is_digit_code c = leb 48 c && leb c 57

pub is_word : ℕ → Bool
unfolding is_digit_code
is_word c =
    leb 128 c || is_digit_code c || (leb 65 c && leb c 90) || (leb 97 c && leb c 122) || (c == 95)

pub is_first : ℕ → Bool
unfolding is_word is_digit_code
is_first c = is_word c && not (is_digit_code c)

-- The characters but `$`, `,`, `` ` ``, `|` and control characters that are not white space.
unfoldable pub is_ordinary : ℕ → Bool
is_ordinary c =
    (leb 32 c || (leb 9 c && leb c 13))
    && not (c == 36)
    && not (c == 44)
    && not (c == 96)
    && not (c == 124)
    && not (c == 127)

unfoldable pub are_ordinary : Text → Bool
unfolding is_ordinary
are_ordinary [] = true
are_ordinary (c ∷ s) = let rest = are_ordinary s in is_ordinary c && rest

unfoldable pub is_empty : Text → Bool
is_empty [] = true
is_empty (c ∷ s) = false

-- Names that are not empty and have ordinary characters only.
unfoldable pub are_names : List Text → Bool
unfolding are_ordinary is_empty
are_names [] = true
are_names (s ∷ names) = let rest = are_names names in not (is_empty s) && are_ordinary s && rest

-- A test that holds of all numbers below a bound.
all_below : ℕ → (ℕ → Bool) → Bool
all_below zero f = true
all_below (suc n) f = let rest = all_below n f in f n && rest

all_below_lem : (n : ℕ) (f : ℕ → Bool) (c : ℕ) → all_below n f ≡ true → ltb c n ≡ true → f c ≡ true
unfolding all_below
all_below_lem zero f c h k = absurd (ground (arith, k))
all_below_lem (suc n) f c h k = elim (Bool-cases (c == n)) [
  | inl e ↦
      let same : c ≡ n = ground arith in
      let last : f n ≡ true = ground (arith, h) in ap f same ∙ last
  | inr e ↦ all_below_lem n f c (ground (arith, h)) (ground (arith, e, k))
]

-- What needs no quotes, of the ordinary characters, may stand in a name.
unquoted : ℕ → Bool
unquoted c =
    is_special c || not (is_ordinary c) || (is_word c && not (c == dot) && not (c == double_quote))

ascii-unquoted : all_below 128 unquoted ≡ true
unfolding all_below unquoted is_special is_space special_codes includes_code is_ordinary is_word
    is_digit_code
ascii-unquoted = refl

pub plain-is_word :
    (c : ℕ)
    → is_special c ≡ false
    → is_ordinary c ≡ true
    → (is_word c ≡ true) × ((c == dot) ≡ false) × ((c == double_quote) ≡ false)
unfolding unquoted is_word
plain-is_word c h k = elim (Bool-cases (ltb c 128)) [
  | inl e ↦ let fits = all_below_lem 128 unquoted c ascii-unquoted e in ground (arith, fits, h, k)
  | inr e ↦ ground (arith, e)
]

pub first_lem : (c : ℕ) → is_word c ≡ true → is_digit c ≡ false → is_first c ≡ true
unfolding is_first is_digit is_digit_code
first_lem c w d = rw w (ground (arith, d))
