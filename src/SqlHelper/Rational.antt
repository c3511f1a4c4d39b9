-- ===== src/SqlHelper/Rational.antt =====
-- SQLHelper.js: `getArrowDecimalAsString` writes the number that its value and scale stand for.
use huey.Base.{
  ℕ, ◌≡◌, ◌==◌, refl, sym, ap, subst, ◌∙◌, Bool, true, false, not, ◌&&◌, some, [], ◌∷◌, ◌++◌, zero,
  suc, ◌+◌, ◌*◌, ◌-◌, length, take, drop, leb, if◌then◌else◌, arith, length-append, length-drop,
}
use huey.Base.Text.{Text, same, starts_with}
use huey.SqlHelper.Decimals.{
  zeros, trim_start_zeros, trim_end_zeros, or_zero, point, sign, tidy, decimal_text,
  get_arrow_decimal_as_string,
}

unfoldable pub are_digits : Text → Bool
are_digits [] = true
are_digits (c ∷ s) = let rest = are_digits s in leb 48 c && leb c 57 && rest

-- The number that digits stand for, behind digits that stand for `acc`.
unfoldable pub number : ℕ → Text → ℕ
number acc [] = acc
number acc (c ∷ s) = number (acc * 10 + (c - 48)) s

-- An optional sign, an integer part, and a fraction with its point unless it is empty, which stand
-- for `n` divided by the power of ten of the scale.
pub record Writes (str : Text) (negative : Bool) (n scale : ℕ) : Type 0 where
  pub integer : Text
  pub fraction : Text
  pub written : str ≡ sign (negative && not (n == 0)) ++ (integer ++ point fraction)
  pub digits : are_digits (integer ++ fraction) ≡ true
  pub begun : leb 1 (length integer) ≡ true
  pub fits : leb (length fraction) scale ≡ true
  pub equal : number 0 (integer ++ (fraction ++ zeros (scale - length fraction))) ≡ n

number_grows : (acc : ℕ) (s : Text) → leb acc (number acc s) ≡ true
unfolding number
number_grows acc [] = ground arith
number_grows acc (c ∷ s) = let h = number_grows (acc * 10 + (c - 48)) s in ground (arith, h)

number-zeros : (n : ℕ) (s : Text) → number 0 (zeros n ++ s) ≡ number 0 s
unfolding number zeros
number-zeros zero s = refl
number-zeros (suc n) s = number-zeros n s

number-trim_start_zeros :
    (s t : Text) → number 0 (or_zero (trim_start_zeros s) ++ t) ≡ number 0 (s ++ t)
unfolding number or_zero trim_start_zeros
number-trim_start_zeros [] t = refl
number-trim_start_zeros (c ∷ s) t = ground (arith, number-trim_start_zeros s t)

without_last : ℕ → Text → Text
without_last c rest = if c == 48 && length rest == 0 then [] else c ∷ rest

without_last-zeros :
    (c : ℕ) (s rest : Text)
    → rest ++ zeros (length s - length rest) ≡ s
    → without_last c rest ++ zeros (suc (length s) - length (without_last c rest)) ≡ c ∷ s
unfolding without_last zeros
without_last-zeros c s [] h = ground (arith, h)
without_last-zeros c s (d ∷ rest) h = ground (arith, h)

trim_end_zeros-zeros :
    (s : Text) → trim_end_zeros s ++ zeros (length s - length (trim_end_zeros s)) ≡ s
unfolding trim_end_zeros zeros without_last
trim_end_zeros-zeros [] = refl
trim_end_zeros-zeros (c ∷ s) = without_last-zeros c s (trim_end_zeros s) (trim_end_zeros-zeros s)

length-trim_end_zeros : (s : Text) → leb (length (trim_end_zeros s)) (length s) ≡ true
unfolding trim_end_zeros
length-trim_end_zeros [] = refl
length-trim_end_zeros (c ∷ s) = ground (arith, length-trim_end_zeros s)

length-zeros : (n : ℕ) → length (zeros n) ≡ n
unfolding zeros
length-zeros zero = refl
length-zeros (suc n) = ground (arith, length-zeros n)

take-drop : (n : ℕ) (s : Text) → take n s ++ drop n s ≡ s
take-drop zero [] = refl
take-drop zero (c ∷ s) = refl
take-drop (suc n) [] = refl
take-drop (suc n) (c ∷ s) = ap (λ (l : Text). c ∷ l) (take-drop n s)

are_digits-append : (s t : Text) → are_digits (s ++ t) ≡ are_digits s && are_digits t
unfolding are_digits
are_digits-append [] t = refl
are_digits-append (c ∷ s) t = ground (arith, are_digits-append s t)

are_digits-zeros : (n : ℕ) → are_digits (zeros n) ≡ true
unfolding are_digits zeros
are_digits-zeros zero = refl
are_digits-zeros (suc n) = ground (arith, are_digits-zeros n)

are_digits-trim_start_zeros :
    (s : Text) → are_digits s ≡ true → are_digits (or_zero (trim_start_zeros s)) ≡ true
unfolding are_digits or_zero trim_start_zeros
are_digits-trim_start_zeros [] h = refl
are_digits-trim_start_zeros (c ∷ s) h = ground (arith, are_digits-trim_start_zeros s)

are_digits-trim_end_zeros : (s : Text) → are_digits s ≡ true → are_digits (trim_end_zeros s) ≡ true
unfolding are_digits trim_end_zeros
are_digits-trim_end_zeros [] h = refl
are_digits-trim_end_zeros (c ∷ s) h = ground (arith, are_digits-trim_end_zeros s)

number-or_zero :
    (s : Text) (acc : ℕ)
    → are_digits s ≡ true
    → number acc s ≡ 0
    → or_zero (trim_start_zeros s) ≡ 48 ∷ []
unfolding number or_zero trim_start_zeros are_digits
number-or_zero [] acc h e = refl
number-or_zero (c ∷ s) acc h e =
    let grows = number_grows (acc * 10 + (c - 48)) s in
    ground (arith, grows, number-or_zero s (acc * 10 + (c - 48)))

number-trim_end_zeros :
    (s : Text) (acc : ℕ) → are_digits s ≡ true → number acc s ≡ 0 → trim_end_zeros s ≡ []
unfolding number trim_end_zeros are_digits
number-trim_end_zeros [] acc h e = refl
number-trim_end_zeros (c ∷ s) acc h e =
    let grows = number_grows (acc * 10 + (c - 48)) s in
    ground (arith, grows, number-trim_end_zeros s (acc * 10 + (c - 48)))

number-append : (s t : Text) (acc : ℕ) → number acc (s ++ t) ≡ number (number acc s) t
unfolding number
number-append [] t acc = refl
number-append (c ∷ s) t acc = number-append s t (acc * 10 + (c - 48))

tidy-sign_zero : (negative : Bool) → tidy (sign negative ++ (48 ∷ [])) ≡ 48 ∷ []
unfolding tidy sign same
tidy-sign_zero true = refl
tidy-sign_zero false = refl

single : ℕ → Text
single d = d ∷ []

tidy-sign :
    (negative : Bool) (c : ℕ) (integer fraction : Text)
    → leb 48 c ≡ true
    → ((48 ∷ []) ++ point [] ≡ c ∷ (integer ++ point fraction) → ⊥)
    → tidy (sign negative ++ (c ∷ (integer ++ point fraction)))
      ≡ sign negative ++ (c ∷ (integer ++ point fraction))
unfolding tidy sign point same single
tidy-sign false c integer fraction h n = ground (arith, h)
tidy-sign true c [] [] h n =
    let other : (c == 48) ≡ false = ground (arith, n, ap (λ (d : ℕ). single d)) in
    ground (arith, other)
tidy-sign true c [] (d ∷ fraction) h n = ground (arith, h)
tidy-sign true c (d ∷ integer) fraction h n = ground (arith, h)

number-all_zeros : (k : ℕ) → number 0 (zeros k) ≡ 0
unfolding number zeros
number-all_zeros zero = refl
number-all_zeros (suc k) = number-all_zeros k

zero_text :
    (c k : ℕ) (integer fraction : Text)
    → (48 ∷ []) ++ point [] ≡ c ∷ (integer ++ point fraction)
    → number 0 (c ∷ (integer ++ (fraction ++ zeros k))) ≡ 0
unfolding point number
zero_text c k [] [] h = let first : c ≡ 48 = ground (arith, h) in rw (first) (number-all_zeros k)
zero_text c k [] (d ∷ fraction) h = absurd (ground (arith, h))
zero_text c k (d ∷ integer) fraction h = absurd (ground (arith, h))

and_positive : (b : Bool) (n : ℕ) → b && not (suc n == 0) ≡ b
and_positive true n = ground arith
and_positive false n = refl

suc_zero : (n : ℕ) → suc n ≡ 0 → ⊥
suc_zero n h = ground (arith, h)

zero_tidied :
    (negative : Bool)
    → tidy (sign negative ++ ((48 ∷ []) ++ point []))
      ≡ sign (negative && false) ++ ((48 ∷ []) ++ point [])
unfolding tidy sign point same
zero_tidied true = refl
zero_tidied false = refl

tidied :
    (negative : Bool) (integer fraction : Text) (k n : ℕ)
    → are_digits integer ≡ true
    → leb 1 (length integer) ≡ true
    → number 0 (integer ++ (fraction ++ zeros k)) ≡ n
    → (n ≡ 0 → integer ≡ 48 ∷ [])
    → (n ≡ 0 → fraction ≡ [])
    → tidy (sign negative ++ (integer ++ point fraction))
      ≡ sign (negative && not (n == 0)) ++ (integer ++ point fraction)
unfolding are_digits
tidied negative integer fraction k zero h b e i f = rw (i refl, f refl) (zero_tidied negative)
tidied negative [] fraction k (suc n) h b e i f = absurd (ground (arith, b))
tidied negative (c ∷ integer) fraction k (suc n) h b e i f =
    let none_zero : (48 ∷ []) ++ point [] ≡ c ∷ (integer ++ point fraction) → ⊥ =
      λ w. suc_zero n (sym e ∙ zero_text c k integer fraction w) in
    tidy-sign negative c integer fraction (ground (arith, h)) none_zero
    ∙ ap (λ (b : Bool). sign b ++ (c ∷ (integer ++ point fraction))) (sym (and_positive negative n))

begun_or_zero : (s : Text) → leb 1 (length (or_zero s)) ≡ true
unfolding or_zero
begun_or_zero [] = refl
begun_or_zero (c ∷ s) = ground arith

zero_parts :
    (before behind : Text)
    → are_digits before ≡ true
    → are_digits behind ≡ true
    → number 0 (before ++ behind) ≡ 0
    → (or_zero (trim_start_zeros before) ≡ 48 ∷ []) × (trim_end_zeros behind ≡ [])
zero_parts before behind h g e =
    let split : number (number 0 before) behind ≡ 0 = sym (number-append before behind 0) ∙ e in
    let grows = number_grows (number 0 before) behind in
    let start : number 0 before ≡ 0 = ground (arith, split, grows) in
    (number-or_zero before 0 h start, number-trim_end_zeros behind (number 0 before) g split)

parts-Writes :
    (negative : Bool) (before behind : Text) (n : ℕ)
    → are_digits before ≡ true
    → are_digits behind ≡ true
    → number 0 (before ++ behind) ≡ n
    → Writes
        (tidy
          (sign negative ++ (or_zero (trim_start_zeros before) ++ point (trim_end_zeros behind))))
        negative
        n
        (length behind)
parts-Writes negative before behind n h g e =
    let integer = or_zero (trim_start_zeros before) in
    let fraction = trim_end_zeros behind in
    let rest = length behind - length fraction in
    let same_number : number 0 (integer ++ (fraction ++ zeros rest)) ≡ n =
      rw (trim_end_zeros-zeros behind) (number-trim_start_zeros before behind ∙ e) in
    let digits_before = are_digits-trim_start_zeros before h in
    let digits_behind = are_digits-trim_end_zeros behind g in
    record {
      integer = integer;
      fraction = fraction;
      written =
          tidied negative integer fraction rest n digits_before
            (begun_or_zero (trim_start_zeros before)) same_number
            (λ z. (zero_parts before behind h g (e ∙ z)).0)
            (λ z. (zero_parts before behind h g (e ∙ z)).1);
      digits = ground (arith, are_digits-append integer fraction, digits_before, digits_behind);
      begun = begun_or_zero (trim_start_zeros before);
      fits = length-trim_end_zeros behind;
      equal = same_number;
    }

decimal_text-Writes :
    (negative : Bool) (digits : Text) (scale : ℕ)
    → are_digits digits ≡ true
    → Writes (decimal_text negative digits scale) negative (number 0 digits) scale
unfolding decimal_text
decimal_text-Writes negative digits scale h =
    let padded = zeros scale ++ digits in
    let place = length padded - scale in
    let before = take place padded in
    let behind = drop place padded in
    let parts = take-drop place padded in
    let all_digits : are_digits padded ≡ true =
      ground (arith, are_digits-append (zeros scale) digits, are_digits-zeros scale, h) in
    let both : are_digits before && are_digits behind ≡ true =
      sym (are_digits-append before behind) ∙ (ap are_digits parts ∙ all_digits) in
    let count : length behind ≡ scale =
      ground
        (arith, length-drop place padded, length-append (zeros scale) digits, length-zeros scale) in
    let value : number 0 (before ++ behind) ≡ number 0 digits =
      ap (number 0) parts ∙ number-zeros scale digits in
    subst (Writes (decimal_text negative digits scale) negative (number 0 digits)) count (
      parts-Writes negative before behind (number 0 digits) (ground (arith, both))
        (ground (arith, both)) value)

-- For a value whose text is digits behind an optional minus sign, and any scale:
-- `getArrowDecimalAsString` writes the number that the digits stand for, divided by ten to the
-- power of the scale: a minus sign just when the value has one and is not zero, an integer
-- part of one digit or more, and, unless it is empty, a point and a fraction of at most as
-- many digits as the scale.
pub get_arrow_decimal_as_string-Writes :
    (negative : Bool) (digits : Text) (scale : ℕ)
    → are_digits digits ≡ true
    → Writes
        (get_arrow_decimal_as_string (some (sign negative ++ digits)) scale)
        negative
        (number 0 digits)
        scale
unfolding get_arrow_decimal_as_string sign starts_with are_digits
get_arrow_decimal_as_string-Writes true digits scale h = decimal_text-Writes true digits scale h
get_arrow_decimal_as_string-Writes false [] scale h = decimal_text-Writes false [] scale h
get_arrow_decimal_as_string-Writes false (c ∷ digits) scale h =
    let unsigned : (c == 45) ≡ false = ground (arith, h) in
    rw (unsigned) (decimal_text-Writes false (c ∷ digits) scale h)
