-- ===== src/SqlHelper/Decimals.antt =====
-- SQLHelper.js, `getArrowDecimalAsString`: a decimal that is a whole number and a scale. The value
-- is the text that `String` makes of it, or null.
use huey.Base.{
  ℕ, ◌==◌, Bool, ◌&&◌, Option, none, some, [], ◌∷◌, ◌++◌, zero, suc, ◌-◌, length, take, drop,
  if◌then◌else◌,
}
use huey.Base.Text.{Text, codes, same, starts_with}

unfoldable pub zeros : ℕ → Text
zeros zero = []
zeros (suc n) = 48 ∷ zeros n

-- `replace(/^0+/, '')`.
unfoldable pub trim_start_zeros : Text → Text
trim_start_zeros [] = []
trim_start_zeros (c ∷ s) = let rest = trim_start_zeros s in if c == 48 then rest else c ∷ s

-- `replace(/0+$/, '')`.
unfoldable pub trim_end_zeros : Text → Text
trim_end_zeros [] = []
trim_end_zeros (c ∷ s) =
    let rest = trim_end_zeros s in if c == 48 && length rest == 0 then [] else c ∷ rest

-- `integerPart || '0'`.
unfoldable pub or_zero : Text → Text
or_zero [] = 48 ∷ []
or_zero (c ∷ s) = c ∷ s

unfoldable pub point : Text → Text
point [] = []
point (c ∷ s) = 46 ∷ c ∷ s

unfoldable pub sign : Bool → Text
sign negative = if negative then 45 ∷ [] else []

unfoldable pub tidy : Text → Text
unfolding same
tidy str =
    let str = if same str (codes "-0") then codes "0" else str in
    if same str (codes ".") then codes "0" else str

unfoldable pub decimal_text : Bool → Text → ℕ → Text
unfolding tidy sign or_zero point trim_start_zeros trim_end_zeros zeros
decimal_text is_negative abs_value scale =
    let abs_value = zeros scale ++ abs_value in
    let decimal_place = length abs_value - scale in
    tidy (
      sign is_negative
      ++ (or_zero (trim_start_zeros (take decimal_place abs_value))
          ++ point (trim_end_zeros (drop decimal_place abs_value))))

unfoldable pub get_arrow_decimal_as_string : Option Text → ℕ → Text
unfolding decimal_text starts_with
get_arrow_decimal_as_string none scale = codes "NULL"
get_arrow_decimal_as_string (some str_value) scale =
    let is_negative = starts_with str_value (codes "-") in
    decimal_text is_negative (if is_negative then drop 1 str_value else str_value) scale
