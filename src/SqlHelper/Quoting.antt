-- ===== src/SqlHelper/Quoting.antt =====
-- SQLHelper.js: quoting of texts and identifiers. `reserved` tells whether the text in lower case
-- is among the words that `getReservedWords` gets from the database. The message of an error
-- is the part of it that does not quote the argument.
use huey.Base.{
  ℕ, ◌≡◌, refl, Bool, false, ◌&&◌, ◌||◌, Option, none, some, List, [], ◌∷◌, ◌++◌, map, arith, ◌==◌,
  leb, if◌then◌else◌, length,
}
use huey.Base.Result.{Result, ok, throw, error}
use huey.Base.Text.{
  Text, codes, starts_with, ends_with, slice_to, includes_code, join, starts_with-append,
  ends_with-between, slice_to-append,
}

abbrev pub quote : ℕ
quote = 39

abbrev pub double_quote : ℕ
double_quote = 34

-- `str.replace(/'/g, "''")`, for any quote.
unfoldable pub double : ℕ → Text → Text
double q [] = []
double q (c ∷ s) = let rest = double q s in if c == q then q ∷ q ∷ rest else c ∷ rest

unfoldable pub quote_string_literal : Text → Text
unfolding double
quote_string_literal s = quote ∷ (double quote s ++ quote ∷ [])

unfoldable pub get_quoted_identifier : Text → Text
unfolding double
get_quoted_identifier identifier =
    double_quote ∷ (double double_quote identifier ++ double_quote ∷ [])

-- `endQuote || startQuote`.
unfoldable pub end_or_start : Option Text → Text → Text
end_or_start none start_quote = start_quote
end_or_start (some []) start_quote = start_quote
end_or_start (some (c ∷ s)) start_quote = c ∷ s

unfoldable pub is_quoted : Text → Text → Option Text → Bool
unfolding end_or_start starts_with ends_with
is_quoted s start_quote end_quote =
    starts_with s start_quote && ends_with s (end_or_start end_quote start_quote)

unfoldable pub is_quoted_identifier : Text → Bool
unfolding is_quoted
is_quoted_identifier s = is_quoted s (double_quote ∷ []) none

unfoldable pub un_quote : Text → Text → Option Text → Result Text
unfolding end_or_start starts_with ends_with slice_to
un_quote s start_quote end_quote =
    let end = end_or_start end_quote start_quote in
    if starts_with s start_quote
    then (if ends_with s end
        then ok (slice_to (length start_quote) (length end) s)
        else throw (error "Cannot unquote value: must end with"))
    else throw (error "Cannot unquote value")

unfoldable pub un_quote_string_literal : Text → Result Text
unfolding un_quote
un_quote_string_literal s = un_quote s (quote ∷ []) none

unfoldable pub un_quote_identifier : Text → Result Text
unfolding un_quote
un_quote_identifier s = un_quote s (double_quote ∷ []) none

-- `\d`.
unfoldable pub is_digit : ℕ → Bool
is_digit c = leb 48 c && leb c 57

-- `\s`.
unfoldable pub is_space : ℕ → Bool
is_space c =
    (leb 9 c && leb c 13)
    || (c == 32)
    || (c == 160)
    || (c == 5760)
    || (leb 8192 c && leb c 8202)
    || (c == 8232)
    || (c == 8233)
    || (c == 8239)
    || (c == 8287)
    || (c == 12288)
    || (c == 65279)

-- The characters of the class in the regular expression, after `\s`.
unfoldable pub special_codes : Text
special_codes = codes "[]{}()./+-&*^?\\<>'\"%=~!:;@#"

unfoldable pub is_special : ℕ → Bool
unfolding is_space special_codes includes_code
is_special c = is_space c || includes_code special_codes c

unfoldable pub has_special : Text → Bool
unfolding is_special
has_special [] = false
has_special (c ∷ s) = let rest = has_special s in is_special c || rest

unfoldable pub starts_with_digit : Text → Bool
unfolding is_digit
starts_with_digit [] = false
starts_with_digit (c ∷ s) = is_digit c

module _ (reserved : Text → Bool) where
  unfoldable pub identifier_requires_quoting : Text → Bool
  unfolding has_special starts_with_digit
  identifier_requires_quoting identifier =
      reserved identifier || starts_with_digit identifier || has_special identifier

  unfoldable pub quote_identifier_when_required : Text → Text
  unfolding is_quoted_identifier identifier_requires_quoting get_quoted_identifier
  quote_identifier_when_required identifier =
      if is_quoted_identifier identifier
      then identifier
      else if identifier_requires_quoting identifier
      then get_quoted_identifier identifier
      else identifier

  unfoldable pub get_identifier : Text → Bool → Text
  unfolding identifier_requires_quoting get_quoted_identifier
  get_identifier identifier quote_always =
      if quote_always || identifier_requires_quoting identifier
      then get_quoted_identifier identifier
      else identifier

  -- On a list of identifiers, with the option `alwaysQuoteIdentifiers`.
  unfoldable pub get_qualified_identifier : List Text → Bool → Text
  unfolding get_identifier join
  get_qualified_identifier identifiers always_quote_identifiers =
      join (codes ".") (map (λ (i : Text). get_identifier i always_quote_identifiers) identifiers)

-- The text between a start and an end is what is left when they are taken off.
pub un_quote-between :
    (start s : Text) (c : ℕ) (end : Text)
    → un_quote (start ++ (s ++ c ∷ end)) start (some (c ∷ end)) ≡ ok s
unfolding un_quote end_or_start
un_quote-between start s c end =
    rw
      (
        starts_with-append start (s ++ c ∷ end),
        ends_with-between start s (c ∷ end),
        slice_to-append start s (c ∷ end) (λ e. ground arith),
      )
      refl
