-- ===== src/SqlHelper/Identifiers.antt =====
-- SQLHelper.js: SQL reads back the identifiers and the texts that were quoted.
use huey.Base.{
  ℕ, ◌≡◌, refl, sym, subst, ap, ◌∙◌, Bool, true, false, ◌||◌, Option, none, some, List, [], ◌∷◌,
  ◌++◌, arith, ◌==◌, if◌then◌else◌, Bool-cases, not, ◌&&◌, inl, inr,
}
use mathlib.Core.List.{append-nil, append_assoc}
use huey.Base.Text.{Text, join}
use huey.SqlHelper.Quoting.{
  quote, double_quote, double, quote_string_literal, get_quoted_identifier,
  identifier_requires_quoting, has_special, starts_with_digit, is_digit, is_special, get_identifier,
  get_qualified_identifier,
}
use huey.SqlHelper.Words.{
  dot, is_word, is_first, is_ordinary, are_ordinary, is_empty, are_names, plain-is_word, first_lem,
}

-- Where the reader of a qualified identifier is: before an identifier, in a plain one, in a
-- quoted one, behind a quote that ends it or is the first of two, or at an error.
pub data Place : Type 0 where
  before plain quoted closing failed : Place

pub record Reader : Type 0 where
  pub place : Place
  pub current : Text
  pub finished : List Text

-- `reserved` tells which words are no names without quotes.
module _ (reserved : Text → Bool) where
  read_code : Reader → ℕ → Reader
  read_code r c = elim r.place as (λ x. Reader) [
    | before ↦
        if c == double_quote
        then record r { place = quoted }
        else if is_first c
        then record r { place = plain; current = c ∷ [] }
        else record r { place = failed }
    | plain ↦
        if c == dot
        then (if reserved r.current
            then record r { place = failed }
            else record { place = before; current = []; finished = r.finished ++ r.current ∷ [] })
        else if is_word c
        then record r { current = r.current ++ c ∷ [] }
        else record r { place = failed }
    | quoted ↦
        if c == double_quote
        then record r { place = closing }
        else record r { current = r.current ++ c ∷ [] }
    | closing ↦
        if c == double_quote
        then record r { place = quoted; current = r.current ++ c ∷ [] }
        else if c == dot
        then record { place = before; current = []; finished = r.finished ++ r.current ∷ [] }
        else record r { place = failed }
    | failed ↦ r
  ]

  read_codes : Reader → Text → Reader
  read_codes r [] = r
  read_codes r (c ∷ s) = read_codes (read_code r c) s

  finish : Reader → Option (List Text)
  finish r = elim r.place as (λ x. Option (List Text)) [
    | before ↦ none
    | plain ↦ if reserved r.current then none else some (r.finished ++ r.current ∷ [])
    | quoted ↦ none
    | closing ↦ some (r.finished ++ r.current ∷ [])
    | failed ↦ none
  ]

  -- The parts of an identifier that is qualified with dots, or `none` for what is not one.
  pub read_identifiers : Text → Option (List Text)
  unfolding read_codes finish
  read_identifiers s =
      finish (read_codes (record { place = before; current = []; finished = [] }) s)

  read_codes-append :
      (r : Reader) (s t : Text) → read_codes r (s ++ t) ≡ read_codes (read_codes r s) t
  unfolding read_codes
  read_codes-append r [] t = refl
  read_codes-append r (c ∷ s) t = read_codes-append (read_code r c) s t

abbrev at : Place → Text → List Text → Reader
at p s l = record { place = p; current = s; finished = l }

module _ (reserved : Text → Bool) where
  abbrev reading : Reader → Text → Reader
  reading r s = read_codes reserved r s

  -- Inside quotes, a text with its quotes doubled is read as that text.
  read_codes-double :
      (s current : Text) (l : List Text)
      → reading (at quoted current l) (double double_quote s) ≡ at quoted (current ++ s) l
  unfolding read_codes read_code double
  read_codes-double [] current l = rw append-nil refl
  read_codes-double (c ∷ s) current l =
      ground (arith, read_codes-double s (current ++ c ∷ []) l, append_assoc current (c ∷ []) s)

  read-quoted :
      (s current : Text) (l : List Text)
      → reading (at before current l) (get_quoted_identifier s) ≡ at closing (current ++ s) l
  unfolding read_codes read_code get_quoted_identifier
  read-quoted s current l =
      read_codes-append reserved (at quoted current l) (double double_quote s) (double_quote ∷ [])
      ∙ rw (read_codes-double s current l) refl

  read-plain :
      (s current : Text) (l : List Text)
      → has_special s ≡ false
      → are_ordinary s ≡ true
      → reading (at plain current l) s ≡ at plain (current ++ s) l
  unfolding read_codes read_code has_special are_ordinary
  read-plain [] current l h k = rw append-nil refl
  read-plain (c ∷ s) current l h k =
      let head : is_special c ≡ false = ground arith in
      let tail : has_special s ≡ false = ground arith in
      let ordinary : is_ordinary c ≡ true = ground (arith, k) in
      let behind : are_ordinary s ≡ true = ground (arith, k) in
      let (word, not_dot, _) = plain-is_word c head ordinary in
      rw (not_dot, word)
        (read-plain s (current ++ c ∷ []) l tail behind ∙ rw (append_assoc current (c ∷ []) s) refl)

  -- Where an identifier that needs no quotes, or one in quotes, has been read.
  data IsRead (s : Text) (l : List Text) : Reader → Type 0 where
    plainly : reserved s ≡ false → IsRead s l (at plain s l)
    in_quotes : IsRead s l (at closing s l)

  IsRead-finish :
      {s : Text} {l : List Text} (r : Reader)
      → IsRead s l r
      → finish reserved r ≡ some (l ++ s ∷ [])
  unfolding finish
  IsRead-finish r (plainly e) = rw e refl
  IsRead-finish r in_quotes = refl

  IsRead-dot :
      {s : Text} {l : List Text} (r : Reader)
      → IsRead s l r
      → read_code reserved r dot ≡ at before [] (l ++ s ∷ [])
  unfolding read_code
  IsRead-dot r (plainly e) = rw e refl
  IsRead-dot r in_quotes = refl

  bare_facts :
      (c : ℕ) (s : Text)
      → identifier_requires_quoting reserved (c ∷ s) ≡ false
      → (reserved (c ∷ s) ≡ false)
        × (is_digit c ≡ false)
        × (is_special c ≡ false)
        × (has_special s ≡ false)
  unfolding identifier_requires_quoting starts_with_digit has_special
  bare_facts c s h = (ground arith, ground arith, ground arith, ground arith)

  ordinary_facts :
      (c : ℕ) (s : Text)
      → are_ordinary (c ∷ s) ≡ true
      → (is_ordinary c ≡ true) × (are_ordinary s ≡ true)
  unfolding are_ordinary
  ordinary_facts c s h = (ground arith, ground arith)

  read-one : (r : Reader) (c : ℕ) → reading r (c ∷ []) ≡ read_code reserved r c
  unfolding read_codes
  read-one r c = refl

  read-first :
      (c : ℕ) (l : List Text)
      → (c == double_quote) ≡ false
      → is_first c ≡ true
      → read_code reserved (at before [] l) c ≡ at plain (c ∷ []) l
  unfolding read_code
  read-first c l h k = rw (h, k) refl

  bare-IsRead :
      (s : Text) (l : List Text)
      → identifier_requires_quoting reserved s ≡ false
      → is_empty s ≡ false
      → are_ordinary s ≡ true
      → IsRead s l (reading (at before [] l) s)
  unfolding is_empty
  bare-IsRead [] l h e k = absurd (ground (arith, e))
  bare-IsRead (c ∷ s) l h e k =
      let (free, no_digit, head, tail) = bare_facts c s h in
      let (ordinary, behind) = ordinary_facts c s k in
      let (word, _, not_quote) = plain-is_word c head ordinary in
      let whole =
        read_codes-append reserved (at before [] l) (c ∷ []) s
        ∙ ap (λ r. reading r s) (read-one (at before [] l) c)
        ∙ ap (λ r. reading r s) (read-first c l not_quote (first_lem c word no_digit))
        ∙ read-plain s (c ∷ []) l tail behind in
      subst (IsRead (c ∷ s) l) (sym whole) (plainly free)

  identifier-IsRead :
      (s : Text) (always : Bool) (l : List Text)
      → always || (not (is_empty s) && are_ordinary s) ≡ true
      → IsRead s l (reading (at before [] l) (get_identifier reserved s always))
  unfolding get_identifier
  identifier-IsRead s always l names =
      elim (Bool-cases (always || identifier_requires_quoting reserved s)) [
        | inl h ↦ rw (h, read-quoted s [] l) in_quotes
        | inr h ↦ rw h (
            bare-IsRead s l (ground (arith, h)) (ground (arith, h, names))
              (ground (arith, h, names)))
      ]

  abbrev qualified : List Text → Bool → Text
  qualified identifiers always = get_qualified_identifier reserved identifiers always

  read-qualified :
      (s : Text) (identifiers : List Text) (always : Bool) (l : List Text)
      → always || are_names (s ∷ identifiers) ≡ true
      → finish reserved (reading (at before [] l) (qualified (s ∷ identifiers) always))
        ≡ some (l ++ s ∷ identifiers)
  unfolding get_qualified_identifier join read_codes read_code are_names
  read-qualified s [] always l names =
      IsRead-finish (reading (at before [] l) (get_identifier reserved s always))
        (identifier-IsRead s always l (ground (arith, names)))
  read-qualified s (t ∷ identifiers) always l names =
      let first = get_identifier reserved s always in
      let rest = qualified (t ∷ identifiers) always in
      ap (finish reserved) (
        read_codes-append reserved (at before [] l) first (dot ∷ rest)
        ∙ ap (λ (r : Reader). reading r rest)
            (IsRead-dot (reading (at before [] l) first)
              (identifier-IsRead s always l (ground (arith, names)))))
      ∙ read-qualified t identifiers always (l ++ s ∷ []) (ground (arith, names))
      ∙ ap some (append_assoc l (s ∷ []) (t ∷ identifiers))

  -- Whatever the words that are reserved, when quotes are always put or no identifier is empty
  -- or has `$`, `,`, a backquote, `|` or a control character that is not white space: a
  -- qualified identifier of one or more parts reads back as the parts it was made of, where a
  -- part without quotes must be a word that is not reserved, of letters, digits and `_` or
  -- characters that are not ASCII, and not begin with a digit.
  pub read_identifiers-get_qualified_identifier :
      (s : Text) (identifiers : List Text) (always : Bool)
      → always || are_names (s ∷ identifiers) ≡ true
      → read_identifiers reserved (get_qualified_identifier reserved (s ∷ identifiers) always)
        ≡ some (s ∷ identifiers)
  unfolding read_identifiers
  read_identifiers-get_qualified_identifier s identifiers always names =
      read-qualified s identifiers always [] names

with_code : ℕ → Option (Text × Text) → Option (Text × Text)
with_code c none = none
with_code c (some (s, rest)) = some (c ∷ s, rest)

-- A reader of the text behind the quote that begins a string literal: a doubled quote stands
-- for one, and a single one ends the text. It returns what is left. The flag tells
-- whether a quote has just been read.
read_string : Bool → Text → Option (Text × Text)
unfolding with_code
read_string true [] = some ([], [])
read_string false [] = none
read_string true (c ∷ s) =
    let rest = read_string false s in if c == quote then with_code quote rest else some ([], c ∷ s)
read_string false (c ∷ s) =
    let rest = read_string (c == quote) s in if c == quote then rest else with_code c rest

-- A string literal at the start of a text, and what is left behind it.
pub read_string_literal : Text → Option (Text × Text)
unfolding read_string
read_string_literal [] = none
read_string_literal (c ∷ s) = let rest = read_string false s in if c == quote then rest else none

unfoldable pub begins_with_quote : Text → Bool
begins_with_quote [] = false
begins_with_quote (c ∷ s) = c == quote

read_string-double :
    (s rest : Text)
    → begins_with_quote rest ≡ false
    → read_string false (double quote s ++ quote ∷ rest) ≡ some (s, rest)
unfolding read_string begins_with_quote double with_code
read_string-double [] [] h = refl
read_string-double [] (d ∷ rest) h = ground arith
read_string-double (c ∷ s) rest h = ground (arith, read_string-double s rest h)

-- The literal that `quoteStringLiteral` makes of a text, with anything behind it that does not
-- begin with a quote, reads as that text, and what is left is what was behind it.
pub read_string_literal-quote_string_literal :
    (s rest : Text)
    → begins_with_quote rest ≡ false
    → read_string_literal (quote_string_literal s ++ rest) ≡ some (s, rest)
unfolding read_string_literal quote_string_literal
read_string_literal-quote_string_literal s rest h =
    ap (read_string false) (append_assoc (double quote s) (quote ∷ []) rest)
    ∙ read_string-double s rest h
