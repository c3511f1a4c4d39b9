-- ===== src/SqlHelper/Tests.antt =====
-- SQLHelper.js with concrete texts.
use huey.Base.{Bool, true, false, ◌≡◌, refl, some, List, [], ◌∷◌, ◌++◌, is_some}
use huey.Base.Result.{ok, throw, error}
use huey.Base.Text.{Text, codes, same}
use huey.SqlHelper.Quoting.{
  quote_string_literal, get_qualified_identifier, un_quote_identifier, get_quoted_identifier,
}
use huey.SqlHelper.Words.{are_names}
use huey.SqlHelper.Identifiers.{
  read_identifiers, read_string_literal, begins_with_quote,
  read_identifiers-get_qualified_identifier, read_string_literal-quote_string_literal,
}
use huey.SqlHelper.Types.{Structure, get_member, get_struct_type_descriptor}
use huey.SqlHelper.Fields.{Field, show_struct, type_of, are_readable, is_balanced}
use huey.SqlHelper.Descriptor.{get_struct_type_descriptor-show_struct}
use huey.SqlHelper.Maps.{trim}
use huey.SqlHelper.Members.{get_member_expression_type}
use huey.SqlHelper.MapTypes.{show_map}
use huey.SqlHelper.Decimals.{sign, get_arrow_decimal_as_string}
use huey.SqlHelper.Rational.{are_digits, number, Writes, get_arrow_decimal_as_string-Writes}
use huey.SqlHelper.Ends.{get_member_expression_type-is_some}
use huey.SqlHelper.Paths.{
  here, element, member, values, is_special_word, get_member_expression_type-LeadsTo,
}

abbrev select_only : Text → Bool
select_only s = same s (codes "select")

read_identifiers-get_qualified_identifier_example :
    read_identifiers select_only (
      get_qualified_identifier select_only (codes "select" ∷ codes "a\"b.c" ∷ codes "d" ∷ []) false)
    ≡ some (codes "select" ∷ codes "a\"b.c" ∷ codes "d" ∷ [])
unfolding are_names
read_identifiers-get_qualified_identifier_example =
    read_identifiers-get_qualified_identifier select_only (codes "select")
      (codes "a\"b.c" ∷ codes "d" ∷ []) false refl

-- A comma is no reason to quote.
qualified :
    get_qualified_identifier select_only (codes "select" ∷ codes "a,b" ∷ []) false
    ≡ codes "\"select\".a,b"
unfolding get_qualified_identifier same
qualified = refl

-- The quotes inside stay doubled.
unquoted : un_quote_identifier (get_quoted_identifier (codes "a\"b")) ≡ ok (codes "a\"\"b")
unfolding un_quote_identifier get_quoted_identifier
unquoted = refl

read_string_literal-quote_string_literal_example :
    read_string_literal (quote_string_literal (codes "it's") ++ codes ", 2")
    ≡ some (codes "it's", codes ", 2")
unfolding begins_with_quote
read_string_literal-quote_string_literal_example =
    read_string_literal-quote_string_literal (codes "it's") (codes ", 2") refl

abbrev inner : Field
inner = record { name = codes "a b"; in_quotes = true; type = codes "MAP(VARCHAR, DECIMAL(10,2))" }

abbrev outer : Field
outer = record { name = codes "id"; in_quotes = false; type = codes "INTEGER[]" }

struct_text :
    show_struct outer (inner ∷ [])
    ≡ codes "STRUCT(id INTEGER[], \"a b\" MAP(VARCHAR, DECIMAL(10,2)))"
unfolding show_struct
struct_text = refl

get_struct_type_descriptor-show_struct_example :
    (structure : Structure) × (get_struct_type_descriptor (show_struct outer (inner ∷ []))
      ≡ some (ok structure))
    × ((name : Text) → get_member structure name ≡ type_of (outer ∷ inner ∷ []) name)
unfolding are_readable
get_struct_type_descriptor-show_struct_example =
    get_struct_type_descriptor-show_struct outer (inner ∷ []) refl

-- A quote inside a name, which DuckDB doubles, is not read.
quote_in_name :
    get_struct_type_descriptor (codes "STRUCT(\"a\"\"b\" INTEGER)")
    ≡ some (throw (error "Error parsing STRUCT: expected \"  \""))
unfolding get_struct_type_descriptor
quote_in_name = refl

get_member_expression_type-is_some_example :
    is_some (get_member_expression_type (some (codes "STRUCT(\"a")) (codes "a" ∷ codes "b" ∷ []))
    ≡ true
get_member_expression_type-is_some_example =
    get_member_expression_type-is_some (codes "a" ∷ codes "b" ∷ []) (some (codes "STRUCT(\"a"))

abbrev path : List Text
path = codes "a b" ∷ codes "map_values()" ∷ codes "unnest()" ∷ []

get_member_expression_type-LeadsTo_example :
    get_member_expression_type (some (show_struct outer (inner ∷ []))) path
    ≡ some (ok (some (codes "DECIMAL(10,2)")))
unfolding are_readable is_special_word type_of is_balanced trim show_map
get_member_expression_type-LeadsTo_example = get_member_expression_type-LeadsTo path (
    member outer (inner ∷ []) (codes "a b") (codes "MAP(VARCHAR, DECIMAL(10,2))") refl refl refl (
      values (codes "VARCHAR") (codes "DECIMAL(10,2)") refl refl
        (element (codes "DECIMAL(10,2)") here)))

negative_decimal : get_arrow_decimal_as_string (some (codes "-1230")) 2 ≡ codes "-12.3"
unfolding get_arrow_decimal_as_string
negative_decimal = refl

small_decimal : get_arrow_decimal_as_string (some (codes "5")) 3 ≡ codes "0.005"
unfolding get_arrow_decimal_as_string
small_decimal = refl

get_arrow_decimal_as_string-Writes_example :
    Writes
      (get_arrow_decimal_as_string (some (sign true ++ codes "1230")) 2)
      true
      (number 0 (codes "1230"))
      2
unfolding are_digits
get_arrow_decimal_as_string-Writes_example =
    get_arrow_decimal_as_string-Writes true (codes "1230") 2 refl
