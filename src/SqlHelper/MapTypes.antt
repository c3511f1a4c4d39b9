-- ===== src/SqlHelper/MapTypes.antt =====
-- SQLHelper.js: the types of the keys, values and entries of a MAP as DuckDB writes it.
use huey.Base.{ℕ, suc, ◌+◌, ◌-◌, ◌≡◌, refl, ◌∙◌, true, some, [], ◌∷◌, ◌++◌, arith}
use mathlib.Core.List.{append_assoc}
use huey.Base.Result.{ok}
use huey.Base.Text.{Text, codes, ends_with-between, starts_with-append}
use huey.SqlHelper.Quoting.{un_quote, un_quote-between}
use huey.SqlHelper.Types.{comma, right, with_first, is_map_type}
use huey.SqlHelper.Maps.{
  trim, trim_start, split_key, get_map_key_value_type, get_map_key_type, get_map_value_type,
  get_member_type_of_word, get_map_entry_type,
}
use huey.SqlHelper.Members.{}
use huey.SqlHelper.Fields.{is_balanced}

-- A MAP as DuckDB writes it.
unfoldable pub show_map : Text → Text → Text
show_map key value = codes "MAP(" ++ ((key ++ codes ", " ++ value) ++ codes ")")

-- The type of the entries of a MAP.
unfoldable pub show_entry : Text → Text → Text
show_entry key value = codes "STRUCT(key " ++ (key ++ (codes ", value " ++ (value ++ codes ")")))

split_key-balanced :
    (level lefts rights : ℕ) (key rest : Text)
    → is_balanced level key ≡ true
    → lefts ≡ level + rights
    → split_key lefts rights (key ++ comma ∷ rest) ≡ (key, rest)
unfolding split_key is_balanced with_first
split_key-balanced level lefts rights [] rest b e = ground arith
split_key-balanced level lefts rights (c ∷ key) rest b e = ground (
  arith,
  split_key-balanced (suc level) (suc lefts) rights key rest,
  split_key-balanced (level - 1) lefts (suc rights) key rest,
  split_key-balanced level lefts rights key rest,
)

is_map_type-show_map : (key value : Text) → is_map_type (show_map key value) ≡ true
unfolding is_map_type show_map
is_map_type-show_map key value =
    let inside = key ++ codes ", " ++ value in
    rw
      (
        starts_with-append (codes "MAP(") (inside ++ codes ")"),
        ends_with-between (codes "MAP(") inside (codes ")"),
      )
      refl

un_quote-show_map :
    (key value : Text)
    → un_quote (show_map key value) (codes "MAP(") (some (codes ")"))
      ≡ ok (key ++ codes ", " ++ value)
unfolding show_map
un_quote-show_map key value = un_quote-between (codes "MAP(") (key ++ codes ", " ++ value) right []

get_map_key_value_type-show_map :
    (key value : Text)
    → is_balanced 0 key ≡ true
    → get_map_key_value_type (show_map key value) ≡ ok (trim key, trim value)
unfolding get_map_key_value_type trim trim_start
get_map_key_value_type-show_map key value b =
    let found : split_key 0 0 (key ++ codes ", " ++ value) ≡ (key, 32 ∷ value) =
      rw (append_assoc key (codes ", ") value) (split_key-balanced 0 0 0 key (32 ∷ value) b refl) in
    rw (is_map_type-show_map key value, un_quote-show_map key value, found) refl

member_words :
    (type : Text)
    → is_map_type type ≡ true
    → (get_member_type_of_word type (codes "key") ≡ get_map_key_type type)
      × (get_member_type_of_word type (codes "value") ≡ get_map_value_type type)
unfolding get_member_type_of_word
member_words type h = (rw (h, get_member_type_of_word) refl, rw (h, get_member_type_of_word) refl)

get_map_entry_type-show_entry :
    (type key value : Text)
    → get_member_type_of_word type (codes "key") ≡ ok key
    → get_member_type_of_word type (codes "value") ≡ ok value
    → get_map_entry_type type ≡ ok (show_entry key value)
unfolding get_map_entry_type show_entry
get_map_entry_type-show_entry type key value k v = rw (k, v, get_map_entry_type) refl

module _ (key value : Text) (b : is_balanced 0 key ≡ true) where
  pub key_type : get_map_key_type (show_map key value) ≡ ok (trim key)
  unfolding get_map_key_type
  key_type = rw (get_map_key_value_type-show_map key value b) refl

  pub value_type : get_map_value_type (show_map key value) ≡ ok (trim value)
  unfolding get_map_value_type
  value_type = rw (get_map_key_value_type-show_map key value b) refl

  pub entry_type : get_map_entry_type (show_map key value) ≡ ok (show_entry (trim key) (trim value))
  entry_type =
      let map_type = show_map key value in
      let (at_key, at_value) = member_words map_type (is_map_type-show_map key value) in
      get_map_entry_type-show_entry map_type (trim key) (trim value) (at_key ∙ key_type)
        (at_value ∙ value_type)
