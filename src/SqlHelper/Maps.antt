-- ===== src/SqlHelper/Maps.antt =====
-- SQLHelper.js: the types of the keys and values of a MAP, and of its entries.
use huey.Base.{ℕ, suc, ◌&&◌, some, [], ◌∷◌, ◌++◌, ◌==◌, if◌then◌else◌}
use huey.Base.Result.{Result, ok, throw, error, ◌>>=◌}
use huey.Base.Text.{Text, codes, same}
use huey.SqlHelper.Quoting.{un_quote, is_space}
use huey.SqlHelper.Types.{comma, left, right, with_first, is_map_type, get_array_type}

unfoldable pub trim_start : Text → Text
unfolding is_space
trim_start [] = []
trim_start (c ∷ s) = let rest = trim_start s in if is_space c then rest else c ∷ s

unfoldable pub trim_end : Text → Text
unfolding is_space
trim_end [] = []
trim_end (c ∷ s) = elim (trim_end s) [
  | [] ↦ if is_space c then [] else c ∷ []
  | d ∷ rest ↦ c ∷ d ∷ rest
]

unfoldable pub trim : Text → Text
unfolding trim_start trim_end
trim s = trim_end (trim_start s)

-- The texts before and behind the first comma at level 0. The level, which may fall below 0, is
-- the number of left parentheses less that of right ones.
unfoldable pub split_key : ℕ → ℕ → Text → Text × Text
unfolding with_first
split_key lefts rights [] = ([], [])
split_key lefts rights (c ∷ s) =
    let lefts_next = if c == left then suc lefts else lefts in
    let rights_next = if c == right then suc rights else rights in
    let rest = split_key lefts_next rights_next s in
    if (c == comma) && (lefts == rights) then ([], s) else with_first c rest

-- The type of the keys and that of the values.
unfoldable pub get_map_key_value_type : Text → Result (Text × Text)
unfolding is_map_type un_quote split_key trim
get_map_key_value_type map_type =
    if is_map_type map_type
    then (un_quote map_type (codes "MAP(") (some (codes ")")) >>= λ element_types.
        let (key_type, value_type) = split_key 0 0 element_types in
        ok (trim key_type, trim value_type))
    else throw (error "Expected a MAP type")

unfoldable pub get_map_key_type : Text → Result Text
unfolding get_map_key_value_type
get_map_key_type map_type = get_map_key_value_type map_type >>= λ types. ok types.0

unfoldable pub get_map_value_type : Text → Result Text
unfolding get_map_key_value_type
get_map_value_type map_type = get_map_key_value_type map_type >>= λ types. ok types.1

-- `getMemberExpressionType` with a word for a path.
unfoldable pub get_member_type_of_word : Text → Text → Result Text
unfolding is_map_type get_map_key_type get_map_value_type same
get_member_type_of_word type word = elim word as (λ x. Result Text) [
  | [] ↦ ok type
  | c ∷ s ↦
      if is_map_type type
      then (if same (c ∷ s) (codes "key")
          then get_map_key_type type
          else if same (c ∷ s) (codes "value")
          then get_map_value_type type
          else throw (error "Don't know how to handle memberExpressionPath"))
      else throw (error "Expected a MAP type")
]

unfoldable pub get_map_entry_type : Text → Result Text
unfolding get_member_type_of_word
get_map_entry_type map_type = get_member_type_of_word map_type (codes "key") >>= λ key_type.
    get_member_type_of_word map_type (codes "value") >>= λ value_type.
    ok (codes "STRUCT(key " ++ (key_type ++ (codes ", value " ++ (value_type ++ codes ")"))))

unfoldable pub get_map_entries_type : Text → Result Text
unfolding get_map_entry_type get_array_type
get_map_entries_type map_type =
    get_map_entry_type map_type >>= λ entry_type. ok (get_array_type entry_type)
