-- ===== src/DataSet/TupleSet/Load.antt =====
-- TupleSet.js, `#loadTuples`: the rows of a result set become tuples in the cache.
use huey.Base.{
  ℕ, zero, suc, ◌+◌, ◌-◌, Bool, ◌&&◌, Option, none, some, List, [], ◌∷◌, String, get_elem?, take,
  drop, ltb, ◌==◌, if◌then◌else◌,
}
use text.Mathlib.Text.{◌==◌ as str_eq}
use huey.Base.Result.{Result, ok, throw, type_error, ◌>>=◌}
use huey.DataSet.TupleSet.{
  Tuple, TupleSet, ResultSet, grouping_id_alias, touch_tuple, store_tuple, enforce_cache_limits,
}

unfoldable pub last_field : String → List String → String
last_field first [] = first
last_field first (next ∷ rest) = last_field next rest

module _ {V : Type 0} where
  -- `values[j - fieldOffset] = row[fields[j].name]` for `count` indices from `j` on.
  unfoldable pub read_values : List String → (String → V) → ℕ → ℕ → Result (List V)
  read_values fields row j zero = ok []
  read_values fields row j (suc count) = elim (get_elem? fields j) [
    | none ↦ throw type_error
    | some name ↦ do rest ← read_values fields row (suc j) count; ok (row name ∷ rest)
  ]

-- `number_of` is the number that a value is read as: `parseInt` of a count, the comparison of a
-- grouping id with 0.
module _ {V : Type 0} (number_of : V → ℕ) where
  unfoldable pub to_tuple : List String → Bool → ℕ → (String → V) → Result (Tuple V)
  unfolding read_values
  to_tuple fields has_grouping_id item_count row = do
    values ← read_values fields row (if has_grouping_id then 1 else 0) item_count
    let grouping_id = number_of (row grouping_id_alias)
    ok (record {
      values = values;
      grouping_id = if has_grouping_id && ltb 0 grouping_id then some grouping_id else none;
    })

  -- The tuple count that a page at `offset` sets, where the last column reads as a natural number;
  -- NaN and negative counts are not modelled.
  unfoldable pub load_count : Option ℕ → ResultSet V → String → ℕ → Option ℕ → Option ℕ
  load_count old rs last offset total_count =
      if offset == 0
      then elim total_count [
        | some n ↦ some n
        | none ↦ elim rs.rows [ [] ↦ some 0 | row ∷ rows ↦ some (number_of (row last)) ]
      ]
      else old

  -- The tuple count and the fields, set before the rows are read; `first ∷ rest` are the fields.
  unfoldable pub begin_load :
      ℕ → String → List String → ResultSet V → ℕ → Option ℕ → TupleSet V → TupleSet V
  unfolding last_field load_count
  begin_load item_count first rest rs offset total_count s =
      let field_offset : ℕ = if str_eq first grouping_id_alias then 1 else 0 in
      let field_count = item_count + field_offset in
      record s {
        tuple_count = load_count s.tuple_count rs (last_field first rest) offset total_count;
        tuple_value_fields = take (field_count - field_offset) (drop field_offset (first ∷ rest));
      }

module _ {V : Type 0} (json_key_size : ℕ → ℕ) (json_tuple_size : Tuple V → ℕ)
    (number_of : V → ℕ) where
  unfoldable pub load_rows :
      List String → Bool → ℕ → ℕ → List (String → V) → TupleSet V → TupleSet V × Result (Unit {0})
  load_rows fields has_grouping_id item_count index [] s = (s, ok tt)
  load_rows fields has_grouping_id item_count index (row ∷ rows) s =
      elim (to_tuple number_of fields has_grouping_id item_count row) [
        | throw e ↦ (s, throw e)
        | ok tuple ↦
            load_rows fields has_grouping_id item_count (suc index) rows
              (touch_tuple (store_tuple json_key_size json_tuple_size s index tuple) index)
      ]

  -- A call that throws keeps what it has written. `item_count` is the number of items of the axis.
  unfoldable pub load_tuples :
      ℕ → ResultSet V → ℕ → Option ℕ → TupleSet V → TupleSet V × Result (Unit {0})
  unfolding load_rows begin_load
  load_tuples item_count rs offset total_count s = elim rs.fields [
    | [] ↦ (s, throw type_error)
    | first ∷ rest ↦
        let (loaded, result) =
          load_rows (first ∷ rest) (str_eq first grouping_id_alias) item_count offset rs.rows
            (begin_load number_of item_count first rest rs offset total_count s) in
        elim result [ ok _ ↦ (enforce_cache_limits loaded, ok tt) | throw e ↦ (loaded, throw e) ]
  ]
