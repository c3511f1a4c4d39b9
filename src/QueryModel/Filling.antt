-- ===== src/QueryModel/Filling.antt =====
-- QueryModel.js: what `addItem` fills in does not change which item it is.
use huey.Base.{◌≡◌, ◌∙◌, Option, List, String, arith}
use huey.Base.Result.{Result, ok, ◌>>=◌, >>=-ok}
use huey.QueryModel.Item.{Item, key}
use huey.QueryModel.Model.{}
use huey.QueryModel.Operations.{
  fill_column_type, fill, fill_formatter, fill_literal_writer, fill_parser,
}
use huey.QueryModel.WellFormed.{}
use huey.QueryModel.Kept.{}

module _ {V : Type 0} (get_column_metadata : V → List (String × String))
    (create_formatter : Item V → Result (Option V))
    (create_literal_writer : Item V → Result (Option V))
    (create_parser : Item V → Result (Option V)) where
  -- What is filled in does not change which item it is.
  fill_column_type-key :
      (datasource : Option V) (found : Option (Item V)) (config filled : Item V)
      → fill_column_type get_column_metadata create_formatter create_literal_writer create_parser
          datasource found config
        ≡ ok filled
      → key filled ≡ key config
  unfolding fill_column_type key
  fill_column_type-key datasource found config filled h = ground arith

  fill_formatter-key :
      (found : Option (Item V)) (config filled : Item V)
      → fill_formatter get_column_metadata create_formatter create_literal_writer create_parser
          found config
        ≡ ok filled
      → key filled ≡ key config
  unfolding fill_formatter key
  fill_formatter-key found config filled h = ground arith

  fill_literal_writer-key :
      (found : Option (Item V)) (config filled : Item V)
      → fill_literal_writer get_column_metadata create_formatter create_literal_writer create_parser
          found config
        ≡ ok filled
      → key filled ≡ key config
  unfolding fill_literal_writer key
  fill_literal_writer-key found config filled h = ground arith

  fill_parser-key :
      (found : Option (Item V)) (config filled : Item V)
      → fill_parser get_column_metadata create_formatter create_literal_writer create_parser found
          config
        ≡ ok filled
      → key filled ≡ key config
  unfolding fill_parser key
  fill_parser-key found config filled h = ground arith

  pub fill-key :
      (datasource : Option V) (found : Option (Item V)) (config filled : Item V)
      → fill get_column_metadata create_formatter create_literal_writer create_parser datasource
          found config
        ≡ ok filled
      → key filled ≡ key config
  unfolding fill
  fill-key datasource found config filled h =
      let typed =
        fill_column_type get_column_metadata create_formatter create_literal_writer create_parser
          datasource found config in
      let formatted =
        fill_formatter get_column_metadata create_formatter create_literal_writer create_parser
          found in
      let written =
        fill_literal_writer get_column_metadata create_formatter create_literal_writer create_parser
          found in
      let parsed =
        fill_parser get_column_metadata create_formatter create_literal_writer create_parser
          found in
      let (c, d, k) = >>=-ok (typed >>= formatted >>= written) parsed filled h in
      let (b, e, j) = >>=-ok (typed >>= formatted) written c d in
      let (a, f, i) = >>=-ok typed formatted b e in
      fill_parser-key found c filled k
      ∙ fill_literal_writer-key found b c j
      ∙ fill_formatter-key found a b i
      ∙ fill_column_type-key datasource found config a f
