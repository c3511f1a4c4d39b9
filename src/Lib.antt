-- ===== src/Lib.antt =====
-- Huey, a pivot table over DuckDB in the browser: the core behind its user interface.
--
-- A query model (src/QueryModel) says which items stand on the filter, columns, rows and cells
-- axis of a query. A tuple set (src/DataSet/TupleSet.js) reads the tuples of one axis by pages
-- and keeps them in a cache; a cell set (src/DataSet/CellSet.js) addresses the cells where the
-- tuples of the axes meet, and keeps their values in a cache. Both caches evict when the number
-- of entries or the length of their JSON text passes a limit of the settings.
--
-- Base: JavaScript's data. Base/JsMap is a Map with number keys, Base/Sparse an array with holes,
--   Base/Dict an object with string keys, all in insertion order where that matters; Base/Result
--   is a call that returns or throws; Base/Lists and Base/Tests are lists and tests on native
--   numbers; Base/Text is a string as the list of its codes.
-- DataSet/Limits, DataSet/Sizes: the limits of the caches, and the length of a JSON text.
-- DataSet/TupleSet: TupleSet.js. The record `TupleSet` has the private fields; `clear`,
--   `touch_tuple`, `remove_tuple`, `store_tuple`, `enforce_cache_limits`, `get_tuples_sync` and
--   `get_tuple_sync` are the methods of these names. Load is `#loadTuples`, Paging is `getTuples`
--   with `#executeAxisQuery`. The other modules hold proofs.
-- DataSet/CellSet: CellSet.js. `extract_cells` is `#extractCellsFromResultset`; Index is
--   `getCellIndex`, Ranges is `getTupleRanges`, Fetch is `getCells`, which reads the tuple sets
--   through an interface. Address, Cache, Rows, Eviction, Serving and Cached hold proofs.
-- QueryModel/Item, QueryModel/Axis: items, and QueryAxis.js. QueryModel/Model,
--   QueryModel/Operations and QueryModel/Flip: QueryModel.js. Occurrences, WellFormed, Kept,
--   Filling, Adding, Removed and Events hold proofs. Filters is the setters of a filter item,
--   Serializer is QuerySerializer.js and what `setState` reads. Compare is `compareStates`, over
--   any type of values with a test for equal JSON texts and any id of an item; PropertyNames and
--   Compared hold its proofs. Referenced is `getReferencedColumns`.
-- QueryAxisItem: the values of a filter and its condition in SQL, `getFilterConditionSql` of
--   src/QueryModel/QueryAxisItem.js, with the types of filters of src/FilterUi/FilterUi.js.
--   Conditions is the text; Meaning is what such a text means for a row; Keeps is which rows a
--   filter keeps. The other modules hold proofs.
-- SqlHelper: src/util/sql/SQLHelper.js. Quoting is the quoting of texts and identifiers; Types,
--   Maps and Members inspect the texts of composite types; Decimals is
--   `getArrowDecimalAsString`, whose value is the text of a whole number. Words, Identifiers,
--   Structs, Fields, Descriptor, MapTypes, Ends, Paths and Rational hold proofs, with readers of
--   SQL that they are about.
-- EventEmitter: src/util/event/EventEmitter.js. Queue and Listeners hold proofs.
-- EventBuffer: src/util/event/EventBuffer.js. The listener that `bufferEvents` adds is a relation
--   between its states, of events, time and the timer; Arguments is the check of the arguments.
-- PivotTableUi: src/PivotTableUi/PivotTableUiUtils.js. Totals holds proofs.
--
-- The data source is a parameter: what the count query and the axis query return, or that there
-- is no query to run, that a query fails, or that it was canceled. So are the lengths of JSON
-- texts, the column metadata of a data source, and the functions that an item is given for
-- formatting, parsing and writing. Awaited calls are modelled as steps that nothing interleaves
-- with. An index that is asked for is a natural number but for the index of an item, which may be
-- negative. The events that a query model fires are a list; what listeners do is not modelled.
-- `evict` runs on fuel, one round for each entry of the cache and one more, which is enough since
-- every round drops an entry. `parse_members` runs on fuel, the length of the text, which is
-- enough since every round takes a character. A text of SQL or of a type is the list of its
-- character codes, and an error on such a text has only the part of its message that does not
-- quote the text. The words that are reserved are a parameter, since the database has them, and
-- so are the SQL expression and the data type of the item of a filter, or that they cannot be
-- made. A tuple count is a natural number: what `parseInt` makes of a column that does not read
-- as one is not modelled. `getCellIndex` is asked with an index for each tuple set, and
-- `toggleTotals` of an item whose id can be made.
--
-- Not modelled: the SQL of the axis query and of the cells query, with its generator; the remote
-- branches of both queries; the SQL expression of an item, which rests on the registry of
-- derivations and aggregators; the formatters, which rest on Intl; the rest of `setState`; and the
-- user interface.
pub mod Base
pub mod DataSet
pub mod QueryModel
pub mod EventEmitter
pub mod SqlHelper
pub mod QueryAxisItem
pub mod EventBuffer
pub mod PivotTableUi
