-- ===== src/DataSet.antt =====
-- src/DataSet: the caches of tuples and cells behind the pivot table.
pub mod Limits
pub mod Sizes
pub mod TupleSet
pub mod CellSet
