-- ===== src/QueryModel.antt =====
-- src/QueryModel: the items of a query, its four axes, and the operations that change them.
pub mod Item
pub mod Axis
pub mod Occurrences
pub mod Model
pub mod Operations
pub mod WellFormed
pub mod Kept
pub mod Filling
pub mod Adding
pub mod Removed
pub mod Flip
pub mod Events
pub mod Filters
pub mod Serializer
pub mod Compare
pub mod PropertyNames
pub mod Compared
pub mod Referenced
mod Tests
