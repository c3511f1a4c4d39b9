-- ===== src/SqlHelper.antt =====
-- SQLHelper.js: SQL texts, as lists of character codes.
pub mod Quoting
pub mod Words
pub mod Identifiers
pub mod Types
pub mod Structs
pub mod Fields
pub mod Descriptor
pub mod Maps
pub mod Members
pub mod MapTypes
pub mod Ends
pub mod Paths
pub mod Decimals
pub mod Rational
mod Tests
