-- ===== src/Wire.antt =====
-- The binary parser: src/parser and the `Parse` implementations of basic types.
pub mod Error
pub mod Parser
pub mod Reads
pub mod Local
pub mod Ints
pub mod CompactSize
pub mod Utf8
pub mod Collections
pub mod Buffer
