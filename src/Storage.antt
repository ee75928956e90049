-- ===== src/Storage.antt =====
-- include/storage.h and src/storage.c: the data file of a table, its stream and its mapping.
-- `Types` has the state, `Layout` the bytes of one record, `Write`, `Read` and `Compact` the operations.
pub mod Types
pub mod Layout
pub mod Write
pub mod Read
pub mod Codec
pub mod Fetch
pub mod RoundTrip
pub mod Torn
pub mod File
pub mod Compact
pub mod Index
