-- ===== src/Db.antt =====
-- include/db.h and src/db.c: a table in memory over its data file.
pub mod Types
pub mod Name
pub mod Init
pub mod Reload
pub mod Reopen
pub mod Insert
pub mod Effects
pub mod Delete
pub mod Close
pub mod Dimension
pub mod AutoDelete
