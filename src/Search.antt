-- ===== src/Search.antt =====
-- src/search/ and the search of src/db.c.
pub mod TopK
pub mod Shift
pub mod Insertion
pub mod Order
pub mod Best
pub mod Flat
pub mod Stale
pub mod Ivf
pub mod Ann
pub mod Kmeans
