-- ===== src/Db/Types.antt =====
-- `FlatDb_t` of include/db.h.
use vecdb.Prelude.{ℕ, List, Option}
use vecdb.Distance.{DistanceFunc}
use vecdb.Storage.Types.{Storage, Record}

-- `records` holds the `count` records that are there; `capacity` is what the array has room for.
-- `pending_deletes` is the loaded queue with its `pending_count`, `none` for NULL.
pub record FlatDb : Type 0 where
  pub dimension : ℕ
  pub capacity : ℕ
  pub records : List Record
  pub calculate_distance : DistanceFunc
  pub storage : Storage
  pub pending_deletes : Option (List ℕ)

-- sizeof(Record_t) and sizeof(FlatDb_t)
abbrev pub record_size : ℕ
record_size = 48

abbrev pub db_size : ℕ
db_size = 64
