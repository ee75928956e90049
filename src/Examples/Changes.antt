-- ===== src/Examples/Changes.antt =====
-- Runs of the approximate search, the deletion and the scheduled deletion of src/db.c, and their
-- theorems at concrete inputs.
use vecdb.Prelude.{
  ◌⊎◌, ◌<◌, ℕ, ◌≤◌, ◌≡◌, refl, arith, List, [], ◌∷◌, ◌++◌, none, some, true, false, length,
}
use vecdb.Prelude.Bytes.{floats_bytes, encode_le}
use vecdb.Distance.{metric_euclidean, get_distance}
use vecdb.Storage.Types.{strlen}
use vecdb.Storage.Layout.{
  record_chunks, metadata_length, metadata_bytes, record_pad, record_padded_size, record_used,
}
use vecdb.Storage.Write.{encode_record}
use vecdb.Prelude.{take-length}
use vecdb.Storage.Types.{mapped, success, Record}
use vecdb.Storage.Codec.{stored_metadata}
use vecdb.Storage.Fetch.{Stands, storage_fetch_by_offset_lem, floats_of-mapped}
use vecdb.Search.TopK.{TopK}
use vecdb.Search.Best.{IsBest}
use vecdb.Search.Flat.{result_of}
use vecdb.Search.Ivf.{Cluster, ivf_search}
use vecdb.Search.Ann.{temp_record, Fetched, db_ann_search, db_ann_search-IsBest}
use vecdb.Search.Ann
use vecdb.Distance.{euclidean, euclidean_loop, rounds}
use vecdb.Db.Delete.{marked, db_delete_lem}
use vecdb.Db.Insert.{db_delete}
use vecdb.Examples.Instances.{plain_floats-IsOrdered}
use vecdb.Prelude.Bytes.{decode_le}
use vecdb.Pending.{get_auto_delete_schedule, clear_auto_delete_schedule, load_pending_deletes}
use vecdb.Db.AutoDelete.{
  AutoHost, QueueFiles, ran, check_and_run_auto_delete, check_and_run_auto_delete_once,
}
use vecdb.Examples.Instances.{granting_host}
use vecdb.Db.Types.{FlatDb}
use vecdb.Examples.Instances.{plain_floats, plain_sorting, granting}
use vecdb.Examples.Tables.{table, first, first-CanWrite}

-- A table whose file holds one record.
abbrev full_table : FlatDb
full_table = record table {
  storage = record (table.storage) {
    bytes = encode_record 1 first.row first.words ++ [];
    mmap_data = some 0;
    file_size = 32;
  };
}

db_delete_lem_example :
    (db' : FlatDb) × (db_delete true true true full_table 5 ≡ (success, db'))
    × (db'.records ≡ marked true first.row ∷ [])
    × (db'.storage.bytes ≡ encode_record 1 (marked true first.row) first.words ++ [])
db_delete_lem_example =
    db_delete_lem true true true full_table 5 [] [] first.row first [] [] refl refl tt refl refl
      refl (omega arith) refl

first_whole : 32 ≡ length (encode_record 1 first.row first.words ++ [])
unfolding encode_record record_chunks floats_bytes encode_le metadata_bytes metadata_length strlen
    record_pad record_padded_size record_used
first_whole = refl

first-Stands : Stands granting full_table.storage 0 1 first.row first.words [] []
first-Stands = record {
  is_mapped = refl;
  shows = take-length 32 (encode_record 1 first.row first.words ++ []) (omega (arith, first_whole));
  small = omega arith;
  can_store = first-CanWrite;
  memory = refl;
}

abbrev first_fetched : Record
first_fetched = record temp_record {
  id = 5;
  vector = mapped 0 24;
  metadata = stored_metadata none;
  is_deleted = false;
}

abbrev one_cluster : List Cluster
one_cluster =
    record {
      centroid_vector = 3 ∷ [];
      record_index = 0 ∷ [];
      count = 1;
      capacity = 1;
      byte_offsets = 0 ∷ [];
    }
    ∷ []

probed :
    ivf_search plain_floats granting one_cluster
      (2 ∷ [])
      1
      1
      (get_distance plain_floats metric_euclidean)
    ≡ some (0 ∷ [])
unfolding ivf_search get_distance euclidean euclidean_loop rounds
probed = refl

first-Fetched :
    Fetched granting full_table (2 ∷ []) (0 ∷ []) (
      result_of (get_distance plain_floats metric_euclidean) 1 (2 ∷ []) first_fetched (1 ∷ []) ∷ [])
first-Fetched =
    Ann.live first_fetched (1 ∷ [])
      (storage_fetch_by_offset_lem granting full_table.storage 0 1 first.row first.words [] []
        first-Stands temp_record)
      refl refl
      (floats_of-mapped granting full_table.storage 0 1 first.row first.words [] [] first-Stands)
      Ann.over

db_ann_search-IsBest_example :
    (t : TopK) × (db_ann_search plain_floats plain_sorting granting full_table
        (2 ∷ [])
        1
        1
        one_cluster
      ≡ some (success, t))
    × IsBest plain_floats 1
        (result_of (get_distance plain_floats metric_euclidean) 1 (2 ∷ []) first_fetched (1 ∷ [])
          ∷ [])
        t.out_results
db_ann_search-IsBest_example =
    db_ann_search-IsBest plain_floats plain_sorting granting full_table (2 ∷ []) 1
      plain_floats-IsOrdered (omega arith) (omega arith) (omega arith) tt 1 one_cluster (0 ∷ [])
      (result_of (get_distance plain_floats metric_euclidean) 1 (2 ∷ []) first_fetched (1 ∷ [])
        ∷ [])
      probed first-Fetched

abbrev pub auto_host : AutoHost
auto_host = record {
  seeks = true;
  opens = true;
  writes = true;
  empties = true;
  removes = true;
  compact = granting_host;
}

-- The time 100 has come at 200.
abbrev due_files : QueueFiles
due_files = record {
  pending_bin = some [];
  auto_delete_schedule = some (100 ∷ 0 ∷ 0 ∷ 0 ∷ 0 ∷ 0 ∷ 0 ∷ 0 ∷ []);
}

auto_delete-run :
    check_and_run_auto_delete plain_sorting auto_host 200 table due_files
    ≡ ran 0 table (record { pending_bin = some []; auto_delete_schedule = none })
unfolding check_and_run_auto_delete get_auto_delete_schedule clear_auto_delete_schedule
    load_pending_deletes decode_le vecdb.Db.AutoDelete.delete_loaded
auto_delete-run = refl

-- No deletions.
abbrev nothing : ℕ
nothing = 0

check_and_run_auto_delete_once_example :
    ((nothing ≡ 0)
      × (table ≡ table)
      × (record { pending_bin = some []; auto_delete_schedule = none } ≡ due_files)
      × ((get_auto_delete_schedule due_files.auto_delete_schedule ≡ 0)
          ⊎ (200 < get_auto_delete_schedule due_files.auto_delete_schedule)))
    ⊎ ((get_auto_delete_schedule due_files.auto_delete_schedule ≤ 200)
        × (check_and_run_auto_delete plain_sorting auto_host 300 table
              (record { pending_bin = some []; auto_delete_schedule = none })
            ≡ ran 0 table (record { pending_bin = some []; auto_delete_schedule = none })))
check_and_run_auto_delete_once_example =
    check_and_run_auto_delete_once plain_sorting auto_host auto_host 200 300 0 table table due_files
      (record { pending_bin = some []; auto_delete_schedule = none }) refl auto_delete-run
