-- ===== src/Examples/Searches.antt =====
-- Runs of src/search/baseline-flat.c and src/distance.c, and their theorems at concrete inputs.
use vecdb.Prelude.{false, ℕ, ◌≡◌, refl, arith, List, [], ◌∷◌, map, none, some, true, length}
use vecdb.Storage.Types.{Storage, Record, success, heap, floats_of, strlen}
use vecdb.Storage.File.{file_of}
use vecdb.Storage.Write.{encode_record}
use vecdb.Prelude.Bytes.{floats_bytes, encode_le}
use vecdb.Storage.Layout.{
  record_chunks, metadata_length, metadata_bytes, record_pad, record_padded_size, record_used,
}
use vecdb.Storage.Compact.{storage_compact, relocate}
use vecdb.Storage.Compact.Layout.{Left, over, kept, kept_from}
use vecdb.Storage.Compact.Result.{storage_compact-file_of}
use vecdb.Distance.{metric_euclidean, get_distance, euclidean, euclidean_loop, rounds}
use vecdb.Search.TopK.{SearchResult, TopK, insert_result, insert_index, shift_down, move_down}
use vecdb.Search.Best.{IsBest}
use vecdb.Search.Flat.{
  strdup, result_of, flat_search, flat_search_loop, Candidates, flat_search-IsBest,
}
use vecdb.Search.Flat
use vecdb.Search.Stale.{flat_search-storage_compact}
use vecdb.Pending.{contains, is_pending_delete}
use vecdb.Examples.Instances.{find, plain_floats, plain_floats-IsOrdered}
use vecdb.Examples.Instances.{plain_sorting, granting_host, granting_host-Grants}

abbrev store : Storage
store = record {
  bytes = [];
  room = 4096;
  is_open = true;
  pos = 0;
  mmap_data = none;
  file_size = 0;
  maps = 0;
}

abbrev row : ℕ → List ℕ → Record
row id ws = record {
  id = id;
  vector = heap ws;
  metadata = some (b'm' ∷ []);
  is_deleted = false;
  byte_offset = 0;
  is_mmap = false;
}

abbrev far : Record
far = row 1 (90 ∷ 40 ∷ [])

abbrev near : Record
near = row 2 (12 ∷ 11 ∷ [])

abbrev queued_row : Record
queued_row = row 3 (10 ∷ 10 ∷ [])

abbrev gone : Record
gone = record (row 4 (10 ∷ 10 ∷ [])) { is_deleted = true }

abbrev query : List ℕ
query = 10 ∷ 10 ∷ []

abbrev rows : List Record
rows = far ∷ queued_row ∷ near ∷ gone ∷ []

abbrev found : Record → List ℕ → SearchResult
found r ws = result_of (get_distance plain_floats metric_euclidean) 2 query r ws

rows-Candidates :
    Candidates store 2 query
      (get_distance plain_floats metric_euclidean)
      (some (3 ∷ []))
      rows
      (found far (90 ∷ 40 ∷ []) ∷ found near (12 ∷ 11 ∷ []) ∷ [])
unfolding floats_of
rows-Candidates =
    Flat.live (90 ∷ 40 ∷ []) refl refl refl
      (Flat.queued refl (Flat.live (12 ∷ 11 ∷ []) refl refl refl (Flat.deleted refl Flat.over)))

-- The nearest record is found, behind a nearer one that is queued.
flat_search-run :
    flat_search plain_floats plain_sorting store 2 query 1
      (get_distance plain_floats metric_euclidean)
      (some (3 ∷ []))
      rows
    ≡ some (
      success,
      record {
        out_results = record { id = 2; calculated_distance = 5; metadata = some (b'm' ∷ []) } ∷ [];
        copies = 2;
        frees = 0;
      },
    )
unfolding flat_search insert_result insert_index shift_down move_down strdup strlen get_distance
    euclidean euclidean_loop rounds is_pending_delete find floats_of vecdb.Pending.cmp_uint32
flat_search-run = refl

flat_search-IsBest_example :
    (t : TopK) × (flat_search plain_floats plain_sorting store 2 query 1
        (get_distance plain_floats metric_euclidean)
        (some (3 ∷ []))
        rows
      ≡ some (success, t))
    × IsBest plain_floats 1
        (found far (90 ∷ 40 ∷ []) ∷ found near (12 ∷ 11 ∷ []) ∷ [])
        t.out_results
flat_search-IsBest_example =
    flat_search-IsBest plain_floats plain_sorting store 2 query 1
      (get_distance plain_floats metric_euclidean) (some (3 ∷ [])) tt (omega arith) (omega arith)
      plain_floats-IsOrdered (omega arith) rows
      (found far (90 ∷ 40 ∷ []) ∷ found near (12 ∷ 11 ∷ []) ∷ []) rows-Candidates

near-Left : Left store 2 (near ∷ []) (record { row = near; words = 12 ∷ 11 ∷ [] } ∷ [])
unfolding floats_of
near-Left = kept (12 ∷ 11 ∷ []) refl refl over

near_size : length (file_of 2 (record { row = near; words = 12 ∷ 11 ∷ [] } ∷ [])) ≡ 40
unfolding file_of encode_record record_chunks floats_bytes encode_le metadata_bytes metadata_length
    strlen record_pad record_padded_size record_used
near_size = refl

compacted :
    (s' : Storage) × (records' : List Record) × (storage_compact granting_host store (near ∷ []) 2
      ≡ some (success, s', records'))
    × (s'.bytes ≡ file_of 2 (record { row = near; words = 12 ∷ 11 ∷ [] } ∷ []))
    × (s'.is_open ≡ true)
    × (s'.pos ≡ length (file_of 2 (record { row = near; words = 12 ∷ 11 ∷ [] } ∷ [])))
    × (s'.file_size ≡ length (file_of 2 (record { row = near; words = 12 ∷ 11 ∷ [] } ∷ [])))
    × (s'.mmap_data ≡ some 0)
    × (records'
        ≡ map
            (relocate s'.mmap_data)
            (kept_from 2 0 (record { row = near; words = 12 ∷ 11 ∷ [] } ∷ [])))
unfolding file_of encode_record record_chunks encode_le floats_bytes metadata_bytes record_pad
compacted =
    storage_compact-file_of granting_host granting_host-Grants store 2 (near ∷ [])
      (record { row = near; words = 12 ∷ 11 ∷ [] } ∷ []) near-Left (omega (arith, near_size))

flat_search-storage_compact_example :
    flat_search plain_floats plain_sorting compacted.0 2 query 1
      (get_distance plain_floats metric_euclidean)
      none
      compacted.1
    ≡ none
unfolding is_pending_delete
flat_search-storage_compact_example =
    flat_search-storage_compact plain_floats plain_sorting 2 query 1
      (get_distance plain_floats metric_euclidean) none granting_host store compacted.0 (near ∷ [])
      compacted.1 (record { row = near; words = 12 ∷ 11 ∷ [] }) [] granting_host-Grants near-Left
      (omega (arith, near_size)) refl refl refl (omega arith) compacted.2
