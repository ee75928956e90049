-- ===== src/Examples/Stores.antt =====
-- Runs of src/storage.c and src/pending-delete.c, and their theorems at concrete inputs.
use vecdb.Prelude.{ℕ, ◌+◌, ◌*◌, ◌%◌, ◌≤◌, ◌<◌, ◌≡◌, refl, arith, List, [], ◌∷◌, ◌++◌, none, some}
use vecdb.Prelude.{Option, inl, Bool, true, false, length, leb}
use vecdb.Prelude.Bytes.{encode_le}
use vecdb.Storage.Types.{Storage, Record, success, failure, heap, mapped, floats_of, strlen}
use vecdb.Storage.Layout.{record_header_bytes, record_padded_size, record_used, record_pad}
use vecdb.Prelude.Bytes.{floats_bytes}
use vecdb.Storage.Layout.{record_chunks, metadata_length, metadata_bytes, record_padded_size_bounds}
use vecdb.Storage.Write.{storage_write_record, storage_current_offset, encode_record, appended}
use vecdb.Storage.Write.{status_of, seek_end, storage_write_record_lem}
use vecdb.Storage.Read.{loaded, storage_remap, storage_fetch_by_offset}
use vecdb.Storage.Codec.{CanStore, stored_metadata}
use vecdb.Storage.RoundTrip.{storage_fetch_by_offset-storage_write_record}
use vecdb.Storage.File.{file_of}
use vecdb.Storage.Compact.{storage_compact}
use vecdb.Storage.Compact.Layout.{Left, over, dropped, kept}
use vecdb.Storage.Compact.Moved.{Moved, storage_compact-Moved}
use vecdb.Storage.Compact.Result.{storage_compact_full}
use vecdb.Pending.{PendingFile, blocked, contains, append_pending_delete}
use vecdb.Pending.{load_pending_deletes, is_pending_delete}
use vecdb.Pending.Queue.{Request, queue_bytes, append_pending_delete_fails}
use vecdb.Pending.Queue.{is_pending_delete-load_pending_deletes}
use vecdb.Examples.Instances.{granting, granting_host, granting_host-Grants, plain_sorting}

-- A new table's file.
abbrev empty_store : Storage
empty_store = record {
  bytes = [];
  room = 4096;
  is_open = true;
  pos = 0;
  mmap_data = none;
  file_size = 0;
  maps = 0;
}

abbrev words : List ℕ
words = 1 ∷ 2 ∷ []

abbrev inserted : Record
inserted = record {
  id = 7;
  vector = heap words;
  metadata = some (b'h' ∷ b'i' ∷ []);
  is_deleted = false;
  byte_offset = 0;
  is_mmap = false;
}

abbrev tombstone : Record
tombstone = record {
  id = 8;
  vector = heap words;
  metadata = none;
  is_deleted = true;
  byte_offset = 40;
  is_mmap = false;
}

inserted-floats_of : floats_of empty_store 2 inserted.vector ≡ some words
unfolding floats_of
inserted-floats_of = refl

inserted-CanStore : CanStore 2 inserted words
unfolding metadata_length
inserted-CanStore = omega arith

record_padded_size_example : record_padded_size 3 5 ≡ 48
unfolding record_padded_size
record_padded_size_example = refl

record_padded_size_bounds_example :
    (record_padded_size 3 5 % 8 ≡ 0)
    × (record_header_bytes + 4 * 3 + 5 ≤ record_padded_size 3 5)
    × (record_padded_size 3 5 < record_header_bytes + 4 * 3 + 5 + 8)
record_padded_size_bounds_example = record_padded_size_bounds 3 5 (omega arith)

storage_write_record_lem_example :
    storage_write_record empty_store inserted 2
    ≡ some (
      status_of (leb (length (encode_record 2 inserted words)) 4096),
      appended (encode_record 2 inserted words) (seek_end empty_store),
    )
storage_write_record_lem_example =
    storage_write_record_lem empty_store inserted 2 words refl inserted-floats_of

inserted_size : record_padded_size 2 (metadata_length inserted.metadata) ≡ 40
unfolding record_padded_size metadata_length
inserted_size = refl

fetch_example :
    (s2 : Storage) × (s3 : Storage) × (storage_write_record
        (storage_current_offset empty_store).1
        inserted
        2
      ≡ some (success, s2))
    × (storage_remap granting s2 ≡ (success, s3))
    × (storage_fetch_by_offset granting s3 (storage_current_offset empty_store).0 tombstone 2
        ≡ loaded
            (record tombstone {
              id = 7;
              vector = mapped 0 ((storage_current_offset empty_store).0 + record_header_bytes);
              metadata = stored_metadata (some (b'h' ∷ b'i' ∷ []));
              is_deleted = false;
            })
            s3)
    × (floats_of s3 2 (mapped 0 ((storage_current_offset empty_store).0 + record_header_bytes))
        ≡ some words)
fetch_example =
    storage_fetch_by_offset-storage_write_record granting empty_store inserted tombstone 2 words
      refl inserted-floats_of inserted-CanStore (omega arith) (omega (arith, inserted_size))
      (omega (arith, inserted_size)) (λ n. refl) refl

rows-Left :
    Left empty_store 2 (tombstone ∷ inserted ∷ []) (record { row = inserted; words = words } ∷ [])
rows-Left = dropped refl (kept words refl inserted-floats_of over)

rows_size : length (file_of 2 (record { row = inserted; words = words } ∷ [])) ≡ 40
unfolding file_of encode_record record_chunks floats_bytes encode_le metadata_bytes metadata_length
    strlen record_pad record_padded_size record_used
rows_size = refl

storage_compact-Moved_example :
    (s' : Storage) × (records' : List Record) × (storage_compact granting_host empty_store
        (tombstone ∷ inserted ∷ [])
        2
      ≡ some (success, s', records'))
    × (s'.bytes ≡ file_of 2 (record { row = inserted; words = words } ∷ []))
    × (s'.is_open ≡ true)
    × (s'.pos ≡ length (file_of 2 (record { row = inserted; words = words } ∷ [])))
    × (s'.file_size ≡ length (file_of 2 (record { row = inserted; words = words } ∷ [])))
    × Moved s' 2 0 (record { row = inserted; words = words } ∷ []) records'
storage_compact-Moved_example =
    storage_compact-Moved granting_host granting_host-Grants (λ n. refl) empty_store 2
      (tombstone ∷ inserted ∷ []) (record { row = inserted; words = words } ∷ []) rows-Left
      (inserted-CanStore, tt) (omega (arith, rows_size)) (omega (arith, rows_size))

-- The same file on a disk that takes 39 bytes.
abbrev full_store : Storage
full_store = record empty_store { room = 39 }

full_rows-Left :
    Left full_store 2 (tombstone ∷ inserted ∷ []) (record { row = inserted; words = words } ∷ [])
unfolding floats_of
full_rows-Left = dropped refl (kept words refl refl over)

storage_compact_full_example :
    storage_compact granting_host full_store (tombstone ∷ inserted ∷ []) 2
    ≡ some (failure, full_store, tombstone ∷ inserted ∷ [])
storage_compact_full_example =
    storage_compact_full granting_host granting_host-Grants full_store 2 (tombstone ∷ inserted ∷ [])
      (record { row = inserted; words = words } ∷ []) full_rows-Left (omega (arith, rows_size))

abbrev requests : List Request
requests = record { id = 9; timestamp = 100 } ∷ record { id = 4; timestamp = 101 } ∷ []

is_pending_delete_example :
    (pending : Option (List ℕ)) × (load_pending_deletes granting plain_sorting
        (some (queue_bytes requests ++ (1 ∷ 2 ∷ [])))
      ≡ some pending)
    × (is_pending_delete plain_sorting 4 pending ≡ contains 4 (9 ∷ 4 ∷ []))
is_pending_delete_example =
    is_pending_delete-load_pending_deletes granting plain_sorting (λ n. refl) requests (1 ∷ 2 ∷ [])
      (some (queue_bytes requests ++ (1 ∷ 2 ∷ []))) 4 (inl refl) (omega arith) (omega arith)

abbrev no_queue : PendingFile
no_queue = record { pending_bin = none; append_lock = false }

abbrev locked_queue : PendingFile
locked_queue = record { pending_bin = some []; append_lock = true }

append_pending_delete_fails_example :
    (failure ≡ failure)
    × (load_pending_deletes granting plain_sorting (some [])
        ≡ load_pending_deletes granting plain_sorting none)
    × (true ≡ true
        → (opens' : Bool) (id' : ℕ) → append_pending_delete opens' locked_queue id' ≡ blocked)
unfolding append_pending_delete
append_pending_delete_fails_example =
    append_pending_delete_fails true no_queue locked_queue 9 failure granting plain_sorting refl
