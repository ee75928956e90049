-- ===== src/Storage/RoundTrip.antt =====
-- Writing a record, remapping the file and fetching by the offset that was noted.
use vecdb.Prelude.{ℕ, ◌+◌, ◌≤◌, ◌<◌, ◌≡◌, refl, ap, sym, ◌∙◌, arith, List, [], ◌++◌, some, true}
use vecdb.Prelude.{length, length-append, take-length, append-nil, le→leb, leb}
use vecdb.Prelude.Bytes.{u64_mod}
use vecdb.Storage.Types.{Env, Record, Storage, Vector, null, heap, mapped, floats_of, success}
use vecdb.Storage.Layout.{record_header_bytes, record_padded_size, record_padded_size_bounds}
use vecdb.Storage.Layout.{metadata_length}
use vecdb.Storage.Write.{encode_record, storage_current_offset, storage_write_record, seek_end}
use vecdb.Storage.Write.{appended, status_of, storage_write_record_lem}
use vecdb.Storage.Read.{loaded, storage_fetch_by_offset, storage_remap, map_file}
use vecdb.Storage.Codec.{CanStore, stored_metadata, length-encode_record}
use vecdb.Storage.Fetch.{Stands, storage_fetch_by_offset_lem, floats_of-mapped}

-- The state that a remap of a grown file leaves.
abbrev remapped : Storage → Storage
remapped s = record s {
  pos = length s.bytes;
  file_size = length s.bytes;
  mmap_data = some s.maps;
  maps = s.maps + 1;
}

-- `storage_remap` maps a file that has grown, under a new number.
pub storage_remap_grown :
    (env : Env) (s : Storage)
    → s.is_open ≡ true
    → s.file_size < length s.bytes
    → env.mmap (length s.bytes) ≡ true
    → storage_remap env s ≡ (success, remapped s)
unfolding storage_remap map_file
storage_remap_grown env s is_open grown maps = ground arith

storage_current_offset_lem :
    (s : Storage) → s.is_open ≡ true → storage_current_offset s ≡ (length s.bytes, seek_end s)
unfolding storage_current_offset
storage_current_offset_lem s is_open = ground arith

floats_of-seek_end :
    (s : Storage) (dimension : ℕ) (v : Vector)
    → floats_of (seek_end s) dimension v ≡ floats_of s dimension v
unfolding floats_of seek_end
floats_of-seek_end s dimension null = refl
floats_of-seek_end s dimension (heap ws) = refl
floats_of-seek_end s dimension (mapped g a) = refl

-- A record that is appended, remapped and fetched by the offset noted before the write: the write
-- succeeds, and the fetch gives the id, the flag, the metadata and, behind its pointer, the floats.
-- The stream is open, the pointer is valid, the record and the file fit a `size_t`, the disk has
-- room, and memory and mapping are granted.
pub storage_fetch_by_offset-storage_write_record :
    (env : Env) (s : Storage) (r out : Record) (dimension : ℕ) (ws : List ℕ)
    → s.is_open ≡ true
    → floats_of s dimension r.vector ≡ some ws
    → CanStore dimension r ws
    → s.file_size ≤ length s.bytes
    → length s.bytes + record_padded_size dimension (metadata_length r.metadata) < u64_mod
    → record_padded_size dimension (metadata_length r.metadata) ≤ s.room
    → ((n : ℕ) → env.mmap n ≡ true)
    → env.malloc (metadata_length r.metadata + 1) ≡ true
    → let offset = (storage_current_offset s).0 in
      let v = mapped s.maps (offset + record_header_bytes) in
      (s2 : Storage) × (s3 : Storage) × (storage_write_record
          (storage_current_offset s).1
          r
          dimension
        ≡ some (success, s2))
      × (storage_remap env s2 ≡ (success, s3))
      × (storage_fetch_by_offset env s3 offset out dimension
          ≡ loaded
              (record out {
                id = r.id;
                vector = v;
                metadata = stored_metadata r.metadata;
                is_deleted = r.is_deleted;
              })
              s3)
      × (floats_of s3 dimension v ≡ some ws)
unfolding seek_end appended
storage_fetch_by_offset-storage_write_record env s r out dimension ws is_open valid can_store
      mapping small fits maps memory =
    rw (storage_current_offset_lem s is_open) (
      s2,
      remapped s2,
      written
          ∙ ap (λ b. some (status_of b, s2)) (le→leb (length new) s.room (omega (arith, size_eq))),
      storage_remap_grown env s2 is_open grown (maps (length s2.bytes)),
      storage_fetch_by_offset_lem env (remapped s2) s.maps dimension r ws s.bytes [] stands out,
      floats_of-mapped env (remapped s2) s.maps dimension r ws s.bytes [] stands,
    )
  where
    new : List ℕ
    new = encode_record dimension r ws

    s2 : Storage
    s2 = appended new (seek_end s)

    size_eq : length new ≡ record_padded_size dimension (metadata_length r.metadata)
    size_eq = length-encode_record dimension r ws can_store

    written :
        storage_write_record (seek_end s) r dimension
        ≡ some (status_of (leb (length new) s.room), s2)
    written =
        storage_write_record_lem (seek_end s) r dimension ws is_open
          (floats_of-seek_end s dimension r.vector ∙ valid)

    bytes_eq : s2.bytes ≡ s.bytes ++ new
    bytes_eq = ap (λ t. s.bytes ++ t) (take-length s.room new (omega (arith, size_eq)))

    grown : s2.file_size < length s2.bytes
    grown = omega (
      arith,
      ap length bytes_eq,
      length-append s.bytes new,
      size_eq,
      record_padded_size_bounds dimension (metadata_length r.metadata) can_store.size_fits,
    )

    stands : Stands env (remapped s2) s.maps dimension r ws s.bytes []
    stands = record {
      is_mapped = refl;
      shows =
          take-length (length s2.bytes) s2.bytes (omega arith)
          ∙ bytes_eq
          ∙ ap (λ t. s.bytes ++ t) (sym (append-nil new));
      small = omega (arith, ap length bytes_eq, length-append s.bytes new, size_eq);
      can_store = can_store;
      memory = memory;
    }
