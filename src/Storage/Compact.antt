-- ===== src/Storage/Compact.antt =====
-- src/storage.c: `storage_compact`, which writes the records that are left to a new file and puts it in
-- the old one's place.
pub mod Layout
pub mod Result
pub mod Moved
use vecdb.Prelude.{ℕ, ◌+◌, List, [], ◌∷◌, Option, none, some, Bool, true, false, ◌&&◌}
use vecdb.Prelude.{if◌then◌else◌, ltb, length, map}
use vecdb.Storage.Types.{Env, Storage, Record, Status, success, failure, null, mapped, floats_of}
use vecdb.Storage.Layout.{record_header_bytes, record_chunks}
use vecdb.Storage.Write.{write_all}
use vecdb.Storage.Read.{map_file}

-- What the environment decides: whether the temporary file opens, the arrays are granted, the file can
-- be renamed, and the data file opens again.
pub record CompactHost : Type 0 where
  pub env : Env
  pub opens : Bool
  pub allocates : Bool
  pub renames : Bool
  pub reopens : Bool

-- `new_records[i]` with `new_offsets[i]`; `was_mmap[i]` is the record's own `is_mmap`.
pub record Kept : Type 0 where
  pub row : Record
  pub new_offset : ℕ

-- How the loop ends: with the records that are kept and the new file, with a failed write, or with
-- undefined behaviour at a bad vector pointer.
pub data Rewritten : Type 0 where
  rewritten : List Kept → Storage → Rewritten
  not_written : Rewritten
  bad_pointer : Rewritten

abbrev pub keep : Kept → Rewritten → Rewritten
keep k (rewritten ks out) = rewritten (k ∷ ks) out
keep k not_written = not_written
keep k bad_pointer = bad_pointer

-- The loop over the records. `s` is the storage that the vectors may point into, `out` the stream of
-- the new file, which `ftell` asks for its position. A record that is written is not deleted, so
-- `record_chunks` writes the flag 0.
unfoldable pub compact_loop : Storage → ℕ → List Record → Storage → Rewritten
compact_loop s dimension [] out = rewritten [] out
compact_loop s dimension (r ∷ more) out = elim r.is_deleted [
  | true ↦ compact_loop s dimension more out
  | false ↦ (elim (floats_of s dimension r.vector) [
    | none ↦ bad_pointer
    | some ws ↦
        let w = write_all (record_chunks dimension r ws) out in
        let rest = compact_loop s dimension more w.1 in
        (elim w.0 [
          | failure ↦ not_written
          | success ↦ keep (record { row = r; new_offset = out.pos }) rest
        ])
  ])
]

-- The last loop over the kept records: a record that pointed into the mapping points into the new one;
-- any other loses its vector.
unfoldable pub relocate : Option ℕ → Kept → Record
relocate now k = elim (k.row.is_mmap) [
  | true ↦ (elim now [
    | some g ↦ record (k.row) {
      byte_offset = k.new_offset;
      vector = mapped g (k.new_offset + record_header_bytes);
      is_mmap = true;
    }
    | none ↦ record (k.row) { byte_offset = k.new_offset; vector = null; is_mmap = false }
  ])
  | false ↦ record (k.row) { byte_offset = k.new_offset; vector = null; is_mmap = false }
]

-- The new file's stream: nothing in it, on the same disk.
unfoldable pub temporary : Storage → Storage
temporary s = record s { bytes = []; pos = 0 }

-- The storage once the new file is in place: opened, measured at its end and mapped. The old file's
-- bytes are free again.
unfoldable pub swapped : CompactHost → Storage → Storage → Storage
unfolding map_file
swapped host s out =
    let s' : Storage = record s {
      bytes = out.bytes;
      room = out.room + length s.bytes;
      is_open = host.reopens;
      mmap_data = none;
    } in
    if host.reopens then map_file host.env (record s' { pos = length out.bytes }) else s'

-- A failed `rename`: the old file is opened and mapped again, under a new number.
unfoldable pub not_renamed : CompactHost → Storage → Storage
not_renamed host s = record s {
  is_open = host.reopens;
  pos = 0;
  mmap_data =
      if host.reopens && ltb 0 s.file_size && host.env.mmap s.file_size then some s.maps else none;
  maps = s.maps + 1;
}

-- `storage_compact`: the status, the storage and the records; `none` is undefined behaviour.
unfoldable pub storage_compact :
    CompactHost → Storage → List Record → ℕ → Option (Status × Storage × List Record)
storage_compact host s records dimension =
    if host.opens && host.allocates
    then (elim (compact_loop s dimension records (temporary s)) [
      | bad_pointer ↦ none
      | not_written ↦ some (failure, s, records)
      | rewritten ks out ↦
          if host.renames
          then (let s' = swapped host s out in
              if host.reopens
              then some (success, s', map (relocate s'.mmap_data) ks)
              else some (failure, s', records))
          else some (failure, not_renamed host s, records)
    ])
    else some (failure, s, records)
