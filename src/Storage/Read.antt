-- ===== src/Storage/Read.antt =====
-- src/storage.c: `storage_load_record`, `storage_fetch_by_offset`, `storage_remap`, `storage_init`.
use vecdb.Prelude.{ℕ, ◌+◌, ◌*◌, ◌%◌}
use vecdb.Prelude.{List, [], Option, none, some, Bool, true, ◌&&◌}
use vecdb.Prelude.{if◌then◌else◌, leb, ltb, ◌==◌, length, take, drop}
use vecdb.Prelude.Bytes.{u64_mod, u64_at}
use vecdb.Storage.Types.{Env, mapped, Storage, Record, view, Status}
use vecdb.Storage.Types.{success, failure}
use vecdb.Storage.Layout.{record_header_bytes, record_padded_size}

-- The results 1, 0 and -1 of a read, and undefined behaviour.
pub data Load : Type 0 where
  loaded : Record → Storage → Load
  eof : Load
  error : Load
  fault : Load

-- The fields of a record, as the mapping shows them from `ptr` on.
pub record Header : Type 0 where
  pub id : ℕ
  pub is_deleted : Bool
  pub meta_len : ℕ

unfoldable pub read_header : List ℕ → Header
read_header ptr = record {
  id = u64_at ptr;
  is_deleted = u64_at (drop 8 ptr) % 2 == 1;
  meta_len = u64_at (drop 16 ptr);
}

-- `malloc(len + 1)` and `memcpy(meta_copy, ptr, len)`: no copy if there is no memory, and undefined
-- behaviour if `len` bytes do not stand there.
unfoldable pub copy_metadata : Env → List ℕ → ℕ → Option (Option (List ℕ))
copy_metadata env ptr len =
    if len == 0
    then some none
    else if env.malloc ((len + 1) % u64_mod)
    then (if leb len (length ptr) then some (some (take len ptr)) else none)
    else some none

-- What both readers find at a position of the mapping: no whole record, undefined behaviour, or a
-- record's header, the copy of its metadata and its padded size.
pub data Found : Type 0 where
  outside : Found
  undefined : Found
  found : Header → Option (List ℕ) → ℕ → Found

-- The checks and the reads that `storage_load_record` and `storage_fetch_by_offset` share.
unfoldable pub read_record : Env → Storage → ℕ → ℕ → Found
read_record env s at dimension =
    let ptr = drop at (view s) in
    let h = read_header ptr in
    let total = record_padded_size dimension h.meta_len in
    let copy = copy_metadata env (drop (record_header_bytes + 4 * dimension) ptr) h.meta_len in
    if leb s.file_size at
    then outside
    else if ltb s.file_size ((at + record_header_bytes) % u64_mod)
    then outside
    else if ltb s.file_size ((at + total) % u64_mod)
    then outside
    else (elim copy [ none ↦ undefined | some metadata ↦ found h metadata total ])

-- `storage_load_record`: the record at the stream's position, which moves behind it.
unfoldable pub storage_load_record : Env → Storage → ℕ → Load
storage_load_record env s dimension = elim s.mmap_data [
  | none ↦ error
  | some now ↦ (elim (read_record env s s.pos dimension) [
    | outside ↦ eof
    | undefined ↦ fault
    | found h metadata total ↦
        loaded
          (record {
            id = h.id;
            vector = mapped now (s.pos + record_header_bytes);
            metadata = metadata;
            is_deleted = h.is_deleted;
            byte_offset = s.pos;
            is_mmap = true;
          })
          (record s { pos = (s.pos + total) % u64_mod })
  ])
]

-- `storage_fetch_by_offset`: a record by its offset, with no use of the stream. The fields that it
-- does not set are those of `out`.
unfoldable pub storage_fetch_by_offset : Env → Storage → ℕ → Record → ℕ → Load
storage_fetch_by_offset env s byte_offset out dimension = elim s.mmap_data [
  | none ↦ error
  | some now ↦ (elim (read_record env s byte_offset dimension) [
    | outside ↦ error
    | undefined ↦ fault
    | found h metadata total ↦
        loaded
          (record out {
            id = h.id;
            vector = mapped now (byte_offset + record_header_bytes);
            metadata = metadata;
            is_deleted = h.is_deleted;
          })
          s
  ])
]

-- `mmap` of the whole file: a new mapping, or none for an empty file or where the kernel refuses.
unfoldable pub map_file : Env → Storage → Storage
map_file env s =
    let size = length s.bytes in
    record s {
      file_size = size;
      mmap_data = if ltb 0 size && env.mmap size then some s.maps else none;
      maps = s.maps + 1;
    }

-- `storage_init`, once the folder is there: the file is made if there is none, opened, measured at
-- its end and mapped. The stream stays at the end.
unfoldable pub storage_init : Env → ℕ → Option (List ℕ) → Storage
unfolding map_file
storage_init env room existing = map_file env (record {
  bytes = elim existing [ none ↦ [] | some bytes ↦ bytes ];
  room = room;
  is_open = true;
  pos = elim existing [ none ↦ 0 | some bytes ↦ length bytes ];
  mmap_data = none;
  file_size = 0;
  maps = 0;
})

-- `storage_remap`: a new mapping where the file has another size than the mapping; the old one goes.
unfoldable pub storage_remap : Env → Storage → Status × Storage
unfolding map_file
storage_remap env s =
    if s.is_open
    then (let s' : Storage = record s { pos = length s.bytes } in
        if length s.bytes == s.file_size then (success, s') else (success, map_file env s'))
    else (failure, s)
