-- ===== src/Db/Insert.antt =====
-- src/db.c: `db_insert`, `db_delete` with `storage_patch_flag`, and `db_compact`.
use vecdb.Prelude.{ℕ, ◌+◌, ◌*◌, ◌%◌, List, [], ◌∷◌, ◌++◌, Option, none, some, Bool, true, false}
use vecdb.Prelude.{◌&&◌, not, if◌then◌else◌, ◌==◌, ltb, leb, length, take}
use vecdb.Prelude.Bytes.{u64_mod}
use vecdb.Storage.Types.{Env, Storage, Record, heap, Status, success, failure, strlen}
use vecdb.Storage.Write.{storage_current_offset, storage_write_record, overwrite}
use vecdb.Storage.Compact.{CompactHost, storage_compact}
use vecdb.Search.Flat.{strdup}
use vecdb.Db.Types.{FlatDb, record_size}

-- How a call on a table ends; `faulted` is undefined behaviour.
pub data Done : Type 0 where
  done : Status → FlatDb → Done
  faulted : Done

-- The `realloc` in front of an insertion: a full array is doubled. `none` is no memory.
unfoldable pub make_room : Env → FlatDb → Option FlatDb
make_room env db =
    let new_capacity = db.capacity * 2 % u64_mod in
    if length db.records == db.capacity
    then (if env.malloc (record_size * new_capacity % u64_mod)
        then some (record db { capacity = new_capacity })
        else none)
    else some db

-- The record of an insertion, at the end of the file.
unfoldable pub new_record : ℕ → List ℕ → Option (List ℕ) → ℕ → Record
unfolding strdup
new_record id vec_cpy metadata byte_offset = record {
  id = id;
  vector = heap vec_cpy;
  metadata = strdup metadata;
  is_deleted = false;
  byte_offset = byte_offset;
  is_mmap = false;
}

-- The allocation of the metadata's copy, where there is metadata.
abbrev pub has_memory : Env → Option (List ℕ) → Bool
has_memory env none = true
has_memory env (some m) = env.malloc ((strlen m + 1) % u64_mod)

-- `db_insert`. The lock is held from the first line to every return, so the call is one step. The
-- record is written into the place behind the last one, which is undefined if there is none.
unfoldable pub db_insert : Env → FlatDb → ℕ → List ℕ → Option (List ℕ) → Done
db_insert env db id vector metadata = elim (make_room env db) [
  | none ↦ done failure db
  | some grown ↦
      if env.malloc (4 * db.dimension % u64_mod)
      then (if leb db.dimension (length vector)
          then (if has_memory env metadata
              then (if ltb (length grown.records) grown.capacity
                  then (let at = storage_current_offset grown.storage in
                      let r = new_record id (take db.dimension vector) metadata at.0 in
                      (elim (storage_write_record at.1 r db.dimension) [
                        | none ↦ faulted
                        | some (failure, s) ↦ done failure (record grown { storage = s })
                        | some (success, s) ↦
                            done success
                              (record grown { storage = s; records = grown.records ++ (r ∷ []) })
                      ]))
                  else faulted)
              else done failure grown)
          else faulted)
      else done failure grown
]

-- `storage_patch_flag`: one byte over what stands there, through a stream of its own; `opens` says
-- whether the file can be opened. The byte goes into the buffer of the stream, so that `fwrite` succeeds;
-- `takes` says whether the disk takes it at `fclose`, whose result is not looked at.
unfoldable pub storage_patch_flag : Bool → Bool → ℕ → Bool → Storage → Status × Storage
unfolding overwrite
storage_patch_flag opens takes offset value s =
    if opens
    then (
      success,
      record s {
        bytes = if takes then overwrite offset ((if value then 1 else 0) ∷ []) s.bytes else s.bytes;
      },
    )
    else (failure, s)

-- The search of `db_delete` for the first record with the id that is not deleted: the records in
-- front of it, the record, and those behind it.
pub data Search : Type 0 where
  absent : Search
  present : List Record → Record → List Record → Search

abbrev pub behind : Record → Search → Search
behind r absent = absent
behind r (present front hit back) = present (r ∷ front) hit back

unfoldable pub find_record : ℕ → List Record → Search
find_record id [] = absent
find_record id (r ∷ more) =
    let rest = find_record id more in
    if r.id == id && not r.is_deleted then present [] r more else behind r rest

-- The body of `db_delete` at the record that it has found: the flag is set in memory, and on disk if
-- `fseek` can move the stream of the table, which `seeks` says; it is taken back in memory if the file
-- cannot be opened to patch it, but not if `fseek` fails.
unfoldable pub delete_at :
    Bool → Bool → Bool → FlatDb → List Record → Record → List Record → ℕ → Status × FlatDb
delete_at seeks opens takes db front hit back flag_offset =
    let marked : List Record = front ++ (record hit { is_deleted = true } ∷ back) in
    let s : Storage = record (db.storage) { pos = flag_offset } in
    let patched = storage_patch_flag opens takes flag_offset true s in
    if seeks
    then (elim patched.0 [
      | success ↦ (success, record db { storage = patched.1; records = marked })
      | failure ↦ (failure, record db { storage = patched.1 })
    ])
    else (failure, record db { records = marked })

-- `db_delete`: the flag stands at `byte_offset + 8`.
unfoldable pub db_delete : Bool → Bool → Bool → FlatDb → ℕ → Status × FlatDb
db_delete seeks opens takes db id =
    if db.storage.is_open
    then (elim (find_record id db.records) [
      | absent ↦ (failure, db)
      | present front hit back ↦
          delete_at seeks opens takes db front hit back ((hit.byte_offset + 8) % u64_mod)
    ])
    else (failure, db)

-- `db_compact`: the array is cut to what is left, but not below one place.
unfoldable pub db_compact : CompactHost → FlatDb → Done
db_compact host db = elim (storage_compact host db.storage db.records db.dimension) [
  | none ↦ faulted
  | some (failure, s, records) ↦ done failure (record db { storage = s; records = records })
  | some (success, s, records) ↦ done success (record db {
    storage = s;
    records = records;
    capacity = if length records == 0 then 1 else length records;
  })
]
