-- ===== src/Server/Tables.antt =====
-- src/server.c: the open tables, `get_or_open_table`, `mark_table_pending_dirty` and `clear_cached_index`.
pub mod Invariant
use vecdb.Prelude.{ℕ, zero, suc, ◌+◌, List, [], ◌∷◌, ◌++◌, Option, none, some, Bool, true, false}
use vecdb.Prelude.{if◌then◌else◌, leb, length, take, set}
use vecdb.Floats.{Floats}
use vecdb.Pending.{Sorting}
use vecdb.Search.Ivf.{Cluster}
use vecdb.Db.Types.{FlatDb}
use vecdb.Db.Init.{TableFiles, Host, refused, opened, faulted, unfinished, db_open}
use vecdb.Server.Text.{same}
use vecdb.Server.Auth.{AuthEntry}

-- `pending_insert_t`.
pub record PendingInsert : Type 0 where
  pub id : ℕ
  pub vector : List ℕ
  pub metadata : Option (List ℕ)
  pub byte_offset : ℕ

-- `open_table_t` without its locks. `insert_queue` has `insert_queue_count` entries, and `ivf_index`
-- `ivf_k`; `none` is NULL.
pub record OpenTable : Type 0 where
  pub name : List ℕ
  pub db : FlatDb
  pub pending_delete_dirty : Bool
  pub insert_queue : List PendingInsert
  pub insert_queue_capacity : ℕ
  pub ivf_index : Option (List Cluster)
  pub index_loaded : Bool

-- The files of a table's folder. The data file of an open table is that of its `storage_t`.
pub record Folder : Type 0 where
  pub table : TableFiles
  pub ivf_index_bin : Option (List ℕ)
  pub auto_delete_schedule : Option (List ℕ)

-- The static variables of the server, the lock of src/pending-delete.c, and the folders by name.
pub record State : Type 0 where
  pub auth_cache : List AuthEntry
  pub open_tables : List OpenTable
  pub append_lock : Bool
  pub folder : List ℕ → Folder

abbrev pub max_open_tables : ℕ
max_open_tables = 32

-- A folder in place of another.
abbrev pub put_folder : List ℕ → Folder → State → State
put_folder db_name f st = record st { folder = λ m. if same m db_name then f else st.folder m }

-- A table in its place.
abbrev pub put_table : ℕ → OpenTable → State → State
put_table i t st = record st { open_tables = set st.open_tables i t }

-- The loop over the open tables, the first of which has the index `i`.
unfoldable pub find_table : List OpenTable → List ℕ → ℕ → Option (ℕ × OpenTable)
unfolding same
find_table [] db_name i = none
find_table (t ∷ more) db_name i =
    let rest = find_table more db_name (i + 1) in if same t.name db_name then some (i, t) else rest

-- What `get_or_open_table` gives: a table with its place, or NULL; `undefined` stands also for the
-- queue of a new table that is not there, which its first insertion writes to. `running`: the
-- rounds given to the load loop are used up.
pub data Got : Type 0 where
  table : ℕ → OpenTable → State → Got
  no_table : Got
  undefined : Got
  running : Got

-- The slot of a new table.
unfoldable pub new_table : List ℕ → FlatDb → OpenTable
new_table db_name db = record {
  name = take 64 db_name;
  db = db;
  pending_delete_dirty = false;
  insert_queue = [];
  insert_queue_capacity = 1024;
  ivf_index = none;
  index_loaded = false;
}

-- sizeof(pending_insert_t)
abbrev pub pending_insert_size : ℕ
pending_insert_size = 32

module _ (F : Floats) (libc : Sorting) (host : Host) (fuel : ℕ) where
  unfoldable pub get_or_open_table : State → List ℕ → Got
  get_or_open_table st db_name = elim (find_table st.open_tables db_name 0) [
    | some (i, t) ↦ table i t st
    | none ↦
        if leb max_open_tables (length st.open_tables)
        then no_table
        else (elim (db_open F libc host fuel (some db_name) (st.folder db_name).table) [
          | refused ↦ no_table
          | faulted ↦ undefined
          | unfinished ↦ running
          | opened db files ↦
              if host.env.malloc 0x8000
              then table (length st.open_tables) (new_table db_name db) (
                  put_folder db_name (record (st.folder db_name) { table = files })
                    (record st { open_tables = st.open_tables ++ (new_table db_name db ∷ []) }))
              else undefined
        ])
  ]

-- `mark_table_pending_dirty`, on the tables.
unfoldable pub mark_table_pending_dirty : List ℕ → List OpenTable → List OpenTable
unfolding same
mark_table_pending_dirty db_name [] = []
mark_table_pending_dirty db_name (t ∷ more) =
    let rest = mark_table_pending_dirty db_name more in
    if same t.name db_name then record t { pending_delete_dirty = true } ∷ more else t ∷ rest

-- `clear_cached_index`.
unfoldable pub clear_cached_index : OpenTable → OpenTable
clear_cached_index t = record t { ivf_index = none; index_loaded = false }
