-- ===== src/Terminal/Session.antt =====
-- src/terminal.c: the state of a session at the prompt, what the commands stand on and what they report.
use vecdb.Prelude.{ℕ, List, [], ◌++◌, Option, none, some, Bool, true, false}
use vecdb.Prelude.{if◌then◌else◌, take, drop, ◌==◌}
use vecdb.Floats.{Floats}
use vecdb.Pending.{Sorting}
use vecdb.Db.Types.{FlatDb}
use vecdb.Db.Init.{Host, TableFiles}
use vecdb.Db.AutoDelete.{AutoHost}
use vecdb.Search.TopK.{SearchResult}
use vecdb.Server.Keys.{KeyHost}
use vecdb.Server.Tables.{Folder}
use vecdb.Server.Text.{codes, same, cut_at, has_prefix}
use vecdb.Terminal.Scan.{FloatScan}

-- `*master_db` with the `file_name` of its storage.
pub record Master : Type 0 where
  pub db : FlatDb
  pub file_name : List ℕ

-- `has_folder` says which folders there are under origin_data, `folder` what is in them; the data file
-- of the open table is that of its `storage_t`. `auth_keys` is the key file, `input` what is left of
-- the standard input.
pub record Session : Type 0 where
  pub master_db : Option Master
  pub has_folder : List ℕ → Bool
  pub folder : List ℕ → Folder
  pub auth_keys : Option (List ℕ)
  pub input : List ℕ

-- What a command stands on: the arithmetic and the C library, what the environment decides, the bytes
-- that /dev/urandom gives for a key and the time. `fuel` is for the load loop of a table. `leaves_folder`
-- says whether an initialisation that fails has made its folder, `sets` and `sets_written` whether the
-- file of a schedule opens and takes its bytes.
pub record Console : Type 0 where
  pub floats : Floats
  pub libc : Sorting
  pub scan : FloatScan
  pub host : Host
  pub files : AutoHost
  pub keys : KeyHost
  pub fuel : ℕ
  pub random : Option (List ℕ)
  pub now : ℕ
  pub leaves_folder : Bool
  pub sets : Bool
  pub sets_written : Bool

-- What a command prints, less its words.
pub data Message : Type 0 where
  nothing : Message
  unknown_word : List ℕ → Message
  missing_command : Message
  unknown_command : List ℕ → Message
  help : Message
  usage : Message
  bad_port : Message
  bad_dimension : Message
  bad_capacity : Message
  bad_metric : Message
  table_exists : Message
  already_open : Message
  initialized : List ℕ → Message
  init_failed : Message
  opened_table : ℕ → Message
  open_failed : Message
  no_database : Message
  bad_id : Message
  bad_top_k : Message
  out_of_memory : Message
  bad_vector : Message
  inserted : ℕ → Message
  insert_failed : Message
  top_results : Bool → List SearchResult → Message
  deleted_compacted : ℕ → Message
  deleted_not_compacted : ℕ → Message
  deleted_only : ℕ → Message
  delete_failed : ℕ → Message
  no_pending : Message
  not_opened : Message
  executed : ℕ → ℕ → Message
  aborted : Message
  scheduled : ℕ → ℕ → Message
  schedule_failed : Message
  not_scheduled : Message
  due : Message
  hours_left : ℕ → Message
  schedule_cleared : Message

-- How a command ends: `continues` is TUI_CONTINUE and `exits` TUI_EXIT; `serves`: the server runs and
-- does not return; `aborts`: the program exits. `detached`: the file of the open table is rewritten
-- behind its stream, and of the session after that nothing is said. `running`: the rounds given to the
-- load loop are used up.
pub data Ran : Type 0 where
  continues : Session → Message → Ran
  exits : Session → Ran
  serves : ℕ → Session → Ran
  aborts : Session → Ran
  undefined : Ran
  detached : Ran
  running : Ran

-- A folder in place of another.
abbrev pub put_files : List ℕ → Folder → Session → Session
put_files db_name f st = record st { folder = λ m. if same m db_name then f else st.folder m }

abbrev pub add_folder : List ℕ → Bool → Session → Session
add_folder db_name made st = record st {
  has_folder =
      λ m. if same m db_name then (if made then true else st.has_folder m) else st.has_folder m;
}

-- `file_name` of a storage, as `storage_init` writes it.
unfoldable pub file_name_of : List ℕ → List ℕ
file_name_of table_name = codes "origin_data/" ++ (table_name ++ codes "/data.db")

-- `sscanf(…, "origin_data/%199[^/]/data.db", table_name)`; nothing where the text begins otherwise.
unfoldable pub table_name_of : List ℕ → List ℕ
unfolding has_prefix cut_at
table_name_of file_name =
    if has_prefix (λ a b. a == b) (codes "origin_data/") file_name
    then take 199 (cut_at (λ c. c == b'/') (drop 12 file_name))
    else []

-- Whether the open table is the one of that name.
abbrev pub is_master : List ℕ → Option Master → Bool
is_master db_name none = false
is_master db_name (some m) = same m.file_name (file_name_of db_name)

-- The data file at a table's path, which for the open table is the one behind its stream.
abbrev pub data_at : List ℕ → Option Master → Option (List ℕ) → Option (List ℕ)
data_at db_name none data_db = data_db
data_at db_name (some m) data_db =
    if same m.file_name (file_name_of db_name) then some m.db.storage.bytes else data_db

abbrev pub files_at : List ℕ → Session → TableFiles
files_at db_name st = record ((st.folder db_name).table) {
  data_db = data_at db_name st.master_db (st.folder db_name).table.data_db;
}

-- The bytes that a data file has got, where they are seen: in its folder, and by the open table.
abbrev pub seen_by : List ℕ → List ℕ → Option Master → Option Master
seen_by db_name bytes none = none
seen_by db_name bytes (some m) =
    if same m.file_name (file_name_of db_name)
    then some
        (record m { db = record (m.db) { storage = record (m.db.storage) { bytes = bytes } } })
    else some m
