-- ===== src/Terminal/Tables.antt =====
-- src/terminal.c: the branches of `handle_command` for the open table: init, open, insert, search and
-- delete.
use vecdb.Prelude.{ℕ, ◌*◌, ◌/◌, ◌%◌, List, [], ◌∷◌, Option, none, some, Bool, true, ◌&&◌, ◌||◌, not}
use vecdb.Prelude.{if◌then◌else◌, ◌==◌, ltb, length}
use vecdb.Prelude.Bytes.{u64_mod}
use vecdb.Storage.Types.{Status, success, failure}
use vecdb.Search.TopK.{TopK}
use vecdb.Search.Flat.{flat_search}
use vecdb.Db.Types.{FlatDb}
use vecdb.Db.Name.{validate_db_name}
use vecdb.Db.Init.{Opened, refused, opened, faulted, unfinished, db_init, db_open}
use vecdb.Db.Insert.{Done, done, db_insert, db_delete, db_compact}
use vecdb.Db.Insert
use vecdb.Server.Keys.{generate_api_key, save_api_key}
use vecdb.Terminal.Scan.{
  Fields, conversion, behind_words, scan_u32, scan_u64, scan_field, VectorRead, floats, no_number,
  read_floats,
}
use vecdb.Terminal.Scan
use vecdb.Terminal.Session.{
  Master, Session, Console, Ran, continues, aborts, undefined, running, put_files, add_folder,
  file_name_of, table_name_of,
}
use vecdb.Terminal.Session.{
  usage, bad_dimension, bad_capacity, bad_metric, table_exists, already_open, initialized,
  init_failed, opened_table, open_failed, no_database, bad_id, bad_top_k, out_of_memory, bad_vector,
  inserted, insert_failed, top_results, deleted_compacted, deleted_not_compacted, deleted_only,
  delete_failed,
}

-- A command that needs the open table.
abbrev pub with_master : Session → Option Master → (Master → Ran) → Ran
with_master st none go = continues st no_database
with_master st (some m) go = go m

-- A command that there must be no open table for.
abbrev pub without_master : Session → Option Master → Ran → Ran
without_master st none go = go
without_master st (some m) go = continues st already_open

-- The session with its table, after the table has been opened or has changed.
abbrev pub keep_db : Session → Master → FlatDb → Session
keep_db st m db = record st { master_db = some (record m { db = db }) }

abbrev pub take_db : Session → List ℕ → FlatDb → Session
take_db st db_name db = record st {
  master_db = some (record { db = db; file_name = file_name_of db_name });
}

-- A vector that has been read, or not.
abbrev pub with_vector : Session → VectorRead → (Session → List ℕ → Ran) → Ran
with_vector st (floats xs rest) go = go (record st { input = rest }) xs
with_vector st (no_number rest) go = continues (record st { input = rest }) bad_vector
with_vector st Scan.undefined go = undefined

module _ (C : Console) where
  -- The key of a new table, which is saved and shown.
  unfoldable pub with_key : Session → List ℕ → Option (List ℕ) → Ran
  with_key st db_name none = aborts st
  with_key st db_name (some new_api_key) =
      continues (record st { auth_keys = save_api_key C.keys db_name new_api_key st.auth_keys })
        (initialized new_api_key)

  unfoldable pub init_done : Session → List ℕ → Opened → Ran
  unfolding with_key
  init_done st db_name refused =
      continues (add_folder db_name (C.leaves_folder && validate_db_name (some db_name)) st)
        init_failed
  init_done st db_name faulted = undefined
  init_done st db_name unfinished = running
  init_done st db_name (opened db files) =
      with_key
        (take_db
          (put_files db_name (record (st.folder db_name) { table = files })
            (add_folder db_name true st))
          db_name db)
        db_name (generate_api_key C.random)

  -- init
  unfoldable pub cmd_init : Session → Fields → ℕ → Ran
  unfolding init_done
  cmd_init st f words =
      if not (words == 6)
      then continues st usage
      else if f.dimension == 0
      then continues st bad_dimension
      else if f.initial_capacity == 0
      then continues st bad_capacity
      else if not (f.metric_int == 0) && not (f.metric_int == 1)
      then continues st bad_metric
      else if st.has_folder f.db_name
      then continues st table_exists
      else without_master st st.master_db (
          init_done st f.db_name (
            db_init C.floats C.libc C.host C.fuel (some f.db_name) f.dimension f.initial_capacity
              f.metric_int (st.folder f.db_name).table))

  unfoldable pub open_done : Session → List ℕ → Opened → Ran
  open_done st db_name refused = continues st open_failed
  open_done st db_name faulted = undefined
  open_done st db_name unfinished = running
  open_done st db_name (opened db files) =
      continues
        (take_db (put_files db_name (record (st.folder db_name) { table = files }) st) db_name db)
        (opened_table db.dimension)

  -- open
  unfoldable pub cmd_open : Session → Fields → ℕ → Ran
  unfolding open_done
  cmd_open st f words =
      if not (words == 3)
      then continues st usage
      else without_master st st.master_db (
          open_done st f.db_name
            (db_open C.floats C.libc C.host C.fuel (some f.db_name) (st.folder f.db_name).table))

  -- The floats that a command asks for, in a block for as many as the table's dimension.
  abbrev pub ask_vector : Session → FlatDb → (Session → List ℕ → Ran) → Ran
  ask_vector st db go =
      with_vector st (read_floats C.scan db.dimension (db.dimension * 4 % u64_mod / 4) st.input) go

  -- The optional word behind the id.
  abbrev pub metadata_word : List ℕ → Option (List ℕ)
  metadata_word text = conversion (scan_field 255 text) none (λ metadata rest. some metadata)

  unfoldable pub insert_done : Session → Master → ℕ → Done → Ran
  insert_done st m id Insert.faulted = undefined
  insert_done st m id (done success db) = continues (keep_db st m db) (inserted id)
  insert_done st m id (done failure db) = continues (keep_db st m db) insert_failed

  unfoldable pub insert_row : Session → Master → ℕ → Option (List ℕ) → Ran
  unfolding insert_done
  insert_row st m id metadata =
      if C.host.env.malloc (m.db.dimension * 4 % u64_mod)
      then ask_vector st m.db
          (λ st' vec. insert_done st' m id (db_insert C.host.env m.db id vec metadata))
      else continues st out_of_memory

  -- insert
  unfoldable pub cmd_insert : Session → List ℕ → ℕ → Ran
  unfolding insert_row
  cmd_insert st command words = with_master st st.master_db (λ m.
      if ltb words 3 || ltb 4 words
      then continues st usage
      else behind_words command (continues st bad_id) (λ text.
        conversion (scan_u32 text) (continues st bad_id)
          (λ id rest. insert_row st m id (metadata_word rest))))

  -- A search in the open table; undefined where a record's vector does not lead to its floats.
  unfoldable pub search_done : Session → Bool → Option (Status × TopK) → Ran
  search_done st more none = undefined
  search_done st more (some (status, t)) = continues st (top_results more t.out_results)

  unfoldable pub search_rows : Session → Master → ℕ → Ran
  unfolding search_done
  search_rows st m top_k =
      if C.host.env.malloc (m.db.dimension * 4 % u64_mod) && C.host.env.malloc (24 * top_k)
      then ask_vector st m.db (λ st' q_vec.
        search_done st' (ltb (length m.db.records) top_k && ltb 0 (length m.db.records)) (
          flat_search C.floats C.libc m.db.storage m.db.dimension q_vec top_k
            m.db.calculate_distance m.db.pending_deletes m.db.records))
      else continues st out_of_memory

  -- search
  unfoldable pub cmd_search : Session → List ℕ → ℕ → Ran
  unfolding search_rows
  cmd_search st command words = with_master st st.master_db (λ m.
      if not (words == 3)
      then continues st usage
      else behind_words command (continues st bad_top_k) (λ text.
        conversion (scan_u32 text) (continues st bad_top_k)
          (λ top_k rest. if top_k == 0 then continues st bad_top_k else search_rows st m top_k)))

  -- The compaction behind a deletion, and the index file that goes with the old offsets.
  unfoldable pub compact_done : Session → Master → List ℕ → ℕ → Done → Ran
  compact_done st m table_name id Insert.faulted = undefined
  compact_done st m table_name id (done success db) =
      continues
        (put_files table_name (record (st.folder table_name) { ivf_index_bin = none })
          (keep_db st m db))
        (deleted_compacted id)
  compact_done st m table_name id (done failure db) =
      continues (keep_db st m db) (deleted_not_compacted id)

  unfoldable pub delete_done : Session → Master → ℕ → Status × FlatDb → Ran
  unfolding compact_done
  delete_done st m id (failure, db) = continues (keep_db st m db) (delete_failed id)
  delete_done st m id (success, db) = elim (table_name_of m.file_name) [
    | [] ↦ continues (keep_db st m db) (deleted_only id)
    | c ∷ name ↦ compact_done st m (c ∷ name) id (db_compact C.files.compact db)
  ]

  -- delete
  unfoldable pub cmd_delete : Session → List ℕ → ℕ → Ran
  unfolding delete_done
  cmd_delete st command words = with_master st st.master_db (λ m.
      if not (words == 3)
      then continues st usage
      else behind_words command (continues st bad_id) (λ text.
        conversion (scan_u64 text) (continues st bad_id) (λ id rest.
          delete_done st m id (db_delete C.files.seeks C.files.opens C.files.writes m.db id))))
