-- ===== src/Terminal/Keeps.antt =====
-- src/terminal.c: what the commands that open a table leave of the session.
pub mod Changes
pub mod Queue
pub mod Prompt
pub mod Runs
use vecdb.Prelude.{
  ℕ, ◌*◌, ◌/◌, ◌%◌, ◌≤◌, ◌≡◌, refl, arith, List, [], ◌∷◌, Option, none, some, Bool, true, ◌&&◌,
  ◌||◌, not,
}
use vecdb.Prelude.{if◌then◌else◌, ◌==◌, ltb, length}
use vecdb.Prelude.Bytes.{u64_mod, u64_at, decode_le}
use vecdb.Floats.{Floats}
use vecdb.Pending.{Sorting}
use vecdb.Storage.Types.{Status, success, failure}
use vecdb.Search.TopK.{TopK}
use vecdb.Search.Flat.{flat_search}
use vecdb.Db.Types.{FlatDb}
use vecdb.Db.Name.{validate_db_name}
use vecdb.Db.Init.{Host, TableFiles, Opened, refused, opened, faulted, unfinished, db_init, db_open}
use vecdb.Db.Reopen.{db_init-unfinished, db_open-unfinished}
use vecdb.Db.Insert.{Done, done, db_insert, db_delete, db_compact}
use vecdb.Db.Insert
use vecdb.Db.Dimension.{
  OnDone, kept, no_table, SameDimension, db_insert-dimension, db_delete-dimension,
  db_compact-dimension, OnDone-same,
}
use vecdb.Server.Keys.{generate_api_key}
use vecdb.Server.Tables.Invariant.{db_open-valid}
use vecdb.Terminal.Scan.{Fields, conversion, scan_u32, scan_u64, read_floats}
use vecdb.Terminal.Input.{read_floats-Leaves}
use vecdb.Terminal.Session.{
  Master, Session, Console, Ran, continues, table_name_of, put_files, add_folder,
}
use vecdb.Terminal.Session.{
  usage, bad_dimension, bad_capacity, bad_metric, table_exists, bad_id, bad_top_k, out_of_memory,
  deleted_only,
}
use vecdb.Terminal.Tables.{
  take_db, keep_db, with_key, init_done, cmd_init, open_done, cmd_open, metadata_word, insert_done,
  insert_row, cmd_insert, search_done, search_rows, cmd_search, compact_done, delete_done,
  cmd_delete, without_master, ask_vector,
}
use vecdb.Terminal.Follows.{
  Follows, Follows-put, unchanged-Follows, keep_db-Follows, take_db-Follows, OnRan, goes_on,
  at_abort, in_undefined, in_running, OnRan-if, OnRan-conversion, OnRan-behind_words,
  OnRan-with_master, OnRan-without_master, OnRan-with_vector,
}

db_init-valid :
    (F : Floats) (libc : Sorting) (host : Host) (fuel : ℕ) (db_name : List ℕ)
    (dimension initial_capacity metric : ℕ) (files after : TableFiles) (db : FlatDb)
    → db_init F libc host fuel (some db_name) dimension initial_capacity metric files
      ≡ opened db after
    → validate_db_name (some db_name) ≡ true
unfolding db_init
db_init-valid F libc host fuel db_name dimension initial_capacity metric files after db h =
    ground (arith, h)

module _ (C : Console) (st : Session) where
  -- What a command has to leave.
  abbrev P : Session → Type 0
  P = Follows st

  -- The load loops are given no round.
  abbrev L : Type 0
  L = C.fuel ≡ 0

  same_session : P st
  same_session = unchanged-Follows st st refl (omega arith)

  with_key-OnRan :
      (st' : Session) (db_name : List ℕ) (key : Option (List ℕ))
      → P st'
      → OnRan L P (with_key C st' db_name key)
  unfolding with_key
  with_key-OnRan st' db_name none h = at_abort h
  with_key-OnRan st' db_name (some key) h =
      goes_on (record { own = h.own; keeps = h.keeps; input_le = h.input_le })

  init_done-OnRan :
      (db_name : List ℕ) (o : Opened)
      → st.master_db ≡ none
      → ((db : FlatDb) (files : TableFiles)
          → o ≡ opened db files
          → validate_db_name (some db_name) ≡ true)
      → (o ≡ unfinished → L)
      → OnRan L P (init_done C st db_name o)
  unfolding init_done
  init_done-OnRan db_name refused e valid no_round = goes_on (
      unchanged-Follows st
        (add_folder db_name (C.leaves_folder && validate_db_name (some db_name)) st) refl
        (omega arith))
  init_done-OnRan db_name faulted e valid no_round = in_undefined
  init_done-OnRan db_name unfinished e valid no_round = in_running (no_round refl)
  init_done-OnRan db_name (opened db files) e valid no_round =
      with_key-OnRan
        (take_db
          (put_files db_name (record (st.folder db_name) { table = files })
            (add_folder db_name true st))
          db_name db)
        db_name (generate_api_key C.random)
        (take_db-Follows st
          (put_files db_name (record (st.folder db_name) { table = files })
            (add_folder db_name true st))
          db_name db e (valid db files refl) (omega arith))

  pub cmd_init-OnRan : (f : Fields) (words : ℕ) → OnRan L P (cmd_init C st f words)
  unfolding cmd_init
  cmd_init-OnRan f words = OnRan-if P (not (words == 6)) _ _ (goes_on same_session) (
      OnRan-if P (f.dimension == 0) _ _ (goes_on same_session) (
        OnRan-if P (f.initial_capacity == 0) _ _ (goes_on same_session) (
          OnRan-if P (not (f.metric_int == 0) && not (f.metric_int == 1)) _ _ (goes_on same_session)
            (OnRan-if P (st.has_folder f.db_name) _ _ (goes_on same_session) (
              OnRan-without_master P st st.master_db _ same_session (λ e.
                init_done-OnRan f.db_name
                  (db_init C.floats C.libc C.host C.fuel (some f.db_name) f.dimension
                    f.initial_capacity f.metric_int (st.folder f.db_name).table)
                  e
                  (λ db files h.
                    db_init-valid C.floats C.libc C.host C.fuel f.db_name f.dimension
                      f.initial_capacity f.metric_int (st.folder f.db_name).table files db h)
                  (db_init-unfinished C.floats C.libc C.host C.fuel (some f.db_name) f.dimension
                    f.initial_capacity f.metric_int (st.folder f.db_name).table)))))))

  open_done-OnRan :
      (db_name : List ℕ) (o : Opened)
      → st.master_db ≡ none
      → ((db : FlatDb) (files : TableFiles)
          → o ≡ opened db files
          → validate_db_name (some db_name) ≡ true)
      → (o ≡ unfinished → L)
      → OnRan L P (open_done C st db_name o)
  unfolding open_done
  open_done-OnRan db_name refused e valid no_round = goes_on same_session
  open_done-OnRan db_name faulted e valid no_round = in_undefined
  open_done-OnRan db_name unfinished e valid no_round = in_running (no_round refl)
  open_done-OnRan db_name (opened db files) e valid no_round = goes_on (
      take_db-Follows st (put_files db_name (record (st.folder db_name) { table = files }) st)
        db_name db e (valid db files refl) (omega arith))

  pub cmd_open-OnRan : (f : Fields) (words : ℕ) → OnRan L P (cmd_open C st f words)
  unfolding cmd_open
  cmd_open-OnRan f words = OnRan-if P (not (words == 3)) _ _ (goes_on same_session) (
      OnRan-without_master P st st.master_db _ same_session (λ e.
        open_done-OnRan f.db_name
          (db_open C.floats C.libc C.host C.fuel (some f.db_name) (st.folder f.db_name).table) e
          (λ db files h.
            db_open-valid C.floats C.libc C.host C.fuel f.db_name (st.folder f.db_name).table files
              db h)
          (db_open-unfinished C.floats C.libc C.host C.fuel (some f.db_name)
            (st.folder f.db_name).table)))
