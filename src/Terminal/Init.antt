-- ===== src/Terminal/Init.antt =====
-- src/terminal.c with src/db.c, src/api-key-generate.c and src/server.c: a table that is made at the
-- prompt, and whom its key lets in.
use vecdb.Prelude.{ℕ, zero, suc, ◌+◌, ◌≤◌, ◌<◌, ◌≡◌, refl, ap, ◌∙◌, arith, List, [], none, some}
use vecdb.Prelude.{true, false, ◌&&◌, length, ltb, All}
use vecdb.Db.Types.{FlatDb}
use vecdb.Db.Name.{validate_db_name}
use vecdb.Db.Init.{TableFiles, opened, db_init}
use vecdb.Db.Reopen.{db_init_opens}
use vecdb.Server.Text.{same}
use vecdb.Server.Keys.{generate_api_key, save_api_key}
use vecdb.Server.Auth.{AuthEntry, load_auth_cache, verify_api_key}
use vecdb.Server.Auth.Lines.{IsEntry, key_file, line_of, without}
use vecdb.Server.Auth.Verify.{same_refl, verify_api_key-save_api_key}
use vecdb.Terminal.Scan.{Fields}
use vecdb.Terminal.Session.{
  Session, Console, continues, initialized, add_folder, put_files, file_name_of,
}
use vecdb.Terminal.Tables.{take_db, with_key, init_done, cmd_init}

-- The arguments of a table that can be made.
pub record CanInit (st : Session) (f : Fields) : Type 0 where
  pub dimension : 0 < f.dimension
  pub capacity : 0 < f.initial_capacity
  pub metric : f.metric_int < 2
  pub new : st.has_folder f.db_name ≡ false
  pub closed : st.master_db ≡ none
  pub valid : validate_db_name (some f.db_name) ≡ true

module _ (C : Console) (st : Session) (f : Fields) where
  -- The session with the table, before there is a key.
  abbrev pub made_session : FlatDb → TableFiles → Session
  made_session db files =
      take_db
        (put_files f.db_name (record (st.folder f.db_name) { table = files })
          (add_folder f.db_name true st))
        f.db_name db

  abbrev pub keyed_session : FlatDb → TableFiles → List ℕ → Session
  keyed_session db files key = record (made_session db files) {
    auth_keys = save_api_key C.keys f.db_name key st.auth_keys;
  }

  init_done_lem :
      (db : FlatDb) (files : TableFiles) (key : List ℕ)
      → generate_api_key C.random ≡ some key
      → init_done C st f.db_name (opened db files)
        ≡ continues (keyed_session db files key) (initialized key)
  unfolding init_done with_key
  init_done_lem db files key e = ap (with_key C (made_session db files) f.db_name) e

  cmd_init_lem :
      CanInit st f
      → cmd_init C st f 6
        ≡ init_done C st f.db_name (
            db_init C.floats C.libc C.host C.fuel
              (some f.db_name)
              f.dimension
              f.initial_capacity
              f.metric_int
              (st.folder f.db_name).table)
  unfolding cmd_init
  cmd_init_lem can = ground (arith, can.dimension, can.capacity, can.metric, can.new, can.closed)

  -- The table of an initialisation, which is empty and has the dimension asked for.
  init_opens :
      (fuel : ℕ)
      → 1 ≤ fuel
      → C.host.opens_data ≡ true
      → ((n : ℕ) → C.host.env.malloc n ≡ true)
      → validate_db_name (some f.db_name) ≡ true
      → (db : FlatDb) × (files : TableFiles) × (db_init C.floats C.libc C.host fuel
            (some f.db_name)
            f.dimension
            f.initial_capacity
            f.metric_int
            (st.folder f.db_name).table
          ≡ opened db files)
        × (db.records ≡ [])
        × (db.dimension ≡ f.dimension)
  init_opens zero rounds opens memory valid = absurd (omega arith)
  init_opens (suc fuel) rounds opens memory valid =
      let o =
        db_init_opens C.floats C.libc C.host fuel (some f.db_name) f.dimension f.initial_capacity
          f.metric_int (st.folder f.db_name).table valid opens memory in
      (o.0, o.1, o.2, o.3, o.4)

  -- A table that is made at the prompt, with a positive dimension and capacity, a known metric, a valid
  -- name that is not there yet, no table open, memory and files granted, and a key file of whole entries
  -- that the disk has room to extend: it is open, empty and of the
  -- dimension asked for, its folder is there, and the key that is shown is the one with which the server
  -- lets its name in once it has read the key file, provided that fewer than 128 entries are of other
  -- names; no other key does.
  pub cmd_init_admits :
      (es old : List AuthEntry) (rand_bytes key provided : List ℕ)
      → CanInit st f
      → 1 ≤ C.fuel
      → C.host.opens_data ≡ true
      → ((n : ℕ) → C.host.env.malloc n ≡ true)
      → C.keys.opens_tmp ≡ true
      → C.keys.renames ≡ true
      → C.keys.opens_keys ≡ true
      → length (key_file es) + length (line_of (record { db_name = f.db_name; api_key = key }))
        ≤ C.keys.room
      → All IsEntry es
      → st.auth_keys ≡ some (key_file es)
      → All (λ b. b < 256) rand_bytes
      → C.random ≡ some rand_bytes
      → generate_api_key (some rand_bytes) ≡ some key
      → (st' : Session) × (db : FlatDb) × (cmd_init C st f 6 ≡ continues st' (initialized key))
        × (st'.has_folder f.db_name ≡ true)
        × (st'.master_db ≡ some (record { db = db; file_name = file_name_of f.db_name }))
        × (db.records ≡ [])
        × (db.dimension ≡ f.dimension)
        × (verify_api_key (load_auth_cache st'.auth_keys old) f.db_name provided
            ≡ (ltb (length (without f.db_name es)) 128 && same key provided))
  cmd_init_admits es old rand_bytes key provided can rounds opens memory opens_tmp renames
        opens_keys room entries keys bytes random generated =
      (
        keyed_session table.0 table.1 key,
        table.0,
        cmd_init_lem can
            ∙ ap (init_done C st f.db_name) table.2
            ∙ init_done_lem table.0 table.1 key (ap generate_api_key random ∙ generated),
        rw (same_refl f.db_name) refl,
        refl,
        table.3,
        table.4,
        ap
              (λ file.
                verify_api_key (load_auth_cache (save_api_key C.keys f.db_name key file) old)
                  f.db_name provided)
              keys
            ∙ verify_api_key-save_api_key C.keys es old f.db_name rand_bytes key opens_tmp renames
                opens_keys entries can.valid bytes generated room provided,
      )
    where
      table :
          (db : FlatDb) × (files : TableFiles) × (db_init C.floats C.libc C.host C.fuel
              (some f.db_name)
              f.dimension
              f.initial_capacity
              f.metric_int
              (st.folder f.db_name).table
            ≡ opened db files)
          × (db.records ≡ [])
          × (db.dimension ≡ f.dimension)
      table = init_opens C.fuel rounds opens memory can.valid
