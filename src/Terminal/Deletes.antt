-- ===== src/Terminal/Deletes.antt =====
-- src/terminal.c with src/db.c: what process-deletes does to the queue and to the table.
use vecdb.Prelude.{ℕ, zero, suc, ◌≤◌, ◌≡◌, refl, ap, ◌∙◌, arith, List, [], ◌∷◌, some}
use vecdb.Prelude.{Bool, true, Bool-cases, inl, inr, length, take, drop, ge→ltb}
use vecdb.Prelude.Bytes.{u64_at, decode_le}
use vecdb.Floats.{Floats}
use vecdb.Pending.{Sorting, load_pending_deletes, clear_pending_deletes}
use vecdb.Storage.Types.{failure}
use vecdb.Db.Types.{FlatDb}
use vecdb.Db.Name.{validate_db_name}
use vecdb.Db.Init.{Host, TableFiles, opened, db_init, db_open}
use vecdb.Db.Insert.{absent, find_record, db_delete}
use vecdb.Db.AutoDelete.{AutoHost, counted, delete_all}
use vecdb.Db.Reopen.{db_init_forgets}
use vecdb.Server.Auth.Verify.{same_refl}
use vecdb.Server.Tables.{Folder}
use vecdb.Terminal.Scan.{Fields}
use vecdb.Terminal.Session.{Session, Console, continues, executed, files_at, put_files}
use vecdb.Terminal.Queue.{
  put_data, read_confirm, clear_queue, compact_again, delete_queued, confirm_deletes,
  cmd_process_deletes,
}

-- A table without records has nothing to delete.
db_delete_nothing :
    (seeks opens writes : Bool) (db : FlatDb) (id : ℕ)
    → db.records ≡ []
    → db_delete seeks opens writes db id ≡ (failure, db)
unfolding db_delete find_record
db_delete_nothing seeks opens writes db id e = elim (Bool-cases db.storage.is_open) [
  | inl h ↦ ground (arith, h, none_found)
  | inr h ↦ ground (arith, h)
]
  where
    none_found : find_record id db.records ≡ absent
    none_found = ap (find_record id) e

delete_all_nothing :
    (host : AutoHost) (ids : List ℕ) (n : ℕ) (db : FlatDb)
    → db.records ≡ []
    → delete_all host ids n db ≡ (n, db)
unfolding delete_all counted
delete_all_nothing host [] n db e = refl
delete_all_nothing host (id ∷ more) n db e =
    ap (λ deleted. delete_all host more (counted deleted.0 n) deleted.1)
      (db_delete_nothing host.seeks host.opens host.writes db id e)
    ∙ delete_all_nothing host more n db e

-- A table opens without its records.
db_open_forgets :
    (F : Floats) (libc : Sorting) (host : Host) (fuel : ℕ) (name meta bytes : List ℕ)
    (files : TableFiles)
    → 1 ≤ fuel
    → validate_db_name (some name) ≡ true
    → host.opens_data ≡ true
    → ((n : ℕ) → host.env.malloc n ≡ true)
    → files.meta_bin ≡ some meta
    → 12 ≤ length meta
    → files.data_db ≡ some bytes
    → (db : FlatDb) × (files' : TableFiles) × (db_open F libc host fuel (some name) files
        ≡ opened db files')
      × (db.records ≡ [])
      × (db.storage.bytes ≡ bytes)
unfolding db_open
db_open_forgets F libc host zero name meta bytes files h valid opens memory meta_bin long data_db =
    absurd (omega arith)
db_open_forgets F libc host (suc fuel) name meta bytes files h valid opens memory meta_bin long
      data_db =
    (
      init.0,
      init.1,
      ground (arith, valid, meta_bin, ge→ltb (length meta) 12 long) ∙ init.2,
      init.3,
      init.4,
    )
  where
    init :
        (db : FlatDb) × (files' : TableFiles) × (db_init F libc host
            (suc fuel)
            (some name)
            (u64_at meta)
            10
            (decode_le (take 4 (drop 8 meta)))
            files
          ≡ opened db files')
        × (db.records ≡ [])
        × (db.storage.bytes ≡ bytes)
    init =
        db_init_forgets F libc host fuel (some name) (u64_at meta) 10
          (decode_le (take 4 (drop 8 meta))) bytes files valid opens memory data_db

module _ (C : Console) where
  delete_queued_nothing :
      (st : Session) (db_name ids : List ℕ) (db : FlatDb) (files : TableFiles)
      → db.records ≡ []
      → delete_queued C st db_name ids (opened db files)
        ≡ clear_queue C (put_data db_name files db.storage.bytes st) db_name 0 (length ids)
  unfolding delete_queued compact_again
  delete_queued_nothing st db_name ids db files e =
      ap
        (λ deleted.
          compact_again C (put_data db_name files deleted.1.storage.bytes st) db_name deleted.0
            (λ st'. clear_queue C st' db_name deleted.0 (length ids)))
        (delete_all_nothing C.files ids 0 db e)

  -- The queue of a table that has been put there, once it is cleared.
  clear_queue_lem :
      (st : Session) (db_name ids bytes : List ℕ) (files : TableFiles)
      → C.files.empties ≡ true
      → (st' : Session) × (clear_queue C (put_data db_name files bytes st) db_name 0 (length ids)
          ≡ continues st' (executed 0 (length ids)))
        × ((st'.folder db_name).table.data_db ≡ some bytes)
        × ((st'.folder db_name).table.pending_bin ≡ some [])
  unfolding clear_queue clear_pending_deletes
  clear_queue_lem st db_name ids bytes files empties = (
    after,
    ap (λ n. continues after (executed 0 n)) (omega arith),
    rw (same_refl db_name) refl,
    rw (same_refl db_name, empties) refl,
  )
    where
      before : Session
      before = put_data db_name files bytes st

      f : Folder
      f = before.folder db_name

      after : Session
      after =
          put_files db_name
            (record f {
              table = record (f.table) {
                pending_bin = (clear_pending_deletes C.files.empties f.table.pending_bin).1;
              };
            })
            before

  -- process-deletes with a queue, confirmed, deletes nothing and loses the queue: the table is opened
  -- without its records, every id counts as ignored, the data file has the bytes it had, and the queue
  -- is empty. The table has a valid name, its data file and a whole meta.bin, which open, memory is
  -- granted and the queue's file can be emptied.
  pub process_deletes_loses_queue :
      (st : Session) (f : Fields) (ids meta bytes : List ℕ)
      → 1 ≤ C.fuel
      → C.host.opens_data ≡ true
      → ((n : ℕ) → C.host.env.malloc n ≡ true)
      → C.files.empties ≡ true
      → validate_db_name (some f.db_name) ≡ true
      → (st.folder f.db_name).table.meta_bin ≡ some meta
      → 12 ≤ length meta
      → (files_at f.db_name st).data_db ≡ some bytes
      → load_pending_deletes C.host.env C.libc (st.folder f.db_name).table.pending_bin
        ≡ some (some ids)
      → (read_confirm st.input).0 ≡ b'y'
      → (st' : Session) × (cmd_process_deletes C st f 3 ≡ continues st' (executed 0 (length ids)))
        × ((st'.folder f.db_name).table.data_db ≡ some bytes)
        × ((st'.folder f.db_name).table.pending_bin ≡ some [])
  unfolding cmd_process_deletes confirm_deletes
  process_deletes_loses_queue st f ids meta bytes rounds opens memory empties valid meta_bin long
        data_db queued confirmed =
      (
        cleared.0,
        rw (queued, confirmed, table.2)
            (delete_queued_nothing answered f.db_name ids table.0 table.1 table.3
              ∙ ap
                  (λ b.
                    clear_queue C (put_data f.db_name table.1 b answered) f.db_name 0 (length ids))
                  table.4
              ∙ cleared.1),
        cleared.2,
        cleared.3,
      )
    where
      answered : Session
      answered = record st { input = (read_confirm st.input).1 }

      table :
          (db : FlatDb) × (files' : TableFiles) × (db_open C.floats C.libc C.host C.fuel
              (some f.db_name)
              (files_at f.db_name st)
            ≡ opened db files')
          × (db.records ≡ [])
          × (db.storage.bytes ≡ bytes)
      table =
          db_open_forgets C.floats C.libc C.host C.fuel f.db_name meta bytes (files_at f.db_name st)
            rounds valid opens memory meta_bin long data_db

      cleared :
          (st' : Session) × (clear_queue C
              (put_data f.db_name table.1 bytes answered)
              f.db_name
              0
              (length ids)
            ≡ continues st' (executed 0 (length ids)))
          × ((st'.folder f.db_name).table.data_db ≡ some bytes)
          × ((st'.folder f.db_name).table.pending_bin ≡ some [])
      cleared = clear_queue_lem answered f.db_name ids bytes table.1 empties
