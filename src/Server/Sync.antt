-- ===== src/Server/Sync.antt =====
-- src/server.c: the round of `sync_worker`, which every two seconds brings the tables up to date.
pub mod Drain
pub mod Names
pub mod Round
use vecdb.Prelude.{
  ℕ, zero, suc, ◌+◌, ◌*◌, ◌%◌, ◌^◌, List, [], ◌∷◌, ◌++◌, map, Option, none, some, Bool, true, false,
  ◌&&◌,
}
use vecdb.Prelude.{if◌then◌else◌, ◌==◌, ltb, length}
use vecdb.Prelude.Bytes.{u64_mod}
use vecdb.Pending.{Sorting, load_pending_deletes}
use vecdb.Storage.Types.{Env, Record, heap}
use vecdb.Storage.Read.{storage_remap}
use vecdb.Db.Types.{FlatDb, record_size}
use vecdb.Db.Init.{TableFiles}
use vecdb.Db.AutoDelete.{QueueFiles, AutoHost, AutoDeleted, ran, check_and_run_auto_delete}
use vecdb.Db.AutoDelete
use vecdb.Server.Keys
use vecdb.Server.Auth.{load_auth_cache}
use vecdb.Server.Tables.{PendingInsert, OpenTable, Folder, State, put_folder, clear_cached_index}

-- `while (new_cap < t->db->count + n) new_cap *= 2`, with `rounds` to go; `none`: they are used up.
unfoldable pub double_to : ℕ → ℕ → ℕ → Option ℕ
double_to zero new_cap needed = if ltb new_cap needed then none else some new_cap
double_to (suc rounds) new_cap needed =
    let again = double_to rounds (new_cap * 2 % u64_mod) needed in
    if ltb new_cap needed then again else some new_cap

-- The record of a queued insertion.
unfoldable pub record_of : PendingInsert → Record
record_of p = record {
  id = p.id;
  vector = heap p.vector;
  metadata = p.metadata;
  is_deleted = false;
  byte_offset = p.byte_offset;
  is_mmap = false;
}

-- `stuck` is a loop without end, `undefined` a block that is not there.
pub data Synced {ℓ} (A : Type ℓ) : Type ℓ where
  synced : A → Synced A
  stuck : Synced A
  undefined : Synced A

-- The queued insertions moved behind the records of a table that has room for them, and the mapping
-- brought up to date.
unfoldable pub take_queue : Env → OpenTable → OpenTable
unfolding record_of
take_queue env t = record t {
  db = record (t.db) {
    records = t.db.records ++ map record_of t.insert_queue;
    storage = (storage_remap env t.db.storage).1;
  };
  insert_queue = [];
}

-- The first block of the loop's body. After 64 doublings the capacity is 0 for ever.
unfoldable pub drain : Env → OpenTable → Synced OpenTable
drain env t =
    let needed = (length t.db.records + length t.insert_queue) % u64_mod in
    if ltb 0 (length t.insert_queue)
    then (if ltb t.db.capacity needed
        then (elim (double_to 64 t.db.capacity needed) [
          | none ↦ stuck
          | some new_cap ↦
              if env.malloc (record_size * new_cap % u64_mod)
              then synced (take_queue env (record t { db = record (t.db) { capacity = new_cap } }))
              else undefined
        ])
        else synced (take_queue env t))
    else synced t

-- The second block: the queue of deletions read again if a request has come.
unfoldable pub reload_pending : Env → Sorting → Folder → OpenTable → Synced OpenTable
reload_pending env libc f t =
    if t.pending_delete_dirty
    then (elim (load_pending_deletes env libc f.table.pending_bin) [
      | none ↦ undefined
      | some pending_deletes ↦ synced (record t {
        db = record (t.db) { pending_deletes = pending_deletes };
        pending_delete_dirty = false;
      })
    ])
    else synced t

-- The end of the third block. The number of deletions is an `int`; after one the index goes.
unfoldable pub after_auto_delete : Folder → OpenTable → AutoDeleted → Synced (OpenTable × Folder)
unfolding clear_cached_index
after_auto_delete f t AutoDelete.undefined = undefined
after_auto_delete f t (ran compacted db files) =
    let t' : OpenTable = record t { db = db } in
    let f' : Folder = record f {
      table = record (f.table) { pending_bin = files.pending_bin };
      auto_delete_schedule = files.auto_delete_schedule;
    } in
    if ltb 0 compacted && ltb compacted (2 ^ 31)
    then synced (clear_cached_index t', record f' { ivf_index_bin = none })
    else synced (t', f')

-- The third block: the deletions that are due.
unfoldable pub run_auto_delete :
    Sorting → AutoHost → ℕ → Folder → OpenTable → Synced (OpenTable × Folder)
unfolding after_auto_delete
run_auto_delete libc host now f t = after_auto_delete f t (
    check_and_run_auto_delete libc host now t.db
      (record { pending_bin = f.table.pending_bin; auto_delete_schedule = f.auto_delete_schedule }))

-- One step after another.
abbrev pub then_sync {ℓ κ} : {A : Type ℓ} {B : Type κ} → Synced A → (A → Synced B) → Synced B
then_sync (synced a) f = f a
then_sync stuck f = stuck
then_sync undefined f = undefined

-- The body of the loop over the tables.
unfoldable pub sync_table :
    Env → Sorting → AutoHost → ℕ → Folder → OpenTable → Synced (OpenTable × Folder)
sync_table env libc host now f t =
    then_sync (drain env t)
      (λ t'. then_sync (reload_pending env libc f t') (λ u. run_auto_delete libc host now f u))

-- The loop over the tables, with those that it is through with.
unfoldable pub sync_tables :
    Env → Sorting → AutoHost → ℕ → List OpenTable → List OpenTable → State → Synced State
sync_tables env libc host now over [] st = synced (record st { open_tables = over })
sync_tables env libc host now over (t ∷ more) st =
    then_sync (sync_table env libc host now (st.folder t.name) t)
      (λ p. sync_tables env libc host now (over ++ (p.0 ∷ [])) more (put_folder t.name p.1 st))

-- One round: the keys and then the tables; `auth_keys` is the key file. The connections that are idle
-- are left out.
unfoldable pub sync_round : Env → Sorting → AutoHost → ℕ → Option (List ℕ) → State → Synced State
sync_round env libc host now auth_keys st =
    sync_tables env libc host now [] st.open_tables
      (record st { auth_cache = load_auth_cache auth_keys st.auth_cache })
