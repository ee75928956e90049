-- ===== src/Server/Sync/Round.antt =====
-- src/server.c: a whole round of the synchronisation of a table, while no deletion is due.
use vecdb.Prelude.{ℕ, ◌≤◌, ◌<◌, ◌≡◌, ◌^◌, ◌⊎◌, refl, ap, ◌∙◌, arith, [], inl, inr, length}
use vecdb.Prelude.{true, false, lt→ltb, Bool-cases}
use vecdb.Pending.Queue.{load_pending_deletes-granted}
use vecdb.Pending.{Sorting, get_auto_delete_schedule}
use vecdb.Storage.Types.{Env}
use vecdb.Db.AutoDelete.{AutoHost, QueueFiles, ran, check_and_run_auto_delete}
use vecdb.Db.AutoDelete.{not_scheduled, not_due}
use vecdb.Server.Tables.{OpenTable, Folder}
use vecdb.Server.Sync.{
  synced, drain, reload_pending, after_auto_delete, run_auto_delete, then_sync, sync_table,
}
use vecdb.Server.Sync.Drain.{contents, drain_refines}

-- No time is set for the table, or it has not come.
abbrev pub IsQuiet : ℕ → Folder → Type 0
IsQuiet now f =
    (get_auto_delete_schedule f.auto_delete_schedule ≡ 0)
    ⊎ (now < get_auto_delete_schedule f.auto_delete_schedule)

-- Reading the queue of deletions again leaves the insertions alone.
abbrev SameRows : OpenTable → OpenTable → Type 0
SameRows t t' =
    (t'.insert_queue ≡ t.insert_queue)
    × (t'.db.records ≡ t.db.records)
    × (t'.db.capacity ≡ t.db.capacity)

reload_pending-SameRows :
    (env : Env) (libc : Sorting) (f : Folder) (t : OpenTable)
    → ((n : ℕ) → env.malloc n ≡ true)
    → (t' : OpenTable) × (reload_pending env libc f t ≡ synced t') × SameRows t t'
unfolding reload_pending
reload_pending-SameRows env libc f t memory = elim (Bool-cases t.pending_delete_dirty) [
  | inl dirty ↦
      (let pending = load_pending_deletes-granted env libc f.table.pending_bin memory in
        (
          record t {
            db = record (t.db) { pending_deletes = pending.0 };
            pending_delete_dirty = false;
          },
          rw (dirty, reload_pending, pending.1) refl,
          (refl, refl, refl),
        ))
  | inr clean ↦ (t, rw clean refl, (refl, refl, refl))
]

run_auto_delete_quiet :
    (libc : Sorting) (host : AutoHost) (now : ℕ) (f : Folder) (t : OpenTable)
    → IsQuiet now f
    → run_auto_delete libc host now f t ≡ synced (t, f)
unfolding run_auto_delete after_auto_delete
run_auto_delete_quiet libc host now f t quiet = ap (after_auto_delete f t) (idles quiet)
  where
    files : QueueFiles
    files = record {
      pending_bin = f.table.pending_bin;
      auto_delete_schedule = f.auto_delete_schedule;
    }

    idles : IsQuiet now f → check_and_run_auto_delete libc host now t.db files ≡ ran 0 t.db files
    idles (inl unset) = not_scheduled libc host now t.db files unset
    idles (inr early) = not_due libc host now t.db files (lt→ltb now _ early)

module _ (env : Env) (libc : Sorting) (host : AutoHost) (now : ℕ) (f : Folder) where
  -- What a round leaves of a table whose first block has ended.
  pub sync_table_quiet :
      (t t' : OpenTable)
      → ((n : ℕ) → env.malloc n ≡ true)
      → IsQuiet now f
      → drain env t ≡ synced t'
      → (t'' : OpenTable) × (sync_table env libc host now f t ≡ synced (t'', f))
        × (t''.insert_queue ≡ t'.insert_queue)
        × (t''.db.records ≡ t'.db.records)
        × (t''.db.capacity ≡ t'.db.capacity)
  unfolding sync_table
  sync_table_quiet t t' memory quiet drained =
      let same = reload_pending-SameRows env libc f t' memory in
      (
        same.0,
        ap
              (λ d. then_sync d (λ u.
                then_sync (reload_pending env libc f u) (λ v. run_auto_delete libc host now f v)))
              drained
            ∙ ap (λ d. then_sync d (λ v. run_auto_delete libc host now f v)) same.1
            ∙ run_auto_delete_quiet libc host now f same.0 quiet,
        same.2.0,
        same.2.1,
        same.2.2,
      )

  -- A whole round of the synchronisation of a table, with memory granted, while no automatic deletion is
  -- due, for a table whose array has a place and room for its records, and whose records and queued
  -- insertions are at most 2^63: it ends, the folder is as before, the queue is empty, every queued
  -- insertion stands behind the records in the order of the queue, nothing is lost or doubled, and the
  -- array has room for them all.
  pub sync_table_refines :
      (t : OpenTable)
      → ((n : ℕ) → env.malloc n ≡ true)
      → IsQuiet now f
      → 0 < t.db.capacity
      → length t.db.records ≤ t.db.capacity
      → length (contents t) ≤ 2 ^ 63
      → (t' : OpenTable) × (sync_table env libc host now f t ≡ synced (t', f))
        × (t'.insert_queue ≡ [])
        × (t'.db.records ≡ contents t)
        × (length t'.db.records ≤ t'.db.capacity)
  sync_table_refines t memory quiet pos room fits =
      let d = drain_refines env t memory pos room fits in
      let r = sync_table_quiet t d.0 memory quiet d.1 in
      (r.0, r.1, r.2 ∙ d.2, r.3 ∙ d.3, omega (arith, d.5, r.4, ap length r.3))
