-- ===== src/Db/AutoDelete.antt =====
-- src/db.c: `check_and_run_auto_delete`, which carries out the queued deletions when their time has come.
use vecdb.Prelude.{
  sym, ==_iff, Bool-cases, ℕ, ◌+◌, ◌%◌, ◌≤◌, ◌<◌, ◌≡◌, refl, ap, ◌∙◌, arith, List, [], ◌∷◌, Option,
  none, some,
}
use vecdb.Prelude.{Bool, true, false, if◌then◌else◌, ◌==◌, ltb, inl, inr, ◌⊎◌}
use vecdb.Prelude.Bytes.{u32_mod}
use vecdb.Storage.Types.{Status, success, failure}
use vecdb.Storage.Compact.{CompactHost}
use vecdb.Pending.{Sorting, load_pending_deletes, clear_pending_deletes}
use vecdb.Pending.{get_auto_delete_schedule, clear_auto_delete_schedule}
use vecdb.Pending.Schedule.{schedule_cleared_lem}
use vecdb.Db.Types.{FlatDb}
use vecdb.Db.Insert.{Done, done, faulted, db_delete, db_compact}

-- The two files of the queue.
pub record QueueFiles : Type 0 where
  pub pending_bin : Option (List ℕ)
  pub auto_delete_schedule : Option (List ℕ)

-- What the environment decides: whether the stream of the table can be moved, whether the data file can
-- be opened and the disk takes a byte, whether the queue can be emptied and the schedule removed, and the
-- compaction's own decisions.
pub record AutoHost : Type 0 where
  pub seeks : Bool
  pub opens : Bool
  pub writes : Bool
  pub empties : Bool
  pub removes : Bool
  pub compact : CompactHost

-- The result, or undefined behaviour in the compaction.
pub data AutoDeleted : Type 0 where
  ran : ℕ → FlatDb → QueueFiles → AutoDeleted
  undefined : AutoDeleted

-- `success_count++` where a deletion succeeded.
unfoldable pub counted : Status → ℕ → ℕ
counted success n = n + 1
counted failure n = n

-- The loop over the ids, with the number of deletions that succeeded.
unfoldable pub delete_all : AutoHost → List ℕ → ℕ → FlatDb → ℕ × FlatDb
delete_all host [] success_count db = (success_count, db)
delete_all host (id ∷ more) success_count db =
    let deleted = db_delete host.seeks host.opens host.writes db id in
    delete_all host more (counted deleted.0 success_count) deleted.1

-- Both files once the deletions have been tried.
unfoldable pub emptied : AutoHost → QueueFiles → QueueFiles
emptied host files = record {
  pending_bin = (clear_pending_deletes host.empties files.pending_bin).1;
  auto_delete_schedule = (clear_auto_delete_schedule host.removes files.auto_delete_schedule).1;
}

-- The compaction, if there was a deletion; its status is not looked at.
unfoldable pub compact_after : AutoHost → QueueFiles → ℕ × FlatDb → AutoDeleted
compact_after host files deleted =
    if ltb 0 deleted.0
    then (elim (db_compact host.compact deleted.1) [
      | done status db ↦ ran (deleted.0 % u32_mod) db files
      | faulted ↦ undefined
    ])
    else ran (deleted.0 % u32_mod) deleted.1 files

-- What is done with the queue that has been loaded.
unfoldable pub delete_loaded :
    AutoHost → FlatDb → QueueFiles → Option (Option (List ℕ)) → AutoDeleted
delete_loaded host db files none = undefined
delete_loaded host db files (some none) = ran 0 db (record files {
  auto_delete_schedule = (clear_auto_delete_schedule host.removes files.auto_delete_schedule).1;
})
delete_loaded host db files (some (some pending_ids)) =
    compact_after host (emptied host files) (delete_all host pending_ids 0 db)

-- `check_and_run_auto_delete` at the time `now`; the number is returned as an `int`.
unfoldable pub check_and_run_auto_delete :
    Sorting → AutoHost → ℕ → FlatDb → QueueFiles → AutoDeleted
check_and_run_auto_delete libc host now db files =
    let scheduled_time = get_auto_delete_schedule files.auto_delete_schedule in
    if scheduled_time == 0
    then ran 0 db files
    else if ltb now scheduled_time
    then ran 0 db files
    else delete_loaded host db files (load_pending_deletes host.compact.env libc files.pending_bin)

pub not_scheduled :
    (libc : Sorting) (host : AutoHost) (now : ℕ) (db : FlatDb) (files : QueueFiles)
    → get_auto_delete_schedule files.auto_delete_schedule ≡ 0
    → check_and_run_auto_delete libc host now db files ≡ ran 0 db files
unfolding check_and_run_auto_delete
not_scheduled libc host now db files h = ground (arith, h)

schedule_after : AutoDeleted → ℕ
schedule_after undefined = 0
schedule_after (ran n db files) = get_auto_delete_schedule files.auto_delete_schedule

compacted-schedule :
    (host : AutoHost) (files : QueueFiles) (deleted : ℕ × FlatDb)
    → host.removes ≡ true
    → schedule_after (compact_after host (emptied host files) deleted) ≡ 0
unfolding schedule_after compact_after emptied
compacted-schedule host files deleted removes = elim (Bool-cases (ltb 0 deleted.0)) [
  | inl h ↦ rw h (by_end (db_compact host.compact deleted.1))
  | inr h ↦ rw h (schedule_cleared_lem host.removes files.auto_delete_schedule removes)
]
  where
    by_end :
        (d : Done)
        → schedule_after (elim d as (λ x. AutoDeleted) [
          | done status db ↦ ran (deleted.0 % u32_mod) db (emptied host files)
          | faulted ↦ undefined
        ])
          ≡ 0
    by_end faulted = refl
    by_end (done status db) = schedule_cleared_lem host.removes files.auto_delete_schedule removes

loaded-schedule :
    (host : AutoHost) (db : FlatDb) (files : QueueFiles) (pending : Option (Option (List ℕ)))
    → host.removes ≡ true
    → schedule_after (delete_loaded host db files pending) ≡ 0
unfolding delete_loaded
loaded-schedule host db files none removes = unfold schedule_after in refl
loaded-schedule host db files (some none) removes =
    unfold schedule_after in schedule_cleared_lem host.removes files.auto_delete_schedule removes
loaded-schedule host db files (some (some ids)) removes =
    compacted-schedule host files (delete_all host ids 0 db) removes

due-schedule :
    (libc : Sorting) (host : AutoHost) (now : ℕ) (db : FlatDb) (files : QueueFiles)
    → (get_auto_delete_schedule files.auto_delete_schedule == 0) ≡ false
    → ltb now (get_auto_delete_schedule files.auto_delete_schedule) ≡ false
    → host.removes ≡ true
    → schedule_after (check_and_run_auto_delete libc host now db files) ≡ 0
unfolding check_and_run_auto_delete
due-schedule libc host now db files set due removes =
    rw (set, check_and_run_auto_delete, due)
      (loaded-schedule host db files (load_pending_deletes host.compact.env libc files.pending_bin)
        removes)

pub not_due :
    (libc : Sorting) (host : AutoHost) (now : ℕ) (db : FlatDb) (files : QueueFiles)
    → ltb now (get_auto_delete_schedule files.auto_delete_schedule) ≡ true
    → check_and_run_auto_delete libc host now db files ≡ ran 0 db files
unfolding check_and_run_auto_delete
not_due libc host now db files h = ground (arith, h)

ran-injective :
    (m n : ℕ) (db db' : FlatDb) (files files' : QueueFiles)
    → ran m db files ≡ ran n db' files'
    → (n ≡ m) × (db' ≡ db) × (files' ≡ files)
ran-injective m n db db' files files' e = (cc e, cc e, cc e)

-- Nothing happens without a time, or before it; at the time or later, a call that returns, where the
-- file of the schedule can be removed, has cleared it, so that the next call, whenever it comes, does
-- nothing.
pub check_and_run_auto_delete_once :
    (libc : Sorting) (host host' : AutoHost) (now now' n : ℕ) (db db' : FlatDb)
    (files files' : QueueFiles)
    → host.removes ≡ true
    → check_and_run_auto_delete libc host now db files ≡ ran n db' files'
    → ((n ≡ 0)
        × (db' ≡ db)
        × (files' ≡ files)
        × ((get_auto_delete_schedule files.auto_delete_schedule ≡ 0)
            ⊎ (now < get_auto_delete_schedule files.auto_delete_schedule)))
      ⊎ ((get_auto_delete_schedule files.auto_delete_schedule ≤ now)
          × (check_and_run_auto_delete libc host' now' db' files' ≡ ran 0 db' files'))
unfolding schedule_after
check_and_run_auto_delete_once libc host host' now now' n db db' files files' removes h =
    elim (Bool-cases (get_auto_delete_schedule files.auto_delete_schedule == 0)) [
      | inl unset ↦
          (let same =
              ran-injective 0 n db db' files files'
                (sym (not_scheduled libc host now db files ((==_iff _ 0).0 unset)) ∙ h) in
            inl (same.0, same.1, same.2, inl ((==_iff _ 0).0 unset)))
      | inr set ↦
          (elim (Bool-cases (ltb now (get_auto_delete_schedule files.auto_delete_schedule))) [
            | inl early ↦
                (let same =
                    ran-injective 0 n db db' files files'
                      (sym (not_due libc host now db files early) ∙ h) in
                  inl (same.0, same.1, same.2, inr (ground (arith, early))))
            | inr due ↦ inr (
              ground (arith, due),
              not_scheduled libc host' now' db' files'
                  (sym (ap schedule_after h) ∙ due-schedule libc host now db files set due removes),
            )
          ])
    ]
