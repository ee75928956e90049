-- ===== src/Terminal/Queue.antt =====
-- src/terminal.c: the branches of `handle_command` for the queue of deletions: process-deletes,
-- set-auto-delete, auto-delete-status and cancel-auto-delete.
use vecdb.Prelude.{ℕ, ◌+◌, ◌-◌, ◌*◌, ◌/◌, ◌%◌, List, [], ◌∷◌, Option, none, some, ◌||◌, not}
use vecdb.Prelude.{if◌then◌else◌, ◌==◌, ltb, leb, length}
use vecdb.Prelude.Bytes.{u64_mod}
use vecdb.Pending.{load_pending_deletes, clear_pending_deletes}
use vecdb.Pending.{set_auto_delete_schedule, get_auto_delete_schedule, clear_auto_delete_schedule}
use vecdb.Storage.Types.{Status, success, failure}
use vecdb.Db.Init.{Opened, TableFiles, refused, opened, unfinished, db_open}
use vecdb.Db.Init
use vecdb.Db.Insert.{Done, done, faulted, db_compact}
use vecdb.Db.AutoDelete.{delete_all}
use vecdb.Server.Text.{skip_spaces}
use vecdb.Terminal.Scan.{Fields, skip_line}
use vecdb.Terminal.Session.{
  Session, Console, Ran, continues, undefined, detached, running, put_files, is_master, files_at,
  seen_by,
}
use vecdb.Terminal.Session.{
  usage, no_pending, not_opened, executed, aborted, scheduled, schedule_failed, not_scheduled, due,
  hours_left, schedule_cleared,
}

-- The session with the files of a table, the data file of which is `bytes`.
abbrev pub put_data : List ℕ → TableFiles → List ℕ → Session → Session
put_data db_name files bytes st =
    put_files db_name (record (st.folder db_name) { table = record files { data_db = some bytes } })
      (record st { master_db = seen_by db_name bytes st.master_db })

-- `scanf(" %c", &confirm)`, and the rest of the line.
unfoldable pub read_confirm : List ℕ → ℕ × List ℕ
unfolding skip_spaces skip_line
read_confirm input = elim (skip_spaces input) [ [] ↦ (b'n', []) | c ∷ rest ↦ (c, skip_line rest) ]

module _ (C : Console) where
  -- The end of process-deletes: the queue is emptied whatever has become of the deletions.
  unfoldable pub clear_queue : Session → List ℕ → ℕ → ℕ → Ran
  clear_queue st db_name success_count pending_count =
      let f = st.folder db_name in
      let cleared = clear_pending_deletes C.files.empties f.table.pending_bin in
      continues
        (put_files db_name (record f { table = record (f.table) { pending_bin = cleared.1 } }) st)
        (executed success_count (pending_count - success_count))

  -- The compaction of the table that has been opened for it, and the index file that goes with it.
  unfoldable pub compacted : Session → List ℕ → TableFiles → Done → (Session → Ran) → Ran
  compacted st db_name files faulted next = undefined
  compacted st db_name files (done status db) next =
      let st' = put_data db_name files db.storage.bytes st in
      if is_master db_name st.master_db then detached else (elim status [
        | success ↦
            next (put_files db_name (record (st'.folder db_name) { ivf_index_bin = none }) st')
        | failure ↦ next st'
      ])

  unfoldable pub compact_opened : Session → List ℕ → Opened → (Session → Ran) → Ran
  unfolding compacted
  compact_opened st db_name refused next = next st
  compact_opened st db_name Init.faulted next = undefined
  compact_opened st db_name unfinished next = running
  compact_opened st db_name (opened db files) next =
      compacted st db_name files (db_compact C.files.compact db) next

  -- The table opened anew and compacted, where there was a deletion.
  unfoldable pub compact_again : Session → List ℕ → ℕ → (Session → Ran) → Ran
  unfolding compact_opened
  compact_again st db_name success_count next =
      if ltb 0 success_count
      then compact_opened st db_name
          (db_open C.floats C.libc C.host C.fuel (some db_name) (files_at db_name st)) next
      else next st

  -- The deletions of the queue, in the table that has been opened for them.
  unfoldable pub delete_queued : Session → List ℕ → List ℕ → Opened → Ran
  unfolding compact_again clear_queue
  delete_queued st db_name pending_ids refused = continues st not_opened
  delete_queued st db_name pending_ids Init.faulted = undefined
  delete_queued st db_name pending_ids unfinished = running
  delete_queued st db_name pending_ids (opened db files) =
      let deleted = delete_all C.files pending_ids 0 db in
      compact_again (put_data db_name files deleted.1.storage.bytes st) db_name deleted.0
        (λ st'. clear_queue st' db_name deleted.0 (length pending_ids))

  -- The question, and the deletions if the answer is y.
  unfoldable pub confirm_deletes : Session → List ℕ → List ℕ → ℕ × List ℕ → Ran
  unfolding delete_queued
  confirm_deletes st db_name pending_ids answer =
      let st' : Session = record st { input = answer.1 } in
      if answer.0 == b'y' || answer.0 == b'Y'
      then delete_queued st' db_name pending_ids
          (db_open C.floats C.libc C.host C.fuel (some db_name) (files_at db_name st'))
      else continues st' aborted

  abbrev pub with_queue : Session → List ℕ → Option (Option (List ℕ)) → Ran
  with_queue st db_name none = undefined
  with_queue st db_name (some none) = continues st no_pending
  with_queue st db_name (some (some pending_ids)) =
      confirm_deletes st db_name pending_ids (read_confirm st.input)

  -- process-deletes
  unfoldable pub cmd_process_deletes : Session → Fields → ℕ → Ran
  unfolding confirm_deletes read_confirm
  cmd_process_deletes st f words =
      if not (words == 3)
      then continues st usage
      else with_queue st f.db_name
          (load_pending_deletes C.host.env C.libc (st.folder f.db_name).table.pending_bin)

  -- The time of a schedule.
  abbrev pub time_in : ℕ → ℕ
  time_in days = (C.now + days * 86400 % u64_mod) % u64_mod

  abbrev pub put_schedule : List ℕ → Option (List ℕ) → Session → Session
  put_schedule db_name schedule st =
      put_files db_name (record (st.folder db_name) { auto_delete_schedule = schedule }) st

  unfoldable pub schedule_set : Session → List ℕ → ℕ → Status × Option (List ℕ) → Ran
  schedule_set st db_name days (success, schedule) =
      continues (put_schedule db_name schedule st) (scheduled days (time_in days))
  schedule_set st db_name days (failure, schedule) =
      continues (put_schedule db_name schedule st) schedule_failed

  -- set-auto-delete
  unfoldable pub cmd_set_auto_delete : Session → Fields → ℕ → Ran
  unfolding schedule_set
  cmd_set_auto_delete st f words =
      if not (words == 4)
      then continues st usage
      else schedule_set st f.db_name f.dimension (
          set_auto_delete_schedule C.sets C.sets_written (time_in f.dimension)
            (st.folder f.db_name).auto_delete_schedule)

  -- auto-delete-status
  unfoldable pub cmd_auto_delete_status : Session → Fields → ℕ → Ran
  cmd_auto_delete_status st f words =
      let scheduled_time = get_auto_delete_schedule (st.folder f.db_name).auto_delete_schedule in
      if not (words == 3)
      then continues st usage
      else if scheduled_time == 0
      then continues st not_scheduled
      else if leb scheduled_time C.now
      then continues st due
      else continues st (hours_left ((scheduled_time - C.now) / 3600))

  -- cancel-auto-delete
  unfoldable pub cmd_cancel_auto_delete : Session → Fields → ℕ → Ran
  cmd_cancel_auto_delete st f words =
      let cleared =
        clear_auto_delete_schedule C.files.removes (st.folder f.db_name).auto_delete_schedule in
      if not (words == 3)
      then continues st usage
      else continues (put_schedule f.db_name cleared.1 st) schedule_cleared
