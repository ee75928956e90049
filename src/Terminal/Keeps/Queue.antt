-- ===== src/Terminal/Keeps/Queue.antt =====
-- src/terminal.c: what the commands for the queue of deletions leave of the session.
use vecdb.Prelude.{◌≡◌, ℕ, refl, arith, List, Option, none, some, ◌||◌, not}
use vecdb.Prelude.{◌==◌, ltb, leb, length}
use vecdb.Pending.{load_pending_deletes, set_auto_delete_schedule, get_auto_delete_schedule}
use vecdb.Storage.Types.{Status, success, failure}
use vecdb.Db.Types.{FlatDb}
use vecdb.Db.Init.{Opened, TableFiles, refused, opened, unfinished, db_open}
use vecdb.Db.Init
use vecdb.Db.Reopen.{db_open-unfinished}
use vecdb.Db.Insert.{Done, done, faulted, db_compact}
use vecdb.Db.AutoDelete.{delete_all}
use vecdb.Terminal.Scan.{Fields}
use vecdb.Terminal.Input.{length-read_confirm}
use vecdb.Terminal.Session.{Session, Console, Ran, put_files, is_master, files_at}
use vecdb.Terminal.Queue.{
  put_data, read_confirm, clear_queue, compacted, compact_opened, compact_again, delete_queued,
  confirm_deletes, with_queue, cmd_process_deletes, schedule_set, cmd_set_auto_delete,
  cmd_auto_delete_status, cmd_cancel_auto_delete, time_in,
}
use vecdb.Terminal.Follows.{
  Follows, Follows-put, Follows-trans, unchanged-Follows, seen_by-Follows, OnRan, goes_on,
  in_undefined, in_detached, in_running, OnRan-if,
}

module _ (C : Console) (st : Session) where
  abbrev P : Session → Type 0
  P = Follows st

  -- The load loops are given no round.
  abbrev L : Type 0
  L = C.fuel ≡ 0

  same_session : P st
  same_session = unchanged-Follows st st refl (omega arith)

  -- The bytes of a data file put in its folder.
  put_data-Follows :
      (st' : Session) (db_name bytes : List ℕ) (files : TableFiles)
      → P st'
      → P (put_data db_name files bytes st')
  put_data-Follows st' db_name bytes files h =
      Follows-trans st st' (put_data db_name files bytes st') h
        (seen_by-Follows st' (put_data db_name files bytes st') db_name bytes refl (omega arith))

  clear_queue-OnRan :
      (st' : Session) (db_name : List ℕ) (success_count pending_count : ℕ)
      → P st'
      → OnRan L P (clear_queue C st' db_name success_count pending_count)
  unfolding clear_queue
  clear_queue-OnRan st' db_name success_count pending_count h =
      goes_on (Follows-put st' db_name _ h)

  compacted-OnRan :
      (st' : Session) (db_name : List ℕ) (files : TableFiles) (d : Done) (next : Session → Ran)
      → P st'
      → ((after : Session) → P after → OnRan L P (next after))
      → OnRan L P (compacted C st' db_name files d next)
  unfolding compacted
  compacted-OnRan st' db_name files faulted next h k = in_undefined
  compacted-OnRan st' db_name files (done status db) next h k =
      OnRan-if P (is_master db_name st'.master_db) _ _ in_detached (by_status status)
    where
      after : Session
      after = put_data db_name files db.storage.bytes st'

      after-P : P after
      after-P = put_data-Follows st' db_name db.storage.bytes files h

      by_status :
          (s : Status)
          → OnRan L P (elim s as (λ x. Ran) [
            | success ↦
                next
                  (put_files db_name (record (after.folder db_name) { ivf_index_bin = none }) after)
            | failure ↦ next after
          ])
      by_status success =
          k (put_files db_name (record (after.folder db_name) { ivf_index_bin = none }) after)
            (Follows-put after db_name _ after-P)
      by_status failure = k after after-P

  compact_opened-OnRan :
      (st' : Session) (db_name : List ℕ) (o : Opened) (next : Session → Ran)
      → P st'
      → ((after : Session) → P after → OnRan L P (next after))
      → (o ≡ unfinished → L)
      → OnRan L P (compact_opened C st' db_name o next)
  unfolding compact_opened
  compact_opened-OnRan st' db_name refused next h k no_round = k st' h
  compact_opened-OnRan st' db_name Init.faulted next h k no_round = in_undefined
  compact_opened-OnRan st' db_name unfinished next h k no_round = in_running (no_round refl)
  compact_opened-OnRan st' db_name (opened db files) next h k no_round =
      compacted-OnRan st' db_name files (db_compact C.files.compact db) next h k

  delete_queued-OnRan :
      (st' : Session) (db_name pending_ids : List ℕ) (o : Opened)
      → P st'
      → (o ≡ unfinished → L)
      → OnRan L P (delete_queued C st' db_name pending_ids o)
  unfolding delete_queued compact_again
  delete_queued-OnRan st' db_name pending_ids refused h no_round = goes_on h
  delete_queued-OnRan st' db_name pending_ids Init.faulted h no_round = in_undefined
  delete_queued-OnRan st' db_name pending_ids unfinished h no_round = in_running (no_round refl)
  delete_queued-OnRan st' db_name pending_ids (opened db files) h no_round =
      OnRan-if P (ltb 0 deleted.0) _ _
        (compact_opened-OnRan after db_name
          (db_open C.floats C.libc C.host C.fuel (some db_name) (files_at db_name after)) next
          after-P finish
          (db_open-unfinished C.floats C.libc C.host C.fuel (some db_name)
            (files_at db_name after)))
        (finish after after-P)
    where
      deleted : ℕ × FlatDb
      deleted = delete_all C.files pending_ids 0 db

      after : Session
      after = put_data db_name files deleted.1.storage.bytes st'

      after-P : P after
      after-P = put_data-Follows st' db_name deleted.1.storage.bytes files h

      next : Session → Ran
      next st'' = clear_queue C st'' db_name deleted.0 (length pending_ids)

      finish : (st'' : Session) → P st'' → OnRan L P (next st'')
      finish st'' k = clear_queue-OnRan st'' db_name deleted.0 (length pending_ids) k

  with_queue-OnRan :
      (db_name : List ℕ) (o : Option (Option (List ℕ))) → OnRan L P (with_queue C st db_name o)
  unfolding confirm_deletes
  with_queue-OnRan db_name none = in_undefined
  with_queue-OnRan db_name (some none) = goes_on same_session
  with_queue-OnRan db_name (some (some pending_ids)) =
      OnRan-if P ((read_confirm st.input).0 == b'y' || (read_confirm st.input).0 == b'Y') _ _
        (delete_queued-OnRan answered db_name pending_ids
          (db_open C.floats C.libc C.host C.fuel (some db_name) (files_at db_name answered))
          answered-P
          (db_open-unfinished C.floats C.libc C.host C.fuel (some db_name)
            (files_at db_name answered)))
        (goes_on answered-P)
    where
      answered : Session
      answered = record st { input = (read_confirm st.input).1 }

      answered-P : P answered
      answered-P = unchanged-Follows st answered refl (length-read_confirm st.input)

  pub cmd_process_deletes-OnRan :
      (f : Fields) (words : ℕ) → OnRan L P (cmd_process_deletes C st f words)
  unfolding cmd_process_deletes
  cmd_process_deletes-OnRan f words = OnRan-if P (not (words == 3)) _ _ (goes_on same_session) (
      with_queue-OnRan f.db_name
        (load_pending_deletes C.host.env C.libc (st.folder f.db_name).table.pending_bin))

  schedule_set-OnRan :
      (db_name : List ℕ) (days : ℕ) (p : Status × Option (List ℕ))
      → OnRan L P (schedule_set C st db_name days p)
  unfolding schedule_set
  schedule_set-OnRan db_name days (success, schedule) =
      goes_on (Follows-put st db_name _ same_session)
  schedule_set-OnRan db_name days (failure, schedule) =
      goes_on (Follows-put st db_name _ same_session)

  pub cmd_set_auto_delete-OnRan :
      (f : Fields) (words : ℕ) → OnRan L P (cmd_set_auto_delete C st f words)
  unfolding cmd_set_auto_delete
  cmd_set_auto_delete-OnRan f words = OnRan-if P (not (words == 4)) _ _ (goes_on same_session) (
      schedule_set-OnRan f.db_name f.dimension (
        set_auto_delete_schedule C.sets C.sets_written (time_in C f.dimension)
          (st.folder f.db_name).auto_delete_schedule))

  pub cmd_auto_delete_status-OnRan :
      (f : Fields) (words : ℕ) → OnRan L P (cmd_auto_delete_status C st f words)
  unfolding cmd_auto_delete_status
  cmd_auto_delete_status-OnRan f words = OnRan-if P (not (words == 3)) _ _ (goes_on same_session) (
      OnRan-if P (scheduled_time == 0) _ _ (goes_on same_session)
        (OnRan-if P (leb scheduled_time C.now) _ _ (goes_on same_session) (goes_on same_session)))
    where
      scheduled_time : ℕ
      scheduled_time = get_auto_delete_schedule (st.folder f.db_name).auto_delete_schedule

  pub cmd_cancel_auto_delete-OnRan :
      (f : Fields) (words : ℕ) → OnRan L P (cmd_cancel_auto_delete C st f words)
  unfolding cmd_cancel_auto_delete
  cmd_cancel_auto_delete-OnRan f words =
      OnRan-if P (not (words == 3)) _ _ (goes_on same_session)
        (goes_on (Follows-put st f.db_name _ same_session))
