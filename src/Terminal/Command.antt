-- ===== src/Terminal/Command.antt =====
-- src/terminal.c: `handle_command`.
use vecdb.Prelude.{ℕ, List, Option, none, some, ◌||◌, not}
use vecdb.Prelude.{if◌then◌else◌, ◌==◌, ltb}
use vecdb.Server.Text.{codes, same}
use vecdb.Server.Connection.{ℤ, pos, negsuc, atoi}
use vecdb.Terminal.Scan.{Fields, count_words, scan_fields}
use vecdb.Terminal.Session.{Session, Console, Ran, continues, exits, serves, undefined}
use vecdb.Terminal.Session.{
  nothing, unknown_word, missing_command, unknown_command, help, usage, bad_port,
}
use vecdb.Terminal.Tables.{cmd_init, cmd_open, cmd_insert, cmd_search, cmd_delete}
use vecdb.Terminal.Queue.{
  cmd_process_deletes, cmd_set_auto_delete, cmd_auto_delete_status, cmd_cancel_auto_delete,
}

-- `server_init`, which does not return, for a port above 0.
abbrev pub serve_at : Session → Option ℤ → Ran
serve_at st none = undefined
serve_at st (some (negsuc n)) = continues st bad_port
serve_at st (some (pos n)) = if n == 0 then continues st bad_port else serves n st

-- server
unfoldable pub cmd_server : Session → Fields → ℕ → Ran
cmd_server st f words =
    if ltb 3 words
    then continues st usage
    else if words == 3
    then serve_at st (atoi f.db_name)
    else serves 8080 st

module _ (C : Console) where
  -- The branches of `handle_command`, by the second word.
  unfoldable pub run_command : Session → List ℕ → Fields → ℕ → Ran
  unfolding same
  run_command st command f words =
      if same f.arg (codes "--help") || same f.arg (codes "help") || same f.arg (codes "-h")
      then continues st help
      else if same f.arg (codes "--exit") || same f.arg (codes "exit")
      then exits st
      else if same f.arg (codes "server")
      then cmd_server st f words
      else if same f.arg (codes "init")
      then cmd_init C st f words
      else if same f.arg (codes "open")
      then cmd_open C st f words
      else if same f.arg (codes "insert")
      then cmd_insert C st command words
      else if same f.arg (codes "search")
      then cmd_search C st command words
      else if same f.arg (codes "delete")
      then cmd_delete C st command words
      else if same f.arg (codes "process-deletes")
      then cmd_process_deletes C st f words
      else if same f.arg (codes "set-auto-delete")
      then cmd_set_auto_delete C st f words
      else if same f.arg (codes "auto-delete-status")
      then cmd_auto_delete_status C st f words
      else if same f.arg (codes "cancel-auto-delete")
      then cmd_cancel_auto_delete C st f words
      else continues st (unknown_command f.arg)

  -- `handle_command`.
  unfoldable pub handle_command : Session → List ℕ → Ran
  unfolding same
  handle_command st command =
      let f = scan_fields command in
      if count_words command == 0
      then continues st nothing
      else if not (same f.cmd (codes "origin"))
      then continues st (unknown_word f.cmd)
      else if ltb f.ret 2
      then continues st missing_command
      else run_command st command f (count_words command)
