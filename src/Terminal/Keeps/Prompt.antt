-- ===== src/Terminal/Keeps/Prompt.antt =====
-- src/terminal.c: what every command leaves of the session.
use vecdb.Prelude.{◌≡◌, ℕ, refl, arith, List, Option, none, some, ◌||◌, not}
use vecdb.Prelude.{if◌then◌else◌, ◌==◌, ltb}
use vecdb.Server.Text.{codes, same}
use vecdb.Server.Connection.{ℤ, pos, negsuc, atoi}
use vecdb.Terminal.Scan.{Fields, count_words, scan_fields}
use vecdb.Terminal.Session.{Session, Console, continues}
use vecdb.Terminal.Session.{unknown_command}
use vecdb.Terminal.Queue.{
  cmd_process_deletes, cmd_set_auto_delete, cmd_auto_delete_status, cmd_cancel_auto_delete,
}
use vecdb.Terminal.Command.{serve_at, cmd_server, run_command, handle_command}
use vecdb.Terminal.Follows.{
  Follows, unchanged-Follows, OnRan, goes_on, at_exit, in_server, in_undefined, OnRan-if,
}
use vecdb.Terminal.Keeps.{cmd_init-OnRan, cmd_open-OnRan}
use vecdb.Terminal.Keeps.Changes.{cmd_insert-OnRan, cmd_search-OnRan, cmd_delete-OnRan}
use vecdb.Terminal.Keeps.Queue.{
  cmd_process_deletes-OnRan, cmd_set_auto_delete-OnRan, cmd_auto_delete_status-OnRan,
  cmd_cancel_auto_delete-OnRan,
}

serve_at-OnRan :
    {L : Type 0} (st : Session) (port : Option ℤ) → OnRan L (Follows st) (serve_at st port)
serve_at-OnRan st none = in_undefined
serve_at-OnRan st (some (negsuc n)) = goes_on (unchanged-Follows st st refl (omega arith))
serve_at-OnRan st (some (pos n)) =
    OnRan-if (Follows st) (n == 0) _ _ (goes_on (unchanged-Follows st st refl (omega arith)))
      (in_server (unchanged-Follows st st refl (omega arith)))

cmd_server-OnRan :
    {L : Type 0} (st : Session) (f : Fields) (words : ℕ)
    → OnRan L (Follows st) (cmd_server st f words)
unfolding cmd_server
cmd_server-OnRan st f words =
    OnRan-if (Follows st) (ltb 3 words) _ _ (goes_on (unchanged-Follows st st refl (omega arith))) (
      OnRan-if (Follows st) (words == 3) _ _ (serve_at-OnRan st (atoi f.db_name))
        (in_server (unchanged-Follows st st refl (omega arith))))

module _ (C : Console) (st : Session) where
  abbrev P : Session → Type 0
  P = Follows st

  -- The load loops are given no round.
  abbrev L : Type 0
  L = C.fuel ≡ 0

  same_session : P st
  same_session = unchanged-Follows st st refl (omega arith)

  run_command-OnRan :
      (command : List ℕ) (f : Fields) (words : ℕ) → OnRan L P (run_command C st command f words)
  unfolding run_command
  run_command-OnRan command f words =
      OnRan-if P
        (same f.arg (codes "--help") || same f.arg (codes "help") || same f.arg (codes "-h")) _ _
        (goes_on same_session)
        (OnRan-if P (same f.arg (codes "--exit") || same f.arg (codes "exit")) _ _
          (at_exit same_session)
          (OnRan-if P (same f.arg (codes "server")) _ _ (cmd_server-OnRan st f words) (
            OnRan-if P (same f.arg (codes "init")) _ _ (cmd_init-OnRan C st f words) (
              OnRan-if P (same f.arg (codes "open")) _ _ (cmd_open-OnRan C st f words) (
                OnRan-if P (same f.arg (codes "insert")) _ _ (cmd_insert-OnRan C st command words) (
                  OnRan-if P (same f.arg (codes "search")) _ _ (cmd_search-OnRan C st command words)
                    (OnRan-if P (same f.arg (codes "delete")) _ _
                      (cmd_delete-OnRan C st command words) (queue_command f words))))))))
    where
      queue_command :
          (g : Fields) (n : ℕ)
          → OnRan L P (
              if same g.arg (codes "process-deletes")
              then cmd_process_deletes C st g n
              else if same g.arg (codes "set-auto-delete")
              then cmd_set_auto_delete C st g n
              else if same g.arg (codes "auto-delete-status")
              then cmd_auto_delete_status C st g n
              else if same g.arg (codes "cancel-auto-delete")
              then cmd_cancel_auto_delete C st g n
              else continues st (unknown_command g.arg))
      queue_command g n =
          OnRan-if P (same g.arg (codes "process-deletes")) _ _ (cmd_process_deletes-OnRan C st g n)
            (OnRan-if P (same g.arg (codes "set-auto-delete")) _ _
              (cmd_set_auto_delete-OnRan C st g n)
              (OnRan-if P (same g.arg (codes "auto-delete-status")) _ _
                (cmd_auto_delete_status-OnRan C st g n)
                (OnRan-if P (same g.arg (codes "cancel-auto-delete")) _ _
                  (cmd_cancel_auto_delete-OnRan C st g n) (goes_on same_session))))

  pub handle_command-OnRan : (command : List ℕ) → OnRan L P (handle_command C st command)
  unfolding handle_command
  handle_command-OnRan command = OnRan-if P (count_words command == 0) _ _ (goes_on same_session) (
      OnRan-if P (not (same f.cmd (codes "origin"))) _ _ (goes_on same_session) (
        OnRan-if P (ltb f.ret 2) _ _ (goes_on same_session)
          (run_command-OnRan command f (count_words command))))
    where
      f : Fields
      f = scan_fields command
