-- ===== src/Terminal/Prompt.antt =====
-- src/terminal.c: `run_tui`, which src/main.c runs.
use vecdb.Prelude.{ℕ, zero, suc, ◌+◌, ◌-◌, List, [], ◌∷◌, ◌++◌, none, ◌||◌}
use vecdb.Prelude.{◌==◌, length, take}
use vecdb.Server.Text.{codes, cut_at}
use vecdb.Server.Keys.{fgets}
use vecdb.Terminal.Session.{Session, Console, Message, Ran, continues, exits, serves, aborts}
use vecdb.Terminal.Session
use vecdb.Terminal.Command.{handle_command}

-- The end of a session, with what its commands have reported: `left` at the end of the input or with
-- origin exit, `serving` in the server, `aborted` with the program. `prompting` is no end: the rounds
-- given to the loop are used up.
pub data TuiEnd : Type 0 where
  left : Session → List Message → TuiEnd
  serving : ℕ → Session → List Message → TuiEnd
  aborted : Session → List Message → TuiEnd
  undefined : TuiEnd
  detached : TuiEnd
  loading : TuiEnd
  prompting : TuiEnd

-- What one command leads to.
abbrev pub after_command : Ran → List Message → (Session → List Message → TuiEnd) → TuiEnd
after_command (continues st message) said more = more st (said ++ (message ∷ []))
after_command (exits st) said more = left st said
after_command (serves port st) said more = serving port st said
after_command (aborts st) said more = aborted st said
after_command Session.undefined said more = undefined
after_command Session.detached said more = detached
after_command Session.running said more = loading

-- The line that `fgets` has read, without what comes from its end on.
unfoldable pub command_of : List ℕ → List ℕ
unfolding cut_at
command_of line = cut_at (λ c. c == 10 || c == 0) line

-- The loop of `run_tui`, in rounds; `C` gives what each of the commands stands on.
unfoldable pub prompt_loop : (ℕ → Console) → ℕ → ℕ → Session → List Message → TuiEnd
unfolding command_of fgets
prompt_loop C zero n st said = prompting
prompt_loop C (suc rounds) n st said = elim st.input [
  | [] ↦ left st said
  | c ∷ input ↦
      let line = fgets 255 (c ∷ input) in
      after_command (handle_command (C n) (record st { input = line.1 }) (command_of line.0)) said
        (λ st' said'. prompt_loop C rounds (n + 1) st' said')
]

-- `strncat(command, s, sizeof(command) - strlen(command) - 1)`, for a buffer of 1024 bytes.
unfoldable pub strncat_to : List ℕ → List ℕ → List ℕ
strncat_to command s = command ++ take (1024 - length command - 1) s

-- The command that the arguments of the program make.
unfoldable pub join_args : List ℕ → List (List ℕ) → List ℕ
unfolding strncat_to
join_args command [] = command
join_args command (arg ∷ argv) = join_args (strncat_to (strncat_to command (codes " ")) arg) argv

-- `run_tui`, `argv` being the arguments behind the program's name: with any, one command is carried
-- out, and the program ends whatever it says.
unfoldable pub run_tui : (ℕ → Console) → ℕ → List (List ℕ) → Session → TuiEnd
unfolding prompt_loop join_args
run_tui C rounds [] st = prompt_loop C rounds 0 (record st { master_db = none }) []
run_tui C rounds (arg ∷ argv) st =
    after_command
      (handle_command (C 0) (record st { master_db = none })
        (join_args (codes "origin") (arg ∷ argv)))
      [] left

-- `main` of src/main.c, which returns 0 whatever `run_tui` returns.
unfoldable pub main : (ℕ → Console) → ℕ → List (List ℕ) → Session → TuiEnd
main C rounds argv st = run_tui C rounds argv st
