-- ===== src/Terminal/Keeps/Runs.antt =====
-- src/terminal.c: how a session at the prompt ends, and what holds of it then.
use vecdb.Prelude.{
  ℕ, zero, suc, ◌+◌, ◌≤◌, ◌<◌, ◌≡◌, refl, sym, ap, ◌∙◌, true, subst, arith, List, [], ◌∷◌, ◌++◌,
  Option, none, some, length,
}
use mathlib.Core.Option.{some-injective}
use vecdb.Db.Name.{validate_db_name}
use vecdb.Server.Text.{codes}
use vecdb.Server.Keys.{fgets}
use vecdb.Terminal.Input.{length-fgets}
use vecdb.Terminal.Session.{Master, Session, Console, Message, Ran, file_name_of}
use vecdb.Terminal.Session
use vecdb.Terminal.Session.{table_name_of}
use vecdb.Terminal.Names.{table_name_of_lem}
use vecdb.Terminal.Command.{handle_command}
use vecdb.Terminal.Prompt.{
  TuiEnd, left, serving, aborted, undefined, detached, loading, prompting, after_command,
  command_of, prompt_loop, join_args, run_tui,
}
use vecdb.Terminal.Follows.{
  Follows, IsOwn, Keeps, unchanged-Follows, Follows-trans, OnRan, goes_on, at_exit, in_server,
  at_abort, in_undefined, in_detached, in_running,
}
use vecdb.Terminal.Keeps.Prompt.{handle_command-OnRan}

-- Some command gives its load loops no round.
abbrev NoRound : (ℕ → Console) → Type 0
NoRound C = (n : ℕ) × ((C n).fuel ≡ 0)

-- The session is over, and where it leaves a state, that fulfils `P`; where a load loop has used up its
-- rounds, `L` holds.
data OnEnd (L : Type 0) (P : Session → Type 0) : TuiEnd → Type 0 where
  at_left : {st : Session} {said : List Message} → P st → OnEnd L P (left st said)
  at_serving :
      {port : ℕ} {st : Session} {said : List Message} → P st → OnEnd L P (serving port st said)
  at_aborted : {st : Session} {said : List Message} → P st → OnEnd L P (aborted st said)
  at_undefined : OnEnd L P undefined
  at_detached : OnEnd L P detached
  at_loading : L → OnEnd L P loading

OnEnd-map :
    {L : Type 0} (P Q : Session → Type 0) (e : TuiEnd)
    → ((st : Session) → P st → Q st)
    → OnEnd L P e
    → OnEnd L Q e
OnEnd-map P Q (left st said) f (at_left h) = at_left (f st h)
OnEnd-map P Q (serving port st said) f (at_serving h) = at_serving (f st h)
OnEnd-map P Q (aborted st said) f (at_aborted h) = at_aborted (f st h)
OnEnd-map P Q undefined f at_undefined = at_undefined
OnEnd-map P Q detached f at_detached = at_detached
OnEnd-map P Q loading f (at_loading l) = at_loading l
OnEnd-map P Q prompting f h = elim h [ ]

after_command-OnEnd :
    {L M : Type 0} (P Q : Session → Type 0) (r : Ran) (said : List Message)
    (more : Session → List Message → TuiEnd)
    → (M → L)
    → OnRan M P r
    → ((st : Session) → P st → Q st)
    → ((st : Session) (said' : List Message) → P st → OnEnd L Q (more st said'))
    → OnEnd L Q (after_command r said more)
after_command-OnEnd P Q (Session.continues st message) said more g (goes_on h) f k =
    k st (said ++ (message ∷ [])) h
after_command-OnEnd P Q (Session.exits st) said more g (at_exit h) f k = at_left (f st h)
after_command-OnEnd P Q (Session.serves port st) said more g (in_server h) f k = at_serving (f st h)
after_command-OnEnd P Q (Session.aborts st) said more g (at_abort h) f k = at_aborted (f st h)
after_command-OnEnd P Q Session.undefined said more g in_undefined f k = at_undefined
after_command-OnEnd P Q Session.detached said more g in_detached f k = at_detached
after_command-OnEnd P Q Session.running said more g (in_running l) f k = at_loading (g l)

lt_through : (a b c d : ℕ) → a ≤ b → b < c → c < suc d → a < d
lt_through a b c d h k l = omega arith

lt→le : (a b : ℕ) → a < b → a ≤ b
lt→le a b h = omega arith

prompt_loop-OnEnd :
    (C : ℕ → Console) (rounds n : ℕ) (st : Session) (said : List Message)
    → length st.input < rounds
    → OnEnd (NoRound C) (Follows st) (prompt_loop C rounds n st said)
unfolding prompt_loop
prompt_loop-OnEnd C zero n st said h = absurd (omega arith)
prompt_loop-OnEnd C (suc rounds) n st said h =
    by_input st.input refl (λ st' said' k. prompt_loop-OnEnd C rounds (n + 1) st' said' k)
  where
    by_input :
        (input : List ℕ)
        → st.input ≡ input
        → ((st' : Session) (said' : List Message)
            → length st'.input < rounds
            → OnEnd (NoRound C) (Follows st') (prompt_loop C rounds (n + 1) st' said'))
        → OnEnd (NoRound C) (Follows st) (elim input as (λ x. TuiEnd) [
          | [] ↦ left st said
          | c ∷ rest ↦
              after_command
                (handle_command
                  (C n)
                  (record st { input = (fgets 255 (c ∷ rest)).1 })
                  (command_of (fgets 255 (c ∷ rest)).0))
                said
                (λ st' said'. prompt_loop C rounds (n + 1) st' said')
        ])
    by_input [] e next = at_left (unchanged-Follows st st refl (omega arith))
    by_input (c ∷ rest) e next =
        after_command-OnEnd (Follows read) (Follows st)
          (handle_command (C n) read (command_of (fgets 255 (c ∷ rest)).0)) said
          (λ st' said'. prompt_loop C rounds (n + 1) st' said') (λ l. (n, l))
          (handle_command-OnRan (C n) read (command_of (fgets 255 (c ∷ rest)).0)) from_start
          (λ st' said' k.
            OnEnd-map (Follows st') (Follows st) (prompt_loop C rounds (n + 1) st' said')
              (λ st'' l. Follows-trans st st' st'' (from_start st' k) l)
              (next st' said' (
                lt_through (length st'.input) (length read.input) (length st.input) rounds
                  k.input_le less h)))
      where
        read : Session
        read = record st { input = (fgets 255 (c ∷ rest)).1 }

        less : length read.input < length st.input
        less = subst (λ i. length read.input < length i) (sym e) (length-fgets 254 c rest)

        from_start : (st' : Session) → Follows read st' → Follows st st'
        from_start st' k =
            Follows-trans st read st'
              (unchanged-Follows st read refl (lt→le (length read.input) (length st.input) less)) k

-- The session that an end leaves, if it leaves one.
abbrev pub session_of : TuiEnd → Option Session
session_of (left st said) = some st
session_of (serving port st said) = some st
session_of (aborted st said) = some st
session_of undefined = none
session_of detached = none
session_of loading = none
session_of prompting = none

on_session :
    {L : Type 0} (P : Session → Type 0) (e : TuiEnd) (st : Session)
    → OnEnd L P e
    → session_of e ≡ some st
    → P st
on_session P (left st' said) st (at_left h) k = subst P (some-injective st' st k) h
on_session P (serving port st' said) st (at_serving h) k = subst P (some-injective st' st k) h
on_session P (aborted st' said) st (at_aborted h) k = subst P (some-injective st' st k) h
on_session P undefined st at_undefined k = cc
on_session P detached st at_detached k = cc
on_session P loading st (at_loading l) k = cc
on_session P prompting st h k = elim h [ ]

kept_master :
    (o o' : Option Master) (m : Master)
    → o ≡ some m
    → Keeps o o'
    → (m' : Master) × (o' ≡ some m')
      × (m'.file_name ≡ m.file_name)
      × (m'.db.dimension ≡ m.db.dimension)
kept_master none o' m e h = cc
kept_master (some l) none m e h = absurd h
kept_master (some l) (some m') m e h = (
  m',
  refl,
  subst (λ x. m'.file_name ≡ x.file_name) (some-injective l m e) h.0,
  subst (λ x. m'.db.dimension ≡ x.db.dimension) (some-injective l m e) h.1,
)

-- A table that is open at the prompt is still the open one, under the name of its file and with its
-- dimension, wherever the session ends after any input: at the prompt, in the server or with the program.
-- The loop is given a round more than there are bytes of input.
pub prompt_loop_keeps :
    (C : ℕ → Console) (rounds n : ℕ) (st st' : Session) (said : List Message) (m : Master)
    → length st.input < rounds
    → st.master_db ≡ some m
    → session_of (prompt_loop C rounds n st said) ≡ some st'
    → (m' : Master) × (st'.master_db ≡ some m')
      × (m'.file_name ≡ m.file_name)
      × (m'.db.dimension ≡ m.db.dimension)
prompt_loop_keeps C rounds n st st' said m h e k =
    kept_master st.master_db st'.master_db m e
      (on_session (Follows st) (prompt_loop C rounds n st said) st'
        (prompt_loop-OnEnd C rounds n st said h) k).keeps

run_tui-OnEnd :
    (C : ℕ → Console) (rounds : ℕ) (argv : List (List ℕ)) (st : Session)
    → length st.input < rounds
    → OnEnd (NoRound C) (Follows (record st { master_db = none })) (run_tui C rounds argv st)
unfolding run_tui
run_tui-OnEnd C rounds [] st h = prompt_loop-OnEnd C rounds 0 (record st { master_db = none }) [] h
run_tui-OnEnd C rounds (arg ∷ argv) st h =
    after_command-OnEnd (Follows start) (Follows start)
      (handle_command (C 0) start (join_args (codes "origin") (arg ∷ argv))) [] left (λ l. (0, l))
      (handle_command-OnRan (C 0) start (join_args (codes "origin") (arg ∷ argv))) (λ st' k. k)
      (λ st' said k. at_left k)
  where
    start : Session
    start = record st { master_db = none }

-- The table that is open where a session of `run_tui` ends has a valid name, and the name that `delete`
-- reads off its file's name is that name. The loop is given a round more than there are bytes of input.
pub run_tui_opens_valid :
    (C : ℕ → Console) (rounds : ℕ) (argv : List (List ℕ)) (st st' : Session) (m : Master)
    → length st.input < rounds
    → session_of (run_tui C rounds argv st) ≡ some st'
    → st'.master_db ≡ some m
    → (name : List ℕ) × (validate_db_name (some name) ≡ true)
      × (m.file_name ≡ file_name_of name)
      × (table_name_of m.file_name ≡ name)
run_tui_opens_valid C rounds argv st st' m h k e =
    (own.0, own.2, own.1, ap table_name_of own.1 ∙ table_name_of_lem own.0 own.2)
  where
    own : IsOwn (some m)
    own = subst IsOwn e (
        (on_session (Follows (record st { master_db = none })) (run_tui C rounds argv st) st'
            (run_tui-OnEnd C rounds argv st h) k).own
          tt)
