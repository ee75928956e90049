-- ===== src/Server/Worker.antt =====
-- src/server.c: `epoll_worker_loop`, the events of a round one after another.
use vecdb.Prelude.{ℕ, List, [], ◌∷◌, Option, none, some, Bool, true, false, if◌then◌else◌}
use vecdb.Server.Text.{codes, text_of, strcasestr}
use vecdb.Server.Tables.{State}
use vecdb.Server.Tables.Invariant.{IsTables}
use vecdb.Server.Actions.{Machine, Handled, handled}
use vecdb.Server.Actions
use vecdb.Server.Actions.Names.{OnHandled}
use vecdb.Server.Routes.{handel_client}
use vecdb.Server.Routes.Names.{handel_client-OnHandled}
use vecdb.Server.Connection.{
  Conn, new_conn, Recv, Round, again, rearmed, closes, complete, Ended, waits, closed, closed_twice,
  read_request, finish, handle_conn_event,
}
use vecdb.Server.Connection

-- An event of `epoll_wait`: its connection, what its calls of `recv` have, and the result of `calloc`.
pub record Event : Type 0 where
  pub conn : Conn
  pub calls : List Recv
  pub granted : Bool

-- How a round ends.
pub data Worked : Type 0 where
  worked : State → Worked
  undefined : Worked
  hangs : Worked
  running : Worked

-- What comes after an event.
abbrev pub after_event : Ended → (State → Worked) → Worked
after_event (waits c st reply) next = next st
after_event (closed st reply) next = next st
after_event (closed_twice st reply) next = next st
after_event Connection.undefined next = undefined
after_event Connection.hangs next = hangs
after_event Connection.running next = running

-- The loop over the events.
unfoldable pub worker_round : Machine → State → List Event → Worked
worker_round M st [] = worked st
worker_round M st (e ∷ more) =
    after_event (handle_conn_event M st e.granted e.conn e.calls) (λ st'. worker_round M st' more)

-- The state that an event leaves fulfils `P`.
abbrev OnEnded : (State → Type 0) → Ended → Type 0
OnEnded P (waits c st reply) = P st
OnEnded P (closed st reply) = P st
OnEnded P (closed_twice st reply) = P st
OnEnded P Connection.undefined = Unit
OnEnded P Connection.hangs = Unit
OnEnded P Connection.running = Unit

module _ (M : Machine) (st : State) (ok : IsTables st.open_tables) where
  abbrev P : State → Type 0
  P st' = IsTables st'.open_tables

  finish-OnEnded : (c : Conn) → OnEnded P (finish M st c)
  unfolding finish
  finish-OnEnded c =
      by_answer (handel_client M st (text_of c.header_buffer) (text_of c.http_body))
        (handel_client-OnHandled M st (text_of c.header_buffer) (text_of c.http_body) ok)
    where
      by_close :
          (o : Option (List ℕ)) (st' : State) (reply : List ℕ)
          → P st'
          → OnEnded P (elim o as (λ x. Ended) [
            | some rest ↦ closed st' reply
            | none ↦ waits new_conn st' reply
          ])
      by_close none st' reply h = h
      by_close (some rest) st' reply h = h

      by_flag :
          (b : Bool) (st' : State) (reply : List ℕ)
          → P st'
          → OnEnded P (
              if b
              then closed_twice st' reply
              else (elim (strcasestr (text_of c.header_buffer) (codes "Connection: close"))
                  as (λ x. Ended) [
                    | some rest ↦ closed st' reply
                    | none ↦ waits new_conn st' reply
                  ]))
      by_flag true st' reply h = h
      by_flag false st' reply h = by_close _ st' reply h

      by_answer :
          (r : Handled)
          → OnHandled P r
          → OnEnded P (elim r as (λ x. Ended) [
            | Actions.undefined ↦ Connection.undefined
            | Actions.hangs ↦ Connection.hangs
            | Actions.running ↦ Connection.running
            | handled st' reply is_closed ↦
                if is_closed
                then closed_twice st' reply
                else (elim (strcasestr (text_of c.header_buffer) (codes "Connection: close"))
                    as (λ x. Ended) [
                      | some rest ↦ closed st' reply
                      | none ↦ waits new_conn st' reply
                    ])
          ])
      by_answer Actions.undefined h = tt
      by_answer Actions.hangs h = tt
      by_answer Actions.running h = tt
      by_answer (handled st' reply is_closed) h = by_flag is_closed st' reply h

  handle_conn_event-OnEnded :
      (granted : Bool) (c : Conn) (calls : List Recv)
      → OnEnded P (handle_conn_event M st granted c calls)
  unfolding handle_conn_event
  handle_conn_event-OnEnded granted c calls = by_round (read_request granted c calls)
    where
      by_round :
          (r : Round)
          → OnEnded P (elim r as (λ x. Ended) [
            | again c' ↦ waits c' st []
            | rearmed c' ↦ waits c' st []
            | closes reply ↦ closed st reply
            | Connection.undefined ↦ Connection.undefined
            | complete c' ↦ finish M st c'
          ])
      by_round (again c') = ok
      by_round (rearmed c') = ok
      by_round (closes reply) = ok
      by_round Connection.undefined = tt
      by_round (complete c') = finish-OnEnded c'

-- The state that a round leaves fulfils `P`.
abbrev pub OnWorked : (State → Type 0) → Worked → Type 0
OnWorked P (worked st) = P st
OnWorked P undefined = Unit
OnWorked P hangs = Unit
OnWorked P running = Unit

after_event-OnWorked :
    (Q : State → Type 0) (e : Ended) (next : State → Worked)
    → OnEnded Q e
    → ((st : State) → Q st → OnWorked Q (next st))
    → OnWorked Q (after_event e next)
after_event-OnWorked Q (waits c st reply) next h k = k st h
after_event-OnWorked Q (closed st reply) next h k = k st h
after_event-OnWorked Q (closed_twice st reply) next h k = k st h
after_event-OnWorked Q Connection.undefined next h k = tt
after_event-OnWorked Q Connection.hangs next h k = tt
after_event-OnWorked Q Connection.running next h k = tt

-- Whatever the events of a round bring, the open tables stay at most 32 with distinct, valid names.
pub worker_round-OnWorked :
    (M : Machine) (st : State) (events : List Event)
    → IsTables st.open_tables
    → OnWorked (λ st'. IsTables st'.open_tables) (worker_round M st events)
unfolding worker_round
worker_round-OnWorked M st [] ok = ok
worker_round-OnWorked M st (e ∷ more) ok =
    after_event-OnWorked (λ st'. IsTables st'.open_tables)
      (handle_conn_event M st e.granted e.conn e.calls) (λ st'. worker_round M st' more)
      (handle_conn_event-OnEnded M st ok e.granted e.conn e.calls)
      (λ st' k. worker_round-OnWorked M st' more k)
