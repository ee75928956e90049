-- ===== src/Server/Connection.antt =====
-- src/server.c: `handle_conn_event`, the state of a connection and what its bytes make of it.
pub mod Frame
use vecdb.Prelude.{
  ℕ, zero, suc, ◌+◌, ◌-◌, ◌*◌, ◌%◌, ◌^◌, List, [], ◌∷◌, ◌++◌, Option, none, some, Bool, true, false,
  ◌&&◌, ◌||◌, not,
}
use vecdb.Prelude.{if◌then◌else◌, ◌==◌, ltb, leb, length, take, drop}
use vecdb.Prelude.Bytes.{u64_mod}
use vecdb.Server.Text.{codes, text_of, strstr, strcasestr, skip_spaces}
use vecdb.Server.Tables.{State}
use vecdb.Server.Reply.{send_error, invalid_parameter, internal_error}
use vecdb.Server.Actions.{Machine, handled}
use vecdb.Server.Routes.{handel_client}
use vecdb.Server.Actions

-- `conn_phase_t`.
pub data Phase : Type 0 where
  reading_headers reading_body finished : Phase

-- `conn_state_t` without its descriptor and its time: `header_buffer` is the `header_length` bytes in
-- the buffer, `http_body` the `body_bytes_read` bytes read of the body.
pub record Conn : Type 0 where
  pub phase : Phase
  pub header_buffer : List ℕ
  pub content_length : ℕ
  pub http_body : List ℕ

-- A connection as `acceptor_loop` makes it.
abbrev pub new_conn : Conn
new_conn = record {
  phase = reading_headers;
  header_buffer = [];
  content_length = 0;
  http_body = [];
}

-- A whole number: `negsuc n` is `-(n + 1)`.
pub data ℤ : Type 0 where
  pos negsuc : ℕ → ℤ

-- The digits at the start of a string, behind the number that is read.
unfoldable pub read_digits : List ℕ → ℕ → ℕ
read_digits [] n = n
read_digits (c ∷ text) n =
    let rest = read_digits text (n * 10 + c - b'0') in if leb b'0' c && leb c b'9' then rest else n

unfoldable pub negated : ℕ → ℤ
negated zero = pos 0
negated (suc n) = negsuc n

abbrev pub int_max : ℕ
int_max = 0x7fff_ffff

-- `atoi`; `none` is a number that no `int` holds.
unfoldable pub atoi : List ℕ → Option ℤ
unfolding read_digits negated skip_spaces
atoi text = elim (skip_spaces text) [
  | [] ↦ some (pos 0)
  | c ∷ rest ↦
      if c == b'-'
      then (if leb (read_digits rest 0) (int_max + 1)
          then some (negated (read_digits rest 0))
          else none)
      else (let n = if c == b'+' then read_digits rest 0 else read_digits (c ∷ rest) 0 in
          if leb n int_max then some (pos n) else none)
]

abbrev pub max_content_length : ℕ
max_content_length = 10485760

-- What a `recv` has: bytes, more perhaps than it is asked for; the end of the stream; nothing yet; or
-- an error.
pub data Recv : Type 0 where
  bytes : List ℕ → Recv
  end_of_stream : Recv
  would_block : Recv
  recv_fails : Recv

-- One round of the loop: another one, with the request not complete; back to `epoll`; the end of the
-- connection, with what is sent before; a complete request; or undefined behaviour.
pub data Round : Type 0 where
  again : Conn → Round
  rearmed : Conn → Round
  closes : List ℕ → Round
  complete : Conn → Round
  undefined : Round

-- The body read so far, which may be all of it.
unfoldable pub with_body : Conn → ℕ → List ℕ → Round
with_body c content_length http_body =
    if leb content_length (length http_body)
    then complete
        (record c { phase = finished; content_length = content_length; http_body = http_body })
    else again
        (record c { phase = reading_body; content_length = content_length; http_body = http_body })

-- The end of the headers has come: what Content-Length says, and the bytes behind the headers. A
-- length of -1 makes a block of no bytes that is read or written past its end; any other below 0 is
-- more than there is memory. `granted` is the result of `calloc`.
unfoldable pub start_body : Bool → Conn → Option ℤ → ℕ → Round
unfolding with_body
start_body granted c none headers_size = undefined
start_body granted c (some (negsuc n)) headers_size =
    if n == 0
    then undefined
    else closes (send_error internal_error "Out of memory allocating request body.")
start_body granted c (some (pos content_length)) headers_size =
    if content_length == 0 || ltb max_content_length content_length
    then closes (send_error invalid_parameter "Missing or excessive Content-Length header.")
    else if not granted
    then closes (send_error internal_error "Out of memory allocating request body.")
    else with_body c content_length (take content_length (drop headers_size c.header_buffer))

-- `content_length` of the headers.
unfoldable pub content_length_of : List ℕ → Option ℤ
unfolding strcasestr atoi
content_length_of header_buffer = elim (strcasestr header_buffer (codes "Content-Length:")) [
  | none ↦ some (pos 0)
  | some cl_ptr ↦ atoi (drop 15 cl_ptr)
]

-- New bytes of the headers.
unfoldable pub receive_headers : Bool → Conn → List ℕ → Round
unfolding strstr content_length_of start_body
receive_headers granted c received =
    let c' : Conn = record c { header_buffer = c.header_buffer ++ received } in
    let text = text_of (c.header_buffer ++ received) in
    elim (strstr text (codes "\r\n\r\n")) [
      | none ↦ again c'
      | some body_start ↦
          start_body granted c' (content_length_of text) (length text - length body_start + 4)
    ]

-- What a `recv` does with room for `dest_cap` bytes, `took` being what becomes of those it gives.
unfoldable pub receive_into : ℕ → Conn → (List ℕ → Round) → Recv → Round
receive_into dest_cap c took end_of_stream = closes []
receive_into dest_cap c took would_block = rearmed c
receive_into dest_cap c took recv_fails = closes []
receive_into dest_cap c took (bytes received) =
    if length received == 0 || dest_cap == 0 then closes [] else took (take dest_cap received)

-- One round. A connection is between requests or in one whenever it is looked at.
unfoldable pub receive : Bool → Conn → Recv → Round
unfolding receive_into receive_headers with_body
receive granted c r = elim c.phase [
  | reading_headers ↦
      if leb 4095 (length c.header_buffer)
      then closes []
      else receive_into (4095 - length c.header_buffer) c (receive_headers granted c) r
  | reading_body ↦
      receive_into (c.content_length - length c.http_body) c
        (λ received. with_body c c.content_length (c.http_body ++ received)) r
  | finished ↦
      receive_into (c.content_length - length c.http_body) c
        (λ received. with_body c c.content_length (c.http_body ++ received)) r
]

-- The loop, with what its calls of `recv` have; behind these there is nothing yet.
unfoldable pub read_request : Bool → Conn → List Recv → Round
unfolding receive
read_request granted c [] = rearmed c
read_request granted c (r ∷ more) = elim (receive granted c r) [
  | again c' ↦ read_request granted c' more
  | rearmed c' ↦ rearmed c'
  | closes reply ↦ closes reply
  | complete c' ↦ complete c'
  | undefined ↦ undefined
]

-- How an event ends: with the connection waiting for the next, or closed, both with the state of the
-- server and the bytes that were sent. `closed_twice`: the route had closed the descriptor already.
pub data Ended : Type 0 where
  waits : Conn → State → List ℕ → Ended
  closed : State → List ℕ → Ended
  closed_twice : State → List ℕ → Ended
  undefined : Ended
  hangs : Ended
  running : Ended

-- The end of `handle_conn_event`: the request, and the connection closed or made ready for the next. A
-- descriptor that the route has closed cannot be armed again, and is closed once more either way.
unfoldable pub finish : Machine → State → Conn → Ended
unfolding handel_client strcasestr
finish M st c = elim (handel_client M st (text_of c.header_buffer) (text_of c.http_body)) [
  | Actions.undefined ↦ undefined
  | Actions.hangs ↦ hangs
  | Actions.running ↦ running
  | handled st' reply is_closed ↦
      if is_closed
      then closed_twice st' reply
      else (elim (strcasestr (text_of c.header_buffer) (codes "Connection: close")) [
        | some rest ↦ closed st' reply
        | none ↦ waits new_conn st' reply
      ])
]

-- `handle_conn_event`.
unfoldable pub handle_conn_event : Machine → State → Bool → Conn → List Recv → Ended
unfolding read_request finish
handle_conn_event M st granted c calls = elim (read_request granted c calls) [
  | again c' ↦ waits c' st []
  | rearmed c' ↦ waits c' st []
  | closes reply ↦ closed st reply
  | undefined ↦ undefined
  | complete c' ↦ finish M st c'
]

-- `(now - c->last_active) > 300`, in `sync_worker`.
unfoldable pub is_idle : ℕ → ℕ → Bool
is_idle now last_active = ltb 300 ((now + (u64_mod - last_active)) % u64_mod)
