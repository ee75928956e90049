-- ===== src/Server/Connection/Frame.antt =====
-- src/server.c: the bounds of the buffers of a connection.
use vecdb.Prelude.{
  ℕ, zero, suc, ◌+◌, ◌-◌, ◌≤◌, ◌<◌, ◌≡◌, ◌↔◌, ◌⊎◌, ◌%◌, refl, arith, List, [], ◌∷◌, ◌++◌, Option,
  none, some,
}
use vecdb.Prelude.{
  Bool, Bool-cases, true, false, ◌||◌, not, if◌then◌else◌, ◌==◌, leb, ltb, inl, inr, length, take,
  drop, length-take, length-append,
}
use vecdb.Prelude.Bytes.{u64_mod}
use vecdb.Server.Reply.{send_error, invalid_parameter, internal_error}
use vecdb.Prelude.{sym, subst, le-or-lt, ltb→lt, lt→ltb}
use vecdb.Server.Text.{codes, text_of, strstr}
use vecdb.Server.Connection.{
  Phase, reading_headers, reading_body, finished, Conn, ℤ, pos, negsuc, Recv, bytes, end_of_stream,
  would_block, recv_fails,
}
use vecdb.Server.Connection.{
  Round, again, rearmed, closes, complete, undefined, with_body, start_body, content_length_of,
  receive_headers, receive_into, receive,
}
use vecdb.Server.Connection.{read_request, max_content_length, is_idle}

-- Less of the body is there than its length says, and outside of a body there is nothing.
unfoldable pub InPhase : Phase → Conn → Type 0
InPhase reading_headers c = (c.http_body ≡ []) × (c.content_length ≡ 0)
InPhase reading_body c =
    (length c.http_body < c.content_length) × (c.content_length ≤ max_content_length)
InPhase finished c = ⊥

-- A connection between two events: the headers leave room for their NUL.
unfoldable pub IsConn : Conn → Type 0
IsConn c = (length c.header_buffer ≤ 4095) × InPhase c.phase c

-- A request as it is handed to the routes: the whole body and no more.
unfoldable pub IsComplete : Conn → Type 0
IsComplete c =
    (length c.header_buffer ≤ 4095)
    × (length c.http_body ≡ c.content_length)
    × (0 < c.content_length)
    × (c.content_length ≤ max_content_length)

-- What a round leaves; where it is undefined, `U` holds.
unfoldable pub Framed : Type 0 → Round → Type 0
Framed U (again c) = IsConn c
Framed U (rearmed c) = IsConn c
Framed U (closes reply) = Unit
Framed U (complete c) = IsComplete c
Framed U undefined = U

-- A length that the body's buffer is not made for: one that no `int` holds, or -1, for which a block of
-- no bytes is asked.
abbrev pub IsUnsafe : Option ℤ → Type 0
IsUnsafe length_read = (length_read ≡ none) ⊎ (length_read ≡ some (negsuc 0))

-- Among the calls there is one that brings, while the headers are read, a length that is unsafe.
pub data Overruns (granted : Bool) : Conn → List Recv → Type 0 where
  here :
      {c : Conn} {more : List Recv} (received : List ℕ)
      → c.phase ≡ reading_headers
      → IsUnsafe (
          content_length_of
            (text_of (c.header_buffer ++ take (4095 - length c.header_buffer) received)))
      → Overruns granted c (bytes received ∷ more)
  later :
      {c c' : Conn} {r : Recv} {more : List Recv}
      → receive granted c r ≡ again c'
      → Overruns granted c' more
      → Overruns granted c (r ∷ more)

module _ (U : Type 0) where
  Framed-if :
      (b : Bool) (p q : Round)
      → (b ≡ true → Framed U p)
      → (b ≡ false → Framed U q)
      → Framed U (if b then p else q)
  Framed-if true p q h k = h refl
  Framed-if false p q h k = k refl

  with_body-Framed :
      (c : Conn) (content_length : ℕ) (http_body : List ℕ)
      → length c.header_buffer ≤ 4095
      → length http_body ≤ content_length
      → 0 < content_length
      → content_length ≤ max_content_length
      → Framed U (with_body c content_length http_body)
  unfolding with_body Framed IsConn IsComplete InPhase
  with_body-Framed c content_length http_body h fits some_body small =
      elim (Bool-cases (leb content_length (length http_body))) [
        | inl k ↦ rw k (h, ground arith, some_body, small)
        | inr k ↦ rw k (h, (ground arith, small))
      ]

  start_body-Framed :
      (granted : Bool) (c : Conn) (o : Option ℤ) (headers_size : ℕ)
      → length c.header_buffer ≤ 4095
      → (IsUnsafe o → U)
      → Framed U (start_body granted c o headers_size)
  unfolding start_body Framed
  start_body-Framed granted c none headers_size h unsafe = unsafe (inl refl)
  start_body-Framed granted c (some (negsuc zero)) headers_size h unsafe = unsafe (inr refl)
  start_body-Framed granted c (some (negsuc (suc n))) headers_size h unsafe =
      Framed-if (suc n == 0) undefined
        (closes (send_error internal_error "Out of memory allocating request body."))
        (λ e. absurd (ground (arith, e))) (λ e. tt)
  start_body-Framed granted c (some (pos n)) headers_size h unsafe =
      Framed-if (n == 0 || ltb max_content_length n)
        (closes (send_error invalid_parameter "Missing or excessive Content-Length header.")) _
        (λ e. tt)
        (λ e.
          Framed-if (not granted)
            (closes (send_error internal_error "Out of memory allocating request body.")) _
            (λ e'. tt)
            (λ e'.
              with_body-Framed c n (take n (drop headers_size c.header_buffer)) h
                (omega (arith, length-take n (drop headers_size c.header_buffer))) (ground arith)
                (ground arith)))

  receive_headers-Framed :
      (granted : Bool) (c : Conn) (received : List ℕ)
      → c.phase ≡ reading_headers
      → (c.http_body ≡ []) × (c.content_length ≡ 0)
      → length c.header_buffer + length received ≤ 4095
      → (IsUnsafe (content_length_of (text_of (c.header_buffer ++ received))) → U)
      → Framed U (receive_headers granted c received)
  unfolding receive_headers Framed IsConn InPhase
  receive_headers-Framed granted c received phase empty fits unsafe =
      by_end (strstr (text_of (c.header_buffer ++ received)) (codes "\r\n\r\n"))
    where
      c' : Conn
      c' = record c { header_buffer = c.header_buffer ++ received }

      short : length (c.header_buffer ++ received) ≤ 4095
      short = omega (arith, fits, length-append c.header_buffer received)

      waiting : IsConn c'
      waiting = (short, subst (λ ph. InPhase ph c') (sym phase) empty)

      by_end :
          (o : Option (List ℕ))
          → Framed U (elim o as (λ x. Round) [
            | none ↦ again c'
            | some body_start ↦
                start_body granted c'
                  (content_length_of (text_of (c.header_buffer ++ received)))
                  (length (text_of (c.header_buffer ++ received)) - length body_start + 4)
          ])
      by_end none = waiting
      by_end (some body_start) =
          start_body-Framed granted c' (content_length_of (text_of (c.header_buffer ++ received)))
            (length (text_of (c.header_buffer ++ received)) - length body_start + 4) short unsafe

  receive_into-Framed :
      (dest_cap : ℕ) (c : Conn) (took : List ℕ → Round) (r : Recv)
      → IsConn c
      → ((received : List ℕ) → r ≡ bytes received → Framed U (took (take dest_cap received)))
      → Framed U (receive_into dest_cap c took r)
  unfolding receive_into Framed
  receive_into-Framed dest_cap c took end_of_stream ok h = tt
  receive_into-Framed dest_cap c took would_block ok h = ok
  receive_into-Framed dest_cap c took recv_fails ok h = tt
  receive_into-Framed dest_cap c took (bytes received) ok h =
      Framed-if (length received == 0 || dest_cap == 0) (closes []) (took (take dest_cap received))
        (λ e. tt) (λ e. h received refl)

  receive-Framed :
      (granted : Bool) (c : Conn) (r : Recv)
      → IsConn c
      → ((received : List ℕ)
          → r ≡ bytes received
          → c.phase ≡ reading_headers
          → IsUnsafe (
              content_length_of
                (text_of (c.header_buffer ++ take (4095 - length c.header_buffer) received)))
          → U)
      → Framed U (receive granted c r)
  unfolding receive IsConn InPhase
  receive-Framed granted c r ok unsafe = by_phase c.phase refl ok.1
    where
      by_phase :
          (ph : Phase)
          → c.phase ≡ ph
          → InPhase ph c
          → Framed U (elim ph as (λ x. Round) [
            | reading_headers ↦
                if leb 4095 (length c.header_buffer)
                then closes []
                else receive_into (4095 - length c.header_buffer) c (receive_headers granted c) r
            | reading_body ↦
                receive_into
                  (c.content_length - length c.http_body)
                  c
                  (λ received. with_body c c.content_length (c.http_body ++ received))
                  r
            | finished ↦
                receive_into
                  (c.content_length - length c.http_body)
                  c
                  (λ received. with_body c c.content_length (c.http_body ++ received))
                  r
          ])
      by_phase reading_headers e h =
          Framed-if (leb 4095 (length c.header_buffer)) (closes []) _ (λ full. unfold Framed in tt)
            (λ free.
              receive_into-Framed (4095 - length c.header_buffer) c (receive_headers granted c) r ok
                (λ received k.
                  receive_headers-Framed granted c (take (4095 - length c.header_buffer) received) e
                    h (omega (arith, ok.0, length-take (4095 - length c.header_buffer) received))
                    (unsafe received k e)))
      by_phase reading_body e h =
          receive_into-Framed (c.content_length - length c.http_body) c
            (λ received. with_body c c.content_length (c.http_body ++ received)) r ok
            (λ received k.
              with_body-Framed c c.content_length
                (c.http_body ++ take (c.content_length - length c.http_body) received) ok.0
                (omega (
                  arith,
                  length-append c.http_body (take (c.content_length - length c.http_body) received),
                  length-take (c.content_length - length c.http_body) received,
                  h.0,
                ))
                (omega (arith, h.0)) h.1)
      by_phase finished e h = absurd h

-- Whatever the calls of `recv` have, a connection that is between two events stays within its buffers:
-- at most 4095 bytes of headers, and less of the body than its length, which is at most 10485760; a
-- request that is handed on has exactly the body that its length says, a length of at least 1. The
-- reading is undefined only where the headers bring a Content-Length of -1 or one that no `int` holds.
pub read_request-Framed :
    (granted : Bool) (c : Conn) (calls : List Recv)
    → IsConn c
    → Framed (Overruns granted c calls) (read_request granted c calls)
unfolding read_request Framed
read_request-Framed granted c [] ok = ok
read_request-Framed granted c (r ∷ more) ok =
    by_round (receive granted c r) refl
      (receive-Framed (Overruns granted c (r ∷ more)) granted c r ok (λ received e phase unsafe.
        subst (λ x. Overruns granted c (x ∷ more)) (sym e) (here received phase unsafe)))
      (λ c' ok'. read_request-Framed granted c' more ok')
  where
    passed :
        (c' : Conn)
        → receive granted c r ≡ again c'
        → (round : Round) → Framed (Overruns granted c' more) round
        → Framed (Overruns granted c (r ∷ more)) round
    passed c' e (again c'') h = h
    passed c' e (rearmed c'') h = h
    passed c' e (closes reply) h = tt
    passed c' e (complete c'') h = h
    passed c' e undefined h = later e h

    by_round :
        (round : Round)
        → receive granted c r ≡ round
        → Framed (Overruns granted c (r ∷ more)) round
        → ((c' : Conn)
            → IsConn c'
            → Framed (Overruns granted c' more) (read_request granted c' more))
        → Framed (Overruns granted c (r ∷ more)) (elim round as (λ x. Round) [
          | again c' ↦ read_request granted c' more
          | rearmed c' ↦ rearmed c'
          | closes reply ↦ closes reply
          | complete c' ↦ complete c'
          | undefined ↦ undefined
        ])
    by_round (again c') e h tail = passed c' e (read_request granted c' more) (tail c' h)
    by_round (rearmed c') e h tail = h
    by_round (closes reply) e h tail = tt
    by_round (complete c') e h tail = h
    by_round undefined e h tail = h

-- A connection is taken for idle when more than 300 seconds have passed, and also when it was last
-- active after the time that the synchronisation read, unless that lies 2^64 - 300 seconds back.
pub is_idle_iff :
    (now last_active : ℕ)
    → now < u64_mod
    → last_active < u64_mod
    → (is_idle now last_active ≡ true)
      ↔ ((last_active + 300 < now) ⊎ ((now < last_active) × (last_active + 300 < now + u64_mod)))
unfolding is_idle
is_idle_iff now last_active h k = (
  λ e. by_order (ltb→lt 300 ((now + (u64_mod - last_active)) % u64_mod) e),
  λ e. lt→ltb 300 ((now + (u64_mod - last_active)) % u64_mod) (late e),
)
  where
    by_order :
        300 < (now + (u64_mod - last_active)) % u64_mod
        → (last_active + 300 < now) ⊎ ((now < last_active) × (last_active + 300 < now + u64_mod))
    by_order e = elim (le-or-lt last_active now) [
      | inl b ↦ inl (omega arith)
      | inr b ↦ inr (b, omega arith)
    ]

    late :
        (last_active + 300 < now) ⊎ ((now < last_active) × (last_active + 300 < now + u64_mod))
        → 300 < (now + (u64_mod - last_active)) % u64_mod
    late (inl b) = omega arith
    late (inr (b, c)) = omega arith
