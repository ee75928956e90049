-- ===== src/Server/Reply.antt =====
-- src/server.c: the answers, `send_error` and `send_all`.
use Prim.Native.String.{String}
use vecdb.Prelude.{
  ℕ, zero, suc, ◌+◌, ◌-◌, ◌/◌, ◌%◌, ◌≡◌, refl, ap, ◌∙◌, List, [], ◌∷◌, ◌++◌, Bool, true, false,
}
use vecdb.Prelude.{if◌then◌else◌, ltb, leb, length, take, drop, append_assoc, take-append-drop}
use vecdb.Storage.Types.{Status, success, failure}
use vecdb.Server.Text.{codes}

-- `Client_error`.
pub data ClientError : Type 0 where
  invalid_parameter unauthorized_access wrong_request internal_error : ClientError

unfoldable pub status_str : ClientError → List ℕ
status_str invalid_parameter = codes "400 Bad Request"
status_str unauthorized_access = codes "401 Unauthorized"
status_str wrong_request = codes "404 Not Found"
status_str internal_error = codes "500 Internal Server Error"

-- `%zu`: the digits of a number below 10^20, the last one first to be found.
unfoldable pub digits : ℕ → ℕ → List ℕ → List ℕ
digits zero n shown = shown
digits (suc more) n shown =
    let rest = digits more (n / 10) ((b'0' + n % 10) ∷ shown) in
    if ltb n 10 then (b'0' + n % 10) ∷ shown else rest

abbrev pub decimal : ℕ → List ℕ
decimal n = digits 20 n []

-- A response with its headers, cut to the `size - 1` bytes that `snprintf` leaves of it.
unfoldable pub response : ℕ → List ℕ → List ℕ → List ℕ → List ℕ
unfolding digits
response size status connection json_body = take (size - 1) (
    codes "HTTP/1.1 "
    ++ status
    ++ codes "\r\nContent-Type: application/json\r\nContent-Length: "
    ++ decimal (length json_body)
    ++ codes "\r\nConnection: "
    ++ connection
    ++ codes "\r\n\r\n"
    ++ json_body)

-- What `send_error` sends.
unfoldable pub send_error : ClientError → String → List ℕ
unfolding response status_str
send_error err_code details =
    response 1024 (status_str err_code) (codes "close")
      (take 255 (codes "{\"error\": \"" ++ codes details ++ codes "\"}"))

-- The answer to a request that has succeeded, with the size of the buffer it is printed to.
unfoldable pub ok_response : ℕ → List ℕ → List ℕ
unfolding response
ok_response size json_body = response size (codes "200 OK") (codes "keep-alive") json_body

-- What a `send` does: it takes so many bytes, it would block, the time then being so late, or it fails.
pub data Send : Type 0 where
  sent : ℕ → Send
  would_block : ℕ → Send
  send_fails : Send

-- The end of `send_all`, or where it is while it waits for another `send`.
pub data Sending : Type 0 where
  ended : Status → Sending
  waiting : List ℕ → Sending

abbrev and_sent : List ℕ → List ℕ × Sending → List ℕ × Sending
and_sent bytes r = (bytes ++ r.0, r.1)

-- `send_all` of the bytes that are left, with what its calls of `send` do: the bytes that are sent,
-- and how it ends.
unfoldable pub send_all : ℕ → List Send → List ℕ → List ℕ × Sending
send_all deadline calls [] = ([], ended success)
send_all deadline [] (c ∷ left) = ([], waiting (c ∷ left))
send_all deadline (sent n ∷ calls) (c ∷ left) =
    let more = send_all deadline calls (drop n (c ∷ left)) in
    if ltb 0 n then and_sent (take n (c ∷ left)) more else ([], ended failure)
send_all deadline (would_block now ∷ calls) (c ∷ left) =
    let more = send_all deadline calls (c ∷ left) in
    if leb deadline now then ([], ended failure) else more
send_all deadline (send_fails ∷ calls) (c ∷ left) = ([], ended failure)

-- What has been sent, and what is left, are the bytes to send, in this order.
unfoldable pub IsSent : List ℕ → List ℕ × Sending → Type 0
IsSent buf (bytes, ended success) = bytes ≡ buf
IsSent buf (bytes, ended failure) = (left : List ℕ) × (bytes ++ left ≡ buf)
IsSent buf (bytes, waiting left) = bytes ++ left ≡ buf

and_sent-IsSent :
    (n : ℕ) (buf : List ℕ) (r : List ℕ × Sending)
    → IsSent (drop n buf) r
    → IsSent buf (and_sent (take n buf) r)
unfolding IsSent
and_sent-IsSent n buf (bytes, ended success) h =
    ap (λ l. take n buf ++ l) h ∙ take-append-drop n buf
and_sent-IsSent n buf (bytes, ended failure) h = (
  h.0,
  append_assoc (take n buf) bytes h.0 ∙ ap (λ l. take n buf ++ l) h.1 ∙ take-append-drop n buf,
)
and_sent-IsSent n buf (bytes, waiting left) h =
    append_assoc (take n buf) bytes left ∙ ap (λ l. take n buf ++ l) h ∙ take-append-drop n buf

-- Whatever the calls of `send` do, the bytes that leave are the first of the response, each once and
-- in order: all of them where the result is a success; where it waits, the rest is still to be sent.
pub send_all-IsSent :
    (deadline : ℕ) (calls : List Send) (buf : List ℕ) → IsSent buf (send_all deadline calls buf)
unfolding send_all IsSent
send_all-IsSent deadline calls [] = refl
send_all-IsSent deadline [] (c ∷ left) = refl
send_all-IsSent deadline (sent n ∷ calls) (c ∷ left) =
    by_test (ltb 0 n)
      (and_sent-IsSent n (c ∷ left) _ (send_all-IsSent deadline calls (drop n (c ∷ left))))
  where
    by_test :
        (b : Bool)
        → IsSent
            (c ∷ left)
            (and_sent (take n (c ∷ left)) (send_all deadline calls (drop n (c ∷ left))))
        → IsSent (c ∷ left) (
            if b
            then and_sent (take n (c ∷ left)) (send_all deadline calls (drop n (c ∷ left)))
            else ([], ended failure))
    by_test true h = h
    by_test false h = (c ∷ left, refl)
send_all-IsSent deadline (would_block now ∷ calls) (c ∷ left) =
    by_test (leb deadline now) (send_all-IsSent deadline calls (c ∷ left))
  where
    by_test :
        (b : Bool)
        → IsSent (c ∷ left) (send_all deadline calls (c ∷ left))
        → IsSent (c ∷ left) (if b then ([], ended failure) else send_all deadline calls (c ∷ left))
    by_test true h = (c ∷ left, refl)
    by_test false h = h
send_all-IsSent deadline (send_fails ∷ calls) (c ∷ left) = (c ∷ left, refl)
