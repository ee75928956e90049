-- ===== src/Server/Connections.antt =====
-- src/server.c: the connections that the server keeps track of, from `acceptor_loop` to the sweep of
-- `sync_worker`, and the start of `server_init`.
pub mod Sweep
use vecdb.Prelude.{
  ℕ, zero, suc, ◌+◌, List, [], ◌∷◌, ◌++◌, map, Option, none, some, Bool, true, false,
}
use vecdb.Prelude.{◌&&◌, ◌%◌, ◌^◌, if◌then◌else◌, ltb, set, length}
use vecdb.Server.Auth.{AuthEntry, load_auth_cache}
use vecdb.Server.Connection.{Conn, new_conn, is_idle}

-- `conn_state_t` with its descriptor and time; `block` tells the blocks apart.
pub record Tracked : Type 0 where
  pub block : ℕ
  pub fd : ℕ
  pub last_active : ℕ
  pub conn : Conn

abbrev pub max_connections : ℕ
max_connections = 100000

-- `active_connections`, which has `max_connections` places, with the descriptors that have been closed
-- and the blocks that have been freed, in their order.
pub record Tracker : Type 0 where
  pub active_connections : List (Option Tracked)
  pub closed : List ℕ
  pub freed : List ℕ

-- A connection is closed and its block freed.
abbrev pub drop_conn : Tracked → Tracker → Tracker
drop_conn c t = record t { closed = t.closed ++ (c.fd ∷ []); freed = t.freed ++ (c.block ∷ []) }

-- The place of a descriptor, where it has one.
abbrev pub put_place : ℕ → Option Tracked → Tracker → Tracker
put_place fd place t =
    if ltb fd max_connections
    then record t { active_connections = set t.active_connections fd place }
    else t

-- `close_conn`.
unfoldable pub close_conn : Tracked → Tracker → Tracker
close_conn conn t = drop_conn conn (put_place conn.fd none t)

-- `rearm`; `armed` says whether `epoll_ctl` succeeds.
unfoldable pub rearm : Bool → Tracked → Tracker → Tracker
unfolding close_conn
rearm armed conn t = if armed then t else close_conn conn t

-- The connection that `acceptor_loop` makes of a new descriptor.
abbrev pub accepted : ℕ → ℕ → ℕ → Tracked
accepted block new_clientfd now = record {
  block = block;
  fd = new_clientfd;
  last_active = now;
  conn = new_conn;
}

-- A round of `acceptor_loop`, from the `accept` on: `accept_fd` is its descriptor, if it has one,
-- `allocated` the block that there is memory for, and `added` the result of `epoll_ctl`.
unfoldable pub accept_round : Option ℕ → Option ℕ → Bool → ℕ → Tracker → Tracker
unfolding close_conn
accept_round none allocated added now t = t
accept_round (some new_clientfd) none added now t = record t {
  closed = t.closed ++ (new_clientfd ∷ []);
}
accept_round (some new_clientfd) (some block) added now t =
    let conn = accepted block new_clientfd now in
    let t' = put_place new_clientfd (some conn) t in if added then t' else close_conn conn t'

-- The first line of `handle_conn_event`, for a connection that is tracked.
unfoldable pub touch : ℕ → Tracked → Tracked
touch now conn = record conn { last_active = now }

-- What the sweep leaves in a place.
unfoldable pub swept_place : ℕ → Option Tracked → Option Tracked
swept_place now none = none
swept_place now (some c) = if is_idle now c.last_active then none else some c

-- The sweep of `sync_worker`, place after place.
unfoldable pub sweep_places : ℕ → List (Option Tracked) → Tracker → Tracker
unfolding swept_place
sweep_places now [] t = t
sweep_places now (none ∷ more) t =
    sweep_places now more (record t { active_connections = t.active_connections ++ (none ∷ []) })
sweep_places now (some c ∷ more) t =
    let t' : Tracker = record t {
      active_connections = t.active_connections ++ (swept_place now (some c) ∷ []);
    } in
    let gone = sweep_places now more (drop_conn c t') in
    let kept = sweep_places now more t' in if is_idle now c.last_active then gone else kept

unfoldable pub sweep : ℕ → Tracker → Tracker
unfolding sweep_places
sweep now t = sweep_places now t.active_connections (record t { active_connections = [] })

-- `compute_epoll_thread_count`, of the number of processors.
unfoldable pub compute_epoll_thread_count : ℕ → ℕ
compute_epoll_thread_count n = if ltb n 4 then 4 else if ltb 32 n then 32 else n

-- `raise_fd_limit` on `rlim_cur` and `rlim_max`; `gets` and `takes` say whether the calls succeed.
unfoldable pub raise_fd_limit : Bool → Bool → ℕ × ℕ → ℕ × ℕ
raise_fd_limit gets takes (rlim_cur, rlim_max) =
    if gets && takes then (rlim_max, rlim_max) else (rlim_cur, rlim_max)

-- What `server_init` meets: whether there is a socket, whether it is bound and listens, whether there is
-- an `epoll`, the limits of the process and the number of processors.
pub record ServerHost : Type 0 where
  pub socket : Bool
  pub binds : Bool
  pub listens : Bool
  pub has_epoll : Bool
  pub gets_limit : Bool
  pub takes_limit : Bool
  pub limits : ℕ × ℕ
  pub processors : ℕ

-- What a server that has started has: its port, the keys, its limits and the number of its workers.
pub record Server : Type 0 where
  pub port : ℕ
  pub auth_cache : List AuthEntry
  pub limits : ℕ × ℕ
  pub epoll_thread_count : ℕ

-- How `server_init` goes on: the program exits, or it waits for ever behind its threads.
pub data Started : Type 0 where
  exits : Started
  pauses : Server → Started

-- `server_init`, without the threads themselves. `htons` takes the port modulo 2^16.
unfoldable pub server_init : ServerHost → Option (List ℕ) → ℕ → Started
unfolding compute_epoll_thread_count raise_fd_limit
server_init host auth_keys port =
    if host.socket && host.binds && host.listens && host.has_epoll
    then pauses (record {
      port = port % 2 ^ 16;
      auth_cache = load_auth_cache auth_keys [];
      limits = raise_fd_limit host.gets_limit host.takes_limit host.limits;
      epoll_thread_count = compute_epoll_thread_count host.processors;
    })
    else exits
