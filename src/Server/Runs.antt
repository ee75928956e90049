-- ===== src/Server/Runs.antt =====
-- src/server.c: requests, events and synchronisations in any order, and what holds of the tables throughout.
use vecdb.Prelude.{ℕ, ◌≡◌, Bool, List, [], Option, subst, sym}
use vecdb.Db.AutoDelete.{AutoHost}
use vecdb.Server.Auth.{load_auth_cache}
use vecdb.Server.Tables.{State}
use vecdb.Server.Tables.Invariant.{IsTables, IsNames, names_of}
use vecdb.Server.Sync.{synced, sync_round}
use vecdb.Server.Sync.Names.{OnSynced, sync_tables-OnSynced}
use vecdb.Server.Actions.{Machine, handled}
use vecdb.Server.Routes.{handel_client}
use vecdb.Server.Actions.Names.{OnHandled}
use vecdb.Server.Worker.{Event, worked, worker_round, OnWorked, worker_round-OnWorked}
use vecdb.Server.Routes.Names.{handel_client-OnHandled}

-- What the server does from one state to the next: a request that is answered, the events of a worker's
-- round, or a round of the synchronisation that ends.
pub data Step (M : Machine) (auto : AutoHost) : State → State → Type 0 where
  request :
      {st st' : State} (header_buffer http_body reply : List ℕ) (closed : Bool)
      → handel_client M st header_buffer http_body ≡ handled st' reply closed
      → Step M auto st st'
  events :
      {st st' : State} (ready : List Event)
      → worker_round M st ready ≡ worked st'
      → Step M auto st st'
  round :
      {st st' : State} (now : ℕ) (auth_keys : Option (List ℕ))
      → sync_round M.host.env M.libc auto now auth_keys st ≡ synced st'
      → Step M auto st st'

-- Any number of steps.
pub data Reaches (M : Machine) (auto : AutoHost) : State → State → Type 0 where
  here : {st : State} → Reaches M auto st st
  next :
      {st st' st'' : State} → Step M auto st st' → Reaches M auto st' st'' → Reaches M auto st st''

Step-IsTables :
    (M : Machine) (auto : AutoHost) {st st' : State}
    → Step M auto st st'
    → IsTables st.open_tables
    → IsTables st'.open_tables
unfolding IsTables sync_round
Step-IsTables M auto {st} (request header_buffer http_body reply closed e) ok =
    subst (OnHandled (λ st'. IsTables st'.open_tables)) e
      (handel_client-OnHandled M st header_buffer http_body ok)
Step-IsTables M auto {st} (events ready e) ok =
    subst (OnWorked (λ st'. IsTables st'.open_tables)) e (worker_round-OnWorked M st ready ok)
Step-IsTables M auto {st} (round now auth_keys e) ok =
    subst IsNames
      (sym (
        subst (OnSynced (λ st'. names_of st'.open_tables ≡ names_of st.open_tables)) e (
          sync_tables-OnSynced M.host.env M.libc auto now [] st.open_tables
            (record st { auth_cache = load_auth_cache auth_keys st.auth_cache }))))
      ok

-- Whatever requests are answered, whatever events a worker handles and whatever rounds of the
-- synchronisation end, in any order: from a
-- state with at most 32 open tables, whose names are distinct and valid, only such states are
-- reached.
pub Reaches-IsTables :
    (M : Machine) (auto : AutoHost) (st st' : State)
    → Reaches M auto st st'
    → IsTables st.open_tables
    → IsTables st'.open_tables
Reaches-IsTables M auto st st' here ok = ok
Reaches-IsTables M auto st st' (next {st' = between} s more) ok =
    Reaches-IsTables M auto between st' more (Step-IsTables M auto s ok)
