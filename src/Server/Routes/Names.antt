-- ===== src/Server/Routes/Names.antt =====
-- src/server.c: a request keeps the names of the open tables, but for a new one.
use vecdb.Prelude.{ℕ, ◌≡◌, sym, subst, List, some}
use vecdb.Prelude.{Bool, not, get_elem?}
use vecdb.Server.Request.{Parsed, request, SearchReq, InsertReq, TrainReq, DeleteReq}
use vecdb.Server.Tables.{
  OpenTable, Folder, State, Got, put_folder, put_table, mark_table_pending_dirty,
  clear_cached_index, get_or_open_table,
}
use vecdb.Server.Tables.Invariant.{IsTables, IsNames, GivesTable, get_or_open_table-IsTables}
use vecdb.Server.Actions.{Machine, Handled, handled, undefined, hangs, running}
use vecdb.Server.Routes.{handel_client}
use vecdb.Server.Routes.{guarded, with_table}
use Prim.Native.String.{String}
use vecdb.Server.Tables.{PendingInsert}
use vecdb.Server.Request
use vecdb.Server.Tables.{table, no_table}
use vecdb.Server.Tables
use vecdb.Server.Text.{codes}
use vecdb.Server.Auth.{authenticate_request}
use vecdb.Server.Request.{
  parse_search_request, parse_insert_request, parse_train_request, parse_delete_request,
}
use vecdb.Server.Routes.{got, is_found}
use vecdb.Server.Request.{serialize_search_results}
use vecdb.Server.Tables.{pending_insert_size}
use vecdb.Server.Actions.{queue_delete}
use vecdb.Server.Routes.{search_route, insert_route, delete_route, train_route}
use vecdb.Server.Actions.Names.{
  Alike, OnHandled, OnHandled-if, search_table-OnHandled, insert_table-OnHandled,
  train_table-OnHandled, queue_delete-OnHandled,
}

OnHandled-guarded {ℓ} :
    {A : Type ℓ} (P : State → Type 0) (st : State) (p : Parsed A) (authentic : A → Bool)
    (details : String) (go : A → Handled)
    → P st
    → ((a : A) → OnHandled P (go a))
    → OnHandled P (guarded st p authentic details go)
OnHandled-guarded P st Request.undefined authentic details go h k = tt
OnHandled-guarded P st Request.refused authentic details go h k = h
OnHandled-guarded P st (request a) authentic details go h k =
    OnHandled-if P (not (authentic a)) _ _ h (k a)

module _ (M : Machine) where
  -- What keeps the names keeps what they are.
  Alike-IsTables :
      (st : State) (h : Handled)
      → IsTables st.open_tables
      → OnHandled (Alike st) h
      → OnHandled (λ st'. IsTables st'.open_tables) h
  unfolding IsTables
  Alike-IsTables st (handled st' reply closed) ok e = subst IsNames (sym e) ok
  Alike-IsTables st undefined ok e = tt
  Alike-IsTables st hangs ok e = tt
  Alike-IsTables st running ok e = tt

  with_table-OnHandled :
      (st : State) (db_name : List ℕ) (details : String) (go : ℕ → OpenTable → State → Handled)
      → IsTables st.open_tables
      → ((i : ℕ) (t : OpenTable) (st' : State)
          → get_elem? st'.open_tables i ≡ some t
          → OnHandled (Alike st') (go i t st'))
      → OnHandled (λ st'. IsTables st'.open_tables) (with_table st (got M st db_name) details go)
  with_table-OnHandled st db_name details go ok h =
      by_got (got M st db_name)
        (get_or_open_table-IsTables M.floats M.libc M.host M.fuel st db_name ok)
    where
      by_got :
          (g : Got)
          → GivesTable db_name g
          → OnHandled (λ st'. IsTables st'.open_tables) (with_table st g details go)
      by_got no_table k = ok
      by_got Tables.undefined k = tt
      by_got Tables.running k = tt
      by_got (table i t st') k =
          let given_table : IsTables st'.open_tables
              × (get_elem? st'.open_tables i ≡ some t)
              × (t.name ≡ db_name) =
            unfold GivesTable in k in
          Alike-IsTables st' (go i t st') given_table.0 (h i t st' given_table.1)

  -- Whatever the request, it leaves at most 32 open tables, with distinct, valid names, if it finds
  -- them so.
  pub handel_client-OnHandled :
      (st : State) (header_buffer http_body : List ℕ)
      → IsTables st.open_tables
      → OnHandled (λ st'. IsTables st'.open_tables) (handel_client M st header_buffer http_body)
  unfolding handel_client search_route insert_route delete_route train_route
  handel_client-OnHandled st header_buffer http_body ok =
      OnHandled-if P (is_found M header_buffer (codes "POST /search")) _ _
        (OnHandled-guarded P st (parse_search_request M.json M.host.env http_body)
          (λ req. authenticate_request st.auth_cache header_buffer req.db_name) _ _ ok
          (λ req.
            with_table-OnHandled st req.db_name "Database not found" _ ok
              (λ i t st' there. search_table-OnHandled M i t st' there req)))
        (OnHandled-if P (is_found M header_buffer (codes "POST /insert")) _ _
          (OnHandled-guarded P st (parse_insert_request M.json M.host.env http_body)
            (λ req. authenticate_request st.auth_cache header_buffer req.db_name) _ _ ok
            (λ req.
              with_table-OnHandled st req.db_name "Database table not found." _ ok
                (λ i t st' there. insert_table-OnHandled M i t st' there req)))
          (OnHandled-if P (is_found M header_buffer (codes "POST /delete-request")) _ _
            (OnHandled-guarded P st (parse_delete_request M.json M.host.env http_body)
              (λ req. authenticate_request st.auth_cache header_buffer req.db_name) _ _ ok
              (λ req.
                Alike-IsTables st (queue_delete M st req) ok (queue_delete-OnHandled M st req)))
            (OnHandled-if P (is_found M header_buffer (codes "POST /train")) _ _
              (OnHandled-guarded P st (parse_train_request M.json M.host.env http_body)
                (λ req. authenticate_request st.auth_cache header_buffer req.db_name) _ _ ok
                (λ req.
                  with_table-OnHandled st req.db_name "Database table not found." _ ok
                    (λ i t st' there. train_table-OnHandled M i t st' there req)))
              ok)))
    where
      P : State → Type 0
      P st' = IsTables st'.open_tables
