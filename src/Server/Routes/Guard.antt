-- ===== src/Server/Routes/Guard.antt =====
-- src/server.c: no route does anything for a request without a key.
use Prim.Native.String.{String}
use vecdb.Prelude.{ℕ, ◌≡◌, refl, List, Bool, true, false, not, if◌then◌else◌}
use vecdb.Server.Text.{codes}
use vecdb.Server.Auth.{authenticate_request}
use vecdb.Server.Tables.{State}
use vecdb.Server.Request.{Parsed, request, SearchReq, InsertReq, TrainReq, DeleteReq}
use vecdb.Server.Request.{
  parse_search_request, parse_insert_request, parse_train_request, parse_delete_request,
}
use vecdb.Server.Request
use vecdb.Server.Reply.{
  ClientError, send_error, invalid_parameter, unauthorized_access, wrong_request,
}
use vecdb.Server.Actions.{Machine, Handled, handled, undefined, hangs, running}
use vecdb.Server.Routes.{guarded, handel_client, is_found}
use vecdb.Server.Routes.{search_route, insert_route, delete_route, train_route}

-- The request is refused with an error and the state is as before.
unfoldable pub Refused : State → Handled → Type 0
Refused st (handled st' reply closed) =
    (st' ≡ st)
    × ((err_code : ClientError) × (details : String) × (reply ≡ send_error err_code details))
Refused st undefined = ⊥
Refused st hangs = ⊥
Refused st running = ⊥

-- The body can be read, and if it is a request then it is not authentic.
unfoldable pub IsKeyless {ℓ} : {A : Type ℓ} → Parsed A → (A → Bool) → Type 0
IsKeyless Request.undefined authentic = ⊥
IsKeyless Request.refused authentic = Unit
IsKeyless (request a) authentic = authentic a ≡ false

guarded-Refused {ℓ} :
    {A : Type ℓ} (st : State) (p : Parsed A) (authentic : A → Bool) (details : String)
    (go : A → Handled)
    → IsKeyless p authentic
    → Refused st (guarded st p authentic details go)
unfolding Refused IsKeyless
guarded-Refused st Request.undefined authentic details go keyless = absurd keyless
guarded-Refused st Request.refused authentic details go keyless =
    (refl, (invalid_parameter, _, refl))
guarded-Refused st (request a) authentic details go keyless = by_test (authentic a) keyless
  where
    by_test :
        (b : Bool)
        → b ≡ false
        → Refused st
            (if not b then handled st (send_error unauthorized_access details) false else go a)
    by_test true e = absurd cc
    by_test false e = (refl, (unauthorized_access, details, refl))

-- A request whose key does not open the table that its own body names changes nothing on the server,
-- whatever its route: it is answered with an error, no table is opened for it, no lock is waited for and
-- no loop is run. Its body is one that the route's parser reads without undefined behaviour.
pub handel_client-Refused :
    (M : Machine) (st : State) (header_buffer http_body : List ℕ)
    → (is_found M header_buffer (codes "POST /search") ≡ true
        → IsKeyless
            (parse_search_request M.json M.host.env http_body)
            (λ req. authenticate_request st.auth_cache header_buffer req.db_name))
    → (is_found M header_buffer (codes "POST /search") ≡ false
        → is_found M header_buffer (codes "POST /insert") ≡ true
        → IsKeyless
            (parse_insert_request M.json M.host.env http_body)
            (λ req. authenticate_request st.auth_cache header_buffer req.db_name))
    → (is_found M header_buffer (codes "POST /search") ≡ false
        → is_found M header_buffer (codes "POST /insert") ≡ false
        → is_found M header_buffer (codes "POST /delete-request") ≡ true
        → IsKeyless
            (parse_delete_request M.json M.host.env http_body)
            (λ req. authenticate_request st.auth_cache header_buffer req.db_name))
    → (is_found M header_buffer (codes "POST /search") ≡ false
        → is_found M header_buffer (codes "POST /insert") ≡ false
        → is_found M header_buffer (codes "POST /delete-request") ≡ false
        → is_found M header_buffer (codes "POST /train") ≡ true
        → IsKeyless
            (parse_train_request M.json M.host.env http_body)
            (λ req. authenticate_request st.auth_cache header_buffer req.db_name))
    → Refused st (handel_client M st header_buffer http_body)
unfolding handel_client search_route insert_route delete_route train_route
handel_client-Refused M st header_buffer http_body on_search on_insert on_delete on_train =
    by_route (is_found M header_buffer (codes "POST /search"))
      (is_found M header_buffer (codes "POST /insert"))
      (is_found M header_buffer (codes "POST /delete-request"))
      (is_found M header_buffer (codes "POST /train")) on_search on_insert on_delete on_train
  where
    OnSearch : Type 0
    OnSearch =
        IsKeyless (parse_search_request M.json M.host.env http_body)
          (λ req. authenticate_request st.auth_cache header_buffer req.db_name)

    OnInsert : Type 0
    OnInsert =
        IsKeyless (parse_insert_request M.json M.host.env http_body)
          (λ req. authenticate_request st.auth_cache header_buffer req.db_name)

    OnDelete : Type 0
    OnDelete =
        IsKeyless (parse_delete_request M.json M.host.env http_body)
          (λ req. authenticate_request st.auth_cache header_buffer req.db_name)

    OnTrain : Type 0
    OnTrain =
        IsKeyless (parse_train_request M.json M.host.env http_body)
          (λ req. authenticate_request st.auth_cache header_buffer req.db_name)

    by_route :
        (search insert delete train : Bool)
        → (search ≡ true → OnSearch)
        → (search ≡ false → insert ≡ true → OnInsert)
        → (search ≡ false → insert ≡ false → delete ≡ true → OnDelete)
        → (search ≡ false → insert ≡ false → delete ≡ false → train ≡ true → OnTrain)
        → Refused st (
            if search
            then search_route M st header_buffer http_body
            else if insert
            then insert_route M st header_buffer http_body
            else if delete
            then delete_route M st header_buffer http_body
            else if train
            then train_route M st header_buffer http_body
            else handled st (send_error wrong_request "Invalid API route.") true)
    by_route true insert delete train s i d t =
        guarded-Refused st (parse_search_request M.json M.host.env http_body)
          (λ req. authenticate_request st.auth_cache header_buffer req.db_name) _ _ (s refl)
    by_route false true delete train s i d t =
        guarded-Refused st (parse_insert_request M.json M.host.env http_body)
          (λ req. authenticate_request st.auth_cache header_buffer req.db_name) _ _ (i refl refl)
    by_route false false true train s i d t =
        guarded-Refused st (parse_delete_request M.json M.host.env http_body)
          (λ req. authenticate_request st.auth_cache header_buffer req.db_name) _ _
          (d refl refl refl)
    by_route false false false true s i d t =
        guarded-Refused st (parse_train_request M.json M.host.env http_body)
          (λ req. authenticate_request st.auth_cache header_buffer req.db_name) _ _
          (t refl refl refl refl)
    by_route false false false false s i d t = unfold Refused in (refl, (wrong_request, _, refl))
