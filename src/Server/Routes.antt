-- ===== src/Server/Routes.antt =====
-- src/server.c: `handel_client`, the routes.
pub mod Guard
pub mod Names
use vecdb.Prelude.{
  ℕ, ◌+◌, ◌*◌, ◌%◌, List, [], ◌∷◌, ◌++◌, Option, none, some, Bool, true, false, ◌&&◌, ◌||◌, not,
}
use vecdb.Prelude.{if◌then◌else◌, ◌==◌, ltb, leb, length, take}
use vecdb.Prelude.Bytes.{u64_mod}
use vecdb.Floats.{Floats}
use vecdb.Pending.{Sorting, PendingFile, returned, blocked, append_pending_delete}
use vecdb.Pending
use vecdb.Storage.Types.{Storage, Record, heap, Status, success, failure}
use vecdb.Storage.Write.{storage_current_offset, storage_write_record}
use vecdb.Storage.Index.{index, no_index, load_ivf_index, save_ivf_index}
use vecdb.Storage.Index
use vecdb.Db.Types.{FlatDb}
use vecdb.Db.Init.{Host}
use vecdb.Search.TopK.{TopK}
use vecdb.Search.Flat.{flat_search}
use vecdb.Search.Ivf.{Cluster}
use vecdb.Search.Ann.{db_ann_search}
use vecdb.Search.Kmeans.{MeanFloats, trained, kmeans_build}
use vecdb.Search.Kmeans
use vecdb.Server.Text.{codes, strstr}
use vecdb.Server.Auth.{authenticate_request}
use vecdb.Server.Request.{
  Json, request, SearchReq, InsertReq, TrainReq, DeleteReq, serialize_search_results,
}
use vecdb.Server.Request.{
  parse_search_request, parse_insert_request, parse_train_request, parse_delete_request,
}
use vecdb.Server.Request
use vecdb.Server.Tables.{
  PendingInsert, pending_insert_size, OpenTable, Folder, State, put_folder, put_table, table,
  no_table,
}
use vecdb.Server.Tables.{get_or_open_table, mark_table_pending_dirty, clear_cached_index}
use vecdb.Server.Tables
use Prim.Native.String.{String}
use vecdb.Pending.{Appended}
use vecdb.Storage.Index.{LoadedIndex}
use vecdb.Search.Kmeans.{Trained}
use vecdb.Server.Tables.{Got}
use vecdb.Server.Request.{Parsed}
use vecdb.Server.Reply.{ClientError}
use vecdb.Server.Reply.{
  send_error, ok_response, invalid_parameter, unauthorized_access, wrong_request, internal_error,
}
use vecdb.Server.Actions.{
  Machine, Handled, max_top_k, given, fails, answer_search, used_index, cached_index, ann_route,
  flat_route, search_table, copied, push, temp_rec, entry_of, queue_written, queue_insert,
  answer_insert, insert_table, answer_delete, queue_delete, answer_train, save_trained, train_table,
  handled, undefined, hangs, running,
}

-- The two guards that every route begins with: the body is parsed, and the key is looked at.
abbrev pub guarded {ℓ} :
    {A : Type ℓ} → State → Parsed A → (A → Bool) → String → (A → Handled) → Handled
guarded st Request.undefined authentic details go = undefined
guarded st Request.refused authentic details go =
    fails st invalid_parameter "Malformed JSON payload."
guarded st (request req) authentic details go =
    if not (authentic req) then fails st unauthorized_access details else go req

-- What is done with a table that was asked for.
abbrev pub with_table : State → Got → String → (ℕ → OpenTable → State → Handled) → Handled
with_table st no_table details go = fails st wrong_request details
with_table st Tables.undefined details go = undefined
with_table st Tables.running details go = running
with_table st (table i t st') details go = go i t st'

module _ (M : Machine) where
  -- Every route looks for its table in the same way.
  abbrev pub got : State → List ℕ → Got
  got st db_name = get_or_open_table M.floats M.libc M.host M.fuel st db_name

  unfoldable pub search_route : State → List ℕ → List ℕ → Handled
  search_route st header_buffer http_body =
      guarded st (parse_search_request M.json M.host.env http_body)
        (λ req. authenticate_request st.auth_cache header_buffer req.db_name)
        "Invalid or missing API key for this table."
        (λ req.
          with_table st (got st req.db_name) "Database not found"
            (λ i t st'. search_table M i t st' req))

  unfoldable pub insert_route : State → List ℕ → List ℕ → Handled
  insert_route st header_buffer http_body =
      guarded st (parse_insert_request M.json M.host.env http_body)
        (λ req. authenticate_request st.auth_cache header_buffer req.db_name)
        "Invalid or missing API key for this table."
        (λ req.
          with_table st (got st req.db_name) "Database table not found."
            (λ i t st'. insert_table M i t st' req))

  unfoldable pub delete_route : State → List ℕ → List ℕ → Handled
  delete_route st header_buffer http_body =
      guarded st (parse_delete_request M.json M.host.env http_body)
        (λ req. authenticate_request st.auth_cache header_buffer req.db_name) "Invalid API key."
        (λ req. queue_delete M st req)

  unfoldable pub train_route : State → List ℕ → List ℕ → Handled
  train_route st header_buffer http_body =
      guarded st (parse_train_request M.json M.host.env http_body)
        (λ req. authenticate_request st.auth_cache header_buffer req.db_name)
        "Invalid or missing API key for this table."
        (λ req.
          with_table st (got st req.db_name) "Database table not found."
            (λ i t st'. train_table M i t st' req))

  abbrev pub is_found : List ℕ → List ℕ → Bool
  is_found text needle = elim (strstr text needle) [ none ↦ false | some rest ↦ true ]

  -- `handel_client`, which closes the descriptor where there is no such route.
  unfoldable pub handel_client : State → List ℕ → List ℕ → Handled
  handel_client st header_buffer http_body =
      if is_found header_buffer (codes "POST /search")
      then search_route st header_buffer http_body
      else if is_found header_buffer (codes "POST /insert")
      then insert_route st header_buffer http_body
      else if is_found header_buffer (codes "POST /delete-request")
      then delete_route st header_buffer http_body
      else if is_found header_buffer (codes "POST /train")
      then train_route st header_buffer http_body
      else handled st (send_error wrong_request "Invalid API route.") true
