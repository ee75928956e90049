-- ===== src/Server/Actions.antt =====
-- src/server.c: what the routes of `handel_client` do for a request.
pub mod Delete
pub mod Insert
pub mod Names
use vecdb.Prelude.{
  ℕ, ◌+◌, ◌*◌, ◌%◌, List, [], ◌∷◌, ◌++◌, Option, none, some, Bool, true, false, ◌&&◌, ◌||◌, not,
}
use vecdb.Prelude.{if◌then◌else◌, ◌==◌, ltb, leb, length, take}
use vecdb.Prelude.Bytes.{u64_mod}
use vecdb.Floats.{Floats}
use vecdb.Pending.{Sorting, PendingFile, returned, blocked, append_pending_delete}
use vecdb.Pending
use vecdb.Storage.Types.{Storage, Record, heap, Status, success, failure}
use vecdb.Storage.Write.{storage_current_offset, storage_write_record}
use vecdb.Storage.Index.{index, no_index, load_ivf_index, save_ivf_index}
use vecdb.Storage.Index
use vecdb.Db.Types.{FlatDb}
use vecdb.Db.Init.{Host}
use vecdb.Search.TopK.{TopK}
use vecdb.Search.Flat.{flat_search}
use vecdb.Search.Ivf.{Cluster}
use vecdb.Search.Ann.{db_ann_search}
use vecdb.Search.Kmeans.{MeanFloats, trained, kmeans_build}
use vecdb.Search.Kmeans
use vecdb.Server.Text.{codes, strstr}
use vecdb.Server.Auth.{authenticate_request}
use vecdb.Server.Request.{
  Json, request, SearchReq, InsertReq, TrainReq, DeleteReq, serialize_search_results,
}
use vecdb.Server.Request.{
  parse_search_request, parse_insert_request, parse_train_request, parse_delete_request,
}
use vecdb.Server.Request
use vecdb.Server.Tables.{
  PendingInsert, pending_insert_size, OpenTable, Folder, State, put_folder, put_table, table,
  no_table,
}
use vecdb.Server.Tables.{get_or_open_table, mark_table_pending_dirty, clear_cached_index}
use vecdb.Server.Tables
use Prim.Native.String.{String}
use vecdb.Pending.{Appended}
use vecdb.Storage.Index.{LoadedIndex}
use vecdb.Search.Kmeans.{Trained}
use vecdb.Server.Tables.{Got}
use vecdb.Server.Request.{Parsed}
use vecdb.Server.Reply.{ClientError}
use vecdb.Server.Reply.{
  send_error, ok_response, invalid_parameter, unauthorized_access, wrong_request, internal_error,
}

-- What the routes stand on. `fuel` is for the load loop of a table, `rounds` for the training; `rand`
-- gives the numbers of a training, `appends` says whether the queue's file opens and `saves` whether
-- the index file does.
pub record Machine : Type 1 where
  pub floats : Floats
  pub means : MeanFloats
  pub libc : Sorting
  pub json : Json
  pub host : Host
  pub fuel : ℕ
  pub rounds : ℕ
  pub rand : ℕ → ℕ
  pub allocates : Bool
  pub appends : Bool
  pub saves : Bool

-- How a request ends: with the state and the bytes to send, `closed` saying that the route has closed
-- the connection's descriptor; in undefined behaviour; waiting for a lock for ever; or with the rounds
-- used up that one of its loops is given.
pub data Handled : Type 0 where
  handled : State → List ℕ → Bool → Handled
  undefined : Handled
  hangs : Handled
  running : Handled

abbrev pub max_top_k : ℕ
max_top_k = 10000

-- A call that may give nothing, and what is done with what it gives.
abbrev pub given {ℓ} : {A : Type ℓ} → Option A → Handled → (A → Handled) → Handled
given none otherwise go = otherwise
given (some a) otherwise go = go a

-- An answer that reports an error.
abbrev pub fails : State → ClientError → String → Handled
fails st err_code details = handled st (send_error err_code details) false

module _ (M : Machine) where
  -- The end of a search: the results as JSON in a buffer of 4096 bytes.
  unfoldable pub answer_search : State → TopK → Handled
  unfolding serialize_search_results ok_response
  answer_search st t =
      given (serialize_search_results M.json t.out_results)
        (fails st internal_error "Failed to serialize search results.")
        (λ json_payload. handled st (ok_response 4096 json_payload) false)

  -- What a table makes of the index in its file: one of another dimension is dropped. `none` is
  -- undefined behaviour.
  unfoldable pub used_index : OpenTable → LoadedIndex → Option OpenTable
  unfolding clear_cached_index
  used_index t Index.undefined = none
  used_index t no_index = some (record t { ivf_index = none; index_loaded = true })
  used_index t (index clusters ivf_dimension) =
      if not (ivf_dimension == t.db.dimension)
      then some (record (clear_cached_index t) { index_loaded = true })
      else some (record t { ivf_index = some clusters; index_loaded = true })

  -- The index of a table as it is used: it is read from its file the first time.
  unfoldable pub cached_index : Option (List ℕ) → OpenTable → Option OpenTable
  unfolding used_index
  cached_index ivf_index_bin t =
      if t.index_loaded then some t else used_index t (load_ivf_index M.host.env ivf_index_bin)

  -- The search in a table that has its index at hand, if it wants one.
  unfoldable pub ann_route : State → OpenTable → SearchReq → Handled
  ann_route st t req =
      given t.ivf_index (fails st invalid_parameter "Index not trained. Call /train or use ENN.")
        (λ clusters.
          given
            (db_ann_search M.floats M.libc M.host.env t.db req.query_vector req.top_k req.nprobe
              clusters)
            undefined (λ found. answer_search st found.1))

  unfoldable pub flat_route : State → OpenTable → SearchReq → Handled
  flat_route st t req =
      given
        (flat_search M.floats M.libc t.db.storage req.dimension req.query_vector req.top_k
          t.db.calculate_distance t.db.pending_deletes t.db.records)
        undefined (λ found. answer_search st found.1)

  -- A search in the table number `i`, from the comparison of the dimensions on.
  unfoldable pub search_table : ℕ → OpenTable → State → SearchReq → Handled
  search_table i t st req =
      if not (t.db.dimension == req.dimension)
      then fails st invalid_parameter "Vector dimension does not match table configuration."
      else if req.top_k == 0 || ltb max_top_k req.top_k
      then fails st invalid_parameter "top_k must be between 1 and 10000."
      else if req.use_ann && (req.nprobe == 0 || ltb max_top_k req.nprobe)
      then fails st invalid_parameter "nprobe must be a positive integer."
      else if not (M.host.env.malloc (24 * req.top_k))
      then fails st internal_error "Out of memory allocating search results."
      else if req.use_ann
      then given (cached_index (st.folder req.db_name).ivf_index_bin t) undefined
          (λ t'. ann_route (put_table i t' st) t' req)
      else flat_route st t req

  -- `strdup` of the metadata, where there is any.
  unfoldable pub copied : Option (List ℕ) → Option (List ℕ)
  copied none = none
  copied (some m) = if M.host.env.malloc (length m + 1) then some m else none

  -- One more entry in the queue, which is doubled where it is full. `none`: the new queue is not there.
  unfoldable pub push : PendingInsert → OpenTable → Option OpenTable
  push p t =
      let full = length t.insert_queue == t.insert_queue_capacity in
      let capacity =
        if full then t.insert_queue_capacity * 2 % u64_mod else t.insert_queue_capacity in
      if not full || M.host.env.malloc (pending_insert_size * capacity % u64_mod)
      then some
          (record t { insert_queue_capacity = capacity; insert_queue = t.insert_queue ++ (p ∷ []) })
      else none

  -- `temp_rec`, at an offset.
  unfoldable pub temp_rec : OpenTable → InsertReq → ℕ → Record
  unfolding copied
  temp_rec t req byte_offset = record {
    id = req.id;
    vector = heap (take t.db.dimension req.vector);
    metadata = copied req.metadata;
    is_deleted = false;
    byte_offset = byte_offset;
    is_mmap = false;
  }

  -- The entry of the queue that goes with a record.
  abbrev pub entry_of : OpenTable → InsertReq → ℕ → PendingInsert
  entry_of t req byte_offset = record {
    id = req.id;
    vector = take t.db.dimension req.vector;
    metadata = copied req.metadata;
    byte_offset = byte_offset;
  }

  -- The table once the record has been written, or not.
  unfoldable pub queue_written :
      OpenTable → PendingInsert → Option (Status × Storage) → Option (Status × OpenTable)
  queue_written t p none = none
  queue_written t p (some (failure, s)) =
      some (failure, record t { db = record (t.db) { storage = s } })
  queue_written t p (some (success, s)) =
      elim (push p (record t { db = record (t.db) { storage = s } })) [
        | none ↦ none
        | some t' ↦ some (success, t')
      ]

  -- A queued insertion: the record is written to the file, and waits for the next synchronisation.
  -- `none` is undefined behaviour: the vector's block or the grown queue is not there.
  unfoldable pub queue_insert : OpenTable → InsertReq → Option (Status × OpenTable)
  unfolding queue_written
  queue_insert t req =
      let at = storage_current_offset t.db.storage in
      if M.host.env.malloc (t.db.dimension * 4 % u64_mod)
      then queue_written t (entry_of t req at.0)
          (storage_write_record at.1 (temp_rec t req at.0) t.db.dimension)
      else none

  -- The answer to an insertion in the table number `i`.
  unfoldable pub answer_insert : ℕ → State → Option (Status × OpenTable) → Handled
  answer_insert i st none = undefined
  answer_insert i st (some (failure, t)) =
      fails (put_table i t st) internal_error "Failed to write record to disk."
  answer_insert i st (some (success, t)) =
      handled (put_table i t st)
        (ok_response 1024
          (codes "{\"status\": \"success\", \"message\": \"Vector inserted successfully.\"}"))
        false

  unfoldable pub insert_table : ℕ → OpenTable → State → InsertReq → Handled
  unfolding answer_insert
  insert_table i t st req =
      if not (t.db.dimension == req.dimension)
      then fails st invalid_parameter "Vector dimension does not match table configuration."
      else answer_insert i st (queue_insert t req)

  -- The answer to a request to delete, which is the same whatever the queue says.
  unfoldable pub answer_delete : State → List ℕ → Appended → Handled
  answer_delete st db_name blocked = hangs
  answer_delete st db_name (returned status file) =
      handled
        (put_folder db_name
          (record (st.folder db_name) {
            table = record ((st.folder db_name).table) { pending_bin = file.pending_bin };
          })
          (record st {
            append_lock = file.append_lock;
            open_tables = mark_table_pending_dirty db_name st.open_tables;
          }))
        (ok_response 1024
          (codes "{\"status\": \"success\", \"message\": \"Delete request queued.\"}"))
        false

  unfoldable pub queue_delete : State → DeleteReq → Handled
  unfolding answer_delete
  queue_delete st req = answer_delete st req.db_name (
      append_pending_delete M.appends
        (record {
          pending_bin = (st.folder req.db_name).table.pending_bin;
          append_lock = st.append_lock;
        })
        req.id)

  -- The answer to a training, the clusters of which take the place of the cached ones if the index
  -- file has been written.
  unfoldable pub answer_train :
      ℕ → OpenTable → State → List ℕ → List Cluster → Option (Status × Option (List ℕ)) → Handled
  answer_train i t st db_name clusters none = undefined
  answer_train i t st db_name clusters (some (failure, file)) =
      fails (put_folder db_name (record (st.folder db_name) { ivf_index_bin = file }) st)
        internal_error "Failed to save trained index to disk."
  answer_train i t st db_name clusters (some (success, file)) =
      handled
        (put_table i (record t { ivf_index = some clusters; index_loaded = true })
          (put_folder db_name (record (st.folder db_name) { ivf_index_bin = file }) st))
        (ok_response 1024 (
          codes
            "{\"status\": \"success\", \"message\": \"Index trained and saved successfully.\"}"))
        false

  -- The clusters of a training saved.
  unfoldable pub save_trained : ℕ → OpenTable → State → List ℕ → Trained → Handled
  unfolding answer_train
  save_trained i t st db_name Kmeans.undefined = undefined
  save_trained i t st db_name Kmeans.running = running
  save_trained i t st db_name (trained clusters) =
      answer_train i t st db_name clusters (
        save_ivf_index M.saves M.host.room clusters t.db.dimension
          (st.folder db_name).ivf_index_bin)

  unfoldable pub train_table : ℕ → OpenTable → State → TrainReq → Handled
  unfolding save_trained
  train_table i t st req =
      if req.k == 0 || length t.db.records == 0 || ltb (length t.db.records) req.k
      then fails st invalid_parameter "Not enough records to train the requested clusters."
      else save_trained i t st req.db_name (
          kmeans_build M.floats M.means M.rand M.allocates M.rounds t.db.storage t.db.records req.k
            t.db.dimension req.max_iterations t.db.calculate_distance)
