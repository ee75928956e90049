-- ===== src/Server/Actions/Names.antt =====
-- src/server.c: what a route does with a table keeps the names of the open tables.
use vecdb.Prelude.{ℕ, ◌≡◌, refl, sym, ap, List, [], ◌∷◌, Option, none, some}
use vecdb.Prelude.{Bool, true, false, ◌&&◌, ◌||◌, not, if◌then◌else◌, ◌==◌, ltb, length, get_elem?}
use vecdb.Storage.Types.{Status, success, failure}
use vecdb.Search.TopK.{TopK}
use vecdb.Search.Ivf.{Cluster}
use vecdb.Storage.Index.{LoadedIndex, index, no_index, load_ivf_index}
use vecdb.Storage.Index
use vecdb.Search.Kmeans.{Trained, trained, kmeans_build}
use vecdb.Search.Kmeans
use vecdb.Server.Request.{SearchReq, InsertReq, TrainReq, DeleteReq}
use vecdb.Server.Tables.{OpenTable, State, put_table, clear_cached_index}
use vecdb.Server.Tables.Invariant.{names_of}
use vecdb.Server.Sync.Names.{names_of-set, names_of-mark}
use vecdb.Server.Actions.{Machine, Handled, handled, undefined, hangs, running}
use vecdb.Server.Actions.{
  given, max_top_k, push, queue_written, answer_insert, answer_delete, answer_train, used_index,
}
use vecdb.Storage.Types.{Storage}
use vecdb.Server.Tables.{PendingInsert}
use vecdb.Prelude.{◌*◌}
use vecdb.Storage.Index.{save_ivf_index}
use vecdb.Pending.{Appended, returned, blocked, append_pending_delete}
use vecdb.Prelude.{◌++◌, ◌%◌}
use vecdb.Prelude.Bytes.{u64_mod}
use vecdb.Storage.Write.{storage_current_offset, storage_write_record}
use vecdb.Search.Ann.{db_ann_search}
use vecdb.Search.Flat.{flat_search}
use vecdb.Server.Request.{serialize_search_results}
use vecdb.Server.Reply.{ok_response, invalid_parameter, internal_error}
use vecdb.Server.Tables.{pending_insert_size}
use vecdb.Server.Actions.{fails, entry_of, temp_rec}
use vecdb.Server.Actions.{
  answer_search, cached_index, ann_route, flat_route, search_table, queue_insert, insert_table,
  queue_delete, save_trained, train_table,
}

-- A state with the same names of tables.
abbrev pub Alike : State → State → Type 0
Alike st st' = names_of st'.open_tables ≡ names_of st.open_tables

-- Where a request is answered, the state it leaves fulfils `P`.
abbrev pub OnHandled : (State → Type 0) → Handled → Type 0
OnHandled P (handled st reply closed) = P st
OnHandled P undefined = Unit
OnHandled P hangs = Unit
OnHandled P running = Unit

pub OnHandled-if :
    (P : State → Type 0) (b : Bool) (p q : Handled)
    → OnHandled P p
    → OnHandled P q
    → OnHandled P (if b then p else q)
OnHandled-if P true p q h k = h
OnHandled-if P false p q h k = k

OnHandled-given {ℓ} :
    {A : Type ℓ} (P : State → Type 0) (o : Option A) (otherwise : Handled) (go : A → Handled)
    → OnHandled P otherwise
    → ((a : A) → o ≡ some a → OnHandled P (go a))
    → OnHandled P (given o otherwise go)
OnHandled-given P none otherwise go h k = h
OnHandled-given P (some a) otherwise go h k = k a refl

module _ (M : Machine) where
  answer_search-OnHandled :
      (P : State → Type 0) (st : State) (t : TopK) → P st → OnHandled P (answer_search M st t)
  unfolding answer_search
  answer_search-OnHandled P st t h =
      OnHandled-given P (serialize_search_results M.json t.out_results)
        (fails st internal_error "Failed to serialize search results.")
        (λ json_payload. handled st (ok_response 4096 json_payload) false) h (λ a e. h)

  -- The index comes into the table under its name.
  used_index-name :
      (t t' : OpenTable) (l : LoadedIndex) → used_index M t l ≡ some t' → t'.name ≡ t.name
  unfolding used_index clear_cached_index
  used_index-name t t' Index.undefined h = cc
  used_index-name t t' no_index h = sym (ap (λ o. elim o [ none ↦ t.name | some u ↦ u.name ]) h)
  used_index-name t t' (index clusters ivf_dimension) h =
      by_test (not (ivf_dimension == t.db.dimension)) h
    where
      by_test :
          (b : Bool)
          → (if b
              then some (record (clear_cached_index t) { index_loaded = true })
              else some (record t { ivf_index = some clusters; index_loaded = true }))
            ≡ some t'
          → t'.name ≡ t.name
      by_test true e = sym (ap (λ o. elim o [ none ↦ t.name | some u ↦ u.name ]) e)
      by_test false e = sym (ap (λ o. elim o [ none ↦ t.name | some u ↦ u.name ]) e)

  cached_index-name :
      (file : Option (List ℕ)) (t t' : OpenTable)
      → cached_index M file t ≡ some t'
      → t'.name ≡ t.name
  unfolding cached_index
  cached_index-name file t t' h = by_test t.index_loaded h
    where
      by_test :
          (b : Bool)
          → (if b then some t else used_index M t (load_ivf_index M.host.env file)) ≡ some t'
          → t'.name ≡ t.name
      by_test true e = sym (ap (λ o. elim o [ none ↦ t.name | some u ↦ u.name ]) e)
      by_test false e = used_index-name t t' (load_ivf_index M.host.env file) e

  module _ (i : ℕ) (t : OpenTable) (st : State) (there : get_elem? st.open_tables i ≡ some t) where
    pub search_table-OnHandled :
        (req : SearchReq) → OnHandled (Alike st) (search_table M i t st req)
    unfolding search_table ann_route flat_route
    search_table-OnHandled req =
        OnHandled-if (Alike st) (not (t.db.dimension == req.dimension)) _ _ refl (
          OnHandled-if (Alike st) (req.top_k == 0 || ltb max_top_k req.top_k) _ _ refl (
            OnHandled-if (Alike st) (req.use_ann && (req.nprobe == 0 || ltb max_top_k req.nprobe)) _
              _ refl
              (OnHandled-if (Alike st) (not (M.host.env.malloc (24 * req.top_k))) _ _ refl
                (OnHandled-if (Alike st) req.use_ann _ _ with_index without_index))))
      where
        with_index : OnHandled (Alike st) (
            given
              (cached_index M (st.folder req.db_name).ivf_index_bin t)
              undefined
              (λ t'. ann_route M (put_table i t' st) t' req))
        with_index =
            OnHandled-given (Alike st) (cached_index M (st.folder req.db_name).ivf_index_bin t)
              undefined _ tt
              (λ t' e.
                let kept =
                  names_of-set st.open_tables i t t' there
                    (cached_index-name (st.folder req.db_name).ivf_index_bin t t' e) in
                OnHandled-given (Alike st) t'.ivf_index
                  (fails (put_table i t' st) invalid_parameter
                    "Index not trained. Call /train or use ENN.")
                  _ kept
                  (λ clusters e'.
                    OnHandled-given (Alike st)
                      (db_ann_search M.floats M.libc M.host.env t'.db req.query_vector req.top_k
                        req.nprobe clusters)
                      undefined (λ found. answer_search M (put_table i t' st) found.1) tt
                      (λ found e''.
                        answer_search-OnHandled (Alike st) (put_table i t' st) found.1 kept)))

        without_index : OnHandled (Alike st) (flat_route M st t req)
        without_index =
            OnHandled-given (Alike st)
              (flat_search M.floats M.libc t.db.storage req.dimension req.query_vector req.top_k
                t.db.calculate_distance t.db.pending_deletes t.db.records)
              undefined (λ found. answer_search M st found.1) tt
              (λ found e. answer_search-OnHandled (Alike st) st found.1 refl)

    answer_insert-OnHandled :
        (p : PendingInsert) (w : Option (Status × Storage))
        → OnHandled (Alike st) (answer_insert M i st (queue_written M t p w))
    unfolding answer_insert queue_written push
    answer_insert-OnHandled p none = tt
    answer_insert-OnHandled p (some (failure, s)) =
        names_of-set st.open_tables i t (record t { db = record (t.db) { storage = s } }) there refl
    answer_insert-OnHandled p (some (success, s)) =
        by_test (length t.insert_queue == t.insert_queue_capacity)
      where
        grown : ℕ → OpenTable
        grown capacity = record t {
          db = record (t.db) { storage = s };
          insert_queue_capacity = capacity;
          insert_queue = t.insert_queue ++ (p ∷ []);
        }

        pushed : Bool → ℕ → Option OpenTable
        pushed b capacity = if b then some (grown capacity) else none

        by_room :
            (b : Bool) (capacity : ℕ)
            → OnHandled (Alike st) (
                answer_insert M i st
                  (elim (pushed b capacity) [ none ↦ none | some t' ↦ some (success, t') ]))
        by_room true capacity = names_of-set st.open_tables i t (grown capacity) there refl
        by_room false capacity = tt

        capacity_of : Bool → ℕ
        capacity_of full =
            if full then t.insert_queue_capacity * 2 % u64_mod else t.insert_queue_capacity

        by_test :
            (full : Bool)
            → OnHandled (Alike st) (
                answer_insert M i st
                  (elim (pushed
                    (not full
                      || M.host.env.malloc (pending_insert_size * capacity_of full % u64_mod))
                    (capacity_of full)) [ none ↦ none | some t' ↦ some (success, t') ]))
        by_test full =
            by_room
              (not full || M.host.env.malloc (pending_insert_size * capacity_of full % u64_mod))
              (capacity_of full)

    pub insert_table-OnHandled :
        (req : InsertReq) → OnHandled (Alike st) (insert_table M i t st req)
    unfolding insert_table queue_insert
    insert_table-OnHandled req =
        OnHandled-if (Alike st) (not (t.db.dimension == req.dimension)) _ _ refl
          (by_memory (M.host.env.malloc (t.db.dimension * 4 % u64_mod)))
      where
        at : ℕ × Storage
        at = storage_current_offset t.db.storage

        by_memory :
            (b : Bool)
            → OnHandled (Alike st) (
                answer_insert M i st (
                  if b
                  then queue_written M t
                      (entry_of M t req at.0)
                      (storage_write_record at.1 (temp_rec M t req at.0) t.db.dimension)
                  else none))
        by_memory true =
            answer_insert-OnHandled (entry_of M t req at.0)
              (storage_write_record at.1 (temp_rec M t req at.0) t.db.dimension)
        by_memory false = unfold answer_insert in tt

    pub train_table-OnHandled : (req : TrainReq) → OnHandled (Alike st) (train_table M i t st req)
    unfolding train_table save_trained answer_train
    train_table-OnHandled req =
        OnHandled-if (Alike st)
          (req.k == 0 || length t.db.records == 0 || ltb (length t.db.records) req.k) _ _ refl
          (by_training (
            kmeans_build M.floats M.means M.rand M.allocates M.rounds t.db.storage t.db.records
              req.k t.db.dimension req.max_iterations t.db.calculate_distance))
      where
        by_file :
            (clusters : List Cluster) (w : Option (Status × Option (List ℕ)))
            → OnHandled (Alike st) (answer_train M i t st req.db_name clusters w)
        by_file clusters none = tt
        by_file clusters (some (failure, file)) = refl
        by_file clusters (some (success, file)) =
            names_of-set st.open_tables i t
              (record t { ivf_index = some clusters; index_loaded = true }) there refl

        by_training : (r : Trained) → OnHandled (Alike st) (save_trained M i t st req.db_name r)
        by_training Kmeans.undefined = tt
        by_training Kmeans.running = tt
        by_training (trained clusters) = by_file clusters (
            save_ivf_index M.saves M.host.room clusters t.db.dimension
              (st.folder req.db_name).ivf_index_bin)

  pub queue_delete-OnHandled :
      (st : State) (req : DeleteReq) → OnHandled (Alike st) (queue_delete M st req)
  unfolding queue_delete answer_delete
  queue_delete-OnHandled st req = by_end (
      append_pending_delete M.appends
        (record {
          pending_bin = (st.folder req.db_name).table.pending_bin;
          append_lock = st.append_lock;
        })
        req.id)
    where
      by_end : (w : Appended) → OnHandled (Alike st) (answer_delete M st req.db_name w)
      by_end blocked = tt
      by_end (returned status file) = names_of-mark req.db_name st.open_tables
