-- ===== src/Terminal/Keeps/Changes.antt =====
-- src/terminal.c: what insert, search and delete leave of the session.
use vecdb.Prelude.{
  ℕ, ◌*◌, ◌/◌, ◌%◌, ◌≤◌, ◌≡◌, refl, arith, List, [], ◌∷◌, Option, none, some, Bool, ◌&&◌, ◌||◌, not,
}
use vecdb.Prelude.{◌==◌, ltb, length}
use vecdb.Prelude.Bytes.{u64_mod}
use vecdb.Storage.Types.{Status, success, failure}
use vecdb.Search.TopK.{TopK}
use vecdb.Search.Flat.{flat_search}
use vecdb.Db.Types.{FlatDb}
use vecdb.Db.Insert.{Done, done, db_insert, db_delete, db_compact}
use vecdb.Db.Insert
use vecdb.Db.Dimension.{
  OnDone, kept, no_table, SameDimension, db_insert-dimension, db_delete-dimension,
  db_compact-dimension, OnDone-same,
}
use vecdb.Terminal.Scan.{scan_u32, scan_u64, read_floats}
use vecdb.Terminal.Input.{read_floats-Leaves}
use vecdb.Terminal.Session.{Master, Session, Console, Ran, continues, table_name_of}
use vecdb.Terminal.Session.{deleted_only}
use vecdb.Terminal.Tables.{
  keep_db, metadata_word, insert_done, insert_row, cmd_insert, search_done, search_rows, cmd_search,
  compact_done, delete_done, cmd_delete, ask_vector,
}
use vecdb.Terminal.Follows.{
  Follows, Follows-put, unchanged-Follows, keep_db-Follows, OnRan, goes_on, in_undefined, OnRan-if,
  OnRan-conversion, OnRan-behind_words, OnRan-with_master, OnRan-with_vector,
}

module _ (C : Console) (st : Session) where
  abbrev P : Session → Type 0
  P = Follows st

  -- The load loops are given no round.
  abbrev L : Type 0
  L = C.fuel ≡ 0

  same_session : P st
  same_session = unchanged-Follows st st refl (omega arith)

  said_only :
      (st' : Session) (rest : List ℕ)
      → length rest ≤ length st.input
      → P (record st { input = rest })
  said_only st' rest h = unchanged-Follows st (record st { input = rest }) refl h

  module _ (m : Master) (open_m : st.master_db ≡ some m) where
    -- The open table with other contents.
    with_db :
        (db : FlatDb) (rest : List ℕ)
        → SameDimension m.db db
        → length rest ≤ length st.input
        → P (keep_db (record st { input = rest }) m db)
    with_db db rest d h = keep_db-Follows st (record st { input = rest }) m db open_m d h

    insert_done-OnRan :
        (rest : List ℕ) (id : ℕ) (d : Done)
        → length rest ≤ length st.input
        → OnDone (SameDimension m.db) d
        → OnRan L P (insert_done C (record st { input = rest }) m id d)
    unfolding insert_done
    insert_done-OnRan rest id Insert.faulted h no_table = in_undefined
    insert_done-OnRan rest id (done success db) h (kept d) = goes_on (with_db db rest d h)
    insert_done-OnRan rest id (done failure db) h (kept d) = goes_on (with_db db rest d h)

    -- A command that asks for a vector.
    ask_vector-OnRan :
        (go : Session → List ℕ → Ran)
        → ((xs rest : List ℕ)
            → length rest ≤ length st.input
            → OnRan L P (go (record st { input = rest }) xs))
        → OnRan L P (ask_vector C st m.db go)
    ask_vector-OnRan go k =
        OnRan-with_vector P st (length st.input)
          (read_floats C.scan m.db.dimension (m.db.dimension * 4 % u64_mod / 4) st.input) go
          (read_floats-Leaves C.scan m.db.dimension (m.db.dimension * 4 % u64_mod / 4)
            (length st.input) st.input (omega arith))
          (λ rest h. said_only st rest h) k

    insert_row-OnRan :
        (id : ℕ) (metadata : Option (List ℕ)) → OnRan L P (insert_row C st m id metadata)
    unfolding insert_row
    insert_row-OnRan id metadata =
        OnRan-if P (C.host.env.malloc (m.db.dimension * 4 % u64_mod)) _ _
          (ask_vector-OnRan
            (λ st' vec. insert_done C st' m id (db_insert C.host.env m.db id vec metadata))
            (λ xs rest h.
              insert_done-OnRan rest id (db_insert C.host.env m.db id xs metadata) h
                (db_insert-dimension C.host.env m.db id xs metadata)))
          (goes_on same_session)

    search_done-OnRan :
        (rest : List ℕ) (more : Bool) (o : Option (Status × TopK))
        → length rest ≤ length st.input
        → OnRan L P (search_done C (record st { input = rest }) more o)
    unfolding search_done
    search_done-OnRan rest more none h = in_undefined
    search_done-OnRan rest more (some (status, t)) h = goes_on (said_only st rest h)

    search_rows-OnRan : (top_k : ℕ) → OnRan L P (search_rows C st m top_k)
    unfolding search_rows
    search_rows-OnRan top_k =
        OnRan-if P
          (C.host.env.malloc (m.db.dimension * 4 % u64_mod) && C.host.env.malloc (24 * top_k)) _ _
          (ask_vector-OnRan
            (λ st' q_vec.
              search_done C st' (ltb (length m.db.records) top_k && ltb 0 (length m.db.records)) (
                flat_search C.floats C.libc m.db.storage m.db.dimension q_vec top_k
                  m.db.calculate_distance m.db.pending_deletes m.db.records))
            (λ xs rest h.
              search_done-OnRan rest
                (ltb (length m.db.records) top_k && ltb 0 (length m.db.records))
                (flat_search C.floats C.libc m.db.storage m.db.dimension xs top_k
                  m.db.calculate_distance m.db.pending_deletes m.db.records)
                h))
          (goes_on same_session)

    compact_done-OnRan :
        (table_name : List ℕ) (id : ℕ) (d : Done)
        → OnDone (SameDimension m.db) d
        → OnRan L P (compact_done C st m table_name id d)
    unfolding compact_done
    compact_done-OnRan table_name id Insert.faulted no_table = in_undefined
    compact_done-OnRan table_name id (done success db) (kept d) = goes_on (
        Follows-put (keep_db st m db) table_name
          (record (st.folder table_name) { ivf_index_bin = none })
          (with_db db st.input d (omega arith)))
    compact_done-OnRan table_name id (done failure db) (kept d) =
        goes_on (with_db db st.input d (omega arith))

    delete_done-OnRan :
        (id : ℕ) (p : Status × FlatDb)
        → SameDimension m.db p.1
        → OnRan L P (delete_done C st m id p)
    unfolding delete_done
    delete_done-OnRan id (failure, db) d = goes_on (with_db db st.input d (omega arith))
    delete_done-OnRan id (success, db) d = by_name (table_name_of m.file_name)
      where
        by_name :
            (name : List ℕ)
            → OnRan L P (elim name as (λ x. Ran) [
              | [] ↦ continues (keep_db st m db) (deleted_only id)
              | c ∷ rest ↦ compact_done C st m (c ∷ rest) id (db_compact C.files.compact db)
            ])
        by_name [] = goes_on (with_db db st.input d (omega arith))
        by_name (c ∷ rest) = compact_done-OnRan (c ∷ rest) id (db_compact C.files.compact db) (
            OnDone-same m.db db (db_compact C.files.compact db) d
              (db_compact-dimension C.files.compact db))

  pub cmd_insert-OnRan : (command : List ℕ) (words : ℕ) → OnRan L P (cmd_insert C st command words)
  unfolding cmd_insert
  cmd_insert-OnRan command words = OnRan-with_master P st st.master_db _ same_session (λ m e.
      OnRan-if P (ltb words 3 || ltb 4 words) _ _ (goes_on same_session) (
        OnRan-behind_words P command _ _ (goes_on same_session) (λ text.
          OnRan-conversion P (scan_u32 text) _ _ (goes_on same_session)
            (λ id rest. insert_row-OnRan m e id (metadata_word C rest)))))

  pub cmd_search-OnRan : (command : List ℕ) (words : ℕ) → OnRan L P (cmd_search C st command words)
  unfolding cmd_search
  cmd_search-OnRan command words = OnRan-with_master P st st.master_db _ same_session (λ m e.
      OnRan-if P (not (words == 3)) _ _ (goes_on same_session) (
        OnRan-behind_words P command _ _ (goes_on same_session) (λ text.
          OnRan-conversion P (scan_u32 text) _ _ (goes_on same_session) (λ top_k rest.
            OnRan-if P (top_k == 0) _ _ (goes_on same_session) (search_rows-OnRan m e top_k)))))

  pub cmd_delete-OnRan : (command : List ℕ) (words : ℕ) → OnRan L P (cmd_delete C st command words)
  unfolding cmd_delete
  cmd_delete-OnRan command words = OnRan-with_master P st st.master_db _ same_session (λ m e.
      OnRan-if P (not (words == 3)) _ _ (goes_on same_session) (
        OnRan-behind_words P command _ _ (goes_on same_session) (λ text.
          OnRan-conversion P (scan_u64 text) _ _ (goes_on same_session) (λ id rest.
            delete_done-OnRan m e id (db_delete C.files.seeks C.files.opens C.files.writes m.db id)
              (db_delete-dimension C.files.seeks C.files.opens C.files.writes m.db id)))))
