-- ===== src/Search/Ann.antt =====
-- src/db.c: `db_ann_search`, the approximate search.
use vecdb.Prelude.{ℕ, ◌<◌, ◌≡◌, refl, sym, ◌∙◌, arith, List, [], ◌∷◌, Option, none, some, subst}
use vecdb.Prelude.{leb, length, le→leb, if◌then◌else◌, ◌≤◌, true, false, ◌||◌, ◌==◌, ne→==}
use vecdb.Floats.{Floats, IsOrdered}
use vecdb.Pending.{Sorting, IsAscending, contains, cmp_uint32, is_pending_delete}
use vecdb.Storage.Types.{Env, Record, null, Status, success, floats_of}
use vecdb.Storage.Read.{loaded, eof, error, fault, storage_fetch_by_offset}
use vecdb.Db.Types.{FlatDb}
use vecdb.Search.TopK.{
  SearchResult, TopK, empty_results, insert_result, insert_unbounded,
  insert_result-insert_unbounded,
}
use vecdb.Search.Best.{insert_results, IsBest, best-IsBest, insert_results-best}
use vecdb.Search.Flat.{result_of, ids_of, skipped, kept, is_pending_delete-ids_of}
use vecdb.Search.Ivf.{Cluster, ivf_search}

-- `temp_record`, of which every field that is read is set by a fetch.
abbrev pub temp_record : Record
temp_record = record {
  id = 0;
  vector = null;
  metadata = none;
  is_deleted = false;
  byte_offset = 0;
  is_mmap = false;
}

module _ (env : Env) (db : FlatDb) (query_vector : List ℕ) where
  -- The candidates behind some offsets: the records that can be fetched and are neither deleted nor
  -- in the queue, each with the distance of its floats.
  pub data Fetched : List ℕ → List SearchResult → Type 0 where
    over : Fetched [] []
    missing :
        {byte_offset : ℕ} {more : List ℕ} {cs : List SearchResult}
        → storage_fetch_by_offset env db.storage byte_offset temp_record db.dimension ≡ error
        → Fetched more cs
        → Fetched (byte_offset ∷ more) cs
    deleted :
        {byte_offset : ℕ} {more : List ℕ} {cs : List SearchResult} (r : Record)
        → storage_fetch_by_offset env db.storage byte_offset temp_record db.dimension
          ≡ loaded r db.storage
        → r.is_deleted ≡ true
        → Fetched more cs
        → Fetched (byte_offset ∷ more) cs
    queued :
        {byte_offset : ℕ} {more : List ℕ} {cs : List SearchResult} (r : Record)
        → storage_fetch_by_offset env db.storage byte_offset temp_record db.dimension
          ≡ loaded r db.storage
        → contains r.id (ids_of db.pending_deletes) ≡ true
        → Fetched more cs
        → Fetched (byte_offset ∷ more) cs
    live :
        {byte_offset : ℕ} {more : List ℕ} {cs : List SearchResult} (r : Record) (ws : List ℕ)
        → storage_fetch_by_offset env db.storage byte_offset temp_record db.dimension
          ≡ loaded r db.storage
        → r.is_deleted ≡ false
        → contains r.id (ids_of db.pending_deletes) ≡ false
        → floats_of db.storage db.dimension r.vector ≡ some ws
        → Fetched more cs
        → Fetched
            (byte_offset ∷ more)
            (result_of db.calculate_distance db.dimension query_vector r ws ∷ cs)

module _ (F : Floats) (libc : Sorting) (env : Env) (db : FlatDb) (query_vector : List ℕ)
    (top_k : ℕ) where
  -- The loop over the offsets. `none` is undefined behaviour: a bad read, a query with fewer
  -- floats than the table has dimensions, a result array without a place, or a place in front of it.
  unfoldable pub ann_loop : List ℕ → TopK → Option TopK
  unfolding is_pending_delete result_of
  ann_loop [] t = some t
  ann_loop (byte_offset ∷ more) t =
      elim (storage_fetch_by_offset env db.storage byte_offset temp_record db.dimension) [
        | loaded r s ↦ (elim (r.is_deleted || is_pending_delete libc r.id db.pending_deletes) [
          | true ↦ ann_loop more t
          | false ↦ (elim (floats_of db.storage db.dimension r.vector) [
            | none ↦ none
            | some ws ↦ (elim (top_k == 0) [
              | true ↦ none
              | false ↦
                  (elim (if leb db.dimension (length query_vector)
                    then insert_result F top_k t
                        (result_of db.calculate_distance db.dimension query_vector r ws)
                    else none) [ none ↦ none | some t' ↦ ann_loop more t' ])
            ])
          ])
        ])
        | eof ↦ ann_loop more t
        | error ↦ ann_loop more t
        | fault ↦ none
      ]

  -- `db_ann_search`
  unfoldable pub db_ann_search : ℕ → List Cluster → Option (Status × TopK)
  unfolding ann_loop empty_results
  db_ann_search nprobe clusters =
      elim (ivf_search F env clusters query_vector nprobe db.dimension db.calculate_distance) [
        | none ↦ none
        | some ids ↦ (elim (ann_loop ids (empty_results F top_k)) [
          | none ↦ none
          | some t ↦ some (success, t)
        ])
      ]

  inserted :
      (t : TopK) (new : SearchResult)
      → db.dimension ≤ length query_vector
      → top_k ≤ 2_147_483_648
      → (if leb db.dimension (length query_vector) then insert_result F top_k t new else none)
        ≡ some (insert_unbounded F top_k t new)
  inserted t new long int_index =
      rw (le→leb db.dimension (length query_vector) long)
        (insert_result-insert_unbounded F top_k t new int_index)

  ann_loop_lem :
      (ids : List ℕ) (cs : List SearchResult) (t : TopK)
      → IsAscending cmp_uint32 (ids_of db.pending_deletes)
      → 0 < top_k
      → db.dimension ≤ length query_vector
      → top_k ≤ 2_147_483_648
      → Fetched env db query_vector ids cs
      → ann_loop ids t ≡ some (insert_results F top_k t cs)
  unfolding ann_loop insert_results
  ann_loop_lem ids cs t asc pos long int_index over = refl
  ann_loop_lem ids cs t asc pos long int_index (missing {more = more} e f) =
      rw (e, ann_loop) (ann_loop_lem more cs t asc pos long int_index f)
  ann_loop_lem ids cs t asc pos long int_index (deleted {more = more} r e d f) =
      rw (e, ann_loop, d) (ann_loop_lem more cs t asc pos long int_index f)
  ann_loop_lem ids cs t asc pos long int_index (queued {more = more} r e q f) =
      rw
        (
          e,
          ann_loop,
          skipped r.is_deleted (is_pending_delete-ids_of libc r.id db.pending_deletes asc ∙ q),
        )
        (ann_loop_lem more cs t asc pos long int_index f)
  ann_loop_lem ids cs t asc pos long int_index (live {more = more} {cs = cs'} r ws e d q w f) =
      rw
        (
          e,
          ann_loop,
          kept d (is_pending_delete-ids_of libc r.id db.pending_deletes asc ∙ q),
          w,
          ne→== top_k 0 (omega arith),
          inserted t (result_of db.calculate_distance db.dimension query_vector r ws) long
              int_index,
        )
        (ann_loop_lem more cs' _ asc pos long int_index f)

  -- With `top_k` at least 1 and at most 2^31, a query of at least the dimension's floats and the queue
  -- in ascending order, an approximate search whose probes give
  -- offsets of records that can be read succeeds: the results are the best of the records behind
  -- those offsets that are neither deleted nor queued, an offset at which no whole record stands
  -- being skipped.
  pub db_ann_search-IsBest :
      IsOrdered F
      → 0 < top_k
      → db.dimension ≤ length query_vector
      → top_k ≤ 2_147_483_648
      → IsAscending cmp_uint32 (ids_of db.pending_deletes)
      → (nprobe : ℕ) (clusters : List Cluster) (ids : List ℕ) (cs : List SearchResult)
      → ivf_search F env clusters query_vector nprobe db.dimension db.calculate_distance ≡ some ids
      → Fetched env db query_vector ids cs
      → (t : TopK) × (db_ann_search nprobe clusters ≡ some (success, t))
        × IsBest F top_k cs t.out_results
  unfolding db_ann_search
  db_ann_search-IsBest ordered pos long int_index asc nprobe clusters ids cs e f =
      rw (e, db_ann_search, ann_loop_lem ids cs (empty_results F top_k) asc pos long int_index f)
        (
          insert_results F top_k (empty_results F top_k) cs,
          refl,
          subst (IsBest F top_k cs) (sym (insert_results-best F ordered top_k cs pos))
              (best-IsBest F ordered top_k cs),
        )
