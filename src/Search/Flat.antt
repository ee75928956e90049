-- ===== src/Search/Flat.antt =====
-- include/search/baseline-flat.h and src/search/baseline-flat.c: the exact search.
use vecdb.Prelude.{ℕ, ◌<◌, ◌≡◌, refl, sym, ◌∙◌, arith, List, [], ◌∷◌}
use vecdb.Prelude.{Option, none, some, Bool, true, false, ◌||◌, ◌==◌, if◌then◌else◌, take}
use vecdb.Prelude.{leb, length, le→leb, ◌≤◌, ne→==, subst}
use vecdb.Floats.{Floats, IsOrdered}
use vecdb.Distance.{DistanceFunc}
use vecdb.Pending.{Sorting, IsAscending, contains, cmp_uint32, is_pending_delete}
use vecdb.Pending.Queue.{is_pending_delete-contains}
use vecdb.Storage.Types.{Storage, Record, Status, success, failure, floats_of, strlen}
use vecdb.Search.TopK.{
  SearchResult, TopK, empty_results, insert_result, insert_unbounded,
  insert_result-insert_unbounded,
}
use vecdb.Search.Best.{insert_results, IsBest, best-IsBest, insert_results-best}

-- `strdup`, which is taken to find memory.
unfoldable pub strdup : Option (List ℕ) → Option (List ℕ)
strdup none = none
strdup (some m) = some (take (strlen m) m)

-- What a record is to a query.
unfoldable pub result_of : DistanceFunc → ℕ → List ℕ → Record → List ℕ → SearchResult
unfolding strdup
result_of calculate_distance dimension query r ws = record {
  id = r.id;
  calculated_distance = calculate_distance dimension ws query;
  metadata = strdup r.metadata;
}

module _ (F : Floats) (libc : Sorting) (s : Storage) (dimension : ℕ) (query : List ℕ) (top_k : ℕ)
    (calculate_distance : DistanceFunc) (pending : Option (List ℕ)) where
  -- The loop over the records. `none` is undefined behaviour: a bad vector pointer, a query with fewer
  -- floats than the table has dimensions, or a place in front of the array.
  unfoldable pub flat_search_loop : List Record → TopK → Option TopK
  unfolding result_of is_pending_delete
  flat_search_loop [] t = some t
  flat_search_loop (r ∷ more) t = elim (r.is_deleted || is_pending_delete libc r.id pending) [
    | true ↦ flat_search_loop more t
    | false ↦ (elim (floats_of s dimension r.vector) [
      | none ↦ none
      | some ws ↦
          (elim (if leb dimension (length query)
            then insert_result F top_k t (result_of calculate_distance dimension query r ws)
            else none) [ none ↦ none | some t' ↦ flat_search_loop more t' ])
    ])
  ]

  -- `flat_search`
  unfoldable pub flat_search : List Record → Option (Status × TopK)
  unfolding flat_search_loop empty_results
  flat_search records =
      if top_k == 0
      then some (failure, empty_results F 0)
      else (elim (flat_search_loop records (empty_results F top_k)) [
        | none ↦ none
        | some t ↦ some (success, t)
      ])

-- The ids of a loaded queue.
abbrev pub ids_of : Option (List ℕ) → List ℕ
ids_of none = []
ids_of (some ids) = ids

module _ (s : Storage) (dimension : ℕ) (query : List ℕ) (calculate_distance : DistanceFunc)
    (pending : Option (List ℕ)) where
  -- The candidates among some records: those that are neither deleted nor in the queue, in their
  -- order, each with the distance of the floats that its pointer leads to.
  pub data Candidates : List Record → List SearchResult → Type 0 where
    over : Candidates [] []
    deleted :
        {r : Record} {more : List Record} {cs : List SearchResult}
        → r.is_deleted ≡ true
        → Candidates more cs
        → Candidates (r ∷ more) cs
    queued :
        {r : Record} {more : List Record} {cs : List SearchResult}
        → contains r.id (ids_of pending) ≡ true
        → Candidates more cs
        → Candidates (r ∷ more) cs
    live :
        {r : Record} {more : List Record} {cs : List SearchResult} (ws : List ℕ)
        → r.is_deleted ≡ false
        → contains r.id (ids_of pending) ≡ false
        → floats_of s dimension r.vector ≡ some ws
        → Candidates more cs
        → Candidates (r ∷ more) (result_of calculate_distance dimension query r ws ∷ cs)

pub skipped : (a : Bool) {b : Bool} → b ≡ true → (a || b) ≡ true
skipped true h = refl
skipped false h = h

pub kept : {a b : Bool} → a ≡ false → b ≡ false → (a || b) ≡ false
kept h k = rw (h, k) refl

pub is_pending_delete-ids_of :
    (libc : Sorting) (id : ℕ) (pending : Option (List ℕ))
    → IsAscending cmp_uint32 (ids_of pending)
    → is_pending_delete libc id pending ≡ contains id (ids_of pending)
is_pending_delete-ids_of libc id none h = unfold is_pending_delete in refl
is_pending_delete-ids_of libc id (some ids) h = is_pending_delete-contains libc id ids h

module _ (F : Floats) (libc : Sorting) (s : Storage) (dimension : ℕ) (query : List ℕ) (top_k : ℕ)
    (calculate_distance : DistanceFunc) (pending : Option (List ℕ))
    (ascending : IsAscending cmp_uint32 (ids_of pending)) (long : dimension ≤ length query)
    (int_index : top_k ≤ 2_147_483_648) where
  inserted :
      (t : TopK) (new : SearchResult)
      → (if leb dimension (length query) then insert_result F top_k t new else none)
        ≡ some (insert_unbounded F top_k t new)
  inserted t new =
      rw (le→leb dimension (length query) long)
        (insert_result-insert_unbounded F top_k t new int_index)

  flat_search_loop_lem :
      (records : List Record) (cs : List SearchResult) (t : TopK)
      → Candidates s dimension query calculate_distance pending records cs
      → flat_search_loop F libc s dimension query top_k calculate_distance pending records t
        ≡ some (insert_results F top_k t cs)
  unfolding flat_search_loop insert_results
  flat_search_loop_lem records cs t over = refl
  flat_search_loop_lem records cs t (deleted {r} {more} d c) =
      rw d (flat_search_loop_lem more cs t c)
  flat_search_loop_lem records cs t (queued {r} {more} q c) =
      rw
        (
          skipped r.is_deleted (is_pending_delete-ids_of libc r.id pending ascending ∙ q),
          flat_search_loop,
        )
        (flat_search_loop_lem more cs t c)
  flat_search_loop_lem records cs t (live {r} {more} {cs = cs'} ws d q f c) =
      rw
        (
          kept d (is_pending_delete-ids_of libc r.id pending ascending ∙ q),
          flat_search_loop,
          f,
          inserted t (result_of calculate_distance dimension query r ws),
        )
        (flat_search_loop_lem more cs'
          (insert_unbounded F top_k t (result_of calculate_distance dimension query r ws)) c)

  -- With `top_k` at least 1 and at most 2^31, a query of at least the dimension's floats, records whose vectors can be read and the queue in ascending order, the
  -- search succeeds: with the slots that follow nothing nearer is left out, the slots ascend, there
  -- are `top_k` of them, and what is not a candidate is an empty slot.
  pub flat_search-IsBest :
      IsOrdered F
      → 0 < top_k
      → (records : List Record) (cs : List SearchResult)
      → Candidates s dimension query calculate_distance pending records cs
      → (t : TopK) × (flat_search F libc s dimension query top_k calculate_distance pending records
          ≡ some (success, t))
        × IsBest F top_k cs t.out_results
  unfolding flat_search
  flat_search-IsBest ordered pos records cs c =
      rw (ne→== top_k 0 (omega arith), flat_search_loop_lem records cs (empty_results F top_k) c)
        (
          insert_results F top_k (empty_results F top_k) cs,
          refl,
          subst (IsBest F top_k cs) (sym (insert_results-best F ordered top_k cs pos))
              (best-IsBest F ordered top_k cs),
        )
