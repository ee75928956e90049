-- ===== src/Search/Stale.antt =====
-- src/storage.c and src/search/baseline-flat.c: an exact search after a compaction.
use vecdb.Prelude.{
  ℕ, ◌<◌, ◌≡◌, refl, ap, sym, arith, List, [], ◌∷◌, Option, none, some, false, map, ◌∙◌, ne→==, ◌≤◌,
  length,
}
use vecdb.Floats.{Floats}
use vecdb.Distance.{DistanceFunc}
use vecdb.Pending.{Sorting, is_pending_delete}
use vecdb.Storage.Types.{Status, Storage, Record, success, floats_of}
use vecdb.Storage.File.{Written, file_of}
use vecdb.Storage.Compact.{CompactHost, Kept, relocate, storage_compact}
use vecdb.Storage.Compact.Layout.{Left, kept_from}
use vecdb.Storage.Compact.Result.{Grants, storage_compact-file_of, relocate_heap}
use vecdb.Search.Flat.{flat_search, kept}

records_of : Option (Status × Storage × List Record) → List Record
records_of none = []
records_of (some (status, s, records)) = records

-- Relocation keeps the flag and the id.
relocate_keeps :
    (now : Option ℕ) (k : Kept)
    → ((relocate now k).is_deleted ≡ k.row.is_deleted) × ((relocate now k).id ≡ k.row.id)
unfolding relocate
relocate_keeps now k = (ground arith, ground arith)

module _ (F : Floats) (libc : Sorting) (dimension : ℕ) (query : List ℕ) (top_k : ℕ)
    (calculate_distance : DistanceFunc) (pending : Option (List ℕ)) where
  flat_search_bad_pointer :
      (s : Storage) (r : Record) (more : List Record)
      → 0 < top_k
      → r.is_deleted ≡ false
      → is_pending_delete libc r.id pending ≡ false
      → floats_of s dimension r.vector ≡ none
      → flat_search F libc s dimension query top_k calculate_distance pending (r ∷ more) ≡ none
  unfolding flat_search
  flat_search_bad_pointer s r more pos d q f = rw (ne→== top_k 0 (omega arith), kept d q, f) refl

  -- After a successful compaction of a table whose first record left was not read from the mapping (it
  -- was inserted since), and is not queued, an exact search is undefined: it reads through NULL.
  pub flat_search-storage_compact :
      (host : CompactHost) (s s' : Storage) (records records' : List Record) (w : Written)
      (ws : List Written)
      → Grants host
      → Left s dimension records (w ∷ ws)
      → length (file_of dimension (w ∷ ws)) ≤ s.room
      → w.row.is_mmap ≡ false
      → w.row.is_deleted ≡ false
      → is_pending_delete libc w.row.id pending ≡ false
      → 0 < top_k
      → storage_compact host s records dimension ≡ some (success, s', records')
      → flat_search F libc s' dimension query top_k calculate_distance pending records' ≡ none
  unfolding kept_from records_of
  flat_search-storage_compact host s s' records records' w ws grants left fits heap live free pos
        e =
      let result = storage_compact-file_of host grants s dimension records (w ∷ ws) left fits in
      let k : Kept = record { row = w.row; new_offset = 0 } in
      let same : records' ≡ map (relocate result.0.mmap_data) (kept_from dimension 0 (w ∷ ws)) =
        ap records_of (sym e ∙ result.2) ∙ result.8 in
      rw same (
        flat_search_bad_pointer s' (relocate result.0.mmap_data k) _ pos
          ((relocate_keeps result.0.mmap_data k).0 ∙ live)
          (ap (λ id. is_pending_delete libc id pending) (relocate_keeps result.0.mmap_data k).1
            ∙ free)
          (relocate_heap s' result.0.mmap_data dimension 0 w.row heap))
