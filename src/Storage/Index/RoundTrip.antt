-- ===== src/Storage/Index/RoundTrip.antt =====
-- src/storage.c: an index that is saved and loaded again.
use vecdb.Prelude.{ℕ, ◌*◌, ◌≤◌, ◌<◌, ◌≡◌, refl, sym, ap, ◌∙◌, arith, List, [], ◌∷◌, ◌++◌}
use vecdb.Prelude.{Option, some, true, le→leb, ge→ltb, lt→ltb}
use vecdb.Prelude.{length, drop, concat, map, All, length-append, append-nil}
use vecdb.Prelude.{take-length, drop-append, leb, drop-drop}
use vecdb.Prelude.Bytes.{u64_mod, u64_bytes, u64_at, u64_at-u64_bytes}
use vecdb.Prelude.Bytes.{length-encode_le}
use vecdb.Storage.Types.{Env, success}
use vecdb.Storage.Write.{write_all-appended, appended, status_of}
use vecdb.Search.Ivf.{Cluster}
use vecdb.Storage.Index.{new_file, clusters_chunks, save_ivf_index}
use vecdb.Storage.Index.{index}
use vecdb.Storage.Index.{load_clusters, load_ivf_index}
use vecdb.Storage.Index.Clusters.{load_clusters_lem, can_read_lem, without_indices, CanSave}

-- The bytes of an index file.
abbrev pub index_bytes : ℕ → List Cluster → List ℕ
index_bytes dimension cs =
    concat (u64_bytes (length cs) ∷ u64_bytes dimension ∷ clusters_chunks dimension cs)

save_ivf_index_lem :
    (room dimension : ℕ) (cs : List Cluster) (old : Option (List ℕ))
    → All (CanSave dimension) cs
    → length (index_bytes dimension cs) ≤ room
    → save_ivf_index true room cs dimension old ≡ some (success, some (index_bytes dimension cs))
unfolding save_ivf_index
save_ivf_index_lem room dimension cs old can fits =
    rw (can_read_lem dimension cs can, write_all-appended chunks (new_file room) refl)
      (λ i. some (status i, some (bytes i)))
  where
    chunks : List (List ℕ)
    chunks = u64_bytes (length cs) ∷ u64_bytes dimension ∷ clusters_chunks dimension cs

    status : status_of (leb (length (concat chunks)) room) ≡ success
    status = ap status_of (le→leb (length (concat chunks)) room fits)

    bytes : (appended (concat chunks) (new_file room)).bytes ≡ concat chunks
    bytes = unfold appended in take-length room (concat chunks) fits

load_ivf_index_lem :
    (env : Env) (dimension : ℕ) (cs : List Cluster)
    → ((m : ℕ) → env.malloc m ≡ true)
    → All (CanSave dimension) cs
    → 4 * dimension < u64_mod
    → 40 * length cs < u64_mod
    → load_ivf_index env (some (index_bytes dimension cs))
      ≡ index (map without_indices cs) dimension
unfolding load_ivf_index
load_ivf_index_lem env dimension cs memory can small small_k =
    rw
      (
        ge→ltb (length all) 16 enough,
        load_ivf_index,
        k_back,
        lt→ltb (40 * length cs) u64_mod small_k,
        memory (40 * length cs),
        dimension_back,
        body_back,
      )
      (ap (load_clusters env dimension (length cs)) (sym (append-nil body))
        ∙ load_clusters_lem env memory dimension cs [] can small)
  where
    body : List ℕ
    body = concat (clusters_chunks dimension cs)

    all : List ℕ
    all = index_bytes dimension cs

    enough : 16 ≤ length all
    enough = omega (
      arith,
      length-append (u64_bytes (length cs)) (u64_bytes dimension ++ body),
      length-append (u64_bytes dimension) body,
      length-encode_le 8 (length cs),
      length-encode_le 8 dimension,
    )

    k_back : u64_at all ≡ length cs
    k_back = u64_at-u64_bytes (length cs) _ (omega (arith, small_k))

    at_dimension : drop 8 all ≡ u64_bytes dimension ++ body
    at_dimension = drop-append 8 (u64_bytes (length cs)) _ (length-encode_le 8 (length cs))

    dimension_back : u64_at (drop 8 all) ≡ dimension
    dimension_back = ap u64_at at_dimension ∙ u64_at-u64_bytes dimension _ (omega (arith, small))

    body_back : drop 16 all ≡ body
    body_back =
        sym (drop-drop 8 8 16 all refl)
        ∙ ap (drop 8) at_dimension
        ∙ drop-append 8 (u64_bytes dimension) body (length-encode_le 8 dimension)

-- An index that is saved where the file opens and the disk has room for it, and that is loaded with
-- memory granted, comes back: the clusters in their order and with their numbers, less the indices
-- of their records, and the dimension. The sizes fit a `size_t`, and the arrays of each cluster are
-- as long as it says.
pub load_ivf_index-save_ivf_index :
    (env : Env) (room dimension : ℕ) (cs : List Cluster) (old : Option (List ℕ))
    → ((m : ℕ) → env.malloc m ≡ true)
    → All (CanSave dimension) cs
    → 4 * dimension < u64_mod
    → 40 * length cs < u64_mod
    → length (index_bytes dimension cs) ≤ room
    → (file : Option (List ℕ)) × (save_ivf_index true room cs dimension old ≡ some (success, file))
      × (load_ivf_index env file ≡ index (map without_indices cs) dimension)
load_ivf_index-save_ivf_index env room dimension cs old memory can small small_k fits = (
  some (index_bytes dimension cs),
  save_ivf_index_lem room dimension cs old can fits,
  load_ivf_index_lem env dimension cs memory can small small_k,
)
