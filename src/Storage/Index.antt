-- ===== src/Storage/Index.antt =====
-- src/storage.c: the index file of a table, `save_ivf_index` and `load_ivf_index`.
pub mod Clusters
pub mod RoundTrip
use vecdb.Prelude.{
  ℕ, zero, suc, ◌+◌, ◌*◌, ◌%◌, min, List, [], ◌∷◌, ◌++◌, Option, none, some, Bool, true, ◌&&◌,
}
use vecdb.Prelude.{if◌then◌else◌, ◌==◌, ltb, leb, length, take, drop, concat, map}
use vecdb.Prelude.Bytes.{u64_mod, u64_bytes, u64_at, floats_bytes, floats_at}
use vecdb.Storage.Types.{Env, Storage, Status, success, failure}
use vecdb.Storage.Write.{write_all}
use vecdb.Search.Ivf.{Cluster}

-- The stream of a file that `fopen(…, "wb")` has emptied, on a disk with some room.
abbrev pub new_file : ℕ → Storage
new_file room = record {
  bytes = [];
  room = room;
  is_open = true;
  pos = 0;
  mmap_data = none;
  file_size = 0;
  maps = 0;
}

-- An array of `uint64_t`.
unfoldable pub u64s_bytes : List ℕ → List ℕ
u64s_bytes [] = []
u64s_bytes (v ∷ vs) = u64_bytes v ++ u64s_bytes vs

unfoldable pub u64s_at : ℕ → List ℕ → List ℕ
u64s_at zero bytes = []
u64s_at (suc n) bytes = u64_at bytes ∷ u64s_at n (drop 8 bytes)

-- The four writes of one cluster.
unfoldable pub cluster_chunks : ℕ → Cluster → List (List ℕ)
cluster_chunks dimension c =
    floats_bytes (take dimension c.centroid_vector)
    ∷ u64_bytes c.count
    ∷ u64_bytes c.capacity
    ∷ u64s_bytes (take c.count c.byte_offsets)
    ∷ []

unfoldable pub clusters_chunks : ℕ → List Cluster → List (List ℕ)
clusters_chunks dimension [] = []
clusters_chunks dimension (c ∷ more) = cluster_chunks dimension c ++ clusters_chunks dimension more

-- The arrays of every cluster are as long as what is written of them.
unfoldable pub can_read : ℕ → List Cluster → Bool
can_read dimension [] = true
can_read dimension (c ∷ more) =
    leb dimension (length c.centroid_vector)
    && leb c.count (length c.byte_offsets)
    && can_read dimension more

-- `save_ivf_index`, with the index file that is there afterwards; `opens` says whether it can be
-- opened and `room` how many bytes the disk takes. `none` is undefined behaviour, a read past an
-- array, also where an earlier write would have failed.
unfoldable pub save_ivf_index :
    Bool → ℕ → List Cluster → ℕ → Option (List ℕ) → Option (Status × Option (List ℕ))
unfolding can_read
save_ivf_index opens room clusters dimension old =
    if opens
    then (if can_read dimension clusters
        then (let w =
              write_all
                (u64_bytes (length clusters)
                  ∷ u64_bytes dimension
                  ∷ clusters_chunks dimension clusters)
                (new_file room) in
            some (w.0, some w.1.bytes))
        else none)
    else some (failure, old)

-- One round of the load loop: a cluster and the bytes behind it, a file that is too short, or
-- undefined behaviour.
pub data ReadCluster : Type 0 where
  got : Cluster → List ℕ → ReadCluster
  short : ReadCluster
  fault : ReadCluster

-- `malloc` of `n` items of `size` bytes, and an `fread` of as many of them as the file has: the
-- result of `malloc` is not checked and its argument wraps, so the block may be missing or too small.
unfoldable pub block_holds : Env → ℕ → ℕ → List ℕ → Bool
block_holds env size n bytes =
    env.malloc (size * n % u64_mod) && leb (min (size * n) (length bytes)) (size * n % u64_mod)

-- The offsets, which are read only if there are any.
unfoldable pub read_offsets : Env → ℕ → ℕ → List ℕ → List ℕ → ReadCluster
read_offsets env count capacity centroid_vector bytes =
    if count == 0
    then got
        (record {
          centroid_vector = centroid_vector;
          record_index = [];
          count = 0;
          capacity = capacity;
          byte_offsets = [];
        })
        bytes
    else if block_holds env 8 count bytes
    then (if ltb (length bytes) (8 * count)
        then short
        else got
            (record {
              centroid_vector = centroid_vector;
              record_index = [];
              count = count;
              capacity = capacity;
              byte_offsets = u64s_at count bytes;
            })
            (drop (8 * count) bytes))
    else fault

-- `record_index` is what `calloc` leaves, no array.
unfoldable pub read_cluster : Env → ℕ → List ℕ → ReadCluster
read_cluster env dimension bytes =
    let rest = drop (4 * dimension) bytes in
    if block_holds env 4 dimension bytes
    then (if ltb (length bytes) (4 * dimension)
        then short
        else if ltb (length rest) 16
        then short
        else read_offsets env (u64_at rest) (u64_at (drop 8 rest)) (floats_at dimension bytes)
            (drop 16 rest))
    else fault

-- What `load_ivf_index` returns: no index, the clusters with `out_dimension`, or undefined behaviour.
pub data LoadedIndex : Type 0 where
  no_index : LoadedIndex
  index : List Cluster → ℕ → LoadedIndex
  undefined : LoadedIndex

abbrev pub and_cluster : Cluster → LoadedIndex → LoadedIndex
and_cluster c no_index = no_index
and_cluster c (index cs dimension) = index (c ∷ cs) dimension
and_cluster c undefined = undefined

-- The loop over `out_k` clusters.
unfoldable pub load_clusters : Env → ℕ → ℕ → List ℕ → LoadedIndex
load_clusters env dimension zero bytes = index [] dimension
load_clusters env dimension (suc k) bytes = elim (read_cluster env dimension bytes) [
  | got c rest ↦ and_cluster c (load_clusters env dimension k rest)
  | short ↦ no_index
  | fault ↦ undefined
]

-- `load_ivf_index`; `calloc` fails where its size does not fit. The number of clusters is that of the
-- list.
unfoldable pub load_ivf_index : Env → Option (List ℕ) → LoadedIndex
load_ivf_index env none = no_index
load_ivf_index env (some bytes) =
    let out_k = u64_at bytes in
    let out_dimension = u64_at (drop 8 bytes) in
    if ltb (length bytes) 16
    then no_index
    else if ltb (40 * out_k) u64_mod && env.malloc (40 * out_k)
    then load_clusters env out_dimension out_k (drop 16 bytes)
    else no_index
