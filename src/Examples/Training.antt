-- ===== src/Examples/Training.antt =====
-- Runs of `kmeans_build` in src/search/kmeans.c and of the index file in src/storage.c, and their
-- theorems at concrete inputs.
use mathlib.Core.List.{Perm}
use vecdb.Prelude.{ℕ, ◌≤◌, ◌≡◌, refl, arith, List, [], ◌∷◌, Option, none, some, true, false}
use vecdb.Prelude.{length, map, concat, All, ltb}
use vecdb.Prelude.Bytes.{floats_bytes, encode_le}
use vecdb.Storage.Types.{Storage, Record, success, heap, floats_of}
use vecdb.Storage.Index.{
  save_ivf_index, load_ivf_index, index, cluster_chunks, clusters_chunks, u64s_bytes,
}
use vecdb.Storage.Index.Clusters.{CanSave, without_indices}
use vecdb.Storage.Index.RoundTrip.{index_bytes, load_ivf_index-save_ivf_index}
use vecdb.Distance.{metric_euclidean, get_distance}
use vecdb.Search.Ivf.{Cluster}
use vecdb.Search.Kmeans.{MeanFloats, live_points, seeds, trained, kmeans_build}
use vecdb.Search.Kmeans.Partition.{CountsOffsets, live_offsets, kmeans_build_partitions}
use vecdb.Examples.Instances.{plain_floats, granting}

abbrev store : Storage
store = record {
  bytes = [];
  room = 4096;
  is_open = true;
  pos = 0;
  mmap_data = none;
  file_size = 0;
  maps = 0;
}

abbrev row : ℕ → ℕ → List ℕ → Record
row id offset ws = record {
  id = id;
  vector = heap ws;
  metadata = none;
  is_deleted = false;
  byte_offset = offset;
  is_mmap = false;
}

abbrev rows : List Record
rows =
    row 1 0 (10 ∷ 10 ∷ [])
    ∷ row 2 40 (90 ∷ 40 ∷ [])
    ∷ record (row 3 80 (11 ∷ 10 ∷ [])) { is_deleted = true }
    ∷ row 4 120 (12 ∷ 10 ∷ [])
    ∷ []

abbrev pub plain_means : MeanFloats
plain_means = record { of_count = λ n. n; negate = λ a. a; above_epsilon = λ a. ltb 0 a }

-- `rand` that counts.
abbrev pub counting : ℕ → ℕ
counting i = i

rows-live_points :
    live_points store 2 rows
    ≡ some (some (10 ∷ 10 ∷ []) ∷ some (90 ∷ 40 ∷ []) ∷ none ∷ some (12 ∷ 10 ∷ []) ∷ [])
unfolding live_points floats_of
rows-live_points = refl

rows-seeds : seeds counting store 2 rows 2 0 ≡ some ((10 ∷ 10 ∷ []) ∷ (90 ∷ 40 ∷ []) ∷ [])
unfolding seeds floats_of
rows-seeds = refl

kmeans_build_partitions_example :
    (cs : List Cluster) × (kmeans_build plain_floats plain_means counting true 6 store rows 2 2 5
        (get_distance plain_floats metric_euclidean)
      ≡ trained cs)
    × (length cs ≡ 2)
    × All CountsOffsets cs
    × Perm (concat (map (λ c. c.byte_offsets) cs)) (live_offsets rows)
kmeans_build_partitions_example =
    kmeans_build_partitions plain_floats plain_means (get_distance plain_floats metric_euclidean)
      counting store rows 2 2 5 _ _ (omega arith) (omega arith) rows-live_points rows-seeds

abbrev saved : Cluster
saved = record {
  centroid_vector = 10 ∷ 20 ∷ [];
  record_index = 0 ∷ 2 ∷ [];
  count = 2;
  capacity = 3;
  byte_offsets = 0 ∷ 80 ∷ [];
}

saved-CanSave : CanSave 2 saved
saved-CanSave = record {
  dimension_fits = refl;
  words_fit = (omega arith, (omega arith, tt));
  all_offsets = refl;
  offsets_fit = (omega arith, (omega arith, tt));
  count_fits = omega arith;
  capacity_fits = omega arith;
}

length-saved : length (index_bytes 2 (saved ∷ [])) ≤ 4096
unfolding cluster_chunks clusters_chunks u64s_bytes floats_bytes encode_le
length-saved = omega arith

load_ivf_index-save_ivf_index_example :
    (file : Option (List ℕ)) × (save_ivf_index true 4096 (saved ∷ []) 2 none ≡ some (success, file))
    × (load_ivf_index granting file ≡ index (map without_indices (saved ∷ [])) 2)
load_ivf_index-save_ivf_index_example =
    load_ivf_index-save_ivf_index granting 4096 2 (saved ∷ []) none (λ m. refl) (saved-CanSave, tt)
      (omega arith) (omega arith) length-saved
