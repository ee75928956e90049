-- ===== src/Search/Ivf.antt =====
-- include/search/kmeans.h and src/search/kmeans.c: `ivf_search`.
use vecdb.Prelude.{ℕ, zero, suc, ◌+◌, ◌-◌, ◌*◌, ◌%◌, List, [], ◌∷◌, ◌++◌, Option, none, some}
use vecdb.Prelude.{
  ◌&&◌, ◌||◌, if◌then◌else◌, ◌==◌, leb, ltb, length, take, drop, get_or, set, replicate,
}
use vecdb.Prelude.Bytes.{u64_mod}
use vecdb.Floats.{Floats}
use vecdb.Distance.{DistanceFunc}
use vecdb.Storage.Types.{Env}

-- `cluster_t`. `record_index` and `byte_offsets` are what stands in the two arrays, of which `count`
-- entries are in use.
pub record Cluster : Type 0 where
  pub centroid_vector : List ℕ
  pub record_index : List ℕ
  pub count : ℕ
  pub capacity : ℕ
  pub byte_offsets : List ℕ

-- `cluster_dist_t`
pub record ClusterDist : Type 0 where
  pub dis : ℕ
  pub cluster_idx : ℕ

module _ (F : Floats) where
  -- A probe that has no cluster yet: 1e30, and the index 0.
  abbrev pub no_cluster : ClusterDist
  no_cluster = record { dis = F.far; cluster_idx = 0 }

  -- `best_clusters[i]`
  abbrev pub probe : List ClusterDist → ℕ → ClusterDist
  probe best i = get_or best i no_cluster

  -- The inner loop from `insert_pos` on, which moves the probes that are farther one place on, and the
  -- two assignments behind it.
  unfoldable pub place_cluster : ℕ → List ClusterDist → ClusterDist → List ClusterDist
  place_cluster zero best new = set best 0 new
  place_cluster (suc i) best new =
      let rest = place_cluster i (set best (suc i) (probe best i)) new in
      if F.lt new.dis (probe best i).dis then rest else set best (suc i) new

  module _ (calc_distance : DistanceFunc) (dimension nprobe : ℕ) (query_vector : List ℕ) where
    -- The loop over the clusters, of which the first has the number `i`.
    unfoldable pub probe_loop : ℕ → List Cluster → List ClusterDist → List ClusterDist
    unfolding place_cluster
    probe_loop i [] best = best
    probe_loop i (c ∷ more) best =
        let tem_dis = calc_distance dimension c.centroid_vector query_vector in
        let placed = place_cluster (nprobe - 1) best (record { dis = tem_dis; cluster_idx = i }) in
        let best' = if F.lt tem_dis (probe best (nprobe - 1)).dis then placed else best in
        probe_loop (i + 1) more best'

-- The offsets that `memcpy` takes from one cluster; `none` is a read past the clusters or the array.
unfoldable pub cluster_offsets : List Cluster → ℕ → Option (List ℕ)
cluster_offsets clusters c_idx = elim (drop c_idx clusters) [
  | [] ↦ none
  | c ∷ more ↦
      if leb c.count (length c.byte_offsets) then some (take c.count c.byte_offsets) else none
]

abbrev pub join : Option (List ℕ) → Option (List ℕ) → Option (List ℕ)
join none rest = none
join (some ids) none = none
join (some ids) (some rest) = some (ids ++ rest)

-- The last loop: the offsets of the probed clusters, in the order of the probes.
unfoldable pub fetch_ids : List Cluster → List ClusterDist → Option (List ℕ)
unfolding cluster_offsets
fetch_ids clusters [] = some []
fetch_ids clusters (b ∷ more) =
    join (cluster_offsets clusters b.cluster_idx) (fetch_ids clusters more)

-- `ivf_search`: `ids` with its `count`; `none` is undefined behaviour. No allocation is checked, and
-- without a probe the code reads in front of its array.
unfoldable pub ivf_search :
    Floats → Env → List Cluster → List ℕ → ℕ → ℕ → DistanceFunc → Option (List ℕ)
unfolding probe_loop fetch_ids
ivf_search F env cluster query_vector nprobe dimension calc_distance =
    let best =
      probe_loop F calc_distance dimension nprobe query_vector 0 cluster
        (replicate nprobe (no_cluster F)) in
    if env.malloc (16 * nprobe % u64_mod) && env.malloc 16
    then (if nprobe == 0 && ltb 0 (length cluster) then none else (elim (fetch_ids cluster best) [
      | none ↦ none
      | some ids ↦
          if length ids == 0 || env.malloc (8 * length ids % u64_mod) then some ids else none
    ]))
    else none
