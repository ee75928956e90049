-- ===== src/Storage/Index/Clusters.antt =====
-- src/storage.c: a cluster that is written and read again.
use native.Mathlib.Nat.{mod-eq_of_lt}
use vecdb.Prelude.{ℕ, suc, ◌*◌, ◌%◌, ◌≤◌, ◌<◌, ◌≡◌, refl, sym, ap, ◌∙◌, arith, List, [], ◌∷◌, ◌++◌}
use vecdb.Prelude.{true, suc-==-zero, le→leb, ge→ltb}
use vecdb.Prelude.{length, drop, concat, map, min, All, length-append, append-nil, append_assoc}
use vecdb.Prelude.{take-length, drop-append, ap₂, concat-append, drop-drop, subst}
use vecdb.Prelude.Bytes.{
  u64_mod, u64_bytes, u64_at, u64_at-u64_bytes, floats_bytes, floats_at, IsWord,
}
use vecdb.Prelude.Bytes.{length-encode_le, length-floats_bytes, floats_at-floats_bytes}
use vecdb.Storage.Types.{Env}
use vecdb.Search.Ivf.{Cluster}
use vecdb.Storage.Index.{u64s_bytes, u64s_at, cluster_chunks, clusters_chunks, can_read}
use vecdb.Storage.Index.{got, block_holds, read_offsets, read_cluster, index, and_cluster}
use vecdb.Storage.Index.{load_clusters}

abbrev pub IsU64 : ℕ → Type 0
IsU64 v = v < u64_mod

-- A cluster as `kmeans_build` makes it, whose numbers fit their fields.
pub record CanSave (dimension : ℕ) (c : Cluster) : Type 0 where
  pub dimension_fits : length c.centroid_vector ≡ dimension
  pub words_fit : All IsWord c.centroid_vector
  pub all_offsets : length c.byte_offsets ≡ c.count
  pub offsets_fit : All IsU64 c.byte_offsets
  pub count_fits : 8 * c.count < u64_mod
  pub capacity_fits : c.capacity < u64_mod

-- A cluster without the indices of its records, which are not saved.
abbrev pub without_indices : Cluster → Cluster
without_indices c = record c { record_index = [] }

length-u64s_bytes : (vs : List ℕ) → length (u64s_bytes vs) ≡ 8 * length vs
unfolding u64s_bytes
length-u64s_bytes [] = omega arith
length-u64s_bytes (v ∷ vs) =
    omega (
      arith,
      length-append (u64_bytes v) (u64s_bytes vs),
      length-encode_le 8 v,
      length-u64s_bytes vs,
    )

u64s_at-u64s_bytes :
    (vs rest : List ℕ) → All IsU64 vs → u64s_at (length vs) (u64s_bytes vs ++ rest) ≡ vs
unfolding u64s_at u64s_bytes
u64s_at-u64s_bytes [] rest h = refl
u64s_at-u64s_bytes (v ∷ vs) rest h = rw (append_assoc (u64_bytes v) (u64s_bytes vs) rest) (
    ap₂ ◌∷◌ (u64_at-u64_bytes v _ h.0) (
      ap (u64s_at (length vs)) (drop-append 8 (u64_bytes v) _ (length-encode_le 8 v))
      ∙ u64s_at-u64s_bytes vs rest h.1))

block_holds_lem :
    (env : Env) (size n : ℕ) (bytes : List ℕ)
    → ((m : ℕ) → env.malloc m ≡ true)
    → size * n < u64_mod
    → block_holds env size n bytes ≡ true
unfolding block_holds
block_holds_lem env size n bytes memory small = rw (memory (size * n % u64_mod)) (
    le→leb (min (size * n) (length bytes)) (size * n % u64_mod)
      (rw (mod-eq_of_lt small) (omega arith)))

module _ (env : Env) (memory : (m : ℕ) → env.malloc m ≡ true) where
  read_offsets_lem :
      (offsets : List ℕ) (capacity : ℕ) (centroid_vector rest : List ℕ)
      → All IsU64 offsets
      → 8 * length offsets < u64_mod
      → read_offsets env (length offsets) capacity centroid_vector (u64s_bytes offsets ++ rest)
        ≡ got
            (record {
              centroid_vector = centroid_vector;
              record_index = [];
              count = length offsets;
              capacity = capacity;
              byte_offsets = offsets;
            })
            rest
  unfolding read_offsets
  read_offsets_lem [] capacity centroid_vector rest fit small = unfold u64s_bytes in refl
  read_offsets_lem (o ∷ os) capacity centroid_vector rest fit small =
      rw
        (
          suc-==-zero (length os),
          read_offsets,
          block_holds_lem env 8 (suc (length os)) (all ++ rest) memory small,
          ge→ltb (length (all ++ rest)) (8 * suc (length os)) enough,
        )
        (ap₂
          (λ vs r.
            got
              (record {
                centroid_vector = centroid_vector;
                record_index = [];
                count = suc (length os);
                capacity = capacity;
                byte_offsets = vs;
              })
              r)
          (u64s_at-u64s_bytes (o ∷ os) rest fit)
          (drop-append (8 * suc (length os)) all rest (length-u64s_bytes (o ∷ os))))
    where
      all : List ℕ
      all = u64s_bytes (o ∷ os)

      enough : 8 * suc (length os) ≤ length (all ++ rest)
      enough = omega (arith, length-append all rest, length-u64s_bytes (o ∷ os))

  -- The bytes of one cluster, with what stands behind them.
  concat-cluster_chunks :
      (dimension : ℕ) (c : Cluster) (rest : List ℕ)
      → CanSave dimension c
      → concat (cluster_chunks dimension c) ++ rest
        ≡ floats_bytes c.centroid_vector
          ++ (u64_bytes c.count ++ (u64_bytes c.capacity ++ (u64s_bytes c.byte_offsets ++ rest)))
  unfolding cluster_chunks
  concat-cluster_chunks dimension c rest can =
      rw
        (
          take-length dimension c.centroid_vector (omega (arith, can.dimension_fits)),
          take-length c.count c.byte_offsets (omega (arith, can.all_offsets)),
        )
        (simp (append_assoc, append-nil))

  read_cluster_lem :
      (dimension : ℕ) (c : Cluster) (rest : List ℕ)
      → CanSave dimension c
      → 4 * dimension < u64_mod
      → read_cluster env dimension (concat (cluster_chunks dimension c) ++ rest)
        ≡ got (without_indices c) rest
  unfolding read_cluster
  read_cluster_lem dimension c rest can small = rw (concat-cluster_chunks dimension c rest can) (
      rw
        (
          read_cluster,
          block_holds_lem env 4 dimension (floats_bytes c.centroid_vector ++ behind) memory small,
          ge→ltb (length (floats_bytes c.centroid_vector ++ behind)) (4 * dimension) enough,
          drop-append (4 * dimension) (floats_bytes c.centroid_vector) behind floats_size,
          ge→ltb (length behind) 16 behind_enough,
        )
        ((λ i. read_offsets env (count_back i) (capacity_back i) (floats_back i) (offsets_back i))
          ∙ subst
              (λ n.
                read_offsets env n c.capacity c.centroid_vector (u64s_bytes c.byte_offsets ++ rest)
                ≡ got (record (without_indices c) { count = n }) rest)
              can.all_offsets
              (read_offsets_lem c.byte_offsets c.capacity c.centroid_vector rest can.offsets_fit
                (omega (arith, can.all_offsets, can.count_fits)))))
    where
      numbers : List ℕ
      numbers = u64_bytes c.capacity ++ (u64s_bytes c.byte_offsets ++ rest)

      behind : List ℕ
      behind = u64_bytes c.count ++ numbers

      floats_size : length (floats_bytes c.centroid_vector) ≡ 4 * dimension
      floats_size = omega (arith, length-floats_bytes c.centroid_vector, can.dimension_fits)

      enough : 4 * dimension ≤ length (floats_bytes c.centroid_vector ++ behind)
      enough = omega (arith, floats_size, length-append (floats_bytes c.centroid_vector) behind)

      behind_enough : 16 ≤ length behind
      behind_enough = omega (
        arith,
        length-append (u64_bytes c.count) numbers,
        length-append (u64_bytes c.capacity) (u64s_bytes c.byte_offsets ++ rest),
        length-encode_le 8 c.count,
        length-encode_le 8 c.capacity,
      )

      count_back : u64_at behind ≡ c.count
      count_back = u64_at-u64_bytes c.count numbers (omega (arith, can.count_fits))

      at_numbers : drop 8 behind ≡ numbers
      at_numbers = drop-append 8 (u64_bytes c.count) numbers (length-encode_le 8 c.count)

      capacity_back : u64_at (drop 8 behind) ≡ c.capacity
      capacity_back = ap u64_at at_numbers ∙ u64_at-u64_bytes c.capacity _ can.capacity_fits

      floats_back :
          floats_at dimension (floats_bytes c.centroid_vector ++ behind) ≡ c.centroid_vector
      floats_back =
          subst (λ n. floats_at n (floats_bytes c.centroid_vector ++ behind) ≡ c.centroid_vector)
            can.dimension_fits (floats_at-floats_bytes c.centroid_vector behind can.words_fit)

      offsets_back : drop 16 behind ≡ u64s_bytes c.byte_offsets ++ rest
      offsets_back =
          sym (drop-drop 8 8 16 behind refl)
          ∙ ap (drop 8) at_numbers
          ∙ drop-append 8 (u64_bytes c.capacity) _ (length-encode_le 8 c.capacity)

  pub load_clusters_lem :
      (dimension : ℕ) (cs : List Cluster) (rest : List ℕ)
      → All (CanSave dimension) cs
      → 4 * dimension < u64_mod
      → load_clusters env dimension (length cs) (concat (clusters_chunks dimension cs) ++ rest)
        ≡ index (map without_indices cs) dimension
  unfolding load_clusters clusters_chunks
  load_clusters_lem dimension [] rest can small = refl
  load_clusters_lem dimension (c ∷ cs) rest can small =
      rw (split, load_clusters, read_cluster_lem dimension c _ can.0 small)
        (ap (and_cluster (without_indices c)) (load_clusters_lem dimension cs rest can.1 small))
    where
      split :
          concat (cluster_chunks dimension c ++ clusters_chunks dimension cs) ++ rest
          ≡ concat (cluster_chunks dimension c) ++ (concat (clusters_chunks dimension cs) ++ rest)
      split =
          ap (λ b. b ++ rest)
            (concat-append (cluster_chunks dimension c) (clusters_chunks dimension cs))
          ∙ append_assoc (concat (cluster_chunks dimension c)) _ rest

pub can_read_lem :
    (dimension : ℕ) (cs : List Cluster) → All (CanSave dimension) cs → can_read dimension cs ≡ true
unfolding can_read
can_read_lem dimension [] can = refl
can_read_lem dimension (c ∷ cs) can =
    ground (arith, can.0.dimension_fits, can.0.all_offsets, can_read_lem dimension cs can.1)
