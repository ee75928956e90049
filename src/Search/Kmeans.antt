-- ===== src/Search/Kmeans.antt =====
-- src/search/kmeans.c: `kmeans_build`, the training of the index.
pub mod Rounds
pub mod Partition
use vecdb.Prelude.{
  ℕ, zero, suc, ◌+◌, ◌%◌, List, [], ◌∷◌, ◌++◌, Option, none, some, Bool, true, false, ◌&&◌, ◌||◌,
}
use vecdb.Prelude.{if◌then◌else◌, ◌==◌, ltb, not, length, get_or, get_elem?, set, replicate, map}
use vecdb.Floats.{Floats}
use vecdb.Distance.{DistanceFunc}
use vecdb.Storage.Types.{Storage, Record, null, floats_of}
use vecdb.Search.Ivf.{Cluster}

-- The operations on `float` that only the training uses: a `uint64_t` made a `float`, the sign, and
-- the test against 0.000001, which is made in `double`.
pub record MeanFloats : Type 0 where
  pub of_count : ℕ → ℕ
  pub negate : ℕ → ℕ
  pub above_epsilon : ℕ → Bool

-- What the training reads of the records: the floats of each that is not deleted.
abbrev pub Point : Type 0
Point = Option (List ℕ)

abbrev pub and_point : Point → Option (List Point) → Option (List Point)
and_point p none = none
and_point p (some ps) = some (p ∷ ps)

-- `none` is a bad vector pointer.
unfoldable pub live_points : Storage → ℕ → List Record → Option (List Point)
live_points s dimension [] = some []
live_points s dimension (r ∷ more) = elim r.is_deleted [
  | true ↦ and_point none (live_points s dimension more)
  | false ↦ (elim (floats_of s dimension r.vector) [
    | none ↦ none
    | some ws ↦ and_point (some ws) (live_points s dimension more)
  ])
]

abbrev pub no_record : Record
no_record = record {
  id = 0;
  vector = null;
  metadata = none;
  is_deleted = false;
  byte_offset = 0;
  is_mmap = false;
}

abbrev pub and_seed : List ℕ → Option (List (List ℕ)) → Option (List (List ℕ))
and_seed c none = none
and_seed c (some cs) = some (c ∷ cs)

-- The first centroids: the vectors of `k` records that `rand` picks, deleted ones included. `rand i` is
-- the number that its call in round `i` returns.
unfoldable pub seeds : (ℕ → ℕ) → Storage → ℕ → List Record → ℕ → ℕ → Option (List (List ℕ))
seeds rand s dimension records zero i = some []
seeds rand s dimension records (suc k) i =
    elim (floats_of s dimension (get_or records (rand i % length records) no_record).vector) [
      | none ↦ none
      | some ws ↦ and_seed ws (seeds rand s dimension records k (i + 1))
    ]

-- `record_index` of a cluster with one more entry.
unfoldable pub put : List (List ℕ) → ℕ → ℕ → List (List ℕ)
put lists best_cluster i = set lists best_cluster (get_or lists best_cluster [] ++ (i ∷ []))

-- The floats of the record at an index.
unfoldable pub point_at : List Point → ℕ → List ℕ
point_at points i = elim (get_elem? points i) [ none ↦ [] | some none ↦ [] | some (some ws) ↦ ws ]

module _ (F : Floats) (M : MeanFloats) (cal_distance : DistanceFunc) (dimension : ℕ) where
  -- The loop over the centroids, the first of which has the number `j`: the number of the nearest.
  unfoldable pub best_cluster : List (List ℕ) → ℕ → ℕ → ℕ → List ℕ → ℕ
  best_cluster [] j dis best vector = best
  best_cluster (c ∷ more) j dis best vector =
      let temp = cal_distance dimension c vector in
      best_cluster more (j + 1) (if F.lt temp dis then temp else dis)
        (if F.lt temp dis then j else best) vector

  -- The loop over the records, the first of which has the index `i`.
  unfoldable pub assign : List (List ℕ) → List Point → ℕ → List (List ℕ) → List (List ℕ)
  unfolding put
  assign centroids [] i lists = lists
  assign centroids (none ∷ more) i lists = assign centroids more (i + 1) lists
  assign centroids (some vector ∷ more) i lists =
      assign centroids more (i + 1) (put lists (best_cluster centroids 0 F.far 0 vector) i)

  -- `cluster_sum[d] += vector[d]` for each `d`.
  unfoldable pub add_vector : List ℕ → List ℕ → List ℕ
  add_vector [] vector = []
  add_vector (a ∷ sum) [] = a ∷ sum
  add_vector (a ∷ sum) (b ∷ vector) = F.add a b ∷ add_vector sum vector

  unfoldable pub cluster_sum : List Point → List ℕ → List ℕ → List ℕ
  unfolding add_vector point_at
  cluster_sum points [] sum = sum
  cluster_sum points (i ∷ more) sum = cluster_sum points more (add_vector sum (point_at points i))

  -- A centroid is the mean of its records' vectors; that of an empty cluster stays.
  unfoldable pub centroid : List Point → List ℕ → List ℕ → List ℕ
  unfolding cluster_sum
  centroid points old ids =
      if ltb 0 (length ids)
      then map (λ x. F.div x (M.of_count (length ids)))
          (cluster_sum points ids (replicate dimension F.zero_f))
      else old

  unfoldable pub centroids_of : List Point → List (List ℕ) → List (List ℕ) → List (List ℕ)
  unfolding centroid
  centroids_of points [] lists = []
  centroids_of points (c ∷ more) [] = c ∷ more
  centroids_of points (c ∷ more) (ids ∷ lists) =
      centroid points c ids ∷ centroids_of points more lists

  -- The comparison of a coordinate with its old value.
  unfoldable pub moved_by : ℕ → ℕ → Bool
  moved_by old new =
      let diff = F.sub old new in
      M.above_epsilon (if F.lt diff F.zero_f then M.negate diff else diff)

  unfoldable pub vector_moved : List ℕ → List ℕ → Bool
  unfolding moved_by
  vector_moved (a ∷ old) (b ∷ new) = moved_by a b || vector_moved old new
  vector_moved old new = false

  unfoldable pub any_moved : List (List ℕ) → List (List ℕ) → Bool
  unfolding vector_moved
  any_moved (a ∷ old) (b ∷ new) = vector_moved a b || any_moved old new
  any_moved old new = false

  -- The rounds from `assign:` on, `ittrate` of them being done. `old_centroids` are always those that a
  -- round begins with. `none`: the rounds given are used up.
  unfoldable pub kmeans_loop :
      ℕ → ℕ → ℕ → List Point → List (List ℕ) → Option (List (List ℕ) × List (List ℕ))
  unfolding assign centroids_of any_moved
  kmeans_loop zero ittrate max_iterations points old_centroids = none
  kmeans_loop (suc fuel) ittrate max_iterations points old_centroids =
      let lists = assign old_centroids points 0 (replicate (length old_centroids) []) in
      let centroids = centroids_of points old_centroids lists in
      let again = kmeans_loop fuel (ittrate + 1) max_iterations points centroids in
      if any_moved old_centroids centroids && ltb (ittrate + 1) max_iterations
      then again
      else some (centroids, lists)

-- `byte_offsets` of a cluster, from the indices of its records.
unfoldable pub offsets_of : List Record → List ℕ → List ℕ
offsets_of records [] = []
offsets_of records (ram_idx ∷ more) =
    (get_or records ram_idx no_record).byte_offset ∷ offsets_of records more

-- The clusters once `byte_offsets` is filled in.
unfoldable pub with_offsets : List Record → List (List ℕ) → List (List ℕ) → List Cluster
unfolding offsets_of
with_offsets records [] lists = []
with_offsets records (c ∷ centroids) [] = []
with_offsets records (c ∷ centroids) (ids ∷ lists) =
    record {
      centroid_vector = c;
      record_index = ids;
      count = length ids;
      capacity = length records;
      byte_offsets = offsets_of records ids;
    }
    ∷ with_offsets records centroids lists

-- The end of a training; `running`: the rounds given are used up.
pub data Trained : Type 0 where
  trained : List Cluster → Trained
  running : Trained
  undefined : Trained

-- `kmeans_build`, with `fuel` rounds. No allocation is checked; without a cluster the code writes past
-- an empty array, and without a record it divides by zero.
unfoldable pub kmeans_build :
    Floats
    → MeanFloats
    → (ℕ → ℕ)
    → Bool
    → ℕ
    → Storage
    → List Record
    → ℕ
    → ℕ
    → ℕ
    → DistanceFunc
    → Trained
unfolding live_points seeds kmeans_loop with_offsets
kmeans_build F M rand allocates fuel s records k dimension max_iterations cal_distance =
    if allocates && not (k == 0) && not (length records == 0)
    then (elim (live_points s dimension records) [
      | none ↦ undefined
      | some points ↦ (elim (seeds rand s dimension records k 0) [
        | none ↦ undefined
        | some centroids ↦
            (elim (kmeans_loop F M cal_distance dimension fuel 0 max_iterations points centroids) [
              | none ↦ running
              | some (final, lists) ↦ trained (with_offsets records final lists)
            ])
      ])
    ])
    else undefined
