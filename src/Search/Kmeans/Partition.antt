-- ===== src/Search/Kmeans/Partition.antt =====
-- src/search/kmeans.c: how the training shares the records out among the clusters.
use mathlib.Core.List.{Perm}
use mathlib.Core.List.Perm
use vecdb.Prelude.{
  ℕ, zero, suc, ◌+◌, ◌%◌, ◌<◌, ◌≡◌, refl, sym, ap, ap₂, ◌∙◌, subst, arith, List, [], ◌∷◌, ◌++◌,
}
use vecdb.Prelude.{Option, none, some, Bool, true, false, if◌then◌else◌, inl, inr, ◌⊎◌}
use vecdb.Prelude.{length, get_or, map, concat, append_assoc, length-append, All, ne→==}
use vecdb.Floats.{Floats}
use vecdb.Distance.{DistanceFunc}
use vecdb.Storage.Types.{Storage, Record, floats_of}
use vecdb.Search.Ivf.{Cluster}
use vecdb.Search.Kmeans.{MeanFloats, Point, and_point, live_points, and_seed, seeds, no_record}
use vecdb.Search.Kmeans.{offsets_of, with_offsets, trained, kmeans_build}
use vecdb.Search.Kmeans.Rounds.{live_indices, kmeans_loop_lem}

-- The offsets of the records that are not deleted.
unfoldable pub live_offsets : List Record → List ℕ
live_offsets [] = []
live_offsets (r ∷ more) =
    let rest = live_offsets more in if r.is_deleted then rest else r.byte_offset ∷ rest

offsets_of-map :
    (records : List Record) (ids : List ℕ)
    → offsets_of records ids ≡ map (λ i. (get_or records i no_record).byte_offset) ids
unfolding offsets_of
offsets_of-map records [] = refl
offsets_of-map records (i ∷ ids) =
    ap (λ l. (get_or records i no_record).byte_offset ∷ l) (offsets_of-map records ids)

offsets_of-append :
    (records : List Record) (xs ys : List ℕ)
    → offsets_of records (xs ++ ys) ≡ offsets_of records xs ++ offsets_of records ys
unfolding offsets_of
offsets_of-append records [] ys = refl
offsets_of-append records (x ∷ xs) ys =
    ap (λ l. (get_or records x no_record).byte_offset ∷ l) (offsets_of-append records xs ys)

offsets_of-perm :
    (records : List Record) {xs ys : List ℕ}
    → Perm xs ys
    → Perm (offsets_of records xs) (offsets_of records ys)
offsets_of-perm records {xs} {ys} p =
    subst (λ l. Perm l (offsets_of records ys)) (sym (offsets_of-map records xs))
      (subst (Perm (map (λ i. (get_or records i no_record).byte_offset) xs))
        (sym (offsets_of-map records ys))
        (Perm.map (λ i. (get_or records i no_record).byte_offset) p))

get_or-append :
    (front rest : List Record) (r d : Record) → get_or (front ++ (r ∷ rest)) (length front) d ≡ r
get_or-append [] rest r d = refl
get_or-append (x ∷ front) rest r d = get_or-append front rest r d

and_point-some :
    (p : Point) (o : Option (List Point)) (ps : List Point)
    → and_point p o ≡ some ps
    → (qs : List Point) × (o ≡ some qs) × (ps ≡ p ∷ qs)
and_point-some p none ps h = cc
and_point-some p (some qs) ps h = (qs, refl, cc)

-- What a record adds to the points.
live_points-cases :
    (s : Storage) (dimension : ℕ) (r : Record) (rest : List Record) (ps : List Point)
    → live_points s dimension (r ∷ rest) ≡ some ps
    → (qs : List Point) × (live_points s dimension rest ≡ some qs)
      × (((r.is_deleted ≡ true) × (ps ≡ none ∷ qs))
          ⊎ ((ws : List ℕ) × (r.is_deleted ≡ false) × (ps ≡ some ws ∷ qs)))
unfolding live_points
live_points-cases s dimension r rest ps h = of_flag r.is_deleted refl h
  where
    of_floats :
        r.is_deleted ≡ false
        → (o : Option (List ℕ))
        → (elim o [ none ↦ none | some ws ↦ and_point (some ws) (live_points s dimension rest) ])
          ≡ some ps
        → (qs : List Point) × (live_points s dimension rest ≡ some qs)
          × (((r.is_deleted ≡ true) × (ps ≡ none ∷ qs))
              ⊎ ((ws : List ℕ) × (r.is_deleted ≡ false) × (ps ≡ some ws ∷ qs)))
    of_floats d none e = cc
    of_floats d (some ws) e =
        let found = and_point-some (some ws) (live_points s dimension rest) ps e in
        (found.0, found.1, inr (ws, d, found.2))

    of_flag :
        (b : Bool)
        → r.is_deleted ≡ b
        → (elim b [
          | true ↦ and_point none (live_points s dimension rest)
          | false ↦ (elim (floats_of s dimension r.vector) [
            | none ↦ none
            | some ws ↦ and_point (some ws) (live_points s dimension rest)
          ])
        ])
          ≡ some ps
        → (qs : List Point) × (live_points s dimension rest ≡ some qs)
          × (((r.is_deleted ≡ true) × (ps ≡ none ∷ qs))
              ⊎ ((ws : List ℕ) × (r.is_deleted ≡ false) × (ps ≡ some ws ∷ qs)))
    of_flag true d e =
        let found = and_point-some none (live_points s dimension rest) ps e in
        (found.0, found.1, inl (d, found.2))
    of_flag false d e = of_floats d (floats_of s dimension r.vector) e

-- The offsets of what is left of the records behind `front`.
offsets_of-live_indices :
    (s : Storage) (dimension : ℕ) (front rest : List Record) (ps : List Point)
    → live_points s dimension rest ≡ some ps
    → offsets_of (front ++ rest) (live_indices ps (length front)) ≡ live_offsets rest
unfolding live_points live_offsets live_indices offsets_of
offsets_of-live_indices s dimension front [] [] h = refl
offsets_of-live_indices s dimension front [] (p ∷ ps) h = cc
offsets_of-live_indices s dimension front (r ∷ rest) ps h =
    by_record (live_points-cases s dimension r rest ps h)
      (offsets_of-live_indices s dimension (front ++ (r ∷ [])) rest)
  where
    step :
        {b : Bool}
        → r.is_deleted ≡ b
        → live_offsets (r ∷ rest)
          ≡ (if b then live_offsets rest else r.byte_offset ∷ live_offsets rest)
    step d = ap (λ b. if b then live_offsets rest else r.byte_offset ∷ live_offsets rest) d

    at_next :
        (qs : List Point)
        → offsets_of (front ++ (r ∷ []) ++ rest) (live_indices qs (length (front ++ (r ∷ []))))
          ≡ live_offsets rest
        → offsets_of (front ++ (r ∷ rest)) (live_indices qs (length front + 1)) ≡ live_offsets rest
    at_next qs e = rw (← length-append front (r ∷ []), ← append_assoc front (r ∷ []) rest) e

    by_record :
        (qs : List Point) × (live_points s dimension rest ≡ some qs)
          × (((r.is_deleted ≡ true) × (ps ≡ none ∷ qs))
              ⊎ ((ws : List ℕ) × (r.is_deleted ≡ false) × (ps ≡ some ws ∷ qs)))
        → ((qs : List Point)
            → live_points s dimension rest ≡ some qs
            → offsets_of (front ++ (r ∷ []) ++ rest) (live_indices qs (length (front ++ (r ∷ []))))
              ≡ live_offsets rest)
        → offsets_of (front ++ (r ∷ rest)) (live_indices ps (length front))
          ≡ live_offsets (r ∷ rest)
    by_record (qs, found, inl (d, e)) tail =
        subst
          (λ l.
            offsets_of (front ++ (r ∷ rest)) (live_indices l (length front))
            ≡ live_offsets (r ∷ rest))
          (sym e) (at_next qs (tail qs found) ∙ sym (step d))
    by_record (qs, found, inr (ws, d, e)) tail =
        subst
          (λ l.
            offsets_of (front ++ (r ∷ rest)) (live_indices l (length front))
            ≡ live_offsets (r ∷ rest))
          (sym e)
          (ap₂ (λ o l. o ∷ l) (ap (λ x. x.byte_offset) (get_or-append front rest r no_record))
              (at_next qs (tail qs found))
            ∙ sym (step d))

length-offsets_of :
    (records : List Record) (ids : List ℕ) → length (offsets_of records ids) ≡ length ids
unfolding offsets_of
length-offsets_of records [] = refl
length-offsets_of records (i ∷ ids) = ap suc (length-offsets_of records ids)

-- The count of a cluster is that of its offsets.
unfoldable pub CountsOffsets : Cluster → Type 0
CountsOffsets c = c.count ≡ length c.byte_offsets

with_offsets_lem :
    (records : List Record) (final lists : List (List ℕ))
    → length final ≡ length lists
    → (length (with_offsets records final lists) ≡ length final)
      × All CountsOffsets (with_offsets records final lists)
      × (concat (map (λ c. c.byte_offsets) (with_offsets records final lists))
          ≡ offsets_of records (concat lists))
unfolding with_offsets CountsOffsets offsets_of
with_offsets_lem records [] [] e = (refl, tt, refl)
with_offsets_lem records [] (ids ∷ lists) e = absurd (omega arith)
with_offsets_lem records (c ∷ final) [] e = absurd (omega arith)
with_offsets_lem records (c ∷ final) (ids ∷ lists) e =
    let rest = with_offsets_lem records final lists (omega arith) in
    (
      ap suc rest.0,
      (sym (length-offsets_of records ids), rest.1),
      ap (λ l. offsets_of records ids ++ l) rest.2
          ∙ sym (offsets_of-append records ids (concat lists)),
    )

and_seed-some :
    (c : List ℕ) (o : Option (List (List ℕ))) (cs : List (List ℕ))
    → and_seed c o ≡ some cs
    → (rest : List (List ℕ)) × (o ≡ some rest) × (cs ≡ c ∷ rest)
and_seed-some c none cs h = cc
and_seed-some c (some rest) cs h = (rest, refl, cc)

length-seeds :
    (rand : ℕ → ℕ) (s : Storage) (dimension : ℕ) (records : List Record) (k i : ℕ)
    (cs : List (List ℕ))
    → seeds rand s dimension records k i ≡ some cs
    → length cs ≡ k
unfolding seeds
length-seeds rand s dimension records zero i [] h = refl
length-seeds rand s dimension records zero i (c ∷ cs) h = cc
length-seeds rand s dimension records (suc k) i cs h =
    of_floats (floats_of s dimension (get_or records (rand i % length records) no_record).vector) h
      (length-seeds rand s dimension records k (i + 1))
  where
    of_floats :
        (o : Option (List ℕ))
        → (elim o [
          | none ↦ none
          | some ws ↦ and_seed ws (seeds rand s dimension records k (i + 1))
        ])
          ≡ some cs
        → ((rest : List (List ℕ))
            → seeds rand s dimension records k (i + 1) ≡ some rest
            → length rest ≡ k)
        → length cs ≡ suc k
    of_floats none e tail = cc
    of_floats (some ws) e tail =
        let found = and_seed-some ws (seeds rand s dimension records k (i + 1)) cs e in
        rw found.2 (ap suc (tail found.0 found.1))

-- The training shares the records out. Where no allocation fails, there are a cluster and a record,
-- and every vector that is read can be, `max_iterations + 1` rounds end with `k` clusters; `count`
-- of each is the number of its offsets, and together the offsets are those of the records that are
-- not deleted, each once.
pub kmeans_build_partitions :
    (F : Floats) (M : MeanFloats) (cal_distance : DistanceFunc) (rand : ℕ → ℕ) (s : Storage)
    (records : List Record) (k dimension max_iterations : ℕ) (ps : List Point)
    (centroids : List (List ℕ))
    → 0 < k
    → 0 < length records
    → live_points s dimension records ≡ some ps
    → seeds rand s dimension records k 0 ≡ some centroids
    → (cs : List Cluster) × (kmeans_build F M rand true
          (max_iterations + 1)
          s
          records
          k
          dimension
          max_iterations
          cal_distance
        ≡ trained cs)
      × (length cs ≡ k)
      × All CountsOffsets cs
      × Perm (concat (map (λ c. c.byte_offsets) cs)) (live_offsets records)
unfolding kmeans_build
kmeans_build_partitions F M cal_distance rand s records k dimension max_iterations ps centroids
      clusters some_record h_points h_seeds =
    let rounds =
      kmeans_loop_lem F M cal_distance dimension (max_iterations + 1) 0 max_iterations ps centroids
        (omega arith) (omega arith) (omega (arith, length_k)) in
    let filled = with_offsets_lem records rounds.0 rounds.1 (rounds.3 ∙ sym rounds.4) in
    (
      with_offsets records rounds.0 rounds.1,
      rw
          (
            ne→== k 0 (omega arith),
            ne→== (length records) 0 (omega arith),
            h_points,
            h_seeds,
            rounds.2,
          )
          refl,
      filled.0 ∙ rounds.3 ∙ length_k,
      filled.1,
      rw filled.2 (
          Perm.trans (offsets_of-perm records rounds.5)
            (rw (offsets_of-live_indices s dimension [] records ps h_points) Perm.rfl)),
    )
  where
    length_k : length centroids ≡ k
    length_k = length-seeds rand s dimension records k 0 centroids h_seeds
