-- ===== src/Search/Kmeans/Rounds.antt =====
-- src/search/kmeans.c: the rounds of the training give every record to one cluster.
use mathlib.Core.List.{Perm, perm_middle}
use mathlib.Core.List.Perm
use vecdb.Prelude.{
  ℕ, zero, suc, ◌+◌, ◌≤◌, ◌<◌, ◌≡◌, refl, sym, ap, ◌∙◌, subst, arith, List, [], ◌∷◌, ◌++◌,
}
use vecdb.Prelude.{none, some, Bool, Bool-cases, true, false, ◌&&◌, if◌then◌else◌, ltb, inl, inr}
use vecdb.Prelude.{
  length, replicate, concat, length-set, append_assoc, append-nil, length-replicate,
}
use vecdb.Floats.{Floats}
use vecdb.Distance.{DistanceFunc}
use vecdb.Search.Kmeans.{MeanFloats, Point, put, best_cluster, assign}
use vecdb.Search.Kmeans.{centroids_of, kmeans_loop, any_moved}

-- The indices of the records that are not deleted, the first record having the index `i`.
unfoldable pub live_indices : List Point → ℕ → List ℕ
live_indices [] i = []
live_indices (none ∷ more) i = live_indices more (i + 1)
live_indices (some ws ∷ more) i = i ∷ live_indices more (i + 1)

length-put : (lists : List (List ℕ)) (b i : ℕ) → length (put lists b i) ≡ length lists
unfolding put
length-put lists b i = length-set lists b _

put-perm :
    (lists : List (List ℕ)) (b i : ℕ)
    → b < length lists
    → Perm (concat (put lists b i)) (i ∷ concat lists)
unfolding put
put-perm [] b i h = absurd (omega arith)
put-perm (ids ∷ lists) zero i h =
    subst (λ l. Perm l (i ∷ (ids ++ concat lists))) (sym (append_assoc ids (i ∷ []) (concat lists)))
      (perm_middle ids (concat lists))
put-perm (ids ∷ lists) (suc b) i h =
    Perm.trans (Perm.append_left ids (put-perm lists b i (omega arith)))
      (perm_middle ids (concat lists))

module _ (F : Floats) (M : MeanFloats) (cal_distance : DistanceFunc) (dimension : ℕ) where
  best_cluster-lt :
      (cs : List (List ℕ)) (j dis best n : ℕ) (vector : List ℕ)
      → best < n
      → j + length cs ≤ n
      → best_cluster F M cal_distance dimension cs j dis best vector < n
  unfolding best_cluster
  best_cluster-lt [] j dis best n vector h k = h
  best_cluster-lt (c ∷ cs) j dis best n vector h k =
      best_cluster-lt cs (j + 1) _ _ n vector (by_test (F.lt (cal_distance dimension c vector) dis))
        (omega arith)
    where
      by_test : (b : Bool) → (if b then j else best) < n
      by_test true = omega arith
      by_test false = h

  length-assign :
      (centroids : List (List ℕ)) (ps : List Point) (i : ℕ) (lists : List (List ℕ))
      → length (assign F M cal_distance dimension centroids ps i lists) ≡ length lists
  unfolding assign
  length-assign centroids [] i lists = refl
  length-assign centroids (none ∷ ps) i lists = length-assign centroids ps (i + 1) lists
  length-assign centroids (some v ∷ ps) i lists =
      length-assign centroids ps (i + 1) _ ∙ length-put lists _ i

  -- Every record that is not deleted goes to one cluster.
  assign-perm :
      (centroids : List (List ℕ)) (ps : List Point) (i : ℕ) (lists : List (List ℕ))
      → 0 < length lists
      → length lists ≡ length centroids
      → Perm
          (concat (assign F M cal_distance dimension centroids ps i lists))
          (concat lists ++ live_indices ps i)
  unfolding assign live_indices
  assign-perm centroids [] i lists pos e =
      subst (Perm (concat lists)) (sym (append-nil (concat lists))) Perm.rfl
  assign-perm centroids (none ∷ ps) i lists pos e = assign-perm centroids ps (i + 1) lists pos e
  assign-perm centroids (some v ∷ ps) i lists pos e =
      let b = best_cluster F M cal_distance dimension centroids 0 F.far 0 v in
      Perm.trans
        (assign-perm centroids ps (i + 1) (put lists b i) (omega (arith, length-put lists b i))
          (length-put lists b i ∙ e))
        (Perm.trans
          (Perm.append_right (live_indices ps (i + 1)) (
            put-perm lists b i
              (best_cluster-lt centroids 0 F.far 0 (length lists) v pos (omega arith))))
          (Perm.symm (perm_middle (concat lists) (live_indices ps (i + 1)))))

  length-centroids_of :
      (ps : List Point) (old lists : List (List ℕ))
      → length (centroids_of F M cal_distance dimension ps old lists) ≡ length old
  unfolding centroids_of
  length-centroids_of ps [] lists = refl
  length-centroids_of ps (c ∷ old) [] = refl
  length-centroids_of ps (c ∷ old) (ids ∷ lists) = ap suc (length-centroids_of ps old lists)

  concat_empty : (n : ℕ) → concat (replicate {A = List ℕ} n []) ≡ []
  concat_empty zero = refl
  concat_empty (suc n) = concat_empty n

  -- The rounds end, and what they end with.
  pub kmeans_loop_lem :
      (fuel ittrate max_iterations : ℕ) (ps : List Point) (old : List (List ℕ))
      → 0 < fuel
      → max_iterations < ittrate + fuel
      → 0 < length old
      → (final : List (List ℕ)) × (lists : List (List ℕ)) × (kmeans_loop F M cal_distance dimension
            fuel ittrate max_iterations ps old
          ≡ some (final, lists))
        × (length final ≡ length old)
        × (length lists ≡ length old)
        × Perm (concat lists) (live_indices ps 0)
  unfolding kmeans_loop
  kmeans_loop_lem zero ittrate max_iterations ps old some_fuel enough pos = absurd (omega arith)
  kmeans_loop_lem (suc fuel) ittrate max_iterations ps old some_fuel enough pos =
      elim (Bool-cases
        (any_moved F M cal_distance dimension old new && ltb (ittrate + 1) max_iterations)) [
          | inl h ↦
              (let rest =
                  kmeans_loop_lem fuel (ittrate + 1) max_iterations ps new
                    (omega (arith, in_time h)) (omega arith) (omega (arith, same)) in
                (rest.0, rest.1, rw h rest.2, rest.3 ∙ same, rest.4 ∙ same, rest.5))
          | inr h ↦ (
            new,
            lists,
            rw h refl,
            same,
            length-assign old ps 0 _ ∙ length-replicate (length old) [],
            all_assigned,
          )
        ]
    where
      lists : List (List ℕ)
      lists = assign F M cal_distance dimension old ps 0 (replicate (length old) [])

      new : List (List ℕ)
      new = centroids_of F M cal_distance dimension ps old lists

      same : length new ≡ length old
      same = length-centroids_of ps old lists

      in_time :
          (any_moved F M cal_distance dimension old new && ltb (ittrate + 1) max_iterations) ≡ true
          → ittrate + 1 < max_iterations
      in_time h = ground arith

      all_assigned : Perm (concat lists) (live_indices ps 0)
      all_assigned =
          subst (λ l. Perm (concat lists) (l ++ live_indices ps 0)) (concat_empty (length old))
            (assign-perm old ps 0 (replicate (length old) [])
              (omega (arith, length-replicate {A = List ℕ} (length old) []))
              (length-replicate (length old) []))
