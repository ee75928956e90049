-- ===== src/Search/Order.antt =====
-- The reference: candidates kept in ascending order of their distance, equal ones in order of arrival.
use vecdb.Prelude.{ℕ, zero, suc, ◌≡◌, refl, ap, arith, List, [], ◌∷◌}
use vecdb.Prelude.{
  true, false, if◌then◌else◌, length, take, replicate, All, take-take, All-take, inl, inr,
  Bool-cases,
}
use vecdb.Floats.{Floats, IsOrdered, lt_under, lt_turned}
use vecdb.Search.TopK.{SearchResult, empty_result}

module _ (F : Floats) where
  unfoldable pub ordered_insert : SearchResult → List SearchResult → List SearchResult
  ordered_insert new [] = new ∷ []
  ordered_insert new (x ∷ xs) =
      let rest = ordered_insert new xs in
      if F.lt new.calculated_distance x.calculated_distance then new ∷ x ∷ xs else x ∷ rest

  -- All candidates, in the order in which they come, into a list.
  unfoldable pub insert_all : List SearchResult → List SearchResult → List SearchResult
  insert_all [] out = out
  insert_all (new ∷ more) out = insert_all more (ordered_insert new out)

  -- The best `top_k` of the candidates, filled up with empty slots.
  unfoldable pub best : ℕ → List SearchResult → List SearchResult
  unfolding insert_all ordered_insert
  best top_k candidates = take top_k (insert_all candidates (replicate top_k (empty_result F)))

  -- Nothing later is nearer.
  abbrev pub NotBelow : ℕ → SearchResult → Type 0
  NotBelow d x = F.lt x.calculated_distance d ≡ false

  abbrev pub IsSorted : List SearchResult → Type 0
  IsSorted [] = Unit {0}
  IsSorted (x ∷ xs) = All (NotBelow x.calculated_distance) xs × IsSorted xs

  module _ (ordered : IsOrdered F) where
    NotBelow-All :
        (new x : SearchResult) (xs : List SearchResult)
        → F.lt new.calculated_distance x.calculated_distance ≡ true
        → All (NotBelow x.calculated_distance) xs
        → All (NotBelow new.calculated_distance) xs
    NotBelow-All new x [] h k = tt
    NotBelow-All new x (y ∷ ys) h k = (lt_under F ordered _ _ _ h k.0, NotBelow-All new x ys h k.1)

    ordered_insert-NotBelow :
        (d : ℕ) (new : SearchResult) (xs : List SearchResult)
        → NotBelow d new
        → All (NotBelow d) xs
        → All (NotBelow d) (ordered_insert new xs)
    unfolding ordered_insert
    ordered_insert-NotBelow d new [] h k = (h, tt)
    ordered_insert-NotBelow d new (x ∷ xs) h k = ground (arith, ordered_insert-NotBelow d new xs)

    pub ordered_insert-IsSorted :
        (new : SearchResult) (xs : List SearchResult)
        → IsSorted xs
        → IsSorted (ordered_insert new xs)
    unfolding ordered_insert
    ordered_insert-IsSorted new [] s = (tt, tt)
    ordered_insert-IsSorted new (x ∷ xs) s =
        elim (Bool-cases (F.lt new.calculated_distance x.calculated_distance)) [
          | inl h ↦ rw h ((lt_turned F ordered _ _ h, NotBelow-All new x xs h s.0), s)
          | inr h ↦ rw h (
            ordered_insert-NotBelow x.calculated_distance new xs h s.0,
            ordered_insert-IsSorted new xs s.1,
          )
        ]

    pub insert_all-IsSorted :
        (candidates out : List SearchResult) → IsSorted out → IsSorted (insert_all candidates out)
    unfolding insert_all
    insert_all-IsSorted [] out s = s
    insert_all-IsSorted (new ∷ more) out s =
        insert_all-IsSorted more (ordered_insert new out) (ordered_insert-IsSorted new out s)

  pub take-IsSorted : (n : ℕ) (xs : List SearchResult) → IsSorted xs → IsSorted (take n xs)
  take-IsSorted zero xs s = tt
  take-IsSorted (suc n) [] s = tt
  take-IsSorted (suc n) (x ∷ xs) s =
      (All-take (NotBelow x.calculated_distance) n xs s.0, take-IsSorted n xs s.1)

  pub length-ordered_insert :
      (new : SearchResult) (xs : List SearchResult)
      → length (ordered_insert new xs) ≡ suc (length xs)
  unfolding ordered_insert
  length-ordered_insert new [] = refl
  length-ordered_insert new (x ∷ xs) = ground (arith, length-ordered_insert new xs)

  pub ordered_insert-All :
      (P : SearchResult → Type 0) (new : SearchResult) (xs : List SearchResult)
      → P new
      → All P xs
      → All P (ordered_insert new xs)
  unfolding ordered_insert
  ordered_insert-All P new [] h k = (h, tt)
  ordered_insert-All P new (x ∷ xs) h k =
      elim (Bool-cases (F.lt new.calculated_distance x.calculated_distance)) [
        | inl l ↦ rw l (h, k)
        | inr l ↦ rw l (k.0, ordered_insert-All P new xs h k.1)
      ]

  -- The first `n` of an insertion depend on the first `n` only.
  pub take-ordered_insert :
      (n : ℕ) (new : SearchResult) (xs : List SearchResult)
      → take n (ordered_insert new (take n xs)) ≡ take n (ordered_insert new xs)
  unfolding ordered_insert
  take-ordered_insert zero new xs = refl
  take-ordered_insert (suc n) new [] = refl
  take-ordered_insert (suc n) new (x ∷ xs) =
      elim (Bool-cases (F.lt new.calculated_distance x.calculated_distance)) [
        | inl h ↦ rw h (ap (λ t. new ∷ t) (take-cons n x xs))
        | inr h ↦ rw h (ap (λ t. x ∷ t) (take-ordered_insert n new xs))
      ]
    where
      take-cons :
          (n : ℕ) (x : SearchResult) (xs : List SearchResult)
          → take n (x ∷ take n xs) ≡ take n (x ∷ xs)
      take-cons zero x xs = refl
      take-cons (suc n) x xs = ap (λ t. x ∷ t) (take-take n (suc n) xs (omega arith))
