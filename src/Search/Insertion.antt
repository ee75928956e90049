-- ===== src/Search/Insertion.antt =====
-- src/search/baseline-flat.c: the shifting insertion into the array beside the ordered insertion.
use vecdb.Prelude.{ℕ, zero, suc, ◌-◌, ◌≤◌, ◌<◌, ◌≡◌, refl, sym, ap, ◌∙◌, arith, List, [], ◌∷◌, ◌++◌}
use vecdb.Prelude.{true, false, length, take, drop, set, All, Bool-cases, inl, inr}
use vecdb.Prelude.{le-or-lt, ◌⊎◌, take-append, take-append_more, length-take, All-take}
use vecdb.Floats.{Floats, IsOrdered, lt_over}
use vecdb.Search.TopK.{SearchResult, TopK, slot, insert_index, shift_down}
use vecdb.Search.TopK.{insert_unbounded}
use vecdb.Search.Order.{ordered_insert, ordered_insert-All, IsSorted, NotBelow}
use vecdb.Search.Shift.{shift_down-slots, insert_at}

module _ (F : Floats) where
  abbrev dist : List SearchResult → ℕ → ℕ
  dist out i = (slot F out i).calculated_distance

  -- Where the scan from the right stops: at a slot that is farther, behind one that is not.
  insert_index_lem :
      (out : List SearchResult) (d i : ℕ)
      → F.lt d (dist out i) ≡ true
      → (insert_index F out d i ≤ i)
        × (F.lt d (dist out (insert_index F out d i)) ≡ true)
        × ((insert_index F out d i ≡ 0)
            ⊎ ((j : ℕ) × (insert_index F out d i ≡ suc j) × (F.lt d (dist out j) ≡ false)))
  unfolding insert_index
  insert_index_lem out d zero h = (omega arith, h, inl refl)
  insert_index_lem out d (suc i) h = elim (Bool-cases (F.lt d (dist out i))) [
    | inl nearer ↦
        let (le, at, behind) = insert_index_lem out d i nearer in
        rw nearer (omega arith, at, behind)
    | inr stop ↦ rw stop (omega arith, h, inr (i, refl, stop))
  ]

  -- Where all slots in front are not farther and the slot itself is, it is the place of the candidate.
  ordered_insert_at :
      (i : ℕ) (new : SearchResult) (out : List SearchResult)
      → i < length out
      → ((j : ℕ) → j < i → F.lt new.calculated_distance (dist out j) ≡ false)
      → F.lt new.calculated_distance (dist out i) ≡ true
      → ordered_insert F new out ≡ take i out ++ (new ∷ drop i out)
  unfolding ordered_insert
  ordered_insert_at i new [] h before at = absurd (omega arith)
  ordered_insert_at zero new (x ∷ out) h before at = rw at refl
  ordered_insert_at (suc i) new (x ∷ out) h before at = rw (before 0 (omega arith)) (
      ap (λ t. x ∷ t)
        (ordered_insert_at i new out (omega arith) (λ j l. before (suc j) (omega arith)) at))

  ordered_insert_last :
      (new : SearchResult) (out : List SearchResult)
      → ((j : ℕ) → j < length out → F.lt new.calculated_distance (dist out j) ≡ false)
      → ordered_insert F new out ≡ out ++ (new ∷ [])
  unfolding ordered_insert
  ordered_insert_last new [] before = refl
  ordered_insert_last new (x ∷ out) before =
      rw (before 0 (omega arith))
        (ap (λ t. x ∷ t) (ordered_insert_last new out (λ j l. before (suc j) (omega arith))))

  NotBelow-at :
      (d j : ℕ) (out : List SearchResult)
      → All (NotBelow F d) out
      → j < length out
      → F.lt (dist out j) d ≡ false
  NotBelow-at d j [] h l = absurd (omega arith)
  NotBelow-at d zero (x ∷ out) h l = h.0
  NotBelow-at d (suc j) (x ∷ out) h l = NotBelow-at d j out h.1 (omega arith)

  IsSorted-at :
      (i j : ℕ) (out : List SearchResult)
      → IsSorted F out
      → j < i
      → i < length out
      → F.lt (dist out i) (dist out j) ≡ false
  IsSorted-at i j [] s h l = absurd (omega arith)
  IsSorted-at zero j (x ∷ out) s h l = absurd (omega arith)
  IsSorted-at (suc i) zero (x ∷ out) s h l =
      NotBelow-at x.calculated_distance i out s.0 (omega arith)
  IsSorted-at (suc i) (suc j) (x ∷ out) s h l = IsSorted-at i j out s.1 (omega arith) (omega arith)

  module _ (ordered : IsOrdered F) where
    abbrev pub IsNumber : SearchResult → Type 0
    IsNumber x = ordered.is_nan x.calculated_distance ≡ false

    IsNumber-at :
        (i : ℕ) (out : List SearchResult)
        → All IsNumber out
        → i < length out
        → ordered.is_nan (dist out i) ≡ false
    IsNumber-at i [] h l = absurd (omega arith)
    IsNumber-at zero (x ∷ out) h l = h.0
    IsNumber-at (suc i) (x ∷ out) h l = IsNumber-at i out h.1 (omega arith)

    -- What is not nearer than one slot is not nearer than any in front of it.
    not_nearer_before :
        (d i j : ℕ) (out : List SearchResult)
        → IsSorted F out
        → All IsNumber out
        → i < length out
        → F.lt d (dist out i) ≡ false
        → j ≤ i
        → F.lt d (dist out j) ≡ false
    not_nearer_before d i j out s number l h le = elim (le-or-lt i j) [
      | inl ge ↦ let same : j ≡ i = omega arith in rw same h
      | inr lt ↦
          lt_over F ordered d (dist out j) (dist out i) h (IsSorted-at i j out s lt l)
            (IsNumber-at i out number l)
    ]

    -- The ordered insertion, cut, where the scan from the right stops.
    take-ordered_insert_at :
        (top_k : ℕ) (out : List SearchResult) (new : SearchResult)
        → 0 < top_k
        → length out ≡ top_k
        → IsSorted F out
        → All IsNumber out
        → F.lt new.calculated_distance (dist out (top_k - 1)) ≡ true
        → let index = insert_index F out new.calculated_distance (top_k - 1) in
          (index < top_k)
          × (take top_k (ordered_insert F new out)
              ≡ take index out ++ (new ∷ take (top_k - 1 - index) (drop index out)))
    take-ordered_insert_at top_k out new pos len s number nearer = (below, placed)
      where
        d : ℕ
        d = new.calculated_distance

        index : ℕ
        index = insert_index F out d (top_k - 1)

        stops :
            (index ≤ top_k - 1)
            × (F.lt d (dist out index) ≡ true)
            × ((index ≡ 0) ⊎ ((j : ℕ) × (index ≡ suc j) × (F.lt d (dist out j) ≡ false)))
        stops = insert_index_lem out d (top_k - 1) nearer

        below : index < top_k
        below = omega (arith, stops.0)

        before : (j : ℕ) → j < index → F.lt d (dist out j) ≡ false
        before j l = elim stops.2 [
          | inl none_before ↦ absurd (omega arith)
          | inr (i, e, stop) ↦
              not_nearer_before d i j out s number (omega (arith, below)) stop (omega arith)
        ]

        length_front : length (take index out) ≡ index
        length_front = omega (arith, length-take index out, below)

        rounds : top_k - length (take index out) ≡ suc (top_k - 1 - index)
        rounds = omega (arith, length_front, below)

        placed :
            take top_k (ordered_insert F new out)
            ≡ take index out ++ (new ∷ take (top_k - 1 - index) (drop index out))
        placed =
            ap (take top_k) (ordered_insert_at index new out (omega (arith, below)) before stops.1)
            ∙ take-append_more top_k (take index out) (new ∷ drop index out)
                (omega (arith, length_front, below))
            ∙ ap (λ n. take index out ++ take n (new ∷ drop index out)) rounds

    -- One candidate: the array is the ordered insertion, cut at its length.
    pub insert_unbounded_lem :
        (top_k : ℕ) (t : TopK) (new : SearchResult)
        → 0 < top_k
        → length t.out_results ≡ top_k
        → IsSorted F t.out_results
        → All IsNumber t.out_results
        → (insert_unbounded F top_k t new).out_results
          ≡ take top_k (ordered_insert F new t.out_results)
    unfolding insert_unbounded
    insert_unbounded_lem top_k t new pos len s number =
        elim (Bool-cases (F.lt new.calculated_distance (dist t.out_results (top_k - 1)))) [
          | inl nearer ↦ rw nearer (inside nearer)
          | inr stop ↦ rw stop (sym (outside stop))
        ]
      where
        out : List SearchResult
        out = t.out_results

        d : ℕ
        d = new.calculated_distance

        last : ℕ
        last = top_k - 1

        index : ℕ
        index = insert_index F out d last

        outside : F.lt d (dist out last) ≡ false → take top_k (ordered_insert F new out) ≡ out
        outside stop =
            ap (take top_k) (
              ordered_insert_last new out
                (λ j l. not_nearer_before d last j out s number (omega arith) stop (omega arith)))
            ∙ take-append top_k out (new ∷ []) len

        inside :
            F.lt d (dist out last) ≡ true
            → set (shift_down F (last - index) index t).out_results index new
              ≡ take top_k (ordered_insert F new out)
        inside nearer =
            ap (λ u. set u index new) (shift_down-slots F (last - index) index t)
            ∙ insert_at F index (last - index) new out (omega (arith, at.0))
            ∙ sym at.1
          where
            at :
                (index < top_k)
                × (take top_k (ordered_insert F new out)
                    ≡ take index out ++ (new ∷ take (top_k - 1 - index) (drop index out)))
            at = take-ordered_insert_at top_k out new pos len s number nearer

    -- The slots stay numbers: what is put in is below one.
    pub insert_unbounded-IsNumber :
        (top_k : ℕ) (t : TopK) (new : SearchResult)
        → 0 < top_k
        → length t.out_results ≡ top_k
        → IsSorted F t.out_results
        → All IsNumber t.out_results
        → All IsNumber (insert_unbounded F top_k t new).out_results
    insert_unbounded-IsNumber top_k t new pos len s number =
        elim (Bool-cases (F.lt new.calculated_distance (dist t.out_results (top_k - 1)))) [
          | inl nearer ↦ rw (insert_unbounded_lem top_k t new pos len s number) (
              All-take IsNumber top_k _ (
                ordered_insert-All F IsNumber new t.out_results (ordered.lt_number _ _ nearer)
                  number))
          | inr stop ↦ unfold insert_unbounded in rw stop number
        ]
