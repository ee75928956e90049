-- ===== src/Search/Shift.antt =====
-- The shift of the result array: what stands where after it.
use vecdb.Prelude.{ℕ, zero, suc, ◌+◌, ◌-◌, ◌<◌, ◌≡◌, refl, ap, ap₂, ◌∙◌, arith, List, [], ◌∷◌, ◌++◌}
use vecdb.Prelude.{length, take, drop, set}
use vecdb.Prelude.{length-set, none, drop-length, append-nil}
use vecdb.Floats.{Floats}
use vecdb.Search.TopK.{SearchResult, TopK, slot, move_down, shift_down}

module _ (F : Floats) where
  -- One round of the shift on the slots alone; `i` is `j - 1`.
  move_slots : ℕ → ℕ → List SearchResult → List SearchResult
  move_slots j i out =
      let moved = slot F out i in set (set out j moved) i (record moved { metadata = none })

  pub shift_slots : ℕ → ℕ → List SearchResult → List SearchResult
  shift_slots zero i out = out
  shift_slots (suc n) i out = shift_slots n i (move_slots (i + suc n) (i + suc n - 1) out)

  pub shift_down-slots :
      (n i : ℕ) (t : TopK) → (shift_down F n i t).out_results ≡ shift_slots n i t.out_results
  unfolding shift_down shift_slots move_down move_slots
  shift_down-slots zero i t = refl
  shift_down-slots (suc n) i t = shift_down-slots n i (move_down F t (i + suc n))

  -- In front of the insertion index nothing moves.
  shift_slots-cons :
      (n i : ℕ) (x : SearchResult) (out : List SearchResult)
      → shift_slots n (suc i) (x ∷ out) ≡ x ∷ shift_slots n i out
  unfolding shift_slots move_slots
  shift_slots-cons zero i x out = refl
  shift_slots-cons (suc n) i x out =
      ap₂ (λ j k. shift_slots n (suc i) (move_slots j k (x ∷ out))) up down
      ∙ shift_slots-cons n i x (move_slots (i + suc n) (i + suc n - 1) out)
    where
      up : suc i + suc n ≡ suc (i + suc n)
      up = omega arith

      down : suc i + suc n - 1 ≡ suc (i + suc n - 1)
      down = omega arith

  length-move_slots : (j i : ℕ) (out : List SearchResult) → length (move_slots j i out) ≡ length out
  unfolding move_slots
  length-move_slots j i out = length-set (set out j _) i _ ∙ length-set out j _

  move_slots_split :
      (n : ℕ) (out : List SearchResult)
      → suc n < length out
      → take n (move_slots (suc n) n out) ++ drop (suc n) (move_slots (suc n) n out)
        ≡ take (suc n) out ++ drop (suc (suc n)) out
  unfolding move_slots
  move_slots_split n [] h = absurd (omega arith)
  move_slots_split n (a ∷ []) h = absurd (omega arith)
  move_slots_split zero (a ∷ b ∷ out) h = refl
  move_slots_split (suc n) (a ∷ b ∷ out) h =
      ap (λ t. a ∷ t) (move_slots_split n (b ∷ out) (omega arith))

  -- From the index on all slots move by one, and the last one of them is lost.
  shift_slots_lem :
      (n : ℕ) (new : SearchResult) (out : List SearchResult)
      → n < length out
      → set (shift_slots n 0 out) 0 new ≡ new ∷ (take n out ++ drop (suc n) out)
  unfolding shift_slots
  shift_slots_lem zero new [] h = absurd (omega arith)
  shift_slots_lem zero new (x ∷ out) h = refl
  shift_slots_lem (suc n) new out h =
      ap₂ (λ j i. set (shift_slots n 0 (move_slots j i out)) 0 new) up down
      ∙ shift_slots_lem n new (move_slots (suc n) n out)
          (omega (arith, length-move_slots (suc n) n out))
      ∙ ap (λ t. new ∷ t) (move_slots_split n out h)
    where
      up : 0 + suc n ≡ suc n
      up = omega arith

      down : 0 + suc n - 1 ≡ n
      down = omega arith

  -- The array after an insertion at `i`, with all slots from `i` on moved by one.
  pub insert_at :
      (i n : ℕ) (new : SearchResult) (out : List SearchResult)
      → i + suc n ≡ length out
      → set (shift_slots n i out) i new ≡ take i out ++ (new ∷ take n (drop i out))
  insert_at zero n new out e =
      shift_slots_lem n new out (omega arith)
      ∙ ap (λ t. new ∷ t)
          (ap (λ t. take n out ++ t) (drop-length (suc n) out (omega arith))
            ∙ append-nil (take n out))
  insert_at (suc i) n new [] e = absurd (omega arith)
  insert_at (suc i) n new (x ∷ out) e =
      ap (λ t. set t (suc i) new) (shift_slots-cons n i x out)
      ∙ ap (λ t. x ∷ t) (insert_at i n new out (omega arith))
