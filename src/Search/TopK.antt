-- ===== src/Search/TopK.antt =====
-- `SearchResult_t` of include/db.h, and the bounded insertion that `flat_search` and `db_ann_search`
-- both contain, line for line.
use vecdb.Prelude.{
  Bool, true, false, ltb, lt→ltb, arith, refl, ◌≡◌, ◌≤◌, ◌%◌, ◌^◌, ℕ, zero, suc, ◌+◌, ◌-◌, List,
  Option, none, some,
}
use vecdb.Prelude.{if◌then◌else◌, get_or, set, replicate}
use native.Mathlib.Nat.{mod-eq_of_lt}
use vecdb.Floats.{Floats}

pub record SearchResult : Type 0 where
  pub id : ℕ
  pub calculated_distance : ℕ
  pub metadata : Option (List ℕ)

-- The result array, with the number of `strdup` and of `free` calls on metadata so far.
pub record TopK : Type 0 where
  pub out_results : List SearchResult
  pub copies : ℕ
  pub frees : ℕ

abbrev pub is_set : Option (List ℕ) → ℕ
is_set none = 0
is_set (some m) = 1

module _ (F : Floats) where
  -- An empty slot.
  abbrev pub empty_result : SearchResult
  empty_result = record { id = 0; calculated_distance = F.flt_max; metadata = none }

  -- `out_results[i]`; the code never reads past the array.
  abbrev pub slot : List SearchResult → ℕ → SearchResult
  slot out i = get_or out i empty_result

  -- The first loop: every slot is emptied.
  unfoldable pub empty_results : ℕ → TopK
  empty_results top_k = record { out_results = replicate top_k empty_result; copies = 0; frees = 0 }

  -- `while (insert_idx > 0 && dis < out_results[insert_idx - 1].calculated_distance) insert_idx--`
  unfoldable pub insert_index : List SearchResult → ℕ → ℕ → ℕ
  insert_index out dis zero = zero
  insert_index out dis (suc i) =
      let rest = insert_index out dis i in
      if F.lt dis (slot out i).calculated_distance then rest else suc i

  -- One round of the shift at `j`: the old string of slot `j` is freed, and slot `j - 1` moves there
  -- with its string.
  unfoldable pub move_down : TopK → ℕ → TopK
  move_down t j =
      let moved = slot t.out_results (j - 1) in
      record t {
        out_results = set (set t.out_results j moved) (j - 1) (record moved { metadata = none });
        frees = t.frees + is_set (slot t.out_results j).metadata;
      }

  -- `for (j = top_k - 1; j > insert_idx; j--)`, with `n` rounds to go, so that `j` is `insert_idx + n`.
  unfoldable pub shift_down : ℕ → ℕ → TopK → TopK
  shift_down zero insert_idx t = t
  shift_down (suc n) insert_idx t = shift_down n insert_idx (move_down t (insert_idx + suc n))

  -- A candidate put in its place, where the last slot is `last`; the string is copied over whatever the
  -- slot held.
  abbrev pub insert_at_index : ℕ → TopK → SearchResult → TopK
  insert_at_index last t new =
      let insert_idx = insert_index t.out_results new.calculated_distance last in
      let shifted = shift_down (last - insert_idx) insert_idx t in
      record shifted {
        out_results = set shifted.out_results insert_idx new;
        copies = shifted.copies + is_set new.metadata;
      }

  -- A candidate whose distance is below that of the last slot is put in its place. The index of the last
  -- slot goes into an `int`; one of 2^31 or more is negative there, and the result is then written in
  -- front of the array, which is undefined behaviour, `none`.
  unfoldable pub insert_result : ℕ → TopK → SearchResult → Option TopK
  insert_result top_k t new =
      let last = (top_k - 1) % 2 ^ 32 in
      if F.lt new.calculated_distance (slot t.out_results (top_k - 1)).calculated_distance
      then (if ltb last (2 ^ 31) then some (insert_at_index last t new) else none)
      else some t

  -- The insertion with an index that has no bound.
  unfoldable pub insert_unbounded : ℕ → TopK → SearchResult → TopK
  insert_unbounded top_k t new =
      if F.lt new.calculated_distance (slot t.out_results (top_k - 1)).calculated_distance
      then insert_at_index (top_k - 1) t new
      else t

  -- Up to 2^31 slots the `int` does not matter.
  pub insert_result-insert_unbounded :
      (top_k : ℕ) (t : TopK) (new : SearchResult)
      → top_k ≤ 2_147_483_648
      → insert_result top_k t new ≡ some (insert_unbounded top_k t new)
  unfolding insert_result insert_unbounded
  insert_result-insert_unbounded top_k t new h =
      by_distance
        (F.lt new.calculated_distance (slot t.out_results (top_k - 1)).calculated_distance)
    where
      last : (top_k - 1) % 4_294_967_296 ≡ top_k - 1
      last = mod-eq_of_lt (omega (arith, h))

      below : ltb (top_k - 1) 2_147_483_648 ≡ true
      below = lt→ltb (top_k - 1) 2_147_483_648 (omega (arith, h))

      by_distance :
          (b : Bool)
          → (if b
              then (if ltb ((top_k - 1) % 4_294_967_296) 2_147_483_648
                  then some (insert_at_index ((top_k - 1) % 4_294_967_296) t new)
                  else none)
              else some t)
            ≡ some (if b then insert_at_index (top_k - 1) t new else t)
      by_distance true = rw (last, below) refl
      by_distance false = refl
