-- ===== src/Search/Best.antt =====
-- src/search/baseline-flat.c: a row of candidates put in one by one.
use mathlib.Core.List.{Perm, perm_middle}
use mathlib.Core.List.Perm
use vecdb.Prelude.{ℕ, zero, suc, ◌≤◌, ◌<◌, ◌≡◌, sym, ap, ◌∙◌, arith, List, [], ◌∷◌, ◌++◌}
use vecdb.Prelude.{length, take, drop, replicate, All, All-replicate, length-replicate, take-length}
use vecdb.Prelude.{take-append-drop, length-take, subst, inl, inr, Bool-cases}
use vecdb.Floats.{Floats, IsOrdered}
use vecdb.Search.TopK.{SearchResult, TopK, empty_result, empty_results, insert_unbounded}
use vecdb.Search.Order.{ordered_insert, insert_all, best, IsSorted, NotBelow, length-ordered_insert}
use vecdb.Search.Order.{
  take-ordered_insert, ordered_insert-IsSorted, insert_all-IsSorted, take-IsSorted,
}
use vecdb.Search.Insertion.{IsNumber, insert_unbounded_lem, insert_unbounded-IsNumber}

module _ (F : Floats) where
  -- The candidates in the order in which a search meets them.
  unfoldable pub insert_results : ℕ → TopK → List SearchResult → TopK
  insert_results top_k t [] = t
  insert_results top_k t (new ∷ more) = insert_results top_k (insert_unbounded F top_k t new) more

  ordered_insert-perm :
      (new : SearchResult) (xs : List SearchResult) → Perm (ordered_insert F new xs) (new ∷ xs)
  unfolding ordered_insert
  ordered_insert-perm new [] = Perm.rfl
  ordered_insert-perm new (x ∷ xs) =
      elim (Bool-cases (F.lt new.calculated_distance x.calculated_distance)) [
        | inl h ↦ rw h Perm.rfl
        | inr h ↦ rw h (Perm.trans (Perm.cons x (ordered_insert-perm new xs)) (Perm.swap new x xs))
      ]

  insert_all-perm :
      (candidates out : List SearchResult) → Perm (insert_all F candidates out) (candidates ++ out)
  unfolding insert_all
  insert_all-perm [] out = Perm.rfl
  insert_all-perm (new ∷ more) out =
      Perm.trans (insert_all-perm more (ordered_insert F new out))
        (Perm.trans (Perm.append_left more (ordered_insert-perm new out)) (perm_middle more out))

  empties-IsSorted : (ordered : IsOrdered F) (n : ℕ) → IsSorted F (replicate n (empty_result F))
  empties-IsSorted ordered zero = tt
  empties-IsSorted ordered (suc n) = (
    All-replicate (NotBelow F F.flt_max) n (empty_result F) (ordered.lt_irrefl F.flt_max),
    empties-IsSorted ordered n,
  )

  -- What a search is to return: `top_k` slots that no other candidate should stand in front of.
  pub record IsBest (top_k : ℕ) (candidates results : List SearchResult) : Type 0 where
    pub rest : List SearchResult
    pub all_there : Perm (results ++ rest) (candidates ++ replicate top_k (empty_result F))
    pub ascending : IsSorted F (results ++ rest)
    pub filled : length results ≡ top_k

  module _ (ordered : IsOrdered F) where
    length-insert_all :
        (candidates out : List SearchResult) → length out ≤ length (insert_all F candidates out)
    unfolding insert_all
    length-insert_all [] out = omega arith
    length-insert_all (new ∷ more) out =
        omega (
          arith,
          length-insert_all more (ordered_insert F new out),
          length-ordered_insert F new out,
        )

    -- Any number of candidates, from any list whose first slots the array holds.
    insert_results_lem :
        (top_k : ℕ) (candidates out : List SearchResult) (t : TopK)
        → 0 < top_k
        → top_k ≤ length out
        → IsSorted F out
        → t.out_results ≡ take top_k out
        → All (IsNumber F ordered) t.out_results
        → (insert_results top_k t candidates).out_results ≡ take top_k (insert_all F candidates out)
    unfolding insert_results insert_all
    insert_results_lem top_k [] out t pos len s e number = e
    insert_results_lem top_k (new ∷ more) out t pos len s e number =
        insert_results_lem top_k more (ordered_insert F new out) (insert_unbounded F top_k t new)
          pos (omega (arith, length-ordered_insert F new out))
          (ordered_insert-IsSorted F ordered new out s)
          (insert_unbounded_lem F ordered top_k t new pos filled sorted number
            ∙ ap (λ u. take top_k (ordered_insert F new u)) e
            ∙ take-ordered_insert F top_k new out)
          (insert_unbounded-IsNumber F ordered top_k t new pos filled sorted number)
      where
        filled : length t.out_results ≡ top_k
        filled = omega (arith, ap length e, length-take top_k out)

        sorted : IsSorted F t.out_results
        sorted = subst (IsSorted F) (sym e) (take-IsSorted F top_k out s)

    pub best-IsBest :
        (top_k : ℕ) (candidates : List SearchResult)
        → IsBest top_k candidates (best F top_k candidates)
    unfolding best
    best-IsBest top_k candidates = record {
      rest = drop top_k all;
      all_there =
          subst (λ u. Perm u (candidates ++ replicate top_k (empty_result F)))
            (sym (take-append-drop top_k all)) (insert_all-perm candidates _);
      ascending =
          subst (IsSorted F) (sym (take-append-drop top_k all))
            (insert_all-IsSorted F ordered candidates _ (empties-IsSorted ordered top_k));
      filled = omega (
        arith,
        length-take top_k all,
        length-insert_all candidates (replicate top_k (empty_result F)),
        length-replicate top_k (empty_result F),
      );
    }
      where
        all : List SearchResult
        all = insert_all F candidates (replicate top_k (empty_result F))

    pub insert_results-best :
        (top_k : ℕ) (candidates : List SearchResult)
        → 0 < top_k
        → (insert_results top_k (empty_results F top_k) candidates).out_results
          ≡ best F top_k candidates
    unfolding best empty_results
    insert_results-best top_k candidates pos =
        insert_results_lem top_k candidates empties (empty_results F top_k) pos
          (omega (arith, length-replicate top_k (empty_result F))) (empties-IsSorted ordered top_k)
          (sym (take-length top_k empties (omega (arith, length-replicate top_k (empty_result F)))))
          (All-replicate (IsNumber F ordered) top_k (empty_result F) ordered.flt_max_number)
      where
        empties : List SearchResult
        empties = replicate top_k (empty_result F)
