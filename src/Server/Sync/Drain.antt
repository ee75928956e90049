-- ===== src/Server/Sync/Drain.antt =====
-- src/server.c: what becomes of the queued insertions.
use vecdb.Prelude.{
  ℕ, zero, suc, ◌+◌, ◌*◌, ◌%◌, ◌^◌, ◌≤◌, ◌<◌, ◌≡◌, refl, sym, ap, ◌∙◌, subst, arith, List, [], ◌∷◌,
  ◌++◌, map, some,
}
use vecdb.Prelude.{
  true, lt→ltb, ge→ltb, inl, inr, length, length-append, length-map, append-nil, le-or-lt,
}
use native.Mathlib.Nat.{mod-eq_of_lt, mul_assoc, pow-succ'}
use vecdb.Prelude.Bytes.{u64_mod}
use vecdb.Storage.Types.{Env, Record}
use vecdb.Db.Types.{record_size}
use vecdb.Server.Tables.{PendingInsert, OpenTable}
use vecdb.Server.Sync.{double_to, record_of, synced, take_queue, drain}

-- The records that a table answers for: those in the array, and behind them the queued ones.
abbrev pub contents : OpenTable → List Record
contents t = t.db.records ++ map record_of t.insert_queue

double_to_lem :
    (rounds new_cap needed : ℕ)
    → 0 < new_cap
    → needed ≤ 2 ^ 63
    → needed ≤ new_cap * 2 ^ rounds
    → (c : ℕ) × (double_to rounds new_cap needed ≡ some c) × (needed ≤ c)
unfolding double_to
double_to_lem zero new_cap needed pos fits enough =
    (new_cap, rw (ge→ltb new_cap needed (omega arith)) refl, omega arith)
double_to_lem (suc rounds) new_cap needed pos fits enough = elim (le-or-lt needed new_cap) [
  | inl h ↦ (new_cap, rw (ge→ltb new_cap needed h) refl, h)
  | inr h ↦
      (let rest = double_to_lem rounds (new_cap * 2) needed (omega arith) fits enough_left in
        (rest.0, rw (lt→ltb new_cap needed h, mod-eq_of_lt (small h)) rest.1, rest.2))
]
  where
    enough_left : needed ≤ new_cap * 2 * 2 ^ rounds
    enough_left =
        subst (λ n. needed ≤ n)
          (sym
            (mul_assoc new_cap 2 (2 ^ rounds) ∙ ap (λ n. new_cap * n) (sym (pow-succ' 2 rounds))))
          enough

    small : new_cap < needed → new_cap * 2 < u64_mod
    small h = omega arith

-- A round of the synchronisation with memory granted, for a table whose array has a place and whose
-- records and queued insertions are at most 2^63: it ends, the queue is empty, every queued insertion
-- stands behind the records in the order of the queue, nothing is lost or doubled, and the array has
-- room for them all, if it had room for its own.
pub drain_refines :
    (env : Env) (t : OpenTable)
    → ((n : ℕ) → env.malloc n ≡ true)
    → 0 < t.db.capacity
    → length t.db.records ≤ t.db.capacity
    → length (contents t) ≤ 2 ^ 63
    → (t' : OpenTable) × (drain env t ≡ synced t')
      × (t'.insert_queue ≡ [])
      × (t'.db.records ≡ contents t)
      × (contents t' ≡ contents t)
      × (length t'.db.records ≤ t'.db.capacity)
unfolding drain take_queue
drain_refines env t memory pos room fits = elim (le-or-lt (length t.insert_queue) 0) [
  | inl h ↦ (
    t,
    rw (ge→ltb 0 (length t.insert_queue) h) refl,
    nil t.insert_queue h,
    sym (
        ap (λ q. t.db.records ++ map record_of q) (nil t.insert_queue h) ∙ append-nil t.db.records),
    refl,
    room,
  )
  | inr h ↦ (elim (le-or-lt needed t.db.capacity) [
    | inl k ↦ (
      take_queue env t,
      rw (lt→ltb 0 (length t.insert_queue) h, ge→ltb t.db.capacity _ k) refl,
      refl,
      refl,
      append-nil (contents t),
      omega (arith, k, needed_lem),
    )
    | inr k ↦
        (let grown =
            double_to_lem 64 t.db.capacity needed pos (omega (arith, needed_lem))
              (omega (arith, needed_lem)) in
          (
            take_queue env (record t { db = record (t.db) { capacity = grown.0 } }),
            rw
                (
                  lt→ltb 0 (length t.insert_queue) h,
                  lt→ltb t.db.capacity _ k,
                  grown.1,
                  memory (record_size * grown.0 % u64_mod),
                )
                refl,
            refl,
            refl,
            append-nil (contents t),
            omega (arith, grown.2, needed_lem),
          ))
  ])
]
  where
    needed : ℕ
    needed = (length t.db.records + length t.insert_queue) % u64_mod

    needed_lem : needed ≡ length (contents t)
    needed_lem = omega (
      arith,
      length-append t.db.records (map record_of t.insert_queue),
      length-map t.insert_queue record_of,
    )

    nil : (q : List PendingInsert) → length q ≤ 0 → q ≡ []
    nil [] h = refl
    nil (p ∷ q) h = absurd (omega arith)
