-- ===== src/Pending/Queue.antt =====
-- src/pending-delete.c: what the queue holds, what a lookup finds, and what an append does.
use vecdb.Prelude.{ℕ, ◌*◌, ◌/◌, ◌<◌, ◌≡◌, refl, sym, ap, ap₂, ◌∙◌, arith}
use vecdb.Prelude.{List, [], ◌∷◌, ◌++◌, map, Option, none, some, Bool, true, false}
use vecdb.Prelude.{if◌then◌else◌, ◌==◌, length, length-append, append_assoc, drop-append}
use vecdb.Prelude.{All, suc-==-zero, ◌⊎◌, inl, inr, Bool-cases, ◌%◌}
use vecdb.Prelude.Bytes.{u64_bytes, u64_mod, u64_at-u64_bytes, length-encode_le}
use vecdb.Storage.Types.{Env, Status, failure}
use vecdb.Pending.{Sorting, count, contains, any_equal, IsAscending, IsOrder, cmp_uint32}
use vecdb.Pending.{PendingFile, returned, blocked, append_pending_delete, read_ids}
use vecdb.Pending.{load_pending_deletes, is_pending_delete}

pub cmp_uint32-IsOrder : IsOrder cmp_uint32
unfolding cmp_uint32
cmp_uint32-IsOrder = record {
  turned = λ a b h. ground arith;
  transitive = λ a b c h k. ground arith;
}

any_equal-contains : (x : ℕ) (xs : List ℕ) → any_equal cmp_uint32 x xs ≡ contains x xs
unfolding cmp_uint32
any_equal-contains x [] = refl
any_equal-contains x (y ∷ ys) = ground (arith, any_equal-contains x ys)

contains-count : (x : ℕ) (xs : List ℕ) → contains x xs ≡ (if count x xs == 0 then false else true)
contains-count x [] = refl
contains-count x (y ∷ ys) = ground (arith, contains-count x ys)

contains-qsort :
    (libc : Sorting) (x : ℕ) (xs : List ℕ) → contains x (libc.qsort cmp_uint32 xs) ≡ contains x xs
contains-qsort libc x xs =
    contains-count x _
    ∙ ap (λ n. if n == 0 then false else true) (libc.qsort_count cmp_uint32 x xs)
    ∙ sym (contains-count x xs)

-- One request: an id and the time of the request.
pub record Request : Type 0 where
  pub id : ℕ
  pub timestamp : ℕ

abbrev pub request_bytes : Request → List ℕ
request_bytes r = u64_bytes r.id ++ u64_bytes r.timestamp

unfoldable pub queue_bytes : List Request → List ℕ
queue_bytes [] = []
queue_bytes (r ∷ rs) = request_bytes r ++ queue_bytes rs

abbrev pub IdFits : Request → Type 0
IdFits r = r.id < u64_mod

length-request_bytes : (r : Request) → length (request_bytes r) ≡ 16
length-request_bytes r = omega (
  arith,
  length-append (u64_bytes r.id) (u64_bytes r.timestamp),
  length-encode_le 8 r.id,
  length-encode_le 8 r.timestamp,
)

length-queue_bytes : (rs : List Request) → length (queue_bytes rs) ≡ 16 * length rs
unfolding queue_bytes
length-queue_bytes [] = omega arith
length-queue_bytes (r ∷ rs) = omega (
  arith,
  length-append (request_bytes r) (queue_bytes rs),
  length-request_bytes r,
  length-queue_bytes rs,
)

read_ids-queue_bytes :
    (rs : List Request) (torn : List ℕ)
    → All IdFits rs
    → read_ids (length rs) (queue_bytes rs ++ torn) ≡ map (λ (r : Request). r.id) rs
unfolding read_ids queue_bytes
read_ids-queue_bytes [] torn h = refl
read_ids-queue_bytes (r ∷ rs) torn h =
    ap₂ ◌∷◌
      (rw (append_assoc (request_bytes r) (queue_bytes rs) torn) (
        rw (append_assoc (u64_bytes r.id) (u64_bytes r.timestamp) (queue_bytes rs ++ torn))
          (u64_at-u64_bytes r.id _ h.0)))
      (rw (append_assoc (request_bytes r) (queue_bytes rs) torn) (
        rw (drop-append 16 (request_bytes r) (queue_bytes rs ++ torn) (length-request_bytes r))
          (read_ids-queue_bytes rs torn h.1)))

-- Among ids in ascending order the lookup finds what is there.
pub is_pending_delete-contains :
    (libc : Sorting) (id : ℕ) (ids : List ℕ)
    → IsAscending cmp_uint32 ids
    → is_pending_delete libc id (some ids) ≡ contains id ids
unfolding is_pending_delete
is_pending_delete-contains libc id [] h = refl
is_pending_delete-contains libc id (x ∷ xs) h =
    rw (suc-==-zero (length xs))
      (libc.bsearch_finds cmp_uint32 id (x ∷ xs) h ∙ any_equal-contains id (x ∷ xs))

load_pending_deletes-queue_bytes :
    (env : Env) (libc : Sorting) (rs : List Request) (torn : List ℕ)
    → ((n : ℕ) → env.malloc n ≡ true)
    → All IdFits rs
    → length torn < 16
    → load_pending_deletes env libc (some (queue_bytes rs ++ torn)) ≡ (
        if length rs == 0
        then some none
        else some (some (libc.qsort cmp_uint32 (map (λ (r : Request). r.id) rs))))
unfolding load_pending_deletes
load_pending_deletes-queue_bytes env libc rs torn memory fit short =
    rw out_count (rw (read_ids-queue_bytes rs torn fit, memory (8 * length rs % u64_mod)) refl)
  where
    out_count : length (queue_bytes rs ++ torn) / 16 ≡ length rs
    out_count = omega (arith, length-append (queue_bytes rs) torn, length-queue_bytes rs)

-- The file of a queue of some requests, with what a torn one has left behind them; without a request the
-- file may be missing.
abbrev pub IsQueueFile : List Request → List ℕ → Option (List ℕ) → Type 0
IsQueueFile rs torn bin = (bin ≡ some (queue_bytes rs ++ torn)) ⊎ ((bin ≡ none) × (rs ≡ []))

module _ (env : Env) (libc : Sorting) (memory : (n : ℕ) → env.malloc n ≡ true) where
  in_queue :
      (rs : List Request) (torn : List ℕ) (id : ℕ)
      → All IdFits rs
      → length torn < 16
      → (pending : Option (List ℕ)) × (load_pending_deletes env libc (some (queue_bytes rs ++ torn))
          ≡ some pending)
        × (is_pending_delete libc id pending ≡ contains id (map (λ (r : Request). r.id) rs))
  in_queue [] torn id fit short = (
    none,
    load_pending_deletes-queue_bytes env libc [] torn memory fit short,
    unfold is_pending_delete in refl,
  )
  in_queue (r ∷ rs) torn id fit short = (
    some (libc.qsort cmp_uint32 (map (λ (q : Request). q.id) (r ∷ rs))),
    load_pending_deletes-queue_bytes env libc (r ∷ rs) torn memory fit short
        ∙ rw (suc-==-zero (length rs)) refl,
    is_pending_delete-contains libc id _ (libc.qsort_ascending cmp_uint32 _ cmp_uint32-IsOrder)
        ∙ contains-qsort libc id (map (λ (q : Request). q.id) (r ∷ rs)),
  )

  -- With memory granted the queue is loaded, and a lookup in it finds an id exactly when some whole
  -- request in the file has it. The file may be missing, empty, in any order, and end in a torn request.
  pub is_pending_delete-load_pending_deletes :
      (rs : List Request) (torn : List ℕ) (bin : Option (List ℕ)) (id : ℕ)
      → IsQueueFile rs torn bin
      → All IdFits rs
      → length torn < 16
      → (pending : Option (List ℕ)) × (load_pending_deletes env libc bin ≡ some pending)
        × (is_pending_delete libc id pending ≡ contains id (map (λ (r : Request). r.id) rs))
  is_pending_delete-load_pending_deletes rs torn bin id (inl there) fit short =
      let found = in_queue rs torn id fit short in
      (found.0, ap (load_pending_deletes env libc) there ∙ found.1, found.2)
  is_pending_delete-load_pending_deletes rs torn bin id (inr missing) fit short = (
    none,
    ap (load_pending_deletes env libc) missing.0 ∙ unfold load_pending_deletes in refl,
    unfold is_pending_delete in
        sym (ap (λ (l : List Request). contains id (map (λ (r : Request). r.id) l)) missing.1),
  )

-- With memory granted the queue is loaded.
pub load_pending_deletes-granted :
    (env : Env) (libc : Sorting) (bin : Option (List ℕ))
    → ((n : ℕ) → env.malloc n ≡ true)
    → (pending : Option (List ℕ)) × (load_pending_deletes env libc bin ≡ some pending)
unfolding load_pending_deletes
load_pending_deletes-granted env libc none memory = (none, refl)
load_pending_deletes-granted env libc (some bytes) memory =
    elim (Bool-cases (length bytes / 16 == 0)) [
      | inl h ↦ (none, rw h refl)
      | inr h ↦ (
        some (libc.qsort cmp_uint32 (read_ids (length bytes / 16) bytes)),
        rw (h, memory (8 * (length bytes / 16) % u64_mod)) refl,
      )
    ]

-- A file that `fopen` makes holds no request.
load_pending_deletes-opened :
    (env : Env) (libc : Sorting) (bin : Option (List ℕ))
    → load_pending_deletes env libc (some (elim bin [ none ↦ [] | some bytes ↦ bytes ]))
      ≡ load_pending_deletes env libc bin
unfolding load_pending_deletes
load_pending_deletes-opened env libc none = refl
load_pending_deletes-opened env libc (some bytes) = refl

-- Whatever the file and the lock: an append that returns has failed and queued nothing; where the file
-- could be opened it keeps the lock, and every append after it waits for ever.
pub append_pending_delete_fails :
    (opens : Bool) (f f' : PendingFile) (id : ℕ) (status : Status) (env : Env) (libc : Sorting)
    → append_pending_delete opens f id ≡ returned status f'
    → (status ≡ failure)
      × (load_pending_deletes env libc f'.pending_bin ≡ load_pending_deletes env libc f.pending_bin)
      × (opens ≡ true → (opens' : Bool) (id' : ℕ) → append_pending_delete opens' f' id' ≡ blocked)
unfolding append_pending_delete
append_pending_delete_fails opens f f' id status env libc h = (
  ground arith,
  ground (arith, load_pending_deletes-opened env libc f.pending_bin),
  λ e opens' id'. ground arith,
)
