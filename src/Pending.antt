-- ===== src/Pending.antt =====
-- include/pending-delete.h and src/pending-delete.c: the queue of delete requests and its schedule.
-- The operations are here; `Queue` and `Schedule` prove what they do.
pub mod Queue
pub mod Schedule
use Prim.Native.Nat.{compare, Ordering}
use vecdb.Prelude.{ℕ, zero, suc, ◌+◌, ◌*◌, ◌%◌, ◌/◌, ◌≡◌, List, [], ◌∷◌, ◌++◌, Option, none, some}
use vecdb.Prelude.{Bool, true, false, ◌||◌, if◌then◌else◌, ltb, ◌==◌, length, take, drop}
use vecdb.Prelude.Bytes.{u64_at, u64_bytes, u64_mod}
use vecdb.Storage.Types.{Env, Status, success, failure}

-- The sign of what a C comparison function returns.
abbrev pub Comparison : Type 0
Comparison = ℕ → ℕ → Ordering

abbrev pub is_gt : Ordering → Bool
is_gt Ordering.gt = true
is_gt Ordering.lt = false
is_gt Ordering.eq = false

abbrev pub is_eq : Ordering → Bool
is_eq Ordering.eq = true
is_eq Ordering.lt = false
is_eq Ordering.gt = false

abbrev pub count : ℕ → List ℕ → ℕ
count x [] = 0
count x (y ∷ ys) = (if x == y then 1 else 0) + count x ys

abbrev pub contains : ℕ → List ℕ → Bool
contains x [] = false
contains x (y ∷ ys) = x == y || contains x ys

-- Some element compares equal to the key.
abbrev pub any_equal : Comparison → ℕ → List ℕ → Bool
any_equal cmp key [] = false
any_equal cmp key (x ∷ xs) = is_eq (cmp key x) || any_equal cmp key xs

abbrev pub IsAscending : Comparison → List ℕ → Type 0
IsAscending cmp [] = Unit {0}
IsAscending cmp (x ∷ []) = Unit {0}
IsAscending cmp (x ∷ y ∷ ys) = (is_gt (cmp x y) ≡ false) × IsAscending cmp (y ∷ ys)

abbrev pub is_some : Option ℕ → Bool
is_some none = false
is_some (some x) = true

-- A comparison that `qsort` may be given: turned round it gives the other sign, and it is transitive.
pub record IsOrder (cmp : Comparison) : Type 0 where
  pub turned : (a b : ℕ) → is_gt (cmp a b) ≡ true → is_gt (cmp b a) ≡ false
  pub transitive :
      (a b c : ℕ) → is_gt (cmp a b) ≡ false → is_gt (cmp b c) ≡ false → is_gt (cmp a c) ≡ false

-- libc's `qsort` and `bsearch` as they are documented.
pub record Sorting : Type 0 where
  pub qsort : Comparison → List ℕ → List ℕ
  pub bsearch : Comparison → ℕ → List ℕ → Option ℕ
  pub qsort_count : (cmp : Comparison) (x : ℕ) (xs : List ℕ) → count x (qsort cmp xs) ≡ count x xs
  pub qsort_ascending :
      (cmp : Comparison) (xs : List ℕ) → IsOrder cmp → IsAscending cmp (qsort cmp xs)
  pub bsearch_finds :
      (cmp : Comparison) (key : ℕ) (xs : List ℕ)
      → IsAscending cmp xs
      → is_some (bsearch cmp key xs) ≡ any_equal cmp key xs

-- `cmp_uint32`, which compares `uint64_t`.
unfoldable pub cmp_uint32 : Comparison
cmp_uint32 a b = if ltb a b then Ordering.lt else if ltb b a then Ordering.gt else Ordering.eq

-- pending.bin of a table, and `pending_append_lock`.
pub record PendingFile : Type 0 where
  pub pending_bin : Option (List ℕ)
  pub append_lock : Bool

pub data Appended : Type 0 where
  returned : Status → PendingFile → Appended
  blocked : Appended

-- `append_pending_delete`, where `opens` says whether `fopen(…, "a+b")` succeeds. The closing brace
-- of `if (!fp)` stands in front of `return -1`, so the function ends there on both branches, with the
-- lock held where the file could be opened.
unfoldable pub append_pending_delete : Bool → PendingFile → ℕ → Appended
append_pending_delete opens f id =
    if f.append_lock
    then blocked
    else if opens
    then returned failure (record {
      pending_bin = some (elim f.pending_bin [ none ↦ [] | some bytes ↦ bytes ]);
      append_lock = true;
    })
    else returned failure f

-- `fread` of an id and `fseek` past its time stamp, `n` times.
unfoldable pub read_ids : ℕ → List ℕ → List ℕ
read_ids zero bytes = []
read_ids (suc n) bytes = u64_at bytes ∷ read_ids n (drop 16 bytes)

-- `load_pending_deletes`: the array, with its length for `out_count`; `some none` is NULL. The block that
-- `malloc` gives is not looked at before it is written: `none` is undefined behaviour.
unfoldable pub load_pending_deletes : Env → Sorting → Option (List ℕ) → Option (Option (List ℕ))
load_pending_deletes env libc none = some none
load_pending_deletes env libc (some bytes) =
    let out_count = length bytes / 16 in
    if out_count == 0
    then some none
    else if env.malloc (8 * out_count % u64_mod)
    then some (some (libc.qsort cmp_uint32 (read_ids out_count bytes)))
    else none

-- `is_pending_delete`
unfoldable pub is_pending_delete : Sorting → ℕ → Option (List ℕ) → Bool
is_pending_delete libc id none = false
is_pending_delete libc id (some ids) =
    if length ids == 0 then false else is_some (libc.bsearch cmp_uint32 id ids)

-- `clear_pending_deletes`: `fopen(…, "wb")` leaves an empty file.
unfoldable pub clear_pending_deletes : Bool → Option (List ℕ) → Status × Option (List ℕ)
clear_pending_deletes opens bytes = if opens then (success, some []) else (failure, bytes)

-- `set_auto_delete_schedule`: the file is emptied by `fopen`. The eight bytes go into the buffer of the
-- stream, so that `fwrite` succeeds; `written` says whether the disk takes them at `fclose`, whose result
-- is not looked at.
unfoldable pub set_auto_delete_schedule :
    Bool → Bool → ℕ → Option (List ℕ) → Status × Option (List ℕ)
set_auto_delete_schedule opens written unix_timestamp schedule =
    if opens
    then (success, some (if written then u64_bytes unix_timestamp else []))
    else (failure, schedule)

-- `get_auto_delete_schedule`: 0 if there is no file or it is too short.
unfoldable pub get_auto_delete_schedule : Option (List ℕ) → ℕ
get_auto_delete_schedule none = 0
get_auto_delete_schedule (some bytes) = if ltb (length bytes) 8 then 0 else u64_at bytes

-- `clear_auto_delete_schedule`; `removes` says whether `remove` takes away a file that is there.
unfoldable pub clear_auto_delete_schedule : Bool → Option (List ℕ) → Status × Option (List ℕ)
clear_auto_delete_schedule removes none = (failure, none)
clear_auto_delete_schedule removes (some bytes) =
    if removes then (success, none) else (failure, some bytes)
