-- ===== src/Storage/Types.antt =====
-- The state of include/storage.h and the records of include/db.h, with the memory they point to.
use vecdb.Prelude.{ℕ, suc, ◌+◌, ◌*◌, List, [], ◌∷◌, Option, none, some}
use vecdb.Prelude.{Bool, false, ◌&&◌, leb, ◌==◌, if◌then◌else◌, length, take, drop}
use vecdb.Prelude.Bytes.{floats_at}

-- What a function with the results 0 and -1 returns.
pub data Status : Type 0 where
  success failure : Status

-- What libc and the kernel decide: whether an allocation or a mapping of so many bytes succeeds.
pub record Env : Type 0 where
  pub malloc : ℕ → Bool
  pub mmap : ℕ → Bool

-- A `float *`. `heap` is a block of its own, four bytes to a bit pattern; `mapped g a` points `a`
-- bytes into the mapping number `g` of the data file.
pub data Vector : Type 0 where
  null : Vector
  heap : List ℕ → Vector
  mapped : ℕ → ℕ → Vector

-- `metadata` is the block that the pointer leads to, without the NUL that ends it.
pub record Record : Type 0 where
  pub id : ℕ
  pub vector : Vector
  pub metadata : Option (List ℕ)
  pub is_deleted : Bool
  pub byte_offset : ℕ
  pub is_mmap : Bool

-- `storage_t` with what it stands for: `bytes` is the file that `fp` is open on, `pos` its stream
-- position, `room` the number of bytes that the disk still takes. `mmap_data` numbers the mapping,
-- so that a pointer into an earlier one is known; `maps` is the number of the next.
pub record Storage : Type 0 where
  pub bytes : List ℕ
  pub room : ℕ
  pub is_open : Bool
  pub pos : ℕ
  pub mmap_data : Option ℕ
  pub file_size : ℕ
  pub maps : ℕ

-- The pointer leads into the mapping that is there now.
abbrev pub is_mapping : Storage → ℕ → Bool
is_mapping s g = elim s.mmap_data [ none ↦ false | some now ↦ g == now ]

-- The bytes that the mapping shows; it is shared, so they are the file's.
abbrev pub view : Storage → List ℕ
view s = take s.file_size s.bytes

-- The `dimension` floats behind a pointer; `none` is undefined behaviour: a null or stale pointer,
-- or a read past the block or the mapping.
unfoldable pub floats_of : Storage → ℕ → Vector → Option (List ℕ)
floats_of s dimension null = none
floats_of s dimension (heap ws) =
    if leb dimension (length ws) then some (take dimension ws) else none
floats_of s dimension (mapped g a) =
    if is_mapping s g && leb (a + 4 * dimension) (length (view s))
    then some (floats_at dimension (drop a (view s)))
    else none

-- `strlen`: the bytes in front of the first NUL.
unfoldable pub strlen : List ℕ → ℕ
strlen [] = 0
strlen (c ∷ cs) = let rest = strlen cs in if c == 0 then 0 else suc rest
