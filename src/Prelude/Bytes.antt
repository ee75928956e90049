-- ===== src/Prelude/Bytes.antt =====
-- Little-endian integers in bytes, as `fwrite` and a load through a pointer give on the host.
use Prim.Native.Nat.{ℕ, zero, suc, ◌+◌, ◌*◌, ◌/◌, ◌%◌, ◌^◌, ◌<◌}
use mathlib.Core.Path.{◌≡◌, refl, ap, ap₂}
use mathlib.Core.List.{List, [], ◌∷◌, ◌++◌, append_assoc}
use native.Mathlib.Nat.{pow-suc}
use native.Mathlib.Omega.{arith}
use vecdb.Prelude.Lists.{length, take, drop, All, length-append, take-append, drop-append}

unfoldable pub encode_le : ℕ → ℕ → List ℕ
encode_le zero v = []
encode_le (suc n) v = (v % 256) ∷ encode_le n (v / 256)

unfoldable pub decode_le : List ℕ → ℕ
decode_le [] = 0
decode_le (b ∷ bs) = b + 256 * decode_le bs

pub length-encode_le : (n v : ℕ) → length (encode_le n v) ≡ n
unfolding encode_le
length-encode_le zero v = refl
length-encode_le (suc n) v = ap suc (length-encode_le n (v / 256))

pub decode_le-encode_le : (n v : ℕ) → v < 256 ^ n → decode_le (encode_le n v) ≡ v
unfolding encode_le decode_le
decode_le-encode_le zero v h = omega arith
decode_le-encode_le (suc n) v h =
    omega (arith, decode_le-encode_le n (v / 256) (omega (arith, pow-suc 256 n)))

-- What `size_t` and `uint64_t` hold.
abbrev pub u64_mod : ℕ
u64_mod = 2 ^ 64

abbrev pub u32_mod : ℕ
u32_mod = 2 ^ 32

-- The memory image of a `uint64_t`.
abbrev pub u64_bytes : ℕ → List ℕ
u64_bytes v = encode_le 8 v

-- `*(uint64_t *)ptr`, with the bytes from `ptr` on.
abbrev pub u64_at : List ℕ → ℕ
u64_at bytes = decode_le (take 8 bytes)

pub u64_at-u64_bytes : (v : ℕ) (rest : List ℕ) → v < u64_mod → u64_at (u64_bytes v ++ rest) ≡ v
u64_at-u64_bytes v rest h =
    rw (take-append 8 (u64_bytes v) rest (length-encode_le 8 v))
      (decode_le-encode_le 8 v (omega arith))

-- The memory image of an array of `float`: four bytes for each bit pattern.
unfoldable pub floats_bytes : List ℕ → List ℕ
floats_bytes [] = []
floats_bytes (w ∷ ws) = encode_le 4 w ++ floats_bytes ws

-- The `n` floats from a pointer on.
unfoldable pub floats_at : ℕ → List ℕ → List ℕ
floats_at zero bytes = []
floats_at (suc n) bytes = decode_le (take 4 bytes) ∷ floats_at n (drop 4 bytes)

abbrev pub IsWord : ℕ → Type 0
IsWord w = w < u32_mod

pub length-floats_bytes : (ws : List ℕ) → length (floats_bytes ws) ≡ 4 * length ws
unfolding floats_bytes
length-floats_bytes [] = omega arith
length-floats_bytes (w ∷ ws) = omega (
  arith,
  length-append (encode_le 4 w) (floats_bytes ws),
  length-encode_le 4 w,
  length-floats_bytes ws,
)

pub length-floats_at : (n : ℕ) (bytes : List ℕ) → length (floats_at n bytes) ≡ n
unfolding floats_at
length-floats_at zero bytes = refl
length-floats_at (suc n) bytes = ap suc (length-floats_at n (drop 4 bytes))

pub floats_at-floats_bytes :
    (ws rest : List ℕ) → All IsWord ws → floats_at (length ws) (floats_bytes ws ++ rest) ≡ ws
unfolding floats_at floats_bytes
floats_at-floats_bytes [] rest h = refl
floats_at-floats_bytes (w ∷ ws) rest h = rw (append_assoc (encode_le 4 w) (floats_bytes ws) rest) (
    rw (take-append 4 (encode_le 4 w) (floats_bytes ws ++ rest) (length-encode_le 4 w)) (
      rw (drop-append 4 (encode_le 4 w) (floats_bytes ws ++ rest) (length-encode_le 4 w))
        (ap₂ ◌∷◌ (decode_le-encode_le 4 w (omega arith)) (floats_at-floats_bytes ws rest h.1))))
