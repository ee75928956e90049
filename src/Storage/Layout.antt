-- ===== src/Storage/Layout.antt =====
-- src/storage.c: the layout of one record on disk.
use vecdb.Prelude.{ℕ, ◌+◌, ◌-◌, ◌*◌, ◌%◌, ◌≤◌, ◌<◌, ◌≡◌, arith}
use vecdb.Prelude.{List, [], ◌∷◌, concat, Option, none, some}
use vecdb.Prelude.{if◌then◌else◌, length, take, replicate, length-append, length-take}
use vecdb.Prelude.{length-replicate, refl, append-nil}
use vecdb.Prelude.Bytes.{u64_mod, u64_bytes, floats_bytes, length-encode_le, length-floats_bytes}
use vecdb.Storage.Types.{Record, strlen}

abbrev pub record_header_bytes : ℕ
record_header_bytes = 24

-- `RECORD_HEADER_BYTES + sizeof(float) * dimension + meta_len`, in a `size_t`.
unfoldable pub record_used : ℕ → ℕ → ℕ
record_used dimension meta_len = (record_header_bytes + 4 * dimension + meta_len) % u64_mod

-- `x & ~(size_t)7` clears the three low bits.
unfoldable pub record_padded_size : ℕ → ℕ → ℕ
unfolding record_used
record_padded_size dimension meta_len =
    let n = (record_used dimension meta_len + 7) % u64_mod in n - n % 8

-- `meta_len` as the writer takes it.
unfoldable pub metadata_length : Option (List ℕ) → ℕ
unfolding strlen
metadata_length none = 0
metadata_length (some m) = strlen m

unfoldable pub metadata_bytes : Option (List ℕ) → List ℕ
unfolding metadata_length
metadata_bytes none = []
metadata_bytes (some m) = take (strlen m) m

-- `size_t pad = record_padded_size(dimension, len) - used`
unfoldable pub record_pad : ℕ → ℕ → ℕ
unfolding record_padded_size
record_pad dimension meta_len =
    (record_padded_size dimension meta_len + u64_mod - record_used dimension meta_len) % u64_mod

-- The `fwrite` calls of one record, in their order, for the floats `ws` behind its pointer. Those of
-- the metadata and of the padding are left out by the code where they would write nothing.
unfoldable pub record_chunks : ℕ → Record → List ℕ → List (List ℕ)
record_chunks dimension r ws =
    let len = metadata_length r.metadata in
    u64_bytes r.id
    ∷ u64_bytes (if r.is_deleted then 1 else 0)
    ∷ u64_bytes len
    ∷ floats_bytes ws
    ∷ metadata_bytes r.metadata
    ∷ replicate (record_pad dimension len) 0
    ∷ []

-- The sizes fit a `size_t`, the padding included.
abbrev pub Fits : ℕ → ℕ → Type 0
Fits dimension meta_len = record_header_bytes + 4 * dimension + meta_len + 7 < u64_mod

-- A record takes the least multiple of 8 that holds its header, its floats and its metadata, where these
-- and 7 bytes more fit 64 bits.
pub record_padded_size_bounds :
    (dimension meta_len : ℕ)
    → Fits dimension meta_len
    → (record_padded_size dimension meta_len % 8 ≡ 0)
      × (record_header_bytes + 4 * dimension + meta_len ≤ record_padded_size dimension meta_len)
      × (record_padded_size dimension meta_len < record_header_bytes + 4 * dimension + meta_len + 8)
unfolding record_padded_size
record_padded_size_bounds dimension meta_len h = omega arith

pub record_pad_lem :
    (dimension meta_len : ℕ)
    → Fits dimension meta_len
    → record_pad dimension meta_len + (record_header_bytes + 4 * dimension + meta_len)
      ≡ record_padded_size dimension meta_len
unfolding record_pad
record_pad_lem dimension meta_len h = omega arith

pub strlen-le : (m : List ℕ) → strlen m ≤ length m
unfolding strlen
strlen-le [] = omega arith
strlen-le (c ∷ cs) = ground (arith, strlen-le cs)

pub length-metadata_bytes : (m : Option (List ℕ)) → length (metadata_bytes m) ≡ metadata_length m
unfolding metadata_bytes
length-metadata_bytes none = refl
length-metadata_bytes (some m) = omega (arith, length-take (strlen m) m, strlen-le m)

-- The writes of a record add up to its padded size.
pub length-record_chunks :
    (dimension : ℕ) (r : Record) (ws : List ℕ)
    → length ws ≡ dimension
    → Fits dimension (metadata_length r.metadata)
    → length (concat (record_chunks dimension r ws))
      ≡ record_padded_size dimension (metadata_length r.metadata)
unfolding record_chunks
length-record_chunks dimension r ws e h =
    simp (length-append, append-nil)
      (omega (
        arith,
        length-encode_le 8 r.id,
        length-encode_le 8 (if r.is_deleted then 1 else 0),
        length-encode_le 8 (metadata_length r.metadata),
        length-floats_bytes ws,
        length-metadata_bytes r.metadata,
        length-replicate {A = ℕ} (record_pad dimension (metadata_length r.metadata)) 0,
        record_pad_lem dimension (metadata_length r.metadata) h,
      ))
