-- ===== src/Storage/Codec.antt =====
-- src/storage.c: the readers where `storage_write_record` has put a record.
use vecdb.Prelude.{ℕ, ◌+◌, ◌*◌, ◌%◌, ◌<◌, ◌≡◌, refl, ap, sym, ◌∙◌, arith}
use vecdb.Prelude.{List, ◌++◌, Option, none, some, Bool, true, false, append_assoc}
use vecdb.Prelude.{if◌then◌else◌, ◌==◌, length, drop, replicate, All, append-nil}
use vecdb.Prelude.{take-append, drop-append, drop-drop, length-append, subst}
use vecdb.Prelude.Bytes.{u64_mod, u64_at, u64_bytes, u64_at-u64_bytes, length-encode_le, IsWord}
use vecdb.Prelude.Bytes.{floats_bytes, floats_at, length-floats_bytes, floats_at-floats_bytes}
use native.Mathlib.Nat.{mod-eq_of_lt}
use vecdb.Storage.Types.{Env, Record}
use vecdb.Storage.Layout.{record_header_bytes, record_padded_size, record_pad, record_chunks}
use vecdb.Storage.Layout.{metadata_bytes, metadata_length, Fits, length-record_chunks}
use vecdb.Storage.Layout.{length-metadata_bytes}
use vecdb.Storage.Write.{encode_record}
use vecdb.Storage.Read.{read_header, copy_metadata}

-- Metadata as a reader gets it back: the string up to its NUL, and no string for an empty one.
unfoldable pub stored_metadata : Option (List ℕ) → Option (List ℕ)
stored_metadata m = if metadata_length m == 0 then none else some (metadata_bytes m)

-- What the writer may be given: an id, floats and a metadata length that fit their fields.
pub record CanStore (dimension : ℕ) (r : Record) (ws : List ℕ) : Type 0 where
  pub id_fits : r.id < u64_mod
  pub dimension_fits : length ws ≡ dimension
  pub words_fit : All IsWord ws
  pub size_fits : Fits dimension (metadata_length r.metadata)

-- The tail of a record behind its header.
abbrev pub body : ℕ → Record → List ℕ → List ℕ → List ℕ
body dimension r ws rest =
    floats_bytes ws
    ++ (metadata_bytes r.metadata
        ++ (replicate (record_pad dimension (metadata_length r.metadata)) 0 ++ rest))

abbrev pub flags : Record → ℕ
flags r = if r.is_deleted then 1 else 0

pub encode_record-append :
    (dimension : ℕ) (r : Record) (ws rest : List ℕ)
    → encode_record dimension r ws ++ rest
      ≡ u64_bytes r.id
        ++ (u64_bytes (flags r)
            ++ (u64_bytes (metadata_length r.metadata) ++ body dimension r ws rest))
unfolding encode_record record_chunks
encode_record-append dimension r ws rest = simp (append_assoc, append-nil)

pub length-encode_record :
    (dimension : ℕ) (r : Record) (ws : List ℕ)
    → CanStore dimension r ws
    → length (encode_record dimension r ws)
      ≡ record_padded_size dimension (metadata_length r.metadata)
unfolding encode_record
length-encode_record dimension r ws c =
    length-record_chunks dimension r ws c.dimension_fits c.size_fits

copy_metadata-append :
    (env : Env) (len : ℕ) (m rest : List ℕ)
    → length m ≡ len
    → len + 1 < u64_mod
    → env.malloc (len + 1) ≡ true
    → copy_metadata env (m ++ rest) len ≡ some (if len == 0 then none else some m)
unfolding copy_metadata
copy_metadata-append env len m rest e small memory =
    rw (mod-eq_of_lt small)
      (rw memory (rw (take-append len m rest e) (ground (arith, length-append m rest))))

drop_u64 : (v n k : ℕ) (rest : List ℕ) → 8 + n ≡ k → drop k (u64_bytes v ++ rest) ≡ drop n rest
drop_u64 v n k rest e =
    sym (drop-drop n 8 k (u64_bytes v ++ rest) e)
    ∙ ap (drop n) (drop-append 8 (u64_bytes v) rest (length-encode_le 8 v))

module _ (dimension : ℕ) (r : Record) (ws rest : List ℕ) (c : CanStore dimension r ws) where
  drop_header :
      (n k : ℕ)
      → record_header_bytes + n ≡ k
      → drop k (encode_record dimension r ws ++ rest) ≡ drop n (body dimension r ws rest)
  drop_header n k e = rw (encode_record-append dimension r ws rest) (
      drop_u64 r.id (16 + n) k _ (omega arith)
      ∙ drop_u64 (flags r) (8 + n) (16 + n) _ (omega arith)
      ∙ drop_u64 (metadata_length r.metadata) n (8 + n) _ refl)

  metadata_length-lt : metadata_length r.metadata < u64_mod
  metadata_length-lt = omega (arith, c.size_fits)

  -- The header is read back.
  pub read_header-encode_record :
      read_header (encode_record dimension r ws ++ rest)
      ≡ record { id = r.id; is_deleted = r.is_deleted; meta_len = metadata_length r.metadata }
  unfolding read_header
  read_header-encode_record =
      λ i. record { id = id_eq i; is_deleted = deleted_eq i; meta_len = len_eq i }
    where
      id_eq : u64_at (encode_record dimension r ws ++ rest) ≡ r.id
      id_eq = rw (encode_record-append dimension r ws rest) (u64_at-u64_bytes r.id _ c.id_fits)

      at_8 :
          drop 8 (encode_record dimension r ws ++ rest)
          ≡ u64_bytes (flags r)
            ++ (u64_bytes (metadata_length r.metadata) ++ body dimension r ws rest)
      at_8 = rw (encode_record-append dimension r ws rest) (drop_u64 r.id 0 8 _ refl)

      at_16 :
          drop 16 (encode_record dimension r ws ++ rest)
          ≡ u64_bytes (metadata_length r.metadata) ++ body dimension r ws rest
      at_16 =
          rw (encode_record-append dimension r ws rest)
            (drop_u64 r.id 8 16 _ refl ∙ drop_u64 (flags r) 0 8 _ refl)

      flag_bit : (b : Bool) → ((if b then 1 else 0) % 2 == 1) ≡ b
      flag_bit true = refl
      flag_bit false = refl

      flag_lt : (b : Bool) → (if b then 1 else 0) < u64_mod
      flag_lt true = omega arith
      flag_lt false = omega arith

      deleted_eq : (u64_at (drop 8 (encode_record dimension r ws ++ rest)) % 2 == 1) ≡ r.is_deleted
      deleted_eq =
          rw at_8 (rw (u64_at-u64_bytes (flags r) _ (flag_lt r.is_deleted)) (flag_bit r.is_deleted))

      len_eq : u64_at (drop 16 (encode_record dimension r ws ++ rest)) ≡ metadata_length r.metadata
      len_eq = rw at_16 (u64_at-u64_bytes (metadata_length r.metadata) _ metadata_length-lt)

  -- The floats are read back, in place.
  pub floats_at-encode_record :
      floats_at dimension (drop record_header_bytes (encode_record dimension r ws ++ rest)) ≡ ws
  floats_at-encode_record = rw (drop_header 0 24 refl) (
      subst (λ n. floats_at n (body dimension r ws rest) ≡ ws) c.dimension_fits
        (floats_at-floats_bytes ws _ c.words_fit))

  at_metadata :
      drop (record_header_bytes + 4 * dimension) (encode_record dimension r ws ++ rest)
      ≡ metadata_bytes r.metadata
        ++ (replicate (record_pad dimension (metadata_length r.metadata)) 0 ++ rest)
  at_metadata =
      drop_header (4 * dimension) _ refl
      ∙ drop-append (4 * dimension) (floats_bytes ws) _
          (omega (arith, length-floats_bytes ws, c.dimension_fits))

  -- The metadata is read back where there is memory for it.
  pub copy_metadata-encode_record :
      (env : Env)
      → env.malloc (metadata_length r.metadata + 1) ≡ true
      → copy_metadata env
          (drop (record_header_bytes + 4 * dimension) (encode_record dimension r ws ++ rest))
          (metadata_length r.metadata)
        ≡ some (stored_metadata r.metadata)
  unfolding copy_metadata stored_metadata
  copy_metadata-encode_record env memory = rw at_metadata (
      copy_metadata-append env (metadata_length r.metadata) (metadata_bytes r.metadata) _
        (length-metadata_bytes r.metadata) (omega (arith, c.size_fits)) memory)
