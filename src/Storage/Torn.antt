-- ===== src/Storage/Torn.antt =====
-- src/storage.c: the readers at the end of the file, and at a record whose write was cut off.
use vecdb.Prelude.{ℕ, ◌+◌, ◌-◌, ◌≤◌, ◌<◌, ◌≡◌, refl, sym, ap, ◌∙◌, arith, List, [], ◌++◌}
use vecdb.Prelude.{
  length, take, drop, length-append, length-take, drop-append, take-take, drop-take, le-or-lt, inl,
  inr,
}
use vecdb.Prelude.{ltb, leb, le→leb, lt→ltb, gt→leb, if◌then◌else◌, true, false, Bool, append-nil}
use vecdb.Prelude.Bytes.{u64_mod, u64_at, decode_le}
use vecdb.Storage.Types.{Env, Record, Storage, view}
use vecdb.Storage.Layout.{record_header_bytes, record_padded_size, record_padded_size_bounds}
use vecdb.Storage.Layout.{metadata_length}
use vecdb.Storage.Write.{encode_record}
use vecdb.Storage.Read.{Header, read_header, read_record, outside}
use vecdb.Storage.Codec.{CanStore, length-encode_record, read_header-encode_record}
use native.Mathlib.Nat.{mod-eq_of_lt}

-- At or past the end of the mapping there is no record.
pub read_record_end :
    (env : Env) (s : Storage) (at dimension : ℕ)
    → s.file_size ≤ at
    → read_record env s at dimension ≡ outside
unfolding read_record
read_record_end env s at dimension h = rw (le→leb s.file_size at h) refl

-- The readers do not look at the stream.
pub read_record-pos :
    (env : Env) (s : Storage) (pos at dimension : ℕ)
    → read_record env (record s { pos = pos }) at dimension ≡ read_record env s at dimension
unfolding read_record
read_record-pos env s pos at dimension = refl

-- The length field is in a torn record as soon as its header is.
torn_meta_len :
    (k dimension : ℕ) (r : Record) (ws : List ℕ)
    → CanStore dimension r ws
    → record_header_bytes ≤ k
    → (read_header (take k (encode_record dimension r ws))).meta_len ≡ metadata_length r.metadata
unfolding read_header
torn_meta_len k dimension r ws c h =
    ap u64_at (drop-take 16 k (encode_record dimension r ws))
    ∙ ap decode_le (take-take 8 (k - 16) (drop 16 (encode_record dimension r ws)) (omega arith))
    ∙ ap (λ t. u64_at (drop 16 t)) (sym (append-nil (encode_record dimension r ws)))
    ∙ ap (λ (t : Header). t.meta_len) (read_header-encode_record dimension r ws [] c)

-- A record of which only a part was written is no record to a reader, however long that part is.
pub read_record_torn :
    (env : Env) (s : Storage) (front : List ℕ) (k dimension : ℕ) (r : Record) (ws : List ℕ)
    → CanStore dimension r ws
    → k < length (encode_record dimension r ws)
    → view s ≡ front ++ take k (encode_record dimension r ws)
    → s.file_size ≡ length (view s)
    → length front + record_padded_size dimension (metadata_length r.metadata) < u64_mod
    → read_record env s (length front) dimension ≡ outside
unfolding read_record
read_record_torn env s front k dimension r ws c short shows whole small =
    elim (le-or-lt record_header_bytes k) [
      | inl header ↦ rw (gt→leb s.file_size (length front) (omega (arith, file_end))) (
          rw
            (
              length_read header,
              mod-eq_of_lt small,
              lt→ltb s.file_size (length front + size) (omega (arith, file_end)),
            )
            (outside_after (ltb s.file_size _)))
      | inr cut ↦ rw (mod-eq_of_lt {m = u64_mod} header_small) (
          rw (lt→ltb s.file_size (length front + record_header_bytes) (omega (arith, file_end)))
            (outside_after (leb s.file_size (length front))))
    ]
  where
    size : ℕ
    size = record_padded_size dimension (metadata_length r.metadata)

    file_end : (s.file_size ≡ length front + k) × (k < size) × (record_header_bytes ≤ size)
    file_end = (
      omega (
        arith,
        ap length shows,
        length-append front (take k (encode_record dimension r ws)),
        length-take k (encode_record dimension r ws),
      ),
      omega (arith, length-encode_record dimension r ws c),
      omega (arith, record_padded_size_bounds dimension (metadata_length r.metadata) c.size_fits),
    )

    header_small : length front + record_header_bytes < u64_mod
    header_small = omega (arith, file_end)

    length_read :
        record_header_bytes ≤ k
        → (read_header (drop (length front) (view s))).meta_len ≡ metadata_length r.metadata
    length_read header =
        ap (λ t. (read_header (drop (length front) t)).meta_len) shows
        ∙ ap (λ t. (read_header t).meta_len) (drop-append (length front) front _ refl)
        ∙ torn_meta_len k dimension r ws c header

    outside_after : (b : Bool) → (if b then outside else outside) ≡ outside
    outside_after true = refl
    outside_after false = refl
