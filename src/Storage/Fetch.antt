-- ===== src/Storage/Fetch.antt =====
-- src/storage.c: the readers at a record that stands in the mapping.
use vecdb.Prelude.{ℕ, ◌+◌, ◌*◌, ◌%◌, ◌≤◌, ◌<◌, ◌≡◌, refl, ap, sym, ◌∙◌, arith}
use vecdb.Prelude.{List, ◌++◌, some, true}
use vecdb.Prelude.{length, drop, length-append, length-take, drop-append}
use vecdb.Prelude.{drop-drop, gt→leb, ge→ltb, ==_refl}
use vecdb.Prelude.Bytes.{u64_mod, floats_at}
use vecdb.Storage.Types.{Env, Record, Storage, mapped, view, floats_of}
use vecdb.Storage.Layout.{record_header_bytes, record_padded_size, record_padded_size_bounds}
use vecdb.Storage.Layout.{metadata_length}
use vecdb.Storage.Write.{encode_record}
use vecdb.Storage.Read.{loaded, storage_fetch_by_offset, storage_load_record}
use vecdb.Storage.Read.{read_record, found, read_header, copy_metadata}
use vecdb.Storage.Codec.{CanStore, stored_metadata, length-encode_record, read_header-encode_record}
use vecdb.Storage.Codec.{floats_at-encode_record, copy_metadata-encode_record}
use native.Mathlib.Nat.{mod-eq_of_lt}

-- A record stands behind `front` in the mapping number `g`, and its metadata can be copied.
pub record Stands (env : Env) (s : Storage) (g dimension : ℕ) (r : Record) (ws front rest : List ℕ)
    : Type 0 where
  pub is_mapped : s.mmap_data ≡ some g
  pub shows : view s ≡ front ++ (encode_record dimension r ws ++ rest)
  pub small : s.file_size < u64_mod
  pub can_store : CanStore dimension r ws
  pub memory : env.malloc (metadata_length r.metadata + 1) ≡ true

module _ (env : Env) (s : Storage) (g dimension : ℕ) (r : Record) (ws front rest : List ℕ)
    (at : Stands env s g dimension r ws front rest) where
  abbrev size : ℕ
  size = record_padded_size dimension (metadata_length r.metadata)

  size_bounds : record_header_bytes + 4 * dimension ≤ size
  size_bounds = omega (
    arith,
    record_padded_size_bounds dimension (metadata_length r.metadata) at.can_store.size_fits,
  )

  end-le : length front + size ≤ s.file_size
  end-le = omega (
    arith,
    ap length at.shows,
    length-append front (encode_record dimension r ws ++ rest),
    length-append (encode_record dimension r ws) rest,
    length-encode_record dimension r ws at.can_store,
    length-take s.file_size s.bytes,
  )

  mod_header : (length front + record_header_bytes) % u64_mod ≡ length front + record_header_bytes
  mod_header = mod-eq_of_lt (omega (arith, end-le, size_bounds, at.small))

  mod_end : (length front + size) % u64_mod ≡ length front + size
  mod_end = mod-eq_of_lt (omega (arith, end-le, at.small))

  header :
      read_header (encode_record dimension r ws ++ rest)
      ≡ record { id = r.id; is_deleted = r.is_deleted; meta_len = metadata_length r.metadata }
  header = read_header-encode_record dimension r ws rest at.can_store

  metadata :
      copy_metadata env
        (drop (record_header_bytes + 4 * dimension) (encode_record dimension r ws ++ rest))
        (metadata_length r.metadata)
      ≡ some (stored_metadata r.metadata)
  metadata = copy_metadata-encode_record dimension r ws rest at.can_store env at.memory

  at_record : drop (length front) (view s) ≡ encode_record dimension r ws ++ rest
  at_record = rw at.shows (drop-append (length front) front _ refl)

  pub floats_of-mapped :
      floats_of s dimension (mapped g (length front + record_header_bytes)) ≡ some ws
  unfolding floats_of
  floats_of-mapped = ground (
    arith,
    at.is_mapped,
    ==_refl g,
    fits,
    ap (floats_at dimension) at_floats,
    floats_at-encode_record dimension r ws rest at.can_store,
  )
    where
      fits : length front + record_header_bytes + 4 * dimension ≤ length (view s)
      fits = omega (
        arith,
        size_bounds,
        ap length at.shows,
        length-append front (encode_record dimension r ws ++ rest),
        length-append (encode_record dimension r ws) rest,
        length-encode_record dimension r ws at.can_store,
      )

      at_floats :
          drop (length front + record_header_bytes) (view s)
          ≡ drop record_header_bytes (encode_record dimension r ws ++ rest)
      at_floats =
          sym (drop-drop record_header_bytes (length front) _ (view s) refl)
          ∙ ap (drop record_header_bytes) at_record

  pub read_record_lem :
      read_record env s (length front) dimension
      ≡ found
          (record { id = r.id; is_deleted = r.is_deleted; meta_len = metadata_length r.metadata })
          (stored_metadata r.metadata)
          size
  unfolding read_record
  read_record_lem =
      simp (at_record, header, metadata, mod_header, mod_end)
        (rw (gt→leb s.file_size (length front) (omega (arith, end-le, size_bounds))) (
          rw
            (ge→ltb s.file_size (length front + record_header_bytes)
              (omega (arith, end-le, size_bounds)))
            (rw (ge→ltb s.file_size (length front + size) end-le) refl)))

  pub storage_fetch_by_offset_lem :
      (out : Record)
      → storage_fetch_by_offset env s (length front) out dimension
        ≡ loaded
            (record out {
              id = r.id;
              vector = mapped g (length front + record_header_bytes);
              metadata = stored_metadata r.metadata;
              is_deleted = r.is_deleted;
            })
            s
  unfolding storage_fetch_by_offset
  storage_fetch_by_offset_lem out = ground (arith, at.is_mapped, read_record_lem)

  pub storage_load_record_lem :
      s.pos ≡ length front
      → storage_load_record env s dimension
        ≡ loaded
            (record {
              id = r.id;
              vector = mapped g (length front + record_header_bytes);
              metadata = stored_metadata r.metadata;
              is_deleted = r.is_deleted;
              byte_offset = length front;
              is_mmap = true;
            })
            (record s { pos = length front + size })
  unfolding storage_load_record
  storage_load_record_lem e =
      ground (
        arith,
        e,
        at.is_mapped,
        ap (λ p. read_record env s p dimension) e,
        read_record_lem,
        mod_end,
      )
