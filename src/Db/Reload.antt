-- ===== src/Db/Reload.antt =====
-- src/db.c: what the load loop of `db_init` would recover from a data file, were it started at the
-- front of it.
use vecdb.Prelude.{
  ℕ, zero, suc, ◌+◌, ◌*◌, ◌%◌, ◌<◌, ◌≡◌, refl, sym, ap, ◌∙◌, arith, List, [], ◌∷◌, ◌++◌,
}
use vecdb.Prelude.{
  some, true, length, take, take-length, length-take, append_assoc, append-nil, length-append,
}
use vecdb.Prelude.{inl, inr, Bool-cases, All, if◌then◌else◌, ◌==◌}
use vecdb.Prelude.Bytes.{u64_mod}
use vecdb.Storage.Types.{Env, Storage, Record, mapped, view}
use vecdb.Storage.Layout.{record_header_bytes}
use vecdb.Storage.Write.{encode_record}
use vecdb.Storage.Read.{loaded, storage_load_record, read_record, outside}
use vecdb.Storage.Codec.{stored_metadata, length-encode_record}
use vecdb.Storage.File.{Written, file_of, size_of, records_at, CanWrite}
use vecdb.Storage.Fetch.{Stands, storage_load_record_lem}
use vecdb.Storage.Torn.{read_record-pos, read_record_torn}
use vecdb.Db.Init.{Loading, complete, grow, load_loop}

-- With memory there is always a place for one more record, and nothing else changes.
grow_lem :
    (env : Env) (st : Loading)
    → ((n : ℕ) → env.malloc n ≡ true)
    → (capacity : ℕ) × (grow env st ≡ some (record st { capacity = capacity }))
unfolding grow
grow_lem env st memory = elim (Bool-cases (length st.records == st.capacity)) [
  | inl full ↦ (if st.capacity == 0 then 8 else st.capacity * 2 % u64_mod, rw (full, memory _) refl)
  | inr free ↦ (st.capacity, rw free refl)
]

-- Where the reader finds nothing, the loop is over.
load_loop_end :
    (env : Env) (dimension g fuel : ℕ) (st : Loading)
    → st.storage.mmap_data ≡ some g
    → read_record env st.storage st.storage.pos dimension ≡ outside
    → load_loop env dimension (suc fuel) st ≡ complete st
unfolding load_loop storage_load_record
load_loop_end env dimension g fuel st m end = ground (arith, m, end)

-- A record as the loop takes it up.
abbrev pub record_at : ℕ → ℕ → Written → Record
record_at g offset w = record {
  id = w.row.id;
  vector = mapped g (offset + record_header_bytes);
  metadata = stored_metadata w.row.metadata;
  is_deleted = w.row.is_deleted;
  byte_offset = offset;
  is_mmap = true;
}

module _ (env : Env) (dimension g : ℕ) (tail : List ℕ)
    (memory : (n : ℕ) → env.malloc n ≡ true) where
  -- One round over a record that stands at the stream's position.
  load_loop_step :
      (w : Written) (front rest : List ℕ) (offset fuel : ℕ) (st : Loading)
      → Stands env st.storage g dimension w.row w.words front rest
      → length front ≡ offset
      → st.storage.pos ≡ offset
      → (capacity : ℕ) × (load_loop env dimension (suc fuel) st
          ≡ load_loop env dimension fuel (record {
            records = st.records ++ (record_at g offset w ∷ []);
            capacity = capacity;
            storage = record st.storage { pos = offset + size_of dimension w };
          }))
  unfolding load_loop
  load_loop_step w front rest offset fuel st stands len at = (grown.0, ground (arith, one, grown.1))
    where
      s' : Storage
      s' = record st.storage { pos = offset + size_of dimension w }

      one : storage_load_record env st.storage dimension ≡ loaded (record_at g offset w) s'
      one =
          storage_load_record_lem env st.storage g dimension w.row w.words front rest stands
            (omega arith)
          ∙ ap (λ o. loaded (record_at g o w) (record st.storage { pos = o + size_of dimension w }))
              len

      grown :
          (capacity : ℕ) × (grow env (record st { storage = s' })
            ≡ some (record st { storage = s'; capacity = capacity }))
      grown = grow_lem env (record st { storage = s' }) memory

  -- From the stream's position on, the loop takes up every record and stops where there is none.
  load_loop-file_of :
      (ws : List Written) (front : List ℕ) (offset stop fuel : ℕ) (st : Loading)
      → length ws < fuel
      → All (CanWrite dimension) ws
      → st.storage.mmap_data ≡ some g
      → view st.storage ≡ front ++ (file_of dimension ws ++ tail)
      → st.storage.file_size < u64_mod
      → length front ≡ offset
      → st.storage.pos ≡ offset
      → offset + length (file_of dimension ws) ≡ stop
      → read_record env st.storage stop dimension ≡ outside
      → (capacity : ℕ) × (load_loop env dimension fuel st
          ≡ complete (record {
            records = st.records ++ records_at g dimension offset ws;
            capacity = capacity;
            storage = record st.storage { pos = stop };
          }))
  unfolding file_of records_at
  load_loop-file_of [] front offset stop zero st h can m shows small len at last end =
      absurd (omega arith)
  load_loop-file_of (w ∷ ws) front offset stop zero st h can m shows small len at last end =
      absurd (omega arith)
  load_loop-file_of [] front offset stop (suc fuel) st h can m shows small len at last end = (
    st.capacity,
    load_loop_end env dimension g fuel st m
          (ap (λ p. read_record env st.storage p dimension) here ∙ end)
        ∙ ap complete same,
  )
    where
      here : st.storage.pos ≡ stop
      here = omega arith

      same : st ≡ record {
        records = st.records ++ [];
        capacity = st.capacity;
        storage = record st.storage { pos = stop };
      }
      same = λ i. record {
        records = sym (append-nil st.records) i;
        capacity = st.capacity;
        storage = record st.storage { pos = here i };
      }
  load_loop-file_of (w ∷ ws) front offset stop (suc fuel) st h can m shows small len at last end =
      let step =
        load_loop_step w front (file_of dimension ws ++ tail) offset fuel st stands len at in
      let rest =
        load_loop-file_of ws (front ++ encode_record dimension w.row w.words)
          (offset + size_of dimension w) stop fuel
          (record {
            records = st.records ++ (record_at g offset w ∷ []);
            capacity = step.0;
            storage = record st.storage { pos = offset + size_of dimension w };
          })
          (omega arith) can.1 m shows' small (omega (arith, len', size)) refl
          (omega (arith, whole, size)) (read_record-pos env st.storage _ stop dimension ∙ end) in
      (
        rest.0,
        step.1
            ∙ rest.1
            ∙ ap
                (λ rs. complete (record {
                  records = rs;
                  capacity = rest.0;
                  storage = record st.storage { pos = stop };
                }))
                regroup,
      )
    where
      new : List ℕ
      new = encode_record dimension w.row w.words

      size : length new ≡ size_of dimension w
      size = length-encode_record dimension w.row w.words can.0

      whole : length (new ++ file_of dimension ws) ≡ length new + length (file_of dimension ws)
      whole = length-append new (file_of dimension ws)

      len' : length (front ++ new) ≡ length front + length new
      len' = length-append front new

      at_front : view st.storage ≡ front ++ (new ++ (file_of dimension ws ++ tail))
      at_front = shows ∙ ap (λ t. front ++ t) (append_assoc new (file_of dimension ws) tail)

      shows' : view st.storage ≡ (front ++ new) ++ (file_of dimension ws ++ tail)
      shows' = at_front ∙ sym (append_assoc front new (file_of dimension ws ++ tail))

      stands : Stands env st.storage g dimension w.row w.words front (file_of dimension ws ++ tail)
      stands = record {
        is_mapped = m;
        shows = at_front;
        small = small;
        can_store = can.0;
        memory = memory _;
      }

      regroup :
          (st.records ++ (record_at g offset w ∷ []))
            ++ records_at g dimension (offset + size_of dimension w) ws
          ≡ st.records
            ++ (record_at g offset w ∷ records_at g dimension (offset + size_of dimension w) ws)
      regroup = append_assoc st.records (record_at g offset w ∷ []) _

-- A loop that is started at the front of a file, where `db_init` never starts it, gives back every
-- record that was written whole, in order and each at its offset, also where the write of one more was cut off after any number of its bytes. Memory is
-- granted, the mapping shows the whole file, the records fit their fields and the file a `size_t`;
-- one round more than there are records is enough.
load_loop_recovers :
    (env : Env) (dimension g capacity k : ℕ) (ws : List Written) (torn : Written) (s : Storage)
    → ((n : ℕ) → env.malloc n ≡ true)
    → All (CanWrite dimension) ws
    → CanWrite dimension torn
    → k < length (encode_record dimension torn.row torn.words)
    → s.bytes ≡ file_of dimension ws ++ take k (encode_record dimension torn.row torn.words)
    → s.file_size ≡ length s.bytes
    → s.mmap_data ≡ some g
    → s.pos ≡ 0
    → length (file_of dimension ws) + size_of dimension torn < u64_mod
    → (capacity' : ℕ) × (load_loop env dimension
          (length ws + 1)
          (record { records = []; capacity = capacity; storage = s })
        ≡ complete (record {
          records = records_at g dimension 0 ws;
          capacity = capacity';
          storage = record s { pos = length (file_of dimension ws) };
        }))
load_loop_recovers env dimension g capacity k ws torn s memory can can_torn short file whole m at
      small =
    load_loop-file_of env dimension g part memory ws [] 0 (length (file_of dimension ws))
      (length ws + 1) (record { records = []; capacity = capacity; storage = s }) (omega arith) can
      m shows (omega (arith, part_lt, ap length file, length-append (file_of dimension ws) part))
      refl at (omega arith) nothing_more
  where
    part : List ℕ
    part = take k (encode_record dimension torn.row torn.words)

    part_lt : length part < size_of dimension torn
    part_lt = omega (
      arith,
      length-take k (encode_record dimension torn.row torn.words),
      length-encode_record dimension torn.row torn.words can_torn,
    )

    shows : view s ≡ file_of dimension ws ++ part
    shows = take-length s.file_size s.bytes (omega arith) ∙ file

    nothing_more : read_record env s (length (file_of dimension ws)) dimension ≡ outside
    nothing_more =
        read_record_torn env s (file_of dimension ws) k dimension torn.row torn.words can_torn short
          shows (whole ∙ ap length (sym (take-length s.file_size s.bytes (omega arith)))) small
