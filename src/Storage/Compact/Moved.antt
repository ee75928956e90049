-- ===== src/Storage/Compact/Moved.antt =====
-- src/storage.c: what the records in memory lead to after a compaction.
use vecdb.Prelude.{
  ℕ, ◌+◌, ◌≤◌, ◌<◌, ◌≡◌, refl, ap, sym, ◌∙◌, arith, List, [], ◌∷◌, ◌++◌, map, subst,
}
use vecdb.Prelude.{Option, none, some, Bool, Bool-cases, true, inl, inr, if◌then◌else◌}
use vecdb.Prelude.{length, length-append, append_assoc, All, take-length, ltb, lt→ltb, ◌&&◌}
use vecdb.Prelude.Bytes.{u64_mod}
use vecdb.Storage.Types.{Env, Storage, Record, success, mapped, view, floats_of}
use vecdb.Storage.Layout.{record_header_bytes, record_padded_size_bounds, metadata_length}
use vecdb.Storage.Write.{encode_record}
use vecdb.Storage.Codec.{length-encode_record}
use vecdb.Storage.File.{Written, file_of, CanWrite}
use vecdb.Storage.Fetch.{floats_of-mapped}
use vecdb.Storage.Compact.{CompactHost, Kept, relocate, storage_compact}
use vecdb.Storage.Compact.Layout.{Left, kept_from}
use vecdb.Storage.Compact.Result.{Grants, storage_compact-file_of, relocate_heap}

-- Records that were moved: the id, the metadata and the flag are kept, the offset is that of the
-- record's bytes in a file where they stand one behind the other, and the vector leads to the floats
-- if it led into the mapping before, and else to nothing.
pub data Moved (s : Storage) (dimension : ℕ) : ℕ → List Written → List Record → Type 0 where
  over : {offset : ℕ} → Moved s dimension offset [] []
  moved :
      {offset : ℕ} {w : Written} {ws : List Written} {r : Record} {rs : List Record}
      → r.id ≡ w.row.id
      → r.metadata ≡ w.row.metadata
      → r.is_deleted ≡ w.row.is_deleted
      → r.byte_offset ≡ offset
      → floats_of s dimension r.vector ≡ (if w.row.is_mmap then some w.words else none)
      → Moved s dimension (offset + length (encode_record dimension w.row w.words)) ws rs
      → Moved s dimension offset (w ∷ ws) (r ∷ rs)

relocate_facts :
    (now : Option ℕ) (k : Kept)
    → ((relocate now k).id ≡ k.row.id)
      × ((relocate now k).metadata ≡ k.row.metadata)
      × ((relocate now k).is_deleted ≡ k.row.is_deleted)
      × ((relocate now k).byte_offset ≡ k.new_offset)
unfolding relocate
relocate_facts now k = (ground arith, ground arith, ground arith, ground arith)

relocate_mapped :
    (g : ℕ) (k : Kept)
    → k.row.is_mmap ≡ true
    → (relocate (some g) k).vector ≡ mapped g (k.new_offset + record_header_bytes)
unfolding relocate
relocate_mapped g k h = ground (arith, h)

-- An environment that grants memory; the floats behind a pointer do not depend on it.
abbrev memory : Env
memory = record { malloc = λ n. true; mmap = λ n. true }

module _ (s : Storage) (g dimension : ℕ) where
  relocate-floats_of :
      (w : Written) (front rest : List ℕ) (offset : ℕ)
      → s.mmap_data ≡ some g
      → s.file_size < u64_mod
      → view s ≡ front ++ (encode_record dimension w.row w.words ++ rest)
      → length front ≡ offset
      → CanWrite dimension w
      → floats_of s dimension
          (relocate (some g) (record { row = w.row; new_offset = offset })).vector
        ≡ (if w.row.is_mmap then some w.words else none)
  relocate-floats_of w front rest offset m small shows len can = elim (Bool-cases w.row.is_mmap) [
    | inl h ↦
        ap (floats_of s dimension) (
          relocate_mapped g (record { row = w.row; new_offset = offset }) h
          ∙ ap (λ o. mapped g (o + record_header_bytes)) (sym len))
        ∙ floats_of-mapped memory s g dimension w.row w.words front rest
            (record { is_mapped = m; shows = shows; small = small; can_store = can; memory = refl })
        ∙ ap (λ (b : Bool). if b then some w.words else none) (sym h)
    | inr h ↦
        relocate_heap s (some g) dimension offset w.row h
        ∙ ap (λ (b : Bool). if b then some w.words else none) (sym h)
  ]

  relocate-Moved :
      (ws : List Written) (front : List ℕ) (offset : ℕ)
      → s.mmap_data ≡ some g
      → s.file_size < u64_mod
      → view s ≡ front ++ file_of dimension ws
      → length front ≡ offset
      → All (CanWrite dimension) ws
      → Moved s dimension offset ws (map (relocate (some g)) (kept_from dimension offset ws))
  unfolding file_of kept_from
  relocate-Moved [] front offset m small shows len can = over
  relocate-Moved (w ∷ ws) front offset m small shows len can =
      let facts = relocate_facts (some g) (record { row = w.row; new_offset = offset }) in
      moved facts.0 facts.1 facts.2 facts.3
        (relocate-floats_of w front (file_of dimension ws) offset m small shows len can.0)
        (relocate-Moved ws (front ++ encode_record dimension w.row w.words) _ m small
          (shows
            ∙ sym
                (append_assoc front (encode_record dimension w.row w.words) (file_of dimension ws)))
          (omega (arith, length-append front (encode_record dimension w.row w.words))) can.1)

file_of_pos :
    (dimension : ℕ) (w : Written) (ws : List Written)
    → CanWrite dimension w
    → 0 < length (file_of dimension (w ∷ ws))
unfolding file_of
file_of_pos dimension w ws can = omega (
  arith,
  length-append (encode_record dimension w.row w.words) (file_of dimension ws),
  length-encode_record dimension w.row w.words can,
  record_padded_size_bounds dimension (metadata_length w.row.metadata) can.size_fits,
)

-- The records that a mapping of the whole file gives.
relocate-Moved_whole :
    (s : Storage) (g dimension : ℕ) (ws : List Written)
    → s.bytes ≡ file_of dimension ws
    → s.file_size ≡ length (file_of dimension ws)
    → s.mmap_data ≡ (if ltb 0 (length (file_of dimension ws)) && true then some g else none)
    → s.file_size < u64_mod
    → All (CanWrite dimension) ws
    → Moved s dimension 0 ws (map (relocate s.mmap_data) (kept_from dimension 0 ws))
relocate-Moved_whole s g dimension [] bytes size m small can = unfold kept_from in over
relocate-Moved_whole s g dimension (w ∷ ws) bytes size m small can =
    subst
      (λ now. Moved s dimension 0 (w ∷ ws) (map (relocate now) (kept_from dimension 0 (w ∷ ws))))
      (sym mapping)
      (relocate-Moved s g dimension (w ∷ ws) [] 0 mapping small
        (take-length s.file_size s.bytes (omega (arith, size, ap length bytes)) ∙ bytes) refl can)
  where
    mapping : s.mmap_data ≡ some g
    mapping =
        m
        ∙ rw (lt→ltb 0 (length (file_of dimension (w ∷ ws))) (file_of_pos dimension w ws can.0))
            refl

module _ (host : CompactHost) (grants : Grants host) (maps : (n : ℕ) → host.env.mmap n ≡ true)
    (s : Storage) (dimension : ℕ) (records : List Record) where
  -- Where the new file fits on the disk and in a `size_t`, a compaction succeeds, mappings granted:
  -- the file is the records that are left, in their order and with nothing between them, the stream
  -- and the mapping cover just that file, and each record in memory keeps its id, its metadata and its
  -- flag, notes the offset at which its bytes begin, and leads to the floats it led to before if it was
  -- read from the mapping, else to nothing.
  pub storage_compact-Moved :
      (ws : List Written)
      → Left s dimension records ws
      → All (CanWrite dimension) ws
      → length (file_of dimension ws) ≤ s.room
      → length (file_of dimension ws) < u64_mod
      → (s' : Storage) × (records' : List Record) × (storage_compact host s records dimension
          ≡ some (success, s', records'))
        × (s'.bytes ≡ file_of dimension ws)
        × (s'.is_open ≡ true)
        × (s'.pos ≡ length (file_of dimension ws))
        × (s'.file_size ≡ length (file_of dimension ws))
        × Moved s' dimension 0 ws records'
  storage_compact-Moved ws left can fits small =
      let result = storage_compact-file_of host grants s dimension records ws left fits in
      (
        result.0,
        result.1,
        result.2,
        result.3,
        result.4,
        result.5,
        result.6,
        subst (Moved result.0 dimension 0 ws) (sym result.8) (
            relocate-Moved_whole result.0 s.maps dimension ws result.3 result.6
              (result.7 ∙ rw (maps (length (file_of dimension ws))) refl) (omega (arith, result.6))
              can),
      )
