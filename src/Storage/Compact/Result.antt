-- ===== src/Storage/Compact/Result.antt =====
-- src/storage.c: what a compaction keeps, and what it loses.
use vecdb.Prelude.{ℕ, ◌≤◌, ◌<◌, ◌≡◌, refl, ap, ◌∙◌, arith, List, map, some, true, false}
use vecdb.Prelude.{Option, none, ltb, ◌&&◌, if◌then◌else◌, length, take-length, le→leb, gt→leb}
use vecdb.Storage.Types.{Storage, Record, success, failure, floats_of}
use vecdb.Storage.Write.{appended}
use vecdb.Storage.Read.{map_file}
use vecdb.Storage.File.{Written, file_of}
use vecdb.Storage.Compact.{CompactHost, relocate, temporary, swapped, storage_compact}
use vecdb.Storage.Compact.Layout.{Left, kept_from, storage_compact_lem}

-- Everything that the environment decides goes well.
pub record Grants (host : CompactHost) : Type 0 where
  pub opens : host.opens ≡ true
  pub allocates : host.allocates ≡ true
  pub renames : host.renames ≡ true
  pub reopens : host.reopens ≡ true

swapped_facts :
    (host : CompactHost) (s out : Storage)
    → host.reopens ≡ true
    → ((swapped host s out).bytes ≡ out.bytes)
      × ((swapped host s out).is_open ≡ true)
      × ((swapped host s out).pos ≡ length out.bytes)
      × ((swapped host s out).file_size ≡ length out.bytes)
      × ((swapped host s out).mmap_data ≡ (
          if ltb 0 (length out.bytes) && host.env.mmap (length out.bytes)
          then some s.maps
          else none))
unfolding swapped map_file
swapped_facts host s out h =
    (ground (arith, h), ground (arith, h), ground (arith, h), ground (arith, h), rw h refl)

module _ (host : CompactHost) (grants : Grants host) (s : Storage) (dimension : ℕ)
    (records : List Record) (ws : List Written) (left : Left s dimension records ws) where
  -- The mapping of a new file of so many bytes.
  abbrev mapping : ℕ → Option ℕ
  mapping size = if ltb 0 size && host.env.mmap size then some s.maps else none

  -- Where the new file fits on the disk, a compaction succeeds: the file is the records that are left,
  -- in their order and with nothing between them, the stream and the mapping cover just that file, and
  -- each record in memory notes the offset at which its bytes begin.
  pub storage_compact-file_of :
      length (file_of dimension ws) ≤ s.room
      → (s' : Storage) × (records' : List Record) × (storage_compact host s records dimension
          ≡ some (success, s', records'))
        × (s'.bytes ≡ file_of dimension ws)
        × (s'.is_open ≡ true)
        × (s'.pos ≡ length (file_of dimension ws))
        × (s'.file_size ≡ length (file_of dimension ws))
        × (s'.mmap_data ≡ mapping (length (file_of dimension ws)))
        × (records' ≡ map (relocate s'.mmap_data) (kept_from dimension 0 ws))
  storage_compact-file_of fits = (
    swapped host s after,
    map (relocate (swapped host s after).mmap_data) (kept_from dimension 0 ws),
    storage_compact_lem host s dimension records ws left grants.opens grants.allocates
          grants.renames grants.reopens
        ∙ rw (le→leb (length (file_of dimension ws)) s.room fits) refl,
    facts.0 ∙ bytes_eq,
    facts.1,
    facts.2 ∙ ap length bytes_eq,
    facts.3 ∙ ap length bytes_eq,
    facts.4 ∙ ap (λ bytes. mapping (length bytes)) bytes_eq,
    refl,
  )
    where
      after : Storage
      after = appended (file_of dimension ws) (temporary s)

      bytes_eq : after.bytes ≡ file_of dimension ws
      bytes_eq = unfold appended temporary in take-length s.room (file_of dimension ws) fits

      facts :
          ((swapped host s after).bytes ≡ after.bytes)
          × ((swapped host s after).is_open ≡ true)
          × ((swapped host s after).pos ≡ length after.bytes)
          × ((swapped host s after).file_size ≡ length after.bytes)
          × ((swapped host s after).mmap_data ≡ mapping (length after.bytes))
      facts = swapped_facts host s after grants.reopens

  -- Where the new file does not fit on the disk, a compaction fails and leaves the file and the records as they were.
  pub storage_compact_full :
      s.room < length (file_of dimension ws)
      → storage_compact host s records dimension ≡ some (failure, s, records)
  storage_compact_full full =
      storage_compact_lem host s dimension records ws left grants.opens grants.allocates
        grants.renames grants.reopens
      ∙ rw (gt→leb (length (file_of dimension ws)) s.room full) refl

-- A record that was inserted since the file was mapped has no vector after a compaction.
pub relocate_heap :
    (s : Storage) (now : Option ℕ) (dimension offset : ℕ) (r : Record)
    → r.is_mmap ≡ false
    → floats_of s dimension (relocate now (record { row = r; new_offset = offset })).vector ≡ none
unfolding relocate floats_of
relocate_heap s now dimension offset r h = ground (arith, h)
