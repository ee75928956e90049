-- ===== src/Db/Effects.antt =====
-- src/db.c: what `db_insert` changes, and what it leaves alone.
use vecdb.Prelude.{
  ℕ, ◌*◌, ◌%◌, ◌≤◌, ◌<◌, ◌≡◌, refl, ap, arith, List, [], ◌∷◌, ◌++◌, Option, none, some,
}
use vecdb.Prelude.{
  true, false, Bool, Bool-cases, if◌then◌else◌, length, length-take, take-take, length-append, take,
  leb, le→leb, lt→ltb, ◌==◌, inl, inr,
}
use vecdb.Prelude.Bytes.{u64_mod}
use vecdb.Storage.Types.{Env, Storage, Record, success, failure, floats_of}
use vecdb.Storage.Write.{
  storage_write_record, storage_current_offset, encode_record, appended, seek_end, status_of,
  storage_write_record_lem,
}
use vecdb.Db.Types.{FlatDb}
use vecdb.Db.Insert.{Done, done, db_insert, make_room, new_record, has_memory}

-- With memory there is a place for one more record.
make_room_lem :
    (env : Env) (db : FlatDb)
    → ((n : ℕ) → env.malloc n ≡ true)
    → length db.records ≤ db.capacity
    → 0 < db.capacity
    → db.capacity * 2 < u64_mod
    → (capacity : ℕ) × (make_room env db ≡ some (record db { capacity = capacity }))
      × (length db.records < capacity)
unfolding make_room
make_room_lem env db memory fits pos small = elim (Bool-cases (length db.records == db.capacity)) [
  | inl full ↦ (db.capacity * 2 % u64_mod, rw (full, memory _) refl, ground arith)
  | inr free ↦ (db.capacity, rw free refl, ground arith)
]

has_memory_lem :
    (env : Env) (metadata : Option (List ℕ))
    → ((n : ℕ) → env.malloc n ≡ true)
    → has_memory env metadata ≡ true
has_memory_lem env none memory = refl
has_memory_lem env (some m) memory = memory _

-- The floats of a vector that was copied.
floats_of-new_record :
    (s : Storage) (dimension id : ℕ) (vector : List ℕ) (metadata : Option (List ℕ)) (offset : ℕ)
    → dimension ≤ length vector
    → floats_of s dimension (new_record id (take dimension vector) metadata offset).vector
      ≡ some (take dimension vector)
unfolding floats_of new_record
floats_of-new_record s dimension id vector metadata offset h =
    ground (arith, length-take dimension vector, take-take dimension dimension vector)

storage_current_offset_lem :
    (s : Storage) → s.is_open ≡ true → storage_current_offset s ≡ (length s.bytes, seek_end s)
unfolding storage_current_offset
storage_current_offset_lem s h = ground (arith, h)

-- The record that an insertion makes, and its bytes.
abbrev pub inserted : FlatDb → ℕ → List ℕ → Option (List ℕ) → Record
inserted db id vector metadata =
    new_record id (take db.dimension vector) metadata (length db.storage.bytes)

abbrev pub inserted_bytes : FlatDb → ℕ → List ℕ → Option (List ℕ) → List ℕ
inserted_bytes db id vector metadata =
    encode_record db.dimension (inserted db id vector metadata) (take db.dimension vector)

abbrev pub has_room : FlatDb → ℕ → List ℕ → Option (List ℕ) → Bool
has_room db id vector metadata = leb (length (inserted_bytes db id vector metadata)) db.storage.room

-- What the write of the new record does.
storage_write_record-inserted :
    (db : FlatDb) (id : ℕ) (vector : List ℕ) (metadata : Option (List ℕ))
    → db.storage.is_open ≡ true
    → db.dimension ≤ length vector
    → storage_write_record (seek_end db.storage) (inserted db id vector metadata) db.dimension
      ≡ some (
        status_of (has_room db id vector metadata),
        appended (inserted_bytes db id vector metadata) (seek_end db.storage),
      )
unfolding seek_end
storage_write_record-inserted db id vector metadata is_open long =
    storage_write_record_lem (seek_end db.storage) (inserted db id vector metadata) db.dimension
      (take db.dimension vector) is_open
      (floats_of-new_record (seek_end db.storage) db.dimension id vector metadata _ long)

-- On an open table with places for what it holds and memory granted, an insertion succeeds exactly
-- when the disk has room for the record: then the record stands behind the others, in memory and in
-- the file, with the offset at which the file ended. If there is no room, what fits of its bytes
-- stays behind the file, and the records are as before. The number of records stays within the
-- capacity.
pub db_insert_lem :
    (env : Env) (db : FlatDb) (id : ℕ) (vector : List ℕ) (metadata : Option (List ℕ))
    → ((n : ℕ) → env.malloc n ≡ true)
    → db.storage.is_open ≡ true
    → length db.records ≤ db.capacity
    → 0 < db.capacity
    → db.capacity * 2 < u64_mod
    → db.dimension ≤ length vector
    → (db' : FlatDb) × (db_insert env db id vector metadata
        ≡ done (status_of (has_room db id vector metadata)) db')
      × (db'.records ≡ (
          if has_room db id vector metadata
          then db.records ++ (inserted db id vector metadata ∷ [])
          else db.records))
      × (db'.storage ≡ appended (inserted_bytes db id vector metadata) (seek_end db.storage))
      × (length db'.records ≤ db'.capacity)
unfolding db_insert
db_insert_lem env db id vector metadata memory is_open fits pos small long = (
  record db {
    capacity = room.0;
    storage = appended (inserted_bytes db id vector metadata) (seek_end db.storage);
    records =
        if has_room db id vector metadata
        then db.records ++ (inserted db id vector metadata ∷ [])
        else db.records;
  },
  rw
      (
        room.1,
        db_insert,
        memory _,
        le→leb db.dimension (length vector) long,
        has_memory_lem env metadata memory,
        lt→ltb (length db.records) room.0 room.2,
        storage_current_offset_lem db.storage is_open,
        storage_write_record-inserted db id vector metadata is_open long,
      )
      (ending (has_room db id vector metadata) (storage_current_offset db.storage).0
        (ap (λ p. p.0) (storage_current_offset_lem db.storage is_open))),
  refl,
  refl,
  bounded (has_room db id vector metadata),
)
  where
    room :
        (capacity : ℕ) × (make_room env db ≡ some (record db { capacity = capacity }))
        × (length db.records < capacity)
    room = make_room_lem env db memory fits pos small

    s' : Storage
    s' = appended (inserted_bytes db id vector metadata) (seek_end db.storage)

    records_after : Bool → List Record
    records_after b = if b then db.records ++ (inserted db id vector metadata ∷ []) else db.records

    r : ℕ → Record
    r offset = new_record id (take db.dimension vector) metadata offset

    ending :
        (b : Bool) (offset : ℕ)
        → offset ≡ length db.storage.bytes
        → (elim (status_of b) as (λ x. Storage → Done) [
          | success ↦ λ s. done success (record db {
            capacity = room.0;
            records = db.records ++ (r offset ∷ []);
            storage = s;
          })
          | failure ↦ λ s. done failure (record db { capacity = room.0; storage = s })
        ])
            s'
          ≡ done
              (status_of b)
              (record db { capacity = room.0; records = records_after b; storage = s' })
    ending true offset e =
        ap
          (λ o.
            done success
              (record db { capacity = room.0; records = db.records ++ (r o ∷ []); storage = s' }))
          e
    ending false offset e = refl

    bounded : (b : Bool) → length (records_after b) ≤ room.0
    bounded true =
        omega (arith, room.2, length-append db.records (inserted db id vector metadata ∷ []))
    bounded false = omega (arith, room.2)
