-- ===== src/Db/Close.antt =====
-- src/db.c and src/storage.c: what `db_close` and `storage_close` give back.
use vecdb.Prelude.{
  ℕ, ◌+◌, ◌≡◌, All, All-append, List, [], ◌∷◌, ◌++◌, Option, none, some, Bool, true, false,
}
use vecdb.Storage.Types.{Storage, Record, Vector, null, heap, mapped}
use vecdb.Db.Types.{FlatDb}

-- What is given back: blocks, which are told apart by what they are for and the place of their record,
-- the mapping of a number with its size, and the stream. `stray` is a pointer into a mapping that is
-- given to `free`, which is undefined.
pub data Block : Type 0 where
  metadata_of : ℕ → Block
  vector_of : ℕ → Block
  stray : ℕ → Block
  records_array : Block
  mapping : ℕ → ℕ → Block
  stream : Block
  storage_block : Block
  pending_array : Block
  db_block : Block

-- `free(vector)` of a record that does not count as mapped.
unfoldable pub freed_vector : ℕ → Vector → List Block
freed_vector i null = []
freed_vector i (heap ws) = vector_of i ∷ []
freed_vector i (mapped g a) = stray i ∷ []

unfoldable pub record_blocks : ℕ → Record → List Block
unfolding freed_vector
record_blocks i r =
    (elim r.metadata [ none ↦ [] | some m ↦ metadata_of i ∷ [] ])
    ++ (elim r.is_mmap [ true ↦ [] | false ↦ freed_vector i r.vector ])

-- The loop over the records from the place `i` on.
unfoldable pub records_blocks : ℕ → List Record → List Block
unfolding record_blocks
records_blocks i [] = []
records_blocks i (r ∷ more) = record_blocks i r ++ records_blocks (i + 1) more

-- `storage_close`.
unfoldable pub storage_close : Storage → List Block
storage_close s =
    (elim s.mmap_data [ none ↦ [] | some g ↦ mapping g s.file_size ∷ [] ])
    ++ ((elim s.is_open [ true ↦ stream ∷ [] | false ↦ [] ]) ++ (storage_block ∷ []))

-- `db_close`, in the order of the calls.
unfoldable pub db_close : FlatDb → List Block
unfolding records_blocks storage_close
db_close db =
    records_blocks 0 db.records
    ++ (records_array
        ∷ (storage_close db.storage
            ++ ((elim db.pending_deletes [ none ↦ [] | some ids ↦ pending_array ∷ [] ])
                ++ (db_block ∷ []))))

-- A pointer into the mapping belongs to a record that counts as mapped.
abbrev pub IsMarked : Vector → Bool → Type 0
IsMarked null is_mmap = Unit {0}
IsMarked (heap ws) is_mmap = Unit {0}
IsMarked (mapped g a) is_mmap = is_mmap ≡ true

-- What may be given to `free`, `munmap` or `fclose`.
abbrev pub IsOwned : Block → Type 0
IsOwned (metadata_of i) = Unit {0}
IsOwned (vector_of i) = Unit {0}
IsOwned (stray i) = ⊥
IsOwned records_array = Unit {0}
IsOwned (mapping g size) = Unit {0}
IsOwned stream = Unit {0}
IsOwned storage_block = Unit {0}
IsOwned pending_array = Unit {0}
IsOwned db_block = Unit {0}

vector-IsOwned :
    (i : ℕ) (v : Vector) (is_mmap : Bool)
    → IsMarked v is_mmap
    → All IsOwned (elim is_mmap as (λ x. List Block) [ true ↦ [] | false ↦ freed_vector i v ])
unfolding freed_vector
vector-IsOwned i v true h = tt
vector-IsOwned i null false h = tt
vector-IsOwned i (heap ws) false h = (tt, tt)
vector-IsOwned i (mapped g a) false h = absurd cc

records-IsOwned :
    (i : ℕ) (rs : List Record)
    → All (λ r. IsMarked r.vector r.is_mmap) rs
    → All IsOwned (records_blocks i rs)
unfolding records_blocks record_blocks
records-IsOwned i [] h = tt
records-IsOwned i (r ∷ more) h =
    All-append IsOwned (record_blocks i r) (records_blocks (i + 1) more)
      (All-append IsOwned (metadata_blocks r.metadata)
        (elim r.is_mmap as (λ x. List Block) [ true ↦ [] | false ↦ freed_vector i r.vector ])
        (metadata-IsOwned r.metadata) (vector-IsOwned i r.vector r.is_mmap h.0))
      (records-IsOwned (i + 1) more h.1)
  where
    metadata_blocks : Option (List ℕ) → List Block
    metadata_blocks o = elim o [ none ↦ [] | some m ↦ metadata_of i ∷ [] ]

    metadata-IsOwned : (o : Option (List ℕ)) → All IsOwned (metadata_blocks o)
    metadata-IsOwned none = tt
    metadata-IsOwned (some m) = (tt, tt)

storage_close-IsOwned : (s : Storage) → All IsOwned (storage_close s)
unfolding storage_close
storage_close-IsOwned s = by_parts s.mmap_data s.is_open
  where
    by_parts :
        (o : Option ℕ) (b : Bool)
        → All IsOwned (
            (elim o as (λ x. List Block) [ none ↦ [] | some g ↦ mapping g s.file_size ∷ [] ])
            ++ ((elim b as (λ x. List Block) [ true ↦ stream ∷ [] | false ↦ [] ])
                ++ (storage_block ∷ [])))
    by_parts none true = (tt, (tt, tt))
    by_parts none false = (tt, tt)
    by_parts (some g) true = (tt, (tt, (tt, tt)))
    by_parts (some g) false = (tt, (tt, tt))

-- Closing a table gives back nothing that it does not own, where every pointer into the mapping belongs
-- to a record that counts as mapped.
db_close-IsOwned :
    (db : FlatDb) → All (λ r. IsMarked r.vector r.is_mmap) db.records → All IsOwned (db_close db)
unfolding db_close
db_close-IsOwned db h =
    All-append IsOwned (records_blocks 0 db.records) _ (records-IsOwned 0 db.records h) (
      tt,
      All-append IsOwned (storage_close db.storage) _ (storage_close-IsOwned db.storage)
          (ending db.pending_deletes),
    )
  where
    ending :
        (o : Option (List ℕ))
        → All IsOwned (
            (elim o as (λ x. List Block) [ none ↦ [] | some ids ↦ pending_array ∷ [] ])
            ++ (db_block ∷ []))
    ending none = (tt, tt)
    ending (some ids) = (tt, (tt, tt))
