-- ===== src/Db/Reopen.antt =====
-- src/db.c: what `db_init` gets of a data file, and the rounds that it takes.
use vecdb.Prelude.{
  Bool, false, if◌then◌else◌, ltb, length, take, drop, ℕ, zero, suc, ◌*◌, ◌%◌, ◌≤◌, ◌≡◌, refl, ap,
  ◌∙◌, arith, List, [],
}
use vecdb.Prelude.{Option, none, some, true}
use vecdb.Prelude.{inl, inr, Option-cases}
use vecdb.Prelude.Bytes.{u64_mod, u64_at, decode_le}
use vecdb.Floats.{Floats}
use vecdb.Pending.{Sorting, load_pending_deletes}
use vecdb.Pending.Queue.{load_pending_deletes-granted}
use vecdb.Distance.{get_distance}
use vecdb.Storage.Types.{Env, Storage}
use vecdb.Storage.Read.{storage_load_record, storage_init, map_file}
use vecdb.Storage.Torn.{read_record_end}
use vecdb.Db.Types.{FlatDb, db_size, record_size}
use vecdb.Db.Name.{validate_db_name}
use vecdb.Db.Init.{
  Loading, complete, load_loop, Host, Opened, refused, unfinished, opened, TableFiles, db_init,
  db_open,
}
use vecdb.Db.Init.{meta_after, metric_type}

-- With the stream at the end of the mapping the loop takes up nothing.
load_loop_at_end :
    (env : Env) (dimension fuel : ℕ) (st : Loading)
    → st.storage.file_size ≤ st.storage.pos
    → load_loop env dimension (suc fuel) st ≡ complete st
unfolding load_loop storage_load_record
load_loop_at_end env dimension fuel st h = elim (Option-cases st.storage.mmap_data) [
  | inl unmapped ↦ ground (arith, unmapped)
  | inr (g, m) ↦ ground (arith, m, read_record_end env st.storage st.storage.pos dimension h)
]

-- `storage_init` measures the file at its end and leaves the stream there.
storage_init_at_end :
    (env : Env) (room : ℕ) (data_db : Option (List ℕ))
    → (storage_init env room data_db).file_size ≤ (storage_init env room data_db).pos
unfolding storage_init map_file
storage_init_at_end env room none = omega arith
storage_init_at_end env room (some bytes) = omega arith

storage_init-bytes :
    (env : Env) (room : ℕ) (data_db : Option (List ℕ)) (bytes : List ℕ)
    → data_db ≡ some bytes
    → (storage_init env room data_db).bytes ≡ bytes
unfolding storage_init map_file
storage_init-bytes env room data_db bytes e = ground arith

-- With a valid name and memory the table opens, with no records and with the storage as it was made.
pub db_init_opens :
    (F : Floats) (libc : Sorting) (host : Host) (fuel : ℕ) (name : Option (List ℕ))
    (dimension initial_capacity metric : ℕ) (files : TableFiles)
    → validate_db_name name ≡ true
    → host.opens_data ≡ true
    → ((n : ℕ) → host.env.malloc n ≡ true)
    → (db : FlatDb) × (files' : TableFiles) × (db_init F libc host
          (suc fuel)
          name
          dimension
          initial_capacity
          metric
          files
        ≡ opened db files')
      × (db.records ≡ [])
      × (db.dimension ≡ dimension)
      × (db.storage ≡ storage_init host.env host.room files.data_db)
unfolding db_init
db_init_opens F libc host fuel name dimension initial_capacity metric files valid opens memory = (
  record {
    dimension = dimension;
    capacity = initial_capacity;
    records = [];
    calculate_distance = get_distance F (metric_type metric);
    storage = storage;
    pending_deletes = pending.0;
  },
  record {
    data_db = some storage.bytes;
    meta_bin = meta_after host dimension metric files;
    pending_bin = files.pending_bin;
  },
  ground (
    arith,
    valid,
    memory db_size,
    memory (record_size * initial_capacity % u64_mod),
    opens,
    load_loop_at_end host.env dimension fuel
        (record { records = []; capacity = initial_capacity; storage = storage })
        (storage_init_at_end host.env host.room files.data_db),
    pending.1,
  ),
  refl,
  refl,
  refl,
)
  where
    storage : Storage
    storage = storage_init host.env host.room files.data_db

    pending :
        (p : Option (List ℕ)) × (load_pending_deletes host.env libc files.pending_bin ≡ some p)
    pending = load_pending_deletes-granted host.env libc files.pending_bin memory

-- `db_init` opens a table with no records, whatever stands in its data file, which it keeps: where
-- the name is valid and memory is granted, the stream is at the end of the file when the load loop
-- begins.
pub db_init_forgets :
    (F : Floats) (libc : Sorting) (host : Host) (fuel : ℕ) (name : Option (List ℕ))
    (dimension initial_capacity metric : ℕ) (bytes : List ℕ) (files : TableFiles)
    → validate_db_name name ≡ true
    → host.opens_data ≡ true
    → ((n : ℕ) → host.env.malloc n ≡ true)
    → files.data_db ≡ some bytes
    → (db : FlatDb) × (files' : TableFiles) × (db_init F libc host
          (suc fuel)
          name
          dimension
          initial_capacity
          metric
          files
        ≡ opened db files')
      × (db.records ≡ [])
      × (db.storage.bytes ≡ bytes)
db_init_forgets F libc host fuel name dimension initial_capacity metric bytes files valid opens
      memory data_db =
    let o =
      db_init_opens F libc host fuel name dimension initial_capacity metric files valid opens
        memory in
    (
      o.0,
      o.1,
      o.2,
      o.3,
      ap (λ s. s.bytes) o.5 ∙ storage_init-bytes host.env host.room files.data_db bytes data_db,
    )

-- One round is enough for the load loop of `db_init`, and so for `db_open`.
pub db_init-unfinished :
    (F : Floats) (libc : Sorting) (host : Host) (fuel : ℕ) (name : Option (List ℕ))
    (dimension initial_capacity metric : ℕ) (files : TableFiles)
    → db_init F libc host fuel name dimension initial_capacity metric files ≡ unfinished
    → fuel ≡ 0
unfolding db_init
db_init-unfinished F libc host zero name dimension initial_capacity metric files h = refl
db_init-unfinished F libc host (suc fuel) name dimension initial_capacity metric files h = absurd (
    ground (
      arith,
      h,
      load_loop_at_end host.env dimension fuel
          (record {
            records = [];
            capacity = initial_capacity;
            storage = storage_init host.env host.room files.data_db;
          })
          (storage_init_at_end host.env host.room files.data_db),
    ))

pub db_open-unfinished :
    (F : Floats) (libc : Sorting) (host : Host) (fuel : ℕ) (name : Option (List ℕ))
    (files : TableFiles)
    → db_open F libc host fuel name files ≡ unfinished
    → fuel ≡ 0
unfolding db_open
db_open-unfinished F libc host fuel name files = by_meta (validate_db_name name) files.meta_bin
  where
    by_length :
        (b : Bool) (bytes : List ℕ)
        → (if b
            then refused
            else db_init F libc host fuel name
                (u64_at bytes)
                10
                (decode_le (take 4 (drop 8 bytes)))
                files)
          ≡ unfinished
        → fuel ≡ 0
    by_length true bytes h = absurd cc
    by_length false bytes h =
        db_init-unfinished F libc host fuel name (u64_at bytes) 10
          (decode_le (take 4 (drop 8 bytes))) files h

    by_meta :
        (valid : Bool) (meta : Option (List ℕ))
        → (if valid
            then (elim meta as (λ x. Opened) [
              | none ↦ refused
              | some bytes ↦
                  if ltb (length bytes) 12
                  then refused
                  else db_init F libc host fuel name
                      (u64_at bytes)
                      10
                      (decode_le (take 4 (drop 8 bytes)))
                      files
            ])
            else refused)
          ≡ unfinished
        → fuel ≡ 0
    by_meta false meta h = absurd cc
    by_meta true none h = absurd cc
    by_meta true (some bytes) h = by_length (ltb (length bytes) 12) bytes h
