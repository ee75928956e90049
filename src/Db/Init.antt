-- ===== src/Db/Init.antt =====
-- src/db.c: `db_init` and `db_open`.
use vecdb.Prelude.{ℕ, zero, suc, ◌*◌, ◌%◌, List, [], ◌∷◌, ◌++◌, Option, none, some}
use vecdb.Prelude.{Bool, if◌then◌else◌, ◌==◌, ltb, length, take, drop}
use vecdb.Prelude.Bytes.{u64_mod, u64_bytes, u64_at, encode_le, decode_le}
use vecdb.Floats.{Floats}
use vecdb.Distance.{MetricType, metric_cosine, metric_euclidean, other, get_distance}
use vecdb.Pending.{Sorting, load_pending_deletes}
use vecdb.Storage.Types.{Env, Storage, Record}
use vecdb.Storage.Read.{loaded, eof, error, fault, storage_load_record, storage_init}
use vecdb.Db.Types.{FlatDb, record_size, db_size}
use vecdb.Db.Name.{validate_db_name}

-- The files of a table's folder that are read when it is opened; `none` is a file that is not there.
pub record TableFiles : Type 0 where
  pub data_db : Option (List ℕ)
  pub meta_bin : Option (List ℕ)
  pub pending_bin : Option (List ℕ)

-- The stages of the load loop of `db_init`.
pub record Loading : Type 0 where
  pub records : List Record
  pub capacity : ℕ
  pub storage : Storage

-- How the loop ends: at the end of the file or an error of the reader, without memory, or with
-- undefined behaviour. `running` is no end: the rounds given are used up.
pub data LoadEnd : Type 0 where
  complete : Loading → LoadEnd
  no_memory : LoadEnd
  undefined : LoadEnd
  running : Loading → LoadEnd

-- A full array is doubled, an empty one gets 8 places; `none` is a failed `realloc`.
unfoldable pub grow : Env → Loading → Option Loading
grow env st =
    let new_capacity = if st.capacity == 0 then 8 else st.capacity * 2 % u64_mod in
    if length st.records == st.capacity
    then (if env.malloc (record_size * new_capacity % u64_mod)
        then some (record st { capacity = new_capacity })
        else none)
    else some st

-- `while (storage_load_record(…) == 1) …`
unfoldable pub load_loop : Env → ℕ → ℕ → Loading → LoadEnd
unfolding grow
load_loop env dimension zero st = running st
load_loop env dimension (suc fuel) st = elim (storage_load_record env st.storage dimension) [
  | loaded r s' ↦ (elim (grow env (record st { storage = s' })) [
    | none ↦ no_memory
    | some st' ↦ load_loop env dimension fuel (record st' { records = st'.records ++ (r ∷ []) })
  ])
  | eof ↦ complete st
  | error ↦ complete st
  | fault ↦ undefined
]

-- What the environment decides in `db_init` and `db_open` besides memory and mappings: whether the
-- data file can be opened, and how much the disk takes.
pub record Host : Type 0 where
  pub env : Env
  pub opens_data : Bool
  pub writes_meta : Bool
  pub room : ℕ

pub data Opened : Type 0 where
  refused : Opened
  opened : FlatDb → TableFiles → Opened
  faulted : Opened
  unfinished : Opened

-- meta.bin is written only where there is none.
unfoldable pub meta_after : Host → ℕ → ℕ → TableFiles → Option (List ℕ)
meta_after host dimension metric files = elim files.meta_bin [
  | some bytes ↦ some bytes
  | none ↦ if host.writes_meta then some (u64_bytes dimension ++ encode_le 4 metric) else none
]

-- The enumerator that a stored number stands for.
unfoldable pub metric_type : ℕ → MetricType
metric_type n = if n == 0 then metric_cosine else if n == 1 then metric_euclidean else other n

module _ (F : Floats) (libc : Sorting) (host : Host) where
  -- `db_init`, with `fuel` rounds for its loop.
  unfoldable pub db_init : ℕ → Option (List ℕ) → ℕ → ℕ → ℕ → TableFiles → Opened
  db_init fuel db_name dimension initial_capacity metric files =
      let storage = storage_init host.env host.room files.data_db in
      if validate_db_name db_name
      then (if host.env.malloc db_size
          then (if host.env.malloc (record_size * initial_capacity % u64_mod)
              then (if host.opens_data
                  then (elim (load_loop host.env dimension fuel
                      (record { records = []; capacity = initial_capacity; storage = storage })) [
                        | complete st ↦
                            (elim (load_pending_deletes host.env libc files.pending_bin) [
                              | none ↦ faulted
                              | some pending_deletes ↦
                                  opened
                                    (record {
                                      dimension = dimension;
                                      capacity = st.capacity;
                                      records = st.records;
                                      calculate_distance = get_distance F (metric_type metric);
                                      storage = st.storage;
                                      pending_deletes = pending_deletes;
                                    })
                                    (record {
                                      data_db = some st.storage.bytes;
                                      meta_bin = meta_after host dimension metric files;
                                      pending_bin = files.pending_bin;
                                    })
                            ])
                        | no_memory ↦ refused
                        | undefined ↦ faulted
                        | running st ↦ unfinished
                      ])
                  else refused)
              else refused)
          else refused)
      else refused

  -- `db_open`: the dimension and the metric come from meta.bin, which must hold both.
  unfoldable pub db_open : ℕ → Option (List ℕ) → TableFiles → Opened
  db_open fuel db_name files =
      if validate_db_name db_name
      then (elim files.meta_bin [
        | none ↦ refused
        | some bytes ↦
            if ltb (length bytes) 12
            then refused
            else db_init fuel db_name (u64_at bytes) 10 (decode_le (take 4 (drop 8 bytes))) files
      ])
      else refused
