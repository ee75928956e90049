-- ===== src/Examples/Tables.antt =====
-- Runs of src/db.c, and its theorems at concrete inputs.
use vecdb.Prelude.{
  if◌then◌else◌, ℕ, ◌≤◌, ◌≡◌, ◌↔◌, refl, arith, List, [], ◌∷◌, ◌++◌, none, some, true, false,
  length, take, All,
}
use vecdb.Prelude.Bytes.{floats_bytes, encode_le}
use vecdb.Distance.{metric_euclidean, get_distance}
use vecdb.Storage.Types.{Storage, heap, strlen}
use vecdb.Storage.Layout.{
  record_chunks, metadata_length, metadata_bytes, record_pad, record_padded_size, record_used,
}
use vecdb.Storage.Write.{appended, seek_end, status_of, encode_record}
use vecdb.Storage.File.{Written, file_of, size_of, CanWrite}
use vecdb.Db.Types.{FlatDb}
use vecdb.Db.Name.{validate_db_name, validate_db_name_iff, IsNameChar}
use vecdb.Db.Init.{opened, TableFiles, db_init}
use vecdb.Db.Insert.{done, db_insert}
use vecdb.Db.Effects.{db_insert_lem, inserted, inserted_bytes, has_room}
use vecdb.Db.Reopen.{db_init_forgets}
use vecdb.Examples.Instances.{plain_floats, plain_sorting, granting, table_host}

abbrev table_name : List ℕ
table_name = b'd' ∷ b'b' ∷ b'_' ∷ b'1' ∷ []

abbrev bad_name : List ℕ
bad_name = b'.' ∷ b'.' ∷ b'/' ∷ []

table_name-run : validate_db_name (some table_name) ≡ true
unfolding validate_db_name
table_name-run = refl

bad_name-run : validate_db_name (some bad_name) ≡ false
unfolding validate_db_name
bad_name-run = refl

validate_db_name_iff_example :
    (validate_db_name (some bad_name) ≡ true)
    ↔ ((1 ≤ length bad_name) × (length bad_name ≤ 64) × All IsNameChar bad_name)
validate_db_name_iff_example = validate_db_name_iff bad_name

abbrev pub row : ℕ → List ℕ → Written
row id ws = record {
  row = record {
    id = id;
    vector = heap ws;
    metadata = none;
    is_deleted = false;
    byte_offset = 0;
    is_mmap = false;
  };
  words = ws;
}

abbrev pub first : Written
first = row 5 (1 ∷ [])

abbrev second : Written
second = row 6 (2 ∷ [])

pub first-CanWrite : CanWrite 1 first
unfolding metadata_length
first-CanWrite = omega arith

second-CanWrite : CanWrite 1 second
unfolding metadata_length
second-CanWrite = omega arith

-- A file with one record whole and nine bytes of a second.
abbrev torn_file : List ℕ
torn_file = file_of 1 (first ∷ []) ++ take 9 (encode_record 1 second.row second.words)

abbrev torn_store : Storage
torn_store = record {
  bytes = torn_file;
  room = 4096;
  is_open = true;
  pos = 0;
  mmap_data = some 0;
  file_size = length torn_file;
  maps = 1;
}

first_size : length (file_of 1 (first ∷ [])) ≡ 32
unfolding file_of encode_record record_chunks floats_bytes encode_le metadata_bytes metadata_length
    strlen record_pad record_padded_size record_used
first_size = refl

second_size : size_of 1 second ≡ 32
unfolding metadata_length record_padded_size record_used
second_size = refl

second_length : length (encode_record 1 second.row second.words) ≡ 32
unfolding encode_record record_chunks floats_bytes encode_le metadata_bytes metadata_length strlen
    record_pad record_padded_size record_used
second_length = refl

abbrev files : TableFiles
files = record { data_db = some (file_of 1 (first ∷ [])); meta_bin = none; pending_bin = none }

db_init_forgets_example :
    (db : FlatDb) × (files' : TableFiles) × (db_init plain_floats plain_sorting table_host 1
        (some table_name)
        1
        4
        1
        files
      ≡ opened db files')
    × (db.records ≡ [])
    × (db.storage.bytes ≡ file_of 1 (first ∷ []))
db_init_forgets_example =
    db_init_forgets plain_floats plain_sorting table_host 0 (some table_name) 1 4 1
      (file_of 1 (first ∷ [])) files table_name-run refl (λ n. refl) refl

abbrev pub table : FlatDb
table = record {
  dimension = 1;
  capacity = 1;
  records = first.row ∷ [];
  calculate_distance = get_distance plain_floats metric_euclidean;
  storage = record {
    bytes = [];
    room = 4096;
    is_open = true;
    pos = 0;
    mmap_data = none;
    file_size = 0;
    maps = 0;
  };
  pending_deletes = none;
}

db_insert_lem_example :
    (db' : FlatDb) × (db_insert granting table 6 (2 ∷ []) none
      ≡ done (status_of (has_room table 6 (2 ∷ []) none)) db')
    × (db'.records ≡ (
        if has_room table 6 (2 ∷ []) none
        then first.row ∷ inserted table 6 (2 ∷ []) none ∷ []
        else first.row ∷ []))
    × (db'.storage ≡ appended (inserted_bytes table 6 (2 ∷ []) none) (seek_end table.storage))
    × (length db'.records ≤ db'.capacity)
db_insert_lem_example =
    db_insert_lem granting table 6 (2 ∷ []) none (λ n. refl) refl (omega arith) (omega arith)
      (omega arith) (omega arith)
