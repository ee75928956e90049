-- ===== src/Examples/Terminal.antt =====
-- Runs of src/terminal.c, and its theorems at concrete inputs.
use vecdb.Prelude.{ℕ, ◌+◌, ◌≤◌, ◌<◌, ◌≡◌, refl, arith, List, [], ◌∷◌, ◌++◌, Option, none, some}
use vecdb.Prelude.{true, false, ◌&&◌, length, ltb, All-replicate, replicate}
use vecdb.Prelude.Bytes.{encode_le, decode_le}
use vecdb.Distance.{metric_euclidean, get_distance}
use vecdb.Pending.{load_pending_deletes, read_ids}
use vecdb.Storage.Read.{storage_init, storage_load_record}
use vecdb.Db.Types.{FlatDb}
use vecdb.Db.Name.{validate_db_name}
use vecdb.Db.Init.{TableFiles, db_init, load_loop, metric_type, meta_after}
use vecdb.Server.Text.{codes, same, skip_spaces}
use vecdb.Server.Keys.{hex, generate_api_key, KeyHost}
use vecdb.Server.Tables.{Folder}
use vecdb.Server.Auth.{load_auth_cache, verify_api_key}
use vecdb.Server.Auth.Lines.{key_file, line_of, without}
use vecdb.Terminal.Scan.{Fields, count_words, scan_fields}
use vecdb.Terminal.Session.{
  Master, Session, Console, continues, initialized, executed, scheduled, hours_left, not_scheduled,
  schedule_cleared, file_name_of, table_name_of,
}
use vecdb.Terminal.Tables.{cmd_init, cmd_open}
use vecdb.Terminal.Queue.{
  read_confirm, cmd_process_deletes, cmd_set_auto_delete, cmd_auto_delete_status,
  cmd_cancel_auto_delete,
}
use vecdb.Terminal.Prompt.{prompt_loop, run_tui}
use vecdb.Terminal.Command.{handle_command, run_command}
use vecdb.Terminal.Keeps.Runs.{session_of, prompt_loop_keeps, run_tui_opens_valid}
use vecdb.Terminal.Deletes.{process_deletes_loses_queue}
use vecdb.Terminal.Schedule.{set_auto_delete_status}
use vecdb.Terminal.Init.{CanInit, keyed_session, cmd_init_admits}
use vecdb.Examples.Instances.{plain_floats, plain_sorting, granting, table_host, sort, place}
use vecdb.Examples.Changes.{auto_host}
use vecdb.Examples.Tables.{table}

-- One byte of the input is one float.
abbrev one_byte : List ℕ → Option ℕ × List ℕ
one_byte [] = (none, [])
one_byte (c ∷ rest) = (some c, rest)

one_byte-takes : (input : List ℕ) → length (one_byte input).1 ≤ length input
one_byte-takes [] = omega arith
one_byte-takes (c ∷ rest) = omega arith

abbrev keys : KeyHost
keys = record { opens_tmp = true; renames = true; opens_keys = true; room = 4096 }

abbrev random_bytes : List ℕ
random_bytes = replicate 32 171

abbrev console : Console
console = record {
  floats = plain_floats;
  libc = plain_sorting;
  scan = record { scan_float = one_byte; takes_bytes = one_byte-takes };
  host = table_host;
  files = auto_host;
  keys = keys;
  fuel = 1;
  random = some random_bytes;
  now = 1000;
  leaves_folder = false;
  sets = true;
  sets_written = true;
}

-- A folder with nothing in it, and a session that has no folder and is given some input.
abbrev no_files : Folder
no_files = record {
  table = record { data_db = none; meta_bin = none; pending_bin = none };
  ivf_index_bin = none;
  auto_delete_schedule = none;
}

abbrev session : List ℕ → Session
session input = record {
  master_db = none;
  has_folder = λ name. false;
  folder = λ name. no_files;
  auth_keys = some [];
  input = input;
}

abbrev open_session : List ℕ → Session
open_session input = record (session input) {
  master_db = some (record { db = table; file_name = file_name_of (codes "d") });
}

exit-run :
    session_of (prompt_loop (λ n. console) 20 0 (open_session (codes "origin open e\n")) [])
    ≡ some (open_session [])
unfolding prompt_loop handle_command count_words scan_fields skip_spaces run_command cmd_open
exit-run = refl

prompt_loop_keeps_example :
    (m' : Master) × ((open_session []).master_db ≡ some m')
    × (m'.file_name ≡ file_name_of (codes "d"))
    × (m'.db.dimension ≡ table.dimension)
prompt_loop_keeps_example =
    prompt_loop_keeps (λ n. console) 20 0 (open_session (codes "origin open e\n")) (open_session [])
      [] (record { db = table; file_name = file_name_of (codes "d") }) (omega arith) refl exit-run

abbrev init_fields : Fields
init_fields = record {
  cmd = codes "origin";
  arg = codes "init";
  db_name = codes "d";
  dimension = 1;
  initial_capacity = 4;
  metric_int = 1;
  ret = 6;
}

abbrev made_table : FlatDb
made_table = record {
  dimension = 1;
  capacity = 4;
  records = [];
  calculate_distance = get_distance plain_floats metric_euclidean;
  storage = storage_init granting 4096 none;
  pending_deletes = none;
}

abbrev made_files : TableFiles
made_files = record {
  data_db = some [];
  meta_bin = some (encode_le 8 1 ++ encode_le 4 1);
  pending_bin = none;
}

abbrev made : Session
made = keyed_session console (session []) init_fields made_table made_files (hex random_bytes)

made-run :
    session_of (run_tui (λ n. console) 30 [] (session (codes "origin init d 1 4 1\n"))) ≡ some made
unfolding run_tui handle_command count_words scan_fields skip_spaces run_command cmd_init db_init
    validate_db_name load_loop storage_load_record storage_init generate_api_key metric_type
    load_pending_deletes meta_after
made-run = refl

run_tui_opens_valid_example :
    (name : List ℕ) × (validate_db_name (some name) ≡ true)
    × (file_name_of (codes "d") ≡ file_name_of name)
    × (table_name_of (file_name_of (codes "d")) ≡ name)
run_tui_opens_valid_example =
    run_tui_opens_valid (λ n. console) 30 [] (session (codes "origin init d 1 4 1\n")) made
      (record { db = made_table; file_name = file_name_of (codes "d") }) (omega arith) made-run refl

d-valid : validate_db_name (some (codes "d")) ≡ true
unfolding validate_db_name
d-valid = refl

init_fields-CanInit : CanInit (session []) init_fields
init_fields-CanInit = record {
  dimension = omega arith;
  capacity = omega arith;
  metric = omega arith;
  new = refl;
  closed = refl;
  valid = d-valid;
}

key-generated : generate_api_key (some random_bytes) ≡ some (hex random_bytes)
unfolding generate_api_key
key-generated = refl

key_room :
    length (key_file [])
      + length (line_of (record { db_name = codes "d"; api_key = hex random_bytes }))
    ≤ 4096
unfolding hex
key_room = omega arith

cmd_init_admits_example :
    (st' : Session) × (db : FlatDb) × (cmd_init console (session []) init_fields 6
      ≡ continues st' (initialized (hex random_bytes)))
    × (st'.has_folder (codes "d") ≡ true)
    × (st'.master_db ≡ some (record { db = db; file_name = file_name_of (codes "d") }))
    × (db.records ≡ [])
    × (db.dimension ≡ 1)
    × (verify_api_key (load_auth_cache st'.auth_keys []) (codes "d") (codes "x")
        ≡ (ltb (length (without (codes "d") [])) 128 && same (hex random_bytes) (codes "x")))
cmd_init_admits_example =
    cmd_init_admits console (session []) init_fields [] [] random_bytes (hex random_bytes)
      (codes "x") init_fields-CanInit (omega arith) refl (λ n. refl) refl refl refl key_room tt refl
      (All-replicate (λ b. b < 256) 32 171 (omega arith)) refl key-generated

-- A table with one record's bytes, a queue with the id 5 and the answer y.
abbrev meta : List ℕ
meta = encode_le 8 1 ++ encode_le 4 1

abbrev queue : List ℕ
queue = encode_le 8 5 ++ encode_le 8 0

abbrev queued_session : Session
queued_session = record (session (codes "y\n")) {
  folder = λ name. record no_files {
    table = record {
      data_db = some (1 ∷ 2 ∷ 3 ∷ []);
      meta_bin = some meta;
      pending_bin = some queue;
    };
  };
}

abbrev queue_fields : Fields
queue_fields = record {
  cmd = codes "origin";
  arg = codes "process-deletes";
  db_name = codes "d";
  dimension = 0;
  initial_capacity = 0;
  metric_int = 0;
  ret = 3;
}

meta_long : 12 ≤ length meta
unfolding encode_le
meta_long = omega arith

queue_loaded : load_pending_deletes granting plain_sorting (some queue) ≡ some (some (5 ∷ []))
unfolding load_pending_deletes encode_le read_ids decode_le sort place
queue_loaded = refl

confirmed : (read_confirm (codes "y\n")).0 ≡ b'y'
unfolding read_confirm
confirmed = refl

process_deletes_loses_queue_example :
    (st' : Session) × (cmd_process_deletes console queued_session queue_fields 3
      ≡ continues st' (executed 0 1))
    × ((st'.folder (codes "d")).table.data_db ≡ some (1 ∷ 2 ∷ 3 ∷ []))
    × ((st'.folder (codes "d")).table.pending_bin ≡ some [])
process_deletes_loses_queue_example =
    process_deletes_loses_queue console queued_session queue_fields (5 ∷ []) meta (1 ∷ 2 ∷ 3 ∷ [])
      (omega arith) refl (λ n. refl) refl d-valid refl meta_long refl queue_loaded confirmed

-- In two days.
abbrev schedule_fields : Fields
schedule_fields = record queue_fields { arg = codes "set-auto-delete"; dimension = 2; ret = 4 }

abbrev an_hour_later : Console
an_hour_later = record console { now = 4600 }

set_auto_delete_status_example :
    (st' : Session) × (st'' : Session) × (cmd_set_auto_delete console (session []) schedule_fields 4
      ≡ continues st' (scheduled 2 173800))
    × (cmd_auto_delete_status an_hour_later st' queue_fields 3 ≡ continues st' (hours_left 47))
    × (cmd_cancel_auto_delete an_hour_later st' queue_fields 3 ≡ continues st'' schedule_cleared)
    × (cmd_auto_delete_status an_hour_later st'' queue_fields 3 ≡ continues st'' not_scheduled)
set_auto_delete_status_example =
    set_auto_delete_status console an_hour_later an_hour_later (session []) schedule_fields
      queue_fields refl refl refl refl (omega arith) (omega arith)
