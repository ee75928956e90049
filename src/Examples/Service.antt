-- ===== src/Examples/Service.antt =====
-- Runs of src/server.c and src/parser.c, and their theorems at concrete inputs.
use vecdb.Prelude.{ℕ, ◌≤◌, ◌≡◌, refl, arith, List, [], ◌∷◌, ◌++◌, none, some, true, false}
use vecdb.Prelude.{ap, ◌∙◌, if◌then◌else◌, leb, length, ◌==◌}
use vecdb.Prelude.Bytes.{encode_le, floats_bytes}
use vecdb.Storage.Types.{Record, heap, success, floats_of}
use vecdb.Storage.Layout.{record_pad, record_chunks, metadata_length, metadata_bytes}
use vecdb.Storage.Write.{
  storage_write_record, seek_end, storage_write_record_lem, appended, status_of, encode_record,
}
use vecdb.Distance.{metric_euclidean, get_distance}
use vecdb.Db.Name.{validate_db_name}
use vecdb.Server.Text.{codes, cut_at, same, strstr}
use vecdb.Server.Auth.{authenticate_request}
use vecdb.Server.Request.{
  Json, InsertReq, SearchReq, request, parse_insert_request, parse_search_request,
}
use vecdb.Server.Request.Bounds.{parse_insert_request_bounds, parse_search_request_bounds}
use vecdb.Server.Tables.{OpenTable, Folder, State, get_or_open_table}
use vecdb.Server.Tables.Invariant.{
  IsTables, IsNames, Distinct, GivesTable, get_or_open_table-IsTables,
}
use vecdb.Server.Sync.{synced}
use vecdb.Server.Sync.Drain.{contents}
use vecdb.Server.Sync.Round.{sync_table_refines}
use vecdb.Server.Sync.{sync_table}
use vecdb.Prelude.{inl}
use vecdb.Server.Routes.{is_found}
use vecdb.Server.Reply
use vecdb.Server.Reply.{Send, sent, send_all, IsSent, send_all-IsSent}
use vecdb.Server.Actions.{Machine, queue_insert, temp_rec}
use vecdb.Server.Routes.{handel_client}
use vecdb.Server.Actions.Delete.{queue_delete_hangs}
use vecdb.Server.Actions
use vecdb.Server.Request.{DeleteReq}
use vecdb.Server.Routes.Guard.{Refused, IsKeyless, handel_client-Refused}
use vecdb.Server.Actions.Insert.{sync_table-queue_insert}
use vecdb.Server.Connection.{Conn, new_conn, Recv, bytes, read_request, is_idle}
use vecdb.Server.Connection
use vecdb.Server.Runs.{Reaches-IsTables}
use vecdb.Server.Runs
use vecdb.Server.Actions.{handled, queue_delete}
use vecdb.Server.Routes.{delete_route}
use vecdb.Server.Reply.{ok_response}
use vecdb.Server.Tables.{put_folder, mark_table_pending_dirty}
use vecdb.Server.Request.{parse_delete_request}
use vecdb.Pending.{append_pending_delete}
use vecdb.Server.Connection.Frame.{IsConn, InPhase, Framed, Overruns, read_request-Framed}
use vecdb.Examples.Instances.{plain_floats, plain_sorting, granting, table_host}
use vecdb.Examples.Changes.{auto_host}
use vecdb.Examples.Training.{plain_means, counting}

-- A JSON library that reads one body: a value is a number, 0 the object, 1 the name, 2 a number, 3 an
-- array of two of these and 4 a truth value.
abbrev sample_json : Json
sample_json = record {
  Value = ℕ;
  parse = λ body. some 0;
  item = λ v name.
      if same name (codes "db_name")
      then some 1
      else if same name (codes "vector")
      then some 3
      else if same name (codes "query_vector")
      then some 3
      else if same name (codes "use_ann")
      then some 4
      else if same name (codes "metadata")
      then none
      else some 2;
  is_string = λ v. v == 1;
  is_number = λ v. v == 2;
  is_bool = λ v. v == 4;
  is_true = λ v. false;
  is_array = λ v. v == 3;
  valuestring = λ v. some (codes "t");
  valueint = λ v. 7;
  valuedouble = λ v. 7;
  array_size = λ v. 2;
  array_item = λ v i. some 2;
  to_float = λ d. d;
  to_u32 = λ d. some d;
  to_u64 = λ d. some d;
  of_u64 = λ n. n;
  of_float = λ n. n;
  create_array = 0;
  create_object = 0;
  add_number = λ v name n. v;
  add_string = λ v name text. v;
  add_null = λ v name. v;
  add_item = λ v item. v;
  print_unformatted = λ v. some (codes "[]");
}

abbrev sample_insert : InsertReq
sample_insert = record {
  db_name = codes "t";
  id = 7;
  dimension = 2;
  vector = 7 ∷ 7 ∷ [];
  metadata = none;
}

abbrev sample_search : SearchReq
sample_search = record {
  db_name = codes "t";
  top_k = 7;
  nprobe = 7;
  use_ann = false;
  dimension = 2;
  query_vector = 7 ∷ 7 ∷ [];
}

sample_insert-parsed :
    parse_insert_request sample_json granting (codes "{}") ≡ request sample_insert
unfolding parse_insert_request same
sample_insert-parsed = refl

sample_search-parsed :
    parse_search_request sample_json granting (codes "{}") ≡ request sample_search
unfolding parse_search_request same
sample_search-parsed = refl

parse_insert_request_bounds_example :
    (length sample_insert.db_name ≤ 99) × (length sample_insert.vector ≡ sample_insert.dimension)
parse_insert_request_bounds_example =
    parse_insert_request_bounds sample_json granting (codes "{}") sample_insert sample_insert-parsed

parse_search_request_bounds_example :
    (length sample_search.db_name ≤ 99)
    × (length sample_search.query_vector ≡ sample_search.dimension)
parse_search_request_bounds_example =
    parse_search_request_bounds sample_json granting (codes "{}") sample_search sample_search-parsed

abbrev machine : Machine
machine = record {
  floats = plain_floats;
  means = plain_means;
  libc = plain_sorting;
  json = sample_json;
  host = table_host;
  fuel = 10;
  rounds = 10;
  rand = counting;
  allocates = true;
  appends = true;
  saves = true;
}

abbrev open_table : OpenTable
open_table = record {
  name = codes "t";
  db = record {
    dimension = 2;
    capacity = 1;
    records =
        record {
          id = 5;
          vector = heap (1 ∷ 2 ∷ []);
          metadata = none;
          is_deleted = false;
          byte_offset = 0;
          is_mmap = false;
        }
        ∷ [];
    calculate_distance = get_distance plain_floats metric_euclidean;
    storage = record {
      bytes = [];
      room = 4096;
      is_open = true;
      pos = 0;
      mmap_data = none;
      file_size = 0;
      maps = 0;
    };
    pending_deletes = none;
  };
  pending_delete_dirty = false;
  insert_queue =
      record { id = 6; vector = 3 ∷ 4 ∷ []; metadata = some (codes "m"); byte_offset = 32 } ∷ [];
  insert_queue_capacity = 1;
  ivf_index = none;
  index_loaded = false;
}

abbrev empty_folder : Folder
empty_folder = record {
  table = record { data_db = none; meta_bin = none; pending_bin = none };
  ivf_index_bin = none;
  auto_delete_schedule = none;
}

abbrev state : State
state = record {
  auth_cache = record { db_name = codes "t"; api_key = codes "k" } ∷ [];
  open_tables = open_table ∷ [];
  append_lock = false;
  folder = λ m. empty_folder;
}

t_name-valid : validate_db_name (some (codes "t")) ≡ true
unfolding validate_db_name
t_name-valid = refl

state-IsTables : IsTables state.open_tables
unfolding IsTables IsNames Distinct
state-IsTables = (omega arith, (tt, tt), (t_name-valid, tt))

get_or_open_table-IsTables_example :
    GivesTable
      (codes "t")
      (get_or_open_table plain_floats plain_sorting table_host 10 state (codes "t"))
get_or_open_table-IsTables_example =
    get_or_open_table-IsTables plain_floats plain_sorting table_host 10 state (codes "t")
      state-IsTables

sync_table_refines_example :
    (t' : OpenTable) × (sync_table granting plain_sorting auto_host 200 empty_folder open_table
      ≡ synced (t', empty_folder))
    × (t'.insert_queue ≡ [])
    × (t'.db.records ≡ contents open_table)
    × (length t'.db.records ≤ t'.db.capacity)
unfolding vecdb.Pending.get_auto_delete_schedule
sync_table_refines_example =
    sync_table_refines granting plain_sorting auto_host 200 empty_folder open_table (λ n. refl)
      (inl refl) (omega arith) (omega arith) (omega arith)

abbrev inserted : Record
inserted = temp_rec machine open_table sample_insert 0

abbrev inserted_bytes : List ℕ
inserted_bytes = encode_record 2 inserted (7 ∷ 7 ∷ [])

inserted-floats_of :
    floats_of (seek_end open_table.db.storage) 2 inserted.vector ≡ some (7 ∷ 7 ∷ [])
unfolding floats_of temp_rec
inserted-floats_of = refl

inserted_fits : leb (length inserted_bytes) 4096 ≡ true
unfolding encode_record record_chunks floats_bytes encode_le temp_rec metadata_length metadata_bytes
    record_pad
inserted_fits = refl

inserted_written :
    storage_write_record (seek_end open_table.db.storage) inserted 2
    ≡ some (success, appended inserted_bytes (seek_end (seek_end open_table.db.storage)))
unfolding seek_end
inserted_written =
    storage_write_record_lem (seek_end open_table.db.storage) inserted 2 (7 ∷ 7 ∷ []) refl
      inserted-floats_of
    ∙ ap
        (λ b.
          some (status_of b, appended inserted_bytes (seek_end (seek_end open_table.db.storage))))
        inserted_fits

sync_table-queue_insert_example :
    (t' t'' : OpenTable) × (queue_insert machine open_table sample_insert ≡ some (success, t'))
    × (t'.db.records ≡ open_table.db.records)
    × (sync_table granting plain_sorting auto_host 200 empty_folder t' ≡ synced (t'', empty_folder))
    × (t''.insert_queue ≡ [])
    × (t''.db.records
        ≡ contents open_table
          ++ (record {
            id = 7;
            vector = heap (7 ∷ 7 ∷ []);
            metadata = none;
            is_deleted = false;
            byte_offset = 0;
            is_mmap = false;
          }
              ∷ []))
unfolding vecdb.Pending.get_auto_delete_schedule
sync_table-queue_insert_example =
    sync_table-queue_insert machine (λ n. refl) plain_sorting auto_host 200 empty_folder open_table
      sample_insert (appended inserted_bytes (seek_end (seek_end open_table.db.storage))) (inl refl)
      refl inserted_written (omega arith) (omega arith) (omega arith)

-- A search without a key.
abbrev no_key_header : List ℕ
no_key_header = codes "POST /search HTTP/1.1\r\n\r\n"

no_key-IsKeyless :
    IsKeyless
      (parse_search_request machine.json machine.host.env (codes "{}"))
      (λ req. authenticate_request state.auth_cache no_key_header req.db_name)
unfolding IsKeyless parse_search_request authenticate_request strstr
no_key-IsKeyless = refl

no_key_search : is_found machine no_key_header (codes "POST /search") ≡ true
unfolding strstr
no_key_search = refl

handel_client-Refused_example :
    Refused state (handel_client machine state no_key_header (codes "{}"))
handel_client-Refused_example =
    handel_client-Refused machine state no_key_header (codes "{}") (λ e. no_key-IsKeyless)
      (λ e. absurd (cc (e, no_key_search))) (λ e. absurd (cc (e, no_key_search)))
      (λ e. absurd (cc (e, no_key_search)))

abbrev calls : List Recv
calls = bytes (codes "POST /train\r\nContent-Length: 4\r\n\r\n{}") ∷ bytes (codes "!!!") ∷ []

new_conn-IsConn : IsConn new_conn
unfolding IsConn InPhase
new_conn-IsConn = (omega arith, (refl, refl))

read_request-Framed_example :
    Framed (Overruns true new_conn calls) (read_request true new_conn calls)
read_request-Framed_example = read_request-Framed true new_conn calls new_conn-IsConn

-- The request of these calls: its body is cut to its length.
read_request-run :
    read_request true new_conn calls
    ≡ Connection.complete (record {
      phase = Connection.finished;
      header_buffer = codes "POST /train\r\nContent-Length: 4\r\n\r\n{}";
      content_length = 4;
      http_body = codes "{}!!";
    })
unfolding read_request cut_at
read_request-run = refl

send_all-IsSent_example :
    IsSent (codes "HTTP") (send_all 10 (sent 3 ∷ Reply.would_block 5 ∷ sent 1 ∷ []) (codes "HTTP"))
send_all-IsSent_example =
    send_all-IsSent 10 (sent 3 ∷ Reply.would_block 5 ∷ sent 1 ∷ []) (codes "HTTP")

-- A request to delete, with the key of the table.
abbrev delete_header : List ℕ
delete_header = codes "POST /delete-request HTTP/1.1\r\nAuthorization: Bearer k\r\n\r\n"

-- The state once the table is marked and the lock of the queue is held.
abbrev state_after : State
state_after =
    put_folder (codes "t")
      (record empty_folder { table = record (empty_folder.table) { pending_bin = some [] } })
      (record state {
        append_lock = true;
        open_tables = record open_table { pending_delete_dirty = true } ∷ [];
      })

abbrev delete_reply : List ℕ
delete_reply =
    ok_response 1024 (codes "{\"status\": \"success\", \"message\": \"Delete request queued.\"}")

delete-run :
    handel_client machine state delete_header (codes "{}") ≡ handled state_after delete_reply false
unfolding handel_client delete_route queue_delete parse_delete_request authenticate_request
    mark_table_pending_dirty append_pending_delete cut_at
delete-run = refl

Reaches-IsTables_example : IsTables state_after.open_tables
Reaches-IsTables_example =
    Reaches-IsTables machine auto_host state state_after
      (Runs.next (Runs.request delete_header (codes "{}") delete_reply false delete-run) Runs.here)
      state-IsTables

abbrev delete_req : ℕ → DeleteReq
delete_req id = record { db_name = codes "t"; id = id }

delete_req-run : queue_delete machine state (delete_req 7) ≡ handled state_after delete_reply false
unfolding queue_delete mark_table_pending_dirty append_pending_delete same
delete_req-run = refl

queue_delete_hangs_example : queue_delete machine state_after (delete_req 8) ≡ Actions.hangs
queue_delete_hangs_example =
    queue_delete_hangs machine state state_after (delete_req 7) (delete_req 8) delete_reply false
      refl delete_req-run
