-- ===== src/Lib.antt =====
-- OriginDB, a vector database in C with an HTTP server in front.
--
-- A table is a folder with an append-only file of records, which is mapped into memory, a file with
-- its dimension and metric, and a queue of delete requests. `FlatDb_t` keeps the records in an array
-- whose vectors are blocks of their own (inserted since the table was opened) or point into the
-- mapping (read from the file). A search goes over the array and keeps the nearest records.
--
-- Files, and the code they are about:
--   Storage      src/storage.c, include/storage.h: `Types` has the state, `Layout` the record format,
--                `Write` the writer, `Read` the readers, `storage_init` and `storage_remap`,
--                `Compact` the rewriting of the file. `Codec`, `Fetch`, `RoundTrip`, `Torn` and `File`
--                prove what the readers make of what the writer left. `Index` is the index file,
--                `save_ivf_index` and `load_ivf_index`.
--   Db           src/db.c, include/db.h: `Name` is `validate_db_name`, `Init` is `db_init` and
--                `db_open`, `Insert` is `db_insert`, `db_delete`, `db_compact`, `Close` is `db_close`, `AutoDelete` is
--                `check_and_run_auto_delete`. `Reload`, `Reopen`, `Effects`, `Delete` and `Dimension`
--                prove what they do.
--   Pending      src/pending-delete.c: the queue and the schedule, in `Queue` and `Schedule`.
--   Distance     src/distance.c: the metrics.
--   Search       src/search/baseline-flat.c: `TopK` is the bounded insertion, `Flat` the search; `Ivf`
--                is `ivf_search` and `Kmeans` is `kmeans_build` of src/search/kmeans.c, `Ann` is
--                `db_ann_search` of src/db.c;
--                `Order`, `Shift`, `Insertion` and `Best` compare it with an insertion into an
--                unbounded list.
--   Server       `Keys` is src/api-key-generate.c, `Request` is src/parser.c with the calls of the JSON
--                library as a record; the others are src/server.c: `Auth` the cache of keys and the
--                check of a request's key, `Tables` the open tables, `Sync` a round of `sync_worker`,
--                `Reply` `send_error` and `send_all`, `Actions` what the routes do, `Routes`
--                `handel_client`, `Connection` `handle_conn_event`, `Connections` the table of
--                connections from `acceptor_loop` to the sweep of `sync_worker`, and `server_init`,
--                `Worker` a round of `epoll_worker_loop`. `Text` has the string functions of the C
--                library they use.
--                `Auth/Lines`, `Auth/Refinement` and `Auth/Verify`, `Request/Bounds`,
--                `Tables/Invariant`, `Sync/Drain`, `Sync/Round`, `Sync/Names`, `Actions/Insert`, `Actions/Delete`,
--                `Actions/Names`, `Routes/Guard`, `Routes/Names`, `Connection/Frame` and
--                `Connections/Sweep` prove what they do, and `Runs` puts requests, events and
--                synchronisations in any order.
--   Terminal     src/terminal.c and src/main.c: `Scan` is what a command line says (`count_words`, the
--                `sscanf` of the commands, `read_vector`), `Session` the state and the messages,
--                `Tables` the commands init, open, insert, search and delete, `Queue` those for the
--                queue of deletions, `Command` is `handle_command` and `Prompt` `run_tui` and `main`.
--                `Follows`, `Keeps`, `Names` and `Input` prove what every command leaves of a session,
--                `Init`, `Deletes` and `Schedule` what some of them do.
--   Floats       The arithmetic of `float`, a parameter, and the facts about it that are used.
--   Prelude      Lists, tests, byte encodings.
--   Examples     Runs and instances.
--
-- How the state is modelled. `Storage` is `storage_t` with the file it is open on: its bytes, the
-- stream's position, the room left on the disk, and a number for the mapping, so that a pointer into
-- a mapping that is gone is known to be stale. A function of the code returns its new state; `none`,
-- `fault` and `faulted` stand for undefined behaviour: a null or stale pointer that is read, or a
-- read past a block. What the operating system decides (memory, opening, mapping, renaming) is an
-- argument; a byte or a schedule that goes into the buffer of a stream of its own is written or lost when
-- that stream is closed, which the code does not notice. Sizes wrap at 2^64 as `size_t` does. `float` is a pattern of 32 bits; `qsort` and
-- `bsearch` are parameters with their documented behaviour. The machine is little-endian with 64 bits.
--
-- How the server is put together. `State` has the static variables: the cache of keys, the open
-- tables with their queues, and the folders by name. A route is a function from a state, the headers
-- and the body to a new state and the bytes that are sent; `hangs` is a wait for a lock that is never
-- given back. A request is handled while its locks are held, so a route and a synchronisation are one
-- step each, and the threads are orders of such steps. The data file of an open table is the one in
-- its `Storage`. `recv` and `send` are lists of what their calls do.
--
-- How the terminal is put together. A `Session` has the open table with the name of its file, the
-- folders, the key file and what is left of the standard input. A command takes it to a new session
-- and a message, which is what is printed less its words; `Console` is what the environment decides
-- for one command. The conversions of `sscanf` are those of glibc, which takes a number that is too
-- large as the largest one; `%f` is a parameter. `server_init` does not return. A compaction of the
-- open table's file by process-deletes ends what is said of the session, since its stream would then
-- stand on a file that is gone.
--
-- Loops. The prompt runs on rounds, of which there are at most as many as bytes of input and one more.
-- The load loop of `db_init` runs on fuel, of which one round is enough, since `storage_init`
-- leaves the stream at the end of the file; the rounds of `kmeans_build` are at most `max_iterations` and one more. The doubling in
-- `sync_worker` has 64 rounds, after which a capacity is 0 for ever. `fgets` is called as often as the
-- file has bytes. Every other loop goes over a list or counts down.
--
-- Not modelled. What sockets, threads, locks and epoll do in src/server.c, `set_nonblocking`, the texts that are
-- printed, and the JSON library src/cJSON.c, which is another project's. `free`
-- is modelled only where the result array counts it, and `fflush` and `fsync` are taken to succeed.
pub mod Db
pub mod Distance
pub mod Examples
pub mod Floats
pub mod Pending
pub mod Prelude
pub mod Search
pub mod Server
pub mod Storage
pub mod Terminal
