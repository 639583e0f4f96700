-- ===== src/Lib.antt =====
-- Telemetry testbed: a simulated robot publishes its state over MQTT, and a gateway stores it in
-- SQLite and streams it over WebSocket. This library models the C program and proves properties of
-- it. Paths are from the repository's root.
--
-- How the parts interact. The sensor threads write a shared cache (src/sim/telemetry_cache.c). The
-- state publisher (src/sim/telemetry_state_pub.c) reads it in each round, packs a Protobuf message
-- and publishes it. The MQTT callback of the gateway (`on_message` of src/app/telemetry_gateway.c)
-- unpacks it, builds a sample and pushes it into a linked queue. The writer thread takes batches
-- out, stores each in one transaction (src/infra/persistence/db_sqlite.c) and broadcasts each
-- sample as a JSON text frame (src/infra/websocket/ws_server.c). A browser may send a history
-- request, and is answered with the last stored samples in the same JSON form.
--
-- Which file models which part.
-- Base and its children: Boolean tests, lists, C strings, integers and conversions.
-- Types: include/domain/telemetry_types.h and the message structs of
--   generated/protobuf-c/robot_telemetry.pb-c.h. `Float` is what is used of `float`.
-- Pack: include/util/pack_le.h, and `clamp_i32_ll` of the motor sensors.
-- Cache: src/sim/telemetry_cache.c; Cache.Updates has sequences of the sensors' calls.
-- Sim.Publisher: the message of `telemetry_pub_thread`; Sim.Publisher.Thread: the whole thread and
--   `telemetry_state_pub_start`; Sim.Tick: `sleep_until_next_tick` of include/util/time_utils.h.
-- Gateway.Queue: `queue_push` and `queue_pop_batch` on a heap of nodes, a function from addresses
--   to nodes; Gateway.Queue.Fifo has the interleavings of the two threads as a step relation, and
--   Gateway.Queue.Release the last loop of `telemetry_gateway_stop`.
-- Gateway.Message and Gateway.Receive: `safe_copy` and `on_message`; Gateway.Live:
--   `telemetry_state_to_json_alloc`; Gateway.Writer: a batch of `writer_thread`.
-- Gateway.Pipeline: the callback, the queue, the loop of `writer_thread` and the stop as one machine.
--   Gateway.Pipeline.Trace has its steps in any order, with what was received and accepted and what
--   became of each batch written down beside it; Ledger adds these up, Reliable does so over a
--   database that refuses nothing, Drain lets the writer run alone, Replies goes on to the history
--   reply, and Stop to `telemetry_gateway_stop`. A batch is handled in one step: the database is the
--   writer's alone, and the counters of the batch are not those that the callback changes.
-- Gateway.Statistics: `stats_thread`.
-- Json: the format that the gateway and the database share.
-- Db.Buffer: the `strbuf_t` functions; Db.Row: the bound values and the selected columns;
--   Db.History: `append_row_as_sample_json` and `db_reader_history_last_json`; Db.Schema: from
--   `column_exists` to `db_ensure_schema`; Db.Sqlite: the interface of SQLite, with the laws of
--   transactions, both as SQLite documents them and for a database that never rolls back by itself
--   (those of the catalogue, over statements printed from the names in them, are in
--   Db.Schema.Statements). Where a theorem lets SQLite keep its transactions, it
--   is about the latter.
-- Ws.Socket: `recv_all` and `send_all`; Ws.Frame: `ws_send_text`, `ws_send_control` and
--   `ws_recv_frame`; Ws.Request: `json_find_int` and `is_history_request`; Ws.Session:
--   `client_thread` from the status frame to the end of its loop; Ws.Handshake: `base64_encode`
--   and `icase_starts_with`; Ws.Sha1: the `sha1_` functions, with RFC 3174 in Ws.Sha1.Standard; Ws.Http: `find_header_value`,
--   `read_http_request`, `compute_accept_key` and `ws_handshake`.
-- Ws.Clients: the list of clients in shared memory, with `client_remove`, `accept_thread`, the end
--   of `client_thread`, `ws_server_broadcast` and `ws_server_stop`; an access through a dangling
--   pointer is a fault. Ws.Clients.Threads has the steps of the threads in any order.
-- Sim.Sensors: a round of each of the threads of src/sim/sensors, over an abstract `double`;
--   Sim.Sensors.Threads: the whole threads.
-- Gateway.Lifecycle: `telemetry_gateway_start` and `telemetry_gateway_stop` with the open and close
--   functions that they call (also those of src/infra/mqtt/mqtt_client.c), as the events of taking
--   and giving back resources.
-- Programs.Dump: src/apps/state_dump.c.
-- Programs: the command line of src/apps/telemetry_gateway_main.c, and `env_int` of
--   src/app/telemetry_gateway.c. Programs.Robot: the command line of src/apps/robot_main.c, and
--   the threads that it starts and joins.
-- Examples: runs on concrete inputs.
--
-- How state and calls correspond. A C function that changes a struct is a function from the old
-- value to the new one, and its result codes are options, Booleans or a sum. A function that holds a
-- mutex from its first access to its last is one step. `malloc`, `calloc` and `realloc` are
-- arguments that say whether a request succeeds, or which address it gives. The operating system's
-- choice of how many bytes a call of `recv` or `send` moves is a list, one entry for each call.
-- SQLite and libprotobuf-c are parameters.
--
-- Bounds and fuel. Unsigned arithmetic wraps at the width of its C type; `size_t` and `long` have 64
-- bits. The doubling loop of `sb_reserve` has 64 rounds of fuel, enough for a need of at most 2 ^ 63
-- bytes from any positive capacity. The carry loop of the clock has a round for each second of the
-- sum. A number is printed with at most 20 digits, enough below 10 ^ 20. The loop over the blocks of
-- SHA-1 and the search of a header have as much fuel as there are bytes, and take 64 or 2 of them in a
-- round. The loops over the clients take a fuel that is shown to be enough from one more than there are
-- clients. The last loop of the stop has a round for each sample ever accepted, and the writer, left
-- alone, is run for as many rounds. The loops over lists and batches recurse on the list.
--
-- Not modelled: the generated Protobuf code, and the user interface and scripts, which are not C; the
-- signal handlers and the system calls. Floating-point arithmetic and its printing are parameters. The
-- sums of commit times and the clock's seconds are taken not to overflow. The threads of the WebSocket
-- clients are left out of the resources of Gateway.Lifecycle.
pub mod Base
pub mod Cache
pub mod Db
pub mod Examples
pub mod Gateway
pub mod Json
pub mod Pack
pub mod Programs
pub mod Sim
pub mod Types
pub mod Ws
