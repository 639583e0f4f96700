-- ===== src/Gateway/Lifecycle.antt =====
-- `telemetry_gateway_start` and `telemetry_gateway_stop` of src/app/telemetry_gateway.c, with what they
-- call to get and to give back resources: `db_writer_open`, `db_writer_close`, `db_reader_open` and
-- `db_reader_close` of src/infra/persistence/db_sqlite.c, `mqtt_client_connect` and
-- `mqtt_client_close` of src/infra/mqtt/mqtt_client.c, and `ws_server_start` of
-- src/infra/websocket/ws_server.c. Each function gives what it leaves in the fields, and what it took
-- and gave back in that order.
pub mod Balance
use telemetry_testbed.Base.{ℕ, if◌then◌else◌, List, [], ◌∷◌, ◌++◌, Bool, true, false}

-- What is taken and given back. The list of clients and the mutexes are not among them.
pub data Resource : Type 0 where
  gateway writer_db insert_stmt reader_db server server_fd accept_th writer_th stats_th : Resource
  mosq connection mqtt_loop : Resource

pub data Event : Type 0 where
  taken given_back : Resource → Event

-- How a call that creates a thread ends: where it fails, the field may be left null or not.
pub data Creation : Type 0 where
  created : Creation
  refused : Bool → Creation

-- How `sqlite3_open_v2` ends: where it fails there may be a handle or none.
pub data Opening : Type 0 where
  opened : Opening
  broken : Bool → Opening

-- The results of the calls, true for success, and whether statistics are wanted.
pub record Outcomes : Type 0 where
  pub calloc_gateway : Bool
  pub open_writer : Opening
  pub ensure_schema : Bool
  pub prepare : Bool
  pub open_reader : Opening
  pub wal : Bool
  pub calloc_server : Bool
  pub socket : Bool
  pub bind : Bool
  pub listen : Bool
  pub accept_thread : Bool
  pub writer_thread : Creation
  pub stats_enabled : Bool
  pub stats_thread : Creation
  pub mosquitto_new : Bool
  pub mosquitto_connect : Bool
  pub loop_start : Bool

-- The fields that `telemetry_gateway_stop` looks at: whether they are not null.
pub record Fields : Type 0 where
  pub dbw_db : Bool
  pub dbw_ins_state : Bool
  pub dbr_db : Bool
  pub ws : Bool
  pub writer_th : Bool
  pub stats_th : Bool
  pub mqtt_mosq : Bool

abbrev pub no_fields : Fields
no_fields = record {
  dbw_db = false;
  dbw_ins_state = false;
  dbr_db = false;
  ws = false;
  writer_th = false;
  stats_th = false;
  mqtt_mosq = false;
}

-- Whether the call was successful, the fields, and the events.
pub record Result : Type 0 where
  pub ok : Bool
  pub fields : Fields
  pub events : List Event

abbrev pub result : Bool → Fields → List Event → Result
result ok fields events = record { ok = ok; fields = fields; events = events }

-- The handle, if there is one.
abbrev pub handle_of : Opening → Bool
handle_of opened = true
handle_of (broken handle) = handle

abbrev pub is_opened : Opening → Bool
is_opened opened = true
is_opened (broken handle) = false

abbrev pub when : Bool → List Event → List Event
when b es = if b then es else []

unfoldable pub db_writer_open : Outcomes → Fields → Result
db_writer_open o f =
    let f₁ = record f { dbw_db = handle_of o.open_writer } in
    let took = when (handle_of o.open_writer) (taken writer_db ∷ []) in
    if is_opened o.open_writer
    then if o.ensure_schema
      then if o.prepare
        then result true (record f₁ { dbw_ins_state = true })
            (taken writer_db ∷ taken insert_stmt ∷ [])
        else result false f₁ took
      else result false f₁ took
    else result false f₁ took

unfoldable pub db_writer_close : Fields → List Event
db_writer_close f =
    when f.dbw_ins_state (given_back insert_stmt ∷ []) ++ when f.dbw_db (given_back writer_db ∷ [])

unfoldable pub db_reader_open : Outcomes → Fields → Result
db_reader_open o f =
    let f₁ = record f { dbr_db = handle_of o.open_reader } in
    let took = when (handle_of o.open_reader) (taken reader_db ∷ []) in
    if is_opened o.open_reader then result o.wal f₁ took else result false f₁ took

unfoldable pub db_reader_close : Fields → List Event
db_reader_close f = when f.dbr_db (given_back reader_db ∷ [])

unfoldable pub ws_server_start : Outcomes → Fields → Result
ws_server_start o f =
    let opened_fd = taken server ∷ taken server_fd ∷ [] in
    let undone = opened_fd ++ (given_back server_fd ∷ given_back server ∷ []) in
    if o.calloc_server
    then if o.socket
      then if o.bind
        then if o.listen
          then if o.accept_thread
            then result true (record f { ws = true }) (opened_fd ++ taken accept_th ∷ [])
            else result false f undone
          else result false f undone
        else result false f undone
      else result false f (taken server ∷ given_back server ∷ [])
    else result false f []

-- `ws_server_stop`, without the clients: the socket is closed, the thread joined.
unfoldable pub ws_server_stop : List Event
ws_server_stop = given_back server_fd ∷ given_back accept_th ∷ given_back server ∷ []

unfoldable pub mqtt_client_connect : Outcomes → Fields → Result
mqtt_client_connect o f =
    if o.mosquitto_new
    then if o.mosquitto_connect
      then if o.loop_start
        then result true (record f { mqtt_mosq = true })
            (taken mosq ∷ taken connection ∷ taken mqtt_loop ∷ [])
        else result false (record f { mqtt_mosq = false })
            (taken mosq ∷ taken connection ∷ given_back connection ∷ given_back mosq ∷ [])
      else result false (record f { mqtt_mosq = false }) (taken mosq ∷ given_back mosq ∷ [])
    else result false (record f { mqtt_mosq = false }) []

unfoldable pub mqtt_client_close : Fields → List Event
mqtt_client_close f =
    when f.mqtt_mosq (given_back mqtt_loop ∷ given_back connection ∷ given_back mosq ∷ [])

unfoldable pub telemetry_gateway_stop : Fields → List Event
unfolding mqtt_client_close ws_server_stop db_reader_close db_writer_close
telemetry_gateway_stop f =
    when f.writer_th (given_back writer_th ∷ [])
    ++ (when f.stats_th (given_back stats_th ∷ [])
        ++ (mqtt_client_close f
            ++ (when f.ws ws_server_stop
                ++ (db_reader_close f ++ (db_writer_close f ++ given_back gateway ∷ [])))))

-- `pthread_create`, with the field that it sets.
abbrev pub create : Creation → Resource → Bool × (Bool × List Event)
create created r = (true, (true, taken r ∷ []))
create (refused left) r = (false, (left, []))

-- The next call of `telemetry_gateway_start`: where the one before failed, all is stopped.
abbrev pub then_call : Result → (Fields → Result) → Result
then_call r k =
    let next = k r.fields in
    if r.ok
    then record next { events = r.events ++ next.events }
    else result false r.fields (r.events ++ telemetry_gateway_stop r.fields)

abbrev pub start_writer : Outcomes → Fields → Result
start_writer o f =
    let (ok, (field, es)) = create o.writer_thread writer_th in
    result ok (record f { writer_th = field }) es

-- A failure to create it is only logged.
abbrev pub start_stats : Outcomes → Fields → Result
start_stats o f =
    let (_, (field, es)) = create o.stats_thread stats_th in
    if o.stats_enabled then result true (record f { stats_th = field }) es else result true f []

unfoldable pub telemetry_gateway_start : Outcomes → Result
unfolding db_writer_open db_reader_open ws_server_start mqtt_client_connect telemetry_gateway_stop
telemetry_gateway_start o =
    let got : Result = result true no_fields (taken gateway ∷ []) in
    let last = λ (f : Fields). then_call (mqtt_client_connect o f) (λ f'. result true f' []) in
    let started = then_call got λ f₀. then_call (db_writer_open o f₀) λ f₁.
      then_call (db_reader_open o f₁) λ f₂.
        then_call (ws_server_start o f₂)
          λ f₃. then_call (start_writer o f₃) λ f₄. then_call (start_stats o f₄) last in
    if o.calloc_gateway then started else result false no_fields []
