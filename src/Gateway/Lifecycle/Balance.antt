-- ===== src/Gateway/Lifecycle/Balance.antt =====
-- Every resource that `telemetry_gateway_start` of src/app/telemetry_gateway.c takes is given back once,
-- by itself if it fails and by `telemetry_gateway_stop` if it does not, and not while others use it
-- but for the listening socket.
use telemetry_testbed.Base.{
  if◌then◌else◌, List, [], ◌∷◌, ◌++◌, Option, none, some, Bool, true, false, ◌&&◌, ◌||◌, not, ◌≡◌,
}
use telemetry_testbed.Gateway.Lifecycle.{
  Resource, gateway, writer_db, insert_stmt, reader_db, server, server_fd, accept_th, writer_th,
  stats_th, mosq, connection, mqtt_loop, Event, taken, given_back, Creation, created, refused,
  Result, telemetry_gateway_stop,
}

-- What is held.
pub record Held : Type 0 where
  pub gateway : Bool
  pub writer_db : Bool
  pub insert_stmt : Bool
  pub reader_db : Bool
  pub server : Bool
  pub server_fd : Bool
  pub accept_th : Bool
  pub writer_th : Bool
  pub stats_th : Bool
  pub mosq : Bool
  pub connection : Bool
  pub mqtt_loop : Bool

abbrev pub nothing : Held
nothing = record {
  gateway = false;
  writer_db = false;
  insert_stmt = false;
  reader_db = false;
  server = false;
  server_fd = false;
  accept_th = false;
  writer_th = false;
  stats_th = false;
  mosq = false;
  connection = false;
  mqtt_loop = false;
}

abbrev get : Held → Resource → Bool
get h gateway = h.gateway
get h writer_db = h.writer_db
get h insert_stmt = h.insert_stmt
get h reader_db = h.reader_db
get h server = h.server
get h server_fd = h.server_fd
get h accept_th = h.accept_th
get h writer_th = h.writer_th
get h stats_th = h.stats_th
get h mosq = h.mosq
get h connection = h.connection
get h mqtt_loop = h.mqtt_loop

abbrev set : Held → Resource → Bool → Held
set h gateway b = record h { gateway = b }
set h writer_db b = record h { writer_db = b }
set h insert_stmt b = record h { insert_stmt = b }
set h reader_db b = record h { reader_db = b }
set h server b = record h { server = b }
set h server_fd b = record h { server_fd = b }
set h accept_th b = record h { accept_th = b }
set h writer_th b = record h { writer_th = b }
set h stats_th b = record h { stats_th = b }
set h mosq b = record h { mosq = b }
set h connection b = record h { connection = b }
set h mqtt_loop b = record h { mqtt_loop = b }

-- Whether something that is held uses a resource: a statement its database, a thread what it works on.
-- The accept thread calls `accept` on `server_fd`; `with_accept` is whether that counts.
abbrev pub in_use : Bool → Held → Resource → Bool
in_use with_accept h gateway =
    h.writer_db || (h.reader_db || (h.server || (h.writer_th || (h.stats_th || h.mosq))))
in_use with_accept h writer_db = h.insert_stmt || h.writer_th
in_use with_accept h insert_stmt = h.writer_th
in_use with_accept h reader_db = h.server
in_use with_accept h server = h.server_fd || h.accept_th
in_use with_accept h server_fd = with_accept && h.accept_th
in_use with_accept h mosq = h.connection || h.mqtt_loop
in_use with_accept h connection = h.mqtt_loop
in_use with_accept h r = false

-- What is taken was not held; what is given back was, and nothing uses it. `none` is a fault.
abbrev pub replay : Bool → Held → List Event → Option Held
replay with_accept h [] = some h
replay with_accept h (taken r ∷ es) = if get h r then none else replay with_accept (set h r true) es
replay with_accept h (given_back r ∷ es) =
    if get h r && not (in_use with_accept h r) then replay with_accept (set h r false) es else none

-- A call of `pthread_create` that fails leaves the field null.
abbrev pub IsClean : Creation → Type 0
IsClean created = Unit {0}
IsClean (refused left) = left ≡ false

-- The events of a run of the program: start, and stop if the start was successful.
abbrev pub whole_run : Result → List Event
whole_run r = if r.ok then r.events ++ telemetry_gateway_stop r.fields else r.events
