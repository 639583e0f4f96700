-- ===== src/Examples/Clients.antt =====
-- Two clients of the server of src/infra/websocket/ws_server.c.
use telemetry_testbed.Base.{
  ℕ, ◌==◌, ◌≡◌, refl, inl, inr, List, [], ◌∷◌, Option, none, some, true, map, All, arith,
  if◌then◌else◌,
}
use telemetry_testbed.Ws.Socket.{Write, wrote, failed}
use telemetry_testbed.Ws.Frame.{ws_send_text}
use telemetry_testbed.Ws.Clients.{
  Client, Server, update, accept_client, client_close, client_free, ws_server_broadcast,
  ws_server_stop,
}
use telemetry_testbed.Ws.Clients.Chain.{Entry}
use telemetry_testbed.Ws.Clients.Leave.{IsLinked}
use telemetry_testbed.Ws.Clients.Sweep.{kept, log_of, closed_by}
use telemetry_testbed.Ws.Clients.Broadcast.{dropped, ws_server_broadcast-IsLinked}
use telemetry_testbed.Ws.Clients.Dangling.{freed-dangling}
use telemetry_testbed.Ws.Clients.Threads.{World, accepted, Reach, here, next, started}
use telemetry_testbed.Ws.Clients.Threads.Shared.{threads_safe}

abbrev phone : Client
phone = record { fd = 5; next = 2; alive = true }

abbrev laptop : Client
laptop = record { fd = 6; next = 0; alive = true }

abbrev no_object : ℕ → Option Client
no_object x = none

abbrev serving : Server
serving = record {
  cell = update (update no_object 2 (some laptop)) 1 (some phone);
  clients = 1;
  closed = [];
}

abbrev clients : List Entry
clients = record { at = 1; fd = 5; alive = true } ∷ record { at = 2; fd = 6; alive = true } ∷ []

serving-IsLinked : IsLinked serving clients
serving-IsLinked = record {
  chain = (refl, omega arith, (2, refl, (refl, omega arith, (0, refl, refl))));
  distinct = omega arith;
}

-- The laptop's connection is broken.
abbrev calls : ℕ → List Write
calls fd = if fd == 5 then wrote 100 ∷ wrote 100 ∷ [] else failed ∷ []

abbrev text : List ℕ
text = 123 ∷ 125 ∷ []

ws_server_broadcast-IsLinked_example :
    (s' : Server) × (ws_server_broadcast 3 calls text serving
      ≡ some (log_of calls text clients, s'))
    × IsLinked s' (kept calls text clients)
    × All (λ e. s'.cell e.at ≡ none) (dropped calls text clients)
    × (s'.closed ≡ closed_by calls text clients [])
    × (s'.cell 7 ≡ none)
ws_server_broadcast-IsLinked_example =
    ws_server_broadcast-IsLinked calls text serving 3 clients 7 serving-IsLinked (omega arith)
      (omega arith) (omega arith)

freed-dangling_example :
    ((s' : Server) × (ws_server_broadcast 3 calls text serving
        ≡ some (log_of calls text clients, s'))
      × (s'.cell 2 ≡ none)
      × (client_close 2 s' ≡ none)
      × (client_free 3 2 s' ≡ none))
    × ((t : Server) × (ws_server_stop 3 serving ≡ some (tt, t))
        × (t.clients ≡ 0)
        × (t.closed ≡ 6 ∷ 5 ∷ [])
        × (t.cell 2 ≡ none)
        × (client_close 2 t ≡ none)
        × (client_free 3 2 t ≡ none))
unfolding ws_send_text
freed-dangling_example =
    freed-dangling calls text serving 3 3 clients (record { at = 2; fd = 6; alive = true })
      serving-IsLinked (omega arith) (inr (inl refl)) refl

abbrev first_client : World
first_client = record {
  server = record { cell = update no_object 2 (some laptop); clients = 2; closed = [] };
  threads = 2 ∷ [];
}

abbrev both_clients : World
both_clients = record { server = serving; threads = 1 ∷ 2 ∷ [] }

two_accepted : Reach (started no_object) both_clients
unfolding accept_client
two_accepted =
    next
      (next (here (started no_object))
        (accepted (started no_object) 3 2 6 first_client.server (omega arith) refl refl))
      (accepted first_client 3 1 5 serving (omega arith) refl refl)

threads_safe_example :
    ((s : Server) × (client_close 2 serving ≡ some (tt, s)))
    × ((s : Server) × (es : List Entry) × (client_free 3 2 serving ≡ some (tt, s))
        × IsLinked s es
        × (map (λ e. e.at) es ≡ 1 ∷ [])
        × (s.cell 2 ≡ none))
threads_safe_example =
    threads_safe no_object both_clients 2 3 two_accepted (inr (inl refl)) (omega arith)
