-- ===== src/Ws/Clients/Threads.antt =====
-- The threads of src/infra/websocket/ws_server.c that share the list of clients, in any order:
-- `accept_thread` adds clients, each `client_thread` closes and then frees its own, and the
-- program broadcasts.
pub mod Shared
use telemetry_testbed.Base.{
  ℕ, zero, suc, ◌+◌, ◌<◌, ◌==◌, ◌≢◌, List, [], ◌∷◌, Option, none, some, Bool, true, false, All, ◌≡◌,
  refl, sym, ap, subst, ◌∙◌, arith, if◌then◌else◌, length, Bool-cases, Option-cases, inl, inr, ◌⊎◌,
  map,
}
use telemetry_testbed.Ws.Socket.{Write}
use telemetry_testbed.Ws.Frame.{ws_send_text}
use telemetry_testbed.Ws.Clients.{
  Client, Server, Op, update, close, client_close, client_free, accept_client, ws_server_broadcast,
}
use telemetry_testbed.Ws.Clients.Chain.{
  Entry, client_of, Chain, NotIn, Distinct, closing, without, Chain-frame, All-update, set_dead_lem,
}
use telemetry_testbed.Ws.Clients.Remove.{remove}
use telemetry_testbed.Ws.Clients.Leave.{
  IsLinked, IsIn, All-same, dead, mark, marked, marked-IsLinked, NotIn-zero, client_close-IsLinked,
  client_free-IsLinked,
}
use telemetry_testbed.Ws.Clients.Sweep.{keeps, kept, log_of}
use telemetry_testbed.Ws.Clients.Broadcast.{ws_server_broadcast-dropped}

-- The shared memory, and the clients whose threads have not come to their `client_free`.
pub record World : Type 0 where
  pub server : Server
  pub threads : List ℕ

abbrev pub IsThread : ℕ → List ℕ → Type 0
IsThread c [] = ⊥
IsThread c (t ∷ ts) = (t ≡ c) ⊎ IsThread c ts

abbrev pub ended : ℕ → List ℕ → List ℕ
ended c [] = []
ended c (t ∷ ts) = if t == c then ts else t ∷ ended c ts

-- No client is marked, and the message goes out to each.
abbrev pub Healthy : (ℕ → List Write) → List ℕ → Server → Type 0
Healthy writes msg s =
    (x : ℕ) (c : Client)
    → s.cell x ≡ some c
    → (c.alive ≡ true) × ((ws_send_text (writes c.fd) msg).done ≡ true)

-- A thread may close at any time and free without a close: the relation has more runs than the program.
pub data Step : World → World → Type 0 where
  accepted :
      (w : World) (fuel c cfd : ℕ) (s : Server)
      → 0 < c
      → w.server.cell c ≡ none
      → accept_client fuel (some c) cfd true w.server ≡ some (some c, s)
      → Step w (record { server = s; threads = c ∷ w.threads })
  thread_refused :
      (w : World) (fuel c cfd : ℕ) (s : Server)
      → 0 < c
      → w.server.cell c ≡ none
      → length w.threads + 1 < fuel
      → accept_client fuel (some c) cfd false w.server ≡ some (none, s)
      → Step w (record w { server = s })
  no_memory :
      (w : World) (fuel cfd : ℕ) (created : Bool) (s : Server)
      → accept_client fuel none cfd created w.server ≡ some (none, s)
      → Step w (record w { server = s })
  closes :
      (w : World) (c : ℕ) (s : Server)
      → IsThread c w.threads
      → client_close c w.server ≡ some (tt, s)
      → Step w (record w { server = s })
  frees :
      (w : World) (fuel c : ℕ) (s : Server)
      → IsThread c w.threads
      → length w.threads < fuel
      → client_free fuel c w.server ≡ some (tt, s)
      → Step w (record { server = s; threads = ended c w.threads })
  broadcasts :
      (w : World) (fuel : ℕ) (writes : ℕ → List Write) (msg : List ℕ) (log : List (ℕ × List ℕ))
      (s : Server)
      → Healthy writes msg w.server
      → length w.threads < fuel
      → ws_server_broadcast fuel writes msg w.server ≡ some (log, s)
      → Step w (record w { server = s })

pub data Reach : World → World → Type 0 where
  here : (w : World) → Reach w w
  next : {u v w : World} → Reach u v → Step v w → Reach u w

-- A server as `ws_server_start` leaves it.
abbrev pub started : (ℕ → Option Client) → World
started cell = record { server = record { cell = cell; clients = 0; closed = [] }; threads = [] }
