-- ===== src/Ws/Clients.antt =====
-- The list of clients of src/infra/websocket/ws_server.c, in the memory that its threads share:
-- `ws_client_t` and `ws_server_t`, `client_remove`, the body of `accept_thread`'s loop, the end of
-- `client_thread`, `ws_server_broadcast` and `ws_server_stop`. Pointers are numbers, 0 is null; an
-- access through a pointer to no object, and a second `free`, are faults. What holds the mutex is one
-- operation. `fd` is what `accept` returned, so it is never negative.
pub mod Chain
pub mod Remove
pub mod Leave
pub mod Sweep
pub mod Rounds
pub mod Broadcast
pub mod Stop
pub mod Dangling
pub mod Listing
pub mod Threads
use telemetry_testbed.Base.{
  ℕ, zero, suc, ◌==◌, if◌then◌else◌, List, [], ◌∷◌, ◌++◌, Option, none, some, Bool, true, false,
  not,
}
use telemetry_testbed.Ws.Socket.{Write, Sent}
use telemetry_testbed.Ws.Frame.{ws_send_text}

-- `ws_client_t`, without the thread's handle and the pointer back to the server.
pub record Client : Type 0 where
  pub fd : ℕ
  pub next : ℕ
  pub alive : Bool

-- The objects, the list's head, and the descriptors closed so far, the last one first.
pub record Server : Type 0 where
  pub cell : ℕ → Option Client
  pub clients : ℕ
  pub closed : List ℕ

-- `none` is a fault, or that the fuel of a loop ran out.
abbrev pub Op : Type 0 → Type 0
Op A = Server → Option (A × Server)

infixl 5 ◌>>=◌ ◌>>◌
abbrev pub ◌>>=◌ : {A B : Type 0} → Op A → (A → Op B) → Op B
◌>>=◌ m f s = elim (m s) [ none ↦ none | some (a, s') ↦ f a s' ]

abbrev pub ◌>>◌ : {B : Type 0} → Op (Unit {0}) → Op B → Op B
m >> k = m >>= λ _. k

abbrev pub return : {A : Type 0} → A → Op A
return a s = some (a, s)

abbrev pub stuck : {A : Type 0} → Op A
stuck s = none

abbrev pub update : (ℕ → Option Client) → ℕ → Option Client → ℕ → Option Client
update f p v x = if x == p then v else f x

unfoldable pub load : ℕ → Op Client
load p s = elim (s.cell p) [ none ↦ none | some c ↦ some (c, s) ]

unfoldable pub store : ℕ → Client → Op (Unit {0})
store p c s = elim (s.cell p) [
  | none ↦ none
  | some old ↦ some (tt, record s { cell = update s.cell p (some c) })
]

unfoldable pub free : ℕ → Op (Unit {0})
free p s = elim (s.cell p) [
  | none ↦ none
  | some old ↦ some (tt, record s { cell = update s.cell p none })
]

unfoldable pub close : ℕ → Op (Unit {0})
close fd s = some (tt, record s { closed = fd ∷ s.closed })

-- What a `ws_client_t **` points at: the server's field, or a client's.
pub data Place : Type 0 where
  clients_of_server : Place
  next_of : ℕ → Place

unfoldable pub get : Place → Op ℕ
unfolding load
get clients_of_server s = some (s.clients, s)
get (next_of p) s = (do c ← load p; return c.next) s

unfoldable pub put : Place → ℕ → Op (Unit {0})
unfolding load store
put clients_of_server v s = some (tt, record s { clients = v })
put (next_of p) v s = (do c ← load p; store p (record c { next = v })) s

-- `c->alive = 0`.
unfoldable pub set_dead : ℕ → Op (Unit {0})
unfolding load store
set_dead c = do x ← load c; store c (record x { alive = false })

-- The loop of `client_remove` with `pp` at a place.
unfoldable pub remove_loop : ℕ → ℕ → Place → Op (Unit {0})
unfolding get put
remove_loop zero c pp = stuck
remove_loop (suc fuel) c pp = do
  p ← get pp
  let more = remove_loop fuel c (next_of p)
  let unlink : Op (Unit {0}) = do n ← get (next_of c); put pp n
  if p == 0 then return tt else if p == c then unlink else more

unfoldable pub client_remove : ℕ → ℕ → Op (Unit {0})
unfolding remove_loop
client_remove fuel c = remove_loop fuel c clients_of_server

-- The two parts of what `client_thread` does last; in between the others run.
unfoldable pub client_close : ℕ → Op (Unit {0})
unfolding set_dead load close
client_close c = do set_dead c; x ← load c; close x.fd

unfoldable pub client_free : ℕ → ℕ → Op (Unit {0})
unfolding client_remove free
client_free fuel c = do client_remove fuel c; free c

-- A round of `accept_thread` with an accepted `cfd`: the result of `calloc`, and whether the thread
-- was created. The result is the client for which one runs.
unfoldable pub accept_client : ℕ → Option ℕ → ℕ → Bool → Op (Option ℕ)
unfolding set_dead close client_free
accept_client fuel none cfd created s = (do close cfd; return none) s
accept_client fuel (some c) cfd created s =
    let listed = record s {
      cell = update s.cell c (some (record { fd = cfd; next = s.clients; alive = true }));
      clients = c;
    } in
    let undo : Op (Option ℕ) = (do set_dead c; close cfd; client_free fuel c; return none) in
    if created then some (some c, listed) else undo listed

-- `*pp = c->next; close(c->fd); free(c);`
unfoldable pub drop_client : Place → ℕ → Op (Unit {0})
unfolding get put load close free
drop_client pp c = do n ← get (next_of c); put pp n; x ← load c; close x.fd; free c

-- The loop of `ws_server_broadcast`. `writes` says what the calls of `send` do at a descriptor, and
-- `log` holds what went out at each so far.
unfoldable pub broadcast_loop :
    ℕ → (ℕ → List Write) → List ℕ → Place → List (ℕ × List ℕ) → Op (List (ℕ × List ℕ))
unfolding get load drop_client set_dead
broadcast_loop zero writes msg pp log = stuck
broadcast_loop (suc fuel) writes msg pp log = do
  c ← get pp
  let look : Op (List (ℕ × List ℕ)) = do
    x ← load c
    let sent = ws_send_text (writes x.fd) msg
    let log' = log ++ (x.fd, sent.out) ∷ []
    let dead : Op (List (ℕ × List ℕ)) = do drop_client pp c; broadcast_loop fuel writes msg pp log
    let failed : Op (List (ℕ × List ℕ)) = do
      set_dead c
      drop_client pp c
      broadcast_loop fuel writes msg pp log'
    let next = broadcast_loop fuel writes msg (next_of c) log'
    if not x.alive then dead else if not sent.done then failed else next
  if c == 0 then return log else look

unfoldable pub ws_server_broadcast : ℕ → (ℕ → List Write) → List ℕ → Op (List (ℕ × List ℕ))
unfolding broadcast_loop
ws_server_broadcast fuel writes msg = broadcast_loop fuel writes msg clients_of_server []

-- The last loop of `ws_server_stop`.
unfoldable pub stop_loop : ℕ → ℕ → Op (Unit {0})
unfolding load set_dead close free
stop_loop zero c = stuck
stop_loop (suc fuel) c =
    let round : Op (Unit {0}) = (do
      x ← load c
      set_dead c
      close x.fd
      free c
      stop_loop fuel x.next) in
    if c == 0 then return tt else round

-- From `accept_th` joined on.
unfoldable pub ws_server_stop : ℕ → Op (Unit {0})
unfolding get put stop_loop
ws_server_stop fuel = do c ← get clients_of_server; put clients_of_server 0; stop_loop fuel c
