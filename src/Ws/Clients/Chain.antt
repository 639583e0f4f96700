-- ===== src/Ws/Clients/Chain.antt =====
-- The clients that hang together from a place, and what the operations of
-- src/infra/websocket/ws_server.c on single clients do to them.
use telemetry_testbed.Base.{
  ℕ, ◌<◌, ◌≢◌, List, [], ◌∷◌, none, some, Bool, false, All, ◌≡◌, refl, sym, ◌∙◌, arith,
}
use telemetry_testbed.Ws.Clients.{
  Client, Server, update, load, store, free, close, Place, clients_of_server, next_of, get, put,
  set_dead, drop_client,
}

-- A client of the list, with its pointer.
pub record Entry : Type 0 where
  pub at : ℕ
  pub fd : ℕ
  pub alive : Bool

abbrev pub client_of : Entry → ℕ → Client
client_of e n = record { fd = e.fd; next = n; alive = e.alive }

-- From the pointer `p` on stand exactly these clients, and then null.
abbrev pub Chain : Server → ℕ → List Entry → Type 0
Chain s p [] = p ≡ 0
Chain s p (e ∷ es) =
    (p ≡ e.at) × (0 < e.at) × ((n : ℕ) × (s.cell e.at ≡ some (client_of e n)) × Chain s n es)

abbrev pub NotIn : ℕ → List Entry → Type 0
NotIn x es = All (λ e. x ≢ e.at) es

abbrev pub Distinct : List Entry → Type 0
Distinct [] = Unit {0}
Distinct (e ∷ es) = NotIn e.at es × Distinct es

-- A place, with the client that it is in.
pub data Spot : Type 0 where
  head : Spot
  behind : Entry → Spot

abbrev pub place_of : Spot → Place
place_of head = clients_of_server
place_of (behind e) = next_of e.at

abbrev pub owner : Spot → ℕ
owner head = 0
owner (behind e) = e.at

abbrev pub Holds : Server → Spot → ℕ → Type 0
Holds s head v = s.clients ≡ v
Holds s (behind e) v = s.cell e.at ≡ some (client_of e v)

abbrev pub with_next : Server → Spot → ℕ → Server
with_next s head v = record s { clients = v }
with_next s (behind e) v = record s { cell = update s.cell e.at (some (client_of e v)) }

abbrev pub without : Server → ℕ → Server
without s p = record s { cell = update s.cell p none }

abbrev pub closing : Server → ℕ → Server
closing s fd = record s { closed = fd ∷ s.closed }

pub Chain-frame :
    (s s' : Server) (p : ℕ) (es : List Entry)
    → All (λ e. s'.cell e.at ≡ s.cell e.at) es
    → Chain s p es
    → Chain s' p es
Chain-frame s s' p [] h c = c
Chain-frame s s' p (e ∷ es) (he, h) (same, pos, (n, cell, c)) =
    (same, pos, (n, he ∙ cell, Chain-frame s s' n es h c))

-- A write at one client leaves the others.
pub All-update :
    (s s' : Server) (x : ℕ) (es : List Entry)
    → ((y : ℕ) → y ≢ x → s'.cell y ≡ s.cell y)
    → NotIn x es
    → All (λ e. s'.cell e.at ≡ s.cell e.at) es
All-update s s' x [] same h = tt
All-update s s' x (e ∷ es) same (he, h) = (same e.at (λ q. he (sym q)), All-update s s' x es same h)

pub get_lem : (s : Server) (sp : Spot) (v : ℕ) → Holds s sp v → get (place_of sp) s ≡ some (v, s)
unfolding get load
get_lem s head v h = ground arith
get_lem s (behind e) v h = ground arith

pub put_lem :
    (s : Server) (sp : Spot) (v w : ℕ)
    → Holds s sp v
    → put (place_of sp) w s ≡ some (tt, with_next s sp w)
unfolding put load store
put_lem s head v w h = refl
put_lem s (behind e) v w h = ground arith

pub Holds-with_next : (s : Server) (sp : Spot) (w : ℕ) → Holds (with_next s sp w) sp w
Holds-with_next s head w = refl
Holds-with_next s (behind e) w = ground arith

pub with_next_other :
    (s : Server) (sp : Spot) (w x : ℕ) → x ≢ owner sp → (with_next s sp w).cell x ≡ s.cell x
with_next_other s head w x h = refl
with_next_other s (behind e) w x h = ground arith

pub get-next :
    (s : Server) (e : Entry) (n : ℕ)
    → s.cell e.at ≡ some (client_of e n)
    → get (next_of e.at) s ≡ some (n, s)
unfolding get load
get-next s e n h = ground arith

pub set_dead_lem :
    (s : Server) (e : Entry) (n : ℕ)
    → s.cell e.at ≡ some (client_of e n)
    → set_dead e.at s
      ≡ some (
        tt,
        record s { cell = update s.cell e.at (some (client_of (record e { alive = false }) n)) },
      )
unfolding set_dead load store
set_dead_lem s e n h = ground arith

-- A client that stands right behind the place is unlinked, closed and freed.
pub drop_client_lem :
    (s : Server) (sp : Spot) (e : Entry) (n : ℕ)
    → Holds s sp e.at
    → e.at ≢ owner sp
    → s.cell e.at ≡ some (client_of e n)
    → drop_client (place_of sp) e.at s ≡ some (tt, without (closing (with_next s sp n) e.fd) e.at)
unfolding drop_client load close free
drop_client_lem s sp e n h away cell =
    let kept : (with_next s sp n).cell e.at ≡ some (client_of e n) =
      with_next_other s sp n e.at away ∙ cell in
    ground (arith, get-next s e n cell, put_lem s sp e.at n h, kept)
