-- ===== src/Ws/Clients/Sweep.antt =====
-- How `ws_server_broadcast` of src/infra/websocket/ws_server.c changes the list at one client: what it
-- keeps, what it sends, and what it drops.
use telemetry_testbed.Base.{
  ℕ, ◌<◌, ◌≢◌, List, [], ◌∷◌, none, some, Bool, false, ◌&&◌, All, ◌≡◌, refl, sym, ap, ◌∙◌, arith,
  if◌then◌else◌,
}
use telemetry_testbed.Ws.Socket.{Write}
use telemetry_testbed.Ws.Frame.{ws_send_text}
use telemetry_testbed.Ws.Clients.{Server, update}
use telemetry_testbed.Ws.Clients.Chain.{
  Entry, client_of, Chain, NotIn, Spot, head, behind, owner, Holds, with_next, without, closing,
  Holds-with_next, with_next_other,
}
use telemetry_testbed.Ws.Clients.Leave.{dead}

module _ (writes : ℕ → List Write) (msg : List ℕ) where
  -- The client is alive, and the whole message goes out to it.
  abbrev pub keeps : Entry → Bool
  keeps e = e.alive && (ws_send_text (writes e.fd) msg).done

  abbrev pub kept : List Entry → List Entry
  kept [] = []
  kept (e ∷ es) = if keeps e then e ∷ kept es else kept es

  -- What goes out, in the order of the list.
  abbrev pub log_of : List Entry → List (ℕ × List ℕ)
  log_of [] = []
  log_of (e ∷ es) =
      if e.alive then (e.fd, (ws_send_text (writes e.fd) msg).out) ∷ log_of es else log_of es

  -- The descriptors closed in the end, the last one first.
  abbrev pub closed_by : List Entry → List ℕ → List ℕ
  closed_by [] closed = closed
  closed_by (e ∷ es) closed = if keeps e then closed_by es closed else closed_by es (e.fd ∷ closed)

  pub record Swept (s s' : Server) (sp : Spot) (es : List Entry) : Type 0 where
    pub first : ℕ
    pub holds : Holds s' sp first
    pub chain : Chain s' first (kept es)
    pub others : (x : ℕ) → x ≢ owner sp → NotIn x es → s'.cell x ≡ s.cell x
    pub gone : All (λ e. keeps e ≡ false → s'.cell e.at ≡ none) es
    pub closed : s'.closed ≡ closed_by es s.closed
    pub clients : 0 < owner sp → s'.clients ≡ s.clients

-- The client behind the place is out of the list, and freed.
pub record Dropped (s s₁ : Server) (sp : Spot) (e : Entry) (n : ℕ) : Type 0 where
  pub holds : Holds s₁ sp n
  pub others : (x : ℕ) → x ≢ owner sp → x ≢ e.at → s₁.cell x ≡ s.cell x
  pub gone : s₁.cell e.at ≡ none
  pub closed : s₁.closed ≡ e.fd ∷ s.closed
  pub clients : 0 < owner sp → s₁.clients ≡ s.clients

Holds-without :
    (s : Server) (sp : Spot) (fd x v : ℕ)
    → x ≢ owner sp
    → Holds s sp v
    → Holds (without (closing s fd) x) sp v
Holds-without s head fd x v other h = h
Holds-without s (behind b) fd x v other h = ground arith

without_other : (s : Server) (fd x y : ℕ) → y ≢ x → (without (closing s fd) x).cell y ≡ s.cell y
without_other s fd x y h = ground arith

without_self : (s : Server) (fd x : ℕ) → (without (closing s fd) x).cell x ≡ none
without_self s fd x = ground arith

closed_same : (s : Server) (sp : Spot) (n : ℕ) → (with_next s sp n).closed ≡ s.closed
closed_same s head n = refl
closed_same s (behind b) n = refl

clients_same :
    (s : Server) (sp : Spot) (n : ℕ) → 0 < owner sp → (with_next s sp n).clients ≡ s.clients
clients_same s head n h = absurd (omega arith)
clients_same s (behind b) n h = refl

pub drop-Dropped :
    (s : Server) (sp : Spot) (e : Entry) (n : ℕ)
    → e.at ≢ owner sp
    → Dropped s (without (closing (with_next s sp n) e.fd) e.at) sp e n
drop-Dropped s sp e n away =
    let s₁ = with_next s sp n in
    record {
      holds = Holds-without s₁ sp e.fd e.at n away (Holds-with_next s sp n);
      others = λ x hx hy. without_other s₁ e.fd e.at x hy ∙ with_next_other s sp n x hx;
      gone = without_self s₁ e.fd e.at;
      closed = ap (◌∷◌ e.fd) (closed_same s sp n);
      clients = λ h. clients_same s sp n h;
    }

abbrev pub died : Server → Entry → ℕ → Server
died s e n = record s { cell = update s.cell e.at (some (client_of (dead e) n)) }

pub died_other : (s : Server) (e : Entry) (n x : ℕ) → x ≢ e.at → (died s e n).cell x ≡ s.cell x
died_other s e n x h = ground arith

pub died_self :
    (s : Server) (e : Entry) (n : ℕ) → (died s e n).cell e.at ≡ some (client_of (dead e) n)
died_self s e n = ground arith

pub Holds-died :
    (s : Server) (sp : Spot) (e : Entry) (n v : ℕ)
    → e.at ≢ owner sp
    → Holds s sp v
    → Holds (died s e n) sp v
Holds-died s head e n v away h = h
Holds-died s (behind b) e n v away h = died_other s e n b.at (λ q. away (sym q)) ∙ h

-- A client that is marked first is dropped in the same way.
pub died-Dropped :
    (s s₁ : Server) (sp : Spot) (e : Entry) (n : ℕ)
    → Dropped (died s e n) s₁ sp (dead e) n
    → Dropped s s₁ sp e n
died-Dropped s s₁ sp e n d = record {
  holds = d.holds;
  others = λ x hx hy. d.others x hx hy ∙ died_other s e n x hy;
  gone = d.gone;
  closed = d.closed;
  clients = d.clients;
}
