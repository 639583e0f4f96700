-- ===== src/Ws/Clients/Listing.antt =====
-- What a round of `accept_thread` in src/infra/websocket/ws_server.c does to the list of clients.
use telemetry_testbed.Base.{
  ℕ, ◌+◌, ◌<◌, ◌==◌, ◌≢◌, List, [], ◌∷◌, Option, none, some, Bool, true, false, ◌≡◌, refl, sym, ap,
  subst, ◌∙◌, arith, length, inl,
}
use telemetry_testbed.Ws.Clients.{Server, update, close, client_free, accept_client}
use telemetry_testbed.Ws.Clients.Chain.{
  Entry, client_of, Chain, NotIn, closing, Chain-frame, All-update, set_dead_lem,
}
use telemetry_testbed.Ws.Clients.Leave.{
  IsLinked, All-same, dead, marked, marked-IsLinked, client_free-IsLinked,
}

NotIn-free : (s : Server) (x p : ℕ) (es : List Entry) → s.cell x ≡ none → Chain s p es → NotIn x es
NotIn-free s x p [] gone h = tt
NotIn-free s x p (e ∷ es) gone (same, pos, (n, cell, chain)) = (
  (λ q. absurd (ground (arith, sym gone ∙ ap (λ y. s.cell y) q ∙ cell))),
  NotIn-free s x n es gone chain,
)

abbrev pub entry_of : ℕ → ℕ → Entry
entry_of c cfd = record { at = c; fd = cfd; alive = true }

-- The memory once `accept_thread` has put a new client in front.
abbrev pub listed : Server → ℕ → ℕ → Server
listed s c cfd = record s {
  cell = update s.cell c (some (client_of (entry_of c cfd) s.clients));
  clients = c;
}

listed_other : (s : Server) (c cfd x : ℕ) → x ≢ c → (listed s c cfd).cell x ≡ s.cell x
listed_other s c cfd x h = ground arith

pub listed_self :
    (s : Server) (c cfd : ℕ) → (listed s c cfd).cell c ≡ some (client_of (entry_of c cfd) s.clients)
listed_self s c cfd = ground arith

pub listed-IsLinked :
    (s : Server) (c cfd : ℕ) (es : List Entry)
    → 0 < c
    → s.cell c ≡ none
    → IsLinked s es
    → IsLinked (listed s c cfd) (entry_of c cfd ∷ es)
listed-IsLinked s c cfd es pos gone h =
    let away = NotIn-free s c s.clients es gone h.chain in
    record {
      chain = (
        refl,
        pos,
        (
          s.clients,
          listed_self s c cfd,
          Chain-frame s (listed s c cfd) s.clients es
              (All-update s (listed s c cfd) c es (λ y hy. listed_other s c cfd y hy) away) h.chain,
        ),
      );
      distinct = (away, h.distinct);
    }

pub accept_run :
    (s : Server) (fuel c cfd : ℕ)
    → accept_client fuel (some c) cfd true s ≡ some (some c, listed s c cfd)
unfolding accept_client
accept_run s fuel c cfd = refl

pub no_memory_run :
    (s : Server) (fuel cfd : ℕ) (created : Bool)
    → accept_client fuel none cfd created s ≡ some (none, closing s cfd)
unfolding accept_client close
no_memory_run s fuel cfd created = refl

refused_run :
    (s s' : Server) (fuel c cfd : ℕ)
    → client_free fuel c (closing (marked (listed s c cfd) c (entry_of c cfd) s.clients) cfd)
      ≡ some (tt, s')
    → accept_client fuel (some c) cfd false s ≡ some (none, s')
unfolding accept_client close
refused_run s s' fuel c cfd h =
    ground (arith, set_dead_lem (listed s c cfd) (entry_of c cfd) s.clients (listed_self s c cfd))

-- A run has one outcome.
pub same_state :
    {A : Type 0} (r : Option (A × Server)) (a b : A) (s t : Server)
    → r ≡ some (a, s)
    → r ≡ some (b, t)
    → s ≡ t
same_state r a b s t h k = cc

pub closing-Chain :
    (s : Server) (fd p : ℕ) (es : List Entry) → Chain s p es → Chain (closing s fd) p es
closing-Chain s fd p es h = Chain-frame s (closing s fd) p es (All-same s es) h

pub refused-IsLinked :
    (s s' : Server) (fuel c cfd : ℕ) (es : List Entry)
    → 0 < c
    → s.cell c ≡ none
    → length es + 1 < fuel
    → IsLinked s es
    → accept_client fuel (some c) cfd false s ≡ some (none, s')
    → IsLinked s' es
refused-IsLinked s s' fuel c cfd es pos gone enough h run =
    let e = entry_of c cfd in
    let s₁ = listed s c cfd in
    let m =
      marked-IsLinked s₁ c e s.clients cfd (e ∷ es) (listed_self s c cfd)
        (listed-IsLinked s c cfd es pos gone h) in
    let same : (c == c) ≡ true = ground arith in
    let m' : IsLinked (closing (marked s₁ c e s.clients) cfd) (dead e ∷ es) = rw same at m in
    let (t, run', linked, _, _) =
      client_free-IsLinked (closing (marked s₁ c e s.clients) cfd) fuel c (dead e ∷ es) m'
        (inl refl) (omega arith) in
    let linked' : IsLinked t es = rw same at linked in
    subst (λ r. IsLinked r es)
      (same_state (accept_client fuel (some c) cfd false s) none none t s'
        (refused_run s t fuel c cfd run') run)
      linked'
