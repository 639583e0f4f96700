-- ===== src/Ws/Clients/Stop.antt =====
-- `ws_server_stop` of src/infra/websocket/ws_server.c closes and frees all clients of the list.
use telemetry_testbed.Base.{
  ℕ, zero, suc, ◌<◌, ◌≢◌, List, [], ◌∷◌, none, some, All, ◌≡◌, refl, sym, ap, ◌∙◌, arith, length,
}
use telemetry_testbed.Ws.Clients.{Server, load, free, close, get, put, stop_loop, ws_server_stop}
use telemetry_testbed.Ws.Clients.Chain.{
  Entry, client_of, Chain, NotIn, Distinct, closing, without, Chain-frame, set_dead_lem,
}
use telemetry_testbed.Ws.Clients.Leave.{IsLinked, All-same}
use telemetry_testbed.Ws.Clients.Sweep.{died, died_self}

-- The descriptors closed in the end, the last one first.
abbrev pub all_closed : List Entry → List ℕ → List ℕ
all_closed [] closed = closed
all_closed (e ∷ es) closed = all_closed es (e.fd ∷ closed)

record Stopped (s s' : Server) (es : List Entry) : Type 0 where
  gone : All (λ e. s'.cell e.at ≡ none) es
  others : (x : ℕ) → NotIn x es → s'.cell x ≡ s.cell x
  closed : s'.closed ≡ all_closed es s.closed
  clients : s'.clients ≡ s.clients

-- The memory after one client.
abbrev ended_one : Server → Entry → ℕ → Server
ended_one s e n = without (closing (died s e n) e.fd) e.at

ended_one_other :
    (s : Server) (e : Entry) (n x : ℕ) → x ≢ e.at → (ended_one s e n).cell x ≡ s.cell x
ended_one_other s e n x h = ground arith

ended_one_self : (s : Server) (e : Entry) (n : ℕ) → (ended_one s e n).cell e.at ≡ none
ended_one_self s e n = ground arith

stop_round :
    (fuel : ℕ) (s : Server) (e : Entry) (n : ℕ)
    → 0 < e.at
    → s.cell e.at ≡ some (client_of e n)
    → stop_loop (suc fuel) e.at s ≡ stop_loop fuel n (ended_one s e n)
unfolding stop_loop load close free
stop_round fuel s e n pos cell = ground (arith, set_dead_lem s e n cell, died_self s e n)

stop_end : (fuel : ℕ) (s : Server) → stop_loop (suc fuel) 0 s ≡ some (tt, s)
unfolding stop_loop
stop_end fuel s = refl

Chain-ended_one :
    (s : Server) (e : Entry) (n p : ℕ) (es : List Entry)
    → NotIn e.at es
    → Chain s p es
    → Chain (ended_one s e n) p es
Chain-ended_one s e n p es fresh chain = Chain-frame s (ended_one s e n) p es (same es fresh) chain
  where
    same :
        (es : List Entry) → NotIn e.at es → All (λ d. (ended_one s e n).cell d.at ≡ s.cell d.at) es
    same [] h = tt
    same (d ∷ ds) (h, hs) = (ended_one_other s e n d.at (λ q. h (sym q)), same ds hs)

stop_loop-Stopped :
    (es : List Entry) (fuel p : ℕ) (s : Server)
    → Chain s p es
    → Distinct es
    → length es < fuel
    → (s' : Server) × (stop_loop fuel p s ≡ some (tt, s')) × Stopped s s' es
stop_loop-Stopped es zero p s chain dis enough = absurd (omega arith)
stop_loop-Stopped [] (suc fuel) p s chain dis enough = (
  s,
  ap (λ x. stop_loop (suc fuel) x s) chain ∙ stop_end fuel s,
  record { gone = tt; others = λ x _. refl; closed = refl; clients = refl },
)
stop_loop-Stopped (e ∷ es) (suc fuel) p s (same, pos, (n, cell, chain)) (fresh, dis) enough =
    let s₁ = ended_one s e n in
    let (s', run, r) =
      stop_loop-Stopped es fuel n s₁ (Chain-ended_one s e n n es fresh chain) dis (omega arith) in
    (
      s',
      ap (λ x. stop_loop (suc fuel) x s) same ∙ stop_round fuel s e n pos cell ∙ run,
      record {
        gone = (r.others e.at fresh ∙ ended_one_self s e n, r.gone);
        others = λ x (hx, hs). r.others x hs ∙ ended_one_other s e n x hx;
        closed = r.closed;
        clients = r.clients;
      },
    )

stop_run :
    (fuel : ℕ) (s s' : Server)
    → stop_loop fuel s.clients (record s { clients = 0 }) ≡ some (tt, s')
    → ws_server_stop fuel s ≡ some (tt, s')
unfolding ws_server_stop get put
stop_run fuel s s' h = ground arith

-- Every client of the list is closed and freed, and the list is empty.
pub ws_server_stop-IsLinked :
    (s : Server) (fuel : ℕ) (es : List Entry)
    → IsLinked s es
    → length es < fuel
    → (s' : Server) × (ws_server_stop fuel s ≡ some (tt, s'))
      × (s'.clients ≡ 0)
      × All (λ e. s'.cell e.at ≡ none) es
      × (s'.closed ≡ all_closed es s.closed)
ws_server_stop-IsLinked s fuel es h enough =
    let s₀ = record s { clients = 0 } in
    let (s', run, r) =
      stop_loop-Stopped es fuel s.clients s₀ (Chain-frame s s₀ s.clients es (All-same s es) h.chain)
        h.distinct enough in
    (s', stop_run fuel s s' run, r.clients, r.gone, r.closed)
