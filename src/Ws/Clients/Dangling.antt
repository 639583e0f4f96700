-- ===== src/Ws/Clients/Dangling.antt =====
-- A client that src/infra/websocket/ws_server.c has freed while its `client_thread` still runs: what
-- the end of the thread then does.
use telemetry_testbed.Base.{
  ℕ, zero, suc, ◌<◌, List, [], ◌∷◌, none, some, false, All, ◌≡◌, sym, ap, ◌∙◌, arith, length,
  Bool-cases, Option-cases, inl, inr, ◌⊎◌,
}
use telemetry_testbed.Ws.Socket.{Write}
use telemetry_testbed.Ws.Clients.{
  Server, Place, clients_of_server, next_of, get, put, set_dead, load, store, free, remove_loop,
  client_remove, client_close, client_free, ws_server_broadcast, ws_server_stop,
}
use telemetry_testbed.Ws.Clients.Chain.{Entry}
use telemetry_testbed.Ws.Clients.Leave.{IsLinked}
use telemetry_testbed.Ws.Clients.Stop.{all_closed, ws_server_stop-IsLinked}
use telemetry_testbed.Ws.Clients.Sweep.{keeps, log_of}
use telemetry_testbed.Ws.Clients.Broadcast.{dropped, ws_server_broadcast-dropped}

-- The list has this client.
abbrev pub IsEntry : Entry → List Entry → Type 0
IsEntry e [] = ⊥
IsEntry e (d ∷ es) = (d ≡ e) ⊎ IsEntry e es

get_same : (pp : Place) (s t : Server) (p : ℕ) → get pp s ≡ some (p, t) → t ≡ s
unfolding get load
get_same clients_of_server s t p h = ground arith
get_same (next_of q) s t p h = elim (Option-cases (s.cell q)) [
  | inl e ↦ absurd (ground (arith, e))
  | inr (c, e) ↦ ground (arith, e)
]

put_gone :
    (pp : Place) (v x : ℕ) (s t : Server) (u : Unit {0})
    → s.cell x ≡ none
    → put pp v s ≡ some (u, t)
    → t.cell x ≡ none
unfolding put load store
put_gone clients_of_server v x s t u gone h = ground arith
put_gone (next_of q) v x s t u gone h = elim (Option-cases (s.cell q)) [
  | inl e ↦ absurd (ground (arith, e))
  | inr (c, e) ↦ ground (arith, e)
]

-- The loop of `client_remove` brings no object back.
remove_loop-gone :
    (fuel c x : ℕ) (pp : Place) (s t : Server) (u : Unit {0})
    → s.cell x ≡ none
    → remove_loop fuel c pp s ≡ some (u, t)
    → t.cell x ≡ none
unfolding remove_loop
remove_loop-gone zero c x pp s t u gone h = absurd (ground arith)
remove_loop-gone (suc fuel) c x pp s t u gone h = elim (Option-cases (get pp s)) [
  | inl e ↦ absurd (ground (arith, e))
  | inr ((p, s₁), e) ↦
      let here : s₁.cell x ≡ none = ap (λ r. r.cell x) (get_same pp s s₁ p e) ∙ gone in
      let later = remove_loop-gone fuel c x (next_of p) s₁ t u here in
      elim (Option-cases (get (next_of c) s₁)) [
        | inl e₂ ↦ ground (arith, e, e₂, later)
        | inr ((n, s₂), e₂) ↦
            let there : s₂.cell x ≡ none =
              ap (λ r. r.cell x) (get_same (next_of c) s₁ s₂ n e₂) ∙ here in
            ground (arith, e, e₂, later, put_gone pp n x s₂ t u there)
      ]
]

-- A closing of a client that was freed is a fault.
client_close-gone : (x : ℕ) (s : Server) → s.cell x ≡ none → client_close x s ≡ none
unfolding client_close set_dead load
client_close-gone x s gone = ground arith

client_free-gone : (fuel x : ℕ) (s : Server) → s.cell x ≡ none → client_free fuel x s ≡ none
unfolding client_free client_remove free
client_free-gone fuel x s gone = elim (Option-cases (remove_loop fuel x clients_of_server s)) [
  | inl e ↦ ground (arith, e)
  | inr ((u, t), e) ↦ ground (arith, e, remove_loop-gone fuel x x clients_of_server s t u gone e)
]

dropped-gone :
    (s : Server) (e : Entry) (es : List Entry) (writes : ℕ → List Write) (msg : List ℕ)
    → IsEntry e es
    → keeps writes msg e ≡ false
    → All (λ d. s.cell d.at ≡ none) (dropped writes msg es)
    → s.cell e.at ≡ none
dropped-gone s e [] writes msg h out all = absurd h
dropped-gone s e (d ∷ es) writes msg (inl same) out all =
    let gone : keeps writes msg d ≡ false = ap (keeps writes msg) same ∙ out in
    let both : All (λ d. s.cell d.at ≡ none) (d ∷ dropped writes msg es) = rw gone at all in
    ap (λ r. s.cell r.at) (sym same) ∙ both.0
dropped-gone s e (d ∷ es) writes msg (inr later) out all = elim (Bool-cases (keeps writes msg d)) [
  | inl stays ↦ dropped-gone s e es writes msg later out (rw stays at all)
  | inr goes ↦
      let both : All (λ d. s.cell d.at ≡ none) (d ∷ dropped writes msg es) = rw goes at all in
      dropped-gone s e es writes msg later out both.1
]

all-gone :
    (s : Server) (e : Entry) (es : List Entry)
    → IsEntry e es
    → All (λ d. s.cell d.at ≡ none) es
    → s.cell e.at ≡ none
all-gone s e [] h all = absurd h
all-gone s e (d ∷ es) (inl same) (gone, _) = ap (λ r. s.cell r.at) (sym same) ∙ gone
all-gone s e (d ∷ es) (inr later) (_, all) = all-gone s e es later all

-- A broadcast that meets a client which is marked, or which the message does not go out to, frees it.
-- `ws_server_stop` closes and frees every client. If the client's thread has not come to its end by
-- then, both parts of that end, the closing and the unlinking with a second free, are faults in either
-- case.
pub freed-dangling :
    (writes : ℕ → List Write) (msg : List ℕ) (s : Server) (fuel fuel' : ℕ) (es : List Entry)
    (e : Entry)
    → IsLinked s es
    → length es < fuel
    → IsEntry e es
    → keeps writes msg e ≡ false
    → ((s' : Server) × (ws_server_broadcast fuel writes msg s ≡ some (log_of writes msg es, s'))
        × (s'.cell e.at ≡ none)
        × (client_close e.at s' ≡ none)
        × (client_free fuel' e.at s' ≡ none))
      × ((t : Server) × (ws_server_stop fuel s ≡ some (tt, t))
          × (t.clients ≡ 0)
          × (t.closed ≡ all_closed es s.closed)
          × (t.cell e.at ≡ none)
          × (client_close e.at t ≡ none)
          × (client_free fuel' e.at t ≡ none))
freed-dangling writes msg s fuel fuel' es e h enough at_e out =
    let (s', run, _, all) = ws_server_broadcast-dropped writes msg s fuel es h enough in
    let gone = dropped-gone s' e es writes msg at_e out all in
    let (t, run_t, empty, all_t, closed) = ws_server_stop-IsLinked s fuel es h enough in
    let gone_t = all-gone t e es at_e all_t in
    (
      (s', run, gone, client_close-gone e.at s' gone, client_free-gone fuel' e.at s' gone),
      (
        t,
        run_t,
        empty,
        closed,
        gone_t,
        client_close-gone e.at t gone_t,
        client_free-gone fuel' e.at t gone_t,
      ),
    )
