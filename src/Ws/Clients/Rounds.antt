-- ===== src/Ws/Clients/Rounds.antt =====
-- The rounds of the loop of `ws_server_broadcast` in src/infra/websocket/ws_server.c, and what each leaves.
use telemetry_testbed.Base.{
  ℕ, suc, ◌<◌, ◌≢◌, List, [], ◌∷◌, ◌++◌, some, true, false, All, ◌≡◌, refl, sym, ap, ◌∙◌, arith,
}
use telemetry_testbed.Ws.Socket.{Write}
use telemetry_testbed.Ws.Frame.{ws_send_text}
use telemetry_testbed.Ws.Clients.{Server, next_of, load, drop_client, broadcast_loop}
use telemetry_testbed.Ws.Clients.Chain.{
  Entry, client_of, Chain, NotIn, Spot, head, behind, place_of, owner, Holds, Chain-frame, get_lem,
  set_dead_lem,
}
use telemetry_testbed.Ws.Clients.Sweep.{keeps, closed_by, Swept, Dropped, died}

module _ (writes : ℕ → List Write) (msg : List ℕ) where
  pub load_lem :
      (s : Server) (e : Entry) (n : ℕ)
      → s.cell e.at ≡ some (client_of e n)
      → load e.at s ≡ some (client_of e n, s)
  unfolding load
  load_lem s e n h = ground arith

  pub round_end :
      (fuel : ℕ) (sp : Spot) (log : List (ℕ × List ℕ)) (s : Server)
      → Holds s sp 0
      → broadcast_loop (suc fuel) writes msg (place_of sp) log s ≡ some (log, s)
  unfolding broadcast_loop
  round_end fuel sp log s h = ground (arith, get_lem s sp 0 h)

  pub round_dead :
      (fuel : ℕ) (sp : Spot) (log : List (ℕ × List ℕ)) (s s₁ : Server) (e : Entry) (n : ℕ)
      → Holds s sp e.at
      → 0 < e.at
      → s.cell e.at ≡ some (client_of e n)
      → e.alive ≡ false
      → drop_client (place_of sp) e.at s ≡ some (tt, s₁)
      → broadcast_loop (suc fuel) writes msg (place_of sp) log s
        ≡ broadcast_loop fuel writes msg (place_of sp) log s₁
  unfolding broadcast_loop
  round_dead fuel sp log s s₁ e n h pos cell is_dead d =
      ground (arith, get_lem s sp e.at h, load_lem s e n cell)

  abbrev pub sent_to : Entry → ℕ × List ℕ
  sent_to e = (e.fd, (ws_send_text (writes e.fd) msg).out)

  pub round_failed :
      (fuel : ℕ) (sp : Spot) (log : List (ℕ × List ℕ)) (s s₁ : Server) (e : Entry) (n : ℕ)
      → Holds s sp e.at
      → 0 < e.at
      → s.cell e.at ≡ some (client_of e n)
      → e.alive ≡ true
      → (ws_send_text (writes e.fd) msg).done ≡ false
      → drop_client (place_of sp) e.at (died s e n) ≡ some (tt, s₁)
      → broadcast_loop (suc fuel) writes msg (place_of sp) log s
        ≡ broadcast_loop fuel writes msg (place_of sp) (log ++ sent_to e ∷ []) s₁
  unfolding broadcast_loop
  round_failed fuel sp log s s₁ e n h pos cell is_alive broke d =
      ground (arith, get_lem s sp e.at h, load_lem s e n cell, set_dead_lem s e n cell)

  pub round_next :
      (fuel : ℕ) (sp : Spot) (log : List (ℕ × List ℕ)) (s : Server) (e : Entry) (n : ℕ)
      → Holds s sp e.at
      → 0 < e.at
      → s.cell e.at ≡ some (client_of e n)
      → e.alive ≡ true
      → (ws_send_text (writes e.fd) msg).done ≡ true
      → broadcast_loop (suc fuel) writes msg (place_of sp) log s
        ≡ broadcast_loop fuel writes msg (next_of e.at) (log ++ sent_to e ∷ []) s
  unfolding broadcast_loop
  round_next fuel sp log s e n h pos cell is_alive sent =
      ground (arith, get_lem s sp e.at h, load_lem s e n cell)

  -- The rest of the list behind a dropped client.
  pub Swept-drop :
      (s s₁ s' : Server) (sp : Spot) (e : Entry) (n : ℕ) (es : List Entry)
      → keeps writes msg e ≡ false
      → e.at ≢ owner sp
      → NotIn e.at es
      → Dropped s s₁ sp e n
      → Swept writes msg s₁ s' sp es
      → Swept writes msg s s' sp (e ∷ es)
  Swept-drop s s₁ s' sp e n es out away fresh d r = record {
    first = r.first;
    holds = r.holds;
    chain = rw out r.chain;
    others = λ x hx (hy, hs). r.others x hx hs ∙ d.others x hx hy;
    gone = ((λ _. r.others e.at away fresh ∙ d.gone), r.gone);
    closed = rw out (r.closed ∙ ap (closed_by writes msg es) d.closed);
    clients = λ h. r.clients h ∙ d.clients h;
  }

  Holds-kept :
      (s s' : Server) (sp : Spot) (p : ℕ) (e : Entry) (es : List Entry)
      → Swept writes msg s s' (behind e) es
      → 0 < e.at
      → NotIn (owner sp) (e ∷ es)
      → Holds s sp p
      → Holds s' sp p
  Holds-kept s s' head p e es r pos away h = r.clients pos ∙ h
  Holds-kept s s' (behind b) p e es r pos (other, away) h = r.others b.at other away ∙ h

  pub Swept-next :
      (s s' : Server) (sp : Spot) (e : Entry) (es : List Entry)
      → keeps writes msg e ≡ true
      → 0 < e.at
      → NotIn (owner sp) (e ∷ es)
      → Holds s sp e.at
      → Swept writes msg s s' (behind e) es
      → Swept writes msg s s' sp (e ∷ es)
  Swept-next s s' sp e es stays pos away h r = record {
    first = e.at;
    holds = Holds-kept s s' sp e.at e es r pos away h;
    chain = rw stays (refl, pos, (r.first, r.holds, r.chain));
    others = λ x hx (hy, hs). r.others x hy hs;
    gone = ((λ q. absurd (cc (q, stays))), r.gone);
    closed = rw stays r.closed;
    clients = λ _. r.clients pos;
  }

  pub Chain-Dropped :
      (s s₁ : Server) (sp : Spot) (e : Entry) (n p : ℕ) (es : List Entry)
      → Dropped s s₁ sp e n
      → NotIn (owner sp) es
      → NotIn e.at es
      → Chain s p es
      → Chain s₁ p es
  Chain-Dropped s s₁ sp e n p es d away fresh chain =
      Chain-frame s s₁ p es (same es away fresh) chain
    where
      same :
          (es : List Entry)
          → NotIn (owner sp) es
          → NotIn e.at es
          → All (λ d. s₁.cell d.at ≡ s.cell d.at) es
      same [] a b = tt
      same (c ∷ cs) (a, as') (b, bs) =
          (d.others c.at (λ q. a (sym q)) (λ q. b (sym q)), same cs as' bs)
