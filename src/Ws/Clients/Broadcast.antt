-- ===== src/Ws/Clients/Broadcast.antt =====
-- `ws_server_broadcast` of src/infra/websocket/ws_server.c sends to the clients that are alive, and
-- keeps those that the message went out to.
use telemetry_testbed.Base.{
  ℕ, zero, suc, ◌<◌, ◌≢◌, List, [], ◌∷◌, ◌++◌, append_assoc, append-nil, none, some, true, false,
  All, ◌≡◌, refl, sym, ap, subst, ◌∙◌, arith, if◌then◌else◌, length, Bool-cases, inl, inr,
}
use telemetry_testbed.Ws.Socket.{Write}
use telemetry_testbed.Ws.Frame.{ws_send_text}
use telemetry_testbed.Ws.Clients.{Server, broadcast_loop, ws_server_broadcast}
use telemetry_testbed.Ws.Clients.Chain.{
  Entry, Chain, NotIn, Distinct, Spot, head, behind, place_of, owner, Holds, with_next, without,
  closing, drop_client_lem,
}
use telemetry_testbed.Ws.Clients.Leave.{IsLinked, dead, NotIn-zero}
use telemetry_testbed.Ws.Clients.Sweep.{
  keeps, kept, log_of, closed_by, Swept, drop-Dropped, died, died_self, Holds-died, died-Dropped,
}
use telemetry_testbed.Ws.Clients.Rounds.{
  round_end, round_dead, sent_to, round_failed, round_next, Swept-drop, Swept-next, Chain-Dropped,
}

module _ (writes : ℕ → List Write) (msg : List ℕ) where
  -- What a loop from the place on does to the clients there.
  abbrev Sweeps : ℕ → Spot → List (ℕ × List ℕ) → Server → List Entry → Type 0
  Sweeps fuel sp log s es =
      (s' : Server) × (broadcast_loop fuel writes msg (place_of sp) log s
        ≡ some (log ++ log_of writes msg es, s'))
      × Swept writes msg s s' sp es

  sweep_end :
      (fuel : ℕ) (sp : Spot) (log : List (ℕ × List ℕ)) (s : Server)
      → Holds s sp 0
      → Sweeps (suc fuel) sp log s []
  sweep_end fuel sp log s h = (
    s,
    round_end writes msg fuel sp log s h ∙ ap (λ l. some (l, s)) (sym (append-nil log)),
    record {
      first = 0;
      holds = h;
      chain = refl;
      others = λ x _ _. refl;
      gone = tt;
      closed = refl;
      clients = λ _. refl;
    },
  )

  sweep_log :
      (e : Entry) (es : List Entry) (log : List (ℕ × List ℕ))
      → e.alive ≡ true
      → (log ++ sent_to writes msg e ∷ []) ++ log_of writes msg es
        ≡ log ++ log_of writes msg (e ∷ es)
  sweep_log e es log h = rw h (append_assoc log (sent_to writes msg e ∷ []) (log_of writes msg es))

  sweep :
      (es : List Entry) (fuel p : ℕ) (sp : Spot) (log : List (ℕ × List ℕ)) (s : Server)
      → Holds s sp p
      → Chain s p es
      → Distinct es
      → NotIn (owner sp) es
      → length es < fuel
      → Sweeps fuel sp log s es
  sweep es zero p sp log s h chain dis away enough = absurd (omega arith)
  sweep [] (suc fuel) p sp log s h chain dis away enough =
      sweep_end fuel sp log s (subst (Holds s sp) chain h)
  sweep (e ∷ es) (suc fuel) p sp log s h (same, pos, (n, cell, chain)) (fresh, dis) (other, away)
        enough =
      let h' : Holds s sp e.at = subst (Holds s sp) same h in
      let apart : e.at ≢ owner sp = λ q. other (sym q) in
      elim (Bool-cases e.alive) [
        | inr is_dead ↦
            let s₁ = without (closing (with_next s sp n) e.fd) e.at in
            let d = drop-Dropped s sp e n apart in
            let (s', run, r) =
              sweep es fuel n sp log s₁ d.holds
                (Chain-Dropped writes msg s s₁ sp e n n es d away fresh chain) dis away
                (omega arith) in
            (
              s',
              round_dead writes msg fuel sp log s s₁ e n h' pos cell is_dead
                    (drop_client_lem s sp e n h' apart cell)
                  ∙ run
                  ∙ rw is_dead refl,
              Swept-drop writes msg s s₁ s' sp e n es (rw is_dead refl) apart fresh d r,
            )
        | inl is_alive ↦ elim (Bool-cases ((ws_send_text (writes e.fd) msg).done)) [
          | inl sent ↦
              let (s', run, r) =
                sweep es fuel n (behind e) (log ++ sent_to writes msg e ∷ []) s cell chain dis fresh
                  (omega arith) in
              (
                s',
                round_next writes msg fuel sp log s e n h' pos cell is_alive sent
                    ∙ run
                    ∙ ap (λ l. some (l, s')) (sweep_log e es log is_alive),
                Swept-next writes msg s s' sp e es (rw (is_alive, sent) refl) pos (other, away) h'
                    r,
              )
          | inr broke ↦
              let s₀ = died s e n in
              let s₁ = without (closing (with_next s₀ sp n) e.fd) e.at in
              let d = died-Dropped s s₁ sp e n (drop-Dropped s₀ sp (dead e) n apart) in
              let (s', run, r) =
                sweep es fuel n sp (log ++ sent_to writes msg e ∷ []) s₁ d.holds
                  (Chain-Dropped writes msg s s₁ sp e n n es d away fresh chain) dis away
                  (omega arith) in
              (
                s',
                round_failed writes msg fuel sp log s s₁ e n h' pos cell is_alive broke (
                      drop_client_lem s₀ sp (dead e) n (Holds-died s sp e n e.at apart h') apart
                        (died_self s e n))
                    ∙ run
                    ∙ ap (λ l. some (l, s')) (sweep_log e es log is_alive),
                Swept-drop writes msg s s₁ s' sp e n es (rw (is_alive, broke) refl) apart fresh d r,
              )
        ]
      ]

  NotIn-kept : (x : ℕ) (es : List Entry) → NotIn x es → NotIn x (kept writes msg es)
  NotIn-kept x [] h = tt
  NotIn-kept x (e ∷ es) (he, h) = elim (Bool-cases (keeps writes msg e)) [
    | inl stays ↦ rw stays (he, NotIn-kept x es h)
    | inr goes ↦ rw goes (NotIn-kept x es h)
  ]

  Distinct-kept : (es : List Entry) → Distinct es → Distinct (kept writes msg es)
  Distinct-kept [] h = tt
  Distinct-kept (e ∷ es) (he, h) = elim (Bool-cases (keeps writes msg e)) [
    | inl stays ↦ rw stays (NotIn-kept e.at es he, Distinct-kept es h)
    | inr goes ↦ rw goes (Distinct-kept es h)
  ]

  -- The clients that do not stay.
  abbrev pub dropped : List Entry → List Entry
  dropped [] = []
  dropped (e ∷ es) = if keeps writes msg e then dropped es else e ∷ dropped es

  All-dropped :
      (s : Server) (es : List Entry)
      → All (λ e. keeps writes msg e ≡ false → s.cell e.at ≡ none) es
      → All (λ e. s.cell e.at ≡ none) (dropped es)
  All-dropped s [] h = tt
  All-dropped s (e ∷ es) (he, h) = elim (Bool-cases (keeps writes msg e)) [
    | inl stays ↦ rw stays (All-dropped s es h)
    | inr goes ↦ rw goes (he goes, All-dropped s es h)
  ]

  Swept-IsLinked :
      (s s' : Server) (es : List Entry)
      → IsLinked s es
      → Swept writes msg s s' head es
      → IsLinked s' (kept writes msg es)
  Swept-IsLinked s s' es h r = record {
    chain = subst (λ p. Chain s' p (kept writes msg es)) (sym r.holds) r.chain;
    distinct = Distinct-kept es h.distinct;
  }

  pub ws_server_broadcast-dropped :
      (s : Server) (fuel : ℕ) (es : List Entry)
      → IsLinked s es
      → length es < fuel
      → (s' : Server) × (ws_server_broadcast fuel writes msg s ≡ some (log_of writes msg es, s'))
        × IsLinked s' (kept writes msg es)
        × All (λ e. s'.cell e.at ≡ none) (dropped es)
  unfolding ws_server_broadcast
  ws_server_broadcast-dropped s fuel es h enough =
      let (s', run, r) =
        sweep es fuel s.clients head [] s refl h.chain h.distinct
          (NotIn-zero s s.clients es h.chain) enough in
      (s', run, Swept-IsLinked s s' es h r, All-dropped s' es r.gone)

  -- With one round of fuel more than there are clients, a broadcast sends to each client that is alive,
  -- in the order of the list, and leaves in the list those that the whole message went out to. Each
  -- other client is closed and freed, and an object that was not in the list stays.
  pub ws_server_broadcast-IsLinked :
      (s : Server) (fuel : ℕ) (es : List Entry) (x : ℕ)
      → IsLinked s es
      → length es < fuel
      → x ≢ 0
      → NotIn x es
      → (s' : Server) × (ws_server_broadcast fuel writes msg s ≡ some (log_of writes msg es, s'))
        × IsLinked s' (kept writes msg es)
        × All (λ e. s'.cell e.at ≡ none) (dropped es)
        × (s'.closed ≡ closed_by writes msg es s.closed)
        × (s'.cell x ≡ s.cell x)
  unfolding ws_server_broadcast
  ws_server_broadcast-IsLinked s fuel es x h enough pos away =
      let (s', run, r) =
        sweep es fuel s.clients head [] s refl h.chain h.distinct
          (NotIn-zero s s.clients es h.chain) enough in
      (s', run, Swept-IsLinked s s' es h r, All-dropped s' es r.gone, r.closed, r.others x pos away)
