-- ===== src/Ws/Clients/Remove.antt =====
-- `client_remove` of src/infra/websocket/ws_server.c unlinks one client, and the two parts of the end
-- of `client_thread` close and free it.
use telemetry_testbed.Base.{
  ℕ, zero, suc, ◌<◌, ◌==◌, ◌≢◌, List, [], ◌∷◌, some, ◌≡◌, refl, sym, ap, subst, ◌∙◌, arith,
  if◌then◌else◌, length, Bool-cases, inl, inr,
}
use telemetry_testbed.Ws.Clients.{Server, remove_loop}
use telemetry_testbed.Ws.Clients.Chain.{
  Entry, client_of, Chain, NotIn, Distinct, Spot, head, behind, place_of, owner, Holds, with_next,
  Chain-frame, All-update, get_lem, put_lem, Holds-with_next, with_next_other, get-next,
}

-- The list without the client at a pointer.
abbrev pub remove : ℕ → List Entry → List Entry
remove x [] = []
remove x (e ∷ es) = if e.at == x then es else e ∷ remove x es

-- What the loop leaves behind it: the rest of the list without the client, nothing else written.
pub record Removed (s s' : Server) (sp : Spot) (c : ℕ) (es : List Entry) : Type 0 where
  pub first : ℕ
  pub holds : Holds s' sp first
  pub chain : Chain s' first (remove c es)
  pub others : (x : ℕ) → x ≢ owner sp → NotIn x es → s'.cell x ≡ s.cell x
  pub target : c ≢ owner sp → s'.cell c ≡ s.cell c
  pub closed : s'.closed ≡ s.closed
  pub clients : 0 < owner sp → s'.clients ≡ s.clients

remove_loop_end :
    (fuel c : ℕ) (sp : Spot) (s : Server)
    → Holds s sp 0
    → remove_loop (suc fuel) c (place_of sp) s ≡ some (tt, s)
unfolding remove_loop
remove_loop_end fuel c sp s h = ground (arith, get_lem s sp 0 h)

remove_loop_hit :
    (fuel : ℕ) (sp : Spot) (e : Entry) (n : ℕ) (s : Server)
    → Holds s sp e.at
    → 0 < e.at
    → s.cell e.at ≡ some (client_of e n)
    → remove_loop (suc fuel) e.at (place_of sp) s ≡ some (tt, with_next s sp n)
unfolding remove_loop
remove_loop_hit fuel sp e n s h pos cell =
    ground (arith, get_lem s sp e.at h, get-next s e n cell, put_lem s sp e.at n h)

remove_loop_on :
    (fuel c : ℕ) (sp : Spot) (e : Entry) (s : Server)
    → Holds s sp e.at
    → 0 < e.at
    → e.at ≢ c
    → remove_loop (suc fuel) c (place_of sp) s ≡ remove_loop fuel c (place_of (behind e)) s
unfolding remove_loop
remove_loop_on fuel c sp e s h pos other = ground (arith, get_lem s sp e.at h)

pub remove_hit : (c : ℕ) (e : Entry) (es : List Entry) → e.at ≡ c → remove c (e ∷ es) ≡ es
remove_hit c e es h = ground arith

pub remove_on :
    (c : ℕ) (e : Entry) (es : List Entry) → e.at ≢ c → remove c (e ∷ es) ≡ e ∷ remove c es
remove_on c e es h = ground arith

-- A place keeps what it holds while the loop works behind a client.
Holds-kept :
    (s s' : Server) (sp : Spot) (c p : ℕ) (e : Entry) (es : List Entry)
    → Removed s s' (behind e) c es
    → 0 < e.at
    → NotIn (owner sp) (e ∷ es)
    → Holds s sp p
    → Holds s' sp p
Holds-kept s s' head c p e es r pos away h = r.clients pos ∙ h
Holds-kept s s' (behind b) c p e es r pos (other, away) h = r.others b.at other away ∙ h

Removed-hit :
    (s : Server) (sp : Spot) (c n : ℕ) (e : Entry) (es : List Entry)
    → e.at ≡ c
    → NotIn (owner sp) es
    → Chain s n es
    → Removed s (with_next s sp n) sp c (e ∷ es)
Removed-hit s sp c n e es same away chain = record {
  first = n;
  holds = Holds-with_next s sp n;
  chain = subst (Chain (with_next s sp n) n) (sym (remove_hit c e es same)) (
      Chain-frame s (with_next s sp n) n es
        (All-update s (with_next s sp n) (owner sp) es (λ y hy. with_next_other s sp n y hy) away)
        chain);
  others = λ x hx _. with_next_other s sp n x hx;
  target = λ hc. with_next_other s sp n c hc;
  closed = closed_kept sp;
  clients = clients_kept sp;
}
  where
    closed_kept : (sp : Spot) → (with_next s sp n).closed ≡ s.closed
    closed_kept head = refl
    closed_kept (behind b) = refl

    clients_kept : (sp : Spot) → 0 < owner sp → (with_next s sp n).clients ≡ s.clients
    clients_kept head h = absurd (omega arith)
    clients_kept (behind b) h = refl

Removed-on :
    (s s' : Server) (sp : Spot) (c p : ℕ) (e : Entry) (es : List Entry)
    → p ≡ e.at
    → 0 < e.at
    → e.at ≢ c
    → NotIn e.at es
    → NotIn (owner sp) (e ∷ es)
    → Holds s sp p
    → Removed s s' (behind e) c es
    → Removed s s' sp c (e ∷ es)
Removed-on s s' sp c p e es same pos other fresh away h r = record {
  first = p;
  holds = Holds-kept s s' sp c p e es r pos away h;
  chain =
      subst (Chain s' p) (sym (remove_on c e es other)) (same, pos, (r.first, r.holds, r.chain));
  others = λ x hx (hx₁, hx₂). r.others x hx₁ hx₂;
  target = λ hc. r.target (λ q. other (sym q));
  closed = r.closed;
  clients = λ _. r.clients pos;
}

pub remove_loop-Removed :
    (es : List Entry) (fuel c p : ℕ) (sp : Spot) (s : Server)
    → Holds s sp p
    → Chain s p es
    → Distinct es
    → NotIn (owner sp) es
    → length es < fuel
    → (s' : Server) × (remove_loop fuel c (place_of sp) s ≡ some (tt, s')) × Removed s s' sp c es
remove_loop-Removed es zero c p sp s h chain dis away enough = absurd (omega arith)
remove_loop-Removed [] (suc fuel) c p sp s h chain dis away enough = (
  s,
  remove_loop_end fuel c sp s (subst (Holds s sp) chain h),
  record {
    first = p;
    holds = h;
    chain = chain;
    others = λ x _ _. refl;
    target = λ _. refl;
    closed = refl;
    clients = λ _. refl;
  },
)
remove_loop-Removed (e ∷ es) (suc fuel) c p sp s h (same, pos, (n, cell, chain)) (fresh, dis)
      (other, away) enough =
    let h' = subst (Holds s sp) same h in
    elim (Bool-cases (e.at == c)) [
      | inl hit ↦
          let e_c : e.at ≡ c = ground (arith, hit) in
          (
            with_next s sp n,
            ap (λ x. remove_loop (suc fuel) x (place_of sp) s) (sym e_c)
                ∙ remove_loop_hit fuel sp e n s h' pos cell,
            Removed-hit s sp c n e es e_c away chain,
          )
      | inr miss ↦
          let e_c : e.at ≢ c = ground (arith, miss) in
          let (s', run, r) =
            remove_loop-Removed es fuel c n (behind e) s cell chain dis fresh (omega arith) in
          (
            s',
            remove_loop_on fuel c sp e s h' pos e_c ∙ run,
            Removed-on s s' sp c p e es same pos e_c fresh (other, away) h r,
          )
    ]
