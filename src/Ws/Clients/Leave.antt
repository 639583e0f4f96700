-- ===== src/Ws/Clients/Leave.antt =====
-- The two parts of the end of `client_thread` in src/infra/websocket/ws_server.c, on a list that
-- holds the client and on one that does not any more.
use telemetry_testbed.Base.{
  ℕ, ◌<◌, ◌==◌, ◌≢◌, List, [], ◌∷◌, none, some, false, All, ◌≡◌, refl, sym, ap, subst, ◌∙◌, arith,
  if◌then◌else◌, length, Bool-cases, inl, inr, ◌⊎◌,
}
use telemetry_testbed.Ws.Clients.{
  Client, Server, update, set_dead, close, load, store, free, client_remove, client_close,
  client_free,
}
use telemetry_testbed.Ws.Clients.Chain.{
  Entry, client_of, Chain, NotIn, Distinct, head, without, closing, Chain-frame, All-update,
}
use telemetry_testbed.Ws.Clients.Remove.{remove, remove_loop-Removed}

-- The server's list holds exactly these clients, each once.
pub record IsLinked (s : Server) (es : List Entry) : Type 0 where
  pub chain : Chain s s.clients es
  pub distinct : Distinct es

abbrev pub IsIn : ℕ → List Entry → Type 0
IsIn x [] = ⊥
IsIn x (e ∷ es) = (e.at ≡ x) ⊎ IsIn x es

abbrev pub dead : Entry → Entry
dead e = record e { alive = false }

-- The list with the client at a pointer marked.
abbrev pub mark : ℕ → List Entry → List Entry
mark x [] = []
mark x (e ∷ es) = if e.at == x then dead e ∷ es else e ∷ mark x es

pub NotIn-zero : (s : Server) (p : ℕ) (es : List Entry) → Chain s p es → NotIn 0 es
NotIn-zero s p [] h = tt
NotIn-zero s p (e ∷ es) (same, pos, (n, cell, chain)) = (omega arith, NotIn-zero s n es chain)

pub ne_of : (x : ℕ) (e : Entry) (es : List Entry) → IsIn x es → NotIn e.at es → e.at ≢ x
ne_of x e [] h away = absurd h
ne_of x e (d ∷ es) (inl same) (other, away) = λ q. other (q ∙ sym same)
ne_of x e (d ∷ es) (inr h) (other, away) = ne_of x e es h away

-- The object at a pointer of the list.
abbrev pub Object : Server → ℕ → Type 0
Object s x = (e : Entry) × (n : ℕ) × (e.at ≡ x) × (s.cell x ≡ some (client_of e n))

pub Object-of : (s : Server) (x p : ℕ) (es : List Entry) → Chain s p es → IsIn x es → Object s x
Object-of s x p [] chain h = absurd h
Object-of s x p (e ∷ es) (same, pos, (n, cell, chain)) (inl here) =
    (e, n, here, ap (λ y. s.cell y) (sym here) ∙ cell)
Object-of s x p (e ∷ es) (same, pos, (n, cell, chain)) (inr there) = Object-of s x n es chain there

abbrev pub marked : Server → ℕ → Entry → ℕ → Server
marked s x e n = record s { cell = update s.cell x (some (client_of (dead e) n)) }

marked_other :
    (s : Server) (x : ℕ) (e : Entry) (n y : ℕ) → y ≢ x → (marked s x e n).cell y ≡ s.cell y
marked_other s x e n y h = ground arith

Chain-mark :
    (s : Server) (x p : ℕ) (e : Entry) (n : ℕ) (es : List Entry)
    → s.cell x ≡ some (client_of e n)
    → Distinct es
    → Chain s p es
    → Chain (marked s x e n) p (mark x es)
Chain-mark s x p e n [] cell dis chain = chain
Chain-mark s x p e n (d ∷ es) cell (fresh, dis) (same, pos, (m, here, chain)) =
    elim (Bool-cases (d.at == x)) [
      | inl hit ↦
          let d_x : d.at ≡ x = ground (arith, hit) in
          let one : client_of d m ≡ client_of e n =
            ground (arith, sym here ∙ ap (λ y. s.cell y) d_x ∙ cell) in
          let now : (marked s x e n).cell d.at ≡ some (client_of (dead d) m) =
            ground (arith, one, d_x) in
          rw hit (
            same,
            pos,
            (
              m,
              now,
              Chain-frame s (marked s x e n) m es
                  (All-update s (marked s x e n) x es (λ y hy. marked_other s x e n y hy)
                    (subst (λ y. NotIn y es) d_x fresh))
                  chain,
            ),
          )
      | inr miss ↦
          let d_x : d.at ≢ x = ground (arith, miss) in
          rw miss (
            same,
            pos,
            (m, marked_other s x e n d.at d_x ∙ here, Chain-mark s x m e n es cell dis chain),
          )
    ]

NotIn-mark : (y x : ℕ) (es : List Entry) → NotIn y es → NotIn y (mark x es)
NotIn-mark y x [] h = tt
NotIn-mark y x (e ∷ es) (he, h) = elim (Bool-cases (e.at == x)) [
  | inl hit ↦ rw hit (he, h)
  | inr miss ↦ rw miss (he, NotIn-mark y x es h)
]

Distinct-mark : (x : ℕ) (es : List Entry) → Distinct es → Distinct (mark x es)
Distinct-mark x [] h = tt
Distinct-mark x (e ∷ es) (he, h) = elim (Bool-cases (e.at == x)) [
  | inl hit ↦ rw hit (he, h)
  | inr miss ↦ rw miss (NotIn-mark e.at x es he, Distinct-mark x es h)
]

client_close_run :
    (s : Server) (e : Entry) (n : ℕ) (x : ℕ)
    → e.at ≡ x
    → s.cell x ≡ some (client_of e n)
    → client_close x s ≡ some (tt, closing (marked s x e n) e.fd)
unfolding client_close close load set_dead store
client_close_run s e n x here cell = ground arith

pub All-same : (s : Server) (es : List Entry) → All (λ e. s.cell e.at ≡ s.cell e.at) es
All-same s [] = tt
All-same s (e ∷ es) = (refl, All-same s es)

pub marked-IsLinked :
    (s : Server) (x : ℕ) (e : Entry) (n fd : ℕ) (es : List Entry)
    → s.cell x ≡ some (client_of e n)
    → IsLinked s es
    → IsLinked (closing (marked s x e n) fd) (mark x es)
marked-IsLinked s x e n fd es cell h = record {
  chain =
      Chain-frame (marked s x e n) (closing (marked s x e n) fd) s.clients (mark x es)
        (All-same (marked s x e n) (mark x es))
        (Chain-mark s x s.clients e n es cell h.distinct h.chain);
  distinct = Distinct-mark x es h.distinct;
}

-- A client that is in the list is marked there, and its descriptor is closed.
pub client_close-IsLinked :
    (s : Server) (x : ℕ) (es : List Entry)
    → IsLinked s es
    → IsIn x es
    → (s' : Server) × (fd : ℕ) × (client_close x s ≡ some (tt, s'))
      × IsLinked s' (mark x es)
      × (s'.closed ≡ fd ∷ s.closed)
client_close-IsLinked s x es h at_x =
    let (e, n, here, cell) = Object-of s x s.clients es h.chain at_x in
    (
      closing (marked s x e n) e.fd,
      e.fd,
      client_close_run s e n x here cell,
      marked-IsLinked s x e n e.fd es cell h,
      refl,
    )

NotIn-remove : (y x : ℕ) (es : List Entry) → NotIn y es → NotIn y (remove x es)
NotIn-remove y x [] h = tt
NotIn-remove y x (e ∷ es) (he, h) = elim (Bool-cases (e.at == x)) [
  | inl hit ↦ rw hit h
  | inr miss ↦ rw miss (he, NotIn-remove y x es h)
]

pub Distinct-remove : (x : ℕ) (es : List Entry) → Distinct es → Distinct (remove x es)
Distinct-remove x [] h = tt
Distinct-remove x (e ∷ es) (he, h) = elim (Bool-cases (e.at == x)) [
  | inl hit ↦ rw hit h
  | inr miss ↦ rw miss (NotIn-remove e.at x es he, Distinct-remove x es h)
]

NotIn-removed : (x : ℕ) (es : List Entry) → Distinct es → NotIn x (remove x es)
NotIn-removed x [] h = tt
NotIn-removed x (e ∷ es) (he, h) = elim (Bool-cases (e.at == x)) [
  | inl hit ↦ rw hit (subst (λ y. NotIn y es) (ground (arith, hit)) he)
  | inr miss ↦ rw miss ((λ q. absurd (ground (arith, miss, q))), NotIn-removed x es h)
]

free_run : (s : Server) (x : ℕ) (c : Client) → s.cell x ≡ some c → free x s ≡ some (tt, without s x)
unfolding free
free_run s x c h = ground arith

client_free_run :
    (fuel x : ℕ) (s s' : Server)
    → client_remove fuel x s ≡ some (tt, s')
    → client_free fuel x s ≡ free x s'
unfolding client_free
client_free_run fuel x s s' h = ground arith

without_other : (s : Server) (x y : ℕ) → y ≢ x → (without s x).cell y ≡ s.cell y
without_other s x y h = ground arith

without_self : (s : Server) (x : ℕ) → (without s x).cell x ≡ none
without_self s x = ground arith

-- A client that is in the list is unlinked and freed, with one round of fuel more than the list has
-- clients; the other clients stay as they are.
pub client_free-IsLinked :
    (s : Server) (fuel x : ℕ) (es : List Entry)
    → IsLinked s es
    → IsIn x es
    → length es < fuel
    → (s' : Server) × (client_free fuel x s ≡ some (tt, s'))
      × IsLinked s' (remove x es)
      × (s'.cell x ≡ none)
      × (s'.closed ≡ s.closed)
unfolding client_remove
client_free-IsLinked s fuel x es h at_x enough =
    let (e, n, here, cell) = Object-of s x s.clients es h.chain at_x in
    let away = NotIn-zero s s.clients es h.chain in
    let x_pos : x ≢ 0 = λ q. ne_zero es at_x away q in
    let (s', run, r) =
      remove_loop-Removed es fuel x s.clients head s refl h.chain h.distinct away enough in
    (
      without s' x,
      client_free_run fuel x s s' run ∙ free_run s' x (client_of e n) (r.target x_pos ∙ cell),
      record {
        chain =
            Chain-frame s' (without s' x) s'.clients (remove x es)
              (All-update s' (without s' x) x (remove x es) (λ y hy. without_other s' x y hy)
                (NotIn-removed x es h.distinct))
              (subst (λ p. Chain s' p (remove x es)) (sym r.holds) r.chain);
        distinct = Distinct-remove x es h.distinct;
      },
      without_self s' x,
      r.closed,
    )
  where
    ne_zero : (es : List Entry) → IsIn x es → NotIn 0 es → x ≢ 0
    ne_zero [] a b = absurd a
    ne_zero (e ∷ es) (inl same) (he, _) = λ q. he (sym (same ∙ q))
    ne_zero (e ∷ es) (inr later) (_, h) = ne_zero es later h
