-- ===== src/Ws/Clients/Threads/Shared.antt =====
-- In whatever order the threads of src/infra/websocket/ws_server.c run, the list holds the clients of
-- the running threads.
use telemetry_testbed.Base.{
  ℕ, suc, ◌<◌, List, [], ◌∷◌, Option, none, some, true, ◌≡◌, refl, sym, ap, subst, ◌∙◌, arith,
  length, inl, inr, map,
}
use telemetry_testbed.Ws.Socket.{Write}
use telemetry_testbed.Ws.Clients.{
  Client, Server, client_close, client_free, accept_client, ws_server_broadcast,
}
use telemetry_testbed.Ws.Clients.Chain.{Entry, client_of, Chain, closing}
use telemetry_testbed.Ws.Clients.Remove.{remove}
use telemetry_testbed.Ws.Clients.Leave.{
  IsLinked, IsIn, mark, client_close-IsLinked, client_free-IsLinked,
}
use telemetry_testbed.Ws.Clients.Sweep.{keeps, kept, log_of}
use telemetry_testbed.Ws.Clients.Broadcast.{ws_server_broadcast-dropped}
use telemetry_testbed.Ws.Clients.Listing.{
  entry_of, listed, listed-IsLinked, accept_run, no_memory_run, same_state, closing-Chain,
  refused-IsLinked,
}
use telemetry_testbed.Ws.Clients.Threads.{
  World, IsThread, ended, Healthy, Step, accepted, thread_refused, no_memory, closes, frees,
  broadcasts, Reach, here, next, started,
}

-- The list holds the clients of the threads, no other and each once.
pub record IsShared (w : World) : Type 0 where
  pub entries : List Entry
  pub linked : IsLinked w.server entries
  pub same : map (λ e. e.at) entries ≡ w.threads

IsIn-thread : (c : ℕ) (es : List Entry) → IsThread c (map (λ e. e.at) es) → IsIn c es
IsIn-thread c [] h = h
IsIn-thread c (e ∷ es) (inl h) = inl h
IsIn-thread c (e ∷ es) (inr h) = inr (IsIn-thread c es h)

map-remove :
    (c : ℕ) (es : List Entry) → map (λ e. e.at) (remove c es) ≡ ended c (map (λ e. e.at) es)
map-remove c [] = refl
map-remove c (e ∷ es) = ground (arith, map-remove c es)

map-mark : (c : ℕ) (es : List Entry) → map (λ e. e.at) (mark c es) ≡ map (λ e. e.at) es
map-mark c [] = refl
map-mark c (e ∷ es) = ground (arith, map-mark c es)

all-kept :
    (writes : ℕ → List Write) (msg : List ℕ) (s : Server) (p : ℕ) (es : List Entry)
    → Healthy writes msg s
    → Chain s p es
    → kept writes msg es ≡ es
all-kept writes msg s p [] ok h = refl
all-kept writes msg s p (e ∷ es) ok (same, pos, (n, cell, chain)) =
    let (alive, sent) = ok e.at (client_of e n) cell in
    let stays : keeps writes msg e ≡ true = rw (alive, sent) refl in
    rw stays (ap (◌∷◌ e) (all-kept writes msg s n es ok chain))

length-threads : (w : World) (h : IsShared w) → length h.entries ≡ length w.threads
length-threads w h = sym (length-map h.entries) ∙ ap length h.same
  where
    length-map : (es : List Entry) → length (map (λ e. e.at) es) ≡ length es
    length-map [] = refl
    length-map (e ∷ es) = ap suc (length-map es)

IsIn-shared : (w : World) (h : IsShared w) (c : ℕ) → IsThread c w.threads → IsIn c h.entries
IsIn-shared w h c t = IsIn-thread c h.entries (subst (IsThread c) (sym h.same) t)

closes-IsShared :
    (w : World) (c : ℕ) (s : Server)
    → IsThread c w.threads
    → client_close c w.server ≡ some (tt, s)
    → IsShared w
    → IsShared (record w { server = s })
closes-IsShared w c s t run h =
    let (s', fd, run', linked, _) =
      client_close-IsLinked w.server c h.entries h.linked (IsIn-shared w h c t) in
    record {
      entries = mark c h.entries;
      linked =
          subst (λ r. IsLinked r (mark c h.entries))
            (same_state (client_close c w.server) tt tt s' s run' run) linked;
      same = map-mark c h.entries ∙ h.same;
    }

frees-IsShared :
    (w : World) (fuel c : ℕ) (s : Server)
    → IsThread c w.threads
    → length w.threads < fuel
    → client_free fuel c w.server ≡ some (tt, s)
    → IsShared w
    → IsShared (record { server = s; threads = ended c w.threads })
frees-IsShared w fuel c s t enough run h =
    let (s', run', linked, _, _) =
      client_free-IsLinked w.server fuel c h.entries h.linked (IsIn-shared w h c t)
        (omega (arith, length-threads w h)) in
    record {
      entries = remove c h.entries;
      linked =
          subst (λ r. IsLinked r (remove c h.entries))
            (same_state (client_free fuel c w.server) tt tt s' s run' run) linked;
      same = map-remove c h.entries ∙ ap (ended c) h.same;
    }

broadcasts-IsShared :
    (w : World) (fuel : ℕ) (writes : ℕ → List Write) (msg : List ℕ) (log : List (ℕ × List ℕ))
    (s : Server)
    → Healthy writes msg w.server
    → length w.threads < fuel
    → ws_server_broadcast fuel writes msg w.server ≡ some (log, s)
    → IsShared w
    → IsShared (record w { server = s })
broadcasts-IsShared w fuel writes msg log s ok enough run h =
    let (s', run', linked, _) =
      ws_server_broadcast-dropped writes msg w.server fuel h.entries h.linked
        (omega (arith, length-threads w h)) in
    record {
      entries = h.entries;
      linked =
          subst (λ r. IsLinked r h.entries)
            (same_state (ws_server_broadcast fuel writes msg w.server) (log_of writes msg h.entries)
              log s' s run' run)
            (subst (IsLinked s')
              (all-kept writes msg w.server w.server.clients h.entries ok h.linked.chain) linked);
      same = h.same;
    }

Step-IsShared : {v w : World} → Step v w → IsShared v → IsShared w
Step-IsShared (accepted w fuel c cfd s pos gone run) h = record {
  entries = entry_of c cfd ∷ h.entries;
  linked =
      subst (λ r. IsLinked r (entry_of c cfd ∷ h.entries))
        (same_state (accept_client fuel (some c) cfd true w.server) (some c) (some c)
          (listed w.server c cfd) s (accept_run w.server fuel c cfd) run)
        (listed-IsLinked w.server c cfd h.entries pos gone h.linked);
  same = ap (◌∷◌ c) h.same;
}
Step-IsShared (thread_refused w fuel c cfd s pos gone enough run) h = record {
  entries = h.entries;
  linked =
      refused-IsLinked w.server s fuel c cfd h.entries pos gone (omega (arith, length-threads w h))
        h.linked run;
  same = h.same;
}
Step-IsShared (no_memory w fuel cfd created s run) h = record {
  entries = h.entries;
  linked =
      subst (λ r. IsLinked r h.entries)
        (same_state (accept_client fuel none cfd created w.server) none none (closing w.server cfd)
          s (no_memory_run w.server fuel cfd created) run)
        (record {
          chain = closing-Chain w.server cfd w.server.clients h.entries h.linked.chain;
          distinct = h.linked.distinct;
        });
  same = h.same;
}
Step-IsShared (closes w c s t run) h = closes-IsShared w c s t run h
Step-IsShared (frees w fuel c s t enough run) h = frees-IsShared w fuel c s t enough run h
Step-IsShared (broadcasts w fuel writes msg log s ok enough run) h =
    broadcasts-IsShared w fuel writes msg log s ok enough run h

Reach-IsShared : {u w : World} → Reach u w → IsShared u → IsShared w
Reach-IsShared (here w) h = h
Reach-IsShared (next r st) h = Step-IsShared st (Reach-IsShared r h)

started-IsShared : (cell : ℕ → Option Client) → IsShared (started cell)
started-IsShared cell = record {
  entries = [];
  linked = record { chain = refl; distinct = tt };
  same = refl;
}

-- While clients come and go in any order, and each broadcast meets only clients that are not marked and
-- that the message goes out to, no thread meets a freed client: at every state reached, the thread of a
-- client can close it, and can unlink and free it, which leaves the list of the other threads' clients
-- and no object behind; both without a fault, with a round of fuel more than there are threads.
pub threads_safe :
    (cell : ℕ → Option Client) (w : World) (c fuel : ℕ)
    → Reach (started cell) w
    → IsThread c w.threads
    → length w.threads < fuel
    → ((s : Server) × (client_close c w.server ≡ some (tt, s)))
      × ((s : Server) × (es : List Entry) × (client_free fuel c w.server ≡ some (tt, s))
          × IsLinked s es
          × (map (λ e. e.at) es ≡ ended c w.threads)
          × (s.cell c ≡ none))
threads_safe cell w c fuel r t enough =
    let h = Reach-IsShared r (started-IsShared cell) in
    let at_c = IsIn-shared w h c t in
    let (s, _, run, _, _) = client_close-IsLinked w.server c h.entries h.linked at_c in
    let (s', run', linked, gone, _) =
      client_free-IsLinked w.server fuel c h.entries h.linked at_c
        (omega (arith, length-threads w h)) in
    (
      (s, run),
      (s', remove c h.entries, run', linked, map-remove c h.entries ∙ ap (ended c) h.same, gone),
    )
