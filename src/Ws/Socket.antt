-- ===== src/Ws/Socket.antt =====
-- `recv_all` and `send_all` of src/infra/websocket/ws_server.c. The operating system chooses how
-- many bytes each call moves: its choices are a list, one entry for each call of `recv` or `send`.
-- Where the list ends the call never comes back with data, as after a time-out.
pub mod Transfer
use telemetry_testbed.Base.{
  ℕ, zero, suc, ◌+◌, ◌-◌, ◌==◌, if◌then◌else◌, List, [], ◌∷◌, ◌++◌, Option, none, some, Bool, true,
  false, min, length, take, drop,
}

-- What one call of `recv` does: `gives k` moves up to `k + 1` bytes, as many as asked for and there
-- at most; `interrupted` is -1 with EINTR, `broken` any other -1.
pub data Read : Type 0 where
  gives : ℕ → Read
  interrupted broken : Read

-- What is still to be read: the bytes that the peer sends before it closes, and the calls to come.
pub record Socket : Type 0 where
  pub incoming : List ℕ
  pub reads : List Read

abbrev prepend : List ℕ → Option (List ℕ × Socket) → Option (List ℕ × Socket)
prepend bs none = none
prepend bs (some (cs, s)) = some (bs ++ cs, s)

-- The loop with `n` bytes to go; `none` is -1. The argument of `drop` is what `recv` returned.
unfoldable pub recv_loop : List Read → ℕ → List ℕ → Option (List ℕ × Socket)
recv_loop reads zero incoming = some ([], record { incoming = incoming; reads = reads })
recv_loop [] (suc n) incoming = none
recv_loop (interrupted ∷ reads) (suc n) incoming = recv_loop reads (suc n) incoming
recv_loop (broken ∷ reads) (suc n) incoming = none
recv_loop (gives k ∷ reads) (suc n) incoming =
    let r = min (suc k) (min (suc n) (length incoming)) in
    let more = prepend (take r incoming) (recv_loop reads (suc n - r) (drop r incoming)) in
    if r == 0 then none else more

unfoldable pub recv_all : ℕ → Socket → Option (List ℕ × Socket)
unfolding recv_loop
recv_all n s = recv_loop s.reads n s.incoming

-- What one call of `send` does: `wrote k` is the result k, and `failed` any -1 but EINTR.
pub data Write : Type 0 where
  wrote : ℕ → Write
  again failed : Write

-- The return value of `send_all` was 0 (`done`), with the calls that are left, or -1, and the bytes
-- that went out.
pub record Sent : Type 0 where
  pub done : Bool
  pub out : List ℕ
  pub writes : List Write

abbrev sent_more : List ℕ → Sent → Sent
sent_more bs s = record s { out = bs ++ s.out }

unfoldable pub send_all : List Write → List ℕ → Sent
send_all writes [] = record { done = true; out = []; writes = writes }
send_all [] (b ∷ bs) = record { done = false; out = []; writes = [] }
send_all (again ∷ writes) (b ∷ bs) = send_all writes (b ∷ bs)
send_all (failed ∷ writes) (b ∷ bs) = record { done = false; out = []; writes = writes }
send_all (wrote zero ∷ writes) (b ∷ bs) = record { done = false; out = []; writes = writes }
send_all (wrote (suc k) ∷ writes) (b ∷ bs) =
    sent_more (take (suc k) (b ∷ bs)) (send_all writes (drop (suc k) (b ∷ bs)))
