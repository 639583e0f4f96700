-- ===== src/Sim/Publisher/Thread.antt =====
-- `telemetry_state_pub_start` and `telemetry_pub_thread` of src/sim/telemetry_state_pub.c. The calls of
-- libmosquitto, `malloc` and the clocks are arguments; so is libprotobuf-c's packing, `pack`.
use telemetry_testbed.Base.{
  ℕ, ◌+◌, ◌≡◌, refl, ap, ◌∙◌, if◌then◌else◌, List, [], ◌∷◌, ◌++◌, map, Bool, true, false,
  Bool-cases, inl, inr,
}
use telemetry_testbed.Base.Int.{ℤ}
use telemetry_testbed.Types.{StateMessage}
use telemetry_testbed.Cache.{Cache}
use telemetry_testbed.Sim.Sensors.{Double}
use telemetry_testbed.Sim.Tick.{Timespec, next_tick, nanoseconds, next_tick_lem}
use telemetry_testbed.Sim.Publisher.{PubArgs, start_args, build_message}

-- What the thread does: it connects, publishes a payload on the snapshot topic, sleeps until a time,
-- takes the short sleep behind a failed `malloc`, closes the connection, frees its arguments.
pub data Action : Type 0 where
  connects : Action
  publishes : List ℕ → Action
  sleeps_until : Timespec → Action
  naps : Action
  closes : Action
  frees_args : Action

-- What a round of the loop meets: the cache, the clock for the header, and whether `malloc` gives the
-- buffer. The list of rounds ends where `running` is found to be 0.
pub record RoundInput (F : Type 0) : Type 0 where
  pub cache : Cache F
  pub timestamp_ns : ℕ
  pub malloc : Bool

-- `period_ns`, with the default rate of 20 Hz. The rate is not a NaN.
unfoldable pub period_of : (d : Double) → d.D → ℤ
period_of d state_rate_hz =
    let rate = if d.less (d.num 0 0) state_rate_hz then state_rate_hz else d.num 20 0 in
    d.lround (d.◌⊘◌ (d.num 1000000000 0) rate)

module _ {F : Type 0} (pack : StateMessage F → List ℕ) (a : PubArgs) where
  -- `continue` leaves `next` as it was.
  unfoldable pub publish_loop : ℕ → Timespec → List (RoundInput F) → List Action
  publish_loop period_ns t [] = []
  publish_loop period_ns t (r ∷ rounds) =
      let tick = next_tick t period_ns in
      let missed = publish_loop period_ns t rounds in
      let kept = publish_loop period_ns tick rounds in
      if r.malloc
      then publishes (pack (build_message a r.timestamp_ns r.cache)) ∷ sleeps_until tick ∷ kept
      else naps ∷ missed

  -- `connected` is whether `mqtt_client_connect` succeeds.
  unfoldable pub telemetry_pub_thread : Bool → ℕ → Timespec → List (RoundInput F) → List Action
  unfolding publish_loop
  telemetry_pub_thread connected period_ns t rounds =
      if connected
      then connects ∷ (publish_loop period_ns t rounds ++ (closes ∷ frees_args ∷ []))
      else frees_args ∷ []

-- `telemetry_state_pub_start`: 0, or `failed n` for -n, with what happens to the arguments.
pub data Started : Type 0 where
  started : PubArgs → Started
  failed : ℕ → List Action → Started

unfoldable pub telemetry_state_pub_start : Bool → Bool → Started
unfolding start_args
telemetry_state_pub_start calloc create =
    if calloc
    then if create then started start_args else failed 2 (frees_args ∷ [])
    else failed 1 []

-- The payloads and the times of some actions.
abbrev pub payloads : List Action → List (List ℕ)
payloads [] = []
payloads (publishes p ∷ actions) = p ∷ payloads actions
payloads (connects ∷ actions) = payloads actions
payloads (sleeps_until t ∷ actions) = payloads actions
payloads (naps ∷ actions) = payloads actions
payloads (closes ∷ actions) = payloads actions
payloads (frees_args ∷ actions) = payloads actions

abbrev pub deadlines : List Action → List ℕ
deadlines [] = []
deadlines (sleeps_until t ∷ actions) = nanoseconds t ∷ deadlines actions
deadlines (connects ∷ actions) = deadlines actions
deadlines (publishes p ∷ actions) = deadlines actions
deadlines (naps ∷ actions) = deadlines actions
deadlines (closes ∷ actions) = deadlines actions
deadlines (frees_args ∷ actions) = deadlines actions

-- The messages of the rounds that got memory.
abbrev pub snapshots : {F : Type 0} → PubArgs → List (RoundInput F) → List (StateMessage F)
snapshots a [] = []
snapshots a (r ∷ rounds) =
    let rest = snapshots a rounds in
    if r.malloc then build_message a r.timestamp_ns r.cache ∷ rest else rest

-- As many times as there are entries, one period apart.
abbrev pub ticks {ℓ} : {A : Type ℓ} → ℕ → ℕ → List A → List ℕ
ticks start period [] = []
ticks start period (x ∷ xs) = (start + period) ∷ ticks (start + period) period xs

module _ {F : Type 0} (pack : StateMessage F → List ℕ) (a : PubArgs) (period_ns : ℕ) where
  publish_loop-ticks :
      (t : Timespec) (rounds : List (RoundInput F))
      → (payloads (publish_loop pack a period_ns t rounds) ≡ map pack (snapshots a rounds))
        × (deadlines (publish_loop pack a period_ns t rounds)
            ≡ ticks (nanoseconds t) period_ns (snapshots a rounds))
  unfolding publish_loop
  publish_loop-ticks t [] = (refl, refl)
  publish_loop-ticks t (r ∷ rounds) =
      let tick = next_tick t period_ns in
      elim (Bool-cases r.malloc) [
        | inl got ↦
            let (sent, slept) = publish_loop-ticks tick rounds in
            let (_, later) = next_tick_lem t period_ns in
            rw got (
              ap (λ l. pack (build_message a r.timestamp_ns r.cache) ∷ l) sent,
              ap (λ l. nanoseconds tick ∷ l) slept
                  ∙ ap (λ n. n ∷ ticks n period_ns (snapshots a rounds)) later,
            )
        | inr none_got ↦ rw none_got (publish_loop-ticks t rounds)
      ]

-- The actions that take or give back something.
abbrev pub holdings : List Action → List Action
holdings [] = []
holdings (connects ∷ actions) = connects ∷ holdings actions
holdings (closes ∷ actions) = closes ∷ holdings actions
holdings (frees_args ∷ actions) = frees_args ∷ holdings actions
holdings (publishes p ∷ actions) = holdings actions
holdings (sleeps_until t ∷ actions) = holdings actions
holdings (naps ∷ actions) = holdings actions

payloads-end : (xs : List Action) → payloads (xs ++ (closes ∷ frees_args ∷ [])) ≡ payloads xs
payloads-end [] = refl
payloads-end (publishes p ∷ xs) = ap (λ l. p ∷ l) (payloads-end xs)
payloads-end (connects ∷ xs) = payloads-end xs
payloads-end (sleeps_until t ∷ xs) = payloads-end xs
payloads-end (naps ∷ xs) = payloads-end xs
payloads-end (closes ∷ xs) = payloads-end xs
payloads-end (frees_args ∷ xs) = payloads-end xs

deadlines-end : (xs : List Action) → deadlines (xs ++ (closes ∷ frees_args ∷ [])) ≡ deadlines xs
deadlines-end [] = refl
deadlines-end (sleeps_until t ∷ xs) = ap (λ l. nanoseconds t ∷ l) (deadlines-end xs)
deadlines-end (connects ∷ xs) = deadlines-end xs
deadlines-end (publishes p ∷ xs) = deadlines-end xs
deadlines-end (naps ∷ xs) = deadlines-end xs
deadlines-end (closes ∷ xs) = deadlines-end xs
deadlines-end (frees_args ∷ xs) = deadlines-end xs

module _ {F : Type 0} (pack : StateMessage F → List ℕ) (a : PubArgs) (period_ns : ℕ) where
  holdings_loop :
      (t : Timespec) (rounds : List (RoundInput F)) (rest : List Action)
      → holdings (publish_loop pack a period_ns t rounds ++ rest) ≡ holdings rest
  unfolding publish_loop
  holdings_loop t [] rest = refl
  holdings_loop t (r ∷ rounds) rest = elim (Bool-cases r.malloc) [
    | inl got ↦ rw got (holdings_loop (next_tick t period_ns) rounds rest)
    | inr none_got ↦ rw none_got (holdings_loop t rounds rest)
  ]

  -- Whether it can connect or not, the thread gives back what it took: it closes the connection if it
  -- made one, and frees its arguments once, last. Connected, it publishes the packed snapshot of the
  -- cache of each round that gets memory, in order, and the sleep behind the k-th of them ends k
  -- periods after the start: neither the work nor a round without memory shifts the later ones.
  pub telemetry_pub_thread-steady :
      (connected : Bool) (t : Timespec) (rounds : List (RoundInput F))
      → let actions = telemetry_pub_thread pack a connected period_ns t rounds in
        let made = if connected then snapshots a rounds else [] in
        (payloads actions ≡ map pack made)
        × (deadlines actions ≡ ticks (nanoseconds t) period_ns made)
        × (holdings actions
            ≡ (if connected then connects ∷ closes ∷ frees_args ∷ [] else frees_args ∷ []))
  unfolding telemetry_pub_thread
  telemetry_pub_thread-steady false t rounds = (refl, refl, refl)
  telemetry_pub_thread-steady true t rounds =
      let loop = publish_loop pack a period_ns t rounds in
      let (sent, slept) = publish_loop-ticks pack a period_ns t rounds in
      (
        payloads-end loop ∙ sent,
        deadlines-end loop ∙ slept,
        ap (λ l. connects ∷ l) (holdings_loop t rounds (closes ∷ frees_args ∷ [])),
      )
