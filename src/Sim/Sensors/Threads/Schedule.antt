-- ===== src/Sim/Sensors/Threads/Schedule.antt =====
-- What the rounds of a whole motor thread of src/sim/sensors do, and when.
use telemetry_testbed.Base.{
  ℕ, ◌≡◌, refl, ap, ◌∙◌, List, [], ◌∷◌, ◌++◌, Option, none, some, true, codes, All, arith,
}
use telemetry_testbed.Cache.{Cache}
use telemetry_testbed.Sim.Tick.{Timespec, next_tick, nanoseconds, next_tick_lem}
use telemetry_testbed.Sim.Publisher.{PubArgs, build_message}
use telemetry_testbed.Sim.Publisher.Thread.{ticks}
use telemetry_testbed.Sim.Sensors.{Double, MotorLoop, Round}
use telemetry_testbed.Sim.Sensors.Motor1.{motor1_round}
use telemetry_testbed.Sim.Sensors.Motor2.{motor2_round}
use telemetry_testbed.Sim.Sensors.Readings.{InRange, readings, seen, motor_rounds-agree}
use telemetry_testbed.Sim.Sensors.Threads.{
  Action, connects, works, sleeps_until, closes, frees_args, sensor_loop, sensor_thread, motor_vars,
  motor1_thread, motor2_thread,
}

module _ {S C : Type 0} where
  -- The rounds of some actions, each with the cache that it met, and the ends of the sleeps.
  abbrev pub rounds : List (Action S C) → List (C × Round S C)
  rounds [] = []
  rounds (works c r ∷ actions) = (c, r) ∷ rounds actions
  rounds (connects ∷ actions) = rounds actions
  rounds (sleeps_until t ∷ actions) = rounds actions
  rounds (closes ∷ actions) = rounds actions
  rounds (frees_args ∷ actions) = rounds actions

  abbrev pub wakes : List (Action S C) → List ℕ
  wakes [] = []
  wakes (sleeps_until t ∷ actions) = nanoseconds t ∷ wakes actions
  wakes (works c r ∷ actions) = wakes actions
  wakes (connects ∷ actions) = wakes actions
  wakes (closes ∷ actions) = wakes actions
  wakes (frees_args ∷ actions) = wakes actions

  module _ (round : C → S → Round S C) (period_ns : ℕ) where
    wakes_loop :
        (t : Timespec) (vars : S) (caches : List C)
        → wakes (sensor_loop round period_ns t vars caches ++ (closes ∷ frees_args ∷ []))
          ≡ ticks (nanoseconds t) period_ns caches
    unfolding sensor_loop
    wakes_loop t vars [] = refl
    wakes_loop t vars (c ∷ caches) =
        let tick = next_tick t period_ns in
        let (_, later) = next_tick_lem t period_ns in
        ap (λ l. nanoseconds tick ∷ l) (wakes_loop tick (round c vars).vars caches)
        ∙ ap (λ n. n ∷ ticks n period_ns caches) later

    rounds_loop :
        (P : C × Round S C → Type 0) (Q : C → Type 0)
        → ((c : C) (vars : S) → Q c → P (c, round c vars))
        → (t : Timespec) (vars : S) (caches : List C) → All Q caches
        → All P (rounds (sensor_loop round period_ns t vars caches ++ (closes ∷ frees_args ∷ [])))
    unfolding sensor_loop
    rounds_loop P Q h t vars [] q = tt
    rounds_loop P Q h t vars (c ∷ caches) (qc, q) =
        (h c vars qc, rounds_loop P Q h (next_tick t period_ns) (round c vars).vars caches q)

-- There is a cache.
abbrev pub Present : {F : Type 0} → Option (Cache F) → Type 0
Present {F} cache = (c : Cache F) × (cache ≡ some c)

module _ (d : Double) (a : PubArgs) (now : ℕ) where
  open d use {D, F, num}

  -- A subscriber that decodes the payloads of the round reads what the next snapshot says of the
  -- motor, and the snapshot says of the other what it said before.
  abbrev pub Agrees1 : Option (Cache F) × Round (MotorLoop D) (Option (Cache F)) → Type 0
  Agrees1 (cache, r) =
      let m = readings (codes "/robot/sensors/motor1") r.messages in
      (c : Cache F) × (c' : Cache F) × (cache ≡ some c)
      × (r.cache ≡ some c')
      × InRange m
      × ((build_message a now c').motor1 ≡ seen d a.motor1_id m)
      × ((build_message a now c').motor2 ≡ (build_message a now c).motor2)

  abbrev pub Agrees2 : Option (Cache F) × Round (MotorLoop D) (Option (Cache F)) → Type 0
  Agrees2 (cache, r) =
      let m = readings (codes "/robot/sensors/motor2") r.messages in
      (c : Cache F) × (c' : Cache F) × (cache ≡ some c)
      × (r.cache ≡ some c')
      × InRange m
      × ((build_message a now c').motor2 ≡ seen d a.motor2_id m)
      × ((build_message a now c').motor1 ≡ (build_message a now c).motor1)

  motor_rounds-Agrees :
      (asked : D) (cache : Option (Cache F)) (vars : MotorLoop D)
      → Present cache
      → Agrees1 (cache, motor1_round d asked cache vars)
        × Agrees2 (cache, motor2_round d asked cache vars)
  motor_rounds-Agrees asked none vars (c, e) = absurd (ground (arith, e))
  motor_rounds-Agrees asked (some c) vars q =
      let (first, second) = motor_rounds-agree d asked a now c vars in
      (
        (c, first.0, refl, first.1, first.2, first.3, first.4),
        (c, second.0, refl, second.1, second.2, second.3, second.4),
      )

  -- Let a cache be there in every round, in whatever state the other threads have left it. Then in
  -- every round of the whole thread of either motor, with any seed, a subscriber that decodes the five
  -- payloads reads what the next snapshot says of the motor, within the ranges of the C types, and the
  -- snapshot says of the other motor what it said before. The sleep behind the k-th round ends k
  -- periods after the start.
  pub motor_threads-agree :
      (asked : D) (period_ns : ℕ) (t : Timespec) (seed : ℕ) (caches : List (Option (Cache F)))
      → All Present caches
      → let first = motor1_thread d asked period_ns true t seed caches in
        let second = motor2_thread d asked period_ns true t seed caches in
        All Agrees1 (rounds first)
        × All Agrees2 (rounds second)
        × (wakes first ≡ ticks (nanoseconds t) period_ns caches)
        × (wakes second ≡ ticks (nanoseconds t) period_ns caches)
  unfolding motor1_thread motor2_thread sensor_thread
  motor_threads-agree asked period_ns t seed caches q = (
    rounds_loop (motor1_round d asked) period_ns Agrees1 Present
        (λ c vars h. (motor_rounds-Agrees asked c vars h).0) t (motor_vars d seed (num 320 1))
        caches q,
    rounds_loop (motor2_round d asked) period_ns Agrees2 Present
        (λ c vars h. (motor_rounds-Agrees asked c vars h).1) t (motor_vars d seed (num 310 1))
        caches q,
    wakes_loop (motor1_round d asked) period_ns t (motor_vars d seed (num 320 1)) caches,
    wakes_loop (motor2_round d asked) period_ns t (motor_vars d seed (num 310 1)) caches,
  )
