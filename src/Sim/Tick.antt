-- ===== src/Sim/Tick.antt =====
-- `sleep_until_next_tick` of include/util/time_utils.h up to its call of `clock_nanosleep`, which is
-- also written out in src/sim/telemetry_state_pub.c. The period is not negative, and the fields do
-- not overflow.
use telemetry_testbed.Base.{ℕ, zero, suc, ◌+◌, ◌-◌, ◌*◌, ◌/◌, ◌<◌, ◌≡◌, ltb, if◌then◌else◌, arith}

pub record Timespec : Type 0 where
  pub tv_sec : ℕ
  pub tv_nsec : ℕ

-- The `while` loop; a round takes a second off `tv_nsec`.
unfoldable pub carry : ℕ → Timespec → Timespec
carry zero t = t
carry (suc fuel) t =
    let more = carry fuel (record { tv_sec = t.tv_sec + 1; tv_nsec = t.tv_nsec - 1000000000 }) in
    if ltb t.tv_nsec 1000000000 then t else more

unfoldable pub next_tick : Timespec → ℕ → Timespec
unfolding carry
next_tick t period_ns =
    let n = t.tv_nsec + period_ns in carry (n / 1000000000 + 1) (record t { tv_nsec = n })

abbrev pub nanoseconds : Timespec → ℕ
nanoseconds t = t.tv_sec * 1000000000 + t.tv_nsec

carry_lem :
    (fuel : ℕ) (t : Timespec)
    → t.tv_nsec < fuel * 1000000000
    → ((carry fuel t).tv_nsec < 1000000000) × (nanoseconds (carry fuel t) ≡ nanoseconds t)
unfolding carry
carry_lem zero t h = absurd (omega arith)
carry_lem (suc fuel) t h =
    let r : Timespec = record { tv_sec = t.tv_sec + 1; tv_nsec = t.tv_nsec - 1000000000 } in
    ground (arith, carry_lem fuel r)

-- The next tick is exactly one period later, with its nanoseconds below one second again: the loop
-- has ended by its test.
pub next_tick_lem :
    (t : Timespec) (period_ns : ℕ)
    → ((next_tick t period_ns).tv_nsec < 1000000000)
      × (nanoseconds (next_tick t period_ns) ≡ nanoseconds t + period_ns)
unfolding next_tick
next_tick_lem t period_ns =
    let n = t.tv_nsec + period_ns in
    let start : Timespec = record t { tv_nsec = n } in
    let (low, same) = carry_lem (n / 1000000000 + 1) start (omega arith) in
    (low, omega (arith, same))
