-- ===== src/Examples/Threads.antt =====
-- The statistics thread of src/app/telemetry_gateway.c, the publisher's thread of
-- src/sim/telemetry_state_pub.c and src/apps/state_dump.c on concrete inputs.
use telemetry_testbed.Base.{
  ℕ, ◌%◌, ◌^◌, ◌≡◌, refl, List, [], ◌∷◌, ◌++◌, map, Option, none, some, true, false, arith, length,
}
use telemetry_testbed.Base.Int.{pos}
use telemetry_testbed.Types.{StateMessage}
use telemetry_testbed.Cache.{Cache, telemetry_cache_init}
use telemetry_testbed.Sim.Tick.{Timespec, nanoseconds}
use telemetry_testbed.Sim.Publisher.{start_args, build_message}
use telemetry_testbed.Sim.Publisher.Thread.{
  RoundInput, telemetry_pub_thread, connects, closes, frees_args, payloads, deadlines, snapshots,
  ticks, holdings, telemetry_pub_thread-steady,
}
use telemetry_testbed.Programs.Dump.{on_msg}
use telemetry_testbed.Programs.Dump.Output.{printed, on_msg-published}
use telemetry_testbed.Gateway.Pipeline.Trace.{Turn, offered, arrive}
use telemetry_testbed.Gateway.Statistics.{Line, Wakeup, remember, seconds, stats_loop}
use telemetry_testbed.Gateway.Statistics.Intervals.{Onward, here, on, stats_loop-counts}
use telemetry_testbed.Examples.Sample.{whole}
use telemetry_testbed.Examples.Sensors.{whole as numbers}
use telemetry_testbed.Examples.Pipeline.{
  endless, endless-Transactions, fresh_disk, always_bare, message, one_received, first_trace,
  arrived, received_one, no_node, at_8,
}
use telemetry_testbed.Gateway.Pipeline.Trace.{start}

abbrev wakeup : Wakeup
wakeup = record {
  running_before = true;
  running_after = true;
  now_ns = 2000000000;
  stats = one_received.stats;
  q_len = 1;
  q_max = 1;
}

arrived-Onward : Onward whole endless always_bare 50 first_trace arrived
arrived-Onward =
    on here (arrive (some 8) (pos 5) true message one_received (at_8, no_node) received_one)

stats_loop-counts_example :
    (more : List (List ℕ)) × (turns : List (Turn ℕ)) × (l : Line ℕ) × (arrived.received
      ≡ first_trace.received ++ more)
    × (arrived.turns ≡ first_trace.turns ++ turns)
    × (stats_loop numbers 0
          (pos 50)
          (remember first_trace.world.gateway.stats 1000000000)
          (wakeup ∷ [])
        ≡ l ∷ [])
    × (l.rx_rate ≡ numbers.◌⊘◌ (length more % 2 ^ 64) (seconds numbers 1000000000 2000000000))
    × (l.db_rate
        ≡ numbers.◌⊘◌ (length (offered turns) % 2 ^ 64) (seconds numbers 1000000000 2000000000))
stats_loop-counts_example =
    stats_loop-counts whole endless always_bare 50 endless-Transactions fresh_disk numbers 0
      1000000000 (pos 50) wakeup start arrived-Onward refl refl refl

abbrev still_cache : Cache ℕ
still_cache = telemetry_cache_init 0

abbrev rounds : List (RoundInput ℕ)
rounds =
    record { cache = still_cache; timestamp_ns = 7; malloc = true }
    ∷ record { cache = still_cache; timestamp_ns = 8; malloc = false }
    ∷ record { cache = still_cache; timestamp_ns = 9; malloc = true }
    ∷ []

-- A packing that keeps the header's clock.
abbrev pack : StateMessage ℕ → List ℕ
pack m = elim m.header [ none ↦ 0 ∷ [] | some h ↦ h.timestamp_ns ∷ [] ]

abbrev begun_at : Timespec
begun_at = record { tv_sec = 3; tv_nsec = 990000000 }

telemetry_pub_thread-steady_example :
    let actions = telemetry_pub_thread pack start_args true 50000000 begun_at rounds in
    (payloads actions ≡ map pack (snapshots start_args rounds))
    × (deadlines actions ≡ ticks (nanoseconds begun_at) 50000000 (snapshots start_args rounds))
    × (holdings actions ≡ connects ∷ closes ∷ frees_args ∷ [])
telemetry_pub_thread-steady_example =
    telemetry_pub_thread-steady pack start_args 50000000 true begun_at rounds

abbrev unpack : List ℕ → Option (StateMessage ℕ)
unpack payload = some (build_message start_args 7 still_cache)

on_msg-published_example :
    let m = build_message start_args 7 still_cache in
    on_msg whole.print6 unpack (pack m) ≡ printed whole.print6 7 still_cache
on_msg-published_example =
    on_msg-published whole.print6 pack unpack 7 still_cache refl (λ e. ground (arith, e))
