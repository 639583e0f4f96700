-- ===== src/Gateway/Statistics.antt =====
-- `stats_thread` of src/app/telemetry_gateway.c: what it prints at each wake-up. The counters are
-- uint64_t, and so are their differences. The clock and the sum of the commit times are int64_t; the
-- sum never falls, and the model does not let them overflow.
pub mod Intervals
use telemetry_testbed.Base.{
  ℕ, ◌+◌, ◌-◌, ◌%◌, ◌^◌, ltb, if◌then◌else◌, List, [], ◌∷◌, Bool, true, false, not,
}
use telemetry_testbed.Base.Int.{ℤ}
use telemetry_testbed.Sim.Sensors.{Double}
use telemetry_testbed.Gateway.Writer.{Stats}

-- The variables `last_...`.
pub record Last : Type 0 where
  pub rx_msgs : ℕ
  pub rx_bytes : ℕ
  pub db_rows : ℕ
  pub commit_count : ℕ
  pub commit_ns_sum : ℕ
  pub mono_ns : ℕ

-- The variables `d_...`.
pub record Deltas : Type 0 where
  pub rx_msgs : ℕ
  pub rx_bytes : ℕ
  pub db_rows : ℕ
  pub commit : ℕ
  pub commit_ns_sum : ℕ

-- The values of the line that is printed.
pub record Line (D : Type 0) : Type 0 where
  pub up_s : D
  pub rx_rate : D
  pub db_rate : D
  pub kbps : D
  pub avg_payload : D
  pub avg_commit_ms : D
  pub max_commit_ms : D
  pub q_len : ℕ
  pub q_max : ℕ
  pub batch_size : ℤ

-- What the thread finds when it wakes: `running` before and after its sleep, the clock, the
-- counters and the lengths of the queue.
pub record Wakeup : Type 0 where
  pub running_before : Bool
  pub running_after : Bool
  pub now_ns : ℕ
  pub stats : Stats
  pub q_len : ℕ
  pub q_max : ℕ

unfoldable pub first_last : ℕ → Last
first_last start_mono_ns = record {
  rx_msgs = 0;
  rx_bytes = 0;
  db_rows = 0;
  commit_count = 0;
  commit_ns_sum = 0;
  mono_ns = start_mono_ns;
}

-- Subtraction of uint64_t.
abbrev pub minus_u64 : ℕ → ℕ → ℕ
minus_u64 a b = (a + (2 ^ 64 - b % 2 ^ 64)) % 2 ^ 64

unfoldable pub deltas : Stats → Last → Deltas
deltas s last = record {
  rx_msgs = minus_u64 s.rx_msgs last.rx_msgs;
  rx_bytes = minus_u64 s.rx_bytes last.rx_bytes;
  db_rows = minus_u64 s.db_rows last.db_rows;
  commit = minus_u64 s.commit_count last.commit_count;
  commit_ns_sum = s.commit_ns_sum - last.commit_ns_sum;
}

-- The assignments at the end of the loop's body.
unfoldable pub remember : Stats → ℕ → Last
remember s now_ns = record {
  rx_msgs = s.rx_msgs;
  rx_bytes = s.rx_bytes;
  db_rows = s.db_rows;
  commit_count = s.commit_count;
  commit_ns_sum = s.commit_ns_sum;
  mono_ns = now_ns;
}

module _ (d : Double) where
  open d use {D, ◌⊗◌, ◌⊘◌, num, of_ℕ, less}

  -- `dt_s`, with both of its tests; the quotient is not a NaN.
  unfoldable pub seconds : ℕ → ℕ → D
  seconds last_ns now_ns =
      let dt = if ltb last_ns now_ns then of_ℕ (now_ns - last_ns) ⊘ num 1000000000 0 else num 1 0 in
      if less (num 0 0) dt then dt else num 1 0

  unfoldable pub line : ℕ → ℤ → Last → Wakeup → Line D
  unfolding seconds deltas
  line start_mono_ns batch_size last w =
      let dt_s = seconds last.mono_ns w.now_ns in
      let x = deltas w.stats last in
      record {
        up_s = of_ℕ (w.now_ns - start_mono_ns) ⊘ num 1000000000 0;
        rx_rate = of_ℕ x.rx_msgs ⊘ dt_s;
        db_rate = of_ℕ x.db_rows ⊘ dt_s;
        kbps = ((of_ℕ x.rx_bytes ⊗ num 8 0) ⊘ num 1000 0) ⊘ dt_s;
        avg_payload =
            if ltb 0 w.stats.rx_msgs then of_ℕ w.stats.rx_bytes ⊘ of_ℕ w.stats.rx_msgs else num 0 0;
        avg_commit_ms =
            if ltb 0 x.commit
            then (of_ℕ x.commit_ns_sum ⊘ num 1000000 0) ⊘ of_ℕ x.commit
            else num 0 0;
        max_commit_ms = of_ℕ w.stats.commit_ns_max ⊘ num 1000000 0;
        q_len = w.q_len;
        q_max = w.q_max;
        batch_size = batch_size;
      }

  -- The loop over its wake-ups, with the lines that it prints.
  unfoldable pub stats_loop : ℕ → ℤ → Last → List Wakeup → List (Line D)
  unfolding line remember
  stats_loop start_mono_ns batch_size last [] = []
  stats_loop start_mono_ns batch_size last (w ∷ wakeups) =
      let rest = stats_loop start_mono_ns batch_size (remember w.stats w.now_ns) wakeups in
      if w.running_before
      then if w.running_after then line start_mono_ns batch_size last w ∷ rest else []
      else []

  unfoldable pub stats_thread : ℕ → ℤ → List Wakeup → List (Line D)
  unfolding stats_loop first_last
  stats_thread start_mono_ns batch_size wakeups =
      stats_loop start_mono_ns batch_size (first_last start_mono_ns) wakeups
