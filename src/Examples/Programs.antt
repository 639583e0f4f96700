-- ===== src/Examples/Programs.antt =====
-- The start of the gateway of src/app/telemetry_gateway.c, and its knobs.
use telemetry_testbed.Base.{
  ◌≡◌, ◌==◌, refl, [], ◌∷◌, none, some, true, false, codes, arith, print_signed,
}
use telemetry_testbed.Base.Int.{pos}
use telemetry_testbed.Gateway.Lifecycle.{
  Outcomes, opened, created, refused, telemetry_gateway_start,
}
use telemetry_testbed.Gateway.Lifecycle.Balance.{nothing, replay, whole_run}
use telemetry_testbed.Programs.{
  Options, defaults, run, parse_args, set_environment, read_settings, quit,
}
use telemetry_testbed.Programs.Robot.{sensor_start, runs, no_thread, robot_main}
use telemetry_testbed.Programs.Robot.Joins.{idle, replay as replay_threads, robot_main-joined}
use telemetry_testbed.Programs.Knobs.{command_line-settings}

-- Nothing fails but the connection to the broker.
abbrev no_broker : Outcomes
no_broker = record {
  calloc_gateway = true;
  open_writer = opened;
  ensure_schema = true;
  prepare = true;
  open_reader = opened;
  wal = true;
  calloc_server = true;
  socket = true;
  bind = true;
  listen = true;
  accept_thread = true;
  writer_thread = created;
  stats_enabled = true;
  stats_thread = refused false;
  mosquitto_new = true;
  mosquitto_connect = false;
  loop_start = true;
}

-- A thread's field that is not null after a failure is joined.
left_behind :
    replay false nothing
      (whole_run (telemetry_gateway_start (record no_broker { stats_thread = refused true })))
    ≡ none
unfolding telemetry_gateway_start
left_behind = refl

unknown_argument : parse_args (codes "--batch" ∷ []) defaults ≡ quit 1
unfolding parse_args
unknown_argument = refl

command_line-settings_example :
    (o : Options) × (parse_args
        (codes "--batch"
          ∷ print_signed (pos 9999)
          ∷ codes "--stats-ms"
          ∷ print_signed (pos 250)
          ∷ codes "--stats"
          ∷ [])
        defaults
      ≡ run o)
    × (read_settings (set_environment o)
        ≡ record { batch_size = pos 4096; stats_enabled = pos 1; stats_interval_ms = pos 250 })
command_line-settings_example = command_line-settings 9999 250 (omega arith) (omega arith)

-- The third thread cannot be created.
robot_main-joined_example :
    (((robot_main runs runs no_thread runs runs).rc == 0) ≡ false)
    × (replay_threads false (idle true) (robot_main runs runs no_thread runs runs).events
        ≡ some (idle false))
unfolding sensor_start
robot_main-joined_example = robot_main-joined runs runs no_thread runs runs
