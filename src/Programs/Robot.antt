-- ===== src/Programs/Robot.antt =====
-- `main` of src/apps/robot_main.c from `mosquitto_lib_init` on, and what it calls of src/sim/sensors to
-- start the threads: which threads are started, which are joined, and when they are told to end.
pub mod Joins
pub mod Command
use telemetry_testbed.Base.{ℕ, if◌then◌else◌, List, [], ◌∷◌, ◌++◌, Bool, true, false}

pub data Worker : Type 0 where
  imu tilt motor1 motor2 state : Worker

-- `cleared` is `g_running = 0`, by `main` itself.
pub data Event : Type 0 where
  library_init library_cleanup cleared : Event
  started joined : Worker → Event

-- How a start goes: no memory for the arguments, no thread, or a thread that runs.
pub data Start : Type 0 where
  no_memory no_thread runs : Start

-- The result code, and what happened.
pub record Run : Type 0 where
  pub rc : ℕ
  pub events : List Event

-- `imu_sensor_start` and its like: whether it returned 0. The arguments that it takes from `calloc` are
-- freed by it, or by the thread.
unfoldable pub sensor_start : Start → Bool
sensor_start no_memory = false
sensor_start no_thread = false
sensor_start runs = true

abbrev pub join_all : List Worker → List Event
join_all [] = []
join_all (w ∷ ws) = joined w ∷ join_all ws

-- The block of a start that fails: nothing runs before the first.
abbrev pub fail : List Worker → Run
fail [] = record { rc = 1; events = library_cleanup ∷ [] }
fail (w ∷ ws) = record { rc = 1; events = cleared ∷ (join_all (w ∷ ws) ++ library_cleanup ∷ []) }

-- A start with the threads that run already, and what follows it.
abbrev pub start : Start → Worker → List Worker → Run → Run
start s w before after =
    if sensor_start s then record after { events = started w ∷ after.events } else fail before

unfoldable pub robot_main : Start → Start → Start → Start → Start → Run
unfolding sensor_start
robot_main a b c d e =
    let all = imu ∷ tilt ∷ motor1 ∷ motor2 ∷ state ∷ [] in
    let last : Run = record { rc = 0; events = join_all all ++ library_cleanup ∷ [] } in
    let r = start a imu [] (
      start b tilt (imu ∷ []) (
        start c motor1 (imu ∷ tilt ∷ []) (
          start d motor2 (imu ∷ tilt ∷ motor1 ∷ [])
            (start e state (imu ∷ tilt ∷ motor1 ∷ motor2 ∷ []) last)))) in
    record r { events = library_init ∷ r.events }
