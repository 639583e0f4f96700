-- ===== src/Programs/Robot/Joins.antt =====
-- Every thread that `main` of src/apps/robot_main.c starts is joined, and where a start fails the threads
-- are told to end before `main` waits for them.
use telemetry_testbed.Base.{
  ◌==◌, if◌then◌else◌, List, [], ◌∷◌, Option, none, some, Bool, true, false, ◌&&◌, ◌||◌, not, ◌≡◌,
  arith,
}
use telemetry_testbed.Programs.Robot.{
  Worker, imu, tilt, motor1, motor2, state, Event, library_init, library_cleanup, cleared, started,
  joined, Start, sensor_start, robot_main,
}

-- The library, the flag `g_running`, and the threads that run.
pub record Now : Type 0 where
  pub library : Bool
  pub running : Bool
  pub imu : Bool
  pub tilt : Bool
  pub motor1 : Bool
  pub motor2 : Bool
  pub state : Bool

abbrev pub idle : Bool → Now
idle running = record {
  library = false;
  running = running;
  imu = false;
  tilt = false;
  motor1 = false;
  motor2 = false;
  state = false;
}

abbrev get : Now → Worker → Bool
get n imu = n.imu
get n tilt = n.tilt
get n motor1 = n.motor1
get n motor2 = n.motor2
get n state = n.state

abbrev set : Now → Worker → Bool → Now
set n imu b = record n { imu = b }
set n tilt b = record n { tilt = b }
set n motor1 b = record n { motor1 = b }
set n motor2 b = record n { motor2 = b }
set n state b = record n { state = b }

abbrev any_thread : Now → Bool
any_thread n = n.imu || (n.tilt || (n.motor1 || (n.motor2 || n.state)))

-- A thread is started once and while the library is there. Only a running thread is joined, and only where
-- `may_wait` is set (a signal will come) or the flag is cleared. The library goes last.
abbrev pub replay : Bool → Now → List Event → Option Now
replay may_wait n [] = some n
replay may_wait n (library_init ∷ es) =
    if n.library then none else replay may_wait (record n { library = true }) es
replay may_wait n (library_cleanup ∷ es) =
    if n.library && not (any_thread n)
    then replay may_wait (record n { library = false }) es
    else none
replay may_wait n (cleared ∷ es) = replay may_wait (record n { running = false }) es
replay may_wait n (started w ∷ es) =
    if n.library && not (get n w) then replay may_wait (set n w true) es else none
replay may_wait n (joined w ∷ es) =
    if get n w && (may_wait || not n.running) then replay may_wait (set n w false) es else none

abbrev all_run : Start → Start → Start → Start → Start → Bool
all_run a b c d e =
    sensor_start a && (sensor_start b && (sensor_start c && (sensor_start d && sensor_start e)))

-- Whichever start fails, each thread that was started is joined once and before the library goes, and
-- `main` clears the flag before it waits for any of them, so that it needs no signal. It returns 0 just
-- where all five start; only then it leaves the end of the threads to a signal. The flag is not
-- touched if all start or the first does not.
pub robot_main-joined :
    (a b c d e : Start)
    → (((robot_main a b c d e).rc == 0) ≡ all_run a b c d e)
      × (replay (all_run a b c d e) (idle true) (robot_main a b c d e).events
          ≡ some (idle (all_run a b c d e || not (sensor_start a))))
unfolding robot_main
robot_main-joined a b c d e = (ground arith, ground arith)
