-- ===== src/Programs/Robot/Command.antt =====
-- The command line of src/apps/robot_main.c, up to the rates that its threads are given. `atoi` and
-- `atof` are arguments, and `atof` gives no NaN.
use telemetry_testbed.Base.{
  ℕ, ◌≡◌, if◌then◌else◌, List, [], ◌∷◌, Option, none, some, true, codes, text_eq, arith, take,
}
use telemetry_testbed.Base.Int.{ℤ, pos}
use telemetry_testbed.Sim.Sensors.{Double}

pub record RobotOptions (D : Type 0) : Type 0 where
  pub host : List ℕ
  pub port : ℤ
  pub rate : D
  pub state_rate : D

-- The options, or the result code where `main` returns at once.
pub data RobotParsed (D : Type 0) : Type 0 where
  run : RobotOptions D → RobotParsed D
  quit : ℕ → RobotParsed D

module _ (d : Double) (atoi : List ℕ → ℤ) (atof : List ℕ → d.D) where
  open d use {D, num, less}

  unfoldable pub robot_defaults : RobotOptions D
  robot_defaults = record {
    host = codes "127.0.0.1";
    port = pos 1883;
    rate = num 500 1;
    state_rate = num 200 1;
  }

  -- An option with its value; nothing if it is no such option. `host` has 256 bytes.
  abbrev pub option_of : List ℕ → List ℕ → RobotOptions D → Option (RobotOptions D)
  option_of a v o =
      if text_eq a (codes "--host")
      then some (record o { host = take 255 v })
      else if text_eq a (codes "--port")
      then some (record o { port = atoi v })
      else if text_eq a (codes "--rate")
      then some (record o { rate = atof v })
      else if text_eq a (codes "--state-rate")
      then some (record o { state_rate = atof v })
      else none

  -- An argument that is no option with a value.
  abbrev pub single : List ℕ → ℕ
  single a = if text_eq a (codes "--help") then 0 else 1

  -- The loop over `argv`, behind the program's name.
  unfoldable pub parse_robot : List (List ℕ) → RobotOptions D → RobotParsed D
  unfolding text_eq
  parse_robot [] o = run o
  parse_robot (a ∷ []) o = quit (single a)
  parse_robot (a ∷ v ∷ args) o = elim (option_of a v o) [
    | some o' ↦ parse_robot args o'
    | none ↦ quit (single a)
  ]

  -- `rt.rate_hz` and the rate of the state publisher.
  unfoldable pub robot_runtime : RobotOptions D → D × D
  robot_runtime o = (
    if less (num 0 1) o.rate then o.rate else num 500 1,
    if less (num 0 1) o.state_rate then o.state_rate else num 200 1,
  )

  -- The IMU and the tilt sensor divide by the rate that `main` hands them, and whatever was given on
  -- the command line it is positive, provided that the defaults are.
  robot_runtime_positive :
      (o : RobotOptions D)
      → less (num 0 1) (num 500 1) ≡ true
      → less (num 0 1) (num 200 1) ≡ true
      → (less (num 0 1) (robot_runtime o).0 ≡ true) × (less (num 0 1) (robot_runtime o).1 ≡ true)
  unfolding robot_runtime
  robot_runtime_positive o h k = (ground (arith, h), ground (arith, k))
