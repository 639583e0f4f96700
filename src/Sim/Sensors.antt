-- ===== src/Sim/Sensors.antt =====
-- What the simulated sensors of src/sim/sensors share: `double` arithmetic and the C library's
-- functions, which are parameters, and the messages that they publish. Each sensor is a thread; a
-- round of its loop is one function, from the wake-up to the next sleep.
pub mod Motor1
pub mod Motor2
pub mod Imu
pub mod Tilt
pub mod Readings
pub mod Attitude
pub mod Threads
use telemetry_testbed.Base.{ℕ, List, Bool, Option, none, some}
use telemetry_testbed.Base.Int.{ℤ}

-- `num m k` is the literal of m / 10 ^ k, `of_ℕ` the conversion of an integer, `to_u32` the cast to
-- uint32_t and `to_float` the cast to float. `lround` is also `llround`. `rand_r` gives its result and
-- the new seed.
pub record Double : Type 1 where
  pub D : Type 0
  pub F : Type 0
  infixl 65 ◌⊕◌ ◌⊖◌
  infixl 70 ◌⊗◌ ◌⊘◌
  pub ◌⊕◌ : D → D → D
  pub ◌⊖◌ : D → D → D
  pub ◌⊗◌ : D → D → D
  pub ◌⊘◌ : D → D → D
  pub num : ℕ → ℕ → D
  pub of_ℕ : ℕ → D
  pub pi : D
  pub sin : D → D
  pub cos : D → D
  pub fabs : D → D
  pub floor : D → D
  pub fmod : D → D → D
  pub less : D → D → Bool
  pub lround : D → ℤ
  pub to_u32 : D → ℕ
  pub to_float : D → F
  pub rand_max : ℕ
  pub rand_r : ℕ → ℕ × ℕ

-- A call of `mosquitto_publish`; where it fails the sensors log it and go on.
pub record Message : Type 0 where
  pub topic : List ℕ
  pub payload : List ℕ

-- What a motor's loop keeps from round to round.
pub record MotorLoop (D : Type 0) : Type 0 where
  pub seed : ℕ
  pub t : D
  pub tick_frac : D
  pub tick_count : ℕ
  pub temp_c_state : D

-- What a round leaves: the loop's variables, the cache, and the messages in their order.
pub record Round (S C : Type 0) : Type 0 where
  pub vars : S
  pub cache : C
  pub messages : List Message

-- `if(a->cache)`.
abbrev pub if_cache : {C : Type 0} → (C → C) → Option C → Option C
if_cache f none = none
if_cache f (some c) = some (f c)
