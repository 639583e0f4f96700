-- ===== src/Gateway/Message/Names.antt =====
-- What the sample that `on_message` of src/app/telemetry_gateway.c builds holds.
use telemetry_testbed.Base.{
  ℕ, zero, suc, ◌≤◌, ◌<◌, List, [], ◌∷◌, Option, none, some, Bool, true, false, arith, length,
  length-take,
}
use telemetry_testbed.Base.Int.{ℤ}
use telemetry_testbed.Types.{TelemetryState, Header, MotorState, StateMessage, Float}
use telemetry_testbed.Gateway.Message.{
  safe_copy, default_state, with_header, with_sensors, with_motor, with_raw, decode_sample,
}

-- A text with at least one byte that leaves room for the NUL in `cap` bytes.
abbrev pub IsName : ℕ → List ℕ → Type 0
IsName cap t = (1 ≤ length t) × (length t < cap)

safe_copy-IsName :
    (dst : List ℕ) (room c : ℕ) (text : List ℕ) (src : Option (List ℕ))
    → 1 ≤ room
    → IsName (suc room) (safe_copy dst (suc room) src (some (c ∷ text)))
unfolding safe_copy
safe_copy-IsName dst room c text none h = omega (arith, length-take room (c ∷ text))
safe_copy-IsName dst room c text (some []) h = omega (arith, length-take room (c ∷ text))
safe_copy-IsName dst room c text (some (b ∷ bs)) h = omega (arith, length-take room (b ∷ bs))

-- Every name fits its array together with the NUL: 64 bytes for the robot, 32 for the others.
abbrev pub HasNames : {F : Type 0} → TelemetryState F → Type 0
HasNames s =
    IsName 64 s.robot_id
    × IsName 32 s.imu_id
    × IsName 32 s.tilt_id
    × IsName 32 s.motor_id.at0
    × IsName 32 s.motor_id.at1

module _ (f : Float) where
  open f use {F}

  default_state-HasNames : (now : ℤ) → HasNames (default_state f now)
  unfolding default_state
  default_state-HasNames now = (
    safe_copy-IsName [] 63 _ _ none (omega arith),
    safe_copy-IsName [] 31 _ _ none (omega arith),
    safe_copy-IsName [] 31 _ _ none (omega arith),
    safe_copy-IsName [] 31 _ _ none (omega arith),
    safe_copy-IsName [] 31 _ _ none (omega arith),
  )

  with_header-HasNames :
      (h : Option Header) (s : TelemetryState F) → HasNames s → HasNames (with_header f h s)
  unfolding with_header
  with_header-HasNames none s n = n
  with_header-HasNames (some h) s n =
      (safe_copy-IsName s.robot_id 63 _ _ h.robot_id (omega arith), n.1, n.2, n.3, n.4)

  with_sensors-HasNames :
      (st : StateMessage F) (s : TelemetryState F) → HasNames s → HasNames (with_sensors f st s)
  unfolding with_sensors
  with_sensors-HasNames st s n = (
    n.0,
    safe_copy-IsName s.imu_id 31 _ _ st.imu_id (omega arith),
    safe_copy-IsName s.tilt_id 31 _ _ st.tilt_id (omega arith),
    n.3,
    n.4,
  )

  with_motor-HasNames :
      (i c : ℕ) (text : List ℕ) (m : Option MotorState) (s : TelemetryState F)
      → HasNames s
      → HasNames (with_motor f i (c ∷ text) m s)
  unfolding with_motor
  with_motor-HasNames i c text none s n = n
  with_motor-HasNames zero c text (some m) s n =
      (n.0, n.1, n.2, safe_copy-IsName [] 31 c text m.motor_id (omega arith), n.4)
  with_motor-HasNames (suc i) c text (some m) s n =
      (n.0, n.1, n.2, n.3, safe_copy-IsName [] 31 c text m.motor_id (omega arith))

  with_raw-HasNames :
      (alloc : Bool) (payload : List ℕ) (s : TelemetryState F)
      → HasNames s
      → HasNames (with_raw f alloc payload s)
  unfolding with_raw
  with_raw-HasNames alloc [] s n = n
  with_raw-HasNames true (b ∷ bs) s n = n
  with_raw-HasNames false (b ∷ bs) s n = n

  -- Whatever message arrives, every name of the sample has at least one byte and fits its array
  -- together with the NUL: 64 bytes for the robot, 32 for the others.
  pub decode_sample-HasNames :
      (now : ℤ) (alloc : Bool) (payload : List ℕ) (st : StateMessage F)
      → HasNames (decode_sample f now alloc payload st)
  unfolding decode_sample
  decode_sample-HasNames now alloc payload st = with_raw-HasNames alloc payload _ (
      with_motor-HasNames 1 _ _ st.motor2 _ (
        with_motor-HasNames 0 _ _ st.motor1 _ (
          with_sensors-HasNames st _
            (with_header-HasNames st.header _ (default_state-HasNames now)))))
