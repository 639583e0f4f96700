-- ===== src/Pack.antt =====
-- include/util/pack_le.h: clamping to int16_t and little-endian packing of the raw sensor payloads.
-- A signed value is an integer; a buffer is the list of the bytes that are stored into it.
pub mod RoundTrip
use telemetry_testbed.Base.{ℕ, ◌/◌, ◌%◌, ◌^◌, List, [], ◌∷◌, if◌then◌else◌}
use telemetry_testbed.Base.Int.{ℤ, pos, negsuc, ltb_ℤ}
use telemetry_testbed.Base.Words.{to_u16, to_u32}

unfoldable pub clamp_i16 : ℤ → ℤ
clamp_i16 v =
    if ltb_ℤ (pos 32767) v then pos 32767 else if ltb_ℤ v (negsuc 32767) then negsuc 32767 else v

-- The helper of the motor sensors, `clamp_i32_ll`.
unfoldable pub clamp_i32_ll : ℤ → ℤ
clamp_i32_ll v =
    if ltb_ℤ (pos 2147483647) v
    then pos 2147483647
    else if ltb_ℤ v (negsuc 2147483647)
    then negsuc 2147483647
    else v

unfoldable pub pack_u16_le : ℕ → List ℕ
pack_u16_le v = v % 2 ^ 8 ∷ v / 2 ^ 8 % 2 ^ 8 ∷ []

unfoldable pub pack_i16_le : ℤ → List ℕ
unfolding to_u16
pack_i16_le v = let u = to_u16 v in u % 2 ^ 8 ∷ u / 2 ^ 8 % 2 ^ 8 ∷ []

unfoldable pub pack_u32_le : ℕ → List ℕ
pack_u32_le v = v % 2 ^ 8 ∷ v / 2 ^ 8 % 2 ^ 8 ∷ v / 2 ^ 16 % 2 ^ 8 ∷ v / 2 ^ 24 % 2 ^ 8 ∷ []

unfoldable pub pack_i32_le : ℤ → List ℕ
unfolding to_u32 pack_u32_le
pack_i32_le v = pack_u32_le (to_u32 v)
