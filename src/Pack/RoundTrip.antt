-- ===== src/Pack/RoundTrip.antt =====
-- A reader of the documented little-endian payloads gets back what include/util/pack_le.h packed.
use telemetry_testbed.Base.{ℕ, ◌+◌, ◌-◌, ◌*◌, ◌^◌, ◌≤◌, ◌<◌, ◌≡◌, List, [], ◌∷◌, arith}
use telemetry_testbed.Base.Int.{ℤ, pos, negsuc, pos_part, neg_part}
use telemetry_testbed.Pack.{
  clamp_i16, clamp_i32_ll, pack_u16_le, pack_i16_le, pack_u32_le, pack_i32_le,
}
use telemetry_testbed.Base.Words.{IsI16, IsI32, signed}

-- A little-endian number, lowest byte first.
unfoldable pub read_le : List ℕ → ℕ
read_le [] = 0
read_le (b ∷ bs) = b + 256 * read_le bs

-- A reader that knows the format gets back every int16_t and int32_t, and every uint16_t and
-- uint32_t, from its packed bytes.
pub read-pack :
    (v w : ℤ) (m n : ℕ)
    → IsI16 v
    → IsI32 w
    → m < 2 ^ 16
    → n < 2 ^ 32
    → (signed (2 ^ 15) (read_le (pack_i16_le v)) ≡ v)
      × (signed (2 ^ 31) (read_le (pack_i32_le w)) ≡ w)
      × (read_le (pack_u16_le m) ≡ m)
      × (read_le (pack_u32_le n) ≡ n)
unfolding read_le signed pack_i16_le pack_i32_le pack_u16_le pack_u32_le
read-pack (pos v) (pos w) m n h k hm hn = (ground arith, ground arith, omega arith, omega arith)
read-pack (pos v) (negsuc w) m n h k hm hn = (ground arith, ground arith, omega arith, omega arith)
read-pack (negsuc v) (pos w) m n h k hm hn = (ground arith, ground arith, omega arith, omega arith)
read-pack (negsuc v) (negsuc w) m n h k hm hn =
    (ground arith, ground arith, omega arith, omega arith)

-- The distance of two integers.
abbrev pub dist : ℤ → ℤ → ℕ
dist v w = let a = pos_part v + neg_part w in let b = pos_part w + neg_part v in (a - b) + (b - a)

-- `clamp_i16` gives an int16_t, and no int16_t is nearer to its argument.
pub clamp_i16-nearest :
    (v w : ℤ) → IsI16 w → IsI16 (clamp_i16 v) × (dist (clamp_i16 v) v ≤ dist w v)
unfolding clamp_i16
clamp_i16-nearest v w h = ground arith

-- `clamp_i32_ll` gives an int32_t, and no int32_t is nearer to its argument.
pub clamp_i32_ll-nearest :
    (v w : ℤ) → IsI32 w → IsI32 (clamp_i32_ll v) × (dist (clamp_i32_ll v) v ≤ dist w v)
unfolding clamp_i32_ll
clamp_i32_ll-nearest v w h = ground arith

-- `clamp_i16` gives an int16_t and `clamp_i32_ll` an int32_t, and no other value of the type is nearer to
-- the argument.
pub clamp_nearest :
    (v w z : ℤ)
    → IsI16 w
    → IsI32 z
    → (IsI16 (clamp_i16 v) × (dist (clamp_i16 v) v ≤ dist w v))
      × (IsI32 (clamp_i32_ll v) × (dist (clamp_i32_ll v) v ≤ dist z v))
clamp_nearest v w z hw hz = (clamp_i16-nearest v w hw, clamp_i32_ll-nearest v z hz)
