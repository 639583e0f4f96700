-- ===== src/Base/Words.antt =====
-- C integer conversions. An unsigned word is a number, a signed one an integer.
use Prim.Native.Nat.{ℕ, ◌-◌, ◌*◌, ◌%◌, ◌^◌}
use mathlib.Core.Path.{◌≡◌}
use native.Mathlib.Omega.{arith}
use telemetry_testbed.Base.Tests.{ltb, if◌then◌else◌}
use telemetry_testbed.Base.Int.{ℤ, pos, negsuc, ◌≤ℤ◌}

-- `(uint16_t)v` and `(uint32_t)v`: the value modulo 2 ^ 16 or 2 ^ 32.
unfoldable pub to_u16 : ℤ → ℕ
to_u16 (pos n) = n % 2 ^ 16
to_u16 (negsuc n) = 2 ^ 16 - 1 - n % 2 ^ 16

unfoldable pub to_u32 : ℤ → ℕ
to_u32 (pos n) = n % 2 ^ 32
to_u32 (negsuc n) = 2 ^ 32 - 1 - n % 2 ^ 32

-- Two's complement: the signed value of a word of `2 * half` values.
unfoldable pub signed : ℕ → ℕ → ℤ
signed half u = if ltb u half then pos u else negsuc (2 * half - 1 - u)

-- `(int)u` of a uint32_t and `(int64_t)u` of a uint64_t.
unfoldable pub int_of : ℕ → ℤ
unfolding signed
int_of u = signed (2 ^ 31) (u % 2 ^ 32)

unfoldable pub int64_of : ℕ → ℤ
unfolding signed
int64_of u = signed (2 ^ 63) (u % 2 ^ 64)

-- `(int)v` of a wider signed value.
unfoldable pub int_cut : ℤ → ℤ
unfolding signed to_u32
int_cut v = signed (2 ^ 31) (to_u32 v)

abbrev pub IsI16 : ℤ → Type 0
IsI16 v = (negsuc 32767 ≤ℤ v) × (v ≤ℤ pos 32767)

abbrev pub IsI32 : ℤ → Type 0
IsI32 v = (negsuc 2147483647 ≤ℤ v) × (v ≤ℤ pos 2147483647)

pub int_cut_lem : (v : ℤ) → IsI32 v → int_cut v ≡ v
unfolding int_cut
int_cut_lem (pos n) h = ground arith
int_cut_lem (negsuc n) h = ground arith

pub int_of-IsI32 : (u : ℕ) → IsI32 (int_of u)
unfolding int_of
int_of-IsI32 u = ground arith
