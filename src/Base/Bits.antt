-- ===== src/Base/Bits.antt =====
-- `|` of a shifted value and a small one is their sum, and `^` by the same byte twice is the
-- identity. Shifts are `* 2 ^ k` and `/ 2 ^ k`, and a mask of k ones is `% 2 ^ k`.
use Prim.Native.Nat.{
  ℕ, zero, suc, ◌+◌, ◌*◌, ◌/◌, ◌%◌, ◌^◌, ◌≤◌, ◌<◌, max, digits, bit_or, bit_xor, bit_or-bitwise,
}
use mathlib.Core.Bool.{true}
use mathlib.Core.Path.{◌≡◌, refl, ap}
use native.Mathlib.Nat.{pow-suc}
use native.Mathlib.Omega.{arith}
use telemetry_testbed.Base.Tests.{◌==◌, ==_iff, every_below, every_below_holds}

-- The recursion that `bit_or` stands for, at any fuel.
abbrev or_at : ℕ → ℕ → ℕ → ℕ
or_at fuel a b = digits (λ y. y) max fuel a b

or_at-fuel : (m n a b : ℕ) → a ≤ m → a ≤ n → or_at m a b ≡ or_at n a b
or_at-fuel m n zero b p q = ends m n
  where
    ends : (m n : ℕ) → or_at m 0 b ≡ or_at n 0 b
    ends zero zero = refl
    ends zero (suc n) = refl
    ends (suc m) zero = refl
    ends (suc m) (suc n) = refl
or_at-fuel zero n (suc a) b p q = absurd (omega arith)
or_at-fuel (suc m) zero (suc a) b p q = absurd (omega arith)
or_at-fuel (suc m) (suc n) (suc a) b p q =
    let half = or_at-fuel m n (suc a / 2) (b / 2) (omega arith) (omega arith) in omega (arith, half)

zero-bit_or : (b : ℕ) → bit_or 0 b ≡ b
zero-bit_or b = bit_or-bitwise 0 b

bit_or-halves : (a b : ℕ) → bit_or a b ≡ bit_or (a / 2) (b / 2) * 2 + max (a % 2) (b % 2)
bit_or-halves zero b = omega (arith, zero-bit_or b, zero-bit_or (b / 2))
bit_or-halves (suc a) b =
    let less = or_at-fuel a (suc a / 2) (suc a / 2) (b / 2) (omega arith) (omega arith) in
    omega (arith, bit_or-bitwise (suc a) b, bit_or-bitwise (suc a / 2) (b / 2), less)

bit_or-zero_upto : (bound a : ℕ) → a ≤ bound → bit_or a 0 ≡ a
bit_or-zero_upto bound zero h = refl
bit_or-zero_upto zero (suc a) h = absurd (omega arith)
bit_or-zero_upto (suc bound) (suc a) h =
    omega (arith, bit_or-halves (suc a) 0, bit_or-zero_upto bound (suc a / 2) (omega arith))

-- `(q << k) | r` for an `r` of at most k bits.
pub bit_or-shift : (k q r : ℕ) → r < 2 ^ k → bit_or (q * 2 ^ k) r ≡ q * 2 ^ k + r
bit_or-shift zero q r h =
    let none_left : r ≡ 0 = omega arith in
    omega (
      arith,
      ap (bit_or (q * 2 ^ 0)) none_left,
      bit_or-zero_upto (q * 2 ^ 0) (q * 2 ^ 0) (omega arith),
    )
bit_or-shift (suc k) q r h =
    let double : q * 2 ^ suc k ≡ 2 * (q * 2 ^ k) =
      omega (arith, ap (λ (t : ℕ). q * t) (pow-suc 2 k)) in
    let even : q * 2 ^ suc k / 2 ≡ q * 2 ^ k = omega arith in
    let inner = bit_or-shift k q (r / 2) (omega (arith, pow-suc 2 k)) in
    omega (arith, bit_or-halves (q * 2 ^ suc k) r, ap (λ (t : ℕ). bit_or t (r / 2)) even, inner)

xor_table : every_below 256 (λ x. every_below 256 (λ k. bit_xor (bit_xor x k) k == x)) ≡ true
unfolding every_below
xor_table = refl

pub bit_xor-twice : (x k : ℕ) → x < 256 → k < 256 → bit_xor (bit_xor x k) k ≡ x
bit_xor-twice x k hx hk =
    (==_iff _ x).0 (every_below_holds _ k 256 hk (every_below_holds _ x 256 hx xor_table))
