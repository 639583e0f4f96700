-- ===== src/Db/Buffer/Growth.antt =====
-- The text buffer of src/infra/persistence/db_sqlite.c keeps room for its closing NUL.
use telemetry_testbed.Base.{
  ℕ, zero, suc, ◌+◌, ◌*◌, ◌%◌, ◌^◌, ◌≤◌, ◌<◌, ◌==◌, ◌≡◌, ltb, if◌then◌else◌, List, ◌++◌, some, Bool,
  inl, inr, arith, length, length-append, Bool-cases, Option-cases, ap,
}
use native.Mathlib.Nat.{pow-suc}
use telemetry_testbed.Db.Buffer.{StrBuf, grow, sb_reserve, sb_append}

-- Doubling reaches any need up to 2 ^ 63 within the fuel, and does not wrap around.
grow-reaches :
    (fuel need ncap : ℕ)
    → need ≤ 2 ^ 63
    → 1 ≤ ncap
    → need ≤ ncap * 2 ^ fuel
    → need ≤ grow fuel need ncap
unfolding grow
grow-reaches zero need ncap h p q = omega arith
grow-reaches (suc fuel) need ncap h p q = elim (Bool-cases (ltb ncap need)) [
  | inl less ↦
      let even : ncap * 2 % 2 ^ 64 ≡ ncap * 2 = ground arith in
      let double : ncap * 2 ^ suc fuel ≡ ncap * 2 * 2 ^ fuel =
        omega (arith, ap (λ (t : ℕ). ncap * t) (pow-suc 2 fuel)) in
      let more = grow-reaches fuel need (ncap * 2) h (omega arith) (omega arith) in
      rw (less, even) more
  | inr done ↦ ground arith
]

module _ (alloc : ℕ → Bool) where
  sb_reserve-room :
      (sb : StrBuf) (extra : ℕ) (r : StrBuf)
      → length sb.text + extra + 1 ≤ 2 ^ 63
      → sb_reserve alloc sb extra ≡ some r
      → (r.text ≡ sb.text) × (length sb.text + extra + 1 ≤ r.cap)
  unfolding sb_reserve
  sb_reserve-room sb extra r h e =
      let need = length sb.text + extra + 1 in
      let from = if sb.cap == 0 then 1024 else sb.cap in
      let start : 1 ≤ from = ground arith in
      ground (arith, grow-reaches 64 need from h start (grind arith))

  -- While the whole text stays below 2 ^ 63 bytes, an append that succeeds adds its text, and the
  -- buffer has room for the text and the NUL: `memcpy` and the NUL stay inside it.
  pub sb_append-Fits :
      (sb : StrBuf) (s : List ℕ) (r : StrBuf)
      → length sb.text + length s + 1 ≤ 2 ^ 63
      → sb_append alloc sb s ≡ some r
      → (r.text ≡ sb.text ++ s) × (length r.text < r.cap)
  unfolding sb_append
  sb_append-Fits sb s r h e = elim (Option-cases (sb_reserve alloc sb (length s))) [
    | inl stop ↦ absurd (ground (arith, stop))
    | inr (q, got) ↦
        ground (arith, got, sb_reserve-room sb (length s) q h got, length-append sb.text s)
  ]
