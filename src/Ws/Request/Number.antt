-- ===== src/Ws/Request/Number.antt =====
-- The number of a history request of src/infra/websocket/ws_server.c.
use telemetry_testbed.Base.{
  ℕ, zero, suc, ◌+◌, ◌-◌, ◌*◌, ◌/◌, ◌%◌, ◌^◌, ◌≤◌, ◌<◌, ◌==◌, ◌≡◌, refl, ap, sym, ◌∙◌, ltb, List,
  [], ◌∷◌, ◌++◌, append_assoc, none, some, true, false, inl, inr, arith, codes, Bool-cases,
  is_digit, digits_fuel, print_unsigned, strstr, strchr,
}
use native.Mathlib.Nat.{pow-suc}
use telemetry_testbed.Base.Int.{ℤ, pos, negsuc, ◌≤ℤ◌}
use telemetry_testbed.Ws.Request.{
  skip_spaces, digits_loop, negate, starts_with_digit, behind_colon, signed_int, json_find_int,
  is_history_request,
}

digits_loop-le : (s : List ℕ) (v : ℕ) → v ≤ 1000000 → digits_loop s v ≤ 10000009
unfolding digits_loop
digits_loop-le [] v h = omega arith
digits_loop-le (c ∷ s) v h = ground (arith, digits_loop-le s (v * 10 + (c - 48)))

-- One digit, while the number stays small.
digits_loop-digit :
    (d : ℕ) (s : List ℕ) (v : ℕ)
    → d < 10
    → v * 10 + d ≤ 1000000
    → digits_loop ((48 + d) ∷ s) v ≡ digits_loop s (v * 10 + d)
unfolding digits_loop
digits_loop-digit d s v h k =
    let back : v * 10 + (48 + d - 48) ≡ v * 10 + d = omega arith in rw back (ground arith)

pub digits_fuel-one : (fuel n : ℕ) → ltb n 10 ≡ true → digits_fuel (suc fuel) n ≡ (48 + n) ∷ []
unfolding digits_fuel
digits_fuel-one fuel n e = rw e

pub digits_fuel-more :
    (fuel n : ℕ)
    → ltb n 10 ≡ false
    → digits_fuel (suc fuel) n ≡ digits_fuel fuel (n / 10) ++ ((48 + n % 10) ∷ [])
unfolding digits_fuel
digits_fuel-more fuel n e = rw e

-- The loop reads back a printed number of at most 1000000, and goes on behind it.
digits_loop-print :
    (fuel n : ℕ) (rest : List ℕ)
    → n < 10 ^ fuel
    → n ≤ 1000000
    → digits_loop (digits_fuel fuel n ++ rest) 0 ≡ digits_loop rest n
digits_loop-print zero n rest h k =
    let none_left : 0 ≡ n = omega arith in unfold digits_fuel in ap (digits_loop rest) none_left
digits_loop-print (suc fuel) n rest h k = elim (Bool-cases (ltb n 10)) [
  | inl one ↦
      ap (λ t. digits_loop (t ++ rest) 0) (digits_fuel-one fuel n one)
      ∙ digits_loop-digit n rest 0 (ground arith) (omega arith)
      ∙ ap (digits_loop rest) (omega arith)
  | inr more ↦
      let shorter : n / 10 < 10 ^ fuel = omega (arith, pow-suc 10 fuel) in
      let whole : n / 10 * 10 + n % 10 ≡ n = omega arith in
      ap (λ t. digits_loop (t ++ rest) 0) (digits_fuel-more fuel n more)
      ∙ ap (λ t. digits_loop t 0)
          (append_assoc (digits_fuel fuel (n / 10)) ((48 + n % 10) ∷ []) rest)
      ∙ digits_loop-print fuel (n / 10) ((48 + n % 10) ∷ rest) shorter (omega arith)
      ∙ digits_loop-digit (n % 10) rest (n / 10) (omega arith) (omega arith)
      ∙ ap (digits_loop rest) whole
]

-- A printed number begins with a digit.
pub first_digit :
    (fuel n : ℕ) → (d : ℕ) × (s : List ℕ) × (d < 10) × (digits_fuel (suc fuel) n ≡ (48 + d) ∷ s)
first_digit zero n = elim (Bool-cases (ltb n 10)) [
  | inl one ↦ (n, [], ground arith, digits_fuel-one 0 n one)
  | inr more ↦
      let empty_front : digits_fuel 0 (n / 10) ≡ [] = unfold digits_fuel in refl in
      (
        n % 10,
        [],
        omega arith,
        digits_fuel-more 0 n more ∙ ap (λ t. t ++ ((48 + n % 10) ∷ [])) empty_front,
      )
]
first_digit (suc fuel) n = elim (Bool-cases (ltb n 10)) [
  | inl one ↦ (n, [], ground arith, digits_fuel-one (suc fuel) n one)
  | inr more ↦
      let (d, s, small, e) = first_digit fuel (n / 10) in
      (
        d,
        s ++ ((48 + n % 10) ∷ []),
        small,
        digits_fuel-more (suc fuel) n more ∙ ap (λ t. t ++ ((48 + n % 10) ∷ [])) e,
      )
]

-- The request that the browser sends for the last `n` samples.
abbrev pub history_request : ℕ → List ℕ
history_request n = codes "{\"type\":\"history\",\"last\":" ++ (print_unsigned n ++ codes "}")

-- Spaces, a sign and the first digit, for a text that begins with a digit.
signed_int-digit :
    (d : ℕ) (s : List ℕ) (defv : ℤ)
    → d < 10
    → signed_int (skip_spaces ((48 + d) ∷ s)) defv ≡ pos (digits_loop ((48 + d) ∷ s) 0)
unfolding signed_int skip_spaces is_digit
signed_int-digit d s defv h = ground arith

find_last :
    (t : List ℕ) (defv : ℤ)
    → json_find_int (codes "{\"type\":\"history\",\"last\":" ++ t) (codes "\"last\"") defv
      ≡ signed_int (skip_spaces t) defv
unfolding json_find_int
find_last t defv = refl

is_history : (t : List ℕ) → is_history_request (codes "{\"type\":\"history\",\"last\":" ++ t) ≡ true
unfolding is_history_request
is_history t = refl

closing : (n : ℕ) → pos (digits_loop (codes "}") n) ≡ pos n
unfolding digits_loop
closing n = refl

-- The request for the last `n` samples, with `n` at most 1000000, is taken for a history request,
-- and `n` is read back from it, whatever the default.
pub history_request-number :
    (n : ℕ) (defv : ℤ)
    → n ≤ 1000000
    → (is_history_request (history_request n) ≡ true)
      × (json_find_int (history_request n) (codes "\"last\"") defv ≡ pos n)
history_request-number n defv h =
    let (d, s, small, e) = first_digit 19 n in
    let printed : print_unsigned n ≡ digits_fuel 20 n = unfold print_unsigned in refl in
    let t : List ℕ = digits_fuel 20 n ++ codes "}" in
    let begins : t ≡ (48 + d) ∷ (s ++ codes "}") = ap (λ x. x ++ codes "}") e in
    let read =
      ap (λ x. signed_int (skip_spaces x) defv) begins
      ∙ signed_int-digit d (s ++ codes "}") defv small
      ∙ ap (λ x. pos (digits_loop x 0)) (sym begins)
      ∙ ap pos (digits_loop-print 20 n (codes "}") (omega arith) h) in
    (
      is_history (print_unsigned n ++ codes "}"),
      find_last (print_unsigned n ++ codes "}") defv
          ∙ ap (λ x. signed_int (skip_spaces (x ++ codes "}")) defv) printed
          ∙ read
          ∙ closing n,
    )

-- Near zero.
abbrev IsNear : ℤ → Type 0
IsNear z = (negsuc 10000008 ≤ℤ z) × (z ≤ℤ pos 10000009)

pos-IsNear : (n : ℕ) → n ≤ 10000009 → IsNear (pos n)
pos-IsNear n h = omega arith

negate-IsNear : (n : ℕ) → n ≤ 10000009 → IsNear (negate n)
negate-IsNear zero h = omega arith
negate-IsNear (suc n) h = omega arith

signed_int-IsNear : (s : List ℕ) (defv : ℤ) → IsNear defv → IsNear (signed_int s defv)
unfolding signed_int
signed_int-IsNear [] defv h = h
signed_int-IsNear (c ∷ s) defv h = elim (Bool-cases (c == b'-')) [
  | inl minus ↦ elim (Bool-cases (starts_with_digit s)) [
    | inl digit ↦
        rw (minus, digit) (negate-IsNear (digits_loop s 0) (digits_loop-le s 0 (omega arith)))
    | inr other ↦ rw (minus, other) h
  ]
  | inr plus ↦ elim (Bool-cases (is_digit c)) [
    | inl digit ↦
        rw (plus, digit)
          (pos-IsNear (digits_loop (c ∷ s) 0) (digits_loop-le (c ∷ s) 0 (omega arith)))
    | inr other ↦ rw (plus, other) h
  ]
]

behind_colon-IsNear : (s : List ℕ) (defv : ℤ) → IsNear defv → IsNear (behind_colon s defv)
behind_colon-IsNear [] defv h = h
behind_colon-IsNear (c ∷ s) defv h = signed_int-IsNear (skip_spaces s) defv h

-- Whatever the text and the key, the number that is read lies within 10000009 of 0 if the default
-- does, so that its conversion to `int` keeps it.
pub json_find_int_bounds :
    (json key : List ℕ) (defv : ℤ)
    → negsuc 10000008 ≤ℤ defv
    → defv ≤ℤ pos 10000009
    → (negsuc 10000008 ≤ℤ json_find_int json key defv)
      × (json_find_int json key defv ≤ℤ pos 10000009)
unfolding json_find_int
json_find_int_bounds json key defv lo hi =
    elim (strstr json key)
      as (λ o. IsNear (elim o [
        | none ↦ defv
        | some p ↦ elim (strchr p b':') [ none ↦ defv | some q ↦ behind_colon q defv ]
      ])) [
        | none ↦ (lo, hi)
        | some p ↦
            elim (strchr p b':')
              as (λ o. IsNear (elim o [ none ↦ defv | some q ↦ behind_colon q defv ])) [
                | none ↦ (lo, hi)
                | some q ↦ behind_colon-IsNear q defv (lo, hi)
              ]
      ]
