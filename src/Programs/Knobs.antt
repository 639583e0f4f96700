-- ===== src/Programs/Knobs.antt =====
-- How the knobs of src/apps/telemetry_gateway_main.c reach src/app/telemetry_gateway.c: printed into the
-- environment, and read back from it.
use telemetry_testbed.Base.{
  ℕ, zero, suc, ◌+◌, ◌-◌, ◌*◌, ◌/◌, ◌%◌, ◌^◌, ◌<◌, ◌==◌, ◌≡◌, refl, ap, sym, ◌∙◌, ltb,
  if◌then◌else◌, List, [], ◌∷◌, ◌++◌, append_assoc, append-nil, some, true, false, inl, inr, arith,
  codes, Bool, Bool-cases, min, ◌≤◌, is_digit, digits_fuel, print_unsigned, print_signed, is_space,
  text_eq,
}
use native.Mathlib.Nat.{pow-suc}
use Prim.Native.Nat.{max}
use telemetry_testbed.Base.Int.{ℤ, pos, negsuc}
use telemetry_testbed.Base.Words.{IsI32, int_cut, int_cut_lem}
use telemetry_testbed.Ws.Request.{skip_spaces}
use telemetry_testbed.Ws.Request.Number.{digits_fuel-one, digits_fuel-more, first_digit}
use telemetry_testbed.Programs.{
  digits_value, clamp_ℤ, signed_value, strtol, atoi, Options, defaults, run, parse_args,
  positive_or, set_environment, env_int, read_settings,
}

digits_value-digit :
    (d : ℕ) (s : List ℕ) (v : ℕ)
    → d < 10
    → digits_value ((48 + d) ∷ s) v ≡ digits_value s (v * 10 + d)
unfolding digits_value
digits_value-digit d s v h =
    let back : v * 10 + (48 + d - 48) ≡ v * 10 + d = omega arith in rw back (ground arith)

pub digits_value-print :
    (fuel n : ℕ) (rest : List ℕ)
    → n < 10 ^ fuel
    → digits_value (digits_fuel fuel n ++ rest) 0 ≡ digits_value rest n
digits_value-print zero n rest h =
    let none_left : 0 ≡ n = omega arith in unfold digits_fuel in ap (digits_value rest) none_left
digits_value-print (suc fuel) n rest h = elim (Bool-cases (ltb n 10)) [
  | inl one ↦
      ap (λ t. digits_value (t ++ rest) 0) (digits_fuel-one fuel n one)
      ∙ digits_value-digit n rest 0 (ground arith)
      ∙ ap (digits_value rest) (omega arith)
  | inr more ↦
      let shorter : n / 10 < 10 ^ fuel = omega (arith, pow-suc 10 fuel) in
      ap (λ t. digits_value (t ++ rest) 0) (digits_fuel-more fuel n more)
      ∙ ap (λ t. digits_value t 0)
          (append_assoc (digits_fuel fuel (n / 10)) ((48 + n % 10) ∷ []) rest)
      ∙ digits_value-print fuel (n / 10) ((48 + n % 10) ∷ rest) shorter
      ∙ digits_value-digit (n % 10) rest (n / 10) (omega arith)
      ∙ ap (digits_value rest) (omega arith)
]

-- A text that begins with a digit has no space and no sign to pass.
signed_value-digit :
    (d : ℕ) (s : List ℕ)
    → d < 10
    → signed_value (skip_spaces ((48 + d) ∷ s)) ≡ pos (digits_value ((48 + d) ∷ s) 0)
unfolding skip_spaces is_space
signed_value-digit d s h = ground arith

print_signed-pos : (n : ℕ) → print_signed (pos n) ≡ digits_fuel 20 n
unfolding print_signed print_unsigned
print_signed-pos n = refl

strtol-print : (n : ℕ) → n < 2 ^ 31 → strtol (print_signed (pos n)) ≡ pos n
unfolding strtol
strtol-print n h =
    let (d, s, small, e) = first_digit 19 n in
    let value =
      ap (λ t. digits_value t 0) (sym e ∙ sym (append-nil (digits_fuel 20 n)))
      ∙ digits_value-print 20 n [] (omega arith) in
    let whole : signed_value (skip_spaces (print_signed (pos n))) ≡ pos n =
      ap (λ t. signed_value (skip_spaces t)) (print_signed-pos n ∙ e)
      ∙ signed_value-digit d s small
      ∙ ap pos (value ∙ unfold digits_value in refl) in
    rw whole (ground arith)

-- A printed number is not empty, so it is read, and cut to the range.
env_int-print :
    (n : ℕ) (def minv maxv : ℤ)
    → n < 2 ^ 31
    → env_int (some (print_signed (pos n))) def minv maxv ≡ clamp_ℤ minv maxv (pos n)
unfolding env_int
env_int-print n def minv maxv h =
    let (d, s, small, e) = first_digit 19 n in
    let text = print_signed-pos n ∙ e in
    let read : strtol ((48 + d) ∷ s) ≡ pos n = ap strtol (sym text) ∙ strtol-print n h in
    ap (λ t. env_int (some t) def minv maxv) text ∙ ap (clamp_ℤ minv maxv) read

atoi-print : (n : ℕ) → n < 2 ^ 31 → atoi (print_signed (pos n)) ≡ pos n
unfolding atoi
atoi-print n h = ap int_cut (strtol-print n h) ∙ int_cut_lem (pos n) (omega arith)

-- The value that `main` prints is a positive int.
positive_or-pos :
    (v : ℤ) (k : ℕ)
    → IsI32 v
    → 0 < k
    → k < 2 ^ 31
    → (n : ℕ) × (positive_or v (pos k) ≡ pos n) × (n < 2 ^ 31)
positive_or-pos (pos zero) k h pos_k small = (k, refl, small)
positive_or-pos (pos (suc n)) k h pos_k small = (suc n, ground arith, omega arith)
positive_or-pos (negsuc n) k h pos_k small = (k, ground arith, small)

env_int-printed :
    (v : ℤ) (k : ℕ) (def minv maxv : ℤ)
    → IsI32 v
    → 0 < k
    → k < 2 ^ 31
    → env_int (some (print_signed (positive_or v (pos k)))) def minv maxv
      ≡ clamp_ℤ minv maxv (positive_or v (pos k))
env_int-printed v k def minv maxv h pos_k small =
    let (n, e, n_small) = positive_or-pos v k h pos_k small in
    ap (λ x. env_int (some (print_signed x)) def minv maxv) e
    ∙ env_int-print n def minv maxv n_small
    ∙ ap (clamp_ℤ minv maxv) (sym e)

flag_read :
    (b : Bool)
    → env_int (some (if b then codes "1" else codes "0")) (pos 0) (pos 0) (pos 1)
      ≡ (if b then pos 1 else pos 0)
unfolding env_int strtol skip_spaces digits_value is_digit is_space
flag_read true = refl
flag_read false = refl

-- What the gateway reads from the environment are the variables of `main`: the batch size, or 50 where
-- it is not positive, cut to 1..4096; the interval, or 1000 where it is not positive, cut to
-- 50..60000; and 1 or 0 for the statistics.
pub read_settings-set_environment :
    (o : Options)
    → IsI32 o.batch
    → IsI32 o.stats_ms
    → read_settings (set_environment o) ≡ record {
      batch_size = clamp_ℤ (pos 1) (pos 4096) (positive_or o.batch (pos 50));
      stats_enabled = if o.stats then pos 1 else pos 0;
      stats_interval_ms = clamp_ℤ (pos 50) (pos 60000) (positive_or o.stats_ms (pos 1000));
    }
unfolding read_settings set_environment
read_settings-set_environment o hb hs = cc (
  env_int-printed o.batch 50 (pos 50) (pos 1) (pos 4096) hb (omega arith) (omega arith),
  env_int-printed o.stats_ms 1000 (pos 1000) (pos 50) (pos 60000) hs (omega arith) (omega arith),
  flag_read o.stats,
)

-- A bound below, then a bound above.
clamp_ℤ-pos : (lo hi v : ℕ) → lo ≤ hi → clamp_ℤ (pos lo) (pos hi) (pos v) ≡ pos (max lo (min hi v))
clamp_ℤ-pos lo hi v h = elim (Bool-cases (ltb v lo)) [
  | inl low ↦
      let less : v < lo = ground arith in
      let e : max lo (min hi v) ≡ lo = omega (arith, less, h) in rw e (ground (arith, less, h))
  | inr enough ↦ elim (Bool-cases (ltb hi v)) [
    | inl high ↦
        let more : hi < v = ground arith in
        let e : max lo (min hi v) ≡ hi = omega (arith, more, h) in rw e (ground (arith, more, h))
    | inr within ↦
        let above : lo ≤ v = ground arith in
        let below : v ≤ hi = ground arith in
        let e : max lo (min hi v) ≡ v = omega (arith, above, below, h) in
        rw e (ground (arith, above, below))
  ]
]

positive_or-zero : (n k : ℕ) → positive_or (pos n) (pos k) ≡ pos (if n == 0 then k else n)
positive_or-zero zero k = ground arith
positive_or-zero (suc n) k = ground arith

abbrev arguments : ℕ → ℕ → List (List ℕ)
arguments n m =
    codes "--batch"
    ∷ print_signed (pos n)
    ∷ codes "--stats-ms"
    ∷ print_signed (pos m)
    ∷ codes "--stats"
    ∷ []

parse_args-knobs :
    (n m : ℕ)
    → n < 2 ^ 31
    → m < 2 ^ 31
    → parse_args (arguments n m) defaults
      ≡ run (record defaults { batch = pos n; stats_ms = pos m; stats = true })
unfolding parse_args text_eq
parse_args-knobs n m hn hm = cc (atoi-print n hn, atoi-print m hm)

-- A batch size and an interval that are given on the command line as numbers below 2 ^ 31, with
-- `--stats`, are what the gateway works with: the batch size, or 50 where it is 0, cut to 1..4096, the
-- interval, or 1000 where it is 0, cut to 50..60000, and its statistics are on.
pub command_line-settings :
    (n m : ℕ)
    → n < 2 ^ 31
    → m < 2 ^ 31
    → (o : Options) × (parse_args
          (codes "--batch"
            ∷ print_signed (pos n)
            ∷ codes "--stats-ms"
            ∷ print_signed (pos m)
            ∷ codes "--stats"
            ∷ [])
          defaults
        ≡ run o)
      × (read_settings (set_environment o) ≡ record {
        batch_size = pos (max 1 (min 4096 (if n == 0 then 50 else n)));
        stats_enabled = pos 1;
        stats_interval_ms = pos (max 50 (min 60000 (if m == 0 then 1000 else m)));
      })
command_line-settings n m hn hm =
    let o : Options = record defaults { batch = pos n; stats_ms = pos m; stats = true } in
    let size : ℕ = if n == 0 then 50 else n in
    let interval : ℕ = if m == 0 then 1000 else m in
    (
      o,
      parse_args-knobs n m hn hm,
      read_settings-set_environment o (omega arith) (omega arith)
          ∙ cc (
            ap (clamp_ℤ (pos 1) (pos 4096)) (positive_or-zero n 50)
                ∙ clamp_ℤ-pos 1 4096 size (omega arith),
            ap (clamp_ℤ (pos 50) (pos 60000)) (positive_or-zero m 1000)
                ∙ clamp_ℤ-pos 50 60000 interval (omega arith),
          ),
    )
