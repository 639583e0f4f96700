-- ===== src/Programs.antt =====
-- `main` of src/apps/telemetry_gateway_main.c up to the start of the gateway, and `env_int` of
-- src/app/telemetry_gateway.c, which reads what `main` put into the environment.
pub mod Dump
pub mod Knobs
pub mod Robot
use telemetry_testbed.Base.{
  ℕ, zero, suc, ◌+◌, ◌-◌, ◌*◌, ◌^◌, ◌==◌, ltb, if◌then◌else◌, List, [], ◌∷◌, Option, none, some,
  Bool, true, false, codes, text_eq, is_digit, print_signed,
}
use telemetry_testbed.Base.Int.{ℤ, pos, negsuc, ltb_ℤ}
use telemetry_testbed.Base.Words.{int_cut}
use telemetry_testbed.Ws.Request.{skip_spaces, negate}

unfoldable pub digits_value : List ℕ → ℕ → ℕ
unfolding is_digit
digits_value [] v = v
digits_value (c ∷ s) v =
    let more = digits_value s (v * 10 + (c - 48)) in if is_digit c then more else v

abbrev pub clamp_ℤ : ℤ → ℤ → ℤ → ℤ
clamp_ℤ lo hi v = let low = if ltb_ℤ v lo then lo else v in if ltb_ℤ hi low then hi else low

abbrev pub signed_value : List ℕ → ℤ
signed_value [] = pos 0
signed_value (c ∷ s) =
    if c == b'-'
    then negate (digits_value s 0)
    else if c == b'+'
    then pos (digits_value s 0)
    else pos (digits_value (c ∷ s) 0)

-- `strtol(s, NULL, 10)` of the C library, with a `long` of 64 bits, and `atoi`.
unfoldable pub strtol : List ℕ → ℤ
unfolding skip_spaces digits_value
strtol s = clamp_ℤ (negsuc (2 ^ 63 - 1)) (pos (2 ^ 63 - 1)) (signed_value (skip_spaces s))

unfoldable pub atoi : List ℕ → ℤ
unfolding strtol int_cut
atoi s = int_cut (strtol s)

-- The variables of `main`.
pub record Options : Type 0 where
  pub mqtt_host : List ℕ
  pub mqtt_port : ℤ
  pub db_path : List ℕ
  pub ws_port : ℤ
  pub batch : ℤ
  pub stats : Bool
  pub stats_ms : ℤ

abbrev pub defaults : Options
defaults = record {
  mqtt_host = codes "127.0.0.1";
  mqtt_port = pos 1883;
  db_path = codes "telemetry.db";
  ws_port = pos 8080;
  batch = pos 50;
  stats = false;
  stats_ms = pos 1000;
}

-- The options, or an end of the program: 0 after `--help`, and 1 after an unknown argument.
pub data Parsed : Type 0 where
  run : Options → Parsed
  quit : ℕ → Parsed

-- An argument that stands alone.
abbrev pub parse_flag : List ℕ → Options → Parsed
parse_flag a o =
    if text_eq a (codes "--stats")
    then run (record o { stats = true })
    else if text_eq a (codes "--help")
    then quit 0
    else quit 1

-- An option with its value; nothing if it is no such option.
abbrev pub parse_pair : List ℕ → List ℕ → Options → Option Options
parse_pair a v o =
    if text_eq a (codes "--mqtt-host")
    then some (record o { mqtt_host = v })
    else if text_eq a (codes "--mqtt-port")
    then some (record o { mqtt_port = atoi v })
    else if text_eq a (codes "--db")
    then some (record o { db_path = v })
    else if text_eq a (codes "--ws-port")
    then some (record o { ws_port = atoi v })
    else if text_eq a (codes "--batch")
    then some (record o { batch = atoi v })
    else if text_eq a (codes "--stats-ms")
    then some (record o { stats_ms = atoi v })
    else none

-- The loop over `argv`, behind the program's name.
unfoldable pub parse_args : List (List ℕ) → Options → Parsed
unfolding text_eq atoi
parse_args [] o = run o
parse_args (a ∷ []) o = parse_flag a o
parse_args (a ∷ v ∷ args) o = elim (parse_pair a v o) [
  | some o' ↦ parse_args args o'
  | none ↦ elim (parse_flag a o) [ run o' ↦ parse_args (v ∷ args) o' | quit rc ↦ quit rc ]
]

-- The variables that the gateway reads, as `getenv` gives them.
pub record Environment : Type 0 where
  pub gw_batch : Option (List ℕ)
  pub gw_stats_ms : Option (List ℕ)
  pub gw_stats : Option (List ℕ)

abbrev pub positive_or : ℤ → ℤ → ℤ
positive_or v other = if ltb_ℤ (pos 0) v then v else other

-- The block that sets them; a printed int has 11 characters at most, so `buf` holds it.
unfoldable pub set_environment : Options → Environment
unfolding print_signed
set_environment o = record {
  gw_batch = some (print_signed (positive_or o.batch (pos 50)));
  gw_stats_ms = some (print_signed (positive_or o.stats_ms (pos 1000)));
  gw_stats = some (if o.stats then codes "1" else codes "0");
}

unfoldable pub env_int : Option (List ℕ) → ℤ → ℤ → ℤ → ℤ
unfolding strtol
env_int none def minv maxv = def
env_int (some []) def minv maxv = def
env_int (some (c ∷ v)) def minv maxv = clamp_ℤ minv maxv (strtol (c ∷ v))

-- What `telemetry_gateway_start` reads.
pub record Settings : Type 0 where
  pub batch_size : ℤ
  pub stats_enabled : ℤ
  pub stats_interval_ms : ℤ

unfoldable pub read_settings : Environment → Settings
unfolding env_int
read_settings e = record {
  batch_size = env_int e.gw_batch (pos 50) (pos 1) (pos 4096);
  stats_enabled = env_int e.gw_stats (pos 0) (pos 0) (pos 1);
  stats_interval_ms = env_int e.gw_stats_ms (pos 1000) (pos 50) (pos 60000);
}
