-- ===== src/Ws/Request.antt =====
-- `json_find_int` and `is_history_request` of src/infra/websocket/ws_server.c, on the text of a
-- frame up to its first NUL. `long` is 64 bits wide, so that no step overflows.
pub mod Number
use telemetry_testbed.Base.{
  ℕ, zero, suc, ◌+◌, ◌-◌, ◌*◌, ◌==◌, ltb, if◌then◌else◌, List, [], ◌∷◌, Option, none, some, Bool,
  true, false, codes, strstr, strchr, is_digit, is_space,
}
use telemetry_testbed.Base.Int.{ℤ, pos, negsuc}

-- A payload read as a C string.
unfoldable pub c_string : List ℕ → List ℕ
c_string [] = []
c_string (b ∷ bs) = let rest = b ∷ c_string bs in if b == 0 then [] else rest

unfoldable pub skip_spaces : List ℕ → List ℕ
unfolding is_space
skip_spaces [] = []
skip_spaces (c ∷ s) = let rest = skip_spaces s in if is_space c then rest else c ∷ s

-- The loop over the digits from `v` on, which stops behind the digit that takes `v` past 1000000.
unfoldable pub digits_loop : List ℕ → ℕ → ℕ
unfolding is_digit
digits_loop [] v = v
digits_loop (c ∷ s) v =
    let v' = v * 10 + (c - 48) in
    let more = digits_loop s v' in if is_digit c then (if ltb 1000000 v' then v' else more) else v

abbrev pub negate : ℕ → ℤ
negate zero = pos 0
negate (suc n) = negsuc n

abbrev pub starts_with_digit : List ℕ → Bool
starts_with_digit [] = false
starts_with_digit (c ∷ s) = is_digit c

-- From the sign on.
unfoldable pub signed_int : List ℕ → ℤ → ℤ
signed_int [] defv = defv
signed_int (c ∷ s) defv =
    if c == b'-'
    then (if starts_with_digit s then negate (digits_loop s 0) else defv)
    else if is_digit c
    then pos (digits_loop (c ∷ s) 0)
    else defv

-- From the colon on.
abbrev pub behind_colon : List ℕ → ℤ → ℤ
behind_colon [] defv = defv
behind_colon (c ∷ s) defv = signed_int (skip_spaces s) defv

unfoldable pub json_find_int : List ℕ → List ℕ → ℤ → ℤ
unfolding strstr strchr skip_spaces
json_find_int json key defv = elim (strstr json key) [
  | none ↦ defv
  | some p ↦ elim (strchr p b':') [ none ↦ defv | some q ↦ behind_colon q defv ]
]

abbrev found : Option (List ℕ) → Bool
found none = false
found (some p) = true

unfoldable pub is_history_request : List ℕ → Bool
unfolding strstr
is_history_request json = elim (strstr json (codes "\"type\"")) [
  | some p ↦ found (strstr p (codes "history"))
  | none ↦ elim (strstr json (codes "type")) [
    | some p ↦ found (strstr p (codes "history"))
    | none ↦ false
  ]
]
