-- ===== src/Base/Text.antt =====
-- C strings as lists of byte values, without the closing NUL, and the parts of the C library that
-- the program uses on them.
use Prim.Native.Nat.{ℕ, zero, suc, ◌+◌, ◌/◌, ◌%◌}
use Prim.Native.Char.{code}
use Prim.Native.String.{String}
use mathlib.Core.Bool.{Bool, true, false, ◌&&◌, ◌||◌}
use mathlib.Core.List.{List, [], ◌∷◌, ◌++◌}
use mathlib.Core.Option.{Option, none, some}
use telemetry_testbed.Base.Int.{ℤ, pos, negsuc}
use telemetry_testbed.Base.Tests.{ltb, leb, ◌==◌, if◌then◌else◌}

abbrev pub codes : String → List ℕ
codes String.[] = []
codes (String.◌∷◌ c s) = code c ∷ codes s

-- `isdigit`, `isspace` and `tolower` of the C locale.
unfoldable pub is_digit : ℕ → Bool
is_digit c = leb b'0' c && leb c b'9'

unfoldable pub is_space : ℕ → Bool
is_space c = (c == 32) || (leb 9 c && leb c 13)

unfoldable pub to_lower : ℕ → ℕ
to_lower c = if leb b'A' c && leb c b'Z' then c + 32 else c

-- `strcmp(a, b) == 0`.
unfoldable pub text_eq : List ℕ → List ℕ → Bool
text_eq [] [] = true
text_eq [] (b ∷ bs) = false
text_eq (a ∷ as') [] = false
text_eq (a ∷ as') (b ∷ bs) = (a == b) && text_eq as' bs

unfoldable pub starts_with : List ℕ → List ℕ → Bool
starts_with s [] = true
starts_with [] (p ∷ ps) = false
starts_with (c ∷ s) (p ∷ ps) = (c == p) && starts_with s ps

-- `strstr`: the text from the first occurrence on, or nothing.
unfoldable pub strstr : List ℕ → List ℕ → Option (List ℕ)
unfolding starts_with
strstr [] p = if starts_with [] p then some [] else none
strstr (c ∷ s) p = let rest = strstr s p in if starts_with (c ∷ s) p then some (c ∷ s) else rest

-- `strchr` for a byte other than NUL.
unfoldable pub strchr : List ℕ → ℕ → Option (List ℕ)
strchr [] c = none
strchr (b ∷ s) c = let rest = strchr s c in if b == c then some (b ∷ s) else rest

-- Decimal digits of a number, as `%u` and `%llu` print it: a number below 10 ^ 20 has 20 at most.
unfoldable pub digits_fuel : ℕ → ℕ → List ℕ
digits_fuel zero n = []
digits_fuel (suc f) n =
    let rest = digits_fuel f (n / 10) in
    if ltb n 10 then (48 + n) ∷ [] else rest ++ ((48 + n % 10) ∷ [])

unfoldable pub print_unsigned : ℕ → List ℕ
unfolding digits_fuel
print_unsigned n = digits_fuel 20 n

-- `%d` and `%lld`.
unfoldable pub print_signed : ℤ → List ℕ
print_signed (pos n) = print_unsigned n
print_signed (negsuc n) = b'-' ∷ print_unsigned (suc n)
