-- ===== src/Ws/Http/Lines.antt =====
-- `find_header_value` of src/infra/websocket/ws_server.c on a request of whole lines: it gives what
-- a reading line by line gives.
use telemetry_testbed.Base.{
  ℕ, zero, suc, ◌+◌, ◌-◌, ◌==◌, ◌≤◌, ◌<◌, ◌≢◌, ltb, if◌then◌else◌, Bool-cases, inl, inr, List, [],
  ◌∷◌, ◌++◌, append_assoc, Option, none, some, false, length, length-append, drop, take-append,
  get_or, strstr, All, ◌≡◌, refl, sym, ap, subst, All-append, ◌∙◌, arith,
}
use telemetry_testbed.Ws.Socket.Transfer.{drop-append_le}
use telemetry_testbed.Ws.Handshake.{icase_starts_with}
use telemetry_testbed.Ws.Request.{c_string}
use telemetry_testbed.Ws.Http.{crlf, skip_blanks, value_at, is_header, find_line, find_header_value}

-- A line has no carriage return and no NUL in it, and is not empty.
abbrev pub IsLine : List ℕ → Type 0
IsLine l = (0 < length l) × All (λ c. c ≢ 13) l × All (λ c. c ≢ 0) l

abbrev pub unlines : List (List ℕ) → List ℕ
unlines [] = []
unlines (l ∷ ls) = l ++ (crlf ++ unlines ls)

-- The value that a line gives for a name, with no look beyond the line.
abbrev pub header_of : List ℕ → List ℕ → Option (List ℕ)
header_of name l =
    if is_header name l (length l) then some (skip_blanks (drop (length name + 1) l)) else none

abbrev first_of : Option (List ℕ) → Option (List ℕ) → Option (List ℕ)
first_of none later = later
first_of (some v) later = some v

-- The value of the first line that has the name.
abbrev pub first_header : List ℕ → List (List ℕ) → Option (List ℕ)
first_header name [] = none
first_header name (l ∷ ls) = first_of (header_of name l) (first_header name ls)

-- The end of a line is the first pair of CR and LF.
strstr-line :
    (l rest : List ℕ)
    → All (λ c. c ≢ 13) l
    → strstr (l ++ (crlf ++ rest)) crlf ≡ some (crlf ++ rest)
unfolding strstr
strstr-line [] rest h = refl
strstr-line (c ∷ l) rest (hc, h) =
    let e : (c == 13) ≡ false = ground arith in rw e (strstr-line l rest h)

icase_starts_with-append :
    (l name rest : List ℕ)
    → length name ≤ length l
    → icase_starts_with (l ++ rest) name ≡ icase_starts_with l name
unfolding icase_starts_with
icase_starts_with-append [] [] [] h = refl
icase_starts_with-append [] [] (r ∷ rest) h = refl
icase_starts_with-append (c ∷ l) [] rest h = refl
icase_starts_with-append [] (n ∷ name) rest h = absurd (omega arith)
icase_starts_with-append (c ∷ l) (n ∷ name) rest h =
    rw (icase_starts_with-append l name rest (omega arith))

get_or-append : (l rest : List ℕ) (i : ℕ) → i < length l → get_or (l ++ rest) i 0 ≡ get_or l i 0
get_or-append [] rest i h = absurd (omega arith)
get_or-append (c ∷ l) rest zero h = refl
get_or-append (c ∷ l) rest (suc i) h = get_or-append l rest i (omega arith)

is_header-append :
    (name l rest : List ℕ) → is_header name (l ++ rest) (length l) ≡ is_header name l (length l)
is_header-append name l rest = elim (Bool-cases (ltb (length name + 1) (length l))) [
  | inl long ↦ rw long (
      cc (
        icase_starts_with-append l name rest (ground (arith, long)),
        get_or-append l rest (length name) (ground (arith, long)),
      ))
  | inr short ↦ rw short refl
]

-- The blanks stop at the carriage return at the latest.
skip_blanks-line :
    (l rest : List ℕ) → skip_blanks (l ++ (crlf ++ rest)) ≡ skip_blanks l ++ (crlf ++ rest)
unfolding skip_blanks
skip_blanks-line [] rest = refl
skip_blanks-line (c ∷ l) rest = ground (arith, skip_blanks-line l rest)

value_at-line : (l rest : List ℕ) → value_at (l ++ (crlf ++ rest)) (crlf ++ rest) ≡ skip_blanks l
value_at-line l rest =
    let v = skip_blanks l in
    let e : length (v ++ (crlf ++ rest)) - length (crlf ++ rest) ≡ length v =
      omega (arith, length-append v (crlf ++ rest)) in
    rw (skip_blanks-line l rest, e) (take-append v (crlf ++ rest))

-- The round of the loop once the line's end and length are known.
abbrev round : List ℕ → List ℕ → List ℕ → Option (List ℕ) → Option (List ℕ)
round name l rest later =
    let p = l ++ (crlf ++ rest) in
    if is_header name p (length l)
    then some (value_at (drop (length name + 1) p) (crlf ++ rest))
    else later

round_lem :
    (name l rest : List ℕ) (later : Option (List ℕ))
    → round name l rest later ≡ first_of (header_of name l) later
round_lem name l rest later = elim (Bool-cases (is_header name l (length l))) [
  | inl hit ↦
      let e = drop-append_le (length name + 1) l (crlf ++ rest) (ground (arith, hit)) in
      rw (is_header-append name l (crlf ++ rest), hit, e)
        (ap some (value_at-line (drop (length name + 1) l) rest))
  | inr miss ↦ rw (is_header-append name l (crlf ++ rest), miss) refl
]

find_line-line :
    (name l rest : List ℕ) (fuel : ℕ)
    → IsLine l
    → find_line name (suc fuel) (l ++ (crlf ++ rest))
      ≡ first_of (header_of name l) (find_line name fuel rest)
unfolding find_line
find_line-line name l rest fuel (long, h, _) =
    let e : length (l ++ (crlf ++ rest)) - length (crlf ++ rest) ≡ length l =
      omega (arith, length-append l (crlf ++ rest)) in
    let some_bytes : (length l == 0) ≡ false = ground arith in
    rw (strstr-line l rest h, e, some_bytes, find_line)
      (round_lem name l rest (find_line name fuel rest))

-- The empty line ends the search.
find_line-empty : (name rest : List ℕ) (fuel : ℕ) → find_line name fuel (crlf ++ rest) ≡ none
unfolding find_line
find_line-empty name rest zero = refl
find_line-empty name rest (suc fuel) =
    let e : (length (crlf ++ rest) - length (crlf ++ rest)) ≡ 0 = omega arith in rw e refl

find_line-lines :
    (name : List ℕ) (ls : List (List ℕ)) (rest : List ℕ) (fuel : ℕ)
    → All IsLine ls
    → length ls < fuel
    → find_line name fuel (unlines ls ++ (crlf ++ rest)) ≡ first_header name ls
find_line-lines name [] rest fuel h enough = find_line-empty name rest fuel
find_line-lines name (l ∷ ls) rest zero h enough = absurd (omega arith)
find_line-lines name (l ∷ ls) rest (suc fuel) (hl, h) enough =
    ap (find_line name (suc fuel)) (append_assoc l (crlf ++ unlines ls) (crlf ++ rest))
    ∙ find_line-line name l (unlines ls ++ (crlf ++ rest)) fuel hl
    ∙ ap (first_of (header_of name l)) (find_line-lines name ls rest fuel h (omega arith))

length-unlines : (ls : List (List ℕ)) → length ls ≤ length (unlines ls)
length-unlines [] = omega arith
length-unlines (l ∷ ls) = omega (arith, length-unlines ls, length-append l (crlf ++ unlines ls))

-- A text without NUL is read to its end.
pub c_string-append :
    (xs ys : List ℕ) → All (λ c. c ≢ 0) xs → c_string (xs ++ ys) ≡ xs ++ c_string ys
unfolding c_string
c_string-append [] ys h = refl
c_string-append (x ∷ xs) ys (hx, h) =
    let e : (x == 0) ≡ false = ground arith in rw e (ap (◌∷◌ x) (c_string-append xs ys h))

pub unlines-crlf_no_nul :
    (ls : List (List ℕ)) → All IsLine ls → All (λ c. c ≢ 0) (unlines ls ++ crlf)
unlines-crlf_no_nul [] h = (omega arith, (omega arith, tt))
unlines-crlf_no_nul (l ∷ ls) (hl, h) =
    subst (All (λ c. c ≢ 0)) (sym (append_assoc l (crlf ++ unlines ls) crlf)) (
      All-append (λ c. c ≢ 0) l (crlf ++ (unlines ls ++ crlf)) hl.2
        (omega arith, (omega arith, unlines-crlf_no_nul ls h)))

-- In a request of whole lines that an empty line ends, `find_header_value` finds the value of the
-- first line that has the name, and nothing if there is no such line, whatever follows the empty line.
pub find_header_value-lines :
    (name : List ℕ) (ls : List (List ℕ)) (rest : List ℕ)
    → All IsLine ls
    → find_header_value (unlines ls ++ (crlf ++ rest)) name ≡ first_header name ls
unfolding find_header_value
find_header_value-lines name ls rest h =
    let cut : c_string (unlines ls ++ (crlf ++ rest)) ≡ unlines ls ++ (crlf ++ c_string rest) =
      ap c_string (sym (append_assoc (unlines ls) crlf rest))
      ∙ c_string-append (unlines ls ++ crlf) rest (unlines-crlf_no_nul ls h)
      ∙ append_assoc (unlines ls) crlf (c_string rest) in
    ap (λ t. find_line name (length t) t) cut
    ∙ find_line-lines name ls (c_string rest) (length (unlines ls ++ (crlf ++ c_string rest))) h
        (omega (arith, length-unlines ls, length-append (unlines ls) (crlf ++ c_string rest)))
