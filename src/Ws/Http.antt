-- ===== src/Ws/Http.antt =====
-- The HTTP side of src/infra/websocket/ws_server.c: `find_header_value`, `read_http_request`,
-- `compute_accept_key` and `ws_handshake`. The buffer is the list of the bytes received, and the
-- functions of the C library read it up to the first NUL.
pub mod Lines
pub mod Reading
pub mod Accept
use telemetry_testbed.Base.{
  ℕ, zero, suc, ◌+◌, ◌-◌, ◌==◌, ltb, leb, if◌then◌else◌, List, [], ◌∷◌, ◌++◌, Option, none, some,
  Bool, true, false, ◌&&◌, ◌||◌, codes, min, length, take, drop, get_or, strstr, starts_with,
}
use telemetry_testbed.Ws.Socket.{Socket, Read, gives, interrupted, broken, Write, Sent, send_all}
use telemetry_testbed.Ws.Handshake.{icase_starts_with, base64_encode}
use telemetry_testbed.Ws.Request.{c_string}
use telemetry_testbed.Ws.Sha1.{sha1}

abbrev pub ws_guid : List ℕ
ws_guid = codes "258EAFA5-E914-47DA-95CA-C5AB0DC85B11"

abbrev pub http_max : ℕ
http_max = 8192

abbrev pub crlf : List ℕ
crlf = 13 ∷ 10 ∷ []

unfoldable pub skip_blanks : List ℕ → List ℕ
skip_blanks [] = []
skip_blanks (c ∷ s) = let rest = skip_blanks s in if (c == b' ') || (c == 9) then rest else c ∷ s

-- What the value's pointer shows, once a NUL stands at `line_end`.
abbrev pub value_at : List ℕ → List ℕ → List ℕ
value_at p line_end = let v = skip_blanks p in take (length v - length line_end) v

abbrev pub is_header : List ℕ → List ℕ → ℕ → Bool
is_header name p len =
    ltb (length name + 1) len && (icase_starts_with p name && (get_or p (length name) 0 == b':'))

-- The loop over the lines, with `p` what is left of the request up to its first NUL; a round takes two
-- bytes at least.
unfoldable pub find_line : List ℕ → ℕ → List ℕ → Option (List ℕ)
unfolding strstr skip_blanks icase_starts_with
find_line name zero p = none
find_line name (suc fuel) p = elim (strstr p crlf) [
  | none ↦ none
  | some line_end ↦
      let len = length p - length line_end in
      let found = value_at (drop (length name + 1) p) line_end in
      let more = find_line name fuel (drop 2 line_end) in
      if len == 0 then none else if is_header name p len then some found else more
]

unfoldable pub find_header_value : List ℕ → List ℕ → Option (List ℕ)
unfolding find_line
find_header_value http name = let text = c_string http in find_line name (length text) text

abbrev is_some : Option (List ℕ) → Bool
is_some none = false
is_some (some t) = true

abbrev pub blank_line : List ℕ
blank_line = 13 ∷ 10 ∷ 13 ∷ 10 ∷ []

-- On a text without NUL.
abbrev pub closes : List ℕ → Bool
closes text = is_some (strstr text blank_line)

unfoldable pub ended : List ℕ → Bool
unfolding strstr
ended buf = closes (c_string buf)

-- The loop with `buf` read so far: what comes back is the request, or nothing for -1.
unfoldable pub read_loop : List Read → List ℕ → List ℕ → Option (List ℕ × Socket)
read_loop [] incoming buf = none
read_loop (interrupted ∷ reads) incoming buf = read_loop reads incoming buf
read_loop (broken ∷ reads) incoming buf = none
read_loop (gives k ∷ reads) incoming buf =
    let r = min (suc k) (min (http_max - length buf - 1) (length incoming)) in
    let buf' = buf ++ take r incoming in
    let rest = drop r incoming in
    let more = read_loop reads rest buf' in
    if r == 0
    then none
    else if ended buf'
    then some (buf', record { incoming = rest; reads = reads })
    else if leb (http_max - 1) (length buf')
    then none
    else more

unfoldable pub read_http_request : Socket → Option (List ℕ × Socket)
unfolding read_loop
read_http_request s = read_loop s.reads s.incoming []

-- `cat` has 256 bytes, and `out_b64` 64.
unfoldable pub compute_accept_key : List ℕ → Option (List ℕ)
compute_accept_key sec_key = base64_encode (sha1 (take 255 (sec_key ++ ws_guid))) 64

abbrev pub response : List ℕ → List ℕ
response accept =
    codes
      "HTTP/1.1 101 Switching Protocols\r\nUpgrade: websocket\r\nConnection: Upgrade\r\nSec-WebSocket-Accept: "
    ++ (accept ++ (crlf ++ crlf))

-- `resp` has 256 bytes; a longer text is refused.
abbrev fitting : List ℕ → Option (List ℕ)
fitting resp = if leb 256 (length resp) then none else some resp

abbrev answer_key : Option (List ℕ) → Option (List ℕ)
answer_key none = none
answer_key (some []) = none
answer_key (some (c ∷ key)) = elim (compute_accept_key (c ∷ key)) [
  | none ↦ none
  | some accept ↦ fitting (response accept)
]

-- From the request to the response.
unfoldable pub answer_request : List ℕ → Option (List ℕ)
unfolding starts_with find_header_value
answer_request http =
    if starts_with http (codes "GET ")
    then answer_key (find_header_value http (codes "Sec-WebSocket-Key"))
    else none

-- What is sent, or nothing for a -1 without sending, and what is still to be read.
unfoldable pub ws_handshake : List Write → Socket → Option (Sent × Socket)
unfolding read_http_request answer_request
ws_handshake writes s = elim (read_http_request s) [
  | none ↦ none
  | some (http, s') ↦ elim (answer_request http) [
    | none ↦ none
    | some resp ↦ some (send_all writes resp, s')
  ]
]
