-- ===== src/Ws/Handshake/Decoding.antt =====
-- What `base64_encode` of src/infra/websocket/ws_server.c writes can be read back.
use telemetry_testbed.Base.{
  ℕ, ◌+◌, ◌-◌, ◌*◌, ◌/◌, ◌%◌, ◌≡◌, ◌==◌, leb, if◌then◌else◌, List, [], ◌∷◌, false, get_or,
}
use telemetry_testbed.Ws.Handshake.{b64_tbl}

-- The alphabet of RFC 4648, by its ranges: the value that a character stands for.
unfoldable pub value_of : ℕ → ℕ
value_of c =
    if leb b'a' c
    then c - 71
    else if leb b'A' c
    then c - 65
    else if leb b'0' c
    then c + 4
    else if c == b'+'
    then 62
    else 63

-- Four characters a round; the padding says how many bytes the last round holds.
unfoldable pub base64_decode : List ℕ → List ℕ
base64_decode (p ∷ q ∷ r ∷ s ∷ text) =
    let first = value_of p * 4 + value_of q / 16 in
    let second = value_of q % 16 * 16 + value_of r / 4 in
    let third = value_of r % 4 * 64 + value_of s in
    let more = base64_decode text in
    if r == b'='
    then first ∷ []
    else if s == b'='
    then first ∷ second ∷ []
    else first ∷ second ∷ third ∷ more
base64_decode text = []

abbrev char_of : ℕ → ℕ
char_of v = get_or b64_tbl v 0

-- A character that stands for `v`, and is no padding.
abbrev Stands : ℕ → ℕ → Type 0
Stands c v = (value_of c ≡ v) × ((c == b'=') ≡ false)
