-- ===== src/Examples/Handshake.antt =====
-- The handshake of src/infra/websocket/ws_server.c on the request of RFC 6455, section 1.3.
use telemetry_testbed.Base.{ℕ, ◌≡◌, refl, List, [], ◌∷◌, some, codes, All, arith}
use telemetry_testbed.Ws.Socket.{Socket, Read, gives}
use telemetry_testbed.Ws.Sha1.{
  sha1, sha1_transform, sha1_final, absorb_padding, sha1_update, sha1_init,
}
use telemetry_testbed.Ws.Sha1.Blocks.{IsBlock, concat}
use telemetry_testbed.Ws.Sha1.Standard.{process_all, first_words, digest}
use telemetry_testbed.Ws.Sha1.Padding.{IsPadded, sha1-hash}
use telemetry_testbed.Ws.Handshake.{base64_encode}
use telemetry_testbed.Ws.Request.{c_string}
use telemetry_testbed.Ws.Http.{compute_accept_key, find_header_value}
use telemetry_testbed.Ws.Http.Reading.{head}

abbrev key : List ℕ
key = codes "dGhlIHNhbXBsZSBub25jZQ=="

abbrev request : List (List ℕ)
request =
    codes "Host: server.example.com"
    ∷ codes "Upgrade: websocket"
    ∷ codes "sec-websocket-key: \tdGhlIHNhbXBsZSBub25jZQ=="
    ∷ []

abbrev get : List ℕ
get = codes "GET /chat HTTP/1.1"

sha1_abc :
    sha1 (codes "abc")
    ≡ 0xa9 ∷ 0x99 ∷ 0x3e ∷ 0x36 ∷ 0x47 ∷ 0x06 ∷ 0x81 ∷ 0x6a ∷ 0xba ∷ 0x3e ∷ 0x25 ∷ 0x71 ∷ 0x78
      ∷ 0x50 ∷ 0xc2 ∷ 0x6c ∷ 0x9c ∷ 0xd0 ∷ 0xd8 ∷ 0x9d ∷ []
unfolding sha1 sha1_transform sha1_final absorb_padding sha1_update sha1_init
sha1_abc = refl

accept_sample : compute_accept_key key ≡ some (codes "s3pPLMBiTxaQ9kYGzzhZRbK+xOo=")
unfolding compute_accept_key base64_encode sha1 sha1_transform sha1_final absorb_padding sha1_update
    sha1_init
accept_sample = refl

key_found : find_header_value (head (get ∷ request)) (codes "Sec-WebSocket-Key") ≡ some key
unfolding find_header_value c_string
key_found = refl

sha1-hash_example :
    (message : List ℕ) × (blocks : List (List ℕ)) × IsPadded (codes "abc") message
    × (message ≡ concat blocks)
    × All IsBlock blocks
    × (sha1 (codes "abc") ≡ digest (process_all first_words blocks))
sha1-hash_example = sha1-hash (codes "abc") (omega arith)

abbrev calls : List Read
calls = some_calls 150
  where
    some_calls : ℕ → List Read
    some_calls ℕ.zero = []
    some_calls (ℕ.suc n) = gives 1 ∷ some_calls n
