-- ===== src/Ws/Handshake/Encoding.antt =====
-- What `base64_encode` of src/infra/websocket/ws_server.c writes, and what `icase_starts_with`
-- compares.
use telemetry_testbed.Base.{
  ℕ, ◌+◌, ◌*◌, ◌/◌, ◌<◌, ◌≤◌, ◌≡◌, refl, ltb, List, [], ◌∷◌, map, none, some, ◌⊎◌, inl, inr, arith,
  length, to_lower, starts_with, Bool-cases,
}
use telemetry_testbed.Ws.Handshake.{encode_loop, base64_encode, icase_starts_with}

length-encode_loop : (bytes : List ℕ) → length (encode_loop bytes) ≡ 4 * ((length bytes + 2) / 3)
unfolding encode_loop
length-encode_loop [] = omega arith
length-encode_loop (a ∷ []) = omega arith
length-encode_loop (a ∷ b ∷ []) = omega arith
length-encode_loop (a ∷ b ∷ c ∷ bytes) = omega (arith, length-encode_loop bytes)

-- `base64_encode` fails or writes four characters for each three bytes begun, and what it writes
-- leaves room for the NUL in `out`. It fails only where that has no room.
pub base64_encode_bounds :
    (bytes : List ℕ) (outcap : ℕ)
    → ((base64_encode bytes outcap ≡ none) × (outcap ≤ 4 * ((length bytes + 2) / 3)))
      ⊎ ((text : List ℕ) × (base64_encode bytes outcap ≡ some text)
          × (length text ≡ 4 * ((length bytes + 2) / 3))
          × (length text < outcap))
unfolding base64_encode
base64_encode_bounds bytes outcap =
    let size = 4 * ((length bytes + 2) / 3) in
    elim (Bool-cases (ltb outcap (size + 1))) [
      | inl small ↦ inl (rw small refl, ground (arith, small))
      | inr fits ↦ inr (
        encode_loop bytes,
        rw fits refl,
        length-encode_loop bytes,
        ground (arith, fits, length-encode_loop bytes),
      )
    ]

-- `icase_starts_with` says whether the text starts with the prefix, both in small letters.
pub icase_starts_with_lem :
    (s prefix : List ℕ)
    → icase_starts_with s prefix ≡ starts_with (map to_lower s) (map to_lower prefix)
unfolding icase_starts_with starts_with
icase_starts_with_lem s [] = refl
icase_starts_with_lem [] (p ∷ prefix) = refl
icase_starts_with_lem (c ∷ s) (p ∷ prefix) = ground (arith, icase_starts_with_lem s prefix)
