-- ===== src/Tests/Handshake/Credentials.antt =====
-- edhoc/credential.go at a concrete CWT, whose claims confirm a key.
use corecbor.Prelude.{ℕ, ◌≡◌, refl, List, [], ◌∷◌, Option, none, some}
use corecbor.Codec.{decoder_decode, reset}
use corecbor.Rfc8949.Decode.{decode, decode_value, decode_step, dispatch}
use corecbor.Rfc8949.Maps.{decode_map, map_entries, map_key, map_value}
use corecbor.Rfc8949.Strings.{decode_bytes}
use corecbor.Rfc8949.Insert.{map_insert}
use corecbor.Rfc8949.Options.{max_array, max_nesting, max_bytes}
use corecbor.Rfc8949.State.{is_long_head, charge}
use corecbor.Rfc8949.Arrays.{int_in_place}
use corecbor.Wire.Head.{parse_head, parse_arg}
use corecbor.Edhoc.Result.{ok}
use corecbor.Edhoc.Signature.{PublicKey, ed25519_key}
use corecbor.Edhoc.Credential.{EllipticCurve, extract_public_key_from_cwt}
use corecbor.Edhoc.Credential.Confirmed.{IsConfirmed, extract_public_key_from_cwt-IsConfirmed}
use corecbor.Tests.Tokens.{instants, octet_keys}
use corecbor.Tests.Handshake.{toy}

abbrev point : EllipticCurve → ℕ → ℕ → ℕ
point curve x y = x

-- {8: {1: {1: h'09'}}} as the payload of every CWT.
abbrev verified : List ℕ → Option (PublicKey toy) → Option (List ℕ)
verified token issuer = some (0xa1 ∷ 0x08 ∷ 0xa1 ∷ 0x01 ∷ 0xa1 ∷ 0x01 ∷ 0x41 ∷ 0x09 ∷ [])

abbrev to_ed25519 : List ℕ → Option (PublicKey toy)
to_ed25519 k = some (ed25519_key k)

extracted :
    extract_public_key_from_cwt toy point instants octet_keys verified to_ed25519 [] none
    ≡ ok (ed25519_key (0x09 ∷ []))
unfolding extract_public_key_from_cwt decoder_decode reset decode decode_value decode_step
    parse_head parse_arg is_long_head dispatch decode_map max_array max_nesting map_entries map_key
    map_value decode_bytes max_bytes map_insert int_in_place charge
extracted = refl

extract_public_key_from_cwt-IsConfirmed_example :
    IsConfirmed toy point instants octet_keys verified to_ed25519 [] none (ed25519_key (0x09 ∷ []))
extract_public_key_from_cwt-IsConfirmed_example =
    extract_public_key_from_cwt-IsConfirmed toy point instants octet_keys verified to_ed25519 []
      none (ed25519_key (0x09 ∷ [])) extracted
