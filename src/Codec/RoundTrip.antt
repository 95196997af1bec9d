-- ===== src/Codec/RoundTrip.antt =====
-- encoder.go, decoder.go: Decoder.Decode after Encoder.Encode.
use corecbor.Prelude.{ℕ, ◌≤◌, ◌≡◌, refl, false, List, [], none, ◌∙◌}
use corecbor.Cbor.Value.{Value}
use corecbor.Rfc8949.Options.{max_bytes}
use corecbor.Rfc8949.Encode
use corecbor.Rfc8949.Encode.Plain.{IsPlain, IsEncodable}
use corecbor.Rfc8949.Valid.{IsValid, is_self_described}
use corecbor.Rfc8949.RoundTrip.Whole.{decode-encode}
use corecbor.Codec.{
  permissive, Encoder, encode_opts, encoder_encode, Decoder, value, decoder_decode, reset,
}

pub permissive-IsPlain : (e : Encoder) → e.mode ≡ permissive → IsPlain (encode_opts e)
unfolding encode_opts
permissive-IsPlain e m = rw m (record { in_order = refl; same_floats = cc })

pub encoder_encode-permissive :
    (e : Encoder) (dst : List ℕ) (v : Value)
    → e.mode ≡ permissive
    → encoder_encode e dst v ≡ Encode.encode (encode_opts e) dst v
unfolding encoder_encode
encoder_encode-permissive e dst v m = rw m refl

-- What a permissive Encoder writes, a Decoder without a memory budget that allows strings of 23 bytes
-- gives back: Encode succeeds and Decode returns the same value, for every value that the options of both let through and that
-- has no self-describe tag in front.
pub decoder_decode-encoder_encode :
    (e : Encoder) (d : Decoder) (v : Value)
    → e.mode ≡ permissive
    → d.budget ≡ none
    → IsEncodable (encode_opts e) v
    → 23 ≤ max_bytes d.opts
    → IsValid d.opts 0 v
    → is_self_described v ≡ false
    → (src : List ℕ) × (encoder_encode e [] v ≡ Encode.ok src) × (decoder_decode d src ≡ value v d)
unfolding decoder_decode reset
decoder_decode-encoder_encode e d v m b h hb hv c =
    let r = decode-encode (encode_opts e) d.opts v (permissive-IsPlain e m) h hb hv c in
    (r.0, encoder_encode-permissive e [] v m ∙ r.1, rw (b, r.2) refl)
