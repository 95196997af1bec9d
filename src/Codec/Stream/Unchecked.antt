-- ===== src/Codec/Stream/Unchecked.antt =====
-- stream.go: what WriteValue does not check.
use corecbor.Prelude.{ℕ, ◌≡◌, refl, ap, ◌∙◌, true, false, List, [], ◌++◌, append_assoc, length}
use corecbor.Cbor.Value.{text, float64}
use corecbor.Cbor.Error.{invalid_utf8, non_finite_float}
use corecbor.Cbor.Utf8.{valid_utf8}
use corecbor.Wire.Head.{head_bytes}
use corecbor.Wire.Float16.{append_float64}
use corecbor.Rfc8949.Serial.{serialize}
use corecbor.Rfc8949.Encode
use corecbor.Rfc8949.Encode.{encode, encode_text, encode_float64, encode_float, is_non_finite}
use corecbor.Codec.{
  Encoder, Mode, permissive, core_deterministic, canonical, ctap2, other, encode_opts,
}
use corecbor.Codec.Stream.{
  StreamEncoder, ok, err, put, track_write, encoding, write_head, write_string, put_value,
  write_value, write_text, write_float64,
}
use corecbor.Codec.Stream.Containers.{buffer}

record Checks (e : Encoder) : Type 0 where
  utf8_as_set : (encode_opts e).allow_invalid_utf8 ≡ e.allow_invalid_utf8
  utf8_not_skipped : (encode_opts e).skip_utf8_validation ≡ false
  floats_as_set : (encode_opts e).allow_non_finite_floats ≡ e.allow_non_finite_floats

encode_opts-Checks : (e : Encoder) → Checks e
encode_opts-Checks e = by e.mode
  where
    by : (m : Mode) → Checks (record e { mode = m })
    by permissive =
        unfold encode_opts in
        record { utf8_as_set = refl; utf8_not_skipped = refl; floats_as_set = refl }
    by core_deterministic =
        unfold encode_opts in
        record { utf8_as_set = refl; utf8_not_skipped = refl; floats_as_set = refl }
    by canonical =
        unfold encode_opts in
        record { utf8_as_set = refl; utf8_not_skipped = refl; floats_as_set = refl }
    by ctap2 =
        unfold encode_opts in
        record { utf8_as_set = refl; utf8_not_skipped = refl; floats_as_set = refl }
    by other =
        unfold encode_opts in
        record { utf8_as_set = refl; utf8_not_skipped = refl; floats_as_set = refl }

track_write-outside : (s : StreamEncoder buffer) → s.stack ≡ [] → track_write buffer s ≡ ok s
unfolding track_write
track_write-outside s k = rw k refl

-- Outside containers and without AllowInvalidUTF8 and AllowNonFiniteFloats, WriteText and Encode
-- reject a text that is not UTF-8, and WriteFloat64 and Encode a float of 64 bits that is not finite,
-- but WriteValue writes both to a buffer.
pub write_value-unchecked :
    (s : StreamEncoder buffer) (t : List ℕ) (f : ℕ)
    → s.stack ≡ []
    → s.encoder.allow_invalid_utf8 ≡ false
    → s.encoder.allow_non_finite_floats ≡ false
    → valid_utf8 t ≡ false
    → is_non_finite f ≡ true
    → ((write_text buffer t s ≡ err (encoding invalid_utf8) s)
        × (encode (encode_opts s.encoder) [] (text t) ≡ Encode.err invalid_utf8 [])
        × (write_value buffer (text t) s ≡ ok (record s { sink = s.sink ++ serialize (text t) })))
      × ((write_float64 buffer f s ≡ err (encoding non_finite_float) s)
          × (encode (encode_opts s.encoder) [] (float64 f) ≡ Encode.err non_finite_float [])
          × (write_value buffer (float64 f) s
              ≡ ok (record s { sink = s.sink ++ serialize (float64 f) })))
unfolding write_text write_value write_float64 encode encode_text encode_float64 encode_float
    put_value write_string write_head put serialize append_float64
write_value-unchecked s t f k a b h g =
    let c = encode_opts-Checks s.encoder in
    let free = track_write-outside s k in
    (
      (
        rw (free, a, h) refl,
        rw (c.utf8_not_skipped, c.utf8_as_set ∙ a, h) refl,
        rw free (
            ap (λ o. ok (record s { sink = o }))
              (append_assoc s.sink (head_bytes 0x60 (length t)) t)),
      ),
      (rw (free, b, g) refl, rw (c.floats_as_set ∙ b, g) refl, rw free refl),
    )
