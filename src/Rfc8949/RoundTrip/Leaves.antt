-- ===== src/Rfc8949/RoundTrip/Leaves.antt =====
-- decodeValue on the encodings of the values that hold no others.
use corecbor.Prelude.{
  ℕ, ◌^◌, ◌≤◌, ◌<◌, ◌≡◌, refl, ◌∙◌, ◌⊎◌, Bool, true, false, not, List, ◌∷◌, ◌++◌, length, IsU64,
  arith, put_u32, put_u64, leb, append_assoc, bit_or,
}
use corecbor.Cbor.Value.{
  Value, uint, neg_int, bytes, text, bool, null, undefined, simple, float32, float64,
}
use corecbor.Wire.Head.{head_bytes, parse_head, arg_1, arg_4, arg_8, parse_arg, is_shortest}
use corecbor.Wire.Head.RoundTrip.{head_of, be32-put, be64-put, parse_head-join}
use corecbor.Wire.Float.{widen}
use corecbor.Cbor.Utf8.{valid_utf8}
use corecbor.Rfc8949.Options.{DecodeOpts, max_bytes}
use corecbor.Rfc8949.State.{ok, is_long_head}
use corecbor.Rfc8949.Strings.{decode_bytes, decode_text}
use corecbor.Rfc8949.Scalars.{decode_other, is_non_finite}
use corecbor.Rfc8949.Arrays.{Decoder}
use corecbor.Rfc8949.Decode.{decode_step, dispatch}
use corecbor.Rfc8949.Serial.{serialize}
use corecbor.Rfc8949.Valid.{Within, Passes}
use corecbor.Rfc8949.RoundTrip.Heads.{at, decode_step-head, payload-head, drop-head, length-head}

decode_bytes-head :
    (opts : DecodeOpts) (b tl : List ℕ)
    → Within (max_bytes opts) (length b)
    → decode_bytes opts (head_of 0x40 (length b)) (at (head_bytes 0x40 (length b) ++ (b ++ tl)))
      ≡ ok (bytes b) (at tl)
unfolding decode_bytes
decode_bytes-head opts b tl h =
    ground (arith, (payload-head 0x40 b tl).0, (payload-head 0x40 b tl).1, length-head 0x40 b tl)

decode_text-head :
    (opts : DecodeOpts) (b tl : List ℕ)
    → Within (max_bytes opts) (length b)
    → Passes opts.reject_invalid_utf8 (not (valid_utf8 b))
    → decode_text opts (head_of 0x60 (length b)) (at (head_bytes 0x60 (length b) ++ (b ++ tl)))
      ≡ ok (text b) (at tl)
unfolding decode_text
decode_text-head opts b tl h p =
    ground (arith, (payload-head 0x60 b tl).0, (payload-head 0x60 b tl).1, length-head 0x60 b tl)

module _ (dec : Decoder) (opts : DecodeOpts) (depth : ℕ) (strip : Bool) where
  -- One round of decodeValue reads `v` off its encoding, whatever follows.
  abbrev pub Reads : Value → List ℕ → Type 0
  Reads v tl = decode_step dec opts depth strip (at (serialize v ++ tl)) ≡ ok v (at tl)

  pub read-uint : (n : ℕ) (tl : List ℕ) → IsU64 n → Reads (uint n) tl
  unfolding serialize
  read-uint n tl h =
      rw (decode_step-head dec opts depth strip 0x00 n tl (omega arith) h)
        (unfold dispatch in rw (drop-head 0x00 n tl))

  pub read-neg_int : (n : ℕ) (tl : List ℕ) → IsU64 n → Reads (neg_int n) tl
  unfolding serialize
  read-neg_int n tl h =
      rw (decode_step-head dec opts depth strip 0x20 n tl (omega arith) h)
        (unfold dispatch in rw (drop-head 0x20 n tl))

  pub read-bytes : (b tl : List ℕ) → Within (max_bytes opts) (length b) → Reads (bytes b) tl
  unfolding serialize
  read-bytes b tl h = rw (append_assoc (head_bytes 0x40 (length b)) b tl) (
      rw (decode_step-head dec opts depth strip 0x40 (length b) (b ++ tl) (omega arith) h.1)
        (unfold dispatch in decode_bytes-head opts b tl h))

  pub read-text :
      (b tl : List ℕ)
      → Within (max_bytes opts) (length b)
      → Passes opts.reject_invalid_utf8 (not (valid_utf8 b))
      → Reads (text b) tl
  unfolding serialize
  read-text b tl h p = rw (append_assoc (head_bytes 0x60 (length b)) b tl) (
      rw (decode_step-head dec opts depth strip 0x60 (length b) (b ++ tl) (omega arith) h.1)
        (unfold dispatch in decode_text-head opts b tl h p))

  pub read-simple : (n : ℕ) (tl : List ℕ) → (n < 20) ⊎ ((32 ≤ n) × (n < 256)) → Reads (simple n) tl
  unfolding serialize decode_step is_long_head is_shortest dispatch decode_other
  read-simple n tl h = ground (arith, one_byte, parse_inline)
    where
      one_byte :
          32 ≤ n → parse_head (0xf8 ∷ n ∷ tl) ≡ record { major = 0xe0; ai = 24; arg = n; n = 2 }
      one_byte k = unfold parse_head parse_arg arg_1 in refl

      parse_inline :
          n < 20 → parse_head (bit_or 0xe0 n ∷ tl) ≡ record { major = 0xe0; ai = n; arg = n; n = 1 }
      parse_inline k =
          unfold parse_arg in (parse_head-join 0xe0 n tl (omega arith) (omega arith) ∙ ground arith)

  pub read-float32 :
      (f : ℕ) (tl : List ℕ)
      → f < 2 ^ 32
      → Passes opts.reject_non_finite_floats (is_non_finite (widen f))
      → Passes opts.reject_non_shortest (leb f 0xffff)
      → Reads (float32 f) tl
  unfolding serialize decode_step is_long_head is_shortest dispatch decode_other put_u32 parse_head
      parse_arg arg_4
  read-float32 f tl h p q = ground (arith, be32-put f)

  pub read-float64 :
      (f : ℕ) (tl : List ℕ)
      → IsU64 f
      → Passes opts.reject_non_finite_floats (is_non_finite f)
      → Passes opts.reject_non_shortest (leb f 0xffff_ffff)
      → Reads (float64 f) tl
  unfolding serialize decode_step is_long_head is_shortest dispatch decode_other put_u64 parse_head
      parse_arg arg_8
  read-float64 f tl h p q = ground (arith, be64-put f)

  pub read-undefined : (tl : List ℕ) → Reads undefined tl
  unfolding serialize decode_step parse_head parse_arg is_long_head is_shortest dispatch
      decode_other
  read-undefined tl = ground arith

  pub read-null : (tl : List ℕ) → Reads null tl
  unfolding serialize decode_step parse_head parse_arg is_long_head is_shortest dispatch
      decode_other
  read-null tl = ground arith

  pub read-bool : (b : Bool) (tl : List ℕ) → Reads (bool b) tl
  unfolding serialize decode_step parse_head parse_arg is_long_head is_shortest dispatch
      decode_other
  read-bool true tl = ground arith
  read-bool false tl = ground arith
