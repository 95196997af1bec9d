-- ===== src/Rfc8949/Decode/Strict.antt =====
-- rfc8949/decode.go: what the guards in front of the switch of decodeValue reject and let through.
use corecbor.Prelude.{ℕ, ◌≤◌, ◌≡◌, true, List, ◌∷◌, ◌++◌, arith, put_u32, put_u64}
use corecbor.Cbor.Value.{uint, neg_int, float32, float64}
use corecbor.Cbor.Error.{non_shortest}
use corecbor.Wire.Head.{parse_head, parse_arg, arg_4, arg_8, is_shortest}
use corecbor.Wire.Head.RoundTrip.{be32-put, be64-put}
use corecbor.Rfc8949.Options.{DecodeOpts}
use corecbor.Rfc8949.State.{Budget, ok, err, is_long_head}
use corecbor.Rfc8949.Serial.{serialize}
use corecbor.Rfc8949.Decode.{dispatch, decode_step, decode_value, decode}

-- With RejectNonShortest the bits of a float are taken for an argument that a shorter head could
-- hold: Decode rejects the encoding of every 32-bit float with bits up to 0xffff and of every
-- 64-bit one with bits up to 0xffffffff, +0.0 among them, as not of the shortest form.
pub decode-small_float :
    (o : DecodeOpts) (f : ℕ) (tl : List ℕ) (b : Budget)
    → o.reject_non_shortest ≡ true
    → (f ≤ 0xffff
        → let src = serialize (float32 f) ++ tl in decode src o b ≡ err non_shortest src b)
      × (f ≤ 0xffff_ffff
          → let src = serialize (float64 f) ++ tl in decode src o b ≡ err non_shortest src b)
unfolding decode decode_value decode_step is_long_head is_shortest serialize parse_head parse_arg
    arg_4 arg_8 put_u32 put_u64
decode-small_float o f tl b h = (
  λ k. rw (be32-put f (omega arith), h) (ground arith),
  λ k. rw (be64-put f (omega arith), h) (ground arith),
)

-- An initial byte of major type 0 or 1 with the additional information 31, which no well-formed
-- encoding has, is read as the integer 0 or -1, under all options.
pub decode-indefinite_int :
    (o : DecodeOpts) (tl : List ℕ) (b : Budget)
    → (decode (0x1f ∷ tl) o b ≡ ok (uint 0) (record { rest = tl; budget = b }))
      × (decode (0x3f ∷ tl) o b ≡ ok (neg_int 0) (record { rest = tl; budget = b }))
unfolding decode decode_value decode_step is_long_head parse_head parse_arg dispatch
decode-indefinite_int o tl b = (ground arith, ground arith)
