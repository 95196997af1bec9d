-- ===== src/Rfc8949/Decode.antt =====
-- rfc8949/decode.go: Decode, decodeValue and decodeTag.
pub mod InPlace
pub mod Strict
use corecbor.Prelude.{
  ℕ, zero, suc, ◌+◌, Bool, true, false, ◌&&◌, not, List, ltb, ◌==◌, if◌then◌else◌, length,
}
use corecbor.Cbor.Value.{Value, uint, neg_int, make_tag}
use corecbor.Cbor.Error.{truncated, reserved_ai, non_shortest, max_nesting_depth, unknown_tag}
use corecbor.Wire.Head.{
  HeadResult, parse_head, major_uint, major_neg_int, major_bytes, major_text, major_array,
  major_map, major_tag, major_other,
}
use corecbor.Rfc8949.Options.{DecodeOpts, max_nesting}
use corecbor.Rfc8949.State.{
  State, Budget, Outcome, ok, out_of_fuel, bind, fail, advance, is_reserved, is_long_head,
}
use corecbor.Rfc8949.Strings.{decode_bytes, decode_text}
use corecbor.Rfc8949.Scalars.{decode_other}
use corecbor.Rfc8949.Arrays.{Decoder, decode_array}
use corecbor.Rfc8949.Maps.{decode_map}

-- knownTags
abbrev pub is_known_tag : ℕ → Bool
is_known_tag id = id == 55799

unfoldable pub decode_tag : Decoder → DecodeOpts → HeadResult → ℕ → Bool → State → Outcome Value
decode_tag dec opts h depth strip s =
    if opts.reject_unknown_tags && not (is_known_tag h.arg)
    then fail unknown_tag s
    else if h.arg == 55799 && strip
    then dec depth true (advance h.n s)
    else if ltb (max_nesting opts) (depth + 1)
    then fail max_nesting_depth s
    else bind (dec (depth + 1) false (advance h.n s)) λ inner s'. ok (make_tag h.arg inner) s'

-- The switch over the major type.
unfoldable pub dispatch : Decoder → DecodeOpts → HeadResult → ℕ → Bool → State → Outcome Value
dispatch dec opts h depth strip s =
    if h.major == major_uint
    then ok (uint h.arg) (advance h.n s)
    else if h.major == major_neg_int
    then ok (neg_int h.arg) (advance h.n s)
    else if h.major == major_bytes
    then decode_bytes opts h s
    else if h.major == major_text
    then decode_text opts h s
    else if h.major == major_array
    then decode_array dec opts h depth s
    else if h.major == major_map
    then decode_map dec opts h depth s
    else if h.major == major_tag
    then decode_tag dec opts h depth strip s
    else if h.major == major_other
    then decode_other opts h s
    else fail truncated s

-- The body of decodeValue, with `dec` for the calls of decodeValue inside it.
unfoldable pub decode_step : Decoder → DecodeOpts → ℕ → Bool → State → Outcome Value
decode_step dec opts depth strip s =
    let h = parse_head s.rest in
    if h.n == 0
    then fail truncated s
    else if is_reserved h.ai
    then fail reserved_ai s
    else if is_long_head opts h
    then fail non_shortest s
    else dispatch dec opts h depth strip s

-- Each level of nesting takes a unit of fuel, and a byte of the source.
unfoldable pub decode_value : ℕ → DecodeOpts → Decoder
decode_value zero opts depth strip s = out_of_fuel
decode_value (suc fuel) opts depth strip s = decode_step (decode_value fuel opts) opts depth strip s

unfoldable pub decode : List ℕ → DecodeOpts → Budget → Outcome Value
decode src opts budget =
    decode_value (suc (length src)) opts 0 true (record { rest = src; budget = budget })
