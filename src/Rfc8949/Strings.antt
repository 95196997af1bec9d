-- ===== src/Rfc8949/Strings.antt =====
-- rfc8949/decode.go: byte strings and text strings, of definite and of indefinite length.
use corecbor.Prelude.{
  ℕ, zero, suc, ◌+◌, ◌&&◌, ◌||◌, not, List, [], ◌∷◌, ◌++◌, ltb, ◌==◌, if◌then◌else◌, length, take,
  drop,
}
use corecbor.Cbor.Value.{Value, bytes, text}
use corecbor.Cbor.Error.{
  truncated, reserved_ai, non_shortest, indefinite_length, max_byte_string_length, invalid_utf8,
}
use corecbor.Cbor.Utf8.{valid_utf8}
use corecbor.Wire.Head.{HeadResult, parse_head, major_bytes, major_text, ai_indefinite, break_code}
use corecbor.Rfc8949.Options.{DecodeOpts, max_bytes}
use corecbor.Rfc8949.State.{
  State, Outcome, ok, out_of_fuel, bind, fail, advance, charge, is_reserved, is_long_head,
}

-- decodeIndefiniteBytes and decodeIndefiniteText, up to the break code, at which the state stands
-- at the end. Each round takes a byte at least, so more rounds than bytes are never needed.
unfoldable pub chunks : ℕ → DecodeOpts → ℕ → List ℕ → State → Outcome (List ℕ)
chunks zero opts want buf s = out_of_fuel
chunks (suc fuel) opts want buf s =
    let h = parse_head s.rest in
    let more =
      chunks fuel opts want (buf ++ take h.arg (drop h.n s.rest)) (advance (h.n + h.arg) s) in
    elim s.rest [
      | [] ↦ fail truncated s
      | ib ∷ _ ↦
          if ib == break_code
          then ok buf s
          else if h.n == 0
          then fail truncated s
          else if not (h.major == want) || h.ai == ai_indefinite
          then fail truncated s
          else if is_reserved h.ai
          then fail reserved_ai s
          else if is_long_head opts h
          then fail non_shortest s
          else if ltb (max_bytes opts) h.arg
          then fail max_byte_string_length s
          else if ltb (max_bytes opts) (length buf + h.arg)
          then fail max_byte_string_length s
          else if ltb (length s.rest) (h.n + h.arg)
          then fail truncated s
          else more
    ]

unfoldable pub indefinite_bytes : DecodeOpts → State → Outcome Value
unfolding chunks
indefinite_bytes opts s =
    bind (chunks (suc (length s.rest)) opts major_bytes [] s)
      λ buf s'. ok (bytes buf) (advance 1 s')

unfoldable pub indefinite_text : DecodeOpts → State → Outcome Value
unfolding chunks
indefinite_text opts s = bind (chunks (suc (length s.rest)) opts major_text [] s) λ buf s'.
    if opts.reject_invalid_utf8 && not (valid_utf8 buf)
    then fail invalid_utf8 s'
    else ok (text buf) (advance 1 s')

-- The payload of a definite string, `src[start:end]`.
abbrev pub payload : HeadResult → State → List ℕ
payload h s = take h.arg (drop h.n s.rest)

unfoldable pub decode_bytes : DecodeOpts → HeadResult → State → Outcome Value
unfolding charge
decode_bytes opts h s =
    if h.ai == ai_indefinite
    then if opts.reject_indefinite_length
      then fail indefinite_length s
      else indefinite_bytes opts (advance h.n s)
    else if ltb (max_bytes opts) h.arg
    then fail max_byte_string_length s
    else if ltb (length s.rest) (h.n + h.arg)
    then fail truncated s
    else charge h.arg s λ s'. ok (bytes (payload h s)) (advance (h.n + h.arg) s')

unfoldable pub decode_text : DecodeOpts → HeadResult → State → Outcome Value
unfolding charge
decode_text opts h s =
    if h.ai == ai_indefinite
    then if opts.reject_indefinite_length
      then fail indefinite_length s
      else indefinite_text opts (advance h.n s)
    else if ltb (max_bytes opts) h.arg
    then fail max_byte_string_length s
    else if ltb (length s.rest) (h.n + h.arg)
    then fail truncated s
    else if opts.reject_invalid_utf8 && not (valid_utf8 (payload h s))
    then fail invalid_utf8 s
    else charge h.arg s λ s'. ok (text (payload h s)) (advance (h.n + h.arg) s')
