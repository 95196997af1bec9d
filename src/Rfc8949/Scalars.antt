-- ===== src/Rfc8949/Scalars.antt =====
-- rfc8949/decode.go: major type 7.
use corecbor.Prelude.{ℕ, ◌%◌, ◌^◌, Bool, true, false, ◌&&◌, ◌||◌, ltb, ◌==◌, if◌then◌else◌}
use corecbor.Cbor.Value.{Value, bool, null, undefined, float32, float64, simple}
use corecbor.Cbor.Error.{truncated, reserved_ai, non_shortest, non_finite_float}
use corecbor.Wire.Float.{is_nan64, is_inf64, widen}
use corecbor.Wire.Float16.{decode_float16}
use corecbor.Wire.Head.{HeadResult, ai_1byte, ai_2bytes, ai_4bytes, ai_8bytes, ai_indefinite}
use corecbor.Rfc8949.Options.{DecodeOpts}
use corecbor.Rfc8949.State.{State, Outcome, ok, fail, advance}

abbrev pub is_non_finite : ℕ → Bool
is_non_finite f = is_nan64 f || is_inf64 f

-- What the three float branches do with the float64 `f` that they test and the value `v`.
unfoldable pub finite_or_fail : DecodeOpts → ℕ → Value → HeadResult → State → Outcome Value
finite_or_fail opts f v h s =
    if opts.reject_non_finite_floats && is_non_finite f
    then fail non_finite_float s
    else ok v (advance h.n s)

-- The branch for one more byte, `sv := uint8(h.Arg)`.
unfoldable pub decode_simple : HeadResult → State → Outcome Value
decode_simple h s =
    if ltb (h.arg % 256) 32 then fail non_shortest s else ok (simple (h.arg % 256)) (advance h.n s)

unfoldable pub decode_other : DecodeOpts → HeadResult → State → Outcome Value
unfolding finite_or_fail decode_simple
decode_other opts h s =
    if ltb h.ai 20
    then ok (simple h.ai) (advance h.n s)
    else if h.ai == 20
    then ok (bool false) (advance h.n s)
    else if h.ai == 21
    then ok (bool true) (advance h.n s)
    else if h.ai == 22
    then ok null (advance h.n s)
    else if h.ai == 23
    then ok undefined (advance h.n s)
    else if h.ai == ai_1byte
    then decode_simple h s
    else if h.ai == ai_2bytes
    then finite_or_fail opts (decode_float16 (h.arg % 2 ^ 16))
        (float64 (decode_float16 (h.arg % 2 ^ 16))) h s
    else if h.ai == ai_4bytes
    then finite_or_fail opts (widen (h.arg % 2 ^ 32)) (float32 (h.arg % 2 ^ 32)) h s
    else if h.ai == ai_8bytes
    then finite_or_fail opts h.arg (float64 h.arg) h s
    else if h.ai == ai_indefinite
    then fail truncated s
    else fail reserved_ai s
