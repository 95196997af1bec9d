-- ===== src/Wire/Float16.antt =====
-- wire/float16.go: half-precision floats. A float64 and a float32 are their bits.
use corecbor.Prelude.{
  ℕ, ◌+◌, ◌-◌, ◌*◌, ◌/◌, ◌%◌, ◌^◌, Bool, true, List, ◌∷◌, ◌++◌, Option, none, some, ltb, leb, ◌==◌,
  if◌then◌else◌, bit_and, bit_or, put_u16, put_u32, put_u64,
}
use corecbor.Wire.Float.{
  is_nan64, is_inf64, inf64, nan64, negate64, ldexp64, widen, narrow, exp32, mant32, sign64,
  float64_eq,
}
use corecbor.Wire.Head.{float16_marker, float32_marker, float64_marker}

-- The magnitude: math.Ldexp(mant, -24), an infinity, a NaN, or math.Ldexp(mant + 1024, exp - 25).
unfoldable pub float16_magnitude : ℕ → ℕ → ℕ
unfolding ldexp64
float16_magnitude exp mant =
    if exp == 0
    then if mant == 0 then 0 else ldexp64 9 mant 999
    else if exp == 31
    then if mant == 0 then inf64 else nan64
    else (exp + 1008) * 2 ^ 52 + mant * 2 ^ 42

unfoldable pub decode_float16 : ℕ → ℕ
unfolding float16_magnitude negate64
decode_float16 bits =
    let val = float16_magnitude (bit_and (bits / 2 ^ 10) 0x1f) (bit_and bits 0x3ff) in
    if bit_and bits 0x8000 == 0 then val else negate64 val

-- A subnormal: the significand is shifted right, and the bits that drop out must be zero.
unfoldable pub pack_subnormal : ℕ → ℕ → ℕ → Option ℕ
pack_subnormal sign sig shift =
    if sig / 2 ^ shift * 2 ^ shift == sig
    then some (bit_or sign (sig / 2 ^ shift % 2 ^ 16))
    else none

unfoldable pub pack_normal : ℕ → ℕ → ℕ → Option ℕ
pack_normal sign ex mant =
    if bit_and mant 0x1fff == 0
    then some (bit_or (bit_or sign (bit_and (ex - 112) 0x1f * 2 ^ 10)) (mant / 2 ^ 13 % 2 ^ 16))
    else none

-- The switch over the exponent of the float32, biased by 127: `ex < 103` is `f32exp < -24`.
unfoldable pub pack_float16 : ℕ → ℕ → ℕ → Option ℕ
unfolding pack_subnormal pack_normal
pack_float16 sign ex mant =
    if ltb ex 103
    then none
    else if ltb ex 113
    then pack_subnormal sign (mant + 0x80_0000) (13 + (113 - ex))
    else if leb ex 142
    then pack_normal sign ex mant
    else none

-- The last test: what was packed must decode to the absolute value again.
unfoldable pub checked_float16 : ℕ → Option ℕ → Option ℕ
unfolding decode_float16
checked_float16 f none = none
checked_float16 f (some bits) =
    if float64_eq (decode_float16 (bit_and bits 0x7fff)) f then some bits else none

-- EncodeFloat16 of a positive finite `f`, behind the tests for special values.
unfoldable pub encode_positive : ℕ → ℕ → Option ℕ
unfolding checked_float16 pack_float16 narrow widen float64_eq
encode_positive sign f =
    if float64_eq (widen (narrow f)) f
    then checked_float16 f (pack_float16 sign (exp32 (narrow f)) (mant32 (narrow f)))
    else none

-- `none` is Go's (0, false).
unfoldable pub encode_float16 : ℕ → Option ℕ
unfolding encode_positive is_nan64 is_inf64 negate64
encode_float16 f =
    if is_nan64 f
    then some 0x7e00
    else let sign = sign64 f * 0x8000 in
      let abs = if sign64 f == 1 then negate64 f else f in
      if is_inf64 abs
      then some (bit_or sign 0x7c00)
      else if abs == 0
      then some sign
      else encode_positive sign abs

unfoldable pub can_float32_lossless : ℕ → Bool
unfolding is_nan64 narrow widen float64_eq
can_float32_lossless f = if is_nan64 f then true else float64_eq (widen (narrow f)) f

-- AppendFloat16, AppendFloat32 and AppendFloat64.
unfoldable pub append_float16 : List ℕ → ℕ → List ℕ
append_float16 dst bits = dst ++ (float16_marker ∷ put_u16 bits)

unfoldable pub append_float32 : List ℕ → ℕ → List ℕ
append_float32 dst f = dst ++ (float32_marker ∷ put_u32 f)

unfoldable pub append_float64 : List ℕ → ℕ → List ℕ
append_float64 dst f = dst ++ (float64_marker ∷ put_u64 f)
