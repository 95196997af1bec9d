-- ===== src/Wire/Float.antt =====
-- The conversions of Go's float types, on IEEE 754 bits: float32 in 32 bits, float64 in 64.
-- These are operations of the language and of package math, which wire/float16.go and
-- rfc8949/encode.go use.
use corecbor.Prelude.{
  ℕ, zero, suc, ◌+◌, ◌-◌, ◌*◌, ◌/◌, ◌%◌, ◌^◌, Bool, ◌&&◌, ◌||◌, not, ltb, leb, ◌==◌, if◌then◌else◌,
  bit_or,
}

abbrev pub exp64 : ℕ → ℕ
exp64 f = f / 2 ^ 52 % 2048

abbrev pub mant64 : ℕ → ℕ
mant64 f = f % 2 ^ 52

abbrev pub sign64 : ℕ → ℕ
sign64 f = f / 2 ^ 63 % 2

abbrev pub exp32 : ℕ → ℕ
exp32 f = f / 2 ^ 23 % 256

abbrev pub mant32 : ℕ → ℕ
mant32 f = f % 2 ^ 23

abbrev pub sign32 : ℕ → ℕ
sign32 f = f / 2 ^ 31 % 2

-- math.IsNaN and math.IsInf(f, 0)
unfoldable pub is_nan64 : ℕ → Bool
is_nan64 f = exp64 f == 2047 && not (mant64 f == 0)

unfoldable pub is_inf64 : ℕ → Bool
is_inf64 f = exp64 f == 2047 && mant64 f == 0

-- math.Inf(1) and math.NaN()
abbrev pub inf64 : ℕ
inf64 = 0x7ff0_0000_0000_0000

abbrev pub nan64 : ℕ
nan64 = 0x7ff8_0000_0000_0001

-- -f
unfoldable pub negate64 : ℕ → ℕ
negate64 f = (1 - sign64 f) * 2 ^ 63 + f % 2 ^ 63

-- The position of the highest set bit of `m`, if it is at most `k`.
pub top_bit : ℕ → ℕ → ℕ
top_bit zero m = zero
top_bit (suc k) m = if leb (2 ^ suc k) m then suc k else top_bit k m

-- The float64 of m * 2 ^ e, 0 < m < 2 ^ (limit + 1), where `base` is e + 1023 and the result is normal.
unfoldable pub ldexp64 : ℕ → ℕ → ℕ → ℕ
unfolding top_bit
ldexp64 limit m base = let k = top_bit limit m in (k + base) * 2 ^ 52 + (m - 2 ^ k) * 2 ^ (52 - k)

-- float64(f) of a float32: exact, and a NaN becomes quiet.
unfoldable pub widen : ℕ → ℕ
unfolding ldexp64
widen f =
    sign32 f * 2 ^ 63
    + (if exp32 f == 255
        then if mant32 f == 0 then inf64 else inf64 + bit_or (2 ^ 51) (mant32 f * 2 ^ 29)
        else if exp32 f == 0
        then if mant32 f == 0 then 0 else ldexp64 22 (mant32 f) 874
        else (exp32 f + 896) * 2 ^ 52 + mant32 f * 2 ^ 29)

-- x / 2 ^ s, rounded to nearest, ties to even.
unfoldable pub round_shift : ℕ → ℕ → ℕ
round_shift x s =
    let q = x / 2 ^ s in
    let r = x % 2 ^ s in
    if ltb (2 ^ (s - 1)) r || (r == 2 ^ (s - 1) && q % 2 == 1) then q + 1 else q

-- A magnitude from the largest float32 exponent up is an infinity.
unfoldable pub cap_inf : ℕ → ℕ
cap_inf m = if leb 0x7f80_0000 m then 0x7f80_0000 else m

-- float32(f) of a float64.
unfoldable pub narrow : ℕ → ℕ
unfolding round_shift cap_inf
narrow f =
    sign64 f * 2 ^ 31
    + (if exp64 f == 2047
        then if mant64 f == 0
          then 0x7f80_0000
          else 0x7f80_0000 + bit_or (2 ^ 22) (mant64 f / 2 ^ 29)
        else if exp64 f == 0
        then 0
        else if leb 897 (exp64 f)
        then cap_inf ((exp64 f - 897) * 2 ^ 23 + round_shift (2 ^ 52 + mant64 f) 29)
        else round_shift (2 ^ 52 + mant64 f) (29 + (897 - exp64 f)))

-- a == b of floats: no NaN is equal to anything, and the zeros are equal.
unfoldable pub float64_eq : ℕ → ℕ → Bool
unfolding is_nan64
float64_eq a b =
    not (is_nan64 a) && not (is_nan64 b) && (a == b || (a % 2 ^ 63 == 0 && b % 2 ^ 63 == 0))

unfoldable pub float32_eq : ℕ → ℕ → Bool
unfolding float64_eq widen
float32_eq a b = float64_eq (widen a) (widen b)
