-- ===== src/Rfc8949/Equal.antt =====
-- rfc8949/decode.go: valuesEqual, the equality of map keys. Values of a composite kind are never
-- equal, and floats are equal as Go's `==` has it.
use corecbor.Prelude.{◌≡◌, refl, arith, ℕ, ◌%◌, Bool, true, false, ◌&&◌, not, List, [], ◌∷◌, ◌==◌}
use corecbor.Cbor.Value.{
  Value, uint, neg_int, bytes, text, bool, null, undefined, float32, float64, simple,
}
use corecbor.Wire.Float.{float32_eq, float64_eq}

abbrev pub same_bool : Bool → Bool → Bool
same_bool true b = b
same_bool false b = not b

unfoldable pub same_bytes : List ℕ → List ℕ → Bool
same_bytes [] [] = true
same_bytes (x ∷ xs) (y ∷ ys) = x == y && same_bytes xs ys
same_bytes _ _ = false

pub same_bytes-eq : (x y : List ℕ) → same_bytes x y ≡ true → x ≡ y
unfolding same_bytes
same_bytes-eq [] [] h = refl
same_bytes-eq [] (y ∷ ys) h = cc (h)
same_bytes-eq (x ∷ xs) [] h = cc (h)
same_bytes-eq (x ∷ xs) (y ∷ ys) h = ground (arith, same_bytes-eq xs ys)

pub same_bytes_refl : (x : List ℕ) → same_bytes x x ≡ true
unfolding same_bytes
same_bytes_refl [] = refl
same_bytes_refl (x ∷ xs) = ground (arith, same_bytes_refl xs)

unfoldable pub values_equal : Value → Value → Bool
unfolding same_bytes
values_equal (uint a) (uint b) = a == b
values_equal (neg_int a) (neg_int b) = a == b
values_equal (bytes a) (bytes b) = same_bytes a b
values_equal (text a) (text b) = same_bytes a b
values_equal (bool a) (bool b) = same_bool a b
values_equal null null = true
values_equal undefined undefined = true
values_equal (simple a) (simple b) = a % 256 == b % 256
values_equal (float32 a) (float32 b) = float32_eq a b
values_equal (float64 a) (float64 b) = float64_eq a b
values_equal _ _ = false
