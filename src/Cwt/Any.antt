-- ===== src/Cwt/Any.antt =====
-- cwt/claims.go: the values of an `any`, and maps of them.
use corecbor.Prelude.{
  ℕ, ◌-◌, ◌%◌, ◌^◌, Bool, true, false, List, [], ◌∷◌, Option, none, some, leb, ◌==◌, if◌then◌else◌,
}
use corecbor.Cbor.Value.{Value, uint, neg_int, bytes, text, bool, float32, float64}
use corecbor.Wire.Float.{widen, float64_eq}
use corecbor.Rfc8949.Equal.{same_bytes, same_bool}

-- The values of an `any`; `any_int64` is an int, too, and `any_other` a type that toValue rejects.
pub data Any : Type 0 where
  any_value : Value → Any
  any_string any_bytes : List ℕ → Any
  any_int64 any_uint64 any_float64 : ℕ → Any
  any_bool : Bool → Any
  any_other : Any

-- -1 - n on int64.
abbrev pub complement : ℕ → ℕ
complement n = 2 ^ 64 - 1 - n

abbrev pub is_negative : ℕ → Bool
is_negative n = leb (2 ^ 63) n

unfoldable pub to_value : Any → Option Value
to_value (any_value v) = some v
to_value (any_string s) = some (text s)
to_value (any_int64 n) = some (if is_negative n then neg_int (complement n) else uint n)
to_value (any_uint64 n) = some (uint n)
to_value (any_float64 f) = some (float64 f)
to_value (any_bytes b) = some (bytes b)
to_value (any_bool b) = some (bool b)
to_value any_other = none

unfoldable pub from_value : Value → Any
from_value (uint n) = any_int64 n
from_value (neg_int n) = any_int64 (complement n)
from_value (text s) = any_string s
from_value (bytes b) = any_bytes b
from_value (float64 f) = any_float64 f
from_value (float32 f) = any_float64 (widen (f % 2 ^ 32))
from_value (bool b) = any_bool b
from_value v = any_value v

-- A key of a Go map: slices, and structs that hold slices, as Value does, have no hash.
abbrev pub is_hashable : Any → Bool
is_hashable (any_bytes b) = false
is_hashable (any_value v) = false
is_hashable _ = true

abbrev pub same_any : Any → Any → Bool
same_any (any_string a) (any_string b) = same_bytes a b
same_any (any_int64 a) (any_int64 b) = a == b
same_any (any_uint64 a) (any_uint64 b) = a == b
same_any (any_float64 a) (any_float64 b) = float64_eq a b
same_any (any_bool a) (any_bool b) = same_bool a b
same_any _ _ = false

-- A Go map in the order in which a range runs through it.
abbrev pub AnyMap : Type 0
AnyMap = List (Any × Any)

unfoldable pub set_any : AnyMap → Any → Any → AnyMap
set_any [] k v = (k, v) ∷ []
set_any (e ∷ m) k v = let rest = set_any m k v in if same_any e.0 k then (e.0, v) ∷ m else e ∷ rest

unfoldable pub entry_key_int : Value → Option ℕ
entry_key_int (uint n) = some n
entry_key_int (neg_int n) = some (complement n)
entry_key_int _ = none
