-- ===== src/Cwt/RoundTrip.antt =====
-- cwt/claims.go: the claims that are read from the entries that Encode writes.
use corecbor.Prelude.{
  ℕ, ◌≡◌, Bool, false, [], ◌∷◌, ◌++◌, none, some, leb, ◌&&◌, All, IsU64, if◌then◌else◌,
}
use corecbor.Cbor.Value.{Value, uint, neg_int}
use corecbor.Cwt.Any.{
  Any, any_value, any_string, any_int64, any_uint64, any_float64, any_bool, complement, is_negative,
  from_value, same_any, AnyMap, entry_key_int,
}

abbrev pub names_claim : Value → Bool
names_claim v = elim (entry_key_int v) [ none ↦ false | some n ↦ leb 1 n && leb n 8 ]

-- The keys of private claims that come back: strings, bools, float64s, and int64s that are not those of
-- registered claims. An int64 is a word of 64 bits.
abbrev pub IsKeptKey : Any → Type 0
IsKeptKey (any_string _) = Unit
IsKeptKey (any_bool _) = Unit
IsKeptKey (any_float64 _) = Unit
IsKeptKey (any_int64 n) = IsU64 n × (names_claim (uint n) ≡ false)
IsKeptKey _ = ⊥

-- The values that come back: all but a uint64 and a CBOR value of a kind that has a Go type of its own.
abbrev pub IsKeptValue : Any → Type 0
IsKeptValue (any_int64 n) = IsU64 n
IsKeptValue (any_uint64 _) = ⊥
IsKeptValue (any_value v) = from_value v ≡ any_value v
IsKeptValue _ = Unit

abbrev pub IsKept : Any → Any → Type 0
IsKept k v = IsKeptKey k × IsKeptValue v

int_value : ℕ → Value
int_value n = if is_negative n then neg_int (complement n) else uint n

-- Private claims behind those of `acc`, with keys that differ from each other.
abbrev pub AreKept : AnyMap → AnyMap → Type 0
AreKept acc [] = Unit
AreKept acc (e ∷ m) =
    IsKept e.0 e.1 × All (λ p. same_any p.0 e.0 ≡ false) acc × AreKept (acc ++ (e ∷ [])) m
