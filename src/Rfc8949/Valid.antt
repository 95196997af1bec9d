-- ===== src/Rfc8949/Valid.antt =====
-- The values that an encoding carries and that the decoder's options let through at a given depth.
use corecbor.Prelude.{
  leb, ℕ, suc, ◌+◌, ◌≤◌, ◌<◌, ◌^◌, ◌≡◌, ◌⊎◌, Bool, false, ◌&&◌, not, List, [], ◌∷◌, ◌++◌, All,
  length, IsU64, ◌==◌,
}
use Prim.Native.Nat.{max}
use corecbor.Cbor.Value.{
  Value, Items, Pairs, MapEntry, invalid, uint, neg_int, bytes, text, array, map, tag, bool, null,
  undefined, float32, float64, simple, nil, cons, end, entry, count_items, count_pairs,
}
use corecbor.Cbor.Utf8.{valid_utf8}
use corecbor.Wire.Float.{widen}
use corecbor.Rfc8949.Options.{DecodeOpts, max_nesting, max_array, max_bytes}
use corecbor.Rfc8949.Scalars.{is_non_finite}
use corecbor.Rfc8949.Equal.{values_equal}
use corecbor.Rfc8949.Maps.{is_null}
use corecbor.Rfc8949.Decode.{is_known_tag}

-- No entry of `m` has a key that valuesEqual takes for `key`.
abbrev pub Fresh : List MapEntry → Value → Type 0
Fresh m key = All (λ e. values_equal e.key key ≡ false) m

-- A string of `n` bytes, or a container of `n` elements, within its limit.
abbrev pub Within : ℕ → ℕ → Type 0
Within limit n = (n ≤ limit) × IsU64 n

-- The option that rejects a class of items is off, or the item is not of that class.
abbrev pub Passes : Bool → Bool → Type 0
Passes reject bad = reject && bad ≡ false

unfoldable mutual
  -- The test for heads of the shortest form takes the bits of a float for an argument, too, so with
  -- that option the floats with small bits (+0.0 among them) are not let through.
  pub IsValid : DecodeOpts → ℕ → Value → Type 0
  IsValid o d invalid = ⊥
  IsValid o d (uint n) = IsU64 n
  IsValid o d (neg_int n) = IsU64 n
  IsValid o d (bytes b) = Within (max_bytes o) (length b)
  IsValid o d (text s) =
      Within (max_bytes o) (length s) × Passes o.reject_invalid_utf8 (not (valid_utf8 s))
  IsValid o d (array xs) =
      Within (max_array o) (count_items xs) × (d + 1 ≤ max_nesting o) × AreValid o (d + 1) xs
  IsValid o d (map ps) =
      Within (max_array o) (count_pairs ps) × (d + 1 ≤ max_nesting o) × ArePairs o (d + 1) [] ps
  IsValid o d (tag n nil) = ⊥
  IsValid o d (tag n (cons v nil)) =
      IsU64 n
      × Passes o.reject_unknown_tags (not (is_known_tag n))
      × (d + 1 ≤ max_nesting o)
      × IsValid o (d + 1) v
  IsValid o d (tag n (cons v (cons _ _))) = ⊥
  IsValid o d (bool b) = Unit
  IsValid o d null = Unit
  IsValid o d undefined = Unit
  IsValid o d (simple n) = (n < 20) ⊎ ((32 ≤ n) × (n < 256))
  IsValid o d (float32 f) =
      (f < 2 ^ 32)
      × Passes o.reject_non_finite_floats (is_non_finite (widen f))
      × Passes o.reject_non_shortest (leb f 0xffff)
  IsValid o d (float64 f) =
      IsU64 f
      × Passes o.reject_non_finite_floats (is_non_finite f)
      × Passes o.reject_non_shortest (leb f 0xffff_ffff)

  pub AreValid : DecodeOpts → ℕ → Items → Type 0
  AreValid o d nil = Unit
  AreValid o d (cons v xs) = IsValid o d v × AreValid o d xs

  -- `m` holds the entries in front.
  pub ArePairs : DecodeOpts → ℕ → List MapEntry → Pairs → Type 0
  ArePairs o d m end = Unit
  ArePairs o d m (entry k v ps) =
      IsValid o d k
      × Passes o.reject_null_map_keys (is_null k)
      × Fresh m k
      × IsValid o d v
      × ArePairs o d (m ++ (record { key = k; val = v } ∷ [])) ps

-- A value that Decode strips of its tag at the top.
abbrev pub is_self_described : Value → Bool
is_self_described (tag n _) = n == 55799
is_self_described _ = false

-- How deep a value nests.
unfoldable mutual
  pub height : Value → ℕ
  height (array xs) = suc (height_items xs)
  height (map ps) = suc (height_pairs ps)
  height (tag n nil) = 1
  height (tag n (cons v _)) = suc (height v)
  height _ = 0

  pub height_items : Items → ℕ
  height_items nil = 0
  height_items (cons v xs) = max (height v) (height_items xs)

  pub height_pairs : Pairs → ℕ
  height_pairs end = 0
  height_pairs (entry k v ps) = max (max (height k) (height v)) (height_pairs ps)
