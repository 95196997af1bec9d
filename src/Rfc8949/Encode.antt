-- ===== src/Rfc8949/Encode.antt =====
-- rfc8949/encode.go: the encoder. The bytes written so far are passed on as `dst`.
pub mod Plain
pub mod Canonical
pub mod Unchecked
use Prim.Native.Nat.{Ordering}
use corecbor.Prelude.{
  ℕ, ◌%◌, ◌^◌, Bool, true, false, ◌&&◌, ◌||◌, not, List, [], ◌∷◌, ◌++◌, Option, none, some, ltb,
  leb, if◌then◌else◌, length, bit_or,
}
use corecbor.Cbor.Value.{
  Value, Items, Pairs, invalid, uint, neg_int, bytes, text, array, map, tag, bool, null, undefined,
  float32, float64, simple, nil, cons, end, entry, count_items, count_pairs, is_zero,
}
use corecbor.Cbor.Error.{Error, nil_value, invalid_utf8, non_finite_float}
use corecbor.Cbor.Utf8.{valid_utf8}
use corecbor.Wire.Float.{is_nan64, is_inf64, widen, narrow}
use corecbor.Wire.Float16.{
  encode_float16, can_float32_lossless, append_float16, append_float32, append_float64,
}
use corecbor.Wire.Head.{
  append_head, major_uint, major_neg_int, major_bytes, major_text, major_array, major_map,
  major_tag, major_other, simple_false, simple_true, simple_null, simple_undefined, simple_one_byte,
}
use corecbor.Rfc8949.Options.{EncodeOpts, shortest, preserve, force64}
use corecbor.Rfc8949.Order.{compare_keys, sort}

-- Go's ([]byte, error): on an error too, what was written so far is returned.
pub data Encoded : Type 0 where
  ok : List ℕ → Encoded
  err : Error → List ℕ → Encoded

abbrev pub bind : Encoded → (List ℕ → Encoded) → Encoded
bind (ok d) f = f d
bind (err e d) f = err e d

unfoldable pub append_shortest_float : List ℕ → ℕ → List ℕ
append_shortest_float dst f = elim (encode_float16 f) [
  | some bits ↦ append_float16 dst bits
  | none ↦ if can_float32_lossless f then append_float32 dst (narrow f) else append_float64 dst f
]

abbrev pub is_non_finite : ℕ → Bool
is_non_finite f = is_nan64 f || is_inf64 f

-- The switch over FloatMode; `plain` is what each default branch appends.
unfoldable pub encode_float : EncodeOpts → List ℕ → ℕ → List ℕ → Encoded
unfolding append_shortest_float
encode_float opts dst f plain =
    if not opts.allow_non_finite_floats && is_non_finite f
    then err non_finite_float dst
    else elim opts.float_mode [
      | force64 ↦ ok (append_float64 dst f)
      | shortest ↦ if opts.deterministic then ok (append_shortest_float dst f) else ok plain
      | preserve ↦ ok plain
    ]

unfoldable pub encode_float32 : EncodeOpts → List ℕ → ℕ → Encoded
unfolding encode_float
encode_float32 opts dst val = encode_float opts dst (widen val) (append_float32 dst val)

unfoldable pub encode_float64 : EncodeOpts → List ℕ → ℕ → Encoded
unfolding encode_float
encode_float64 opts dst val = encode_float opts dst val (append_float64 dst val)

abbrev pub bool_byte : Bool → ℕ
bool_byte b = if b then simple_true else simple_false

unfoldable pub encode_text : EncodeOpts → List ℕ → List ℕ → Encoded
encode_text opts dst s =
    if not opts.allow_invalid_utf8 && (not opts.skip_utf8_validation && not (valid_utf8 s))
    then err invalid_utf8 dst
    else ok (append_head dst major_text (length s) ++ s)

-- `sv := uint8(v.Num)`
unfoldable pub encode_simple : List ℕ → ℕ → List ℕ
encode_simple dst sv =
    if ltb sv 24 then dst ++ (bit_or major_other sv ∷ []) else dst ++ (simple_one_byte ∷ sv ∷ [])

-- The cases that encodeArray's loop, encodeMap's keys and encodeMap's values write in place; `none`
-- is the default branch.
unfoldable pub item_in_place : List ℕ → Value → Option (List ℕ)
item_in_place dst (uint n) = some (append_head dst major_uint n)
item_in_place dst (neg_int n) = some (append_head dst major_neg_int n)
item_in_place dst (bool b) = some (dst ++ (bool_byte b ∷ []))
item_in_place dst null = some (dst ++ (simple_null ∷ []))
item_in_place dst (bytes b) = some (append_head dst major_bytes (length b) ++ b)
item_in_place dst (text s) = some (append_head dst major_text (length s) ++ s)
item_in_place dst _ = none

unfoldable pub key_in_place : List ℕ → Value → Option (List ℕ)
key_in_place dst (text s) = some (append_head dst major_text (length s) ++ s)
key_in_place dst (uint n) = some (append_head dst major_uint n)
key_in_place dst _ = none

unfoldable pub val_in_place : List ℕ → Value → Option (List ℕ)
val_in_place dst (uint n) = some (append_head dst major_uint n)
val_in_place dst (text s) = some (append_head dst major_text (length s) ++ s)
val_in_place dst (bytes b) = some (append_head dst major_bytes (length b) ++ b)
val_in_place dst (bool b) = some (dst ++ (bool_byte b ∷ []))
val_in_place dst null = some (dst ++ (simple_null ∷ []))
val_in_place dst _ = none

abbrev pub or_else : Option (List ℕ) → Encoded → Encoded
or_else (some d) r = ok d
or_else none r = r

-- An encoded key, and the encoding of the value at its index.
pub record SortEntry : Type 0 where
  pub key : List ℕ
  pub val : List ℕ → Encoded

pub data Keys : Type 0 where
  keys : List SortEntry → Keys
  bad_key : Error → Keys

abbrev pub add_entry : Encoded → (List ℕ → Encoded) → Keys → Keys
add_entry (err e _) val more = bad_key e
add_entry (ok k) val (keys es) = keys (record { key = k; val = val } ∷ es)
add_entry (ok k) val (bad_key e) = bad_key e

unfoldable pub compare_entries : EncodeOpts → SortEntry → SortEntry → Ordering
unfolding compare_keys
compare_entries opts a b = compare_keys opts.sort_mode a.key b.key

unfoldable pub write_entries : List ℕ → List SortEntry → Encoded
write_entries dst [] = ok dst
write_entries dst (e ∷ es) = bind (e.val (dst ++ e.key)) λ d. write_entries d es

-- The deterministic half of encodeMap, behind the loop that encodes the keys.
unfoldable pub write_sorted : EncodeOpts → List ℕ → Keys → Encoded
unfolding compare_entries sort write_entries
write_sorted opts dst (bad_key e) = err e dst
write_sorted opts dst (keys es) = write_entries dst (sort (compare_entries opts) es)

-- The test of encodeMap for the loop that writes the entries in the order they have.
unfoldable pub writes_in_order : EncodeOpts → ℕ → Bool
writes_in_order opts n = not opts.deterministic || leb n 1

unfoldable mutual
  pub encode : EncodeOpts → List ℕ → Value → Encoded
  encode opts dst invalid = err nil_value dst
  encode opts dst (uint n) = ok (append_head dst major_uint n)
  encode opts dst (neg_int n) = ok (append_head dst major_neg_int n)
  encode opts dst (bytes b) = ok (append_head dst major_bytes (length b) ++ b)
  encode opts dst (text s) = encode_text opts dst s
  encode opts dst (array xs) = encode_items opts (append_head dst major_array (count_items xs)) xs
  encode opts dst (map ps) = elim (writes_in_order opts (count_pairs ps)) [
    | true ↦ encode_pairs opts (append_head dst major_map (count_pairs ps)) ps
    | false ↦ write_sorted opts (append_head dst major_map (count_pairs ps)) (encode_keys opts ps)
  ]
  encode opts dst (tag n nil) = err nil_value dst
  encode opts dst (tag n (cons v _)) =
      if is_zero v then err nil_value dst else encode opts (append_head dst major_tag n) v
  encode opts dst (bool b) = ok (dst ++ (bool_byte b ∷ []))
  encode opts dst null = ok (dst ++ (simple_null ∷ []))
  encode opts dst undefined = ok (dst ++ (simple_undefined ∷ []))
  encode opts dst (simple n) = ok (encode_simple dst (n % 256))
  encode opts dst (float32 f) = encode_float32 opts dst (f % 2 ^ 32)
  encode opts dst (float64 f) = encode_float64 opts dst f

  pub encode_items : EncodeOpts → List ℕ → Items → Encoded
  encode_items opts dst nil = ok dst
  encode_items opts dst (cons v xs) =
      bind (or_else (item_in_place dst v) (encode opts dst v)) λ d. encode_items opts d xs

  -- Behind the head of the map.
  pub encode_pairs : EncodeOpts → List ℕ → Pairs → Encoded
  encode_pairs opts dst end = ok dst
  encode_pairs opts dst (entry k v ps) =
      bind (or_else (key_in_place dst k) (encode opts dst k))
        λ d. bind (or_else (val_in_place d v) (encode opts d v)) λ d'. encode_pairs opts d' ps

  pub encode_keys : EncodeOpts → Pairs → Keys
  encode_keys opts end = keys []
  encode_keys opts (entry k v ps) =
      add_entry (encode opts [] k) (λ d. encode opts d v) (encode_keys opts ps)
