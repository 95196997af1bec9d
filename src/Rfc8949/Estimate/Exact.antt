-- ===== src/Rfc8949/Estimate/Exact.antt =====
-- rfc8949/estimate.go: the estimate against the size of the plain encoding.
use corecbor.Prelude.{
  ℕ, ◌≡◌, refl, List, ◌++◌, length, length-append, arith, put_u16, put_u32, put_u64,
}
use corecbor.Cbor.Value.{
  Value, Items, Pairs, invalid, uint, neg_int, bytes, text, array, map, tag, bool, null, undefined,
  float32, float64, simple, nil, cons, end, entry, count_items, count_pairs,
}
use corecbor.Wire.Head.{head_bytes}
use corecbor.Rfc8949.Options.{EncodeOpts}
use corecbor.Rfc8949.Encode.{ok, encode}
use corecbor.Rfc8949.Encode.Plain.{
  IsPlain, IsEncodable, AreEncodable, ArePairsEncodable, encode-serialize,
}
use corecbor.Rfc8949.Serial.{serialize, serialize_items, serialize_pairs}
use corecbor.Rfc8949.Estimate.{head_size, estimate_size, estimate_items, estimate_pairs}

length-head : (major n : ℕ) → length (head_bytes major n) ≡ head_size n
unfolding head_bytes head_size put_u16 put_u32 put_u64
length-head major n = ground arith

mutual
  unfolding estimate_size serialize IsEncodable put_u32 put_u64

  size-estimate :
      (v : Value) (o : EncodeOpts) → IsEncodable o v → length (serialize v) ≡ estimate_size v
  size-estimate invalid o h = refl
  size-estimate (uint n) o h = length-head 0x00 n
  size-estimate (neg_int n) o h = length-head 0x20 n
  size-estimate (bytes b) o h =
      omega (arith, length-head 0x40 (length b), length-append (head_bytes 0x40 (length b)) b)
  size-estimate (text b) o h =
      omega (arith, length-head 0x60 (length b), length-append (head_bytes 0x60 (length b)) b)
  size-estimate (array xs) o h = omega (
    arith,
    length-head 0x80 (count_items xs),
    length-append (head_bytes 0x80 (count_items xs)) (serialize_items xs),
    items-estimate xs o h,
  )
  size-estimate (map ps) o h = omega (
    arith,
    length-head 0xa0 (count_pairs ps),
    length-append (head_bytes 0xa0 (count_pairs ps)) (serialize_pairs ps),
    pairs-estimate ps o h,
  )
  size-estimate (tag n nil) o h = absurd h
  size-estimate (tag n (cons v _)) o h = omega (
    arith,
    length-head 0xc0 n,
    length-append (head_bytes 0xc0 n) (serialize v),
    size-estimate v o h,
  )
  size-estimate (bool b) o h = refl
  size-estimate null o h = refl
  size-estimate undefined o h = refl
  size-estimate (simple n) o h = ground arith
  size-estimate (float32 f) o h = refl
  size-estimate (float64 f) o h = refl

  items-estimate :
      (xs : Items) (o : EncodeOpts)
      → AreEncodable o xs
      → length (serialize_items xs) ≡ estimate_items xs
  items-estimate nil o h = refl
  items-estimate (cons v xs) o h = omega (
    arith,
    length-append (serialize v) (serialize_items xs),
    size-estimate v o h.0,
    items-estimate xs o h.1,
  )

  pairs-estimate :
      (ps : Pairs) (o : EncodeOpts)
      → ArePairsEncodable o ps
      → length (serialize_pairs ps) ≡ estimate_pairs ps
  pairs-estimate end o h = refl
  pairs-estimate (entry k v ps) o h = omega (
    arith,
    length-append (serialize k) (serialize v ++ serialize_pairs ps),
    length-append (serialize v) (serialize_pairs ps),
    size-estimate k o h.0,
    size-estimate v o h.1,
    pairs-estimate ps o h.2,
  )

-- EstimateSize is exact outside deterministic mode, unless the float mode is FloatForce64: Encode succeeds with `dst` and as many bytes
-- more as were estimated, for every value that the options let through.
pub encode-estimate_size :
    (o : EncodeOpts) (dst : List ℕ) (v : Value)
    → IsPlain o
    → IsEncodable o v
    → (out : List ℕ) × (encode o dst v ≡ ok (dst ++ out)) × (length out ≡ estimate_size v)
encode-estimate_size o dst v p h = (serialize v, encode-serialize o dst v p h, size-estimate v o h)
