-- ===== src/Rfc8949/RoundTrip/Whole.antt =====
-- Decode after Encode.
use corecbor.Prelude.{
  ℕ, suc, ◌≤◌, ◌≡◌, subst, true, false, List, [], ◌++◌, length, length-append, arith, append-nil,
  none, put_u16, put_u32, put_u64,
}
use corecbor.Cbor.Value.{Value, Items, Pairs, array, map, tag, nil, cons, end, entry}
use corecbor.Wire.Head.{head_bytes}
use corecbor.Rfc8949.Options.{EncodeOpts, DecodeOpts, max_bytes}
use corecbor.Rfc8949.Encode.{Encoded, encode}
use corecbor.Rfc8949.Encode
use corecbor.Rfc8949.Encode.Plain.{IsPlain, IsEncodable, encode-serialize}
use corecbor.Rfc8949.State.{ok}
use corecbor.Rfc8949.Decode.{decode}
use corecbor.Rfc8949.Serial.{serialize, serialize_items, serialize_pairs}
use corecbor.Rfc8949.Valid.{IsValid, is_self_described, height, height_items, height_pairs}
use corecbor.Rfc8949.RoundTrip.Heads.{at}
use corecbor.Rfc8949.RoundTrip.Values.{value-reads}

head_pos : (major n : ℕ) → 1 ≤ length (head_bytes major n)
unfolding head_bytes put_u16 put_u32 put_u64
head_pos major n = ground arith

head-size : (major n : ℕ) (b : List ℕ) → suc (length b) ≤ length (head_bytes major n ++ b)
head-size major n b = omega (arith, head_pos major n, length-append (head_bytes major n) b)

-- Each level of nesting takes a byte.
mutual
  unfolding height serialize

  pub height-size : (v : Value) → height v ≤ length (serialize v)
  height-size (array xs) =
      omega (arith, head-size 0x80 _ (serialize_items xs), items_height-size xs)
  height-size (map ps) = omega (arith, head-size 0xa0 _ (serialize_pairs ps), pairs_height-size ps)
  height-size (tag n nil) = omega (arith, head_pos 0xc0 n)
  height-size (tag n (cons v _)) = omega (arith, head-size 0xc0 n (serialize v), height-size v)
  height-size _ = omega arith

  pub items_height-size : (xs : Items) → height_items xs ≤ length (serialize_items xs)
  items_height-size nil = omega arith
  items_height-size (cons v xs) =
      omega (
        arith,
        height-size v,
        items_height-size xs,
        length-append (serialize v) (serialize_items xs),
      )

  pub pairs_height-size : (ps : Pairs) → height_pairs ps ≤ length (serialize_pairs ps)
  pairs_height-size end = omega arith
  pairs_height-size (entry k v ps) = omega (
    arith,
    height-size k,
    height-size v,
    pairs_height-size ps,
    length-append (serialize k) (serialize v ++ serialize_pairs ps),
    length-append (serialize v) (serialize_pairs ps),
  )

-- Decode reads the plain encoding of a value back from the front of any source, and stops behind it:
-- for every value that its options let through and that has no self-describe tag in front, without a
-- memory budget, and with strings of 23 bytes allowed.
pub decode-serialize :
    (o : DecodeOpts) (v : Value) (tl : List ℕ)
    → 23 ≤ max_bytes o
    → IsValid o 0 v
    → is_self_described v ≡ false
    → decode (serialize v ++ tl) o none ≡ ok v (at tl)
unfolding decode
decode-serialize o v tl hb hv c =
    value-reads v o 0 (length (serialize v ++ tl)) true tl hb hv
      (omega (arith, height-size v, length-append (serialize v) tl)) c

-- What Encode writes outside deterministic mode, Decode gives back: the same value, with nothing
-- left, for every value that both sides' options let through and that has no self-describe tag in
-- front, without a memory budget, and with strings of 23 bytes allowed.
pub decode-encode :
    (e : EncodeOpts) (o : DecodeOpts) (v : Value)
    → IsPlain e
    → IsEncodable e v
    → 23 ≤ max_bytes o
    → IsValid o 0 v
    → is_self_described v ≡ false
    → (src : List ℕ) × (encode e [] v ≡ Encode.ok src) × (decode src o none ≡ ok v (at []))
decode-encode e o v p h hb hv c = (
  serialize v,
  encode-serialize e [] v p h,
  subst (λ src. decode src o none ≡ ok v (at [])) (append-nil (serialize v))
      (decode-serialize o v [] hb hv c),
)
