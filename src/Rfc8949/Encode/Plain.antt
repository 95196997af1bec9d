-- ===== src/Rfc8949/Encode/Plain.antt =====
-- rfc8949/encode.go: the encoder outside deterministic mode, against the plain encoding.
use corecbor.Prelude.{
  ℕ, ◌%◌, ◌^◌, ◌<◌, ◌≡◌, ◌≢◌, refl, ap, ◌∙◌, true, false, ◌&&◌, not, List, ◌++◌, length,
  append_assoc, append-nil, arith,
}
use corecbor.Cbor.Value.{
  Value, Items, Pairs, invalid, uint, neg_int, bytes, text, array, map, tag, bool, null, undefined,
  float32, float64, simple, nil, cons, end, entry, count_items, count_pairs, is_zero,
}
use corecbor.Cbor.Utf8.{valid_utf8}
use corecbor.Wire.Float.{widen}
use corecbor.Wire.Float16.{append_float32, append_float64}
use corecbor.Wire.Head.{append_head, head_bytes}
use corecbor.Rfc8949.Options.{EncodeOpts, force64}
use corecbor.Rfc8949.Encode.{
  Encoded, ok, encode, encode_items, encode_pairs, encode_text, encode_simple, encode_float,
  encode_float32, encode_float64, item_in_place, key_in_place, val_in_place, or_else, is_non_finite,
  writes_in_order,
}
use corecbor.Rfc8949.Serial.{serialize, serialize_items, serialize_pairs}

-- The options under which nothing is sorted and no float is converted.
pub record IsPlain (opts : EncodeOpts) : Type 0 where
  pub in_order : opts.deterministic ≡ false
  pub same_floats : opts.float_mode ≢ force64

-- The values that the options let through.
unfoldable mutual
  pub IsEncodable : EncodeOpts → Value → Type 0
  IsEncodable o invalid = ⊥
  IsEncodable o (text s) =
      not o.allow_invalid_utf8 && (not o.skip_utf8_validation && not (valid_utf8 s)) ≡ false
  IsEncodable o (array xs) = AreEncodable o xs
  IsEncodable o (map ps) = ArePairsEncodable o ps
  IsEncodable o (tag n nil) = ⊥
  IsEncodable o (tag n (cons v _)) = IsEncodable o v
  IsEncodable o (simple n) = n < 256
  IsEncodable o (float32 f) =
      (f < 2 ^ 32) × (not o.allow_non_finite_floats && is_non_finite (widen f) ≡ false)
  IsEncodable o (float64 f) = not o.allow_non_finite_floats && is_non_finite f ≡ false
  IsEncodable o _ = Unit

  pub AreEncodable : EncodeOpts → Items → Type 0
  AreEncodable o nil = Unit
  AreEncodable o (cons v xs) = IsEncodable o v × AreEncodable o xs

  pub ArePairsEncodable : EncodeOpts → Pairs → Type 0
  ArePairsEncodable o end = Unit
  ArePairsEncodable o (entry k v ps) = IsEncodable o k × IsEncodable o v × ArePairsEncodable o ps

-- `r` wrote the plain encoding of `v` behind `dst`.
abbrev Writes : List ℕ → Value → Encoded → Type 0
Writes dst v r = r ≡ ok (dst ++ serialize v)

head_payload :
    (dst : List ℕ) (major n : ℕ) (b : List ℕ)
    → append_head dst major n ++ b ≡ dst ++ (head_bytes major n ++ b)
unfolding append_head
head_payload dst major n b = append_assoc dst (head_bytes major n) b

item_in_place-Writes :
    (dst : List ℕ) (v : Value) (r : Encoded)
    → Writes dst v r
    → Writes dst v (or_else (item_in_place dst v) r)
unfolding item_in_place serialize append_head
item_in_place-Writes dst (uint n) r h = refl
item_in_place-Writes dst (neg_int n) r h = refl
item_in_place-Writes dst (bool b) r h = refl
item_in_place-Writes dst null r h = refl
item_in_place-Writes dst (bytes b) r h = ap ok (head_payload dst 0x40 (length b) b)
item_in_place-Writes dst (text b) r h = ap ok (head_payload dst 0x60 (length b) b)
item_in_place-Writes dst _ r h = h

key_in_place-Writes :
    (dst : List ℕ) (v : Value) (r : Encoded)
    → Writes dst v r
    → Writes dst v (or_else (key_in_place dst v) r)
unfolding key_in_place serialize append_head
key_in_place-Writes dst (uint n) r h = refl
key_in_place-Writes dst (text b) r h = ap ok (head_payload dst 0x60 (length b) b)
key_in_place-Writes dst _ r h = h

val_in_place-Writes :
    (dst : List ℕ) (v : Value) (r : Encoded)
    → Writes dst v r
    → Writes dst v (or_else (val_in_place dst v) r)
unfolding val_in_place serialize append_head
val_in_place-Writes dst (uint n) r h = refl
val_in_place-Writes dst (bool b) r h = refl
val_in_place-Writes dst null r h = refl
val_in_place-Writes dst (bytes b) r h = ap ok (head_payload dst 0x40 (length b) b)
val_in_place-Writes dst (text b) r h = ap ok (head_payload dst 0x60 (length b) b)
val_in_place-Writes dst _ r h = h

float-Writes :
    (o : EncodeOpts) (dst : List ℕ) (f : ℕ) (plain : List ℕ)
    → IsPlain o
    → not o.allow_non_finite_floats && is_non_finite f ≡ false
    → encode_float o dst f plain ≡ ok plain
unfolding encode_float
float-Writes o dst f plain p h = ground (arith, p.in_order, p.same_floats)

writes_in_order-plain : (o : EncodeOpts) (n : ℕ) → IsPlain o → writes_in_order o n ≡ true
unfolding writes_in_order
writes_in_order-plain o n p = ground (arith, p.in_order)

encode-map_plain :
    (o : EncodeOpts) (dst : List ℕ) (ps : Pairs)
    → IsPlain o
    → encode o dst (map ps) ≡ encode_pairs o (append_head dst 0xa0 (count_pairs ps)) ps
unfolding encode
encode-map_plain o dst ps p = rw (writes_in_order-plain o (count_pairs ps) p, encode)

is_zero-Encodable : (o : EncodeOpts) (v : Value) → IsEncodable o v → is_zero v ≡ false
unfolding IsEncodable
is_zero-Encodable o invalid h = absurd h
is_zero-Encodable o (uint n) h = refl
is_zero-Encodable o _ h = refl

items_cons-Writes :
    (o : EncodeOpts) (dst : List ℕ) (v : Value) (xs : Items)
    → Writes dst v (encode o dst v)
    → encode_items o (dst ++ serialize v) xs ≡ ok ((dst ++ serialize v) ++ serialize_items xs)
    → encode_items o dst (cons v xs) ≡ ok (dst ++ (serialize v ++ serialize_items xs))
unfolding encode
items_cons-Writes o dst v xs h k =
    rw (item_in_place-Writes dst v (encode o dst v) h)
      (rw k (ap ok (append_assoc dst (serialize v) (serialize_items xs))))

pairs_entry-Writes :
    (o : EncodeOpts) (dst : List ℕ) (k v : Value) (ps : Pairs)
    → Writes dst k (encode o dst k)
    → Writes (dst ++ serialize k) v (encode o (dst ++ serialize k) v)
    → encode_pairs o ((dst ++ serialize k) ++ serialize v) ps
      ≡ ok (((dst ++ serialize k) ++ serialize v) ++ serialize_pairs ps)
    → encode_pairs o dst (entry k v ps)
      ≡ ok (dst ++ (serialize k ++ (serialize v ++ serialize_pairs ps)))
unfolding encode
pairs_entry-Writes o dst k v ps hk hv hps = rw (key_in_place-Writes dst k (encode o dst k) hk) (
    rw (val_in_place-Writes (dst ++ serialize k) v (encode o (dst ++ serialize k) v) hv)
      (rw hps (simp append_assoc)))

mutual
  unfolding encode serialize IsEncodable append_head encode_text encode_simple encode_float32
      encode_float64 append_float32 append_float64

  encode-Writes :
      (v : Value) (o : EncodeOpts) (dst : List ℕ)
      → IsPlain o
      → IsEncodable o v
      → Writes dst v (encode o dst v)
  encode-Writes invalid o dst p h = absurd h
  encode-Writes (uint n) o dst p h = refl
  encode-Writes (neg_int n) o dst p h = refl
  encode-Writes (bytes b) o dst p h = ap ok (head_payload dst 0x40 (length b) b)
  encode-Writes (text b) o dst p h = rw h (ap ok (head_payload dst 0x60 (length b) b))
  encode-Writes (array xs) o dst p h =
      items-Write xs o (append_head dst 0x80 (count_items xs)) p h
      ∙ ap ok (head_payload dst 0x80 (count_items xs) (serialize_items xs))
  encode-Writes (map ps) o dst p h =
      encode-map_plain o dst ps p
      ∙ (pairs-Write ps o (append_head dst 0xa0 (count_pairs ps)) p h
          ∙ ap ok (head_payload dst 0xa0 (count_pairs ps) (serialize_pairs ps)))
  encode-Writes (tag n nil) o dst p h = absurd h
  encode-Writes (tag n (cons v _)) o dst p h = rw (is_zero-Encodable o v h) (
      encode-Writes v o (append_head dst 0xc0 n) p h
      ∙ ap ok (head_payload dst 0xc0 n (serialize v)))
  encode-Writes (bool b) o dst p h = refl
  encode-Writes null o dst p h = refl
  encode-Writes undefined o dst p h = refl
  encode-Writes (simple n) o dst p h = ground arith
  encode-Writes (float32 f) o dst p h =
      let e : f % 2 ^ 32 ≡ f = omega arith in
      ap (encode_float32 o dst) e ∙ float-Writes o dst (widen f) (append_float32 dst f) p h.1
  encode-Writes (float64 f) o dst p h = float-Writes o dst f (append_float64 dst f) p h

  items-Write :
      (xs : Items) (o : EncodeOpts) (dst : List ℕ)
      → IsPlain o
      → AreEncodable o xs
      → encode_items o dst xs ≡ ok (dst ++ serialize_items xs)
  items-Write nil o dst p h = rw (append-nil dst)
  items-Write (cons v xs) o dst p h =
      items_cons-Writes o dst v xs (encode-Writes v o dst p h.0)
        (items-Write xs o (dst ++ serialize v) p h.1)

  pairs-Write :
      (ps : Pairs) (o : EncodeOpts) (dst : List ℕ)
      → IsPlain o
      → ArePairsEncodable o ps
      → encode_pairs o dst ps ≡ ok (dst ++ serialize_pairs ps)
  pairs-Write end o dst p h = rw (append-nil dst)
  pairs-Write (entry k v ps) o dst p h =
      pairs_entry-Writes o dst k v ps (encode-Writes k o dst p h.0)
        (encode-Writes v o (dst ++ serialize k) p h.1)
        (pairs-Write ps o ((dst ++ serialize k) ++ serialize v) p h.2)

-- Outside deterministic mode, and unless the float mode is FloatForce64, Encode appends the plain
-- encoding of the value to `dst`, for every value that the options let through.
pub encode-serialize :
    (o : EncodeOpts) (dst : List ℕ) (v : Value)
    → IsPlain o
    → IsEncodable o v
    → encode o dst v ≡ ok (dst ++ serialize v)
encode-serialize o dst v p h = encode-Writes v o dst p h
