-- ===== src/Edhoc/Message/Values.antt =====
-- edhoc/message.go: the values that messages are made of, written by cborEncodeValue and read back by
-- decodeOneValue.
use corecbor.Prelude.{
  ℕ, suc, ◌*◌, ◌^◌, ◌≤◌, ◌≡◌, refl, ap, ◌∙◌, false, List, [], ◌∷◌, ◌++◌, length, length-append,
  append_assoc, append-nil, All, IsU64, arith, none,
}
use corecbor.Cbor.Value.{
  Value, Items, uint, bytes, text, array, map, nil, cons, end, entry, count_items,
}
use corecbor.Wire.Head.{append_head, head_bytes}
use corecbor.Rfc8949.Options.{max_bytes, max_array, max_nesting}
use corecbor.Rfc8949.Encode.{
  encode, encode_items, encode_text, item_in_place, key_in_place, val_in_place, writes_in_order,
}
use corecbor.Rfc8949.Encode
use corecbor.Rfc8949.State.{State}
use corecbor.Rfc8949.State
use corecbor.Rfc8949.Serial.{serialize, serialize_items}
use corecbor.Rfc8949.Valid.{IsValid, AreValid, is_self_described}
use corecbor.Rfc8949.RoundTrip.Heads.{at}
use corecbor.Rfc8949.RoundTrip.Whole.{decode-serialize}
use corecbor.Rfc8949.Decode.{decode}
use corecbor.Codec.{zero_decode_opts}
use corecbor.Rfc8949.RoundTrip.Starts.{serialize_pos}
use corecbor.Edhoc.Result.{ok}
use corecbor.Edhoc.Message.{enc_opts, encode_value, decode_one_value, uints, from_outcome}

-- The most bytes that a string may have under the default options.
abbrev pub most_bytes : ℕ
most_bytes = 16 * 2 ^ 20

-- cborEncodeValue appends the plain encoding of the value, and decodeOneValue lets it through.
pub record Carried (v : Value) : Type 0 where
  pub writes : (buf : List ℕ) → encode_value buf v ≡ ok (buf ++ serialize v)
  pub valid : IsValid zero_decode_opts 0 v
  pub plain : is_self_described v ≡ false

pub decode_one_value-Carried :
    (v : Value) (tl : List ℕ) → Carried v → decode_one_value (serialize v ++ tl) ≡ ok (v, tl)
unfolding decode_one_value
decode_one_value-Carried v tl c =
    by (serialize v ++ tl)
      (omega (arith, serialize_pos zero_decode_opts 0 v c.valid, length-append (serialize v) tl))
      (decode-serialize zero_decode_opts v tl (unfold max_bytes in omega arith) c.valid c.plain)
  where
    by :
        (l : List ℕ)
        → 1 ≤ length l
        → decode l zero_decode_opts none ≡ State.ok v (at tl)
        → decode_one_value l ≡ ok (v, tl)
    by [] q e = absurd (omega arith)
    by (x ∷ l) q e = ap from_outcome e

pub uint-Carried : (n : ℕ) → IsU64 n → Carried (uint n)
unfolding encode_value encode serialize append_head IsValid
uint-Carried n h = record { writes = λ buf. refl; valid = h; plain = refl }

pub bytes-Carried : (b : List ℕ) → length b ≤ most_bytes → Carried (bytes b)
unfolding encode_value encode serialize append_head IsValid max_bytes
bytes-Carried b h = record {
  writes = λ buf. ap ok (append_assoc buf (head_bytes 0x40 (length b)) b);
  valid = (h, omega (arith, h));
  plain = refl;
}

-- The items of arrays that are written in place.
unfoldable pub AreLeaves : Items → Type 0
AreLeaves nil = Unit
AreLeaves (cons (uint n) xs) = AreLeaves xs
AreLeaves (cons (bytes b) xs) = AreLeaves xs
AreLeaves (cons (text s) xs) = AreLeaves xs
AreLeaves (cons _ xs) = ⊥

leaves-serialize :
    (buf : List ℕ) (xs : Items)
    → AreLeaves xs
    → encode_items enc_opts buf xs ≡ Encode.ok (buf ++ serialize_items xs)
unfolding encode serialize item_in_place append_head AreLeaves
leaves-serialize buf nil h = rw (append-nil buf)
leaves-serialize buf (cons (uint n) xs) h =
    leaves-serialize (buf ++ head_bytes 0 n) xs h
    ∙ ap Encode.ok (append_assoc buf (head_bytes 0 n) (serialize_items xs))
leaves-serialize buf (cons (bytes b) xs) h =
    leaves-serialize ((buf ++ head_bytes 0x40 (length b)) ++ b) xs h
    ∙ ap Encode.ok (simp append_assoc)
leaves-serialize buf (cons (text b) xs) h =
    leaves-serialize ((buf ++ head_bytes 0x60 (length b)) ++ b) xs h
    ∙ ap Encode.ok (simp append_assoc)
leaves-serialize buf (cons _ xs) h = absurd h

pub encode_value-array :
    (buf : List ℕ) (xs : Items)
    → AreLeaves xs
    → encode_value buf (array xs) ≡ ok (buf ++ serialize (array xs))
unfolding encode_value encode serialize append_head
encode_value-array buf xs h =
    rw (leaves-serialize (buf ++ head_bytes 0x80 (count_items xs)) xs h)
      (ap ok (append_assoc buf (head_bytes 0x80 (count_items xs)) (serialize_items xs)))

uints-AreLeaves : (ss : List ℕ) → AreLeaves (uints ss)
unfolding AreLeaves
uints-AreLeaves [] = tt
uints-AreLeaves (s ∷ ss) = uints-AreLeaves ss

uints-AreValid : (ss : List ℕ) → All IsU64 ss → AreValid zero_decode_opts 1 (uints ss)
unfolding IsValid
uints-AreValid [] h = tt
uints-AreValid (s ∷ ss) h = (h.0, uints-AreValid ss h.1)

count_items-uints : (ss : List ℕ) → count_items (uints ss) ≡ length ss
count_items-uints [] = refl
count_items-uints (s ∷ ss) = ap suc (count_items-uints ss)

pub uints-Carried : (ss : List ℕ) → All IsU64 ss → length ss ≤ 2 ^ 20 → Carried (array (uints ss))
unfolding IsValid max_array max_nesting
uints-Carried ss h k = record {
  writes = λ buf. encode_value-array buf (uints ss) (uints-AreLeaves ss);
  valid = (
    (omega (arith, k, count_items-uints ss), omega (arith, k, count_items-uints ss)),
    omega arith,
    uints-AreValid ss h,
  );
  plain = refl;
}

-- A map from a small integer to a byte string.
pub entry-Carried :
    (n : ℕ) (b : List ℕ)
    → IsU64 n
    → length b ≤ most_bytes
    → Carried (map (entry (uint n) (bytes b) end))
unfolding encode_value encode serialize append_head IsValid max_bytes max_array max_nesting
    key_in_place val_in_place writes_in_order
entry-Carried n b u h = record {
  writes = λ buf. ap ok (simp (append_assoc, append-nil));
  valid = ((omega arith, omega arith), omega arith, (u, refl, tt, (h, omega (arith, h)), tt));
  plain = refl;
}
