-- ===== src/Rfc8949/Serial.antt =====
-- The encoding of RFC 8949 with heads of the shortest form and definite lengths, as a plain function
-- of the value: what the encoder is to write when no option changes the value.
use corecbor.Prelude.{ℕ, List, [], ◌∷◌, ◌++◌, ltb, if◌then◌else◌, length, bit_or, put_u32, put_u64}
use corecbor.Cbor.Value.{
  Value, Items, Pairs, invalid, uint, neg_int, bytes, text, array, map, tag, bool, null, undefined,
  float32, float64, simple, nil, cons, end, entry, count_items, count_pairs,
}
use corecbor.Wire.Head.{
  head_bytes, major_uint, major_neg_int, major_bytes, major_text, major_array, major_map, major_tag,
  major_other, simple_false, simple_true, simple_null, simple_undefined, simple_one_byte,
  float32_marker, float64_marker,
}

unfoldable mutual
  pub serialize : Value → List ℕ
  serialize invalid = []
  serialize (uint n) = head_bytes major_uint n
  serialize (neg_int n) = head_bytes major_neg_int n
  serialize (bytes b) = head_bytes major_bytes (length b) ++ b
  serialize (text s) = head_bytes major_text (length s) ++ s
  serialize (array xs) = head_bytes major_array (count_items xs) ++ serialize_items xs
  serialize (map ps) = head_bytes major_map (count_pairs ps) ++ serialize_pairs ps
  serialize (tag n nil) = head_bytes major_tag n
  serialize (tag n (cons v _)) = head_bytes major_tag n ++ serialize v
  serialize (bool b) = (if b then simple_true else simple_false) ∷ []
  serialize null = simple_null ∷ []
  serialize undefined = simple_undefined ∷ []
  serialize (simple n) = if ltb n 24 then bit_or major_other n ∷ [] else simple_one_byte ∷ n ∷ []
  serialize (float32 f) = float32_marker ∷ put_u32 f
  serialize (float64 f) = float64_marker ∷ put_u64 f

  pub serialize_items : Items → List ℕ
  serialize_items nil = []
  serialize_items (cons v xs) = serialize v ++ serialize_items xs

  pub serialize_pairs : Pairs → List ℕ
  serialize_pairs end = []
  serialize_pairs (entry k v ps) = serialize k ++ (serialize v ++ serialize_pairs ps)
