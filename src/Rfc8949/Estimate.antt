-- ===== src/Rfc8949/Estimate.antt =====
-- rfc8949/estimate.go: the size of an encoding, from the value alone.
pub mod Exact
use corecbor.Prelude.{ℕ, ◌+◌, ◌%◌, ltb, leb, if◌then◌else◌, length}
use corecbor.Cbor.Value.{
  Value, Items, Pairs, invalid, uint, neg_int, bytes, text, array, map, tag, bool, null, undefined,
  float32, float64, simple, nil, cons, end, entry, count_items, count_pairs,
}

unfoldable pub head_size : ℕ → ℕ
head_size arg =
    if ltb arg 24
    then 1
    else if leb arg 0xff
    then 2
    else if leb arg 0xffff
    then 3
    else if leb arg 0xffff_ffff
    then 5
    else 9

unfoldable mutual
  pub estimate_size : Value → ℕ
  estimate_size invalid = 0
  estimate_size (uint n) = head_size n
  estimate_size (neg_int n) = head_size n
  estimate_size (bytes b) = head_size (length b) + length b
  estimate_size (text s) = head_size (length s) + length s
  estimate_size (array xs) = head_size (count_items xs) + estimate_items xs
  estimate_size (map ps) = head_size (count_pairs ps) + estimate_pairs ps
  estimate_size (tag n nil) = head_size n
  estimate_size (tag n (cons v _)) = head_size n + estimate_size v
  estimate_size (bool b) = 1
  estimate_size null = 1
  estimate_size undefined = 1
  estimate_size (simple n) = if ltb (n % 256) 24 then 1 else 2
  estimate_size (float32 f) = 5
  estimate_size (float64 f) = 9

  pub estimate_items : Items → ℕ
  estimate_items nil = 0
  estimate_items (cons v xs) = estimate_size v + estimate_items xs

  pub estimate_pairs : Pairs → ℕ
  estimate_pairs end = 0
  estimate_pairs (entry k v ps) = estimate_size k + estimate_size v + estimate_pairs ps
