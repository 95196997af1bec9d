-- ===== src/Rfc8949/RoundTrip/Starts.antt =====
-- The first byte of an encoding.
use corecbor.Prelude.{
  ℕ, ◌%◌, ◌<◌, List, [], ◌∷◌, ◌++◌, arith, append_assoc, append-nil, length, ◌≤◌, true, false,
}
use corecbor.Cbor.Value.{
  Value, invalid, uint, neg_int, bytes, text, array, map, tag, bool, null, undefined, simple,
  float32, float64, nil, cons,
}
use corecbor.Wire.Head.{head_bytes}
use corecbor.Wire.Head.RoundTrip.{IsMajor, major_or}
use corecbor.Rfc8949.Options.{DecodeOpts}
use corecbor.Rfc8949.Serial.{serialize}
use corecbor.Rfc8949.Valid.{IsValid}

abbrev pub StartsByte : List ℕ → Type 0
StartsByte [] = ⊥
StartsByte (b ∷ _) = b < 256

starts-head :
    (major arg : ℕ) (tl : List ℕ) → IsMajor major → StartsByte (head_bytes major arg ++ tl)
unfolding head_bytes
starts-head major arg tl h = ground (
  arith,
  major_or major (arg % 256) h,
  major_or major 24 h,
  major_or major 25 h,
  major_or major 26 h,
  major_or major 27 h,
)

starts-payload :
    (major arg : ℕ) (b tl : List ℕ) → IsMajor major → StartsByte ((head_bytes major arg ++ b) ++ tl)
starts-payload major arg b tl h =
    rw (append_assoc (head_bytes major arg) b tl) (starts-head major arg (b ++ tl) h)

pub serialize-StartsByte :
    (o : DecodeOpts) (d : ℕ) (v : Value) (tl : List ℕ)
    → IsValid o d v
    → StartsByte (serialize v ++ tl)
unfolding serialize IsValid
serialize-StartsByte o d invalid tl h = absurd h
serialize-StartsByte o d (uint n) tl h = starts-head 0x00 n tl (omega arith)
serialize-StartsByte o d (neg_int n) tl h = starts-head 0x20 n tl (omega arith)
serialize-StartsByte o d (bytes b) tl h = starts-payload 0x40 _ b tl (omega arith)
serialize-StartsByte o d (text b) tl h = starts-payload 0x60 _ b tl (omega arith)
serialize-StartsByte o d (array xs) tl h = starts-payload 0x80 _ _ tl (omega arith)
serialize-StartsByte o d (map ps) tl h = starts-payload 0xa0 _ _ tl (omega arith)
serialize-StartsByte o d (tag n nil) tl h = absurd h
serialize-StartsByte o d (tag n (cons v nil)) tl h = starts-payload 0xc0 n _ tl (omega arith)
serialize-StartsByte o d (tag n (cons v (cons _ _))) tl h = absurd h
serialize-StartsByte o d (bool true) tl h = omega arith
serialize-StartsByte o d (bool false) tl h = omega arith
serialize-StartsByte o d null tl h = omega arith
serialize-StartsByte o d undefined tl h = omega arith
serialize-StartsByte o d (simple n) tl h = ground (arith, major_or 0xe0 n)
serialize-StartsByte o d (float32 f) tl h = omega arith
serialize-StartsByte o d (float64 f) tl h = omega arith

pub serialize_pos : (o : DecodeOpts) (d : ℕ) (v : Value) → IsValid o d v → 1 ≤ length (serialize v)
serialize_pos o d v h =
    by (serialize v) (rw (← append-nil (serialize v)) (serialize-StartsByte o d v [] h))
  where
    by : (l : List ℕ) → StartsByte l → 1 ≤ length l
    by [] k = absurd k
    by (x ∷ l) k = omega arith
