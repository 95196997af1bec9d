-- ===== src/Rfc8949/Cursor/Keys.antt =====
-- rfc8949/cursor.go: the test of FindMapKey at the encoding of a key.
use corecbor.Prelude.{
  ℕ, ◌+◌, ◌-◌, ◌^◌, ◌<◌, ◌≡◌, refl, ap, ◌∙◌, Bool, true, false, List, ◌++◌, append_assoc, ltb, ◌==◌,
  if◌then◌else◌, length, length-append, take, drop, take-length_append, arith, IsU64, inl, inr,
  put_u32, put_u64,
}
use corecbor.Cbor.Value.{
  Value, invalid, uint, neg_int, bytes, text, array, map, tag, bool, null, undefined, float32,
  float64, simple, nil, cons, count_items, count_pairs,
}
use corecbor.Wire.Head.{HeadResult, head_bytes, parse_head, parse_arg, arg_1, arg_4, arg_8}
use corecbor.Wire.Head.RoundTrip.{IsMajor, head_width, parse_head-head_bytes, parse_head-join}
use corecbor.Rfc8949.Equal.{same_bytes}
use corecbor.Rfc8949.Options.{DecodeOpts}
use corecbor.Rfc8949.Serial.{serialize, serialize_items, serialize_pairs}
use corecbor.Rfc8949.Valid.{IsValid}
use corecbor.Rfc8949.RoundTrip.Heads.{length-head_bytes}
use corecbor.Rfc8949.Skip.{int_add, int_ltb, is_negative}
use corecbor.Rfc8949.Skip.Places.{Here, int_add-Here, head_info-definite}
use corecbor.Rfc8949.Skip.Whole.{inside}
use corecbor.Rfc8949.Cursor.{KeyTest, same_key, other_key, test_key}

-- An item that is no text, by its head.
abbrev IsOther : HeadResult → Type 0
IsOther h = ((h.n == 0) ≡ false) × ((h.major == 0x60) ≡ false)

head-IsOther :
    (major arg : ℕ) (rest : List ℕ)
    → IsMajor major
    → IsU64 arg
    → (major == 0x60) ≡ false
    → IsOther (parse_head (head_bytes major arg ++ rest))
head-IsOther major arg rest m u k =
    let some_bytes : (head_width arg == 0) ≡ false = ground arith in
    rw (parse_head-head_bytes major arg rest m u, k, some_bytes) (refl, refl)

content-IsOther :
    (major arg : ℕ) (b rest : List ℕ)
    → IsMajor major
    → IsU64 arg
    → (major == 0x60) ≡ false
    → IsOther (parse_head ((head_bytes major arg ++ b) ++ rest))
content-IsOther major arg b rest m u k =
    rw (append_assoc (head_bytes major arg) b rest) (head-IsOther major arg (b ++ rest) m u k)

abbrev is_text : Value → Bool
is_text (text t) = true
is_text _ = false

serialize-IsOther :
    (o : DecodeOpts) (d : ℕ) (v : Value) (rest : List ℕ)
    → IsValid o d v
    → is_text v ≡ false
    → IsOther (parse_head (serialize v ++ rest))
unfolding serialize IsValid parse_head parse_arg arg_1 arg_4 arg_8 put_u32 put_u64
serialize-IsOther o d invalid rest h k = absurd h
serialize-IsOther o d (uint n) rest h k = head-IsOther 0x00 n rest (omega arith) h refl
serialize-IsOther o d (neg_int n) rest h k = head-IsOther 0x20 n rest (omega arith) h refl
serialize-IsOther o d (bytes b) rest h k =
    content-IsOther 0x40 (length b) b rest (omega arith) h.1 refl
serialize-IsOther o d (text b) rest h k = cc (k)
serialize-IsOther o d (array xs) rest h k =
    content-IsOther 0x80 (count_items xs) (serialize_items xs) rest (omega arith) h.0.1 refl
serialize-IsOther o d (map ps) rest h k =
    content-IsOther 0xa0 (count_pairs ps) (serialize_pairs ps) rest (omega arith) h.0.1 refl
serialize-IsOther o d (tag n nil) rest h k = absurd h
serialize-IsOther o d (tag n (cons v nil)) rest h k =
    content-IsOther 0xc0 n (serialize v) rest (omega arith) h.0 refl
serialize-IsOther o d (tag n (cons v (cons _ _))) rest h k = absurd h
serialize-IsOther o d (bool true) rest h k = (refl, refl)
serialize-IsOther o d (bool false) rest h k = (refl, refl)
serialize-IsOther o d null rest h k = (refl, refl)
serialize-IsOther o d undefined rest h k = (refl, refl)
serialize-IsOther o d (simple n) rest (inl h) k =
    let short : ltb n 24 ≡ true = ground arith in
    rw (short, parse_head-join 0xe0 n rest (omega arith) (omega arith), short) (refl, refl)
serialize-IsOther o d (simple n) rest (inr h) k =
    let long : ltb n 24 ≡ false = ground arith in rw long (refl, refl)
serialize-IsOther o d (float32 f) rest h k = (refl, refl)
serialize-IsOther o d (float64 f) rest h k = (refl, refl)

module _ (key : List ℕ) where
  -- The key at a position: a text, or no text.
  abbrev pub key_test : ℕ → Value → KeyTest
  key_test p (text t) =
      if same_bytes t key then same_key (p + length (serialize (text t))) else other_key
  key_test p _ = other_key

  module _ (src : List ℕ) (small : length src < 2 ^ 63) (p : ℕ) (rest : List ℕ) where
    test_key-text :
        (t : List ℕ)
        → IsU64 (length t)
        → Here src p (serialize (text t) ++ rest)
        → (((parse_head (serialize (text t) ++ rest)).n == 0) ≡ false)
          × (test_key src p (parse_head (serialize (text t) ++ rest)) key ≡ key_test p (text t))
    unfolding serialize test_key
    test_key-text t u h =
        let n = length t in
        let whole = head_bytes 0x60 n ++ t in
        let size : length whole ≡ head_width n + n =
          length-append (head_bytes 0x60 n) t ∙ ap (λ m. m + n) (length-head_bytes 0x60 n) in
        let room = length-append whole rest in
        let some_bytes : (head_width n == 0) ≡ false = ground arith in
        let start : int_add p (head_width n) ≡ p + head_width n =
          int_add-Here src small p (head_width n) (whole ++ rest) h (omega (arith, size, room)) in
        let stop : int_add (p + head_width n) n ≡ p + head_width n + n =
          omega (arith, h.0, size, room, small) in
        let inside_source : int_ltb (length src) (p + head_width n + n) ≡ false =
          ground (arith, h.0, size, room) in
        let positive : is_negative (p + head_width n + n) ≡ false =
          ground (arith, h.0, size, room) in
        let forward : ltb (p + head_width n + n) (p + head_width n) ≡ false = ground arith in
        let count : p + head_width n + n - (p + head_width n) ≡ n = omega arith in
        let payload : take n (drop (p + head_width n) src) ≡ t =
          ap (take n) (inside src small p 0x60 n t rest h).1 ∙ take-length_append t rest in
        let ends : p + length whole ≡ p + head_width n + n = omega (arith, size) in
        rw
          (
            append_assoc (head_bytes 0x60 n) t rest,
            parse_head-head_bytes 0x60 n (t ++ rest) (omega arith) u,
            some_bytes,
            head_info-definite n,
            start,
            stop,
            inside_source,
            positive,
            forward,
            count,
            payload,
            ends,
          )
          (refl, refl)

    test_key-other :
        (h : HeadResult) → IsOther h → ((h.n == 0) ≡ false) × (test_key src p h key ≡ other_key)
    unfolding test_key
    test_key-other h k = (k.0, rw k.1 refl)

    pub test_key-value :
        (o : DecodeOpts) (d : ℕ) (v : Value)
        → IsValid o d v
        → Here src p (serialize v ++ rest)
        → (((parse_head (serialize v ++ rest)).n == 0) ≡ false)
          × (test_key src p (parse_head (serialize v ++ rest)) key ≡ key_test p v)
    unfolding IsValid
    test_key-value o d (text t) h e = test_key-text t h.0.1 e
    test_key-value o d v h e = test_key-other _ (serialize-IsOther o d v rest h refl)
