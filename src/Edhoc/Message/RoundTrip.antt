-- ===== src/Edhoc/Message/RoundTrip.antt =====
-- edhoc/message.go: what encodeMessage1, encodeMessage2 and encodeMessage3 write, and what
-- decodeMessage1, decodeMessage2 and decodeMessage3 make of it.
use corecbor.Prelude.{
  ℕ, ◌%◌, ◌^◌, ◌≤◌, ◌≡◌, refl, ap, ◌∙◌, Bool-cases, List, [], ◌∷◌, ◌++◌, length, append_assoc, All,
  IsU64, IsBytes, arith, ltb, if◌then◌else◌, inl, inr,
}
use corecbor.Cbor.Value.{Value, uint, bytes, array}
use corecbor.Rfc8949.Serial.{serialize}
use corecbor.Edhoc.Result.{ok}
use corecbor.Edhoc.Message.{
  Message1, Message2, Message3, encode_value, encode_suites, encode_connection_id, encode_message1,
  encode_message2, encode_message3, decode_bstr, decode_suites, suites_of, suite_items,
  connection_id_of, decode_connection_id, decode_message1, decode_message2, decode_message3, uints,
}
use corecbor.Edhoc.Message.Values.{
  Carried, most_bytes, decode_one_value-Carried, uint-Carried, bytes-Carried, uints-Carried,
}

-- The value that stands for a connection identifier, or for the suites, in a message.
unfoldable pub connection_value : List ℕ → Value
connection_value (b ∷ []) = if ltb b 24 then uint b else bytes (b ∷ [])
connection_value cid = bytes cid

unfoldable pub suites_value : List ℕ → Value
suites_value (s ∷ []) = uint s
suites_value suites = array (uints suites)

-- A string of bytes that fits the decoder's limit.
pub record IsString (b : List ℕ) : Type 0 where
  pub bytes_only : IsBytes b
  pub fits : length b ≤ most_bytes

connection_value-Carried : (cid : List ℕ) → length cid ≤ most_bytes → Carried (connection_value cid)
unfolding connection_value
connection_value-Carried [] h = bytes-Carried [] h
connection_value-Carried (b ∷ []) h = elim (Bool-cases (ltb b 24)) [
  | inl e ↦ rw e (uint-Carried b (ground arith))
  | inr e ↦ rw e (bytes-Carried (b ∷ []) h)
]
connection_value-Carried (b ∷ c ∷ cid) h = bytes-Carried (b ∷ c ∷ cid) h

encode_connection_id-value :
    (buf cid : List ℕ) → encode_connection_id buf cid ≡ encode_value buf (connection_value cid)
unfolding encode_connection_id connection_value
encode_connection_id-value buf [] = refl
encode_connection_id-value buf (b ∷ []) = elim (Bool-cases (ltb b 24)) [
  | inl e ↦ rw e refl
  | inr e ↦ rw e refl
]
encode_connection_id-value buf (b ∷ c ∷ cid) = refl

pub encode_connection_id-serialize :
    (buf cid : List ℕ)
    → length cid ≤ most_bytes
    → encode_connection_id buf cid ≡ ok (buf ++ serialize (connection_value cid))
encode_connection_id-serialize buf cid h =
    encode_connection_id-value buf cid ∙ (connection_value-Carried cid h).writes buf

pub decode_bstr-serialize :
    (b tl : List ℕ) → length b ≤ most_bytes → decode_bstr (serialize (bytes b) ++ tl) ≡ ok (b, tl)
unfolding decode_bstr
decode_bstr-serialize b tl h = rw (decode_one_value-Carried (bytes b) tl (bytes-Carried b h)) refl

connection_id_of-value :
    (cid : List ℕ) → IsBytes cid → connection_id_of (connection_value cid) ≡ ok cid
unfolding connection_value
connection_id_of-value [] h = refl
connection_id_of-value (b ∷ []) h = elim (Bool-cases (ltb b 24)) [
  | inl e ↦ let f : b % 256 ≡ b = omega (arith, h.0) in rw e (ap (λ x. ok (x ∷ [])) f)
  | inr e ↦ rw e refl
]
connection_id_of-value (b ∷ c ∷ cid) h = refl

decode_connection_id-serialize :
    (cid tl : List ℕ)
    → IsString cid
    → decode_connection_id (serialize (connection_value cid) ++ tl) ≡ ok (cid, tl)
unfolding decode_connection_id
decode_connection_id-serialize cid tl h =
    rw
      (
        decode_one_value-Carried (connection_value cid) tl (connection_value-Carried cid h.fits),
        connection_id_of-value cid h.bytes_only,
      )
      refl

-- The suites of a message: at least one, and no more than an array may hold.
pub record AreSuites (s : ℕ) (ss : List ℕ) : Type 0 where
  pub words : All IsU64 (s ∷ ss)
  pub fit : length (s ∷ ss) ≤ 2 ^ 20

suites_value-Carried : (s : ℕ) (ss : List ℕ) → AreSuites s ss → Carried (suites_value (s ∷ ss))
unfolding suites_value
suites_value-Carried s [] h = uint-Carried s h.words.0
suites_value-Carried s (t ∷ ss) h = uints-Carried (s ∷ t ∷ ss) h.words h.fit

encode_suites-value :
    (buf : List ℕ) (s : ℕ) (ss : List ℕ)
    → encode_suites buf (s ∷ ss) ≡ encode_value buf (suites_value (s ∷ ss))
unfolding encode_suites suites_value
encode_suites-value buf s [] = refl
encode_suites-value buf s (t ∷ ss) = refl

suite_items-uints : (ss : List ℕ) → suite_items (uints ss) ≡ ok ss
unfolding suite_items
suite_items-uints [] = refl
suite_items-uints (s ∷ ss) = rw (suite_items-uints ss) refl

suites_of-value : (s : ℕ) (ss : List ℕ) → suites_of (suites_value (s ∷ ss)) ≡ ok (s ∷ ss, s)
unfolding suites_of suites_value suite_items
suites_of-value s [] = refl
suites_of-value s (t ∷ ss) = rw (suite_items-uints ss) refl

decode_suites-serialize :
    (s : ℕ) (ss tl : List ℕ)
    → AreSuites s ss
    → decode_suites (serialize (suites_value (s ∷ ss)) ++ tl) ≡ ok ((s ∷ ss, s), tl)
unfolding decode_suites
decode_suites-serialize s ss tl h =
    rw
      (
        decode_one_value-Carried (suites_value (s ∷ ss)) tl (suites_value-Carried s ss h),
        suites_of-value s ss,
      )
      refl

-- A message 1 as an Initiator makes it.
abbrev pub first_message : ℕ → ℕ → List ℕ → List ℕ → List ℕ → Message1
first_message method s ss gx ci = record {
  method = method;
  suites = s ∷ ss;
  suites_sel = s;
  gx = gx;
  ci = ci;
}

-- decodeMessage1 reads what encodeMessage1 writes of a message back, whatever follows it, if its
-- method and suites are words of 64 bits, its suites are between one and 2^20, the selected one is the
-- first, its connection identifier consists of bytes, and its strings are within the decoder's limit.
pub decode_message1-encode_message1 :
    (method s : ℕ) (ss gx ci tl : List ℕ)
    → IsU64 method
    → AreSuites s ss
    → length gx ≤ most_bytes
    → IsString ci
    → (raw : List ℕ) × (encode_message1 (first_message method s ss gx ci) ≡ ok raw)
      × (decode_message1 (raw ++ tl) ≡ ok (first_message method s ss gx ci))
unfolding encode_message1 decode_message1
decode_message1-encode_message1 method s ss gx ci tl m k g c =
    let front = serialize (uint method) in
    let mid = serialize (suites_value (s ∷ ss)) in
    let key = serialize (bytes gx) in
    let back = serialize (connection_value ci) in
    (
      ((front ++ mid) ++ key) ++ back,
      rw
          (
            (uint-Carried method m).writes [],
            encode_suites-value front s ss,
            (suites_value-Carried s ss k).writes front,
            (bytes-Carried gx g).writes (front ++ mid),
          )
          (encode_connection_id-serialize ((front ++ mid) ++ key) ci c.fits),
      rw
          (
            append_assoc ((front ++ mid) ++ key) back tl,
            append_assoc (front ++ mid) key (back ++ tl),
            append_assoc front mid (key ++ (back ++ tl)),
            decode_one_value-Carried (uint method) (mid ++ (key ++ (back ++ tl)))
                (uint-Carried method m),
            decode_suites-serialize s ss (key ++ (back ++ tl)) k,
            decode_bstr-serialize gx (back ++ tl) g,
            decode_connection_id-serialize ci tl c,
          )
          refl,
    )

-- decodeMessage2 reads what encodeMessage2 writes of a message back, whatever follows it, if its
-- connection identifier consists of bytes and its strings are within the decoder's limit.
pub decode_message2-encode_message2 :
    (m : Message2) (tl : List ℕ)
    → length m.gy ≤ most_bytes
    → IsString m.cr
    → length m.ciphertext ≤ most_bytes
    → (raw : List ℕ) × (encode_message2 m ≡ ok raw) × (decode_message2 (raw ++ tl) ≡ ok m)
unfolding encode_message2 decode_message2
decode_message2-encode_message2 m tl g c t =
    let front = serialize (bytes m.gy) in
    let mid = serialize (connection_value m.cr) in
    let back = serialize (bytes m.ciphertext) in
    (
      (front ++ mid) ++ back,
      rw
          (
            (bytes-Carried m.gy g).writes [],
            encode_connection_id-serialize front m.cr c.fits,
            (bytes-Carried m.ciphertext t).writes (front ++ mid),
          )
          refl,
      rw
          (
            append_assoc (front ++ mid) back tl,
            append_assoc front mid (back ++ tl),
            decode_bstr-serialize m.gy (mid ++ (back ++ tl)) g,
            decode_connection_id-serialize m.cr (back ++ tl) c,
            decode_bstr-serialize m.ciphertext tl t,
          )
          refl,
    )

-- decodeMessage3 reads what encodeMessage3 writes of a message back, whatever follows it, if the
-- ciphertext is within the decoder's limit.
pub decode_message3-encode_message3 :
    (m : Message3) (tl : List ℕ)
    → length m.ciphertext ≤ most_bytes
    → (raw : List ℕ) × (encode_message3 m ≡ ok raw) × (decode_message3 (raw ++ tl) ≡ ok m)
unfolding encode_message3 decode_message3
decode_message3-encode_message3 m tl h = (
  serialize (bytes m.ciphertext),
  rw ((bytes-Carried m.ciphertext h).writes []) refl,
  rw (decode_bstr-serialize m.ciphertext tl h) refl,
)
