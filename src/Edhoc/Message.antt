-- ===== src/Edhoc/Message.antt =====
-- edhoc/message.go: the messages of EDHOC as sequences of CBOR items.
pub mod Values
pub mod RoundTrip
use corecbor.Prelude.{
  ℕ, ◌%◌, Bool, true, false, ◌&&◌, List, [], ◌∷◌, Option, none, ltb, ◌==◌, if◌then◌else◌, length,
}
use corecbor.Cbor.Value.{Value, Items, uint, bytes, array, nil, cons}
use corecbor.Rfc8949.Options.{EncodeOpts, bytewise_lex, shortest}
use corecbor.Rfc8949.Encode.{Encoded, encode}
use corecbor.Rfc8949.Encode
use corecbor.Rfc8949.State.{Outcome}
use corecbor.Rfc8949.State
use corecbor.Rfc8949.Decode.{decode}
use corecbor.Codec.{zero_decode_opts}
use corecbor.Edhoc.Result.{
  Result, ok, fail, panics, out_of_fuel, message_format, encoding, decoding, ◌>>=◌, or_fail,
}

-- encOpts
abbrev pub enc_opts : EncodeOpts
enc_opts = record {
  deterministic = true;
  sort_mode = bytewise_lex;
  float_mode = shortest;
  allow_non_finite_floats = false;
  allow_invalid_utf8 = false;
  skip_utf8_validation = false;
}

abbrev pub from_encoded : Encoded → Result (List ℕ)
from_encoded (Encode.ok d) = ok d
from_encoded (Encode.err e d) = fail (encoding e)

-- cborEncodeValue
unfoldable pub encode_value : List ℕ → Value → Result (List ℕ)
encode_value buf v = from_encoded (encode enc_opts buf v)

-- A CipherSuite is an int64, here as a word of 64 bits in two's complement.
abbrev pub CipherSuite : Type 0
CipherSuite = ℕ

-- The field SuitesSel is not read by the code that encodes a message.
pub record Message1 : Type 0 where
  pub method : ℕ
  pub suites : List CipherSuite
  pub suites_sel : CipherSuite
  pub gx : List ℕ
  pub ci : List ℕ

pub record Message2 : Type 0 where
  pub gy : List ℕ
  pub cr : List ℕ
  pub ciphertext : List ℕ

pub record Message3 : Type 0 where
  pub ciphertext : List ℕ

abbrev pub uints : List ℕ → Items
uints [] = nil
uints (s ∷ ss) = cons (uint s) (uints ss)

unfoldable pub encode_suites : List ℕ → List CipherSuite → Result (List ℕ)
unfolding encode_value
encode_suites buf (s ∷ []) = encode_value buf (uint s)
encode_suites buf suites = encode_value buf (array (uints suites))

unfoldable pub encode_connection_id : List ℕ → List ℕ → Result (List ℕ)
unfolding encode_value
encode_connection_id buf (b ∷ []) =
    if ltb b 24 then encode_value buf (uint b) else encode_value buf (bytes (b ∷ []))
encode_connection_id buf cid = encode_value buf (bytes cid)

unfoldable pub encode_message1 : Message1 → Result (List ℕ)
unfolding encode_value encode_suites encode_connection_id
encode_message1 m = do
  buf ← or_fail message_format (encode_value [] (uint m.method))
  buf' ← or_fail message_format (encode_suites buf m.suites)
  buf'' ← or_fail message_format (encode_value buf' (bytes m.gx))
  encode_connection_id buf'' m.ci

unfoldable pub encode_message2 : Message2 → Result (List ℕ)
unfolding encode_value encode_connection_id
encode_message2 m = do
  buf ← or_fail message_format (encode_value [] (bytes m.gy))
  buf' ← encode_connection_id buf m.cr
  or_fail message_format (encode_value buf' (bytes m.ciphertext))

unfoldable pub encode_message3 : Message3 → Result (List ℕ)
unfolding encode_value
encode_message3 m = or_fail message_format (encode_value [] (bytes m.ciphertext))

-- A value and the data behind it.
abbrev pub Read : Type 0 → Type 0
Read A = Result (A × List ℕ)

abbrev pub from_outcome : Outcome Value → Read Value
from_outcome (State.ok v s) = ok (v, s.rest)
from_outcome (State.err e at b) = fail (decoding e)
from_outcome State.out_of_fuel = out_of_fuel

-- decodeOneValue
unfoldable pub decode_one_value : List ℕ → Read Value
decode_one_value [] = fail message_format
decode_one_value (b ∷ data') = from_outcome (decode (b ∷ data') zero_decode_opts none)

abbrev pub bytes_or_fail : Value → Result (List ℕ)
bytes_or_fail (bytes b) = ok b
bytes_or_fail _ = fail message_format

-- A value that must be a byte string.
unfoldable pub decode_bstr : List ℕ → Read (List ℕ)
unfolding decode_one_value
decode_bstr source = do
  (v, rest) ← or_fail message_format (decode_one_value source)
  b ← bytes_or_fail v
  ok (b, rest)

unfoldable pub suite_items : Items → Result (List CipherSuite)
suite_items nil = ok []
suite_items (cons (uint s) xs) = suite_items xs >>= λ ss. ok (s ∷ ss)
suite_items (cons _ xs) = fail message_format

-- The suites and the first of them.
unfoldable pub suites_of : Value → Result (List CipherSuite × CipherSuite)
unfolding suite_items
suites_of (uint s) = ok (s ∷ [], s)
suites_of (array nil) = fail message_format
suites_of (array (cons (uint s) xs)) = suite_items xs >>= λ ss. ok (s ∷ ss, s)
suites_of _ = fail message_format

unfoldable pub decode_suites : List ℕ → Read (List CipherSuite × CipherSuite)
unfolding decode_one_value suites_of
decode_suites source = do
  (v, rest) ← or_fail message_format (decode_one_value source)
  suites ← suites_of v
  ok (suites, rest)

abbrev pub connection_id_of : Value → Result (List ℕ)
connection_id_of (uint n) = ok ((n % 256) ∷ [])
connection_id_of (bytes b) = ok b
connection_id_of _ = fail message_format

unfoldable pub decode_connection_id : List ℕ → Read (List ℕ)
unfolding decode_one_value
decode_connection_id source = do
  (v, rest) ← or_fail message_format (decode_one_value source)
  cid ← connection_id_of v
  ok (cid, rest)

abbrev pub method_of : Value → Result ℕ
method_of (uint n) = ok n
method_of _ = fail message_format

unfoldable pub decode_message1 : List ℕ → Result Message1
unfolding decode_one_value decode_suites decode_bstr decode_connection_id
decode_message1 source = do
  (v, rest) ← or_fail message_format (decode_one_value source)
  method ← method_of v
  ((suites, selected), rest') ← decode_suites rest
  (gx, rest'') ← decode_bstr rest'
  (ci, _) ← decode_connection_id rest''
  ok (record { method = method; suites = suites; suites_sel = selected; gx = gx; ci = ci })

unfoldable pub decode_message2 : List ℕ → Result Message2
unfolding decode_bstr decode_connection_id
decode_message2 source = do
  (gy, rest) ← decode_bstr source
  (cr, rest') ← decode_connection_id rest
  (ciphertext, _) ← decode_bstr rest'
  ok (record { gy = gy; cr = cr; ciphertext = ciphertext })

unfoldable pub decode_message3 : List ℕ → Result Message3
unfolding decode_bstr
decode_message3 source = do
  (ciphertext, _) ← decode_bstr source
  ok (record { ciphertext = ciphertext })

-- encodeCBORArray
unfoldable pub encode_array : Items → Result (List ℕ)
unfolding encode_value
encode_array items = encode_value [] (array items)
