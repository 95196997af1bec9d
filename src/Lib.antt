-- ===== src/Lib.antt =====
-- corecbor, a CBOR codec (RFC 8949) with protocols on top of it: its wire format, encoder, decoder
-- and facade, the claims of CWT (RFC 8392) and the key exchange EDHOC (RFC 9528).
--
-- The parts and where they are modelled:
--   - wire/head.go is Wire.Head: AppendHead is append_head (head_bytes is what it adds), ParseHead is
--     parse_head, HeadResult.IsShortest is is_shortest. wire/float16.go is Wire.Float16, over
--     Wire.Float, which has the operations of Go's math package and of the float types on IEEE 754
--     bits.
--   - cbor/value.go is Cbor.Value: the struct Value, tagged by Kind, is a data type with one
--     constructor for each Kind; []Value is Items and []MapEntry is Pairs. cbor/errors.go is
--     Cbor.Error. Cbor.Utf8 is utf8.Valid, as an automaton on bytes.
--   - rfc8949/encode.go is Rfc8949.Encode, with its options in Rfc8949.Options and the order of map
--     keys in Rfc8949.Order: encode is encode, encodeMap is encode_pairs where entries are written in
--     the order they have, and encode_keys with write_sorted where they are sorted.
--     rfc8949/estimate.go is Rfc8949.Estimate, rfc8949/preorder.go is Rfc8949.Preorder.
--   - rfc8949/decode.go is Rfc8949.Decode (Decode, decodeValue, decodeTag) over Rfc8949.Strings
--     (decodeBytes, decodeText and the indefinite ones), Rfc8949.Scalars (decodeOther),
--     Rfc8949.Arrays (decodeArray, decodeIndefiniteArray), Rfc8949.Maps (decodeMap,
--     decodeIndefiniteMap), Rfc8949.Insert (mapInsert, keyDedup, fnv1a) and Rfc8949.Equal
--     (valuesEqual). Rfc8949.State has the state of a run: an offset into the source is the suffix
--     that starts there, and the memory budget, a shared pointer in the code, is passed on.
--     decodeValue and the functions it calls call each other: the functions on containers take it as
--     an argument, and decode_value closes the circle.
--   - rfc8949/homogeneous.go is Rfc8949.Homogeneous, with run-time panics as results.
--   - rfc8949/cursor.go is Rfc8949.Skip (skipItem and the loops around it, on positions) and
--     Rfc8949.Cursor (the methods, which change a record). An int of the cursor is a word of 64 bits.
--   - encoder.go and decoder.go are Codec, which chooses the options, resets the budget and rejects
--     trailing bytes. stream.go's StreamEncoder is Codec.Stream, whose io.Writer is a parameter: what a
--     Write leaves of it and whether it failed. sequence.go is Codec.Sequence.
--   - cose/internal/aeskw/aeskw.go is Cose.KeyWrap and edhoc/internal/aesccm/ccm.go is Edhoc.AesCcm.
--     Both take crypto/aes as a parameter, a function from keys to the block ciphers of Cipher.
--   - cwt/claims.go is Cwt.Any (the values of an `any` and Go's maps of them), Cwt.Claims (ClaimsSet,
--     Encode) and Cwt.Parse (DecodeClaimsSet); cwt/validate.go is Cwt.Validate. Times and Keys of Cwt are
--     parameters: Go's package time, and the keys of the package cose.
--   - edhoc is Edhoc, a module for each file or two. errors.go is Edhoc.Result: a function that
--     changes its receiver gives a Step, the error or value with the state it leaves. message.go
--     is Edhoc.Message, over the sequences of Codec.Sequence. keyschedule.go and ciphersuite.go
--     are Edhoc.KeySchedule, credential.go is Edhoc.Credential, and what both sides do alike with
--     a method of authentication is Edhoc.Signature and Edhoc.Sealing (a message's MAC, plaintext
--     and ciphertext). initiator.go is Edhoc.Initiator and responder.go is Edhoc.Responder, each
--     with its struct as a record, and context.go is Edhoc.Export. A byte slice that is nil or
--     empty in the code is an empty list. The functions of Go's crypto packages are the fields of
--     the record Crypto of Edhoc.Crypto, a parameter, whose laws that a theorem needs are the
--     fields of IsCrypto; Tests.Handshake has an instance of both. The check of a CWT credential
--     is a parameter of the two sides (CwtKey); Edhoc.Credential has it, over Verify of
--     cwt/token.go (cwt_verify), with the verifier and the keys of the package cose as
--     parameters. The random bytes a side draws are arguments. Edhoc.Handshake runs the two sides
--     on each other's messages; Edhoc.Runs takes a side alone, through any sequence of calls.
-- Rfc8949.Serial is no code: it is the encoding that RFC 8949 prescribes for a value, with definite
-- lengths and shortest heads, against which encoder and decoder are stated. Rfc8949.Valid has the
-- values that a decoder's options let through. Tests has the theorems at concrete inputs.
--
-- Fuel: decode hands a unit of fuel for each byte of the source and one more to decode_value, since
-- each level of nesting takes a byte, and to each loop up to a break code a unit for each byte that
-- is left and one more, since each round takes a byte. decode_sequence hands out a unit for each
-- byte and one more, since each item takes a byte, and cbc_blocks one for each byte. The methods of
-- Cursor take their fuel as an argument: the code itself does not always end. A unit for each byte
-- of the source and one more is enough for items of definite lengths.
--
-- Numbers: 64-bit arguments are natural numbers; conversions to narrower types are written out.
-- Lengths, offsets, counts of items, the budget's counter and its limit are ints that are taken not
-- to overflow, except in Rfc8949.Homogeneous and Rfc8949.Cursor, where int(h.Arg) is modelled, and
-- in Codec.Stream, where the doubled count of BeginMap is. Bytes are numbers, below 256 where a
-- theorem says so. slices.SortFunc is an insertion sort: with keys that compare equal the order is
-- the sort's choice.
--
-- Not modelled: what only chooses where results are stored (the arena, the string interner, zero-
-- copy strings, sort caches and buffer pools), buffers of a caller that overlap, the reading side
-- of stream.go, diagnostic notation, the marshalling by reflection, cose apart from its key wrap
-- (so the COSE keys of claims and the checks of EDHOC's credentials are parameters), the tokens of
-- cwt apart from Verify, and the packages eat, registry and cmd.
pub mod Prelude
pub mod Wire
pub mod Cbor
pub mod Rfc8949
pub mod Codec
pub mod Cipher
pub mod Cose
pub mod Edhoc
pub mod Cwt
pub mod Tests
