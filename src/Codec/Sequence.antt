-- ===== src/Codec/Sequence.antt =====
-- sequence.go: CBOR sequences (RFC 8742), items one after the other.
pub mod Whole
use corecbor.Prelude.{ℕ, zero, suc, List, [], ◌∷◌, length, none}
use corecbor.Cbor.Value.{Value}
use corecbor.Cbor.Error.{Error}
use corecbor.Rfc8949.Encode
use corecbor.Rfc8949.State.{Budget, State, Outcome, ok, err, bind, out_of_fuel}
use corecbor.Rfc8949.Decode.{decode}
use corecbor.Rfc8949.Options.{DecodeOpts}
use corecbor.Codec.{Encoder, encoder_encode, Decoder}

-- Encoder.EncodeSequence
unfoldable pub encode_sequence : Encoder → List ℕ → List Value → Encode.Encoded
unfolding encoder_encode
encode_sequence e dst [] = Encode.ok dst
encode_sequence e dst (v ∷ vs) = Encode.bind (encoder_encode e dst v) λ d. encode_sequence e d vs

-- The loop of DecodeSequence. Decode is called with the options as they are: the budget goes on
-- from item to item, and is not reset before the first.
unfoldable pub decode_items : ℕ → DecodeOpts → State → Outcome (List Value)
decode_items zero opts s = out_of_fuel
decode_items (suc fuel) opts s = elim s.rest [
  | [] ↦ ok [] s
  | _ ∷ _ ↦
      bind (decode s.rest opts s.budget)
        λ v s'. bind (decode_items fuel opts s') λ vs s''. ok (v ∷ vs) s''
]

-- Decoder.DecodeSequence, with the budget that it leaves. Each round takes a byte at least.
unfoldable pub decode_sequence : Decoder → List ℕ → Outcome (List Value)
unfolding decode_items
decode_sequence d src =
    decode_items (suc (length src)) d.opts (record { rest = src; budget = d.budget })
