-- ===== src/Codec.antt =====
-- encoder.go and decoder.go: the Encoder and the Decoder that the package corecbor offers. Buffer
-- pools, arenas, interners and the sort cache, which only choose where bytes are stored, have no
-- counterpart.
pub mod RoundTrip
pub mod Budgets
pub mod Stream
pub mod Sequence
use corecbor.Prelude.{ℕ, Bool, true, false, List, [], ◌∷◌, Option, none, some, ltb, if◌then◌else◌}
use corecbor.Cbor.Value.{Value}
use corecbor.Cbor.Error.{Error, trailing_bytes, invalid_mode}
use corecbor.Rfc8949.Options.{
  EncodeOpts, DecodeOpts, strict_opts, bytewise_lex, length_first, shortest, preserve, force64,
}
use corecbor.Rfc8949.Encode.{Encoded, encode}
use corecbor.Rfc8949.Encode
use corecbor.Rfc8949.State.{Budget, BudgetState, State, Outcome, ok, err}
use corecbor.Rfc8949.State
use corecbor.Rfc8949.Decode.{decode}

-- Mode is an int: `other` stands for the ones without a name, which Encode rejects.
pub data Mode : Type 0 where
  permissive core_deterministic canonical ctap2 other : Mode

pub record Encoder : Type 0 where
  pub mode : Mode
  pub allow_non_finite_floats : Bool
  pub allow_invalid_utf8 : Bool

-- New without options, and the options.
abbrev pub new_encoder : Mode → Encoder
new_encoder mode = record {
  mode = mode;
  allow_non_finite_floats = false;
  allow_invalid_utf8 = false;
}

abbrev pub allow_non_finite_floats : Encoder → Encoder
allow_non_finite_floats e = record e { allow_non_finite_floats = true }

abbrev pub allow_invalid_utf8 : Encoder → Encoder
allow_invalid_utf8 e = record e { allow_invalid_utf8 = true }

-- The fields start at the zero values of Go: SortBytewiseLex, FloatShortest and false.
abbrev zero_opts : Encoder → EncodeOpts
zero_opts e = record {
  deterministic = false;
  sort_mode = bytewise_lex;
  float_mode = shortest;
  allow_non_finite_floats = e.allow_non_finite_floats;
  allow_invalid_utf8 = e.allow_invalid_utf8;
  skip_utf8_validation = false;
}

unfoldable pub encode_opts : Encoder → EncodeOpts
encode_opts e = elim e.mode [
  | permissive ↦ record (zero_opts e) { float_mode = preserve }
  | core_deterministic ↦ record (zero_opts e) {
    deterministic = true;
    sort_mode = bytewise_lex;
    float_mode = shortest;
  }
  | canonical ↦ record (zero_opts e) {
    deterministic = true;
    sort_mode = length_first;
    float_mode = shortest;
  }
  | ctap2 ↦ record (zero_opts e) {
    deterministic = true;
    sort_mode = length_first;
    float_mode = force64;
  }
  | other ↦ zero_opts e
]

unfoldable pub encoder_encode : Encoder → List ℕ → Value → Encoded
unfolding encode_opts
encoder_encode e dst v = elim e.mode [
  | other ↦ Encode.err invalid_mode dst
  | _ ↦ encode (encode_opts e) dst v
]

-- The budget is behind a pointer of the options, so it lasts from one Decode to the next.
pub record Decoder : Type 0 where
  pub opts : DecodeOpts
  pub budget : Budget

abbrev pub DecoderOption : Type 0
DecoderOption = Decoder → Decoder

abbrev pub reject_indefinite_length : DecoderOption
reject_indefinite_length d = record d { opts = record d.opts { reject_indefinite_length = true } }

abbrev pub reject_non_shortest : DecoderOption
reject_non_shortest d = record d { opts = record d.opts { reject_non_shortest = true } }

abbrev pub reject_invalid_utf8 : DecoderOption
reject_invalid_utf8 d = record d { opts = record d.opts { reject_invalid_utf8 = true } }

abbrev pub reject_duplicate_map_keys : DecoderOption
reject_duplicate_map_keys d = record d { opts = record d.opts { reject_duplicate_map_keys = true } }

abbrev pub reject_unknown_tags : DecoderOption
reject_unknown_tags d = record d { opts = record d.opts { reject_unknown_tags = true } }

abbrev pub reject_non_finite_floats : DecoderOption
reject_non_finite_floats d = record d { opts = record d.opts { reject_non_finite_floats = true } }

abbrev pub reject_null_map_keys : DecoderOption
reject_null_map_keys d = record d { opts = record d.opts { reject_null_map_keys = true } }

abbrev pub with_max_nesting_depth : ℕ → DecoderOption
with_max_nesting_depth n d = record d { opts = record d.opts { max_nesting_depth = n } }

abbrev pub with_max_array_length : ℕ → DecoderOption
with_max_array_length n d = record d { opts = record d.opts { max_array_length = n } }

abbrev pub with_max_byte_string_length : ℕ → DecoderOption
with_max_byte_string_length n d = record d { opts = record d.opts { max_byte_string_length = n } }

-- A limit of 0 leaves the budget as it is.
abbrev pub with_memory_budget : ℕ → DecoderOption
with_memory_budget limit d =
    if ltb 0 limit then record d { budget = some (record { allocated = 0; limit = limit }) } else d

abbrev pub apply_options : List DecoderOption → Decoder → Decoder
apply_options [] d = d
apply_options (o ∷ os) d = apply_options os (o d)

abbrev pub zero_decode_opts : DecodeOpts
zero_decode_opts = record {
  reject_indefinite_length = false;
  reject_non_shortest = false;
  reject_invalid_utf8 = false;
  reject_duplicate_map_keys = false;
  reject_unknown_tags = false;
  reject_non_finite_floats = false;
  reject_null_map_keys = false;
  max_nesting_depth = 0;
  max_array_length = 0;
  max_byte_string_length = 0;
}

-- NewDecoder
abbrev pub new_decoder : List DecoderOption → Decoder
new_decoder os = apply_options os (record { opts = zero_decode_opts; budget = none })

abbrev pub strict_decoder : List DecoderOption → Decoder
strict_decoder os = apply_options os (record { opts = strict_opts; budget = none })

-- The result with the decoder as the run leaves it. `out_of_fuel` is no result of the code.
pub data Decoded : Type 0 where
  value : Value → Decoder → Decoded
  failed : Error → Decoder → Decoded
  out_of_fuel : Decoded

unfoldable pub reset : Budget → Budget
reset none = none
reset (some bs) = some (record bs { allocated = 0 })

abbrev pub whole : Decoder → Outcome Value → Decoded
whole d (ok v s) = elim s.rest [
  | [] ↦ value v (record d { budget = s.budget })
  | _ ∷ _ ↦ failed trailing_bytes (record d { budget = s.budget })
]
whole d (err e at b) = failed e (record d { budget = b })
whole d State.out_of_fuel = out_of_fuel

unfoldable pub decoder_decode : Decoder → List ℕ → Decoded
unfolding reset
decoder_decode d src = whole d (decode src d.opts (reset d.budget))
