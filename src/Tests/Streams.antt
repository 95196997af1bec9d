-- ===== src/Tests/Streams.antt =====
-- stream.go and sequence.go at concrete inputs.
use corecbor.Prelude.{
  ℕ, ◌≡◌, ◌≢◌, refl, true, false, List, [], ◌∷◌, ◌++◌, none, some, All, arith, length, ◌^◌,
  if◌then◌else◌, leb,
}
use corecbor.Cbor.Value.{Value, Items, Pairs, uint, text, array, map, nil, cons, end, entry, null}
use corecbor.Cbor.Utf8.{valid_utf8, utf8_run, utf8_step, lead}
use corecbor.Rfc8949.Encode
use corecbor.Rfc8949.Encode.{encode}
use corecbor.Rfc8949.Encode.Plain.{IsEncodable}
use corecbor.Rfc8949.Equal.{values_equal}
use corecbor.Rfc8949.Options.{max_bytes, max_array, max_nesting}
use corecbor.Rfc8949.Valid.{IsValid}
use corecbor.Rfc8949.State.{State, ok, out_of_fuel}
use corecbor.Rfc8949.Serial.{serialize}
use corecbor.Rfc8949.Total.Ensures.{Charged}
use corecbor.Rfc8949.RoundTrip.Heads.{at}
use corecbor.Wire.Head.{head_bytes}
use corecbor.Codec.{Decoder, new_encoder, new_decoder, permissive, encode_opts, with_memory_budget}
use corecbor.Codec.Sequence.{encode_sequence, decode_sequence}
use corecbor.Codec.Sequence.Whole.{
  Carries, decode_sequence-encode_sequence, decode_sequence-Ensures,
}
use corecbor.Codec.Stream
use corecbor.Codec.Stream.{
  Writer, StreamEncoder, Call, call_begin_array, call_begin_map, call_end_container, call_uint,
  call_text, call_value, call_tag, run, stream, underflow, encoding, write_text, write_value,
  write_float64,
}
use corecbor.Codec.Stream.Counts.{AreCounted, run-AreCounted}
use corecbor.Codec.Stream.Containers.{
  buffer, calls, value_calls, entry_calls, array_calls, calls-encode, calls-nested,
}

-- A writer that takes ten bytes, and then no more.
abbrev bounded : Writer
bounded = record {
  Sink = List ℕ;
  write = λ sink b. if leb (length (sink ++ b)) 10 then (sink ++ b, true) else (sink, false);
}

abbrev some_calls : List (Call bounded)
some_calls =
    call_begin_array (some 2)
    ∷ call_uint 7
    ∷ call_begin_map none
    ∷ call_text (0x61 ∷ [])
    ∷ call_uint (2 ^ 40)
    ∷ call_uint 2
    ∷ call_uint 3
    ∷ []

run-AreCounted_example :
    AreCounted bounded (run bounded some_calls (stream bounded (new_encoder permissive) []))
run-AreCounted_example =
    run-AreCounted bounded some_calls (stream bounded (new_encoder permissive) []) tt

abbrev some_items : Items
some_items = cons (uint 1) (cons (text (0x61 ∷ [])) (cons (array (cons null nil)) nil))

abbrev some_pairs : Pairs
some_pairs = entry (uint 1) null (entry (uint 500) (map end) end)

abbrev opened : StreamEncoder buffer
opened = record {
  sink = 0x9f ∷ [];
  encoder = new_encoder permissive;
  stack = record { limit = none; written = 0 } ∷ [];
}

calls-encode_example :
    ((out : List ℕ) × (encode (encode_opts (new_encoder permissive)) (0x9f ∷ []) (array some_items)
        ≡ Encode.ok out)
      × (calls (call_begin_array (some 3) ∷ value_calls some_items (call_end_container ∷ [])) opened
          ≡ Stream.ok (record opened { sink = out })))
    × ((out : List ℕ) × (encode (encode_opts (new_encoder permissive)) (0x9f ∷ []) (map some_pairs)
          ≡ Encode.ok out)
        × (calls (call_begin_map (some 2) ∷ entry_calls some_pairs (call_end_container ∷ [])) opened
            ≡ Stream.ok (record opened { sink = out })))
calls-encode_example =
    calls-encode opened some_items some_pairs refl
      (unfold IsEncodable encode_opts valid_utf8 utf8_run utf8_step lead in ground arith)
      (unfold IsEncodable encode_opts in ground arith) (omega arith)

-- An array of two items, which are both arrays.
calls-nested_example :
    calls
      (call_begin_array (some 2)
        ∷ array_calls (cons (uint 7) nil ∷ nil ∷ []) (call_end_container ∷ []))
      opened
    ≡ Stream.err underflow (record opened { sink = 0x9f ∷ 0x82 ∷ 0x81 ∷ 0x07 ∷ 0x80 ∷ [] })
unfolding serialize head_bytes
calls-nested_example =
    calls-nested opened 2 (cons (uint 7) nil ∷ nil ∷ []) refl
      (unfold IsEncodable encode_opts in ground arith)

abbrev lenient : Decoder
lenient = new_decoder []

abbrev some_values : List Value
some_values = uint 1 ∷ text (0x61 ∷ []) ∷ map some_pairs ∷ []

carried : All (Carries (new_encoder permissive) lenient.opts) some_values
unfolding IsEncodable IsValid encode_opts max_bytes max_array max_nesting valid_utf8 utf8_run
    utf8_step lead values_equal
carried = ground arith

decode_sequence-encode_sequence_example :
    (src : List ℕ) × (encode_sequence (new_encoder permissive) [] some_values ≡ Encode.ok src)
    × (decode_sequence lenient src ≡ ok some_values (at []))
decode_sequence-encode_sequence_example =
    decode_sequence-encode_sequence (new_encoder permissive) lenient some_values refl refl
      (unfold max_bytes in omega arith) carried

abbrev three : List ℕ
three = 0x01 ∷ 0x61 ∷ 0x61 ∷ 0x81 ∷ 0x02 ∷ []

decode_sequence-Ensures_example :
    let d = new_decoder (with_memory_budget 40 ∷ []) in
    (decode_sequence d three ≢ out_of_fuel)
    × ((vs : List Value) (s : State)
        → decode_sequence d three ≡ ok vs s
        → (s.rest ≡ []) × Charged d.budget s.budget)
decode_sequence-Ensures_example =
    decode_sequence-Ensures (new_decoder (with_memory_budget 40 ∷ [])) three
