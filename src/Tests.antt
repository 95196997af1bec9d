-- ===== src/Tests.antt =====
-- The theorems at concrete inputs.
mod Ciphers
mod Handshake
mod Streams
mod Cursors
mod Tokens
use corecbor.Prelude.{
  ◌^◌, ◌≢◌, length, be16, put_u32, put_u64, ℕ, ◌≤◌, ◌<◌, ◌≡◌, refl, true, false, List, [], ◌∷◌,
  ◌++◌, none, some, arith,
}
use corecbor.Cbor.Value.{
  Value, Pairs, uint, neg_int, bytes, text, array, map, bool, null, float32, float64, entries, nil,
  cons, end, entry, make_tag,
}
use corecbor.Cbor.Utf8.{valid_utf8, utf8_run, utf8_step, lead}
use corecbor.Rfc8949.Equal.{values_equal}
use corecbor.Rfc8949.Options.{
  EncodeOpts, DecodeOpts, strict_opts, max_bytes, max_array, max_nesting,
}
use corecbor.Rfc8949.State.{
  BudgetState, State, ok, err, fail, advance, out_of_fuel, charge, is_long_head,
}
use corecbor.Rfc8949.Serial.{serialize}
use corecbor.Rfc8949.Decode.{decode, decode_value, decode_step, dispatch}
use corecbor.Rfc8949.Decode.InPlace.{in_place-decode_value, array_item-over_limit}
use corecbor.Rfc8949.Decode.Strict.{decode-small_float, decode-indefinite_int}
use corecbor.Rfc8949.Arrays.{array_item, array_items, decode_array, int_in_place}
use corecbor.Rfc8949.Maps.{map_key}
use corecbor.Rfc8949.Homogeneous.{
  panics, decode_uint_array, decode_float64_array, decode_bytes_array, decode_text_array,
}
use corecbor.Rfc8949.Homogeneous
use corecbor.Rfc8949.Homogeneous.Elements.{items_of, decode_array-serialize, decode_array-panics}
use corecbor.Rfc8949.Preorder.{
  KeyIndex, order, written, precompute_map_order, encode_map_preordered, encode_each,
  compare_indices,
}
use corecbor.Rfc8949.Preorder.Equivalence.{keys_of, encode_map_preordered-encode}
use corecbor.Rfc8949.Order.{compare_order, compare_bytes, sort, insert}
use corecbor.Cbor.Error.{invalid_utf8, non_shortest, max_byte_string_length}
use corecbor.Rfc8949.Encode
use corecbor.Rfc8949.Encode.{encode}
use corecbor.Rfc8949.Valid.{IsValid}
use corecbor.Rfc8949.Encode.Canonical.{Reordered, encode-reorder}
use corecbor.Rfc8949.Encode.Unchecked.{encode-unchecked_text}
use corecbor.Rfc8949.Encode.Plain.{IsEncodable, encode-serialize}
use corecbor.Rfc8949.Estimate.{estimate_size}
use corecbor.Rfc8949.Estimate.Exact.{encode-estimate_size}
use corecbor.Rfc8949.RoundTrip.Heads.{at}
use corecbor.Rfc8949.RoundTrip.Whole.{decode-serialize}
use corecbor.Codec.{
  Decoder, new_encoder, new_decoder, permissive, encode_opts, encoder_encode, decoder_decode, value,
  reset, with_memory_budget, zero_decode_opts, core_deterministic,
}
use corecbor.Codec.Budgets.{IsWithin, decoder_decode-IsWithin}
use corecbor.Wire.Head.{head_bytes, parse_head, parse_arg, arg_2, append_head, is_shortest}
use corecbor.Wire.Head.RoundTrip.{head_of, parse_head-head_bytes}
use corecbor.Wire.Head.Canonical.{
  IsHeadOf, StartsShortest, parse_head-shortest, parse_head-IsHeadOf,
}
use corecbor.Rfc8949.Total.Ensures.{Charged}
use corecbor.Rfc8949.Total.Whole.{decode-ne-out_of_fuel, decode-charges}
use corecbor.Codec.RoundTrip.{permissive-IsPlain, decoder_decode-encoder_encode}

-- {1: ["a", true, h'ff00'], "k": -6}, with the tag 1 around it.
abbrev sample : Value
sample = make_tag 1 (
    map (
      entry (uint 1)
        (array (cons (text (0x61 ∷ [])) (cons (bool true) (cons (bytes (0xff ∷ 0 ∷ [])) nil))))
        (entry (text (0x6b ∷ [])) (neg_int 5) end)))

abbrev lenient : Decoder
lenient = new_decoder []

sample-IsValid : IsValid lenient.opts 0 sample
unfolding IsValid max_bytes max_array max_nesting valid_utf8 utf8_run utf8_step lead values_equal
sample-IsValid = ground arith

sample-IsEncodable : IsEncodable (encode_opts (new_encoder permissive)) sample
unfolding IsEncodable encode_opts valid_utf8 utf8_run utf8_step lead
sample-IsEncodable = ground arith

decoder_decode-encoder_encode_example :
    (src : List ℕ) × (encoder_encode (new_encoder permissive) [] sample ≡ Encode.ok src)
    × (decoder_decode lenient src ≡ value sample lenient)
decoder_decode-encoder_encode_example =
    decoder_decode-encoder_encode (new_encoder permissive) lenient sample refl refl
      sample-IsEncodable (unfold max_bytes in omega arith) sample-IsValid refl

decode-serialize_example :
    decode (serialize sample ++ (0xff ∷ [])) lenient.opts none ≡ ok sample (at (0xff ∷ []))
decode-serialize_example =
    decode-serialize lenient.opts sample (0xff ∷ []) (unfold max_bytes in omega arith)
      sample-IsValid refl

encode-serialize_example :
    Encode.encode (encode_opts (new_encoder permissive)) (0 ∷ []) sample
    ≡ Encode.ok ((0 ∷ []) ++ serialize sample)
encode-serialize_example =
    encode-serialize (encode_opts (new_encoder permissive)) (0 ∷ []) sample
      (permissive-IsPlain (new_encoder permissive) refl) sample-IsEncodable

encode-estimate_size_example :
    (out : List ℕ) × (Encode.encode (encode_opts (new_encoder permissive)) [] sample
      ≡ Encode.ok ([] ++ out))
    × (length out ≡ estimate_size sample)
encode-estimate_size_example =
    encode-estimate_size (encode_opts (new_encoder permissive)) [] sample
      (permissive-IsPlain (new_encoder permissive) refl) sample-IsEncodable

-- An array of two: an indefinite text in two chunks, and a map.
abbrev nested : List ℕ
nested = 0x82 ∷ 0x7f ∷ 0x61 ∷ 0x61 ∷ 0x61 ∷ 0x62 ∷ 0xff ∷ 0xa1 ∷ 0x01 ∷ 0x18 ∷ 0x64 ∷ []

decode-ne-out_of_fuel_example : decode nested strict_opts none ≢ out_of_fuel
decode-ne-out_of_fuel_example = decode-ne-out_of_fuel nested strict_opts none

-- [1, 2] in 16 bytes each.
abbrev two : List ℕ
two = 0x82 ∷ 0x01 ∷ 0x02 ∷ []

abbrev a_budget : ℕ → BudgetState
a_budget n = record { allocated = n; limit = 100 }

two-charged :
    decode two lenient.opts (some (a_budget 7))
    ≡ ok
        (array (cons (uint 1) (cons (uint 2) nil)))
        (record { rest = []; budget = some (a_budget 39) })
unfolding decode decode_value decode_step parse_head parse_arg is_long_head dispatch decode_array
    max_array max_nesting charge array_items array_item int_in_place
two-charged = refl

decode-charges_example : (0 < 3) × Charged (some (a_budget 7)) (some (a_budget 39))
decode-charges_example =
    decode-charges two lenient.opts (a_budget 7) (array (cons (uint 1) (cons (uint 2) nil)))
      (record { rest = []; budget = some (a_budget 39) }) two-charged

abbrev budgeted : Decoder
budgeted = new_decoder (with_memory_budget 100 ∷ [])

parse_head-head_bytes_example : parse_head (head_bytes 0x80 300 ++ two) ≡ head_of 0x80 300
parse_head-head_bytes_example = parse_head-head_bytes 0x80 300 two (omega arith, refl) (omega arith)

-- The head of a text of 256 bytes.
abbrev text_head : List ℕ
text_head = 0x79 ∷ 0x01 ∷ 0x00 ∷ 0x61 ∷ []

parse_head-shortest_example : StartsShortest text_head (parse_head text_head)
unfolding parse_head parse_arg arg_2 is_shortest be16
parse_head-shortest_example =
    parse_head-shortest text_head (ground arith) (omega arith) (omega arith) refl

parse_head-IsHeadOf_example : IsHeadOf text_head (parse_head text_head)
unfolding parse_head parse_arg arg_2 be16
parse_head-IsHeadOf_example = parse_head-IsHeadOf text_head (ground arith) (omega arith)

in_place-decode_value_example :
    (array_item
        (decode_value 1 strict_opts)
        strict_opts
        1
        (record { rest = text_head; budget = none })
      ≡ decode_value 1 strict_opts 1 false (record { rest = text_head; budget = none }))
    × (map_key
          (decode_value 1 strict_opts)
          strict_opts
          1
          (record { rest = text_head; budget = none })
        ≡ decode_value 1 strict_opts 1 false (record { rest = text_head; budget = none }))
in_place-decode_value_example =
    in_place-decode_value 0 strict_opts 1 text_head (ground arith) (unfold max_bytes in omega arith)

decode-small_float_example :
    (0 ≤ 0xffff
      → decode (serialize (float32 0)) strict_opts none
        ≡ err non_shortest (serialize (float32 0)) none)
    × (0 ≤ 0xffff_ffff
        → decode (serialize (float64 0)) strict_opts none
          ≡ err non_shortest (serialize (float64 0)) none)
unfolding serialize put_u32 put_u64
decode-small_float_example = decode-small_float strict_opts 0 [] none refl

decode_array-serialize_example :
    (decode_uint_array (serialize (array (items_of uint (1 ∷ 300 ∷ []))) ++ []) strict_opts
      ≡ Homogeneous.ok (1 ∷ 300 ∷ []) (length (serialize (array (items_of uint (1 ∷ 300 ∷ []))))))
    × (decode_float64_array (serialize (array (items_of float64 (1 ∷ 300 ∷ []))) ++ []) strict_opts
        ≡ Homogeneous.ok
            (1 ∷ 300 ∷ [])
            (length (serialize (array (items_of float64 (1 ∷ 300 ∷ []))))))
decode_array-serialize_example =
    decode_array-serialize strict_opts (1 ∷ 300 ∷ []) [] (unfold max_array in omega arith)
      (omega arith) (omega arith, (omega arith, tt))

-- {10: 1, 2: null}, out of order.
abbrev unsorted : Pairs
unsorted = entry (uint 10) (uint 1) (entry (uint 2) null end)

abbrev unsorted_order : List KeyIndex
unsorted_order =
    record { encoded = 0x02 ∷ []; index = 1 } ∷ record { encoded = 0x0a ∷ []; index = 0 } ∷ []

abbrev deterministic : EncodeOpts
deterministic = encode_opts (new_encoder core_deterministic)

unsorted-ordered :
    precompute_map_order (keys_of unsorted) deterministic.sort_mode deterministic
    ≡ order unsorted_order
unfolding precompute_map_order encode_each encode encode_opts append_head head_bytes compare_indices
    compare_order compare_bytes sort insert
unsorted-ordered = refl

encode_map_preordered-encode_example :
    encode_map_preordered [] (entries unsorted) unsorted_order deterministic
    ≡ written (Encode.encode deterministic [] (map unsorted))
encode_map_preordered-encode_example =
    encode_map_preordered-encode deterministic [] unsorted unsorted_order
      (unfold encode_opts in refl) (omega arith) unsorted-ordered

swapped : Reordered deterministic unsorted (entry (uint 2) null (entry (uint 10) (uint 1) end))
unfolding encode encode_opts append_head head_bytes
swapped = Reordered.exchange {a = 0x0a ∷ []} {b = 0x02 ∷ []} refl refl cc

encode-reorder_example :
    Encode.encode deterministic [] (map unsorted)
    ≡ Encode.encode deterministic [] (map (entry (uint 2) null (entry (uint 10) (uint 1) end)))
encode-reorder_example =
    encode-reorder deterministic [] unsorted (entry (uint 2) null (entry (uint 10) (uint 1) end))
      (unfold encode_opts in refl) (omega arith) swapped

encode-unchecked_text_example :
    let plain : List ℕ → List ℕ = λ d. append_head d 0x60 1 ++ (0xff ∷ []) in
    (Encode.encode deterministic [] (text (0xff ∷ [])) ≡ Encode.err invalid_utf8 [])
    × (Encode.encode deterministic [] (array (cons (text (0xff ∷ [])) nil))
        ≡ Encode.ok (plain (append_head [] 0x80 1)))
    × (Encode.encode deterministic [] (map (entry (text (0xff ∷ [])) (text (0xff ∷ [])) end))
        ≡ Encode.ok (plain (plain (append_head [] 0xa0 1))))
encode-unchecked_text_example =
    encode-unchecked_text deterministic [] (0xff ∷ []) (unfold encode_opts in refl)
      (unfold encode_opts in refl) (unfold valid_utf8 utf8_run utf8_step lead in refl)
