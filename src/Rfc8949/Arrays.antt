-- ===== src/Rfc8949/Arrays.antt =====
-- rfc8949/decode.go: decodeArray and decodeIndefiniteArray. `dec` is decodeValue with its options:
-- it takes the depth and the flag that strips a self-describe tag.
use corecbor.Prelude.{
  ℕ, zero, suc, ◌+◌, ◌*◌, Bool, true, false, ◌&&◌, not, List, [], ◌∷◌, ltb, leb, ◌==◌,
  if◌then◌else◌, length, take, bit_and,
}
use corecbor.Cbor.Value.{
  Value, Items, uint, neg_int, bytes, text, array, bool, null, undefined, nil, cons,
}
use corecbor.Cbor.Error.{
  truncated, reserved_ai, non_shortest, indefinite_length, max_array_length, max_nesting_depth,
  invalid_utf8,
}
use corecbor.Cbor.Utf8.{valid_utf8}
use corecbor.Wire.Head.{
  HeadResult, major_bytes, major_text, ai_indefinite, break_code, arg_1, arg_2, arg_4, arg_8,
  simple_true, simple_false, simple_null, simple_undefined,
}
use corecbor.Rfc8949.Options.{DecodeOpts, max_nesting, max_array}
use corecbor.Rfc8949.State.{
  State, Outcome, ok, out_of_fuel, bind, fail, advance, charge, is_reserved,
}

abbrev pub Decoder : Type 0
Decoder = ℕ → Bool → State → Outcome Value

-- The integers that the loop of decodeArray reads in place.
abbrev pub int_value : ℕ → ℕ → Value
int_value ib arg = if ltb ib 0x20 then uint arg else neg_int arg

-- An argument of one, two, four or eight bytes; `least` is the smallest one that needs that many.
-- `h.n` is 0 where the source ends before them.
unfoldable pub wide_int : DecodeOpts → ℕ → ℕ → HeadResult → State → Outcome Value
wide_int opts ib least h s =
    if h.n == 0
    then fail truncated s
    else if opts.reject_non_shortest && ltb h.arg least
    then fail non_shortest s
    else ok (int_value ib h.arg) (advance h.n s)

-- `ib < 0x40`; `tl` is `src[pos+1:]`.
unfoldable pub int_in_place : Decoder → DecodeOpts → ℕ → ℕ → ℕ → List ℕ → State → Outcome Value
int_in_place dec opts depth ib ai tl s =
    if ltb ai 24
    then ok (int_value ib ai) (advance 1 s)
    else if ai == 24
    then wide_int opts ib 24 (arg_1 0 ai tl) s
    else if ai == 25
    then wide_int opts ib 0x100 (arg_2 0 ai tl) s
    else if ai == 26
    then wide_int opts ib 0x1_0000 (arg_4 0 ai tl) s
    else if ai == 27
    then wide_int opts ib 0x1_0000_0000 (arg_8 0 ai tl) s
    else if is_reserved ai
    then fail reserved_ai s
    else dec depth false s

-- A text or byte string below 24 bytes, if it lies within the source: the test of both fast paths.
abbrev pub is_short_string : ℕ → ℕ → State → Bool
is_short_string major ib s =
    bit_and ib 0xe0 == major
    && (ltb (bit_and ib 0x1f) 24 && leb (1 + bit_and ib 0x1f) (length s.rest))

-- The body of the fast path of decodeArray and decodeMap for a text of `size` bytes.
unfoldable pub text_in_place : DecodeOpts → ℕ → List ℕ → State → Outcome Value
text_in_place opts size tl s =
    if opts.reject_invalid_utf8 && not (valid_utf8 (take size tl))
    then fail invalid_utf8 s
    else ok (text (take size tl)) (advance (1 + size) s)

unfoldable pub simple_in_place : Decoder → ℕ → ℕ → State → Outcome Value
simple_in_place dec depth ib s =
    if ib == simple_true
    then ok (bool true) (advance 1 s)
    else if ib == simple_false
    then ok (bool false) (advance 1 s)
    else if ib == simple_null
    then ok null (advance 1 s)
    else if ib == simple_undefined
    then ok undefined (advance 1 s)
    else dec depth false s

-- One round of the loop of decodeArray, at `depth` the depth of the children.
unfoldable pub array_item : Decoder → DecodeOpts → ℕ → State → Outcome Value
array_item dec opts depth s = elim s.rest [
  | [] ↦ fail truncated s
  | ib ∷ tl ↦
      if ltb ib 0x40
      then int_in_place dec opts depth ib (bit_and ib 0x1f) tl s
      else if is_short_string major_text ib s
      then text_in_place opts (bit_and ib 0x1f) tl s
      else if is_short_string major_bytes ib s
      then ok (bytes (take (bit_and ib 0x1f) tl)) (advance (1 + bit_and ib 0x1f) s)
      else simple_in_place dec depth ib s
]

unfoldable pub array_items : Decoder → DecodeOpts → ℕ → ℕ → State → Outcome Items
array_items dec opts depth zero s = ok nil s
array_items dec opts depth (suc n) s =
    bind (array_item dec opts depth s)
      λ v s'. bind (array_items dec opts depth n s') λ vs s''. ok (cons v vs) s''

-- The loop up to the break code; `n` items have been read. Each round takes a byte at least.
unfoldable pub break_items : ℕ → Decoder → DecodeOpts → ℕ → ℕ → State → Outcome Items
break_items zero dec opts depth n s = out_of_fuel
break_items (suc fuel) dec opts depth n s = elim s.rest [
  | [] ↦ fail truncated s
  | ib ∷ _ ↦ elim (ib == break_code) [
    | true ↦ ok nil (advance 1 s)
    | false ↦ elim (leb (max_array opts) n) [
      | true ↦ fail max_array_length s
      | false ↦
          bind (dec depth false s)
            λ v s'. bind (break_items fuel dec opts depth (suc n) s') λ vs s''. ok (cons v vs) s''
    ]
  ]
]

unfoldable pub indefinite_array : Decoder → DecodeOpts → ℕ → State → Outcome Value
indefinite_array dec opts depth s =
    if ltb (max_nesting opts) (depth + 1)
    then fail max_nesting_depth s
    else bind (break_items (suc (length s.rest)) dec opts (depth + 1) 0 s) λ vs s'. ok (array vs) s'

unfoldable pub decode_array : Decoder → DecodeOpts → HeadResult → ℕ → State → Outcome Value
unfolding charge
decode_array dec opts h depth s =
    if h.ai == ai_indefinite
    then if opts.reject_indefinite_length
      then fail indefinite_length s
      else indefinite_array dec opts depth (advance h.n s)
    else if ltb (max_array opts) h.arg
    then fail max_array_length s
    else charge (h.arg * 16) s λ s'.
      if ltb (max_nesting opts) (depth + 1)
      then fail max_nesting_depth (advance h.n s')
      else bind (array_items dec opts (depth + 1) h.arg (advance h.n s'))
          λ vs s''. ok (array vs) s''
