-- ===== src/Rfc8949/Decode/InPlace.antt =====
-- rfc8949/decode.go: the items that the loop of decodeArray and the keys that the loop of decodeMap
-- read in place, against decodeValue.
use corecbor.Prelude.{
  ℕ, suc, ◌+◌, ◌*◌, ◌/◌, ◌%◌, ◌≤◌, ◌<◌, ◌≡◌, ◌≢◌, ◌⊎◌, refl, false, List, [], ◌∷◌, none, leb, ◌==◌,
  if◌then◌else◌, length, take, bit_and-major, bit_and-info, IsBytes, arith,
}
use corecbor.Cbor.Value.{Value, bytes, text}
use corecbor.Cbor.Error.{truncated, reserved_ai, non_shortest, max_byte_string_length}
use corecbor.Wire.Head.{HeadResult, parse_head, parse_arg, arg_1, arg_2, arg_4, arg_8, is_shortest}
use corecbor.Rfc8949.Options.{DecodeOpts, max_bytes}
use corecbor.Rfc8949.State.{State, Budget, Outcome, ok, fail, advance, is_long_head, is_reserved}
use corecbor.Rfc8949.Strings.{decode_bytes, decode_text}
use corecbor.Rfc8949.Scalars.{decode_other}
use corecbor.Rfc8949.Arrays.{
  Decoder, array_item, int_in_place, int_value, wide_int, text_in_place, simple_in_place,
}
use corecbor.Rfc8949.Maps.{map_key}
use corecbor.Rfc8949.Decode.{decode_step, dispatch, decode_value}

module _ (dec : Decoder) (opts : DecodeOpts) (depth : ℕ) where
  -- The body of decodeValue on a head.
  abbrev on_head : HeadResult → State → Outcome Value
  on_head h s =
      if h.n == 0
      then fail truncated s
      else if is_reserved h.ai
      then fail reserved_ai s
      else if is_long_head opts h
      then fail non_shortest s
      else dispatch dec opts h depth false s

  dispatch-int :
      (ib : ℕ) (h : HeadResult) (s : State)
      → ib < 64
      → h.major ≡ ib / 32 * 32
      → dispatch dec opts h depth false s ≡ ok (int_value ib h.arg) (advance h.n s)
  unfolding dispatch
  dispatch-int ib h s hib hm = ground arith

  wide_int-on_head :
      (ib least : ℕ) (h g : HeadResult) (s : State)
      → ib < 64
      → g.major ≡ ib / 32 * 32
      → h.n ≡ g.n
      → h.arg ≡ g.arg
      → 24 ≤ g.ai
      → g.ai ≤ 27
      → is_shortest g ≡ leb least g.arg
      → wide_int opts ib least h s ≡ on_head g s
  unfolding wide_int is_long_head
  wide_int-on_head ib least h g s hib hm hn ha lo hi sh = ground (arith, dispatch-int ib g s)

  arg_1-in_place :
      (ib a : ℕ) (tl : List ℕ) (s : State)
      → ib < 64
      → a ≡ 24
      → wide_int opts ib 24 (arg_1 0 a tl) s ≡ on_head (arg_1 (ib / 32 * 32) a tl) s
  unfolding arg_1
  arg_1-in_place ib a (x ∷ tl) s hib ha =
      wide_int-on_head ib 24 (arg_1 0 a (x ∷ tl)) (arg_1 (ib / 32 * 32) a (x ∷ tl)) s hib refl refl
        refl (omega arith) (omega arith) (unfold is_shortest in ground arith)
  arg_1-in_place ib a _ s hib ha = unfold wide_int in refl

  arg_2-in_place :
      (ib a : ℕ) (tl : List ℕ) (s : State)
      → ib < 64
      → a ≡ 25
      → wide_int opts ib 0x100 (arg_2 0 a tl) s ≡ on_head (arg_2 (ib / 32 * 32) a tl) s
  unfolding arg_2
  arg_2-in_place ib a (x ∷ y ∷ tl) s hib ha =
      wide_int-on_head ib 0x100 (arg_2 0 a (x ∷ y ∷ tl)) (arg_2 (ib / 32 * 32) a (x ∷ y ∷ tl)) s hib
        refl refl refl (omega arith) (omega arith) (unfold is_shortest in ground arith)
  arg_2-in_place ib a _ s hib ha = unfold wide_int in refl

  arg_4-in_place :
      (ib a : ℕ) (tl : List ℕ) (s : State)
      → ib < 64
      → a ≡ 26
      → wide_int opts ib 0x1_0000 (arg_4 0 a tl) s ≡ on_head (arg_4 (ib / 32 * 32) a tl) s
  unfolding arg_4
  arg_4-in_place ib a (x ∷ y ∷ z ∷ w ∷ tl) s hib ha =
      wide_int-on_head ib 0x1_0000 (arg_4 0 a (x ∷ y ∷ z ∷ w ∷ tl))
        (arg_4 (ib / 32 * 32) a (x ∷ y ∷ z ∷ w ∷ tl)) s hib refl refl refl (omega arith)
        (omega arith) (unfold is_shortest in ground arith)
  arg_4-in_place ib a _ s hib ha = unfold wide_int in refl

  arg_8-in_place :
      (ib a : ℕ) (tl : List ℕ) (s : State)
      → ib < 64
      → a ≡ 27
      → wide_int opts ib 0x1_0000_0000 (arg_8 0 a tl) s ≡ on_head (arg_8 (ib / 32 * 32) a tl) s
  unfolding arg_8
  arg_8-in_place ib a (x ∷ y ∷ z ∷ w ∷ p ∷ q ∷ r ∷ t ∷ tl) s hib ha =
      wide_int-on_head ib 0x1_0000_0000 (arg_8 0 a (x ∷ y ∷ z ∷ w ∷ p ∷ q ∷ r ∷ t ∷ tl))
        (arg_8 (ib / 32 * 32) a (x ∷ y ∷ z ∷ w ∷ p ∷ q ∷ r ∷ t ∷ tl)) s hib refl refl refl
        (omega arith) (omega arith) (unfold is_shortest in ground arith)
  arg_8-in_place ib a _ s hib ha = unfold wide_int in refl

  int_in_place-on_head :
      (ib a : ℕ) (tl : List ℕ) (b : Budget)
      → let s : State = record { rest = ib ∷ tl; budget = b } in
        ib < 64
        → decode_step dec opts depth false s ≡ on_head (parse_arg (ib / 32 * 32) a tl) s
        → int_in_place (decode_step dec opts) opts depth ib a tl s
          ≡ on_head (parse_arg (ib / 32 * 32) a tl) s
  unfolding int_in_place parse_arg
  int_in_place-on_head ib a tl b hib whole = ground (
    arith,
    arg_1-in_place ib a tl s,
    arg_2-in_place ib a tl s,
    arg_4-in_place ib a tl s,
    arg_8-in_place ib a tl s,
    is_long_inline,
    dispatch-int ib (record { major = ib / 32 * 32; ai = a; arg = a; n = 1 }) s,
  )
    where
      s : State
      s = record { rest = ib ∷ tl; budget = b }

      is_long_inline :
          a < 24
          → is_long_head opts (record { major = ib / 32 * 32; ai = a; arg = a; n = 1 }) ≡ false
      is_long_inline h = unfold is_long_head is_shortest in ground arith

  -- The head of an item of fewer than 24 bytes or elements.
  abbrev inline_head : ℕ → HeadResult
  inline_head ib = record { major = ib / 32 * 32; ai = ib % 32; arg = ib % 32; n = 1 }

  abbrev free : ℕ → List ℕ → State
  free ib tl = record { rest = ib ∷ tl; budget = none }

  dispatch-text :
      (ib : ℕ) (tl : List ℕ)
      → ib / 32 * 32 ≡ 0x60
      → ib % 32 < 24
      → ib % 32 ≤ length tl
      → 23 ≤ max_bytes opts
      → dispatch dec opts (inline_head ib) depth false (free ib tl)
        ≡ text_in_place opts (ib % 32) tl (free ib tl)
  unfolding dispatch decode_text text_in_place
  dispatch-text ib tl hm ha hl hb = ground arith

  dispatch-bytes :
      (ib : ℕ) (tl : List ℕ)
      → ib / 32 * 32 ≡ 0x40
      → ib % 32 < 24
      → ib % 32 ≤ length tl
      → 23 ≤ max_bytes opts
      → dispatch dec opts (inline_head ib) depth false (free ib tl)
        ≡ ok (bytes (take (ib % 32) tl)) (advance (1 + ib % 32) (free ib tl))
  unfolding dispatch decode_bytes
  dispatch-bytes ib tl hm ha hl hb = ground arith

  inline_head-on_head :
      (ib : ℕ) (tl : List ℕ)
      → ib % 32 < 24
      → on_head (parse_arg (ib / 32 * 32) (ib % 32) tl) (free ib tl)
        ≡ dispatch dec opts (inline_head ib) depth false (free ib tl)
  unfolding parse_arg is_long_head is_shortest
  inline_head-on_head ib tl h = ground arith

  dispatch-simple :
      (ib : ℕ) (tl : List ℕ)
      → (ib ≡ 0xf4) ⊎ ((ib ≡ 0xf5) ⊎ ((ib ≡ 0xf6) ⊎ (ib ≡ 0xf7)))
      → simple_in_place (decode_step dec opts) depth ib (free ib tl)
        ≡ dispatch dec opts (inline_head ib) depth false (free ib tl)
  unfolding dispatch decode_other simple_in_place
  dispatch-simple ib tl h = ground arith

  -- What decodeValue does with a byte of input at hand.
  decode_step-on_head :
      (ib : ℕ) (tl : List ℕ) (b : Budget)
      → ib < 256
      → decode_step dec opts depth false (record { rest = ib ∷ tl; budget = b })
        ≡ on_head (parse_arg (ib / 32 * 32) (ib % 32) tl) (record { rest = ib ∷ tl; budget = b })
  unfolding decode_step parse_head
  decode_step-on_head ib tl b h = rw (bit_and-major ib h, bit_and-info ib h)

  pub array_item-cons :
      (ib : ℕ) (tl : List ℕ)
      → ib < 256
      → 23 ≤ max_bytes opts
      → array_item (decode_step dec opts) opts depth (free ib tl)
        ≡ decode_step dec opts depth false (free ib tl)
  unfolding array_item
  array_item-cons ib tl h hb = ground (
    arith,
    bit_and-major ib h,
    bit_and-info ib h,
    decode_step-on_head ib tl none h,
    int_in_place-on_head ib (ib % 32) tl none,
    dispatch-text ib tl,
    dispatch-bytes ib tl,
    inline_head-on_head ib tl,
    dispatch-simple ib tl,
    simple_rest,
  )
    where
      simple_rest :
          ib ≢ 0xf4
          → ib ≢ 0xf5
          → ib ≢ 0xf6
          → ib ≢ 0xf7
          → simple_in_place (decode_step dec opts) depth ib (free ib tl)
            ≡ decode_step dec opts depth false (free ib tl)
      simple_rest p q r t = unfold simple_in_place in ground arith

  pub map_key-cons :
      (ib : ℕ) (tl : List ℕ)
      → ib < 256
      → 23 ≤ max_bytes opts
      → map_key (decode_step dec opts) opts depth (free ib tl)
        ≡ decode_step dec opts depth false (free ib tl)
  unfolding map_key
  map_key-cons ib tl h hb = ground (
    arith,
    bit_and-major ib h,
    bit_and-info ib h,
    decode_step-on_head ib tl none h,
    dispatch-text ib tl,
    inline_head-on_head ib tl,
  )

-- The items of arrays and the keys of maps are read alike by the branches inside the loops and by
-- decodeValue, errors included, if no memory budget is set and strings of 23 bytes are allowed.
pub in_place-decode_value :
    (fuel : ℕ) (opts : DecodeOpts) (depth : ℕ) (src : List ℕ)
    → IsBytes src
    → 23 ≤ max_bytes opts
    → let dec : Decoder = decode_value (suc fuel) opts in
      let s : State = record { rest = src; budget = none } in
      (array_item dec opts depth s ≡ dec depth false s)
      × (map_key dec opts depth s ≡ dec depth false s)
unfolding decode_value
in_place-decode_value fuel opts depth [] h hb =
    (unfold array_item decode_step parse_head in refl, unfold map_key in refl)
in_place-decode_value fuel opts depth (ib ∷ tl) h hb = (
  array_item-cons (decode_value fuel opts) opts depth ib tl h.0 hb,
  map_key-cons (decode_value fuel opts) opts depth ib tl h.0 hb,
)

-- A short text in an array is not held to the limit on strings: the item is accepted where
-- decodeValue rejects the same bytes.
pub array_item-over_limit :
    (fuel : ℕ) (opts : DecodeOpts) (depth n : ℕ) (tl : List ℕ)
    → n < 24
    → max_bytes opts < n
    → n ≤ length tl
    → opts.reject_invalid_utf8 ≡ false
    → let dec : Decoder = decode_value (suc fuel) opts in
      let s : State = record { rest = (0x60 + n) ∷ tl; budget = none } in
      (array_item dec opts depth s ≡ ok (text (take n tl)) (advance (1 + n) s))
      × (dec depth false s ≡ fail max_byte_string_length s)
unfolding decode_value
array_item-over_limit fuel opts depth n tl hn hm hl hu = (
  unfold array_item text_in_place in
      ground (arith, bit_and-major (0x60 + n) (omega arith), bit_and-info (0x60 + n) (omega arith)),
  unfold parse_arg dispatch decode_text is_long_head is_shortest in
      ground (
        arith,
        decode_step-on_head (decode_value fuel opts) opts depth (0x60 + n) tl none (omega arith),
      ),
)
