-- ===== src/Rfc8949/Maps.antt =====
-- rfc8949/decode.go: decodeMap and decodeIndefiniteMap.
use corecbor.Prelude.{
  ℕ, zero, suc, ◌+◌, ◌-◌, ◌*◌, Bool, true, false, ◌&&◌, List, [], ◌∷◌, none, some, ltb, leb, ◌==◌,
  if◌then◌else◌, length, take, bit_and,
}
use corecbor.Cbor.Value.{Value, MapEntry, map, null, make_map}
use corecbor.Cbor.Error.{
  truncated, indefinite_length, max_array_length, max_nesting_depth, duplicate_map_key,
  null_map_key,
}
use corecbor.Wire.Head.{HeadResult, major_text, ai_indefinite, break_code}
use corecbor.Rfc8949.Options.{DecodeOpts, max_nesting, max_array}
use corecbor.Rfc8949.State.{State, Outcome, ok, err, out_of_fuel, bind, fail, advance, charge}
use corecbor.Rfc8949.Arrays.{Decoder, is_short_string, text_in_place}
use corecbor.Rfc8949.Insert.{Dedup, map_insert}

abbrev pub is_null : Value → Bool
is_null null = true
is_null _ = false

-- The key of an entry: a short text is read in place, as in decodeArray.
unfoldable pub map_key : Decoder → DecodeOpts → ℕ → State → Outcome Value
map_key dec opts depth s = elim s.rest [
  | [] ↦ dec depth false s
  | ib ∷ tl ↦
      if is_short_string major_text ib s
      then text_in_place opts (bit_and ib 0x1f) tl s
      else dec depth false s
]

-- `src[keyOff:next]`, between two states.
abbrev pub between : State → State → List ℕ
between s s' = take (length s.rest - length s'.rest) s.rest

-- Behind the key: the test for null, the value, and mapInsert. An error of the latter is
-- reported at the key.
unfoldable pub map_value :
    Decoder
    → DecodeOpts
    → ℕ
    → List MapEntry
    → Dedup
    → State
    → Value
    → State
    → Outcome (List MapEntry × Dedup)
map_value dec opts depth m dedup at key s =
    if opts.reject_null_map_keys && is_null key
    then err null_map_key at.rest s.budget
    else bind (dec depth false s) λ val s'. elim (map_insert opts m key val (between at s) dedup) [
      | none ↦ err duplicate_map_key at.rest s'.budget
      | some r ↦ ok r s'
    ]

unfoldable pub map_entries :
    Decoder → DecodeOpts → ℕ → ℕ → List MapEntry → Dedup → State → Outcome (List MapEntry)
map_entries dec opts depth zero m dedup s = ok m s
map_entries dec opts depth (suc n) m dedup s = bind (map_key dec opts depth s) λ key s'.
    bind (map_value dec opts depth m dedup s key s')
      λ r s''. map_entries dec opts depth n r.0 r.1 s''

-- The loop up to the break code. There is no table, and the key is always read by decodeValue.
unfoldable pub break_entries :
    ℕ → Decoder → DecodeOpts → ℕ → List MapEntry → State → Outcome (List MapEntry)
break_entries zero dec opts depth m s = out_of_fuel
break_entries (suc fuel) dec opts depth m s = elim s.rest [
  | [] ↦ fail truncated s
  | ib ∷ _ ↦ elim (ib == break_code) [
    | true ↦ ok m (advance 1 s)
    | false ↦ elim (leb (max_array opts) (length m)) [
      | true ↦ fail max_array_length s
      | false ↦ bind (dec depth false s) λ key s'.
          bind (map_value dec opts depth m none s key s')
            λ r s''. break_entries fuel dec opts depth r.0 s''
    ]
  ]
]

unfoldable pub indefinite_map : Decoder → DecodeOpts → ℕ → State → Outcome Value
indefinite_map dec opts depth s =
    if ltb (max_nesting opts) (depth + 1)
    then fail max_nesting_depth s
    else bind (break_entries (suc (length s.rest)) dec opts (depth + 1) [] s)
        λ m s'. ok (map (make_map m)) s'

-- dedupThreshold
abbrev pub dedup_threshold : ℕ
dedup_threshold = 16

abbrev pub new_dedup : ℕ → Dedup
new_dedup count = if ltb dedup_threshold count then some (λ _. []) else none

unfoldable pub decode_map : Decoder → DecodeOpts → HeadResult → ℕ → State → Outcome Value
unfolding charge
decode_map dec opts h depth s =
    if h.ai == ai_indefinite
    then if opts.reject_indefinite_length
      then fail indefinite_length s
      else indefinite_map dec opts depth (advance h.n s)
    else if ltb (max_array opts) h.arg
    then fail max_array_length s
    else if ltb (max_nesting opts) (depth + 1)
    then fail max_nesting_depth s
    else charge (h.arg * 32) s λ s'.
      bind (map_entries dec opts (depth + 1) h.arg [] (new_dedup h.arg) (advance h.n s'))
        λ m s''. ok (map (make_map m)) s''
