-- ===== src/Tests/Cursors.antt =====
-- rfc8949/cursor.go at concrete inputs.
use corecbor.Prelude.{ℕ, ◌≡◌, inr, refl, false, List, [], ◌∷◌, ◌++◌, none, arith, length}
use corecbor.Cbor.Value.{Value, Items, Pairs, uint, text, array, map, null, nil, cons, end, entry}
use corecbor.Cbor.Utf8.{valid_utf8, utf8_run, utf8_step, lead}
use corecbor.Wire.Head.{head_bytes}
use corecbor.Rfc8949.Equal.{values_equal}
use corecbor.Rfc8949.Options.{strict_opts, max_bytes, max_array, max_nesting}
use corecbor.Rfc8949.Serial.{serialize, serialize_pairs}
use corecbor.Rfc8949.Valid.{IsValid}
use corecbor.Rfc8949.Cursor.{
  Cursor, done, out_of_fuel, skip, raw_bytes, decode_item, consume_from_frame, enter_array,
  exit_array, find_map_key,
}
use corecbor.Rfc8949.Cursor.Whole.{enough, moved_by, skip-decode_item, exit_array-enter_array}
use corecbor.Rfc8949.Cursor.Find.{in_map, scan, find_map_key-scan}
use corecbor.Rfc8949.Cursor.Faults.{backward, skip-out_of_fuel}

abbrev some_items : Items
some_items = cons (uint 1) (cons (text (0x61 ∷ [])) (cons (array nil) nil))

abbrev some_pairs : Pairs
some_pairs =
    entry (uint 1) null
      (entry (text (0x61 ∷ [])) (array some_items) (entry (text (0x62 ∷ [])) null end))

-- At the second of two items, with a byte behind it.
abbrev second : Value → Cursor
second v = record {
  src = 0x00 ∷ (serialize v ++ (0xff ∷ []));
  pos = 1;
  stack = record { remaining = 2; is_map = false } ∷ [];
  opts = strict_opts;
  budget = none;
}

skip-decode_item_example :
    let c = second (map some_pairs) in
    let c' = consume_from_frame (moved_by (length (serialize (map some_pairs))) c) in
    (skip (enough c) c ≡ done (length (serialize (map some_pairs))) c')
    × (raw_bytes (enough c) c ≡ done (serialize (map some_pairs)) c')
    × (decode_item c ≡ done (map some_pairs) c')
skip-decode_item_example =
    skip-decode_item (second (map some_pairs)) (map some_pairs) (0xff ∷ [])
      (unfold serialize head_bytes in omega arith) (omega arith, refl)
      (unfold IsValid max_bytes max_array max_nesting valid_utf8 utf8_run utf8_step lead
          values_equal in
        ground arith)
      refl (unfold max_bytes in omega arith) refl

exit_array-enter_array_example :
    (c' : Cursor) × (enter_array (second (array some_items)) ≡ done 3 c')
    × (exit_array (enough (second (array some_items))) c'
        ≡ done tt (moved_by (length (serialize (array some_items))) (second (array some_items))))
exit_array-enter_array_example =
    exit_array-enter_array (second (array some_items)) strict_opts 0 (0xff ∷ [])
      (unfold serialize head_bytes in omega arith) some_items
      (unfold IsValid max_bytes max_array max_nesting valid_utf8 utf8_run utf8_step lead in
        ground arith)
      (omega arith, refl)

-- new_cursor
abbrev start : List ℕ → Cursor
start src = record { src = src; pos = 0; stack = []; opts = strict_opts; budget = none }

abbrev first_key : Cursor
first_key = start (serialize_pairs some_pairs ++ (0xff ∷ []))

find_map_key-scan_example :
    find_map_key (enough first_key) (0x62 ∷ []) (in_map (0x62 ∷ []) first_key [] 0 6)
    ≡ scan (0x62 ∷ []) first_key [] 0 some_pairs
find_map_key-scan_example =
    find_map_key-scan strict_opts 0 (0x62 ∷ []) first_key [] some_pairs (0xff ∷ [])
      (unfold serialize head_bytes in omega arith)
      (unfold IsValid max_bytes max_array max_nesting valid_utf8 utf8_run utf8_step lead
          values_equal in
        ground arith)
      (omega arith, refl)

-- An indefinite text whose first chunk claims 2^64 - 9 bytes.
skip-out_of_fuel_example : skip 1000 (start (0x7f ∷ (backward ++ []))) ≡ out_of_fuel
skip-out_of_fuel_example =
    skip-out_of_fuel (start (0x7f ∷ (backward ++ []))) 0x7f 1000 [] (inr refl) (omega arith)
      (omega arith, refl)
