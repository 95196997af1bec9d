-- ===== src/Rfc8949/Cursor.antt =====
-- rfc8949/cursor.go: Cursor, which moves over a source item by item. Positions and counts are ints,
-- words of 64 bits in two's complement.
pub mod Whole
pub mod Faults
pub mod Keys
pub mod Find
use corecbor.Prelude.{
  ℕ, zero, suc, ◌-◌, ◌*◌, ◌%◌, ◌^◌, Bool, true, false, ◌&&◌, ◌||◌, not, List, [], ◌∷◌, ltb, ◌==◌,
  if◌then◌else◌, length, drop, take, bit_and,
}
use corecbor.Cbor.Value.{Value}
use corecbor.Wire.Head.{HeadResult, parse_head, major_text, major_array, major_map, ai_indefinite}
use corecbor.Rfc8949.Equal.{same_bytes}
use corecbor.Rfc8949.Options.{DecodeOpts}
use corecbor.Rfc8949.State.{Budget}
use corecbor.Rfc8949.State
use corecbor.Rfc8949.Decode.{decode}
use corecbor.Rfc8949.Skip.{
  CursorError, truncated, not_in_container, key_not_found, type_mismatch, decoding, Frame,
  minus_one, is_negative, int_ltb, int_add, Skipped, at, stopped, crashed, unfinished, peek,
  past_end, no_index, there, starts_break, skip_item, skip_remaining,
}

-- The innermost container is the first of `stack`; the budget is behind a pointer of the options.
pub record Cursor : Type 0 where
  pub src : List ℕ
  pub pos : ℕ
  pub stack : List Frame
  pub opts : DecodeOpts
  pub budget : Budget

unfoldable pub new_cursor : List ℕ → DecodeOpts → Budget → Cursor
new_cursor src opts budget = record { src = src; pos = 0; stack = []; opts = opts; budget = budget }

-- A method changes the cursor on an error, too. `out_of_fuel` is no result of the code.
pub data Result (A : Type 0) : Type 0 where
  done : A → Cursor → Result A
  failed : CursorError → Cursor → Result A
  panics out_of_fuel : Result A

abbrev pub moved : {A : Type 0} → Skipped → Cursor → (Cursor → Result A) → Result A
moved (at p) c f = f (record c { pos = p })
moved (stopped e p) c f = failed e (record c { pos = p })
moved crashed c f = panics
moved unfinished c f = out_of_fuel

unfoldable pub offset : Cursor → ℕ
offset c = c.pos

unfoldable pub at_end : Cursor → Bool
at_end c = elim c.stack [ [] ↦ not (int_ltb c.pos (length c.src)) | top ∷ _ ↦ top.remaining == 0 ]

unfoldable pub at_break : Cursor → Result Bool
unfolding peek
at_break c = elim (peek c.src c.pos) [
  | past_end ↦ done false c
  | no_index ↦ panics
  | there b ↦ done (starts_break b) c
]

unfoldable pub kind : Cursor → Result ℕ
unfolding peek
kind c = elim (peek c.src c.pos) [
  | past_end ↦ failed truncated c
  | no_index ↦ panics
  | there [] ↦ panics
  | there (b ∷ _) ↦ done (bit_and b 0xe0) c
]

-- `k` items less in the innermost container, if it has a count and any are left.
abbrev pub counted_down : ℕ → Frame → Frame
counted_down k top =
    if not (top.remaining == 0) && not (is_negative top.remaining)
    then record top { remaining = int_add top.remaining (2 ^ 64 - k) }
    else top

unfoldable pub count_down : ℕ → Cursor → Cursor
count_down k c = elim c.stack [
  | [] ↦ c
  | top ∷ more ↦ record c { stack = counted_down k top ∷ more }
]

abbrev pub consume_from_frame : Cursor → Cursor
consume_from_frame c = count_down 1 c

unfoldable pub skip : ℕ → Cursor → Result ℕ
unfolding skip_item count_down
skip fuel c =
    moved (skip_item c.src fuel c.pos) c
      λ c'. done (int_add c'.pos (2 ^ 64 - c.pos)) (consume_from_frame c')

unfoldable pub raw_bytes : ℕ → Cursor → Result (List ℕ)
unfolding skip_item count_down
raw_bytes fuel c = moved (skip_item c.src fuel c.pos) c λ c'.
    if ltb c'.pos c.pos || ltb (length c.src) c'.pos
    then panics
    else done (take (c'.pos - c.pos) (drop c.pos c.src)) (consume_from_frame c')

unfoldable pub decode_item : Cursor → Result Value
unfolding count_down
decode_item c =
    if ltb (length c.src) c.pos then panics else elim (decode (drop c.pos c.src) c.opts c.budget) [
      | State.ok v s ↦
          let next = length c.src - c.pos - length s.rest in
          done v (consume_from_frame (record c { pos = int_add c.pos next; budget = s.budget }))
      | State.err e _ b ↦ failed (decoding e) (record c { budget = b })
      | State.out_of_fuel ↦ out_of_fuel
    ]

-- The common body of EnterArray and EnterMap.
unfoldable pub enter : ℕ → Bool → Cursor → Result ℕ
unfolding peek
enter major is_map c = elim (peek c.src c.pos) [
  | past_end ↦ failed truncated c
  | no_index ↦ panics
  | there b ↦
      let h = parse_head b in
      let is_open = h.ai == ai_indefinite in
      let items = if is_map then h.arg * 2 % 2 ^ 64 else h.arg in
      let frame : Frame = record {
        remaining = if is_open then minus_one else items;
        is_map = is_map;
      } in
      if h.n == 0
      then failed truncated c
      else if not (h.major == major)
      then failed type_mismatch c
      else done (if is_open then minus_one else h.arg)
          (record c { pos = int_add c.pos h.n; stack = frame ∷ c.stack })
]

unfoldable pub enter_array : Cursor → Result ℕ
unfolding enter
enter_array c = enter major_array false c

unfoldable pub enter_map : Cursor → Result ℕ
unfolding enter
enter_map c = enter major_map true c

-- The common body of ExitArray and ExitMap.
unfoldable pub exit : Bool → ℕ → Cursor → Result Unit
unfolding skip_remaining
exit is_map fuel c = elim c.stack [
  | [] ↦ failed not_in_container c
  | top ∷ more ↦
      if not (if is_map then top.is_map else not top.is_map)
      then failed not_in_container c
      else moved (skip_remaining c.src fuel c.pos top) c λ c'. done tt (record c' { stack = more })
]

unfoldable pub exit_array : ℕ → Cursor → Result Unit
unfolding exit
exit_array fuel c = exit false fuel c

unfoldable pub exit_map : ℕ → Cursor → Result Unit
unfolding exit
exit_map fuel c = exit true fuel c

-- The key at the position, if it is a text of definite length that lies within the source.
pub data KeyTest : Type 0 where
  same_key : ℕ → KeyTest
  other_key no_slice : KeyTest

unfoldable pub test_key : List ℕ → ℕ → HeadResult → List ℕ → KeyTest
test_key src pos h key =
    let start = int_add pos h.n in
    let end = int_add start h.arg in
    if not (h.major == major_text) || h.ai == ai_indefinite
    then other_key
    else if int_ltb (length src) end
    then other_key
    else if is_negative end || ltb end start
    then no_slice
    else if same_bytes (take (end - start) (drop start src)) key
    then same_key end
    else other_key

-- The loop of FindMapKey, with `n` for the fuel of skipItem.
unfoldable pub find_key : ℕ → ℕ → List ℕ → Frame → Cursor → Result Unit
unfolding peek test_key skip_item count_down
find_key n zero key top c = out_of_fuel
find_key n (suc fuel) key top c = elim (top.remaining == 0) [
  | true ↦ failed key_not_found c
  | false ↦ elim (peek c.src c.pos) [
    | past_end ↦ failed truncated c
    | no_index ↦ panics
    | there b ↦ elim (is_negative top.remaining && starts_break b) [
      | true ↦ failed key_not_found c
      | false ↦
          let h = parse_head b in
          if h.n == 0 then failed truncated c else elim (test_key c.src c.pos h key) [
            | same_key end ↦ done tt (count_down 1 (record c { pos = end }))
            | no_slice ↦ panics
            | other_key ↦ moved (skip_item c.src n c.pos) c λ c'.
                moved (skip_item c.src n c'.pos) c'
                  λ c''. find_key n fuel key (counted_down 2 top) (count_down 2 c'')
          ]
    ]
  ]
]

unfoldable pub find_map_key : ℕ → List ℕ → Cursor → Result Unit
unfolding find_key
find_map_key fuel key c = elim c.stack [
  | [] ↦ failed not_in_container c
  | top ∷ _ ↦ if not top.is_map then failed not_in_container c else find_key fuel fuel key top c
]
