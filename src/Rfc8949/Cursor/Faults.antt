-- ===== src/Rfc8949/Cursor/Faults.antt =====
-- rfc8949/cursor.go: lengths and counts that are no ints, and containers inside containers.
use corecbor.Prelude.{
  ℕ, zero, suc, ◌+◌, ◌-◌, ◌⊎◌, inl, inr, ◌^◌, ◌≤◌, ◌<◌, ◌≡◌, refl, sym, ap, ◌∙◌, false, List, [],
  ◌∷◌, ◌++◌, length, length-append, append-nil, arith, be64, IsU64,
}
use corecbor.Wire.Head.{head_bytes, parse_head, parse_arg, arg_8}
use corecbor.Wire.Head.RoundTrip.{head_width}
use corecbor.Rfc8949.RoundTrip.Heads.{length-head_bytes}
use corecbor.Rfc8949.Skip.{
  int_add, int_ltb, rounds, at, unfinished, truncated, stopped, skip_chunks, skip_payload,
  skip_item, skip_head, skip_many, peek,
}
use corecbor.Rfc8949.Skip.Places.{
  Here, Here-append, peek-Here, int_add-Here, skip_item-step, skip_item-head, head_info-definite,
}
use corecbor.Cbor.Value.{Items, array, count_items}
use corecbor.Rfc8949.Options.{DecodeOpts}
use corecbor.Rfc8949.State.{Budget}
use corecbor.Rfc8949.Serial.{serialize}
use corecbor.Rfc8949.Valid.{IsValid}
use corecbor.Rfc8949.Skip.{skip_remaining}
use corecbor.Rfc8949.Cursor.{
  Cursor, done, failed, out_of_fuel, consume_from_frame, skip, new_cursor, enter_array, exit_array,
  exit, at_end,
}
use corecbor.Rfc8949.Cursor.Whole.{moved_by, enough, enter-head, exit_array-enter_array}

-- The head of a byte string of 2^64 - 9 bytes: int(h.Arg) is -9, and the head has 9 bytes.
abbrev pub backward : List ℕ
backward = 0x5b ∷ 0xff ∷ 0xff ∷ 0xff ∷ 0xff ∷ 0xff ∷ 0xff ∷ 0xff ∷ 0xf7 ∷ []

parse-backward :
    (tl : List ℕ)
    → parse_head (backward ++ tl) ≡ record { major = 0x40; ai = 27; arg = 2 ^ 64 - 9; n = 9 }
unfolding parse_head parse_arg arg_8 be64
parse-backward tl = refl

module _ (src : List ℕ) (small : length src < 2 ^ 63) where
  payload-backward :
      (pos : ℕ)
      → pos < length src
      → skip_payload src pos (record { major = 0x40; ai = 27; arg = 2 ^ 64 - 9; n = 9 }) ≡ at pos
  unfolding skip_payload
  payload-backward pos h =
      let back : int_add pos (9 + (2 ^ 64 - 9)) ≡ pos = omega (arith, small) in
      let inside : int_ltb (length src) pos ≡ false = ground arith in rw (back, inside) refl

  skip_chunks-unfinished :
      (fuel pos : ℕ) (tl : List ℕ)
      → Here src pos (backward ++ tl)
      → skip_chunks src fuel pos ≡ unfinished
  unfolding skip_chunks
  skip_chunks-unfinished zero pos tl h = refl
  skip_chunks-unfinished (suc fuel) pos tl h =
      rw
        (
          skip_chunks,
          peek-Here src small pos (backward ++ tl) h (omega arith),
          parse-backward tl,
          payload-backward pos (omega (arith, h.0)),
        )
        (skip_chunks-unfinished fuel pos tl h)

  skip_item-unfinished :
      (x fuel pos : ℕ) (tl : List ℕ)
      → (x ≡ 0x5f) ⊎ (x ≡ 0x7f)
      → Here src pos (x ∷ (backward ++ tl))
      → skip_item src fuel pos ≡ unfinished
  unfolding skip_item
  skip_item-unfinished x zero pos tl e h = refl
  skip_item-unfinished x (suc fuel) pos tl e h =
      skip_item-step src small fuel pos x (backward ++ tl) h ∙ by e
    where
      inside : Here src (pos + 1) (backward ++ tl)
      inside = Here-append src pos (x ∷ []) (backward ++ tl) h

      next : int_add pos 1 ≡ pos + 1
      next = int_add-Here src small pos 1 (x ∷ (backward ++ tl)) h (omega arith)

      stuck : skip_chunks src fuel (int_add pos 1) ≡ unfinished
      stuck = rw next (skip_chunks-unfinished fuel (pos + 1) tl inside)

      by :
          (x ≡ 0x5f) ⊎ (x ≡ 0x7f)
          → skip_head src (skip_item src fuel) fuel pos (parse_head (x ∷ (backward ++ tl)))
            ≡ unfinished
      by (inl k) = rw k (unfold skip_head parse_head parse_arg in stuck)
      by (inr k) = rw k (unfold skip_head parse_head parse_arg in stuck)

-- Skip does not end on an indefinite byte or text string, in a source shorter than 2^63 bytes, whose
-- first chunk has a head that claims 2^64 - 9 bytes: whatever the fuel, it is used up.
pub skip-out_of_fuel :
    (c : Cursor) (x fuel : ℕ) (tl : List ℕ)
    → (x ≡ 0x5f) ⊎ (x ≡ 0x7f)
    → length c.src < 2 ^ 63
    → Here c.src c.pos (x ∷ (backward ++ tl))
    → skip fuel c ≡ out_of_fuel
unfolding skip
skip-out_of_fuel c x fuel tl e small h =
    rw (skip_item-unfinished c.src small x fuel c.pos tl e h) refl

module _ (c : Cursor) (n : ℕ) (tl : List ℕ) (small : length c.src < 2 ^ 63) where
  -- Skip takes an array of 2^63 items or more for an empty one: it moves behind the head, which has
  -- nine bytes, as behind an item.
  pub skip-negative_count :
      2 ^ 63 ≤ n
      → IsU64 n
      → Here c.src c.pos (head_bytes 0x80 n ++ tl)
      → (fuel : ℕ) → skip (suc fuel) c ≡ done 9 (consume_from_frame (moved_by 9 c))
  unfolding skip
  skip-negative_count k u h fuel =
      let width : head_width n ≡ 9 = ground arith in
      let size : length (head_bytes 0x80 n ++ tl) ≡ 9 + length tl =
        length-append (head_bytes 0x80 n) tl
        ∙ ap (λ m. m + length tl) (length-head_bytes 0x80 n ∙ width) in
      let next : int_add c.pos 9 ≡ c.pos + 9 =
        int_add-Here c.src small c.pos 9 (head_bytes 0x80 n ++ tl) h (omega (arith, size)) in
      let none_left : rounds n ≡ 0 = ground arith in
      let item : skip_item c.src (suc fuel) c.pos ≡ at (c.pos + 9) =
        skip_item-head c.src small fuel c.pos 0x80 n tl (omega arith) u h
        ∙ (unfold skip_head skip_many in rw (width, next, head_info-definite n, none_left) refl) in
      let count : int_add (c.pos + 9) (2 ^ 64 - c.pos) ≡ 9 = omega (arith, h.0, size, small) in
      rw (item, count) refl

first-Here : (l : List ℕ) → Here (0x81 ∷ l) 0 (head_bytes 0x80 1 ++ l)
unfolding head_bytes
first-Here l = (omega arith, refl)

second-Here : (l : List ℕ) → Here (0x81 ∷ l) 1 (l ++ [])
second-Here l = (omega (arith, length-append l []), sym (append-nil l))

skip_item-past_end :
    (src : List ℕ) (fuel pos : ℕ)
    → length src < 2 ^ 63
    → pos ≡ length src
    → skip_item src (suc fuel) pos ≡ stopped truncated pos
unfolding skip_item peek
skip_item-past_end src fuel pos h e = ground arith

-- An array in an array is not counted when it is entered and exited: of an array whose one item is a
-- valid array, at the beginning of a source that holds nothing else and is shorter than 2^63 bytes,
-- enter both and exit the inner one. AtEnd then says that there are items left in the outer one, and
-- ExitArray fails for the outer one, at the end of the source.
pub at_end-exit_array :
    (o opts : DecodeOpts) (d : ℕ) (budget : Budget) (xs : Items)
    → IsValid o d (array xs)
    → let c = new_cursor (0x81 ∷ serialize (array xs)) opts budget in
      length c.src < 2 ^ 63
      → (c₁ c₂ c₃ : Cursor) × (enter_array c ≡ done 1 c₁)
        × (enter_array c₁ ≡ done (count_items xs) c₂)
        × (exit_array (enough c) c₂ ≡ done tt c₃)
        × (at_end c₃ ≡ false)
        × (exit_array (enough c) c₃ ≡ failed truncated c₃)
unfolding new_cursor enter_array exit_array exit skip_remaining skip_many at_end
at_end-exit_array o opts d budget xs v small =
    let src : List ℕ = 0x81 ∷ serialize (array xs) in
    let c = new_cursor src opts budget in
    let c₁ : Cursor = record c { pos = 1; stack = record { remaining = 1; is_map = false } ∷ [] } in
    let outer =
      enter-head c 0x80 1 (serialize (array xs)) small false (omega arith) (omega arith)
        (first-Here (serialize (array xs))) in
    let inner = exit_array-enter_array c₁ o d [] small xs v (second-Here (serialize (array xs))) in
    let end : skip_item src (enough c) (1 + length (serialize (array xs)))
        ≡ stopped truncated (1 + length (serialize (array xs))) =
      skip_item-past_end src (length src) (1 + length (serialize (array xs))) small (omega arith) in
    (
      c₁,
      inner.0,
      moved_by (length (serialize (array xs))) c₁,
      outer,
      inner.1,
      inner.2,
      refl,
      rw end refl,
    )
