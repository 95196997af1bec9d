-- ===== src/Rfc8949/Cursor/Whole.antt =====
-- rfc8949/cursor.go: the methods of Cursor at the encoding of a value.
use corecbor.Prelude.{
  ℕ, suc, ◌+◌, ◌-◌, ◌*◌, ◌%◌, ◌^◌, ◌≤◌, ◌<◌, ◌≡◌, refl, ap, ◌∙◌, Bool, true, false, List, [], ◌∷◌,
  ◌++◌, ltb, ◌==◌, if◌then◌else◌, length, length-append, take-length_append, arith, IsU64, none,
}
use corecbor.Cbor.Value.{Value, Items, Pairs, array, map, count_items, count_pairs}
use corecbor.Wire.Head.{head_bytes}
use corecbor.Wire.Head.RoundTrip.{IsMajor, head_width, parse_head-head_bytes}
use corecbor.Rfc8949.Options.{DecodeOpts, max_bytes}
use corecbor.Rfc8949.Serial.{serialize, serialize_items, serialize_pairs}
use corecbor.Rfc8949.Valid.{IsValid, is_self_described}
use corecbor.Rfc8949.RoundTrip.Heads.{length-head_bytes}
use corecbor.Rfc8949.RoundTrip.Whole.{
  decode-serialize, height-size, items_height-size, pairs_height-size,
}
use corecbor.Rfc8949.Skip.{int_add, is_negative, at, skip_item, skip_many, skip_remaining}
use corecbor.Rfc8949.Skip.Places.{Here, peek-Here, int_add-Here, head_info-definite}
use corecbor.Rfc8949.Skip.Leaves.{count_items-size, count_pairs-size}
use corecbor.Rfc8949.Skip.Whole.{
  skip_item-serialize, skip_many-items, skip_many-pairs, opened, inside, behind, content_small,
}
use corecbor.Rfc8949.Cursor.{
  Cursor, done, consume_from_frame, skip, raw_bytes, decode_item, enter, enter_array, enter_map,
  exit, exit_array, exit_map,
}

-- The cursor behind `n` bytes.
abbrev pub moved_by : ℕ → Cursor → Cursor
moved_by n c = record c { pos = c.pos + n }

-- Fuel for a source: one unit for each byte and one more.
abbrev pub enough : Cursor → ℕ
enough c = suc (length c.src)

module _ (c : Cursor) (v : Value) (tl : List ℕ) (small : length c.src < 2 ^ 63)
    (here : Here c.src c.pos (serialize v ++ tl)) (valid : IsValid c.opts 0 v) where
  skips : skip_item c.src (enough c) c.pos ≡ at (c.pos + length (serialize v))
  skips =
      skip_item-serialize c.src small v c.opts 0 (length c.src) c.pos tl valid
        (omega (arith, height-size v, length-append (serialize v) tl, here.0)) here

  skip-done :
      skip (enough c) c
      ≡ done (length (serialize v)) (consume_from_frame (moved_by (length (serialize v)) c))
  unfolding skip
  skip-done =
      let size : int_add (c.pos + length (serialize v)) (2 ^ 64 - c.pos) ≡ length (serialize v) =
        omega (arith, small, here.0, length-append (serialize v) tl) in
      rw (skips, size) refl

  raw_bytes-done :
      raw_bytes (enough c) c
      ≡ done (serialize v) (consume_from_frame (moved_by (length (serialize v)) c))
  unfolding raw_bytes
  raw_bytes-done =
      let behind : ltb (c.pos + length (serialize v)) c.pos ≡ false = ground arith in
      let inside : ltb (length c.src) (c.pos + length (serialize v)) ≡ false =
        ground (arith, here.0, length-append (serialize v) tl) in
      let size : c.pos + length (serialize v) - c.pos ≡ length (serialize v) = omega arith in
      rw (skips, behind, inside, size, here.1, take-length_append (serialize v) tl) refl

  decode_item-done :
      c.budget ≡ none
      → 23 ≤ max_bytes c.opts
      → is_self_described v ≡ false
      → decode_item c ≡ done v (consume_from_frame (moved_by (length (serialize v)) c))
  unfolding decode_item
  decode_item-done b m s =
      let inside : ltb (length c.src) c.pos ≡ false = ground (arith, here.0) in
      let next : int_add c.pos (length c.src - c.pos - length tl) ≡ c.pos + length (serialize v) =
        omega (arith, small, here.0, length-append (serialize v) tl) in
      rw (inside, here.1, b, decode-serialize c.opts v tl m valid s)
        (ap (λ p. done v (consume_from_frame (record c { pos = p; budget = none }))) next)

-- Skip, RawBytes and Decode move a cursor alike: where what is left of the source, which is shorter
-- than 2^63 bytes, starts with the encoding of a value that the cursor's options let through, they leave
-- it behind the value, with one item less in the innermost container, and return the length, the bytes
-- and the value. There is no memory budget, no self-describe tag in front, and strings
-- of 23 bytes are allowed.
pub skip-decode_item :
    (c : Cursor) (v : Value) (tl : List ℕ)
    → length c.src < 2 ^ 63
    → Here c.src c.pos (serialize v ++ tl)
    → IsValid c.opts 0 v
    → c.budget ≡ none
    → 23 ≤ max_bytes c.opts
    → is_self_described v ≡ false
    → let c' = consume_from_frame (moved_by (length (serialize v)) c) in
      (skip (enough c) c ≡ done (length (serialize v)) c')
      × (raw_bytes (enough c) c ≡ done (serialize v) c')
      × (decode_item c ≡ done v c')
skip-decode_item c v tl small here valid b m s = (
  skip-done c v tl small here valid,
  raw_bytes-done c v tl small here valid,
  decode_item-done c v tl small here valid b m s,
)

module _ (c : Cursor) (major arg : ℕ) (rest : List ℕ) (small : length c.src < 2 ^ 63) where
  pub enter-head :
      (is_map : Bool)
      → IsMajor major
      → IsU64 arg
      → Here c.src c.pos (head_bytes major arg ++ rest)
      → enter major is_map c
        ≡ done arg (record (moved_by (head_width arg) c) {
          stack =
              record { remaining = if is_map then arg * 2 % 2 ^ 64 else arg; is_map = is_map }
              ∷ c.stack;
        })
  unfolding enter
  enter-head is_map m u h =
      let size : length (head_bytes major arg ++ rest) ≡ head_width arg + length rest =
        length-append (head_bytes major arg) rest
        ∙ ap (λ n. n + length rest) (length-head_bytes major arg) in
      let width : 1 ≤ head_width arg = ground arith in
      let some_bytes : (head_width arg == 0) ≡ false = ground arith in
      let same : (major == major) ≡ true = ground arith in
      let next =
        int_add-Here c.src small c.pos (head_width arg) (head_bytes major arg ++ rest) h
          (omega (arith, size)) in
      rw
        (
          enter,
          peek-Here c.src small c.pos (head_bytes major arg ++ rest) h (omega (arith, size)),
          parse_head-head_bytes major arg rest m u,
          some_bytes,
          same,
          head_info-definite arg,
          next,
        )
        refl

small-positive : (n : ℕ) → n < 2 ^ 63 → is_negative n ≡ false
small-positive n h = ground arith

module _ (c : Cursor) (o : DecodeOpts) (d : ℕ) (tl : List ℕ) (small : length c.src < 2 ^ 63) where
  -- EnterArray and ExitArray together move a cursor behind an array, where what is left of the source,
  -- which is shorter than 2^63 bytes, starts with the encoding of a valid array: EnterArray returns the
  -- number of items, ExitArray skips them all. The frames are as before: the container around the array
  -- does not count it.
  pub exit_array-enter_array :
      (xs : Items)
      → IsValid o d (array xs)
      → Here c.src c.pos (serialize (array xs) ++ tl)
      → (c' : Cursor) × (enter_array c ≡ done (count_items xs) c')
        × (exit_array (enough c) c' ≡ done tt (moved_by (length (serialize (array xs))) c))
  unfolding enter_array exit_array exit skip_remaining serialize IsValid
  exit_array-enter_array xs v h =
      let n = count_items xs in
      let b = serialize_items xs in
      let small' : length b < 2 ^ 63 = content_small c.src small c.pos 0x80 n b tl h in
      let positive : is_negative n ≡ false =
        small-positive n (omega (arith, count_items-size o (d + 1) xs v.2, small')) in
      let items : skip_many (skip_item c.src (enough c)) n (c.pos + head_width n)
          ≡ at (c.pos + length (head_bytes 0x80 n ++ b)) =
        skip_many-items c.src small xs o (d + 1) (length c.src) (c.pos + head_width n) tl v.2
          (omega (
            arith,
            items_height-size xs,
            (inside c.src small c.pos 0x80 n b tl h).0,
            length-append b tl,
          ))
          (inside c.src small c.pos 0x80 n b tl h)
        ∙ behind c.src small c.pos 0x80 n b tl h in
      (
        _,
        enter-head c 0x80 n (b ++ tl) small false (omega arith) v.0.1
            (opened c.src small c.pos 0x80 n b tl h),
        rw (positive, items) refl,
      )

  -- The same of EnterMap and ExitMap, with a map: EnterMap returns the number of pairs.
  pub exit_map-enter_map :
      (ps : Pairs)
      → IsValid o d (map ps)
      → Here c.src c.pos (serialize (map ps) ++ tl)
      → (c' : Cursor) × (enter_map c ≡ done (count_pairs ps) c')
        × (exit_map (enough c) c' ≡ done tt (moved_by (length (serialize (map ps))) c))
  unfolding enter_map exit_map exit skip_remaining serialize IsValid
  exit_map-enter_map ps v h =
      let n = count_pairs ps in
      let b = serialize_pairs ps in
      let small' : length b < 2 ^ 63 = content_small c.src small c.pos 0xa0 n b tl h in
      let size = count_pairs-size o (d + 1) [] ps v.2 in
      let whole : n * 2 % 2 ^ 64 ≡ n * 2 = omega (arith, size, small') in
      let positive : is_negative (n * 2) ≡ false =
        small-positive (n * 2) (omega (arith, size, small')) in
      let items : skip_many (skip_item c.src (enough c)) (n * 2) (c.pos + head_width n)
          ≡ at (c.pos + length (head_bytes 0xa0 n ++ b)) =
        skip_many-pairs c.src small ps o (d + 1) (length c.src) (c.pos + head_width n) [] tl v.2
          (omega (
            arith,
            pairs_height-size ps,
            (inside c.src small c.pos 0xa0 n b tl h).0,
            length-append b tl,
          ))
          (inside c.src small c.pos 0xa0 n b tl h)
        ∙ behind c.src small c.pos 0xa0 n b tl h in
      (
        _,
        enter-head c 0xa0 n (b ++ tl) small true (omega arith) v.0.1
            (opened c.src small c.pos 0xa0 n b tl h),
        rw (whole, positive, items) refl,
      )
