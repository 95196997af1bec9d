-- ===== src/Rfc8949/Skip.antt =====
-- rfc8949/cursor.go: skipItem and the loops around it, on positions. An int is a word of 64 bits in
-- two's complement: positions and counts may go below zero, where int(h.Arg) does.
pub mod Places
pub mod Leaves
pub mod Whole
use corecbor.Prelude.{
  ℕ, zero, suc, ◌+◌, ◌-◌, ◌*◌, ◌%◌, ◌^◌, Bool, true, false, ◌||◌, not, List, [], ◌∷◌, ltb, leb,
  ◌==◌, if◌then◌else◌, length, drop,
}
use corecbor.Cbor.Error.{Error}
use corecbor.Wire.Head.{
  HeadResult, parse_head, major_uint, major_neg_int, major_bytes, major_text, major_array,
  major_map, major_tag, major_other, ai_indefinite, break_code,
}

pub data CursorError : Type 0 where
  truncated not_in_container key_not_found type_mismatch : CursorError
  decoding : Error → CursorError

-- cursorFrame; `remaining` is below zero in a container of indefinite length.
pub record Frame : Type 0 where
  pub remaining : ℕ
  pub is_map : Bool

-- `-1`
abbrev pub minus_one : ℕ
minus_one = 2 ^ 64 - 1

abbrev pub is_negative : ℕ → Bool
is_negative a = leb (2 ^ 63) a

-- `a < b` on ints.
abbrev pub int_ltb : ℕ → ℕ → Bool
int_ltb a b = ltb ((a + 2 ^ 63) % 2 ^ 64) ((b + 2 ^ 63) % 2 ^ 64)

-- `a + b` on ints.
abbrev pub int_add : ℕ → ℕ → ℕ
int_add a b = (a + b) % 2 ^ 64

-- The rounds of `for range n`.
abbrev pub rounds : ℕ → ℕ
rounds n = if is_negative n then 0 else n

-- Where a skip ends, if it does.
pub data Skipped : Type 0 where
  at : ℕ → Skipped
  stopped : CursorError → ℕ → Skipped
  crashed unfinished : Skipped

abbrev pub after : Skipped → (ℕ → Skipped) → Skipped
after (at p) f = f p
after (stopped e p) f = stopped e p
after crashed f = crashed
after unfinished f = unfinished

-- `c.src[c.pos:]` behind the test for the end of the source.
pub data Peeked : Type 0 where
  past_end no_index : Peeked
  there : List ℕ → Peeked

unfoldable pub peek : List ℕ → ℕ → Peeked
peek src pos =
    if not (int_ltb pos (length src))
    then past_end
    else if is_negative pos
    then no_index
    else there (drop pos src)

abbrev pub starts_break : List ℕ → Bool
starts_break [] = false
starts_break (b ∷ _) = b == break_code

-- `for range n` of skipItem.
unfoldable pub skip_many : (ℕ → Skipped) → ℕ → ℕ → Skipped
skip_many skip zero pos = at pos
skip_many skip (suc n) pos = after (skip pos) (skip_many skip n)

module _ (src : List ℕ) where
  -- The payload of a string of definite length.
  unfoldable pub skip_payload : ℕ → HeadResult → Skipped
  skip_payload pos h =
      let end = int_add pos (h.n + h.arg) in
      if int_ltb (length src) end then stopped truncated pos else at end

  unfoldable pub skip_chunks : ℕ → ℕ → Skipped
  unfolding peek skip_payload
  skip_chunks zero pos = unfinished
  skip_chunks (suc fuel) pos = elim (peek src pos) [
    | past_end ↦ stopped truncated pos
    | no_index ↦ crashed
    | there b ↦ elim (starts_break b) [
      | true ↦ at (int_add pos 1)
      | false ↦
          let h = parse_head b in
          if h.n == 0 then stopped truncated pos else after (skip_payload pos h) (skip_chunks fuel)
    ]
  ]

  -- skipIndefiniteItems, and the loop of skipRemaining.
  unfoldable pub skip_until_break : (ℕ → Skipped) → Bool → ℕ → ℕ → Skipped
  unfolding peek
  skip_until_break skip is_map zero pos = unfinished
  skip_until_break skip is_map (suc fuel) pos = elim (peek src pos) [
    | past_end ↦ stopped truncated pos
    | no_index ↦ crashed
    | there b ↦ elim (starts_break b) [
      | true ↦ at (int_add pos 1)
      | false ↦
          after (skip pos)
            λ p. after (if is_map then skip p else at p) λ p'. skip_until_break skip is_map fuel p'
    ]
  ]

  -- The switch of skipItem, with `skip` for the calls of skipItem inside it.
  unfoldable pub skip_head : (ℕ → Skipped) → ℕ → ℕ → HeadResult → Skipped
  unfolding skip_payload skip_chunks skip_until_break skip_many
  skip_head skip fuel pos h =
      let next = int_add pos h.n in
      if h.n == 0
      then stopped truncated pos
      else if h.major == major_uint || h.major == major_neg_int
      then at next
      else if h.major == major_bytes || h.major == major_text
      then if h.ai == ai_indefinite then skip_chunks fuel next else skip_payload pos h
      else if h.major == major_array
      then if h.ai == ai_indefinite
        then skip_until_break skip false fuel next
        else skip_many skip (rounds h.arg) next
      else if h.major == major_map
      then if h.ai == ai_indefinite
        then skip_until_break skip true fuel next
        else skip_many skip (rounds (h.arg * 2 % 2 ^ 64)) next
      else if h.major == major_tag
      then skip next
      else if h.major == major_other
      then at next
      else stopped truncated pos

  unfoldable pub skip_item : ℕ → ℕ → Skipped
  unfolding peek skip_head
  skip_item zero pos = unfinished
  skip_item (suc fuel) pos = elim (peek src pos) [
    | past_end ↦ stopped truncated pos
    | no_index ↦ crashed
    | there b ↦ skip_head (skip_item fuel) fuel pos (parse_head b)
  ]

  unfoldable pub skip_remaining : ℕ → ℕ → Frame → Skipped
  unfolding skip_item skip_until_break skip_many
  skip_remaining fuel pos frame =
      if is_negative frame.remaining
      then skip_until_break (skip_item fuel) frame.is_map fuel pos
      else skip_many (skip_item fuel) frame.remaining pos
