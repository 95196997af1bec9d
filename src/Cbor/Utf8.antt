-- ===== src/Cbor/Utf8.antt =====
-- utf8.Valid and utf8.ValidString of the standard library, as the automaton of the well-formed
-- sequences (Unicode 3.9, table 3-7): no surrogates, no overlong forms, nothing above U+10FFFF.
use corecbor.Prelude.{
  ℕ, zero, suc, Bool, false, ◌&&◌, List, [], ◌∷◌, ltb, leb, ◌==◌, if◌then◌else◌, Option, none, some,
}

-- `more` continuation bytes are to come, the next one from `lo` to `hi`.
pub record Pending : Type 0 where
  pub more : ℕ
  pub lo : ℕ
  pub hi : ℕ

abbrev pub expect : ℕ → ℕ → ℕ → Option Pending
expect more lo hi = some (record { more = more; lo = lo; hi = hi })

abbrev pub start : Pending
start = record { more = 0; lo = 0; hi = 0 }

-- The first byte of a sequence.
unfoldable pub lead : ℕ → Option Pending
lead b =
    if ltb b 0x80
    then some start
    else if ltb b 0xc2
    then none
    else if ltb b 0xe0
    then expect 1 0x80 0xbf
    else if b == 0xe0
    then expect 2 0xa0 0xbf
    else if b == 0xed
    then expect 2 0x80 0x9f
    else if ltb b 0xf0
    then expect 2 0x80 0xbf
    else if b == 0xf0
    then expect 3 0x90 0xbf
    else if ltb b 0xf4
    then expect 3 0x80 0xbf
    else if b == 0xf4
    then expect 3 0x80 0x8f
    else none

unfoldable pub utf8_step : ℕ → ℕ → ℕ → ℕ → Option Pending
unfolding lead
utf8_step zero lo hi b = lead b
utf8_step (suc k) lo hi b = if leb lo b && leb b hi then expect k 0x80 0xbf else none

unfoldable pub utf8_run : Option Pending → List ℕ → Bool
unfolding utf8_step
utf8_run none bs = false
utf8_run (some p) [] = p.more == 0
utf8_run (some p) (b ∷ bs) = utf8_run (utf8_step p.more p.lo p.hi b) bs

unfoldable pub valid_utf8 : List ℕ → Bool
unfolding utf8_run
valid_utf8 bs = utf8_run (some start) bs
