-- ===== src/Rfc8949/Total/Whole.antt =====
-- The ends of decodeValue and Decode.
use corecbor.Prelude.{
  ℕ, zero, suc, ◌+◌, ◌≤◌, ◌<◌, ◌≡◌, ◌≢◌, Bool, true, false, ◌&&◌, not, List, [], ◌∷◌, length, ltb,
  ◌==◌, arith, some,
}
use corecbor.Cbor.Value.{Value}
use corecbor.Wire.Head.{HeadResult, parse_head}
use corecbor.Rfc8949.Options.{DecodeOpts, max_nesting}
use corecbor.Rfc8949.State.{
  BudgetState, Budget, State, ok, out_of_fuel, advance, is_reserved, is_long_head,
}
use corecbor.Rfc8949.Arrays.{Decoder}
use corecbor.Rfc8949.Decode.{is_known_tag, decode_tag, dispatch, decode_step, decode_value, decode}
use corecbor.Rfc8949.Total.Ensures.{
  Ensures, holds, rejected, Ensures-if, Ensures-bind, Ensures-weaken, Ensures-ne-out_of_fuel,
  Ensures-ok, Charged, Shrinks, Total, length-advance, advance-Shrinks,
}
use corecbor.Rfc8949.Total.Strings.{decode_bytes-Ensures, decode_text-Ensures, decode_other-Ensures}
use corecbor.Rfc8949.Total.Arrays.{decode_array-Ensures}
use corecbor.Rfc8949.Total.Maps.{decode_map-Ensures}

module _ (n : ℕ) (dec : Decoder) (total : Total n dec) (opts : DecodeOpts) where
  module _ (h : HeadResult) (depth : ℕ) (strip : Bool) (s : State) (some_read : 0 < h.n)
      (some_left : 0 < length s.rest) (small : length s.rest ≤ n) where
    decode_tag-Ensures : Ensures (λ v. Shrinks s) (decode_tag dec opts h depth strip s)
    unfolding decode_tag
    decode_tag-Ensures =
        Ensures-if (opts.reject_unknown_tags && not (is_known_tag h.arg)) (λ _. rejected)
          λ _.
            Ensures-if ((h.arg == 55799) && strip)
              (λ _. Ensures-weaken (inside depth true) λ v s' q. later s' q)
              λ _.
                Ensures-if (ltb (max_nesting opts) (depth + 1)) (λ _. rejected)
                  λ _. Ensures-bind (inside (depth + 1) false) λ v s' q. holds (later s' q)
      where
        next : State
        next = advance h.n s

        inside : (d : ℕ) (strip' : Bool) → Ensures (λ v. Shrinks next) (dec d strip' next)
        inside d strip' = total d strip' next (omega (arith, length-advance h.n s))

        later : (s' : State) → Shrinks next s' → Shrinks s s'
        later s' q = (omega (arith, length-advance h.n s, q.0), q.1)

    dispatch-Ensures : Ensures (λ v. Shrinks s) (dispatch dec opts h depth strip s)
    unfolding dispatch
    dispatch-Ensures =
        Ensures-if (h.major == 0x00) (λ _. holds (advance-Shrinks h.n s some_read some_left))
          λ _.
            Ensures-if (h.major == 0x20) (λ _. holds (advance-Shrinks h.n s some_read some_left))
              λ _.
                Ensures-if (h.major == 0x40)
                  (λ _. decode_bytes-Ensures opts h s some_read some_left)
                  λ _.
                    Ensures-if (h.major == 0x60)
                      (λ _. decode_text-Ensures opts h s some_read some_left)
                      λ _.
                        Ensures-if (h.major == 0x80)
                          (λ _.
                            decode_array-Ensures n dec total opts h depth s some_read some_left
                              small)
                          λ _.
                            Ensures-if (h.major == 0xa0)
                              (λ _.
                                decode_map-Ensures n dec total opts h depth s some_read some_left
                                  small)
                              λ _.
                                Ensures-if (h.major == 0xc0) (λ _. decode_tag-Ensures)
                                  λ _.
                                    Ensures-if (h.major == 0xe0)
                                      (λ _. decode_other-Ensures opts h s some_read some_left)
                                      λ _. rejected

  some_left : (src : List ℕ) → (parse_head src).n == 0 ≡ false → 0 < length src
  some_left [] h = unfold parse_head in cc (h)
  some_left (x ∷ src) h = omega arith

  decode_step-Total : Total (suc n) (decode_step dec opts)
  unfolding decode_step
  decode_step-Total depth strip s small =
      Ensures-if (h.n == 0) (λ _. rejected)
        λ some_read.
          Ensures-if (is_reserved h.ai) (λ _. rejected)
            λ _.
              Ensures-if (is_long_head opts h) (λ _. rejected)
                λ _.
                  dispatch-Ensures h depth strip s (ground arith) (some_left s.rest some_read)
                    (omega arith)
    where
      h : HeadResult
      h = parse_head s.rest

decode_value-Total : (fuel : ℕ) (opts : DecodeOpts) → Total fuel (decode_value fuel opts)
unfolding decode_value
decode_value-Total zero opts depth strip s h = absurd (omega arith)
decode_value-Total (suc fuel) opts depth strip s h =
    decode_step-Total fuel (decode_value fuel opts) (decode_value-Total fuel opts) opts depth strip
      s h

pub decode-Ensures :
    (src : List ℕ) (opts : DecodeOpts) (b : Budget)
    → Ensures (λ v s. (length s.rest < length src) × Charged b s.budget) (decode src opts b)
unfolding decode
decode-Ensures src opts b =
    decode_value-Total (suc (length src)) opts 0 true (record { rest = src; budget = b })
      (omega arith)

-- Decode ends on every source, under all options and budgets: the fuel that the model hands out,
-- a unit for each byte and one more, never runs out.
pub decode-ne-out_of_fuel :
    (src : List ℕ) (opts : DecodeOpts) (b : Budget) → decode src opts b ≢ out_of_fuel
decode-ne-out_of_fuel src opts b = Ensures-ne-out_of_fuel (decode-Ensures src opts b)

-- What a successful Decode leaves: a rest that is shorter than the source, and with a budget the
-- same limit, no less allocated than before, and not more than the limit if it was not before.
pub decode-charges :
    (src : List ℕ) (opts : DecodeOpts) (bs : BudgetState) (v : Value) (s : State)
    → decode src opts (some bs) ≡ ok v s
    → (length s.rest < length src) × Charged (some bs) s.budget
decode-charges src opts bs v s e = Ensures-ok (decode-Ensures src opts (some bs)) e
