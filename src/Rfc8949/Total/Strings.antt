-- ===== src/Rfc8949/Total/Strings.antt =====
-- The ends of decodeBytes, decodeText, decodeOther and the chunk loops.
use corecbor.Prelude.{
  ℕ, zero, suc, ◌+◌, ◌%◌, ◌≤◌, ◌<◌, ◌&&◌, ◌||◌, not, List, [], ◌∷◌, ◌++◌, length, take, drop,
  length-drop, ltb, ◌==◌, arith,
}
use corecbor.Cbor.Value.{Value, bytes, text}
use corecbor.Cbor.Utf8.{valid_utf8}
use corecbor.Wire.Head.{HeadResult, parse_head, break_code, ai_indefinite}
use corecbor.Rfc8949.Options.{DecodeOpts, max_bytes}
use corecbor.Rfc8949.State.{Budget, State, Outcome, ok, advance, is_reserved, is_long_head}
use corecbor.Rfc8949.Strings.{
  chunks, indefinite_bytes, indefinite_text, decode_bytes, decode_text, payload,
}
use corecbor.Rfc8949.Scalars.{decode_other, finite_or_fail, decode_simple, is_non_finite}
use corecbor.Rfc8949.Total.Ensures.{
  Ensures, holds, rejected, Ensures-if, Ensures-bind, Charged, Charged-refl, Shrinks,
  charge-Ensures, length-advance, Ensures-weaken, advance-Shrinks,
}

-- The chunk loop stands at a break code at the end.
abbrev AtBreak : State → List ℕ → State → Type 0
AtBreak s buf s' =
    (0 < length s'.rest) × (length s'.rest ≤ length s.rest) × Charged s.budget s'.budget

chunks-Ensures :
    (fuel : ℕ) (opts : DecodeOpts) (want : ℕ) (buf : List ℕ) (src : List ℕ) (b : Budget)
    → length src < fuel
    → let s : State = record { rest = src; budget = b } in
      Ensures (AtBreak s) (chunks fuel opts want buf s)
unfolding chunks
chunks-Ensures zero opts want buf src b h = absurd (omega arith)
chunks-Ensures (suc fuel) opts want buf [] b h = rejected
chunks-Ensures (suc fuel) opts want buf (ib ∷ tl) b h =
    Ensures-if (ib == break_code) (λ _. holds (omega arith, omega arith, Charged-refl b))
      λ _.
        Ensures-if (hd.n == 0) (λ _. rejected)
          λ some_read.
            Ensures-if (not (hd.major == want) || hd.ai == ai_indefinite) (λ _. rejected)
              λ _.
                Ensures-if (is_reserved hd.ai) (λ _. rejected)
                  λ _.
                    Ensures-if (is_long_head opts hd) (λ _. rejected)
                      λ _.
                        Ensures-if (ltb (max_bytes opts) hd.arg) (λ _. rejected)
                          λ _.
                            Ensures-if (ltb (max_bytes opts) (length buf + hd.arg)) (λ _. rejected)
                              λ _.
                                Ensures-if (ltb (length (ib ∷ tl)) (hd.n + hd.arg)) (λ _. rejected)
                                  λ _. again (
                                    chunks-Ensures fuel opts want
                                      (buf ++ take hd.arg (drop hd.n (ib ∷ tl)))
                                      (drop (hd.n + hd.arg) (ib ∷ tl)) b (shorter (ground arith)))
  where
    hd : HeadResult
    hd = parse_head (ib ∷ tl)

    s : State
    s = record { rest = ib ∷ tl; budget = b }

    next : State
    next = advance (hd.n + hd.arg) s

    shorter : 0 < hd.n → length next.rest < fuel
    shorter pos = omega (arith, length-advance (hd.n + hd.arg) s)

    again : {r : Outcome (List ℕ)} → Ensures (AtBreak next) r → Ensures (AtBreak s) r
    again e =
        Ensures-weaken e
          λ buf' s' q. (q.0, omega (arith, length-advance (hd.n + hd.arg) s, q.1), q.2)

module _ (opts : DecodeOpts) where
  chunks_from :
      (want : ℕ) (s : State) → Ensures (AtBreak s) (chunks (suc (length s.rest)) opts want [] s)
  chunks_from want s =
      chunks-Ensures (suc (length s.rest)) opts want [] s.rest s.budget (omega arith)

  indefinite_bytes-Ensures : (s : State) → Ensures (λ v. Shrinks s) (indefinite_bytes opts s)
  unfolding indefinite_bytes
  indefinite_bytes-Ensures s =
      Ensures-bind (chunks_from 0x40 s)
        λ buf s' q. holds (omega (arith, length-advance 1 s', q.0, q.1), q.2)

  indefinite_text-Ensures : (s : State) → Ensures (λ v. Shrinks s) (indefinite_text opts s)
  unfolding indefinite_text
  indefinite_text-Ensures s = Ensures-bind (chunks_from 0x60 s) λ buf s' q.
      Ensures-if (opts.reject_invalid_utf8 && not (valid_utf8 buf)) (λ _. rejected)
        λ _. holds (omega (arith, length-advance 1 s', q.0, q.1), q.2)

  module _ (h : HeadResult) (s : State) (some_read : 0 < h.n) (some_left : 0 < length s.rest) where
    take-Charged :
        (v : Value) (b : Budget)
        → Charged s.budget b
        → Ensures
            (λ (w : Value). Shrinks s)
            (ok v (advance (h.n + h.arg) (record { rest = s.rest; budget = b })))
    take-Charged v b c = holds (omega (arith, length-drop (h.n + h.arg) s.rest), c)

    pub decode_bytes-Ensures : Ensures (λ v. Shrinks s) (decode_bytes opts h s)
    unfolding decode_bytes
    decode_bytes-Ensures =
        Ensures-if (h.ai == ai_indefinite)
          (λ _.
            Ensures-if opts.reject_indefinite_length (λ _. rejected)
              λ _.
                Ensures-weaken (indefinite_bytes-Ensures (advance h.n s))
                  λ v s' q. (omega (arith, length-advance h.n s, q.0), q.1))
          λ _.
            Ensures-if (ltb (max_bytes opts) h.arg) (λ _. rejected)
              λ _.
                Ensures-if (ltb (length s.rest) (h.n + h.arg)) (λ _. rejected)
                  λ _.
                    charge-Ensures h.arg s.rest s.budget
                      (λ s'. ok (bytes (payload h s)) (advance (h.n + h.arg) s'))
                      λ b c. take-Charged (bytes (payload h s)) b c

    pub decode_text-Ensures : Ensures (λ v. Shrinks s) (decode_text opts h s)
    unfolding decode_text
    decode_text-Ensures =
        Ensures-if (h.ai == ai_indefinite)
          (λ _.
            Ensures-if opts.reject_indefinite_length (λ _. rejected)
              λ _.
                Ensures-weaken (indefinite_text-Ensures (advance h.n s))
                  λ v s' q. (omega (arith, length-advance h.n s, q.0), q.1))
          λ _.
            Ensures-if (ltb (max_bytes opts) h.arg) (λ _. rejected)
              λ _.
                Ensures-if (ltb (length s.rest) (h.n + h.arg)) (λ _. rejected)
                  λ _.
                    Ensures-if (opts.reject_invalid_utf8 && not (valid_utf8 (payload h s)))
                      (λ _. rejected)
                      λ _.
                        charge-Ensures h.arg s.rest s.budget
                          (λ s'. ok (text (payload h s)) (advance (h.n + h.arg) s'))
                          λ b c. take-Charged (text (payload h s)) b c

    done : (v : Value) → Ensures (λ (w : Value). Shrinks s) (ok v (advance h.n s))
    done v = holds (advance-Shrinks h.n s some_read some_left)

    finite-Ensures : (f : ℕ) (v : Value) → Ensures (λ w. Shrinks s) (finite_or_fail opts f v h s)
    unfolding finite_or_fail
    finite-Ensures f v =
        Ensures-if (opts.reject_non_finite_floats && is_non_finite f) (λ _. rejected) λ _. done v

    pub decode_other-Ensures : Ensures (λ v. Shrinks s) (decode_other opts h s)
    unfolding decode_other decode_simple
    decode_other-Ensures =
        Ensures-if (ltb h.ai 20) (λ _. done _)
          λ _.
            Ensures-if (h.ai == 20) (λ _. done _)
              λ _.
                Ensures-if (h.ai == 21) (λ _. done _)
                  λ _.
                    Ensures-if (h.ai == 22) (λ _. done _)
                      λ _.
                        Ensures-if (h.ai == 23) (λ _. done _)
                          λ _.
                            Ensures-if (h.ai == 24)
                              (λ _. Ensures-if (ltb (h.arg % 256) 32) (λ _. rejected) λ _. done _)
                              λ _.
                                Ensures-if (h.ai == 25) (λ _. finite-Ensures _ _)
                                  λ _.
                                    Ensures-if (h.ai == 26) (λ _. finite-Ensures _ _)
                                      λ _.
                                        Ensures-if (h.ai == 27) (λ _. finite-Ensures _ _)
                                          λ _. Ensures-if (h.ai == 31) (λ _. rejected) λ _. rejected
