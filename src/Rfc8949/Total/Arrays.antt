-- ===== src/Rfc8949/Total/Arrays.antt =====
-- The ends of decodeArray and decodeIndefiniteArray, from those of decodeValue.
use corecbor.Prelude.{
  ℕ, zero, suc, ◌+◌, ◌*◌, ◌≤◌, ◌<◌, false, ◌&&◌, not, List, [], ◌∷◌, length, take, length-drop, ltb,
  leb, ◌==◌, if◌then◌else◌, arith, bit_and,
}
use corecbor.Cbor.Value.{Value, array}
use corecbor.Cbor.Error.{max_nesting_depth}
use corecbor.Cbor.Utf8.{valid_utf8}
use corecbor.Wire.Head.{
  HeadResult, break_code, ai_indefinite, arg_1, arg_2, arg_4, arg_8, major_text, major_bytes,
}
use corecbor.Rfc8949.Options.{DecodeOpts, max_array, max_nesting}
use corecbor.Rfc8949.State.{Budget, State, Outcome, ok, bind, fail, advance, is_reserved}
use corecbor.Rfc8949.Arrays.{
  Decoder, wide_int, int_in_place, is_short_string, text_in_place, simple_in_place, array_item,
  array_items, break_items, indefinite_array, decode_array,
}
use corecbor.Rfc8949.Total.Ensures.{
  Ensures, holds, rejected, Ensures-if, Ensures-elim, Ensures-bind, Ensures-weaken, Charged,
  Charged-refl, Charged-trans, Shrinks, Keeps, Total, charge-Ensures, length-advance,
  advance-Shrinks,
}

module _ (n : ℕ) (dec : Decoder) (total : Total n dec) (opts : DecodeOpts) where
  module _ (depth : ℕ) (ib : ℕ) (tl : List ℕ) (b : Budget) (small : suc (length tl) < n) where
    abbrev pub s₀ : State
    s₀ = record { rest = ib ∷ tl; budget = b }

    taken : (k : ℕ) (v : Value) → 0 < k → Ensures (λ (w : Value). Shrinks s₀) (ok v (advance k s₀))
    taken k v h = holds (advance-Shrinks k s₀ h (omega arith))

    wide_int-Ensures :
        (least : ℕ) (h : HeadResult) → Ensures (λ v. Shrinks s₀) (wide_int opts ib least h s₀)
    unfolding wide_int
    wide_int-Ensures least h =
        Ensures-if (h.n == 0) (λ _. rejected)
          λ some_read.
            Ensures-if (opts.reject_non_shortest && ltb h.arg least) (λ _. rejected)
              λ _. taken h.n _ (ground arith)

    int_in_place-Ensures :
        (ai : ℕ) → Ensures (λ v. Shrinks s₀) (int_in_place dec opts depth ib ai tl s₀)
    unfolding int_in_place
    int_in_place-Ensures ai =
        Ensures-if (ltb ai 24) (λ _. taken 1 _ (omega arith))
          λ _.
            Ensures-if (ai == 24) (λ _. wide_int-Ensures 24 (arg_1 0 ai tl))
              λ _.
                Ensures-if (ai == 25) (λ _. wide_int-Ensures 0x100 (arg_2 0 ai tl))
                  λ _.
                    Ensures-if (ai == 26) (λ _. wide_int-Ensures 0x1_0000 (arg_4 0 ai tl))
                      λ _.
                        Ensures-if (ai == 27) (λ _. wide_int-Ensures 0x1_0000_0000 (arg_8 0 ai tl))
                          λ _.
                            Ensures-if (is_reserved ai) (λ _. rejected)
                              λ _. total depth false s₀ small

    pub text_in_place-Ensures :
        (size : ℕ) → Ensures (λ v. Shrinks s₀) (text_in_place opts size tl s₀)
    unfolding text_in_place
    text_in_place-Ensures size =
        Ensures-if (opts.reject_invalid_utf8 && not (valid_utf8 (take size tl))) (λ _. rejected)
          λ _. taken (1 + size) _ (omega arith)

    simple_in_place-Ensures : Ensures (λ v. Shrinks s₀) (simple_in_place dec depth ib s₀)
    unfolding simple_in_place
    simple_in_place-Ensures =
        Ensures-if (ib == 0xf5) (λ _. taken 1 _ (omega arith))
          λ _.
            Ensures-if (ib == 0xf4) (λ _. taken 1 _ (omega arith))
              λ _.
                Ensures-if (ib == 0xf6) (λ _. taken 1 _ (omega arith))
                  λ _.
                    Ensures-if (ib == 0xf7) (λ _. taken 1 _ (omega arith))
                      λ _. total depth false s₀ small

    array_item-Ensures : Ensures (λ v. Shrinks s₀) (array_item dec opts depth s₀)
    unfolding array_item
    array_item-Ensures =
        Ensures-if (ltb ib 0x40) (λ _. int_in_place-Ensures (bit_and ib 0x1f))
          λ _.
            Ensures-if (is_short_string major_text ib s₀)
              (λ _. text_in_place-Ensures (bit_and ib 0x1f))
              λ _.
                Ensures-if (is_short_string major_bytes ib s₀)
                  (λ _. taken (1 + bit_and ib 0x1f) _ (omega arith)) λ _. simple_in_place-Ensures

  item-Ensures :
      (depth : ℕ) (src : List ℕ) (b : Budget)
      → length src < n
      → let s : State = record { rest = src; budget = b } in
        Ensures (λ v. Shrinks s) (array_item dec opts depth s)
  item-Ensures depth [] b h = unfold array_item in rejected
  item-Ensures depth (ib ∷ tl) b h = array_item-Ensures depth ib tl b h

  array_items-Ensures :
      (depth count : ℕ) (s : State)
      → length s.rest < n
      → Ensures (λ vs. Keeps s) (array_items dec opts depth count s)
  unfolding array_items
  array_items-Ensures depth zero s h = holds (omega arith, Charged-refl s.budget)
  array_items-Ensures depth (suc count) s h =
      Ensures-bind (item-Ensures depth s.rest s.budget h) λ v s' p.
        Ensures-bind (array_items-Ensures depth count s' (omega (arith, p.0))) λ vs s'' q.
          holds (omega (arith, p.0, q.0), Charged-trans s.budget s'.budget s''.budget p.1 q.1)

  break_items-Ensures :
      (fuel depth i : ℕ) (src : List ℕ) (b : Budget)
      → length src < fuel
      → length src < n
      → let s : State = record { rest = src; budget = b } in
        Ensures (λ vs. Keeps s) (break_items fuel dec opts depth i s)
  unfolding break_items
  break_items-Ensures zero depth i src b f h = absurd (omega arith)
  break_items-Ensures (suc fuel) depth i [] b f h = rejected
  break_items-Ensures (suc fuel) depth i (ib ∷ tl) b f h =
      Ensures-elim (ib == break_code) (λ _. holds (omega arith, Charged-refl b))
        λ _.
          Ensures-elim (leb (max_array opts) i) (λ _. rejected)
            λ _.
              Ensures-bind (total depth false (record { rest = ib ∷ tl; budget = b }) h) λ v s' p.
                Ensures-bind
                  (break_items-Ensures fuel depth (suc i) s'.rest s'.budget (omega (arith, p.0))
                    (omega (arith, p.0)))
                  λ vs s'' q.
                    holds (omega (arith, p.0, q.0), Charged-trans b s'.budget s''.budget p.1 q.1)

  indefinite_array-Ensures :
      (depth : ℕ) (s : State)
      → length s.rest < n
      → Ensures (λ v. Keeps s) (indefinite_array dec opts depth s)
  unfolding indefinite_array
  indefinite_array-Ensures depth s h =
      Ensures-if (ltb (max_nesting opts) (depth + 1)) (λ _. rejected)
        λ _.
          Ensures-bind
            (break_items-Ensures (suc (length s.rest)) (depth + 1) 0 s.rest s.budget (omega arith)
              h)
            λ vs s' p. holds p

  pub decode_array-Ensures :
      (h : HeadResult) (depth : ℕ) (s : State)
      → 0 < h.n
      → 0 < length s.rest
      → length s.rest ≤ n
      → Ensures (λ v. Shrinks s) (decode_array dec opts h depth s)
  unfolding decode_array
  decode_array-Ensures h depth s some_read some_left small =
      Ensures-if (h.ai == ai_indefinite)
        (λ _.
          Ensures-if opts.reject_indefinite_length (λ _. rejected)
            λ _.
              Ensures-weaken
                (indefinite_array-Ensures depth (advance h.n s)
                  (omega (arith, length-advance h.n s)))
                λ v s' q. (omega (arith, length-advance h.n s, q.0), q.1))
        λ _.
          Ensures-if (ltb (max_array opts) h.arg) (λ _. rejected)
            λ _. charge-Ensures (h.arg * 16) s.rest s.budget body λ b c. after b c
    where
      body : State → Outcome Value
      body s' =
          if ltb (max_nesting opts) (depth + 1)
          then fail max_nesting_depth (advance h.n s')
          else bind (array_items dec opts (depth + 1) h.arg (advance h.n s'))
              λ vs s''. ok (array vs) s''

      after :
          (b : Budget)
          → Charged s.budget b
          → Ensures (λ v. Shrinks s) (body (record { rest = s.rest; budget = b }))
      after b c =
          Ensures-if (ltb (max_nesting opts) (depth + 1)) (λ _. rejected)
            λ _.
              Ensures-bind
                (array_items-Ensures (depth + 1) h.arg
                  (advance h.n (record { rest = s.rest; budget = b }))
                  (omega (arith, length-drop h.n s.rest)))
                λ vs s' q. holds (
                  omega (arith, length-drop h.n s.rest, q.0),
                  Charged-trans s.budget b s'.budget c q.1,
                )
