-- ===== src/Rfc8949/Total/Maps.antt =====
-- The ends of decodeMap and decodeIndefiniteMap, from those of decodeValue.
use corecbor.Prelude.{
  ℕ, zero, suc, ◌+◌, ◌*◌, ◌≤◌, ◌<◌, false, ◌&&◌, List, [], ◌∷◌, length, length-drop, ltb, leb, ◌==◌,
  arith, Option, none, some, bit_and,
}
use corecbor.Cbor.Value.{Value, MapEntry, map, make_map}
use corecbor.Wire.Head.{HeadResult, break_code, ai_indefinite, major_text}
use corecbor.Rfc8949.Options.{DecodeOpts, max_array, max_nesting}
use corecbor.Rfc8949.State.{Budget, State, Outcome, ok, err, bind, advance}
use corecbor.Rfc8949.Arrays.{Decoder, is_short_string}
use corecbor.Rfc8949.Insert.{Dedup, map_insert}
use corecbor.Rfc8949.Maps.{
  is_null, map_key, between, map_value, map_entries, break_entries, indefinite_map, new_dedup,
  decode_map,
}
use corecbor.Cbor.Error.{duplicate_map_key}
use corecbor.Rfc8949.Total.Ensures.{
  Ensures, holds, rejected, Ensures-if, Ensures-elim, Ensures-bind, Ensures-weaken, Charged,
  Charged-refl, Charged-trans, Shrinks, Keeps, Total, charge-Ensures, length-advance,
}
use corecbor.Rfc8949.Total.Arrays.{text_in_place-Ensures}

inserted :
    (at s : State) (r : Option (List MapEntry × Dedup)) (limit : List ℕ) (s' : State)
    → Shrinks s s'
    → Ensures
        (λ (x : List MapEntry × Dedup). Shrinks s)
        (elim r [ none ↦ err duplicate_map_key limit s'.budget | some x ↦ ok x s' ])
inserted at s none limit s' p = rejected
inserted at s (some x) limit s' p = holds p

module _ (n : ℕ) (dec : Decoder) (total : Total n dec) (opts : DecodeOpts) (depth : ℕ) where
  map_key-Ensures :
      (src : List ℕ) (b : Budget)
      → length src < n
      → let s : State = record { rest = src; budget = b } in
        Ensures (λ v. Shrinks s) (map_key dec opts depth s)
  unfolding map_key
  map_key-Ensures [] b h = total depth false (record { rest = []; budget = b }) h
  map_key-Ensures (ib ∷ tl) b h =
      Ensures-if (is_short_string major_text ib (record { rest = ib ∷ tl; budget = b }))
        (λ _. text_in_place-Ensures n dec total opts depth ib tl b h (bit_and ib 0x1f))
        λ _. total depth false (record { rest = ib ∷ tl; budget = b }) h

  map_value-Ensures :
      (m : List MapEntry) (dedup : Dedup) (at : State) (key : Value) (s : State)
      → length s.rest < n
      → Ensures (λ r. Shrinks s) (map_value dec opts depth m dedup at key s)
  unfolding map_value
  map_value-Ensures m dedup at key s h =
      Ensures-if (opts.reject_null_map_keys && is_null key) (λ _. rejected)
        λ _.
          Ensures-bind (total depth false s h)
            λ val s' p. inserted at s (map_insert opts m key val (between at s) dedup) at.rest s' p

  map_entries-Ensures :
      (count : ℕ) (m : List MapEntry) (dedup : Dedup) (s : State)
      → length s.rest < n
      → Ensures (λ r. Keeps s) (map_entries dec opts depth count m dedup s)
  unfolding map_entries
  map_entries-Ensures zero m dedup s h = holds (omega arith, Charged-refl s.budget)
  map_entries-Ensures (suc count) m dedup s h =
      Ensures-bind (map_key-Ensures s.rest s.budget h) λ key s₁ p.
        Ensures-bind (map_value-Ensures m dedup s key s₁ (omega (arith, p.0))) λ r s₂ q.
          Ensures-weaken (map_entries-Ensures count r.0 r.1 s₂ (omega (arith, p.0, q.0))) λ r' s₃ k.
            (
              omega (arith, p.0, q.0, k.0),
              Charged-trans s.budget s₁.budget s₃.budget p.1
                  (Charged-trans s₁.budget s₂.budget s₃.budget q.1 k.1),
            )

  break_entries-Ensures :
      (fuel : ℕ) (m : List MapEntry) (src : List ℕ) (b : Budget)
      → length src < fuel
      → length src < n
      → let s : State = record { rest = src; budget = b } in
        Ensures (λ r. Keeps s) (break_entries fuel dec opts depth m s)
  unfolding break_entries
  break_entries-Ensures zero m src b f h = absurd (omega arith)
  break_entries-Ensures (suc fuel) m [] b f h = rejected
  break_entries-Ensures (suc fuel) m (ib ∷ tl) b f h =
      Ensures-elim (ib == break_code) (λ _. holds (omega arith, Charged-refl b))
        λ _.
          Ensures-elim (leb (max_array opts) (length m)) (λ _. rejected)
            λ _. Ensures-bind (total depth false s h) λ key s₁ p.
              Ensures-bind (map_value-Ensures m none s key s₁ (omega (arith, p.0))) λ r s₂ q.
                Ensures-weaken
                  (break_entries-Ensures fuel r.0 s₂.rest s₂.budget (omega (arith, p.0, q.0))
                    (omega (arith, p.0, q.0)))
                  λ r' s₃ k. (
                    omega (arith, p.0, q.0, k.0),
                    Charged-trans b s₁.budget s₃.budget p.1
                        (Charged-trans s₁.budget s₂.budget s₃.budget q.1 k.1),
                  )
    where
      s : State
      s = record { rest = ib ∷ tl; budget = b }

module _ (n : ℕ) (dec : Decoder) (total : Total n dec) (opts : DecodeOpts) where
  indefinite_map-Ensures :
      (depth : ℕ) (s : State)
      → length s.rest < n
      → Ensures (λ v. Keeps s) (indefinite_map dec opts depth s)
  unfolding indefinite_map
  indefinite_map-Ensures depth s h =
      Ensures-if (ltb (max_nesting opts) (depth + 1)) (λ _. rejected)
        λ _.
          Ensures-bind
            (break_entries-Ensures n dec total opts (depth + 1) (suc (length s.rest)) [] s.rest
              s.budget (omega arith) h)
            λ m s' p. holds p

  pub decode_map-Ensures :
      (h : HeadResult) (depth : ℕ) (s : State)
      → 0 < h.n
      → 0 < length s.rest
      → length s.rest ≤ n
      → Ensures (λ v. Shrinks s) (decode_map dec opts h depth s)
  unfolding decode_map
  decode_map-Ensures h depth s some_read some_left small =
      Ensures-if (h.ai == ai_indefinite)
        (λ _.
          Ensures-if opts.reject_indefinite_length (λ _. rejected)
            λ _.
              Ensures-weaken
                (indefinite_map-Ensures depth (advance h.n s) (omega (arith, length-advance h.n s)))
                λ v s' q. (omega (arith, length-advance h.n s, q.0), q.1))
        λ _.
          Ensures-if (ltb (max_array opts) h.arg) (λ _. rejected)
            λ _.
              Ensures-if (ltb (max_nesting opts) (depth + 1)) (λ _. rejected)
                λ _. charge-Ensures (h.arg * 32) s.rest s.budget body λ b c. after b c
    where
      body : State → Outcome Value
      body s' =
          bind (map_entries dec opts (depth + 1) h.arg [] (new_dedup h.arg) (advance h.n s'))
            λ m s''. ok (map (make_map m)) s''

      after :
          (b : Budget)
          → Charged s.budget b
          → Ensures (λ v. Shrinks s) (body (record { rest = s.rest; budget = b }))
      after b c =
          Ensures-bind
            (map_entries-Ensures n dec total opts (depth + 1) h.arg [] (new_dedup h.arg)
              (advance h.n (record { rest = s.rest; budget = b }))
              (omega (arith, length-drop h.n s.rest)))
            λ m s' q.
              holds (
                omega (arith, length-drop h.n s.rest, q.0),
                Charged-trans s.budget b s'.budget c q.1,
              )
