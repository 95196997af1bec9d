-- ===== src/Rfc8949/Skip/Leaves.antt =====
-- rfc8949/cursor.go: skipItem at the encodings of one head, and the sizes of the others.
use corecbor.Prelude.{
  ℕ, suc, ◌+◌, ◌*◌, ◌^◌, ◌≤◌, ◌<◌, ◌≡◌, refl, ◌∙◌, true, false, List, [], ◌∷◌, ◌++◌, ltb, ◌==◌, ◌⊎◌,
  inl, inr, length, length-append, arith, put_u32, put_u64, bit_or,
}
use corecbor.Cbor.Value.{
  Items, Pairs, float32, float64, simple, nil, cons, end, entry, count_items, count_pairs,
}
use corecbor.Wire.Head.{parse_head, parse_arg, arg_1, arg_4, arg_8}
use corecbor.Wire.Head.RoundTrip.{parse_head-join}
use corecbor.Rfc8949.Options.{DecodeOpts}
use corecbor.Rfc8949.Serial.{serialize, serialize_items, serialize_pairs}
use corecbor.Rfc8949.Valid.{IsValid, AreValid, ArePairs}
use corecbor.Rfc8949.RoundTrip.Starts.{serialize_pos}
use corecbor.Cbor.Value.{MapEntry}
use corecbor.Rfc8949.Skip.{int_add, at, skip_head, skip_item}
use corecbor.Rfc8949.Skip.Places.{Here, int_add-Here, skip_item-step}

-- Each item takes a byte.
pub count_items-size :
    (o : DecodeOpts) (d : ℕ) (xs : Items)
    → AreValid o d xs
    → count_items xs ≤ length (serialize_items xs)
unfolding serialize IsValid
count_items-size o d nil h = omega arith
count_items-size o d (cons v xs) h = omega (
  arith,
  serialize_pos o d v h.0,
  count_items-size o d xs h.1,
  length-append (serialize v) (serialize_items xs),
)

pub count_pairs-size :
    (o : DecodeOpts) (d : ℕ) (m : List MapEntry) (ps : Pairs)
    → ArePairs o d m ps
    → count_pairs ps * 2 ≤ length (serialize_pairs ps)
unfolding serialize IsValid
count_pairs-size o d m end h = omega arith
count_pairs-size o d m (entry k v ps) h = omega (
  arith,
  serialize_pos o d k h.0,
  serialize_pos o d v h.3,
  count_pairs-size o d _ ps h.4,
  length-append (serialize k) (serialize v ++ serialize_pairs ps),
  length-append (serialize v) (serialize_pairs ps),
)

module _ (src : List ℕ) (small : length src < 2 ^ 63) where
  -- Behind the item at `pos`.
  abbrev pub Skips : ℕ → ℕ → List ℕ → Type 0
  Skips fuel pos l = skip_item src fuel pos ≡ at (pos + length l)

  skip-other :
      (fuel pos x : ℕ) (l : List ℕ) (ai arg n : ℕ)
      → Here src pos (x ∷ l)
      → parse_head (x ∷ l) ≡ record { major = 0xe0; ai = ai; arg = arg; n = suc n }
      → n ≤ length l
      → skip_item src (suc fuel) pos ≡ at (pos + suc n)
  unfolding skip_head
  skip-other fuel pos x l ai arg n h e k =
      skip_item-step src small fuel pos x l h
      ∙ (let next : int_add pos (suc n) ≡ pos + suc n =
            int_add-Here src small pos (suc n) (x ∷ l) h (omega (arith, k)) in
          let some_bytes : (suc n == 0) ≡ false = ground arith in rw (e, next, some_bytes) refl)

  pub skip-simple :
      (fuel pos n : ℕ) (tl : List ℕ)
      → (n < 20) ⊎ ((32 ≤ n) × (n < 256))
      → Here src pos (serialize (simple n) ++ tl)
      → Skips (suc fuel) pos (serialize (simple n))
  unfolding serialize
  skip-simple fuel pos n tl (inl k) h =
      let short : ltb n 24 ≡ true = ground arith in
      let h' : Here src pos (bit_or 0xe0 n ∷ tl) = rw short at h in
      let head : parse_head (bit_or 0xe0 n ∷ tl) ≡ record { major = 0xe0; ai = n; arg = n; n = 1 } =
        parse_head-join 0xe0 n tl (omega arith) (omega arith)
        ∙ (unfold parse_arg in rw short refl) in
      rw short (skip-other fuel pos (bit_or 0xe0 n) tl n n 0 h' head (omega arith))
  skip-simple fuel pos n tl (inr k) h =
      let long : ltb n 24 ≡ false = ground arith in
      let h' : Here src pos (0xf8 ∷ n ∷ tl) = rw long at h in
      rw long (
        skip-other fuel pos 0xf8 (n ∷ tl) 24 n 1 h' (unfold parse_head parse_arg arg_1 in refl)
          (omega arith))

  pub skip-f4 :
      (fuel pos : ℕ) (tl : List ℕ) → Here src pos (0xf4 ∷ tl) → Skips (suc fuel) pos (0xf4 ∷ [])
  unfolding parse_head parse_arg
  skip-f4 fuel pos tl h = skip-other fuel pos 0xf4 tl _ _ 0 h refl (omega arith)

  pub skip-f5 :
      (fuel pos : ℕ) (tl : List ℕ) → Here src pos (0xf5 ∷ tl) → Skips (suc fuel) pos (0xf5 ∷ [])
  unfolding parse_head parse_arg
  skip-f5 fuel pos tl h = skip-other fuel pos 0xf5 tl _ _ 0 h refl (omega arith)

  pub skip-f6 :
      (fuel pos : ℕ) (tl : List ℕ) → Here src pos (0xf6 ∷ tl) → Skips (suc fuel) pos (0xf6 ∷ [])
  unfolding parse_head parse_arg
  skip-f6 fuel pos tl h = skip-other fuel pos 0xf6 tl _ _ 0 h refl (omega arith)

  pub skip-f7 :
      (fuel pos : ℕ) (tl : List ℕ) → Here src pos (0xf7 ∷ tl) → Skips (suc fuel) pos (0xf7 ∷ [])
  unfolding parse_head parse_arg
  skip-f7 fuel pos tl h = skip-other fuel pos 0xf7 tl _ _ 0 h refl (omega arith)

  pub skip-float32 :
      (fuel pos f : ℕ) (tl : List ℕ)
      → Here src pos (serialize (float32 f) ++ tl)
      → Skips (suc fuel) pos (serialize (float32 f))
  unfolding serialize put_u32 parse_head parse_arg arg_4
  skip-float32 fuel pos f tl h =
      skip-other fuel pos 0xfa (put_u32 f ++ tl) _ _ 4 h refl (omega arith)

  pub skip-float64 :
      (fuel pos f : ℕ) (tl : List ℕ)
      → Here src pos (serialize (float64 f) ++ tl)
      → Skips (suc fuel) pos (serialize (float64 f))
  unfolding serialize put_u64 parse_head parse_arg arg_8
  skip-float64 fuel pos f tl h =
      skip-other fuel pos 0xfb (put_u64 f ++ tl) _ _ 8 h refl (omega arith)
