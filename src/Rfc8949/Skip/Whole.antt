-- ===== src/Rfc8949/Skip/Whole.antt =====
-- rfc8949/cursor.go: skipItem at the encoding of a value.
use corecbor.Prelude.{
  ℕ, zero, suc, ◌+◌, ◌*◌, ◌^◌, ◌≤◌, ◌<◌, ◌≡◌, sym, ap, ◌∙◌, subst, true, false, List, [], ◌++◌,
  append_assoc, length, length-append, arith,
}
use corecbor.Cbor.Value.{
  Value, Items, Pairs, invalid, uint, neg_int, bytes, text, array, map, tag, bool, null, undefined,
  float32, float64, simple, nil, cons, end, entry, count_items, count_pairs,
}
use corecbor.Wire.Head.{head_bytes}
use corecbor.Wire.Head.RoundTrip.{head_width}
use corecbor.Rfc8949.Options.{DecodeOpts}
use corecbor.Rfc8949.Serial.{serialize, serialize_items, serialize_pairs}
use corecbor.Rfc8949.Valid.{IsValid, AreValid, ArePairs, height, height_items, height_pairs}
use corecbor.Rfc8949.RoundTrip.Heads.{length-head_bytes}
use corecbor.Cbor.Value.{MapEntry}
use corecbor.Rfc8949.Skip.{at, skip_many, skip_item}
use corecbor.Rfc8949.Skip.Places.{
  Here, Here-append, skip_item-head, skip_head-uint, skip_head-neg_int, skip_head-tag,
  skip_head-array, skip_head-map, skip_head-bytes, skip_head-text,
}
use corecbor.Rfc8949.Skip.Leaves.{
  count_items-size, count_pairs-size, Skips, skip-simple, skip-f4, skip-f5, skip-f6, skip-f7,
  skip-float32, skip-float64,
}

module _ (src : List ℕ) (small : length src < 2 ^ 63) where
  -- An item of a head and a content.
  module _ (pos major arg : ℕ) (b tl : List ℕ)
      (h : Here src pos ((head_bytes major arg ++ b) ++ tl)) where
    pub opened : Here src pos (head_bytes major arg ++ (b ++ tl))
    opened = rw (append_assoc (head_bytes major arg) b tl) at h

    pub inside : Here src (pos + head_width arg) (b ++ tl)
    inside =
        subst (λ k. Here src (pos + k) (b ++ tl)) (length-head_bytes major arg)
          (Here-append src pos (head_bytes major arg) (b ++ tl) opened)

    pub behind :
        at (pos + head_width arg + length b) ≡ at (pos + length (head_bytes major arg ++ b))
    behind =
        ap at (omega (arith, length-append (head_bytes major arg) b, length-head_bytes major arg))

    pub content_small : length b < 2 ^ 63
    content_small = omega (arith, inside.0, small, length-append b tl)

  mutual
    unfolding serialize IsValid height skip_many

    pub skip_item-serialize :
        (v : Value) (o : DecodeOpts) (d f pos : ℕ) (tl : List ℕ)
        → IsValid o d v
        → height v ≤ f
        → Here src pos (serialize v ++ tl)
        → Skips src small (suc f) pos (serialize v)
    skip_item-serialize invalid o d f pos tl hv hf h = absurd hv
    skip_item-serialize (uint n) o d f pos tl hv hf h =
        skip_item-head src small f pos 0x00 n tl (omega arith) hv h
        ∙ (skip_head-uint src small (skip_item src f) f pos n tl h
            ∙ ap (λ k. at (pos + k)) (sym (length-head_bytes 0x00 n)))
    skip_item-serialize (neg_int n) o d f pos tl hv hf h =
        skip_item-head src small f pos 0x20 n tl (omega arith) hv h
        ∙ (skip_head-neg_int src small (skip_item src f) f pos n tl h
            ∙ ap (λ k. at (pos + k)) (sym (length-head_bytes 0x20 n)))
    skip_item-serialize (bytes b) o d f pos tl hv hf h =
        skip_item-head src small f pos 0x40 (length b) (b ++ tl) (omega arith) hv.1
          (rw (append_assoc (head_bytes 0x40 (length b)) b tl) at h)
        ∙ skip_head-bytes src small (skip_item src f) f pos b tl h
    skip_item-serialize (text b) o d f pos tl hv hf h =
        skip_item-head src small f pos 0x60 (length b) (b ++ tl) (omega arith) hv.0.1
          (rw (append_assoc (head_bytes 0x60 (length b)) b tl) at h)
        ∙ skip_head-text src small (skip_item src f) f pos b tl h
    skip_item-serialize (array xs) o d zero pos tl hv hf h = absurd (omega arith)
    skip_item-serialize (array xs) o d (suc f) pos tl hv hf h =
        let n = count_items xs in
        let b = serialize_items xs in
        skip_item-head src small (suc f) pos 0x80 n (b ++ tl) (omega arith) hv.0.1
          (opened pos 0x80 n b tl h)
        ∙ (skip_head-array src small (skip_item src (suc f)) (suc f) pos n (b ++ tl)
              (opened pos 0x80 n b tl h)
              (omega (arith, count_items-size o (d + 1) xs hv.2, content_small pos 0x80 n b tl h))
            ∙ (skip_many-items xs o (d + 1) f (pos + head_width n) tl hv.2 (omega arith)
                  (inside pos 0x80 n b tl h)
                ∙ behind pos 0x80 n b tl h))
    skip_item-serialize (map ps) o d zero pos tl hv hf h = absurd (omega arith)
    skip_item-serialize (map ps) o d (suc f) pos tl hv hf h =
        let n = count_pairs ps in
        let b = serialize_pairs ps in
        skip_item-head src small (suc f) pos 0xa0 n (b ++ tl) (omega arith) hv.0.1
          (opened pos 0xa0 n b tl h)
        ∙ (skip_head-map src small (skip_item src (suc f)) (suc f) pos n (b ++ tl)
              (opened pos 0xa0 n b tl h)
              (omega
                (arith, count_pairs-size o (d + 1) [] ps hv.2, content_small pos 0xa0 n b tl h))
            ∙ (skip_many-pairs ps o (d + 1) f (pos + head_width n) [] tl hv.2 (omega arith)
                  (inside pos 0xa0 n b tl h)
                ∙ behind pos 0xa0 n b tl h))
    skip_item-serialize (tag n nil) o d f pos tl hv hf h = absurd hv
    skip_item-serialize (tag n (cons v nil)) o d zero pos tl hv hf h = absurd (omega arith)
    skip_item-serialize (tag n (cons v nil)) o d (suc f) pos tl hv hf h =
        let b = serialize v in
        skip_item-head src small (suc f) pos 0xc0 n (b ++ tl) (omega arith) hv.0
          (opened pos 0xc0 n b tl h)
        ∙ (skip_head-tag src small (skip_item src (suc f)) (suc f) pos n (b ++ tl)
              (opened pos 0xc0 n b tl h)
            ∙ (skip_item-serialize v o (d + 1) f (pos + head_width n) tl hv.3 (omega arith)
                  (inside pos 0xc0 n b tl h)
                ∙ behind pos 0xc0 n b tl h))
    skip_item-serialize (tag n (cons v (cons _ _))) o d f pos tl hv hf h = absurd hv
    skip_item-serialize (bool true) o d f pos tl hv hf h = skip-f5 src small f pos tl h
    skip_item-serialize (bool false) o d f pos tl hv hf h = skip-f4 src small f pos tl h
    skip_item-serialize null o d f pos tl hv hf h = skip-f6 src small f pos tl h
    skip_item-serialize undefined o d f pos tl hv hf h = skip-f7 src small f pos tl h
    skip_item-serialize (simple n) o d f pos tl hv hf h = skip-simple src small f pos n tl hv h
    skip_item-serialize (float32 x) o d f pos tl hv hf h = skip-float32 src small f pos x tl h
    skip_item-serialize (float64 x) o d f pos tl hv hf h = skip-float64 src small f pos x tl h

    pub skip_many-items :
        (xs : Items) (o : DecodeOpts) (d f pos : ℕ) (tl : List ℕ)
        → AreValid o d xs
        → height_items xs ≤ f
        → Here src pos (serialize_items xs ++ tl)
        → skip_many (skip_item src (suc f)) (count_items xs) pos
          ≡ at (pos + length (serialize_items xs))
    skip_many-items nil o d f pos tl hv hf h = ap at (omega arith)
    skip_many-items (cons v xs) o d f pos tl hv hf h =
        let h' : Here src pos (serialize v ++ (serialize_items xs ++ tl)) =
          rw (append_assoc (serialize v) (serialize_items xs) tl) at h in
        rw (skip_item-serialize v o d f pos (serialize_items xs ++ tl) hv.0 (omega arith) h') (
          skip_many-items xs o d f (pos + length (serialize v)) tl hv.1 (omega arith)
            (Here-append src pos (serialize v) (serialize_items xs ++ tl) h')
          ∙ ap at (omega (arith, length-append (serialize v) (serialize_items xs))))

    pub skip_many-pairs :
        (ps : Pairs) (o : DecodeOpts) (d f pos : ℕ) (m : List MapEntry) (tl : List ℕ)
        → ArePairs o d m ps
        → height_pairs ps ≤ f
        → Here src pos (serialize_pairs ps ++ tl)
        → skip_many (skip_item src (suc f)) (count_pairs ps * 2) pos
          ≡ at (pos + length (serialize_pairs ps))
    skip_many-pairs end o d f pos m tl hv hf h = ap at (omega arith)
    skip_many-pairs (entry k v ps) o d f pos m tl hv hf h =
        let rest : List ℕ = serialize_pairs ps ++ tl in
        let h' : Here src pos (serialize k ++ (serialize v ++ rest)) =
          rw
            (
              append_assoc (serialize k) (serialize v ++ serialize_pairs ps) tl,
              append_assoc (serialize v) (serialize_pairs ps) tl,
            )
            at h in
        let h'' = Here-append src pos (serialize k) (serialize v ++ rest) h' in
        let twice : count_pairs (entry k v ps) * 2 ≡ suc (suc (count_pairs ps * 2)) = omega arith in
        rw
          (
            twice,
            skip_item-serialize k o d f pos (serialize v ++ rest) hv.0 (omega arith) h',
            skip_item-serialize v o d f (pos + length (serialize k)) rest hv.3 (omega arith) h'',
          )
          (skip_many-pairs ps o d f (pos + length (serialize k) + length (serialize v)) _ tl hv.4
              (omega arith) (Here-append src (pos + length (serialize k)) (serialize v) rest h'')
            ∙ ap at (
                omega (
                  arith,
                  length-append (serialize k) (serialize v ++ serialize_pairs ps),
                  length-append (serialize v) (serialize_pairs ps),
                )))
