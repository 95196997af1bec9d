-- ===== src/Rfc8949/Cursor/Find.antt =====
-- rfc8949/cursor.go: FindMapKey in the encoding of a map.
use corecbor.Prelude.{
  ℕ, zero, suc, ◌+◌, ◌-◌, ◌*◌, ◌^◌, ◌≤◌, ◌<◌, ◌≡◌, refl, ap, ◌∙◌, true, false, List, [], ◌∷◌, ◌++◌,
  append_assoc, ◌==◌, length, length-append, arith,
}
use corecbor.Cbor.Value.{Pairs, MapEntry, end, entry, count_pairs}
use corecbor.Wire.Head.{parse_head}
use corecbor.Rfc8949.Options.{DecodeOpts}
use corecbor.Rfc8949.Serial.{serialize, serialize_pairs}
use corecbor.Rfc8949.Valid.{IsValid, ArePairs, height, height_pairs}
use corecbor.Rfc8949.RoundTrip.Starts.{serialize_pos}
use corecbor.Rfc8949.RoundTrip.Whole.{pairs_height-size}
use corecbor.Rfc8949.Skip.{Frame, int_add, is_negative, at, key_not_found, skip_item}
use corecbor.Rfc8949.Skip.Places.{Here, Here-append, peek-Here}
use corecbor.Rfc8949.Skip.Leaves.{count_pairs-size}
use corecbor.Rfc8949.Skip.Whole.{skip_item-serialize}
use corecbor.Rfc8949.Cursor.{
  Cursor, Result, done, failed, counted_down, count_down, panics, KeyTest, same_key, other_key,
  no_slice, test_key, find_key, find_map_key,
}
use corecbor.Rfc8949.Cursor.Whole.{enough}
use corecbor.Rfc8949.Cursor.Keys.{key_test, test_key-value}

module _ (key : List ℕ) (c : Cursor) (more : List Frame) where
  -- The cursor at a position in a map that has `n` items left.
  abbrev pub in_map : ℕ → ℕ → Cursor
  in_map p n = record c { pos = p; stack = record { remaining = n; is_map = true } ∷ more }

  -- FindMapKey described by the entries: the first key that is the text `key` is passed over, and its
  -- value is next; the entries in front of it are passed over whole.
  abbrev pub scan : ℕ → Pairs → Result Unit
  scan p end = failed key_not_found (in_map p 0)
  scan p (entry k v ps) = elim (key_test key p k) [
    | same_key q ↦ done tt (in_map q (suc (count_pairs ps * 2)))
    | other_key ↦ scan (p + length (serialize k) + length (serialize v)) ps
    | no_slice ↦ panics
  ]

  module _ (small : length c.src < 2 ^ 63) (o : DecodeOpts) (d f : ℕ) (tl : List ℕ) where
    abbrev frame : ℕ → Frame
    frame n = record { remaining = n; is_map = true }

    count_down-in_map :
        (p n k r : ℕ)
        → n < 2 ^ 63
        → 1 ≤ n
        → int_add n (2 ^ 64 - k) ≡ r
        → count_down k (in_map p n) ≡ in_map p r
    unfolding count_down
    count_down-in_map p n k r h g e =
        let some_left : (n == 0) ≡ false = ground arith in
        let positive : is_negative n ≡ false = ground arith in rw (some_left, positive, e) refl

    counted_down-frame :
        (n k r : ℕ)
        → n < 2 ^ 63
        → 1 ≤ n
        → int_add n (2 ^ 64 - k) ≡ r
        → counted_down k (frame n) ≡ frame r
    counted_down-frame n k r h g e =
        let some_left : (n == 0) ≡ false = ground arith in
        let positive : is_negative n ≡ false = ground arith in rw (some_left, positive, e) refl

    -- One round of the loop.
    find_key-entry :
        (fuel p p₁ p₂ n r : ℕ) (b : List ℕ) (t : KeyTest)
        → n ≡ suc (suc r)
        → n < 2 ^ 63
        → Here c.src p b
        → 1 ≤ length b
        → ((parse_head b).n == 0) ≡ false
        → test_key c.src p (parse_head b) key ≡ t
        → skip_item c.src (suc f) p ≡ at p₁
        → skip_item c.src (suc f) p₁ ≡ at p₂
        → find_key (suc f) (suc fuel) key (frame n) (in_map p n) ≡ elim t [
          | same_key q ↦ done tt (in_map q (suc r))
          | other_key ↦ find_key (suc f) fuel key (frame r) (in_map p₂ r)
          | no_slice ↦ panics
        ]
    unfolding find_key
    find_key-entry fuel p p₁ p₂ n r b t e g h l w k s₁ s₂ = by t k
      where
        some_left : (n == 0) ≡ false
        some_left = ground arith

        positive : is_negative n ≡ false
        positive = ground arith

        by :
            (t : KeyTest)
            → test_key c.src p (parse_head b) key ≡ t
            → find_key (suc f) (suc fuel) key (record { remaining = n; is_map = true }) (in_map p n)
              ≡ elim t [
                | same_key q ↦ done tt (in_map q (suc r))
                | other_key ↦
                    find_key
                      (suc f)
                      fuel
                      key
                      (record { remaining = r; is_map = true })
                      (in_map p₂ r)
                | no_slice ↦ panics
              ]
        by (same_key q) k =
            rw (find_key, some_left, peek-Here c.src small p b h l, positive, w, k)
              (ap (done tt)
                (count_down-in_map q n 1 (suc r) g (omega (arith, e)) (omega (arith, e))))
        by other_key k =
            rw (find_key, some_left, peek-Here c.src small p b h l, positive, w, k, s₁, s₂)
              (ap (λ x. find_key (suc f) fuel key x (count_down 2 (in_map p₂ n)))
                  (counted_down-frame n 2 r g (omega (arith, e)) (omega (arith, e)))
                ∙ ap (λ x. find_key (suc f) fuel key (frame r) x)
                    (count_down-in_map p₂ n 2 r g (omega (arith, e)) (omega (arith, e))))
        by no_slice k = rw (find_key, some_left, peek-Here c.src small p b h l, positive, w, k) refl

    find_key-scan :
        (ps : Pairs) (m : List MapEntry) (fuel p : ℕ)
        → ArePairs o d m ps
        → height_pairs ps ≤ f
        → count_pairs ps < fuel
        → Here c.src p (serialize_pairs ps ++ tl)
        → find_key
            (suc f)
            fuel
            key
            (record { remaining = count_pairs ps * 2; is_map = true })
            (in_map p (count_pairs ps * 2))
          ≡ scan p ps
    unfolding find_key serialize IsValid height
    find_key-scan ps m zero p hv hf hc h = absurd (omega arith)
    find_key-scan end m (suc fuel) p hv hf hc h = refl
    find_key-scan (entry k v ps) m (suc fuel) p hv hf hc h =
        let rest : List ℕ = serialize_pairs ps ++ tl in
        let r = count_pairs ps * 2 in
        let h₁ : Here c.src p (serialize k ++ (serialize v ++ rest)) =
          rw
            (
              append_assoc (serialize k) (serialize v ++ serialize_pairs ps) tl,
              append_assoc (serialize v) (serialize_pairs ps) tl,
            )
            at h in
        let h₂ = Here-append c.src p (serialize k) (serialize v ++ rest) h₁ in
        let h₃ = Here-append c.src (p + length (serialize k)) (serialize v) rest h₂ in
        let test = test_key-value key c.src small p (serialize v ++ rest) o d k hv.0 h₁ in
        let room = length-append (serialize k) (serialize v ++ rest) in
        let size = count_pairs-size o d m (entry k v ps) hv in
        find_key-entry fuel p (p + length (serialize k))
          (p + length (serialize k) + length (serialize v)) (suc (count_pairs ps) * 2) r
          (serialize k ++ (serialize v ++ rest)) (key_test key p k) (omega arith)
          (omega (arith, size, h.0, small, length-append (serialize_pairs (entry k v ps)) tl)) h₁
          (omega (arith, serialize_pos o d k hv.0, room)) test.0 test.1
          (skip_item-serialize c.src small k o d f p (serialize v ++ rest) hv.0 (omega arith) h₁)
          (skip_item-serialize c.src small v o d f (p + length (serialize k)) rest hv.3
            (omega arith) h₂)
        ∙ ap
            (λ z. elim (key_test key p k) [
              | same_key q ↦ done tt (in_map q (suc r))
              | other_key ↦ z
              | no_slice ↦ panics
            ])
            (find_key-scan ps _ fuel (p + length (serialize k) + length (serialize v)) hv.4
              (omega arith) (omega arith) h₃)

-- FindMapKey inside a map whose entries are all in front of it, in a source shorter than 2^63 bytes: it
-- stops at the value of the entry whose key is the text, with that value and the entries behind it left,
-- or reports at the end of the map that there is no such key; all for the plain encodings of entries that
-- the options of a decoder let through and whose keys differ.
pub find_map_key-scan :
    (o : DecodeOpts) (d : ℕ) (key : List ℕ) (c : Cursor) (more : List Frame) (ps : Pairs)
    (tl : List ℕ)
    → length c.src < 2 ^ 63
    → ArePairs o d [] ps
    → Here c.src c.pos (serialize_pairs ps ++ tl)
    → let c' = in_map key c more c.pos (count_pairs ps * 2) in
      find_map_key (enough c) key c' ≡ scan key c more c.pos ps
unfolding find_map_key
find_map_key-scan o d key c more ps tl small hv h =
    find_key-scan key c more small o d (length c.src) tl ps [] (enough c) c.pos hv
      (omega (arith, pairs_height-size ps, h.0, length-append (serialize_pairs ps) tl))
      (omega (arith, count_pairs-size o d [] ps hv, h.0, length-append (serialize_pairs ps) tl)) h
