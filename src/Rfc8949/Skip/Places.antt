-- ===== src/Rfc8949/Skip/Places.antt =====
-- rfc8949/cursor.go: skipItem at an item that starts with a shortest head.
use corecbor.Prelude.{
  ℕ, suc, ◌+◌, ◌*◌, ◌%◌, ◌^◌, ◌≤◌, ◌<◌, ◌≡◌, refl, ap, ◌∙◌, true, false, List, ◌∷◌, ◌++◌, ◌==◌,
  length, length-append, drop, drop-length_append, arith, IsU64,
}
use corecbor.Wire.Head.{head_bytes, parse_head}
use corecbor.Wire.Head.RoundTrip.{IsMajor, head_of, head_info, head_width, parse_head-head_bytes}
use corecbor.Rfc8949.RoundTrip.Heads.{drop-add, length-head_bytes}
use corecbor.Rfc8949.Skip.{
  int_add, int_ltb, rounds, is_negative, Skipped, at, peek, there, skip_many, skip_payload,
  skip_head, skip_item,
}

-- `l` is what is left of the source at the position.
abbrev pub Here : List ℕ → ℕ → List ℕ → Type 0
Here src pos l = (pos + length l ≡ length src) × (drop pos src ≡ l)

pub Here-append :
    (src : List ℕ) (pos : ℕ) (a b : List ℕ) → Here src pos (a ++ b) → Here src (pos + length a) b
Here-append src pos a b h = (
  omega (arith, h.0, length-append a b),
  drop-add pos (length a) src ∙ (ap (drop (length a)) h.1 ∙ drop-length_append a b),
)

head_width_pos : (arg : ℕ) → 1 ≤ head_width arg
head_width_pos arg = ground arith

head_width-ne : (arg : ℕ) → (head_width arg == 0) ≡ false
head_width-ne arg = ground arith

pub head_info-definite : (arg : ℕ) → (head_info arg == 31) ≡ false
head_info-definite arg = ground arith

module _ (src : List ℕ) (small : length src < 2 ^ 63) where
  pub peek-Here : (pos : ℕ) (l : List ℕ) → Here src pos l → 1 ≤ length l → peek src pos ≡ there l
  unfolding peek
  peek-Here pos l h k =
      let before : int_ltb pos (length src) ≡ true = ground (arith, h.0) in
      let positive : is_negative pos ≡ false = ground (arith, h.0) in
      rw (before, positive, h.1) refl

  pub int_add-Here :
      (pos : ℕ) (n : ℕ) (l : List ℕ) → Here src pos l → n ≤ length l → int_add pos n ≡ pos + n
  int_add-Here pos n l h k = omega (arith, h.0, small)

  pub skip_item-step :
      (fuel pos x : ℕ) (l : List ℕ)
      → Here src pos (x ∷ l)
      → skip_item src (suc fuel) pos
        ≡ skip_head src (skip_item src fuel) fuel pos (parse_head (x ∷ l))
  unfolding skip_item
  skip_item-step fuel pos x l h = rw (skip_item, peek-Here pos (x ∷ l) h (omega arith)) refl

  pub skip_item-head :
      (fuel pos major arg : ℕ) (rest : List ℕ)
      → IsMajor major
      → IsU64 arg
      → Here src pos (head_bytes major arg ++ rest)
      → skip_item src (suc fuel) pos
        ≡ skip_head src (skip_item src fuel) fuel pos (head_of major arg)
  unfolding skip_item
  skip_item-head fuel pos major arg rest m u h =
      let some_bytes : 1 ≤ length (head_bytes major arg ++ rest) = omega (
        arith,
        length-append (head_bytes major arg) rest,
        length-head_bytes major arg,
        head_width_pos arg,
      ) in
      rw
        (
          skip_item,
          peek-Here pos (head_bytes major arg ++ rest) h some_bytes,
          parse_head-head_bytes major arg rest m u,
        )
        refl

  module _ (skip : ℕ → Skipped) (fuel pos arg : ℕ) (rest : List ℕ) where
    next-Here :
        (major : ℕ)
        → Here src pos (head_bytes major arg ++ rest)
        → int_add pos (head_width arg) ≡ pos + head_width arg
    next-Here major h =
        int_add-Here pos (head_width arg) (head_bytes major arg ++ rest) h
          (omega (arith, length-append (head_bytes major arg) rest, length-head_bytes major arg))

    pub skip_head-uint :
        Here src pos (head_bytes 0x00 arg ++ rest)
        → skip_head src skip fuel pos (head_of 0x00 arg) ≡ at (pos + head_width arg)
    unfolding skip_head
    skip_head-uint h = rw (head_width-ne arg, next-Here 0x00 h) refl

    pub skip_head-neg_int :
        Here src pos (head_bytes 0x20 arg ++ rest)
        → skip_head src skip fuel pos (head_of 0x20 arg) ≡ at (pos + head_width arg)
    unfolding skip_head
    skip_head-neg_int h = rw (head_width-ne arg, next-Here 0x20 h) refl

    pub skip_head-tag :
        Here src pos (head_bytes 0xc0 arg ++ rest)
        → skip_head src skip fuel pos (head_of 0xc0 arg) ≡ skip (pos + head_width arg)
    unfolding skip_head
    skip_head-tag h = rw (head_width-ne arg, next-Here 0xc0 h) refl

    pub skip_head-array :
        Here src pos (head_bytes 0x80 arg ++ rest)
        → arg < 2 ^ 63
        → skip_head src skip fuel pos (head_of 0x80 arg) ≡ skip_many skip arg (pos + head_width arg)
    unfolding skip_head
    skip_head-array h k =
        let count : rounds arg ≡ arg = ground arith in
        rw (head_width-ne arg, next-Here 0x80 h, head_info-definite arg, count) refl

    pub skip_head-map :
        Here src pos (head_bytes 0xa0 arg ++ rest)
        → arg * 2 < 2 ^ 63
        → skip_head src skip fuel pos (head_of 0xa0 arg)
          ≡ skip_many skip (arg * 2) (pos + head_width arg)
    unfolding skip_head
    skip_head-map h k =
        let count : rounds (arg * 2 % 2 ^ 64) ≡ arg * 2 = ground arith in
        rw (head_width-ne arg, next-Here 0xa0 h, head_info-definite arg, count) refl

  module _ (skip : ℕ → Skipped) (fuel pos : ℕ) (b rest : List ℕ) where
    payload-Here :
        (major : ℕ)
        → Here src pos ((head_bytes major (length b) ++ b) ++ rest)
        → skip_payload src pos (head_of major (length b))
          ≡ at (pos + length (head_bytes major (length b) ++ b))
    unfolding skip_payload
    payload-Here major h =
        let size : length (head_bytes major (length b) ++ b) ≡ head_width (length b) + length b =
          length-append (head_bytes major (length b)) b
          ∙ ap (λ n. n + length b) (length-head_bytes major (length b)) in
        let end : int_add pos (head_width (length b) + length b)
            ≡ pos + (head_width (length b) + length b) =
          int_add-Here pos _ ((head_bytes major (length b) ++ b) ++ rest) h
            (omega (arith, size, length-append (head_bytes major (length b) ++ b) rest)) in
        let inside : int_ltb (length src) (pos + (head_width (length b) + length b)) ≡ false =
          ground (arith, h.0, size, length-append (head_bytes major (length b) ++ b) rest) in
        rw (end, inside, size) refl

    pub skip_head-bytes :
        Here src pos ((head_bytes 0x40 (length b) ++ b) ++ rest)
        → skip_head src skip fuel pos (head_of 0x40 (length b))
          ≡ at (pos + length (head_bytes 0x40 (length b) ++ b))
    unfolding skip_head
    skip_head-bytes h =
        rw (head_width-ne (length b), head_info-definite (length b)) (payload-Here 0x40 h)

    pub skip_head-text :
        Here src pos ((head_bytes 0x60 (length b) ++ b) ++ rest)
        → skip_head src skip fuel pos (head_of 0x60 (length b))
          ≡ at (pos + length (head_bytes 0x60 (length b) ++ b))
    unfolding skip_head
    skip_head-text h =
        rw (head_width-ne (length b), head_info-definite (length b)) (payload-Here 0x60 h)
