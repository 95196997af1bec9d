-- ===== src/Wire/Head/Canonical.antt =====
-- wire/head.go: what ParseHead reports of any input, and the heads that IsShortest accepts.
use corecbor.Prelude.{
  ℕ, ◌*◌, ◌/◌, ◌%◌, ◌^◌, ◌≤◌, ◌<◌, ◌≡◌, ◌≢◌, ◌⊎◌, inl, inr, refl, sym, subst, true, List, [], ◌∷◌,
  ◌++◌, length, drop, bit_and, bit_or, bit_and-major, bit_and-info, bit_or-join, put_u16, put_u32,
  put_u64, be16, be32, be64, IsU64, IsBytes, arith,
}
use corecbor.Wire.Head.{
  head_bytes, HeadResult, parse_head, parse_arg, is_shortest, arg_1, arg_2, arg_4, arg_8,
}
use corecbor.Wire.Head.RoundTrip.{IsMajor}

-- What a reported head satisfies.
pub record IsHeadOf (src : List ℕ) (h : HeadResult) : Type 0 where
  pub major_shifted : IsMajor h.major
  pub arg_fits : IsU64 h.arg
  pub some_read : 0 < h.n
  pub within : h.n ≤ length src

put_u16-be16 : (a b : ℕ) → a < 256 → b < 256 → put_u16 (be16 a b) ≡ a ∷ b ∷ []
unfolding put_u16 be16
put_u16-be16 a b ha hb = ground arith

put_u32-be32 :
    (a b c d : ℕ) → IsBytes (a ∷ b ∷ c ∷ d ∷ []) → put_u32 (be32 a b c d) ≡ a ∷ b ∷ c ∷ d ∷ []
unfolding put_u32 be32
put_u32-be32 a b c d h = ground arith

be64-lt :
    (a b c d e f g h : ℕ)
    → IsBytes (a ∷ b ∷ c ∷ d ∷ e ∷ f ∷ g ∷ h ∷ [])
    → IsU64 (be64 a b c d e f g h)
unfolding be64
be64-lt a b c d e f g h r = omega arith

put_u64-be64 :
    (a b c d e f g h : ℕ)
    → IsBytes (a ∷ b ∷ c ∷ d ∷ e ∷ f ∷ g ∷ h ∷ [])
    → put_u64 (be64 a b c d e f g h) ≡ a ∷ b ∷ c ∷ d ∷ e ∷ f ∷ g ∷ h ∷ []
unfolding put_u64 be64
put_u64-be64 a b c d e f g h r = ground arith

module _ (m a : ℕ) (hm : IsMajor m) (ha : a < 32) where
  arg_1-IsHeadOf :
      (rest : List ℕ) → IsBytes rest → (arg_1 m a rest).n ≢ 0 → IsHeadOf (0 ∷ rest) (arg_1 m a rest)
  unfolding arg_1
  arg_1-IsHeadOf [] h k = absurd (k refl)
  arg_1-IsHeadOf (x ∷ rest) h k = omega arith

  arg_2-IsHeadOf :
      (rest : List ℕ) → IsBytes rest → (arg_2 m a rest).n ≢ 0 → IsHeadOf (0 ∷ rest) (arg_2 m a rest)
  unfolding arg_2 be16
  arg_2-IsHeadOf (x ∷ y ∷ rest) h k = omega arith
  arg_2-IsHeadOf _ h k = absurd (k refl)

  arg_4-IsHeadOf :
      (rest : List ℕ) → IsBytes rest → (arg_4 m a rest).n ≢ 0 → IsHeadOf (0 ∷ rest) (arg_4 m a rest)
  unfolding arg_4 be32
  arg_4-IsHeadOf (x ∷ y ∷ z ∷ w ∷ rest) h k = omega arith
  arg_4-IsHeadOf _ h k = absurd (k refl)

  arg_8-IsHeadOf :
      (rest : List ℕ) → IsBytes rest → (arg_8 m a rest).n ≢ 0 → IsHeadOf (0 ∷ rest) (arg_8 m a rest)
  unfolding arg_8
  arg_8-IsHeadOf (x ∷ y ∷ z ∷ w ∷ p ∷ q ∷ r ∷ s ∷ rest) h k =
      omega (arith, be64-lt x y z w p q r s (omega arith))
  arg_8-IsHeadOf _ h k = absurd (k refl)

  parse_arg-IsHeadOf :
      (rest : List ℕ)
      → IsBytes rest
      → (parse_arg m a rest).n ≢ 0
      → IsHeadOf (0 ∷ rest) (parse_arg m a rest)
  unfolding parse_arg
  parse_arg-IsHeadOf rest h k =
      ground
        (arith, arg_1-IsHeadOf rest, arg_2-IsHeadOf rest, arg_4-IsHeadOf rest, arg_8-IsHeadOf rest)

-- What ParseHead reports of a source of bytes: a major type, a 64-bit argument, and at least the
-- initial byte, at most the source, as the length of the head.
pub parse_head-IsHeadOf :
    (src : List ℕ) → IsBytes src → (parse_head src).n ≢ 0 → IsHeadOf src (parse_head src)
unfolding parse_head
parse_head-IsHeadOf [] h k = absurd (k refl)
parse_head-IsHeadOf (ib ∷ rest) h k =
    rw (bit_and-major ib h.0, bit_and-info ib h.0)
      (let found =
          parse_arg-IsHeadOf (ib / 32 * 32) (ib % 32) (omega arith) (omega arith) rest h.1
            (rw (bit_and-major ib h.0, bit_and-info ib h.0) at k) in
        record {
          major_shifted = found.major_shifted;
          arg_fits = found.arg_fits;
          some_read = found.some_read;
          within = found.within;
        })

-- A source that begins with the head that AppendHead writes for what was read.
abbrev pub StartsShortest : List ℕ → HeadResult → Type 0
StartsShortest src h = src ≡ head_bytes h.major h.arg ++ drop h.n src

-- One lemma for each width: a shortest head is written again byte by byte.
arg_1-shortest :
    (m : ℕ) (rest : List ℕ)
    → IsBytes rest
    → (arg_1 m 24 rest).n ≢ 0
    → is_shortest (arg_1 m 24 rest) ≡ true
    → StartsShortest (bit_or m 24 ∷ rest) (arg_1 m 24 rest)
unfolding arg_1 head_bytes is_shortest
arg_1-shortest m [] h k s = absurd (k refl)
arg_1-shortest m (x ∷ rest) h k s = ground arith

be16-lt : (x y : ℕ) → x < 256 → y < 256 → be16 x y < 2 ^ 16
unfolding be16
be16-lt x y h k = omega arith

arg_2-shortest :
    (m : ℕ) (rest : List ℕ)
    → IsBytes rest
    → (arg_2 m 25 rest).n ≢ 0
    → is_shortest (arg_2 m 25 rest) ≡ true
    → StartsShortest (bit_or m 25 ∷ rest) (arg_2 m 25 rest)
unfolding arg_2 head_bytes is_shortest
arg_2-shortest m (x ∷ y ∷ rest) h k s = ground (arith, put_u16-be16 x y, be16-lt x y)
arg_2-shortest m _ h k s = absurd (k refl)

be32-lt : (x y z w : ℕ) → IsBytes (x ∷ y ∷ z ∷ w ∷ []) → be32 x y z w < 2 ^ 32
unfolding be32
be32-lt x y z w h = omega arith

arg_4-shortest :
    (m : ℕ) (rest : List ℕ)
    → IsBytes rest
    → (arg_4 m 26 rest).n ≢ 0
    → is_shortest (arg_4 m 26 rest) ≡ true
    → StartsShortest (bit_or m 26 ∷ rest) (arg_4 m 26 rest)
unfolding arg_4 head_bytes is_shortest
arg_4-shortest m (x ∷ y ∷ z ∷ w ∷ rest) h k s =
    ground (arith, put_u32-be32 x y z w, be32-lt x y z w)
arg_4-shortest m _ h k s = absurd (k refl)

arg_8-shortest :
    (m : ℕ) (rest : List ℕ)
    → IsBytes rest
    → (arg_8 m 27 rest).n ≢ 0
    → is_shortest (arg_8 m 27 rest) ≡ true
    → StartsShortest (bit_or m 27 ∷ rest) (arg_8 m 27 rest)
unfolding arg_8 head_bytes is_shortest
arg_8-shortest m (x ∷ y ∷ z ∷ w ∷ p ∷ q ∷ r ∷ t ∷ rest) h k s =
    ground (arith, put_u64-be64 x y z w p q r t)
arg_8-shortest m _ h k s = absurd (k refl)

inline-shortest :
    (m a : ℕ) (rest : List ℕ) → a < 24 → StartsShortest (bit_or m a ∷ rest) (parse_arg m a rest)
unfolding parse_arg head_bytes
inline-shortest m a rest ha = ground arith

info-cases : (a : ℕ) → a < 28 → (a < 24) ⊎ ((a ≡ 24) ⊎ ((a ≡ 25) ⊎ ((a ≡ 26) ⊎ (a ≡ 27))))
info-cases a h = omega arith

abbrev ShortestAt : ℕ → List ℕ → ℕ → Type 0
ShortestAt m rest a =
    (parse_arg m a rest).n ≢ 0
    → is_shortest (parse_arg m a rest) ≡ true
    → StartsShortest (bit_or m a ∷ rest) (parse_arg m a rest)

parse_arg-shortest : (m a : ℕ) (rest : List ℕ) → IsBytes rest → a < 28 → ShortestAt m rest a
unfolding parse_arg
parse_arg-shortest m a rest h ha = elim (info-cases a ha) [
  | inl low ↦ λ k s. inline-shortest m a rest low
  | inr (inl e) ↦ subst (ShortestAt m rest) (sym e) (arg_1-shortest m rest h)
  | inr (inr (inl e)) ↦ subst (ShortestAt m rest) (sym e) (arg_2-shortest m rest h)
  | inr (inr (inr (inl e))) ↦ subst (ShortestAt m rest) (sym e) (arg_4-shortest m rest h)
  | inr (inr (inr (inr e))) ↦ subst (ShortestAt m rest) (sym e) (arg_8-shortest m rest h)
]

pub parse_arg-ai :
    (m a : ℕ) (rest : List ℕ) → (parse_arg m a rest).n ≢ 0 → (parse_arg m a rest).ai ≡ a
unfolding parse_arg arg_1 arg_2 arg_4 arg_8
parse_arg-ai m a rest k = ground arith

-- A head that ParseHead reads from a source of bytes, with additional information below 28, and that
-- IsShortest accepts is the head that AppendHead writes for its major type and argument: the source begins with those bytes, and ParseHead took exactly them.
pub parse_head-shortest :
    (src : List ℕ)
    → IsBytes src
    → (parse_head src).n ≢ 0
    → (parse_head src).ai < 28
    → is_shortest (parse_head src) ≡ true
    → StartsShortest src (parse_head src)
unfolding parse_head
parse_head-shortest [] h k ha s = absurd (k refl)
parse_head-shortest (ib ∷ rest) h k ha s =
    subst (λ b. StartsShortest (b ∷ rest) (parse_arg (bit_and ib 0xe0) (bit_and ib 0x1f) rest))
      (rw (bit_and-major ib h.0, bit_and-info ib h.0) (bit_or-join ib h.0))
      (parse_arg-shortest (bit_and ib 0xe0) (bit_and ib 0x1f) rest h.1
        (rw (parse_arg-ai (bit_and ib 0xe0) (bit_and ib 0x1f) rest k) at ha) k s)
