-- ===== src/Cose/KeyWrap/Inverse.antt =====
-- cose/internal/aeskw/aeskw.go: Wrap and Unwrap against each other.
use corecbor.Prelude.{
  ℕ, ◌+◌, ◌-◌, ◌*◌, ◌/◌, ◌%◌, ◌≤◌, ◌≡◌, refl, ap, ◌∙◌, subst, Bool, true, false, ◌||◌, not, List,
  [], Option, none, some, ltb, ◌==◌, if◌then◌else◌, arith, length, length-append, length-take,
  length-drop, take, drop, take-append-drop, All-take, All-drop, IsBytes, IsByte,
}
use corecbor.Cipher.{BlockCipher, NewCipher}
use corecbor.Rfc8949.Equal.{same_bytes, same_bytes-eq}
use corecbor.Cose.KeyWrap.{
  default_iv, Result, ok, err, words, join_words, wrap_rounds, unwrap_rounds, wrap_words,
  unwrap_words, wrap, unwrap, bad_integrity, bad_length, bad_key,
}
use corecbor.Cose.KeyWrap.Rounds.{
  IsWord, take-word, drop-word, wrap_rounds-AreWords, unwrap_rounds-AreWords,
  unwrap_rounds-wrap_rounds, wrap_rounds-unwrap_rounds, length-wrap_rounds, length-unwrap_rounds,
  words-join_words, length-join_words, words-AreWords,
}

iv-IsWord : IsWord default_iv
iv-IsWord = (refl, ground arith)

abbrev plaintext_of : Result → List ℕ
plaintext_of (ok p) = p
plaintext_of (err e) = []

accepted :
    (s : Bool) (x p : List ℕ)
    → (if s then ok x else err bad_integrity) ≡ ok p
    → (s ≡ true) × (x ≡ p)
accepted true x p e = (refl, ap plaintext_of e)
accepted false x p e = cc (e)

module _ (c : BlockCipher) (n : ℕ) where
  unwrap_words-wrap_words :
      (p : List ℕ)
      → length p ≡ 8 * n
      → IsBytes p
      → (unwrap_words c n (wrap_words c n p) ≡ ok p) × (length (wrap_words c n p) ≡ 8 + 8 * n)
  unfolding unwrap_words wrap_words same_bytes
  unwrap_words-wrap_words p h g =
      let w = words-AreWords n p h g in
      let q = wrap_rounds c n 6 default_iv (words n p) in
      let s = wrap_rounds-AreWords c n 6 default_iv (words n p) iv-IsWord w.1 in
      let count : length q.1 ≡ n = length-wrap_rounds c n 6 default_iv (words n p) ∙ w.0 in
      let cut : words n (join_words q.1) ≡ q.1 =
        subst (λ k. words k (join_words q.1) ≡ q.1) count (words-join_words q.1 s.1) in
      (
        rw
            (
              take-word q.0 (join_words q.1) s.0.0,
              drop-word q.0 (join_words q.1) s.0.0,
              cut,
              unwrap_rounds-wrap_rounds c n 6 default_iv (words n p) iv-IsWord w.1,
              w.2,
            )
            refl,
        omega (arith, length-append q.0 (join_words q.1), s.0.0, length-join_words q.1 s.1, count),
      )

  wrap_words-unwrap_words :
      (b p : List ℕ)
      → length b ≡ 8 + 8 * n
      → IsBytes b
      → unwrap_words c n b ≡ ok p
      → (wrap_words c n p ≡ b) × (length p ≡ 8 * n)
  unfolding unwrap_words wrap_words
  wrap_words-unwrap_words b p h g e =
      let r0 = words n (drop 8 b) in
      let a0 : IsWord (take 8 b) = (omega (arith, length-take 8 b, h), All-take IsByte 8 b g) in
      let w =
        words-AreWords n (drop 8 b) (omega (arith, length-drop 8 b, h)) (All-drop IsByte 8 b g) in
      let q = unwrap_rounds c n 6 (take 8 b) r0 in
      let s = unwrap_rounds-AreWords c n 6 (take 8 b) r0 a0 w.1 in
      let count : length q.1 ≡ n = length-unwrap_rounds c n 6 (take 8 b) r0 ∙ w.0 in
      let cut : words n (join_words q.1) ≡ q.1 =
        subst (λ k. words k (join_words q.1) ≡ q.1) count (words-join_words q.1 s.1) in
      let checked = accepted (same_bytes q.0 default_iv) (join_words q.1) p e in
      let iv = same_bytes-eq q.0 default_iv checked.0 in
      (
        rw (← checked.1, cut, ← iv, wrap_rounds-unwrap_rounds c n 6 (take 8 b) r0 a0 w.1, w.2)
            (take-append-drop 8 b),
        omega (arith, ap length checked.1, length-join_words q.1 s.1, count),
      )

module _ (new_cipher : NewCipher) (kek : List ℕ) where
  wrap-some :
      (c : BlockCipher) (n : ℕ) (p : List ℕ)
      → new_cipher kek ≡ some c
      → length p ≡ 8 * n
      → 2 ≤ n
      → wrap new_cipher kek p ≡ ok (wrap_words c n p)
  unfolding wrap
  wrap-some c n p k h g =
      let count : length p / 8 ≡ n = omega (arith, h) in
      let fits : not (length p % 8 == 0) || ltb (length p / 8) 2 ≡ false = ground arith in
      rw (fits, k, count) refl

  unwrap-some :
      (c : BlockCipher) (n : ℕ) (b : List ℕ)
      → new_cipher kek ≡ some c
      → length b ≡ 8 + 8 * n
      → 2 ≤ n
      → unwrap new_cipher kek b ≡ unwrap_words c n b
  unfolding unwrap
  unwrap-some c n b k h g =
      let count : length b / 8 - 1 ≡ n = omega (arith, h) in
      let fits : not (length b % 8 == 0) || ltb (length b / 8 - 1) 2 ≡ false = ground arith in
      rw (fits, k, count) refl

  -- What a call of Unwrap that succeeds has passed.
  record Passed (b p : List ℕ) : Type 0 where
    cipher : BlockCipher
    takes_key : new_cipher kek ≡ some cipher
    fits : not (length b % 8 == 0) || ltb (length b / 8 - 1) 2 ≡ false
    unwraps : unwrap_words cipher (length b / 8 - 1) b ≡ ok p

  unwrap-Passed : (b p : List ℕ) → unwrap new_cipher kek b ≡ ok p → Passed b p
  unfolding unwrap
  unwrap-Passed b p e = by _ (new_cipher kek) refl refl e
    where
      by :
          (t : Bool) (o : Option BlockCipher)
          → not (length b % 8 == 0) || ltb (length b / 8 - 1) 2 ≡ t
          → new_cipher kek ≡ o
          → (if t
              then err bad_length
              else elim o [ none ↦ err bad_key | some c ↦ unwrap_words c (length b / 8 - 1) b ])
            ≡ ok p
          → Passed b p
      by true o f k r = cc (r)
      by false none f k r = cc (r)
      by false (some c) f k r = record { cipher = c; takes_key = k; fits = f; unwraps = r }

-- Unwrap gives back what Wrap made of it, under the same key: every string of bytes whose length is
-- a multiple of eight, 16 at least, if the block cipher takes the key.
pub unwrap-wrap :
    (new_cipher : NewCipher) (kek : List ℕ) (c : BlockCipher) (p : List ℕ)
    → new_cipher kek ≡ some c
    → IsBytes p
    → length p % 8 ≡ 0
    → 16 ≤ length p
    → (out : List ℕ) × (wrap new_cipher kek p ≡ ok out) × (unwrap new_cipher kek out ≡ ok p)
unwrap-wrap new_cipher kek c p k g m h =
    let n = length p / 8 in
    let u = unwrap_words-wrap_words c n p (omega (arith, m)) g in
    (
      wrap_words c n p,
      wrap-some new_cipher kek c n p k (omega (arith, m)) (omega arith),
      unwrap-some new_cipher kek c n (wrap_words c n p) k u.1 (omega arith) ∙ u.0,
    )

-- Unwrap accepts no string of bytes but what Wrap makes of its result, under the same key.
pub wrap-unwrap :
    (new_cipher : NewCipher) (kek b p : List ℕ)
    → IsBytes b
    → unwrap new_cipher kek b ≡ ok p
    → wrap new_cipher kek p ≡ ok b
wrap-unwrap new_cipher kek b p g e =
    let q = unwrap-Passed new_cipher kek b p e in
    let n = length b / 8 - 1 in
    let whole : length b % 8 ≡ 0 = ground (arith, q.fits) in
    let two : 2 ≤ n = ground (arith, q.fits) in
    let w = wrap_words-unwrap_words q.cipher n b p (omega (arith, whole, two)) g q.unwraps in
    wrap-some new_cipher kek q.cipher n p q.takes_key w.1 two ∙ ap ok w.0
