-- ===== src/Cose/KeyWrap.antt =====
-- cose/internal/aeskw/aeskw.go: the AES key wrap of RFC 3394. The registers A and R[0..n-1] are
-- strings of eight bytes.
pub mod Rounds
pub mod Inverse
use corecbor.Prelude.{
  ℕ, zero, suc, ◌+◌, ◌-◌, ◌*◌, ◌/◌, ◌%◌, Bool, true, false, ◌||◌, not, List, [], ◌∷◌, ◌++◌, none,
  some, ltb, ◌==◌, if◌then◌else◌, length, take, drop, put_u64, xor_bytes,
}
use corecbor.Cipher.{BlockCipher, NewCipher}
use corecbor.Rfc8949.Equal.{same_bytes}

abbrev pub default_iv : List ℕ
default_iv = 0xa6 ∷ 0xa6 ∷ 0xa6 ∷ 0xa6 ∷ 0xa6 ∷ 0xa6 ∷ 0xa6 ∷ 0xa6 ∷ []

pub data KeyWrapError : Type 0 where
  bad_length bad_key bad_integrity : KeyWrapError

pub data Result : Type 0 where
  ok : List ℕ → Result
  err : KeyWrapError → Result

-- `[n][8]byte`, cut from the front of a string.
unfoldable pub words : ℕ → List ℕ → List (List ℕ)
words zero b = []
words (suc n) b = take 8 b ∷ words n (drop 8 b)

unfoldable pub join_words : List (List ℕ) → List ℕ
join_words [] = []
join_words (x ∷ xs) = x ++ join_words xs

module _ (c : BlockCipher) where
  -- The loop over i of one round of Wrap; `t` is n*j+i.
  unfoldable pub wrap_round : ℕ → List ℕ → List (List ℕ) → List ℕ × List (List ℕ)
  wrap_round t a [] = (a, [])
  wrap_round t a (x ∷ xs) =
      let b = c.encrypt (a ++ x) in
      let (a', xs') = wrap_round (t + 1) (xor_bytes (take 8 b) (put_u64 (t + 1))) xs in
      (a', drop 8 b ∷ xs')

  -- The rounds up to, and without, `j`.
  unfoldable pub wrap_rounds : ℕ → ℕ → List ℕ → List (List ℕ) → List ℕ × List (List ℕ)
  unfolding wrap_round
  wrap_rounds n zero a r = (a, r)
  wrap_rounds n (suc j) a r = let (a', r') = wrap_rounds n j a r in wrap_round (n * j) a' r'

  -- The loop over i of one round of Unwrap, from the last register to the first.
  unfoldable pub unwrap_round : ℕ → List ℕ → List (List ℕ) → List ℕ × List (List ℕ)
  unwrap_round t a [] = (a, [])
  unwrap_round t a (x ∷ xs) =
      let (a', xs') = unwrap_round (t + 1) a xs in
      let b = c.decrypt (xor_bytes a' (put_u64 (t + 1)) ++ x) in (take 8 b, drop 8 b ∷ xs')

  unfoldable pub unwrap_rounds : ℕ → ℕ → List ℕ → List (List ℕ) → List ℕ × List (List ℕ)
  unfolding unwrap_round
  unwrap_rounds n zero a r = (a, r)
  unwrap_rounds n (suc j) a r = let (a', r') = unwrap_round (n * j) a r in unwrap_rounds n j a' r'

  unfoldable pub wrap_words : ℕ → List ℕ → List ℕ
  unfolding wrap_rounds words join_words
  wrap_words n plaintext =
      let (a, r) = wrap_rounds n 6 default_iv (words n plaintext) in a ++ join_words r

  unfoldable pub unwrap_words : ℕ → List ℕ → Result
  unfolding unwrap_rounds words join_words
  unwrap_words n ciphertext =
      let (a, r) = unwrap_rounds n 6 (take 8 ciphertext) (words n (drop 8 ciphertext)) in
      if same_bytes a default_iv then ok (join_words r) else err bad_integrity

module _ (new_cipher : NewCipher) where
  unfoldable pub wrap : List ℕ → List ℕ → Result
  unfolding wrap_words
  wrap kek plaintext =
      let n = length plaintext / 8 in
      if not (length plaintext % 8 == 0) || ltb n 2
      then err bad_length
      else elim (new_cipher kek) [ none ↦ err bad_key | some c ↦ ok (wrap_words c n plaintext) ]

  unfoldable pub unwrap : List ℕ → List ℕ → Result
  unfolding unwrap_words
  unwrap kek ciphertext =
      let n = length ciphertext / 8 - 1 in
      if not (length ciphertext % 8 == 0) || ltb n 2
      then err bad_length
      else elim (new_cipher kek) [ none ↦ err bad_key | some c ↦ unwrap_words c n ciphertext ]
