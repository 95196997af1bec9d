-- ===== src/Cose/KeyWrap/Rounds.antt =====
-- cose/internal/aeskw/aeskw.go: the rounds of the two loops, and their words.
use corecbor.Prelude.{
  ℕ, zero, suc, ◌+◌, ◌*◌, ◌≡◌, refl, ap, ◌∙◌, subst, List, [], ◌∷◌, ◌++◌, arith, length,
  length-append, length-take, length-drop, take, drop, take-append-drop, take-length_append,
  drop-length_append, All, All-append, All-take, All-drop, put_u64, IsBytes, IsByte, xor_bytes,
  xor_bytes-IsBytes, xor_bytes_twice, length-xor_bytes,
}
use corecbor.Cipher.{BlockCipher, IsBlock}
use corecbor.Cose.KeyWrap.{words, join_words, wrap_round, wrap_rounds, unwrap_round, unwrap_rounds}

abbrev pub IsWord : List ℕ → Type 0
IsWord x = (length x ≡ 8) × IsBytes x

abbrev pub AreWords : List ℕ × List (List ℕ) → Type 0
AreWords p = IsWord p.0 × All IsWord p.1

pub take-word : (x y : List ℕ) → length x ≡ 8 → take 8 (x ++ y) ≡ x
take-word x y h = subst (λ n. take n (x ++ y) ≡ x) h (take-length_append x y)

pub drop-word : (x y : List ℕ) → length x ≡ 8 → drop 8 (x ++ y) ≡ y
drop-word x y h = subst (λ n. drop n (x ++ y) ≡ y) h (drop-length_append x y)

append-IsBlock : (x y : List ℕ) → IsWord x → IsWord y → IsBlock (x ++ y)
append-IsBlock x y h g = (omega (arith, length-append x y, h.0, g.0), All-append IsByte x y h.1 g.1)

take-IsWord : (b : List ℕ) → IsBlock b → IsWord (take 8 b)
take-IsWord b h = (omega (arith, length-take 8 b, h.0), All-take IsByte 8 b h.1)

drop-IsWord : (b : List ℕ) → IsBlock b → IsWord (drop 8 b)
drop-IsWord b h = (omega (arith, length-drop 8 b, h.0), All-drop IsByte 8 b h.1)

put_u64-IsWord : (t : ℕ) → IsWord (put_u64 t)
unfolding put_u64
put_u64-IsWord t = (refl, ground arith)

xor-IsWord : (x y : List ℕ) → IsWord x → IsWord y → IsWord (xor_bytes x y)
xor-IsWord x y h g = (
  omega (arith, length-xor_bytes x y (omega (arith, h.0, g.0)), h.0),
  xor_bytes-IsBytes x y h.1 g.1,
)

xor_word_twice :
    (x : List ℕ) (t : ℕ) → IsWord x → xor_bytes (xor_bytes x (put_u64 t)) (put_u64 t) ≡ x
xor_word_twice x t h =
    xor_bytes_twice x (put_u64 t) (omega (arith, h.0, (put_u64-IsWord t).0)) h.1
      (put_u64-IsWord t).1

module _ (c : BlockCipher) where
  -- A after one step of Wrap.
  abbrev mixed : ℕ → List ℕ → List ℕ → List ℕ
  mixed t a x = xor_bytes (take 8 (c.encrypt (a ++ x))) (put_u64 (t + 1))

  encrypted : (a x : List ℕ) → IsWord a → IsWord x → IsBlock (c.encrypt (a ++ x))
  encrypted a x h g = c.encrypt-IsBlock (a ++ x) (append-IsBlock a x h g)

  mixed-IsWord : (t : ℕ) (a x : List ℕ) → IsWord a → IsWord x → IsWord (mixed t a x)
  mixed-IsWord t a x h g =
      xor-IsWord _ _ (take-IsWord _ (encrypted a x h g)) (put_u64-IsWord (t + 1))

  wrap_round-AreWords :
      (t : ℕ) (a : List ℕ) (xs : List (List ℕ))
      → IsWord a
      → All IsWord xs
      → AreWords (wrap_round c t a xs)
  unfolding wrap_round
  wrap_round-AreWords t a [] h g = (h, tt)
  wrap_round-AreWords t a (x ∷ xs) h g =
      let rest = wrap_round-AreWords (t + 1) (mixed t a x) xs (mixed-IsWord t a x h g.0) g.1 in
      (rest.0, (drop-IsWord _ (encrypted a x h g.0), rest.1))

  unwrap_round-wrap_round :
      (t : ℕ) (a : List ℕ) (xs : List (List ℕ))
      → IsWord a
      → All IsWord xs
      → let p = wrap_round c t a xs in unwrap_round c t p.0 p.1 ≡ (a, xs)
  unfolding wrap_round unwrap_round
  unwrap_round-wrap_round t a [] h g = refl
  unwrap_round-wrap_round t a (x ∷ xs) h g =
      let b = c.encrypt (a ++ x) in
      rw
        (
          unwrap_round-wrap_round (t + 1) (mixed t a x) xs (mixed-IsWord t a x h g.0) g.1,
          xor_word_twice (take 8 b) (t + 1) (take-IsWord b (encrypted a x h g.0)),
          take-append-drop 8 b,
          c.decrypt-encrypt (a ++ x) (append-IsBlock a x h g.0),
          take-word a x h.0,
          drop-word a x h.0,
        )
        refl

  -- A after the decryption of one step of Unwrap.
  decrypted :
      (t : ℕ) (a x : List ℕ)
      → IsWord a
      → IsWord x
      → IsBlock (c.decrypt (xor_bytes a (put_u64 t) ++ x))
  decrypted t a x h g =
      c.decrypt-IsBlock _ (append-IsBlock _ x (xor-IsWord a _ h (put_u64-IsWord t)) g)

  unwrap_round-AreWords :
      (t : ℕ) (a : List ℕ) (xs : List (List ℕ))
      → IsWord a
      → All IsWord xs
      → AreWords (unwrap_round c t a xs)
  unfolding unwrap_round
  unwrap_round-AreWords t a [] h g = (h, tt)
  unwrap_round-AreWords t a (x ∷ xs) h g =
      let rest = unwrap_round-AreWords (t + 1) a xs h g.1 in
      let b = decrypted (t + 1) (unwrap_round c (t + 1) a xs).0 x rest.0 g.0 in
      (take-IsWord _ b, (drop-IsWord _ b, rest.1))

  wrap_round-unwrap_round :
      (t : ℕ) (a : List ℕ) (xs : List (List ℕ))
      → IsWord a
      → All IsWord xs
      → let p = unwrap_round c t a xs in wrap_round c t p.0 p.1 ≡ (a, xs)
  unfolding wrap_round unwrap_round
  wrap_round-unwrap_round t a [] h g = refl
  wrap_round-unwrap_round t a (x ∷ xs) h g =
      let p = unwrap_round c (t + 1) a xs in
      let word = (unwrap_round-AreWords (t + 1) a xs h g.1).0 in
      let mask = xor_bytes p.0 (put_u64 (t + 1)) in
      let b = c.decrypt (mask ++ x) in
      let masked = xor-IsWord p.0 _ word (put_u64-IsWord (t + 1)) in
      rw
        (
          take-append-drop 8 b,
          c.encrypt-decrypt (mask ++ x) (append-IsBlock mask x masked g.0),
          take-word mask x masked.0,
          drop-word mask x masked.0,
          xor_word_twice p.0 (t + 1) word,
          wrap_round-unwrap_round (t + 1) a xs h g.1,
        )
        refl

  pub wrap_rounds-AreWords :
      (n j : ℕ) (a : List ℕ) (r : List (List ℕ))
      → IsWord a
      → All IsWord r
      → AreWords (wrap_rounds c n j a r)
  unfolding wrap_rounds
  wrap_rounds-AreWords n zero a r h g = (h, g)
  wrap_rounds-AreWords n (suc j) a r h g =
      let p = wrap_rounds-AreWords n j a r h g in wrap_round-AreWords (n * j) _ _ p.0 p.1

  pub unwrap_rounds-AreWords :
      (n j : ℕ) (a : List ℕ) (r : List (List ℕ))
      → IsWord a
      → All IsWord r
      → AreWords (unwrap_rounds c n j a r)
  unfolding unwrap_rounds
  unwrap_rounds-AreWords n zero a r h g = (h, g)
  unwrap_rounds-AreWords n (suc j) a r h g =
      let p = unwrap_round-AreWords (n * j) a r h g in unwrap_rounds-AreWords n j _ _ p.0 p.1

  pub unwrap_rounds-wrap_rounds :
      (n j : ℕ) (a : List ℕ) (r : List (List ℕ))
      → IsWord a
      → All IsWord r
      → let p = wrap_rounds c n j a r in unwrap_rounds c n j p.0 p.1 ≡ (a, r)
  unfolding wrap_rounds unwrap_rounds
  unwrap_rounds-wrap_rounds n zero a r h g = refl
  unwrap_rounds-wrap_rounds n (suc j) a r h g =
      let p = wrap_rounds-AreWords n j a r h g in
      rw (unwrap_round-wrap_round (n * j) _ _ p.0 p.1) (unwrap_rounds-wrap_rounds n j a r h g)

  pub wrap_rounds-unwrap_rounds :
      (n j : ℕ) (a : List ℕ) (r : List (List ℕ))
      → IsWord a
      → All IsWord r
      → let p = unwrap_rounds c n j a r in wrap_rounds c n j p.0 p.1 ≡ (a, r)
  unfolding wrap_rounds unwrap_rounds
  wrap_rounds-unwrap_rounds n zero a r h g = refl
  wrap_rounds-unwrap_rounds n (suc j) a r h g =
      let p = unwrap_round-AreWords (n * j) a r h g in
      rw (wrap_rounds-unwrap_rounds n j _ _ p.0 p.1) (wrap_round-unwrap_round (n * j) a r h g)

  length-wrap_round :
      (t : ℕ) (a : List ℕ) (xs : List (List ℕ)) → length (wrap_round c t a xs).1 ≡ length xs
  unfolding wrap_round
  length-wrap_round t a [] = refl
  length-wrap_round t a (x ∷ xs) = ap suc (length-wrap_round (t + 1) (mixed t a x) xs)

  pub length-wrap_rounds :
      (n j : ℕ) (a : List ℕ) (r : List (List ℕ)) → length (wrap_rounds c n j a r).1 ≡ length r
  unfolding wrap_rounds
  length-wrap_rounds n zero a r = refl
  length-wrap_rounds n (suc j) a r = length-wrap_round (n * j) _ _ ∙ length-wrap_rounds n j a r

  length-unwrap_round :
      (t : ℕ) (a : List ℕ) (xs : List (List ℕ)) → length (unwrap_round c t a xs).1 ≡ length xs
  unfolding unwrap_round
  length-unwrap_round t a [] = refl
  length-unwrap_round t a (x ∷ xs) = ap suc (length-unwrap_round (t + 1) a xs)

  pub length-unwrap_rounds :
      (n j : ℕ) (a : List ℕ) (r : List (List ℕ)) → length (unwrap_rounds c n j a r).1 ≡ length r
  unfolding unwrap_rounds
  length-unwrap_rounds n zero a r = refl
  length-unwrap_rounds n (suc j) a r =
      length-unwrap_rounds n j _ _ ∙ length-unwrap_round (n * j) a r

pub words-join_words : (r : List (List ℕ)) → All IsWord r → words (length r) (join_words r) ≡ r
unfolding words join_words
words-join_words [] h = refl
words-join_words (x ∷ r) h =
    rw (take-word x (join_words r) h.0.0, drop-word x (join_words r) h.0.0, words-join_words r h.1)
      refl

pub length-join_words : (r : List (List ℕ)) → All IsWord r → length (join_words r) ≡ 8 * length r
unfolding join_words
length-join_words [] h = refl
length-join_words (x ∷ r) h =
    omega (arith, length-append x (join_words r), h.0.0, length-join_words r h.1)

pub words-AreWords :
    (n : ℕ) (b : List ℕ)
    → length b ≡ 8 * n
    → IsBytes b
    → (length (words n b) ≡ n) × All IsWord (words n b) × (join_words (words n b) ≡ b)
unfolding words join_words
words-AreWords zero [] h g = (refl, tt, refl)
words-AreWords zero (x ∷ b) h g = absurd (omega arith)
words-AreWords (suc n) b h g =
    let rest =
      words-AreWords n (drop 8 b) (omega (arith, length-drop 8 b, h)) (All-drop IsByte 8 b g) in
    (
      ap suc rest.0,
      ((omega (arith, length-take 8 b, h), All-take IsByte 8 b g), rest.1),
      rw rest.2 (take-append-drop 8 b),
    )
