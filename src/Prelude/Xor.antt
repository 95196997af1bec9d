-- ===== src/Prelude/Xor.antt =====
-- `^` on bytes, and on byte strings of one length.
use Prim.Native.Nat.{
  ℕ, zero, suc, ◌+◌, ◌-◌, ◌*◌, ◌/◌, ◌%◌, ◌^◌, ◌≤◌, ◌<◌, bit_xor, digits, differ, bit_xor-bitwise,
}
use mathlib.Core.Path.{◌≡◌, refl, sym, ap, ◌∙◌}
use mathlib.Core.List.{List, [], ◌∷◌}
use native.Mathlib.Nat.{pow-suc}
use native.Mathlib.Omega.{arith}
use corecbor.Prelude.Lists.{length}
use corecbor.Prelude.Words.{IsByte, IsBytes}

-- What `bit_xor` computes with `n` steps; `a` itself is enough of them.
abbrev steps : ℕ → ℕ → ℕ → ℕ
steps n a b = digits (λ y. y) differ n a b

one_more : (n a b : ℕ) → a ≤ n → steps (suc n) a b ≡ steps n a b
one_more zero zero b h = refl
one_more (suc n) zero b h = refl
one_more zero (suc a) b h = absurd (omega arith)
one_more (suc n) (suc a) b h = omega (arith, one_more n (suc a / 2) (b / 2) (omega arith))

any_more : (d n a b : ℕ) → a ≤ n → steps (d + n) a b ≡ steps n a b
any_more zero n a b h = let e : 0 + n ≡ n = omega arith in ap (λ k. steps k a b) e
any_more (suc d) n a b h =
    let e : suc d + n ≡ suc (d + n) = omega arith in
    ap (λ k. steps k a b) e ∙ (one_more (d + n) a b (omega arith) ∙ any_more d n a b h)

differ_zero : (y : ℕ) → differ 0 y ≡ y
differ_zero y = refl

last_digit : (a b : ℕ) → bit_xor a b ≡ bit_xor (a / 2) (b / 2) * 2 + differ (a % 2) (b % 2)
last_digit zero b =
    omega (arith, bit_xor-bitwise 0 b, bit_xor-bitwise 0 (b / 2), differ_zero (b % 2))
last_digit (suc a) b =
    let half : (a - suc a / 2) + suc a / 2 ≡ a = omega arith in
    let enough : steps a (suc a / 2) (b / 2) ≡ steps (suc a / 2) (suc a / 2) (b / 2) =
      ap (λ k. steps k (suc a / 2) (b / 2)) (sym half)
      ∙ any_more (a - suc a / 2) (suc a / 2) (suc a / 2) (b / 2) (omega arith) in
    omega (arith, bit_xor-bitwise (suc a) b, bit_xor-bitwise (suc a / 2) (b / 2), enough)

differ_bit : (x y : ℕ) → x < 2 → y < 2 → (differ x y < 2) × (differ (differ x y) y ≡ x)
differ_bit zero zero h k = (omega arith, refl)
differ_bit zero (suc zero) h k = (omega arith, refl)
differ_bit (suc zero) zero h k = (omega arith, refl)
differ_bit (suc zero) (suc zero) h k = (omega arith, refl)
differ_bit (suc (suc x)) y h k = absurd (omega arith)
differ_bit x (suc (suc y)) h k = absurd (omega arith)

bits-xor :
    (k a b : ℕ) → a < 2 ^ k → b < 2 ^ k → (bit_xor a b < 2 ^ k) × (bit_xor (bit_xor a b) b ≡ a)
bits-xor zero zero zero h g = (omega arith, refl)
bits-xor zero (suc a) b h g = absurd (omega arith)
bits-xor zero a (suc b) h g = absurd (omega arith)
bits-xor (suc k) a b h g =
    let high =
      bits-xor k (a / 2) (b / 2) (omega (arith, pow-suc 2 k, h)) (omega (arith, pow-suc 2 k, g)) in
    let low = differ_bit (a % 2) (b % 2) (omega arith) (omega arith) in
    let x : bit_xor a b ≡ bit_xor (a / 2) (b / 2) * 2 + differ (a % 2) (b % 2) = last_digit a b in
    let upper : bit_xor a b / 2 ≡ bit_xor (a / 2) (b / 2) = omega (arith, x, low.0) in
    let lower : bit_xor a b % 2 ≡ differ (a % 2) (b % 2) = omega (arith, x, low.0) in
    (
      omega (arith, x, low.0, high.0, pow-suc 2 k),
      last_digit (bit_xor a b) b ∙ rw (upper, lower, high.1, low.1) (omega arith),
    )

pub xor-IsByte : (a b : ℕ) → IsByte a → IsByte b → IsByte (bit_xor a b)
xor-IsByte a b h g = (bits-xor 8 a b h g).0

pub xor_twice : (a b : ℕ) → IsByte a → IsByte b → bit_xor (bit_xor a b) b ≡ a
xor_twice a b h g = (bits-xor 8 a b h g).1

-- Byte by byte, up to the end of the shorter.
abbrev pub xor_bytes : List ℕ → List ℕ → List ℕ
xor_bytes (x ∷ xs) (y ∷ ys) = bit_xor x y ∷ xor_bytes xs ys
xor_bytes _ _ = []

pub xor_bytes-IsBytes : (xs ys : List ℕ) → IsBytes xs → IsBytes ys → IsBytes (xor_bytes xs ys)
xor_bytes-IsBytes [] ys h g = tt
xor_bytes-IsBytes (x ∷ xs) [] h g = tt
xor_bytes-IsBytes (x ∷ xs) (y ∷ ys) h g = (xor-IsByte x y h.0 g.0, xor_bytes-IsBytes xs ys h.1 g.1)

pub xor_bytes_twice :
    (xs ys : List ℕ)
    → length xs ≤ length ys
    → IsBytes xs
    → IsBytes ys
    → xor_bytes (xor_bytes xs ys) ys ≡ xs
xor_bytes_twice [] ys k h g = refl
xor_bytes_twice (x ∷ xs) [] k h g = absurd (omega arith)
xor_bytes_twice (x ∷ xs) (y ∷ ys) k h g =
    rw (xor_twice x y h.0 g.0, xor_bytes_twice xs ys (omega arith) h.1 g.1) refl

pub length-xor_bytes :
    (xs ys : List ℕ) → length xs ≤ length ys → length (xor_bytes xs ys) ≡ length xs
length-xor_bytes [] ys k = refl
length-xor_bytes (x ∷ xs) [] k = absurd (omega arith)
length-xor_bytes (x ∷ xs) (y ∷ ys) k = ap suc (length-xor_bytes xs ys (omega arith))
