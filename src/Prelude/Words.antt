-- ===== src/Prelude/Words.antt =====
-- Bytes as numbers below 256: masks as arithmetic (each law is a table, checked by evaluation),
-- and the big-endian groups of encoding/binary.
use Prim.Native.Nat.{ℕ, zero, suc, ◌+◌, ◌*◌, ◌/◌, ◌%◌, ◌^◌, ◌<◌, bit_and, bit_or}
use mathlib.Core.Path.{◌≡◌, refl}
use mathlib.Core.Bool.{Bool, true, ◌&&◌}
use mathlib.Core.List.{List, [], ◌∷◌}
use native.Mathlib.Omega.{arith}
use corecbor.Prelude.Tests.{◌==◌}
use corecbor.Prelude.Lists.{All}

abbrev pub IsByte : ℕ → Type 0
IsByte b = b < 256

abbrev pub IsU64 : ℕ → Type 0
IsU64 v = v < 2 ^ 64

abbrev pub IsBytes : List ℕ → Type 0
IsBytes bs = All IsByte bs

-- Two functions on bytes agree on the bytes below `top`.
unfoldable pub same_to : (f g : ℕ → ℕ) (top : ℕ) → Bool
same_to f g zero = true
same_to f g (suc top) = same_to f g top && (f top == g top)

pub same_to-below : (f g : ℕ → ℕ) (top b : ℕ) → same_to f g top ≡ true → b < top → f b ≡ g b
unfolding same_to
same_to-below f g zero b e k = absurd (omega arith)
same_to-below f g (suc top) b e k = ground (arith, same_to-below f g top b)

major_bits : same_to (λ b. bit_and b 0xe0) (λ b. b / 32 * 32) 256 ≡ true
unfolding same_to
major_bits = refl

info_bits : same_to (λ b. bit_and b 0x1f) (λ b. b % 32) 256 ≡ true
unfolding same_to
info_bits = refl

join_bits : same_to (λ b. bit_or (b / 32 * 32) (b % 32)) (λ b. b) 256 ≡ true
unfolding same_to
join_bits = refl

pub bit_and-major : (b : ℕ) → b < 256 → bit_and b 0xe0 ≡ b / 32 * 32
bit_and-major b = same_to-below (λ b. bit_and b 0xe0) (λ b. b / 32 * 32) 256 b major_bits

pub bit_and-info : (b : ℕ) → b < 256 → bit_and b 0x1f ≡ b % 32
bit_and-info b = same_to-below (λ b. bit_and b 0x1f) (λ b. b % 32) 256 b info_bits

pub bit_or-join : (b : ℕ) → b < 256 → bit_or (b / 32 * 32) (b % 32) ≡ b
bit_or-join b = same_to-below (λ b. bit_or (b / 32 * 32) (b % 32)) (λ b. b) 256 b join_bits

-- binary.BigEndian.AppendUint16, AppendUint32 and AppendUint64 on an empty slice.
unfoldable pub put_u16 : ℕ → List ℕ
put_u16 v = (v / 256 % 256) ∷ (v % 256) ∷ []

unfoldable pub put_u32 : ℕ → List ℕ
put_u32 v = (v / 2 ^ 24 % 256) ∷ (v / 2 ^ 16 % 256) ∷ (v / 256 % 256) ∷ (v % 256) ∷ []

unfoldable pub put_u64 : ℕ → List ℕ
put_u64 v =
    (v / 2 ^ 56 % 256)
    ∷ (v / 2 ^ 48 % 256)
    ∷ (v / 2 ^ 40 % 256)
    ∷ (v / 2 ^ 32 % 256)
    ∷ (v / 2 ^ 24 % 256)
    ∷ (v / 2 ^ 16 % 256)
    ∷ (v / 256 % 256)
    ∷ (v % 256)
    ∷ []

-- binary.BigEndian.Uint16, Uint32 and Uint64: the number that the bytes spell, the first the
-- heaviest.
unfoldable pub be16 : ℕ → ℕ → ℕ
be16 a b = a * 256 + b

unfoldable pub be32 : ℕ → ℕ → ℕ → ℕ → ℕ
be32 a b c d = a * 2 ^ 24 + b * 2 ^ 16 + c * 256 + d

unfoldable pub be64 : ℕ → ℕ → ℕ → ℕ → ℕ → ℕ → ℕ → ℕ → ℕ
be64 a b c d e f g h =
    a * 2 ^ 56 + b * 2 ^ 48 + c * 2 ^ 40 + d * 2 ^ 32 + e * 2 ^ 24 + f * 2 ^ 16 + g * 256 + h
