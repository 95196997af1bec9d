-- ===== src/Cipher.antt =====
-- The block cipher of crypto/aes, as the code relies on it: a permutation of the blocks of 16 bytes
-- for each key, and its inverse.
use corecbor.Prelude.{ℕ, ◌≡◌, List, length, IsBytes, Option}

abbrev pub IsBlock : List ℕ → Type 0
IsBlock b = (length b ≡ 16) × IsBytes b

pub record BlockCipher : Type 0 where
  pub encrypt : List ℕ → List ℕ
  pub decrypt : List ℕ → List ℕ
  pub encrypt-IsBlock : (b : List ℕ) → IsBlock b → IsBlock (encrypt b)
  pub decrypt-IsBlock : (b : List ℕ) → IsBlock b → IsBlock (decrypt b)
  pub decrypt-encrypt : (b : List ℕ) → IsBlock b → decrypt (encrypt b) ≡ b
  pub encrypt-decrypt : (b : List ℕ) → IsBlock b → encrypt (decrypt b) ≡ b

-- aes.NewCipher: `none` is its error, on a key of a length that AES does not have.
abbrev pub NewCipher : Type 0
NewCipher = List ℕ → Option BlockCipher
