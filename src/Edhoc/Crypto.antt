-- ===== src/Edhoc/Crypto.antt =====
-- The cryptography of Go's standard library and of golang.org/x/crypto that the package edhoc calls:
-- crypto/rand, crypto/ecdh, crypto/sha256, hkdf, crypto/aes, crypto/ed25519 and crypto/ecdsa. Integers of
-- math/big are natural numbers.
use corecbor.Prelude.{
  ℕ, ◌+◌, ◌*◌, ◌/◌, ◌^◌, ◌≤◌, ◌<◌, ◌≡◌, Bool, true, List, length, IsBytes, Option, some,
}
use corecbor.Cipher.{BlockCipher, NewCipher}

-- ecdh.X25519 and ecdh.P256.
pub data Curve : Type 0 where
  x25519 p256 : Curve

-- The length of a public key in bytes.
abbrev pub key_size : Curve → ℕ
key_size x25519 = 32
key_size p256 = 65

-- `none` is an error of the library. Whatever is read from rand.Reader is in Entropy.
pub record Crypto : Type 1 where
  pub Entropy : Type 0
  -- rand.Read into one byte.
  pub random_byte : Entropy → Option ℕ
  pub Private : Type 0
  pub Public : Type 0
  pub generate_key : Curve → Entropy → Option Private
  pub public_key : Private → Public
  pub public_bytes : Public → List ℕ
  pub new_public_key : Curve → List ℕ → Option Public
  pub ecdh : Private → Public → Option (List ℕ)
  pub sha256 : List ℕ → List ℕ
  pub hkdf_extract : List ℕ → List ℕ → List ℕ
  -- io.ReadFull of hkdf.Expand.
  pub hkdf_expand : List ℕ → List ℕ → ℕ → Option (List ℕ)
  pub new_cipher : NewCipher
  pub Ed25519Private : Type 0
  pub ed25519_public : Ed25519Private → List ℕ
  pub ed25519_sign : Ed25519Private → List ℕ → List ℕ
  pub ed25519_verify : List ℕ → List ℕ → List ℕ → Bool
  pub EcdsaPrivate : Type 0
  pub EcdsaPublic : Type 0
  pub ecdsa_public : EcdsaPrivate → EcdsaPublic
  -- Curve.Params().BitSize and Bytes of a public key.
  pub bit_size : EcdsaPublic → ℕ
  pub ecdsa_bytes : EcdsaPublic → Option (List ℕ)
  pub ecdsa_sign : Entropy → EcdsaPrivate → List ℕ → Option (ℕ × ℕ)
  pub ecdsa_verify : EcdsaPublic → List ℕ → ℕ → ℕ → Bool

-- A key of a curve's own, as GenerateKey makes it.
pub record IsKeyOf (c : Crypto) (curve : Curve) (k : c.Private) : Type 0 where
  pub source : c.Entropy
  pub generated : c.generate_key curve source ≡ some k

-- What the code relies on.
pub record IsCrypto (c : Crypto) : Type 0 where
  pub public_bytes-size :
      (curve : Curve) (k : c.Private)
      → IsKeyOf c curve k
      → (length (c.public_bytes (c.public_key k)) ≡ key_size curve)
        × IsBytes (c.public_bytes (c.public_key k))
  pub new_public_key-public_bytes :
      (curve : Curve) (k : c.Private)
      → IsKeyOf c curve k
      → c.new_public_key curve (c.public_bytes (c.public_key k)) ≡ some (c.public_key k)
  -- A key of another length is rejected.
  pub new_public_key-size :
      (curve : Curve) (b : List ℕ) (p : c.Public)
      → c.new_public_key curve b ≡ some p
      → length b ≡ key_size curve
  pub ecdh_shared :
      (curve : Curve) (a b : c.Private)
      → IsKeyOf c curve a
      → IsKeyOf c curve b
      → (s : List ℕ) × (c.ecdh a (c.public_key b) ≡ some s) × (c.ecdh b (c.public_key a) ≡ some s)
  pub sha256-size : (b : List ℕ) → (length (c.sha256 b) ≡ 32) × IsBytes (c.sha256 b)
  -- HKDF with SHA-256 gives up to 255 blocks of 32 bytes.
  pub hkdf_expand-size :
      (prk info : List ℕ) (n : ℕ)
      → n ≤ 255 * 32
      → (out : List ℕ) × (c.hkdf_expand prk info n ≡ some out) × (length out ≡ n) × IsBytes out
  pub new_cipher-size :
      (key : List ℕ) → length key ≡ 16 → (b : BlockCipher) × (c.new_cipher key ≡ some b)
  pub ed25519_public-size :
      (k : c.Ed25519Private) → (length (c.ed25519_public k) ≡ 32) × IsBytes (c.ed25519_public k)
  pub ed25519_sign-size :
      (k : c.Ed25519Private) (m : List ℕ)
      → (length (c.ed25519_sign k m) ≡ 64) × IsBytes (c.ed25519_sign k m)
  pub ed25519_verify-sign :
      (k : c.Ed25519Private) (m : List ℕ)
      → c.ed25519_verify (c.ed25519_public k) m (c.ed25519_sign k m) ≡ true
  -- The largest curve has 521 bits.
  pub bit_size-most : (p : c.EcdsaPublic) → c.bit_size p ≤ 521
  -- The uncompressed point: a byte and two coordinates.
  pub ecdsa_bytes-size :
      (p : c.EcdsaPublic) (b : List ℕ)
      → c.ecdsa_bytes p ≡ some b
      → (length b ≡ 1 + 2 * ((c.bit_size p + 7) / 8)) × IsBytes b
  pub ecdsa_sign-size :
      (e : c.Entropy) (k : c.EcdsaPrivate) (h : List ℕ) (r s : ℕ)
      → c.ecdsa_sign e k h ≡ some (r, s)
      → (r < 256 ^ ((c.bit_size (c.ecdsa_public k) + 7) / 8))
        × (s < 256 ^ ((c.bit_size (c.ecdsa_public k) + 7) / 8))
  pub ecdsa_verify-sign :
      (e : c.Entropy) (k : c.EcdsaPrivate) (h : List ℕ) (r s : ℕ)
      → c.ecdsa_sign e k h ≡ some (r, s)
      → c.ecdsa_verify (c.ecdsa_public k) h r s ≡ true
