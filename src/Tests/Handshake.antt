-- ===== src/Tests/Handshake.antt =====
-- The package edhoc at concrete inputs, with a toy cryptography: sums of bytes for hashes, keys and
-- signatures. It has the laws that the code relies on, and is not safe.
mod Parties
mod Credentials
use corecbor.Prelude.{
  ℕ, zero, suc, ◌+◌, ◌*◌, ◌/◌, ◌%◌, ◌^◌, ◌≤◌, ◌<◌, ◌≡◌, refl, sym, ap, ◌∙◌, subst, Bool, true,
  false, List, [], ◌∷◌, ◌++◌, Option, none, some, ltb, ◌==◌, ==_refl, if◌then◌else◌, length,
  IsBytes, IsByte, arith,
}
use corecbor.Cipher.{BlockCipher}
use corecbor.Rfc8949.Equal.{same_bytes, same_bytes_refl}
use corecbor.Cwt.Registered.{some_injective}
use corecbor.Edhoc.Crypto.{Curve, x25519, p256, key_size, Crypto, IsKeyOf, IsCrypto}
use corecbor.Tests.Ciphers.{one_key, xor_cipher}

abbrev fill : ℕ → ℕ → List ℕ
fill zero b = []
fill (suc n) b = b ∷ fill n b

fill-IsBytes : (n b : ℕ) → IsByte b → (length (fill n b) ≡ n) × IsBytes (fill n b)
fill-IsBytes zero b h = (refl, tt)
fill-IsBytes (suc n) b h = let rest = fill-IsBytes n b h in (ap suc rest.0, (h, rest.1))

abbrev sum : List ℕ → ℕ
sum [] = 0
sum (b ∷ bs) = b + sum bs

abbrev first : List ℕ → ℕ
first [] = 0
first (b ∷ bs) = b

-- A key is a number, its bytes begin with it, and a secret is a sum.
abbrev pub Key : Type 0
Key = Curve × ℕ

abbrev key_bytes : Key → List ℕ
key_bytes (x25519, n) = fill 32 (n % 256)
key_bytes (p256, n) = fill 65 (n % 256)

abbrev key_from : Curve → List ℕ → Option Key
key_from k b = if length b == key_size k then some (k, first b) else none

abbrev toy_sign : ℕ → List ℕ → List ℕ
toy_sign k m = fill 64 ((k % 256 + sum m) % 256)

abbrev pub toy : Crypto
toy = record {
  Entropy = ℕ;
  random_byte = λ e. some (e % 256);
  Private = Key;
  Public = Key;
  generate_key = λ k e. some (k, e % 256);
  public_key = λ k. k;
  public_bytes = key_bytes;
  new_public_key = key_from;
  ecdh = λ a b. some ((a.1 + b.1) % 256 ∷ []);
  sha256 = λ b. fill 32 (sum b % 256);
  hkdf_extract = λ secret salt. secret ++ salt;
  hkdf_expand = λ prk info n. some (fill n ((sum prk + sum info) % 256));
  new_cipher = one_key;
  Ed25519Private = ℕ;
  ed25519_public = λ k. fill 32 (k % 256);
  ed25519_sign = toy_sign;
  ed25519_verify = λ p m s. same_bytes s (fill 64 ((first p + sum m) % 256));
  EcdsaPrivate = ℕ;
  EcdsaPublic = ℕ;
  ecdsa_public = λ k. k;
  bit_size = λ p. 256;
  ecdsa_bytes = λ p. some (4 ∷ fill 64 (p % 256));
  ecdsa_sign = λ e k h. some (e % 256, (k + e % 256 + sum h) % 256);
  ecdsa_verify = λ p h r s. s == (p + r + sum h) % 256;
}

generated_key : (k : Curve) (a : Key) → IsKeyOf toy k a → (n : ℕ) × (n < 256) × ((k, n) ≡ a)
generated_key k a h =
    (h.source % 256, omega arith, some_injective (k, h.source % 256) a h.generated)

toy_bytes :
    (k : Curve) (n : ℕ) → (length (key_bytes (k, n)) ≡ key_size k) × IsBytes (key_bytes (k, n))
toy_bytes x25519 n = fill-IsBytes 32 (n % 256) (omega arith)
toy_bytes p256 n = fill-IsBytes 65 (n % 256) (omega arith)

read_back : (k : Curve) (n : ℕ) → n < 256 → key_from k (key_bytes (k, n)) ≡ some (k, n)
read_back x25519 n h = let e : n % 256 ≡ n = omega arith in rw e refl
read_back p256 n h = let e : n % 256 ≡ n = omega arith in rw e refl

read_size : (k : Curve) (b : List ℕ) (p : Key) → key_from k b ≡ some p → length b ≡ key_size k
read_size k b p e = ground (arith, e)

small : (n : ℕ) → n < 256 → n < 256 ^ ((256 + 7) / 8)
small n h = omega (arith, h)

toy_cipher : (key : List ℕ) → length key ≡ 16 → (b : BlockCipher) × (one_key key ≡ some b)
toy_cipher key h = (xor_cipher, ground (arith, h))

toy_signed :
    (e k : ℕ) (h : List ℕ) (r s : ℕ)
    → toy.ecdsa_sign e k h ≡ some (r, s)
    → (e % 256 ≡ r) × ((k + e % 256 + sum h) % 256 ≡ s)
toy_signed e k h r s g =
    let p = some_injective (e % 256, (k + e % 256 + sum h) % 256) (r, s) g in
    (ap (λ x. x.0) p, ap (λ x. x.1) p)

toy_verified :
    (e k : ℕ) (h : List ℕ) (r s : ℕ)
    → toy.ecdsa_sign e k h ≡ some (r, s)
    → (s == (k + r + sum h) % 256) ≡ true
toy_verified e k h r s g =
    let (p, q) = toy_signed e k h r s g in rw (← q, ← p) (==_refl ((k + e % 256 + sum h) % 256))

pub toy-IsCrypto : IsCrypto toy
toy-IsCrypto = record {
  public_bytes-size = λ k a h.
      let (n, l, e) = generated_key k a h in
      subst (λ x. (length (key_bytes x) ≡ key_size k) × IsBytes (key_bytes x)) e (toy_bytes k n);
  new_public_key-public_bytes = λ k a h.
      let (n, l, e) = generated_key k a h in
      subst (λ x. key_from k (key_bytes x) ≡ some x) e (read_back k n l);
  new_public_key-size = read_size;
  ecdh_shared = λ k a b h g. (
    (a.1 + b.1) % 256 ∷ [],
    refl,
    let e : (b.1 + a.1) % 256 ≡ (a.1 + b.1) % 256 = omega arith in ap (λ x. some (x ∷ [])) e,
  );
  sha256-size = λ b. fill-IsBytes 32 (sum b % 256) (omega arith);
  hkdf_expand-size = λ prk info n h.
      let r = fill-IsBytes n ((sum prk + sum info) % 256) (omega arith) in (_, refl, r.0, r.1);
  new_cipher-size = toy_cipher;
  ed25519_public-size = λ k. fill-IsBytes 32 (k % 256) (omega arith);
  ed25519_sign-size = λ k m. fill-IsBytes 64 ((k % 256 + sum m) % 256) (omega arith);
  ed25519_verify-sign = λ k m. same_bytes_refl (toy_sign k m);
  bit_size-most = λ p. omega arith;
  ecdsa_bytes-size = λ p b e.
      let h = fill-IsBytes 64 (p % 256) (omega arith) in
      subst (λ x. (length x ≡ 65) × IsBytes x) (some_injective (4 ∷ fill 64 (p % 256)) b e)
        (refl, (omega arith, h.1));
  ecdsa_sign-size =
      λ e k h r s g. let (p, q) = toy_signed e k h r s g in (omega (arith, p), omega (arith, q));
  ecdsa_verify-sign = toy_verified;
}
