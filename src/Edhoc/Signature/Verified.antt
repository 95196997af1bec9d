-- ===== src/Edhoc/Signature/Verified.antt =====
-- edhoc/initiator.go: verifySignature accepts what computeSignature makes.
use corecbor.Prelude.{
  ℕ, zero, suc, ◌+◌, ◌*◌, ◌/◌, ◌%◌, ◌^◌, ◌≤◌, ◌<◌, ◌≡◌, refl, sym, ap, ◌∙◌, true, false, List, ◌∷◌,
  ◌++◌, length, length-append, length-take, length-drop, All-take, All-drop, take, drop,
  take-length_append, drop-length_append, All-append, IsBytes, IsByte, arith, some, leb, ltb, ◌==◌,
  if◌then◌else◌,
}
use native.Mathlib.Nat.{div-div-eq-div-mul, div-eq_of_lt, pow-suc, pow-le-pow_right}
use corecbor.Edhoc.AesCcm.{big_endian}
use corecbor.Edhoc.AesCcm.Blocks.{big_endian-IsBytes}
use corecbor.Edhoc.Result.{ok}
use corecbor.Edhoc.Crypto.{Crypto, IsCrypto}
use corecbor.Edhoc.Signature.{
  Signer, ed25519_signer, ecdsa_signer, other_signer, public_of, byte_len, from_big_endian,
  raw_signature, compute_signature, verify_signature, marshal_public_key_raw, compress,
  is_odd_at_end,
}

from_big_endian-big_endian : (k n : ℕ) → from_big_endian (n / 256 ^ k) (big_endian k n) ≡ n
unfolding from_big_endian big_endian
from_big_endian-big_endian zero n = omega arith
from_big_endian-big_endian (suc k) n =
    let x = n / 256 ^ k in
    let split : n / 256 ^ suc k ≡ x / 256 =
      ap (λ p. n / p) (pow-suc 256 k) ∙ sym (div-div-eq-div-mul n (256 ^ k) 256) in
    let e : n / 256 ^ suc k * 256 + x % 256 ≡ x = omega (arith, split) in
    rw (from_big_endian, e) (from_big_endian-big_endian k n)

pub from_big_endian-low : (k n : ℕ) → n < 256 ^ k → from_big_endian 0 (big_endian k n) ≡ n
from_big_endian-low k n h =
    let e : n / 256 ^ k ≡ 0 = div-eq_of_lt h in
    ap (λ z. from_big_endian z (big_endian k n)) (sym e) ∙ from_big_endian-big_endian k n

take_front : (n : ℕ) (xs ys : List ℕ) → length xs ≡ n → take n (xs ++ ys) ≡ xs
take_front n xs ys e = rw (← e) (take-length_append xs ys)

drop_front : (n : ℕ) (xs ys : List ℕ) → length xs ≡ n → drop n (xs ++ ys) ≡ ys
drop_front n xs ys e = rw (← e) (drop-length_append xs ys)

-- A signer of one of the two kinds that the code has, whose signing does not fail.
module _ (c : Crypto) where
  unfoldable pub IsSigner : c.Entropy → Signer c → Type 0
  IsSigner e (ed25519_signer k) = Unit
  IsSigner e (ecdsa_signer k) =
      ((h : List ℕ) → (r s : ℕ) × (c.ecdsa_sign e k h ≡ some (r, s)))
      × ((raw : List ℕ) × (c.ecdsa_bytes (c.ecdsa_public k) ≡ some raw))
  IsSigner e (other_signer p) = ⊥

-- A signer's public key fits into a message, and its signatures are accepted under that key.
pub record Signs (c : Crypto) (e : c.Entropy) (s : Signer c) : Type 0 where
  pub raw : List ℕ
  pub marshals : marshal_public_key_raw c (public_of c s) ≡ ok raw
  pub raw_fits : length raw ≤ 200
  pub raw_bytes : IsBytes raw
  pub sign :
      (message : List ℕ)
      → (sig : List ℕ) × (compute_signature c e (some s) message ≡ ok sig)
        × (length sig ≤ 200)
        × IsBytes sig
        × (verify_signature c (some (public_of c s)) message sig ≡ ok tt)

module _ (c : Crypto) (laws : IsCrypto c) where
  compress-IsBytes :
      (size : ℕ) (raw : List ℕ)
      → length raw ≡ 1 + 2 * size
      → IsBytes raw
      → (out : List ℕ) × (compress c size raw ≡ ok out) × (length out ≡ 1 + size) × IsBytes out
  unfolding compress
  compress-IsBytes size raw h b =
      let long : ltb (length raw) (1 + size) ≡ false = ground arith in
      let back = take size (drop 1 raw) in
      let count : length back ≡ size =
        omega (arith, h, length-take size (drop 1 raw), length-drop 1 raw) in
      (
        (if is_odd_at_end raw then 3 else 2) ∷ back,
        rw long refl,
        omega (arith, count),
        (ground arith, All-take IsByte size (drop 1 raw) (All-drop IsByte 1 raw b)),
      )

  raw_signature-verified :
      (e : c.Entropy) (k : c.EcdsaPrivate) (h : List ℕ) (r s : ℕ)
      → c.ecdsa_sign e k h ≡ some (r, s)
      → let size = byte_len c (c.ecdsa_public k) in
        let sig = big_endian size r ++ big_endian size s in
        (raw_signature c size r s ≡ ok sig)
        × (length sig ≡ 2 * size)
        × IsBytes sig
        × (c.ecdsa_verify
              (c.ecdsa_public k)
              h
              (from_big_endian 0 (take size sig))
              (from_big_endian 0 (drop size sig))
            ≡ true)
  unfolding raw_signature
  raw_signature-verified e k h r s d =
      let size = byte_len c (c.ecdsa_public k) in
      let small = laws.ecdsa_sign-size e k h r s d in
      let front = big_endian-IsBytes size r in
      let back = big_endian-IsBytes size s in
      let sig = big_endian size r ++ big_endian size s in
      let count : length sig ≡ 2 * size =
        omega (arith, length-append (big_endian size r) (big_endian size s), front.0, back.0) in
      let twice : 256 ^ size ≤ 256 ^ (2 * size) = pow-le-pow_right (omega arith) (omega arith) in
      let first : leb (256 ^ size) r ≡ false = ground (arith, small.0) in
      let second : leb (256 ^ size) s ≡ false = ground (arith, small.1) in
      let whole : leb (256 ^ (2 * size)) s ≡ false = ground (arith, small.1, twice) in
      (
        rw (first, whole, second) refl,
        count,
        All-append IsByte _ _ front.1 back.1,
        rw
            (
              take_front size (big_endian size r) (big_endian size s) front.0,
              drop_front size (big_endian size r) (big_endian size s) front.0,
              from_big_endian-low size r small.0,
              from_big_endian-low size s small.1,
            )
            (laws.ecdsa_verify-sign e k h r s d),
      )

  ed25519-Signs : (e : c.Entropy) (k : c.Ed25519Private) → Signs c e (ed25519_signer k)
  unfolding marshal_public_key_raw compute_signature verify_signature
  ed25519-Signs e k =
      let p = laws.ed25519_public-size k in
      record {
        raw = c.ed25519_public k;
        marshals = refl;
        raw_fits = omega (arith, p.0);
        raw_bytes = p.1;
        sign = λ m.
            let z = laws.ed25519_sign-size k m in
            (
              c.ed25519_sign k m,
              refl,
              omega (arith, z.0),
              z.1,
              rw (p.0, laws.ed25519_verify-sign k m) refl,
            );
      }

  ecdsa_sign-Signs :
      (e : c.Entropy) (k : c.EcdsaPrivate) (message : List ℕ) (r s : ℕ)
      → c.ecdsa_sign e k (c.sha256 message) ≡ some (r, s)
      → (sig : List ℕ) × (compute_signature c e (some (ecdsa_signer k)) message ≡ ok sig)
        × (length sig ≤ 200)
        × IsBytes sig
        × (verify_signature c (some (public_of c (ecdsa_signer k))) message sig ≡ ok tt)
  unfolding compute_signature verify_signature
  ecdsa_sign-Signs e k message r s d =
      let size = byte_len c (c.ecdsa_public k) in
      let p = raw_signature-verified e k (c.sha256 message) r s d in
      let whole : (length (big_endian size r ++ big_endian size s) == 2 * size) ≡ true =
        ground (arith, p.1) in
      (
        big_endian size r ++ big_endian size s,
        rw (compute_signature, d) p.0,
        omega (arith, p.1, laws.bit_size-most (c.ecdsa_public k)),
        p.2,
        rw (verify_signature, whole, p.3) refl,
      )

  ecdsa-Signs :
      (e : c.Entropy) (k : c.EcdsaPrivate)
      → ((h : List ℕ) → (r s : ℕ) × (c.ecdsa_sign e k h ≡ some (r, s)))
      → (raw : List ℕ) → c.ecdsa_bytes (c.ecdsa_public k) ≡ some raw
      → Signs c e (ecdsa_signer k)
  unfolding marshal_public_key_raw
  ecdsa-Signs e k signs raw g =
      let size = byte_len c (c.ecdsa_public k) in
      let p = laws.ecdsa_bytes-size (c.ecdsa_public k) raw g in
      let q = compress-IsBytes size raw p.0 p.1 in
      record {
        raw = q.0;
        marshals = rw (marshal_public_key_raw, g) q.1;
        raw_fits = omega (arith, q.2, laws.bit_size-most (c.ecdsa_public k));
        raw_bytes = q.3;
        sign = λ m. let d = signs (c.sha256 m) in ecdsa_sign-Signs e k m d.0 d.1 d.2;
      }

  -- A signer of one of the two kinds that the code has signs what verifySignature accepts.
  pub signer-Signs : (e : c.Entropy) (s : Signer c) → IsSigner c e s → Signs c e s
  unfolding IsSigner
  signer-Signs e (ed25519_signer k) h = ed25519-Signs e k
  signer-Signs e (ecdsa_signer k) h = ecdsa-Signs e k h.0 h.1.0 h.1.1
  signer-Signs e (other_signer p) h = absurd h
