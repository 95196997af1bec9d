-- ===== src/Edhoc/Signature.antt =====
-- edhoc/initiator.go: signatures and public keys.
pub mod Verified
use corecbor.Prelude.{
  ℕ, zero, suc, ◌+◌, ◌-◌, ◌*◌, ◌/◌, ◌%◌, ◌^◌, Bool, true, false, not, List, [], ◌∷◌, ◌++◌, Option,
  none, some, ltb, leb, ◌==◌, if◌then◌else◌, length, take, drop,
}
use corecbor.Edhoc.AesCcm.{big_endian}
use corecbor.Edhoc.Result.{
  Result, ok, fail, panics, out_of_fuel, authentication, unsupported_suite, library,
}
use corecbor.Edhoc.Crypto.{Crypto}

-- big.Int.SetBytes, behind what was read before.
unfoldable pub from_big_endian : ℕ → List ℕ → ℕ
from_big_endian n [] = n
from_big_endian n (b ∷ bs) = from_big_endian (n * 256 + b) bs

-- The lowest bit of `raw[len(raw)-1]`.
unfoldable pub is_odd_at_end : List ℕ → Bool
is_odd_at_end [] = false
is_odd_at_end (b ∷ []) = b % 2 == 1
is_odd_at_end (b ∷ c ∷ bs) = is_odd_at_end (c ∷ bs)

-- The length of big.Int.Bytes, for a number of at most `fuel` bytes.
unfoldable pub byte_count : ℕ → ℕ → ℕ
byte_count zero n = 0
byte_count (suc fuel) n = let rest = byte_count fuel (n / 256) in if n == 0 then 0 else suc rest

module _ (c : Crypto) where
  -- A crypto.PublicKey that is not nil.
  pub data PublicKey : Type 0 where
    ed25519_key : List ℕ → PublicKey
    ecdsa_key : c.EcdsaPublic → PublicKey
    other_key : PublicKey

  -- A crypto.Signer that is not nil; one of another type has some public key.
  pub data Signer : Type 0 where
    ed25519_signer : c.Ed25519Private → Signer
    ecdsa_signer : c.EcdsaPrivate → Signer
    other_signer : PublicKey → Signer

  -- Signer.Public
  abbrev pub public_of : Signer → PublicKey
  public_of (ed25519_signer k) = ed25519_key (c.ed25519_public k)
  public_of (ecdsa_signer k) = ecdsa_key (c.ecdsa_public k)
  public_of (other_signer p) = p

  -- `(k.Curve.Params().BitSize + 7) / 8`
  abbrev pub byte_len : c.EcdsaPublic → ℕ
  byte_len p = (c.bit_size p + 7) / 8

  -- The compressed form of an uncompressed point; the slice panics on one that is too short.
  unfoldable pub compress : ℕ → List ℕ → Result (List ℕ)
  unfolding is_odd_at_end
  compress size raw =
      if ltb (length raw) (1 + size)
      then panics
      else ok ((if is_odd_at_end raw then 3 else 2) ∷ take size (drop 1 raw))

  unfoldable pub marshal_public_key_raw : PublicKey → Result (List ℕ)
  unfolding compress
  marshal_public_key_raw (ed25519_key k) = ok k
  marshal_public_key_raw (ecdsa_key k) = elim (c.ecdsa_bytes k) [
    | none ↦ ok []
    | some raw ↦ compress (byte_len k) raw
  ]
  marshal_public_key_raw other_key = ok []

  -- Both numbers right-aligned in a field of `size` bytes each. A first one that is too long makes the
  -- slice panic, a second one that is too long is copied over the end of the first.
  unfoldable pub raw_signature : ℕ → ℕ → ℕ → Result (List ℕ)
  unfolding big_endian byte_count
  raw_signature size r s =
      let n = byte_count (2 * size) s in
      if leb (256 ^ size) r
      then panics
      else if leb (256 ^ (2 * size)) s
      then panics
      else if leb (256 ^ size) s
      then ok (take (2 * size - n) (big_endian size r) ++ big_endian n s)
      else ok (big_endian size r ++ big_endian size s)

  unfoldable pub compute_signature : c.Entropy → Option Signer → List ℕ → Result (List ℕ)
  unfolding raw_signature
  compute_signature e (some (ed25519_signer k)) message = ok (c.ed25519_sign k message)
  compute_signature e (some (ecdsa_signer k)) message = elim (c.ecdsa_sign e k (c.sha256 message)) [
    | none ↦ fail library
    | some (r, s) ↦ raw_signature (byte_len (c.ecdsa_public k)) r s
  ]
  compute_signature e (some (other_signer p)) message = fail unsupported_suite
  compute_signature e none message = fail unsupported_suite

  abbrev pub accept : Bool → Result Unit
  accept b = if b then ok tt else fail authentication

  -- ed25519.Verify panics on a key of another length.
  unfoldable pub verify_signature : Option PublicKey → List ℕ → List ℕ → Result Unit
  unfolding from_big_endian
  verify_signature (some (ed25519_key k)) message sig =
      if length k == 32 then accept (c.ed25519_verify k message sig) else panics
  verify_signature (some (ecdsa_key k)) message sig =
      if not (length sig == 2 * byte_len k)
      then fail authentication
      else accept (
          c.ecdsa_verify k (c.sha256 message) (from_big_endian 0 (take (byte_len k) sig))
            (from_big_endian 0 (drop (byte_len k) sig)))
  verify_signature (some other_key) message sig = fail unsupported_suite
  verify_signature none message sig = fail unsupported_suite
