-- ===== src/Edhoc/Credential.antt =====
-- edhoc/credential.go, with Verify of cwt/token.go: the public key that a CWT confirms. The package cose
-- is a parameter: its verifier of a COSE_Sign1 and the method PublicKey of its keys. Negative integers
-- are words of 64 bits.
pub mod Confirmed
use corecbor.Prelude.{
  ℕ, ◌-◌, ◌^◌, Bool, not, List, [], ◌∷◌, Option, none, some, ◌==◌, if◌then◌else◌, length,
}
use corecbor.Cbor.Value.{Value, Pairs, uint, neg_int, bytes, text, map, end, entry}
use corecbor.Cwt.{Times, Keys}
use corecbor.Cwt.Any.{
  Any, AnyMap, any_value, any_string, any_bytes, complement, same_any, any_int64,
}
use corecbor.Cwt.Parse.{decode_claims_set, decoded, malformed}
use corecbor.Cwt.Parse
use corecbor.Cwt.Claims.{ClaimsSet}
use corecbor.Edhoc.Result.{
  Result, ok, fail, panics, out_of_fuel, authentication, message_format, unsupported_suite, library,
  ◌>>=◌, from_option, or_fail,
}
use corecbor.Edhoc.Crypto.{Crypto}
use corecbor.Edhoc.Signature.{PublicKey, ed25519_key, ecdsa_key, from_big_endian}

-- The values of an `any` that valueToMap tells apart, those that cborToNative makes among them, with
-- map[int64]any and, in the order in which a range runs through it, map[any]any.
mutual
  pub data Native : Type 0 where
    native_int : ℕ → Native
    native_bytes native_text : List ℕ → Native
    native_map : NativeMap → Native
    native_any_map : NativeAnyMap → Native
    native_value : Value → Native
    native_other : Native

  pub data NativeMap : Type 0 where
    nil : NativeMap
    cons : ℕ → Native → NativeMap → NativeMap

  pub data NativeAnyMap : Type 0 where
    any_nil : NativeAnyMap
    any_cons : Any → Native → NativeAnyMap → NativeAnyMap

-- `m[key] = v`
unfoldable pub set_native : NativeMap → ℕ → Native → NativeMap
set_native nil key v = cons key v nil
set_native (cons k w m) key v =
    let rest = set_native m key v in if k == key then cons k v m else cons k w rest

unfoldable pub get_native : NativeMap → ℕ → Option Native
get_native nil key = none
get_native (cons k w m) key = let rest = get_native m key in if k == key then some w else rest

unfoldable pub get_any : AnyMap → Any → Option Any
get_any [] key = none
get_any (e ∷ m) key = let rest = get_any m key in if same_any e.0 key then some e.1 else rest

unfoldable pub cbor_to_int64 : Value → ℕ
cbor_to_int64 (uint n) = n
cbor_to_int64 (neg_int n) = complement n
cbor_to_int64 _ = 0

unfoldable mutual
  unfolding set_native cbor_to_int64

  pub cbor_to_native : Value → Native
  cbor_to_native (uint n) = native_int n
  cbor_to_native (neg_int n) = native_int (complement n)
  cbor_to_native (bytes b) = native_bytes b
  cbor_to_native (text s) = native_text s
  cbor_to_native (map ps) = native_map (add_entries nil ps)
  cbor_to_native v = native_value v

  -- The loop over the entries of a map.
  pub add_entries : NativeMap → Pairs → NativeMap
  add_entries m end = m
  add_entries m (entry k v ps) = add_entries (set_native m (cbor_to_int64 k) (cbor_to_native v)) ps

-- The loop over a map[any]any.
unfoldable pub int_entries : NativeMap → NativeAnyMap → NativeMap
unfolding set_native
int_entries result any_nil = result
int_entries result (any_cons (any_int64 n) v m) = int_entries (set_native result n v) m
int_entries result (any_cons _ v m) = int_entries result m

unfoldable pub value_to_map : Native → Result NativeMap
unfolding cbor_to_native int_entries
value_to_map (native_value (map ps)) = ok (add_entries nil ps)
value_to_map (native_map m) = ok m
value_to_map (native_any_map m) = ok (int_entries nil m)
value_to_map _ = fail message_format

-- The value of a private claim.
abbrev pub native_of : Any → Native
native_of (any_value v) = native_value v
native_of (any_string s) = native_text s
native_of (any_bytes b) = native_bytes b
native_of (any_int64 n) = native_int n
native_of _ = native_other

abbrev pub int_of : Native → Result ℕ
int_of (native_int n) = ok n
int_of _ = fail message_format

abbrev pub bytes_of : Native → Result (List ℕ)
bytes_of (native_bytes b) = ok b
bytes_of _ = fail message_format

-- -1, -2 and -3 as int64.
abbrev pub minus_1 : ℕ
minus_1 = 2 ^ 64 - 1

abbrev pub minus_2 : ℕ
minus_2 = 2 ^ 64 - 2

abbrev pub minus_3 : ℕ
minus_3 = 2 ^ 64 - 3

abbrev pub field : NativeMap → ℕ → Result Native
field m key = from_option message_format (get_native m key)

-- elliptic.P256 and elliptic.P384.
pub data EllipticCurve : Type 0 where
  p256 p384 : EllipticCurve

-- CurveP256 and CurveP384 of the package cose.
unfoldable pub elliptic_curve : ℕ → Result EllipticCurve
elliptic_curve crv =
    if crv == 1 then ok p256 else if crv == 2 then ok p384 else fail unsupported_suite

-- The key of the claims' confirmation, where it has one.
unfoldable pub confirmed_key : (t : Times) (k : Keys) → ClaimsSet t k → Option k.Key
confirmed_key t k claims = elim claims.confirmation [ none ↦ none | some cnf ↦ cnf.key ]

module _ (c : Crypto) where
  -- An ecdsa.PublicKey of a curve and two coordinates, which are not checked.
  module _ (point : EllipticCurve → ℕ → ℕ → c.EcdsaPublic) where
    unfoldable pub extract_okp_public_key : NativeMap → Result (PublicKey c)
    unfolding get_native
    extract_okp_public_key m = do
      x_raw ← field m minus_2
      x ← bytes_of x_raw
      if not (length x == 32) then fail message_format else ok (ed25519_key x)

    unfoldable pub extract_ec2_public_key : NativeMap → Result (PublicKey c)
    unfolding get_native elliptic_curve from_big_endian
    extract_ec2_public_key m = do
      crv_raw ← field m minus_1
      crv ← int_of crv_raw
      curve ← elliptic_curve crv
      x_raw ← field m minus_2
      x ← bytes_of x_raw
      y_raw ← field m minus_3
      y ← bytes_of y_raw
      ok (ecdsa_key (point curve (from_big_endian 0 x) (from_big_endian 0 y)))

    -- The switch over the key type: KeyTypeOKP is 1 and KeyTypeEC2 is 2.
    unfoldable pub key_of_type : NativeMap → ℕ → Result (PublicKey c)
    unfolding extract_okp_public_key extract_ec2_public_key
    key_of_type m kty =
        if kty == 1
        then extract_okp_public_key m
        else if kty == 2
        then extract_ec2_public_key m
        else fail unsupported_suite

    unfoldable pub cose_key_map_to_public_key : NativeMap → Result (PublicKey c)
    unfolding get_native key_of_type
    cose_key_map_to_public_key m = do kty_raw ← field m 1; kty ← int_of kty_raw; key_of_type m kty

    module _ (t : Times) (k : Keys) (verified : List ℕ → Option (PublicKey c) → Option (List ℕ))
        (public_key : k.Key → Option (PublicKey c)) where
      -- The key of the private claim 8.
      unfoldable pub private_cnf_key : ClaimsSet t k → Result (PublicKey c)
      unfolding get_any value_to_map get_native cose_key_map_to_public_key
      private_cnf_key claims = do
        cnf_val ← from_option message_format (get_any claims.private (any_int64 8))
        cnf_map ← value_to_map (native_of cnf_val)
        cose_key_val ← field cnf_map 1
        cose_key_map ← value_to_map cose_key_val
        cose_key_map_to_public_key cose_key_map

      unfoldable pub key_of_claims : ClaimsSet t k → Result (PublicKey c)
      unfolding confirmed_key private_cnf_key
      key_of_claims claims = elim (confirmed_key t k claims) [
        | some key ↦ from_option library (public_key key)
        | none ↦ private_cnf_key claims
      ]

      -- Verify of the package cwt, behind NewVerifier. `verified` is the payload of a COSE_Sign1 that is
      -- well-formed and has a signature that the verifier accepts.
      unfoldable pub cwt_verify : List ℕ → Option (PublicKey c) → Result (ClaimsSet t k)
      unfolding decode_claims_set
      cwt_verify cwt_bytes issuer_pub =
          from_option authentication (verified cwt_bytes issuer_pub) >>= λ payload.
          elim (decode_claims_set t k payload) [
            | decoded claims ↦ ok claims
            | malformed ↦ fail authentication
            | Parse.panics ↦ panics
          ]

      unfoldable pub extract_public_key_from_cwt :
          List ℕ → Option (PublicKey c) → Result (PublicKey c)
      unfolding cwt_verify key_of_claims
      extract_public_key_from_cwt cwt_bytes issuer_pub =
          cwt_verify cwt_bytes issuer_pub >>= key_of_claims
