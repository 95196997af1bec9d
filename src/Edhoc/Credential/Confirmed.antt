-- ===== src/Edhoc/Credential/Confirmed.antt =====
-- edhoc/credential.go: the keys that extractPublicKeyFromCWT gives. Its branch for a private claim 8 is
-- dead: DecodeClaimsSet of the package cwt reads the claim 8 as the confirmation.
use corecbor.Prelude.{
  ℕ, ◌≡◌, refl, ap, ◌∙◌, subst, Bool, true, false, List, [], ◌∷◌, Option, none, some, ◌==◌,
  if◌then◌else◌,
}
use corecbor.Cbor.Value.{Value, MapEntry, uint, neg_int, bytes, text, map, entries}
use corecbor.Cwt.{Times, Keys}
use corecbor.Cwt.Any.{
  Any, AnyMap, any_int64, same_any, set_any, from_value, is_hashable, entry_key_int,
}
use corecbor.Cwt.Claims.{ClaimsSet}
use corecbor.Cwt.Parse.{
  Decoded, decoded, malformed, and_then, decode_cnf, private_claim, text_claim, bytes_claim,
  or_malformed, int_claim, claim_step, claim_steps, empty_claims, claims_of, decode_claims_set,
}
use corecbor.Cwt.Parse
use corecbor.Codec.{decoder_decode, new_decoder, value, failed}
use corecbor.Codec
use corecbor.Edhoc.Result.{
  Result, EdhocError, ok_injective, ok, fail, authentication, library, >>=-ok, from_option,
}
use corecbor.Edhoc.Crypto.{Crypto}
use corecbor.Edhoc.Signature.{PublicKey}
use corecbor.Edhoc.Credential.{
  EllipticCurve, get_any, confirmed_key, private_cnf_key, key_of_claims, cwt_verify,
  extract_public_key_from_cwt,
}

-- The key 8, as DecodeClaimsSet tells it from the others.
from_value-key :
    (k : Value)
    → same_any (from_value k) (any_int64 8)
      ≡ elim (entry_key_int k) [ none ↦ false | some n ↦ n == 8 ]
unfolding from_value entry_key_int
from_value-key (uint n) = refl
from_value-key (neg_int n) = refl
from_value-key v = refl

get_any-set_any :
    (m : AnyMap) (a v : Any)
    → same_any a (any_int64 8) ≡ false
    → get_any m (any_int64 8) ≡ none
    → get_any (set_any m a v) (any_int64 8) ≡ none
unfolding get_any set_any
get_any-set_any [] a v n h = rw n refl
get_any-set_any (e ∷ m) a v n h =
    by (same_any e.0 (any_int64 8)) (same_any e.0 a) refl (get_any-set_any m a v n) h
  where
    by :
        (eight same : Bool)
        → same_any e.0 (any_int64 8) ≡ eight
        → (get_any m (any_int64 8) ≡ none → get_any (set_any m a v) (any_int64 8) ≡ none)
        → (if eight then some e.1 else get_any m (any_int64 8)) ≡ none
        → get_any (if same then (e.0, v) ∷ m else e ∷ set_any m a v) (any_int64 8) ≡ none
    by true same q k g = cc (g)
    by false true q k g = rw q g
    by false false q k g = rw q (k g)

module _ (t : Times) (c : Keys) where
  -- Claims without the private claim 8.
  abbrev LacksCnf : ClaimsSet t c → Type 0
  LacksCnf s = get_any s.private (any_int64 8) ≡ none

  -- Such claims, or none at all.
  record AllLack (d : Decoded t c) : Type 0 where
    lack : (s : ClaimsSet t c) → d ≡ decoded s → LacksCnf s

  abbrev decoded_claims : ClaimsSet t c → Decoded t c → ClaimsSet t c
  decoded_claims s (decoded s') = s'
  decoded_claims s _ = s

  decoded-AllLack : (s : ClaimsSet t c) → LacksCnf s → AllLack (decoded s)
  decoded-AllLack s h = record { lack = λ s' e. subst LacksCnf (ap (decoded_claims s) e) h }

  malformed-AllLack : AllLack malformed
  malformed-AllLack = record { lack = λ s e. cc (e) }

  panics-AllLack : AllLack Parse.panics
  panics-AllLack = record { lack = λ s e. cc (e) }

  and_then-AllLack :
      (d : Decoded t c) (f : ClaimsSet t c → Decoded t c)
      → AllLack d
      → ((s : ClaimsSet t c) → LacksCnf s → AllLack (f s))
      → AllLack (and_then t c d f)
  and_then-AllLack (decoded s) f h k = k s (h.lack s refl)
  and_then-AllLack malformed f h k = malformed-AllLack
  and_then-AllLack Parse.panics f h k = panics-AllLack

  if-AllLack :
      (b : Bool) (x y : Decoded t c)
      → AllLack x
      → (b ≡ false → AllLack y)
      → AllLack (if b then x else y)
  if-AllLack true x y h k = h
  if-AllLack false x y h k = k refl

  private_claim-AllLack :
      (s : ClaimsSet t c) (k v : Value)
      → LacksCnf s
      → same_any (from_value k) (any_int64 8) ≡ false
      → AllLack (private_claim t c s k v)
  unfolding private_claim
  private_claim-AllLack s k v h n =
      if-AllLack (is_hashable (from_value k)) _ _
        (decoded-AllLack _ (get_any-set_any s.private (from_value k) (from_value v) n h))
        λ _. panics-AllLack

  text_claim-AllLack :
      (v : Value) (f : List ℕ → ClaimsSet t c)
      → ((b : List ℕ) → LacksCnf (f b))
      → AllLack (text_claim t c v f)
  text_claim-AllLack (text b) f h = decoded-AllLack (f b) (h b)
  text_claim-AllLack v f h = malformed-AllLack

  bytes_claim-AllLack :
      (v : Value) (f : List ℕ → ClaimsSet t c)
      → ((b : List ℕ) → LacksCnf (f b))
      → AllLack (bytes_claim t c v f)
  bytes_claim-AllLack (bytes b) f h = decoded-AllLack (f b) (h b)
  bytes_claim-AllLack v f h = malformed-AllLack

  or_malformed-AllLack :
      {A : Type 0} (o : Option A) (f : A → ClaimsSet t c)
      → ((x : A) → LacksCnf (f x))
      → AllLack (or_malformed t c o f)
  or_malformed-AllLack none f h = malformed-AllLack
  or_malformed-AllLack (some x) f h = decoded-AllLack (f x) (h x)

  int_claim-AllLack :
      (s : ClaimsSet t c) (n : ℕ) (k v : Value)
      → LacksCnf s
      → same_any (from_value k) (any_int64 8) ≡ (n == 8)
      → AllLack (int_claim t c s n k v)
  unfolding int_claim
  int_claim-AllLack s n k v h q = if-AllLack (n == 1) _ _ (text_claim-AllLack v _ λ _. h) λ _.
      if-AllLack (n == 2) _ _ (text_claim-AllLack v _ λ _. h) λ _.
        if-AllLack (n == 3) _ _ (text_claim-AllLack v _ λ _. h) λ _.
          if-AllLack (n == 4) _ _ (or_malformed-AllLack _ _ λ _. h) λ _.
            if-AllLack (n == 5) _ _ (or_malformed-AllLack _ _ λ _. h) λ _.
              if-AllLack (n == 6) _ _ (or_malformed-AllLack _ _ λ _. h) λ _.
                if-AllLack (n == 7) _ _ (bytes_claim-AllLack v _ λ _. h) λ _.
                  if-AllLack (n == 8) _ _ (or_malformed-AllLack _ _ λ _. h)
                    λ other. private_claim-AllLack s k v h (q ∙ other)

  claim_step-AllLack :
      (s : ClaimsSet t c) (k v : Value) → LacksCnf s → AllLack (claim_step t c s k v)
  unfolding claim_step
  claim_step-AllLack s k v h = by (entry_key_int k) (from_value-key k)
    where
      by :
          (o : Option ℕ)
          → same_any (from_value k) (any_int64 8) ≡ elim o [ none ↦ false | some n ↦ n == 8 ]
          → AllLack (elim o [ none ↦ private_claim t c s k v | some n ↦ int_claim t c s n k v ])
      by none q = private_claim-AllLack s k v h q
      by (some n) q = int_claim-AllLack s n k v h q

  claim_steps-AllLack :
      (s : ClaimsSet t c) (es : List MapEntry) → LacksCnf s → AllLack (claim_steps t c s es)
  unfolding claim_steps
  claim_steps-AllLack s [] h = decoded-AllLack s h
  claim_steps-AllLack s (e ∷ es) h =
      and_then-AllLack (claim_step t c s e.key e.val) _ (claim_step-AllLack s e.key e.val h)
        λ s' h'. claim_steps-AllLack s' es h'

  claims_of-AllLack : (v : Value) → AllLack (claims_of t c v)
  unfolding claims_of get_any
  claims_of-AllLack (map ps) = claim_steps-AllLack (empty_claims t c) (entries ps) refl
  claims_of-AllLack v = malformed-AllLack

  decode_claims_set-AllLack : (src : List ℕ) → AllLack (decode_claims_set t c src)
  unfolding decode_claims_set
  decode_claims_set-AllLack src = by (decoder_decode (new_decoder []) src)
    where
      by :
          (r : Codec.Decoded)
          → AllLack (elim r [
            | value v _ ↦ claims_of t c v
            | failed _ _ ↦ malformed
            | Codec.out_of_fuel ↦ malformed
          ])
      by (value v d) = claims_of-AllLack v
      by (failed e d) = malformed-AllLack
      by Codec.out_of_fuel = malformed-AllLack

from_option-ok :
    {A : Type 0} (x : EdhocError) (o : Option A) (a : A) → from_option x o ≡ ok a → o ≡ some a
from_option-ok x none a e = cc (e)
from_option-ok x (some b) a e = ap some (ok_injective b a e)

module _ (c : Crypto) (point : EllipticCurve → ℕ → ℕ → c.EcdsaPublic) (t : Times) (k : Keys)
    (verified : List ℕ → Option (PublicKey c) → Option (List ℕ))
    (public_key : k.Key → Option (PublicKey c)) where
  -- The CWT verifies, and `key` is the one in the confirmation of its claims.
  pub record IsConfirmed (token : List ℕ) (issuer : Option (PublicKey c)) (key : PublicKey c)
      : Type 0 where
    pub payload : List ℕ
    pub claims : ClaimsSet t k
    pub cose_key : k.Key
    pub accepted : verified token issuer ≡ some payload
    pub reads : decode_claims_set t k payload ≡ decoded claims
    pub confirms : confirmed_key t k claims ≡ some cose_key
    pub converts : public_key cose_key ≡ some key

  cwt_verify-ok :
      (token : List ℕ) (issuer : Option (PublicKey c)) (claims : ClaimsSet t k)
      → cwt_verify c point t k verified public_key token issuer ≡ ok claims
      → (payload : List ℕ) × (verified token issuer ≡ some payload)
        × (decode_claims_set t k payload ≡ decoded claims)
  unfolding cwt_verify
  cwt_verify-ok token issuer claims e =
      let (payload, w, d) =
        >>=-ok (from_option authentication (verified token issuer)) _ claims e in
      (
        payload,
        from_option-ok authentication (verified token issuer) payload w,
        by (decode_claims_set t k payload) d,
      )
    where
      by :
          (r : Decoded t k)
          → elim r [
            | decoded s ↦ ok s
            | malformed ↦ fail authentication
            | Parse.panics ↦ Result.panics
          ]
            ≡ ok claims
          → r ≡ decoded claims
      by (decoded s) h = ap decoded (ok_injective s claims h)
      by malformed h = cc (h)
      by Parse.panics h = cc (h)

  key_of_claims-ok :
      (claims : ClaimsSet t k) (key : PublicKey c)
      → get_any claims.private (any_int64 8) ≡ none
      → key_of_claims c point t k verified public_key claims ≡ ok key
      → (cose_key : k.Key) × (confirmed_key t k claims ≡ some cose_key)
        × (public_key cose_key ≡ some key)
  unfolding key_of_claims
  key_of_claims-ok claims key n e = by (confirmed_key t k claims) e
    where
      by :
          (o : Option k.Key)
          → elim o [
            | some cose_key ↦ from_option library (public_key cose_key)
            | none ↦ private_cnf_key c point t k verified public_key claims
          ]
            ≡ ok key
          → (cose_key : k.Key) × (o ≡ some cose_key) × (public_key cose_key ≡ some key)
      by (some cose_key) h = (cose_key, refl, from_option-ok library (public_key cose_key) key h)
      by none h = let f = (rw (private_cnf_key, n) at h) in cc (f)

  -- Every key that extractPublicKeyFromCWT gives is the one in the confirmation of the claims that
  -- DecodeClaimsSet reads from the payload of a CWT that verifies, as the package cose converts it:
  -- no key comes from a private claim.
  pub extract_public_key_from_cwt-IsConfirmed :
      (token : List ℕ) (issuer : Option (PublicKey c)) (key : PublicKey c)
      → extract_public_key_from_cwt c point t k verified public_key token issuer ≡ ok key
      → IsConfirmed token issuer key
  unfolding extract_public_key_from_cwt
  extract_public_key_from_cwt-IsConfirmed token issuer key e =
      let (claims, v, g) =
        >>=-ok (cwt_verify c point t k verified public_key token issuer) _ key e in
      let (payload, w, d) = cwt_verify-ok token issuer claims v in
      let lacks = (decode_claims_set-AllLack t k payload).lack claims d in
      let (cose_key, f, p) = key_of_claims-ok claims key lacks g in
      record {
        payload = payload;
        claims = claims;
        cose_key = cose_key;
        accepted = w;
        reads = d;
        confirms = f;
        converts = p;
      }
