-- ===== src/Cwt/Parse.antt =====
-- cwt/claims.go: ClaimsSet and Confirmation from the entries of a map.
use corecbor.Prelude.{ℕ, List, [], ◌∷◌, Option, none, some, ◌==◌, if◌then◌else◌}
use corecbor.Cbor.Value.{Value, MapEntry, bytes, text, map, entries}
use corecbor.Codec
use corecbor.Codec.{decoder_decode, new_decoder, value, failed}
use corecbor.Cwt.{Times, Keys, ◌>>=◌}
use corecbor.Cwt.Any.{from_value, is_hashable, set_any, entry_key_int}
use corecbor.Cwt.Claims.{Confirmation, ClaimsSet, parse_numeric_date}

module _ (t : Times) (c : Keys) where
  -- What DecodeClaimsSet returns of the entries, or that it panics.
  pub data Decoded : Type 0 where
    decoded : ClaimsSet t c → Decoded
    malformed panics : Decoded

  abbrev pub and_then : Decoded → (ClaimsSet t c → Decoded) → Decoded
  and_then (decoded s) f = f s
  and_then malformed f = malformed
  and_then panics f = panics

  -- One round of decodeCnf.
  unfoldable pub cnf_step : Confirmation t c → Value → Value → Option (Confirmation t c)
  unfolding entry_key_int
  cnf_step cnf k v = elim (entry_key_int k) [
    | none ↦ some cnf
    | some n ↦
        if n == 1
        then elim v [
          | map ps ↦ c.unmarshal_key (entries ps) >>= λ key. some (record cnf { key = some key })
          | _ ↦ none
        ]
        else if n == 2
        then elim v [ bytes b ↦ some (record cnf { encrypted = b }) | _ ↦ none ]
        else if n == 3
        then elim v [ bytes b ↦ some (record cnf { key_id = b }) | _ ↦ none ]
        else some cnf
  ]

  unfoldable pub cnf_steps : Confirmation t c → List MapEntry → Option (Confirmation t c)
  unfolding cnf_step
  cnf_steps cnf [] = some cnf
  cnf_steps cnf (e ∷ es) = cnf_step cnf e.key e.val >>= λ cnf'. cnf_steps cnf' es

  abbrev pub empty_cnf : Confirmation t c
  empty_cnf = record { key = none; key_id = []; encrypted = [] }

  unfoldable pub decode_cnf : Value → Option (Confirmation t c)
  unfolding cnf_steps
  decode_cnf (map ps) = cnf_steps empty_cnf (entries ps)
  decode_cnf _ = none

  unfoldable pub private_claim : ClaimsSet t c → Value → Value → Decoded
  unfolding from_value set_any
  private_claim s k v =
      if is_hashable (from_value k)
      then decoded (record s { private = set_any s.private (from_value k) (from_value v) })
      else panics

  abbrev pub text_claim : Value → (List ℕ → ClaimsSet t c) → Decoded
  text_claim (text b) f = decoded (f b)
  text_claim _ f = malformed

  abbrev pub bytes_claim : Value → (List ℕ → ClaimsSet t c) → Decoded
  bytes_claim (bytes b) f = decoded (f b)
  bytes_claim _ f = malformed

  abbrev pub or_malformed : {A : Type 0} → Option A → (A → ClaimsSet t c) → Decoded
  or_malformed none f = malformed
  or_malformed (some a) f = decoded (f a)

  -- The switch over the key.
  unfoldable pub int_claim : ClaimsSet t c → ℕ → Value → Value → Decoded
  unfolding private_claim parse_numeric_date decode_cnf
  int_claim s n k v =
      if n == 1
      then text_claim v (λ b. record s { issuer = b })
      else if n == 2
      then text_claim v (λ b. record s { subject = b })
      else if n == 3
      then text_claim v (λ b. record s { audience = b })
      else if n == 4
      then or_malformed (parse_numeric_date t c v) (λ time. record s { expiration = time })
      else if n == 5
      then or_malformed (parse_numeric_date t c v) (λ time. record s { not_before = time })
      else if n == 6
      then or_malformed (parse_numeric_date t c v) (λ time. record s { issued_at = time })
      else if n == 7
      then bytes_claim v (λ b. record s { cwt_id = b })
      else if n == 8
      then or_malformed (decode_cnf v) (λ cnf. record s { confirmation = some cnf })
      else private_claim s k v

  unfoldable pub claim_step : ClaimsSet t c → Value → Value → Decoded
  unfolding int_claim private_claim entry_key_int
  claim_step s k v = elim (entry_key_int k) [
    | none ↦ private_claim s k v
    | some n ↦ int_claim s n k v
  ]

  unfoldable pub claim_steps : ClaimsSet t c → List MapEntry → Decoded
  unfolding claim_step
  claim_steps s [] = decoded s
  claim_steps s (e ∷ es) = and_then (claim_step s e.key e.val) λ s'. claim_steps s' es

  abbrev pub empty_claims : ClaimsSet t c
  empty_claims = record {
    issuer = [];
    subject = [];
    audience = [];
    expiration = t.zero_time;
    not_before = t.zero_time;
    issued_at = t.zero_time;
    cwt_id = [];
    confirmation = none;
    private = [];
  }

  -- DecodeClaimsSet behind the decoder.
  unfoldable pub claims_of : Value → Decoded
  unfolding claim_steps
  claims_of (map ps) = claim_steps empty_claims (entries ps)
  claims_of _ = malformed

  -- DecodeClaimsSet
  unfoldable pub decode_claims_set : List ℕ → Decoded
  unfolding claims_of
  decode_claims_set src = elim (decoder_decode (new_decoder []) src) [
    | value v _ ↦ claims_of v
    | failed _ _ ↦ malformed
    | Codec.out_of_fuel ↦ malformed
  ]
