-- ===== src/Cwt/Claims.antt =====
-- cwt/claims.go: ClaimsSet and Confirmation, and the entries that they are encoded as.
use corecbor.Prelude.{
  ℕ, ◌%◌, ◌^◌, not, List, [], ◌∷◌, ◌++◌, Option, none, some, ◌==◌, if◌then◌else◌, length,
}
use corecbor.Cbor.Value.{
  Value, MapEntry, uint, neg_int, bytes, text, map, float32, float64, make_map,
}
use corecbor.Wire.Float.{widen}
use corecbor.Rfc8949.Encode
use corecbor.Codec.{encoder_encode, new_encoder, core_deterministic}
use corecbor.Cwt.{Times, Keys, ◌>>=◌}
use corecbor.Cwt.Any.{complement, is_negative, to_value, AnyMap}

module _ (t : Times) (c : Keys) where
  pub record Confirmation : Type 0 where
    pub key : Option c.Key
    pub key_id : List ℕ
    pub encrypted : List ℕ

  pub record ClaimsSet : Type 0 where
    pub issuer : List ℕ
    pub subject : List ℕ
    pub audience : List ℕ
    pub expiration : t.Time
    pub not_before : t.Time
    pub issued_at : t.Time
    pub cwt_id : List ℕ
    pub confirmation : Option Confirmation
    pub private : AnyMap

  unfoldable pub numeric_date : t.Time → Value
  numeric_date time =
      let sec = t.seconds time in
      if t.nanoseconds time == 0
      then if not (is_negative sec) then uint sec else neg_int (complement sec)
      else float64 (t.joined sec (t.nanoseconds time))

  abbrev pub from_split : ℕ × ℕ → t.Time
  from_split p = t.from_unix p.0 p.1

  unfoldable pub parse_numeric_date : Value → Option t.Time
  parse_numeric_date (uint n) = some (t.from_unix n 0)
  parse_numeric_date (neg_int n) = some (t.from_unix (complement n) 0)
  parse_numeric_date (float64 f) = some (from_split (t.split f))
  parse_numeric_date (float32 f) = some (from_split (t.split (widen (f % 2 ^ 32))))
  parse_numeric_date _ = none

  abbrev pub item : ℕ → Value → List MapEntry
  item k v = record { key = uint k; val = v } ∷ []

  abbrev pub bytes_item : ℕ → List ℕ → List MapEntry
  bytes_item k b = if length b == 0 then [] else item k (bytes b)

  abbrev pub text_item : ℕ → List ℕ → List MapEntry
  text_item k s = if length s == 0 then [] else item k (text s)

  abbrev pub date_item : ℕ → t.Time → List MapEntry
  date_item k time = if t.is_zero_time time then [] else item k (numeric_date time)

  unfoldable pub key_item : Option c.Key → Option (List MapEntry)
  key_item none = some []
  key_item (some k) = do m ← c.marshal_key k; some (item 1 (map (make_map m)))

  unfoldable pub encode_cnf : Confirmation → Option (List MapEntry)
  unfolding key_item
  encode_cnf cnf = do
    m ← key_item cnf.key
    some (m ++ (bytes_item 2 cnf.encrypted ++ bytes_item 3 cnf.key_id))

  unfoldable pub cnf_item : Option Confirmation → Option (List MapEntry)
  unfolding encode_cnf
  cnf_item none = some []
  cnf_item (some cnf) = do m ← encode_cnf cnf; some (item 8 (map (make_map m)))

  unfoldable pub private_items : AnyMap → Option (List MapEntry)
  unfolding to_value
  private_items [] = some []
  private_items (e ∷ m) = do
    k ← to_value e.0
    v ← to_value e.1
    rest ← private_items m
    some (record { key = k; val = v } ∷ rest)

  -- The entries that Encode hands to the encoder.
  unfoldable pub claim_items : ClaimsSet → Option (List MapEntry)
  unfolding cnf_item private_items numeric_date
  claim_items s = do
    cnf ← cnf_item s.confirmation
    own ← private_items s.private
    some (
        text_item 1 s.issuer
        ++ (text_item 2 s.subject
            ++ (text_item 3 s.audience
                ++ (date_item 4 s.expiration
                    ++ (date_item 5 s.not_before
                        ++ (date_item 6 s.issued_at ++ (bytes_item 7 s.cwt_id ++ (cnf ++ own))))))))

  -- ClaimsSet.Encode; `none` is ErrMalformedClaims.
  unfoldable pub encode_claims : ClaimsSet → Option Encode.Encoded
  unfolding claim_items
  encode_claims s = do
    m ← claim_items s
    some (encoder_encode (new_encoder core_deterministic) [] (map (make_map m)))
