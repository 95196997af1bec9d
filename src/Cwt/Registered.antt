-- ===== src/Cwt/Registered.antt =====
-- cwt/claims.go: each registered claim, read from the entry that Encode writes for it.
use corecbor.Prelude.{
  ℕ, ◌≡◌, refl, sym, ap, ◌∙◌, Bool, true, false, List, [], ◌∷◌, ◌++◌, Option, none, some, ◌==◌,
  if◌then◌else◌, length, IsU64, arith,
}
use corecbor.Cbor.Value.{MapEntry, map, make_map, entries}
use corecbor.Cwt.{Times, Keys, ◌>>=◌}
use corecbor.Cwt.Any.{complement, is_negative, entry_key_int}
use corecbor.Cwt.Claims.{
  Confirmation, ClaimsSet, numeric_date, parse_numeric_date, item, bytes_item, text_item, date_item,
  key_item, encode_cnf, cnf_item,
}
use corecbor.Cwt.Parse.{
  cnf_step, cnf_steps, empty_cnf, decode_cnf, int_claim, claim_step, claim_steps,
}

pub entries-make_map : (m : List MapEntry) → entries (make_map m) ≡ m
entries-make_map [] = refl
entries-make_map (e ∷ m) = ap (λ r. e ∷ r) (entries-make_map m)

nonempty : {A : Type 0} (x : A) (xs : List A) → (length (x ∷ xs) == 0) ≡ false
nonempty x xs = ground arith

abbrev from_some : {A : Type 0} → A → Option A → A
from_some d none = d
from_some d (some a) = a

pub some_injective : {A : Type 0} (a b : A) → some a ≡ some b → a ≡ b
some_injective a b e = ap (from_some a) e

pub >>=-some :
    {A B : Type 0} (o : Option A) (f : A → Option B) (b : B)
    → (o >>= f) ≡ some b
    → (a : A) × (o ≡ some a) × (f a ≡ some b)
>>=-some none f b e = cc (e)
>>=-some (some a) f b e = (a, refl, e)

module _ (t : Times) (c : Keys) where
  -- A time of whole seconds, or none.
  abbrev pub IsWhole : t.Time → Type 0
  IsWhole time = t.is_zero_time time ≡ false → (t.nanoseconds time ≡ 0) × IsU64 (t.seconds time)

  parse_numeric_date-numeric_date :
      (time : t.Time)
      → t.nanoseconds time ≡ 0
      → IsU64 (t.seconds time)
      → parse_numeric_date t c (numeric_date t c time) ≡ some time
  unfolding numeric_date
  parse_numeric_date-numeric_date time h u = by (is_negative (t.seconds time)) refl
    where
      by :
          (b : Bool)
          → is_negative (t.seconds time) ≡ b
          → parse_numeric_date t c (numeric_date t c time) ≡ some time
      by true k =
          let zero_part : (t.nanoseconds time == 0) ≡ true = ground arith in
          let twice : complement (complement (t.seconds time)) ≡ t.seconds time =
            omega (arith, u) in
          rw (numeric_date, zero_part, k)
            (unfold parse_numeric_date in rw twice (ap some (t.from_unix-seconds time h)))
      by false k =
          let zero_part : (t.nanoseconds time == 0) ≡ true = ground arith in
          rw (numeric_date, zero_part, k)
            (unfold parse_numeric_date in ap some (t.from_unix-seconds time h))

  pub issuer-read :
      (s : ClaimsSet t c) (b : List ℕ) (rest : List MapEntry)
      → s.issuer ≡ []
      → claim_steps t c s (text_item t c 1 b ++ rest)
        ≡ claim_steps t c (record s { issuer = b }) rest
  unfolding claim_steps claim_step int_claim entry_key_int
  issuer-read s [] rest h = ap (λ x. claim_steps t c (record s { issuer = x }) rest) h
  issuer-read s (x ∷ b) rest h = rw (nonempty x b) refl

  pub subject-read :
      (s : ClaimsSet t c) (b : List ℕ) (rest : List MapEntry)
      → s.subject ≡ []
      → claim_steps t c s (text_item t c 2 b ++ rest)
        ≡ claim_steps t c (record s { subject = b }) rest
  unfolding claim_steps claim_step int_claim entry_key_int
  subject-read s [] rest h = ap (λ x. claim_steps t c (record s { subject = x }) rest) h
  subject-read s (x ∷ b) rest h = rw (nonempty x b) refl

  pub audience-read :
      (s : ClaimsSet t c) (b : List ℕ) (rest : List MapEntry)
      → s.audience ≡ []
      → claim_steps t c s (text_item t c 3 b ++ rest)
        ≡ claim_steps t c (record s { audience = b }) rest
  unfolding claim_steps claim_step int_claim entry_key_int
  audience-read s [] rest h = ap (λ x. claim_steps t c (record s { audience = x }) rest) h
  audience-read s (x ∷ b) rest h = rw (nonempty x b) refl

  pub expiration-read :
      (s : ClaimsSet t c) (time : t.Time) (rest : List MapEntry)
      → s.expiration ≡ t.zero_time
      → IsWhole time
      → claim_steps t c s (date_item t c 4 time ++ rest)
        ≡ claim_steps t c (record s { expiration = time }) rest
  unfolding claim_steps claim_step int_claim entry_key_int
  expiration-read s time rest h w = by (t.is_zero_time time) refl
    where
      by :
          (b : Bool)
          → t.is_zero_time time ≡ b
          → claim_steps t c s ((if b then [] else item t c 4 (numeric_date t c time)) ++ rest)
            ≡ claim_steps t c (record s { expiration = time }) rest
      by true k =
          ap (λ x. claim_steps t c (record s { expiration = x }) rest)
            (h ∙ sym (t.is_zero_time-zero_time time k))
      by false k = let p = w k in rw (parse_numeric_date-numeric_date time p.0 p.1) refl

  pub not_before-read :
      (s : ClaimsSet t c) (time : t.Time) (rest : List MapEntry)
      → s.not_before ≡ t.zero_time
      → IsWhole time
      → claim_steps t c s (date_item t c 5 time ++ rest)
        ≡ claim_steps t c (record s { not_before = time }) rest
  unfolding claim_steps claim_step int_claim entry_key_int
  not_before-read s time rest h w = by (t.is_zero_time time) refl
    where
      by :
          (b : Bool)
          → t.is_zero_time time ≡ b
          → claim_steps t c s ((if b then [] else item t c 5 (numeric_date t c time)) ++ rest)
            ≡ claim_steps t c (record s { not_before = time }) rest
      by true k =
          ap (λ x. claim_steps t c (record s { not_before = x }) rest)
            (h ∙ sym (t.is_zero_time-zero_time time k))
      by false k = let p = w k in rw (parse_numeric_date-numeric_date time p.0 p.1) refl

  pub issued_at-read :
      (s : ClaimsSet t c) (time : t.Time) (rest : List MapEntry)
      → s.issued_at ≡ t.zero_time
      → IsWhole time
      → claim_steps t c s (date_item t c 6 time ++ rest)
        ≡ claim_steps t c (record s { issued_at = time }) rest
  unfolding claim_steps claim_step int_claim entry_key_int
  issued_at-read s time rest h w = by (t.is_zero_time time) refl
    where
      by :
          (b : Bool)
          → t.is_zero_time time ≡ b
          → claim_steps t c s ((if b then [] else item t c 6 (numeric_date t c time)) ++ rest)
            ≡ claim_steps t c (record s { issued_at = time }) rest
      by true k =
          ap (λ x. claim_steps t c (record s { issued_at = x }) rest)
            (h ∙ sym (t.is_zero_time-zero_time time k))
      by false k = let p = w k in rw (parse_numeric_date-numeric_date time p.0 p.1) refl

  pub cwt_id-read :
      (s : ClaimsSet t c) (b : List ℕ) (rest : List MapEntry)
      → s.cwt_id ≡ []
      → claim_steps t c s (bytes_item t c 7 b ++ rest)
        ≡ claim_steps t c (record s { cwt_id = b }) rest
  unfolding claim_steps claim_step int_claim entry_key_int
  cwt_id-read s [] rest h = ap (λ x. claim_steps t c (record s { cwt_id = x }) rest) h
  cwt_id-read s (x ∷ b) rest h = rw (nonempty x b) refl

  -- The cose package reads the key that it wrote.
  abbrev pub KeySurvives : Option c.Key → Type 0
  KeySurvives none = Unit
  KeySurvives (some k) = (m : List MapEntry) → c.marshal_key k ≡ some m → c.unmarshal_key m ≡ some k

  abbrev pub CnfSurvives : Option (Confirmation t c) → Type 0
  CnfSurvives none = Unit
  CnfSurvives (some cnf) = KeySurvives cnf.key

  encrypted-read :
      (cnf : Confirmation t c) (b : List ℕ) (rest : List MapEntry)
      → cnf.encrypted ≡ []
      → cnf_steps t c cnf (bytes_item t c 2 b ++ rest)
        ≡ cnf_steps t c (record cnf { encrypted = b }) rest
  unfolding cnf_steps cnf_step entry_key_int
  encrypted-read cnf [] rest h = ap (λ x. cnf_steps t c (record cnf { encrypted = x }) rest) h
  encrypted-read cnf (x ∷ b) rest h = rw (nonempty x b) refl

  key_id-read :
      (cnf : Confirmation t c) (b : List ℕ)
      → cnf.key_id ≡ []
      → cnf_steps t c cnf (bytes_item t c 3 b) ≡ some (record cnf { key_id = b })
  unfolding cnf_steps cnf_step entry_key_int
  key_id-read cnf [] h = ap (λ x. some (record cnf { key_id = x })) h
  key_id-read cnf (x ∷ b) h = rw (nonempty x b) refl

  key-read :
      (o : Option c.Key) (m rest : List MapEntry)
      → KeySurvives o
      → key_item t c o ≡ some m
      → cnf_steps t c (empty_cnf t c) (m ++ rest)
        ≡ cnf_steps t c (record (empty_cnf t c) { key = o }) rest
  unfolding key_item cnf_steps cnf_step entry_key_int
  key-read none m rest h e = rw (← some_injective [] m e) refl
  key-read (some k) m rest h e =
      let p = >>=-some (c.marshal_key k) (λ ms. some (item t c 1 (map (make_map ms)))) m e in
      rw (← some_injective (item t c 1 (map (make_map p.0))) m p.2, entries-make_map p.0, h p.0 p.1)
        refl

  decode_cnf-encode_cnf :
      (cnf : Confirmation t c) (m : List MapEntry)
      → KeySurvives cnf.key
      → encode_cnf t c cnf ≡ some m
      → decode_cnf t c (map (make_map m)) ≡ some cnf
  unfolding encode_cnf decode_cnf
  decode_cnf-encode_cnf cnf m h e =
      let tail = bytes_item t c 2 cnf.encrypted ++ bytes_item t c 3 cnf.key_id in
      let p = >>=-some (key_item t c cnf.key) (λ ms. some (ms ++ tail)) m e in
      rw (entries-make_map m, ← some_injective (p.0 ++ tail) m p.2)
        (key-read cnf.key p.0 tail h p.1
          ∙ (encrypted-read (record (empty_cnf t c) { key = cnf.key }) cnf.encrypted
                (bytes_item t c 3 cnf.key_id) refl
              ∙ key_id-read (record (empty_cnf t c) { key = cnf.key; encrypted = cnf.encrypted })
                  cnf.key_id refl))

  pub confirmation-read :
      (s : ClaimsSet t c) (o : Option (Confirmation t c)) (m rest : List MapEntry)
      → s.confirmation ≡ none
      → CnfSurvives o
      → cnf_item t c o ≡ some m
      → claim_steps t c s (m ++ rest) ≡ claim_steps t c (record s { confirmation = o }) rest
  unfolding cnf_item claim_steps claim_step int_claim entry_key_int
  confirmation-read s none m rest h k e =
      rw (← some_injective [] m e)
        (ap (λ x. claim_steps t c (record s { confirmation = x }) rest) h)
  confirmation-read s (some cnf) m rest h k e =
      let p = >>=-some (encode_cnf t c cnf) (λ ms. some (item t c 8 (map (make_map ms)))) m e in
      rw
        (
          ← some_injective (item t c 8 (map (make_map p.0))) m p.2,
          decode_cnf-encode_cnf cnf p.0 k p.1,
        )
        refl
