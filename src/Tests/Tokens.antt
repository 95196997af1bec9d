-- ===== src/Tests/Tokens.antt =====
-- The package cwt at concrete inputs, with times that are pairs of seconds and nanoseconds, and keys that
-- are byte strings.
use corecbor.Prelude.{
  ℕ, ◌+◌, ◌-◌, ◌%◌, ◌^◌, ◌≡◌, ◌↔◌, refl, Bool, true, ◌&&◌, List, [], ◌∷◌, Option, none, some, ltb,
  ◌==◌, if◌then◌else◌, arith, ap, ◌∙◌, sym,
}
use corecbor.Cbor.Value.{MapEntry, uint, neg_int, bytes, text, map, null, bool, entry, end}
use corecbor.Cwt.{Times, Keys}
use corecbor.Cwt.Any.{any_string, any_int64, any_bool, from_value, entry_key_int}
use corecbor.Cwt.Claims.{ClaimsSet}
use corecbor.Cwt.Parse.{panics, empty_claims, claims_of, claim_steps, claim_step, int_claim}
use corecbor.Cwt.Faults.{claims_of-panics}
use corecbor.Cwt.Validate.{Validator, validate}
use corecbor.Cwt.Validate.Accepts.{IsAccepted, validate-IsAccepted}

-- Seconds and nanoseconds; the zero Time is in the year 1.
abbrev pub Instant : Type 0
Instant = ℕ × ℕ

abbrev pub year_one : Instant
year_one = (2 ^ 64 - 62135596800, 0)

abbrev pub is_year_one : Instant → Bool
is_year_one a = a.0 == 2 ^ 64 - 62135596800 && a.1 == 0

pub pair_lem : (a : Instant) (s n : ℕ) → a.0 ≡ s → a.1 ≡ n → a ≡ (s, n)
pair_lem a s n h k = ap (λ x. (x, a.1)) h ∙ ap (λ y. (s, y)) k

pub is_year_one-year_one : (a : Instant) → is_year_one a ≡ true → a ≡ year_one
is_year_one-year_one a h = pair_lem a _ _ (ground arith) (ground arith)

abbrev pub is_earlier : Instant → Instant → Bool
is_earlier a b =
    if a.0 == b.0 then ltb a.1 b.1 else ltb ((a.0 + 2 ^ 63) % 2 ^ 64) ((b.0 + 2 ^ 63) % 2 ^ 64)

-- Durations are seconds.
abbrev pub instants : Times
instants = record {
  Time = Instant;
  zero_time = year_one;
  is_zero_time = is_year_one;
  from_unix = λ s n. (s, n);
  seconds = λ a. a.0;
  nanoseconds = λ a. a.1;
  Duration = ℕ;
  negate = λ d. (2 ^ 64 - d) % 2 ^ 64;
  add = λ a d. ((a.0 + d) % 2 ^ 64, a.1);
  is_after = λ a b. is_earlier b a;
  is_before = is_earlier;
  joined = λ s n. 0;
  split = λ f. (0, 0);
  from_unix-seconds = λ a h. sym (pair_lem a a.0 0 refl h);
  is_zero_time-zero_time = is_year_one-year_one;
}

-- A key is the byte string of its only entry.
abbrev pub key_of : List MapEntry → Option (List ℕ)
key_of [] = none
key_of (e ∷ _) = elim e.val [ bytes b ↦ some b | _ ↦ none ]

abbrev pub octet_keys : Keys
octet_keys = record {
  Key = List ℕ;
  marshal_key = λ k. some (record { key = uint 1; val = bytes k } ∷ []);
  unmarshal_key = key_of;
}

abbrev some_claims : ClaimsSet instants octet_keys
some_claims = record {
  issuer = 0x61 ∷ [];
  subject = [];
  audience = 0x62 ∷ 0x63 ∷ [];
  expiration = (1700000000, 0);
  not_before = (2 ^ 64 - 5, 0);
  issued_at = year_one;
  cwt_id = 1 ∷ 2 ∷ [];
  confirmation = some (record { key = some (9 ∷ 9 ∷ []); key_id = 7 ∷ []; encrypted = [] });
  private = (any_string (0x78 ∷ []), any_bool true) ∷ (any_int64 (2 ^ 64 - 3), any_int64 12) ∷ [];
}

abbrev some_claim_items : List MapEntry
some_claim_items =
    record { key = uint 1; val = text (0x61 ∷ []) }
    ∷ record { key = uint 3; val = text (0x62 ∷ 0x63 ∷ []) }
    ∷ record { key = uint 4; val = uint 1700000000 }
    ∷ record { key = uint 5; val = neg_int 4 }
    ∷ record { key = uint 7; val = bytes (1 ∷ 2 ∷ []) }
    ∷ record {
      key = uint 8;
      val = map (
          entry (uint 1) (map (entry (uint 1) (bytes (9 ∷ 9 ∷ [])) end))
            (entry (uint 3) (bytes (7 ∷ [])) end));
    }
    ∷ record { key = text (0x78 ∷ []); val = bool true }
    ∷ record { key = neg_int 2; val = uint 12 }
    ∷ []

-- {1: "a", h'00': null}
claims_of-panics_example :
    claims_of instants octet_keys
      (map (entry (uint 1) (text (0x61 ∷ [])) (entry (bytes (0 ∷ [])) null end)))
    ≡ panics
unfolding claim_steps claim_step int_claim entry_key_int from_value
claims_of-panics_example =
    (claims_of-panics instants octet_keys
        (entry (uint 1) (text (0x61 ∷ [])) (entry (bytes (0 ∷ [])) null end))).1
      (record {
        front = record { key = uint 1; val = text (0x61 ∷ []) } ∷ [];
        bad = record { key = bytes (0 ∷ []); val = null };
        back = [];
        claims = record (empty_claims instants octet_keys) { issuer = 0x61 ∷ [] };
        split = refl;
        reads = refl;
        unusable = (refl, refl);
      })

abbrev a_validator : Validator instants octet_keys
a_validator = record {
  wanted_audience = 0x62 ∷ 0x63 ∷ [];
  leeway = 60;
  now = (1700000030, 0);
  require_expiration = true;
  require_confirmation = true;
}

validate-IsAccepted_example :
    (validate instants octet_keys a_validator some_claims ≡ none)
    ↔ IsAccepted instants octet_keys a_validator some_claims
validate-IsAccepted_example = validate-IsAccepted instants octet_keys a_validator some_claims
