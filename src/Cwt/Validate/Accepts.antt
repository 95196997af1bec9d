-- ===== src/Cwt/Validate/Accepts.antt =====
-- cwt/validate.go: Validate against the conditions it checks.
use corecbor.Prelude.{
  ℕ, ◌≡◌, ◌↔◌, refl, Bool, true, false, ◌&&◌, not, List, length, none, some, ◌==◌, if◌then◌else◌,
}
use corecbor.Rfc8949.Equal.{same_bytes, same_bytes-eq, same_bytes_refl}
use corecbor.Cwt.{Times, Keys}
use corecbor.Cwt.Claims.{ClaimsSet}
use corecbor.Cwt.Validate.{
  token_expired, token_not_yet_valid, audience_mismatch, missing_expiration, missing_confirmation,
  Validator, is_missing, validate,
}

both_false : (a b : Bool) → (a && b ≡ false) ↔ (a ≡ true → b ≡ false)
both_false true b = (λ e k. e, λ f. f refl)
both_false false b = (λ e k. cc (k), λ f. refl)

not_both_false : (a b : Bool) → (not a && b ≡ false) ↔ (a ≡ false → b ≡ false)
not_both_false true b = (λ e k. cc (k), λ f. refl)
not_both_false false b = (λ e k. e, λ f. f refl)

not-same_bytes : (a b : List ℕ) → (not (same_bytes a b) ≡ false) ↔ (a ≡ b)
not-same_bytes a b =
    (λ e. same_bytes-eq a b (by (same_bytes a b) e), λ e. rw (e, same_bytes_refl b) refl)
  where
    by : (x : Bool) → not x ≡ false → x ≡ true
    by true k = refl
    by false k = cc (k)

module _ (t : Times) (c : Keys) where
  -- The claims that a validator is to accept.
  pub record IsAccepted (v : Validator t c) (s : ClaimsSet t c) : Type 0 where
    pub expires : v.require_expiration ≡ true → t.is_zero_time s.expiration ≡ false
    pub confirmed : v.require_confirmation ≡ true → is_missing t c s.confirmation ≡ false
    pub in_time :
        t.is_zero_time s.expiration ≡ false → t.is_after v.now (t.add s.expiration v.leeway) ≡ false
    pub begun :
        t.is_zero_time s.not_before ≡ false
        → t.is_before v.now (t.add s.not_before (t.negate v.leeway)) ≡ false
    pub meant : (length v.wanted_audience == 0) ≡ false → s.audience ≡ v.wanted_audience

  checks :
      (a b d e f : Bool)
      → ((if a
            then some missing_expiration
            else if b
            then some missing_confirmation
            else if d
            then some token_expired
            else if e
            then some token_not_yet_valid
            else if f
            then some audience_mismatch
            else none)
          ≡ none)
        ↔ ((a ≡ false) × (b ≡ false) × (d ≡ false) × (e ≡ false) × (f ≡ false))
  checks true b d e f = (λ k. cc (k), λ k. cc (k.0))
  checks false true d e f = (λ k. cc (k), λ k. cc (k.1))
  checks false false true e f = (λ k. cc (k), λ k. cc (k.2))
  checks false false false true f = (λ k. cc (k), λ k. cc (k.3))
  checks false false false false true = (λ k. cc (k), λ k. cc (k.4))
  checks false false false false false = (λ k. (refl, refl, refl, refl, refl), λ k. refl)

  -- Validate accepts the claims that meet all of its conditions, and no others: an expiration and a
  -- confirmation where they are required, a time that is not after the expiration and not before the
  -- beginning by more than the leeway, and the audience that is asked for, if one is.
  pub validate-IsAccepted :
      (v : Validator t c) (s : ClaimsSet t c) → (validate t c v s ≡ none) ↔ IsAccepted v s
  unfolding validate
  validate-IsAccepted v s = (
    λ e.
        let k = (checks _ _ _ _ _).0 e in
        record {
          expires = (both_false _ _).0 k.0;
          confirmed = (both_false _ _).0 k.1;
          in_time = (not_both_false _ _).0 k.2;
          begun = (not_both_false _ _).0 k.3;
          meant =
              λ n. (not-same_bytes s.audience v.wanted_audience).0 ((not_both_false _ _).0 k.4 n);
        },
    λ g. (checks _ _ _ _ _).1 (
      (both_false _ _).1 g.expires,
      (both_false _ _).1 g.confirmed,
      (not_both_false _ _).1 g.in_time,
      (not_both_false _ _).1 g.begun,
      (not_both_false _ _).1 (λ n. (not-same_bytes s.audience v.wanted_audience).1 (g.meant n)),
    ),
  )
