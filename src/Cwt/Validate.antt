-- ===== src/Cwt/Validate.antt =====
-- cwt/validate.go: Validator.
pub mod Accepts
use corecbor.Prelude.{
  ℕ, Bool, true, false, ◌&&◌, not, List, length, Option, none, some, ◌==◌, if◌then◌else◌,
}
use corecbor.Rfc8949.Equal.{same_bytes}
use corecbor.Cwt.{Times, Keys}
use corecbor.Cwt.Claims.{ClaimsSet}

pub data CwtError : Type 0 where
  token_expired token_not_yet_valid audience_mismatch missing_expiration missing_confirmation :
      CwtError

module _ (t : Times) (c : Keys) where
  -- `now` is what Now returns, or time.Now without it.
  pub record Validator : Type 0 where
    pub wanted_audience : List ℕ
    pub leeway : t.Duration
    pub now : t.Time
    pub require_expiration : Bool
    pub require_confirmation : Bool

  abbrev pub is_missing : {A : Type 0} → Option A → Bool
  is_missing none = true
  is_missing (some a) = false

  -- `none` is nil.
  unfoldable pub validate : Validator → ClaimsSet t c → Option CwtError
  validate v s =
      if v.require_expiration && t.is_zero_time s.expiration
      then some missing_expiration
      else if v.require_confirmation && is_missing s.confirmation
      then some missing_confirmation
      else if not (t.is_zero_time s.expiration) && t.is_after v.now (t.add s.expiration v.leeway)
      then some token_expired
      else if not (t.is_zero_time s.not_before)
          && t.is_before v.now (t.add s.not_before (t.negate v.leeway))
      then some token_not_yet_valid
      else if not (length v.wanted_audience == 0) && not (same_bytes s.audience v.wanted_audience)
      then some audience_mismatch
      else none
