-- ===== src/Cwt.antt =====
-- The package cwt: the claims of a CBOR Web Token, and their checks. The times are those of Go's package
-- time, and a key is what the package cose makes of a COSE_Key.
pub mod Any
pub mod Claims
pub mod Parse
pub mod Validate
pub mod Registered
pub mod RoundTrip
pub mod Faults
use corecbor.Prelude.{ℕ, ◌≡◌, Bool, true, List, Option, none, some}
use corecbor.Cbor.Value.{MapEntry}

-- A step that may fail, and what is done with its result.
infixl 5 ◌>>=◌
abbrev pub ◌>>=◌ {ℓ κ} : {A : Type ℓ} {B : Type κ} → Option A → (A → Option B) → Option B
none >>= f = none
some a >>= f = f a

-- Instants, with an int64 of seconds as a word of 64 bits in two's complement.
pub record Times : Type 1 where
  pub Time : Type 0
  -- The zero Time, and Time.IsZero.
  pub zero_time : Time
  pub is_zero_time : Time → Bool
  -- time.Unix, Time.Unix and Time.Nanosecond.
  pub from_unix : ℕ → ℕ → Time
  pub seconds : Time → ℕ
  pub nanoseconds : Time → ℕ
  -- Time.Add of a Duration, Time.After and Time.Before; `negate` is the negation of a Duration.
  pub Duration : Type 0
  pub negate : Duration → Duration
  pub add : Time → Duration → Time
  pub is_after : Time → Time → Bool
  pub is_before : Time → Time → Bool
  -- The bits of float64(sec) + float64(nsec)/1e9, and int64(sec) and int64(frac*1e9) behind math.Modf.
  pub joined : ℕ → ℕ → ℕ
  pub split : ℕ → ℕ × ℕ
  pub from_unix-seconds : (t : Time) → nanoseconds t ≡ 0 → from_unix (seconds t) 0 ≡ t
  pub is_zero_time-zero_time : (t : Time) → is_zero_time t ≡ true → t ≡ zero_time

-- cose.Key with marshalCOSEKey and unmarshalCOSEKey.
pub record Keys : Type 1 where
  pub Key : Type 0
  pub marshal_key : Key → Option (List MapEntry)
  pub unmarshal_key : List MapEntry → Option Key
