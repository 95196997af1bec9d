-- ===== src/Edhoc/Result.antt =====
-- edhoc/errors.go: the errors of the package, and Go's (value, error) with run-time panics as results.
use corecbor.Prelude.{◌≡◌, refl, ap, Option, none, some}
use corecbor.Cbor.Error.{Error}
use corecbor.Edhoc.AesCcm.{CcmError}

-- The four sentinels, and the errors that are passed on unwrapped: the encoder's, those of aesccm and
-- those of the libraries.
pub data EdhocError : Type 0 where
  authentication message_format state_violation unsupported_suite : EdhocError
  encoding decoding : Error → EdhocError
  cipher : CcmError → EdhocError
  library : EdhocError

-- `out_of_fuel` is no result of the code: it passes on what the decoder never returns.
pub data Result (A : Type 0) : Type 0 where
  ok : A → Result A
  fail : EdhocError → Result A
  panics out_of_fuel : Result A

infixl 5 ◌>>=◌
abbrev pub ◌>>=◌ : {A B : Type 0} → Result A → (A → Result B) → Result B
ok a >>= f = f a
fail e >>= f = fail e
panics >>= f = panics
out_of_fuel >>= f = out_of_fuel

-- `fmt.Errorf("%w: ...", e, ...)`
abbrev pub or_fail : {A : Type 0} → EdhocError → Result A → Result A
or_fail e (ok a) = ok a
or_fail e (fail _) = fail e
or_fail e panics = panics
or_fail e out_of_fuel = out_of_fuel

abbrev pub from_option : {A : Type 0} → EdhocError → Option A → Result A
from_option e none = fail e
from_option e (some a) = ok a

-- What a method leaves of its receiver, and what it returns.
abbrev pub Step : Type 0 → Type 0 → Type 0
Step S A = S × Result A

-- Go on with what a call returned; on an error the receiver stays as it is by then.
unfoldable pub after : {S A B : Type 0} → S → Result A → (A → Step S B) → Step S B
after s (ok a) f = f a
after s (fail e) f = (s, fail e)
after s panics f = (s, panics)
after s out_of_fuel f = (s, out_of_fuel)

abbrev value_or : {A : Type 0} → A → Result A → A
value_or d (ok a) = a
value_or d _ = d

pub ok_injective : {A : Type 0} (a b : A) → ok a ≡ ok b → a ≡ b
ok_injective a b e = ap (value_or a) e

pub >>=-ok :
    {A B : Type 0} (r : Result A) (f : A → Result B) (b : B)
    → (r >>= f) ≡ ok b
    → (a : A) × (r ≡ ok a) × (f a ≡ ok b)
>>=-ok (ok a) f b e = (a, refl, e)
>>=-ok (fail _) f b e = cc (e)
>>=-ok panics f b e = cc (e)
>>=-ok out_of_fuel f b e = cc (e)

pub or_fail-ok :
    {A : Type 0} (x : EdhocError) (r : Result A) (a : A) → or_fail x r ≡ ok a → r ≡ ok a
or_fail-ok x (ok _) a e = e
or_fail-ok x (fail _) a e = cc (e)
or_fail-ok x panics a e = cc (e)
or_fail-ok x out_of_fuel a e = cc (e)
