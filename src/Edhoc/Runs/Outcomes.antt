-- ===== src/Edhoc/Runs/Outcomes.antt =====
-- The methods of package edhoc: how a call ends, step by step.
use corecbor.Prelude.{◌≡◌, refl}
use corecbor.Edhoc.Result.{Result, EdhocError, ok, fail, panics, out_of_fuel, Step, after}

-- A call that fails leaves its receiver in P.
pub record Leaves {S B : Type 0} (P : S → Type 0) (x : Step S B) : Type 0 where
  pub leaves : (e : EdhocError) → x.1 ≡ fail e → P x.0

pub after-Leaves :
    {S A B : Type 0} (P : S → Type 0) (s : S) (r : Result A) (f : A → Step S B)
    → P s
    → ((a : A) → Leaves P (f a))
    → Leaves P (after s r f)
unfolding after
after-Leaves P s (ok a) f h k = k a
after-Leaves P s (fail e) f h k = record { leaves = λ _ _. h }
after-Leaves P s panics f h k = record { leaves = λ _ _. h }
after-Leaves P s out_of_fuel f h k = record { leaves = λ _ _. h }

-- Two calls with the same result, and the same receiver after success.
pub record Alike {S B : Type 0} (x y : Step S B) : Type 0 where
  pub same_result : x.1 ≡ y.1
  pub same_state : (b : B) → x.1 ≡ ok b → x.0 ≡ y.0

pub after-Alike :
    {S A B : Type 0} (s s' : S) (r : Result A) (f g : A → Step S B)
    → ((a : A) → Alike (f a) (g a))
    → Alike (after s r f) (after s' r g)
unfolding after
after-Alike s s' (ok a) f g k = k a
after-Alike s s' (fail e) f g k = record { same_result = refl; same_state = λ b h. cc (h) }
after-Alike s s' panics f g k = record { same_result = refl; same_state = λ b h. cc (h) }
after-Alike s s' out_of_fuel f g k = record { same_result = refl; same_state = λ b h. cc (h) }

pub Alike-refl : {S B : Type 0} (x : Step S B) → Alike x x
Alike-refl x = record { same_result = refl; same_state = λ b h. refl }
