-- ===== src/Rfc8949/Total/Ensures.antt =====
-- Postconditions on a run of the decoder.
use corecbor.Prelude.{
  ℕ, ◌+◌, ◌-◌, ◌≤◌, ◌<◌, ◌≡◌, ◌≢◌, refl, ap, Bool, true, false, List, length, length-drop, none,
  some, ltb, if◌then◌else◌, arith,
}
use mathlib.Core.Path.{subst₂}
use corecbor.Cbor.Error.{Error}
use corecbor.Cbor.Value.{Value}
use corecbor.Rfc8949.State.{Budget, State, Outcome, ok, err, out_of_fuel, bind, charge, advance}
use corecbor.Rfc8949.Arrays.{Decoder}

-- The run ended, and `P` holds of its result if it has one.
pub data Ensures {ℓ κ} {A : Type ℓ} (P : A → State → Type κ) : Outcome A → Type (ℓ ⊔ κ) where
  holds : {a : A} {s : State} → P a s → Ensures P (ok a s)
  rejected : {e : Error} {at : List ℕ} {b : Budget} → Ensures P (err e at b)

abbrev value_or {ℓ} : {A : Type ℓ} → A → Outcome A → A
value_or d (ok a s) = a
value_or d (err e at b) = d
value_or d out_of_fuel = d

abbrev state_or {ℓ} : {A : Type ℓ} → State → Outcome A → State
state_or d (ok a s) = s
state_or d (err e at b) = d
state_or d out_of_fuel = d

module _ {ℓ κ} {A : Type ℓ} {P : A → State → Type κ} where
  pub Ensures-ne-out_of_fuel : {r : Outcome A} → Ensures P r → r ≢ out_of_fuel
  Ensures-ne-out_of_fuel (holds h) = cc
  Ensures-ne-out_of_fuel rejected = cc

  pub Ensures-ok : {r : Outcome A} {a : A} {s : State} → Ensures P r → r ≡ ok a s → P a s
  Ensures-ok (holds {a = x} {s = t} h) e = subst₂ P (ap (value_or x) e) (ap (state_or t) e) h
  Ensures-ok rejected e = cc

  pub Ensures-if :
      (b : Bool) {x y : Outcome A}
      → (b ≡ true → Ensures P x)
      → (b ≡ false → Ensures P y)
      → Ensures P (if b then x else y)
  Ensures-if true hx hy = hx refl
  Ensures-if false hx hy = hy refl

  -- The same, where the code's test is an `elim`.
  pub Ensures-elim :
      (b : Bool) {x y : Outcome A}
      → (b ≡ true → Ensures P x)
      → (b ≡ false → Ensures P y)
      → Ensures P (elim b [ true ↦ x | false ↦ y ])
  Ensures-elim true hx hy = hx refl
  Ensures-elim false hx hy = hy refl

  pub Ensures-bind {ℓ' κ'} :
      {B : Type ℓ'} {Q : B → State → Type κ'} {r : Outcome A} {f : A → State → Outcome B}
      → Ensures P r
      → ((a : A) (s : State) → P a s → Ensures Q (f a s))
      → Ensures Q (bind r f)
  Ensures-bind (holds {a} {s} h) k = k a s h
  Ensures-bind rejected k = rejected

pub Ensures-weaken {ℓ κ κ'} :
    {A : Type ℓ} {P : A → State → Type κ} {Q : A → State → Type κ'} {r : Outcome A}
    → Ensures P r
    → ((a : A) (s : State) → P a s → Q a s)
    → Ensures Q r
Ensures-weaken (holds {a} {s} h) k = holds (k a s h)
Ensures-weaken rejected k = rejected

-- The budget after a run that succeeds: the same limit, no less allocated, and still within the
-- limit if it was.
abbrev pub Charged : Budget → Budget → Type 0
Charged none none = Unit
Charged none (some y) = ⊥
Charged (some x) none = ⊥
Charged (some x) (some y) =
    (x.limit ≡ y.limit)
    × (x.allocated ≤ y.allocated)
    × (x.allocated ≤ x.limit → y.allocated ≤ y.limit)

pub Charged-refl : (b : Budget) → Charged b b
Charged-refl none = tt
Charged-refl (some x) = (refl, omega arith, λ h. h)

pub Charged-trans : (a b c : Budget) → Charged a b → Charged b c → Charged a c
Charged-trans none none none h k = tt
Charged-trans none (some y) c h k = absurd h
Charged-trans none none (some z) h k = absurd k
Charged-trans (some x) none c h k = absurd h
Charged-trans (some x) (some y) none h k = absurd k
Charged-trans (some x) (some y) (some z) h k = (omega arith, omega arith, λ p. k.2 (h.2 p))

-- What a step from `s` leaves: a rest that is shorter (`Shrinks`) or no longer (`Keeps`), and the
-- budget.
abbrev pub Shrinks : State → State → Type 0
Shrinks s s' = (length s'.rest < length s.rest) × Charged s.budget s'.budget

abbrev pub Keeps : State → State → Type 0
Keeps s s' = (length s'.rest ≤ length s.rest) × Charged s.budget s'.budget

-- Every call on a source of fewer than `n` bytes ends, and takes a byte at least.
abbrev pub Total : ℕ → Decoder → Type 0
Total n dec =
    (d : ℕ) (strip : Bool) (s : State)
    → length s.rest < n
    → Ensures (λ (v : Value) s'. Shrinks s s') (dec d strip s)

pub charge-Ensures {ℓ κ} :
    {A : Type ℓ} {P : A → State → Type κ} (n : ℕ) (r : List ℕ) (b : Budget) (k : State → Outcome A)
    → ((b' : Budget) → Charged b b' → Ensures P (k (record { rest = r; budget = b' })))
    → Ensures P (charge n (record { rest = r; budget = b }) k)
unfolding charge
charge-Ensures n r none k h = h none tt
charge-Ensures n r (some x) k h =
    Ensures-if (ltb x.limit (x.allocated + n)) (λ over. rejected)
      (λ fits.
        h (some (record { allocated = x.allocated + n; limit = x.limit }))
          (refl, omega arith, λ p. ground arith))

pub length-advance : (n : ℕ) (s : State) → length (advance n s).rest ≡ length s.rest - n
length-advance n s = length-drop n s.rest

-- Bytes are taken off a source that has some.
pub advance-Shrinks : (n : ℕ) (s : State) → 0 < n → 0 < length s.rest → Shrinks s (advance n s)
advance-Shrinks n s hn hs = (omega (arith, length-advance n s), Charged-refl s.budget)

pub advance-Keeps : (n : ℕ) (s : State) → Keeps s (advance n s)
advance-Keeps n s = (omega (arith, length-advance n s), Charged-refl s.budget)
