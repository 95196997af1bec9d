-- ===== src/Codec/Budgets.antt =====
-- decoder.go: memory budgets across the calls of Decoder.Decode.
use corecbor.Prelude.{ℕ, ◌≤◌, ◌≡◌, refl, sym, subst, ap, List, [], ◌∷◌, none, some, arith}
use corecbor.Cbor.Value.{Value}
use corecbor.Cbor.Error.{trailing_bytes}
use corecbor.Rfc8949.State.{Budget, BudgetState, Outcome, State, ok, err}
use corecbor.Rfc8949.State
use corecbor.Rfc8949.Total.Ensures.{Charged}
use corecbor.Rfc8949.Decode.{decode}
use corecbor.Rfc8949.Total.Whole.{decode-charges}
use corecbor.Codec.{Decoder, Decoded, value, failed, out_of_fuel, whole, decoder_decode, reset}

-- The decoder has a budget of `limit`, of which no more is allocated than there is.
abbrev pub IsWithin : ℕ → Budget → Type 0
IsWithin limit none = ⊥
IsWithin limit (some bs) = (bs.limit ≡ limit) × (bs.allocated ≤ limit)

abbrev budget_or : Budget → Decoded → Budget
budget_or b (value v d) = d.budget
budget_or b (failed e d) = b
budget_or b out_of_fuel = b

Charged-IsWithin :
    (limit : ℕ) (b : Budget)
    → Charged (some (record { allocated = 0; limit = limit })) b
    → IsWithin limit b
Charged-IsWithin limit none h = h
Charged-IsWithin limit (some bs) h = (sym h.0, omega (arith, h.2 (omega arith), h.0))

whole-IsWithin :
    (limit : ℕ) (d d' : Decoder) (v : Value) (r : Outcome Value)
    → ((w : Value) (s : State) → r ≡ ok w s → IsWithin limit s.budget)
    → whole d r ≡ value v d'
    → IsWithin limit d'.budget
whole-IsWithin limit d d' v (ok w s) h e = accepted s.rest e
  where
    accepted :
        (l : List ℕ)
        → elim l [
          | [] ↦ value w (record d { budget = s.budget })
          | _ ∷ _ ↦ failed trailing_bytes (record d { budget = s.budget })
        ]
          ≡ value v d'
        → IsWithin limit d'.budget
    accepted [] f = subst (IsWithin limit) (ap (budget_or none) f) (h w s refl)
    accepted (x ∷ xs) f = cc (f)
whole-IsWithin limit d d' v (err x at b) h e = cc (e)
whole-IsWithin limit d d' v State.out_of_fuel h e = cc (e)

-- A Decode that succeeds under a memory budget leaves the decoder with the same limit and no more
-- allocated than it, whatever was allocated before.
pub decoder_decode-IsWithin :
    (d d' : Decoder) (bs : BudgetState) (src : List ℕ) (v : Value)
    → d.budget ≡ some bs
    → decoder_decode d src ≡ value v d'
    → IsWithin bs.limit d'.budget
unfolding decoder_decode reset
decoder_decode-IsWithin d d' bs src v b e =
    whole-IsWithin bs.limit d d' v (decode src d.opts (reset d.budget))
      (rw b λ w s f. Charged-IsWithin bs.limit s.budget ((decode-charges src d.opts _ w s f).1)) e
