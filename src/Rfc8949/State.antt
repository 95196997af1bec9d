-- ===== src/Rfc8949/State.antt =====
-- rfc8949/decode.go: the state of a run of the decoder and its outcome. A position `off` in the
-- source is the suffix `src[off:]`, from which off is `len(src) - len(suffix)`; the memory budget,
-- which the code keeps behind a pointer, is passed on from step to step.
use corecbor.Prelude.{
  ℕ, ◌+◌, Bool, ◌&&◌, not, List, Option, none, some, ltb, leb, if◌then◌else◌, drop,
}
use corecbor.Cbor.Error.{Error, memory_budget_exceeded}
use corecbor.Wire.Head.{HeadResult, is_shortest, ai_1byte, ai_8bytes}
use corecbor.Rfc8949.Options.{DecodeOpts}

pub record BudgetState : Type 0 where
  pub allocated : ℕ
  pub limit : ℕ

-- `none` is the nil pointer: no budget.
abbrev pub Budget : Type 0
Budget = Option BudgetState

pub record State : Type 0 where
  pub rest : List ℕ
  pub budget : Budget

-- `err e at b` is an error at the position `at`. `out_of_fuel` is no result of the code.
pub data Outcome {ℓ} (A : Type ℓ) : Type ℓ where
  ok : A → State → Outcome A
  err : Error → List ℕ → Budget → Outcome A
  out_of_fuel : Outcome A

abbrev pub bind {ℓ κ} : {A : Type ℓ} {B : Type κ} → Outcome A → (A → State → Outcome B) → Outcome B
bind (ok a s) f = f a s
bind (err e at b) f = err e at b
bind out_of_fuel f = out_of_fuel

abbrev pub fail {ℓ} : {A : Type ℓ} → Error → State → Outcome A
fail e s = err e s.rest s.budget

abbrev pub advance : ℕ → State → State
advance n s = record s { rest = drop n s.rest }

-- BudgetState.charge: the amount is added before the limit is tested.
unfoldable pub charge {ℓ} : {A : Type ℓ} → ℕ → State → (State → Outcome A) → Outcome A
charge n s k = elim s.budget [
  | none ↦ k s
  | some bs ↦
      let total = bs.allocated + n in
      let b : Budget = some (record { allocated = total; limit = bs.limit }) in
      if ltb bs.limit total
      then err memory_budget_exceeded s.rest b
      else k (record { rest = s.rest; budget = b })
]

abbrev pub is_reserved : ℕ → Bool
is_reserved ai = leb 28 ai && leb ai 30

-- The test of decodeValue and of the chunk loops for an argument that is longer than it need be.
unfoldable pub is_long_head : DecodeOpts → HeadResult → Bool
is_long_head opts h =
    opts.reject_non_shortest && (leb ai_1byte h.ai && (leb h.ai ai_8bytes && not (is_shortest h)))
