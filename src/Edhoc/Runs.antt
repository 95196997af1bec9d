-- ===== src/Edhoc/Runs.antt =====
-- edhoc/initiator.go and edhoc/responder.go: any calls of the methods of a party, one after another,
-- on whatever messages arrive.
pub mod Initiators
pub mod Responders
pub mod Outcomes
pub mod Retries
pub mod Answers
use corecbor.Prelude.{ℕ, ◌≡◌, refl, List, [], ◌∷◌}
use corecbor.Edhoc.Result.{Result, EdhocError, ok, fail, panics, out_of_fuel, Step, after}
use corecbor.Edhoc.Crypto.{Crypto}
use corecbor.Edhoc.Sealing.{CwtKey}
use corecbor.Edhoc.Initiator.{Initiator, create_message1, process_message2}
use corecbor.Edhoc.Responder.{Responder, process_message1, process_message3}

-- What holds of the receiver of a call, however the call ends.
pub record Always {S B : Type 0} (P : S → Type 0) (x : Step S B) : Type 0 where
  pub holds : P x.0

pub after-Always :
    {S A B : Type 0} (P : S → Type 0) (s : S) (r : Result A) (f : A → Step S B)
    → P s
    → ((a : A) → r ≡ ok a → Always P (f a))
    → Always P (after s r f)
unfolding after
after-Always P s (ok a) f h k = k a refl
after-Always P s (fail e) f h k = record { holds = h }
after-Always P s panics f h k = record { holds = h }
after-Always P s out_of_fuel f h k = record { holds = h }

-- The same behind a step that has no result.
pub after_unit-Always :
    {S B : Type 0} (P : S → Type 0) (s : S) (r : Result Unit) (x : Step S B)
    → P s
    → (r ≡ ok tt → Always P x)
    → Always P (after s r (λ _. x))
after_unit-Always P s r x h k = after-Always P s r (λ _. x) h λ _ e. k e

module _ (c : Crypto) (cwt_key : CwtKey c) where
  -- The calls that change an initiator.
  pub data InitiatorCall : Type 0 where
    create_1 : c.Entropy → InitiatorCall
    process_2 : c.Entropy → List ℕ → InitiatorCall

  unfoldable pub run_initiator : Initiator c → List InitiatorCall → Initiator c
  unfolding create_message1 process_message2
  run_initiator i [] = i
  run_initiator i (create_1 e ∷ calls) = run_initiator (create_message1 c e i).0 calls
  run_initiator i (process_2 e m ∷ calls) = run_initiator (process_message2 c cwt_key e i m).0 calls

  -- The calls that change a responder.
  pub data ResponderCall : Type 0 where
    process_1 : c.Entropy → c.Entropy → List ℕ → ResponderCall
    process_3 : List ℕ → ResponderCall

  unfoldable pub run_responder : Responder c → List ResponderCall → Responder c
  unfolding process_message1 process_message3
  run_responder r [] = r
  run_responder r (process_1 e e' m ∷ calls) = run_responder (process_message1 c e e' r m).0 calls
  run_responder r (process_3 m ∷ calls) = run_responder (process_message3 c cwt_key r m).0 calls
