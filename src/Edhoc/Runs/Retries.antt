-- ===== src/Edhoc/Runs/Retries.antt =====
-- edhoc/initiator.go: a message 2 that is rejected does not spoil the session. What the failed call has
-- written is overwritten before it is read.
use corecbor.Prelude.{ℕ, ◌≡◌, ◌≢◌, refl, ap, ◌∙◌, subst, List}
use corecbor.Edhoc.Result.{EdhocError, fail, state_violation}
use corecbor.Edhoc.Message.{Message3, encode_message3, encode_value}
use corecbor.Rfc8949.Encode.{encode}
use corecbor.Edhoc.Crypto.{Crypto}
use corecbor.Edhoc.Sealing.{CwtKey}
use corecbor.Edhoc.Runs.Outcomes.{Leaves, after-Leaves, Alike, after-Alike, Alike-refl}
use corecbor.Edhoc.Initiator
use corecbor.Edhoc.Initiator.{
  Initiator, InitiatorState, finish_message2, check_message2, read_message2, process_message2,
}

-- Message 3 can always be encoded.
encode_message3-ne-fail : (m : Message3) (e : EdhocError) → encode_message3 m ≢ fail e
unfolding encode_message3 encode_value encode
encode_message3-ne-fail m e h = cc (h)

-- What a failed ProcessMessage2 may have written.
record Written : Type 0 where
  peer_conn_id : List ℕ
  th2 : List ℕ
  th3 : List ℕ
  prk2e : List ℕ
  prk3e2m : List ℕ
  prk4e3m : List ℕ

module _ (c : Crypto) where
  abbrev overwritten : Initiator c → Written → Initiator c
  overwritten i w = record i {
    peer_conn_id = w.peer_conn_id;
    th2 = w.th2;
    th3 = w.th3;
    prk2e = w.prk2e;
    prk3e2m = w.prk3e2m;
    prk4e3m = w.prk4e3m;
  }

  abbrev IsOverwritten : Initiator c → Initiator c → Type 0
  IsOverwritten i j = (w : Written) × (overwritten i w ≡ j)

  abbrev unchanged : Initiator c → Written
  unchanged i = record {
    peer_conn_id = i.peer_conn_id;
    th2 = i.th2;
    th3 = i.th3;
    prk2e = i.prk2e;
    prk3e2m = i.prk3e2m;
    prk4e3m = i.prk4e3m;
  }

  finish_message2-Leaves :
      (e : c.Entropy) (i : Initiator c) (w : Written) (ct2 : List ℕ)
      → Leaves (IsOverwritten i) (finish_message2 c e (overwritten i w) ct2)
  unfolding finish_message2
  finish_message2-Leaves e i w ct2 =
      after-Leaves (IsOverwritten i) _ _ _ (_, refl)
        λ ct3. record {
          leaves = λ x h. absurd (encode_message3-ne-fail (record { ciphertext = ct3 }) x h);
        }

  check_message2-Leaves :
      (cwt_key : CwtKey c) (e : c.Entropy) (i : Initiator c) (w : Written) (ct2 : List ℕ)
      → Leaves (IsOverwritten i) (check_message2 c cwt_key e (overwritten i w) ct2)
  unfolding check_message2
  check_message2-Leaves cwt_key e i w ct2 =
      after-Leaves (IsOverwritten i) _ _ _ (w, refl)
        λ plaintext.
          after-Leaves (IsOverwritten i) _ _ (λ _. finish_message2 c e (overwritten i w) ct2)
            (w, refl) λ _. finish_message2-Leaves e i w ct2

  read_message2-Leaves :
      (cwt_key : CwtKey c) (e : c.Entropy) (i : Initiator c) (m : List ℕ)
      → Leaves (IsOverwritten i) (read_message2 c cwt_key e i m)
  unfolding read_message2
  read_message2-Leaves cwt_key e i m =
      after-Leaves (IsOverwritten i) i _ _ (unchanged i, refl)
        λ msg2.
          let named : Written = record (unchanged i) { peer_conn_id = msg2.cr } in
          after-Leaves (IsOverwritten i) _ _ _ (named, refl)
            λ curve.
              after-Leaves (IsOverwritten i) _ _ _ (named, refl)
                λ peer.
                  after-Leaves (IsOverwritten i) _ _ _ (named, refl)
                    λ secret. check_message2-Leaves cwt_key e i _ msg2.ciphertext

  check_message2-Alike :
      (cwt_key : CwtKey c) (e : c.Entropy) (i : Initiator c) (th3 ct2 : List ℕ)
      → Alike
          (check_message2 c cwt_key e i ct2)
          (check_message2 c cwt_key e (record i { th3 = th3 }) ct2)
  unfolding check_message2 finish_message2
  check_message2-Alike cwt_key e i th3 ct2 =
      after-Alike i (record i { th3 = th3 }) _ _ _
        λ plaintext.
          after-Alike i (record i { th3 = th3 }) _ (λ _. finish_message2 c e i ct2)
            (λ _. finish_message2 c e (record i { th3 = th3 }) ct2)
            λ _. Alike-refl (finish_message2 c e i ct2)

  read_message2-Alike :
      (cwt_key : CwtKey c) (e : c.Entropy) (i : Initiator c) (w : Written) (m : List ℕ)
      → Alike (read_message2 c cwt_key e i m) (read_message2 c cwt_key e (overwritten i w) m)
  unfolding read_message2
  read_message2-Alike cwt_key e i w m = after-Alike i (overwritten i w) _ _ _ λ msg2.
      after-Alike _ _ _ _ _ λ curve. after-Alike _ _ _ _ _ λ peer.
        after-Alike _ _ _ _ _ λ secret. check_message2-Alike cwt_key e _ w.th3 msg2.ciphertext

  process_message2-Leaves :
      (cwt_key : CwtKey c) (e : c.Entropy) (i : Initiator c) (m : List ℕ)
      → Leaves (IsOverwritten i) (process_message2 c cwt_key e i m)
  unfolding process_message2
  process_message2-Leaves cwt_key e i m = by i.state
    where
      stays : Leaves {B = List ℕ} (IsOverwritten i) (i, fail state_violation)
      stays = record { leaves = λ _ _. (unchanged i, refl) }

      by :
          (st : InitiatorState)
          → Leaves (IsOverwritten i) (elim st [
            | Initiator.sent_msg1 ↦ read_message2 c cwt_key e i m
            | _ ↦ (i, fail state_violation)
          ])
      by Initiator.sent_msg1 = read_message2-Leaves cwt_key e i m
      by Initiator.init = stays
      by Initiator.complete = stays

  process_message2-Alike :
      (cwt_key : CwtKey c) (e : c.Entropy) (i : Initiator c) (w : Written) (m : List ℕ)
      → Alike (process_message2 c cwt_key e i m) (process_message2 c cwt_key e (overwritten i w) m)
  unfolding process_message2
  process_message2-Alike cwt_key e i w m = by i.state
    where
      j : Initiator c
      j = overwritten i w

      by :
          (st : InitiatorState)
          → Alike
              (elim st [
                | Initiator.sent_msg1 ↦ read_message2 c cwt_key e i m
                | _ ↦ (i, fail state_violation)
              ])
              (elim st [
                | Initiator.sent_msg1 ↦ read_message2 c cwt_key e j m
                | _ ↦ (j, fail state_violation)
              ])
      by Initiator.sent_msg1 = read_message2-Alike cwt_key e i w m
      by Initiator.init = record { same_result = refl; same_state = λ b h. cc (h) }
      by Initiator.complete = record { same_result = refl; same_state = λ b h. cc (h) }

-- A message 2 that ProcessMessage2 rejects, at whatever point, does not change what it makes of a later
-- one: the result is the same as without the rejected message, and so is the initiator after success.
pub process_message2-retry :
    (c : Crypto) (cwt_key : CwtKey c) (e e' : c.Entropy) (i j : Initiator c) (bad m : List ℕ)
    (x : EdhocError)
    → process_message2 c cwt_key e i bad ≡ (j, fail x)
    → Alike (process_message2 c cwt_key e' i m) (process_message2 c cwt_key e' j m)
process_message2-retry c cwt_key e e' i j bad m x h =
    let (w, k) = (process_message2-Leaves c cwt_key e i bad).leaves x (ap (λ p. p.1) h) in
    subst (λ y. Alike (process_message2 c cwt_key e' i m) (process_message2 c cwt_key e' y m))
      (k ∙ ap (λ p. p.0) h) (process_message2-Alike c cwt_key e' i w m)
