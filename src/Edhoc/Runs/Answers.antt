-- ===== src/Edhoc/Runs/Answers.antt =====
-- edhoc/responder.go: a message 1 or 3 that is rejected does not spoil the session.
use corecbor.Prelude.{
  ℕ, ◌≡◌, ◌≢◌, refl, ap, ◌∙◌, subst, Bool, true, false, not, List, [], ◌∷◌, ◌++◌, length, Option,
  ◌==◌, if◌then◌else◌, ltb,
}
use corecbor.Cbor.Value.{uint, bytes}
use corecbor.Wire.Head.{append_head, major_bytes}
use corecbor.Rfc8949.Encode.{encode}
use corecbor.Edhoc.Result.{EdhocError, ok, fail, unsupported_suite, state_violation, Step}
use corecbor.Edhoc.Message.{
  Message1, Message2, CipherSuite, encode_message2, encode_connection_id, encode_value,
}
use corecbor.Edhoc.Crypto.{Crypto}
use corecbor.Edhoc.KeySchedule.{SuiteParams}
use corecbor.Edhoc.Sealing.{CwtKey}
use corecbor.Edhoc.Responder
use corecbor.Edhoc.Responder.{
  Responder, ResponderState, answer_message1, read_message1, process_message1, read_message3,
  process_message3,
}
use corecbor.Edhoc.Runs.Outcomes.{Leaves, after-Leaves, Alike, after-Alike, Alike-refl}

-- A connection identifier, and with it message 2, can always be encoded.
encode_connection_id-ok : (buf cid : List ℕ) → (d : List ℕ) × (encode_connection_id buf cid ≡ ok d)
unfolding encode_connection_id encode_value encode
encode_connection_id-ok buf [] = (_, refl)
encode_connection_id-ok buf (b ∷ []) = by (ltb b 24)
  where
    by :
        (small : Bool)
        → (d : List ℕ) × ((if small
              then encode_value buf (uint b)
              else encode_value buf (bytes (b ∷ [])))
            ≡ ok d)
    by true = (_, refl)
    by false = (_, refl)
encode_connection_id-ok buf (b ∷ x ∷ cid) = (_, refl)

encode_message2-ne-fail : (m : Message2) (e : EdhocError) → encode_message2 m ≢ fail e
unfolding encode_message2 encode_value encode
encode_message2-ne-fail m e h =
    let front = append_head [] major_bytes (length m.gy) ++ m.gy in
    let (d, k) = encode_connection_id-ok front m.cr in let g = (rw k at h) in cc (g)

module _ (c : Crypto) where
  -- What a failed ProcessMessage1 may have written.
  record Written : Type 0 where
    suite : CipherSuite
    sp : SuiteParams
    eph_priv : Option c.Private
    eph_pub : Option c.Public
    peer_conn_id : List ℕ
    message1_raw : List ℕ
    th2 : List ℕ
    prk2e : List ℕ
    prk3e2m : List ℕ
    prk4e3m : List ℕ

  abbrev overwritten : Responder c → Written → Responder c
  overwritten r w = record r {
    suite = w.suite;
    sp = w.sp;
    eph_priv = w.eph_priv;
    eph_pub = w.eph_pub;
    peer_conn_id = w.peer_conn_id;
    message1_raw = w.message1_raw;
    th2 = w.th2;
    prk2e = w.prk2e;
    prk3e2m = w.prk3e2m;
    prk4e3m = w.prk4e3m;
  }

  abbrev IsOverwritten : Responder c → Responder c → Type 0
  IsOverwritten r s = (w : Written) × (overwritten r w ≡ s)

  abbrev unchanged : Responder c → Written
  unchanged r = record {
    suite = r.suite;
    sp = r.sp;
    eph_priv = r.eph_priv;
    eph_pub = r.eph_pub;
    peer_conn_id = r.peer_conn_id;
    message1_raw = r.message1_raw;
    th2 = r.th2;
    prk2e = r.prk2e;
    prk3e2m = r.prk3e2m;
    prk4e3m = r.prk4e3m;
  }

  answer_message1-Leaves :
      (e e' : c.Entropy) (r : Responder c) (m : List ℕ) (msg1 : Message1)
      → Leaves (IsOverwritten r) (answer_message1 c e e' r m msg1)
  unfolding answer_message1
  answer_message1-Leaves e e' r m msg1 =
      after-Leaves (IsOverwritten r) r _ _ (unchanged r, refl)
        λ suite.
          after-Leaves (IsOverwritten r) _ _ _ (_, refl)
            λ curve.
              after-Leaves (IsOverwritten r) _ _ _ (_, refl)
                λ peer.
                  after-Leaves (IsOverwritten r) _ _ _ (_, refl)
                    λ priv.
                      after-Leaves (IsOverwritten r) _ _ _ (_, refl)
                        λ secret.
                          after-Leaves (IsOverwritten r) _ _ _ (_, refl)
                            λ ct2. record {
                              leaves = λ x h. absurd (
                                  encode_message2-ne-fail
                                    (record { gy = _; cr = r.connection_id; ciphertext = ct2 }) x
                                    h);
                            }

  answer_message1-Alike :
      (e e' : c.Entropy) (r : Responder c) (w : Written) (m : List ℕ) (msg1 : Message1)
      → Alike (answer_message1 c e e' r m msg1) (answer_message1 c e e' (overwritten r w) m msg1)
  unfolding answer_message1
  answer_message1-Alike e e' r w m msg1 = after-Alike r (overwritten r w) _ _ _ λ suite.
      after-Alike _ _ _ _ _ λ curve. after-Alike _ _ _ _ _ λ peer.
        after-Alike _ _ _ _ _
          λ priv. after-Alike _ _ _ _ _ λ secret. after-Alike _ _ _ _ _ λ ct2. Alike-refl _

  module _ (e e' : c.Entropy) (r : Responder c) (m : List ℕ) where
    abbrev choose : Responder c → Message1 → Bool → Step (Responder c) (List ℕ)
    choose s msg1 other =
        if other then (s, fail unsupported_suite) else answer_message1 c e e' s m msg1

    read_message1-Leaves : Leaves (IsOverwritten r) (read_message1 c e e' r m)
    unfolding read_message1
    read_message1-Leaves =
        after-Leaves (IsOverwritten r) r _ _ (unchanged r, refl)
          λ msg1. by msg1 (not (msg1.method == 0))
      where
        by : (msg1 : Message1) (other : Bool) → Leaves (IsOverwritten r) (choose r msg1 other)
        by msg1 true = record { leaves = λ _ _. (unchanged r, refl) }
        by msg1 false = answer_message1-Leaves e e' r m msg1

    read_message1-Alike :
        (w : Written) → Alike (read_message1 c e e' r m) (read_message1 c e e' (overwritten r w) m)
    unfolding read_message1
    read_message1-Alike w =
        after-Alike r (overwritten r w) _ _ _ λ msg1. by msg1 (not (msg1.method == 0))
      where
        by :
            (msg1 : Message1) (other : Bool)
            → Alike (choose r msg1 other) (choose (overwritten r w) msg1 other)
        by msg1 true = record { same_result = refl; same_state = λ b h. cc (h) }
        by msg1 false = answer_message1-Alike e e' r w m msg1

  process_message1-Leaves :
      (e e' : c.Entropy) (r : Responder c) (m : List ℕ)
      → Leaves (IsOverwritten r) (process_message1 c e e' r m)
  unfolding process_message1
  process_message1-Leaves e e' r m = by r.state
    where
      stays : Leaves {B = List ℕ} (IsOverwritten r) (r, fail state_violation)
      stays = record { leaves = λ _ _. (unchanged r, refl) }

      by :
          (st : ResponderState)
          → Leaves (IsOverwritten r) (elim st [
            | Responder.init ↦ read_message1 c e e' r m
            | _ ↦ (r, fail state_violation)
          ])
      by Responder.init = read_message1-Leaves e e' r m
      by Responder.sent_msg2 = stays
      by Responder.complete = stays

  process_message1-Alike :
      (e e' : c.Entropy) (r : Responder c) (w : Written) (m : List ℕ)
      → Alike (process_message1 c e e' r m) (process_message1 c e e' (overwritten r w) m)
  unfolding process_message1
  process_message1-Alike e e' r w m = by r.state
    where
      s : Responder c
      s = overwritten r w

      by :
          (st : ResponderState)
          → Alike
              (elim st [
                | Responder.init ↦ read_message1 c e e' r m
                | _ ↦ (r, fail state_violation)
              ])
              (elim st [
                | Responder.init ↦ read_message1 c e e' s m
                | _ ↦ (s, fail state_violation)
              ])
      by Responder.init = read_message1-Alike e e' r m w
      by Responder.sent_msg2 = record { same_result = refl; same_state = λ b h. cc (h) }
      by Responder.complete = record { same_result = refl; same_state = λ b h. cc (h) }

  process_message3-Leaves :
      (cwt_key : CwtKey c) (r : Responder c) (m : List ℕ)
      → Leaves (λ s. r ≡ s) (process_message3 c cwt_key r m)
  unfolding process_message3 read_message3
  process_message3-Leaves cwt_key r m = by r.state
    where
      read : Leaves (λ s. r ≡ s) (read_message3 c cwt_key r m)
      read =
          after-Leaves (λ s. r ≡ s) r _ _ refl
            λ msg3.
              after-Leaves (λ s. r ≡ s) r _ _ refl
                λ plaintext.
                  after-Leaves (λ s. r ≡ s) r _ (λ _. _) refl λ _. record { leaves = λ x h. cc (h) }

      by :
          (st : ResponderState)
          → Leaves
              (λ s. r ≡ s)
              (elim st [
                | Responder.sent_msg2 ↦ read_message3 c cwt_key r m
                | _ ↦ (r, fail state_violation)
              ])
      by Responder.sent_msg2 = read
      by Responder.init = record { leaves = λ _ _. refl }
      by Responder.complete = record { leaves = λ _ _. refl }

-- A message 1 that a responder rejects, at whatever point, does not change what it makes of a later one:
-- the result of ProcessMessage1 is the same, and the responder after success.
pub process_message1-retry :
    (c : Crypto) (e e' f f' : c.Entropy) (r s : Responder c) (bad m : List ℕ) (x : EdhocError)
    → process_message1 c e e' r bad ≡ (s, fail x)
    → Alike (process_message1 c f f' r m) (process_message1 c f f' s m)
process_message1-retry c e e' f f' r s bad m x h =
    let (w, k) = (process_message1-Leaves c e e' r bad).leaves x (ap (λ p. p.1) h) in
    subst (λ y. Alike (process_message1 c f f' r m) (process_message1 c f f' y m))
      (k ∙ ap (λ p. p.0) h) (process_message1-Alike c f f' r w m)

-- A message 3 that a responder rejects, at whatever point, leaves the responder as it was.
pub process_message3-retry :
    (c : Crypto) (cwt_key : CwtKey c) (r s : Responder c) (bad : List ℕ) (x : EdhocError)
    → process_message3 c cwt_key r bad ≡ (s, fail x)
    → r ≡ s
process_message3-retry c cwt_key r s bad x h =
    (process_message3-Leaves c cwt_key r bad).leaves x (ap (λ p. p.1) h) ∙ ap (λ p. p.0) h
