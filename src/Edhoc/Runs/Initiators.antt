-- ===== src/Edhoc/Runs/Initiators.antt =====
-- edhoc/initiator.go: an initiator is done only when it has accepted the responder's signature.
use corecbor.Prelude.{ℕ, ◌≡◌, refl, sym, ◌∙◌, subst, List, [], ◌∷◌}
use corecbor.Edhoc.Result.{ok, fail, state_violation}
use corecbor.Edhoc.Message.{Message2, CipherSuite}
use corecbor.Edhoc.Crypto.{Crypto}
use corecbor.Edhoc.KeySchedule.{compute_th2, compute_th3}
use corecbor.Edhoc.Sealing.{Config, CwtKey, decrypt_message, verify_peer}
use corecbor.Edhoc.Initiator
use corecbor.Edhoc.Initiator.{
  Initiator, InitiatorState, labels_2, not_nil, fresh_initiator, new_initiator, make_message1,
  create_message1, finish_message2, check_message2, read_message2, process_message2,
  encrypt_message3, agree,
}
use corecbor.Edhoc.Export.{initiator_export}
use corecbor.Edhoc.Handshake.Accepted.{IsProven, verify_peer-IsProven}
use corecbor.Edhoc.Handshake.Start.{new_initiator-fresh_initiator}
use corecbor.Edhoc.Runs.{
  after_unit-Always, after-Always, Always, InitiatorCall, create_1, process_2, run_initiator,
}

module _ (c : Crypto) (cwt_key : CwtKey c) where
  -- Message 2 of the initiator's own transcript has been opened, and the proof in it accepted.
  pub record HasAccepted (i : Initiator c) : Type 0 where
    pub msg2 : Message2
    pub plaintext : List ℕ
    pub transcript : i.th2 ≡ compute_th2 c i.message1_raw msg2.gy msg2.cr
    pub opens : decrypt_message c i.sp i.prk2e i.th2 labels_2 msg2.ciphertext ≡ ok plaintext
    pub proven : IsProven c cwt_key i.cfg i.sp i.prk3e2m i.th2 labels_2 plaintext
    pub follows : i.th3 ≡ compute_th3 c i.th2 msg2.ciphertext
    pub peer : i.peer_conn_id ≡ msg2.cr

module _ (c : Crypto) (cwt_key : CwtKey c) (cfg : Config c) where
  -- The configuration stays, and a party that is done has accepted its peer.
  abbrev pub IsJustified : Initiator c → Type 0
  IsJustified i = (i.cfg ≡ cfg) × (i.state ≡ Initiator.complete → HasAccepted c cwt_key i)

  starting : (i : Initiator c) → i.cfg ≡ cfg → i.state ≡ Initiator.init → IsJustified i
  starting i k st = (k, λ e. let f : Initiator.init ≡ Initiator.complete = sym st ∙ e in cc (f))

  early : (i : Initiator c) → i.cfg ≡ cfg → i.state ≡ Initiator.sent_msg1 → IsJustified i
  early i k st = (k, λ e. let f : Initiator.sent_msg1 ≡ Initiator.complete = sym st ∙ e in cc (f))

  create_message1-IsJustified :
      (e : c.Entropy) (i : Initiator c) → IsJustified i → Always IsJustified (create_message1 c e i)
  unfolding create_message1 make_message1
  create_message1-IsJustified e i h = by i.state refl
    where
      by :
          (st : InitiatorState)
          → i.state ≡ st
          → Always IsJustified
              (elim st [ Initiator.init ↦ make_message1 c e i | _ ↦ (i, fail state_violation) ])
      by Initiator.init st = after-Always IsJustified i _ _ h λ curve q.
          after-Always IsJustified i _ _ h λ priv g.
            after-Always IsJustified _ _ _ (starting _ h.0 st)
              λ raw m. record { holds = (h.0, λ f. cc (f)) }
      by Initiator.sent_msg1 st = record { holds = h }
      by Initiator.complete st = record { holds = h }

  finish_message2-IsJustified :
      (e : c.Entropy) (i : Initiator c) (msg2 : Message2) (plaintext : List ℕ)
      → i.cfg ≡ cfg
      → i.state ≡ Initiator.sent_msg1
      → i.th2 ≡ compute_th2 c i.message1_raw msg2.gy msg2.cr
      → i.peer_conn_id ≡ msg2.cr
      → decrypt_message c i.sp i.prk2e i.th2 labels_2 msg2.ciphertext ≡ ok plaintext
      → verify_peer c cwt_key i.cfg i.sp i.prk3e2m i.th2 labels_2 plaintext ≡ ok tt
      → Always IsJustified (finish_message2 c e i msg2.ciphertext)
  unfolding finish_message2
  finish_message2-IsJustified e i msg2 plaintext k st t p o v =
      let i1 : Initiator c = record i { th3 = compute_th3 c i.th2 msg2.ciphertext } in
      after-Always IsJustified i1 _ _ (early i1 k st) λ ct3 m. record {
        holds = (
          k,
          λ done. record {
            msg2 = msg2;
            plaintext = plaintext;
            transcript = t;
            opens = o;
            proven = verify_peer-IsProven c cwt_key i.cfg i.sp i.prk3e2m i.th2 labels_2 plaintext v;
            follows = refl;
            peer = p;
          },
        );
      }

  check_message2-IsJustified :
      (e : c.Entropy) (i : Initiator c) (msg2 : Message2)
      → i.cfg ≡ cfg
      → i.state ≡ Initiator.sent_msg1
      → i.th2 ≡ compute_th2 c i.message1_raw msg2.gy msg2.cr
      → i.peer_conn_id ≡ msg2.cr
      → Always IsJustified (check_message2 c cwt_key e i msg2.ciphertext)
  unfolding check_message2
  check_message2-IsJustified e i msg2 k st t p =
      after-Always IsJustified i _ _ (early i k st) λ plaintext o.
        after_unit-Always IsJustified i
          (verify_peer c cwt_key i.cfg i.sp i.prk3e2m i.th2 labels_2 plaintext)
          (finish_message2 c e i msg2.ciphertext) (early i k st)
          λ v. finish_message2-IsJustified e i msg2 plaintext k st t p o v

  read_message2-IsJustified :
      (e : c.Entropy) (i : Initiator c) (m : List ℕ)
      → i.cfg ≡ cfg
      → i.state ≡ Initiator.sent_msg1
      → Always IsJustified (read_message2 c cwt_key e i m)
  unfolding read_message2
  read_message2-IsJustified e i m k st = after-Always IsJustified i _ _ (early i k st) λ msg2 d.
      after-Always IsJustified _ _ _ (early _ k st) λ curve q.
        after-Always IsJustified _ _ _ (early _ k st) λ peer q'.
          after-Always IsJustified _ _ _ (early _ k st)
            λ secret x. check_message2-IsJustified e _ msg2 k st refl refl

  process_message2-IsJustified :
      (e : c.Entropy) (i : Initiator c) (m : List ℕ)
      → IsJustified i
      → Always IsJustified (process_message2 c cwt_key e i m)
  unfolding process_message2
  process_message2-IsJustified e i m h = by i.state refl
    where
      by :
          (st : InitiatorState)
          → i.state ≡ st
          → Always IsJustified (elim st [
            | Initiator.sent_msg1 ↦ read_message2 c cwt_key e i m
            | _ ↦ (i, fail state_violation)
          ])
      by Initiator.sent_msg1 st = read_message2-IsJustified e i m h.0 st
      by Initiator.init st = record { holds = h }
      by Initiator.complete st = record { holds = h }

  run_initiator-IsJustified :
      (calls : List (InitiatorCall c cwt_key)) (i : Initiator c)
      → IsJustified i
      → IsJustified (run_initiator c cwt_key i calls)
  unfolding run_initiator
  run_initiator-IsJustified [] i h = h
  run_initiator-IsJustified (create_1 e ∷ calls) i h =
      run_initiator-IsJustified calls _ (create_message1-IsJustified e i h).holds
  run_initiator-IsJustified (process_2 e m ∷ calls) i h =
      run_initiator-IsJustified calls _ (process_message2-IsJustified e i m h).holds

  new_initiator-IsJustified :
      (n : c.Entropy) (i : Initiator c) → new_initiator c n cfg ≡ ok i → IsJustified i
  unfolding new_initiator
  new_initiator-IsJustified n i h = by cfg.suites refl
    where
      by : (l : List CipherSuite) → cfg.suites ≡ l → IsJustified i
      by [] k = let f = (rw (new_initiator, k) at h) in cc (f)
      by (s ∷ ss) k =
          let (cid, f, made) = new_initiator-fresh_initiator c n cfg i s ss h k in
          subst IsJustified made (starting (fresh_initiator c cfg s cid) refl refl)

-- After any calls of the methods of a new initiator, in any order and with any messages, it exports
-- keying material only if it has opened a message 2 that fits the transcript of its own message 1, and
-- the library has accepted the signature in it, over that transcript, under the key that the
-- configuration gives for the credential in the message.
pub initiator_export-HasAccepted :
    (c : Crypto) (cwt_key : CwtKey c) (format_int : ℕ → List ℕ) (n : c.Entropy) (cfg : Config c)
    (i : Initiator c) (calls : List (InitiatorCall c cwt_key)) (label : ℕ) (context : List ℕ)
    (len : ℕ) (out : List ℕ)
    → new_initiator c n cfg ≡ ok i
    → initiator_export c format_int (run_initiator c cwt_key i calls) label context len ≡ ok out
    → ((run_initiator c cwt_key i calls).cfg ≡ cfg)
      × HasAccepted c cwt_key (run_initiator c cwt_key i calls)
unfolding initiator_export
initiator_export-HasAccepted c cwt_key format_int n cfg i calls label context len out made e =
    let j = run_initiator c cwt_key i calls in
    let g =
      run_initiator-IsJustified c cwt_key cfg calls i
        (new_initiator-IsJustified c cwt_key cfg n i made) in
    (g.0, g.1 (by j.state refl))
  where
    j : Initiator c
    j = run_initiator c cwt_key i calls

    by : (st : InitiatorState) → j.state ≡ st → j.state ≡ Initiator.complete
    by Initiator.complete k = k
    by Initiator.init k = let f = (rw (initiator_export, k) at e) in cc (f)
    by Initiator.sent_msg1 k = let f = (rw (initiator_export, k) at e) in cc (f)
