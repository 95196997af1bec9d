-- ===== src/Edhoc/Runs/Responders.antt =====
-- edhoc/responder.go: a responder is done only when it has accepted the initiator's signature.
use corecbor.Prelude.{
  ℕ, ◌≡◌, refl, sym, ◌∙◌, subst, Bool, true, false, not, List, [], ◌∷◌, ◌==◌, if◌then◌else◌, some,
}
use corecbor.Edhoc.Result.{ok, fail, state_violation, unsupported_suite}
use corecbor.Edhoc.Message.{Message1, Message3, decode_message1}
use corecbor.Edhoc.Crypto.{Crypto}
use corecbor.Edhoc.KeySchedule.{compute_th2, compute_th3, compute_th4}
use corecbor.Edhoc.Sealing.{Config, CwtKey, decrypt_message, verify_peer}
use corecbor.Edhoc.Initiator.{labels_3}
use corecbor.Edhoc.Responder
use corecbor.Edhoc.Responder.{
  Responder, ResponderState, fresh_responder, new_responder, answer_message1, read_message1,
  process_message1, read_message3, process_message3,
}
use corecbor.Edhoc.Export.{responder_export}
use corecbor.Edhoc.Handshake.Accepted.{IsProven, verify_peer-IsProven}
use corecbor.Edhoc.Handshake.Start.{new_responder-fresh_responder}
use corecbor.Edhoc.Runs.{
  Always, after-Always, after_unit-Always, ResponderCall, process_1, process_3, run_responder,
}

-- The transcript is that of the message 1 that has been read, and of the message 2 sent with the public
-- key that is kept.
pub record HasAnswered (c : Crypto) (r : Responder c) : Type 0 where
  pub msg1 : Message1
  pub own_key : c.Public
  pub reads : decode_message1 r.message1_raw ≡ ok msg1
  pub peer : r.peer_conn_id ≡ msg1.ci
  pub keeps : r.eph_pub ≡ some own_key
  pub hashes_1 : r.th2 ≡ compute_th2 c r.message1_raw (c.public_bytes own_key) r.connection_id
  pub hashes_2 : r.th3 ≡ compute_th3 c r.th2 r.ciphertext2

module _ (c : Crypto) (cwt_key : CwtKey c) where
  -- Message 3 of the responder's own transcript has been opened, and the proof in it accepted.
  pub record HasAccepted (r : Responder c) : Type 0 where
    pub answered : HasAnswered c r
    pub msg3 : Message3
    pub plaintext : List ℕ
    pub opens : decrypt_message c r.sp r.prk3e2m r.th3 labels_3 msg3.ciphertext ≡ ok plaintext
    pub proven : IsProven c cwt_key r.cfg r.sp r.prk4e3m r.th3 labels_3 plaintext
    pub transcript : r.th4 ≡ compute_th4 c r.th3 msg3.ciphertext

module _ (c : Crypto) (cwt_key : CwtKey c) (cfg : Config c) where
  -- The configuration stays, a party that has sent message 2 has answered, and a party that is done has
  -- accepted its peer.
  abbrev pub IsJustified : Responder c → Type 0
  IsJustified r =
      (r.cfg ≡ cfg)
      × (r.state ≡ Responder.sent_msg2 → HasAnswered c r)
      × (r.state ≡ Responder.complete → HasAccepted c cwt_key r)

  starting : (r : Responder c) → r.cfg ≡ cfg → r.state ≡ Responder.init → IsJustified r
  starting r k st = (
    k,
    λ e. let f : Responder.init ≡ Responder.sent_msg2 = sym st ∙ e in cc (f),
    λ e. let f : Responder.init ≡ Responder.complete = sym st ∙ e in cc (f),
  )

  answer_message1-IsJustified :
      (e e' : c.Entropy) (r : Responder c) (m : List ℕ) (msg1 : Message1)
      → r.cfg ≡ cfg
      → r.state ≡ Responder.init
      → decode_message1 m ≡ ok msg1
      → Always IsJustified (answer_message1 c e e' r m msg1)
  unfolding answer_message1
  answer_message1-IsJustified e e' r m msg1 k st d =
      after-Always IsJustified r _ _ (starting r k st) λ suite n.
        after-Always IsJustified _ _ _ (starting _ k st) λ curve q.
          after-Always IsJustified _ _ _ (starting _ k st) λ peer p.
            after-Always IsJustified _ _ _ (starting _ k st) λ priv g.
              after-Always IsJustified _ _ _ (starting _ k st) λ secret x.
                after-Always IsJustified _ _ _ (starting _ k st) λ ct2 t. record {
                  holds = (
                    k,
                    λ f. record {
                      msg1 = msg1;
                      own_key = c.public_key priv;
                      reads = d;
                      peer = refl;
                      keeps = refl;
                      hashes_1 = refl;
                      hashes_2 = refl;
                    },
                    λ f. cc (f),
                  );
                }

  read_message1-IsJustified :
      (e e' : c.Entropy) (r : Responder c) (m : List ℕ)
      → r.cfg ≡ cfg
      → r.state ≡ Responder.init
      → Always IsJustified (read_message1 c e e' r m)
  unfolding read_message1
  read_message1-IsJustified e e' r m k st =
      after-Always IsJustified r _ _ (starting r k st) λ msg1 d. by msg1 d (not (msg1.method == 0))
    where
      by :
          (msg1 : Message1)
          → decode_message1 m ≡ ok msg1
          → (other : Bool)
          → Always IsJustified
              (if other then (r, fail unsupported_suite) else answer_message1 c e e' r m msg1)
      by msg1 d true = record { holds = starting r k st }
      by msg1 d false = answer_message1-IsJustified e e' r m msg1 k st d

  process_message1-IsJustified :
      (e e' : c.Entropy) (r : Responder c) (m : List ℕ)
      → IsJustified r
      → Always IsJustified (process_message1 c e e' r m)
  unfolding process_message1
  process_message1-IsJustified e e' r m h = by r.state refl
    where
      by :
          (st : ResponderState)
          → r.state ≡ st
          → Always IsJustified (elim st [
            | Responder.init ↦ read_message1 c e e' r m
            | _ ↦ (r, fail state_violation)
          ])
      by Responder.init st = read_message1-IsJustified e e' r m h.0 st
      by Responder.sent_msg2 st = record { holds = h }
      by Responder.complete st = record { holds = h }

  read_message3-IsJustified :
      (r : Responder c) (m : List ℕ)
      → IsJustified r
      → r.state ≡ Responder.sent_msg2
      → Always IsJustified (read_message3 c cwt_key r m)
  unfolding read_message3
  read_message3-IsJustified r m h st = after-Always IsJustified r _ _ h λ msg3 d.
      after-Always IsJustified r _ _ h λ plaintext o.
        after_unit-Always IsJustified r
          (verify_peer c cwt_key r.cfg r.sp r.prk4e3m r.th3 labels_3 plaintext) _ h
          λ v. record {
            holds = (
              h.0,
              λ f. cc (f),
              λ done. record {
                answered =
                    let a = h.1 st in
                    record {
                      msg1 = a.msg1;
                      own_key = a.own_key;
                      reads = a.reads;
                      peer = a.peer;
                      keeps = a.keeps;
                      hashes_1 = a.hashes_1;
                      hashes_2 = a.hashes_2;
                    };
                msg3 = msg3;
                plaintext = plaintext;
                opens = o;
                proven =
                    verify_peer-IsProven c cwt_key r.cfg r.sp r.prk4e3m r.th3 labels_3 plaintext v;
                transcript = refl;
              },
            );
          }

  process_message3-IsJustified :
      (r : Responder c) (m : List ℕ)
      → IsJustified r
      → Always IsJustified (process_message3 c cwt_key r m)
  unfolding process_message3
  process_message3-IsJustified r m h = by r.state refl
    where
      by :
          (st : ResponderState)
          → r.state ≡ st
          → Always IsJustified (elim st [
            | Responder.sent_msg2 ↦ read_message3 c cwt_key r m
            | _ ↦ (r, fail state_violation)
          ])
      by Responder.init st = record { holds = h }
      by Responder.sent_msg2 st = read_message3-IsJustified r m h st
      by Responder.complete st = record { holds = h }

  run_responder-IsJustified :
      (calls : List (ResponderCall c cwt_key)) (r : Responder c)
      → IsJustified r
      → IsJustified (run_responder c cwt_key r calls)
  unfolding run_responder
  run_responder-IsJustified [] r h = h
  run_responder-IsJustified (process_1 e e' m ∷ calls) r h =
      run_responder-IsJustified calls _ (process_message1-IsJustified e e' r m h).holds
  run_responder-IsJustified (process_3 m ∷ calls) r h =
      run_responder-IsJustified calls _ (process_message3-IsJustified r m h).holds

  new_responder-IsJustified :
      (n : c.Entropy) (r : Responder c) → new_responder c n cfg ≡ ok r → IsJustified r
  new_responder-IsJustified n r h =
      let (cid, f, made) = new_responder-fresh_responder c n cfg r h in
      subst IsJustified made (starting (fresh_responder c cfg cid) refl refl)

-- After any calls of the methods of a new responder, in any order and with any messages, it exports
-- keying material only if it has opened a message 3 with the keys of its hash TH_3, which is the hash of
-- the message 1 that it has read and of its own message 2, and the library has accepted the signature in
-- message 3, over that hash, under the key that the configuration gives for the credential in the
-- message.
pub responder_export-HasAccepted :
    (c : Crypto) (cwt_key : CwtKey c) (format_int : ℕ → List ℕ) (n : c.Entropy) (cfg : Config c)
    (r : Responder c) (calls : List (ResponderCall c cwt_key)) (label : ℕ) (context : List ℕ)
    (len : ℕ) (out : List ℕ)
    → new_responder c n cfg ≡ ok r
    → responder_export c format_int (run_responder c cwt_key r calls) label context len ≡ ok out
    → ((run_responder c cwt_key r calls).cfg ≡ cfg)
      × HasAccepted c cwt_key (run_responder c cwt_key r calls)
unfolding responder_export
responder_export-HasAccepted c cwt_key format_int n cfg r calls label context len out made e =
    let g =
      run_responder-IsJustified c cwt_key cfg calls r
        (new_responder-IsJustified c cwt_key cfg n r made) in
    (g.0, g.2 (by s.state refl))
  where
    s : Responder c
    s = run_responder c cwt_key r calls

    by : (st : ResponderState) → s.state ≡ st → s.state ≡ Responder.complete
    by Responder.complete k = k
    by Responder.init k = let f = (rw (responder_export, k) at e) in cc (f)
    by Responder.sent_msg2 k = let f = (rw (responder_export, k) at e) in cc (f)
