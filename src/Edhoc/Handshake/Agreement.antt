-- ===== src/Edhoc/Handshake/Agreement.antt =====
-- edhoc/initiator.go and edhoc/responder.go: a whole handshake between two parties that are
-- configured for each other.
use corecbor.Prelude.{
  ℕ, ◌≤◌, ◌≡◌, refl, sym, ap, ◌∙◌, true, List, [], ◌∷◌, length, append-nil, IsBytes, arith, some,
}
use corecbor.Cbor.Value.{bytes}
use corecbor.Rfc8949.Serial.{serialize}
use corecbor.Edhoc.Result.{ok}
use corecbor.Edhoc.Message.{
  CipherSuite, Message2, Message3, decode_message1, decode_message2, decode_message3, decode_bstr,
}
use corecbor.Edhoc.Message.Values.{bytes-Carried, most_bytes}
use corecbor.Edhoc.Message.RoundTrip.{
  IsString, AreSuites, decode_bstr-serialize, decode_message1-encode_message1,
  decode_message2-encode_message2, decode_message3-encode_message3,
}
use corecbor.Edhoc.Crypto.{Crypto, IsCrypto, IsKeyOf, key_size, x25519, p256, Curve}
use corecbor.Edhoc.KeySchedule.{
  get_suite_params, extract_prk2e, compute_th2, compute_th3, compute_th4,
}
use corecbor.Edhoc.Sealing.{CwtKey, decrypt_message}
use corecbor.Edhoc.Sealing.Derived.{set_up-IsReady}
use corecbor.Edhoc.Sealing.Honest.{IsPeer, encrypt_message-verified, open_with-seal_with}
use corecbor.Edhoc.Initiator
use corecbor.Edhoc.Initiator.{
  Initiator, labels_2, labels_3, labels_4, new_initiator, create_message1, process_message2,
  process_message4,
}
use corecbor.Edhoc.Responder
use corecbor.Edhoc.Responder.{
  Responder, is_member, new_responder, process_message1, process_message3, create_message4,
}
use corecbor.Edhoc.Handshake.Steps.{
  curve_of, started, create_message1-started, answered, process_message1-answered, finished,
  process_message2-finished, closed, process_message3-closed,
}

pub public_most : (curve : Curve) (b : List ℕ) → length b ≡ key_size curve → length b ≤ most_bytes
public_most x25519 b h = omega (arith, h)
public_most p256 b h = omega (arith, h)

module _ (c : Crypto) where
  -- What two parties that are done have in common.
  pub record IsAgreed (i : Initiator c) (r : Responder c) : Type 0 where
    pub initiator_complete : i.state ≡ Initiator.complete
    pub responder_complete : r.state ≡ Responder.complete
    pub same_suite : i.suite ≡ r.suite
    pub same_key : i.prk4e3m ≡ r.prk4e3m
    pub same_transcript : i.th4 ≡ r.th4
    pub initiator_id : r.peer_conn_id ≡ i.connection_id
    pub responder_id : i.peer_conn_id ≡ r.connection_id

  -- The messages of a handshake, and what they make of the two parties; the sources of randomness are
  -- those of the initiator's ephemeral key, of the responder's, and of the two signatures.
  pub record IsHandshake (cwt_key : CwtKey c) (e e2 e3 e4 : c.Entropy) (i : Initiator c)
      (r : Responder c) : Type 0 where
    pub m1 : List ℕ
    pub m2 : List ℕ
    pub m3 : List ℕ
    pub m4 : List ℕ
    pub i1 : Initiator c
    pub i2 : Initiator c
    pub r1 : Responder c
    pub r2 : Responder c
    pub sends_1 : create_message1 c e i ≡ (i1, ok m1)
    pub answers_1 : process_message1 c e2 e3 r m1 ≡ (r1, ok m2)
    pub answers_2 : process_message2 c cwt_key e4 i1 m2 ≡ (i2, ok m3)
    pub accepts_3 : process_message3 c cwt_key r1 m3 ≡ (r2, ok tt)
    pub sends_4 : create_message4 c r2 ≡ ok m4
    pub accepts_4 : process_message4 c i2 m4 ≡ ok tt
    pub agreed : IsAgreed i2 r2

module _ (c : Crypto) (laws : IsCrypto c) where
  th2-IsBytes : (m1 gy cr : List ℕ) → IsBytes (compute_th2 c m1 gy cr)
  unfolding compute_th2
  th2-IsBytes m1 gy cr = (laws.sha256-size _).1

  th3-IsBytes : (th2 ct2 : List ℕ) → IsBytes (compute_th3 c th2 ct2)
  unfolding compute_th3
  th3-IsBytes th2 ct2 = (laws.sha256-size _).1

  th4-IsBytes : (th3 ct3 : List ℕ) → IsBytes (compute_th4 c th3 ct3)
  unfolding compute_th4
  th4-IsBytes th3 ct3 = (laws.sha256-size _).1

  -- Message 4 of a responder that is done is accepted by an initiator with the same keys.
  message4_accepted :
      (i : Initiator c) (r : Responder c) (s : CipherSuite)
      → IsAgreed c i r
      → i.sp ≡ get_suite_params s
      → r.sp ≡ get_suite_params s
      → IsBytes r.th4
      → (m4 : List ℕ) × (create_message4 c r ≡ ok m4) × (process_message4 c i m4 ≡ ok tt)
  unfolding create_message4 process_message4 decrypt_message
  message4_accepted i r s h isp rsp b =
      let (a, ready) = set_up-IsReady c laws r.prk4e3m r.th4 labels_4 s b in
      let x = open_with-seal_with c laws r.prk4e3m r.th4 labels_4 s a [] ready tt (omega arith) in
      let fits : length x.0 ≤ most_bytes = omega (arith, x.3) in
      let m4 = serialize (bytes x.0) in
      let read : decode_bstr m4 ≡ ok (x.0, []) =
        ap decode_bstr (sym (append-nil m4)) ∙ decode_bstr-serialize x.0 [] fits in
      (
        m4,
        rw (create_message4, h.responder_complete, rsp, ready.made, x.1)
            ((bytes-Carried x.0 fits).writes []),
        rw
            (
              process_message4, h.initiator_complete, read, isp, h.same_key, h.same_transcript,
              ready.made, x.2,
            )
            refl,
      )

  module _ (cwt_key : CwtKey c) (e e2 e3 e4 : c.Entropy) (i : Initiator c) (r : Responder c)
      (s : CipherSuite) (ss : List CipherSuite) (a b : c.Private) where
    pub agrees :
        i.state ≡ Initiator.init
        → i.sp ≡ get_suite_params s
        → i.suite ≡ s
        → i.cfg.suites ≡ s ∷ ss
        → AreSuites s ss
        → IsString i.connection_id
        → r.state ≡ Responder.init
        → is_member s r.cfg.suites ≡ true
        → IsString r.connection_id
        → IsPeer c cwt_key e4 i.cfg r.cfg
        → IsPeer c cwt_key e3 r.cfg i.cfg
        → c.generate_key (curve_of s) e ≡ some a
        → c.generate_key (curve_of s) e2 ≡ some b
        → IsHandshake c cwt_key e e2 e3 e4 i r
    agrees ist isp isu ics words ici rst mem rci ipeer rpeer ga gb =
        let own_a : IsKeyOf c (curve_of s) a = record { source = e; generated = ga } in
        let own_b : IsKeyOf c (curve_of s) b = record { source = e2; generated = gb } in
        let gx = c.public_bytes (c.public_key a) in
        let gy = c.public_bytes (c.public_key b) in
        let short_x = public_most (curve_of s) gx (laws.public_bytes-size (curve_of s) a own_a).0 in
        let short_y = public_most (curve_of s) gy (laws.public_bytes-size (curve_of s) b own_b).0 in
        let (secret, secret_a, secret_b) = laws.ecdh_shared (curve_of s) a b own_a own_b in
        let prk = extract_prk2e c secret in
        let (m1, enc1, dec1) =
          decode_message1-encode_message1 0 s ss gx i.connection_id [] (omega arith) words short_x
            ici in
        let th2 = compute_th2 c m1 gy r.connection_id in
        let (ct2, p2, sealed2, opened2, proven2, fits2) =
          encrypt_message-verified c laws cwt_key e3 r.cfg i.cfg rpeer s prk prk th2 labels_2
            (th2-IsBytes m1 gy r.connection_id) in
        let msg2 : Message2 = record { gy = gy; cr = r.connection_id; ciphertext = ct2 } in
        let (m2, enc2, dec2) = decode_message2-encode_message2 msg2 [] short_y rci fits2 in
        let th3 = compute_th3 c th2 ct2 in
        let (ct3, p3, sealed3, opened3, proven3, fits3) =
          encrypt_message-verified c laws cwt_key e4 i.cfg r.cfg ipeer s prk prk th3 labels_3
            (th3-IsBytes th2 ct2) in
        let msg3 : Message3 = record { ciphertext = ct3 } in
        let (m3, enc3, dec3) = decode_message3-encode_message3 msg3 [] fits3 in
        let i1 = started c i a m1 in
        let r1 = answered c r s i.connection_id m1 b prk th2 ct2 in
        let i2 = finished c i1 r.connection_id prk th2 ct2 ct3 in
        let r2 = closed c r1 ct3 in
        let done : IsAgreed c i2 r2 = record {
          initiator_complete = refl;
          responder_complete = refl;
          same_suite = isu;
          same_key = refl;
          same_transcript = refl;
          initiator_id = refl;
          responder_id = refl;
        } in
        let (m4, sent4, taken4) = message4_accepted i2 r2 s done isp refl (th4-IsBytes th3 ct3) in
        record {
          m1 = m1;
          m2 = m2;
          m3 = m3;
          m4 = m4;
          i1 = i1;
          i2 = i2;
          r1 = r1;
          r2 = r2;
          sends_1 = create_message1-started c e i s ss a m1 ist isp isu ics ga enc1;
          answers_1 =
              process_message1-answered c e2 e3 r s ss gx i.connection_id m1 (c.public_key a) b
                secret ct2 m2 rst (ap decode_message1 (sym (append-nil m1)) ∙ dec1) mem
                (laws.new_public_key-public_bytes (curve_of s) a own_a) gb secret_b sealed2 enc2;
          answers_2 =
              process_message2-finished c cwt_key e4 i1 s m2 gy r.connection_id ct2 a
                (c.public_key b) secret p2 ct3 m3 refl isp refl
                (ap decode_message2 (sym (append-nil m2)) ∙ dec2)
                (laws.new_public_key-public_bytes (curve_of s) b own_b) secret_a opened2 proven2
                sealed3 enc3;
          accepts_3 =
              process_message3-closed c cwt_key r1 m3 ct3 p3 refl
                (ap decode_message3 (sym (append-nil m3)) ∙ dec3) opened3 proven3;
          sends_4 = sent4;
          accepts_4 = taken4;
          agreed = done;
        }
