-- ===== src/Edhoc/Handshake/Steps.antt =====
-- edhoc/initiator.go and edhoc/responder.go: the four steps of a handshake, each by what it calls.
use corecbor.Prelude.{ℕ, ◌≡◌, refl, true, List, ◌∷◌, some, ◌==◌, if◌then◌else◌}
use corecbor.Edhoc.Result.{ok, after}
use corecbor.Edhoc.Message.{
  CipherSuite, encode_message1, decode_message1, encode_message2, decode_message2, encode_message3,
  decode_message3,
}
use corecbor.Edhoc.Message.RoundTrip.{first_message}
use corecbor.Edhoc.Crypto.{Curve, x25519, p256, Crypto}
use corecbor.Edhoc.KeySchedule.{
  get_suite_params, suite_2, extract_prk2e, compute_th2, compute_th3, compute_th4,
}
use corecbor.Edhoc.Sealing.{CwtKey, encrypt_message, decrypt_message, verify_peer}
use corecbor.Edhoc.Initiator
use corecbor.Edhoc.Initiator.{
  Initiator, labels_2, labels_3, make_message1, create_message1, encrypt_message3, finish_message2,
  check_message2, read_message2, process_message2, agree,
}
use corecbor.Edhoc.Responder
use corecbor.Edhoc.Responder.{
  Responder, is_member, negotiate_suite, encrypt_message2, answer_message1, read_message1,
  process_message1, read_message3, process_message3,
}

abbrev pub curve_of : CipherSuite → Curve
curve_of suite = if suite == suite_2 then p256 else x25519

module _ (c : Crypto) where
  -- The initiator behind CreateMessage1.
  abbrev pub started : Initiator c → c.Private → List ℕ → Initiator c
  started i a m1 = record i {
    eph_priv = some a;
    eph_pub = some (c.public_key a);
    message1_raw = m1;
    state = Initiator.sent_msg1;
  }

  pub create_message1-started :
      (e : c.Entropy) (i : Initiator c) (s : CipherSuite) (ss : List CipherSuite) (a : c.Private)
      (m1 : List ℕ)
      → i.state ≡ Initiator.init
      → i.sp ≡ get_suite_params s
      → i.suite ≡ s
      → i.cfg.suites ≡ s ∷ ss
      → c.generate_key (curve_of s) e ≡ some a
      → encode_message1 (first_message 0 s ss (c.public_bytes (c.public_key a)) i.connection_id)
        ≡ ok m1
      → create_message1 c e i ≡ (started i a m1, ok m1)
  unfolding after create_message1 make_message1 get_suite_params
  create_message1-started e i s ss a m1 st sp su cs g m =
      rw (create_message1, st, sp, g, su, cs, m) refl

  -- The responder behind ProcessMessage1: `prk` and `th2` come from the ephemeral keys.
  abbrev pub answered :
      Responder c
      → CipherSuite
      → (ci m1 : List ℕ) → c.Private
      → (prk th2 ct2 : List ℕ) → Responder c
  answered r s ci m1 b prk th2 ct2 = record r {
    suite = s;
    sp = get_suite_params s;
    peer_conn_id = ci;
    message1_raw = m1;
    eph_priv = some b;
    eph_pub = some (c.public_key b);
    prk2e = prk;
    prk3e2m = prk;
    prk4e3m = prk;
    th2 = th2;
    ciphertext2 = ct2;
    th3 = compute_th3 c th2 ct2;
    state = Responder.sent_msg2;
  }

  pub process_message1-answered :
      (e e' : c.Entropy) (r : Responder c) (s : CipherSuite) (ss : List CipherSuite)
      (gx ci m1 : List ℕ) (peer : c.Public) (b : c.Private) (secret ct2 m2 : List ℕ)
      → r.state ≡ Responder.init
      → decode_message1 m1 ≡ ok (first_message 0 s ss gx ci)
      → is_member s r.cfg.suites ≡ true
      → c.new_public_key (curve_of s) gx ≡ some peer
      → c.generate_key (curve_of s) e ≡ some b
      → c.ecdh b peer ≡ some secret
      → let prk = extract_prk2e c secret in
        let gy = c.public_bytes (c.public_key b) in
        let th2 = compute_th2 c m1 gy r.connection_id in
        encrypt_message c e' r.cfg (get_suite_params s) prk prk th2 labels_2 ≡ ok ct2
        → encode_message2 (record { gy = gy; cr = r.connection_id; ciphertext = ct2 }) ≡ ok m2
        → process_message1 c e e' r m1 ≡ (answered r s ci m1 b prk th2 ct2, ok m2)
  unfolding after process_message1 read_message1 answer_message1 negotiate_suite encrypt_message2
      agree get_suite_params
  process_message1-answered e e' r s ss gx ci m1 peer b secret ct2 m2 st d n k g x t m =
      rw (process_message1, st, d, n, k, g, x, t, m) refl

  -- The initiator behind ProcessMessage2.
  abbrev pub finished : Initiator c → (cr prk th2 ct2 ct3 : List ℕ) → Initiator c
  finished i cr prk th2 ct2 ct3 = record i {
    peer_conn_id = cr;
    prk2e = prk;
    prk3e2m = prk;
    prk4e3m = prk;
    th2 = th2;
    th3 = compute_th3 c th2 ct2;
    th4 = compute_th4 c (compute_th3 c th2 ct2) ct3;
    state = Initiator.complete;
  }

  pub process_message2-finished :
      (cwt_key : CwtKey c) (e : c.Entropy) (i : Initiator c) (s : CipherSuite)
      (m2 gy cr ct2 : List ℕ) (a : c.Private) (peer : c.Public) (secret p ct3 m3 : List ℕ)
      → i.state ≡ Initiator.sent_msg1
      → i.sp ≡ get_suite_params s
      → i.eph_priv ≡ some a
      → decode_message2 m2 ≡ ok (record { gy = gy; cr = cr; ciphertext = ct2 })
      → c.new_public_key (curve_of s) gy ≡ some peer
      → c.ecdh a peer ≡ some secret
      → let prk = extract_prk2e c secret in
        let th2 = compute_th2 c i.message1_raw gy cr in
        let th3 = compute_th3 c th2 ct2 in
        decrypt_message c (get_suite_params s) prk th2 labels_2 ct2 ≡ ok p
        → verify_peer c cwt_key i.cfg (get_suite_params s) prk th2 labels_2 p ≡ ok tt
        → encrypt_message c e i.cfg (get_suite_params s) prk prk th3 labels_3 ≡ ok ct3
        → encode_message3 (record { ciphertext = ct3 }) ≡ ok m3
        → process_message2 c cwt_key e i m2 ≡ (finished i cr prk th2 ct2 ct3, ok m3)
  unfolding after process_message2 read_message2 check_message2 finish_message2 encrypt_message3
      agree get_suite_params
  process_message2-finished cwt_key e i s m2 gy cr ct2 a peer secret p ct3 m3 st sp pr d k x o v t
        m =
      rw (process_message2, st, d, sp, k, pr, x, check_message2, o, v, finish_message2, t, m) refl

  -- The responder behind ProcessMessage3.
  abbrev pub closed : Responder c → List ℕ → Responder c
  closed r ct3 = record r { th4 = compute_th4 c r.th3 ct3; state = Responder.complete }

  pub process_message3-closed :
      (cwt_key : CwtKey c) (r : Responder c) (m3 ct3 p : List ℕ)
      → r.state ≡ Responder.sent_msg2
      → decode_message3 m3 ≡ ok (record { ciphertext = ct3 })
      → decrypt_message c r.sp r.prk3e2m r.th3 labels_3 ct3 ≡ ok p
      → verify_peer c cwt_key r.cfg r.sp r.prk4e3m r.th3 labels_3 p ≡ ok tt
      → process_message3 c cwt_key r m3 ≡ (closed r ct3, ok tt)
  unfolding after process_message3 read_message3
  process_message3-closed cwt_key r m3 ct3 p st d o v = rw (process_message3, st, d, o, v) refl
