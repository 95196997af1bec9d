-- ===== src/Edhoc/Responder.antt =====
-- edhoc/responder.go: the responder.
use corecbor.Prelude.{
  ℕ, Bool, true, false, not, List, [], ◌∷◌, Option, none, some, ◌==◌, if◌then◌else◌,
}
use corecbor.Cbor.Value.{bytes}
use corecbor.Edhoc.Result.{
  Result, ok, fail, state_violation, unsupported_suite, message_format, library, Step, after,
  from_option, ◌>>=◌,
}
use corecbor.Edhoc.Message.{
  CipherSuite, Message1, decode_message1, encode_message2, decode_message3, encode_value,
}
use corecbor.Edhoc.Crypto.{Crypto}
use corecbor.Edhoc.KeySchedule.{
  SuiteParams, get_suite_params, is_suite_supported, extract_prk2e, compute_th2, compute_th3,
  compute_th4,
}
use corecbor.Edhoc.Sealing.{
  Config, CwtKey, encrypt_message, decrypt_message, verify_peer, set_up, seal_with,
}
use corecbor.Edhoc.Initiator.{labels_2, labels_3, labels_4, not_nil, choose_id, has_keys, agree}

pub data ResponderState : Type 0 where
  init sent_msg2 complete : ResponderState

-- The parameters before a suite is chosen.
abbrev pub zero_params : SuiteParams
zero_params = record {
  aead_key_size = 0;
  aead_tag_size = 0;
  aead_nonce_len = 0;
  hash_size = 0;
  dh_curve = none;
}

unfoldable pub all_supported : List CipherSuite → Bool
unfolding is_suite_supported
all_supported [] = true
all_supported (s ∷ ss) =
    let rest = all_supported ss in if not (is_suite_supported s) then false else rest

unfoldable pub is_member : CipherSuite → List CipherSuite → Bool
is_member s [] = false
is_member s (r ∷ rs) = let rest = is_member s rs in if s == r then true else rest

-- negotiateSuite, on the suites of the responder and those that are proposed.
unfoldable pub negotiate_suite : List CipherSuite → List CipherSuite → Option CipherSuite
unfolding is_member
negotiate_suite own [] = none
negotiate_suite own (p ∷ ps) =
    let rest = negotiate_suite own ps in if is_member p own then some p else rest

module _ (c : Crypto) where
  pub record Responder : Type 0 where
    pub cfg : Config c
    pub suite : CipherSuite
    pub sp : SuiteParams
    pub state : ResponderState
    pub eph_priv : Option c.Private
    pub eph_pub : Option c.Public
    pub connection_id : List ℕ
    pub peer_conn_id : List ℕ
    pub message1_raw : List ℕ
    pub th2 : List ℕ
    pub th3 : List ℕ
    pub th4 : List ℕ
    pub prk2e : List ℕ
    pub prk3e2m : List ℕ
    pub prk4e3m : List ℕ
    pub ciphertext2 : List ℕ

  abbrev pub fresh_responder : Config c → List ℕ → Responder
  fresh_responder cfg cid = record {
    cfg = cfg;
    suite = 0;
    sp = zero_params;
    state = init;
    eph_priv = none;
    eph_pub = none;
    connection_id = cid;
    peer_conn_id = [];
    message1_raw = [];
    th2 = [];
    th3 = [];
    th4 = [];
    prk2e = [];
    prk3e2m = [];
    prk4e3m = [];
    ciphertext2 = [];
  }

  unfoldable pub new_responder : c.Entropy → Config c → Result Responder
  unfolding choose_id has_keys all_supported
  new_responder e cfg = elim cfg.suites [
    | [] ↦ fail unsupported_suite
    | s ∷ more ↦
        if not (all_supported (s ∷ more))
        then fail unsupported_suite
        else if not (has_keys c cfg)
        then fail state_violation
        else choose_id c e cfg.connection_id >>= λ cid. ok (fresh_responder cfg cid)
  ]

  -- encryptMessage2
  unfoldable pub encrypt_message2 : c.Entropy → Responder → Result (List ℕ)
  unfolding encrypt_message
  encrypt_message2 e r = encrypt_message c e r.cfg r.sp r.prk3e2m r.prk2e r.th2 labels_2

  -- ProcessMessage1 from the choice of the suite on; `e` is what GenerateKey reads and `e'` what
  -- computeSignature does.
  unfoldable pub answer_message1 :
      c.Entropy → c.Entropy → Responder → List ℕ → Message1 → Step Responder (List ℕ)
  unfolding negotiate_suite get_suite_params extract_prk2e compute_th2 compute_th3 encrypt_message2
      encode_message2 agree
  answer_message1 e e' r msg1_raw msg1 =
      after r (from_option unsupported_suite (negotiate_suite r.cfg.suites msg1.suites)) λ suite.
        let r1 = record r { suite = suite; sp = get_suite_params suite } in
        after r1 (not_nil r1.sp.dh_curve) λ curve.
          after r1 (from_option message_format (c.new_public_key curve msg1.gx)) λ peer_eph.
            let r2 = record r1 { peer_conn_id = msg1.ci; message1_raw = msg1_raw } in
            after r2 (from_option library (c.generate_key curve e)) λ priv.
              let gy = c.public_bytes (c.public_key priv) in
              let r3 = record r2 { eph_priv = some priv; eph_pub = some (c.public_key priv) } in
              after r3 (agree c r3.eph_priv peer_eph) λ shared_secret.
                let prk = extract_prk2e c shared_secret in
                let th2 = compute_th2 c r3.message1_raw gy r3.connection_id in
                let r4 = record r3 { prk2e = prk; prk3e2m = prk; prk4e3m = prk; th2 = th2 } in
                after r4 (encrypt_message2 e' r4) λ ct2. (
                  record r4 {
                    ciphertext2 = ct2;
                    th3 = compute_th3 c r4.th2 ct2;
                    state = sent_msg2;
                  },
                  encode_message2 (record { gy = gy; cr = r4.connection_id; ciphertext = ct2 }),
                )

  -- ProcessMessage1, behind its guard.
  unfoldable pub read_message1 :
      c.Entropy → c.Entropy → Responder → List ℕ → Step Responder (List ℕ)
  unfolding decode_message1 answer_message1
  read_message1 e e' r msg1_raw = after r (decode_message1 msg1_raw) λ msg1.
      if not (msg1.method == 0)
      then (r, fail unsupported_suite)
      else answer_message1 e e' r msg1_raw msg1

  unfoldable pub process_message1 :
      c.Entropy → c.Entropy → Responder → List ℕ → Step Responder (List ℕ)
  unfolding read_message1
  process_message1 e e' r msg1_raw = elim r.state [
    | init ↦ read_message1 e e' r msg1_raw
    | _ ↦ (r, fail state_violation)
  ]

  -- ProcessMessage3, behind its guard.
  unfoldable pub read_message3 : CwtKey c → Responder → List ℕ → Step Responder Unit
  unfolding decode_message3 decrypt_message verify_peer compute_th4
  read_message3 cwt_key r msg3_raw = after r (decode_message3 msg3_raw) λ msg3.
      after r (decrypt_message c r.sp r.prk3e2m r.th3 labels_3 msg3.ciphertext) λ plaintext3.
        after r (verify_peer c cwt_key r.cfg r.sp r.prk4e3m r.th3 labels_3 plaintext3)
          λ _. (record r { th4 = compute_th4 c r.th3 msg3.ciphertext; state = complete }, ok tt)

  unfoldable pub process_message3 : CwtKey c → Responder → List ℕ → Step Responder Unit
  unfolding read_message3
  process_message3 cwt_key r msg3_raw = elim r.state [
    | sent_msg2 ↦ read_message3 cwt_key r msg3_raw
    | _ ↦ (r, fail state_violation)
  ]

  -- CreateMessage4, which changes nothing.
  unfoldable pub create_message4 : Responder → Result (List ℕ)
  unfolding set_up seal_with encode_value
  create_message4 r = elim r.state [
    | complete ↦ do
      a ← set_up c r.sp r.prk4e3m r.th4 labels_4
      ciphertext4 ← seal_with c a []
      encode_value [] (bytes ciphertext4)
    | _ ↦ fail state_violation
  ]
