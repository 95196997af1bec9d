-- ===== src/Edhoc/Initiator.antt =====
-- edhoc/initiator.go and edhoc/context.go: the initiator.
use corecbor.Prelude.{
  ℕ, ◌%◌, Bool, true, false, not, List, [], ◌∷◌, Option, none, some, if◌then◌else◌,
}
use corecbor.Edhoc.Result.{
  Result, ok, fail, panics, state_violation, unsupported_suite, message_format, authentication,
  library, Step, after, from_option, ◌>>=◌,
}
use corecbor.Edhoc.Message.{
  CipherSuite, Message1, encode_message1, decode_message2, encode_message3, decode_bstr,
}
use corecbor.Edhoc.Crypto.{Crypto}
use corecbor.Edhoc.KeySchedule.{
  SuiteParams, get_suite_params, is_suite_supported, compute_shared_secret, extract_prk2e,
  compute_th2, compute_th3, compute_th4, k_2e, iv_2e, mac_2, k_3e, iv_3e, mac_3, k_4, iv_4,
}
use corecbor.Edhoc.Sealing.{Config, CwtKey, Labels, encrypt_message, decrypt_message, verify_peer}

pub data InitiatorState : Type 0 where
  init sent_msg1 complete : InitiatorState

abbrev pub labels_2 : Labels
labels_2 = record { key = k_2e; iv = iv_2e; mac = mac_2 }

abbrev pub labels_3 : Labels
labels_3 = record { key = k_3e; iv = iv_3e; mac = mac_3 }

-- Message 4 has no MAC.
abbrev pub labels_4 : Labels
labels_4 = record { key = k_4; iv = iv_4; mac = [] }

-- A nil curve or key, called or read, panics.
abbrev pub not_nil : {A : Type 0} → Option A → Result A
not_nil (some a) = ok a
not_nil none = panics

module _ (c : Crypto) where
  -- The strings are empty and the keys nil until they are set.
  pub record Initiator : Type 0 where
    pub cfg : Config c
    pub suite : CipherSuite
    pub sp : SuiteParams
    pub state : InitiatorState
    pub eph_priv : Option c.Private
    pub eph_pub : Option c.Public
    pub connection_id : List ℕ
    pub peer_conn_id : List ℕ
    pub message1_raw : List ℕ
    pub th2 : List ℕ
    pub th3 : List ℕ
    pub th4 : List ℕ
    pub prk2e : List ℕ
    pub prk3e2m : List ℕ
    pub prk4e3m : List ℕ

  -- The identifier that is configured, or a random one below 24.
  unfoldable pub choose_id : c.Entropy → Option (List ℕ) → Result (List ℕ)
  choose_id e (some cid) = ok cid
  choose_id e none = from_option library (c.random_byte e) >>= λ b. ok ((b % 24) ∷ [])

  -- The two keys of a configuration.
  unfoldable pub has_keys : Config c → Bool
  has_keys cfg = elim cfg.private_key [
    | none ↦ false
    | some k ↦ elim cfg.peer_public [ none ↦ false | some p ↦ true ]
  ]

  abbrev pub fresh_initiator : Config c → CipherSuite → List ℕ → Initiator
  fresh_initiator cfg selected cid = record {
    cfg = cfg;
    suite = selected;
    sp = get_suite_params selected;
    state = init;
    eph_priv = none;
    eph_pub = none;
    connection_id = cid;
    peer_conn_id = [];
    message1_raw = [];
    th2 = [];
    th3 = [];
    th4 = [];
    prk2e = [];
    prk3e2m = [];
    prk4e3m = [];
  }

  unfoldable pub new_initiator : c.Entropy → Config c → Result Initiator
  unfolding choose_id has_keys is_suite_supported get_suite_params
  new_initiator e cfg = elim cfg.suites [
    | [] ↦ fail unsupported_suite
    | selected ∷ more ↦
        if not (is_suite_supported selected)
        then fail unsupported_suite
        else if not (has_keys cfg)
        then fail state_violation
        else choose_id e cfg.connection_id >>= λ cid. ok (fresh_initiator cfg selected cid)
  ]

  -- CreateMessage1, behind its guard.
  unfoldable pub make_message1 : c.Entropy → Initiator → Step Initiator (List ℕ)
  unfolding encode_message1
  make_message1 e i = after i (not_nil i.sp.dh_curve) λ curve.
      after i (from_option library (c.generate_key curve e)) λ priv.
        let i1 = record i { eph_priv = some priv; eph_pub = some (c.public_key priv) } in
        let msg : Message1 = record {
          method = 0;
          suites = i.cfg.suites;
          suites_sel = i.suite;
          gx = c.public_bytes (c.public_key priv);
          ci = i.connection_id;
        } in
        after i1 (encode_message1 msg)
          λ raw. (record i1 { message1_raw = raw; state = sent_msg1 }, ok raw)

  unfoldable pub create_message1 : c.Entropy → Initiator → Step Initiator (List ℕ)
  unfolding make_message1
  create_message1 e i = elim i.state [ init ↦ make_message1 e i | _ ↦ (i, fail state_violation) ]

  -- encryptMessage3
  unfoldable pub encrypt_message3 : c.Entropy → Initiator → Result (List ℕ)
  unfolding encrypt_message
  encrypt_message3 e i = encrypt_message c e i.cfg i.sp i.prk4e3m i.prk3e2m i.th3 labels_3

  -- The shared secret with a peer's ephemeral key.
  unfoldable pub agree : Option c.Private → c.Public → Result (List ℕ)
  agree eph_priv peer_eph = not_nil eph_priv >>= λ priv.
      from_option authentication (compute_shared_secret c priv peer_eph)

  -- ProcessMessage2, behind the check of the signature.
  unfoldable pub finish_message2 : c.Entropy → Initiator → List ℕ → Step Initiator (List ℕ)
  unfolding compute_th3 compute_th4 encrypt_message3 encode_message3
  finish_message2 e i ciphertext2 =
      let i1 = record i { th3 = compute_th3 c i.th2 ciphertext2 } in
      after i1 (encrypt_message3 e i1) λ ct3. (
        record i1 { th4 = compute_th4 c i1.th3 ct3; state = complete },
        encode_message3 (record { ciphertext = ct3 }),
      )

  -- ProcessMessage2, behind the derivation of the keys.
  unfoldable pub check_message2 :
      CwtKey c → c.Entropy → Initiator → List ℕ → Step Initiator (List ℕ)
  unfolding decrypt_message verify_peer finish_message2
  check_message2 cwt_key e i ciphertext2 =
      after i (decrypt_message c i.sp i.prk2e i.th2 labels_2 ciphertext2) λ plaintext2.
        after i (verify_peer c cwt_key i.cfg i.sp i.prk3e2m i.th2 labels_2 plaintext2)
          λ _. finish_message2 e i ciphertext2

  -- ProcessMessage2, behind its guard.
  unfoldable pub read_message2 : CwtKey c → c.Entropy → Initiator → List ℕ → Step Initiator (List ℕ)
  unfolding decode_message2 extract_prk2e compute_th2 check_message2 agree
  read_message2 cwt_key e i msg2_raw = after i (decode_message2 msg2_raw) λ msg2.
      let i1 = record i { peer_conn_id = msg2.cr } in
      after i1 (not_nil i.sp.dh_curve) λ curve.
        after i1 (from_option message_format (c.new_public_key curve msg2.gy)) λ peer_eph.
          after i1 (agree i.eph_priv peer_eph) λ shared_secret.
            let prk = extract_prk2e c shared_secret in
            let th2 = compute_th2 c i.message1_raw msg2.gy msg2.cr in
            let i2 = record i1 { prk2e = prk; prk3e2m = prk; prk4e3m = prk; th2 = th2 } in
            check_message2 cwt_key e i2 msg2.ciphertext

  unfoldable pub process_message2 :
      CwtKey c → c.Entropy → Initiator → List ℕ → Step Initiator (List ℕ)
  unfolding read_message2
  process_message2 cwt_key e i msg2_raw = elim i.state [
    | sent_msg1 ↦ read_message2 cwt_key e i msg2_raw
    | _ ↦ (i, fail state_violation)
  ]

  -- ProcessMessage4, which changes nothing.
  unfoldable pub process_message4 : Initiator → List ℕ → Result Unit
  unfolding decode_bstr decrypt_message
  process_message4 i msg4 = elim i.state [
    | complete ↦ do
      (ct, _) ← decode_bstr msg4
      _ ← decrypt_message c i.sp i.prk4e3m i.th4 labels_4 ct
      ok tt
    | _ ↦ fail state_violation
  ]
