-- ===== src/Edhoc/Sealing/Honest.antt =====
-- edhoc/initiator.go and edhoc/responder.go: what one party seals into message 2 or 3, the other one
-- opens and accepts.
use corecbor.Prelude.{
  ℕ, ◌+◌, ◌≤◌, ◌≡◌, refl, sym, ap, ◌∙◌, List, [], ◌++◌, length, length-append, All-append, IsBytes,
  IsByte, arith, put_u16, put_u32, put_u64, none, some, append-nil,
}
use corecbor.Cbor.Value.{Value, uint, bytes, text, map, end, entry, nil, cons, array}
use corecbor.Wire.Head.{head_bytes}
use corecbor.Rfc8949.Serial.{serialize}
use corecbor.Edhoc.AesCcm.Inverse.{open_sealed-seal}
use corecbor.Edhoc.Result.{ok}
use corecbor.Edhoc.Message.{decode_bstr}
use corecbor.Edhoc.Message.Values.{
  Carried, AreLeaves, most_bytes, bytes-Carried, entry-Carried, decode_one_value-Carried,
}
use corecbor.Edhoc.Message.RoundTrip.{decode_bstr-serialize}
use corecbor.Edhoc.Crypto.{Crypto, IsCrypto}
use corecbor.Edhoc.KeySchedule.{get_suite_params, edhoc_kdf}
use corecbor.Edhoc.Signature.{Signer, public_of, compute_signature, verify_signature}
use corecbor.Edhoc.Signature.Verified.{IsSigner, Signs, signer-Signs}
use corecbor.Edhoc.Sealing.{
  Aead, Labels, Config, CwtKey, or_key, cwt_of, encode_id_cred_cwt, id_cred_of,
  encode_id_cred_from_signer, encode_id_cred, peer_key, build_sign_struct, signature_1, set_up,
  seal_with, open_with, encrypt_message, decrypt_message, verify_peer,
}
use corecbor.Edhoc.Sealing.Derived.{
  IsReady, set_up-IsReady, edhoc_kdf-size, encode_array-serialize, bytes-IsBytes,
}

-- What stands in a message for a raw public key.
abbrev pub id_value : List ℕ → Value
id_value raw = map (entry (uint 4) (bytes raw) end)

id_value-IsBytes : (raw : List ℕ) → IsBytes raw → IsBytes (serialize (id_value raw))
unfolding serialize head_bytes
id_value-IsBytes raw h = (
  omega arith,
  (omega arith, All-append IsByte (serialize (bytes raw)) [] (bytes-IsBytes raw h) tt),
)

head_most : (n : ℕ) → length (head_bytes 0x40 n) ≤ 9
unfolding head_bytes put_u16 put_u32 put_u64
head_most n = ground arith

bytes_most : (b : List ℕ) → length (serialize (bytes b)) ≤ 9 + length b
unfolding serialize
bytes_most b = omega (arith, head_most (length b), length-append (head_bytes 0x40 (length b)) b)

id_value_most : (raw : List ℕ) → length (serialize (id_value raw)) ≤ 11 + length raw
unfolding serialize head_bytes
id_value_most raw = omega (arith, bytes_most raw, length-append (serialize (bytes raw)) [])

module _ (c : Crypto) (cwt_key : CwtKey c) where
  -- How one party, `own`, names its key to the other: as a raw public key that the other is configured
  -- with, or by a CWT from which the other gets that key.
  pub data IsKnown (own other : Config c) (signer : Signer c) : Type 0 where
    by_raw_key :
        cwt_of own.credential ≡ none
        → cwt_of other.peer_credential ≡ none
        → other.peer_public ≡ some (public_of c signer)
        → IsKnown own other signer
    by_cwt :
        (b any : List ℕ)
        → cwt_of own.credential ≡ some b
        → cwt_of other.peer_credential ≡ some any
        → IsBytes b
        → length b ≤ 65000
        → cwt_key b (or_key c other.cwt_issuer_key other.peer_public) ≡ ok (public_of c signer)
        → IsKnown own other signer

  -- A party that proves itself with a key that the other one knows.
  pub record IsPeer (e : c.Entropy) (own other : Config c) : Type 0 where
    pub signer : Signer c
    pub signs : IsSigner c e signer
    pub private_key : own.private_key ≡ some signer
    pub known : IsKnown own other signer

module _ (c : Crypto) (laws : IsCrypto c) where
  pub open_with-seal_with :
      (prk th : List ℕ) (labels : Labels) (suite : ℕ) (a : Aead) (p : List ℕ)
      → IsReady c laws prk th labels (get_suite_params suite) a
      → IsBytes p
      → length p ≤ 65535
      → (ct : List ℕ) × (seal_with c a p ≡ ok ct)
        × (open_with c a ct ≡ ok p)
        × (length ct ≡ length p + 8)
  unfolding seal_with open_with
  open_with-seal_with prk th labels suite a p ready h k =
      let r =
        open_sealed-seal c.new_cipher ready.key 8 13 a.ccm ready.cipher [] a.nonce p a.aad
          (ready.nonce_fits ∙ sym ready.nonce_len) ready.nonce_bytes h ready.aad_bytes
          (omega (arith, k, ready.room)) in
      (r.0, rw r.1 refl, rw (r.3 []) refl, omega (arith, r.2, ready.tag))

  module _ (cwt_key : CwtKey c) (e : c.Entropy) (own other : Config c)
      (peer : IsPeer c cwt_key e own other) where
    -- The credential of a party as it stands in its message.
    record IsNamed (id : Value) : Type 0 where
      carried : Carried id
      id_bytes : IsBytes (serialize id)
      id_fits : length (serialize id) ≤ 65100
      named : id_cred_of c own ≡ ok (serialize id)
      found : peer_key c cwt_key other id ≡ ok (some (public_of c peer.signer))

    raw_key-IsNamed :
        (q : Signs c e peer.signer)
        → cwt_of own.credential ≡ none
        → cwt_of other.peer_credential ≡ none
        → other.peer_public ≡ some (public_of c peer.signer)
        → IsNamed (id_value q.raw)
    unfolding id_cred_of encode_id_cred_from_signer encode_id_cred peer_key
    raw_key-IsNamed q none_own none_other p =
        let carried = entry-Carried 4 q.raw (omega arith) (omega (arith, q.raw_fits)) in
        record {
          carried = carried;
          id_bytes = id_value-IsBytes q.raw q.raw_bytes;
          id_fits = omega (arith, id_value_most q.raw, q.raw_fits);
          named = rw (id_cred_of, none_own, peer.private_key, q.marshals) (carried.writes []);
          found = rw (peer_key, none_other, p) refl;
        }

    cwt-IsNamed :
        (b any : List ℕ)
        → cwt_of own.credential ≡ some b
        → cwt_of other.peer_credential ≡ some any
        → IsBytes b
        → length b ≤ 65000
        → cwt_key b (or_key c other.cwt_issuer_key other.peer_public) ≡ ok (public_of c peer.signer)
        → IsNamed (bytes b)
    unfolding id_cred_of encode_id_cred_cwt peer_key
    cwt-IsNamed b any own_cwt other_cwt h k f =
        let carried = bytes-Carried b (omega (arith, k)) in
        record {
          carried = carried;
          id_bytes = bytes-IsBytes b h;
          id_fits = omega (arith, bytes_most b, k);
          named = rw (id_cred_of, own_cwt) (carried.writes []);
          found = rw (peer_key, other_cwt, f) refl;
        }

    peer-IsNamed : Signs c e peer.signer → (id : Value) × IsNamed id
    peer-IsNamed q = elim peer.known [
      | by_raw_key a b p ↦ (id_value q.raw, raw_key-IsNamed q a b p)
      | by_cwt b any a d h k f ↦ (bytes b, cwt-IsNamed b any a d h k f)
    ]

    -- What a party signs, and its signature over that.
    record IsProof (prk_mac th : List ℕ) (labels : Labels) (id : Value) (sig : List ℕ)
        : Type 0 where
      mac : List ℕ
      message : List ℕ
      mac_of : edhoc_kdf c prk_mac th labels.mac 8 ≡ ok mac
      signed : build_sign_struct (serialize id) th mac ≡ ok message
      made : compute_signature c e own.private_key message ≡ ok sig
      accepted : verify_signature c (some (public_of c peer.signer)) message sig ≡ ok tt
      sig_fits : length sig ≤ 200
      sig_bytes : IsBytes sig

    peer-IsProof :
        (prk_mac th : List ℕ) (labels : Labels) (id : Value) (q : Signs c e peer.signer)
        → (sig : List ℕ) × IsProof prk_mac th labels id sig
    unfolding build_sign_struct
    peer-IsProof prk_mac th labels id q =
        let mac = edhoc_kdf-size c laws prk_mac th labels.mac 8 (omega arith) in
        let xs =
          cons (text signature_1)
            (cons (bytes (serialize id)) (cons (bytes th) (cons (bytes mac.0) nil))) in
        let s = q.sign (serialize (array xs)) in
        (
          s.0,
          record {
            mac = mac.0;
            message = serialize (array xs);
            mac_of = mac.1;
            signed = encode_array-serialize xs (unfold AreLeaves in tt);
            made = rw peer.private_key s.1;
            accepted = s.4;
            sig_fits = s.2;
            sig_bytes = s.3;
          },
        )

    verify_peer-IsProof :
        (suite : ℕ) (prk_mac th : List ℕ) (labels : Labels) (id : Value) (sig : List ℕ)
        → IsNamed id
        → IsProof prk_mac th labels id sig
        → verify_peer c cwt_key other
            (get_suite_params suite)
            prk_mac
            th
            labels
            (serialize id ++ serialize (bytes sig))
          ≡ ok tt
    unfolding verify_peer get_suite_params
    verify_peer-IsProof suite prk_mac th labels id sig n p =
        let tail : decode_bstr (serialize (bytes sig)) ≡ ok (sig, []) =
          ap decode_bstr (sym (append-nil (serialize (bytes sig))))
          ∙ decode_bstr-serialize sig [] (omega (arith, p.sig_fits)) in
        rw
          (
            decode_one_value-Carried id (serialize (bytes sig)) n.carried,
            tail,
            p.mac_of,
            n.carried.writes [],
            p.signed,
            n.found,
            p.accepted,
          )
          refl

    encrypt_message-IsProof :
        (suite : ℕ) (prk_mac prk th : List ℕ) (labels : Labels) (id : Value) (sig : List ℕ)
        (a : Aead)
        → IsNamed id
        → IsProof prk_mac th labels id sig
        → set_up c (get_suite_params suite) prk th labels ≡ ok a
        → encrypt_message c e own (get_suite_params suite) prk_mac prk th labels
          ≡ seal_with c a (serialize id ++ serialize (bytes sig))
    unfolding encrypt_message get_suite_params
    encrypt_message-IsProof suite prk_mac prk th labels id sig a n p s =
        rw
          (
            n.named,
            p.mac_of,
            p.signed,
            p.made,
            (bytes-Carried sig (omega (arith, p.sig_fits))).writes [],
            s,
          )
          refl

    -- The party's message is sealed; opened with the same keys, it holds a proof that the other accepts.
    pub encrypt_message-verified :
        (suite : ℕ) (prk_mac prk th : List ℕ) (labels : Labels)
        → IsBytes th
        → (ct p : List ℕ) × (encrypt_message c e own (get_suite_params suite) prk_mac prk th labels
            ≡ ok ct)
          × (decrypt_message c (get_suite_params suite) prk th labels ct ≡ ok p)
          × (verify_peer c cwt_key other (get_suite_params suite) prk_mac th labels p ≡ ok tt)
          × (length ct ≤ most_bytes)
    unfolding decrypt_message
    encrypt_message-verified suite prk_mac prk th labels h =
        let q = signer-Signs c laws e peer.signer peer.signs in
        let (id, n) = peer-IsNamed q in
        let (sig, p) = peer-IsProof prk_mac th labels id q in
        let (a, ready) = set_up-IsReady c laws prk th labels suite h in
        let front = serialize id in
        let enc = serialize (bytes sig) in
        let count : length (front ++ enc) ≤ 65500 =
          omega (arith, length-append front enc, n.id_fits, bytes_most sig, p.sig_fits) in
        let s =
          open_with-seal_with prk th labels suite a (front ++ enc) ready
            (All-append IsByte front enc n.id_bytes (bytes-IsBytes sig p.sig_bytes))
            (omega (arith, count)) in
        (
          s.0,
          front ++ enc,
          encrypt_message-IsProof suite prk_mac prk th labels id sig a n p ready.made ∙ s.1,
          rw ready.made s.2,
          verify_peer-IsProof suite prk_mac th labels id sig n p,
          omega (arith, s.3, count),
        )
