-- ===== src/Edhoc/Handshake/Accepted.antt =====
-- edhoc/initiator.go and edhoc/responder.go: what has been checked when a party accepts a message.
use corecbor.Prelude.{
  ℕ, ◌*◌, ◌≡◌, refl, Bool, true, false, not, List, [], Option, none, some, length, take, drop, ◌==◌,
  ==_iff, if◌then◌else◌,
}
use corecbor.Cbor.Value.{Value}
use corecbor.Edhoc.Result.{
  ok, fail, panics, authentication, message_format, or_fail, >>=-ok, or_fail-ok,
}
use corecbor.Edhoc.Message.{encode_value, decode_one_value, decode_bstr}
use corecbor.Edhoc.Crypto.{Crypto}
use corecbor.Edhoc.KeySchedule.{SuiteParams, edhoc_kdf}
use corecbor.Edhoc.Signature.{
  PublicKey, ed25519_key, ecdsa_key, other_key, byte_len, from_big_endian, accept, verify_signature,
}
use corecbor.Edhoc.Sealing.{Config, CwtKey, Labels, build_sign_struct, peer_key, verify_peer}

module _ (c : Crypto) where
  -- The library has accepted a signature.
  unfoldable pub IsAccepted : Option (PublicKey c) → (message sig : List ℕ) → Type 0
  IsAccepted (some (ed25519_key k)) message sig = c.ed25519_verify k message sig ≡ true
  IsAccepted (some (ecdsa_key k)) message sig =
      (length sig ≡ 2 * byte_len c k)
      × (c.ecdsa_verify k (c.sha256 message) (from_big_endian 0 (take (byte_len c k) sig))
            (from_big_endian 0 (drop (byte_len c k) sig))
          ≡ true)
  IsAccepted (some other_key) message sig = ⊥
  IsAccepted none message sig = ⊥

  accept-true : (b : Bool) → accept c b ≡ ok tt → b ≡ true
  accept-true true e = refl
  accept-true false e = cc (e)

  verify_signature-IsAccepted :
      (key : Option (PublicKey c)) (message sig : List ℕ)
      → verify_signature c key message sig ≡ ok tt
      → IsAccepted key message sig
  unfolding verify_signature IsAccepted
  verify_signature-IsAccepted none message sig e = cc (e)
  verify_signature-IsAccepted (some (ed25519_key k)) message sig e = by (length k == 32) e
    where
      by :
          (fits : Bool)
          → (if fits then accept c (c.ed25519_verify k message sig) else panics) ≡ ok tt
          → c.ed25519_verify k message sig ≡ true
      by true g = accept-true (c.ed25519_verify k message sig) g
      by false g = cc (g)
  verify_signature-IsAccepted (some (ecdsa_key k)) message sig e = by _ refl e
    where
      verified : Bool
      verified =
          c.ecdsa_verify k (c.sha256 message) (from_big_endian 0 (take (byte_len c k) sig))
            (from_big_endian 0 (drop (byte_len c k) sig))

      by :
          (fits : Bool)
          → (length sig == 2 * byte_len c k) ≡ fits
          → (if not fits then fail authentication else accept c verified) ≡ ok tt
          → (length sig ≡ 2 * byte_len c k) × (verified ≡ true)
      by true f g = (((==_iff (length sig) (2 * byte_len c k)).0 f), accept-true verified g)
      by false f g = cc (g)
  verify_signature-IsAccepted (some other_key) message sig e = cc (e)

  -- A proof inside a message's plaintext that has been checked: a signature over the credential, the
  -- transcript and the MAC, under the key that the configuration gives.
  pub record IsProven (cwt_key : CwtKey c) (cfg : Config c) (sp : SuiteParams) (prk th : List ℕ)
      (labels : Labels) (plaintext : List ℕ) : Type 0 where
    pub id_cred : Value
    pub encoded : List ℕ
    pub mac : List ℕ
    pub signed : List ℕ
    pub sig : List ℕ
    pub rest : List ℕ
    pub tail : List ℕ
    pub key : Option (PublicKey c)
    pub reads_id : decode_one_value plaintext ≡ ok (id_cred, rest)
    pub reads_sig : decode_bstr rest ≡ ok (sig, tail)
    pub mac_of : edhoc_kdf c prk th labels.mac sp.aead_tag_size ≡ ok mac
    pub encodes : encode_value [] id_cred ≡ ok encoded
    pub signs : build_sign_struct encoded th mac ≡ ok signed
    pub key_of : peer_key c cwt_key cfg id_cred ≡ ok key
    pub accepted : IsAccepted key signed sig

  pub verify_peer-IsProven :
      (cwt_key : CwtKey c) (cfg : Config c) (sp : SuiteParams) (prk th : List ℕ) (labels : Labels)
      (p : List ℕ)
      → verify_peer c cwt_key cfg sp prk th labels p ≡ ok tt
      → IsProven cwt_key cfg sp prk th labels p
  unfolding verify_peer
  verify_peer-IsProven cwt_key cfg sp prk th labels p e =
      let ((id_cred, rest), d, e1) = >>=-ok (or_fail message_format (decode_one_value p)) _ tt e in
      let ((sig, tail), s, e2) = >>=-ok (decode_bstr rest) _ tt e1 in
      let (mac, m, e3) = >>=-ok (edhoc_kdf c prk th labels.mac sp.aead_tag_size) _ tt e2 in
      let (encoded, n, e4) = >>=-ok (encode_value [] id_cred) _ tt e3 in
      let (signed, g, e5) = >>=-ok (build_sign_struct encoded th mac) _ tt e4 in
      let (key, k, e6) = >>=-ok (peer_key c cwt_key cfg id_cred) _ tt e5 in
      record {
        id_cred = id_cred;
        encoded = encoded;
        mac = mac;
        signed = signed;
        sig = sig;
        rest = rest;
        tail = tail;
        key = key;
        reads_id = or_fail-ok message_format (decode_one_value p) (id_cred, rest) d;
        reads_sig = s;
        mac_of = m;
        encodes = n;
        signs = g;
        key_of = k;
        accepted =
            verify_signature-IsAccepted key signed sig
              (or_fail-ok authentication (verify_signature c key signed sig) tt e6);
      }
