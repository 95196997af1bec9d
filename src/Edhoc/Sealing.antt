-- ===== src/Edhoc/Sealing.antt =====
-- edhoc/initiator.go, edhoc/responder.go and edhoc/credential.go: the configuration of a party, and
-- how a party proves who it is inside a message and checks the other's proof. The two files have the
-- same code for messages 2 and 3 with other labels, keys and transcripts, which are arguments here.
pub mod Derived
pub mod Honest
use corecbor.Prelude.{
  ℕ, ◌≡◌, Bool, true, false, ◌&&◌, List, [], ◌∷◌, ◌++◌, Option, none, some, if◌then◌else◌,
}
use corecbor.Cbor.Value.{Value, uint, bytes, text, map, nil, cons, end, entry}
use corecbor.Edhoc.AesCcm
use corecbor.Edhoc.AesCcm.{
  Ccm, Created, created, refused, Sealed, sealed, Opened, opened, rejected, new, seal, open_sealed,
}
use corecbor.Edhoc.Result.{
  Result, ok, fail, panics, out_of_fuel, authentication, message_format, cipher, ◌>>=◌, or_fail,
}
use corecbor.Edhoc.Message.{
  CipherSuite, encode_value, encode_array, decode_one_value, decode_bstr, bytes_or_fail,
}
use corecbor.Edhoc.Crypto.{Crypto}
use corecbor.Edhoc.KeySchedule.{SuiteParams, edhoc_kdf}
use corecbor.Edhoc.Signature.{
  PublicKey, Signer, public_of, marshal_public_key_raw, compute_signature, verify_signature,
}

pub data CredentialType : Type 0 where
  rpk cwt : CredentialType

pub record Credential : Type 0 where
  pub type : CredentialType
  pub cwt_bytes : List ℕ

-- "Signature1"
abbrev pub signature_1 : List ℕ
signature_1 = 83 ∷ 105 ∷ 103 ∷ 110 ∷ 97 ∷ 116 ∷ 117 ∷ 114 ∷ 101 ∷ 49 ∷ []

-- buildSignStruct, of the context "Signature1".
unfoldable pub build_sign_struct : List ℕ → List ℕ → List ℕ → Result (List ℕ)
unfolding encode_array
build_sign_struct id_cred th mac =
    encode_array
      (cons (text signature_1) (cons (bytes id_cred) (cons (bytes th) (cons (bytes mac) nil))))

-- encodeIDCredCWT
unfoldable pub encode_id_cred_cwt : List ℕ → Result (List ℕ)
unfolding encode_value
encode_id_cred_cwt cwt_bytes = encode_value [] (bytes cwt_bytes)

-- encodeIDCred
unfoldable pub encode_id_cred : List ℕ → Result (List ℕ)
unfolding encode_value
encode_id_cred pub_bytes = encode_value [] (map (entry (uint 4) (bytes pub_bytes) end))

-- The bytes of a credential that is a CWT.
abbrev pub cwt_of : Option Credential → Option (List ℕ)
cwt_of none = none
cwt_of (some r) = elim r.type [ rpk ↦ none | cwt ↦ some r.cwt_bytes ]

abbrev pub from_created : Created → Result Ccm
from_created (created c) = ok c
from_created (refused e) = fail (cipher e)

abbrev pub from_sealed : Sealed → Result (List ℕ)
from_sealed (sealed b) = ok b
from_sealed AesCcm.panics = panics

abbrev pub from_opened : Opened → Result (List ℕ)
from_opened (opened p) = ok p
from_opened (rejected e) = fail (cipher e)

-- A cipher with the nonce and the additional data of a message.
pub record Aead : Type 0 where
  pub ccm : Ccm
  pub nonce : List ℕ
  pub aad : List ℕ

-- The labels of a message's key, nonce and MAC.
pub record Labels : Type 0 where
  pub key : List ℕ
  pub iv : List ℕ
  pub mac : List ℕ

module _ (c : Crypto) where
  -- The fields of InitiatorConfig and of ResponderConfig; `none` is nil.
  pub record Config : Type 0 where
    pub suites : List CipherSuite
    pub private_key : Option (Signer c)
    pub peer_public : Option (PublicKey c)
    pub connection_id : Option (List ℕ)
    pub credential : Option Credential
    pub peer_credential : Option Credential
    pub cwt_issuer_key : Option (PublicKey c)

  -- extractPublicKeyFromCWT: the key that a CWT confirms, if the issuer's key verifies it.
  abbrev pub CwtKey : Type 0
  CwtKey = List ℕ → Option (PublicKey c) → Result (PublicKey c)

  -- encodeIDCredFromSigner: a nil signer panics.
  unfoldable pub encode_id_cred_from_signer : Option (Signer c) → Result (List ℕ)
  unfolding encode_id_cred marshal_public_key_raw
  encode_id_cred_from_signer none = panics
  encode_id_cred_from_signer (some signer) =
      marshal_public_key_raw c (public_of c signer) >>= λ pub_bytes. encode_id_cred pub_bytes

  unfoldable pub id_cred_of : Config → Result (List ℕ)
  unfolding encode_id_cred_cwt encode_id_cred_from_signer
  id_cred_of cfg = elim (cwt_of cfg.credential) [
    | some b ↦ encode_id_cred_cwt b
    | none ↦ encode_id_cred_from_signer cfg.private_key
  ]

  unfoldable pub set_up : SuiteParams → List ℕ → List ℕ → Labels → Result Aead
  unfolding edhoc_kdf new encode_array
  set_up sp prk th labels = do
    k ← edhoc_kdf c prk th labels.key sp.aead_key_size
    iv ← edhoc_kdf c prk th labels.iv sp.aead_nonce_len
    ccm ← from_created (new c.new_cipher k sp.aead_tag_size sp.aead_nonce_len)
    aad ← encode_array (cons (bytes th) nil)
    ok (record { ccm = ccm; nonce = iv; aad = aad })

  -- Seal and Open of what is set up.
  unfoldable pub seal_with : Aead → List ℕ → Result (List ℕ)
  unfolding seal
  seal_with a plaintext = from_sealed (seal a.ccm [] a.nonce plaintext a.aad)

  unfoldable pub open_with : Aead → List ℕ → Result (List ℕ)
  unfolding open_sealed
  open_with a ciphertext =
      or_fail authentication (from_opened (open_sealed a.ccm [] a.nonce ciphertext a.aad))

  -- encryptMessage2 and encryptMessage3: `prk_mac` is the key of the MAC, `prk` the one of the cipher.
  unfoldable pub encrypt_message :
      c.Entropy → Config → SuiteParams → (prk_mac prk th : List ℕ) → Labels → Result (List ℕ)
  unfolding id_cred_of edhoc_kdf build_sign_struct compute_signature encode_value set_up seal_with
  encrypt_message e cfg sp prk_mac prk th labels = do
    id_cred ← id_cred_of cfg
    mac ← edhoc_kdf c prk_mac th labels.mac sp.aead_tag_size
    signed_data ← build_sign_struct id_cred th mac
    signature ← compute_signature c e cfg.private_key signed_data
    sig_enc ← encode_value [] (bytes signature)
    a ← set_up sp prk th labels
    seal_with a (id_cred ++ sig_enc)

  -- decryptMessage2, and the same steps of ProcessMessage3 and ProcessMessage4.
  unfoldable pub decrypt_message :
      SuiteParams → (prk th : List ℕ) → Labels → List ℕ → Result (List ℕ)
  unfolding set_up open_with
  decrypt_message sp prk th labels ciphertext = do
    a ← set_up sp prk th labels
    open_with a ciphertext

  abbrev pub or_key : Option (PublicKey c) → Option (PublicKey c) → Option (PublicKey c)
  or_key (some k) d = some k
  or_key none d = d

  -- The key that the other party's signature is checked with.
  unfoldable pub peer_key : CwtKey → Config → Value → Result (Option (PublicKey c))
  peer_key cwt_key cfg id_cred = elim (cwt_of cfg.peer_credential) [
    | none ↦ ok cfg.peer_public
    | some _ ↦ do
      b ← bytes_or_fail id_cred
      k ← cwt_key b (or_key cfg.cwt_issuer_key cfg.peer_public)
      ok (some k)
  ]

  -- verifyResponderSignature and verifyInitiatorSignature
  unfoldable pub verify_peer :
      CwtKey → Config → SuiteParams → (prk_mac th : List ℕ) → Labels → List ℕ → Result Unit
  unfolding decode_one_value decode_bstr edhoc_kdf encode_value build_sign_struct peer_key
      verify_signature
  verify_peer cwt_key cfg sp prk_mac th labels plaintext = do
    (id_cred, rest) ← or_fail message_format (decode_one_value plaintext)
    (sig, _) ← decode_bstr rest
    mac ← edhoc_kdf c prk_mac th labels.mac sp.aead_tag_size
    id_cred_enc ← encode_value [] id_cred
    signed_data ← build_sign_struct id_cred_enc th mac
    key ← peer_key cwt_key cfg id_cred
    or_fail authentication (verify_signature c key signed_data sig)
