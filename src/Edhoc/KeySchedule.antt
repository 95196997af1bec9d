-- ===== src/Edhoc/KeySchedule.antt =====
-- edhoc/keyschedule.go and edhoc/ciphersuite.go: the hashes of the transcript, the keys that are
-- derived from them, and the parameters of a suite. The length of an output is not negative.
use corecbor.Prelude.{ℕ, Bool, ◌||◌, List, [], ◌∷◌, ◌++◌, Option, some, ◌==◌, if◌then◌else◌}
use corecbor.Cbor.Value.{uint, bytes, text, nil, cons}
use corecbor.Edhoc.Result.{Result, ok, library, ◌>>=◌, from_option}
use corecbor.Edhoc.Message.{CipherSuite, encode_value, encode_connection_id, encode_array}
use corecbor.Edhoc.Crypto.{Curve, x25519, p256, Crypto}

-- "K_2e", "IV_2e", "MAC_2", "K_3e", "IV_3e", "MAC_3", "K_4" and "IV_4".
abbrev pub k_2e : List ℕ
k_2e = 75 ∷ 95 ∷ 50 ∷ 101 ∷ []

abbrev pub iv_2e : List ℕ
iv_2e = 73 ∷ 86 ∷ 95 ∷ 50 ∷ 101 ∷ []

abbrev pub mac_2 : List ℕ
mac_2 = 77 ∷ 65 ∷ 67 ∷ 95 ∷ 50 ∷ []

abbrev pub k_3e : List ℕ
k_3e = 75 ∷ 95 ∷ 51 ∷ 101 ∷ []

abbrev pub iv_3e : List ℕ
iv_3e = 73 ∷ 86 ∷ 95 ∷ 51 ∷ 101 ∷ []

abbrev pub mac_3 : List ℕ
mac_3 = 77 ∷ 65 ∷ 67 ∷ 95 ∷ 51 ∷ []

abbrev pub k_4 : List ℕ
k_4 = 75 ∷ 95 ∷ 52 ∷ []

abbrev pub iv_4 : List ℕ
iv_4 = 73 ∷ 86 ∷ 95 ∷ 52 ∷ []

-- Suite0
abbrev pub suite_0 : CipherSuite
suite_0 = 0

-- Suite2
abbrev pub suite_2 : CipherSuite
suite_2 = 2

-- `none` is a nil ecdh.Curve.
pub record SuiteParams : Type 0 where
  pub aead_key_size : ℕ
  pub aead_tag_size : ℕ
  pub aead_nonce_len : ℕ
  pub hash_size : ℕ
  pub dh_curve : Option Curve

unfoldable pub get_suite_params : CipherSuite → SuiteParams
get_suite_params suite = record {
  aead_key_size = 16;
  aead_tag_size = 8;
  aead_nonce_len = 13;
  hash_size = 32;
  dh_curve = some (if suite == suite_2 then p256 else x25519);
}

unfoldable pub is_suite_supported : CipherSuite → Bool
is_suite_supported suite = (suite == suite_0) || (suite == suite_2)

-- `enc, _ := ...`
abbrev pub or_nil : Result (List ℕ) → List ℕ
or_nil (ok b) = b
or_nil _ = []

unfoldable pub encode_exporter_info : List ℕ → List ℕ → List ℕ → ℕ → Result (List ℕ)
unfolding encode_array
encode_exporter_info th4 label context length =
    encode_array
      (cons (bytes th4) (cons (text label) (cons (bytes context) (cons (uint length) nil))))

module _ (c : Crypto) where
  -- computeSharedSecret
  abbrev pub compute_shared_secret : c.Private → c.Public → Option (List ℕ)
  compute_shared_secret = c.ecdh

  unfoldable pub compute_th2 : List ℕ → List ℕ → List ℕ → List ℕ
  unfolding encode_value encode_connection_id
  compute_th2 message1_raw gy cr =
      c.sha256 (
        message1_raw
        ++ (or_nil (encode_value [] (bytes gy)) ++ or_nil (encode_connection_id [] cr)))

  unfoldable pub compute_th3 : List ℕ → List ℕ → List ℕ
  unfolding encode_value
  compute_th3 th2 ciphertext2 =
      c.sha256
        (or_nil (encode_value [] (bytes th2)) ++ or_nil (encode_value [] (bytes ciphertext2)))

  unfoldable pub compute_th4 : List ℕ → List ℕ → List ℕ
  unfolding encode_value
  compute_th4 th3 ciphertext3 =
      c.sha256
        (or_nil (encode_value [] (bytes th3)) ++ or_nil (encode_value [] (bytes ciphertext3)))

  unfoldable pub extract_prk2e : List ℕ → List ℕ
  extract_prk2e shared_secret = c.hkdf_extract shared_secret []

  unfoldable pub hkdf_expand : List ℕ → List ℕ → ℕ → Result (List ℕ)
  hkdf_expand prk info length = from_option library (c.hkdf_expand prk info length)

  unfoldable pub edhoc_kdf : List ℕ → List ℕ → List ℕ → ℕ → Result (List ℕ)
  unfolding encode_array hkdf_expand
  edhoc_kdf prk transcript_hash label length = do
    info ← encode_array (cons (bytes transcript_hash) (cons (text label) (cons (uint length) nil)))
    hkdf_expand prk info length
