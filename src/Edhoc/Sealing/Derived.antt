-- ===== src/Edhoc/Sealing/Derived.antt =====
-- edhoc/keyschedule.go: the derivations give strings of the lengths that they are asked for.
use corecbor.Prelude.{
  ℕ, ◌+◌, ◌*◌, ◌≤◌, ◌<◌, ◌≡◌, refl, true, List, [], length, All-append, IsBytes, IsByte, arith,
  some, same_to, same_to-below, bit_or, ◌%◌, Bool-cases, inl, inr, ltb, put_u16, put_u32, put_u64,
}
use corecbor.Cbor.Value.{Items, uint, bytes, text, array, nil, cons}
use corecbor.Cipher.{BlockCipher}
use corecbor.Wire.Head.{head_bytes}
use corecbor.Rfc8949.Serial.{serialize}
use corecbor.Edhoc.AesCcm.{Ccm, new, created, max_message_len}
use corecbor.Edhoc.Result.{ok}
use corecbor.Edhoc.Message.{encode_array}
use corecbor.Edhoc.Message.Values.{encode_value-array, AreLeaves}
use corecbor.Edhoc.Crypto.{Crypto, IsCrypto}
use corecbor.Edhoc.KeySchedule.{SuiteParams, edhoc_kdf, hkdf_expand, get_suite_params}
use corecbor.Edhoc.Sealing.{Aead, Labels, set_up}

pub encode_array-serialize :
    (xs : Items) → AreLeaves xs → encode_array xs ≡ ok (serialize (array xs))
unfolding encode_array
encode_array-serialize xs h = encode_value-array [] xs h

byte_head : same_to (λ n. bit_or 0x40 n) (λ n. 0x40 + n) 32 ≡ true
unfolding same_to
byte_head = refl

bytes_head-IsBytes : (n : ℕ) → IsBytes (head_bytes 0x40 n)
unfolding head_bytes put_u16 put_u32 put_u64
bytes_head-IsBytes n = elim (Bool-cases (ltb n 24)) [
  | inl e ↦
      let small : n < 32 = ground arith in
      let eq : n % 256 ≡ n = omega (arith, small) in
      let f = same_to-below (λ m. bit_or 0x40 m) (λ m. 0x40 + m) 32 n byte_head small in
      rw (e, eq, f) (omega (arith, small), tt)
  | inr e ↦ rw e (ground arith)
]

-- The encoding of a string of bytes consists of bytes.
pub bytes-IsBytes : (b : List ℕ) → IsBytes b → IsBytes (serialize (bytes b))
unfolding serialize
bytes-IsBytes b h = All-append IsByte _ _ (bytes_head-IsBytes (length b)) h

module _ (c : Crypto) (laws : IsCrypto c) where
  pub edhoc_kdf-size :
      (prk th label : List ℕ) (n : ℕ)
      → n ≤ 255 * 32
      → (out : List ℕ) × (edhoc_kdf c prk th label n ≡ ok out) × (length out ≡ n) × IsBytes out
  unfolding edhoc_kdf hkdf_expand
  edhoc_kdf-size prk th label n h =
      let xs = cons (bytes th) (cons (text label) (cons (uint n) nil)) in
      let r = laws.hkdf_expand-size prk (serialize (array xs)) n h in
      (r.0, rw (encode_array-serialize xs (unfold AreLeaves in tt), r.1) refl, r.2, r.3)

  suite_ccm :
      (key : List ℕ) (b : BlockCipher)
      → c.new_cipher key ≡ some b
      → new c.new_cipher key 8 13 ≡ created (record { block = b; tag_size = 8; nonce_len = 13 })
  unfolding new
  suite_ccm key b e = rw (new, e) refl

  -- What a cipher that is set up for a suite has.
  pub record IsReady (prk th : List ℕ) (labels : Labels) (sp : SuiteParams) (a : Aead)
      : Type 0 where
    pub made : set_up c sp prk th labels ≡ ok a
    pub key : List ℕ
    pub cipher : new c.new_cipher key 8 13 ≡ created a.ccm
    pub tag : a.ccm.tag_size ≡ 8
    pub nonce_len : a.ccm.nonce_len ≡ 13
    pub nonce_fits : length a.nonce ≡ 13
    pub nonce_bytes : IsBytes a.nonce
    pub room : max_message_len a.ccm ≡ 65535
    pub aad_bytes : IsBytes a.aad

  pub set_up-IsReady :
      (prk th : List ℕ) (labels : Labels) (suite : ℕ)
      → IsBytes th
      → (a : Aead) × IsReady prk th labels (get_suite_params suite) a
  set_up-IsReady prk th labels suite h =
      let k = edhoc_kdf-size prk th labels.key 16 (omega arith) in
      let iv = edhoc_kdf-size prk th labels.iv 13 (omega arith) in
      let b = laws.new_cipher-size k.0 k.2 in
      let ccm : Ccm = record { block = b.0; tag_size = 8; nonce_len = 13 } in
      let made : new c.new_cipher k.0 8 13 ≡ created ccm = suite_ccm k.0 b.0 b.1 in
      let aad = serialize (array (cons (bytes th) nil)) in
      let a : Aead = record { ccm = ccm; nonce = iv.0; aad = aad } in
      (
        a,
        record {
          made =
              unfold set_up get_suite_params in
              rw
                (
                  k.1,
                  iv.1,
                  made,
                  encode_array-serialize (cons (bytes th) nil) (unfold AreLeaves in tt),
                )
                refl;
          key = k.0;
          cipher = made;
          tag = refl;
          nonce_len = refl;
          nonce_fits = iv.2;
          nonce_bytes = iv.3;
          room = unfold max_message_len in refl;
          aad_bytes =
              unfold serialize head_bytes in
              (omega arith, All-append IsByte _ _ (bytes-IsBytes th h) tt);
        },
      )
