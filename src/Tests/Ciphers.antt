-- ===== src/Tests/Ciphers.antt =====
-- cose/internal/aeskw and edhoc/internal/aesccm at concrete inputs, with a block cipher that adds a
-- fixed block to every block.
use corecbor.Prelude.{
  ℕ, ◌+◌, ◌∙◌, ◌≡◌, refl, List, [], ◌∷◌, ◌++◌, none, some, ◌==◌, if◌then◌else◌, arith, length,
  IsBytes, xor_bytes, xor_bytes_twice, xor_bytes-IsBytes, length-xor_bytes, put_u64, put_u16,
}
use corecbor.Cipher.{BlockCipher, NewCipher, IsBlock}
use corecbor.Rfc8949.Equal.{same_bytes}
use corecbor.Cose.KeyWrap
use corecbor.Cose.KeyWrap.{
  wrap, unwrap, wrap_words, unwrap_words, wrap_rounds, unwrap_rounds, wrap_round, unwrap_round,
  words, join_words,
}
use corecbor.Cose.KeyWrap.Inverse.{unwrap-wrap, wrap-unwrap}
use corecbor.Edhoc.AesCcm.{
  Ccm, new, created, seal, sealed, open_sealed, opened, max_message_len, open_message, ctr,
  key_stream, ctr_block, big_endian, compute_tag, cbc_aad, cbc_plaintext, cbc_blocks, mix, pad_to,
  first_block, length_prefix,
}
use corecbor.Edhoc.AesCcm.Inverse.{open_sealed-seal, seal-open_sealed}

abbrev pub key_block : List ℕ
key_block = 1 ∷ 2 ∷ 3 ∷ 4 ∷ 5 ∷ 6 ∷ 7 ∷ 8 ∷ 9 ∷ 10 ∷ 11 ∷ 12 ∷ 13 ∷ 14 ∷ 15 ∷ 255 ∷ []

key_block-IsBytes : IsBytes key_block
key_block-IsBytes = ground arith

pub added-IsBlock : (b : List ℕ) → IsBlock b → IsBlock (xor_bytes b key_block)
added-IsBlock b h = (
  length-xor_bytes b key_block (omega (arith, h.0)) ∙ h.0,
  xor_bytes-IsBytes b key_block h.1 key_block-IsBytes,
)

pub added_twice : (b : List ℕ) → IsBlock b → xor_bytes (xor_bytes b key_block) key_block ≡ b
added_twice b h = xor_bytes_twice b key_block (omega (arith, h.0)) h.1 key_block-IsBytes

abbrev pub xor_cipher : BlockCipher
xor_cipher = record {
  encrypt = λ b. xor_bytes b key_block;
  decrypt = λ b. xor_bytes b key_block;
  encrypt-IsBlock = added-IsBlock;
  decrypt-IsBlock = added-IsBlock;
  decrypt-encrypt = added_twice;
  encrypt-decrypt = added_twice;
}

abbrev pub one_key : NewCipher
one_key key = if length key == 16 then some xor_cipher else none

abbrev content_key : List ℕ
content_key =
    0 ∷ 17 ∷ 34 ∷ 51 ∷ 68 ∷ 85 ∷ 102 ∷ 119 ∷ 136 ∷ 153 ∷ 170 ∷ 187 ∷ 204 ∷ 221 ∷ 238 ∷ 255 ∷ []

unwrap-wrap_example :
    (out : List ℕ) × (wrap one_key key_block content_key ≡ KeyWrap.ok out)
    × (unwrap one_key key_block out ≡ KeyWrap.ok content_key)
unwrap-wrap_example =
    unwrap-wrap one_key key_block xor_cipher content_key refl (ground arith) (omega arith)
      (omega arith)

abbrev wrapped_key : List ℕ
wrapped_key =
    166 ∷ 166 ∷ 166 ∷ 166 ∷ 166 ∷ 166 ∷ 166 ∷ 170 ∷ 0 ∷ 17 ∷ 34 ∷ 51 ∷ 68 ∷ 85 ∷ 102 ∷ 119 ∷ 136
    ∷ 153 ∷ 170 ∷ 187 ∷ 204 ∷ 221 ∷ 238 ∷ 255 ∷ []

unwrapped : unwrap one_key key_block wrapped_key ≡ KeyWrap.ok content_key
unfolding unwrap unwrap_words unwrap_rounds unwrap_round words join_words same_bytes put_u64
unwrapped = refl

wrap-unwrap_example : wrap one_key key_block content_key ≡ KeyWrap.ok wrapped_key
wrap-unwrap_example = wrap-unwrap one_key key_block wrapped_key content_key (ground arith) unwrapped

-- The parameters of EDHOC's suite 0.
abbrev suite_0 : Ccm
suite_0 = record { block = xor_cipher; tag_size = 8; nonce_len = 13 }

suite_0-created : new one_key key_block 8 13 ≡ created suite_0
unfolding new
suite_0-created = refl

abbrev a_nonce : List ℕ
a_nonce = 0 ∷ 1 ∷ 2 ∷ 3 ∷ 4 ∷ 5 ∷ 6 ∷ 7 ∷ 8 ∷ 9 ∷ 10 ∷ 11 ∷ 200 ∷ []

abbrev a_message : List ℕ
a_message = content_key ++ (9 ∷ 8 ∷ [])

open_sealed-seal_example :
    (b : List ℕ) × (seal suite_0 (7 ∷ []) a_nonce a_message (1 ∷ []) ≡ sealed ((7 ∷ []) ++ b))
    × (length b ≡ length a_message + 8)
    × ((front : List ℕ)
        → open_sealed suite_0 front a_nonce b (1 ∷ []) ≡ opened (front ++ a_message))
open_sealed-seal_example =
    open_sealed-seal one_key key_block 8 13 suite_0 suite_0-created (7 ∷ []) a_nonce a_message
      (1 ∷ []) refl (ground arith) (ground arith) (ground arith)
      (unfold max_message_len in omega arith)

abbrev sealed_message : List ℕ
sealed_message =
    0 ∷ 19 ∷ 32 ∷ 53 ∷ 66 ∷ 87 ∷ 100 ∷ 121 ∷ 134 ∷ 155 ∷ 168 ∷ 189 ∷ 202 ∷ 27 ∷ 225 ∷ 1 ∷ 9 ∷ 10
    ∷ 80 ∷ 26 ∷ 32 ∷ 55 ∷ 65 ∷ 83 ∷ 97 ∷ 127 ∷ []

unsealed : open_sealed suite_0 [] a_nonce sealed_message (1 ∷ []) ≡ opened a_message
unfolding open_sealed max_message_len open_message ctr key_stream ctr_block big_endian compute_tag
    cbc_aad cbc_plaintext cbc_blocks mix pad_to first_block length_prefix put_u16 same_bytes
unsealed = refl

seal-open_sealed_example : seal suite_0 [] a_nonce a_message (1 ∷ []) ≡ sealed sealed_message
seal-open_sealed_example =
    seal-open_sealed one_key key_block 8 13 suite_0 suite_0-created a_nonce sealed_message a_message
      (1 ∷ []) (ground arith) (ground arith) (ground arith) unsealed
