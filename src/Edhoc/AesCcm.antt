-- ===== src/Edhoc/AesCcm.antt =====
-- edhoc/internal/aesccm/ccm.go: the authenticated encryption AES-CCM of RFC 3610. The buffers that a
-- caller hands in do not overlap.
pub mod Blocks
pub mod Inverse
use corecbor.Prelude.{
  ℕ, zero, suc, ◌+◌, ◌-◌, ◌*◌, ◌/◌, ◌%◌, ◌^◌, Bool, true, false, ◌||◌, not, List, [], ◌∷◌, ◌++◌,
  none, some, ltb, leb, ◌==◌, if◌then◌else◌, length, take, drop, bit_or, put_u16, put_u32, put_u64,
  xor_bytes,
}
use corecbor.Cipher.{BlockCipher, NewCipher}
use corecbor.Rfc8949.Equal.{same_bytes}

pub data CcmError : Type 0 where
  invalid_tag_size invalid_nonce_size bad_key open_failed : CcmError

pub record Ccm : Type 0 where
  pub block : BlockCipher
  pub tag_size : ℕ
  pub nonce_len : ℕ

pub data Created : Type 0 where
  created : Ccm → Created
  refused : CcmError → Created

pub data Sealed : Type 0 where
  sealed : List ℕ → Sealed
  panics : Sealed

pub data Opened : Type 0 where
  opened : List ℕ → Opened
  rejected : CcmError → Opened

-- New
unfoldable pub new : NewCipher → List ℕ → ℕ → ℕ → Created
new new_cipher key tag_size nonce_len = elim (new_cipher key) [
  | none ↦ refused bad_key
  | some block ↦
      if ltb tag_size 4 || ltb 16 tag_size || not (tag_size % 2 == 0)
      then refused invalid_tag_size
      else if ltb nonce_len 7 || ltb 13 nonce_len
      then refused invalid_nonce_size
      else created (record { block = block; tag_size = tag_size; nonce_len = nonce_len })
]

-- Big-endian, in `k` bytes.
unfoldable pub big_endian : ℕ → ℕ → List ℕ
big_endian zero n = []
big_endian (suc k) n = (n / 256 ^ k % 256) ∷ big_endian k n

-- Zeros up to `n` bytes: the copy into a cleared block.
unfoldable pub pad_to : ℕ → List ℕ → List ℕ
pad_to zero b = []
pad_to (suc n) [] = 0 ∷ pad_to n []
pad_to (suc n) (x ∷ b) = x ∷ pad_to n b

module _ (c : Ccm) where
  -- The size of the length field.
  abbrev pub q : ℕ
  q = 15 - c.nonce_len

  unfoldable pub max_message_len : ℕ
  max_message_len = if leb 8 q then 2 ^ 64 - 1 else 2 ^ (8 * q) - 1

  -- `mac = E(mac ^ block)`
  unfoldable pub mix : List ℕ → List ℕ → List ℕ
  mix mac b = c.block.encrypt (xor_bytes mac (pad_to 16 b))

  -- The blocks of 16 bytes of a string; `fuel` is its length, of which each block takes a byte.
  unfoldable pub cbc_blocks : ℕ → List ℕ → List ℕ → List ℕ
  cbc_blocks zero mac b = mac
  cbc_blocks (suc fuel) mac [] = mac
  cbc_blocks (suc fuel) mac (x ∷ b) = cbc_blocks fuel (mix mac (take 16 (x ∷ b))) (drop 16 (x ∷ b))

  unfoldable pub cbc_plaintext : List ℕ → List ℕ → List ℕ
  cbc_plaintext mac b = cbc_blocks (length b) mac b

  -- The prefix that holds the length of the additional data.
  unfoldable pub length_prefix : ℕ → List ℕ
  length_prefix n =
      if ltb n (2 ^ 16 - 2 ^ 8)
      then put_u16 n
      else if ltb n (2 ^ 32)
      then 0xff ∷ 0xfe ∷ put_u32 n
      else 0xff ∷ 0xff ∷ put_u64 n

  -- The first block holds the prefix and as much of the data as fits.
  unfoldable pub cbc_aad : List ℕ → List ℕ → List ℕ
  cbc_aad mac aad =
      let prefix = length_prefix (length aad) in
      let fits = 16 - length prefix in
      cbc_blocks (length aad) (mix mac (prefix ++ take fits aad)) (drop fits aad)

  unfoldable pub first_block : List ℕ → ℕ → Bool → List ℕ
  first_block nonce n has_aad =
      let flags = bit_or (q - 1) ((c.tag_size - 2) / 2 * 8) in
      (if has_aad then bit_or flags 0x40 else flags) ∷ (nonce ++ big_endian q n)

  unfoldable pub compute_tag : List ℕ → List ℕ → List ℕ → List ℕ
  compute_tag nonce plaintext aad =
      let has_aad = ltb 0 (length aad) in
      let mac = c.block.encrypt (first_block nonce (length plaintext) has_aad) in
      cbc_plaintext (if has_aad then cbc_aad mac aad else mac) plaintext

  unfoldable pub ctr_block : List ℕ → ℕ → List ℕ
  ctr_block nonce counter = c.block.encrypt ((q - 1) ∷ (nonce ++ big_endian q counter))

  -- The blocks of the key stream from number `i` on; the counter is an uint32.
  unfoldable pub key_stream : List ℕ → ℕ → ℕ → List ℕ
  key_stream nonce zero i = []
  key_stream nonce (suc k) i =
      ctr_block nonce ((i % 2 ^ 32 + 1) % 2 ^ 32) ++ key_stream nonce k (i + 1)

  -- The last block may be cut short.
  unfoldable pub ctr : List ℕ → List ℕ → List ℕ
  ctr nonce src = xor_bytes src (key_stream nonce ((length src + 15) / 16) 0)

  -- The encrypted tag.
  unfoldable pub seal_tag : List ℕ → List ℕ → List ℕ → List ℕ
  seal_tag nonce plaintext aad =
      xor_bytes (take c.tag_size (compute_tag nonce plaintext aad)) (ctr_block nonce 0)

  unfoldable pub seal : List ℕ → List ℕ → List ℕ → List ℕ → Sealed
  seal dst nonce plaintext aad =
      if not (length nonce == c.nonce_len)
      then panics
      else if ltb max_message_len (length plaintext)
      then panics
      else sealed (dst ++ (ctr nonce plaintext ++ seal_tag nonce plaintext aad))

  -- Behind the guards of Open.
  unfoldable pub open_message : List ℕ → List ℕ → List ℕ → List ℕ → Opened
  open_message dst nonce ciphertext aad =
      let n = length ciphertext - c.tag_size in
      let plaintext = ctr nonce (take n ciphertext) in
      let tag = xor_bytes (drop n ciphertext) (ctr_block nonce 0) in
      if same_bytes tag (take c.tag_size (compute_tag nonce plaintext aad))
      then opened (dst ++ plaintext)
      else rejected open_failed

  unfoldable pub open_sealed : List ℕ → List ℕ → List ℕ → List ℕ → Opened
  open_sealed dst nonce ciphertext aad =
      if not (length nonce == c.nonce_len)
      then rejected open_failed
      else if ltb (length ciphertext) c.tag_size
      then rejected open_failed
      else if ltb max_message_len (length ciphertext - c.tag_size)
      then rejected open_failed
      else open_message dst nonce ciphertext aad
