-- ===== src/Edhoc/AesCcm/Blocks.antt =====
-- edhoc/internal/aesccm/ccm.go: the blocks, the tag and the key stream of the cipher.
use corecbor.Prelude.{
  ℕ, zero, suc, ◌+◌, ◌-◌, ◌*◌, ◌/◌, ◌%◌, ◌^◌, ◌≤◌, ◌<◌, ◌≡◌, refl, ap, ◌∙◌, subst, Bool, true,
  false, ◌||◌, not, List, [], ◌∷◌, ◌++◌, Option, none, some, ltb, ◌==◌, if◌then◌else◌, arith,
  length, length-append, take, drop, All-append, All-take, All-drop, bit_or, put_u16, put_u32,
  put_u64, IsBytes, IsByte, xor_bytes, xor_bytes-IsBytes, xor_bytes_twice, length-xor_bytes,
  same_to, same_to-below,
}
use corecbor.Cipher.{BlockCipher, NewCipher, IsBlock}
use corecbor.Edhoc.AesCcm.{
  Ccm, Created, created, refused, new, big_endian, pad_to, q, mix, cbc_blocks, cbc_plaintext,
  length_prefix, cbc_aad, first_block, compute_tag, ctr_block, key_stream, ctr, bad_key,
  invalid_tag_size, invalid_nonce_size,
}

flag_bits : same_to (λ n. bit_or (n % 8) (n / 8 * 8)) (λ n. n) 64 ≡ true
unfolding same_to
flag_bits = refl

aad_bit : same_to (λ n. bit_or n 0x40) (λ n. n + 64) 64 ≡ true
unfolding same_to
aad_bit = refl

low_flags : (a b : ℕ) → a < 8 → b < 8 → bit_or a (b * 8) ≡ a + b * 8
low_flags a b h g =
    let n = a + b * 8 in
    let low : n % 8 ≡ a = omega arith in
    let high : n / 8 ≡ b = omega arith in
    subst (λ x. bit_or x (b * 8) ≡ n) low
      (subst (λ x. bit_or (n % 8) (x * 8) ≡ n) high
        (same_to-below (λ m. bit_or (m % 8) (m / 8 * 8)) (λ m. m) 64 n flag_bits (omega arith)))

aad_flag : (n : ℕ) → n < 64 → bit_or n 0x40 ≡ n + 64
aad_flag n h = same_to-below (λ m. bit_or m 0x40) (λ m. m + 64) 64 n aad_bit h

-- What New lets through.
pub record IsCcm (c : Ccm) : Type 0 where
  pub tag_least : 4 ≤ c.tag_size
  pub tag_most : c.tag_size ≤ 16
  pub nonce_least : 7 ≤ c.nonce_len
  pub nonce_most : c.nonce_len ≤ 13

abbrev ccm_of : Ccm → Created → Ccm
ccm_of d (created c) = c
ccm_of d (refused e) = d

module _ (block : BlockCipher) (t n : ℕ) (c : Ccm) where
  tested-IsCcm :
      (bad_tag bad_nonce : Bool)
      → ltb t 4 || ltb 16 t || not (t % 2 == 0) ≡ bad_tag
      → ltb n 7 || ltb 13 n ≡ bad_nonce
      → (if bad_tag
          then refused invalid_tag_size
          else if bad_nonce
          then refused invalid_nonce_size
          else created (record { block = block; tag_size = t; nonce_len = n }))
        ≡ created c
      → IsCcm c
  tested-IsCcm true bad_nonce f g e = cc (e)
  tested-IsCcm false true f g e = cc (e)
  tested-IsCcm false false f g e =
      let made : Ccm = record { block = block; tag_size = t; nonce_len = n } in
      subst IsCcm (ap (ccm_of made) e) (record {
        tag_least = ground arith;
        tag_most = ground arith;
        nonce_least = ground arith;
        nonce_most = ground arith;
      })

pub new-IsCcm :
    (new_cipher : NewCipher) (key : List ℕ) (t n : ℕ) (c : Ccm)
    → new new_cipher key t n ≡ created c
    → IsCcm c
unfolding new
new-IsCcm new_cipher key t n c e = by (new_cipher key) refl
  where
    by : (o : Option BlockCipher) → new_cipher key ≡ o → IsCcm c
    by none f = let g : refused bad_key ≡ created c = rw (f, new) at e in cc (g)
    by (some block) f = tested-IsCcm block t n c _ _ refl refl (rw (f, new) at e)

pub big_endian-IsBytes : (k n : ℕ) → (length (big_endian k n) ≡ k) × IsBytes (big_endian k n)
unfolding big_endian
big_endian-IsBytes zero n = (refl, tt)
big_endian-IsBytes (suc k) n =
    let rest = big_endian-IsBytes k n in (ap suc rest.0, (omega arith, rest.1))

pad_to-IsBytes : (n : ℕ) (b : List ℕ) → IsBytes b → (length (pad_to n b) ≡ n) × IsBytes (pad_to n b)
unfolding pad_to
pad_to-IsBytes zero b h = (refl, tt)
pad_to-IsBytes (suc n) [] h =
    let rest = pad_to-IsBytes n [] tt in (ap suc rest.0, (omega arith, rest.1))
pad_to-IsBytes (suc n) (x ∷ b) h =
    let rest = pad_to-IsBytes n b h.1 in (ap suc rest.0, (h.0, rest.1))

length_prefix-IsBytes : (c : Ccm) (n : ℕ) → IsBytes (length_prefix c n)
unfolding length_prefix put_u16 put_u32 put_u64
length_prefix-IsBytes c n = ground arith

module _ (c : Ccm) (ccm : IsCcm c) where
  xor-IsBlock : (x y : List ℕ) → IsBlock x → IsBlock y → IsBlock (xor_bytes x y)
  xor-IsBlock x y h g =
      (length-xor_bytes x y (omega (arith, h.0, g.0)) ∙ h.0, xor_bytes-IsBytes x y h.1 g.1)

  mix-IsBlock : (mac b : List ℕ) → IsBlock mac → IsBytes b → IsBlock (mix c mac b)
  unfolding mix
  mix-IsBlock mac b h g =
      c.block.encrypt-IsBlock _ (xor-IsBlock mac (pad_to 16 b) h (pad_to-IsBytes 16 b g))

  cbc_blocks-IsBlock :
      (fuel : ℕ) (mac b : List ℕ) → IsBlock mac → IsBytes b → IsBlock (cbc_blocks c fuel mac b)
  unfolding cbc_blocks
  cbc_blocks-IsBlock zero mac b h g = h
  cbc_blocks-IsBlock (suc fuel) mac [] h g = h
  cbc_blocks-IsBlock (suc fuel) mac (x ∷ b) h g =
      cbc_blocks-IsBlock fuel _ (drop 16 (x ∷ b))
        (mix-IsBlock mac (take 16 (x ∷ b)) h (All-take IsByte 16 (x ∷ b) g))
        (All-drop IsByte 16 (x ∷ b) g)

  module _ (nonce : List ℕ) (whole : length nonce ≡ c.nonce_len) (bytes : IsBytes nonce) where
    -- A byte, the nonce and a number in the rest of a block.
    framed-IsBlock : (b n : ℕ) → IsByte b → IsBlock (b ∷ (nonce ++ big_endian (q c) n))
    framed-IsBlock b n h =
        let rest = big_endian-IsBytes (q c) n in
        (
          omega (arith, length-append nonce (big_endian (q c) n), rest.0, whole, ccm.nonce_most),
          (h, All-append IsByte nonce _ bytes rest.1),
        )

    flags-IsByte :
        (has_aad : Bool)
        → let flags = bit_or (q c - 1) ((c.tag_size - 2) / 2 * 8) in
          IsByte (if has_aad then bit_or flags 0x40 else flags)
    flags-IsByte has_aad = by has_aad
      where
        low : bit_or (q c - 1) ((c.tag_size - 2) / 2 * 8) ≡ (q c - 1) + (c.tag_size - 2) / 2 * 8
        low =
            low_flags (q c - 1) ((c.tag_size - 2) / 2) (omega (arith, ccm.nonce_least))
              (omega (arith, ccm.tag_most))

        small : (q c - 1) + (c.tag_size - 2) / 2 * 8 < 64
        small = omega (arith, ccm.nonce_least, ccm.tag_most)

        by :
            (b : Bool)
            → let flags = bit_or (q c - 1) ((c.tag_size - 2) / 2 * 8) in
              IsByte (if b then bit_or flags 0x40 else flags)
        by true = rw (low, aad_flag _ small) (omega (arith, small))
        by false = rw low (omega (arith, small))

    pub compute_tag-IsBlock :
        (p aad : List ℕ) → IsBytes p → IsBytes aad → IsBlock (compute_tag c nonce p aad)
    unfolding compute_tag cbc_aad cbc_plaintext
    compute_tag-IsBlock p aad h g = cbc_blocks-IsBlock (length p) _ p (start (ltb 0 (length aad))) h
      where
        first :
            (has_aad : Bool) → IsBlock (c.block.encrypt (first_block c nonce (length p) has_aad))
        first has_aad =
            c.block.encrypt-IsBlock (first_block c nonce (length p) has_aad)
              (unfold first_block in framed-IsBlock _ (length p) (flags-IsByte has_aad))

        start :
            (has_aad : Bool)
            → let mac = c.block.encrypt (first_block c nonce (length p) has_aad) in
              IsBlock (if has_aad then cbc_aad c mac aad else mac)
        start true =
            cbc_blocks-IsBlock (length aad) _
              (drop (16 - length (length_prefix c (length aad))) aad)
              (mix-IsBlock _ _ (first true) (
                All-append IsByte (length_prefix c (length aad))
                  (take (16 - length (length_prefix c (length aad))) aad)
                  (length_prefix-IsBytes c (length aad)) (All-take IsByte _ aad g)))
              (All-drop IsByte _ aad g)
        start false = first false

    pub ctr_block-IsBlock : (n : ℕ) → IsBlock (ctr_block c nonce n)
    unfolding ctr_block
    ctr_block-IsBlock n = c.block.encrypt-IsBlock _ (framed-IsBlock (q c - 1) n (omega arith))

    key_stream-IsBytes :
        (k i : ℕ) → (length (key_stream c nonce k i) ≡ 16 * k) × IsBytes (key_stream c nonce k i)
    unfolding key_stream
    key_stream-IsBytes zero i = (refl, tt)
    key_stream-IsBytes (suc k) i =
        let b = ctr_block-IsBlock ((i % 2 ^ 32 + 1) % 2 ^ 32) in
        let rest = key_stream-IsBytes k (i + 1) in
        (
          omega (
            arith,
            length-append (ctr_block c nonce ((i % 2 ^ 32 + 1) % 2 ^ 32))
                (key_stream c nonce k (i + 1)),
            b.0,
            rest.0,
          ),
          All-append IsByte (ctr_block c nonce ((i % 2 ^ 32 + 1) % 2 ^ 32))
              (key_stream c nonce k (i + 1)) b.1 rest.1,
        )

    enough : (src : List ℕ) → length src ≤ length (key_stream c nonce ((length src + 15) / 16) 0)
    enough src = omega (arith, (key_stream-IsBytes ((length src + 15) / 16) 0).0)

    pub ctr-IsBytes :
        (src : List ℕ)
        → IsBytes src
        → (length (ctr c nonce src) ≡ length src) × IsBytes (ctr c nonce src)
    unfolding ctr
    ctr-IsBytes src h = (
      length-xor_bytes src _ (enough src),
      xor_bytes-IsBytes src _ h (key_stream-IsBytes ((length src + 15) / 16) 0).1,
    )

    pub ctr_twice : (src : List ℕ) → IsBytes src → ctr c nonce (ctr c nonce src) ≡ src
    unfolding ctr
    ctr_twice src h =
        let same : length (xor_bytes src (key_stream c nonce ((length src + 15) / 16) 0))
            ≡ length src =
          length-xor_bytes src _ (enough src) in
        rw same
          (xor_bytes_twice src _ (enough src) h (key_stream-IsBytes ((length src + 15) / 16) 0).1)
