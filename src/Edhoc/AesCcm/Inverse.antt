-- ===== src/Edhoc/AesCcm/Inverse.antt =====
-- edhoc/internal/aesccm/ccm.go: Seal and Open against each other.
use corecbor.Prelude.{
  ℕ, ◌+◌, ◌-◌, ◌≤◌, ◌≡◌, refl, ap, ◌∙◌, Bool, true, false, not, List, [], ◌++◌, ltb, ◌==◌,
  if◌then◌else◌, arith, length, length-append, length-take, length-drop, take, drop,
  take-append-drop, take-length_append, drop-length_append, All-take, All-drop, IsBytes, IsByte,
  xor_bytes, xor_bytes_twice, length-xor_bytes,
}
use corecbor.Cipher.{NewCipher}
use corecbor.Rfc8949.Equal.{same_bytes, same_bytes-eq, same_bytes_refl}
use corecbor.Edhoc.AesCcm.{
  Ccm, created, new, max_message_len, compute_tag, ctr_block, ctr, seal_tag, sealed, seal, Opened,
  opened, rejected, open_failed, open_message, open_sealed,
}
use corecbor.Edhoc.AesCcm.Blocks.{
  IsCcm, new-IsCcm, compute_tag-IsBlock, ctr_block-IsBlock, ctr-IsBytes, ctr_twice,
}

abbrev plaintext_of : Opened → List ℕ
plaintext_of (opened p) = p
plaintext_of (rejected e) = []

accepted :
    (s : Bool) (x p : List ℕ)
    → (if s then opened ([] ++ x) else rejected open_failed) ≡ opened p
    → (s ≡ true) × (x ≡ p)
accepted true x p e = (refl, ap plaintext_of e)
accepted false x p e = cc (e)

module _ (c : Ccm) (ccm : IsCcm c) (nonce : List ℕ) (whole : length nonce ≡ c.nonce_len)
    (bytes : IsBytes nonce) where
  -- A tag, masked and unmasked.
  tag_fits : (t : List ℕ) → length t ≡ c.tag_size → length t ≤ length (ctr_block c nonce 0)
  tag_fits t e = omega (arith, e, ccm.tag_most, (ctr_block-IsBlock c ccm nonce whole bytes 0).0)

  open_message-seal :
      (p aad : List ℕ)
      → IsBytes p
      → IsBytes aad
      → let b = ctr c nonce p ++ seal_tag c nonce p aad in
        (length b ≡ length p + c.tag_size)
        × ((dst : List ℕ) → open_message c dst nonce b aad ≡ opened (dst ++ p))
  unfolding open_message seal_tag
  open_message-seal p aad h g =
      let b = ctr c nonce p in
      let m = ctr-IsBytes c ccm nonce whole bytes p h in
      let tag = take c.tag_size (compute_tag c nonce p aad) in
      let t = compute_tag-IsBlock c ccm nonce whole bytes p aad h g in
      let size : length tag ≡ c.tag_size =
        omega (arith, length-take c.tag_size (compute_tag c nonce p aad), t.0, ccm.tag_most) in
      let masked = xor_bytes tag (ctr_block c nonce 0) in
      let size' : length masked ≡ c.tag_size =
        length-xor_bytes tag (ctr_block c nonce 0) (tag_fits tag size) ∙ size in
      let count : length (b ++ masked) ≡ length p + c.tag_size =
        omega (arith, length-append b masked, m.0, size') in
      let front : length (b ++ masked) - c.tag_size ≡ length b = omega (arith, count, m.0) in
      (
        count,
        λ dst.
            rw
              (
                front,
                take-length_append b masked,
                drop-length_append b masked,
                ctr_twice c ccm nonce whole bytes p h,
                xor_bytes_twice tag (ctr_block c nonce 0) (tag_fits tag size)
                    (All-take IsByte c.tag_size _ t.1)
                    (ctr_block-IsBlock c ccm nonce whole bytes 0).1,
                same_bytes_refl tag,
              )
              refl,
      )

  seal-open_message :
      (b p aad : List ℕ)
      → IsBytes b
      → IsBytes aad
      → c.tag_size ≤ length b
      → open_message c [] nonce b aad ≡ opened p
      → (length p ≡ length b - c.tag_size) × (ctr c nonce p ++ seal_tag c nonce p aad ≡ b)
  unfolding open_message seal_tag
  seal-open_message b p aad h g k e =
      let n = length b - c.tag_size in
      let msg = take n b in
      let tail = drop n b in
      let plain = ctr c nonce msg in
      let m = ctr-IsBytes c ccm nonce whole bytes msg (All-take IsByte n b h) in
      let size : length tail ≡ c.tag_size = omega (arith, length-drop n b, k) in
      let checked =
        accepted
          (same_bytes (xor_bytes tail (ctr_block c nonce 0))
            (take c.tag_size (compute_tag c nonce plain aad)))
          plain p e in
      let tag = same_bytes-eq _ _ checked.0 in
      (
        omega (arith, ap length checked.1, m.0, length-take n b),
        rw
            (
              ← checked.1,
              ctr_twice c ccm nonce whole bytes msg (All-take IsByte n b h),
              ← tag,
              xor_bytes_twice tail (ctr_block c nonce 0) (tag_fits tail size)
                  (All-drop IsByte n b h) (ctr_block-IsBlock c ccm nonce whole bytes 0).1,
            )
            (take-append-drop n b),
      )

-- What the guards of Open let through.
record Passed (c : Ccm) (nonce b p aad : List ℕ) : Type 0 where
  nonce_fits : length nonce ≡ c.nonce_len
  tag_fits : c.tag_size ≤ length b
  message_fits : length b - c.tag_size ≤ max_message_len c
  opens : open_message c [] nonce b aad ≡ opened p

module _ (c : Ccm) (nonce b aad : List ℕ) where
  open_sealed-open_message :
      (dst : List ℕ)
      → length nonce ≡ c.nonce_len
      → c.tag_size ≤ length b
      → length b - c.tag_size ≤ max_message_len c
      → open_sealed c dst nonce b aad ≡ open_message c dst nonce b aad
  unfolding open_sealed
  open_sealed-open_message dst w k m = ground arith

  open_sealed-Passed :
      (p : List ℕ) → open_sealed c [] nonce b aad ≡ opened p → Passed c nonce b p aad
  unfolding open_sealed
  open_sealed-Passed p e = by _ _ _ refl refl refl e
    where
      by :
          (bad short long : Bool)
          → not (length nonce == c.nonce_len) ≡ bad
          → ltb (length b) c.tag_size ≡ short
          → ltb (max_message_len c) (length b - c.tag_size) ≡ long
          → (if bad
              then rejected open_failed
              else if short
              then rejected open_failed
              else if long
              then rejected open_failed
              else open_message c [] nonce b aad)
            ≡ opened p
          → Passed c nonce b p aad
      by true short long f g h r = cc (r)
      by false true long f g h r = cc (r)
      by false false true f g h r = cc (r)
      by false false false f g h r = record {
        nonce_fits = ground arith;
        tag_fits = ground arith;
        message_fits = ground arith;
        opens = r;
      }

module _ (new_cipher : NewCipher) (key : List ℕ) (t n : ℕ) (c : Ccm)
    (made : new new_cipher key t n ≡ created c) where
  -- Open gives back what Seal made of it, on the cipher that New returns, for a nonce of its length, a
  -- message of bytes no longer than maxMessageLen and the same additional data, behind whatever either
  -- is to append to; and the sealed message is longer than the message by the size of the tag.
  pub open_sealed-seal :
      (dst nonce p aad : List ℕ)
      → length nonce ≡ c.nonce_len
      → IsBytes nonce
      → IsBytes p
      → IsBytes aad
      → length p ≤ max_message_len c
      → (b : List ℕ) × (seal c dst nonce p aad ≡ sealed (dst ++ b))
        × (length b ≡ length p + c.tag_size)
        × ((front : List ℕ) → open_sealed c front nonce b aad ≡ opened (front ++ p))
  unfolding seal
  open_sealed-seal dst nonce p aad w h g k m =
      let ccm = new-IsCcm new_cipher key t n c made in
      let r = open_message-seal c ccm nonce w h p aad g k in
      let size : length (ctr c nonce p ++ seal_tag c nonce p aad) ≡ length p + c.tag_size = r.0 in
      (
        ctr c nonce p ++ seal_tag c nonce p aad,
        ground arith,
        size,
        λ front.
            open_sealed-open_message c nonce _ aad front w (omega (arith, size))
              (omega (arith, size, m))
            ∙ r.1 front,
      )

  -- Open accepts no message but what Seal makes of its result, with the same nonce and additional data,
  -- on the cipher that New returns.
  pub seal-open_sealed :
      (nonce b p aad : List ℕ)
      → IsBytes nonce
      → IsBytes b
      → IsBytes aad
      → open_sealed c [] nonce b aad ≡ opened p
      → seal c [] nonce p aad ≡ sealed b
  unfolding seal
  seal-open_sealed nonce b p aad h g k e =
      let ccm = new-IsCcm new_cipher key t n c made in
      let q = open_sealed-Passed c nonce b aad p e in
      let r = seal-open_message c ccm nonce q.nonce_fits h b p aad g k q.tag_fits q.opens in
      let fits : length p ≤ max_message_len c = omega (arith, r.0, q.message_fits) in
      let w = q.nonce_fits in rw r.1 (ground arith)
