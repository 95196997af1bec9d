-- ===== src/Rfc8949/Encode/Unchecked.antt =====
-- rfc8949/encode.go: texts that are not UTF-8 inside containers.
use corecbor.Prelude.{ℕ, ◌≡◌, refl, true, false, List, ◌++◌, length, arith}
use corecbor.Cbor.Value.{text, array, map, nil, cons, end, entry}
use corecbor.Cbor.Error.{invalid_utf8}
use corecbor.Cbor.Utf8.{valid_utf8}
use corecbor.Wire.Head.{append_head}
use corecbor.Rfc8949.Options.{EncodeOpts}
use corecbor.Rfc8949.Encode.{
  ok, err, encode, encode_items, encode_pairs, encode_text, item_in_place, key_in_place,
  val_in_place, writes_in_order,
}

single-in_order : (opts : EncodeOpts) → writes_in_order opts 1 ≡ true
unfolding writes_in_order
single-in_order opts = ground arith

-- With the check for UTF-8 in force, Encode rejects a text that is not UTF-8 at the top, but
-- writes it as the item of an array and as the key and the value of a map of one entry.
pub encode-unchecked_text :
    (opts : EncodeOpts) (dst s : List ℕ)
    → opts.allow_invalid_utf8 ≡ false
    → opts.skip_utf8_validation ≡ false
    → valid_utf8 s ≡ false
    → let plain : List ℕ → List ℕ = λ d. append_head d 0x60 (length s) ++ s in
      (encode opts dst (text s) ≡ err invalid_utf8 dst)
      × (encode opts dst (array (cons (text s) nil)) ≡ ok (plain (append_head dst 0x80 1)))
      × (encode opts dst (map (entry (text s) (text s) end))
          ≡ ok (plain (plain (append_head dst 0xa0 1))))
unfolding encode encode_items encode_pairs encode_text item_in_place key_in_place val_in_place
encode-unchecked_text opts dst s a b c =
    (rw (a, b, c, encode_text) refl, refl, rw (single-in_order opts, encode) refl)
