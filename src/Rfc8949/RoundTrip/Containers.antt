-- ===== src/Rfc8949/RoundTrip/Containers.antt =====
-- One round of decodeValue on the encoding of an array, a map or a tag, from what the loop or the
-- call inside it gives.
use corecbor.Prelude.{
  ℕ, zero, suc, ◌+◌, ◌≤◌, ◌≡◌, refl, Bool, false, ◌&&◌, not, List, [], ◌∷◌, ◌++◌, get_elem?, none,
  some, IsU64, arith, ◌==◌, append_assoc,
}
use corecbor.Cbor.Value.{
  Value, Items, Pairs, MapEntry, array, map, make_tag, make_map, entries, count_items, count_pairs,
  make_map-entries,
}
use corecbor.Wire.Head.{head_bytes}
use corecbor.Wire.Head.RoundTrip.{head_of}
use corecbor.Rfc8949.Options.{DecodeOpts, max_array, max_nesting}
use corecbor.Rfc8949.State.{ok, bind}
use corecbor.Rfc8949.Insert.{
  Dedup, key_matches, find_linear, find_seen, fnv1a, map_insert, remember,
}
use corecbor.Rfc8949.Arrays.{Decoder, decode_array, array_items}
use corecbor.Rfc8949.Maps.{decode_map, map_entries, new_dedup}
use corecbor.Rfc8949.Decode.{decode_step, dispatch, decode_tag, is_known_tag}
use corecbor.Rfc8949.Serial.{serialize, serialize_items, serialize_pairs}
use corecbor.Rfc8949.Valid.{Within, Passes, Fresh}
use corecbor.Rfc8949.RoundTrip.Heads.{at, decode_step-head, drop-head}

module _ (dec : Decoder) (opts : DecodeOpts) (depth : ℕ) where
  decode_array-head :
      (n : ℕ) (tl : List ℕ)
      → Within (max_array opts) n
      → depth + 1 ≤ max_nesting opts
      → decode_array dec opts (head_of 0x80 n) depth (at (head_bytes 0x80 n ++ tl))
        ≡ bind (array_items dec opts (depth + 1) n (at tl)) λ vs s. ok (array vs) s
  unfolding decode_array
  decode_array-head n tl h k = ground (arith, drop-head 0x80 n tl)

  decode_map-head :
      (n : ℕ) (tl : List ℕ)
      → Within (max_array opts) n
      → depth + 1 ≤ max_nesting opts
      → decode_map dec opts (head_of 0xa0 n) depth (at (head_bytes 0xa0 n ++ tl))
        ≡ bind
            (map_entries dec opts (depth + 1) n [] (new_dedup n) (at tl))
            λ m s. ok (map (make_map m)) s
  unfolding decode_map
  decode_map-head n tl h k = ground (arith, drop-head 0xa0 n tl)

  decode_tag-head :
      (strip : Bool) (n : ℕ) (tl : List ℕ)
      → Passes opts.reject_unknown_tags (not (is_known_tag n))
      → depth + 1 ≤ max_nesting opts
      → (n == 55799) && strip ≡ false
      → decode_tag dec opts (head_of 0xc0 n) depth strip (at (head_bytes 0xc0 n ++ tl))
        ≡ bind (dec (depth + 1) false (at tl)) λ inner s. ok (make_tag n inner) s
  unfolding decode_tag
  decode_tag-head strip n tl p k q = ground (arith, drop-head 0xc0 n tl)

  pub read-array :
      (strip : Bool) (xs : Items) (tl : List ℕ)
      → Within (max_array opts) (count_items xs)
      → depth + 1 ≤ max_nesting opts
      → array_items dec opts (depth + 1) (count_items xs) (at (serialize_items xs ++ tl))
        ≡ ok xs (at tl)
      → decode_step dec opts depth strip (at (serialize (array xs) ++ tl)) ≡ ok (array xs) (at tl)
  unfolding serialize
  read-array strip xs tl h k e =
      rw (append_assoc (head_bytes 0x80 (count_items xs)) (serialize_items xs) tl) (
        rw
          (decode_step-head dec opts depth strip 0x80 (count_items xs) (serialize_items xs ++ tl)
            (omega arith) h.1)
          (unfold dispatch in
            rw (decode_array-head (count_items xs) (serialize_items xs ++ tl) h k) (rw e)))

  pub read-map :
      (strip : Bool) (ps : Pairs) (tl : List ℕ)
      → Within (max_array opts) (count_pairs ps)
      → depth + 1 ≤ max_nesting opts
      → map_entries dec opts
          (depth + 1)
          (count_pairs ps)
          []
          (new_dedup (count_pairs ps))
          (at (serialize_pairs ps ++ tl))
        ≡ ok (entries ps) (at tl)
      → decode_step dec opts depth strip (at (serialize (map ps) ++ tl)) ≡ ok (map ps) (at tl)
  unfolding serialize
  read-map strip ps tl h k e =
      rw (append_assoc (head_bytes 0xa0 (count_pairs ps)) (serialize_pairs ps) tl) (
        rw
          (decode_step-head dec opts depth strip 0xa0 (count_pairs ps) (serialize_pairs ps ++ tl)
            (omega arith) h.1)
          (unfold dispatch in
            rw (decode_map-head (count_pairs ps) (serialize_pairs ps ++ tl) h k)
              (rw e (rw (make_map-entries ps)))))

  pub read-tag :
      (strip : Bool) (n : ℕ) (v : Value) (tl : List ℕ)
      → IsU64 n
      → Passes opts.reject_unknown_tags (not (is_known_tag n))
      → depth + 1 ≤ max_nesting opts
      → (n == 55799) && strip ≡ false
      → dec (depth + 1) false (at (serialize v ++ tl)) ≡ ok v (at tl)
      → decode_step dec opts depth strip (at (serialize (make_tag n v) ++ tl))
        ≡ ok (make_tag n v) (at tl)
  unfolding serialize
  read-tag strip n v tl h p k q e = rw (append_assoc (head_bytes 0xc0 n) (serialize v) tl) (
      rw (decode_step-head dec opts depth strip 0xc0 n (serialize v ++ tl) (omega arith) h)
        (unfold dispatch in rw (decode_tag-head strip n (serialize v ++ tl) p k q) (rw e)))

-- A key that is equal to none of the entries is appended, with a table of hashes and without.
find_linear-Fresh :
    (i : ℕ) (m : List MapEntry) (key : Value) → Fresh m key → find_linear i m key ≡ none
unfolding find_linear
find_linear-Fresh i [] key h = refl
find_linear-Fresh i (e ∷ m) key h = ground (arith, find_linear-Fresh (suc i) m key h.1)

get_elem?-Fresh :
    (m : List MapEntry) (i : ℕ) (key : Value)
    → Fresh m key
    → key_matches (get_elem? m i) key ≡ false
get_elem?-Fresh [] i key h = refl
get_elem?-Fresh (e ∷ m) zero key h = h.0
get_elem?-Fresh (e ∷ m) (suc i) key h = get_elem?-Fresh m i key h.1

find_seen-Fresh :
    (m : List MapEntry) (js : List ℕ) (key : Value) → Fresh m key → find_seen m js key ≡ none
unfolding find_seen
find_seen-Fresh m [] key h = refl
find_seen-Fresh m (j ∷ js) key h =
    ground (arith, get_elem?-Fresh m j key h, find_seen-Fresh m js key h)

pub map_insert-Fresh :
    (opts : DecodeOpts) (m : List MapEntry) (key val : Value) (encoded : List ℕ) (dedup : Dedup)
    → Fresh m key
    → map_insert opts m key val encoded dedup
      ≡ some (m ++ (record { key = key; val = val } ∷ []), remember m encoded dedup)
unfolding map_insert
map_insert-Fresh opts m key val encoded none h = rw (find_linear-Fresh 0 m key h, map_insert)
map_insert-Fresh opts m key val encoded (some seen) h =
    rw (find_seen-Fresh m (seen (fnv1a encoded)) key h, map_insert)
