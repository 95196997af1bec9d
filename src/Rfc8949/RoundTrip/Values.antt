-- ===== src/Rfc8949/RoundTrip/Values.antt =====
-- decodeValue on the encodings of values: the induction.
use corecbor.Prelude.{
  ℕ, zero, suc, ◌+◌, ◌≤◌, ◌≡◌, refl, ap, ◌∙◌, Bool, false, ◌&&◌, List, [], ◌∷◌, ◌++◌, arith, ◌==◌,
  append_assoc, append-nil,
}
use corecbor.Cbor.Value.{
  Value, Items, Pairs, MapEntry, invalid, uint, neg_int, bytes, text, array, map, tag, bool, null,
  undefined, simple, float32, float64, nil, cons, end, entry, entries, count_items, count_pairs,
}
use corecbor.Rfc8949.Options.{DecodeOpts, max_bytes}
use corecbor.Rfc8949.State.{State, ok}
use corecbor.Rfc8949.Insert.{Dedup, remember}
use corecbor.Rfc8949.Arrays.{Decoder, array_items, array_item}
use corecbor.Rfc8949.Maps.{map_entries, map_key, map_value, new_dedup, is_null, between}
use corecbor.Rfc8949.Decode.{decode_value, decode_step}
use corecbor.Rfc8949.Decode.InPlace.{array_item-cons, map_key-cons}
use corecbor.Rfc8949.Serial.{serialize, serialize_items, serialize_pairs}
use corecbor.Rfc8949.Valid.{
  IsValid, AreValid, ArePairs, Passes, Fresh, is_self_described, height, height_items, height_pairs,
}
use corecbor.Rfc8949.RoundTrip.Heads.{at}
use corecbor.Rfc8949.RoundTrip.Starts.{StartsByte, serialize-StartsByte}
use corecbor.Rfc8949.RoundTrip.Leaves
use corecbor.Rfc8949.RoundTrip.Containers.{read-array, read-map, read-tag, map_insert-Fresh}

module _ (dec : Decoder) (o : DecodeOpts) (d : ℕ) (hb : 23 ≤ max_bytes o) where
  item-at :
      (src : List ℕ)
      → StartsByte src
      → array_item (decode_step dec o) o d (at src) ≡ decode_step dec o d false (at src)
  item-at [] h = absurd h
  item-at (b ∷ src) h = array_item-cons dec o d b src h hb

  key-at :
      (src : List ℕ)
      → StartsByte src
      → map_key (decode_step dec o) o d (at src) ≡ decode_step dec o d false (at src)
  key-at [] h = absurd h
  key-at (b ∷ src) h = map_key-cons dec o d b src h hb

-- What decodeMap does behind a key, when the value is read and the key is new.
map_value-Fresh :
    (dec : Decoder) (o : DecodeOpts) (d : ℕ) (m : List MapEntry) (dedup : Dedup) (front : List ℕ)
    (k v : Value) (src tl : List ℕ)
    → Passes o.reject_null_map_keys (is_null k)
    → Fresh m k
    → dec d false (at src) ≡ ok v (at tl)
    → map_value dec o d m dedup (at front) k (at src)
      ≡ ok
          (m ++ (record { key = k; val = v } ∷ []), remember m (between (at front) (at src)) dedup)
          (at tl)
unfolding map_value
map_value-Fresh dec o d m dedup front k v src tl p h e =
    ground (arith, map_insert-Fresh o m k v (between (at front) (at src)) dedup h)

and_swap : (a b : Bool) → a && b ≡ false → b && a ≡ false
and_swap a b h = ground arith

array_items-cons :
    (dec : Decoder) (o : DecodeOpts) (d n : ℕ) (v : Value) (xs : Items) (s s' s'' : State)
    → array_item dec o d s ≡ ok v s'
    → array_items dec o d n s' ≡ ok xs s''
    → array_items dec o d (suc n) s ≡ ok (cons v xs) s''
unfolding array_items
array_items-cons dec o d n v xs s s' s'' e e' = rw e (rw e')

map_entries-cons :
    (dec : Decoder) (o : DecodeOpts) (d n : ℕ) (k : Value) (m m' m'' : List MapEntry)
    (dedup dedup' : Dedup) (s s' s'' t : State)
    → map_key dec o d s ≡ ok k s'
    → map_value dec o d m dedup s k s' ≡ ok (m', dedup') s''
    → map_entries dec o d n m' dedup' s'' ≡ ok m'' t
    → map_entries dec o d (suc n) m dedup s ≡ ok m'' t
unfolding map_entries
map_entries-cons dec o d n k m m' m'' dedup dedup' s s' s'' t e e' e'' = rw e (rw e' (rw e''))

mutual
  unfolding decode_value serialize IsValid height array_items map_entries

  pub value-reads :
      (v : Value) (o : DecodeOpts) (d f : ℕ) (strip : Bool) (tl : List ℕ)
      → 23 ≤ max_bytes o
      → IsValid o d v
      → height v ≤ f
      → strip && is_self_described v ≡ false
      → decode_value (suc f) o d strip (at (serialize v ++ tl)) ≡ ok v (at tl)
  value-reads invalid o d f strip tl hb hv hf c = absurd hv
  value-reads (uint n) o d f strip tl hb hv hf c =
      Leaves.read-uint (decode_value f o) o d strip n tl hv
  value-reads (neg_int n) o d f strip tl hb hv hf c =
      Leaves.read-neg_int (decode_value f o) o d strip n tl hv
  value-reads (bytes b) o d f strip tl hb hv hf c =
      Leaves.read-bytes (decode_value f o) o d strip b tl hv
  value-reads (text b) o d f strip tl hb hv hf c =
      Leaves.read-text (decode_value f o) o d strip b tl hv.0 hv.1
  value-reads (array xs) o d zero strip tl hb hv hf c = absurd (omega arith)
  value-reads (array xs) o d (suc f) strip tl hb hv hf c =
      read-array (decode_value (suc f) o) o d strip xs tl hv.0 hv.1
        (items-read xs o (d + 1) f tl hb hv.2 (omega arith))
  value-reads (map ps) o d zero strip tl hb hv hf c = absurd (omega arith)
  value-reads (map ps) o d (suc f) strip tl hb hv hf c =
      read-map (decode_value (suc f) o) o d strip ps tl hv.0 hv.1
        (pairs-read ps o (d + 1) f [] (new_dedup (count_pairs ps)) tl hb hv.2 (omega arith))
  value-reads (tag n nil) o d f strip tl hb hv hf c = absurd hv
  value-reads (tag n (cons v nil)) o d zero strip tl hb hv hf c = absurd (omega arith)
  value-reads (tag n (cons v nil)) o d (suc f) strip tl hb hv hf c =
      read-tag (decode_value (suc f) o) o d strip n v tl hv.0 hv.1 hv.2
        (and_swap strip (n == 55799) c)
        (value-reads v o (d + 1) f false tl hb hv.3 (omega arith) refl)
  value-reads (tag n (cons v (cons _ _))) o d f strip tl hb hv hf c = absurd hv
  value-reads (bool b) o d f strip tl hb hv hf c =
      Leaves.read-bool (decode_value f o) o d strip b tl
  value-reads null o d f strip tl hb hv hf c = Leaves.read-null (decode_value f o) o d strip tl
  value-reads undefined o d f strip tl hb hv hf c =
      Leaves.read-undefined (decode_value f o) o d strip tl
  value-reads (simple n) o d f strip tl hb hv hf c =
      Leaves.read-simple (decode_value f o) o d strip n tl hv
  value-reads (float32 x) o d f strip tl hb hv hf c =
      Leaves.read-float32 (decode_value f o) o d strip x tl hv.0 hv.1 hv.2
  value-reads (float64 x) o d f strip tl hb hv hf c =
      Leaves.read-float64 (decode_value f o) o d strip x tl hv.0 hv.1 hv.2

  items-read :
      (xs : Items) (o : DecodeOpts) (d f : ℕ) (tl : List ℕ)
      → 23 ≤ max_bytes o
      → AreValid o d xs
      → height_items xs ≤ f
      → array_items (decode_value (suc f) o) o d (count_items xs) (at (serialize_items xs ++ tl))
        ≡ ok xs (at tl)
  items-read nil o d f tl hb hv hf = refl
  items-read (cons v xs) o d f tl hb hv hf =
      let after : List ℕ = serialize_items xs ++ tl in
      rw (append_assoc (serialize v) (serialize_items xs) tl) (
        array_items-cons (decode_value (suc f) o) o d (count_items xs) v xs
          (at (serialize v ++ after)) (at after) (at tl)
          (item-at (decode_value f o) o d hb (serialize v ++ after)
              (serialize-StartsByte o d v after hv.0)
            ∙ value-reads v o d f false after hb hv.0 (omega arith) refl)
          (items-read xs o d f tl hb hv.1 (omega arith)))

  pairs-read :
      (ps : Pairs) (o : DecodeOpts) (d f : ℕ) (m : List MapEntry) (dedup : Dedup) (tl : List ℕ)
      → 23 ≤ max_bytes o
      → ArePairs o d m ps
      → height_pairs ps ≤ f
      → map_entries
          (decode_value (suc f) o)
          o
          d
          (count_pairs ps)
          m
          dedup
          (at (serialize_pairs ps ++ tl))
        ≡ ok (m ++ entries ps) (at tl)
  pairs-read end o d f m dedup tl hb hv hf = rw (append-nil m)
  pairs-read (entry k v ps) o d f m dedup tl hb hv hf =
      let after : List ℕ = serialize_pairs ps ++ tl in
      let values : List ℕ = serialize v ++ after in
      let front : List ℕ = serialize k ++ values in
      let m' : List MapEntry = m ++ (record { key = k; val = v } ∷ []) in
      let dedup' : Dedup = remember m (between (at front) (at values)) dedup in
      rw
        (
          append_assoc (serialize k) (serialize v ++ serialize_pairs ps) tl,
          append_assoc (serialize v) (serialize_pairs ps) tl,
        )
        (map_entries-cons (decode_value (suc f) o) o d (count_pairs ps) k m m'
          (m ++ (record { key = k; val = v } ∷ entries ps)) dedup dedup' (at front) (at values)
          (at after) (at tl)
          (key-at (decode_value f o) o d hb front (serialize-StartsByte o d k values hv.0)
            ∙ value-reads k o d f false values hb hv.0 (omega arith) refl)
          (map_value-Fresh (decode_value (suc f) o) o d m dedup front k v values after hv.1 hv.2
            (value-reads v o d f false after hb hv.3 (omega arith) refl))
          (pairs-read ps o d f m' dedup' tl hb hv.4 (omega arith)
            ∙ ap (λ x. ok x (at tl))
                (append_assoc m (record { key = k; val = v } ∷ []) (entries ps))))
