-- ===== src/Codec/Stream/Containers.antt =====
-- stream.go: what the calls write between the beginning and the end of a container.
use corecbor.Prelude.{
  ℕ, suc, ◌+◌, ◌*◌, ◌%◌, ◌^◌, ◌≤◌, ◌<◌, ◌≡◌, refl, ap, ◌∙◌, true, List, [], ◌∷◌, ◌++◌, append_assoc,
  append-nil, some, arith, length, zero, false, All, if◌then◌else◌, ◌==◌,
}
use corecbor.Cbor.Value.{
  Value, Items, Pairs, uint, neg_int, bytes, text, array, map, bool, null, undefined, float32,
  float64, simple, nil, cons, end, entry, count_items, count_pairs,
}
use corecbor.Wire.Float16.{append_float32, append_float64}
use corecbor.Wire.Head.{head_bytes}
use corecbor.Rfc8949.Serial.{serialize, serialize_items, serialize_pairs}
use corecbor.Rfc8949.Encode
use corecbor.Rfc8949.Encode.{encode}
use corecbor.Rfc8949.Encode.Plain.{
  IsPlain, IsEncodable, AreEncodable, ArePairsEncodable, encode-serialize,
}
use corecbor.Codec.{permissive, encode_opts}
use corecbor.Codec.RoundTrip.{permissive-IsPlain}
use corecbor.Codec.Stream.{
  Writer, ContainerState, underflow, StreamEncoder, Result, ok, err, bind, put, track_write, begin,
  begin_array, begin_map, end_container, twice_limit, write_head, write_string, encode_to,
  put_simple, put_value, write_value, Call, call_begin_array, call_begin_map, call_end_container,
  call_value, step,
}

-- A bytes.Buffer: it takes every write.
abbrev pub buffer : Writer
buffer = record { Sink = List ℕ; write = λ sink b. (sink ++ b, true) }

-- The calls one after the other, up to the first error.
abbrev pub calls : List (Call buffer) → StreamEncoder buffer → Result buffer
calls [] s = ok s
calls (c ∷ cs) s = bind buffer (step buffer c s) (calls cs)

abbrev pub value_calls : Items → List (Call buffer) → List (Call buffer)
value_calls nil rest = rest
value_calls (cons v xs) rest = call_value v ∷ value_calls xs rest

abbrev pub entry_calls : Pairs → List (Call buffer) → List (Call buffer)
entry_calls end rest = rest
entry_calls (entry k v ps) rest = call_value k ∷ call_value v ∷ entry_calls ps rest

abbrev wrote : List ℕ → StreamEncoder buffer → StreamEncoder buffer
wrote b s = record s { sink = s.sink ++ b }

put_value-serialize :
    (v : Value) (s : StreamEncoder buffer)
    → IsPlain (encode_opts s.encoder)
    → IsEncodable (encode_opts s.encoder) v
    → put_value buffer v s ≡ ok (wrote (serialize v) s)
unfolding put_value write_head write_string put put_simple serialize IsEncodable append_float32
    append_float64
put_value-serialize (uint n) s p h = refl
put_value-serialize (neg_int n) s p h = refl
put_value-serialize (bool b) s p h = refl
put_value-serialize null s p h = refl
put_value-serialize undefined s p h = refl
put_value-serialize (text t) s p h =
    ap (λ o. ok (record s { sink = o })) (append_assoc s.sink (head_bytes 0x60 (length t)) t)
put_value-serialize (bytes b) s p h =
    ap (λ o. ok (record s { sink = o })) (append_assoc s.sink (head_bytes 0x40 (length b)) b)
put_value-serialize (float32 f) s p h = let e : f % 2 ^ 32 ≡ f = omega arith in rw e refl
put_value-serialize (float64 f) s p h = refl
put_value-serialize (simple n) s p h = ground arith
put_value-serialize v s p h = rw (encode_to, encode-serialize (encode_opts s.encoder) [] v p h) refl

-- `k` of `n` items have been written to the innermost container.
abbrev within : ℕ → ℕ → List ContainerState → StreamEncoder buffer → StreamEncoder buffer
within n k more s = record s { stack = record { limit = some n; written = k } ∷ more }

module _ (s : StreamEncoder buffer) (n : ℕ) (more : List ContainerState)
    (plain : IsPlain (encode_opts s.encoder)) where
  track_write-within :
      (k : ℕ) (s' : StreamEncoder buffer)
      → k < n
      → track_write buffer (within n k more s') ≡ ok (within n (suc k) more s')
  unfolding track_write
  track_write-within k s' h = ground arith

  write_value-within :
      (v : Value) (k : ℕ) (out : List ℕ)
      → k < n
      → IsEncodable (encode_opts s.encoder) v
      → write_value buffer v (within n k more (record s { sink = out }))
        ≡ ok (within n (suc k) more (record s { sink = out ++ serialize v }))
  unfolding write_value
  write_value-within v k out h e =
      rw (track_write-within k (record s { sink = out }) h)
        (put_value-serialize v (within n (suc k) more (record s { sink = out })) plain e)

  calls-within :
      (xs : Items) (rest : List (Call buffer)) (k : ℕ) (out : List ℕ)
      → k + count_items xs ≤ n
      → AreEncodable (encode_opts s.encoder) xs
      → calls (value_calls xs rest) (within n k more (record s { sink = out }))
        ≡ calls rest
            (within n (k + count_items xs) more (record s { sink = out ++ serialize_items xs }))
  unfolding step serialize IsEncodable
  calls-within nil rest k out h e =
      let still : k + 0 ≡ k = omega arith in rw (append-nil out, still) refl
  calls-within (cons v xs) rest k out h e =
      let next : suc k + count_items xs ≡ k + suc (count_items xs) = omega arith in
      rw
        (
          write_value-within v k out (omega (arith, h)) e.0,
          ← next,
          ← append_assoc out (serialize v) (serialize_items xs),
        )
        (calls-within xs rest (suc k) (out ++ serialize v) (omega (arith, h)) e.1)

  entry_calls-within :
      (ps : Pairs) (rest : List (Call buffer)) (k : ℕ) (out : List ℕ)
      → k + count_pairs ps * 2 ≤ n
      → ArePairsEncodable (encode_opts s.encoder) ps
      → calls (entry_calls ps rest) (within n k more (record s { sink = out }))
        ≡ calls rest
            (within n (k + count_pairs ps * 2) more (record s { sink = out ++ serialize_pairs ps }))
  unfolding step serialize IsEncodable
  entry_calls-within end rest k out h e =
      let still : k + 0 ≡ k = omega arith in rw (append-nil out, still) refl
  entry_calls-within (entry a b ps) rest k out h e =
      let next : suc (suc k) + count_pairs ps * 2 ≡ k + suc (count_pairs ps) * 2 = omega arith in
      rw
        (
          write_value-within a k out (omega (arith, h)) e.0,
          write_value-within b (suc k) (out ++ serialize a) (omega (arith, h)) e.1,
          ← next,
          ← append_assoc out (serialize a) (serialize b ++ serialize_pairs ps),
          ← append_assoc (out ++ serialize a) (serialize b) (serialize_pairs ps),
        )
        (entry_calls-within ps rest (suc (suc k)) ((out ++ serialize a) ++ serialize b)
          (omega (arith, h)) e.2)

  end_container-within :
      (rest : List (Call buffer)) (k : ℕ) (out : List ℕ)
      → k ≡ n
      → calls (call_end_container ∷ rest) (within n k more (record s { sink = out }))
        ≡ calls rest (record s { sink = out; stack = more })
  unfolding step end_container
  end_container-within rest k out h = let all : (k == n) ≡ true = ground arith in rw all refl

array_calls-done :
    (s : StreamEncoder buffer) (xs : Items) (rest : List (Call buffer))
    → IsPlain (encode_opts s.encoder)
    → AreEncodable (encode_opts s.encoder) xs
    → calls
        (call_begin_array (some (count_items xs)) ∷ value_calls xs (call_end_container ∷ rest))
        s
      ≡ calls rest (record s { sink = s.sink ++ serialize (array xs) })
unfolding step begin_array begin put serialize
array_calls-done s xs rest plain e =
    rw (← append_assoc s.sink (head_bytes 0x80 (count_items xs)) (serialize_items xs)) (
      calls-within s (count_items xs) s.stack plain xs (call_end_container ∷ rest) 0
        (s.sink ++ head_bytes 0x80 (count_items xs)) (omega arith) e
      ∙ end_container-within s (count_items xs) s.stack plain rest _ _ (omega arith))

twice_limit-small : (n : ℕ) → n < 2 ^ 62 → twice_limit n ≡ some (n * 2)
unfolding twice_limit
twice_limit-small n h = ground arith

-- Between BeginArray with the number of items and EndContainer, calls of WriteValue for the items
-- of an array write to a buffer what Encode writes for the whole array, and likewise BeginMap with
-- the keys and values of a map, with a permissive encoder, for all items that its options let
-- through and for fewer than 2^62 entries; no call fails, and the containers around are as before.
pub calls-encode :
    (s : StreamEncoder buffer) (xs : Items) (ps : Pairs)
    → s.encoder.mode ≡ permissive
    → AreEncodable (encode_opts s.encoder) xs
    → ArePairsEncodable (encode_opts s.encoder) ps
    → count_pairs ps < 2 ^ 62
    → ((out : List ℕ) × (encode (encode_opts s.encoder) s.sink (array xs) ≡ Encode.ok out)
        × (calls
              (call_begin_array (some (count_items xs)) ∷ value_calls xs (call_end_container ∷ []))
              s
            ≡ ok (record s { sink = out })))
      × ((out : List ℕ) × (encode (encode_opts s.encoder) s.sink (map ps) ≡ Encode.ok out)
          × (calls
                (call_begin_map (some (count_pairs ps)) ∷ entry_calls ps (call_end_container ∷ []))
                s
              ≡ ok (record s { sink = out })))
calls-encode s xs ps m e f few = (
  (
    s.sink ++ serialize (array xs),
    encode-serialize (encode_opts s.encoder) s.sink (array xs) plain (unfold IsEncodable in e),
    array_calls-done s xs [] plain e,
  ),
  (
    s.sink ++ serialize (map ps),
    encode-serialize (encode_opts s.encoder) s.sink (map ps) plain (unfold IsEncodable in f),
    in_map,
  ),
)
  where
    plain : IsPlain (encode_opts s.encoder)
    plain = permissive-IsPlain s.encoder m

    in_map :
        calls (call_begin_map (some (count_pairs ps)) ∷ entry_calls ps (call_end_container ∷ [])) s
        ≡ ok (record s { sink = s.sink ++ serialize (map ps) })
    in_map =
        unfold step begin_map begin put serialize in
        rw
          (
            ← append_assoc s.sink (head_bytes 0xa0 (count_pairs ps)) (serialize_pairs ps),
            twice_limit-small (count_pairs ps) few,
          )
          (entry_calls-within s (count_pairs ps * 2) s.stack plain ps (call_end_container ∷ []) 0
              (s.sink ++ head_bytes 0xa0 (count_pairs ps)) (omega arith) f
            ∙ end_container-within s (count_pairs ps * 2) s.stack plain [] _ _ (omega arith))

-- The calls for arrays one after the other, and what they write.
abbrev pub array_calls : List Items → List (Call buffer) → List (Call buffer)
array_calls [] rest = rest
array_calls (xs ∷ xss) rest =
    call_begin_array (some (count_items xs))
    ∷ value_calls xs (call_end_container ∷ array_calls xss rest)

abbrev pub serialize_arrays : List Items → List ℕ
serialize_arrays [] = []
serialize_arrays (xs ∷ xss) = serialize (array xs) ++ serialize_arrays xss

arrays-done :
    (s : StreamEncoder buffer) (xss : List Items) (rest : List (Call buffer))
    → IsPlain (encode_opts s.encoder)
    → All (AreEncodable (encode_opts s.encoder)) xss
    → calls (array_calls xss rest) s
      ≡ calls rest (record s { sink = s.sink ++ serialize_arrays xss })
arrays-done s [] rest p h = rw (append-nil s.sink) refl
arrays-done s (xs ∷ xss) rest p h =
    let next : StreamEncoder buffer = record s { sink = s.sink ++ serialize (array xs) } in
    rw (← append_assoc s.sink (serialize (array xs)) (serialize_arrays xss))
      (array_calls-done s xs (array_calls xss rest) p h.0 ∙ arrays-done next xss rest p h.1)

-- An array opened for `n` items that is ended with nothing but arrays inside, each written whole,
-- counts none of them: however many there are, all of them are written, and EndContainer reports
-- an underflow if `n` is not 0, even where `n` is their number, and nothing if `n` is 0; with a
-- permissive encoder, for items that its options let through.
pub calls-nested :
    (s : StreamEncoder buffer) (n : ℕ) (xss : List Items)
    → s.encoder.mode ≡ permissive
    → All (AreEncodable (encode_opts s.encoder)) xss
    → let s' : StreamEncoder buffer = record s {
      sink = (s.sink ++ head_bytes 0x80 n) ++ serialize_arrays xss;
    } in
      calls (call_begin_array (some n) ∷ array_calls xss (call_end_container ∷ [])) s
      ≡ (if n == 0 then ok s' else err underflow s')
unfolding step begin_array begin put end_container
calls-nested s n xss m h =
    let opened : StreamEncoder buffer = record s {
      sink = s.sink ++ head_bytes 0x80 n;
      stack = record { limit = some n; written = 0 } ∷ s.stack;
    } in
    arrays-done opened xss (call_end_container ∷ []) (permissive-IsPlain s.encoder m) h ∙ by n
  where
    ended : List ℕ → StreamEncoder buffer
    ended out = record s { sink = out }

    by :
        (k : ℕ)
        → calls
            (call_end_container ∷ [])
            (within k 0 s.stack (ended ((s.sink ++ head_bytes 0x80 n) ++ serialize_arrays xss)))
          ≡ (let s' : StreamEncoder buffer =
                ended ((s.sink ++ head_bytes 0x80 n) ++ serialize_arrays xss) in
              if k == 0 then ok s' else err underflow s')
    by zero = refl
    by (suc k) =
        let none_written : (0 == suc k) ≡ false = ground arith in
        let wanted : (suc k == 0) ≡ false = ground arith in rw (none_written, wanted) refl
