-- ===== src/Codec/Stream/Counts.antt =====
-- stream.go: the counts of the open containers.
use corecbor.Prelude.{
  ℕ, suc, ◌≤◌, ◌≡◌, refl, Bool, true, false, not, ◌&&◌, List, [], ◌∷◌, Option, none, some, All, ltb,
  ◌==◌, if◌then◌else◌, arith, bit_or,
}
use corecbor.Cbor.Value.{
  Value, uint, neg_int, bytes, text, bool, null, undefined, float32, float64, simple,
}
use corecbor.Rfc8949.Encode
use corecbor.Rfc8949.Encode.{encode, is_non_finite}
use corecbor.Cbor.Error.{invalid_utf8, non_finite_float}
use corecbor.Cbor.Utf8.{valid_utf8}
use corecbor.Wire.Float.{widen}
use corecbor.Wire.Float16.{append_float32, append_float64}
use corecbor.Wire.Head.{ai_indefinite, break_code, major_array, major_map, major_text}
use corecbor.Codec.{encode_opts}
use corecbor.Codec.Stream.{
  Writer, is_permissive, ContainerState, overflow, underflow, encoding, StreamEncoder, Result, ok,
  err, bind, put, track_write, is_full, count_item, push, begin, begin_array, begin_map,
  end_container, twice_limit, write_head, write_string, encode_to, put_simple, put_value,
  write_value, write_uint, write_neg_int, write_bytes, write_bool, write_null, write_undefined,
  write_simple, write_text, write_float32, write_float64, write_raw_cbor, write_tag, Call,
  call_begin_array, call_begin_map, call_end_container, call_null, call_undefined, call_value,
  call_uint, call_neg_int, call_simple, call_float32, call_float64, call_tag, call_bytes, call_text,
  call_raw_cbor, call_bool, step, left_by, run,
}

-- No more items than the container holds.
abbrev pub Fits : Option ℕ → ℕ → Type 0
Fits none n = Unit
Fits (some limit) n = n ≤ limit

zero-Fits : (o : Option ℕ) → Fits o 0
zero-Fits none = tt
zero-Fits (some n) = omega arith

abbrev pub IsCounted : ContainerState → Type 0
IsCounted c = Fits c.limit c.written

module _ (w : Writer) where
  abbrev pub AreCounted : StreamEncoder w → Type 0
  AreCounted s = All IsCounted s.stack

  -- A call kept the counts.
  abbrev Keeps : Result w → Type 0
  Keeps r = AreCounted (left_by w r)

  bind-Keeps :
      (r : Result w) (f : StreamEncoder w → Result w)
      → Keeps r
      → ((s : StreamEncoder w) → AreCounted s → Keeps (f s))
      → Keeps (bind w r f)
  bind-Keeps (ok s) f h k = k s h
  bind-Keeps (err e s) f h k = h

  if-Keeps : (b : Bool) (r r' : Result w) → Keeps r → Keeps r' → Keeps (if b then r else r')
  if-Keeps true r r' h k = h
  if-Keeps false r r' h k = k

  put-Keeps : (b : List ℕ) (s : StreamEncoder w) → AreCounted s → Keeps (put w b s)
  unfolding put
  put-Keeps b s h = if-Keeps (w.write s.sink b).1 _ _ h h

  count_item-Fits :
      (o : Option ℕ) (n : ℕ)
      → is_full w (record { limit = o; written = n }) ≡ false
      → Fits o (suc n)
  count_item-Fits none n h = tt
  count_item-Fits (some limit) n h = ground arith

  track_write-Keeps : (s : StreamEncoder w) → AreCounted s → Keeps (track_write w s)
  unfolding track_write
  track_write-Keeps s h = by s.stack h
    where
      full :
          (top : ContainerState) (more : List ContainerState) (b : Bool)
          → is_full w top ≡ b
          → All IsCounted (top ∷ more)
          → (b ≡ false → IsCounted (count_item w top))
          → Keeps (elim b [
            | true ↦ err overflow (record s { stack = top ∷ more })
            | false ↦ ok (record s { stack = count_item w top ∷ more })
          ])
      full top more true e k f = k
      full top more false e k f = (f refl, k.1)

      by :
          (l : List ContainerState)
          → All IsCounted l
          → Keeps (track_write w (record s { stack = l }))
      by [] k = k
      by (top ∷ more) k =
          full top more (is_full w top) refl k (λ e. count_item-Fits top.limit top.written e)

  begin-Keeps :
      (major : ℕ) (f : ℕ → Option ℕ) (n : Option ℕ) (s : StreamEncoder w)
      → AreCounted s
      → Keeps (begin w major f n s)
  unfolding begin
  begin-Keeps major f none s h =
      let indefinite : Keeps
          (bind w (put w (bit_or major ai_indefinite ∷ []) s) (λ s'. ok (push w none s'))) =
        bind-Keeps (put w (bit_or major ai_indefinite ∷ []) s) (λ s'. ok (push w none s'))
          (put-Keeps _ s h) λ s' k. (tt, k) in
      if-Keeps (is_permissive s.encoder.mode) _ _ indefinite h
  begin-Keeps major f (some n) s h =
      bind-Keeps (put w _ s) _ (put-Keeps _ s h) λ s' k. (zero-Fits (f n), k)

  end_container-Keeps : (s : StreamEncoder w) → AreCounted s → Keeps (end_container w s)
  unfolding end_container
  end_container-Keeps s h = by s.stack h
    where
      closed :
          (o : Option ℕ) (n : ℕ) (s' : StreamEncoder w)
          → AreCounted s'
          → Keeps (elim o [
            | none ↦ put w (break_code ∷ []) s'
            | some k ↦ if n == k then ok s' else err underflow s'
          ])
      closed none n s' k = put-Keeps (break_code ∷ []) s' k
      closed (some m) n s' k = if-Keeps (n == m) _ _ k k

      by :
          (l : List ContainerState)
          → All IsCounted l
          → Keeps (end_container w (record s { stack = l }))
      by [] k = k
      by (top ∷ more) k = closed top.limit top.written (record s { stack = more }) k.1

  write_string-Keeps :
      (major : ℕ) (b : List ℕ) (s : StreamEncoder w)
      → AreCounted s
      → Keeps (write_string w major b s)
  unfolding write_string write_head
  write_string-Keeps major b s h =
      bind-Keeps (put w _ s) _ (put-Keeps _ s h) λ s' k. put-Keeps b s' k

  put_simple-Keeps : (n : ℕ) (s : StreamEncoder w) → AreCounted s → Keeps (put_simple w n s)
  unfolding put_simple
  put_simple-Keeps n s h = if-Keeps (ltb n 24) _ _ (put-Keeps _ s h) (put-Keeps _ s h)

  encode_to-Keeps : (v : Value) (s : StreamEncoder w) → AreCounted s → Keeps (encode_to w v s)
  unfolding encode_to
  encode_to-Keeps v s h = by (encode (encode_opts s.encoder) [] v)
    where
      by :
          (r : Encode.Encoded)
          → Keeps (elim r [ Encode.err e d ↦ err (encoding e) s | Encode.ok b ↦ put w b s ])
      by (Encode.ok b) = put-Keeps b s h
      by (Encode.err e d) = h

  put_value-Keeps : (v : Value) (s : StreamEncoder w) → AreCounted s → Keeps (put_value w v s)
  unfolding put_value write_head
  put_value-Keeps (uint n) s h = put-Keeps _ s h
  put_value-Keeps (neg_int n) s h = put-Keeps _ s h
  put_value-Keeps (bool b) s h = put-Keeps _ s h
  put_value-Keeps null s h = put-Keeps _ s h
  put_value-Keeps undefined s h = put-Keeps _ s h
  put_value-Keeps (text t) s h = write_string-Keeps _ t s h
  put_value-Keeps (bytes b) s h = write_string-Keeps _ b s h
  put_value-Keeps (float32 f) s h = put-Keeps _ s h
  put_value-Keeps (float64 f) s h = put-Keeps _ s h
  put_value-Keeps (simple n) s h = put_simple-Keeps n s h
  put_value-Keeps v s h = encode_to-Keeps v s h

  -- A method that counts its item first.
  tracked :
      (s : StreamEncoder w) (f : StreamEncoder w → Result w)
      → AreCounted s
      → ((s' : StreamEncoder w) → AreCounted s' → Keeps (f s'))
      → Keeps (bind w (track_write w s) f)
  tracked s f h k = bind-Keeps (track_write w s) f (track_write-Keeps s h) k

  -- No call makes a container hold more items than it was opened for: what a call leaves of the open
  -- containers is within their counts if they were before, on errors and with every writer.
  pub step-AreCounted :
      (c : Call w) (s : StreamEncoder w) → AreCounted s → AreCounted (left_by w (step w c s))
  unfolding step begin_array begin_map write_uint write_neg_int write_bytes write_bool write_null
      write_undefined write_simple write_text write_float32 write_float64 write_raw_cbor write_tag
      write_value write_head
  step-AreCounted (call_begin_array n) s h = begin-Keeps major_array some n s h
  step-AreCounted (call_begin_map n) s h = begin-Keeps major_map twice_limit n s h
  step-AreCounted call_end_container s h = end_container-Keeps s h
  step-AreCounted call_null s h = tracked s _ h (put-Keeps _)
  step-AreCounted call_undefined s h = tracked s _ h (put-Keeps _)
  step-AreCounted (call_value v) s h = tracked s _ h (put_value-Keeps v)
  step-AreCounted (call_uint n) s h = tracked s _ h (put-Keeps _)
  step-AreCounted (call_neg_int n) s h = tracked s _ h (put-Keeps _)
  step-AreCounted (call_simple n) s h = tracked s _ h (put_simple-Keeps n)
  step-AreCounted (call_float32 f) s h = tracked s _ h λ s' k.
      if-Keeps (not s'.encoder.allow_non_finite_floats && is_non_finite (widen f))
        (err (encoding non_finite_float) s') (put w (append_float32 [] f) s') k (put-Keeps _ s' k)
  step-AreCounted (call_float64 f) s h = tracked s _ h λ s' k.
      if-Keeps (not s'.encoder.allow_non_finite_floats && is_non_finite f)
        (err (encoding non_finite_float) s') (put w (append_float64 [] f) s') k (put-Keeps _ s' k)
  step-AreCounted (call_tag n) s h = put-Keeps _ s h
  step-AreCounted (call_bytes b) s h = tracked s _ h (write_string-Keeps _ b)
  step-AreCounted (call_text t) s h = tracked s _ h λ s' k.
      if-Keeps (not s'.encoder.allow_invalid_utf8 && not (valid_utf8 t))
        (err (encoding invalid_utf8) s') (write_string w major_text t s') k
        (write_string-Keeps major_text t s' k)
  step-AreCounted (call_raw_cbor b) s h = tracked s _ h (put-Keeps b)
  step-AreCounted (call_bool b) s h = tracked s _ h (put-Keeps _)

  -- Any calls, over any writer and whatever errors they return, leave no open container of definite
  -- length with more items counted in it than it was opened for, if there was none before; containers
  -- inside it are not counted. A new stream encoder has no open containers.
  pub run-AreCounted :
      (cs : List (Call w)) (s : StreamEncoder w) → AreCounted s → AreCounted (run w cs s)
  unfolding run
  run-AreCounted [] s h = h
  run-AreCounted (c ∷ cs) s h = run-AreCounted cs (left_by w (step w c s)) (step-AreCounted c s h)
