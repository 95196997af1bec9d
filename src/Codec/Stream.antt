-- ===== src/Codec/Stream.antt =====
-- stream.go: StreamEncoder, which writes the items of open containers one by one.
pub mod Counts
pub mod Containers
pub mod Unchecked
use corecbor.Prelude.{
  ℕ, suc, ◌+◌, ◌*◌, ◌%◌, ◌^◌, Bool, true, false, ◌&&◌, not, List, [], ◌∷◌, ◌++◌, Option, none, some,
  ltb, leb, ◌==◌, if◌then◌else◌, length, bit_or,
}
use corecbor.Cbor.Value.{
  Value, uint, neg_int, bytes, text, bool, null, undefined, float32, float64, simple,
}
use corecbor.Cbor.Error.{Error, invalid_utf8, non_finite_float}
use corecbor.Cbor.Utf8.{valid_utf8}
use corecbor.Wire.Float.{widen}
use corecbor.Wire.Float16.{append_float32, append_float64}
use corecbor.Wire.Head.{
  head_bytes, major_uint, major_neg_int, major_bytes, major_text, major_array, major_map, major_tag,
  major_other, simple_null, simple_undefined, simple_one_byte, break_code, ai_indefinite,
}
use corecbor.Rfc8949.Encode.{encode, Encoded, is_non_finite, bool_byte}
use corecbor.Rfc8949.Encode
use corecbor.Codec.{Encoder, Mode, permissive, encode_opts}

-- The io.Writer behind the encoder: what a Write leaves of it, and whether it returned no error.
pub record Writer : Type 1 where
  pub Sink : Type 0
  pub write : Sink → List ℕ → Sink × Bool

-- `limit` is `remaining` of the source: the number of items of the container, `none` where it is
-- negative, as -1 in a container of indefinite length.
pub record ContainerState : Type 0 where
  pub limit : Option ℕ
  pub written : ℕ

pub data StreamError : Type 0 where
  indefinite_not_permitted overflow underflow no_container write_error : StreamError
  encoding : Error → StreamError

abbrev pub is_permissive : Mode → Bool
is_permissive permissive = true
is_permissive _ = false

-- The int `n * 2`, which is negative where it wraps around.
unfoldable pub twice_limit : ℕ → Option ℕ
twice_limit n = let items = n * 2 % 2 ^ 64 in if ltb items (2 ^ 63) then some items else none

module _ (w : Writer) where
  -- The last container that was opened is the first of `stack`.
  pub record StreamEncoder : Type 0 where
    pub sink : w.Sink
    pub encoder : Encoder
    pub stack : List ContainerState

  -- A method changes the encoder on an error, too.
  pub data Result : Type 0 where
    ok : StreamEncoder → Result
    err : StreamError → StreamEncoder → Result

  abbrev pub bind : Result → (StreamEncoder → Result) → Result
  bind (ok s) f = f s
  bind (err e s) f = err e s

  -- `s.w.Write(b)`, with its error.
  unfoldable pub put : List ℕ → StreamEncoder → Result
  put b s =
      let (sink, fine) = w.write s.sink b in
      let s' : StreamEncoder = record s { sink = sink } in
      if fine then ok s' else err write_error s'

  abbrev pub is_full : ContainerState → Bool
  is_full c = elim c.limit [ none ↦ false | some n ↦ leb n c.written ]

  abbrev pub count_item : ContainerState → ContainerState
  count_item c = record c { written = suc c.written }

  unfoldable pub track_write : StreamEncoder → Result
  track_write s = elim s.stack [
    | [] ↦ ok s
    | top ∷ more ↦ elim (is_full top) [
      | true ↦ err overflow s
      | false ↦ ok (record s { stack = count_item top ∷ more })
    ]
  ]

  abbrev pub push : Option ℕ → StreamEncoder → StreamEncoder
  push limit s = record s { stack = record { limit = limit; written = 0 } ∷ s.stack }

  -- The common body of BeginArray and BeginMap; a negative count is `none`, others are below 2^63, and
  -- `limit` is what a count of entries needs of items.
  unfoldable pub begin : ℕ → (ℕ → Option ℕ) → Option ℕ → StreamEncoder → Result
  unfolding put
  begin major limit none s =
      if is_permissive s.encoder.mode
      then bind (put (bit_or major ai_indefinite ∷ []) s) (λ s'. ok (push none s'))
      else err indefinite_not_permitted s
  begin major limit (some n) s = bind (put (head_bytes major n) s) λ s'. ok (push (limit n) s')

  unfoldable pub begin_array : Option ℕ → StreamEncoder → Result
  unfolding begin
  begin_array n s = begin major_array some n s

  unfoldable pub begin_map : Option ℕ → StreamEncoder → Result
  unfolding begin twice_limit
  begin_map n s = begin major_map twice_limit n s

  unfoldable pub end_container : StreamEncoder → Result
  unfolding put
  end_container s = elim s.stack [
    | [] ↦ err no_container s
    | top ∷ more ↦
        let s' : StreamEncoder = record s { stack = more } in
        elim top.limit [
          | none ↦ put (break_code ∷ []) s'
          | some n ↦ if top.written == n then ok s' else err underflow s'
        ]
  ]

  unfoldable pub write_head : ℕ → ℕ → StreamEncoder → Result
  unfolding put
  write_head major arg s = put (head_bytes major arg) s

  -- A string is written in two calls.
  unfoldable pub write_string : ℕ → List ℕ → StreamEncoder → Result
  unfolding write_head put
  write_string major b s = bind (write_head major (length b) s) λ s'. put b s'

  -- EncodeTo of rfc8949/stream_encode.go.
  unfoldable pub encode_to : Value → StreamEncoder → Result
  unfolding put
  encode_to v s = elim (encode (encode_opts s.encoder) [] v) [
    | Encode.err e _ ↦ err (encoding e) s
    | Encode.ok b ↦ put b s
  ]

  unfoldable pub put_simple : ℕ → StreamEncoder → Result
  unfolding put
  put_simple n s =
      if ltb n 24
      then put (bit_or major_other n ∷ []) s
      else put (simple_one_byte ∷ (n % 256) ∷ []) s

  -- The switch of WriteValue.
  unfoldable pub put_value : Value → StreamEncoder → Result
  unfolding write_head write_string put put_simple encode_to
  put_value (uint n) s = write_head major_uint n s
  put_value (neg_int n) s = write_head major_neg_int n s
  put_value (bool b) s = put (bool_byte b ∷ []) s
  put_value null s = put (simple_null ∷ []) s
  put_value undefined s = put (simple_undefined ∷ []) s
  put_value (text t) s = write_string major_text t s
  put_value (bytes b) s = write_string major_bytes b s
  put_value (float32 f) s = put (append_float32 [] (f % 2 ^ 32)) s
  put_value (float64 f) s = put (append_float64 [] f) s
  put_value (simple n) s = put_simple n s
  put_value v s = encode_to v s

  unfoldable pub write_value : Value → StreamEncoder → Result
  unfolding track_write put_value
  write_value v s = bind (track_write s) λ s'. put_value v s'

  unfoldable pub write_uint : ℕ → StreamEncoder → Result
  unfolding track_write write_head
  write_uint n s = bind (track_write s) λ s'. write_head major_uint n s'

  unfoldable pub write_neg_int : ℕ → StreamEncoder → Result
  unfolding track_write write_head
  write_neg_int n s = bind (track_write s) λ s'. write_head major_neg_int n s'

  unfoldable pub write_bytes : List ℕ → StreamEncoder → Result
  unfolding track_write write_string
  write_bytes b s = bind (track_write s) λ s'. write_string major_bytes b s'

  unfoldable pub write_bool : Bool → StreamEncoder → Result
  unfolding track_write put
  write_bool b s = bind (track_write s) λ s'. put (bool_byte b ∷ []) s'

  unfoldable pub write_null : StreamEncoder → Result
  unfolding track_write put
  write_null s = bind (track_write s) λ s'. put (simple_null ∷ []) s'

  unfoldable pub write_undefined : StreamEncoder → Result
  unfolding track_write put
  write_undefined s = bind (track_write s) λ s'. put (simple_undefined ∷ []) s'

  unfoldable pub write_simple : ℕ → StreamEncoder → Result
  unfolding track_write put_simple
  write_simple n s = bind (track_write s) λ s'. put_simple n s'

  unfoldable pub write_text : List ℕ → StreamEncoder → Result
  unfolding track_write write_string
  write_text t s = bind (track_write s) λ s'.
      if not s'.encoder.allow_invalid_utf8 && not (valid_utf8 t)
      then err (encoding invalid_utf8) s'
      else write_string major_text t s'

  unfoldable pub write_float32 : ℕ → StreamEncoder → Result
  unfolding track_write put
  write_float32 f s = bind (track_write s) λ s'.
      if not s'.encoder.allow_non_finite_floats && is_non_finite (widen f)
      then err (encoding non_finite_float) s'
      else put (append_float32 [] f) s'

  unfoldable pub write_float64 : ℕ → StreamEncoder → Result
  unfolding track_write put
  write_float64 f s = bind (track_write s) λ s'.
      if not s'.encoder.allow_non_finite_floats && is_non_finite f
      then err (encoding non_finite_float) s'
      else put (append_float64 [] f) s'

  unfoldable pub write_raw_cbor : List ℕ → StreamEncoder → Result
  unfolding track_write put
  write_raw_cbor raw s = bind (track_write s) λ s'. put raw s'

  unfoldable pub write_tag : ℕ → StreamEncoder → Result
  unfolding write_head
  write_tag id s = write_head major_tag id s

  -- The calls of the methods; Flush changes nothing that is modelled.
  pub data Call : Type 0 where
    call_begin_array call_begin_map : Option ℕ → Call
    call_end_container call_null call_undefined : Call
    call_value : Value → Call
    call_uint call_neg_int call_simple call_float32 call_float64 call_tag : ℕ → Call
    call_bytes call_text call_raw_cbor : List ℕ → Call
    call_bool : Bool → Call

  unfoldable pub step : Call → StreamEncoder → Result
  unfolding begin_array begin_map
  step (call_begin_array n) s = begin_array n s
  step (call_begin_map n) s = begin_map n s
  step call_end_container s = end_container s
  step call_null s = write_null s
  step call_undefined s = write_undefined s
  step (call_value v) s = write_value v s
  step (call_uint n) s = write_uint n s
  step (call_neg_int n) s = write_neg_int n s
  step (call_simple n) s = write_simple n s
  step (call_float32 f) s = write_float32 f s
  step (call_float64 f) s = write_float64 f s
  step (call_tag n) s = write_tag n s
  step (call_bytes b) s = write_bytes b s
  step (call_text t) s = write_text t s
  step (call_raw_cbor b) s = write_raw_cbor b s
  step (call_bool b) s = write_bool b s

  -- The encoder that a call leaves, on an error, too.
  abbrev pub left_by : Result → StreamEncoder
  left_by (ok s) = s
  left_by (err e s) = s

  -- A caller may go on after an error.
  unfoldable pub run : List Call → StreamEncoder → StreamEncoder
  unfolding step
  run [] s = s
  run (c ∷ cs) s = run cs (left_by (step c s))

  -- Encoder.Stream
  abbrev pub stream : Encoder → w.Sink → StreamEncoder
  stream e sink = record { sink = sink; encoder = e; stack = [] }
