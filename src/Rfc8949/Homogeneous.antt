-- ===== src/Rfc8949/Homogeneous.antt =====
-- rfc8949/homogeneous.go: arrays of one kind of element, decoded without Values. A source's length is an
-- int, below 2^63.
pub mod Elements
use corecbor.Prelude.{
  ℕ, zero, suc, ◌+◌, ◌%◌, ◌^◌, Bool, ◌||◌, not, List, [], ◌∷◌, ltb, leb, ◌==◌, if◌then◌else◌,
  length, take, drop,
}
use corecbor.Cbor.Error.{Error, truncated, type_mismatch, max_array_length}
use corecbor.Wire.Float.{widen}
use corecbor.Wire.Float16.{decode_float16}
use corecbor.Wire.Head.{
  HeadResult, parse_head, major_uint, major_bytes, major_text, major_array, major_other, ai_2bytes,
  ai_4bytes, ai_8bytes, ai_indefinite,
}
use corecbor.Rfc8949.Options.{DecodeOpts, max_array}

-- `ok` holds the position behind what was read. `panics` is a run-time panic: make of a negative or
-- an excessive length, or a slice with its end before its start.
pub data Reading {ℓ} (A : Type ℓ) : Type ℓ where
  ok : A → ℕ → Reading A
  err : Error → ℕ → Reading A
  panics : Reading A

abbrev pub bind {ℓ κ} : {A : Type ℓ} {B : Type κ} → Reading A → (A → ℕ → Reading B) → Reading B
bind (ok a pos) f = f a pos
bind (err e at) f = err e at
bind panics f = panics

-- The guards up to make: an argument of 2^63 or more is a negative int, which passes the test of
-- the limit.
unfoldable pub array_count : List ℕ → DecodeOpts → Reading ℕ
array_count src opts =
    let h = parse_head src in
    if h.n == 0
    then err truncated 0
    else if not (h.major == major_array)
    then err type_mismatch 0
    else if h.ai == ai_indefinite
    then err type_mismatch 0
    else if leb (2 ^ 63) h.arg
    then panics
    else if ltb (max_array opts) h.arg
    then err max_array_length 0
    else ok h.arg h.n

-- What one round of a loop does behind the head of the element.
abbrev pub Element {ℓ} : Type ℓ → Type ℓ
Element A = HeadResult → ℕ → List ℕ → Reading A

unfoldable pub elements {ℓ} : {A : Type ℓ} → Element A → ℕ → ℕ → List ℕ → Reading (List A)
elements elem zero pos src = ok [] pos
elements elem (suc n) pos src =
    let h = parse_head (drop pos src) in
    if h.n == 0
    then err truncated pos
    else bind (elem h pos src)
        λ a pos'. bind (elements elem n pos' src) λ rest end. ok (a ∷ rest) end

unfoldable pub uint_element : Element ℕ
uint_element h pos src =
    if not (h.major == major_uint) then err type_mismatch pos else ok h.arg (pos + h.n)

unfoldable pub float64_element : Element ℕ
float64_element h pos src =
    if not (h.major == major_other)
    then err type_mismatch pos
    else if h.ai == ai_2bytes
    then ok (decode_float16 (h.arg % 2 ^ 16)) (pos + h.n)
    else if h.ai == ai_4bytes
    then ok (widen (h.arg % 2 ^ 32)) (pos + h.n)
    else if h.ai == ai_8bytes
    then ok h.arg (pos + h.n)
    else err type_mismatch pos

-- A sum `start + length` that is not an int wraps to a negative end, and so does a negative length
-- end before the start: both pass the test against the source.
unfoldable pub string_element : ℕ → Element (List ℕ)
string_element major h pos src =
    let start = pos + h.n in
    if not (h.major == major) || (h.ai == ai_indefinite)
    then err type_mismatch pos
    else if leb (2 ^ 63) (start + h.arg)
    then panics
    else if ltb (length src) (start + h.arg)
    then err truncated pos
    else ok (take h.arg (drop start src)) (start + h.arg)

unfoldable pub decode_elements {ℓ} :
    {A : Type ℓ} → Element A → List ℕ → DecodeOpts → Reading (List A)
unfolding array_count elements
decode_elements elem src opts = bind (array_count src opts) λ n pos. elements elem n pos src

unfoldable pub decode_uint_array : List ℕ → DecodeOpts → Reading (List ℕ)
unfolding decode_elements
decode_uint_array = decode_elements uint_element

unfoldable pub decode_float64_array : List ℕ → DecodeOpts → Reading (List ℕ)
unfolding decode_elements
decode_float64_array = decode_elements float64_element

unfoldable pub decode_bytes_array : List ℕ → DecodeOpts → Reading (List (List ℕ))
unfolding decode_elements
decode_bytes_array = decode_elements (string_element major_bytes)

unfoldable pub decode_text_array : List ℕ → DecodeOpts → Reading (List (List ℕ))
unfolding decode_elements
decode_text_array = decode_elements (string_element major_text)
