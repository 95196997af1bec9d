-- ===== src/Rfc8949/Homogeneous/Elements.antt =====
-- rfc8949/homogeneous.go: what the four decoders read, and where they panic.
use corecbor.Prelude.{
  ℕ, suc, ◌+◌, ◌^◌, ◌≤◌, ◌<◌, ◌≡◌, refl, sym, ap, ◌∙◌, false, List, [], ◌∷◌, ◌++◌, append_assoc,
  length, length-append, drop, drop-length_append, All, IsU64, put_u64, ◌==◌, arith,
}
use corecbor.Cbor.Value.{Value, Items, uint, float64, array, nil, cons, count_items}
use corecbor.Wire.Head.{head_bytes, parse_head, parse_arg, arg_8}
use corecbor.Wire.Head.RoundTrip.{be64-put, parse_head-head_bytes}
use corecbor.Rfc8949.RoundTrip.Heads.{length-head_bytes}
use corecbor.Rfc8949.Options.{DecodeOpts, max_array}
use corecbor.Rfc8949.Serial.{serialize, serialize_items}
use corecbor.Rfc8949.Homogeneous.{
  ok, panics, Element, float64_element, array_count, elements, uint_element, string_element,
  decode_elements, decode_uint_array, decode_bytes_array, decode_text_array, decode_float64_array,
}

-- The items that hold the elements.
abbrev pub items_of {ℓ} : {A : Type ℓ} → (A → Value) → List A → Items
items_of make [] = nil
items_of make (x ∷ xs) = cons (make x) (items_of make xs)

count_items-items_of {ℓ} :
    {A : Type ℓ} (make : A → Value) (xs : List A) → count_items (items_of make xs) ≡ length xs
count_items-items_of make [] = refl
count_items-items_of make (x ∷ xs) = ap suc (count_items-items_of make xs)

module _ {ℓ} {A : Type ℓ} (make : A → Value) (elem : Element A) where
  -- `elem` reads the encoding of `x` back, wherever it stands.
  abbrev Reads : A → Type ℓ
  Reads x =
      (pre tl : List ℕ)
      → let src = pre ++ (serialize (make x) ++ tl) in
        let h = parse_head (serialize (make x) ++ tl) in
        ((h.n == 0) ≡ false)
        × (elem h (length pre) src ≡ ok x (length pre + length (serialize (make x))))

  elements-step :
      (n pos pos' stop : ℕ) (src : List ℕ) (x : A) (xs : List A)
      → ((parse_head (drop pos src)).n == 0) ≡ false
      → elem (parse_head (drop pos src)) pos src ≡ ok x pos'
      → elements elem n pos' src ≡ ok xs stop
      → elements elem (suc n) pos src ≡ ok (x ∷ xs) stop
  unfolding elements
  elements-step n pos pos' stop src x xs e f g = rw (e, f, g) refl

  elements-read :
      (xs : List A) (pre tl : List ℕ)
      → All Reads xs
      → elements elem (length xs) (length pre) (pre ++ (serialize_items (items_of make xs) ++ tl))
        ≡ ok xs (length pre + length (serialize_items (items_of make xs)))
  unfolding elements serialize
  elements-read [] pre tl h = ap (ok []) (omega arith)
  elements-read (x ∷ xs) pre tl h =
      let enc = serialize (make x) in
      let rest = serialize_items (items_of make xs) in
      let here : drop (length pre) (pre ++ ((enc ++ rest) ++ tl)) ≡ enc ++ (rest ++ tl) =
        drop-length_append pre ((enc ++ rest) ++ tl) ∙ append_assoc enc rest tl in
      let later : (pre ++ enc) ++ (rest ++ tl) ≡ pre ++ ((enc ++ rest) ++ tl) =
        append_assoc pre enc (rest ++ tl) ∙ ap (λ r. pre ++ r) (sym (append_assoc enc rest tl)) in
      elements-step (length xs) (length pre) (length pre + length enc) _ _ x xs
        (rw here ((h.0 pre (rest ++ tl)).0))
        (rw (here, append_assoc enc rest tl) ((h.0 pre (rest ++ tl)).1))
        (rw (← later, ← length-append pre enc)
          (elements-read xs (pre ++ enc) tl h.1
            ∙ ap (ok xs) (omega (arith, length-append pre enc, length-append enc rest))))

  array_count-head :
      (o : DecodeOpts) (n : ℕ) (tl : List ℕ)
      → n ≤ max_array o
      → n < 2 ^ 63
      → array_count (head_bytes 0x80 n ++ tl) o ≡ ok n (length (head_bytes 0x80 n))
  unfolding array_count
  array_count-head o n tl h k =
      rw (parse_head-head_bytes 0x80 n tl (omega arith) (omega arith), length-head_bytes 0x80 n)
        (ground arith)

  decode_elements-serialize :
      (o : DecodeOpts) (xs : List A) (tl : List ℕ)
      → length xs ≤ max_array o
      → length xs < 2 ^ 63
      → All Reads xs
      → decode_elements elem (serialize (array (items_of make xs)) ++ tl) o
        ≡ ok xs (length (serialize (array (items_of make xs))))
  unfolding decode_elements serialize
  decode_elements-serialize o xs tl h k r =
      let head = head_bytes 0x80 (length xs) in
      let body = serialize_items (items_of make xs) in
      rw
        (
          count_items-items_of make xs,
          append_assoc head body tl,
          array_count-head o (length xs) (body ++ tl) h k,
          length-append head body,
        )
        (elements-read xs head tl r)

uint-Reads : (n : ℕ) → IsU64 n → Reads uint uint_element n
unfolding serialize uint_element
uint-Reads n h pre tl =
    rw (parse_head-head_bytes 0x00 n tl (omega arith) h, length-head_bytes 0x00 n)
      ((ground arith, ground arith))

float64-Reads : (f : ℕ) → IsU64 f → Reads float64 float64_element f
unfolding serialize float64_element parse_head parse_arg arg_8 put_u64
float64-Reads f h pre tl = rw (be64-put f h) ((refl, refl))

All-of {ℓ κ μ} :
    {A : Type ℓ} {P : A → Type κ} {Q : A → Type μ} (xs : List A)
    → ((x : A) → P x → Q x)
    → All P xs
    → All Q xs
All-of [] f h = tt
All-of (x ∷ xs) f h = (f x h.0, All-of xs f h.1)

-- DecodeUintArray reads the plain encoding of an array of 64-bit unsigned integers back, whatever
-- follows, and stops behind it, if the limit on arrays allows their number, which is below 2^63; and DecodeFloat64Array
-- the encoding of an array of 64-bit floats, bit by bit.
pub decode_array-serialize :
    (o : DecodeOpts) (ns : List ℕ) (tl : List ℕ)
    → length ns ≤ max_array o
    → length ns < 2 ^ 63
    → All IsU64 ns
    → (decode_uint_array (serialize (array (items_of uint ns)) ++ tl) o
        ≡ ok ns (length (serialize (array (items_of uint ns)))))
      × (decode_float64_array (serialize (array (items_of float64 ns)) ++ tl) o
          ≡ ok ns (length (serialize (array (items_of float64 ns)))))
unfolding decode_uint_array decode_float64_array
decode_array-serialize o ns tl h k r = (
  decode_elements-serialize uint uint_element o ns tl h k (All-of ns uint-Reads r),
  decode_elements-serialize float64 float64_element o ns tl h k (All-of ns float64-Reads r),
)

decode_elements-panics {ℓ} :
    {A : Type ℓ} (elem : Element A) (o : DecodeOpts) (n : ℕ) (tl : List ℕ)
    → 2 ^ 63 ≤ n
    → IsU64 n
    → decode_elements elem (head_bytes 0x80 n ++ tl) o ≡ panics
unfolding decode_elements array_count
decode_elements-panics elem o n tl h k =
    rw (parse_head-head_bytes 0x80 n tl (omega arith) k) (ground arith)

-- An array head whose count does not fit an int is not held to the limit on arrays: each of the
-- four decoders panics on it, under all options.
pub decode_array-panics :
    (o : DecodeOpts) (n : ℕ) (tl : List ℕ)
    → 2 ^ 63 ≤ n
    → IsU64 n
    → let src = head_bytes 0x80 n ++ tl in
      (decode_uint_array src o ≡ panics)
      × (decode_float64_array src o ≡ panics)
      × (decode_bytes_array src o ≡ panics)
      × (decode_text_array src o ≡ panics)
unfolding decode_uint_array decode_float64_array decode_bytes_array decode_text_array
decode_array-panics o n tl h k = (
  decode_elements-panics uint_element o n tl h k,
  decode_elements-panics float64_element o n tl h k,
  decode_elements-panics (string_element 0x40) o n tl h k,
  decode_elements-panics (string_element 0x60) o n tl h k,
)
