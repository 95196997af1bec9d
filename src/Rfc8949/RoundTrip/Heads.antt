-- ===== src/Rfc8949/RoundTrip/Heads.antt =====
-- One round of decodeValue on a shortest head.
use corecbor.Prelude.{
  ℕ, zero, suc, ◌+◌, ◌≤◌, ◌≡◌, refl, ap, ◌∙◌, sym, Bool, false, List, [], ◌∷◌, ◌++◌, length, drop,
  drop-length_append, take-length_append, length-append, IsU64, arith, put_u16, put_u32, put_u64,
  none,
}
use corecbor.Wire.Head.{head_bytes, is_shortest}
use corecbor.Wire.Head.RoundTrip.{IsMajor, head_of, head_width, parse_head-head_bytes}
use corecbor.Rfc8949.Options.{DecodeOpts}
use corecbor.Rfc8949.State.{State, is_long_head, advance}
use corecbor.Rfc8949.Arrays.{Decoder}
use corecbor.Rfc8949.Strings.{payload}
use corecbor.Rfc8949.Decode.{decode_step, dispatch}

abbrev pub at : List ℕ → State
at src = record { rest = src; budget = none }

pub length-head_bytes : (major arg : ℕ) → length (head_bytes major arg) ≡ head_width arg
unfolding head_bytes put_u16 put_u32 put_u64
length-head_bytes major arg = ground arith

drop-nil {ℓ} : {A : Type ℓ} (n : ℕ) → drop {A = A} n [] ≡ []
drop-nil zero = refl
drop-nil (suc n) = refl

drop-suc {ℓ} : {A : Type ℓ} (n : ℕ) (xs : List A) → drop (suc n) xs ≡ drop n (drop 1 xs)
drop-suc n [] = sym (drop-nil n)
drop-suc n (x ∷ xs) = refl

pub drop-add {ℓ} : {A : Type ℓ} (a b : ℕ) (xs : List A) → drop (a + b) xs ≡ drop b (drop a xs)
drop-add zero b xs = let e : zero + b ≡ b = omega arith in rw e
drop-add (suc a) b xs =
    let e : suc a + b ≡ suc (a + b) = omega arith in
    rw (e, drop-suc a xs, drop-suc (a + b) xs) (drop-add a b (drop 1 xs))

pub drop-head :
    (major arg : ℕ) (tl : List ℕ) → drop (head_width arg) (head_bytes major arg ++ tl) ≡ tl
drop-head major arg tl =
    rw (← length-head_bytes major arg) (drop-length_append (head_bytes major arg) tl)

head_of-long : (opts : DecodeOpts) (major arg : ℕ) → is_long_head opts (head_of major arg) ≡ false
unfolding is_long_head is_shortest
head_of-long opts major arg = ground arith

module _ (dec : Decoder) (opts : DecodeOpts) (depth : ℕ) (strip : Bool) where
  -- A shortest head passes every test of decodeValue and comes to the switch over its major type.
  pub decode_step-head :
      (major arg : ℕ) (tl : List ℕ)
      → IsMajor major
      → IsU64 arg
      → decode_step dec opts depth strip (at (head_bytes major arg ++ tl))
        ≡ dispatch dec opts (head_of major arg) depth strip (at (head_bytes major arg ++ tl))
  unfolding decode_step
  decode_step-head major arg tl hm ha =
      rw (parse_head-head_bytes major arg tl hm ha) (ground (arith, head_of-long opts major arg))

-- The payload of a string behind its head, and what follows it.
pub payload-head :
    (major : ℕ) (b tl : List ℕ)
    → let s = at (head_bytes major (length b) ++ (b ++ tl)) in
      let h = head_of major (length b) in (payload h s ≡ b) × (advance (h.n + h.arg) s ≡ at tl)
payload-head major b tl = (
  rw (drop-head major (length b) (b ++ tl)) (take-length_append b tl),
  ap at (
      drop-add (head_width (length b)) (length b) (head_bytes major (length b) ++ (b ++ tl))
      ∙ ap (drop (length b)) (drop-head major (length b) (b ++ tl))
      ∙ drop-length_append b tl),
)

-- The source holds the whole string.
pub length-head :
    (major : ℕ) (b tl : List ℕ)
    → head_width (length b) + length b ≤ length (head_bytes major (length b) ++ (b ++ tl))
length-head major b tl = omega (
  arith,
  length-append (head_bytes major (length b)) (b ++ tl),
  length-append b tl,
  length-head_bytes major (length b),
)
