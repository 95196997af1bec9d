-- ===== src/Codec/Sequence/Whole.antt =====
-- sequence.go: DecodeSequence after EncodeSequence, and how its loop ends.
use corecbor.Prelude.{
  ℕ, zero, suc, ◌≤◌, ◌<◌, ◌≡◌, ◌≢◌, refl, sym, ap, false, List, [], ◌∷◌, ◌++◌, append_assoc,
  append-nil, none, All, length, length-append, arith,
}
use corecbor.Cbor.Value.{Value}
use corecbor.Rfc8949.Options.{DecodeOpts, max_bytes}
use corecbor.Rfc8949.Encode
use corecbor.Rfc8949.Encode.Plain.{IsEncodable, encode-serialize}
use corecbor.Rfc8949.Serial.{serialize}
use corecbor.Rfc8949.State.{State, ok, out_of_fuel}
use corecbor.Rfc8949.Decode.{decode}
use corecbor.Rfc8949.Valid.{IsValid, is_self_described}
use corecbor.Rfc8949.RoundTrip.Starts.{serialize_pos}
use corecbor.Rfc8949.RoundTrip.Heads.{at}
use corecbor.Rfc8949.RoundTrip.Whole.{decode-serialize}
use corecbor.Rfc8949.Total.Ensures.{
  Ensures, holds, Ensures-bind, Ensures-ne-out_of_fuel, Ensures-ok, Charged, Charged-refl,
  Charged-trans,
}
use corecbor.Rfc8949.Total.Whole.{decode-Ensures}
use corecbor.Codec.{Encoder, permissive, encode_opts, Decoder}
use corecbor.Codec.RoundTrip.{permissive-IsPlain, encoder_encode-permissive}
use corecbor.Codec.Sequence.{encode_sequence, decode_items, decode_sequence}

abbrev pub concat : List Value → List ℕ
concat [] = []
concat (v ∷ vs) = serialize v ++ concat vs

-- The options of both sides let the value through, and Decode strips no tag of it.
abbrev pub Carries : Encoder → DecodeOpts → Value → Type 0
Carries e o v = IsEncodable (encode_opts e) v × IsValid o 0 v × (is_self_described v ≡ false)

encode_sequence-concat :
    (e : Encoder) (o : DecodeOpts) (dst : List ℕ) (vs : List Value)
    → e.mode ≡ permissive
    → All (Carries e o) vs
    → encode_sequence e dst vs ≡ Encode.ok (dst ++ concat vs)
unfolding encode_sequence
encode_sequence-concat e o dst [] m h = ap Encode.ok (sym (append-nil dst))
encode_sequence-concat e o dst (v ∷ vs) m h =
    rw
      (
        encoder_encode-permissive e dst v m,
        encode-serialize (encode_opts e) dst v (permissive-IsPlain e m) h.0.0,
        ← append_assoc dst (serialize v) (concat vs),
      )
      (encode_sequence-concat e o (dst ++ serialize v) vs m h.1)

decode_items-suc :
    (fuel : ℕ) (o : DecodeOpts) (s s' s'' : State) (v : Value) (vs : List Value)
    → 1 ≤ length s.rest
    → decode s.rest o s.budget ≡ ok v s'
    → decode_items fuel o s' ≡ ok vs s''
    → decode_items (suc fuel) o s ≡ ok (v ∷ vs) s''
unfolding decode_items
decode_items-suc fuel o s s' s'' v vs h d k = by s.rest h d
  where
    by :
        (l : List ℕ)
        → 1 ≤ length l
        → decode l o s.budget ≡ ok v s'
        → decode_items (suc fuel) o (record s { rest = l }) ≡ ok (v ∷ vs) s''
    by [] q e = absurd (omega arith)
    by (x ∷ l) q e = rw (decode_items, e, k) refl

decode_items-concat :
    (e : Encoder) (o : DecodeOpts) (fuel : ℕ) (vs : List Value)
    → 23 ≤ max_bytes o
    → All (Carries e o) vs
    → length (concat vs) < fuel
    → decode_items fuel o (at (concat vs)) ≡ ok vs (at [])
unfolding decode_items
decode_items-concat e o zero vs b h k = absurd (omega arith)
decode_items-concat e o (suc fuel) [] b h k = refl
decode_items-concat e o (suc fuel) (v ∷ vs) b h k =
    decode_items-suc fuel o (at (serialize v ++ concat vs)) (at (concat vs)) (at []) v vs
      (omega (arith, serialize_pos o 0 v h.0.1, length-append (serialize v) (concat vs)))
      (decode-serialize o v (concat vs) b h.0.1 h.0.2)
      (decode_items-concat e o fuel vs b h.1
        (omega (arith, k, serialize_pos o 0 v h.0.1, length-append (serialize v) (concat vs))))

-- DecodeSequence gives back what EncodeSequence wrote with a permissive encoder, if the decoder has
-- no memory budget and allows strings of 23 bytes: the same values in the same order, for all values that the options of both let
-- through and that have no self-describe tag in front.
pub decode_sequence-encode_sequence :
    (e : Encoder) (d : Decoder) (vs : List Value)
    → e.mode ≡ permissive
    → d.budget ≡ none
    → 23 ≤ max_bytes d.opts
    → All (Carries e d.opts) vs
    → (src : List ℕ) × (encode_sequence e [] vs ≡ Encode.ok src)
      × (decode_sequence d src ≡ ok vs (at []))
unfolding decode_sequence
decode_sequence-encode_sequence e d vs m b c h = (
  concat vs,
  encode_sequence-concat e d.opts [] vs m h,
  rw b (decode_items-concat e d.opts (suc (length (concat vs))) vs c h (omega arith)),
)

decode_items-Ensures :
    (fuel : ℕ) (o : DecodeOpts) (s : State)
    → length s.rest < fuel
    → Ensures (λ vs s'. (s'.rest ≡ []) × Charged s.budget s'.budget) (decode_items fuel o s)
unfolding decode_items
decode_items-Ensures zero o s h = absurd (omega arith)
decode_items-Ensures (suc fuel) o s h = by s.rest (decode_items-Ensures fuel o) refl
  where
    by :
        (l : List ℕ)
        → ((s' : State)
            → length s'.rest < fuel
            → Ensures
                (λ vs s''. (s''.rest ≡ []) × Charged s'.budget s''.budget)
                (decode_items fuel o s'))
        → s.rest ≡ l
        → Ensures
            (λ vs s'. (s'.rest ≡ []) × Charged s.budget s'.budget)
            (decode_items (suc fuel) o (record s { rest = l }))
    by [] later e = holds (refl, Charged-refl s.budget)
    by (x ∷ l) later e = Ensures-bind (decode-Ensures (x ∷ l) o s.budget) λ v s' p.
        Ensures-bind (later s' (omega (arith, p.0, h, ap length e)))
          λ vs s'' q. holds (q.0, Charged-trans s.budget s'.budget s''.budget p.1 q.1)

-- DecodeSequence ends on every source, under all options and budgets. When it succeeds it has read
-- the whole source, and has charged the budget on top of what was allocated before.
pub decode_sequence-Ensures :
    (d : Decoder) (src : List ℕ)
    → (decode_sequence d src ≢ out_of_fuel)
      × ((vs : List Value) (s : State)
          → decode_sequence d src ≡ ok vs s
          → (s.rest ≡ []) × Charged d.budget s.budget)
unfolding decode_sequence
decode_sequence-Ensures d src =
    let e =
      decode_items-Ensures (suc (length src)) d.opts (record { rest = src; budget = d.budget })
        (omega arith) in
    (Ensures-ne-out_of_fuel e, λ vs s. Ensures-ok e)
