-- ===== src/Edhoc/Handshake/Negotiation.antt =====
-- edhoc/responder.go: ProcessMessage1 where negotiateSuite does not choose the initiator's first suite.
use corecbor.Prelude.{
  ℕ, ◌≡◌, ◌≢◌, refl, sym, ap, ◌∙◌, List, [], ◌∷◌, append-nil, Option, none, some, arith,
}
use corecbor.Edhoc.Result.{ok, fail, message_format, after}
use corecbor.Edhoc.Message.{CipherSuite, decode_message1}
use corecbor.Edhoc.Message.RoundTrip.{
  IsString, AreSuites, first_message, decode_message1-encode_message1,
}
use corecbor.Edhoc.Crypto.{Curve, x25519, p256, key_size, Crypto, IsCrypto, IsKeyOf}
use corecbor.Edhoc.KeySchedule.{get_suite_params}
use corecbor.Edhoc.Initiator
use corecbor.Edhoc.Initiator.{Initiator, create_message1}
use corecbor.Edhoc.Responder
use corecbor.Edhoc.Responder.{
  Responder, negotiate_suite, answer_message1, read_message1, process_message1,
}
use corecbor.Edhoc.Handshake.Steps.{curve_of, create_message1-started}
use corecbor.Edhoc.Handshake.Agreement.{public_most}

key_size_injective : (k l : Curve) → key_size k ≡ key_size l → k ≡ l
key_size_injective x25519 x25519 e = refl
key_size_injective p256 p256 e = refl
key_size_injective x25519 p256 e = absurd (omega (arith, e))
key_size_injective p256 x25519 e = absurd (omega (arith, e))

module _ (c : Crypto) (laws : IsCrypto c) where
  other_curve-none :
      (k l : Curve) (a : c.Private)
      → IsKeyOf c k a
      → k ≢ l
      → c.new_public_key l (c.public_bytes (c.public_key a)) ≡ none
  other_curve-none k l a own d = by _ refl
    where
      by :
          (o : Option c.Public)
          → c.new_public_key l (c.public_bytes (c.public_key a)) ≡ o
          → c.new_public_key l (c.public_bytes (c.public_key a)) ≡ none
      by none f = f
      by (some p) f = absurd (
          d (
            key_size_injective k l
              (sym (laws.public_bytes-size k a own).0 ∙ laws.new_public_key-size l _ p f)))

  process_message1-other_curve :
      (e e' : c.Entropy) (r : Responder c) (s p : CipherSuite) (ss : List CipherSuite)
      (gx ci m1 : List ℕ)
      → r.state ≡ Responder.init
      → decode_message1 m1 ≡ ok (first_message 0 s ss gx ci)
      → negotiate_suite r.cfg.suites (s ∷ ss) ≡ some p
      → c.new_public_key (curve_of p) gx ≡ none
      → (process_message1 c e e' r m1).1 ≡ fail message_format
  unfolding after process_message1 read_message1 answer_message1 get_suite_params
  process_message1-other_curve e e' r s p ss gx ci m1 st d n k =
      rw (process_message1, st, d, n, k) refl

-- An initiator that proposes several suites uses the curve of the first one. If the responder
-- negotiates one with the other curve, it rejects the initiator's message 1 as malformed, so the two do
-- not get to the suite that they have in common.
pub create_message1-other_curve :
    (c : Crypto) (laws : IsCrypto c) (e e' e3 : c.Entropy) (i : Initiator c) (r : Responder c)
    (s p : CipherSuite) (ss : List CipherSuite) (a : c.Private)
    → i.state ≡ Initiator.init
    → i.sp ≡ get_suite_params s
    → i.suite ≡ s
    → i.cfg.suites ≡ s ∷ ss
    → AreSuites s ss
    → IsString i.connection_id
    → c.generate_key (curve_of s) e ≡ some a
    → r.state ≡ Responder.init
    → negotiate_suite r.cfg.suites (s ∷ ss) ≡ some p
    → curve_of s ≢ curve_of p
    → (m1 : List ℕ) × ((create_message1 c e i).1 ≡ ok m1)
      × ((process_message1 c e' e3 r m1).1 ≡ fail message_format)
create_message1-other_curve c laws e e' e3 i r s p ss a ist isp isu ics words ici ga rst n d =
    let own : IsKeyOf c (curve_of s) a = record { source = e; generated = ga } in
    let gx = c.public_bytes (c.public_key a) in
    let short = public_most (curve_of s) gx (laws.public_bytes-size (curve_of s) a own).0 in
    let (m1, enc, dec) =
      decode_message1-encode_message1 0 s ss gx i.connection_id [] (omega arith) words short ici in
    (
      m1,
      ap (λ x. x.1) (create_message1-started c e i s ss a m1 ist isp isu ics ga enc),
      process_message1-other_curve c laws e' e3 r s p ss gx i.connection_id m1 rst
          (ap decode_message1 (sym (append-nil m1)) ∙ dec) n
          (other_curve-none c laws (curve_of s) (curve_of p) a own d),
    )
