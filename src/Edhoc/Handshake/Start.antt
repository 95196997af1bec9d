-- ===== src/Edhoc/Handshake/Start.antt =====
-- edhoc/initiator.go and edhoc/responder.go: what NewInitiator and NewResponder make, and the handshake
-- of the two.
use corecbor.Prelude.{
  ℕ, ◌%◌, ◌≡◌, refl, subst, Bool, true, false, not, List, [], ◌∷◌, arith, Option, none, some,
  if◌then◌else◌,
}
use corecbor.Edhoc.Result.{
  Result, EdhocError, ok, fail, library, from_option, ◌>>=◌, >>=-ok, ok_injective,
  unsupported_suite, state_violation,
}
use corecbor.Edhoc.Message.{CipherSuite}
use corecbor.Edhoc.Message.RoundTrip.{IsString, AreSuites}
use corecbor.Edhoc.Crypto.{Crypto, IsCrypto}
use corecbor.Edhoc.KeySchedule.{is_suite_supported}
use corecbor.Edhoc.Sealing.{Config, CwtKey}
use corecbor.Edhoc.Sealing.Honest.{IsPeer}
use corecbor.Edhoc.Initiator.{Initiator, fresh_initiator, new_initiator, choose_id, has_keys}
use corecbor.Edhoc.Responder.{Responder, fresh_responder, is_member, new_responder, all_supported}
use corecbor.Edhoc.Handshake.Steps.{curve_of}
use corecbor.Edhoc.Handshake.Agreement.{IsHandshake, agrees}

-- A connection identifier that fits into a message, if one is configured.
abbrev pub FitsId : Option (List ℕ) → Type 0
FitsId o = (cid : List ℕ) → o ≡ some cid → IsString cid

module _ (c : Crypto) where
  choose_id-IsString :
      (e : c.Entropy) (o : Option (List ℕ)) (cid : List ℕ)
      → FitsId o
      → choose_id c e o ≡ ok cid
      → IsString cid
  unfolding choose_id
  choose_id-IsString e (some x) cid h g = subst IsString (ok_injective x cid g) (h x refl)
  choose_id-IsString e none cid h g =
      let (b, f, k) =
        >>=-ok (from_option library (c.random_byte e)) (λ b. ok ((b % 24) ∷ [])) cid g in
      subst IsString (ok_injective ((b % 24) ∷ []) cid k)
        (record { bytes_only = (omega arith, tt); fits = omega arith })

  guarded :
      {A : Type 0} (bad worse : Bool) (x y : EdhocError) (r : Result A) (a : A)
      → (if bad then fail x else if worse then fail y else r) ≡ ok a
      → r ≡ ok a
  guarded true worse x y r a h = cc (h)
  guarded false true x y r a h = cc (h)
  guarded false false x y r a h = h

  -- What NewInitiator makes.
  pub new_initiator-fresh_initiator :
      (e : c.Entropy) (cfg : Config c) (i : Initiator c) (s : CipherSuite) (ss : List CipherSuite)
      → new_initiator c e cfg ≡ ok i
      → cfg.suites ≡ s ∷ ss
      → (cid : List ℕ) × (choose_id c e cfg.connection_id ≡ ok cid)
        × (fresh_initiator c cfg s cid ≡ i)
  unfolding new_initiator
  new_initiator-fresh_initiator e cfg i s ss h k =
      let made : List ℕ → Result (Initiator c) = λ cid. ok (fresh_initiator c cfg s cid) in
      let g =
        guarded (not (is_suite_supported s)) (not (has_keys c cfg)) unsupported_suite
          state_violation (choose_id c e cfg.connection_id >>= made) i
          (rw (new_initiator, k) at h) in
      let (cid, f, m) = >>=-ok (choose_id c e cfg.connection_id) made i g in
      (cid, f, ok_injective (fresh_initiator c cfg s cid) i m)

  -- What NewResponder makes.
  pub new_responder-fresh_responder :
      (e : c.Entropy) (cfg : Config c) (r : Responder c)
      → new_responder c e cfg ≡ ok r
      → (cid : List ℕ) × (choose_id c e cfg.connection_id ≡ ok cid)
        × (fresh_responder c cfg cid ≡ r)
  unfolding new_responder
  new_responder-fresh_responder e cfg r h = by cfg.suites h
    where
      made : List ℕ → Result (Responder c)
      made cid = ok (fresh_responder c cfg cid)

      by :
          (suites : List CipherSuite)
          → (elim suites [
            | [] ↦ fail unsupported_suite
            | s ∷ more ↦
                if not (all_supported (s ∷ more))
                then fail unsupported_suite
                else if not (has_keys c cfg)
                then fail state_violation
                else choose_id c e cfg.connection_id >>= made
          ])
            ≡ ok r
          → (cid : List ℕ) × (choose_id c e cfg.connection_id ≡ ok cid)
            × (fresh_responder c cfg cid ≡ r)
      by [] g = cc (g)
      by (s ∷ more) g =
          let k =
            guarded (not (all_supported (s ∷ more))) (not (has_keys c cfg)) unsupported_suite
              state_violation (choose_id c e cfg.connection_id >>= made) r g in
          let (cid, f, m) = >>=-ok (choose_id c e cfg.connection_id) made r k in
          (cid, f, ok_injective (fresh_responder c cfg cid) r m)

-- An initiator and a responder as their constructors make them complete the handshake, message 4
-- included, if the responder has the initiator's first suite among its own, each knows the other's key,
-- an Ed25519 key or an ECDSA key that signs, as a raw public key or from a CWT of at most 65000 bytes,
-- GenerateKey succeeds for both, and there are at most 2^20 suites and connection identifiers of at
-- most 2^24 bytes: all calls succeed, and the two agree on the suite, the key, the transcript and each
-- other's connection identifier.
pub new_initiator-IsHandshake :
    (c : Crypto) (laws : IsCrypto c) (cwt_key : CwtKey c) (n n' e e2 e3 e4 : c.Entropy)
    (icfg rcfg : Config c) (i : Initiator c) (r : Responder c) (s : CipherSuite)
    (ss : List CipherSuite) (a b : c.Private)
    → new_initiator c n icfg ≡ ok i
    → new_responder c n' rcfg ≡ ok r
    → icfg.suites ≡ s ∷ ss
    → AreSuites s ss
    → is_member s rcfg.suites ≡ true
    → FitsId icfg.connection_id
    → FitsId rcfg.connection_id
    → IsPeer c cwt_key e4 icfg rcfg
    → IsPeer c cwt_key e3 rcfg icfg
    → c.generate_key (curve_of s) e ≡ some a
    → c.generate_key (curve_of s) e2 ≡ some b
    → IsHandshake c cwt_key e e2 e3 e4 i r
new_initiator-IsHandshake c laws cwt_key n n' e e2 e3 e4 icfg rcfg i r s ss a b mi mr ks words mem
      fi fr ipeer rpeer ga gb =
    let (ci, ni, hi) = new_initiator-fresh_initiator c n icfg i s ss mi ks in
    let (cr, nr, hr) = new_responder-fresh_responder c n' rcfg r mr in
    subst (λ x. IsHandshake c cwt_key e e2 e3 e4 x r) hi
      (subst (λ y. IsHandshake c cwt_key e e2 e3 e4 (fresh_initiator c icfg s ci) y) hr
        (agrees c laws cwt_key e e2 e3 e4 (fresh_initiator c icfg s ci) (fresh_responder c rcfg cr)
          s ss a b refl refl refl ks words (choose_id-IsString c n icfg.connection_id ci fi ni) refl
          mem (choose_id-IsString c n' rcfg.connection_id cr fr nr) ipeer rpeer ga gb))
