-- ===== src/Edhoc/Export/Mirrored.antt =====
-- edhoc/context.go: two parties that are done derive the same keying material.
use corecbor.Prelude.{ℕ, ◌≤◌, ◌*◌, ◌≡◌, refl, List, ◌++◌, length, arith}
use corecbor.Cbor.Value.{uint, bytes, text, array, nil, cons}
use corecbor.Rfc8949.Serial.{serialize}
use corecbor.Edhoc.Message.Values.{AreLeaves}
use corecbor.Edhoc.Result.{ok}
use corecbor.Edhoc.Crypto.{Crypto, IsCrypto}
use corecbor.Edhoc.KeySchedule.{encode_exporter_info, hkdf_expand}
use corecbor.Edhoc.Sealing.Derived.{edhoc_kdf-size, encode_array-serialize}
use corecbor.Edhoc.Initiator.{Initiator}
use corecbor.Edhoc.Responder.{Responder}
use corecbor.Edhoc.Handshake.Agreement.{IsAgreed}
use corecbor.Edhoc.Export.{
  OscoreContext, exporter_label, secret_label, salt_label, edhoc_export, initiator_export,
  responder_export, oscore_context, initiator_oscore, responder_oscore,
}

-- The other party's view of a context.
abbrev pub mirrored : OscoreContext → OscoreContext
mirrored x = record x { sender_id = x.recipient_id; recipient_id = x.sender_id }

-- EDHOC_Exporter gives as many bytes as it is asked for, up to the most that HKDF gives.
pub edhoc_export-size :
    (c : Crypto) (laws : IsCrypto c) (format_int : ℕ → List ℕ) (prk th4 : List ℕ) (label : ℕ)
    (context : List ℕ) (n : ℕ)
    → n ≤ 255 * 32
    → (out : List ℕ) × (edhoc_export c format_int prk th4 label context n ≡ ok out)
      × (length out ≡ n)
unfolding edhoc_export encode_exporter_info hkdf_expand
edhoc_export-size c laws format_int prk th4 label context n h =
    let xs = cons (bytes th4) (
      cons (text (exporter_label ++ format_int label))
        (cons (bytes context) (cons (uint n) nil))) in
    let r = laws.hkdf_expand-size prk (serialize (array xs)) n h in
    (r.0, rw (encode_array-serialize xs (unfold AreLeaves in tt), r.1) refl, r.2)

-- Two parties that are done and agree export the same material for every label, context and length,
-- errors included, without an error for lengths of at most 8160, and both of their OSCORE contexts are derived: with the same secret of 16 and salt
-- of 8 bytes, and with the two connection identifiers for sender and recipient, exchanged.
pub export-IsAgreed :
    (c : Crypto) (laws : IsCrypto c) (format_int : ℕ → List ℕ) (i : Initiator c) (r : Responder c)
    → IsAgreed c i r
    → ((label : ℕ) (context : List ℕ) (n : ℕ)
        → initiator_export c format_int i label context n
          ≡ responder_export c format_int r label context n)
      × ((label : ℕ) (context : List ℕ) (n : ℕ)
          → n ≤ 255 * 32
          → (out : List ℕ) × (initiator_export c format_int i label context n ≡ ok out)
            × (length out ≡ n))
      × ((x : OscoreContext) × (initiator_oscore c i ≡ ok x)
          × (responder_oscore c r ≡ ok (mirrored x))
          × (length x.master_secret ≡ 16)
          × (length x.master_salt ≡ 8)
          × (x.sender_id ≡ i.connection_id)
          × (x.recipient_id ≡ r.connection_id))
unfolding initiator_export responder_export initiator_oscore responder_oscore oscore_context
export-IsAgreed c laws format_int i r h =
    let secret = edhoc_kdf-size c laws r.prk4e3m r.th4 secret_label 16 (omega arith) in
    let salt = edhoc_kdf-size c laws r.prk4e3m r.th4 salt_label 8 (omega arith) in
    let x : OscoreContext = record {
      master_secret = secret.0;
      master_salt = salt.0;
      sender_id = i.connection_id;
      recipient_id = r.connection_id;
    } in
    (
      λ label context n.
          rw
            (
              initiator_export, responder_export, h.initiator_complete, h.responder_complete,
              h.same_key, h.same_transcript,
            )
            refl,
      λ label context n m.
          let (out, e, k) = edhoc_export-size c laws format_int i.prk4e3m i.th4 label context n m in
          (out, rw (initiator_export, h.initiator_complete) e, k),
      (
        x,
        rw
            (
              initiator_oscore, h.initiator_complete, h.same_key, h.same_transcript, h.responder_id,
              secret.1, salt.1,
            )
            refl,
        rw (responder_oscore, h.responder_complete, h.initiator_id, secret.1, salt.1) refl,
        secret.2,
        salt.2,
        refl,
        refl,
      ),
    )
