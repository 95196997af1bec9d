-- ===== src/Edhoc/Export.antt =====
-- edhoc/context.go: the keying material that both parties derive when they are done. `format_int` is
-- what fmt writes for "%d"; the length of an output is not negative.
pub mod Mirrored
use corecbor.Prelude.{ℕ, List, [], ◌∷◌, ◌++◌}
use corecbor.Edhoc.Result.{Result, ok, fail, state_violation, ◌>>=◌}
use corecbor.Edhoc.Crypto.{Crypto}
use corecbor.Edhoc.KeySchedule.{encode_exporter_info, hkdf_expand, edhoc_kdf}
use corecbor.Edhoc.Initiator
use corecbor.Edhoc.Initiator.{Initiator}
use corecbor.Edhoc.Responder
use corecbor.Edhoc.Responder.{Responder}

pub record OscoreContext : Type 0 where
  pub master_secret : List ℕ
  pub master_salt : List ℕ
  pub sender_id : List ℕ
  pub recipient_id : List ℕ

-- "EDHOC_Exporter_", "OSCORE_Master_Secret" and "OSCORE_Master_Salt".
abbrev pub exporter_label : List ℕ
exporter_label =
    69 ∷ 68 ∷ 72 ∷ 79 ∷ 67 ∷ 95 ∷ 69 ∷ 120 ∷ 112 ∷ 111 ∷ 114 ∷ 116 ∷ 101 ∷ 114 ∷ 95 ∷ []

abbrev pub secret_label : List ℕ
secret_label =
    79 ∷ 83 ∷ 67 ∷ 79 ∷ 82 ∷ 69 ∷ 95 ∷ 77 ∷ 97 ∷ 115 ∷ 116 ∷ 101 ∷ 114 ∷ 95 ∷ 83 ∷ 101 ∷ 99 ∷ 114
    ∷ 101 ∷ 116 ∷ []

abbrev pub salt_label : List ℕ
salt_label =
    79 ∷ 83 ∷ 67 ∷ 79 ∷ 82 ∷ 69 ∷ 95 ∷ 77 ∷ 97 ∷ 115 ∷ 116 ∷ 101 ∷ 114 ∷ 95 ∷ 83 ∷ 97 ∷ 108 ∷ 116
    ∷ []

module _ (c : Crypto) (format_int : ℕ → List ℕ) where
  unfoldable pub edhoc_export : (prk th4 : List ℕ) → ℕ → List ℕ → ℕ → Result (List ℕ)
  unfolding encode_exporter_info hkdf_expand
  edhoc_export prk th4 label context length = do
    info ← encode_exporter_info th4 (exporter_label ++ format_int label) context length
    hkdf_expand c prk info length

  -- Initiator.Export
  unfoldable pub initiator_export : Initiator c → ℕ → List ℕ → ℕ → Result (List ℕ)
  unfolding edhoc_export
  initiator_export i label context length = elim i.state [
    | Initiator.complete ↦ edhoc_export i.prk4e3m i.th4 label context length
    | _ ↦ fail state_violation
  ]

  -- Responder.Export
  unfoldable pub responder_export : Responder c → ℕ → List ℕ → ℕ → Result (List ℕ)
  unfolding edhoc_export
  responder_export r label context length = elim r.state [
    | Responder.complete ↦ edhoc_export r.prk4e3m r.th4 label context length
    | _ ↦ fail state_violation
  ]

module _ (c : Crypto) where
  -- The secrets of ExportOSCORE, with the identifiers of the two parties.
  unfoldable pub oscore_context : (prk th4 sender recipient : List ℕ) → Result OscoreContext
  unfolding edhoc_kdf
  oscore_context prk th4 sender recipient = do
    secret ← edhoc_kdf c prk th4 secret_label 16
    salt ← edhoc_kdf c prk th4 salt_label 8
    ok (record {
      master_secret = secret;
      master_salt = salt;
      sender_id = sender;
      recipient_id = recipient;
    })

  -- Initiator.ExportOSCORE
  unfoldable pub initiator_oscore : Initiator c → Result OscoreContext
  unfolding oscore_context
  initiator_oscore i = elim i.state [
    | Initiator.complete ↦ oscore_context i.prk4e3m i.th4 i.connection_id i.peer_conn_id
    | _ ↦ fail state_violation
  ]

  -- Responder.ExportOSCORE
  unfoldable pub responder_oscore : Responder c → Result OscoreContext
  unfolding oscore_context
  responder_oscore r = elim r.state [
    | Responder.complete ↦ oscore_context r.prk4e3m r.th4 r.connection_id r.peer_conn_id
    | _ ↦ fail state_violation
  ]
