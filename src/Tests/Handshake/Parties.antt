-- ===== src/Tests/Handshake/Parties.antt =====
-- The package edhoc at concrete inputs: an initiator with an Ed25519 key and a responder with an ECDSA
-- key and a CWT.
use corecbor.Prelude.{
  ◌+◌, ◌*◌, ◌%◌, ◌≤◌, ◌++◌, sym, ℕ, ◌≡◌, refl, ap, subst, ◌∙◌, List, [], ◌∷◌, none, some,
  if◌then◌else◌, length, arith,
}
use corecbor.Rfc8949.Equal.{same_bytes}
use corecbor.Wire.Head.{parse_head, parse_arg}
use corecbor.Rfc8949.Options.{max_bytes}
use corecbor.Rfc8949.State.{is_long_head, charge}
use corecbor.Rfc8949.Strings.{decode_bytes}
use corecbor.Rfc8949.Decode.{decode, decode_value, decode_step, dispatch}
use corecbor.Edhoc.Result.{ok, fail, after, authentication, message_format}
use corecbor.Edhoc.Message.{
  decode_suites, suites_of, decode_one_value, decode_bstr, decode_connection_id, encode_message1,
  decode_message1, encode_message2, decode_message2,
}
use corecbor.Edhoc.Message.RoundTrip.{
  IsString, first_message, decode_message1-encode_message1, decode_message2-encode_message2,
}
use corecbor.Edhoc.Crypto.{p256}
use corecbor.Edhoc.KeySchedule.{get_suite_params, is_suite_supported}
use corecbor.Edhoc.Signature.{
  PublicKey, Signer, ed25519_key, ecdsa_key, ed25519_signer, ecdsa_signer,
}
use corecbor.Edhoc.Signature.Verified.{IsSigner}
use corecbor.Edhoc.Sealing.{Config, CwtKey, rpk, cwt}
use corecbor.Edhoc.Sealing.Honest.{IsPeer, by_raw_key, by_cwt}
use corecbor.Edhoc.Initiator.{
  Initiator, fresh_initiator, new_initiator, choose_id, has_keys, create_message1, process_message2,
  read_message2,
}
use corecbor.Edhoc.Responder.{
  Responder, fresh_responder, new_responder, all_supported, is_member, negotiate_suite,
  answer_message1, read_message1, process_message1, process_message3,
}
use corecbor.Edhoc.Export.{
  OscoreContext, initiator_export, responder_export, initiator_oscore, responder_oscore,
}
use corecbor.Edhoc.Export.Mirrored.{mirrored, export-IsAgreed}
use corecbor.Edhoc.Runs.{
  InitiatorCall, create_1, process_2, run_initiator, ResponderCall, process_1, process_3,
  run_responder,
}
use corecbor.Edhoc.Runs.Initiators
use corecbor.Edhoc.Runs.Initiators.{initiator_export-HasAccepted}
use corecbor.Edhoc.Runs.Responders
use corecbor.Edhoc.Runs.Responders.{responder_export-HasAccepted}
use corecbor.Edhoc.Runs.Outcomes.{Alike}
use corecbor.Edhoc.Runs.Retries.{process_message2-retry}
use corecbor.Edhoc.Runs.Answers.{process_message1-retry}
use corecbor.Edhoc.Handshake.Steps.{started}
use corecbor.Edhoc.Handshake.Negotiation.{create_message1-other_curve}
use corecbor.Edhoc.Handshake.Agreement.{IsHandshake}
use corecbor.Edhoc.Handshake.Start.{new_initiator-IsHandshake}
use corecbor.Cwt.Registered.{some_injective}
use corecbor.Tests.Handshake.{toy, toy-IsCrypto}

abbrev token : List ℕ
token = 0xd2 ∷ 0x84 ∷ 0x43 ∷ []

abbrev issuer : PublicKey toy
issuer = ed25519_key (5 ∷ [])

-- The one CWT that verifies confirms the responder's key.
abbrev toy_cwt_key : CwtKey toy
toy_cwt_key b k = if same_bytes b token then ok (ecdsa_key 9) else fail authentication

abbrev initiator_signer : Signer toy
initiator_signer = ed25519_signer 7

abbrev responder_signer : Signer toy
responder_signer = ecdsa_signer 9

abbrev initiator_config : Config toy
initiator_config = record {
  suites = 2 ∷ 0 ∷ [];
  private_key = some initiator_signer;
  peer_public = some issuer;
  connection_id = some (0x17 ∷ []);
  credential = none;
  peer_credential = some (record { type = cwt; cwt_bytes = [] });
  cwt_issuer_key = none;
}

abbrev responder_config : Config toy
responder_config = record {
  suites = 0 ∷ 2 ∷ [];
  private_key = some responder_signer;
  peer_public = some (ed25519_key (toy.ed25519_public 7));
  connection_id = none;
  credential = some (record { type = cwt; cwt_bytes = token });
  peer_credential = some (record { type = rpk; cwt_bytes = [] });
  cwt_issuer_key = none;
}

abbrev initiator : Initiator toy
initiator = fresh_initiator toy initiator_config 2 (0x17 ∷ [])

abbrev responder : Responder toy
responder = fresh_responder toy responder_config (6 ∷ [])

made_initiator : new_initiator toy 0 initiator_config ≡ ok initiator
unfolding new_initiator is_suite_supported has_keys choose_id
made_initiator = refl

made_responder : new_responder toy 30 responder_config ≡ ok responder
unfolding new_responder all_supported is_suite_supported has_keys choose_id
made_responder = refl

initiator-IsPeer : IsPeer toy toy_cwt_key 4 initiator_config responder_config
initiator-IsPeer = record {
  signer = initiator_signer;
  signs = unfold IsSigner in tt;
  private_key = refl;
  known = by_raw_key refl refl refl;
}

responder-IsPeer : IsPeer toy toy_cwt_key 3 responder_config initiator_config
responder-IsPeer = record {
  signer = responder_signer;
  signs = unfold IsSigner in (λ h. (_, _, refl), (_, refl));
  private_key = refl;
  known = by_cwt token [] refl refl (ground arith) (omega arith) (unfold same_bytes in refl);
}

short_id : (cid : List ℕ) → some (0x17 ∷ []) ≡ some cid → IsString cid
short_id cid e =
    subst IsString (some_injective (0x17 ∷ []) cid e)
      (record { bytes_only = (omega arith, tt); fits = omega arith })

new_initiator-IsHandshake_example : IsHandshake toy toy_cwt_key 1 2 3 4 initiator responder
new_initiator-IsHandshake_example =
    new_initiator-IsHandshake toy toy-IsCrypto toy_cwt_key 0 30 1 2 3 4 initiator_config
      responder_config initiator responder 2 (0 ∷ []) _ _ made_initiator made_responder refl
      (record { words = ground arith; fit = omega arith }) (unfold is_member in refl) short_id
      (λ cid e. cc (e)) initiator-IsPeer responder-IsPeer refl refl

abbrev run : IsHandshake toy toy_cwt_key 1 2 3 4 initiator responder
run = new_initiator-IsHandshake_example

-- fmt's "%d", for a digit.
abbrev digit : ℕ → List ℕ
digit n = (48 + n % 10) ∷ []

export-IsAgreed_example :
    ((label : ℕ) (context : List ℕ) (n : ℕ)
      → initiator_export toy digit run.i2 label context n
        ≡ responder_export toy digit run.r2 label context n)
    × ((label : ℕ) (context : List ℕ) (n : ℕ)
        → n ≤ 255 * 32
        → (out : List ℕ) × (initiator_export toy digit run.i2 label context n ≡ ok out)
          × (length out ≡ n))
    × ((x : OscoreContext) × (initiator_oscore toy run.i2 ≡ ok x)
        × (responder_oscore toy run.r2 ≡ ok (mirrored x))
        × (length x.master_secret ≡ 16)
        × (length x.master_salt ≡ 8)
        × (x.sender_id ≡ run.i2.connection_id)
        × (x.recipient_id ≡ run.r2.connection_id))
export-IsAgreed_example = export-IsAgreed toy toy-IsCrypto digit run.i2 run.r2 run.agreed

abbrev initiator_calls : List (InitiatorCall toy toy_cwt_key)
initiator_calls = create_1 1 ∷ process_2 4 run.m2 ∷ []

ran_initiator : run.i2 ≡ run_initiator toy toy_cwt_key initiator initiator_calls
unfolding run_initiator
ran_initiator = sym (
    ap (λ x. (process_message2 toy toy_cwt_key 4 x.0 run.m2).0) run.sends_1
    ∙ ap (λ x. x.0) run.answers_2)

initiator_out :
    (out : List ℕ) × (initiator_export toy digit
        (run_initiator toy toy_cwt_key initiator initiator_calls)
        0
        []
        32
      ≡ ok out)
initiator_out =
    let (out, e, k) = export-IsAgreed_example.1 0 [] 32 (omega arith) in
    (out, subst (λ i. initiator_export toy digit i 0 [] 32 ≡ ok out) ran_initiator e)

initiator_export-HasAccepted_example :
    ((run_initiator toy toy_cwt_key initiator initiator_calls).cfg ≡ initiator_config)
    × Initiators.HasAccepted toy toy_cwt_key
        (run_initiator toy toy_cwt_key initiator initiator_calls)
initiator_export-HasAccepted_example =
    initiator_export-HasAccepted toy toy_cwt_key digit 0 initiator_config initiator initiator_calls
      0 [] 32 initiator_out.0 made_initiator initiator_out.1

abbrev responder_calls : List (ResponderCall toy toy_cwt_key)
responder_calls = process_1 2 3 run.m1 ∷ process_3 run.m3 ∷ []

ran_responder : run.r2 ≡ run_responder toy toy_cwt_key responder responder_calls
unfolding run_responder
ran_responder = sym (
    ap (λ x. (process_message3 toy toy_cwt_key x.0 run.m3).0) run.answers_1
    ∙ ap (λ x. x.0) run.accepts_3)

responder_out :
    (out : List ℕ) × (responder_export toy digit
        (run_responder toy toy_cwt_key responder responder_calls)
        0
        []
        32
      ≡ ok out)
responder_out =
    let (out, e, k) = export-IsAgreed_example.1 0 [] 32 (omega arith) in
    (
      out,
      subst (λ r. responder_export toy digit r 0 [] 32 ≡ ok out) ran_responder
          (sym (export-IsAgreed_example.0 0 [] 32) ∙ e),
    )

responder_export-HasAccepted_example :
    ((run_responder toy toy_cwt_key responder responder_calls).cfg ≡ responder_config)
    × Responders.HasAccepted toy toy_cwt_key
        (run_responder toy toy_cwt_key responder responder_calls)
responder_export-HasAccepted_example =
    responder_export-HasAccepted toy toy_cwt_key digit 30 responder_config responder responder_calls
      0 [] 32 responder_out.0 made_responder responder_out.1

-- An initiator that waits for message 2.
abbrev waiting : Initiator toy
waiting = started toy initiator (p256, 1) []

-- A message 2 whose ephemeral key is a single byte.
abbrev short_message2 : List ℕ
short_message2 = 0x41 ∷ 7 ∷ 5 ∷ 0x40 ∷ []

abbrev disturbed : Initiator toy
disturbed = record waiting { peer_conn_id = 5 ∷ [] }

bad_message2 :
    process_message2 toy toy_cwt_key 4 waiting short_message2 ≡ (disturbed, fail message_format)
unfolding after process_message2 read_message2 decode_message2 decode_bstr decode_connection_id
    decode_one_value decode decode_value decode_step parse_head parse_arg is_long_head dispatch
    decode_bytes max_bytes charge get_suite_params
bad_message2 = refl

process_message2-retry_example :
    Alike
      (process_message2 toy toy_cwt_key 5 waiting run.m2)
      (process_message2 toy toy_cwt_key 5 disturbed run.m2)
process_message2-retry_example =
    process_message2-retry toy toy_cwt_key 4 5 waiting disturbed short_message2 run.m2
      message_format bad_message2

-- A message 1 for suite 2 whose ephemeral key is a single byte.
abbrev short_message1 : List ℕ
short_message1 = 0x00 ∷ 0x02 ∷ 0x41 ∷ 7 ∷ 5 ∷ []

abbrev disturbed_responder : Responder toy
disturbed_responder = record responder { suite = 2; sp = get_suite_params 2 }

bad_message1 :
    process_message1 toy 1 2 responder short_message1 ≡ (disturbed_responder, fail message_format)
unfolding after process_message1 read_message1 answer_message1 negotiate_suite is_member
    decode_message1 decode_suites suites_of decode_bstr decode_connection_id decode_one_value decode
    decode_value decode_step parse_head parse_arg is_long_head dispatch decode_bytes max_bytes
    charge get_suite_params
bad_message1 = refl

process_message1-retry_example :
    Alike
      (process_message1 toy 2 3 responder run.m1)
      (process_message1 toy 2 3 disturbed_responder run.m1)
process_message1-retry_example =
    process_message1-retry toy 1 2 2 3 responder disturbed_responder short_message1 run.m1
      message_format bad_message1

-- A responder with the other curve only.
abbrev x25519_responder : Responder toy
x25519_responder = fresh_responder toy (record responder_config { suites = 0 ∷ [] }) (6 ∷ [])

create_message1-other_curve_example :
    (m1 : List ℕ) × ((create_message1 toy 1 initiator).1 ≡ ok m1)
    × ((process_message1 toy 2 3 x25519_responder m1).1 ≡ fail message_format)
create_message1-other_curve_example =
    create_message1-other_curve toy toy-IsCrypto 1 2 3 initiator x25519_responder 2 0 (0 ∷ []) _
      refl refl refl refl (record { words = ground arith; fit = omega arith })
      (record { bytes_only = ground arith; fits = omega arith }) refl refl
      (unfold negotiate_suite is_member in refl) (λ e. cc (e))

decode_message1-encode_message1_example :
    (raw : List ℕ) × (encode_message1 (first_message 0 2 (0 ∷ []) (1 ∷ 2 ∷ []) (0x17 ∷ []))
      ≡ ok raw)
    × (decode_message1 (raw ++ (0xf6 ∷ []))
        ≡ ok (first_message 0 2 (0 ∷ []) (1 ∷ 2 ∷ []) (0x17 ∷ [])))
decode_message1-encode_message1_example =
    decode_message1-encode_message1 0 2 (0 ∷ []) (1 ∷ 2 ∷ []) (0x17 ∷ []) (0xf6 ∷ []) (omega arith)
      (record { words = ground arith; fit = omega arith }) (omega arith)
      (record { bytes_only = ground arith; fits = omega arith })

decode_message2-encode_message2_example :
    (raw : List ℕ) × (encode_message2
        (record { gy = 1 ∷ []; cr = 0x18 ∷ []; ciphertext = 3 ∷ 4 ∷ [] })
      ≡ ok raw)
    × (decode_message2 (raw ++ [])
        ≡ ok (record { gy = 1 ∷ []; cr = 0x18 ∷ []; ciphertext = 3 ∷ 4 ∷ [] }))
decode_message2-encode_message2_example =
    decode_message2-encode_message2
      (record { gy = 1 ∷ []; cr = 0x18 ∷ []; ciphertext = 3 ∷ 4 ∷ [] }) [] (omega arith)
      (record { bytes_only = ground arith; fits = omega arith }) (omega arith)
