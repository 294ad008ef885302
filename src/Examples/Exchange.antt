-- ===== src/Examples/Exchange.antt =====
-- Runs of the handshake: the token, the transcript, and the two orders of the confirmation.
use openscreen_rs.Base.{
  ℕ, ◌≤◌, ◌<◌, ◌≡◌, ◌≢◌, refl, true, false, none, some, List, [], ◌∷◌, ◌++◌, replicate, length,
  arith, ok, err, ◌>>=◌, from_utf8, flatten, is_utf8,
}
use openscreen_rs.Common.TypeKey.{decode_type_key}
use openscreen_rs.Network.{NetworkError, NetworkEvent, NetworkInput, NetworkOutput}
use openscreen_rs.Network.Messages.{
  AuthSpake2Handshake, Spake2PskStatus, NetworkMessage, message_type_from_u16, psk_status_from_u8,
}
use openscreen_rs.Network.Messages.Codec.{read}
use openscreen_rs.Network.Messages.Codec.Decode.{
  text_token, decode_token, handshake_field, handshake_fields, decode_handshake_body, decode_body,
  decode,
}
use openscreen_rs.Network.Messages.Codec.Wire.{wire}
use openscreen_rs.Network.Messages.Codec.RoundTrip.{decode-wire}
use openscreen_rs.Network.CryptoData.{CryptoData, new as new_data, auth_token_str}
use openscreen_rs.Network.StateMachine.Context.{
  State, on_crypto, push_output, store, request, request_start,
}
use openscreen_rs.Network.CryptoData.Buffers.{Buffer, put, clear, extend}
use openscreen_rs.Network.StateMachine.Handlers.{
  AwaitingHandshake.handle as awaiting_handshake_handle, AwaitingHandshake.check_token,
  AwaitingHandshake.match_token, AwaitingHandshake.continue_role,
}
use openscreen_rs.Network.StateMachine.Spake2.{Spake2StateMachine, dispatch, handle}
use openscreen_rs.Network.StateMachine.Spake2.Final.{run}
use openscreen_rs.Network.StateMachine.Spake2.Token.{wrong_token, token_required}
use openscreen_rs.Network.StateMachine.Spake2.Handshake.{handshake}
use openscreen_rs.Network.StateMachine.Spake2.Agreement.{one_transcript, keys_request}
use openscreen_rs.Network.StateMachine.Spake2.Keys.{sent, verifying, requests}
use openscreen_rs.Network.StateMachine.Spake2.Confirmation.{either_order}
use openscreen_rs.Network.StateMachine.Handlers.{Idle.default_capabilities}
use openscreen_rs.Network.StateMachine.Spake2.Ends.{
  ok_status, role_requests, exchanges_capabilities, authenticates, early_message_waits,
}
use openscreen_rs.Examples.Crates.{crates, crates-Laws, head, read_head}

abbrev initiator_data : CryptoData
initiator_data = record new_data {
  psk = 1 ∷ 2 ∷ 3 ∷ 4 ∷ [];
  auth_token = 97 ∷ 116 ∷ [];
  my_fingerprint = 8 ∷ [];
  peer_fingerprint = 7 ∷ [];
}

abbrev pub responder_data : CryptoData
responder_data = record new_data {
  psk = 1 ∷ 2 ∷ 3 ∷ 4 ∷ [];
  auth_token = 97 ∷ 116 ∷ [];
  my_fingerprint = 7 ∷ [];
  peer_fingerprint = 8 ∷ [];
  is_responder = true;
}

abbrev offer : AuthSpake2Handshake
offer = record {
  initiation_token = record { token = some (97 ∷ 116 ∷ []) };
  psk_status = Spake2PskStatus.psk_shown;
  public_value = 5 ∷ 5 ∷ [];
}

-- With no token.
abbrev bare : AuthSpake2Handshake
bare = record offer { initiation_token = record { token = none } }

abbrev responder : Spake2StateMachine
responder = record { state = State.awaiting_handshake; crypto_data = responder_data }

abbrev bytes_of : AuthSpake2Handshake → List ℕ
bytes_of msg = wire crates (NetworkMessage.auth_spake2_handshake msg)

offer_accepted :
    (handle crates responder (NetworkInput.data_received 0 (bytes_of offer)) []).result ≡ ok tt
unfolding handle dispatch awaiting_handshake_handle continue_role check_token match_token on_crypto
    push_output store request request_start auth_token_str clear extend decode_type_key read
    text_token decode_token handshake_field handshake_fields decode_handshake_body decode_body
    decode message_type_from_u16 psk_status_from_u8 head read_head from_utf8 is_utf8 flatten ◌>>=◌
offer_accepted = refl

token_required_example :
    (msg : AuthSpake2Handshake) × (decode crates (bytes_of offer)
      ≡ ok (NetworkMessage.auth_spake2_handshake msg))
    × (msg.initiation_token.token ≡ some (97 ∷ 116 ∷ []))
token_required_example =
    token_required crates crates-Laws responder_data 0 (bytes_of offer) [] refl refl offer_accepted

no_token : bare.initiation_token.token ≢ some (97 ∷ 116 ∷ [])
no_token e = cc

wrong_token_example :
    handle crates responder (NetworkInput.data_received 0 (bytes_of bare ++ [])) [] ≡ record {
      result = err NetworkError.authentication_failed;
      machine = record { state = State.poisoned; crypto_data = responder_data };
      outputs = [];
    }
wrong_token_example =
    wrong_token crates crates-Laws responder_data 0 (bytes_of bare ++ []) [] bare refl refl
      (decode-wire crates crates-Laws (NetworkMessage.auth_spake2_handshake bare) []
        (tt, omega arith))
      no_token

abbrev answer : NetworkMessage
answer = handshake Spake2PskStatus.psk_input (97 ∷ 116 ∷ []) (6 ∷ 6 ∷ [])

abbrev offered : NetworkMessage
offered = handshake Spake2PskStatus.psk_shown (97 ∷ 116 ∷ []) (5 ∷ 5 ∷ [])

token_valid : is_utf8 (97 ∷ 116 ∷ []) ≡ true
unfolding is_utf8
token_valid = refl

offered_fits : length (wire crates offered) ≤ 256
unfolding head flatten
offered_fits = omega arith

answer_fits : length (wire crates answer) ≤ 256
unfolding head flatten
answer_fits = omega arith

abbrev public_value : List ℕ → NetworkInput
public_value value = NetworkInput.crypto_completed (record { op_id = 1; payload = value })

one_transcript_example :
    let transcript = wire crates offered ++ wire crates answer in
    let initiator : Spake2StateMachine = record {
      state = State.initiating_handshake;
      crypto_data = initiator_data;
    } in
    let i1 = handle crates initiator (public_value (5 ∷ 5 ∷ [])) [] in
    let r1 = handle crates responder (NetworkInput.data_received 0 (wire crates offered)) [] in
    let r2 = handle crates r1.machine (public_value (6 ∷ 6 ∷ [])) [] in
    let i2 = handle crates i1.machine (NetworkInput.data_received 0 (wire crates answer)) [] in
    (i1.outputs ≡ NetworkOutput.send_message offered ∷ [])
    × (r2.outputs
        ≡ NetworkOutput.send_message answer
          ∷ keys_request 2 (6 ∷ 6 ∷ []) (5 ∷ 5 ∷ []) transcript (7 ∷ []) (8 ∷ []) true
          ∷ [])
    × (i2.outputs
        ≡ keys_request 3 (5 ∷ 5 ∷ []) (6 ∷ 6 ∷ []) transcript (8 ∷ []) (7 ∷ []) false ∷ [])
    × (i2.machine.state ≡ State.computing)
    × (r2.machine.state ≡ State.computing)
    × (i2.machine.crypto_data.transcript ≡ transcript)
    × (r2.machine.crypto_data.transcript ≡ transcript)
one_transcript_example =
    one_transcript crates crates-Laws initiator_data responder_data 1 1 0 0 (5 ∷ 5 ∷ [])
      (6 ∷ 6 ∷ []) refl refl refl refl token_valid (omega arith) (omega arith) (omega arith)
      offered_fits answer_fits

abbrev pub value : List ℕ
value = replicate 32 9

abbrev pub confirmation : List ℕ
confirmation =
    wire crates (NetworkMessage.auth_spake2_confirmation (record { confirmation_value = value }))
    ++ []

abbrev pub keys : List ℕ
keys = replicate 128 1

pub confirmation_fits : length confirmation ≤ 256
unfolding head flatten
confirmation_fits = omega arith

pub confirmation_some : 0 < length confirmation
unfolding head flatten
confirmation_some = omega arith

either_order_example :
    let m : Spake2StateMachine = record { state = State.computing; crypto_data = responder_data } in
    let received = NetworkInput.data_received 3 confirmation in
    let keys_done = NetworkInput.crypto_completed (record { op_id = 2; payload = keys }) in
    let after : Spake2StateMachine = record {
      state = State.computing;
      crypto_data = verifying keys value responder_data;
    } in
    (run crates m (received ∷ keys_done ∷ []) ≡ after)
    × (run crates m (keys_done ∷ received ∷ []) ≡ after)
    × (sent crates m (received ∷ keys_done ∷ []) ≡ requests keys value responder_data)
    × (sent crates m (keys_done ∷ received ∷ []) ≡ requests keys value responder_data)
either_order_example =
    either_order crates crates-Laws responder_data keys value confirmation (omega arith)
      (omega arith) refl confirmation_fits confirmation_some (omega arith) (omega arith)
      (decode-wire crates crates-Laws
        (NetworkMessage.auth_spake2_confirmation (record { confirmation_value = value })) []
        (omega arith))
      3 2

authenticates_example :
    let m : Spake2StateMachine = record { state = State.computing; crypto_data = responder_data } in
    let verified = NetworkInput.crypto_completed (record { op_id = 4; payload = [] }) in
    let status = NetworkInput.data_received 5 (wire crates ok_status ++ 0 ∷ []) in
    (run crates m (verified ∷ status ∷ [])
      ≡ record { state = State.authenticated; crypto_data = responder_data })
    × (sent crates m (verified ∷ status ∷ [])
        ≡ NetworkOutput.send_message ok_status
          ∷ NetworkOutput.event NetworkEvent.authenticated
          ∷ [])
authenticates_example = authenticates crates crates-Laws responder_data 4 5 (0 ∷ [])

exchanges_capabilities_example :
    let m : Spake2StateMachine = record { state = State.idle; crypto_data = initiator_data } in
    let received =
      NetworkInput.data_received 0
        (wire crates (NetworkMessage.auth_capabilities default_capabilities) ++ []) in
    (run crates m (NetworkInput.transport_connected ∷ received ∷ [])
      ≡ record { state = State.initiating_handshake; crypto_data = initiator_data })
    × (sent crates m (NetworkInput.transport_connected ∷ received ∷ [])
        ≡ NetworkOutput.send_message (NetworkMessage.auth_capabilities default_capabilities)
          ∷ role_requests false initiator_data)
exchanges_capabilities_example =
    exchanges_capabilities crates crates-Laws initiator_data 0 default_capabilities [] (omega arith)
      (omega arith)

status_fits : length (wire crates ok_status) ≤ 256
unfolding head flatten
status_fits = omega arith

early_message_waits_example :
    let m : Spake2StateMachine = record { state = State.computing; crypto_data = responder_data } in
    let early = NetworkInput.data_received 5 (wire crates ok_status) in
    let verified = NetworkInput.crypto_completed (record { op_id = 4; payload = [] }) in
    (run crates m (early ∷ verified ∷ []) ≡ record {
      state = State.awaiting_status;
      crypto_data = put Buffer.pending_confirmation_bytes (wire crates ok_status) responder_data;
    })
    × (sent crates m (early ∷ verified ∷ []) ≡ NetworkOutput.send_message ok_status ∷ [])
early_message_waits_example =
    early_message_waits crates crates-Laws responder_data 4 5 (wire crates ok_status) status_fits
