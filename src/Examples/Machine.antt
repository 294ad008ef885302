-- ===== src/Examples/Machine.antt =====
-- Runs of the state machine.
use openscreen_rs.Base.{
  ℕ, ◌≡◌, ◌≢◌, ◌⊎◌, refl, true, false, some, List, [], ◌∷◌, replicate, arith, ok, err, Outcome,
  panic, fault, ◌>>=◌, from_utf8, flatten, is_utf8,
}
use openscreen_rs.Common.TypeKey.{encode_type_key, decode_type_key}
use openscreen_rs.Network.{NetworkError, NetworkInput}
use openscreen_rs.Network.Messages.{
  AuthSpake2Handshake, AuthStatusCode, Spake2PskStatus, NetworkMessage, message_type_from_u16,
  psk_status_from_u8, input_ease_from_u8, status_from_u8,
}
use openscreen_rs.Network.Messages.Codec.{write_all, write_pieces, emit, read}
use openscreen_rs.Network.Messages.Codec.Encode.{encode, encode_token, encode_handshake}
use openscreen_rs.Network.Messages.Codec.Decode.{
  capability_field, capability_fields, decode_capabilities_body, text_token, decode_token,
  handshake_field, handshake_fields, decode_handshake_body, decode_confirmation_body,
  decode_status_body, decode_body, decode, decode_capabilities, decode_status,
}
use openscreen_rs.Network.Messages.Codec.Wire.{wire}
use openscreen_rs.Network.CryptoData.{CryptoData, new as new_data, auth_token_str}
use openscreen_rs.Network.CryptoData.Buffers.{Buffer, clear, extend}
use openscreen_rs.Network.StateMachine.Context.{
  State, on_crypto, log_prefix, push_output, store, request, request_start, request_finish,
  build_transcript, push_token, push_token_str, copy_token, encode_own, publish_handshake,
  build_confirmation_context, request_verification,
}
use openscreen_rs.Network.StateMachine.Handlers.{
  Idle.handle as idle_handle, Idle.default_capabilities,
  AwaitingCapabilities.handle as awaiting_capabilities_handle, AwaitingCapabilities.start_role,
  InitiatingHandshake.handle as initiating_handshake_handle,
  GeneratingHandshake.handle as generating_handshake_handle,
  AwaitingHandshake.handle as awaiting_handshake_handle, AwaitingHandshake.continue_role,
  AwaitingHandshake.check_token, AwaitingHandshake.match_token,
  Computing.handle as computing_handle, Computing.announce_success, Computing.verify_buffered,
  Computing.finish as computing_finish, Computing.store_keys,
  AwaitingConfirmation.handle as awaiting_confirmation_handle,
  AwaitingStatus.handle as awaiting_status_handle, AwaitingStatus.finish as awaiting_status_finish,
}
use openscreen_rs.Network.StateMachine.Spake2.{
  Spake2StateMachine, dispatch, handle, new, is_authenticated, is_failed,
}
use openscreen_rs.Network.StateMachine.Spake2.Transitions.{◌⟶◌, handle-⟶}
use openscreen_rs.Network.StateMachine.Spake2.Final.{run, run_final, error_is_final}
use openscreen_rs.Network.StateMachine.Spake2.Evidence.{
  is_empty_result, is_ok_status, meets, authenticated_evidence, negotiating_unreachable,
}
use openscreen_rs.Network.StateMachine.Spake2.Inputs.{handle-tick}
use openscreen_rs.Network.CryptoData.Setters.{Replaces, setters_replace}
use openscreen_rs.Network.CryptoData.Buffers.{
  set_psk, set_auth_token, set_my_fingerprint, set_peer_fingerprint,
}
use openscreen_rs.Network.StateMachine.Spake2.Frame.{config, Grown, handle-config, handle-Grown}
use openscreen_rs.Examples.Crates.{crates, crates-Laws, head, read_head}

-- A responder that advertises the token "at", and the machine that it starts with.
abbrev responder_data : CryptoData
responder_data = record new_data {
  psk = 1 ∷ 2 ∷ 3 ∷ 4 ∷ [];
  auth_token = 97 ∷ 116 ∷ [];
  my_fingerprint = 7 ∷ [];
  peer_fingerprint = 8 ∷ [];
  is_responder = true;
}

abbrev offer : AuthSpake2Handshake
offer = record {
  initiation_token = record { token = some (97 ∷ 116 ∷ []) };
  psk_status = Spake2PskStatus.psk_shown;
  public_value = 5 ∷ 5 ∷ [];
}

abbrev received : List ℕ → NetworkInput
received bytes = NetworkInput.data_received 0 bytes

abbrev completed : ℕ → List ℕ → NetworkInput
completed op_id payload =
    NetworkInput.crypto_completed (record { op_id = op_id; payload = payload })

abbrev confirmation : NetworkMessage
confirmation = NetworkMessage.auth_spake2_confirmation (record { confirmation_value = 9 ∷ 9 ∷ [] })

abbrev ok_status : NetworkMessage
ok_status = NetworkMessage.auth_status (record { status = AuthStatusCode.ok })

abbrev inputs : List NetworkInput
inputs =
    NetworkInput.transport_connected
    ∷ received (wire crates (NetworkMessage.auth_capabilities default_capabilities))
    ∷ received (wire crates (NetworkMessage.auth_spake2_handshake offer))
    ∷ completed 1 (6 ∷ 6 ∷ [])
    ∷ completed 2 (replicate 128 1)
    ∷ received (wire crates confirmation)
    ∷ completed 4 []
    ∷ received (wire crates ok_status)
    ∷ []

-- The whole exchange, on the side of the responder.
responder_run : (run crates (new responder_data) inputs).state ≡ State.authenticated
unfolding run handle dispatch idle_handle awaiting_capabilities_handle start_role
    initiating_handshake_handle generating_handshake_handle awaiting_handshake_handle continue_role
    check_token match_token computing_handle announce_success verify_buffered computing_finish
    store_keys awaiting_confirmation_handle awaiting_status_handle awaiting_status_finish on_crypto
    log_prefix push_output store request request_start request_finish build_transcript push_token
    push_token_str copy_token encode_own publish_handshake build_confirmation_context
    request_verification auth_token_str clear extend encode_type_key decode_type_key write_all
    write_pieces emit read encode encode_token encode_handshake capability_field capability_fields
    decode_capabilities_body text_token decode_token handshake_field handshake_fields
    decode_handshake_body decode_confirmation_body decode_status_body decode_body decode
    decode_capabilities decode_status message_type_from_u16 psk_status_from_u8 input_ease_from_u8
    status_from_u8 head read_head from_utf8 is_utf8 flatten ◌>>=◌
responder_run = refl

-- A second connection where a confirmation is expected.
abbrev waiting : Spake2StateMachine
waiting = record { state = State.awaiting_confirmation; crypto_data = responder_data }

not_ok : {r : Outcome NetworkError (Unit {0})} → r ≡ panic → r ≢ ok tt
not_ok p e = cc

unexpected_fault : (handle crates waiting NetworkInput.transport_connected []).result ≡ panic
unfolding handle dispatch awaiting_confirmation_handle fault
unexpected_fault = refl

authenticated_evidence_example :
    (meets crates is_empty_result (new responder_data) inputs ≡ true)
    × (meets crates (is_ok_status crates) (new responder_data) inputs ≡ true)
authenticated_evidence_example = authenticated_evidence crates responder_data inputs responder_run

negotiating_unreachable_example : (run crates (new responder_data) inputs).state ≢ State.negotiating
negotiating_unreachable_example = negotiating_unreachable crates responder_data inputs

handle-⟶_example :
    let after = handle crates waiting (NetworkInput.tick 3) [] in
    (after.result ≡ ok tt) × (State.awaiting_confirmation ⟶ after.machine.state)
    ⊎ (after.result ≢ ok tt) × (after.machine.state ≡ State.poisoned)
handle-⟶_example = handle-⟶ crates waiting (NetworkInput.tick 3) []

run_final_example :
    let done : Spake2StateMachine = record {
      state = State.authenticated;
      crypto_data = responder_data;
    } in
    run crates done inputs ≡ done
run_final_example =
    run_final crates (record { state = State.authenticated; crypto_data = responder_data }) inputs
      refl

error_is_final_example :
    let broken = (handle crates waiting NetworkInput.transport_connected []).machine in
    (run crates broken inputs ≡ broken)
    × ((handle crates broken (NetworkInput.tick 3) []).result ≡ err NetworkError.invalid_state)
    × (is_authenticated broken ≡ false)
    × (is_failed broken ≡ false)
error_is_final_example =
    error_is_final crates waiting NetworkInput.transport_connected [] inputs (NetworkInput.tick 3)
      (not_ok unexpected_fault)

handle-config_example :
    config (handle crates waiting (received (wire crates confirmation)) []).machine.crypto_data
    ≡ config responder_data
handle-config_example =
    handle-config crates crates-Laws waiting (received (wire crates confirmation)) []

handle-Grown_example :
    Grown [] (handle crates waiting (received (wire crates confirmation)) []).outputs
handle-Grown_example =
    handle-Grown crates crates-Laws waiting (received (wire crates confirmation)) [] (omega arith)

handle-tick_example :
    handle crates waiting (NetworkInput.tick 9) []
    ≡ record { result = ok tt; machine = waiting; outputs = [] }
handle-tick_example = handle-tick crates waiting 9 []

setters_replace_example :
    Replaces (set_psk crates (replicate 40 1)) Buffer.psk 128 (replicate 40 1) responder_data
    × Replaces
        (set_auth_token crates (replicate 40 1))
        Buffer.auth_token
        64
        (replicate 40 1)
        responder_data
    × Replaces
        (set_my_fingerprint crates (replicate 40 1))
        Buffer.my_fingerprint
        32
        (replicate 40 1)
        responder_data
    × Replaces
        (set_peer_fingerprint crates (replicate 40 1))
        Buffer.peer_fingerprint
        32
        (replicate 40 1)
        responder_data
setters_replace_example = setters_replace crates crates-Laws (replicate 40 1) responder_data
