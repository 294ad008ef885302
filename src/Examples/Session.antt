-- ===== src/Examples/Session.antt =====
-- A responder with the provider of openscreen-crypto-rustcrypto, from the connection to the end.
use openscreen_rs.Base.{
  pure, lift, raise, gets, ensure, ℕ, ◌≡◌, refl, true, some, List, [], ◌∷◌, replicate, ◌>>=◌,
  from_utf8, flatten, is_utf8,
}
use openscreen_rs.Common.TypeKey.{encode_type_key, decode_type_key}
use openscreen_rs.Network.Messages.{
  AuthSpake2Handshake, AuthStatusCode, Spake2PskStatus, NetworkMessage, message_type_from_u16,
  psk_status_from_u8, input_ease_from_u8, status_from_u8,
}
use openscreen_rs.Network.Messages.Codec.{write_all, write_pieces, emit, read}
use openscreen_rs.Network.Messages.Codec.Encode.{encode, encode_token, encode_handshake}
use openscreen_rs.Network.Messages.Codec.Decode.{
  capability_field, capability_fields, decode_capabilities_body, text_token, decode_token,
  handshake_field, handshake_fields, decode_handshake_body, decode_confirmation_body,
  decode_status_body, decode_body, decode, decode_capabilities, decode_status,
}
use openscreen_rs.Network.Messages.Codec.Wire.{wire}
use openscreen_rs.Network.CryptoData.{CryptoData, new as new_data, auth_token_str}
use openscreen_rs.Network.CryptoData.Buffers.{clear, extend}
use openscreen_rs.Network.StateMachine.Context.{
  State, on_crypto, log_prefix, push_output, store, request, request_start, request_finish,
  build_transcript, push_token, push_token_str, copy_token, encode_own, publish_handshake,
  build_confirmation_context, request_verification,
}
use openscreen_rs.Network.StateMachine.Handlers.{
  Idle.handle as idle_handle, Idle.default_capabilities,
  AwaitingCapabilities.handle as awaiting_capabilities_handle, AwaitingCapabilities.start_role,
  InitiatingHandshake.handle as initiating_handshake_handle,
  GeneratingHandshake.handle as generating_handshake_handle,
  AwaitingHandshake.handle as awaiting_handshake_handle, AwaitingHandshake.continue_role,
  AwaitingHandshake.check_token, AwaitingHandshake.match_token,
  Computing.handle as computing_handle, Computing.announce_success, Computing.verify_buffered,
  Computing.finish as computing_finish, Computing.store_keys,
  AwaitingConfirmation.handle as awaiting_confirmation_handle,
  AwaitingStatus.handle as awaiting_status_handle, AwaitingStatus.finish as awaiting_status_finish,
}
use openscreen_rs.Network.StateMachine.Spake2.{dispatch, handle}
use openscreen_rs.Examples.Crates.{crates, crates-Laws, head, read_head}
use openscreen_rs.Crypto.Provider.{CryptoProvider}
use openscreen_rs.Crypto.RustCrypto.{
  CryptoCrates, RustCryptoCryptoProvider, new_provider, rust_crypto, fill, answer_with, store_state,
  take_state, execute_start, execute_finish_with_confirmation, execute_verify_confirmation,
  execute_spake2, execute_kind,
}
use openscreen_rs.Crypto.RustCrypto.Answers.{CryptoCratesLaws}
use openscreen_rs.Examples.Provider.{small_crates, small_crates-Laws}
use openscreen_rs.Network.StateMachine.Spake2.Session.{
  Incoming, Turn, Session, feed, completed, answer_oldest, take_turn, take_turns, new_session,
  has_verified,
}
use openscreen_rs.Network.StateMachine.Spake2.Verified.{authenticated_verified, rust_crypto-Honest}

-- Every HMAC is the same.
abbrev one_mac : CryptoCrates (List ℕ)
one_mac = record small_crates { hmac = λ key input. some (replicate 32 7) }

one_mac-Laws : CryptoCratesLaws one_mac
one_mac-Laws = record {
  agree = small_crates-Laws.agree;
  finish_length = small_crates-Laws.finish_length;
  start_a_length = small_crates-Laws.start_a_length;
  start_b_length = small_crates-Laws.start_b_length;
  hkdf_length = small_crates-Laws.hkdf_length;
  hmac_length = λ key input. (replicate 32 7, refl, refl);
}

abbrev responder_data : CryptoData
responder_data = record new_data {
  psk = 1 ∷ 2 ∷ 3 ∷ 4 ∷ [];
  auth_token = 97 ∷ 116 ∷ [];
  my_fingerprint = 7 ∷ [];
  peer_fingerprint = 8 ∷ [];
  is_responder = true;
}

abbrev offer : AuthSpake2Handshake
offer = record {
  initiation_token = record { token = some (97 ∷ 116 ∷ []) };
  psk_status = Spake2PskStatus.psk_shown;
  public_value = 5 ∷ 5 ∷ [];
}

abbrev peer_sends : NetworkMessage → Turn
peer_sends msg = Turn.incoming (Incoming.data_received 0 (wire crates msg))

abbrev turns : List Turn
turns =
    Turn.incoming Incoming.transport_connected
    ∷ peer_sends (NetworkMessage.auth_capabilities default_capabilities)
    ∷ peer_sends (NetworkMessage.auth_spake2_handshake offer)
    ∷ Turn.answer
    ∷ Turn.answer
    ∷ peer_sends
        (NetworkMessage.auth_spake2_confirmation (record { confirmation_value = replicate 32 7 }))
    ∷ Turn.answer
    ∷ peer_sends (NetworkMessage.auth_status (record { status = AuthStatusCode.ok }))
    ∷ []

abbrev provider : CryptoProvider (RustCryptoCryptoProvider (List ℕ))
provider = rust_crypto crates one_mac []

abbrev end : Session (RustCryptoCryptoProvider (List ℕ))
end = take_turns crates provider turns (new_session crates provider responder_data new_provider)

ends_authenticated : end.machine.state ≡ State.authenticated
unfolding take_turns take_turn answer_oldest completed feed execute_kind execute_spake2
    execute_start execute_finish_with_confirmation execute_verify_confirmation store_state
    take_state answer_with fill pure lift raise gets ensure handle dispatch idle_handle
    awaiting_capabilities_handle start_role initiating_handshake_handle generating_handshake_handle
    awaiting_handshake_handle continue_role check_token match_token computing_handle
    announce_success verify_buffered computing_finish store_keys awaiting_confirmation_handle
    awaiting_status_handle awaiting_status_finish on_crypto log_prefix push_output store request
    request_start request_finish build_transcript push_token push_token_str copy_token encode_own
    publish_handshake build_confirmation_context request_verification auth_token_str clear extend
    encode_type_key decode_type_key write_all write_pieces emit read encode encode_token
    encode_handshake capability_field capability_fields decode_capabilities_body text_token
    decode_token handshake_field handshake_fields decode_handshake_body decode_confirmation_body
    decode_status_body decode_body decode decode_capabilities decode_status message_type_from_u16
    psk_status_from_u8 input_ease_from_u8 status_from_u8 head read_head from_utf8 is_utf8 flatten
    ◌>>=◌
ends_authenticated = refl

authenticated_verified_example : (has_verified end.answered ≡ true) × (end.peer_said_ok ≡ true)
authenticated_verified_example =
    authenticated_verified crates crates-Laws provider
      (rust_crypto-Honest crates crates-Laws one_mac one_mac-Laws []) responder_data new_provider
      turns ends_authenticated
