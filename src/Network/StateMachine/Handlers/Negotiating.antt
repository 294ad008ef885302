-- ===== src/Network/StateMachine/Handlers/Negotiating.antt =====
-- openscreen-network/src/state_machine/negotiating.rs: no handler leads to this state.
use openscreen_rs.Base.{not, none, is_empty, pure, fault, gets, ensure, ◌>>=◌, ◌>>◌, if◌then◌else◌}
use openscreen_rs.Deps.{Deps}
use openscreen_rs.Network.{NetworkError, NetworkInput, NetworkOutput}
use openscreen_rs.Network.Messages.{NetworkMessage, Spake2PskStatus}
use openscreen_rs.Network.CryptoData.Buffers.{Buffer}
use openscreen_rs.Network.StateMachine.Context.{
  State, Handler, push_output, store, request_start, request_finish,
}

unfoldable pub respond : Deps → Handler State
respond d = do
  c ← gets (λ s. s.crypto)
  ensure (not (is_empty c.peer_public_temp)) NetworkError.invalid_state
  request_finish d 2
  pure State.computing

unfoldable pub initiate : Deps → Handler State
initiate d = do
  c ← gets (λ s. s.crypto)
  push_output d (
      NetworkOutput.send_message (
        NetworkMessage.auth_spake2_handshake (record {
          initiation_token = record { token = none };
          psk_status = Spake2PskStatus.psk_shown;
          public_value = c.spake2_public;
        })))
  pure State.awaiting_handshake

unfoldable pub handle : Deps → NetworkInput → Handler State
handle d (NetworkInput.crypto_completed result) = do
  ensure (not (is_empty result.payload)) NetworkError.crypto_failed
  store d Buffer.spake2_public result.payload
  c ← gets (λ s. s.crypto)
  if c.is_responder then respond d else initiate d
handle d (NetworkInput.data_received stream bytes) = do
  store d Buffer.peer_public_temp bytes
  c ← gets (λ s. s.crypto)
  request_start d c.is_responder
  pure State.negotiating
handle d (NetworkInput.tick now) = pure State.negotiating
handle d _ = fault
