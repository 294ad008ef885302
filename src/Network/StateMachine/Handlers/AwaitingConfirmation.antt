-- ===== src/Network/StateMachine/Handlers/AwaitingConfirmation.antt =====
-- openscreen-network/src/state_machine/awaiting_confirmation.rs
use openscreen_rs.Base.{pure, raise, fault, gets, lift, map_err, ◌>>=◌, ◌>>◌}
use openscreen_rs.Deps.{Deps}
use openscreen_rs.Network.{NetworkError, NetworkInput}
use openscreen_rs.Network.Messages.{AuthSpake2Confirmation, NetworkMessage}
use openscreen_rs.Network.Messages.Codec.Decode.{decode}
use openscreen_rs.Network.CryptoData.Buffers.{Buffer}
use openscreen_rs.Network.StateMachine.Context.{
  State, Handler, log_prefix, store, peer_key, build_confirmation_context, request_verification,
}

abbrev pub as_confirmation : NetworkMessage → Handler AuthSpake2Confirmation
as_confirmation (NetworkMessage.auth_spake2_confirmation msg) = pure msg
as_confirmation _ = raise NetworkError.decode_failed

unfoldable pub handle : Deps → NetworkInput → Handler State
handle d (NetworkInput.data_received stream bytes) = do
  msg ← lift (map_err NetworkError.decode_failed (decode d bytes))
  confirmation ← as_confirmation msg
  store d Buffer.peer_confirmation_temp confirmation.confirmation_value
  c ← gets (λ s. s.crypto)
  log_prefix d c.peer_confirmation_temp
  build_confirmation_context d
  log_prefix d (peer_key c)
  request_verification d
  pure State.computing
handle d (NetworkInput.tick now) = pure State.awaiting_confirmation
handle d _ = fault
