-- ===== src/Network/StateMachine/Handlers/AwaitingCapabilities.antt =====
-- openscreen-network/src/state_machine/awaiting_capabilities.rs
use openscreen_rs.Base.{Bool, true, false, pure, fault, gets, lift, map_err, ◌>>=◌, ◌>>◌}
use openscreen_rs.Deps.{Deps}
use openscreen_rs.Network.{NetworkError, NetworkInput}
use openscreen_rs.Network.Messages.Codec.Decode.{decode_capabilities}
use openscreen_rs.Network.StateMachine.Context.{State, Handler, request_start}

-- What follows the decoding: the responder waits, the initiator asks for its public value.
unfoldable pub start_role : Deps → Bool → Handler State
start_role d true = pure State.awaiting_handshake
start_role d false = do request_start d false; pure State.initiating_handshake

unfoldable pub handle : Deps → NetworkInput → Handler State
handle d (NetworkInput.data_received stream bytes) = do
  lift (map_err NetworkError.decode_failed (decode_capabilities d bytes))
  c ← gets (λ s. s.crypto)
  start_role d c.is_responder
handle d (NetworkInput.tick now) = pure State.awaiting_capabilities
handle d _ = fault
