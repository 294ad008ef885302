-- ===== src/Network/StateMachine/Handlers/InitiatingHandshake.antt =====
-- openscreen-network/src/state_machine/initiating_handshake.rs
use openscreen_rs.Base.{pure, fault, ◌>>◌}
use openscreen_rs.Deps.{Deps}
use openscreen_rs.Network.{NetworkInput}
use openscreen_rs.Network.Messages.{Spake2PskStatus}
use openscreen_rs.Network.StateMachine.Context.{State, Handler, publish_handshake}

unfoldable pub handle : Deps → NetworkInput → Handler State
handle d (NetworkInput.crypto_completed result) = do
  publish_handshake d Spake2PskStatus.psk_shown result.payload
  pure State.awaiting_handshake
handle d (NetworkInput.tick now) = pure State.initiating_handshake
handle d _ = fault
