-- ===== src/Network/StateMachine/Handlers/GeneratingHandshake.antt =====
-- openscreen-network/src/state_machine/generating_handshake.rs
use openscreen_rs.Base.{pure, fault, ◌>>◌}
use openscreen_rs.Deps.{Deps}
use openscreen_rs.Network.{NetworkInput}
use openscreen_rs.Network.Messages.{Spake2PskStatus}
use openscreen_rs.Network.StateMachine.Context.{
  State, Handler, request_finish, build_transcript, publish_handshake,
}

-- The responder's transcript begins with the peer's message.
unfoldable pub handle : Deps → NetworkInput → Handler State
handle d (NetworkInput.crypto_completed result) = do
  publish_handshake d Spake2PskStatus.psk_input result.payload
  build_transcript d (λ c. c.peer_handshake_msg) (λ c. c.our_handshake_msg)
  request_finish d 2
  pure State.computing
handle d (NetworkInput.tick now) = pure State.generating_handshake
handle d _ = fault
