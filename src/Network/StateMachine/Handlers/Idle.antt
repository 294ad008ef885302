-- ===== src/Network/StateMachine/Handlers/Idle.antt =====
-- openscreen-network/src/state_machine/idle.rs
use openscreen_rs.Base.{[], pure, fault, ◌>>◌}
use openscreen_rs.Deps.{Deps}
use openscreen_rs.Network.{NetworkInput, NetworkOutput}
use openscreen_rs.Network.Messages.{AuthCapabilities, NetworkMessage, PskInputEase}
use openscreen_rs.Network.StateMachine.Context.{State, Handler, push_output}

-- The capabilities that every agent announces.
abbrev pub default_capabilities : AuthCapabilities
default_capabilities = record {
  psk_input_ease = PskInputEase.simple;
  psk_input_methods = [];
  psk_min_bits_of_entropy = 64;
}

unfoldable pub handle : Deps → NetworkInput → Handler State
handle d NetworkInput.transport_connected = do
  push_output d (NetworkOutput.send_message (NetworkMessage.auth_capabilities default_capabilities))
  pure State.awaiting_capabilities
handle d (NetworkInput.tick now) = pure State.idle
handle d _ = fault
