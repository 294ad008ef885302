-- ===== src/Network/StateMachine/Handlers/AwaitingStatus.antt =====
-- openscreen-network/src/state_machine/awaiting_status.rs
use openscreen_rs.Base.{Bool, true, false, pure, fault, lift, map_err, ◌>>=◌, ◌>>◌}
use openscreen_rs.Deps.{Deps}
use openscreen_rs.Network.{NetworkError, NetworkInput, NetworkOutput, NetworkEvent}
use openscreen_rs.Network.Messages.{AuthStatusCode}
use openscreen_rs.Network.Messages.Codec.Decode.{decode_status}
use openscreen_rs.Network.StateMachine.Context.{State, Handler, push_output}

abbrev pub is_ok : AuthStatusCode → Bool
is_ok AuthStatusCode.ok = true
is_ok _ = false

unfoldable pub finish : Deps → Bool → Handler State
finish d false = pure (State.failed NetworkError.authentication_failed)
finish d true = do
  push_output d (NetworkOutput.event NetworkEvent.authenticated)
  pure State.authenticated

unfoldable pub handle : Deps → NetworkInput → Handler State
handle d (NetworkInput.data_received stream bytes) = do
  msg ← lift (map_err NetworkError.decode_failed (decode_status d bytes))
  finish d (is_ok msg.status)
handle d (NetworkInput.tick now) = pure State.awaiting_status
handle d _ = fault
