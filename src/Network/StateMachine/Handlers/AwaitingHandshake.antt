-- ===== src/Network/StateMachine/Handlers/AwaitingHandshake.antt =====
-- openscreen-network/src/state_machine/awaiting_handshake.rs
use openscreen_rs.Base.{
  ℕ, ◌&&◌, not, Option, none, some, List, is_empty, pure, raise, fault, gets, lift, ensure, map_err,
  ◌>>=◌, ◌>>◌, if◌then◌else◌,
}
use openscreen_rs.Deps.{Deps}
use openscreen_rs.Network.{NetworkError, NetworkInput}
use openscreen_rs.Network.Messages.{AuthSpake2Handshake, NetworkMessage}
use openscreen_rs.Network.Messages.Codec.Decode.{decode}
use openscreen_rs.Network.CryptoData.{auth_token_str}
use openscreen_rs.Network.CryptoData.Buffers.{Buffer}
use openscreen_rs.Network.StateMachine.Context.{
  State, Handler, store, request_start, request_finish, build_transcript,
}

abbrev pub as_handshake : NetworkMessage → Handler AuthSpake2Handshake
as_handshake (NetworkMessage.auth_spake2_handshake msg) = pure msg
as_handshake _ = raise NetworkError.decode_failed

-- The comparison with the expected token.
unfoldable pub match_token : Deps → Option (List ℕ) → Option (List ℕ) → Handler (Unit {0})
match_token d none received = raise NetworkError.authentication_failed
match_token d (some expected) none = raise NetworkError.authentication_failed
match_token d (some expected) (some received) =
    ensure (d.ct_eq received expected) NetworkError.authentication_failed

-- Only a responder that advertises a token looks at the peer's.
unfoldable pub check_token : Deps → Option (List ℕ) → Handler (Unit {0})
check_token d received = do
  c ← gets (λ s. s.crypto)
  if c.is_responder && not (is_empty c.auth_token)
      then match_token d (auth_token_str c) received
      else pure tt

-- The responder asks for its public value; the initiator, which has sent its own, for the keys.
unfoldable pub continue_role : Deps → Handler State
continue_role d = do
  c ← gets (λ s. s.crypto)
  if c.is_responder && is_empty c.spake2_public
      then (do request_start d c.is_responder; pure State.generating_handshake)
      else (do
        build_transcript d (λ c. c.our_handshake_msg) (λ c. c.peer_handshake_msg)
        request_finish d 3
        pure State.computing)

unfoldable pub handle : Deps → NetworkInput → Handler State
handle d (NetworkInput.data_received stream bytes) = do
  msg ← lift (map_err NetworkError.decode_failed (decode d bytes))
  handshake ← as_handshake msg
  check_token d handshake.initiation_token.token
  store d Buffer.peer_handshake_msg bytes
  store d Buffer.peer_public_temp handshake.public_value
  continue_role d
handle d (NetworkInput.tick now) = pure State.awaiting_handshake
handle d _ = fault
