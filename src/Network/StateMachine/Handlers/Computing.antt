-- ===== src/Network/StateMachine/Handlers/Computing.antt =====
-- openscreen-network/src/state_machine/computing.rs. Its debug lines slice values of 32 bytes only.
use openscreen_rs.Base.{
  ℕ, List, is_empty, length, leb, take, drop, pure, fault, gets, lift, ensure, map_err, ◌>>=◌, ◌>>◌,
  if◌then◌else◌,
}
use openscreen_rs.Deps.{Deps}
use openscreen_rs.Network.{NetworkError, NetworkInput, NetworkOutput}
use openscreen_rs.Network.Messages.{NetworkMessage, AuthStatusCode}
use openscreen_rs.Network.Messages.Codec.Decode.{decode}
use openscreen_rs.Network.CryptoData.Buffers.{Buffer, clear}
use openscreen_rs.Network.StateMachine.Context.{
  State, Handler, on_crypto, push_output, store, build_confirmation_context, request_verification,
}
use openscreen_rs.Network.StateMachine.Handlers.AwaitingConfirmation.{as_confirmation}

abbrev pub min_size : ℕ
min_size = 128

-- An empty result stands for a confirmation that was verified.
unfoldable pub announce_success : Deps → Handler State
announce_success d = do
  push_output d (
      NetworkOutput.send_message
        (NetworkMessage.auth_status (record { status = AuthStatusCode.ok })))
  pure State.awaiting_status

-- The peer's confirmation, which came before our keys did.
unfoldable pub verify_buffered : Deps → Handler State
verify_buffered d = do
  c ← gets (λ s. s.crypto)
  msg ← lift (map_err NetworkError.decode_failed (decode d c.pending_confirmation_bytes))
  confirmation ← as_confirmation msg
  store d Buffer.peer_confirmation_temp confirmation.confirmation_value
  on_crypto (clear Buffer.pending_confirmation_bytes)
  build_confirmation_context d
  request_verification d
  pure State.computing

-- The result is shared_secret || my_confirmation || initiator_key || responder_key, 32 bytes each.
unfoldable pub store_keys : Deps → List ℕ → Handler (Unit {0})
store_keys d payload = do
  store d Buffer.shared_secret (take 32 payload)
  store d Buffer.initiator_confirmation_key (take 32 (drop 64 payload))
  store d Buffer.responder_confirmation_key (take 32 (drop 96 payload))
  store d Buffer.my_confirmation_temp (take 32 (drop 32 payload))

unfoldable pub finish : Deps → List ℕ → Handler State
finish d payload = do
  ensure (leb min_size (length payload)) NetworkError.crypto_failed
  store_keys d payload
  c ← gets (λ s. s.crypto)
  push_output d (
      NetworkOutput.send_message (
        NetworkMessage.auth_spake2_confirmation
          (record { confirmation_value = c.my_confirmation_temp })))
  if is_empty c.pending_confirmation_bytes
      then pure State.awaiting_confirmation
      else verify_buffered d

unfoldable pub handle : Deps → NetworkInput → Handler State
handle d (NetworkInput.crypto_completed result) =
    if is_empty result.payload then announce_success d else finish d result.payload
handle d (NetworkInput.data_received stream bytes) = do
  store d Buffer.pending_confirmation_bytes bytes
  pure State.computing
handle d (NetworkInput.tick now) = pure State.computing
handle d _ = fault
