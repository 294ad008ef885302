-- ===== src/Network/StateMachine/Context.antt =====
-- openscreen-network/src/state_machine: the states, what a handler reads and writes, and the steps
-- that the handlers share.
pub mod Fits
pub mod Writes
use openscreen_rs.Base.{
  ℕ, Bool, true, false, ◌&&◌, Option, none, some, List, is_empty, length, ltb, ok, err, Action,
  pure, fault, raise, gets, map_err, ◌>>=◌, ◌>>◌, if◌then◌else◌, from_utf8,
}
use openscreen_rs.Deps.{Deps}
use openscreen_rs.Crypto.{CryptoOpKind, Spake2Operation}
use openscreen_rs.Network.{NetworkError, NetworkOutput, max_output_queue}
use openscreen_rs.Network.Messages.{AuthSpake2Handshake, NetworkMessage, Spake2PskStatus}
use openscreen_rs.Network.Messages.Codec.Encode.{encode}
use openscreen_rs.Network.CryptoData.{CryptoData}
use openscreen_rs.Network.CryptoData.Buffers.{Buffer, capacity, put, contents, clear, extend}

pub data State : Type 0 where
  idle awaiting_capabilities initiating_handshake negotiating generating_handshake : State
  awaiting_handshake computing awaiting_confirmation awaiting_status authenticated : State
  failed : NetworkError → State
  poisoned : State

-- `crypto_data` and `outputs`, which a handler has by mutable reference.
pub record Context : Type 0 where
  pub crypto : CryptoData
  pub outputs : List NetworkOutput

abbrev pub Handler : Type 0 → Type 0
Handler A = Action Context NetworkError A

unfoldable pub on_crypto : {A : Type 0} → Action CryptoData NetworkError A → Handler A
on_crypto m s = let done = m s.crypto in (done.0, record s { crypto = done.1 })

-- The public value or the confirmation is in the buffer before it is sent: a debug line slices its
-- first eight bytes, and panics where there are fewer and the line is enabled.
unfoldable pub log_prefix : Deps → List ℕ → Handler (Unit {0})
log_prefix d bytes = if d.debug_enabled && ltb (length bytes) 8 then fault else pure tt

module _ (d : Deps) where
  -- `outputs.push(…).map_err(|_| NetworkError::BufferFull)?`
  unfoldable pub push_output : NetworkOutput → Handler (Unit {0})
  push_output output s =
      let pushed = d.heapless.push max_output_queue s.outputs output in
      (if pushed.0 then ok tt else err NetworkError.buffer_full, record s { outputs = pushed.1 })

  -- `clear`, then `extend_from_slice`.
  unfoldable pub store : Buffer → List ℕ → Handler (Unit {0})
  store b bytes = do on_crypto (clear b); on_crypto (extend d b bytes)

  unfoldable pub request : ℕ → Spake2Operation → Handler (Unit {0})
  request op_id op =
      push_output
        (NetworkOutput.request_crypto (record { op_id = op_id; kind = CryptoOpKind.spake2 op }))

  -- Spake2Operation::Start, in the handlers that make it.
  unfoldable pub request_start : Bool → Handler (Unit {0})
  request_start is_responder = do
    c ← gets (λ s. s.crypto)
    request 1 (Spake2Operation.start none c.psk is_responder)

  -- Spake2Operation::FinishWithConfirmation from the buffers.
  unfoldable pub request_finish : ℕ → Handler (Unit {0})
  request_finish op_id = do
    c ← gets (λ s. s.crypto)
    request op_id (
        Spake2Operation.finish_with_confirmation c.spake2_public c.peer_public_temp c.transcript
          c.my_fingerprint c.peer_fingerprint c.is_responder)

  -- The transcript is `first || second`.
  unfoldable pub build_transcript :
      (CryptoData → List ℕ) → (CryptoData → List ℕ) → Handler (Unit {0})
  build_transcript first second = do
    on_crypto (clear Buffer.transcript)
    c ← gets (λ s. s.crypto)
    on_crypto (extend d Buffer.transcript (first c))
    c' ← gets (λ s. s.crypto)
    on_crypto (extend d Buffer.transcript (second c'))

-- The key under which the peer computed its confirmation.
abbrev pub peer_key : CryptoData → List ℕ
peer_key c = if c.is_responder then c.initiator_confirmation_key else c.responder_confirmation_key

-- The part of the handlers of `InitiatingHandshake` and `GeneratingHandshake` that makes our
-- handshake message from the public value, stores it encoded, and sends it.
abbrev pub token_ref : CryptoData → Option (List ℕ)
token_ref c = if is_empty c.auth_token_temp then none else some c.auth_token_temp

abbrev pub own_handshake : Spake2PskStatus → CryptoData → AuthSpake2Handshake
own_handshake status c = record {
  initiation_token = record { token = token_ref c };
  psk_status = status;
  public_value = c.spake2_public;
}

module _ (d : Deps) where
  -- `auth_token_temp.push_str(…)`
  unfoldable pub push_token : List ℕ → Action CryptoData NetworkError (Unit {0})
  push_token token c =
      let pushed = d.heapless.push_str (capacity Buffer.auth_token_temp) c.auth_token_temp token in
      (
        if pushed.0 then ok tt else err NetworkError.buffer_full,
        put Buffer.auth_token_temp pushed.1 c,
      )

  unfoldable pub push_token_str : Option (List ℕ) → Handler (Unit {0})
  push_token_str none = raise NetworkError.decode_failed
  push_token_str (some token) = on_crypto (push_token token)

  -- The token as a heapless string, if there is one.
  unfoldable pub copy_token : Handler (Unit {0})
  copy_token = do
    c ← gets (λ s. s.crypto)
    if is_empty c.auth_token then pure tt else push_token_str (from_utf8 c.auth_token)

  unfoldable pub encode_own : Spake2PskStatus → Action CryptoData NetworkError (Unit {0})
  encode_own status c =
      let msg = NetworkMessage.auth_spake2_handshake (own_handshake status c) in
      let written = encode d (capacity Buffer.our_handshake_msg) msg c.our_handshake_msg in
      (map_err NetworkError.encode_failed written.0, put Buffer.our_handshake_msg written.1 c)

  unfoldable pub publish_handshake : Spake2PskStatus → List ℕ → Handler (Unit {0})
  publish_handshake status public_value = do
    store d Buffer.spake2_public public_value
    on_crypto (clear Buffer.auth_token_temp)
    copy_token
    on_crypto (clear Buffer.our_handshake_msg)
    on_crypto (encode_own status)
    c ← gets (λ s. s.crypto)
    push_output d
        (NetworkOutput.send_message (NetworkMessage.auth_spake2_handshake (own_handshake status c)))

  -- The context for the verification is `transcript || peer_key`.
  unfoldable pub build_confirmation_context : Handler (Unit {0})
  build_confirmation_context = do
    on_crypto (clear Buffer.confirmation_context)
    c ← gets (λ s. s.crypto)
    on_crypto (extend d Buffer.confirmation_context c.transcript)
    on_crypto (extend d Buffer.confirmation_context (peer_key c))

  unfoldable pub request_verification : Handler (Unit {0})
  request_verification = do
    c ← gets (λ s. s.crypto)
    request d 4
        (Spake2Operation.verify_confirmation c.confirmation_context c.peer_confirmation_temp)
