-- ===== src/Network/Messages/Codec/Encode.antt =====
-- openscreen-network/src/messages.rs: `encode` of each message, into a vector of capacity `n`.
use openscreen_rs.Base.{
  ℕ, none, some, Option, List, [], ◌∷◌, is_empty, length, Action, pure, ◌>>◌, if◌then◌else◌,
  Outcome, ok,
}
use openscreen_rs.Deps.{Deps}
use openscreen_rs.Common.{MessageError}
use openscreen_rs.Common.TypeKey.{encode_type_key}
use openscreen_rs.Network.Messages.{
  AuthCapabilities, AuthSpake2Handshake, AuthSpake2Confirmation, AuthStatus, NetworkMessage,
  NetworkMessageType, PskInputMethod, type_key, psk_status_code, input_ease_code, input_method_code,
  status_code, max_message_size,
}
use openscreen_rs.Network.Messages.Codec.{emit}

module _ (d : Deps) (n : ℕ) where
  -- `for method in &self.psk_input_methods`
  unfoldable pub encode_methods : List PskInputMethod → Action (List ℕ) MessageError (Unit {0})
  encode_methods [] = pure tt
  encode_methods (method ∷ methods) = do
    emit d n (d.encoder.u8 (input_method_code method))
    encode_methods methods

  -- Field 1 of the capabilities, left out where there are no methods.
  unfoldable pub encode_methods_field :
      List PskInputMethod → Action (List ℕ) MessageError (Unit {0})
  encode_methods_field [] = pure tt
  encode_methods_field (method ∷ methods) = do
    emit d n (d.encoder.u8 1)
    emit d n (d.encoder.array (length (method ∷ methods)))
    encode_methods (method ∷ methods)

  unfoldable pub encode_capabilities : AuthCapabilities → Action (List ℕ) MessageError (Unit {0})
  encode_capabilities msg = do
    encode_type_key d n (type_key NetworkMessageType.auth_capabilities)
    emit d n (d.encoder.map (if is_empty msg.psk_input_methods then 2 else 3))
    emit d n (d.encoder.u8 0)
    emit d n (d.encoder.u8 (input_ease_code msg.psk_input_ease))
    encode_methods_field msg.psk_input_methods
    emit d n (d.encoder.u8 2)
    emit d n (d.encoder.u32 msg.psk_min_bits_of_entropy)

  -- Field 0 of the handshake: a map that holds the token, if there is one.
  unfoldable pub encode_token : Option (List ℕ) → Action (List ℕ) MessageError (Unit {0})
  encode_token (some token) = do
    emit d n (d.encoder.map 1)
    emit d n (d.encoder.u8 0)
    emit d n (d.encoder.str token)
  encode_token none = emit d n (d.encoder.map 0)

  unfoldable pub encode_handshake : AuthSpake2Handshake → Action (List ℕ) MessageError (Unit {0})
  encode_handshake msg = do
    encode_type_key d n (type_key NetworkMessageType.auth_spake2_handshake)
    emit d n (d.encoder.map 3)
    emit d n (d.encoder.u8 0)
    encode_token msg.initiation_token.token
    emit d n (d.encoder.u8 1)
    emit d n (d.encoder.u8 (psk_status_code msg.psk_status))
    emit d n (d.encoder.u8 2)
    emit d n (d.encoder.bytes msg.public_value)

  unfoldable pub encode_confirmation :
      AuthSpake2Confirmation → Action (List ℕ) MessageError (Unit {0})
  encode_confirmation msg = do
    encode_type_key d n (type_key NetworkMessageType.auth_spake2_confirmation)
    emit d n (d.encoder.map 1)
    emit d n (d.encoder.u8 0)
    emit d n (d.encoder.bytes msg.confirmation_value)

  unfoldable pub encode_status : AuthStatus → Action (List ℕ) MessageError (Unit {0})
  encode_status msg = do
    encode_type_key d n (type_key NetworkMessageType.auth_status)
    emit d n (d.encoder.map 1)
    emit d n (d.encoder.u8 0)
    emit d n (d.encoder.u8 (status_code msg.status))

  -- NetworkMessage::encode
  unfoldable pub encode : NetworkMessage → Action (List ℕ) MessageError (Unit {0})
  encode (NetworkMessage.auth_capabilities msg) = encode_capabilities msg
  encode (NetworkMessage.auth_spake2_handshake msg) = encode_handshake msg
  encode (NetworkMessage.auth_spake2_confirmation msg) = encode_confirmation msg
  encode (NetworkMessage.auth_status msg) = encode_status msg

-- The four arms call the encoders that `encode` calls, on an empty buffer.
unfoldable pub encode_network_message : Deps → NetworkMessage → Outcome MessageError (List ℕ)
encode_network_message d msg =
    let written = encode d max_message_size msg [] in
    elim written.0 [
      | ok _ ↦ ok written.1
      | Outcome.err e ↦ Outcome.err e
      | Outcome.panic ↦ Outcome.panic
    ]
