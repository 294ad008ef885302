-- ===== src/Network/Messages/Codec/RoundTrip.antt =====
-- What is encoded is decoded to the same message.
use openscreen_rs.Base.{
  ℕ, ◌^◌, ◌≤◌, ◌<◌, ◌≡◌, List, [], ◌++◌, arith, length, drop-length-append, append-nil,
  length-append, leb, true, le→leb, append_assoc, ok, Action, ==-refl,
}
use openscreen_rs.Deps.{Deps, Laws}
use openscreen_rs.Common.{MessageError}
use openscreen_rs.Network.Messages.{
  AuthCapabilities, AuthStatus, NetworkMessage, NetworkMessageType, type_key, max_methods,
  max_bytes_len,
}
use openscreen_rs.Network.Messages.Codec.Encode.{encode}
use openscreen_rs.Network.Messages.Codec.Decode
use openscreen_rs.Network.Messages.Codec.Decode.{
  CapabilityFields, HandshakeFields, decode_methods, decode_method_list, capability_field,
  capability_fields, decode_capabilities_body, text_token, decode_token, handshake_field,
  handshake_fields, decode_handshake_body, decode_confirmation_body, decode_status_body,
  decode_body, decode, decode_capabilities, decode_status,
}
use openscreen_rs.Network.Messages.Codec.Reads.{
  Reads, Reads-pure, Reads-lift, Reads-bind, Reads-last, decode_type_key-encode,
}
use openscreen_rs.Network.Messages.Codec.Wire.{wire, key_bytes, encode-Writes}
use openscreen_rs.Network.Messages.Codec.Codes.{message_type_lem, type_key_small}
use openscreen_rs.Network.Messages.Codec.Bodies.{
  IsToken, status_body-Reads, confirmation_body-Reads, handshake_body-Reads,
}
use openscreen_rs.Network.Messages.Codec.Methods.{capabilities_body-Reads}

-- The sizes that a decoder accepts.
abbrev pub IsEncodable : NetworkMessage → Type 0
IsEncodable (NetworkMessage.auth_capabilities msg) =
    (length msg.psk_input_methods ≤ max_methods) × (msg.psk_min_bits_of_entropy < 2 ^ 32)
IsEncodable (NetworkMessage.auth_spake2_handshake msg) =
    IsToken msg.initiation_token.token × (length msg.public_value ≤ max_bytes_len)
IsEncodable (NetworkMessage.auth_spake2_confirmation msg) = length msg.confirmation_value < 2 ^ 16
IsEncodable (NetworkMessage.auth_status msg) = Unit

-- A slice from the end of the first of two parts is not out of range.
pub within : (xs ys : List ℕ) → leb (length xs) (length (xs ++ ys)) ≡ true
within xs ys = le→leb (length xs) (length (xs ++ ys)) (omega (arith, length-append xs ys))

module _ (d : Deps) (laws : Laws d) where
  body_of :
      {A : Type 0} {m : Action (List ℕ) MessageError A} {bytes : List ℕ} {a : A}
      → Reads m bytes a
      → (rest : List ℕ) → (m (bytes ++ rest)).0 ≡ ok a
  body_of h rest = rw (h.at rest)

  -- A decoder of one kind of message, on its type key and a body that it reads.
  decode_as_lem :
      {A : Type 0} (kind : NetworkMessageType) {body : Action (List ℕ) MessageError A}
      {bytes : List ℕ} {a : A} (rest : List ℕ)
      → Reads body bytes a
      → Decode.decode_as d kind body ((key_bytes d kind ++ bytes) ++ rest) ≡ ok a
  decode_as_lem kind {body} {bytes} rest h = rw (append_assoc (key_bytes d kind) bytes rest) (
      rw (decode_type_key-encode d laws (type_key kind) (bytes ++ rest) (type_key_small kind)) (
        rw
          (
            ==-refl (type_key kind),
            within (key_bytes d kind) (bytes ++ rest),
            drop-length-append (key_bytes d kind) (bytes ++ rest),
          )
          (body_of h rest)))

  decode_lem :
      (kind : NetworkMessageType) {bytes : List ℕ} {msg : NetworkMessage} (rest : List ℕ)
      → Reads (decode_body d kind) bytes msg
      → decode d ((key_bytes d kind ++ bytes) ++ rest) ≡ ok msg
  unfolding decode
  decode_lem kind {bytes} rest h = rw (append_assoc (key_bytes d kind) bytes rest) (
      rw (decode_type_key-encode d laws (type_key kind) (bytes ++ rest) (type_key_small kind)) (
        rw
          (
            within (key_bytes d kind) (bytes ++ rest),
            drop-length-append (key_bytes d kind) (bytes ++ rest),
          )
          (body_of (Reads-bind _ (Reads-lift (message_type_lem kind)) h) rest)))

  -- Where a message is of the sizes that a decoder accepts, NetworkMessage::decode reads it back from
  -- its wire format, whatever bytes follow.
  pub decode-wire :
      (msg : NetworkMessage) (rest : List ℕ)
      → IsEncodable msg
      → decode d (wire d msg ++ rest) ≡ ok msg
  unfolding decode_body
  decode-wire (NetworkMessage.auth_capabilities msg) rest h =
      decode_lem NetworkMessageType.auth_capabilities rest (
        Reads-last _
          (capabilities_body-Reads d laws msg.psk_input_ease msg.psk_input_methods
            msg.psk_min_bits_of_entropy h.0 h.1)
          (Reads-pure (NetworkMessage.auth_capabilities msg)))
  decode-wire (NetworkMessage.auth_spake2_handshake msg) rest h =
      decode_lem NetworkMessageType.auth_spake2_handshake rest (
        Reads-last _ (handshake_body-Reads d laws msg h.0 h.1)
          (Reads-pure (NetworkMessage.auth_spake2_handshake msg)))
  decode-wire (NetworkMessage.auth_spake2_confirmation msg) rest h =
      decode_lem NetworkMessageType.auth_spake2_confirmation rest (
        Reads-last _ (confirmation_body-Reads d laws msg h)
          (Reads-pure (NetworkMessage.auth_spake2_confirmation msg)))
  decode-wire (NetworkMessage.auth_status msg) rest h =
      decode_lem NetworkMessageType.auth_status rest
        (Reads-last _ (status_body-Reads d laws msg) (Reads-pure (NetworkMessage.auth_status msg)))

  -- AuthCapabilities::decode reads back the wire format of capabilities with at most eight methods,
  -- the capacity, and an entropy below 2^32, whatever bytes follow.
  pub decode_capabilities-wire :
      (msg : AuthCapabilities) (rest : List ℕ)
      → length msg.psk_input_methods ≤ max_methods
      → msg.psk_min_bits_of_entropy < 2 ^ 32
      → decode_capabilities d (wire d (NetworkMessage.auth_capabilities msg) ++ rest) ≡ ok msg
  unfolding decode_capabilities
  decode_capabilities-wire msg rest room small =
      decode_as_lem NetworkMessageType.auth_capabilities rest (
        capabilities_body-Reads d laws msg.psk_input_ease msg.psk_input_methods
          msg.psk_min_bits_of_entropy room small)

  -- AuthStatus::decode reads back the wire format of every status, whatever bytes follow.
  pub decode_status-wire :
      (msg : AuthStatus) (rest : List ℕ)
      → decode_status d (wire d (NetworkMessage.auth_status msg) ++ rest) ≡ ok msg
  unfolding decode_status
  decode_status-wire msg rest =
      decode_as_lem NetworkMessageType.auth_status rest (status_body-Reads d laws msg)

  -- A message of the sizes that a decoder accepts, encoded into an empty buffer with room for it, is
  -- decoded from that buffer to the same message.
  pub decode-encode :
      (n : ℕ) (msg : NetworkMessage)
      → IsEncodable msg
      → length (wire d msg) ≤ n
      → ((encode d n msg []).0 ≡ ok tt) × (decode d (encode d n msg []).1 ≡ ok msg)
  decode-encode n msg h room =
      let e = (encode-Writes d laws n msg).fits [] (omega arith) in
      (rw e, rw e (rw append-nil at (decode-wire msg [] h)))
