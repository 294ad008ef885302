-- ===== src/Network/Messages/Codec/Bodies.antt =====
-- The bodies of the handshake, confirmation and status messages are read back.
use openscreen_rs.Base.{
  ℕ, ◌^◌, ◌≤◌, ◌<◌, ◌≡◌, refl, true, Option, none, some, List, ◌++◌, arith, length, flatten, le→leb,
  is_utf8,
}
use openscreen_rs.Deps.{Deps, Laws}
use openscreen_rs.Network.Messages.{
  AuthSpake2Handshake, AuthSpake2Confirmation, AuthStatus, psk_status_code, max_string_len,
  max_bytes_len,
}
use openscreen_rs.Network.Messages.Codec.Decode
use openscreen_rs.Network.Messages.Codec.Decode.{
  CapabilityFields, HandshakeFields, decode_methods, decode_method_list, capability_field,
  capability_fields, decode_capabilities_body, text_token, decode_token, handshake_field,
  handshake_fields, decode_handshake_body, decode_confirmation_body, decode_status_body,
  decode_body, decode, decode_capabilities, decode_status,
}
use openscreen_rs.Network.Messages.Codec.Reads.{
  Reads, Reads-pure, Reads-lift, Reads-ensure, Reads-bind, Reads-last, u8-Reads, map-Reads,
  str-Reads, bytes-Reads,
}
use openscreen_rs.Network.Messages.Codec.Wire.{
  u8_bytes, token_bytes, handshake_bytes, confirmation_bytes, status_bytes,
}
use openscreen_rs.Network.Messages.Codec.Codes.{
  psk_status_lem, status_lem, psk_status_small, status_small,
}

abbrev pub IsToken : Option (List ℕ) → Type 0
IsToken none = Unit
IsToken (some token) = (is_utf8 token ≡ true) × (length token ≤ max_string_len)

module _ (d : Deps) (laws : Laws d) where
  pub status_body-Reads : (msg : AuthStatus) → Reads (decode_status_body d) (status_bytes d msg) msg
  unfolding decode_status_body
  status_body-Reads msg = Reads-bind _ (map-Reads d laws 1 (omega arith)) (
      Reads-bind _ (Reads-ensure _ refl) (
        Reads-bind _ (u8-Reads d laws 0 (omega arith)) (
          Reads-bind _ (Reads-ensure _ refl) (
            Reads-last _ (u8-Reads d laws _ (status_small msg.status))
              (Reads-bind _ (Reads-lift (status_lem msg.status)) (Reads-pure msg))))))

  pub confirmation_body-Reads :
      (msg : AuthSpake2Confirmation)
      → length msg.confirmation_value < 2 ^ 16
      → Reads (decode_confirmation_body d) (confirmation_bytes d msg) msg
  unfolding decode_confirmation_body
  confirmation_body-Reads msg h = Reads-bind _ (map-Reads d laws 1 (omega arith)) (
      Reads-bind _ (Reads-ensure _ refl) (
        Reads-bind _ (u8-Reads d laws 0 (omega arith)) (
          Reads-bind _ (Reads-ensure _ refl)
            (Reads-last _ (bytes-Reads d laws _ h) (Reads-pure msg)))))

  token-Reads :
      (token : Option (List ℕ))
      → IsToken token
      → Reads (decode_token d) (token_bytes d token) (record { token = token })
  unfolding decode_token text_token
  token-Reads none h =
      Reads-last _ (map-Reads d laws 0 (omega arith)) (Reads-pure (record { token = none }))
  token-Reads (some token) h = Reads-bind _ (map-Reads d laws 1 (omega arith)) (
      Reads-bind _ (u8-Reads d laws 0 (omega arith)) (
        Reads-bind _ (Reads-ensure _ refl) (
          Reads-last _ (str-Reads d laws token h.0 (omega arith)) (
            Reads-bind _ (Reads-ensure _ (le→leb _ _ h.1))
              (Reads-pure (record { token = some token }))))))

  handshake_fields-Reads :
      (msg : AuthSpake2Handshake)
      → IsToken msg.initiation_token.token
      → length msg.public_value ≤ max_bytes_len
      → Reads
          (handshake_fields d 3 Decode.no_handshake_fields)
          (u8_bytes d 0
            ++ (token_bytes d msg.initiation_token.token
                ++ (u8_bytes d 1
                    ++ (u8_bytes d (psk_status_code msg.psk_status)
                        ++ (u8_bytes d 2 ++ flatten (d.encoder.bytes msg.public_value))))))
          (record {
            initiation_token = some msg.initiation_token;
            psk_status = some msg.psk_status;
            public_value = some msg.public_value;
          })
  unfolding handshake_fields handshake_field
  handshake_fields-Reads msg token short = Reads-bind _ (u8-Reads d laws 0 (omega arith)) (
      Reads-bind _ (Reads-last _ (token-Reads _ token) (Reads-pure _)) (
        Reads-bind _ (u8-Reads d laws 1 (omega arith)) (
          Reads-bind _
            (Reads-last _ (u8-Reads d laws _ (psk_status_small msg.psk_status))
              (Reads-bind _ (Reads-lift (psk_status_lem msg.psk_status)) (Reads-pure _)))
            (Reads-bind _ (u8-Reads d laws 2 (omega arith)) (
              Reads-last _
                (Reads-last _ (bytes-Reads d laws _ (omega arith))
                  (Reads-bind _ (Reads-ensure _ (le→leb _ _ short)) (Reads-pure _)))
                (Reads-pure _))))))

  pub handshake_body-Reads :
      (msg : AuthSpake2Handshake)
      → IsToken msg.initiation_token.token
      → length msg.public_value ≤ max_bytes_len
      → Reads (decode_handshake_body d) (handshake_bytes d msg) msg
  unfolding decode_handshake_body
  handshake_body-Reads msg token short = Reads-bind _ (map-Reads d laws 3 (omega arith)) (
      Reads-bind _ (Reads-ensure _ refl) (
        Reads-last _ (handshake_fields-Reads msg token short) (
          Reads-bind _ (Reads-pure _)
            (Reads-bind _ (Reads-pure _) (Reads-bind _ (Reads-pure _) (Reads-pure msg))))))
