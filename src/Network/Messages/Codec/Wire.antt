-- ===== src/Network/Messages/Codec/Wire.antt =====
-- The bytes of each message on the wire: its type key, then a CBOR map. The encoders write them.
use openscreen_rs.Base.{
  fits_or_not, ℕ, ◌+◌, ◌≤◌, ◌<◌, ◌≡◌, ◌⊎◌, inl, inr, Option, none, some, List, [], ◌∷◌, ◌++◌, arith,
  flatten, length, is_empty, if◌then◌else◌, ok,
}
use openscreen_rs.Deps.{Deps, Laws}
use openscreen_rs.Network.Messages.{
  AuthCapabilities, AuthSpake2Handshake, AuthSpake2Confirmation, AuthStatus, NetworkMessage,
  NetworkMessageType, PskInputMethod, type_key, psk_status_code, input_ease_code, input_method_code,
  status_code,
}
use openscreen_rs.Network.Messages.Codec.Encode.{
  encode, encode_methods, encode_methods_field, encode_capabilities, encode_token, encode_handshake,
  encode_confirmation, encode_status,
}
use openscreen_rs.Network.Messages.Codec.Writes.{
  Writes, Writes-pure, Writes-then, emit-Writes, type_key-Writes, IsErr,
}

module _ (d : Deps) where
  abbrev pub key_bytes : NetworkMessageType → List ℕ
  key_bytes kind = d.varint.encode (type_key kind)

  abbrev pub u8_bytes : ℕ → List ℕ
  u8_bytes x = flatten (d.encoder.u8 x)

  abbrev pub map_bytes : ℕ → List ℕ
  map_bytes n = flatten (d.encoder.map n)

  abbrev pub methods_bytes : List PskInputMethod → List ℕ
  methods_bytes [] = []
  methods_bytes (method ∷ methods) = u8_bytes (input_method_code method) ++ methods_bytes methods

  abbrev pub methods_field_bytes : List PskInputMethod → List ℕ
  methods_field_bytes [] = []
  methods_field_bytes (method ∷ methods) =
      u8_bytes 1
      ++ (flatten (d.encoder.array (length (method ∷ methods))) ++ methods_bytes (method ∷ methods))

  abbrev pub token_bytes : Option (List ℕ) → List ℕ
  token_bytes (some token) = map_bytes 1 ++ (u8_bytes 0 ++ flatten (d.encoder.str token))
  token_bytes none = map_bytes 0

  abbrev pub capabilities_bytes : AuthCapabilities → List ℕ
  capabilities_bytes msg =
      map_bytes (if is_empty msg.psk_input_methods then 2 else 3)
      ++ (u8_bytes 0
          ++ (u8_bytes (input_ease_code msg.psk_input_ease)
              ++ (methods_field_bytes msg.psk_input_methods
                  ++ (u8_bytes 2 ++ flatten (d.encoder.u32 msg.psk_min_bits_of_entropy)))))

  abbrev pub handshake_bytes : AuthSpake2Handshake → List ℕ
  handshake_bytes msg =
      map_bytes 3
      ++ (u8_bytes 0
          ++ (token_bytes msg.initiation_token.token
              ++ (u8_bytes 1
                  ++ (u8_bytes (psk_status_code msg.psk_status)
                      ++ (u8_bytes 2 ++ flatten (d.encoder.bytes msg.public_value))))))

  abbrev pub confirmation_bytes : AuthSpake2Confirmation → List ℕ
  confirmation_bytes msg =
      map_bytes 1 ++ (u8_bytes 0 ++ flatten (d.encoder.bytes msg.confirmation_value))

  abbrev pub status_bytes : AuthStatus → List ℕ
  status_bytes msg = map_bytes 1 ++ (u8_bytes 0 ++ u8_bytes (status_code msg.status))

  abbrev pub wire : NetworkMessage → List ℕ
  wire (NetworkMessage.auth_capabilities msg) =
      key_bytes NetworkMessageType.auth_capabilities ++ capabilities_bytes msg
  wire (NetworkMessage.auth_spake2_handshake msg) =
      key_bytes NetworkMessageType.auth_spake2_handshake ++ handshake_bytes msg
  wire (NetworkMessage.auth_spake2_confirmation msg) =
      key_bytes NetworkMessageType.auth_spake2_confirmation ++ confirmation_bytes msg
  wire (NetworkMessage.auth_status msg) =
      key_bytes NetworkMessageType.auth_status ++ status_bytes msg

module _ (d : Deps) (laws : Laws d) (n : ℕ) where
  methods-Writes :
      (methods : List PskInputMethod)
      → Writes n (encode_methods d n methods) (methods_bytes d methods)
  unfolding encode_methods
  methods-Writes [] = Writes-pure n
  methods-Writes (method ∷ methods) =
      Writes-then n (emit-Writes d laws n _) (methods-Writes methods)

  methods_field-Writes :
      (methods : List PskInputMethod)
      → Writes n (encode_methods_field d n methods) (methods_field_bytes d methods)
  unfolding encode_methods_field
  methods_field-Writes [] = Writes-pure n
  methods_field-Writes (method ∷ methods) =
      search (Writes-then n, emit-Writes d laws n, methods-Writes)

  token-Writes : (token : Option (List ℕ)) → Writes n (encode_token d n token) (token_bytes d token)
  unfolding encode_token
  token-Writes (some token) = search (Writes-then n, emit-Writes d laws n)
  token-Writes none = emit-Writes d laws n _

  pub encode-Writes : (msg : NetworkMessage) → Writes n (encode d n msg) (wire d msg)
  unfolding encode encode_capabilities encode_handshake encode_confirmation encode_status
  encode-Writes (NetworkMessage.auth_capabilities msg) =
      Writes-then n (type_key-Writes d laws n 1001 (omega arith)) (
        Writes-then n (emit-Writes d laws n _) (
          Writes-then n (emit-Writes d laws n _) (
            Writes-then n (emit-Writes d laws n _) (
              Writes-then n (methods_field-Writes msg.psk_input_methods)
                (Writes-then n (emit-Writes d laws n _) (emit-Writes d laws n _))))))
  encode-Writes (NetworkMessage.auth_spake2_handshake msg) =
      Writes-then n (type_key-Writes d laws n 1005 (omega arith)) (
        Writes-then n (emit-Writes d laws n _) (
          Writes-then n (emit-Writes d laws n _) (
            Writes-then n (token-Writes msg.initiation_token.token) (
              Writes-then n (emit-Writes d laws n _) (
                Writes-then n (emit-Writes d laws n _)
                  (Writes-then n (emit-Writes d laws n _) (emit-Writes d laws n _)))))))
  encode-Writes (NetworkMessage.auth_spake2_confirmation msg) =
      Writes-then n (type_key-Writes d laws n 1003 (omega arith)) (
        Writes-then n (emit-Writes d laws n _)
          (Writes-then n (emit-Writes d laws n _) (emit-Writes d laws n _)))
  encode-Writes (NetworkMessage.auth_status msg) =
      Writes-then n (type_key-Writes d laws n 1004 (omega arith)) (
        Writes-then n (emit-Writes d laws n _)
          (Writes-then n (emit-Writes d laws n _) (emit-Writes d laws n _)))

  -- From a buffer within its capacity, a message is encoded, by appending its wire format, when
  -- that fits, and an error is returned, with no panic, when it does not.
  pub encode_exact :
      (msg : NetworkMessage) (buf : List ℕ)
      → length buf ≤ n
      → (length buf + length (wire d msg) ≤ n) × (encode d n msg buf ≡ (ok tt, buf ++ wire d msg))
        ⊎ (n < length buf + length (wire d msg)) × IsErr (encode d n msg buf).0
  encode_exact msg buf h = elim (fits_or_not (length buf + length (wire d msg)) n) [
    | inl fits ↦ inl (fits, (encode-Writes msg).fits buf fits)
    | inr over ↦ inr (over, (encode-Writes msg).full buf h over)
  ]
