-- ===== src/Network/Messages/Codec/Decode.antt =====
-- openscreen-network/src/messages.rs: `decode` of each message. The state of an action is the rest
-- of the input.
use openscreen_rs.Base.{
  ℕ, zero, suc, Bool, false, ◌||◌, Option, none, some, List, [], length, drop, fault, leb, ensure,
  Outcome, ok, err, panic, Action, pure, raise, lift, ◌>>=◌, ◌>>◌, if◌then◌else◌, ◌==◌,
}
use openscreen_rs.Deps.{Deps}
use openscreen_rs.Common.{MessageError}
use openscreen_rs.Common.TypeKey.{decode_type_key}
use openscreen_rs.Network.Messages.{
  AuthCapabilities, AuthInitiationToken, AuthSpake2Handshake, AuthSpake2Confirmation, AuthStatus,
  NetworkMessage, NetworkMessageType, PskInputEase, PskInputMethod, Spake2PskStatus, type_key,
  message_type_from_u16, psk_status_from_u8, input_ease_from_u8, input_method_from_u8,
  status_from_u8, max_methods, max_string_len, max_bytes_len,
}
use openscreen_rs.Network.Messages.Codec.{read}

-- `&data[start..]`, which panics where the data ends before.
abbrev pub slice_from : ℕ → List ℕ → Outcome MessageError (List ℕ)
slice_from start bytes = if leb start (length bytes) then ok (drop start bytes) else panic

-- A body in such a slice.
abbrev pub decode_in :
    {A : Type 0}
    → Action (List ℕ) MessageError A
    → Outcome MessageError (List ℕ)
    → Outcome MessageError A
decode_in body (ok bytes) = (body bytes).0
decode_in body (err e) = err e
decode_in body panic = panic

-- `Option::unwrap`
abbrev pub unwrap : {S A : Type 0} → Option A → Action S MessageError A
unwrap none = fault
unwrap (some a) = pure a

-- `o.ok_or(MessageError::MissingField)?`
abbrev pub required : {S A : Type 0} → Option A → Action S MessageError A
required none = raise MessageError.missing_field
required (some a) = pure a

-- The tests `map_len != Some(k)`.
abbrev pub is_length : ℕ → Option ℕ → Bool
is_length k none = false
is_length k (some m) = m == k

-- The locals of the loop in AuthCapabilities::decode_body.
pub record CapabilityFields : Type 0 where
  pub psk_input_ease : Option PskInputEase
  pub psk_input_methods : List PskInputMethod
  pub psk_min_bits_of_entropy : Option ℕ

-- The locals of the loop in AuthSpake2Handshake::decode_body.
pub record HandshakeFields : Type 0 where
  pub initiation_token : Option AuthInitiationToken
  pub psk_status : Option Spake2PskStatus
  pub public_value : Option (List ℕ)

-- Their values before the loop.
abbrev pub no_capability_fields : CapabilityFields
no_capability_fields = record {
  psk_input_ease = none;
  psk_input_methods = [];
  psk_min_bits_of_entropy = none;
}

abbrev pub no_handshake_fields : HandshakeFields
no_handshake_fields = record { initiation_token = none; psk_status = none; public_value = none }

module _ (d : Deps) where
  -- `for _ in 0..len` over the methods
  unfoldable pub decode_methods :
      ℕ → List PskInputMethod → Action (List ℕ) MessageError (List PskInputMethod)
  decode_methods zero methods = pure methods
  decode_methods (suc len) methods = do
    method_u8 ← read d.decoder.u8
    method ← lift (input_method_from_u8 method_u8)
    let pushed = d.heapless.push max_methods methods method
    if pushed.0 then decode_methods len pushed.1 else raise MessageError.buffer_full

  -- A list of indefinite length is passed over.
  unfoldable pub decode_method_list :
      Option ℕ → List PskInputMethod → Action (List ℕ) MessageError (List PskInputMethod)
  decode_method_list none methods = pure methods
  decode_method_list (some len) methods = decode_methods len methods

  unfoldable pub capability_field :
      ℕ → CapabilityFields → Action (List ℕ) MessageError CapabilityFields
  capability_field key f =
      if key == 0
      then (do
        ease_u8 ← read d.decoder.u8
        ease ← lift (input_ease_from_u8 ease_u8)
        pure (record f { psk_input_ease = some ease }))
      else if key == 1
      then (do
        len ← read d.decoder.array
        methods ← decode_method_list len f.psk_input_methods
        pure (record f { psk_input_methods = methods }))
      else if key == 2
      then (do bits ← read d.decoder.u32; pure (record f { psk_min_bits_of_entropy = some bits }))
      else raise MessageError.invalid_field

  unfoldable pub capability_fields :
      ℕ → CapabilityFields → Action (List ℕ) MessageError CapabilityFields
  capability_fields zero f = pure f
  capability_fields (suc count) f = do
    key ← read d.decoder.u8
    f' ← capability_field key f
    capability_fields count f'

  -- AuthCapabilities::decode_body
  unfoldable pub decode_capabilities_body : Action (List ℕ) MessageError AuthCapabilities
  decode_capabilities_body = do
    map_len ← read d.decoder.map
    ensure (is_length 2 map_len || is_length 3 map_len) MessageError.invalid_field
    field_count ← unwrap map_len
    f ← capability_fields field_count no_capability_fields
    ease ← required f.psk_input_ease
    bits ← required f.psk_min_bits_of_entropy
    pure (record {
      psk_input_ease = ease;
      psk_input_methods = f.psk_input_methods;
      psk_min_bits_of_entropy = bits;
    })

  -- The token in field 0 of the handshake, where its map has one entry.
  unfoldable pub text_token : Action (List ℕ) MessageError AuthInitiationToken
  text_token = do
    token_key ← read d.decoder.u8
    ensure (token_key == 0) MessageError.invalid_field
    token ← read d.decoder.str
    ensure (leb (length token) max_string_len) MessageError.field_too_long
    pure (record { token = some token })

  -- The value of field 0 of the handshake.
  unfoldable pub decode_token : Action (List ℕ) MessageError AuthInitiationToken
  decode_token = do
    map_len ← read d.decoder.map
    if is_length 1 map_len
        then text_token
        else if is_length 0 map_len
        then pure (record { token = none })
        else raise MessageError.invalid_field

  unfoldable pub handshake_field :
      ℕ → HandshakeFields → Action (List ℕ) MessageError HandshakeFields
  handshake_field key f =
      if key == 0
      then (do token ← decode_token; pure (record f { initiation_token = some token }))
      else if key == 1
      then (do
        status_u8 ← read d.decoder.u8
        status ← lift (psk_status_from_u8 status_u8)
        pure (record f { psk_status = some status }))
      else if key == 2
      then (do
        bytes ← read d.decoder.bytes
        ensure (leb (length bytes) max_bytes_len) MessageError.field_too_long
        pure (record f { public_value = some bytes }))
      else raise MessageError.invalid_field

  unfoldable pub handshake_fields :
      ℕ → HandshakeFields → Action (List ℕ) MessageError HandshakeFields
  handshake_fields zero f = pure f
  handshake_fields (suc count) f = do
    key ← read d.decoder.u8
    f' ← handshake_field key f
    handshake_fields count f'

  -- AuthSpake2Handshake::decode_body
  unfoldable pub decode_handshake_body : Action (List ℕ) MessageError AuthSpake2Handshake
  decode_handshake_body = do
    map_len ← read d.decoder.map
    ensure (is_length 3 map_len) MessageError.invalid_field
    f ← handshake_fields 3 no_handshake_fields
    token ← required f.initiation_token
    status ← required f.psk_status
    public_value ← required f.public_value
    pure (record { initiation_token = token; psk_status = status; public_value = public_value })

  -- AuthSpake2Confirmation::decode_body
  unfoldable pub decode_confirmation_body : Action (List ℕ) MessageError AuthSpake2Confirmation
  decode_confirmation_body = do
    map_len ← read d.decoder.map
    ensure (is_length 1 map_len) MessageError.invalid_field
    key ← read d.decoder.u8
    ensure (key == 0) MessageError.invalid_field
    value ← read d.decoder.bytes
    pure (record { confirmation_value = value })

  -- AuthStatus::decode_body
  unfoldable pub decode_status_body : Action (List ℕ) MessageError AuthStatus
  decode_status_body = do
    map_len ← read d.decoder.map
    ensure (is_length 1 map_len) MessageError.invalid_field
    key ← read d.decoder.u8
    ensure (key == 0) MessageError.invalid_field
    status_u8 ← read d.decoder.u8
    status ← lift (status_from_u8 status_u8)
    pure (record { status = status })

  -- `decode` of one message: its type key, then the body in the rest of the data.
  abbrev pub expect_key :
      {A : Type 0}
      → NetworkMessageType
      → Action (List ℕ) MessageError A
      → List ℕ
      → Outcome MessageError (ℕ × ℕ)
      → Outcome MessageError A
  expect_key kind body input (ok (key, consumed)) =
      if key == type_key kind
      then decode_in body (slice_from consumed input)
      else err MessageError.invalid_message_type
  expect_key kind body input (err e) = err e
  expect_key kind body input panic = panic

  abbrev pub decode_as :
      {A : Type 0}
      → NetworkMessageType
      → Action (List ℕ) MessageError A
      → List ℕ
      → Outcome MessageError A
  decode_as kind body input = expect_key kind body input (decode_type_key d input)

  unfoldable pub decode_capabilities : List ℕ → Outcome MessageError AuthCapabilities
  decode_capabilities = decode_as NetworkMessageType.auth_capabilities decode_capabilities_body

  unfoldable pub decode_handshake : List ℕ → Outcome MessageError AuthSpake2Handshake
  decode_handshake = decode_as NetworkMessageType.auth_spake2_handshake decode_handshake_body

  unfoldable pub decode_confirmation : List ℕ → Outcome MessageError AuthSpake2Confirmation
  decode_confirmation =
      decode_as NetworkMessageType.auth_spake2_confirmation decode_confirmation_body

  unfoldable pub decode_status : List ℕ → Outcome MessageError AuthStatus
  decode_status = decode_as NetworkMessageType.auth_status decode_status_body

  -- The match of NetworkMessage::decode; `unimplemented!` panics.
  unfoldable pub decode_body : NetworkMessageType → Action (List ℕ) MessageError NetworkMessage
  decode_body NetworkMessageType.auth_capabilities = do
    msg ← decode_capabilities_body
    pure (NetworkMessage.auth_capabilities msg)
  decode_body NetworkMessageType.auth_spake2_handshake = do
    msg ← decode_handshake_body
    pure (NetworkMessage.auth_spake2_handshake msg)
  decode_body NetworkMessageType.auth_spake2_confirmation = do
    msg ← decode_confirmation_body
    pure (NetworkMessage.auth_spake2_confirmation msg)
  decode_body NetworkMessageType.auth_status = do
    msg ← decode_status_body
    pure (NetworkMessage.auth_status msg)
  decode_body NetworkMessageType.auth_spake2_need = fault

  abbrev pub decode_kind :
      Outcome MessageError NetworkMessageType → Action (List ℕ) MessageError NetworkMessage
  decode_kind kind = do kind' ← lift kind; decode_body kind'

  abbrev pub decode_key :
      List ℕ → Outcome MessageError (ℕ × ℕ) → Outcome MessageError NetworkMessage
  decode_key input (ok (key, consumed)) =
      decode_in (decode_kind (message_type_from_u16 key)) (slice_from consumed input)
  decode_key input (err e) = err e
  decode_key input panic = panic

  -- NetworkMessage::decode
  unfoldable pub decode : List ℕ → Outcome MessageError NetworkMessage
  decode input = decode_key input (decode_type_key d input)
