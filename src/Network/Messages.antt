-- ===== src/Network/Messages.antt =====
-- openscreen-network/src/messages.rs: the authentication messages and their enumerations. The codec
-- and its laws are below.
pub mod Codec
use openscreen_rs.Base.{ℕ, Option, List, Outcome, err, if◌then◌else◌, ◌==◌}
use openscreen_rs.Common.{MessageError}

abbrev pub max_message_size : ℕ
max_message_size = 1024

abbrev pub max_string_len : ℕ
max_string_len = 256

abbrev pub max_bytes_len : ℕ
max_bytes_len = 64

-- The capacity of `psk_input_methods`.
abbrev pub max_methods : ℕ
max_methods = 8

pub data NetworkMessageType : Type 0 where
  auth_capabilities auth_spake2_need auth_spake2_confirmation : NetworkMessageType
  auth_status auth_spake2_handshake : NetworkMessageType

-- `as u16`
abbrev pub type_key : NetworkMessageType → ℕ
type_key NetworkMessageType.auth_capabilities = 1001
type_key NetworkMessageType.auth_spake2_need = 1002
type_key NetworkMessageType.auth_spake2_confirmation = 1003
type_key NetworkMessageType.auth_status = 1004
type_key NetworkMessageType.auth_spake2_handshake = 1005

unfoldable pub message_type_from_u16 : ℕ → Outcome MessageError NetworkMessageType
message_type_from_u16 value =
    if value == 1001
    then Outcome.ok NetworkMessageType.auth_capabilities
    else if value == 1002
    then Outcome.ok NetworkMessageType.auth_spake2_need
    else if value == 1003
    then Outcome.ok NetworkMessageType.auth_spake2_confirmation
    else if value == 1004
    then Outcome.ok NetworkMessageType.auth_status
    else if value == 1005
    then Outcome.ok NetworkMessageType.auth_spake2_handshake
    else err MessageError.invalid_message_type

pub data Spake2PskStatus : Type 0 where
  psk_needs_presentation psk_shown psk_input : Spake2PskStatus

-- `as u8`
abbrev pub psk_status_code : Spake2PskStatus → ℕ
psk_status_code Spake2PskStatus.psk_needs_presentation = 0
psk_status_code Spake2PskStatus.psk_shown = 1
psk_status_code Spake2PskStatus.psk_input = 2

unfoldable pub psk_status_from_u8 : ℕ → Outcome MessageError Spake2PskStatus
psk_status_from_u8 value =
    if value == 0
    then Outcome.ok Spake2PskStatus.psk_needs_presentation
    else if value == 1
    then Outcome.ok Spake2PskStatus.psk_shown
    else if value == 2
    then Outcome.ok Spake2PskStatus.psk_input
    else err MessageError.invalid_field

pub data PskInputEase : Type 0 where
  unknown simple moderate hard : PskInputEase

-- `as u8`
abbrev pub input_ease_code : PskInputEase → ℕ
input_ease_code PskInputEase.unknown = 0
input_ease_code PskInputEase.simple = 1
input_ease_code PskInputEase.moderate = 2
input_ease_code PskInputEase.hard = 3

unfoldable pub input_ease_from_u8 : ℕ → Outcome MessageError PskInputEase
input_ease_from_u8 value =
    if value == 0
    then Outcome.ok PskInputEase.unknown
    else if value == 1
    then Outcome.ok PskInputEase.simple
    else if value == 2
    then Outcome.ok PskInputEase.moderate
    else if value == 3
    then Outcome.ok PskInputEase.hard
    else err MessageError.invalid_field

pub data PskInputMethod : Type 0 where
  numeric qr_code nfc : PskInputMethod

-- `as u8`
abbrev pub input_method_code : PskInputMethod → ℕ
input_method_code PskInputMethod.numeric = 0
input_method_code PskInputMethod.qr_code = 1
input_method_code PskInputMethod.nfc = 2

unfoldable pub input_method_from_u8 : ℕ → Outcome MessageError PskInputMethod
input_method_from_u8 value =
    if value == 0
    then Outcome.ok PskInputMethod.numeric
    else if value == 1
    then Outcome.ok PskInputMethod.qr_code
    else if value == 2
    then Outcome.ok PskInputMethod.nfc
    else err MessageError.invalid_field

pub data AuthStatusCode : Type 0 where
  ok authentication_failed unknown_error timeout secret_unknown proof_invalid : AuthStatusCode

-- `as u8`
abbrev pub status_code : AuthStatusCode → ℕ
status_code AuthStatusCode.ok = 0
status_code AuthStatusCode.authentication_failed = 1
status_code AuthStatusCode.unknown_error = 2
status_code AuthStatusCode.timeout = 3
status_code AuthStatusCode.secret_unknown = 4
status_code AuthStatusCode.proof_invalid = 5

unfoldable pub status_from_u8 : ℕ → Outcome MessageError AuthStatusCode
status_from_u8 value =
    if value == 0
    then Outcome.ok AuthStatusCode.ok
    else if value == 1
    then Outcome.ok AuthStatusCode.authentication_failed
    else if value == 2
    then Outcome.ok AuthStatusCode.unknown_error
    else if value == 3
    then Outcome.ok AuthStatusCode.timeout
    else if value == 4
    then Outcome.ok AuthStatusCode.secret_unknown
    else if value == 5
    then Outcome.ok AuthStatusCode.proof_invalid
    else err MessageError.invalid_field

pub record AuthCapabilities : Type 0 where
  pub psk_input_ease : PskInputEase
  pub psk_input_methods : List PskInputMethod
  pub psk_min_bits_of_entropy : ℕ

pub record AuthInitiationToken : Type 0 where
  pub token : Option (List ℕ)

pub record AuthSpake2Handshake : Type 0 where
  pub initiation_token : AuthInitiationToken
  pub psk_status : Spake2PskStatus
  pub public_value : List ℕ

pub record AuthSpake2Confirmation : Type 0 where
  pub confirmation_value : List ℕ

pub record AuthStatus : Type 0 where
  pub status : AuthStatusCode

pub data NetworkMessage : Type 0 where
  auth_capabilities : AuthCapabilities → NetworkMessage
  auth_spake2_handshake : AuthSpake2Handshake → NetworkMessage
  auth_spake2_confirmation : AuthSpake2Confirmation → NetworkMessage
  auth_status : AuthStatus → NetworkMessage
