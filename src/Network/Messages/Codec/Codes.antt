-- ===== src/Network/Messages/Codec/Codes.antt =====
-- The codes of the enumerations are in range, and are decoded to what they stand for.
use openscreen_rs.Base.{◌^◌, ◌<◌, ◌≡◌, refl, arith, ok}
use openscreen_rs.Network.Messages.{
  AuthStatusCode, Spake2PskStatus, PskInputEase, NetworkMessageType, PskInputMethod, type_key,
  psk_status_code, input_ease_code, input_method_code, status_code, psk_status_from_u8,
  input_ease_from_u8, input_method_from_u8, status_from_u8, message_type_from_u16,
}

pub psk_status_lem : (x : Spake2PskStatus) → psk_status_from_u8 (psk_status_code x) ≡ ok x
unfolding psk_status_from_u8
psk_status_lem Spake2PskStatus.psk_needs_presentation = refl
psk_status_lem _ = refl

pub input_ease_lem : (x : PskInputEase) → input_ease_from_u8 (input_ease_code x) ≡ ok x
unfolding input_ease_from_u8
input_ease_lem PskInputEase.unknown = refl
input_ease_lem _ = refl

pub input_method_lem : (x : PskInputMethod) → input_method_from_u8 (input_method_code x) ≡ ok x
unfolding input_method_from_u8
input_method_lem PskInputMethod.numeric = refl
input_method_lem _ = refl

pub status_lem : (x : AuthStatusCode) → status_from_u8 (status_code x) ≡ ok x
unfolding status_from_u8
status_lem AuthStatusCode.ok = refl
status_lem _ = refl

pub psk_status_small : (x : Spake2PskStatus) → psk_status_code x < 256
psk_status_small Spake2PskStatus.psk_shown = omega arith
psk_status_small _ = omega arith

pub input_ease_small : (x : PskInputEase) → input_ease_code x < 256
input_ease_small PskInputEase.unknown = omega arith
input_ease_small _ = omega arith

pub input_method_small : (x : PskInputMethod) → input_method_code x < 256
input_method_small PskInputMethod.numeric = omega arith
input_method_small _ = omega arith

pub status_small : (x : AuthStatusCode) → status_code x < 256
status_small AuthStatusCode.ok = omega arith
status_small _ = omega arith

pub message_type_lem : (kind : NetworkMessageType) → message_type_from_u16 (type_key kind) ≡ ok kind
unfolding message_type_from_u16
message_type_lem NetworkMessageType.auth_capabilities = refl
message_type_lem _ = refl

pub type_key_small : (kind : NetworkMessageType) → type_key kind < 2 ^ 16
type_key_small NetworkMessageType.auth_capabilities = omega arith
type_key_small _ = omega arith
