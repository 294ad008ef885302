-- ===== src/Common.antt =====
-- openscreen-common/src: the error kinds and limits that the protocol layers share (error.rs,
-- types.rs). The type keys are below.
pub mod TypeKey
use openscreen_rs.Base.{ℕ}

pub data MessageError : Type 0 where
  encode_failed decode_failed buffer_full invalid_message_type : MessageError
  missing_field invalid_field field_too_long : MessageError

abbrev pub max_cbor_size : ℕ
max_cbor_size = 1024

abbrev pub max_urls : ℕ
max_urls = 16

abbrev pub max_string_length : ℕ
max_string_length = 256
