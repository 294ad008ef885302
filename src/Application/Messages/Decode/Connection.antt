-- ===== src/Application/Messages/Decode/Connection.antt =====
-- openscreen-application/src/messages.rs: `decode` of the messages about a connection to a
-- presentation.
use openscreen_rs.Base.{
  ℕ, ◌||◌, Option, none, some, List, ensure, Outcome, Action, pure, raise, ◌>>=◌, ◌>>◌,
  if◌then◌else◌, ◌==◌,
}
use openscreen_rs.Deps.{Deps}
use openscreen_rs.Common.{MessageError}
use openscreen_rs.Network.Messages.Codec.{read}
use openscreen_rs.Network.Messages.Codec.Decode.{required, is_length}
use openscreen_rs.Application.Kinds.{ApplicationMessageType}
use openscreen_rs.Application.Messages.Decode.{decode_as_type, decode_code, decode_fields}
use openscreen_rs.Application.Enumerations.{PresentationConnectionCloseReason, close_reason_from_u8}
use openscreen_rs.Application.Messages.{
  PresentationConnectionCloseEvent, PresentationConnectionMessage, PresentationChangeEvent,
}

-- The locals of the loop of decode_body, and their values before it.
pub record CloseEventFields : Type 0 where
  pub connection_id : Option ℕ
  pub reason : Option PresentationConnectionCloseReason
  pub error_message : Option (List ℕ)
  pub connection_count : Option ℕ

abbrev pub no_close_event_fields : CloseEventFields
no_close_event_fields = record {
  connection_id = none;
  reason = none;
  error_message = none;
  connection_count = none;
}

-- The locals of the loop of decode_body, and their values before it.
pub record ConnectionMessageFields : Type 0 where
  pub connection_id : Option ℕ
  pub message : Option (List ℕ)

abbrev pub no_connection_message_fields : ConnectionMessageFields
no_connection_message_fields = record { connection_id = none; message = none }

-- The locals of the loop of decode_body, and their values before it.
pub record ChangeEventFields : Type 0 where
  pub presentation_id : Option (List ℕ)
  pub connection_count : Option ℕ

abbrev pub no_change_event_fields : ChangeEventFields
no_change_event_fields = record { presentation_id = none; connection_count = none }

module _ (d : Deps) where
  unfoldable pub close_event_field :
      ℕ → CloseEventFields → Action (List ℕ) MessageError CloseEventFields
  close_event_field key f =
      if key == 0
      then (do
        connection_id ← read d.decoder.u64
        pure (record f { connection_id = some connection_id }))
      else if key == 1
      then (do
        reason ← decode_code d close_reason_from_u8
        pure (record f { reason = some reason }))
      else if key == 2
      then (do
        error_message ← read d.decoder.str
        pure (record f { error_message = some error_message }))
      else if key == 3
      then (do
        connection_count ← read d.decoder.u64
        pure (record f { connection_count = some connection_count }))
      else raise MessageError.invalid_field

  unfoldable pub decode_close_event_body :
      Action (List ℕ) MessageError PresentationConnectionCloseEvent
  decode_close_event_body = do
    map_len ← read d.decoder.map
    ensure (is_length 3 map_len || is_length 4 map_len) MessageError.invalid_field
    f ←
        decode_fields d close_event_field (if is_length 3 map_len then 3 else 4)
          no_close_event_fields
    connection_id ← required f.connection_id
    reason ← required f.reason
    connection_count ← required f.connection_count
    pure (record {
      connection_id = connection_id;
      reason = reason;
      error_message = f.error_message;
      connection_count = connection_count;
    })

  unfoldable pub decode_close_event : List ℕ → Outcome MessageError PresentationConnectionCloseEvent
  decode_close_event =
      decode_as_type d ApplicationMessageType.presentation_connection_close_event
        decode_close_event_body

  unfoldable pub connection_message_field :
      ℕ → ConnectionMessageFields → Action (List ℕ) MessageError ConnectionMessageFields
  connection_message_field key f =
      if key == 0
      then (do
        connection_id ← read d.decoder.u64
        pure (record f { connection_id = some connection_id }))
      else if key == 1
      then (do message ← read d.decoder.bytes; pure (record f { message = some message }))
      else raise MessageError.invalid_field

  unfoldable pub decode_connection_message_body :
      Action (List ℕ) MessageError PresentationConnectionMessage
  decode_connection_message_body = do
    map_len ← read d.decoder.map
    ensure (is_length 2 map_len) MessageError.invalid_field
    f ← decode_fields d connection_message_field 2 no_connection_message_fields
    connection_id ← required f.connection_id
    message ← required f.message
    pure (record { connection_id = connection_id; message = message })

  unfoldable pub decode_connection_message :
      List ℕ → Outcome MessageError PresentationConnectionMessage
  decode_connection_message =
      decode_as_type d ApplicationMessageType.presentation_connection_message
        decode_connection_message_body

  unfoldable pub change_event_field :
      ℕ → ChangeEventFields → Action (List ℕ) MessageError ChangeEventFields
  change_event_field key f =
      if key == 0
      then (do
        presentation_id ← read d.decoder.str
        pure (record f { presentation_id = some presentation_id }))
      else if key == 1
      then (do
        connection_count ← read d.decoder.u64
        pure (record f { connection_count = some connection_count }))
      else raise MessageError.invalid_field

  unfoldable pub decode_change_event_body : Action (List ℕ) MessageError PresentationChangeEvent
  decode_change_event_body = do
    map_len ← read d.decoder.map
    ensure (is_length 2 map_len) MessageError.invalid_field
    f ← decode_fields d change_event_field 2 no_change_event_fields
    presentation_id ← required f.presentation_id
    connection_count ← required f.connection_count
    pure (record { presentation_id = presentation_id; connection_count = connection_count })

  unfoldable pub decode_change_event : List ℕ → Outcome MessageError PresentationChangeEvent
  decode_change_event =
      decode_as_type d ApplicationMessageType.presentation_change_event decode_change_event_body
