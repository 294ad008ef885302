-- ===== src/Application/Messages/Safe/Connection.antt =====
-- The decoders of the messages about a connection never panic.
use openscreen_rs.Base.{ℕ}
use openscreen_rs.Base.Safe.{Safe}
use openscreen_rs.Deps.{Deps}
use openscreen_rs.Application.Messages.Safe.{field_rules}
use openscreen_rs.Application.Messages.Decode.Opening.{
  open_request_field, decode_open_request_body, open_response_field, decode_open_response_body,
  OpenRequestFields, OpenResponseFields,
}
use openscreen_rs.Application.Messages.Decode.Connection.{
  close_event_field, decode_close_event_body, connection_message_field,
  decode_connection_message_body, change_event_field, decode_change_event_body, CloseEventFields,
  ConnectionMessageFields, ChangeEventFields,
}

module _ (d : Deps) where
  open_request_field-Safe : (key : ℕ) (f : OpenRequestFields) → Safe (open_request_field d key f)
  unfolding open_request_field
  open_request_field-Safe key f = search (field_rules) depth 24

  open_response_field-Safe : (key : ℕ) (f : OpenResponseFields) → Safe (open_response_field d key f)
  unfolding open_response_field
  open_response_field-Safe key f = search (field_rules) depth 24

  pub decode_open_request_body-Safe : Safe (decode_open_request_body d)
  unfolding decode_open_request_body
  decode_open_request_body-Safe = search (field_rules, open_request_field-Safe) depth 24

  pub decode_open_response_body-Safe : Safe (decode_open_response_body d)
  unfolding decode_open_response_body
  decode_open_response_body-Safe = search (field_rules, open_response_field-Safe) depth 24

  close_event_field-Safe : (key : ℕ) (f : CloseEventFields) → Safe (close_event_field d key f)
  unfolding close_event_field
  close_event_field-Safe key f = search (field_rules) depth 24

  connection_message_field-Safe :
      (key : ℕ) (f : ConnectionMessageFields) → Safe (connection_message_field d key f)
  unfolding connection_message_field
  connection_message_field-Safe key f = search (field_rules) depth 24

  change_event_field-Safe : (key : ℕ) (f : ChangeEventFields) → Safe (change_event_field d key f)
  unfolding change_event_field
  change_event_field-Safe key f = search (field_rules) depth 24

  pub decode_close_event_body-Safe : Safe (decode_close_event_body d)
  unfolding decode_close_event_body
  decode_close_event_body-Safe = search (field_rules, close_event_field-Safe) depth 24

  pub decode_connection_message_body-Safe : Safe (decode_connection_message_body d)
  unfolding decode_connection_message_body
  decode_connection_message_body-Safe = search (field_rules, connection_message_field-Safe) depth 24

  pub decode_change_event_body-Safe : Safe (decode_change_event_body d)
  unfolding decode_change_event_body
  decode_change_event_body-Safe = search (field_rules, change_event_field-Safe) depth 24
