-- ===== src/Application/Messages/Safe/Message.antt =====
-- ApplicationMessage::decode never panics, whatever bytes come in.
use openscreen_rs.Base.{◌≤◌, length, le→leb, ℕ, List, drop, Outcome, ok, err, panic}
use openscreen_rs.Base.Safe.{IsSafe, Safe, Safe-pure, Safe-bind}
use openscreen_rs.Deps.{Deps}
use openscreen_rs.Common.{MessageError}
use openscreen_rs.Common.TypeKey.{decode_type_key}
use openscreen_rs.Network.Messages.Codec.Safe.{IsWithinInput, key-IsWithinInput}
use openscreen_rs.Application.Kinds.{ApplicationMessageType, application_type_from_u16}
use openscreen_rs.Application.Messages.Safe.{type-IsSafe}
use openscreen_rs.Application.Messages.Decode.Message.{
  decode_application_body, decode_application_key, decode_application_type,
  decode_application_message,
}
use openscreen_rs.Application.Messages.Safe.Agent.{
  decode_info_request_body-Safe, decode_info_response_body-Safe, decode_status_request_body-Safe,
  decode_status_response_body-Safe, decode_info_event_body-Safe,
}
use openscreen_rs.Application.Messages.Safe.Presentation.{
  decode_availability_request_body-Safe, decode_availability_response_body-Safe,
  decode_availability_event_body-Safe, decode_start_request_body-Safe,
  decode_start_response_body-Safe, decode_termination_request_body-Safe,
  decode_termination_response_body-Safe, decode_termination_event_body-Safe,
}
use openscreen_rs.Application.Messages.Safe.Connection.{
  decode_open_request_body-Safe, decode_open_response_body-Safe, decode_close_event_body-Safe,
  decode_connection_message_body-Safe, decode_change_event_body-Safe,
}

module _ (d : Deps) where
  body-Safe : (kind : ApplicationMessageType) → Safe (decode_application_body d kind)
  unfolding decode_application_body
  body-Safe ApplicationMessageType.agent_info_request =
      Safe-bind _ _ (decode_info_request_body-Safe d) (λ msg. Safe-pure _)
  body-Safe ApplicationMessageType.agent_info_response =
      Safe-bind _ _ (decode_info_response_body-Safe d) (λ msg. Safe-pure _)
  body-Safe ApplicationMessageType.agent_status_request =
      Safe-bind _ _ (decode_status_request_body-Safe d) (λ msg. Safe-pure _)
  body-Safe ApplicationMessageType.agent_status_response =
      Safe-bind _ _ (decode_status_response_body-Safe d) (λ msg. Safe-pure _)
  body-Safe ApplicationMessageType.agent_info_event =
      Safe-bind _ _ (decode_info_event_body-Safe d) (λ msg. Safe-pure _)
  body-Safe ApplicationMessageType.presentation_url_availability_request =
      Safe-bind _ _ (decode_availability_request_body-Safe d) (λ msg. Safe-pure _)
  body-Safe ApplicationMessageType.presentation_url_availability_response =
      Safe-bind _ _ (decode_availability_response_body-Safe d) (λ msg. Safe-pure _)
  body-Safe ApplicationMessageType.presentation_url_availability_event =
      Safe-bind _ _ (decode_availability_event_body-Safe d) (λ msg. Safe-pure _)
  body-Safe ApplicationMessageType.presentation_start_request =
      Safe-bind _ _ (decode_start_request_body-Safe d) (λ msg. Safe-pure _)
  body-Safe ApplicationMessageType.presentation_start_response =
      Safe-bind _ _ (decode_start_response_body-Safe d) (λ msg. Safe-pure _)
  body-Safe ApplicationMessageType.presentation_termination_request =
      Safe-bind _ _ (decode_termination_request_body-Safe d) (λ msg. Safe-pure _)
  body-Safe ApplicationMessageType.presentation_termination_response =
      Safe-bind _ _ (decode_termination_response_body-Safe d) (λ msg. Safe-pure _)
  body-Safe ApplicationMessageType.presentation_termination_event =
      Safe-bind _ _ (decode_termination_event_body-Safe d) (λ msg. Safe-pure _)
  body-Safe ApplicationMessageType.presentation_connection_open_request =
      Safe-bind _ _ (decode_open_request_body-Safe d) (λ msg. Safe-pure _)
  body-Safe ApplicationMessageType.presentation_connection_open_response =
      Safe-bind _ _ (decode_open_response_body-Safe d) (λ msg. Safe-pure _)
  body-Safe ApplicationMessageType.presentation_connection_close_event =
      Safe-bind _ _ (decode_close_event_body-Safe d) (λ msg. Safe-pure _)
  body-Safe ApplicationMessageType.presentation_connection_message =
      Safe-bind _ _ (decode_connection_message_body-Safe d) (λ msg. Safe-pure _)
  body-Safe ApplicationMessageType.presentation_change_event =
      Safe-bind _ _ (decode_change_event_body-Safe d) (λ msg. Safe-pure _)

  kind-IsSafe :
      (input : List ℕ) (consumed : ℕ) (kind : Outcome MessageError ApplicationMessageType)
      → consumed ≤ length input
      → IsSafe kind
      → IsSafe (decode_application_key d input consumed kind)
  kind-IsSafe input consumed (ok kind) fits h =
      rw (le→leb consumed (length input) fits) ((body-Safe kind).at (drop consumed input))
  kind-IsSafe input consumed (err e) fits h = tt
  kind-IsSafe input consumed panic fits h = h

  message-IsSafe :
      (input : List ℕ) (key : Outcome MessageError (ℕ × ℕ))
      → IsWithinInput input key
      → IsSafe (decode_application_type d input key)
  message-IsSafe input (ok (key, consumed)) h =
      kind-IsSafe input consumed (application_type_from_u16 key) h (type-IsSafe key)
  message-IsSafe input (err e) h = tt
  message-IsSafe input panic h = h

  -- ApplicationMessage::decode returns a message or an error for every input: it never panics,
  -- whatever the peer sent.
  pub decode_application-IsSafe : (input : List ℕ) → IsSafe (decode_application_message d input)
  unfolding decode_application_message decode_type_key
  decode_application-IsSafe input =
      message-IsSafe input _ (key-IsWithinInput input (d.varint.decode input))
