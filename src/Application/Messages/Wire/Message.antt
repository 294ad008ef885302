-- ===== src/Application/Messages/Wire/Message.antt =====
-- The bytes of an application message, and that ApplicationMessage::encode writes them.
use openscreen_rs.Base.{fits_or_not, ℕ, ◌+◌, ◌≤◌, ◌<◌, ◌≡◌, ◌⊎◌, inl, inr, List, ◌++◌, length, ok}
use openscreen_rs.Deps.{Deps, Laws}
use openscreen_rs.Application.Kinds.{ApplicationMessageType}
use openscreen_rs.Application.Messages.{ApplicationMessage}
use openscreen_rs.Network.Messages.Codec.Writes.{Writes, IsErr}
use openscreen_rs.Application.Messages.Encode.Message.{encode_application_message}
use openscreen_rs.Application.Messages.Wire.{kind_bytes}
use openscreen_rs.Application.Messages.Wire.Agent.{
  info_request_bytes, info_request-Writes, info_response_bytes, info_response-Writes,
  status_request_bytes, status_request-Writes, status_response_bytes, status_response-Writes,
  info_event_bytes, info_event-Writes,
}
use openscreen_rs.Application.Messages.Wire.Presentation.{
  start_request_bytes, start_request-Writes, start_response_bytes, start_response-Writes,
  termination_request_bytes, termination_request-Writes, termination_response_bytes,
  termination_response-Writes, termination_event_bytes, termination_event-Writes,
}
use openscreen_rs.Application.Messages.Wire.Availability.{
  availability_request_bytes, availability_request-Writes, availability_response_bytes,
  availability_response-Writes, availability_event_bytes, availability_event-Writes,
}
use openscreen_rs.Application.Messages.Wire.Connection.{
  open_request_bytes, open_request-Writes, open_response_bytes, open_response-Writes,
  close_event_bytes, close_event-Writes, connection_message_bytes, connection_message-Writes,
  change_event_bytes, change_event-Writes,
}

abbrev pub kind_of : ApplicationMessage → ApplicationMessageType
kind_of (ApplicationMessage.agent_info_request msg) = ApplicationMessageType.agent_info_request
kind_of (ApplicationMessage.agent_info_response msg) = ApplicationMessageType.agent_info_response
kind_of (ApplicationMessage.agent_status_request msg) = ApplicationMessageType.agent_status_request
kind_of (ApplicationMessage.agent_status_response msg) =
    ApplicationMessageType.agent_status_response
kind_of (ApplicationMessage.agent_info_event msg) = ApplicationMessageType.agent_info_event
kind_of (ApplicationMessage.presentation_url_availability_request msg) =
    ApplicationMessageType.presentation_url_availability_request
kind_of (ApplicationMessage.presentation_url_availability_response msg) =
    ApplicationMessageType.presentation_url_availability_response
kind_of (ApplicationMessage.presentation_url_availability_event msg) =
    ApplicationMessageType.presentation_url_availability_event
kind_of (ApplicationMessage.presentation_start_request msg) =
    ApplicationMessageType.presentation_start_request
kind_of (ApplicationMessage.presentation_start_response msg) =
    ApplicationMessageType.presentation_start_response
kind_of (ApplicationMessage.presentation_termination_request msg) =
    ApplicationMessageType.presentation_termination_request
kind_of (ApplicationMessage.presentation_termination_response msg) =
    ApplicationMessageType.presentation_termination_response
kind_of (ApplicationMessage.presentation_termination_event msg) =
    ApplicationMessageType.presentation_termination_event
kind_of (ApplicationMessage.presentation_connection_open_request msg) =
    ApplicationMessageType.presentation_connection_open_request
kind_of (ApplicationMessage.presentation_connection_open_response msg) =
    ApplicationMessageType.presentation_connection_open_response
kind_of (ApplicationMessage.presentation_connection_close_event msg) =
    ApplicationMessageType.presentation_connection_close_event
kind_of (ApplicationMessage.presentation_connection_message msg) =
    ApplicationMessageType.presentation_connection_message
kind_of (ApplicationMessage.presentation_change_event msg) =
    ApplicationMessageType.presentation_change_event

module _ (d : Deps) where
  abbrev pub body_bytes : ApplicationMessage → List ℕ
  body_bytes (ApplicationMessage.agent_info_request msg) = info_request_bytes d msg
  body_bytes (ApplicationMessage.agent_info_response msg) = info_response_bytes d msg
  body_bytes (ApplicationMessage.agent_status_request msg) = status_request_bytes d msg
  body_bytes (ApplicationMessage.agent_status_response msg) = status_response_bytes d msg
  body_bytes (ApplicationMessage.agent_info_event msg) = info_event_bytes d msg
  body_bytes (ApplicationMessage.presentation_url_availability_request msg) =
      availability_request_bytes d msg
  body_bytes (ApplicationMessage.presentation_url_availability_response msg) =
      availability_response_bytes d msg
  body_bytes (ApplicationMessage.presentation_url_availability_event msg) =
      availability_event_bytes d msg
  body_bytes (ApplicationMessage.presentation_start_request msg) = start_request_bytes d msg
  body_bytes (ApplicationMessage.presentation_start_response msg) = start_response_bytes d msg
  body_bytes (ApplicationMessage.presentation_termination_request msg) =
      termination_request_bytes d msg
  body_bytes (ApplicationMessage.presentation_termination_response msg) =
      termination_response_bytes d msg
  body_bytes (ApplicationMessage.presentation_termination_event msg) = termination_event_bytes d msg
  body_bytes (ApplicationMessage.presentation_connection_open_request msg) =
      open_request_bytes d msg
  body_bytes (ApplicationMessage.presentation_connection_open_response msg) =
      open_response_bytes d msg
  body_bytes (ApplicationMessage.presentation_connection_close_event msg) = close_event_bytes d msg
  body_bytes (ApplicationMessage.presentation_connection_message msg) =
      connection_message_bytes d msg
  body_bytes (ApplicationMessage.presentation_change_event msg) = change_event_bytes d msg

  abbrev pub application_wire : ApplicationMessage → List ℕ
  application_wire msg = kind_bytes d (kind_of msg) ++ body_bytes msg

module _ (d : Deps) (laws : Laws d) (n : ℕ) where
  pub application-Writes :
      (msg : ApplicationMessage)
      → Writes n (encode_application_message d n msg) (application_wire d msg)
  unfolding encode_application_message
  application-Writes (ApplicationMessage.agent_info_request msg) = info_request-Writes d laws n msg
  application-Writes (ApplicationMessage.agent_info_response msg) =
      info_response-Writes d laws n msg
  application-Writes (ApplicationMessage.agent_status_request msg) =
      status_request-Writes d laws n msg
  application-Writes (ApplicationMessage.agent_status_response msg) =
      status_response-Writes d laws n msg
  application-Writes (ApplicationMessage.agent_info_event msg) = info_event-Writes d laws n msg
  application-Writes (ApplicationMessage.presentation_url_availability_request msg) =
      availability_request-Writes d laws n msg
  application-Writes (ApplicationMessage.presentation_url_availability_response msg) =
      availability_response-Writes d laws n msg
  application-Writes (ApplicationMessage.presentation_url_availability_event msg) =
      availability_event-Writes d laws n msg
  application-Writes (ApplicationMessage.presentation_start_request msg) =
      start_request-Writes d laws n msg
  application-Writes (ApplicationMessage.presentation_start_response msg) =
      start_response-Writes d laws n msg
  application-Writes (ApplicationMessage.presentation_termination_request msg) =
      termination_request-Writes d laws n msg
  application-Writes (ApplicationMessage.presentation_termination_response msg) =
      termination_response-Writes d laws n msg
  application-Writes (ApplicationMessage.presentation_termination_event msg) =
      termination_event-Writes d laws n msg
  application-Writes (ApplicationMessage.presentation_connection_open_request msg) =
      open_request-Writes d laws n msg
  application-Writes (ApplicationMessage.presentation_connection_open_response msg) =
      open_response-Writes d laws n msg
  application-Writes (ApplicationMessage.presentation_connection_close_event msg) =
      close_event-Writes d laws n msg
  application-Writes (ApplicationMessage.presentation_connection_message msg) =
      connection_message-Writes d laws n msg
  application-Writes (ApplicationMessage.presentation_change_event msg) =
      change_event-Writes d laws n msg

  -- From a buffer within its capacity, an application message is encoded, by appending its wire
  -- format, when that fits, and an error is returned, with no panic, when it does not.
  pub application_exact :
      (msg : ApplicationMessage) (buf : List ℕ)
      → length buf ≤ n
      → (length buf + length (application_wire d msg) ≤ n)
          × (encode_application_message d n msg buf ≡ (ok tt, buf ++ application_wire d msg))
        ⊎ (n < length buf + length (application_wire d msg))
          × IsErr (encode_application_message d n msg buf).0
  application_exact msg buf h =
      elim (fits_or_not (length buf + length (application_wire d msg)) n) [
        | inl fits ↦ inl (fits, (application-Writes msg).fits buf fits)
        | inr over ↦ inr (over, (application-Writes msg).full buf h over)
      ]
