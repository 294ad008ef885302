-- ===== src/Application/Messages/Encode/Message.antt =====
-- openscreen-application/src/messages.rs: ApplicationMessage::encode.
use openscreen_rs.Base.{ℕ, List, Action}
use openscreen_rs.Deps.{Deps}
use openscreen_rs.Common.{MessageError}
use openscreen_rs.Application.Messages.{ApplicationMessage}
use openscreen_rs.Application.Messages.Encode.Agent.{
  encode_info_request, encode_info_response, encode_status_request, encode_status_response,
  encode_info_event,
}
use openscreen_rs.Application.Messages.Encode.Presentation.{
  encode_start_request, encode_start_response, encode_termination_request,
  encode_termination_response, encode_termination_event,
}
use openscreen_rs.Application.Messages.Encode.Availability.{
  encode_availability_request, encode_availability_response, encode_availability_event,
}
use openscreen_rs.Application.Messages.Encode.Connection.{
  encode_open_request, encode_open_response, encode_close_event, encode_connection_message,
  encode_change_event,
}

module _ (d : Deps) (n : ℕ) where
  unfoldable pub encode_application_message :
      ApplicationMessage → Action (List ℕ) MessageError (Unit {0})
  encode_application_message (ApplicationMessage.agent_info_request msg) =
      encode_info_request d n msg
  encode_application_message (ApplicationMessage.agent_info_response msg) =
      encode_info_response d n msg
  encode_application_message (ApplicationMessage.agent_status_request msg) =
      encode_status_request d n msg
  encode_application_message (ApplicationMessage.agent_status_response msg) =
      encode_status_response d n msg
  encode_application_message (ApplicationMessage.agent_info_event msg) = encode_info_event d n msg
  encode_application_message (ApplicationMessage.presentation_url_availability_request msg) =
      encode_availability_request d n msg
  encode_application_message (ApplicationMessage.presentation_url_availability_response msg) =
      encode_availability_response d n msg
  encode_application_message (ApplicationMessage.presentation_url_availability_event msg) =
      encode_availability_event d n msg
  encode_application_message (ApplicationMessage.presentation_start_request msg) =
      encode_start_request d n msg
  encode_application_message (ApplicationMessage.presentation_start_response msg) =
      encode_start_response d n msg
  encode_application_message (ApplicationMessage.presentation_termination_request msg) =
      encode_termination_request d n msg
  encode_application_message (ApplicationMessage.presentation_termination_response msg) =
      encode_termination_response d n msg
  encode_application_message (ApplicationMessage.presentation_termination_event msg) =
      encode_termination_event d n msg
  encode_application_message (ApplicationMessage.presentation_connection_open_request msg) =
      encode_open_request d n msg
  encode_application_message (ApplicationMessage.presentation_connection_open_response msg) =
      encode_open_response d n msg
  encode_application_message (ApplicationMessage.presentation_connection_close_event msg) =
      encode_close_event d n msg
  encode_application_message (ApplicationMessage.presentation_connection_message msg) =
      encode_connection_message d n msg
  encode_application_message (ApplicationMessage.presentation_change_event msg) =
      encode_change_event d n msg
