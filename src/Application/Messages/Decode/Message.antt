-- ===== src/Application/Messages/Decode/Message.antt =====
-- openscreen-application/src/messages.rs: ApplicationMessage::decode.
use openscreen_rs.Base.{List, ℕ, Action, Outcome, ok, err, panic, pure, ◌>>=◌}
use openscreen_rs.Deps.{Deps}
use openscreen_rs.Network.Messages.Codec.Decode.{slice_from, decode_in}
use openscreen_rs.Common.{MessageError}
use openscreen_rs.Common.TypeKey.{decode_type_key}
use openscreen_rs.Application.Kinds.{ApplicationMessageType, application_type_from_u16}
use openscreen_rs.Application.Messages.{ApplicationMessage}
use openscreen_rs.Application.Messages.Decode.Agent.{
  decode_info_request_body, decode_info_response_body, decode_status_request_body,
  decode_status_response_body, decode_info_event_body,
}
use openscreen_rs.Application.Messages.Decode.Start.{
  decode_start_request_body, decode_start_response_body,
}
use openscreen_rs.Application.Messages.Decode.Termination.{
  decode_termination_request_body, decode_termination_response_body, decode_termination_event_body,
}
use openscreen_rs.Application.Messages.Decode.Availability.{
  decode_availability_request_body, decode_availability_response_body,
  decode_availability_event_body,
}
use openscreen_rs.Application.Messages.Decode.Opening.{
  decode_open_request_body, decode_open_response_body,
}
use openscreen_rs.Application.Messages.Decode.Connection.{
  decode_close_event_body, decode_connection_message_body, decode_change_event_body,
}

module _ (d : Deps) where
  -- The match on the message type.
  unfoldable pub decode_application_body :
      ApplicationMessageType → Action (List ℕ) MessageError ApplicationMessage
  decode_application_body ApplicationMessageType.agent_info_request = do
    msg ← decode_info_request_body d
    pure (ApplicationMessage.agent_info_request msg)
  decode_application_body ApplicationMessageType.agent_info_response = do
    msg ← decode_info_response_body d
    pure (ApplicationMessage.agent_info_response msg)
  decode_application_body ApplicationMessageType.agent_status_request = do
    msg ← decode_status_request_body d
    pure (ApplicationMessage.agent_status_request msg)
  decode_application_body ApplicationMessageType.agent_status_response = do
    msg ← decode_status_response_body d
    pure (ApplicationMessage.agent_status_response msg)
  decode_application_body ApplicationMessageType.agent_info_event = do
    msg ← decode_info_event_body d
    pure (ApplicationMessage.agent_info_event msg)
  decode_application_body ApplicationMessageType.presentation_url_availability_request = do
    msg ← decode_availability_request_body d
    pure (ApplicationMessage.presentation_url_availability_request msg)
  decode_application_body ApplicationMessageType.presentation_url_availability_response = do
    msg ← decode_availability_response_body d
    pure (ApplicationMessage.presentation_url_availability_response msg)
  decode_application_body ApplicationMessageType.presentation_url_availability_event = do
    msg ← decode_availability_event_body d
    pure (ApplicationMessage.presentation_url_availability_event msg)
  decode_application_body ApplicationMessageType.presentation_start_request = do
    msg ← decode_start_request_body d
    pure (ApplicationMessage.presentation_start_request msg)
  decode_application_body ApplicationMessageType.presentation_start_response = do
    msg ← decode_start_response_body d
    pure (ApplicationMessage.presentation_start_response msg)
  decode_application_body ApplicationMessageType.presentation_termination_request = do
    msg ← decode_termination_request_body d
    pure (ApplicationMessage.presentation_termination_request msg)
  decode_application_body ApplicationMessageType.presentation_termination_response = do
    msg ← decode_termination_response_body d
    pure (ApplicationMessage.presentation_termination_response msg)
  decode_application_body ApplicationMessageType.presentation_termination_event = do
    msg ← decode_termination_event_body d
    pure (ApplicationMessage.presentation_termination_event msg)
  decode_application_body ApplicationMessageType.presentation_connection_open_request = do
    msg ← decode_open_request_body d
    pure (ApplicationMessage.presentation_connection_open_request msg)
  decode_application_body ApplicationMessageType.presentation_connection_open_response = do
    msg ← decode_open_response_body d
    pure (ApplicationMessage.presentation_connection_open_response msg)
  decode_application_body ApplicationMessageType.presentation_connection_close_event = do
    msg ← decode_close_event_body d
    pure (ApplicationMessage.presentation_connection_close_event msg)
  decode_application_body ApplicationMessageType.presentation_connection_message = do
    msg ← decode_connection_message_body d
    pure (ApplicationMessage.presentation_connection_message msg)
  decode_application_body ApplicationMessageType.presentation_change_event = do
    msg ← decode_change_event_body d
    pure (ApplicationMessage.presentation_change_event msg)

  abbrev pub decode_application_key :
      List ℕ
      → ℕ
      → Outcome MessageError ApplicationMessageType
      → Outcome MessageError ApplicationMessage
  decode_application_key buf consumed (ok kind) =
      decode_in (decode_application_body kind) (slice_from consumed buf)
  decode_application_key buf consumed (err e) = err e
  decode_application_key buf consumed panic = panic

  abbrev pub decode_application_type :
      List ℕ → Outcome MessageError (ℕ × ℕ) → Outcome MessageError ApplicationMessage
  decode_application_type buf (ok (key, consumed)) =
      decode_application_key buf consumed (application_type_from_u16 key)
  decode_application_type buf (err e) = err e
  decode_application_type buf panic = panic

  unfoldable pub decode_application_message : List ℕ → Outcome MessageError ApplicationMessage
  decode_application_message buf = decode_application_type buf (decode_type_key d buf)
