-- ===== src/Application/Messages/Encode/Connection.antt =====
-- openscreen-application/src/messages.rs: `encode` of the messages about a connection to a
-- presentation.
use openscreen_rs.Base.{ℕ, Option, none, some, List, Action, pure, ◌>>◌}
use openscreen_rs.Deps.{Deps}
use openscreen_rs.Common.{MessageError}
use openscreen_rs.Common.TypeKey.{encode_type_key}
use openscreen_rs.Network.Messages.Codec.{emit}
use openscreen_rs.Application.Kinds.{ApplicationMessageType, application_key}
use openscreen_rs.Application.Enumerations.{result_code, close_reason_code}
use openscreen_rs.Application.Messages.{
  PresentationConnectionOpenRequest, PresentationConnectionOpenResponse,
  PresentationConnectionCloseEvent, PresentationConnectionMessage, PresentationChangeEvent,
}

-- The number of fields, of which one may be left out.
abbrev pub close_event_count : Option (List ℕ) → ℕ
close_event_count none = 3
close_event_count (some error_message) = 4

module _ (d : Deps) (n : ℕ) where
  unfoldable pub encode_open_request :
      PresentationConnectionOpenRequest → Action (List ℕ) MessageError (Unit {0})
  encode_open_request msg = do
    encode_type_key d n
        (application_key ApplicationMessageType.presentation_connection_open_request)
    emit d n (d.encoder.map 3)
    emit d n (d.encoder.u8 0)
    emit d n (d.encoder.u64 msg.request_id)
    emit d n (d.encoder.u8 1)
    emit d n (d.encoder.str msg.presentation_id)
    emit d n (d.encoder.u8 2)
    emit d n (d.encoder.str msg.url)

  unfoldable pub encode_open_response :
      PresentationConnectionOpenResponse → Action (List ℕ) MessageError (Unit {0})
  encode_open_response msg = do
    encode_type_key d n
        (application_key ApplicationMessageType.presentation_connection_open_response)
    emit d n (d.encoder.map 4)
    emit d n (d.encoder.u8 0)
    emit d n (d.encoder.u64 msg.request_id)
    emit d n (d.encoder.u8 1)
    emit d n (d.encoder.u8 (result_code msg.result))
    emit d n (d.encoder.u8 2)
    emit d n (d.encoder.u64 msg.connection_id)
    emit d n (d.encoder.u8 3)
    emit d n (d.encoder.u64 msg.connection_count)

  unfoldable pub encode_error_field : Option (List ℕ) → Action (List ℕ) MessageError (Unit {0})
  encode_error_field none = pure tt
  encode_error_field (some error_message) = do
    emit d n (d.encoder.u8 2)
    emit d n (d.encoder.str error_message)

  unfoldable pub encode_close_event :
      PresentationConnectionCloseEvent → Action (List ℕ) MessageError (Unit {0})
  encode_close_event msg = do
    encode_type_key d n (application_key ApplicationMessageType.presentation_connection_close_event)
    emit d n (d.encoder.map (close_event_count msg.error_message))
    emit d n (d.encoder.u8 0)
    emit d n (d.encoder.u64 msg.connection_id)
    emit d n (d.encoder.u8 1)
    emit d n (d.encoder.u8 (close_reason_code msg.reason))
    encode_error_field msg.error_message
    emit d n (d.encoder.u8 3)
    emit d n (d.encoder.u64 msg.connection_count)

  unfoldable pub encode_connection_message :
      PresentationConnectionMessage → Action (List ℕ) MessageError (Unit {0})
  encode_connection_message msg = do
    encode_type_key d n (application_key ApplicationMessageType.presentation_connection_message)
    emit d n (d.encoder.map 2)
    emit d n (d.encoder.u8 0)
    emit d n (d.encoder.u64 msg.connection_id)
    emit d n (d.encoder.u8 1)
    emit d n (d.encoder.bytes msg.message)

  unfoldable pub encode_change_event :
      PresentationChangeEvent → Action (List ℕ) MessageError (Unit {0})
  encode_change_event msg = do
    encode_type_key d n (application_key ApplicationMessageType.presentation_change_event)
    emit d n (d.encoder.map 2)
    emit d n (d.encoder.u8 0)
    emit d n (d.encoder.str msg.presentation_id)
    emit d n (d.encoder.u8 1)
    emit d n (d.encoder.u64 msg.connection_count)
