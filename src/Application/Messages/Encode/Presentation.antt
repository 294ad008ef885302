-- ===== src/Application/Messages/Encode/Presentation.antt =====
-- openscreen-application/src/messages.rs: `encode` of the messages that start and terminate
-- presentations.
use openscreen_rs.Base.{ℕ, Option, none, some, List, Action, pure, ◌>>◌}
use openscreen_rs.Deps.{Deps}
use openscreen_rs.Common.{MessageError}
use openscreen_rs.Common.TypeKey.{encode_type_key}
use openscreen_rs.Network.Messages.Codec.{emit}
use openscreen_rs.Application.Kinds.{ApplicationMessageType, application_key}
use openscreen_rs.Application.Enumerations.{
  result_code, termination_source_code, termination_reason_code,
}
use openscreen_rs.Application.Messages.{
  HttpHeader, PresentationStartRequest, PresentationStartResponse, PresentationTerminationRequest,
  PresentationTerminationResponse, PresentationTerminationEvent,
}
use openscreen_rs.Application.Messages.Encode.{encode_list}

-- The number of fields, of which one may be left out.
abbrev pub start_response_count : Option ℕ → ℕ
start_response_count none = 3
start_response_count (some http_code) = 4

module _ (d : Deps) (n : ℕ) where
  unfoldable pub encode_header : HttpHeader → Action (List ℕ) MessageError (Unit {0})
  encode_header header = do
    emit d n (d.encoder.array 2)
    emit d n (d.encoder.str header.key)
    emit d n (d.encoder.str header.value)

  unfoldable pub encode_start_request :
      PresentationStartRequest → Action (List ℕ) MessageError (Unit {0})
  encode_start_request msg = do
    encode_type_key d n (application_key ApplicationMessageType.presentation_start_request)
    emit d n (d.encoder.map 4)
    emit d n (d.encoder.u8 0)
    emit d n (d.encoder.u64 msg.request_id)
    emit d n (d.encoder.u8 1)
    emit d n (d.encoder.str msg.presentation_id)
    emit d n (d.encoder.u8 2)
    emit d n (d.encoder.str msg.url)
    emit d n (d.encoder.u8 3)
    encode_list d n encode_header msg.headers

  unfoldable pub encode_http_code_field : Option ℕ → Action (List ℕ) MessageError (Unit {0})
  encode_http_code_field none = pure tt
  encode_http_code_field (some http_code) = do
    emit d n (d.encoder.u8 3)
    emit d n (d.encoder.u16 http_code)

  unfoldable pub encode_start_response :
      PresentationStartResponse → Action (List ℕ) MessageError (Unit {0})
  encode_start_response msg = do
    encode_type_key d n (application_key ApplicationMessageType.presentation_start_response)
    emit d n (d.encoder.map (start_response_count msg.http_response_code))
    emit d n (d.encoder.u8 0)
    emit d n (d.encoder.u64 msg.request_id)
    emit d n (d.encoder.u8 1)
    emit d n (d.encoder.u8 (result_code msg.result))
    emit d n (d.encoder.u8 2)
    emit d n (d.encoder.u64 msg.connection_id)
    encode_http_code_field msg.http_response_code

  unfoldable pub encode_termination_request :
      PresentationTerminationRequest → Action (List ℕ) MessageError (Unit {0})
  encode_termination_request msg = do
    encode_type_key d n (application_key ApplicationMessageType.presentation_termination_request)
    emit d n (d.encoder.map 3)
    emit d n (d.encoder.u8 0)
    emit d n (d.encoder.u64 msg.request_id)
    emit d n (d.encoder.u8 1)
    emit d n (d.encoder.str msg.presentation_id)
    emit d n (d.encoder.u8 2)
    emit d n (d.encoder.u8 (termination_reason_code msg.reason))

  unfoldable pub encode_termination_response :
      PresentationTerminationResponse → Action (List ℕ) MessageError (Unit {0})
  encode_termination_response msg = do
    encode_type_key d n (application_key ApplicationMessageType.presentation_termination_response)
    emit d n (d.encoder.map 2)
    emit d n (d.encoder.u8 0)
    emit d n (d.encoder.u64 msg.request_id)
    emit d n (d.encoder.u8 1)
    emit d n (d.encoder.u8 (result_code msg.result))

  unfoldable pub encode_termination_event :
      PresentationTerminationEvent → Action (List ℕ) MessageError (Unit {0})
  encode_termination_event msg = do
    encode_type_key d n (application_key ApplicationMessageType.presentation_termination_event)
    emit d n (d.encoder.map 3)
    emit d n (d.encoder.u8 0)
    emit d n (d.encoder.str msg.presentation_id)
    emit d n (d.encoder.u8 1)
    emit d n (d.encoder.u8 (termination_source_code msg.source))
    emit d n (d.encoder.u8 2)
    emit d n (d.encoder.u8 (termination_reason_code msg.reason))
