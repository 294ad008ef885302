-- ===== src/Application/Messages/Decode/Termination.antt =====
-- openscreen-application/src/messages.rs: `decode` of the messages that terminate a presentation.
use openscreen_rs.Base.{
  ℕ, Option, none, some, List, ensure, Outcome, Action, pure, raise, ◌>>=◌, ◌>>◌, if◌then◌else◌,
  ◌==◌,
}
use openscreen_rs.Deps.{Deps}
use openscreen_rs.Common.{MessageError}
use openscreen_rs.Network.Messages.Codec.{read}
use openscreen_rs.Network.Messages.Codec.Decode.{required, is_length}
use openscreen_rs.Application.Kinds.{ApplicationMessageType}
use openscreen_rs.Application.Messages.Decode.{decode_as_type, decode_code, decode_fields}
use openscreen_rs.Application.Enumerations.{
  PresentationResult, PresentationTerminationSource, PresentationTerminationReason, result_from_u8,
  termination_source_from_u8, termination_reason_from_u8,
}
use openscreen_rs.Application.Messages.{
  PresentationTerminationRequest, PresentationTerminationResponse, PresentationTerminationEvent,
}

-- The locals of the loop of decode_body, and their values before it.
pub record TerminationRequestFields : Type 0 where
  pub request_id : Option ℕ
  pub presentation_id : Option (List ℕ)
  pub reason : Option PresentationTerminationReason

abbrev pub no_termination_request_fields : TerminationRequestFields
no_termination_request_fields = record { request_id = none; presentation_id = none; reason = none }

-- The locals of the loop of decode_body, and their values before it.
pub record TerminationResponseFields : Type 0 where
  pub request_id : Option ℕ
  pub result : Option PresentationResult

abbrev pub no_termination_response_fields : TerminationResponseFields
no_termination_response_fields = record { request_id = none; result = none }

-- The locals of the loop of decode_body, and their values before it.
pub record TerminationEventFields : Type 0 where
  pub presentation_id : Option (List ℕ)
  pub source : Option PresentationTerminationSource
  pub reason : Option PresentationTerminationReason

abbrev pub no_termination_event_fields : TerminationEventFields
no_termination_event_fields = record { presentation_id = none; source = none; reason = none }

module _ (d : Deps) where
  unfoldable pub termination_request_field :
      ℕ → TerminationRequestFields → Action (List ℕ) MessageError TerminationRequestFields
  termination_request_field key f =
      if key == 0
      then (do request_id ← read d.decoder.u64; pure (record f { request_id = some request_id }))
      else if key == 1
      then (do
        presentation_id ← read d.decoder.str
        pure (record f { presentation_id = some presentation_id }))
      else if key == 2
      then (do
        reason ← decode_code d termination_reason_from_u8
        pure (record f { reason = some reason }))
      else raise MessageError.invalid_field

  unfoldable pub decode_termination_request_body :
      Action (List ℕ) MessageError PresentationTerminationRequest
  decode_termination_request_body = do
    map_len ← read d.decoder.map
    ensure (is_length 3 map_len) MessageError.invalid_field
    f ← decode_fields d termination_request_field 3 no_termination_request_fields
    request_id ← required f.request_id
    presentation_id ← required f.presentation_id
    reason ← required f.reason
    pure (record { request_id = request_id; presentation_id = presentation_id; reason = reason })

  unfoldable pub decode_termination_request :
      List ℕ → Outcome MessageError PresentationTerminationRequest
  decode_termination_request =
      decode_as_type d ApplicationMessageType.presentation_termination_request
        decode_termination_request_body

  unfoldable pub termination_response_field :
      ℕ → TerminationResponseFields → Action (List ℕ) MessageError TerminationResponseFields
  termination_response_field key f =
      if key == 0
      then (do request_id ← read d.decoder.u64; pure (record f { request_id = some request_id }))
      else if key == 1
      then (do result ← decode_code d result_from_u8; pure (record f { result = some result }))
      else raise MessageError.invalid_field

  unfoldable pub decode_termination_response_body :
      Action (List ℕ) MessageError PresentationTerminationResponse
  decode_termination_response_body = do
    map_len ← read d.decoder.map
    ensure (is_length 2 map_len) MessageError.invalid_field
    f ← decode_fields d termination_response_field 2 no_termination_response_fields
    request_id ← required f.request_id
    result ← required f.result
    pure (record { request_id = request_id; result = result })

  unfoldable pub decode_termination_response :
      List ℕ → Outcome MessageError PresentationTerminationResponse
  decode_termination_response =
      decode_as_type d ApplicationMessageType.presentation_termination_response
        decode_termination_response_body

  unfoldable pub termination_event_field :
      ℕ → TerminationEventFields → Action (List ℕ) MessageError TerminationEventFields
  termination_event_field key f =
      if key == 0
      then (do
        presentation_id ← read d.decoder.str
        pure (record f { presentation_id = some presentation_id }))
      else if key == 1
      then (do
        source ← decode_code d termination_source_from_u8
        pure (record f { source = some source }))
      else if key == 2
      then (do
        reason ← decode_code d termination_reason_from_u8
        pure (record f { reason = some reason }))
      else raise MessageError.invalid_field

  unfoldable pub decode_termination_event_body :
      Action (List ℕ) MessageError PresentationTerminationEvent
  decode_termination_event_body = do
    map_len ← read d.decoder.map
    ensure (is_length 3 map_len) MessageError.invalid_field
    f ← decode_fields d termination_event_field 3 no_termination_event_fields
    presentation_id ← required f.presentation_id
    source ← required f.source
    reason ← required f.reason
    pure (record { presentation_id = presentation_id; source = source; reason = reason })

  unfoldable pub decode_termination_event :
      List ℕ → Outcome MessageError PresentationTerminationEvent
  decode_termination_event =
      decode_as_type d ApplicationMessageType.presentation_termination_event
        decode_termination_event_body
