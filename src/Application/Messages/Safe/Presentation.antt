-- ===== src/Application/Messages/Safe/Presentation.antt =====
-- The decoders of the messages that start and terminate presentations and
-- that ask for the availability of URLs never panic.
use openscreen_rs.Base.{ℕ, refl, ◌||◌}
use openscreen_rs.Network.Messages.Codec.Decode.{is_length}
use openscreen_rs.Base.Safe.{Safe, Safe-bind}
use openscreen_rs.Deps.{Deps}
use openscreen_rs.Application.Messages.Safe.{field_rules}
use openscreen_rs.Network.Messages.Codec.Safe.{read-Safe, unwrap-Safe}
use openscreen_rs.Application.Messages.Decode.Start.{
  decode_header, start_request_field, decode_start_request_body, start_response_field,
  decode_start_response_body, StartRequestFields, StartResponseFields,
}
use openscreen_rs.Application.Messages.Decode.Termination.{
  termination_request_field, decode_termination_request_body, termination_response_field,
  decode_termination_response_body, termination_event_field, decode_termination_event_body,
  TerminationRequestFields, TerminationResponseFields, TerminationEventFields,
}
use openscreen_rs.Application.Messages.Decode.Availability.{
  availability_request_field, decode_availability_request_body, availability_response_field,
  decode_availability_response_body, availability_event_field, decode_availability_event_body,
  AvailabilityRequestFields, AvailabilityResponseFields, AvailabilityEventFields,
}

module _ (d : Deps) where
  decode_header-Safe : Safe (decode_header d)
  unfolding decode_header
  decode_header-Safe = search (field_rules) depth 24

  start_request_field-Safe : (key : ℕ) (f : StartRequestFields) → Safe (start_request_field d key f)
  unfolding start_request_field
  start_request_field-Safe key f = search (field_rules, decode_header-Safe) depth 24

  start_response_field-Safe :
      (key : ℕ) (f : StartResponseFields) → Safe (start_response_field d key f)
  unfolding start_response_field
  start_response_field-Safe key f = search (field_rules) depth 24

  pub decode_start_request_body-Safe : Safe (decode_start_request_body d)
  unfolding decode_start_request_body
  decode_start_request_body-Safe = search (field_rules, start_request_field-Safe) depth 24

  pub decode_start_response_body-Safe : Safe (decode_start_response_body d)
  unfolding decode_start_response_body
  decode_start_response_body-Safe = Safe-bind _ _ (read-Safe _) (λ map_len.
      unwrap-Safe (is_length 3 map_len || is_length 4 map_len) _ map_len _ (λ h. rw h refl)
        (λ count. search (field_rules, start_response_field-Safe) depth 24))

  termination_request_field-Safe :
      (key : ℕ) (f : TerminationRequestFields) → Safe (termination_request_field d key f)
  unfolding termination_request_field
  termination_request_field-Safe key f = search (field_rules) depth 24

  termination_response_field-Safe :
      (key : ℕ) (f : TerminationResponseFields) → Safe (termination_response_field d key f)
  unfolding termination_response_field
  termination_response_field-Safe key f = search (field_rules) depth 24

  termination_event_field-Safe :
      (key : ℕ) (f : TerminationEventFields) → Safe (termination_event_field d key f)
  unfolding termination_event_field
  termination_event_field-Safe key f = search (field_rules) depth 24

  pub decode_termination_request_body-Safe : Safe (decode_termination_request_body d)
  unfolding decode_termination_request_body
  decode_termination_request_body-Safe =
      search (field_rules, termination_request_field-Safe) depth 24

  pub decode_termination_response_body-Safe : Safe (decode_termination_response_body d)
  unfolding decode_termination_response_body
  decode_termination_response_body-Safe =
      search (field_rules, termination_response_field-Safe) depth 24

  pub decode_termination_event_body-Safe : Safe (decode_termination_event_body d)
  unfolding decode_termination_event_body
  decode_termination_event_body-Safe = search (field_rules, termination_event_field-Safe) depth 24

  availability_request_field-Safe :
      (key : ℕ) (f : AvailabilityRequestFields) → Safe (availability_request_field d key f)
  unfolding availability_request_field
  availability_request_field-Safe key f = search (field_rules) depth 24

  availability_response_field-Safe :
      (key : ℕ) (f : AvailabilityResponseFields) → Safe (availability_response_field d key f)
  unfolding availability_response_field
  availability_response_field-Safe key f = search (field_rules) depth 24

  availability_event_field-Safe :
      (key : ℕ) (f : AvailabilityEventFields) → Safe (availability_event_field d key f)
  unfolding availability_event_field
  availability_event_field-Safe key f = search (field_rules) depth 24

  pub decode_availability_request_body-Safe : Safe (decode_availability_request_body d)
  unfolding decode_availability_request_body
  decode_availability_request_body-Safe =
      search (field_rules, availability_request_field-Safe) depth 24

  pub decode_availability_response_body-Safe : Safe (decode_availability_response_body d)
  unfolding decode_availability_response_body
  decode_availability_response_body-Safe =
      search (field_rules, availability_response_field-Safe) depth 24

  pub decode_availability_event_body-Safe : Safe (decode_availability_event_body d)
  unfolding decode_availability_event_body
  decode_availability_event_body-Safe = search (field_rules, availability_event_field-Safe) depth 24
