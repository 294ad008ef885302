-- ===== src/Application/Codes.antt =====
-- The codes of the enumerations are in range, and are decoded to what they stand for.
use openscreen_rs.Base.{◌^◌, ◌<◌, ◌≡◌, refl, arith, ok}
use openscreen_rs.Application.Kinds.{
  ApplicationMessageType, application_key, application_type_from_u16,
}
use openscreen_rs.Application.Enumerations.{
  AgentCapability, capability_code, capability_from_u8, PresentationResult, result_code,
  result_from_u8, PresentationTerminationSource, termination_source_code,
  termination_source_from_u8, PresentationTerminationReason, termination_reason_code,
  termination_reason_from_u8, PresentationConnectionCloseReason, close_reason_code,
  close_reason_from_u8, UrlAvailability, availability_code, availability_from_u8,
}

pub application_key_lem :
    (x : ApplicationMessageType) → application_type_from_u16 (application_key x) ≡ ok x
unfolding application_type_from_u16
application_key_lem ApplicationMessageType.agent_info_request = refl
application_key_lem _ = refl

pub application_key_small : (x : ApplicationMessageType) → application_key x < 2 ^ 16
application_key_small ApplicationMessageType.agent_info_request = omega arith
application_key_small _ = omega arith

pub capability_lem : (x : AgentCapability) → capability_from_u8 (capability_code x) ≡ ok x
unfolding capability_from_u8
capability_lem AgentCapability.receive_audio = refl
capability_lem _ = refl

pub capability_small : (x : AgentCapability) → capability_code x < 256
capability_small AgentCapability.receive_audio = omega arith
capability_small _ = omega arith

pub result_lem : (x : PresentationResult) → result_from_u8 (result_code x) ≡ ok x
unfolding result_from_u8
result_lem PresentationResult.success = refl
result_lem _ = refl

pub result_small : (x : PresentationResult) → result_code x < 256
result_small PresentationResult.success = omega arith
result_small _ = omega arith

pub termination_source_lem :
    (x : PresentationTerminationSource)
    → termination_source_from_u8 (termination_source_code x) ≡ ok x
unfolding termination_source_from_u8
termination_source_lem PresentationTerminationSource.controller = refl
termination_source_lem _ = refl

pub termination_source_small : (x : PresentationTerminationSource) → termination_source_code x < 256
termination_source_small PresentationTerminationSource.controller = omega arith
termination_source_small _ = omega arith

pub termination_reason_lem :
    (x : PresentationTerminationReason)
    → termination_reason_from_u8 (termination_reason_code x) ≡ ok x
unfolding termination_reason_from_u8
termination_reason_lem PresentationTerminationReason.application_request = refl
termination_reason_lem _ = refl

pub termination_reason_small : (x : PresentationTerminationReason) → termination_reason_code x < 256
termination_reason_small PresentationTerminationReason.application_request = omega arith
termination_reason_small _ = omega arith

pub close_reason_lem :
    (x : PresentationConnectionCloseReason) → close_reason_from_u8 (close_reason_code x) ≡ ok x
unfolding close_reason_from_u8
close_reason_lem PresentationConnectionCloseReason.close_method_called = refl
close_reason_lem _ = refl

pub close_reason_small : (x : PresentationConnectionCloseReason) → close_reason_code x < 256
close_reason_small PresentationConnectionCloseReason.close_method_called = omega arith
close_reason_small _ = omega arith

pub availability_lem : (x : UrlAvailability) → availability_from_u8 (availability_code x) ≡ ok x
unfolding availability_from_u8
availability_lem UrlAvailability.available = refl
availability_lem _ = refl

pub availability_small : (x : UrlAvailability) → availability_code x < 256
availability_small UrlAvailability.available = omega arith
availability_small _ = omega arith
