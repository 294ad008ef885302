-- ===== src/Application/Enumerations.antt =====
-- openscreen-application/src/messages.rs: the enumerations that the messages carry, with their codes.
use openscreen_rs.Base.{ℕ, Outcome, ok, err, if◌then◌else◌, ◌==◌}
use openscreen_rs.Common.{MessageError}

pub data AgentCapability : Type 0 where
  receive_audio : AgentCapability
  receive_video : AgentCapability
  receive_presentation : AgentCapability
  control_presentation : AgentCapability
  receive_remote_playback : AgentCapability
  control_remote_playback : AgentCapability
  receive_streaming : AgentCapability
  send_streaming : AgentCapability

-- `as u8`
abbrev pub capability_code : AgentCapability → ℕ
capability_code AgentCapability.receive_audio = 1
capability_code AgentCapability.receive_video = 2
capability_code AgentCapability.receive_presentation = 3
capability_code AgentCapability.control_presentation = 4
capability_code AgentCapability.receive_remote_playback = 5
capability_code AgentCapability.control_remote_playback = 6
capability_code AgentCapability.receive_streaming = 7
capability_code AgentCapability.send_streaming = 8

unfoldable pub capability_from_u8 : ℕ → Outcome MessageError AgentCapability
capability_from_u8 value =
    if value == 1
    then ok AgentCapability.receive_audio
    else if value == 2
    then ok AgentCapability.receive_video
    else if value == 3
    then ok AgentCapability.receive_presentation
    else if value == 4
    then ok AgentCapability.control_presentation
    else if value == 5
    then ok AgentCapability.receive_remote_playback
    else if value == 6
    then ok AgentCapability.control_remote_playback
    else if value == 7
    then ok AgentCapability.receive_streaming
    else if value == 8
    then ok AgentCapability.send_streaming
    else err MessageError.invalid_field

pub data PresentationResult : Type 0 where
  success : PresentationResult
  invalid_url : PresentationResult
  invalid_presentation_id : PresentationResult
  timeout : PresentationResult
  transient_error : PresentationResult

-- `as u8`
abbrev pub result_code : PresentationResult → ℕ
result_code PresentationResult.success = 1
result_code PresentationResult.invalid_url = 10
result_code PresentationResult.invalid_presentation_id = 11
result_code PresentationResult.timeout = 100
result_code PresentationResult.transient_error = 101

unfoldable pub result_from_u8 : ℕ → Outcome MessageError PresentationResult
result_from_u8 value =
    if value == 1
    then ok PresentationResult.success
    else if value == 10
    then ok PresentationResult.invalid_url
    else if value == 11
    then ok PresentationResult.invalid_presentation_id
    else if value == 100
    then ok PresentationResult.timeout
    else if value == 101
    then ok PresentationResult.transient_error
    else err MessageError.invalid_field

pub data PresentationTerminationSource : Type 0 where
  controller : PresentationTerminationSource
  receiver : PresentationTerminationSource
  unknown : PresentationTerminationSource

-- `as u8`
abbrev pub termination_source_code : PresentationTerminationSource → ℕ
termination_source_code PresentationTerminationSource.controller = 1
termination_source_code PresentationTerminationSource.receiver = 2
termination_source_code PresentationTerminationSource.unknown = 255

unfoldable pub termination_source_from_u8 : ℕ → Outcome MessageError PresentationTerminationSource
termination_source_from_u8 value =
    if value == 1
    then ok PresentationTerminationSource.controller
    else if value == 2
    then ok PresentationTerminationSource.receiver
    else if value == 255
    then ok PresentationTerminationSource.unknown
    else err MessageError.invalid_field

pub data PresentationTerminationReason : Type 0 where
  application_request : PresentationTerminationReason
  user_request : PresentationTerminationReason
  receiver_replaced_presentation : PresentationTerminationReason
  receiver_idle_too_long : PresentationTerminationReason
  receiver_attempted_to_navigate : PresentationTerminationReason
  receiver_powering_down : PresentationTerminationReason
  receiver_error : PresentationTerminationReason
  unknown : PresentationTerminationReason

-- `as u8`
abbrev pub termination_reason_code : PresentationTerminationReason → ℕ
termination_reason_code PresentationTerminationReason.application_request = 1
termination_reason_code PresentationTerminationReason.user_request = 2
termination_reason_code PresentationTerminationReason.receiver_replaced_presentation = 20
termination_reason_code PresentationTerminationReason.receiver_idle_too_long = 30
termination_reason_code PresentationTerminationReason.receiver_attempted_to_navigate = 31
termination_reason_code PresentationTerminationReason.receiver_powering_down = 100
termination_reason_code PresentationTerminationReason.receiver_error = 101
termination_reason_code PresentationTerminationReason.unknown = 255

unfoldable pub termination_reason_from_u8 : ℕ → Outcome MessageError PresentationTerminationReason
termination_reason_from_u8 value =
    if value == 1
    then ok PresentationTerminationReason.application_request
    else if value == 2
    then ok PresentationTerminationReason.user_request
    else if value == 20
    then ok PresentationTerminationReason.receiver_replaced_presentation
    else if value == 30
    then ok PresentationTerminationReason.receiver_idle_too_long
    else if value == 31
    then ok PresentationTerminationReason.receiver_attempted_to_navigate
    else if value == 100
    then ok PresentationTerminationReason.receiver_powering_down
    else if value == 101
    then ok PresentationTerminationReason.receiver_error
    else if value == 255
    then ok PresentationTerminationReason.unknown
    else err MessageError.invalid_field

pub data PresentationConnectionCloseReason : Type 0 where
  close_method_called : PresentationConnectionCloseReason
  connection_object_discarded : PresentationConnectionCloseReason
  unrecoverable_error : PresentationConnectionCloseReason

-- `as u8`
abbrev pub close_reason_code : PresentationConnectionCloseReason → ℕ
close_reason_code PresentationConnectionCloseReason.close_method_called = 1
close_reason_code PresentationConnectionCloseReason.connection_object_discarded = 10
close_reason_code PresentationConnectionCloseReason.unrecoverable_error = 100

unfoldable pub close_reason_from_u8 : ℕ → Outcome MessageError PresentationConnectionCloseReason
close_reason_from_u8 value =
    if value == 1
    then ok PresentationConnectionCloseReason.close_method_called
    else if value == 10
    then ok PresentationConnectionCloseReason.connection_object_discarded
    else if value == 100
    then ok PresentationConnectionCloseReason.unrecoverable_error
    else err MessageError.invalid_field

pub data UrlAvailability : Type 0 where
  available : UrlAvailability
  unavailable : UrlAvailability
  invalid : UrlAvailability

-- `as u8`
abbrev pub availability_code : UrlAvailability → ℕ
availability_code UrlAvailability.available = 0
availability_code UrlAvailability.unavailable = 1
availability_code UrlAvailability.invalid = 10

unfoldable pub availability_from_u8 : ℕ → Outcome MessageError UrlAvailability
availability_from_u8 value =
    if value == 0
    then ok UrlAvailability.available
    else if value == 1
    then ok UrlAvailability.unavailable
    else if value == 10
    then ok UrlAvailability.invalid
    else err MessageError.invalid_field
