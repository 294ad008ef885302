-- ===== src/Application/Messages.antt =====
-- openscreen-application/src/messages.rs: the messages. A `&str` is the list of its UTF-8 bytes.
pub mod Encode
pub mod Decode
pub mod Wire
pub mod Sizes
pub mod Reads
pub mod RoundTrip
pub mod Safe
use openscreen_rs.Base.{ℕ, Option, List}
use openscreen_rs.Application.Enumerations.{
  AgentCapability, PresentationResult, PresentationTerminationSource, PresentationTerminationReason,
  PresentationConnectionCloseReason, UrlAvailability,
}

pub record AgentInfo : Type 0 where
  pub display_name : List ℕ
  pub model_name : List ℕ
  pub capabilities : List AgentCapability
  pub state_token : List ℕ
  pub locales : List (List ℕ)

-- The capacities of `capabilities`, `locales` and `headers`.
abbrev pub max_capabilities : ℕ
max_capabilities = 16

abbrev pub max_locales : ℕ
max_locales = 8

abbrev pub max_headers : ℕ
max_headers = 8

pub record AgentInfoRequest : Type 0 where
  pub request_id : ℕ

pub record AgentInfoResponse : Type 0 where
  pub request_id : ℕ
  pub agent_info : AgentInfo

pub record Status : Type 0 where
  pub status : List ℕ

pub record AgentStatusRequest : Type 0 where
  pub request_id : ℕ
  pub status : Option Status

pub record AgentStatusResponse : Type 0 where
  pub request_id : ℕ
  pub status : Option Status

pub record AgentInfoEvent : Type 0 where
  pub agent_info : AgentInfo

pub record HttpHeader : Type 0 where
  pub key : List ℕ
  pub value : List ℕ

pub record PresentationStartRequest : Type 0 where
  pub request_id : ℕ
  pub presentation_id : List ℕ
  pub url : List ℕ
  pub headers : List HttpHeader

pub record PresentationStartResponse : Type 0 where
  pub request_id : ℕ
  pub result : PresentationResult
  pub connection_id : ℕ
  pub http_response_code : Option ℕ

pub record PresentationTerminationRequest : Type 0 where
  pub request_id : ℕ
  pub presentation_id : List ℕ
  pub reason : PresentationTerminationReason

pub record PresentationTerminationResponse : Type 0 where
  pub request_id : ℕ
  pub result : PresentationResult

pub record PresentationTerminationEvent : Type 0 where
  pub presentation_id : List ℕ
  pub source : PresentationTerminationSource
  pub reason : PresentationTerminationReason

pub record PresentationConnectionOpenRequest : Type 0 where
  pub request_id : ℕ
  pub presentation_id : List ℕ
  pub url : List ℕ

pub record PresentationConnectionOpenResponse : Type 0 where
  pub request_id : ℕ
  pub result : PresentationResult
  pub connection_id : ℕ
  pub connection_count : ℕ

pub record PresentationUrlAvailabilityRequest : Type 0 where
  pub request_id : ℕ
  pub urls : List (List ℕ)
  pub watch_duration : ℕ
  pub watch_id : ℕ

pub record PresentationUrlAvailabilityResponse : Type 0 where
  pub request_id : ℕ
  pub url_availabilities : List UrlAvailability

pub record PresentationUrlAvailabilityEvent : Type 0 where
  pub watch_id : ℕ
  pub url_availabilities : List UrlAvailability

pub record PresentationConnectionCloseEvent : Type 0 where
  pub connection_id : ℕ
  pub reason : PresentationConnectionCloseReason
  pub error_message : Option (List ℕ)
  pub connection_count : ℕ

pub record PresentationConnectionMessage : Type 0 where
  pub connection_id : ℕ
  pub message : List ℕ

pub record PresentationChangeEvent : Type 0 where
  pub presentation_id : List ℕ
  pub connection_count : ℕ

pub data ApplicationMessage : Type 0 where
  agent_info_request : AgentInfoRequest → ApplicationMessage
  agent_info_response : AgentInfoResponse → ApplicationMessage
  agent_status_request : AgentStatusRequest → ApplicationMessage
  agent_status_response : AgentStatusResponse → ApplicationMessage
  agent_info_event : AgentInfoEvent → ApplicationMessage
  presentation_url_availability_request : PresentationUrlAvailabilityRequest → ApplicationMessage
  presentation_url_availability_response : PresentationUrlAvailabilityResponse → ApplicationMessage
  presentation_url_availability_event : PresentationUrlAvailabilityEvent → ApplicationMessage
  presentation_start_request : PresentationStartRequest → ApplicationMessage
  presentation_start_response : PresentationStartResponse → ApplicationMessage
  presentation_termination_request : PresentationTerminationRequest → ApplicationMessage
  presentation_termination_response : PresentationTerminationResponse → ApplicationMessage
  presentation_termination_event : PresentationTerminationEvent → ApplicationMessage
  presentation_connection_open_request : PresentationConnectionOpenRequest → ApplicationMessage
  presentation_connection_open_response : PresentationConnectionOpenResponse → ApplicationMessage
  presentation_connection_close_event : PresentationConnectionCloseEvent → ApplicationMessage
  presentation_connection_message : PresentationConnectionMessage → ApplicationMessage
  presentation_change_event : PresentationChangeEvent → ApplicationMessage
