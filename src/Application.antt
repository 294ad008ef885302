-- ===== src/Application.antt =====
-- openscreen-application/src: the application protocol. Here are the inputs, outputs, events and errors
-- of its state machine (lib.rs) and its state (state.rs); the messages and the machine are below.
pub mod Kinds
pub mod Enumerations
pub mod Codes
pub mod Messages
pub mod Machine
use openscreen_rs.Base.{ℕ, Bool, true, false, Option, List}
use openscreen_rs.Crypto.{CryptoRequest, CryptoResult}
use openscreen_rs.Network.{NetworkError}
use openscreen_rs.Application.Enumerations.{
  PresentationTerminationReason, PresentationConnectionCloseReason,
}

-- MAX_OUTPUT_QUEUE of this crate.
abbrev pub max_application_queue : ℕ
max_application_queue = 16

pub data ApplicationInput : Type 0 where
  start_presentation : (url : List ℕ) (presentation_id : List ℕ) → ApplicationInput
  terminate_presentation :
      (presentation_id : List ℕ) (reason : PresentationTerminationReason) → ApplicationInput
  check_url_availability : (urls : List (List ℕ)) (watch_duration : ℕ) → ApplicationInput
  open_presentation_connection : (presentation_id : List ℕ) (url : List ℕ) → ApplicationInput
  send_presentation_message : (connection_id : ℕ) (message : List ℕ) → ApplicationInput
  close_presentation_connection :
      (connection_id : ℕ) (reason : PresentationConnectionCloseReason) → ApplicationInput
  request_agent_status : (status_message : Option (List ℕ)) → ApplicationInput
  request_agent_info : ApplicationInput
  transport_connected : ApplicationInput
  stream_opened : (stream : ℕ) → ApplicationInput
  stream_closed : (stream : ℕ) → ApplicationInput
  data_received : (stream : ℕ) (bytes : List ℕ) → ApplicationInput
  crypto_completed : CryptoResult → ApplicationInput
  tick : (timestamp : ℕ) → ApplicationInput

pub data ApplicationEvent : Type 0 where
  authenticated authentication_failed : ApplicationEvent
  presentation_started : (connection_id : ℕ) → ApplicationEvent
  presentation_rejected : ApplicationEvent
  presentation_terminated :
      (presentation_id : List ℕ) (reason : PresentationTerminationReason) → ApplicationEvent
  presentation_connection_opened : (connection_id : ℕ) → ApplicationEvent
  presentation_message_received : (connection_id : ℕ) (message : List ℕ) → ApplicationEvent
  presentation_connection_closed :
      (connection_id : ℕ) (reason : PresentationConnectionCloseReason) → ApplicationEvent
  url_availability_changed : (urls : List (List ℕ)) (available : Bool) → ApplicationEvent
  agent_status_received : (status_message : Option (List ℕ)) → ApplicationEvent
  agent_info_changed presentation_changed : ApplicationEvent

pub data ApplicationOutput : Type 0 where
  open_bi_stream : ApplicationOutput
  send_data : (stream : ℕ) (bytes : List ℕ) → ApplicationOutput
  close_stream : (stream : ℕ) → ApplicationOutput
  close_connection : ApplicationOutput
  request_crypto : CryptoRequest → ApplicationOutput
  needs_poll : ApplicationOutput
  event : ApplicationEvent → ApplicationOutput

pub data ApplicationError : Type 0 where
  invalid_state encode_failed decode_failed : ApplicationError
  network_error : NetworkError → ApplicationError
  buffer_full not_authenticated : ApplicationError

pub data ApplicationState : Type 0 where
  idle authenticated presenting : ApplicationState

-- ApplicationState::is_authenticated and ApplicationState::is_presenting
abbrev pub state_is_authenticated : ApplicationState → Bool
state_is_authenticated ApplicationState.idle = false
state_is_authenticated _ = true

abbrev pub state_is_presenting : ApplicationState → Bool
state_is_presenting ApplicationState.presenting = true
state_is_presenting _ = false
