-- ===== src/Application/Machine/Requests.antt =====
-- The commands of the user, and the message that each stands for.
use openscreen_rs.Base.{ℕ, Bool, true, false, Option, none, List, []}
use openscreen_rs.Network.{NetworkInput}
use openscreen_rs.Application.{ApplicationInput}
use openscreen_rs.Application.Enumerations.{
  PresentationTerminationReason, PresentationConnectionCloseReason,
}
use openscreen_rs.Application.Messages.{ApplicationMessage}
use openscreen_rs.Application.Machine.Commands.{status_of}

pub data Command : Type 0 where
  start : (url : List ℕ) (presentation_id : List ℕ) → Command
  terminate : (presentation_id : List ℕ) (reason : PresentationTerminationReason) → Command
  check : (urls : List (List ℕ)) (watch_duration : ℕ) → Command
  open_connection : (presentation_id : List ℕ) (url : List ℕ) → Command
  send_message : (connection_id : ℕ) (message : List ℕ) → Command
  close : (connection_id : ℕ) (reason : PresentationConnectionCloseReason) → Command
  ask_status : (status_message : Option (List ℕ)) → Command
  ask_info : Command

abbrev pub input_of : Command → ApplicationInput
input_of (Command.start url presentation_id) =
    ApplicationInput.start_presentation url presentation_id
input_of (Command.terminate presentation_id reason) =
    ApplicationInput.terminate_presentation presentation_id reason
input_of (Command.check urls watch_duration) =
    ApplicationInput.check_url_availability urls watch_duration
input_of (Command.open_connection presentation_id url) =
    ApplicationInput.open_presentation_connection presentation_id url
input_of (Command.send_message connection_id message) =
    ApplicationInput.send_presentation_message connection_id message
input_of (Command.close connection_id reason) =
    ApplicationInput.close_presentation_connection connection_id reason
input_of (Command.ask_status status_message) = ApplicationInput.request_agent_status status_message
input_of Command.ask_info = ApplicationInput.request_agent_info

-- The message, with the request id for those that carry one.
abbrev pub request_of : Command → ℕ → ApplicationMessage
request_of (Command.start url presentation_id) id =
    ApplicationMessage.presentation_start_request
      (record { request_id = id; presentation_id = presentation_id; url = url; headers = [] })
request_of (Command.terminate presentation_id reason) id =
    ApplicationMessage.presentation_termination_request
      (record { request_id = id; presentation_id = presentation_id; reason = reason })
request_of (Command.check urls watch_duration) id =
    ApplicationMessage.presentation_url_availability_request
      (record { request_id = id; urls = urls; watch_duration = watch_duration; watch_id = 0 })
request_of (Command.open_connection presentation_id url) id =
    ApplicationMessage.presentation_connection_open_request
      (record { request_id = id; presentation_id = presentation_id; url = url })
request_of (Command.send_message connection_id message) id =
    ApplicationMessage.presentation_connection_message
      (record { connection_id = connection_id; message = message })
request_of (Command.close connection_id reason) id =
    ApplicationMessage.presentation_connection_close_event (record {
      connection_id = connection_id;
      reason = reason;
      error_message = none;
      connection_count = 0;
    })
request_of (Command.ask_status status_message) id =
    ApplicationMessage.agent_status_request
      (record { request_id = id; status = status_of status_message })
request_of Command.ask_info id = ApplicationMessage.agent_info_request (record { request_id = id })

-- Whether the message carries a request id.
abbrev pub is_numbered : Command → Bool
is_numbered (Command.send_message connection_id message) = false
is_numbered (Command.close connection_id reason) = false
is_numbered _ = true

-- The other inputs, named as in the network layer.
abbrev pub input_from : NetworkInput → ApplicationInput
input_from NetworkInput.transport_connected = ApplicationInput.transport_connected
input_from (NetworkInput.stream_opened stream) = ApplicationInput.stream_opened stream
input_from (NetworkInput.stream_closed stream) = ApplicationInput.stream_closed stream
input_from (NetworkInput.data_received stream bytes) = ApplicationInput.data_received stream bytes
input_from (NetworkInput.crypto_completed result) = ApplicationInput.crypto_completed result
input_from (NetworkInput.tick now) = ApplicationInput.tick now

-- Every input is a command or one of the others.
pub by_input :
    (P : ApplicationInput → Type 0)
    → ((c : Command) → P (input_of c))
    → ((n : NetworkInput) → P (input_from n))
    → (input : ApplicationInput) → P input
by_input P command other (ApplicationInput.start_presentation url presentation_id) =
    command (Command.start url presentation_id)
by_input P command other (ApplicationInput.terminate_presentation presentation_id reason) =
    command (Command.terminate presentation_id reason)
by_input P command other (ApplicationInput.check_url_availability urls watch_duration) =
    command (Command.check urls watch_duration)
by_input P command other (ApplicationInput.open_presentation_connection presentation_id url) =
    command (Command.open_connection presentation_id url)
by_input P command other (ApplicationInput.send_presentation_message connection_id message) =
    command (Command.send_message connection_id message)
by_input P command other (ApplicationInput.close_presentation_connection connection_id reason) =
    command (Command.close connection_id reason)
by_input P command other (ApplicationInput.request_agent_status status_message) =
    command (Command.ask_status status_message)
by_input P command other ApplicationInput.request_agent_info = command Command.ask_info
by_input P command other ApplicationInput.transport_connected =
    other NetworkInput.transport_connected
by_input P command other (ApplicationInput.stream_opened stream) =
    other (NetworkInput.stream_opened stream)
by_input P command other (ApplicationInput.stream_closed stream) =
    other (NetworkInput.stream_closed stream)
by_input P command other (ApplicationInput.data_received stream bytes) =
    other (NetworkInput.data_received stream bytes)
by_input P command other (ApplicationInput.crypto_completed result) =
    other (NetworkInput.crypto_completed result)
by_input P command other (ApplicationInput.tick now) = other (NetworkInput.tick now)
